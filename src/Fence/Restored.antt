-- ===== src/Fence/Restored.antt =====
-- The policies that a release restores after attempts to quiesce the host, however these ended.
use glassops.Prelude.{
  ◌⊎◌, Bool-cases, ◌≡◌, refl, sym, ap, ◌∙◌, String, Bool, true, false, inl, inr, Option, none, some,
  List, [], ◌∷◌, contains, arith, Option-cases, string_eq,
}
use mathlib.Core.Option
use mathlib.Core.Path.{subst}
use glassops.Fence.{
  Result, ok, err, Result-cases, Policy, Scoped, Sheet, torn, sealed, PreparedRecord, Files,
  ReleaseRecord,
}
use glassops.Fence.Authority.{Outside, container_ids}
use glassops.Fence.Release.{Docker, wanted_policy, release_allowed}
use glassops.Fence.Release.Start.{put_back, write_release, release}
use glassops.Fence.Quiesce.{
  Preflight, Attempt, prepared_body, prepare_record, pin_all, quiesce, write_manifest, fence_scope,
  fence,
}
use glassops.Fence.Policies.{IsDocker, pin_all-other, stop_all-policy, put_back-policy}
use glassops.Fence.Attempts.{
  attempt_all, Captured, prepare_record-cases, prepare_record-named, fence-cases,
  preflight-Captured,
}

module _ {Host : Type 0} (d : Docker Host) (policy_of : String → Host → Option Policy)
    (l : IsDocker d policy_of) where
  -- The record of the first attempt that wrote one tells the policies of that time, and no other
  -- container was touched.
  abbrev Original : Host → Option (Sheet PreparedRecord) → Host → Type 0
  Original h0 none h = (j : String) → policy_of j h ≡ policy_of j h0
  Original h0 (some torn) h = (j : String) → policy_of j h ≡ policy_of j h0
  Original h0 (some (sealed p)) h =
      Captured d policy_of l h0 p.scope
      × ((j : String) → contains (container_ids p.scope) j ≡ false → policy_of j h ≡ policy_of j h0)

  quiesce-other :
      (scope : List Scoped) (h : Host) (j : String)
      → contains (container_ids scope) j ≡ false
      → policy_of j (quiesce d scope h).0 ≡ policy_of j h
  unfolding quiesce
  quiesce-other scope h j outside = ground (
    arith,
    pin_all-other d policy_of l scope h j outside,
    stop_all-policy d policy_of l scope (pin_all d scope h).0 j,
  )

  write_manifest-keeps :
      (o : Outside) (a : Attempt) (pre : Preflight) (scope : List Scoped) (f : Files)
      (out : Host × Result (Unit {0}))
      → ((write_manifest o d a pre scope f out).0.0.prepared ≡ f.prepared)
        × ((write_manifest o d a pre scope f out).0.1 ≡ out.0)
  unfolding write_manifest
  write_manifest-keeps o a pre scope f (h, err e) = (refl, refl)
  write_manifest-keeps o a pre scope f (h, ok t) = (ground arith, ground arith)

  All-moved :
      (h0 h : Host) (scope : List Scoped)
      → ((j : String) → policy_of j h ≡ policy_of j h0)
      → Captured d policy_of l h scope
      → Captured d policy_of l h0 scope
  All-moved h0 h [] same c = tt
  All-moved h0 h (s ∷ rest) same c = (sym (same s.container_id) ∙ c.0, All-moved h0 h rest same c.1)

  prepare_record-Original :
      (h0 h : Host) (pre : Preflight) (written : Bool) (f : Files)
      → Captured d policy_of l h (prepared_body pre).scope
      → Original h0 f.prepared h
      → Original h0 (prepare_record pre written f).0.prepared h
  prepare_record-Original h0 h pre written f captured original =
      elim (prepare_record-cases pre written f) [
        | inl same ↦ subst (λ x. Original h0 x h) (sym same) original
        | inr (missing, new) ↦
            let untouched = subst (λ x. Original h0 x h) missing original in
            subst (λ x. Original h0 x h) (sym new)
              (All-moved h0 h (prepared_body pre).scope untouched captured, λ j _. untouched j)
      ]

  -- From the record on, the host is changed within its scope.
  fence_scope-Original :
      (o : Outside) (a : Attempt) (pre : Preflight) (h0 h : Host) (f : Files)
      (r : Result PreparedRecord)
      → Original h0 f.prepared h
      → ((p : PreparedRecord) → r ≡ ok p → f.prepared ≡ some (sealed p))
      → Original h0
          (fence_scope o d a pre (f, r) h).0.0.prepared
          (fence_scope o d a pre (f, r) h).0.1
  unfolding fence_scope
  fence_scope-Original o a pre h0 h f (err e) original named = original
  fence_scope-Original o a pre h0 h f (ok p) original named =
      let out = quiesce d p.scope h in
      let (files, host) = write_manifest-keeps o a pre p.scope f out in
      let (captured, others) = subst (λ x. Original h0 x h) (named p refl) original in
      subst (λ x. Original h0 x (write_manifest o d a pre p.scope f out).0.1)
        (sym (files ∙ named p refl))
        (
          captured,
          λ j outside. ap (policy_of j) host ∙ quiesce-other p.scope h j outside ∙ others j outside,
        )

  fence-Original :
      (o : Outside) (a : Attempt) (h0 : Host) (f : Files) (h : Host)
      → Original h0 f.prepared h
      → Original h0 (fence o d a f h).0.0.prepared (fence o d a f h).0.1
  fence-Original o a h0 f h original = elim (fence-cases o d a f h) [
    | inl same ↦ subst (λ (x : Files × Host). Original h0 x.0.prepared x.1) (sym same) original
    | inr (pre, looked, same) ↦
        subst (λ (x : Files × Host). Original h0 x.0.prepared x.1) (sym same)
          (fence_scope-Original o a pre h0 h (prepare_record pre a.prepared_written f).0
            (prepare_record pre a.prepared_written f).1
            (prepare_record-Original h0 h pre a.prepared_written f
              (preflight-Captured d policy_of l o a h looked) original)
            (prepare_record-named pre a.prepared_written f))
  ]

  attempt_all-Original :
      (o : Outside) (attempts : List Attempt) (h0 : Host) (f : Files) (h : Host)
      → Original h0 f.prepared h
      → Original h0 (attempt_all o d attempts f h).0.prepared (attempt_all o d attempts f h).1
  attempt_all-Original o [] h0 f h original = original
  attempt_all-Original o (a ∷ rest) h0 f h original =
      attempt_all-Original o rest h0 (fence o d a f h).0.0 (fence o d a f h).0.1
        (fence-Original o a h0 f h original)

  write_release-host :
      (lease_id : String) (restored : List String) (written : Bool) (f : Files)
      (out : Host × Result (List String × List String)) {r : ReleaseRecord}
      → (write_release lease_id restored written f out).1 ≡ ok r
      → ((write_release lease_id restored written f out).0.1 ≡ out.0)
        × ((ids : List String × List String) × (out.1 ≡ ok ids))
  unfolding write_release
  write_release-host lease_id restored written f (h, err e) returned = absurd (ground arith)
  write_release-host lease_id restored true f (h, ok ids) returned = (refl, (ids, refl))
  write_release-host lease_id restored false f (h, ok ids) returned = absurd (ground arith)

  -- A release that returns has put back the scope of the record.
  release-host :
      (base : String) (answered durable start : Bool) (allow : List String) (written : Bool)
      (f f' : Files) (h : Host) {r : ReleaseRecord}
      → (release d base answered durable start allow written f f' h).1 ≡ ok r
      → (p : PreparedRecord) × (f.prepared ≡ some (sealed p))
        × ((release d base answered durable start allow written f f' h).0.1
            ≡ (put_back d start allow p.scope h).0)
        × ((ids : List String × List String) × ((put_back d start allow p.scope h).1 ≡ ok ids))
  unfolding release release_allowed
  release-host base answered durable start allow written f f' h {r} returned =
      elim (Option-cases f.prepared) [
        | inl missing ↦ absurd (ground (arith, missing))
        | inr (torn, found) ↦ absurd (ground (arith, found))
        | inr (sealed p, found) ↦ elim (Result-cases (release_allowed base answered durable f)) [
          | inl (e, refused) ↦ absurd (ground (arith, refused))
          | inr ((scope, lease_id), allowed) ↦
              let same : scope ≡ p.scope = ground (arith, found, allowed) in
              let out = put_back d start allow scope h in
              let (host, done) =
                write_release-host lease_id (container_ids scope) written f' out {r = r}
                  (ground (arith, allowed)) in
              (
                p,
                found,
                ground (arith, allowed, same, host),
                (done.0, ground (arith, same, done.1)),
              )
        ]
      ]

  -- On a host whose docker keeps its word, after any attempts to quiesce it, each of which may end
  -- at any step, a release that returns leaves every container with the restart policy that it had
  -- before the first attempt, where an empty name counts as Docker's default.
  pub release-restores :
      (o : Outside) (attempts : List Attempt) (f : Files) (h : Host) (base : String)
      (answered durable start : Bool) (allow : List String) (written : Bool) (later : Files)
      {r : ReleaseRecord}
      → f.prepared ≡ none
      → (release d base answered durable start allow written
          (attempt_all o d attempts f h).0
          later
          (attempt_all o d attempts f h).1).1
        ≡ ok r
      → (j : String)
      → let h' =
          (release d base answered durable start allow written
            (attempt_all o d attempts f h).0
            later
            (attempt_all o d attempts f h).1).0.1 in
        (policy_of j h' ≡ policy_of j h)
        ⊎ (policy_of j h' ≡ Option.map wanted_policy (policy_of j h))
  release-restores o attempts f h base answered durable start allow written later {r} fresh returned
        j =
      let f1 = (attempt_all o d attempts f h).0 in
      let h1 = (attempt_all o d attempts f h).1 in
      let start_original = subst (λ x. Original h x h) (sym fresh) (λ j. refl) in
      let (p, found, host, (ids, done)) =
        release-host base answered durable start allow written f1 later h1 {r = r} returned in
      let (captured, others) =
        subst (λ x. Original h x h1) found (attempt_all-Original o attempts h f h start_original) in
      let put =
        put_back-policy d policy_of l start allow (λ id. policy_of id h) p.scope h1 j captured
          {ids = ids} done in
      elim (Bool-cases (contains (container_ids p.scope) j)) [
        | inl inside ↦ inr (ground (arith, host, put, inside))
        | inr outside ↦ inl (ground (arith, host, put, outside, others j outside))
      ]

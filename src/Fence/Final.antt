-- ===== src/Fence/Final.antt =====
-- No release during an apply, and no permission after a release.
use glassops.Prelude.{
  ◌≡◌, refl, String, Bool, true, false, Option, List, [], ◌∷◌, ℕ, arith, inl, inr,
}
use glassops.Fence.{
  Result, ok, err, Result-cases, is_ok, Manifest, ReleaseRecord, Files, exists_file,
  read_apply_record,
}
use glassops.Fence.Authority.{Outside, container_ids}
use glassops.Fence.Claims.{
  require_active, claim_allowed, claim, apply_allowed, note_applying, begin_apply,
  check_before_source_open,
}
use glassops.Fence.Release.{
  Docker, read_release_record, require_durable_terminal, require_spent, release_allowed,
}
use glassops.Fence.Release.Start.{put_back, write_release, release}
use glassops.Fence.Steps.{
  Event, claims, begins, checks, completes, fails, releases, step, run, authorises, any_authorised,
}
use glassops.Fence.Once.{step-Keeps, run-Keeps}
use glassops.Fence.Spent.{release-IsSpent}

write_release-written :
    {Host : Type 0} (lease_id : String) (restored : List String) (written : Bool) (f : Files)
    (out : Host × Result (List String × List String)) {r : ReleaseRecord}
    → (write_release lease_id restored written f out).1 ≡ ok r
    → exists_file (write_release lease_id restored written f out).0.0.release ≡ true
unfolding write_release
write_release-written lease_id restored written f (h, err e) returned = ground arith
write_release-written lease_id restored true f (h, ok ids) returned = refl
write_release-written lease_id restored false f (h, ok ids) returned = ground arith

module _ {Host : Type 0} (d : Docker Host) where
  -- A release in the middle of a claim changes nothing.
  release-in_flight :
      (base : String) (answered durable start : Bool) (allow : List String) (written : Bool)
      (seen f : Files) (h : Host)
      → exists_file seen.claim ≡ true
      → exists_file seen.done ≡ false
      → (release d base answered durable start allow written seen f h).0 ≡ (f, h)
  unfolding require_spent require_durable_terminal read_release_record read_apply_record
  release-in_flight base answered durable start allow written seen f h there live =
      elim (release-IsSpent d base answered durable start allow written seen f h) [
        | inl same ↦ same
        | inr (inl (no_claim, no_done)) ↦ absurd (ground (arith, no_claim))
        | inr (inr spent) ↦ absurd (ground (arith, spent.has_terminal))
      ]

  release-written :
      (base : String) (answered durable start : Bool) (allow : List String) (written : Bool)
      (seen f : Files) (h : Host) {r : ReleaseRecord}
      → (release d base answered durable start allow written seen f h).1 ≡ ok r
      → exists_file (release d base answered durable start allow written seen f h).0.0.release
        ≡ true
  unfolding release
  release-written base answered durable start allow written seen f h {r} done =
      elim (Result-cases (release_allowed base answered durable seen)) [
        | inl (e, refused) ↦ absurd (ground (arith, refused))
        | inr ((scope, lease_id), allowed) ↦ ground (
          arith,
          allowed,
          write_release-written lease_id (container_ids scope) written f
              (put_back d start allow scope h) {r = r},
        )
      ]

module _ {Host : Type 0} (o : Outside) (verifier : Option String) (d : Docker Host)
    (m : Manifest) where
  -- From the return of `begin_apply` until a terminal record is there, whatever else is called, a
  -- release that makes its tests then leaves the files and the host as they are, whatever becomes of
  -- the files after its tests.
  pub begin_apply-protected :
      (claim_id : String) (now : ℕ) (fresh : String) (rewritten : Bool) (f : Files)
      (es : List (Event Host)) (answered durable start : Bool) (allow : List String)
      (written : Bool) (f' : Files) (h : Host)
      → is_ok (begin_apply o verifier m claim_id now fresh rewritten f).1 ≡ true
      → exists_file
          (run o verifier d m es (begin_apply o verifier m claim_id now fresh rewritten f).0).done
        ≡ false
      → (release d m.path answered durable start allow written
          (run o verifier d m es (begin_apply o verifier m claim_id now fresh rewritten f).0)
          f'
          h).0
        ≡ (f', h)
  unfolding begin_apply note_applying read_apply_record
  begin_apply-protected claim_id now fresh rewritten f es answered durable start allow written f' h
        began unfinished =
      let begun = (begin_apply o verifier m claim_id now fresh rewritten f).0 in
      let there : exists_file begun.claim ≡ true = ground arith in
      release-in_flight d m.path answered durable start allow written (run o verifier d m es begun)
        f' h ((run-Keeps o verifier d m es begun).0 there) unfinished

  released-unauthorised :
      (e : Event Host) (f : Files)
      → exists_file f.release ≡ true
      → authorises o verifier d m e f ≡ false
  unfolding claim claim_allowed begin_apply apply_allowed require_active check_before_source_open
  released-unauthorised (claims w fresh written) f released = ground arith
  released-unauthorised (begins id now fresh rewritten) f released = ground arith
  released-unauthorised (checks id w path) f released = ground arith
  released-unauthorised (completes id now written rewritten) f released = refl
  released-unauthorised (fails id reason now written rewritten) f released = refl
  released-unauthorised (releases answered durable start allow written seen h) f released = refl

  released-none :
      (es : List (Event Host)) (f : Files)
      → exists_file f.release ≡ true
      → any_authorised o verifier d m es f ≡ false
  released-none [] f released = refl
  released-none (e ∷ es) f released =
      rw (released-unauthorised e f released)
        (released-none es (step o verifier d m e f) ((step-Keeps o verifier d m e f).2 released))

  -- Once a release has returned, nothing that is called later gives a permission: no claim, no
  -- start of an apply and no grant for the source.
  pub release-final :
      (answered durable start : Bool) (allow : List String) (written : Bool) (seen f : Files)
      (h : Host) (es : List (Event Host)) {r : ReleaseRecord}
      → (release d m.path answered durable start allow written seen f h).1 ≡ ok r
      → any_authorised o verifier d m es
          (release d m.path answered durable start allow written seen f h).0.0
        ≡ false
  release-final answered durable start allow written seen f h es returned =
      released-none es (release d m.path answered durable start allow written seen f h).0.0
        (release-written d m.path answered durable start allow written seen f h returned)

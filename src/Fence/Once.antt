-- ===== src/Fence/Once.antt =====
-- One claim authorises one apply, and nothing once the fence is released.
use glassops.Prelude.{
  ◌≡◌, ◌≢◌, ◌⊎◌, refl, ◌≤◌, ℕ, String, Bool, true, false, Option, none, some, List, [], ◌∷◌, arith,
  inl, inr, length,
}
use mathlib.Core.List.{append-nil}
use glassops.Fence.{
  Result, ok, err, Result-cases, Stage, completed, failed, Manifest, Files, exists_file,
}
use glassops.Fence.Authority.{Outside, container_ids}
use glassops.Fence.Claims.{create_claim, claim, note_applying, begin_apply}
use glassops.Fence.Finish.{mark_finished, finish_live, finish_claim, complete, fail}
use glassops.Fence.Release.{Docker, release_allowed}
use glassops.Fence.Release.Start.{put_back, write_release, release}
use glassops.Fence.Steps.{
  Event, claims, begins, checks, completes, fails, releases, step, run, begun_by, begun,
}

List-cases {ℓ} : {A : Type ℓ} (xs : List A) → (xs ≡ []) ⊎ (xs ≢ [])
List-cases [] = inl refl
List-cases (x ∷ xs) = inr (λ p. cc)

-- The marker of an apply, the claim file and the record of a release are never taken away.
abbrev pub Keeps : Files → Files → Type 0
Keeps f f' =
    (exists_file f.claim ≡ true → exists_file f'.claim ≡ true)
    × (exists_file f.applying ≡ true → exists_file f'.applying ≡ true)
    × (exists_file f.release ≡ true → exists_file f'.release ≡ true)

finish_claim-Keeps :
    (m : Manifest) (claim_id : String) (outcome : Stage) (reason : Option String) (now : ℕ)
    (written rewritten : Bool) (f : Files)
    → Keeps f (finish_claim m claim_id outcome reason now written rewritten f).0
unfolding finish_claim finish_live mark_finished
finish_claim-Keeps m claim_id outcome reason now written rewritten f =
    (ground arith, ground arith, ground arith)

write_release-Keeps :
    {Host : Type 0} (lease_id : String) (restored : List String) (written : Bool) (f : Files)
    (out : Host × Result (List String × List String))
    → Keeps f (write_release lease_id restored written f out).0.0
unfolding write_release
write_release-Keeps lease_id restored written f (h, err e) = ((λ p. p), (λ p. p), (λ p. p))
write_release-Keeps lease_id restored true f (h, ok ids) = ((λ p. p), (λ p. p), (λ p. refl))
write_release-Keeps lease_id restored false f (h, ok ids) = ((λ p. p), (λ p. p), (λ p. p))

module _ {Host : Type 0} (o : Outside) (verifier : Option String) (d : Docker Host)
    (m : Manifest) where
  release-Keeps :
      (answered durable start : Bool) (allow : List String) (written : Bool) (seen f : Files)
      (h : Host)
      → Keeps f (release d m.path answered durable start allow written seen f h).0.0
  unfolding release
  release-Keeps answered durable start allow written seen f h =
      elim (Result-cases (release_allowed m.path answered durable seen)) [
        | inl (e, refused) ↦ ground (arith, refused)
        | inr ((scope, lease_id), allowed) ↦ ground (
          arith,
          allowed,
          write_release-Keeps lease_id (container_ids scope) written f
              (put_back d start allow scope h),
        )
      ]

  pub step-Keeps : (e : Event Host) (f : Files) → Keeps f (step o verifier d m e f)
  unfolding claim create_claim begin_apply note_applying complete fail
  step-Keeps (claims w fresh written) f = (ground arith, ground arith, ground arith)
  step-Keeps (begins id now fresh rewritten) f = (ground arith, ground arith, ground arith)
  step-Keeps (checks id w path) f = ((λ p. p), (λ p. p), (λ p. p))
  step-Keeps (completes id now written rewritten) f =
      finish_claim-Keeps m id completed none now written rewritten f
  step-Keeps (fails id reason now written rewritten) f =
      finish_claim-Keeps m id failed (some reason) now written rewritten f
  step-Keeps (releases answered durable start allow written seen h) f =
      release-Keeps answered durable start allow written seen f h

  pub run-Keeps : (es : List (Event Host)) (f : Files) → Keeps f (run o verifier d m es f)
  run-Keeps [] f = ((λ p. p), (λ p. p), (λ p. p))
  run-Keeps (e ∷ es) f =
      let (c, a, r) = step-Keeps e f in
      let (c', a', r') = run-Keeps es (step o verifier d m e f) in
      ((λ p. c' (c p)), (λ p. a' (a p)), (λ p. r' (r p)))

  -- An apply that begins finds no marker, and leaves one.
  begun_by-applying :
      (e : Event Host) (f : Files)
      → (exists_file f.applying ≡ true → begun_by o verifier d m e f ≡ [])
        × (length (begun_by o verifier d m e f) ≤ 1)
        × (begun_by o verifier d m e f ≢ [] → exists_file (step o verifier d m e f).applying ≡ true)
  unfolding begin_apply note_applying
  begun_by-applying (claims w fresh written) f = (ground arith, ground arith, ground arith)
  begun_by-applying (begins id now fresh rewritten) f = (ground arith, ground arith, ground arith)
  begun_by-applying (checks id w path) f = (ground arith, ground arith, ground arith)
  begun_by-applying (completes id now written rewritten) f =
      (ground arith, ground arith, ground arith)
  begun_by-applying (fails id reason now written rewritten) f =
      (ground arith, ground arith, ground arith)
  begun_by-applying (releases answered durable start allow written seen h) f =
      (ground arith, ground arith, ground arith)

  begun-applying :
      (es : List (Event Host)) (f : Files)
      → exists_file f.applying ≡ true
      → begun o verifier d m es f ≡ []
  begun-applying [] f there = refl
  begun-applying (e ∷ es) f there =
      rw ((begun_by-applying e f).0 there)
        (begun-applying es (step o verifier d m e f) ((step-Keeps e f).1 there))

  -- Of all calls of `begin_apply` on the files of a manifest, by any processes, with whatever else
  -- is called between them and wherever a write fails, at most one returns.
  pub begun-le-one : (es : List (Event Host)) (f : Files) → length (begun o verifier d m es f) ≤ 1
  begun-le-one [] f = omega arith
  begun-le-one (e ∷ es) f =
      let f' = step o verifier d m e f in
      elim (List-cases (begun_by o verifier d m e f)) [
        | inl quiet ↦ rw quiet (begun-le-one es f')
        | inr began ↦
            rw (begun-applying es f' ((begun_by-applying e f).2 began))
              (rw append-nil (begun_by-applying e f).1)
      ]

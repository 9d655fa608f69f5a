-- ===== src/Fence/Sound.antt =====
-- What the files of a claim say of each other, in every order of the operations.
use glassops.Prelude.{
  ◌≡◌, refl, ℕ, String, Bool, true, false, not, ◌&&◌, ◌||◌, Option, none, some, List, [], ◌∷◌, ◌==◌,
  arith, inl, inr, string_eq,
}
use glassops.Fence.{
  Result, ok, err, Result-cases, first-of_ok, Stage, claimed, applying, completed, failed,
  ApplyRecord, Sheet, torn, sealed, Manifest, Files, exists_file, binds, require_claim_binds,
  read_apply_record, stage_eq,
}
use glassops.Fence.Authority.{Outside, container_ids}
use glassops.Fence.Claims.{
  Survey, claim_record, require_active, create_claim, claim, apply_allowed, note_applying,
  begin_apply,
}
use glassops.Fence.Finish.{
  terminal_record, is_finishable, mark_finished, finish_live, finish_claim, complete, fail,
}
use glassops.Fence.Release.{Docker, is_terminal, release_allowed}
use glassops.Fence.Release.Start.{put_back, write_release, release}
use glassops.Fence.Steps.{Event, claims, begins, checks, completes, fails, releases, step, run}

-- What the terminal record says beside the live record and the marker of an apply: where the live
-- record tells of an end, it is the end of the terminal record.
abbrev pub is_closed : Manifest → ApplyRecord → Option String → Option (Sheet ApplyRecord) → Bool
is_closed m live marker none = live.state == claimed || live.state == applying
is_closed m live marker (some torn) = false
is_closed m live marker (some (sealed r)) =
    binds r m (some live.claim_id)
    && is_terminal r
    && (live.state == claimed || live.state == applying || live.state == r.state)
    && (not (r.state == completed) || exists_file marker)

-- A live record is this manifest's; an apply that it tells of has its marker; a terminal record is
-- about the same claim, and says COMPLETED only if an apply was begun.
abbrev pub is_sound :
    Manifest → Option (Sheet ApplyRecord) → Option String → Option (Sheet ApplyRecord) → Bool
is_sound m none marker done = not (exists_file marker) && not (exists_file done)
is_sound m (some torn) marker done = not (exists_file marker) && not (exists_file done)
is_sound m (some (sealed live)) marker done =
    binds live m none
    && (not (live.state == applying) || exists_file marker)
    && is_closed m live marker done

abbrev pub IsSound : Manifest → Files → Type 0
IsSound m f = is_sound m f.claim f.applying f.done ≡ true

module _ (m : Manifest) (f : Files) (s : IsSound m f) where
  create_claim-IsSound :
      (now : ℕ) (fresh : String) (written : Bool) → IsSound m (create_claim m now fresh written f).0
  unfolding create_claim claim_record binds
  create_claim-IsSound now fresh written = ground arith

  -- With the marker there.
  note_applying-IsSound :
      (claim_id : String) (now : ℕ) (fresh : String) (rewritten : Bool)
      → require_active m claim_id f ≡ ok tt
      → IsSound m (note_applying now fresh rewritten (record f { applying = some fresh })).0
  unfolding note_applying require_active require_claim_binds read_apply_record binds
  note_applying-IsSound claim_id now fresh rewritten active = ground arith

  finish_live-IsSound :
      (claim_id : String) (outcome : Stage) (reason : Option String) (now : ℕ)
      (written rewritten : Bool) (live : ApplyRecord)
      → require_claim_binds f.claim m (some claim_id) ≡ ok live
      → IsSound m (finish_live m claim_id outcome reason now written rewritten live f).0
  unfolding finish_live require_claim_binds binds read_apply_record is_finishable mark_finished
      terminal_record is_terminal
  finish_live-IsSound claim_id outcome reason now written rewritten live bound = ground arith

apply_allowed-active :
    (o : Outside) (verifier : Option String) (m : Manifest) (claim_id : String) (now : ℕ)
    (f : Files)
    → apply_allowed o verifier m claim_id now f ≡ ok tt
    → require_active m claim_id f ≡ ok tt
unfolding apply_allowed
apply_allowed-active o verifier m claim_id now f allowed =
    (first-of_ok (require_active m claim_id f) _ allowed).1

module _ (o : Outside) (verifier : Option String) (m : Manifest) (f : Files) (s : IsSound m f) where
  claim-IsSound :
      (w : Survey) (fresh : String) (written : Bool)
      → IsSound m (claim o verifier m w fresh written f).0
  unfolding claim
  claim-IsSound w fresh written = ground (arith, create_claim-IsSound m f s w.second fresh written)

  begin_apply-IsSound :
      (claim_id : String) (now : ℕ) (fresh : String) (rewritten : Bool)
      → IsSound m (begin_apply o verifier m claim_id now fresh rewritten f).0
  unfolding begin_apply
  begin_apply-IsSound claim_id now fresh rewritten = ground (
    arith,
    note_applying-IsSound m f s claim_id now fresh rewritten,
    apply_allowed-active o verifier m claim_id now f,
  )

  finish_claim-IsSound :
      (claim_id : String) (outcome : Stage) (reason : Option String) (now : ℕ)
      (written rewritten : Bool)
      → IsSound m (finish_claim m claim_id outcome reason now written rewritten f).0
  unfolding finish_claim
  finish_claim-IsSound claim_id outcome reason now written rewritten =
      elim (Result-cases (require_claim_binds f.claim m (some claim_id))) [
        | inl (e, refused) ↦ ground (arith, refused)
        | inr (live, bound) ↦ ground (
          arith,
          bound,
          finish_live-IsSound m f s claim_id outcome reason now written rewritten live,
        )
      ]

write_release-claims :
    {Host : Type 0} (lease_id : String) (restored : List String) (written : Bool) (f : Files)
    (out : Host × Result (List String × List String))
    → let f' = (write_release lease_id restored written f out).0.0 in
      (f'.claim ≡ f.claim) × (f'.applying ≡ f.applying) × (f'.done ≡ f.done)
unfolding write_release
write_release-claims lease_id restored written f (h, err e) = (refl, refl, refl)
write_release-claims lease_id restored true f (h, ok ids) = (refl, refl, refl)
write_release-claims lease_id restored false f (h, ok ids) = (refl, refl, refl)

-- A release leaves the files of the claim alone.
pub release-claims :
    {Host : Type 0} (d : Docker Host) (base : String) (answered durable start : Bool)
    (allow : List String) (written : Bool) (seen f : Files) (h : Host)
    → let f' = (release d base answered durable start allow written seen f h).0.0 in
      (f'.claim ≡ f.claim) × (f'.applying ≡ f.applying) × (f'.done ≡ f.done)
unfolding release
release-claims d base answered durable start allow written seen f h =
    elim (Result-cases (release_allowed base answered durable seen)) [
      | inl (e, refused) ↦ ground (arith, refused)
      | inr ((scope, lease_id), allowed) ↦ ground (
        arith,
        allowed,
        write_release-claims lease_id (container_ids scope) written f
            (put_back d start allow scope h),
      )
    ]

module _ {Host : Type 0} (o : Outside) (verifier : Option String) (d : Docker Host)
    (m : Manifest) where
  pub step-IsSound :
      (e : Event Host) (f : Files) → IsSound m f → IsSound m (step o verifier d m e f)
  unfolding complete fail
  step-IsSound (claims w fresh written) f s = claim-IsSound o verifier m f s w fresh written
  step-IsSound (begins id now fresh rewritten) f s =
      begin_apply-IsSound o verifier m f s id now fresh rewritten
  step-IsSound (checks id w path) f s = s
  step-IsSound (completes id now written rewritten) f s =
      finish_claim-IsSound o verifier m f s id completed none now written rewritten
  step-IsSound (fails id reason now written rewritten) f s =
      finish_claim-IsSound o verifier m f s id failed (some reason) now written rewritten
  step-IsSound (releases answered durable start allow written seen h) f s =
      ground (arith, release-claims d m.path answered durable start allow written seen f h)

  -- From files without a claim, whatever operations are tried in whatever order, and wherever a
  -- write fails: a live record is this manifest's, an apply that it tells of has its marker; a live
  -- record that tells of an end has a terminal record with the same end beside it, and a terminal
  -- record is about the same claim and says COMPLETED only if an apply was begun.
  pub run-IsSound :
      (es : List (Event Host)) (f : Files) → IsSound m f → IsSound m (run o verifier d m es f)
  run-IsSound [] f s = s
  run-IsSound (e ∷ es) f s = run-IsSound es (step o verifier d m e f) (step-IsSound e f s)

-- ===== src/Fence/Tests.antt =====
-- A host of two containers, runs of the operations on it, and the theorems of the fence at these.
mod Memory
mod Scene
use glassops.Prelude.{
  ◌≡◌, refl, String, true, false, ◌≤◌, ◌⊎◌, Option, none, some, List, [], ◌∷◌, map, length,
  string_eq, nat_eq,
}
use glassops.Prelude.Text.{strip, is_empty}
use glassops.Prelude.Dict
use glassops.Prelude.Dict.{Dict}
use glassops.Fence.{
  ok, is_ok, Scoped, sealed, FileFacts, Ack, Manifest, Target, Files, exists_file, Stage-discrete,
  read_apply_record, binds, require_claim_binds,
}
use glassops.Fence.Authority.{
  has_fields, in_window, verify_ack, reverify_manifest_authority, require_authority_at,
}
use glassops.Fence.Inventory.{
  ContainerFacts, walk_mounts, shares_mount, is_unanswered, mount_sharers, is_socket, holds_socket,
  start_authorities, require_inventory_bound,
}
use glassops.Fence.Claims.{
  Survey, same_identity, still_fenced, claim_record, require_active, claim_allowed, create_claim,
  claim, apply_allowed, note_applying, begin_apply, check_before_source_open, bool_eq,
}
use glassops.Fence.Finish.{
  finish_claim, complete, finish_live, is_finishable, mark_finished, terminal_record,
}
use glassops.Fence.Release.{
  format_policy, lease_of, require_spent, release_allowed, wanted_policy, restore_one, restore_all,
}
use glassops.Fence.Release.Start.{start_one, start_all, put_back, write_release, release}
use glassops.Fence.Quiesce.{
  Attempt, facts_of, scoped_of, prepared_body, prepared_matches, prepare_record, inspect_each,
  host_inventory, pin_one, pin_all, stop_one, stop_all, quiesce, preflight, manifest_of,
  write_manifest, fence_scope, fence_locked, fence,
}
use glassops.Fence.Steps.{Event, claims, begins, checks, completes, run, any_authorised, begun}
use glassops.Fence.Tests.Memory.{world, Host, docker, policy_at, docker-IsDocker}
use glassops.Fence.Sound.{IsSound, run-IsSound}
use glassops.Fence.Once.{begun-le-one}
use glassops.Fence.Spent.{IsSpent, release-IsSpent}
use glassops.Fence.Final.{begin_apply-protected, release-final}
use glassops.Fence.Attempts.{attempt_all}
use glassops.Fence.Restored.{release-restores}
use glassops.Fence.Quiet.{is_listed_risk, is_same_mount, check_before_source_open-quiet}
use glassops.Prelude.Sorting.{order_by}
use mathlib.Core.Option
use glassops.Fence.Tests.Scene.{
  host, quiet_host, scoped, manifest, survey, no_files, fenced, claiming, beginning, whole_pass,
  attempts, key, pass, release_here, attempted, grant_here, claimed_files, begun_files,
}

begun-le-one_example : length (begun world key docker manifest whole_pass fenced) ≤ 1
begun-le-one_example = begun-le-one world key docker manifest whole_pass fenced

run-IsSound_example : IsSound manifest (run world key docker manifest whole_pass fenced)
run-IsSound_example = run-IsSound world key docker manifest whole_pass fenced refl

-- The pass runs through: it begins an apply, and ends with a terminal record.
whole_pass_ends :
    (begun world key docker manifest whole_pass fenced ≡ "id" ∷ [])
    × (exists_file (pass whole_pass fenced).done ≡ true)
unfolding pass
whole_pass_ends = (refl, refl)

release-restores_example :
    let h' = (release_here true attempted.0 attempted.1).0.1 in
    (policy_at "web" h' ≡ policy_at "web" host)
    ⊎ (policy_at "web" h' ≡ Option.map wanted_policy (policy_at "web" host))
unfolding release_here attempted
release-restores_example =
    release-restores docker policy_at docker-IsDocker world attempts no_files host "m" true true
      true [] true attempted.0 refl refl "web"

-- The attempts stop the container and pin it.
attempts_stop :
    (Option.map (λ (facts : ContainerFacts). facts.running) (Dict.lookup "web" attempted.1)
      ≡ some false)
    × (policy_at "web" attempted.1 ≡ some (record { name = "no"; retries = 0 }))
unfolding attempted
attempts_stop = (refl, refl)

release-IsSpent_example :
    ((release_here false (pass whole_pass fenced) host).0 ≡ (pass whole_pass fenced, host))
    ⊎ (((pass whole_pass fenced).claim ≡ none) × ((pass whole_pass fenced).done ≡ none))
    ⊎ IsSpent "m" true (pass whole_pass fenced)
unfolding release_here
release-IsSpent_example =
    release-IsSpent docker "m" true true false [] true (pass whole_pass fenced)
      (pass whole_pass fenced) host

begin_apply-protected_example :
    (release docker "m" true true true [] true
      (pass (claiming ∷ beginning ∷ []) begun_files)
      fenced
      host).0
    ≡ (fenced, host)
unfolding release_here pass begun_files claimed_files
begin_apply-protected_example =
    begin_apply-protected world key docker manifest "id" 12 "apply" true claimed_files
      (claiming ∷ beginning ∷ []) true true true [] true fenced host refl refl

release-final_example :
    any_authorised world key docker manifest whole_pass (release_here false fenced quiet_host).0.0
    ≡ false
unfolding release_here
release-final_example =
    release-final world key docker manifest true true false [] true fenced fenced quiet_host
      whole_pass refl

check_before_source_open-quiet_example :
    (11 ≤ 50)
    × ((id : String) (facts : ContainerFacts)
        → Dict.lookup id quiet_host ≡ some facts
        → is_listed_risk world "/data" facts ≡ true
        → (facts.running ≡ false) × (facts.status ≡ "exited") × (facts.policy.name ≡ "no"))
unfolding grant_here pass claimed_files
check_before_source_open-quiet_example =
    check_before_source_open-quiet world key manifest "id" survey "/data/db" claimed_files
      quiet_host refl refl

-- A release that has asked whether a claim is there, and before it has written its record, lets a
-- claim be taken, an apply begin and a grant be given; then it starts the container.
claimed_during_release :
    (release_allowed "m" true true fenced ≡ ok (scoped ∷ [], "lease"))
    × (any_authorised world key docker manifest (claiming ∷ []) fenced ≡ true)
    × (any_authorised world key docker manifest (beginning ∷ []) claimed_files ≡ true)
    × (is_ok (grant_here begun_files) ≡ true)
    × (is_ok (release docker "m" true true true [] true fenced begun_files quiet_host).1 ≡ true)
unfolding release_here pass grant_here claimed_files begun_files
claimed_during_release = (refl, refl, refl, refl, refl)

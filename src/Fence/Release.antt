-- ===== src/Fence/Release.antt =====
-- backend/app/wal_fence.py: release, which gives the host its restart policies back.
pub mod Start
use glassops.Prelude.{
  ℕ, String, Bool, not, ◌&&◌, ◌||◌, Option, none, some, List, [], ◌∷◌, if◌then◌else◌, ltb, ◌==◌,
  string_eq, nat_eq,
}
use glassops.Prelude.Text.{is_empty}
use glassops.Fence.{
  Result, ok, err, demand, prepared_rejected, release_failed, claim_in_flight, already_released,
  completed, failed, ApplyRecord, Sheet, torn, sealed, Policy, Scoped, Files, exists_file,
  read_apply_record, stage_eq, ◌>>=◌, ◌>>◌,
}
use glassops.Fence.Inventory.{ContainerFacts}

-- What follows `--restart=`: a name, or on-failure with its number.
pub data PolicyText : Type 0 where
  named : String → PolicyText
  on_failure_at_most : ℕ → PolicyText

unfoldable pub format_policy : Policy → PolicyText
format_policy p =
    if is_empty p.name
    then named "no"
    else if p.name == "on-failure" && ltb 0 p.retries
    then on_failure_at_most p.retries
    else named p.name

-- What is not of this code: the docker command on a host. `list` is `docker ps --all`. A
-- command that fails may have changed anything. `stop` tells whether the wait for it timed out.
pub record Docker (Host : Type 0) : Type 0 where
  pub inspect : String → Host → Result ContainerFacts
  pub update : PolicyText → String → Host → Host × Result (Unit {0})
  pub list : Host → Result (List String)
  pub stop : String → Host → Host × Result Bool
  pub start : String → Host → Host × Result (Unit {0})

-- A record that release depends on; every failure to read it is the same refusal.
unfoldable pub read_release_record : Option (Sheet ApplyRecord) → Result ApplyRecord
read_release_record file = elim (read_apply_record file none) [
  | ok r ↦ ok r
  | err e ↦ err release_failed
]

unfoldable pub is_terminal : ApplyRecord → Bool
is_terminal r = r.state == completed || r.state == failed

unfoldable pub require_durable_terminal : String → String → Bool → Files → Result ApplyRecord
require_durable_terminal base lease_id durable f = do
  r ← read_release_record f.done
  demand (is_terminal r) release_failed
  live ← read_release_record f.claim
  demand (is_empty lease_id || live.lease_id == lease_id) release_failed
  demand (live.manifest_path == base) release_failed
  demand (r.manifest_path == base && r.claim_id == live.claim_id && r.lease_id == live.lease_id)
      release_failed
  demand durable release_failed
  ok r

-- The claim is spent for good.
unfoldable pub require_spent : String → String → Bool → Files → Result (Unit {0})
require_spent base lease_id durable f = do
  _ ← require_durable_terminal base lease_id durable f
  ok tt

-- The lease of the manifest; empty where no manifest and no claim was ever written.
unfoldable pub lease_of : Files → Result String
lease_of f = elim f.manifest [
  | none ↦ if exists_file f.claim || exists_file f.done then err release_failed else ok ""
  | some torn ↦ err release_failed
  | some (sealed m) ↦ if m.quiesced then ok m.lease_id else err release_failed
]

-- All that is asked before the host is changed. `answered` tells whether every lookup of a path
-- has an answer, `durable` whether the terminal record can be synchronised.
unfoldable pub release_allowed : String → Bool → Bool → Files → Result (List Scoped × String)
release_allowed base answered durable f = elim f.prepared [
  | none ↦ err prepared_rejected
  | some torn ↦ err prepared_rejected
  | some (sealed p) ↦ do
    demand answered release_failed
    lease_id ← lease_of f
    demand (not (exists_file f.claim && not (exists_file f.done))) claim_in_flight
    demand (not (exists_file f.release)) already_released
    let spent = require_spent base lease_id durable f
    (if exists_file f.done || exists_file f.claim then spent else ok tt)
    ok (p.scope, lease_id)
]

-- The policy of the record, with Docker's default for an empty name.
unfoldable pub wanted_policy : Policy → Policy
wanted_policy p = record p { name = if is_empty p.name then "no" else p.name }

-- One action on the host after another, which an error ends.
abbrev pub and_then :
    {Host A B : Type 0} → Host × Result A → (A → Host → Host × Result B) → Host × Result B
and_then (h, ok a) next = next a h
and_then (h, err e) next = (h, err e)

module _ {Host : Type 0} (d : Docker Host) where
  -- The readback after an update is believed, not the exit status.
  unfoldable pub restore_one : Scoped → Host → Host × Result (Unit {0})
  restore_one entry h = elim (d.inspect entry.container_id h) [
    | err e ↦ (h, err release_failed)
    | ok _ ↦
        let wanted = wanted_policy entry.policy_before in
        let (h', ran) = d.update (format_policy wanted) entry.container_id h in
        (
          h',
          do
            ran
            after ← d.inspect entry.container_id h'
            demand (after.policy.name == wanted.name && after.policy.retries == wanted.retries)
                release_failed,
        )
  ]

  unfoldable pub restore_all : List Scoped → Host → Host × Result (Unit {0})
  restore_all [] h = (h, ok tt)
  restore_all (entry ∷ rest) h = and_then (restore_one entry h) (λ _ h'. restore_all rest h')

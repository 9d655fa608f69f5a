-- ===== src/Fence/Claims.antt =====
-- backend/app/wal_fence.py: ManifestFence and SourceApplyCapability, the one claim of a manifest
-- and what it authorises.
use glassops.Prelude.{
  ℕ, String, Bool, true, false, not, ◌&&◌, Option, none, some, [], ◌∷◌, if◌then◌else◌, all, ◌==◌,
  Eq, string_eq, nat_eq,
}
use glassops.Prelude.Dict
use mathlib.Core.Bool.{Bool-discrete}
use glassops.Fence.{
  Result, ok, err, demand, claim_unavailable, claim_spent, apply_already_started, manifest_rejected,
  fence_scope_mismatch, fence_broken, fence_drift, descriptors_open, os_error, claimed, applying,
  ApplyRecord, torn, sealed, Scoped, FileFacts, Manifest, Files, exists_file, read_apply_record,
  require_claim_binds, stage_eq, ◌>>=◌, ◌>>◌,
}
use glassops.Fence.Authority.{Outside, container_ids, require_authority_at}
use glassops.Fence.Inventory.{Inventory, require_inventory_bound}

-- What a step sees of the world: the clock at its two readings, the inventory of the host where
-- docker answers, whether lsof shows the files closed, and the files as they are.
pub record Survey : Type 0 where
  pub first : ℕ
  pub second : ℕ
  pub inventory : Result Inventory
  pub closed : Bool
  pub db : FileFacts
  pub wal : FileFacts

pub record Grant : Type 0 where
  pub claim_id : String
  pub lease_id : String
  pub manifest_path : String
  pub db_path : String
  pub wal_path : String
  pub db : FileFacts
  pub wal : FileFacts

instance unfoldable pub bool_eq : Eq Bool
bool_eq = record { dec = Bool-discrete }

abbrev optional_eq : Option ℕ → Option ℕ → Bool
optional_eq none none = true
optional_eq none (some b) = false
optional_eq (some a) none = false
optional_eq (some a) (some b) = a == b

abbrev optional_text_eq : Option String → Option String → Bool
optional_text_eq none none = true
optional_text_eq none (some b) = false
optional_text_eq (some a) none = false
optional_text_eq (some a) (some b) = a == b

-- FileFacts.identity leaves the device out.
unfoldable pub same_identity : FileFacts → FileFacts → Bool
same_identity a b =
    a.exists == b.exists
    && a.size == b.size
    && optional_eq a.inode b.inode
    && optional_text_eq a.sha b.sha

-- A scoped container is still the one that was stopped, and cannot come back by itself.
unfoldable pub still_fenced : Inventory → Scoped → Bool
still_fenced inventory entry = elim (Dict.lookup entry.container_id inventory) [
  | none ↦ false
  | some facts ↦
      facts.image_id == entry.image_id
      && not facts.running
      && facts.status == "exited"
      && facts.policy.name == "no"
]

unfoldable pub claim_record : Manifest → String → ℕ → ApplyRecord
claim_record m fresh now = record {
  state = claimed;
  claim_id = fresh;
  lease_id = m.lease_id;
  manifest_path = m.path;
  db_path = m.db_path;
  wal_path = m.wal_path;
  claimed_at = some now;
  apply_id = none;
  apply_started_at = none;
  finished_at = none;
  reason = none;
}

-- `require_active`: the claim is this one, and neither finished nor released.
unfoldable pub require_active : Manifest → String → Files → Result (Unit {0})
require_active m claim_id f = do
  _ ← require_claim_binds f.claim m (some claim_id)
  demand (not (exists_file f.done)) claim_spent
  demand (not (exists_file f.release)) claim_spent

unfoldable pub reattach : Manifest → Files → Result String
reattach m f = do r ← require_claim_binds f.claim m none; ok r.claim_id

-- The exclusive create and the write. Where the write fails, or the process dies before its end,
-- the file is there and torn.
unfoldable pub create_claim : Manifest → ℕ → String → Bool → Files → Files × Result String
create_claim m now fresh written f =
    if exists_file f.claim
    then (f, err claim_unavailable)
    else if written
    then (record f { claim = some (sealed (claim_record m fresh now)) }, ok fresh)
    else (record f { claim = some torn }, err os_error)

unfoldable pub note_applying : ℕ → String → Bool → Files → Files × Result String
note_applying now fresh rewritten f = elim (read_apply_record f.claim (some (claimed ∷ []))) [
  | err e ↦ (f, err e)
  | ok r ↦
      if rewritten
      then (
        record f {
          claim = some (
              sealed (record r {
                state = applying;
                apply_id = some fresh;
                apply_started_at = some now;
              }));
        },
        ok fresh,
      )
      else (f, err os_error)
]

module _ (o : Outside) (verifier : Option String) where
  -- What `claim` asks before it creates the file.
  unfoldable pub claim_allowed : Manifest → Survey → Files → Result (Unit {0})
  claim_allowed m w f = do
    demand m.quiesced manifest_rejected
    demand (not (exists_file f.release)) claim_unavailable
    demand (not (exists_file f.done)) claim_unavailable
    require_authority_at o verifier m w.first
    inventory ← w.inventory
    require_inventory_bound o inventory m.mount_source (container_ids m.scope)
    require_authority_at o verifier m w.second

  unfoldable pub claim : Manifest → Survey → String → Bool → Files → Files × Result String
  claim m w fresh written f = elim (claim_allowed m w f) [
    | err e ↦ (f, err e)
    | ok _ ↦ create_claim m w.second fresh written f
  ]

  unfoldable pub apply_allowed : Manifest → String → ℕ → Files → Result (Unit {0})
  apply_allowed m claim_id now f = do
    require_active m claim_id f
    require_authority_at o verifier m now

  -- The marker is created exclusively, before the record of the claim is rewritten.
  unfoldable pub begin_apply : Manifest → String → ℕ → String → Bool → Files → Files × Result String
  begin_apply m claim_id now fresh rewritten f = elim (apply_allowed m claim_id now f) [
    | err e ↦ (f, err e)
    | ok _ ↦
        if exists_file f.applying
        then (f, err apply_already_started)
        else note_applying now fresh rewritten (record f { applying = some fresh })
  ]

  -- The path is the one to be opened, made absolute.
  unfoldable pub check_before_source_open :
      Manifest → String → Survey → String → Files → Result Grant
  check_before_source_open m claim_id w db_path f = do
    require_active m claim_id f
    require_authority_at o verifier m w.first
    demand (db_path == m.db_path) fence_scope_mismatch
    inventory ← w.inventory
    require_inventory_bound o inventory m.mount_source (container_ids m.scope)
    demand (all (still_fenced inventory) m.scope) fence_broken
    demand w.closed descriptors_open
    demand (same_identity w.db m.db && same_identity w.wal m.wal) fence_drift
    require_authority_at o verifier m w.second
    require_active m claim_id f
    ok (record {
      claim_id = claim_id;
      lease_id = m.lease_id;
      manifest_path = m.path;
      db_path = m.db_path;
      wal_path = m.wal_path;
      db = w.db;
      wal = w.wal;
    })

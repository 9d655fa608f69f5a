-- ===== src/Fence.antt =====
-- backend/app/wal_fence.py: the records of a fence on disk, and what the code reads them for; with
-- read_apply_record of backend/app/wal_recovery.py.
pub mod Authority
pub mod Inventory
pub mod Claims
pub mod Finish
pub mod Release
pub mod Quiesce
pub mod Policies
pub mod Attempts
pub mod Restored
pub mod Steps
pub mod Sound
pub mod Once
pub mod Spent
pub mod Final
pub mod Quiet
mod Tests
pub use glassops.Prelude.Raises.{ok, err, ◌>>=◌, ◌>>◌, demand, is_ok, Result-cases, first-of_ok}
use glassops.Prelude.Raises.{Raises}
use glassops.Prelude.{
  ◌≡◌, refl, ◌⊎◌, inl, inr, arith, ℕ, String, Bool, true, false, ◌&&◌, Option, none, some, List,
  if◌then◌else◌, Eq, ◌==◌, contains, string_eq,
}

-- The exceptions, without their texts.
pub data Error : Type 0 where
  record_rejected : Error
  claim_unavailable : Error
  claim_spent : Error
  apply_already_started : Error
  manifest_rejected : Error
  prepared_rejected : Error
  fence_stale : Error
  authority_unacknowledged : Error
  authority_unverified : Error
  scope_mismatch : Error
  start_authority_unbound : Error
  fence_scope_mismatch : Error
  fence_broken : Error
  fence_drift : Error
  descriptors_open : Error
  lease_exceeds_acknowledgement : Error
  docker_command_failed : Error
  restart_policy_not_applied : Error
  stop_incomplete : Error
  release_failed : Error
  claim_in_flight : Error
  already_released : Error
  os_error : Error

abbrev pub Result {ℓ} : Type ℓ → Type ℓ
Result A = Raises Error A

-- The state of an apply record.
pub data Stage : Type 0 where
  claimed : Stage
  applying : Stage
  completed : Stage
  failed : Stage
  other : Stage

unfoldable pub Stage-discrete : Discrete Stage
Stage-discrete = hlevel

instance abbrev pub stage_eq : Eq Stage
stage_eq = record { dec = Stage-discrete }

pub record ApplyRecord : Type 0 where
  pub state : Stage
  pub claim_id : String
  pub lease_id : String
  pub manifest_path : String
  pub db_path : String
  pub wal_path : String
  pub claimed_at : Option ℕ
  pub apply_id : Option String
  pub apply_started_at : Option ℕ
  pub finished_at : Option ℕ
  pub reason : Option String

-- A file with a record: `torn` is one that its reader refuses, such as one that is cut off, is of
-- another schema, or differs from its own digest.
pub data Sheet {ℓ} (A : Type ℓ) : Type ℓ where
  torn : Sheet A
  sealed : A → Sheet A

pub record Policy : Type 0 where
  pub name : String
  pub retries : ℕ

-- A container of the scope, with what the host had before the fence.
pub record Scoped : Type 0 where
  pub container_id : String
  pub image_id : String
  pub policy_before : Policy
  pub running_before : Bool

pub record FileFacts : Type 0 where
  pub exists : Bool
  pub size : ℕ
  pub inode : Option ℕ
  pub device : Option ℕ
  pub sha : Option String

pub record Ack : Type 0 where
  pub issuer : String
  pub issued_at : ℕ
  pub expires_at : ℕ
  pub host_id : String
  pub scope_digest : String
  pub signature : String

pub record Manifest : Type 0 where
  pub path : String
  pub quiesced : Bool
  pub lease_id : String
  pub expires_at : ℕ
  pub ack : Option Ack
  pub ack_lease_binding : String
  pub host_id : String
  pub scope : List Scoped
  pub mount_source : String
  pub db_path : String
  pub wal_path : String
  pub db : FileFacts
  pub wal : FileFacts

-- The container that the fence is for, with its mount and its database.
pub record Target : Type 0 where
  pub project : String
  pub service : String
  pub container_id : String
  pub image_id : String
  pub mount_source : String
  pub db_path : String
  pub wal_path : String

-- What the host was before its first change.
pub record PreparedRecord : Type 0 where
  pub target : Target
  pub scope : List Scoped

pub record ReleaseRecord : Type 0 where
  pub lease_id : String
  pub restored : List String
  pub started : List String
  pub not_started : List String

-- The files beside one manifest path, which every process reads and writes.
pub record Files : Type 0 where
  pub prepared : Option (Sheet PreparedRecord)
  pub manifest : Option (Sheet Manifest)
  pub claim : Option (Sheet ApplyRecord)
  pub done : Option (Sheet ApplyRecord)
  pub applying : Option String
  pub release : Option (Sheet ReleaseRecord)

abbrev pub exists_file {ℓ} : {A : Type ℓ} → Option A → Bool
exists_file none = false
exists_file (some a) = true

-- With `none` every state is accepted.
unfoldable pub read_apply_record :
    Option (Sheet ApplyRecord) → Option (List Stage) → Result ApplyRecord
read_apply_record none states = err record_rejected
read_apply_record (some torn) states = err record_rejected
read_apply_record (some (sealed r)) none = ok r
read_apply_record (some (sealed r)) (some states) =
    if contains states r.state then ok r else err record_rejected

-- The record is about this manifest, and about this claim where one is given.
unfoldable pub binds : ApplyRecord → Manifest → Option String → Bool
binds r m claim_id =
    elim claim_id [ none ↦ true | some id ↦ r.claim_id == id ]
    && r.lease_id == m.lease_id
    && r.manifest_path == m.path
    && r.db_path == m.db_path

unfoldable pub require_claim_binds :
    Option (Sheet ApplyRecord) → Manifest → Option String → Result ApplyRecord
require_claim_binds file m claim_id = do
  r ← read_apply_record file none
  demand (binds r m claim_id) claim_unavailable
  ok r

-- ===== src/Transfer.antt =====
-- backend/app/account_state_transfer.py: what a bundle holds of a database, its export and the
-- tests of its manifest.
pub mod Restore
pub mod Exported
pub mod Restored
mod Retry
mod Tests
pub use glassops.Prelude.Raises.{ok, err, ◌>>=◌, ◌>>◌, demand, is_ok, Result-cases, first-of_ok}
use glassops.Prelude.Raises.{Raises}
use glassops.Prelude.{
  ℕ, String, Bool, true, false, not, ◌&&◌, Option, none, some, List, [], ◌∷◌, length, all, contains,
  if◌then◌else◌, ltb, Eq, ◌==◌, nat_eq, string_eq,
}
use glassops.Prelude.Dict
use glassops.Prelude.Dict.{Dict, keys}
use glassops.Prelude.Text.{text_length}
use glassops.Json.{ℤ, Json, null, bool, int, float, infinite, str, arr, obj}

-- The exceptions, without their texts. `manual` is ManualVerificationRequired, `os_error` an error of
-- the file system that no handler takes.
pub data TransferRefused : Type 0 where
  path_rejected : TransferRefused
  schema_mismatch : TransferRefused
  runtime_config_not_empty : TransferRefused
  bundle_rejected : TransferRefused
  target_not_fresh : TransferRefused
  verification_failed : TransferRefused
  interrupted : TransferRefused
  manual : TransferRefused
  os_error : TransferRefused

abbrev pub Result {ℓ} : Type ℓ → Type ℓ
Result A = Raises TransferRefused A

-- A value of SQLite. A REAL is a number of millionths; `infinity` is one that is not finite.
pub data Cell : Type 0 where
  null_cell : Cell
  integer : ℤ → Cell
  real : ℤ → Cell
  infinity : Cell
  text : String → Cell
  blob : Cell

abbrev pub SqlRow : Type 0
SqlRow = List Cell

abbrev pub preserved_tables : List String
preserved_tables =
    "users" ∷ "user_host_accounts" ∷ "alert_config" ∷ "token_blacklist" ∷ "audit_log" ∷ []

abbrev pub autoincrement_tables : List String
autoincrement_tables = "audit_log" ∷ []

-- The names of the columns in EXPECTED_TABLES.
unfoldable pub columns : String → List String
columns table =
    if table == "users"
    then "email" ∷ "password_hash" ∷ "totp_secret" ∷ "totp_enabled" ∷ "must_change_password"
      ∷ "created_at" ∷ "role" ∷ "is_active" ∷ "tokens_valid_after" ∷ []
    else if table == "user_host_accounts"
    then "user_email" ∷ "agent_id" ∷ "host_user" ∷ []
    else if table == "alert_config"
    then "id" ∷ "config" ∷ []
    else if table == "token_blacklist"
    then "token_hash" ∷ "expires_at" ∷ []
    else if table == "audit_log"
    then "id" ∷ "timestamp" ∷ "user_email" ∷ "action" ∷ "agent_id" ∷ "detail" ∷ []
    else "key" ∷ "value" ∷ []

-- The tables with their rows, the rows of sqlite_sequence, and whether the schema is as expected.
pub record Database : Type 0 where
  pub tables : Dict String (List SqlRow)
  pub sequences : Dict String ℕ
  pub as_expected : Bool

-- What is not of this code: SHA-256, the canonical JSON that table_digest hashes, `ORDER BY` the
-- primary key, executemany of an INSERT, and PRAGMA foreign_key_check.
pub record Outside : Type 0 where
  pub sha : String → String
  pub table_digest : List String → List (List Json) → String
  pub in_key_order : String → List SqlRow → List SqlRow
  pub insert_rows : String → List SqlRow → Database → Option Database
  pub violations : Database → ℕ

pub record TableEntry : Type 0 where
  pub columns : List String
  pub rows : List (List Json)
  pub row_count : ℕ
  pub digest : String

pub record BundleManifest : Type 0 where
  pub format : String
  pub tables : Dict String TableEntry
  pub autoincrement : Dict String (Option ℕ)
  pub secret_sha : String
  pub secret_size : ℕ

-- The bundle with a manifest whose text has the digest `manifest_sha`, as read back from its files.
pub record Bundle : Type 0 where
  pub marker_format : String
  pub marker_manifest_sha : String
  pub marker_secret_sha : String
  pub manifest : BundleManifest
  pub manifest_sha : String
  pub secret : String

abbrev pub format_name : String
format_name = "glassops-account-state/1"

unfoldable pub encode_value : Cell → Result Json
encode_value null_cell = ok null
encode_value (text s) = ok (str s)
encode_value (integer n) = ok (int n)
encode_value (real n) = ok (float n)
encode_value infinity = err schema_mismatch
encode_value blob = err schema_mismatch

unfoldable pub decode_value : Json → Result Cell
decode_value null = ok null_cell
decode_value (str s) = ok (text s)
decode_value (int n) = ok (integer n)
decode_value (float n) = ok (real n)
decode_value (bool _) = err bundle_rejected
decode_value infinite = err bundle_rejected
decode_value (arr _) = err bundle_rejected
decode_value (obj _) = err bundle_rejected

-- A list comprehension whose body may raise.
unfoldable pub map_all : {A B : Type 0} → (A → Result B) → List A → Result (List B)
map_all f [] = ok []
map_all f (x ∷ xs) = do y ← f x; ys ← map_all f xs; ok (y ∷ ys)

unfoldable pub rows_in : String → Database → List SqlRow
rows_in table db = elim (Dict.lookup table db.tables) [ none ↦ [] | some rows ↦ rows ]

unfoldable pub sequence_of : String → Database → Option ℕ
sequence_of table db = Dict.lookup table db.sequences

abbrev pub same_columns : List String → List String → Bool
same_columns [] [] = true
same_columns [] (b ∷ bs) = false
same_columns (a ∷ as') [] = false
same_columns (a ∷ as') (b ∷ bs) = a == b && same_columns as' bs

module _ (o : Outside) where
  unfoldable pub read_table : String → Database → Result (List (List Json))
  read_table table db = map_all (map_all encode_value) (o.in_key_order table (rows_in table db))

  unfoldable pub entry_of : String → List (List Json) → TableEntry
  entry_of table rows = record {
    columns = columns table;
    rows = rows;
    row_count = length rows;
    digest = o.table_digest (columns table) rows;
  }

  unfoldable pub read_entries : List String → Database → Result (Dict String TableEntry)
  read_entries [] db = ok []
  read_entries (table ∷ rest) db = do
    rows ← read_table table db
    later ← read_entries rest db
    ok ((table, entry_of table rows) ∷ later)

  -- The files of the source are there; `manifest_sha` is the digest of the manifest's text.
  unfoldable pub export_bundle : Database → String → String → Result Bundle
  export_bundle source secret manifest_sha = do
    demand (ltb 0 (text_length secret)) path_rejected
    demand source.as_expected schema_mismatch
    demand (length (rows_in "runtime_config" source) == 0) runtime_config_not_empty
    tables ← read_entries preserved_tables source
    ok (record {
      marker_format = format_name;
      marker_manifest_sha = manifest_sha;
      marker_secret_sha = o.sha secret;
      manifest = record {
        format = format_name;
        tables = tables;
        autoincrement = ("audit_log", sequence_of "audit_log" source) ∷ [];
        secret_sha = o.sha secret;
        secret_size = text_length secret;
      };
      manifest_sha = manifest_sha;
      secret = secret;
    })

  unfoldable pub valid_entry : String → TableEntry → Bool
  valid_entry table e =
      same_columns e.columns (columns table)
      && all (λ row. length row == length e.columns) e.rows
      && e.row_count == length e.rows
      && e.digest == o.table_digest e.columns e.rows

  unfoldable pub valid_table : Dict String TableEntry → String → Bool
  valid_table tables table = elim (Dict.lookup table tables) [
    | none ↦ false
    | some e ↦ valid_entry table e
  ]

  -- Of a manifest whose parts have the types of the record.
  unfoldable pub validate_manifest : BundleManifest → Bool
  validate_manifest m =
      m.format == format_name
      && all (contains preserved_tables) (keys m.tables)
      && all (valid_table m.tables) preserved_tables
      && all (contains autoincrement_tables) (keys m.autoincrement)
      && all (contains (keys m.autoincrement)) autoincrement_tables
      && ltb 0 m.secret_size

  -- The marker, the manifest and the key belong together.
  unfoldable pub validate_bundle : Bundle → Bool
  validate_bundle b =
      b.marker_format == format_name
      && b.marker_manifest_sha == b.manifest_sha
      && validate_manifest b.manifest
      && o.sha b.secret == b.manifest.secret_sha
      && text_length b.secret == b.manifest.secret_size
      && b.marker_secret_sha == o.sha b.secret

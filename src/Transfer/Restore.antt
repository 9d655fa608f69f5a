-- ===== src/Transfer/Restore.antt =====
-- backend/app/account_state_transfer.py: restore_bundle, from a bundle that was read to its report.
use glassops.Prelude.{
  ℕ, zero, suc, String, Bool, true, false, not, max, ◌&&◌, ◌||◌, Option, none, some, List, [], ◌∷◌,
  length, all, keep, contains, if◌then◌else◌, ◌==◌, nat_eq, string_eq,
}
use glassops.Prelude.Dict
use glassops.Prelude.Dict.{Dict}
use glassops.Json.{pos}
use glassops.Transfer.{
  Result, ok, err, demand, TransferRefused, bundle_rejected, schema_mismatch, target_not_fresh,
  verification_failed, interrupted, manual, os_error, Cell, integer, text, SqlRow, preserved_tables,
  Database, Outside, TableEntry, BundleManifest, Bundle, decode_value, map_all, rows_in,
  sequence_of, read_table, validate_bundle, ◌>>=◌, ◌>>◌,
}

abbrev pub cutover_key : String
cutover_key = "metric_agg_cutover_raw_id"

abbrev pub has_text : String → Option Cell → Bool
has_text s (some (text t)) = t == s
has_text s _ = false

abbrev pub cell_at : ℕ → SqlRow → Option Cell
cell_at i [] = none
cell_at zero (c ∷ row) = some c
cell_at (suc i) (c ∷ row) = cell_at i row

unfoldable pub is_cutover : SqlRow → Bool
is_cutover row = has_text cutover_key (cell_at 0 row) && has_text "0" (cell_at 1 row)

unfoldable pub email_of : SqlRow → Option String
email_of (text s ∷ row) = some s
email_of _ = none

-- The bootstrap admin is the only user; the role is the seventh column.
unfoldable pub fresh_users : List SqlRow → Option String → Result (Option String)
fresh_users [] bootstrap = ok bootstrap
fresh_users (row ∷ []) bootstrap =
    if has_text "admin" (cell_at 6 row) then ok (email_of row) else err target_not_fresh
fresh_users (row ∷ other ∷ rest) bootstrap = err target_not_fresh

unfoldable pub fresh_table : String → List SqlRow → Option String → Result (Option String)
fresh_table table rows bootstrap =
    if table == "runtime_config"
    then (if all is_cutover rows then ok bootstrap else err target_not_fresh)
    else if table == "users"
    then fresh_users rows bootstrap
    else if length rows == 0
    then ok bootstrap
    else err target_not_fresh

unfoldable pub fresh_tables : Dict String (List SqlRow) → Option String → Result (Option String)
fresh_tables [] bootstrap = ok bootstrap
fresh_tables ((table, rows) ∷ rest) bootstrap = do
  found ← fresh_table table rows bootstrap
  fresh_tables rest found

-- The email of the bootstrap admin, if there is one.
unfoldable pub assert_fresh : Database → Result (Option String)
assert_fresh db = fresh_tables db.tables none

-- `DELETE FROM users WHERE email = ?`
unfoldable pub delete_bootstrap : Option String → Database → Database
delete_bootstrap none db = db
delete_bootstrap (some email) db = record db {
  tables =
      Dict.insert "users" (keep (λ row. not (has_text email (cell_at 0 row))) (rows_in "users" db))
        db.tables;
}

abbrev pub row_id : SqlRow → ℕ
row_id (integer (pos n) ∷ row) = n
row_id _ = 0

unfoldable pub highest_id : List SqlRow → ℕ
highest_id [] = 0
highest_id (row ∷ rest) = max (row_id row) (highest_id rest)

-- The database, and the high-water of audit_log that applies.
unfoldable pub apply_autoincrement : Dict String (Option ℕ) → Database → Database × Option ℕ
apply_autoincrement wanted db = elim (Dict.lookup "audit_log" wanted) [
  | some (some seq) ↦
      let high = max seq (highest_id (rows_in "audit_log" db)) in
      (record db { sequences = Dict.insert "audit_log" high db.sequences }, some high)
  | _ ↦ (db, sequence_of "audit_log" db)
]

-- runtime_config is left out of the count.
unfoldable pub is_empty_or_carried : String × List SqlRow → Bool
is_empty_or_carried (table, rows) =
    contains preserved_tables table || table == "runtime_config" || length rows == 0

unfoldable pub decode_tables :
    List String → Dict String TableEntry → Result (Dict String (List SqlRow))
decode_tables [] tables = ok []
decode_tables (table ∷ rest) tables = elim (Dict.lookup table tables) [
  | none ↦ err bundle_rejected
  | some e ↦ do
    rows ← map_all (map_all decode_value) e.rows
    later ← decode_tables rest tables
    ok ((table, rows) ∷ later)
]

unfoldable pub high_water_applied : Option ℕ → Database → Bool
high_water_applied none db = true
high_water_applied (some high) db = elim (sequence_of "audit_log" db) [
  | none ↦ false
  | some seq ↦ seq == high
]

-- The target: its database and its key file.
pub record RestoreTarget : Type 0 where
  pub db : Database
  pub secret : Option String

-- What a run meets: whether the key is written to the end, or else is there all the same, and what
-- it reads back; whether COMMIT and ROLLBACK succeed, and what a failed ROLLBACK leaves; whether the
-- test after a ROLLBACK has answers of SQLite; and whether the report and COMPLETE are written.
pub record RestoreRun : Type 0 where
  pub key_written : Bool
  pub key_visible : Bool
  pub key_read : String
  pub committed : Bool
  pub rolled_back : Bool
  pub left : Database
  pub rechecked : Bool
  pub reported : Bool

-- A failure inside the transaction: back to the fresh state, or an operator has to look.
unfoldable pub abort :
    TransferRefused → RestoreTarget → Option String → RestoreRun → RestoreTarget × Result (Unit {0})
abort e t secret w =
    if not w.rolled_back
    then (record { db = w.left; secret = secret }, err manual)
    else if not w.rechecked
    then (record { db = t.db; secret = secret }, err manual)
    else elim (assert_fresh t.db) [
      | err _ ↦ (record { db = t.db; secret = secret }, err manual)
      | ok _ ↦ (record { db = t.db; secret = secret }, err e)
    ]

unfoldable pub commit :
    RestoreTarget
    → RestoreRun
    → Database
    → Option String × Result (Unit {0})
    → RestoreTarget × Result (Unit {0})
commit t w db (secret, err e) = abort e t secret w
commit t w db (secret, ok _) =
    if w.committed
    then (record { db = db; secret = secret }, if w.reported then ok tt else err os_error)
    else abort interrupted t secret w

module _ (o : Outside) where
  unfoldable pub insert_tables : Dict String (List SqlRow) → Database → Result Database
  insert_tables [] db = ok db
  insert_tables ((table, rows) ∷ rest) db = elim (o.insert_rows table rows db) [
    | none ↦ err verification_failed
    | some db' ↦ insert_tables rest db'
  ]

  -- The tables read back as exported.
  unfoldable pub check_tables : List String → Dict String TableEntry → Database → Result (Unit {0})
  check_tables [] tables db = ok tt
  check_tables (table ∷ rest) tables db = elim (Dict.lookup table tables) [
    | none ↦ err verification_failed
    | some e ↦ do
      rows ← read_table o table db
      demand (length rows == e.row_count && o.table_digest e.columns rows == e.digest)
          verification_failed
      check_tables rest tables db
  ]

  -- What follows the INSERTs, up to the key.
  unfoldable pub check_restored : BundleManifest → Database × Option ℕ → Result Database
  check_restored m (db, high) = do
    demand (o.violations db == 0) verification_failed
    check_tables preserved_tables m.tables db
    demand (high_water_applied high db) verification_failed
    demand (all is_empty_or_carried db.tables) verification_failed
    ok db

  unfoldable pub apply_rows :
      BundleManifest → Dict String (List SqlRow) → Option String → Database → Result Database
  apply_rows m decoded bootstrap db = do
    filled ← insert_tables decoded (delete_bootstrap bootstrap db)
    check_restored m (apply_autoincrement m.autoincrement filled)

  -- The key, and whether the database may be committed on top of it.
  unfoldable pub install_secret_key :
      Option String → String → String → RestoreRun → Option String × Result (Unit {0})
  install_secret_key existing secret sha w =
      if elim existing [ none ↦ false | some there ↦ there == secret ]
      then (existing, if w.key_written then ok tt else err interrupted)
      else if w.key_written
      then (some w.key_read, if o.sha w.key_read == sha then ok tt else err verification_failed)
      else (if w.key_visible then some secret else existing, err interrupted)

  unfoldable pub in_transaction :
      Bundle
      → Dict String (List SqlRow)
      → Option String
      → RestoreTarget
      → RestoreRun
      → RestoreTarget × Result (Unit {0})
  in_transaction b decoded bootstrap t w = elim (apply_rows b.manifest decoded bootstrap t.db) [
    | err e ↦ abort e t t.secret w
    | ok db ↦ commit t w db (install_secret_key t.secret b.secret (o.sha b.secret) w)
  ]

  -- What is asked before the target is written to.
  unfoldable pub admit : Bundle → RestoreTarget → Result (Dict String (List SqlRow) × Option String)
  admit b t = do
    demand (validate_bundle o b) bundle_rejected
    decoded ← decode_tables preserved_tables b.manifest.tables
    demand t.db.as_expected schema_mismatch
    bootstrap ← assert_fresh t.db
    ok (decoded, bootstrap)

  unfoldable pub restore_bundle :
      Bundle → RestoreTarget → RestoreRun → RestoreTarget × Result (Unit {0})
  restore_bundle b t w = elim (admit b t) [
    | err e ↦ (t, err e)
    | ok (decoded, bootstrap) ↦ in_transaction b decoded bootstrap t w
  ]

-- ===== src/Transfer/Tests.antt =====
-- A transfer of one user, and the theorems at it.
use glassops.Prelude.{
  ◌≡◌, ◌⊎◌, refl, ◌++◌, String, true, false, none, some, List, [], ◌∷◌, map, all, contains, length,
  if◌then◌else◌, ◌==◌, arith, nat_eq, string_eq,
}
use glassops.Prelude.Dict
use glassops.Prelude.Text.{text_length}
use glassops.Json.{pos}
use glassops.Transfer.{
  ok, err, manual, os_error, target_not_fresh, integer, real, text, null_cell, SqlRow,
  preserved_tables, columns, Database, Outside, entry_of, Bundle, encode_value, decode_value,
  map_all, rows_in, sequence_of, read_table, read_entries, export_bundle, valid_entry, valid_table,
  validate_manifest, validate_bundle, format_name,
}
use glassops.Transfer.Restore.{
  is_cutover, email_of, fresh_users, fresh_table, fresh_tables, assert_fresh, delete_bootstrap,
  highest_id, apply_autoincrement, is_empty_or_carried, decode_tables, high_water_applied,
  RestoreTarget, RestoreRun, insert_tables, check_tables, check_restored, apply_rows,
  install_secret_key, abort, commit, in_transaction, admit, restore_bundle,
}
use glassops.Transfer.Exported.{exported_rows, IsTabular, export_bundle-accepted}
use glassops.Transfer.Retry.{restore_bundle-retry}
use glassops.Transfer.Restored.{restore_bundle-export, restore_bundle-Ends}

-- A digest that tells no rows from some.
abbrev sqlite : Outside
sqlite = record {
  sha = λ s. s;
  table_digest = λ names rows. if length rows == 0 then "none" else "some";
  in_key_order = λ table rows. rows;
  insert_rows = λ table rows db.
      some (record db { tables = Dict.insert table (rows_in table db ++ rows) db.tables });
  violations = λ db. 0;
}

abbrev user : String → String → SqlRow
user email role =
    text email
    ∷ text "hash"
    ∷ null_cell
    ∷ integer (pos 0)
    ∷ integer (pos 0)
    ∷ real (pos 5)
    ∷ text role
    ∷ integer (pos 1)
    ∷ real (pos 0)
    ∷ []

abbrev holding : List SqlRow → Database
holding users = record {
  tables =
      ("users", users)
      ∷ ("user_host_accounts", [])
      ∷ ("alert_config", [])
      ∷ ("token_blacklist", [])
      ∷ ("audit_log", [])
      ∷ ("metrics", [])
      ∷ ("runtime_config", [])
      ∷ [];
  sequences = ("audit_log", 7) ∷ [];
  as_expected = true;
}

abbrev source : Database
source = holding (user "ann" "user" ∷ user "bob" "admin" ∷ [])

abbrev target : RestoreTarget
target = record { db = holding (user "admin" "admin" ∷ []); secret = none }

abbrev moment : RestoreRun
moment = record {
  key_written = true;
  key_visible = false;
  key_read = "key";
  committed = true;
  rolled_back = true;
  left = source;
  rechecked = true;
  reported = true;
}

-- The commit fails.
abbrev stopped : RestoreRun
stopped = record moment { committed = false }

abbrev bundle : Bundle
bundle = record {
  marker_format = format_name;
  marker_manifest_sha = "sha";
  marker_secret_sha = "key";
  manifest = record {
    format = format_name;
    tables = elim (read_entries sqlite preserved_tables source) [ ok tables ↦ tables | err _ ↦ [] ];
    autoincrement = ("audit_log", some 7) ∷ [];
    secret_sha = "key";
    secret_size = 3;
  };
  manifest_sha = "sha";
  secret = "key";
}

-- The code runs on it.
restored_here : RestoreTarget
unfolding read_entries read_table map_all encode_value decode_value rows_in sequence_of entry_of
    columns valid_entry valid_table validate_manifest validate_bundle text_length is_cutover
    email_of fresh_users fresh_table fresh_tables assert_fresh delete_bootstrap highest_id
    apply_autoincrement is_empty_or_carried decode_tables high_water_applied insert_tables
    check_tables check_restored apply_rows install_secret_key abort commit in_transaction admit
    restore_bundle export_bundle Dict.lookup Dict.insert string_eq nat_eq
restored_here = (restore_bundle sqlite bundle target moment).0

source-IsTabular : IsTabular sqlite source
unfolding columns rows_in Dict.lookup nat_eq
source-IsTabular table = ground arith

export_bundle-accepted_example :
    (validate_bundle sqlite bundle ≡ true)
    × (decode_tables preserved_tables bundle.manifest.tables
        ≡ ok (map (λ table. (table, exported_rows sqlite source table)) preserved_tables))
unfolding restored_here
export_bundle-accepted_example =
    export_bundle-accepted sqlite source "key" "sha" {b = bundle} source-IsTabular refl

restore_bundle-export_example :
    ((table : String)
      → contains preserved_tables table ≡ true
      → read_table sqlite table restored_here.db ≡ read_table sqlite table source)
    × (restored_here.secret ≡ some "key")
    × (all is_empty_or_carried restored_here.db.tables ≡ true)
unfolding restored_here
restore_bundle-export_example =
    restore_bundle-export sqlite source "key" "sha" bundle target moment
      (λ table xs ys read read' same. cc) (λ k there same. same) refl refl

-- A failed commit leaves the target as it was.
restore_bundle-Ends_example :
    ((restore_bundle sqlite bundle target stopped).1 ≡ ok tt)
    ⊎ ((restore_bundle sqlite bundle target stopped).0.db ≡ target.db)
    ⊎ (((restore_bundle sqlite bundle target stopped).1 ≡ err manual)
        × (stopped.rolled_back ≡ false))
    ⊎ (((restore_bundle sqlite bundle target stopped).1 ≡ err os_error)
        × (stopped.committed ≡ true)
        × (stopped.reported ≡ false))
restore_bundle-Ends_example = restore_bundle-Ends sqlite bundle target stopped

-- The next run goes through.
restore_bundle-retry_example :
    restore_bundle sqlite bundle (restore_bundle sqlite bundle target stopped).0 moment
    ≡ restore_bundle sqlite bundle target moment
unfolding restored_here
restore_bundle-retry_example =
    restore_bundle-retry sqlite bundle target stopped moment (λ same. ground arith)
      (λ same. ground arith) (λ same. ground arith) refl refl refl

-- The rows and the key are committed but the report is not written; the next run refuses the target.
report_lost :
    let lost = restore_bundle sqlite bundle target (record moment { reported = false }) in
    (lost.1 ≡ err os_error)
    × (lost.0.secret ≡ some "key")
    × ((restore_bundle sqlite bundle lost.0 moment).1 ≡ err target_not_fresh)
unfolding restored_here
report_lost = (refl, refl, refl)

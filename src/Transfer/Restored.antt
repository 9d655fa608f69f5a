-- ===== src/Transfer/Restored.antt =====
-- A restore brings back what was exported, or leaves the database as it was.
use glassops.Prelude.{
  ◌⊎◌, ◌≡◌, ◌≢◌, refl, sym, ap, ◌∙◌, ℕ, String, true, false, Option, none, some, List, [], ◌∷◌, all,
  contains, ◌==◌, arith, inl, inr, Bool-cases, nat_eq, string_eq,
}
use glassops.Prelude.Dict
use glassops.Prelude.Dict.{Dict}
use mathlib.Core.Path.{subst}
use glassops.Json.{Json}
use glassops.Transfer.{
  Result, ok, err, Result-cases, first-of_ok, TransferRefused, manual, interrupted, os_error,
  preserved_tables, columns, Database, Outside, TableEntry, BundleManifest, Bundle, entry_of,
  read_table, read_entries, export_bundle,
}
use glassops.Transfer.Restore.{
  assert_fresh, apply_autoincrement, is_empty_or_carried, RestoreTarget, RestoreRun, insert_tables,
  delete_bootstrap, check_tables, check_restored, apply_rows, install_secret_key, abort, commit,
  in_transaction, admit, restore_bundle,
}

pub abort-err :
    (e : TransferRefused) (t : RestoreTarget) (secret : Option String) (w : RestoreRun)
    → (abort e t secret w).1 ≢ ok tt
unfolding abort
abort-err e t secret w done = ground arith

commit-done :
    (t : RestoreTarget) (w : RestoreRun) (db : Database) (key : Option String × Result (Unit {0}))
    → (commit t w db key).1 ≡ ok tt
    → ((commit t w db key).0.db ≡ db) × ((commit t w db key).0.secret ≡ key.0) × (key.1 ≡ ok tt)
unfolding commit
commit-done t w db (secret, err e) done = absurd (abort-err e t secret w done)
commit-done t w db (secret, ok _) done = elim (Bool-cases w.committed) [
  | inl there ↦ elim (Bool-cases w.reported) [
    | inl told ↦ (ground (arith, there), ground (arith, there), refl)
    | inr lost ↦ absurd (ground (arith, there, lost))
  ]
  | inr failed ↦ absurd (abort-err interrupted t secret w (ground (arith, failed)))
]

module _ (o : Outside) where
  check_tables-rest :
      (name : String) (rest : List String) (tables : Dict String TableEntry) (db : Database)
      → check_tables o (name ∷ rest) tables db ≡ ok tt
      → check_tables o rest tables db ≡ ok tt
  unfolding check_tables
  check_tables-rest name rest tables db checked =
      elim (Result-cases (check_tables o rest tables db)) [
        | inl (e, failed) ↦ absurd (ground (arith, failed))
        | inr (_, passed) ↦ passed
      ]

  check_tables-read :
      (names : List String) (tables : Dict String TableEntry) (db : Database) (table : String)
      (e : TableEntry)
      → check_tables o names tables db ≡ ok tt
      → contains names table ≡ true
      → Dict.lookup table tables ≡ some e
      → (rows : List (List Json)) × (read_table o table db ≡ ok rows)
        × (o.table_digest e.columns rows ≡ e.digest)
  unfolding check_tables
  check_tables-read [] tables db table e checked listed found = absurd (ground arith)
  check_tables-read (name ∷ rest) tables db table e checked listed found =
      elim (Bool-cases (name == table)) [
        | inl here ↦ elim (Result-cases (read_table o name db)) [
          | inl (raised, unread) ↦ absurd (ground (arith, here, found, unread))
          | inr (rows, read) ↦ (rows, ground (arith, here, read), ground (arith, here, found, read))
        ]
        | inr elsewhere ↦
            check_tables-read rest tables db table e (check_tables-rest name rest tables db checked)
              (ground (arith, elsewhere)) found
      ]

  pub read_entries-lookup :
      (names : List String) (db : Database) (table : String) {tables : Dict String TableEntry}
      → read_entries o names db ≡ ok tables
      → contains names table ≡ true
      → (rows : List (List Json)) × (read_table o table db ≡ ok rows)
        × (Dict.lookup table tables ≡ some (entry_of o table rows))
  unfolding read_entries Dict.lookup
  read_entries-lookup [] db table read listed = absurd (ground arith)
  read_entries-lookup (name ∷ rest) db table {tables} read listed =
      let (rows, first, more) = first-of_ok (read_table o name db) _ read in
      let (later, others, whole) = first-of_ok (read_entries o rest db) _ more in
      elim (Bool-cases (name == table)) [
        | inl here ↦ (rows, ground (arith, here, first), ground (arith, here, whole))
        | inr elsewhere ↦
            let (rows', read', found) =
              read_entries-lookup rest db table {tables = later} others
                (ground (arith, elsewhere)) in
            (rows', read', ground (arith, elsewhere, whole, found))
      ]

  -- What a restore that succeeds has done.
  restore_bundle-done :
      (b : Bundle) (t : RestoreTarget) (w : RestoreRun)
      → (restore_bundle o b t w).1 ≡ ok tt
      → (filled : Database × Option ℕ) × (check_restored o b.manifest filled
          ≡ ok (restore_bundle o b t w).0.db)
        × ((install_secret_key o t.secret b.secret (o.sha b.secret) w).1 ≡ ok tt)
        × ((restore_bundle o b t w).0.secret
            ≡ (install_secret_key o t.secret b.secret (o.sha b.secret) w).0)
  unfolding restore_bundle in_transaction apply_rows
  restore_bundle-done b t w done = elim (Result-cases (admit o b t)) [
    | inl (e, refused) ↦ absurd (ground (arith, refused))
    | inr ((decoded, bootstrap), admitted) ↦
        elim (Result-cases (apply_rows o b.manifest decoded bootstrap t.db)) [
          | inl (e, failed) ↦ absurd (ground (arith, admitted, failed, abort-err e t t.secret w))
          | inr (db, applied) ↦
              let (inserted, _, checked) =
                first-of_ok (insert_tables o decoded (delete_bootstrap bootstrap t.db)) _ applied in
              let key = install_secret_key o t.secret b.secret (o.sha b.secret) w in
              let (same, secret, installed) =
                commit-done t w db key (ground (arith, admitted, applied)) in
              (
                apply_autoincrement b.manifest.autoincrement inserted,
                ground (arith, admitted, applied, same, checked),
                installed,
                ground (arith, admitted, applied, secret),
              )
        ]
  ]

  check_restored-parts :
      (m : BundleManifest) (filled : Database × Option ℕ) (db : Database)
      → check_restored o m filled ≡ ok db
      → (check_tables o preserved_tables m.tables db ≡ ok tt)
        × (all is_empty_or_carried db.tables ≡ true)
  unfolding check_restored
  check_restored-parts m (db', high) db checked =
      elim (Result-cases (check_tables o preserved_tables m.tables db')) [
        | inl (e, failed) ↦ absurd (ground (arith, failed))
        | inr (_, passed) ↦
            let same : db' ≡ db = ground (arith, passed) in
            (ground (arith, passed, same), ground (arith, passed, same))
      ]

  install_secret_key-sha :
      (existing : Option String) (secret : String) (w : RestoreRun)
      → (install_secret_key o existing secret (o.sha secret) w).1 ≡ ok tt
      → (k : String) × ((install_secret_key o existing secret (o.sha secret) w).0 ≡ some k)
        × (o.sha k ≡ o.sha secret)
  unfolding install_secret_key
  install_secret_key-sha none secret w installed = (w.key_read, ground arith, ground arith)
  install_secret_key-sha (some there) secret w installed = elim (Bool-cases (there == secret)) [
    | inl same ↦ (there, ground (arith, same), ground (arith, same))
    | inr other ↦ (w.key_read, ground (arith, other), ground (arith, other))
  ]

  pub export_bundle-parts :
      (source : Database) (secret manifest_sha : String) {b : Bundle}
      → export_bundle o source secret manifest_sha ≡ ok b
      → (read_entries o preserved_tables source ≡ ok b.manifest.tables) × (b.secret ≡ secret)
  unfolding export_bundle
  export_bundle-parts source secret manifest_sha {b} exported =
      elim (Result-cases (read_entries o preserved_tables source)) [
        | inl (e, failed) ↦ absurd (ground (arith, failed))
        | inr (tables, read) ↦ (ground (arith, read), ground (arith, read))
      ]

  -- If the digests of the source's and the target's rows of no table collide, nor those of their
  -- keys, a restore of an exported bundle that succeeds leaves the target with the rows of every
  -- preserved table of the source, in the order of their keys, with the source's key, and with no
  -- rows in the tables that are not carried, other than runtime_config.
  pub restore_bundle-export :
      (source : Database) (secret manifest_sha : String) (b : Bundle) (t : RestoreTarget)
      (w : RestoreRun)
      → ((table : String) (xs ys : List (List Json))
          → read_table o table source ≡ ok xs
          → read_table o table (restore_bundle o b t w).0.db ≡ ok ys
          → o.table_digest (columns table) xs ≡ o.table_digest (columns table) ys
          → xs ≡ ys)
      → ((k : String)
          → (restore_bundle o b t w).0.secret ≡ some k
          → o.sha k ≡ o.sha secret
          → k ≡ secret)
      → export_bundle o source secret manifest_sha ≡ ok b
      → (restore_bundle o b t w).1 ≡ ok tt
      → ((table : String)
          → contains preserved_tables table ≡ true
          → read_table o table (restore_bundle o b t w).0.db ≡ read_table o table source)
        × ((restore_bundle o b t w).0.secret ≡ some secret)
        × (all is_empty_or_carried (restore_bundle o b t w).0.db.tables ≡ true)
  unfolding entry_of
  restore_bundle-export source secret manifest_sha b t w tables_differ keys_differ exported done =
      let db = (restore_bundle o b t w).0.db in
      let (filled, checked, installed, kept) = restore_bundle-done b t w done in
      let (passed, carried) = check_restored-parts b.manifest filled db checked in
      let (listed, same_secret) = export_bundle-parts source secret manifest_sha exported in
      let (k, key, same_sha) = install_secret_key-sha t.secret b.secret w installed in
      (
        λ table preserved.
            let (rows, read, found) =
              read_entries-lookup preserved_tables source table {tables = b.manifest.tables} listed
                preserved in
            let (rows', read', digest) =
              check_tables-read preserved_tables b.manifest.tables db table (entry_of o table rows)
                passed preserved found in
            read' ∙ ap ok (sym (tables_differ table rows rows' read read' (sym digest))) ∙ sym read,
        kept ∙ key ∙ ap some (keys_differ k (kept ∙ key) (same_sha ∙ ap o.sha same_secret)),
        carried,
      )

abort-cases :
    (e : TransferRefused) (t : RestoreTarget) (secret : Option String) (w : RestoreRun)
    → ((abort e t secret w).0.db ≡ t.db)
      ⊎ (((abort e t secret w).1 ≡ err manual) × (w.rolled_back ≡ false))
unfolding abort
abort-cases e t secret w = elim (Bool-cases w.rolled_back) [
  | inl back ↦ elim (Bool-cases w.rechecked) [
    | inl asked ↦ elim (Result-cases (assert_fresh t.db)) [
      | inl (raised, stale) ↦ inl (ground (arith, back, asked, stale))
      | inr (bootstrap, fresh) ↦ inl (ground (arith, back, asked, fresh))
    ]
    | inr unasked ↦ inl (ground (arith, back, unasked))
  ]
  | inr stuck ↦ inr (ground (arith, stuck), stuck)
]

abbrev Ends : RestoreTarget → RestoreRun → RestoreTarget × Result (Unit {0}) → Type 0
Ends t w out =
    (out.1 ≡ ok tt)
    ⊎ (out.0.db ≡ t.db)
    ⊎ ((out.1 ≡ err manual) × (w.rolled_back ≡ false))
    ⊎ ((out.1 ≡ err os_error) × (w.committed ≡ true) × (w.reported ≡ false))

abort-Ends :
    (e : TransferRefused) (t : RestoreTarget) (secret : Option String) (w : RestoreRun)
    → Ends t w (abort e t secret w)
abort-Ends e t secret w = elim (abort-cases e t secret w) [
  | inl same ↦ inr (inl same)
  | inr called ↦ inr (inr (inl called))
]

commit-Ends :
    (t : RestoreTarget) (w : RestoreRun) (db : Database) (key : Option String × Result (Unit {0}))
    → Ends t w (commit t w db key)
unfolding commit
commit-Ends t w db (secret, err e) = abort-Ends e t secret w
commit-Ends t w db (secret, ok _) = elim (Bool-cases w.committed) [
  | inl there ↦ elim (Bool-cases w.reported) [
    | inl told ↦ inl (ground (arith, there, told))
    | inr lost ↦ inr (inr (inr (ground (arith, there, lost), there, lost)))
  ]
  | inr failed ↦
      let same : commit t w db (secret, ok tt) ≡ abort interrupted t secret w =
        ground (arith, failed) in
      subst (Ends t w) (sym same) (abort-Ends interrupted t secret w)
]

-- Every run succeeds, or leaves the database as it found it, or reports that an operator has to
-- look, after its own rollback failed, or has committed and could not write its report.
pub restore_bundle-Ends :
    (o : Outside) (b : Bundle) (t : RestoreTarget) (w : RestoreRun)
    → ((restore_bundle o b t w).1 ≡ ok tt)
      ⊎ ((restore_bundle o b t w).0.db ≡ t.db)
      ⊎ (((restore_bundle o b t w).1 ≡ err manual) × (w.rolled_back ≡ false))
      ⊎ (((restore_bundle o b t w).1 ≡ err os_error) × (w.committed ≡ true) × (w.reported ≡ false))
unfolding restore_bundle in_transaction
restore_bundle-Ends o b t w = elim (Result-cases (admit o b t)) [
  | inl (e, refused) ↦ inr (inl (ground (arith, refused)))
  | inr ((decoded, bootstrap), admitted) ↦
      elim (Result-cases (apply_rows o b.manifest decoded bootstrap t.db)) [
        | inl (e, failed) ↦
            let same : restore_bundle o b t w ≡ abort e t t.secret w =
              ground (arith, admitted, failed) in
            subst (Ends t w) (sym same) (abort-Ends e t t.secret w)
        | inr (db, applied) ↦
            let key = install_secret_key o t.secret b.secret (o.sha b.secret) w in
            let same : restore_bundle o b t w ≡ commit t w db key =
              ground (arith, admitted, applied) in
            subst (Ends t w) (sym same) (commit-Ends t w db key)
      ]
]

-- ===== src/Transfer/Retry.antt =====
-- A restore that failed may be run again.
use glassops.Prelude.{
  ◌≡◌, ◌≢◌, sym, ap, ◌∙◌, String, List, true, Option, none, some, ◌==◌, arith, inl, inr, Bool-cases,
  string_eq,
}
use glassops.Prelude.Dict.{Dict}
use glassops.Transfer.{
  ok, err, Result-cases, manual, interrupted, os_error, SqlRow, Database, Outside, Bundle,
}
use glassops.Transfer.Restore.{
  RestoreTarget, RestoreRun, commit, install_secret_key, apply_rows, admit, in_transaction,
  restore_bundle,
}
use glassops.Transfer.Restored.{abort-err, restore_bundle-Ends}

module _ (o : Outside) where
  install_secret_key-written :
      (existing : Option String) (secret : String) (w : RestoreRun)
      → w.key_written ≡ true
      → w.key_read ≡ secret
      → install_secret_key o existing secret (o.sha secret) w ≡ (some secret, ok tt)
  unfolding install_secret_key
  install_secret_key-written none secret w written read = ground (arith, written, read)
  install_secret_key-written (some there) secret w written read =
      elim (Bool-cases (there == secret)) [
        | inl same ↦ ground (arith, written, same)
        | inr other ↦ ground (arith, written, read, other)
      ]

  restore_bundle-succeeds :
      (b : Bundle) (t : RestoreTarget) (w : RestoreRun) (decoded : Dict String (List SqlRow))
      (bootstrap : Option String) (db : Database)
      → admit o b t ≡ ok (decoded, bootstrap)
      → apply_rows o b.manifest decoded bootstrap t.db ≡ ok db
      → w.committed ≡ true
      → w.reported ≡ true
      → w.key_written ≡ true
      → w.key_read ≡ b.secret
      → restore_bundle o b t w ≡ (record { db = db; secret = some b.secret }, ok tt)
  unfolding restore_bundle in_transaction commit
  restore_bundle-succeeds b t w decoded bootstrap db admitted applied committed reported written
        read =
      let key = install_secret_key-written t.secret b.secret w written read in
      ground (arith, admitted, applied, key, committed, reported)

  restore_bundle-inputs :
      (b : Bundle) (t : RestoreTarget) (w : RestoreRun)
      → (restore_bundle o b t w).1 ≡ ok tt
      → w.key_written ≡ true
      → w.key_read ≡ b.secret
      → (decoded : Dict String (List SqlRow)) × (bootstrap : Option String) × (db : Database)
        × (admit o b t ≡ ok (decoded, bootstrap))
        × (apply_rows o b.manifest decoded bootstrap t.db ≡ ok db)
        × (w.committed ≡ true)
        × (w.reported ≡ true)
  unfolding restore_bundle in_transaction commit
  restore_bundle-inputs b t w done written read = elim (Result-cases (admit o b t)) [
    | inl (e, refused) ↦ absurd (ground (arith, refused))
    | inr ((decoded, bootstrap), admitted) ↦
        elim (Result-cases (apply_rows o b.manifest decoded bootstrap t.db)) [
          | inl (e, failed) ↦ absurd (ground (arith, admitted, failed, abort-err e t t.secret w))
          | inr (db, applied) ↦ elim (Bool-cases w.committed) [
            | inl committed ↦ elim (Bool-cases w.reported) [
              | inl reported ↦ (decoded, bootstrap, db, admitted, applied, committed, reported)
              | inr lost ↦
                  let key = install_secret_key-written t.secret b.secret w written read in
                  absurd (ground (arith, admitted, applied, key, committed, lost))
            ]
            | inr failed ↦
                let key = install_secret_key-written t.secret b.secret w written read in
                absurd (
                  ground (
                    arith,
                    admitted,
                    applied,
                    key,
                    failed,
                    abort-err interrupted t (some b.secret) w,
                  ))
          ]
        ]
  ]

  -- The key that a run finds does not matter where it succeeds.
  restore_bundle-any_key :
      (b : Bundle) (t t' : RestoreTarget) (w : RestoreRun)
      → t'.db ≡ t.db
      → w.key_written ≡ true
      → w.key_read ≡ b.secret
      → (restore_bundle o b t w).1 ≡ ok tt
      → restore_bundle o b t' w ≡ restore_bundle o b t w
  unfolding admit
  restore_bundle-any_key b t t' w same written read done =
      let (decoded, bootstrap, db, admitted, applied, committed, reported) =
        restore_bundle-inputs b t w done written read in
      restore_bundle-succeeds b t' w decoded bootstrap db
        (ap (λ d. admit o b (record { db = d; secret = none })) same ∙ admitted)
        (ap (apply_rows o b.manifest decoded bootstrap) same ∙ applied) committed reported written
        read
      ∙ sym (
          restore_bundle-succeeds b t w decoded bootstrap db admitted applied committed reported
            written read)

  -- After a restore that failed before COMMIT and without calling for an operator, a run that would
  -- have succeeded
  -- at first, with the key written to the end and read back, does just what it would have done.
  pub restore_bundle-retry :
      (b : Bundle) (t : RestoreTarget) (w w' : RestoreRun)
      → (restore_bundle o b t w).1 ≢ ok tt
      → (restore_bundle o b t w).1 ≢ err manual
      → (restore_bundle o b t w).1 ≢ err os_error
      → w'.key_written ≡ true
      → w'.key_read ≡ b.secret
      → (restore_bundle o b t w').1 ≡ ok tt
      → restore_bundle o b (restore_bundle o b t w).0 w' ≡ restore_bundle o b t w'
  restore_bundle-retry b t w w' failed unattended uncommitted written read done =
      elim (restore_bundle-Ends o b t w) [
        | inl fine ↦ absurd (failed fine)
        | inr (inl same) ↦
            restore_bundle-any_key b t (restore_bundle o b t w).0 w' same written read done
        | inr (inr (inl (called, _))) ↦ absurd (unattended called)
        | inr (inr (inr (lost, _, _))) ↦ absurd (uncommitted lost)
      ]

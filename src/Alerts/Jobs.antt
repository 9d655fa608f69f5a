-- ===== src/Alerts/Jobs.antt =====
-- What a message can be sent with.
use glassops.Prelude.{
  ◌≡◌, refl, sym, ◌∙◌, ◌⊎◌, inl, inr, Option-cases, String, Bool, true, false, not, ◌&&◌, none,
  some, arith,
}
use glassops.Prelude.Text.{is_empty}
use glassops.Json.{Members, get, find, truthy}
use glassops.Alerts.{
  Mode, starttls, implicit_tls, plain, security_flags, security_mode, resolve_sender,
}
use glassops.Alerts.Config.{Fernet, decrypt_value, open_row, open_rows}
use glassops.Alerts.Sending.{Job, ready, is_some, job_of, checked, prepare_config, prepare}
use glassops.Alerts.Settings.{security_mode-open_row, open_row-failed}

module _ (is_email : String → Bool) where
  checked-ready :
      (job j : Job)
      → checked is_email job ≡ ready j
      → (j ≡ job) × (is_email job.recipient ≡ true) × (is_some job.username ≡ is_some job.password)
  unfolding checked
  checked-ready job j h = ground arith

  resolve_sender-is_email :
      (config : Members) (sender : String)
      → resolve_sender is_email config ≡ some sender
      → is_email sender ≡ true
  unfolding resolve_sender
  resolve_sender-is_email config sender h = ground arith

  security_flags_apart : (m : Mode) → ((security_flags m).0 && (security_flags m).1) ≡ false
  unfolding security_flags
  security_flags_apart starttls = refl
  security_flags_apart implicit_tls = refl
  security_flags_apart plain = refl

  -- The tests that a job has passed.
  abbrev pub Passed : Members → Job → Type 0
  Passed config job =
      (m : Mode) × (security_mode config ≡ some m)
      × ((job.use_tls, job.start_tls) ≡ security_flags m)
      × (is_email job.sender ≡ true)
      × (is_email job.recipient ≡ true)
      × (is_some job.username ≡ is_some job.password)
      × (truthy (get "_decrypt_failed" config) ≡ false)

  prepare_config-Passed :
      (config : Members) (job : Job)
      → prepare_config is_email config ≡ ready job
      → Passed config job
  unfolding prepare_config job_of
  prepare_config-Passed config job h =
      by_mode (Option-cases (security_mode config)) (Option-cases (resolve_sender is_email config))
    where
      by_mode :
          (security_mode config ≡ none) ⊎ ((m : Mode) × (security_mode config ≡ some m))
          → (resolve_sender is_email config ≡ none)
            ⊎ ((sender : String) × (resolve_sender is_email config ≡ some sender))
          → Passed config job
      by_mode (inl no_mode) o = absurd (ground (arith, h, no_mode))
      by_mode (inr (m, mode)) (inl nobody) = absurd (ground (arith, h, mode, nobody))
      by_mode (inr (m, mode)) (inr (sender, from)) =
          let whole : checked is_email (job_of is_email config m sender) ≡ ready job =
            ground (arith, h, mode, from) in
          let (same, recipient, both) = checked-ready (job_of is_email config m sender) job whole in
          (
            m,
            mode,
            rw same refl,
            rw same (resolve_sender-is_email config sender from),
            rw same recipient,
            rw same both,
            ground (arith, h),
          )

  -- A job that the settings of a row give is between two addresses, has both a user name and a
  -- password or neither, and uses the encryption of the mode that the row determines, which is never
  -- both kinds at once; where the row has an encrypted password, it could be decrypted.
  pub prepare-open_rows :
      (F : Fernet) (raw : Members) (job : Job)
      → prepare is_email (open_rows F (some raw)) ≡ ready job
      → ((m : Mode) × (security_mode raw ≡ some m)
          × ((job.use_tls, job.start_tls) ≡ security_flags m))
        × ((job.use_tls && job.start_tls) ≡ false)
        × (is_email job.sender ≡ true)
        × (is_email job.recipient ≡ true)
        × (is_some job.username ≡ is_some job.password)
        × (elim (find "password_enc" raw) [
          | none ↦ true
          | some enc ↦ not (is_empty (decrypt_value F enc))
        ]
            ≡ true)
  unfolding prepare open_rows
  prepare-open_rows F raw job h =
      let p = prepare_config-Passed (open_row F raw) job h in
      let flags = p.2 in
      (
        (p.0, sym (security_mode-open_row F raw) ∙ p.1, flags),
        ground (arith, flags, security_flags_apart p.0),
        p.3,
        p.4,
        p.5,
        open_row-failed F raw p.6,
      )

-- ===== src/Alerts/Settings.antt =====
-- The stored password, through saves and reads of the settings.
use glassops.Prelude.{
  ℕ, ◌≡◌, refl, sym, ◌∙◌, ap, String, Bool, true, false, not, Option, none, some, if◌then◌else◌,
  ◌==◌, string_eq, arith,
}
use glassops.Prelude.Text.{is_empty}
use glassops.Json.{
  Json, null, bool, str, Members, get, find, set_key, drop_key, truthy, find-drop_key, find-set_key,
  get-find,
}
use glassops.Alerts.{Alerts, security_mode, mode_of}
use glassops.Alerts.Config.{
  Fernet, decrypt_text, decrypt_value, with_password, open_row, open_rows, cached_config,
  fill_cache, get_smtp_config, is_new_password, keep_marker, merged, save_smtp_config,
}

abbrev pub marker_of : Option Members → Option Json
marker_of none = none
marker_of (some row) = find "password_enc" row

keep_marker-marker :
    (store : Members) (o : Option Members)
    → find "password_enc" store ≡ none
    → marker_of (some (keep_marker o store)) ≡ marker_of o
unfolding keep_marker
keep_marker-marker store none fresh = fresh
keep_marker-marker store (some row) fresh = by_marker (find "password_enc" row)
  where
    by_marker :
        (m : Option Json)
        → find "password_enc"
            (elim m [ none ↦ store | some marker ↦ set_key "password_enc" marker store ])
          ≡ m
    by_marker none = fresh
    by_marker (some marker) =
        ground (arith, find-set_key "password_enc" "password_enc" marker store)

mode_of_same :
    (v : Json) (c d : Members)
    → find "use_tls" c ≡ find "use_tls" d
    → find "start_tls" c ≡ find "start_tls" d
    → mode_of v c ≡ mode_of v d
unfolding mode_of
mode_of_same null c d h k = rw (h, k) refl
mode_of_same (str s) c d h k = refl
mode_of_same _ c d h k = refl

module _ (F : Fernet) where
  open F use {encrypt, decrypt}

  -- After a save without a ciphertext of its own, the row has no password where it is cleared, the
  -- encrypted new password where there is one, and else exactly what it had.
  save_smtp_config-marker :
      (password : String) (clear_password : Bool) (store : Members) (s : Alerts)
      → find "password_enc" store ≡ none
      → marker_of (save_smtp_config F password clear_password store s).row ≡ (
          if clear_password
          then none
          else if is_new_password password
          then some (str (encrypt password))
          else marker_of s.row)
  unfolding save_smtp_config merged
  save_smtp_config-marker password true store s fresh = fresh
  save_smtp_config-marker password false store s fresh = by_new (is_new_password password)
    where
      by_new :
          (b : Bool)
          → find "password_enc" (
              if b
              then set_key "password_enc" (str (encrypt password)) store
              else keep_marker s.row store)
            ≡ (if b then some (str (encrypt password)) else marker_of s.row)
      by_new true =
          ground (arith, find-set_key "password_enc" "password_enc" (str (encrypt password)) store)
      by_new false = keep_marker-marker store s.row fresh

  -- After a save of a new password the settings that are read next have it, whatever the cache
  -- was, and never its ciphertext.
  get_smtp_config-save :
      (password : String) (store : Members) (now : ℕ) (s : Alerts)
      → is_new_password password ≡ true
      → decrypt (encrypt password) ≡ some password
      → is_empty (encrypt password) ≡ false
      → let config = (get_smtp_config F now (save_smtp_config F password false store s)).0 in
        (elim config [ none ↦ none | some c ↦ find "password" c ] ≡ some (str password))
        × (marker_of config ≡ none)
  unfolding get_smtp_config cached_config fill_cache save_smtp_config merged open_rows open_row
      with_password decrypt_value decrypt_text is_new_password string_eq
  get_smtp_config-save password store now s new back given =
      let row = set_key "password_enc" (str (encrypt password)) store in
      let rest = drop_key "password_enc" row in
      ground (
        arith,
        new,
        back,
        given,
        find-set_key "password_enc" "password_enc" (str (encrypt password)) store,
        find-set_key "password" "password" (str password) rest,
        find-set_key "password_enc" "password" (str password) rest,
        find-drop_key "password_enc" "password_enc" row,
      )

  find-open_row :
      (j : String) (raw : Members)
      → ("password_enc" == j) ≡ false
      → ("password" == j) ≡ false
      → ("_decrypt_failed" == j) ≡ false
      → find j (open_row F raw) ≡ find j raw
  unfolding open_row with_password
  find-open_row j raw a b c = by_marker (find "password_enc" raw)
    where
      rest : Members
      rest = drop_key "password_enc" raw

      by_marker :
          (o : Option Json)
          → find j (elim o [ none ↦ rest | some enc ↦ with_password (decrypt_value F enc) rest ])
            ≡ find j raw
      by_marker none = ground (arith, a, find-drop_key j "password_enc" raw)
      by_marker (some enc) =
          let text = decrypt_value F enc in
          ground (
            arith,
            a,
            b,
            c,
            find-drop_key j "password_enc" raw,
            find-set_key j "password" (str text) rest,
            find-set_key j "_decrypt_failed" (bool true) (set_key "password" (str text) rest),
          )

  pub security_mode-open_row : (raw : Members) → security_mode (open_row F raw) ≡ security_mode raw
  unfolding security_mode string_eq
  security_mode-open_row raw =
      let c = open_row F raw in
      let security : get "security" c ≡ get "security" raw =
        get-find "security" c
        ∙ ap (λ (o : Option Json). elim o [ none ↦ null | some v ↦ v ])
            (find-open_row "security" raw refl refl refl)
        ∙ sym (get-find "security" raw) in
      ap (λ (v : Json). mode_of v c) security
      ∙ mode_of_same (get "security" raw) c raw (find-open_row "use_tls" raw refl refl refl)
          (find-open_row "start_tls" raw refl refl refl)

  -- A stored password that cannot be decrypted is marked.
  pub open_row-failed :
      (raw : Members)
      → truthy (get "_decrypt_failed" (open_row F raw)) ≡ false
      → elim (find "password_enc" raw) [
        | none ↦ true
        | some enc ↦ not (is_empty (decrypt_value F enc))
      ]
        ≡ true
  unfolding open_row with_password truthy
  open_row-failed raw h = by_marker (find "password_enc" raw) refl
    where
      rest : Members
      rest = drop_key "password_enc" raw

      by_marker :
          (o : Option Json)
          → find "password_enc" raw ≡ o
          → elim o [ none ↦ true | some enc ↦ not (is_empty (decrypt_value F enc)) ] ≡ true
      by_marker none e = refl
      by_marker (some enc) e =
          let text = decrypt_value F enc in
          ground (
            arith,
            e,
            h,
            get-find "_decrypt_failed" (open_row F raw),
            find-set_key "_decrypt_failed" "_decrypt_failed" (bool true)
                (set_key "password" (str text) rest),
          )

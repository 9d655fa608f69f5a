-- ===== src/Alerts/Config.antt =====
-- `get_smtp_config` and `save_smtp_config`. Fernet under the key of the server is an argument.
use glassops.Prelude.{
  ℕ, ◌+◌, String, Bool, true, false, not, ◌&&◌, Option, none, some, ltb, if◌then◌else◌, ◌==◌,
  string_eq,
}
use glassops.Prelude.Text.{is_empty}
use glassops.Json.{
  Json, null, bool, int, float, infinite, str, arr, obj, Members, find, set_key, drop_key,
}
use glassops.Alerts.{Alerts, config_ttl, masked_password}

-- `_encrypt` and `_decrypt` of Fernet under the server's key; `none` where it raises.
pub record Fernet : Type 0 where
  pub encrypt : String → String
  pub decrypt : String → Option String

-- `password and password != MASKED_PASSWORD`, for the text that the request has.
unfoldable pub is_new_password : String → Bool
is_new_password password = not (is_empty password) && not (password == masked_password)

unfoldable pub keep_marker : Option Members → Members → Members
keep_marker none store = store
keep_marker (some existing) store = elim (find "password_enc" existing) [
  | none ↦ store
  | some marker ↦ set_key "password_enc" marker store
]

-- The first part of `get_smtp_config`: from the cache, or else the row is read.
unfoldable pub cached_config : ℕ → Alerts → Option (Option Members)
cached_config now s =
    if s.cache.cached && ltb now (s.cache.ts + config_ttl) then some s.cache.value else none

unfoldable pub with_password : String → Members → Members
with_password password config =
    let known = set_key "password" (str password) config in
    if is_empty password then set_key "_decrypt_failed" (bool true) known else known

module _ (F : Fernet) where
  open F use {encrypt, decrypt}

  unfoldable pub decrypt_text : String → String
  decrypt_text s =
      if is_empty s then "" else elim (decrypt s) [ none ↦ "" | some plain_text ↦ plain_text ]

  unfoldable pub decrypt_value : Json → String
  decrypt_value (str s) = decrypt_text s
  decrypt_value null = ""
  decrypt_value (bool _) = ""
  decrypt_value (int _) = ""
  decrypt_value (float _) = ""
  decrypt_value infinite = ""
  decrypt_value (arr _) = ""
  decrypt_value (obj _) = ""

  -- What `get_smtp_config` makes of a row.
  unfoldable pub open_row : Members → Members
  open_row raw = elim (find "password_enc" raw) [
    | none ↦ drop_key "password_enc" raw
    | some enc ↦ with_password (decrypt_value enc) (drop_key "password_enc" raw)
  ]

  unfoldable pub open_rows : Option Members → Option Members
  open_rows none = none
  open_rows (some raw) = some (open_row raw)

  -- After the row was read, for the reading of the clock before it.
  unfoldable pub fill_cache : ℕ → Option Members → Alerts → Option Members × Alerts
  fill_cache now raw s = (
    open_rows raw,
    record s { cache = record { value = open_rows raw; ts = now; cached = true } },
  )

  -- With nothing in between.
  unfoldable pub get_smtp_config : ℕ → Alerts → Option Members × Alerts
  get_smtp_config now s = elim (cached_config now s) [
    | none ↦ fill_cache now s.row s
    | some config ↦ (config, s)
  ]

  -- The new row, for the fields password and clear_password of the request and its other fields.
  unfoldable pub merged : String → Bool → Members → Option Members → Members
  merged password clear_password store existing =
      if clear_password
      then store
      else if is_new_password password
      then set_key "password_enc" (str (encrypt password)) store
      else keep_marker existing store

  -- One transaction, and the invalidation of the cache.
  unfoldable pub save_smtp_config : String → Bool → Members → Alerts → Alerts
  save_smtp_config password clear_password store s = record s {
    row = some (merged password clear_password store s.row);
    cache = record s.cache { cached = false };
  }

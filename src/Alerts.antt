-- ===== src/Alerts.antt =====
-- backend/app/services/alert_service.py: the SMTP settings in the table alert_config, their cache,
-- and the state of the throttle. Rows of the table are decoded JSON.
use glassops.Prelude.{
  ℕ, ◌+◌, ◌*◌, String, Bool, true, false, Option, none, some, ltb, if◌then◌else◌, ◌==◌, string_eq,
}
use glassops.Prelude.Text.{strip, is_empty}
use glassops.Prelude.Dict
use glassops.Prelude.Dict.{Dict}
use glassops.Json.{Json, null, bool, int, float, infinite, str, arr, obj, Members, get, find}
pub mod Config
pub mod Sending
pub mod Settings
pub mod Jobs
pub mod Target
mod Outside
pub mod Throttle
pub mod Tests

abbrev pub second : ℕ
second = 1_000_000

abbrev pub cooldown : ℕ
cooldown = 300 * second

abbrev pub failure_backoff : ℕ
failure_backoff = 60 * second

abbrev pub config_ttl : ℕ
config_ttl = 30 * second

abbrev pub masked_password : String
masked_password = "********"

-- `_cfg_cache`
pub record ConfigCache : Type 0 where
  pub value : Option Members
  pub ts : ℕ
  pub cached : Bool

-- The dictionaries and the cache of the module, and the row of alert_config.
pub record Alerts : Type 0 where
  pub last_sent : Dict String ℕ
  pub last_attempt : Dict String ℕ
  pub cache : ConfigCache
  pub row : Option Members

pub data Suppressed : Type 0 where
  cooldown_active : Suppressed
  backing_off : Suppressed

-- `last is not None and last + seconds > now`
unfoldable pub is_within : ℕ → ℕ → Option ℕ → Bool
is_within now seconds none = false
is_within now seconds (some last) = ltb now (last + seconds)

unfoldable pub suppression_of : ℕ → String → Alerts → Option Suppressed
suppression_of now key s =
    if is_empty key
    then none
    else if is_within now cooldown (Dict.lookup key s.last_sent)
    then some cooldown_active
    else if is_within now failure_backoff (Dict.lookup key s.last_attempt)
    then some backing_off
    else none

-- `_suppression_reason`
unfoldable pub suppression_reason : ℕ → Option String → Alerts → Option Suppressed
suppression_reason now none s = none
suppression_reason now (some key) s = suppression_of now key s

unfoldable pub clean : Json → String
clean (str s) = strip s
clean null = ""
clean (bool _) = ""
clean (int _) = ""
clean (float _) = ""
clean infinite = ""
clean (arr _) = ""
clean (obj _) = ""

pub data Mode : Type 0 where
  starttls : Mode
  implicit_tls : Mode
  plain : Mode

-- SECURITY_FLAGS: `use_tls` and `start_tls`.
unfoldable pub security_flags : Mode → Bool × Bool
security_flags starttls = (false, true)
security_flags implicit_tls = (true, false)
security_flags plain = (false, false)

unfoldable pub mode_named : String → Option Mode
mode_named s =
    if s == "starttls"
    then some starttls
    else if s == "implicit_tls"
    then some implicit_tls
    else if s == "none"
    then some plain
    else none

-- A flag of a row that was written before the mode existed.
unfoldable pub legacy_flag : Bool → Option Json → Option Bool
legacy_flag default none = some default
legacy_flag default (some (bool b)) = some b
legacy_flag default (some null) = none
legacy_flag default (some (int _)) = none
legacy_flag default (some (float _)) = none
legacy_flag default (some infinite) = none
legacy_flag default (some (str _)) = none
legacy_flag default (some (arr _)) = none
legacy_flag default (some (obj _)) = none

unfoldable pub legacy_mode : Option Bool → Option Bool → Option Mode
legacy_mode none start_tls = none
legacy_mode (some use_tls) none = none
legacy_mode (some true) (some true) = none
legacy_mode (some true) (some false) = some implicit_tls
legacy_mode (some false) (some true) = some starttls
legacy_mode (some false) (some false) = some plain

unfoldable pub mode_of : Json → Members → Option Mode
mode_of null config =
    legacy_mode (legacy_flag false (find "use_tls" config))
      (legacy_flag true (find "start_tls" config))
mode_of (str s) config = mode_named s
mode_of (bool _) config = none
mode_of (int _) config = none
mode_of (float _) config = none
mode_of infinite config = none
mode_of (arr _) config = none
mode_of (obj _) config = none

unfoldable pub security_mode : Members → Option Mode
security_mode config = mode_of (get "security" config) config

module _ (is_email : String → Bool) where
  unfoldable pub resolve_sender : Members → Option String
  resolve_sender config =
      let from_email = clean (get "from_email" config) in
      let username = clean (get "username" config) in
      if is_empty from_email
      then (if is_email username then some username else none)
      else (if is_email from_email then some from_email else none)

unfoldable pub text_or_none : String → Option String
text_or_none s = if is_empty s then none else some s

-- ===== src/Ingest.antt =====
-- backend/app/services/net_audit_ingest.py, with the time stamp of `ingest_metric` in
-- backend/app/websocket/agent_ws.py: what is kept of an agent's message. Where a call raises, the
-- result is `none`.
use glassops.Prelude.{
  ℕ, ◌+◌, ◌-◌, ◌*◌, String, ◌&&◌, ◌||◌, Option, none, some, List, [], ◌∷◌, ltb, leb, if◌then◌else◌,
  ◌==◌, string_eq, nat_eq,
}
use Prim.Native.Nat.{◌^◌}
use glassops.Json.{
  ℤ, pos, negsuc, Json, null, bool, int, float, infinite, str, arr, obj, first_items, text_of,
}
use glassops.Prelude.Text.{prefix, is_empty}
pub mod Events
pub mod Rollups
pub mod Extract
pub mod Bounds
pub mod Untrusted
pub mod Wellformed
pub mod Tests

abbrev pub second : ℕ
second = 1_000_000

-- From here on an integer is too large to become a float.
unfoldable pub float_limit : ℕ
float_limit = 2 ^ 1024 - 2 ^ 970

unfoldable pub magnitude : ℤ → ℕ
magnitude (pos n) = n
magnitude (negsuc n) = n + 1

unfoldable pub to_millionths : ℤ → ℤ
to_millionths (pos n) = pos (n * second)
to_millionths (negsuc n) = negsuc ((n + 1) * second - 1)

-- `_finite`
unfoldable pub finite : Json → Option (Option ℤ)
finite (int v) = if ltb (magnitude v) float_limit then some (some (to_millionths v)) else none
finite (float q) = some (some q)
finite null = some none
finite (bool _) = some none
finite infinite = some none
finite (str _) = some none
finite (arr _) = some none
finite (obj _) = some none

-- `_int`, for bounds that are not negative.
unfoldable pub int_within : ℕ → ℕ → Json → Option ℕ
int_within lo hi (int (pos n)) = if leb lo n && leb n hi then some n else none
int_within lo hi (int (negsuc _)) = none
int_within lo hi null = none
int_within lo hi (bool _) = none
int_within lo hi (float _) = none
int_within lo hi infinite = none
int_within lo hi (str _) = none
int_within lo hi (arr _) = none
int_within lo hi (obj _) = none

abbrev pub event_kinds : List String
event_kinds = "open" ∷ "close" ∷ []

abbrev pub protos : List String
protos = "tcp" ∷ "tcp6" ∷ "udp" ∷ "udp6" ∷ []

abbrev pub max_events : ℕ
max_events = 500

abbrev pub max_rollups : ℕ
max_rollups = 5

abbrev pub max_ifaces : ℕ
max_ifaces = 64

abbrev pub max_talkers : ℕ
max_talkers = 100

abbrev pub max_pid : ℕ
max_pid = 2_147_483_647

-- The result of `_clean_event`; times and durations are whole microseconds.
pub record CleanEvent : Type 0 where
  pub event : String
  pub ts : ℕ
  pub proto : String
  pub laddr : String
  pub lport : Option ℕ
  pub raddr : String
  pub rport : Option ℕ
  pub status : String
  pub pid : Option ℕ
  pub pname : String
  pub duration : Option ℕ

-- The byte counts are millionths.
pub record Iface : Type 0 where
  pub name : String
  pub bytes_in : ℕ
  pub bytes_out : ℕ

pub record CleanTalker : Type 0 where
  pub raddr : String
  pub conns : ℕ

pub record CleanRollup : Type 0 where
  pub ts : ℕ
  pub interfaces : List Iface
  pub top_talkers : List CleanTalker

-- What is stored of a message.
pub data Extracted : Type 0 where
  raised : Extracted
  nothing : Extracted
  stored : List CleanEvent → List CleanRollup → Extracted

-- A duration that is negative is dropped.
unfoldable pub not_negative : Option ℤ → Option ℕ
not_negative none = none
not_negative (some (pos n)) = some n
not_negative (some (negsuc _)) = none

unfoldable pub or_zero : Option ℕ → ℕ
or_zero none = 0
or_zero (some n) = n

-- `max(0.0, _finite(v) or 0.0)`
unfoldable pub byte_count : Json → Option ℕ
byte_count v = elim (finite v) [ none ↦ none | some q ↦ some (or_zero (not_negative q)) ]

-- The time stamp of a rollup: the server's, unless the agent's is plausible.
unfoldable pub rollup_ts : ℕ → Option ℤ → ℕ
rollup_ts server_ts none = server_ts
rollup_ts server_ts (some (negsuc _)) = server_ts
rollup_ts server_ts (some (pos n)) =
    if n == 0 || ltb (server_ts + 300 * second) n then server_ts else n

-- A loop with `continue` or an `is not None` test over items; it ends where one of them raises.
unfoldable pub clean_each {ℓ} :
    {A : Type ℓ} → (Json → Option (Option A)) → List Json → Option (List A)
clean_each f [] = some []
clean_each f (v ∷ vs) =
    let later = clean_each f vs in
    elim (f v) [
      | none ↦ none
      | some none ↦ later
      | some (some a) ↦ elim later [ none ↦ none | some out ↦ some (a ∷ out) ]
    ]

-- The same over the first items of a value, if it is a list.
unfoldable pub clean_list {ℓ} :
    {A : Type ℓ} → (Json → Option (Option A)) → ℕ → Json → Option (List A)
clean_list f n (arr items) = clean_each f (first_items n items)
clean_list f n null = some []
clean_list f n (bool _) = some []
clean_list f n (int _) = some []
clean_list f n (float _) = some []
clean_list f n infinite = some []
clean_list f n (str _) = some []
clean_list f n (obj _) = some []

-- The time stamp that `ingest_metric` goes on with: it raises, drops the message, or has one.
unfoldable pub plausible_ts : ℕ → ℕ → ℕ
plausible_ts now ts =
    if ltb (now + 300 * second) ts || ltb (ts + 86_400 * second) now then now else ts

unfoldable pub positive_ts : ℕ → Option ℤ → Option ℕ
positive_ts now none = none
positive_ts now (some (negsuc _)) = none
positive_ts now (some (pos n)) = if n == 0 then none else some (plausible_ts now n)

unfoldable pub canonical_ts : ℕ → Json → Option (Option ℕ)
canonical_ts now v = elim (finite v) [ none ↦ none | some q ↦ some (positive_ts now q) ]

-- `show` is `str(v)` of a value that is no text.
module _ (show : Json → String) where
  unfoldable pub capped : ℕ → Json → String
  capped cap null = ""
  capped cap (str s) = prefix cap s
  capped cap (bool b) = prefix cap (show (bool b))
  capped cap (int v) = prefix cap (show (int v))
  capped cap (float q) = prefix cap (show (float q))
  capped cap infinite = prefix cap (show infinite)
  capped cap (arr items) = prefix cap (show (arr items))
  capped cap (obj members) = prefix cap (show (obj members))

-- `canonical` is `str(ipaddress.ip_address(v))`, where it does not raise.
module _ (canonical : String → Option String) where
  unfoldable pub ip : Json → String
  ip v =
      if is_empty (text_of v)
      then ""
      else elim (canonical (text_of v)) [ none ↦ "" | some address ↦ address ]

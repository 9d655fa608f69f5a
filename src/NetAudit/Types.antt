-- ===== src/NetAudit/Types.antt =====
-- The rows, keys, counters and events of net_audit.py. Times are whole microseconds of the clock.
use glassops.Prelude.{
  ℕ, ◌+◌, ◌-◌, ◌/◌, ◌%◌, String, Bool, Option, List, [], ◌∷◌, ltb, leb, if◌then◌else◌, Eq, nat_eq,
  string_eq, contains, ◌==◌,
}
use native.Mathlib.Decide.{ℕ_discrete}

abbrev pub second : ℕ
second = 1_000_000

-- A connection row of a snapshot, with the process that `snapshot` attributed it to.
pub record Conn : Type 0 where
  pub proto : String
  pub laddr : String
  pub lport : ℕ
  pub raddr : String
  pub rport : ℕ
  pub status : String
  pub inode : ℕ
  pub pid : Option ℕ
  pub pname : String

-- The tuple of `_conn_key`.
pub record Key : Type 0 where
  pub proto : String
  pub laddr : String
  pub lport : ℕ
  pub raddr : String
  pub rport : ℕ

unfoldable pub conn_key : Conn → Key
conn_key c = record {
  proto = c.proto;
  laddr = c.laddr;
  lport = c.lport;
  raddr = c.raddr;
  rport = c.rport;
}

string_discrete : Discrete String
unfolding string_eq
string_discrete = string_eq.dec

Key-discrete : Discrete Key
unfolding string_discrete
Key-discrete = hlevel (ℕ_discrete, string_discrete)

instance unfoldable pub key_eq : Eq Key
unfolding Key-discrete
key_eq = record { dec = Key-discrete }

pub record Snapshot : Type 0 where
  pub conns : List Conn
  pub ok : Bool
  pub reason : String

-- One interface of /proc/net/dev.
pub record Counters : Type 0 where
  pub bytes_in : ℕ
  pub packets_in : ℕ
  pub bytes_out : ℕ
  pub packets_out : ℕ

-- What `_prev` keeps of an open connection.
pub record Meta : Type 0 where
  pub ts : ℕ
  pub pid : Option ℕ
  pub pname : String
  pub status : String

pub data Kind : Type 0 where
  opened : Kind
  closed : Kind

-- `round(now - ts, 3)`, in milliseconds: half goes to even, and a clock that was set back gives a
-- negative duration.
pub data Duration : Type 0 where
  unknown : Duration
  lasted : ℕ → Duration
  negative : ℕ → Duration

unfoldable pub round_ms : ℕ → ℕ
unfolding nat_eq
round_ms d =
    if ltb (d % 1000) 500
    then d / 1000
    else if ltb 500 (d % 1000)
    then d / 1000 + 1
    else if (d / 1000) % 2 == 0
    then d / 1000
    else d / 1000 + 1

unfoldable pub duration : ℕ → ℕ → Duration
duration now ts =
    if leb ts now then lasted (round_ms (now - ts)) else negative (round_ms (ts - now))

pub record Event : Type 0 where
  pub event : Kind
  pub ts : ℕ
  pub key : Key
  pub status : String
  pub pid : Option ℕ
  pub pname : String
  pub duration : Duration

-- `_WILDCARD`: no peer.
unfoldable pub is_wildcard : String → Bool
is_wildcard raddr = contains ("" ∷ "0.0.0.0" ∷ "::" ∷ []) raddr

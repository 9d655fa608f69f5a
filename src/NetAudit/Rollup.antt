-- ===== src/NetAudit/Rollup.antt =====
-- The minute buckets of `NetAuditCollector`: `_maybe_rollup` and the count of active peers.
use glassops.Prelude.{
  ℕ, ◌-◌, ◌*◌, ◌/◌, String, Bool, false, Option, none, some, List, [], ◌∷◌, ◌++◌, ltb,
  if◌then◌else◌, contains, ◌==◌, nat_eq, length, take, string_eq,
}
use glassops.Prelude.Dict
use glassops.Prelude.Dict.{Dict}
use glassops.NetAudit.Types.{Conn, Key, Counters, second, key_eq}

pub record Interface : Type 0 where
  pub name : String
  pub bytes_in : ℕ
  pub bytes_out : ℕ

pub record Talker : Type 0 where
  pub raddr : String
  pub conns : ℕ

-- `ts` is in seconds, the start of the bucket.
pub record Rollup : Type 0 where
  pub ts : ℕ
  pub interfaces : List Interface
  pub top_talkers : List Talker

-- The state of the current bucket. `conns` has the set of active keys of each peer.
pub record Buckets : Type 0 where
  pub bucket : Option ℕ
  pub start_if : Option (Dict String Counters)
  pub conns : Dict String (List Key)
  pub invalid : Bool

abbrev pub no_buckets : Buckets
no_buckets = record { bucket = none; start_if = none; conns = []; invalid = false }

unfoldable pub minute : ℕ → ℕ
minute now = now / (60 * second)

-- The interfaces that had a baseline; a counter that went back counts as 0.
unfoldable pub deltas : Dict String Counters → Dict String Counters → List Interface
deltas start_if [] = []
deltas start_if ((name, c) ∷ cur_if) =
    let rest = deltas start_if cur_if in
    elim (Dict.lookup name start_if) [
      | none ↦ rest
      | some s ↦
          record {
            name = name;
            bytes_in = c.bytes_in - s.bytes_in;
            bytes_out = c.bytes_out - s.bytes_out;
          }
          ∷ rest
    ]

-- `sorted(..., key=count, reverse=True)`, which keeps the order of equal counts.
unfoldable pub place : Talker → List Talker → List Talker
place x [] = x ∷ []
place x (y ∷ ys) = if ltb y.conns x.conns then x ∷ y ∷ ys else y ∷ place x ys

unfoldable pub rank : List Talker → List Talker → List Talker
unfolding place
rank done [] = done
rank done (x ∷ xs) = rank (place x done) xs

unfoldable pub tally : Dict String (List Key) → List Talker
tally [] = []
tally ((raddr, ks) ∷ d) = record { raddr = raddr; conns = length ks } ∷ tally d

unfoldable pub or_empty : Option (Dict String Counters) → Dict String Counters
or_empty none = []
or_empty (some d) = d

-- `_maybe_rollup`. `counters` is what `interface_counters()` reads in this call.
unfoldable pub maybe_rollup : ℕ → ℕ → Dict String Counters → Buckets → List Rollup × Buckets
unfolding deltas rank tally or_empty nat_eq
maybe_rollup top_talkers now counters b = elim b.bucket [
  | none ↦ ([], record b { bucket = some (minute now); start_if = some counters })
  | some open_bucket ↦
      if minute now == open_bucket
      then ([], b)
      else let next : Buckets = record {
        bucket = some (minute now);
        start_if = some counters;
        conns = [];
        invalid = false;
      } in
        if b.invalid then ([], next) else (
          record {
            ts = open_bucket * 60;
            interfaces = deltas (or_empty b.start_if) counters;
            top_talkers = take top_talkers (rank [] (tally b.conns));
          }
              ∷ [],
          next,
        )
]

-- `set.add`
unfoldable pub add_key : Key → List Key → List Key
add_key k ks = if contains ks k then ks else ks ++ (k ∷ [])

unfoldable pub set_of : Option (List Key) → List Key
set_of none = []
set_of (some ks) = ks

-- `setdefault(c["raddr"], set()).add(key)` for each active connection.
unfoldable pub note_active : Dict Key Conn → Dict String (List Key) → Dict String (List Key)
note_active [] conns = conns
note_active ((k, c) ∷ current) conns =
    note_active current (Dict.insert c.raddr (add_key k (set_of (Dict.lookup c.raddr conns))) conns)

-- ===== src/NetAudit/Collector.antt =====
-- `NetAuditCollector.collect`. The source's answers, its clock's among them, are arguments.
use glassops.Prelude.{
  ℕ, ◌-◌, String, Bool, true, false, not, none, some, List, [], ◌∷◌, ◌++◌, ltb, if◌then◌else◌, ◌==◌,
  nat_eq, length, take, keep, string_eq,
}
use glassops.Prelude.Dict
use glassops.Prelude.Dict.{Dict}
use glassops.NetAudit.Types.{
  Conn, Key, conn_key, Snapshot, Counters, Meta, opened, closed, unknown, duration, Event,
  is_wildcard, key_eq,
}
use glassops.NetAudit.Rollup.{Rollup, Buckets, no_buckets, minute, maybe_rollup, note_active}

pub record Collector : Type 0 where
  pub max_events : ℕ
  pub top_talkers : ℕ
  pub prev : Dict Key Meta
  pub buckets : Buckets

abbrev pub new : ℕ → ℕ → Collector
new max_events top_talkers = record {
  max_events = max_events;
  top_talkers = top_talkers;
  prev = [];
  buckets = no_buckets;
}

-- What one cycle reads: the clock, the snapshot, and the interface counters if they are asked for.
pub record Tick : Type 0 where
  pub now : ℕ
  pub snap : Snapshot
  pub counters : Dict String Counters

pub record Report : Type 0 where
  pub events : List Event
  pub rollups : List Rollup
  pub dropped : ℕ

-- `key in d`
unfoldable pub has {ℓ} : {V : Type ℓ} → Key → Dict Key V → Bool
has k d = elim (Dict.lookup k d) [ none ↦ false | some _ ↦ true ]

-- `{_conn_key(c): c for c in conns}`, of the rows that have a peer: the last row of a key wins.
unfoldable pub by_key : Dict Key Conn → List Conn → Dict Key Conn
by_key d [] = d
by_key d (c ∷ cs) = by_key (Dict.insert (conn_key c) c d) cs

unfoldable pub current_of : Snapshot → Dict Key Conn
current_of snap = by_key [] (keep (λ (c : Conn). not (is_wildcard c.raddr)) snap.conns)

unfoldable pub open_event : ℕ → Key → Conn → Event
open_event now k c = record {
  event = opened;
  ts = now;
  key = k;
  status = c.status;
  pid = c.pid;
  pname = c.pname;
  duration = unknown;
}

unfoldable pub close_event : ℕ → Key → Meta → Event
close_event now k m = record {
  event = closed;
  ts = now;
  key = k;
  status = m.status;
  pid = m.pid;
  pname = m.pname;
  duration = duration now m.ts;
}

-- The loop over `current`: a key that is new is remembered and reported.
unfoldable pub open_new : ℕ → Dict Key Conn → Dict Key Meta → Dict Key Meta × List Event
open_new now [] prev = (prev, [])
open_new now ((k, c) ∷ current) prev =
    let known = has k prev in
    let seen : Meta = record { ts = now; pid = c.pid; pname = c.pname; status = c.status } in
    let (prev', opens) = open_new now current (if known then prev else Dict.insert k seen prev) in
    (prev', if known then opens else open_event now k c ∷ opens)

-- The loop over `list(self._prev)`: a key that is not current is forgotten and reported.
unfoldable pub close_gone : ℕ → Dict Key Conn → Dict Key Meta → Dict Key Meta × List Event
close_gone now current [] = ([], [])
close_gone now current ((k, m) ∷ prev) =
    let (prev', closes) = close_gone now current prev in
    if has k current then ((k, m) ∷ prev', closes) else (prev', close_event now k m ∷ closes)

-- The cap: what is over it is cut off and counted.
unfoldable pub cap_events : ℕ → List Event → List Event × ℕ
cap_events max_events events =
    if ltb max_events (length events)
    then (take max_events events, length events - max_events)
    else (events, 0)

-- The source could not be read: nothing is diffed, and an outage over a minute's end is noted.
unfoldable pub skip_tick : ℕ → Collector → Report × Collector
unfolding nat_eq
skip_tick now s = (
  record { events = []; rollups = []; dropped = 0 },
  elim s.buckets.bucket [
    | none ↦ s
    | some b ↦
        if minute now == b then s else record s { buckets = record s.buckets { invalid = true } }
  ],
)

unfoldable pub diff_tick : Tick → Collector → Report × Collector
diff_tick t s =
    let current = current_of t.snap in
    let (seen, opens) = open_new t.now current s.prev in
    let (prev', closes) = close_gone t.now current seen in
    let (events, dropped) = cap_events s.max_events (closes ++ opens) in
    let (rollups, buckets') = maybe_rollup s.top_talkers t.now t.counters s.buckets in
    (
      record { events = events; rollups = rollups; dropped = dropped },
      record s {
        prev = prev';
        buckets = record buckets' { conns = note_active current buckets'.conns };
      },
    )

unfoldable pub collect : Tick → Collector → Report × Collector
collect t s = if t.snap.ok then diff_tick t s else skip_tick t.now s

-- ===== src/NetAudit/Trail.antt =====
-- The audit trail of one connection, read back from the events of a run.
pub mod Loops
use glassops.Prelude.{
  ℕ, ◌≡◌, refl, inl, inr, Bool-cases, Bool, false, not, ◌&&◌, ◌||◌, some, List, [], ◌∷◌, ◌++◌,
  arith, if◌then◌else◌, ◌==◌, All, ap, Bool-cases, keep,
}
use glassops.Prelude.Dict
use glassops.Prelude.Dict.{Dict, NodupKeys}
use glassops.NetAudit.Types.{Conn, Key, Event, Snapshot, is_wildcard, conn_key, key_eq}
use glassops.NetAudit.Collector.{
  Collector, Tick, Report, has, current_of, open_new, close_gone, cap_events, diff_tick, skip_tick,
  collect, new, by_key,
}
use glassops.NetAudit.Branches.{collect_of_ok, collect_of_failed, prev-skip_tick}
use glassops.NetAudit.Trail.Loops.{
  trail, trail-append, has-insert, has-nil, has-open_new, trail-open_new, has-close_gone,
  trail-close_gone, open_new-NodupKeys, close_gone-NodupKeys,
}

cap_events_of_dropped :
    (n : ℕ) (es : List Event) → (cap_events n es).1 ≡ 0 → (cap_events n es).0 ≡ es
unfolding cap_events
cap_events_of_dropped n es h = ground arith

abbrev Follows : Key → Collector → Report × Collector → Type 0
Follows k s (r, s') =
    (r.dropped ≡ 0 → trail k (has k s.prev) r.events ≡ some (has k s'.prev)) × NodupKeys s'.prev

diff_tick-Follows :
    (k : Key) (t : Tick) (s : Collector) → NodupKeys s.prev → Follows k s (diff_tick t s)
unfolding diff_tick
diff_tick-Follows k t s u =
    let current = current_of t.snap in
    let seen = open_new t.now current s.prev in
    let kept = close_gone t.now current seen.0 in
    let v = open_new-NodupKeys t.now current s.prev u in
    (
      λ all_reported.
          rw
            (
              cap_events_of_dropped s.max_events (kept.1 ++ seen.1) all_reported,
              trail-append,
              has-close_gone,
            )
            (ground (
              arith,
              trail-close_gone k t.now current seen.0 (has k s.prev) v,
              has-open_new k t.now current s.prev,
              trail-open_new k t.now current s.prev (has k s.prev),
              trail-open_new k t.now current s.prev false,
            )),
      close_gone-NodupKeys t.now current seen.0 v,
    )

skip_tick-Follows :
    (k : Key) (now : ℕ) (s : Collector) → NodupKeys s.prev → Follows k s (skip_tick now s)
skip_tick-Follows k now s u = rw prev-skip_tick (unfold skip_tick trail in (λ h. refl, u))

collect-Follows :
    (k : Key) (t : Tick) (s : Collector) → NodupKeys s.prev → Follows k s (collect t s)
collect-Follows k t s u = elim (Bool-cases t.snap.ok) [
  | inl good ↦ rw (collect_of_ok t s good) (diff_tick-Follows k t s u)
  | inr failed ↦ rw (collect_of_failed t s failed) (skip_tick-Follows k t.now s u)
]

-- The connections of a snapshot, from its rows: a key is live if some row with a peer has it.
unfoldable pub live : Key → List Conn → Bool
live k [] = false
live k (c ∷ cs) = (not (is_wildcard c.raddr) && k == conn_key c) || live k cs

module _ (k : Key) where
  has-by_key :
      (d : Dict Key Conn) (cs : List Conn)
      → has k (by_key d (keep (λ (c : Conn). not (is_wildcard c.raddr)) cs))
        ≡ (has k d || live k cs)
  unfolding by_key live
  has-by_key d [] = ground arith
  has-by_key d (c ∷ cs) = ground (
    arith,
    has-by_key d cs,
    has-by_key (Dict.insert (conn_key c) c d) cs,
    has-insert k (conn_key c) c d,
  )

  pub has-current_of : (snap : Snapshot) → has k (current_of snap) ≡ live k snap.conns
  unfolding current_of
  has-current_of snap = rw (has-by_key [] snap.conns, has-nil) (ground arith)

  -- A good cycle remembers exactly what its snapshot shows.
  has-diff_tick : (t : Tick) (s : Collector) → has k (diff_tick t s).1.prev ≡ live k t.snap.conns
  unfolding diff_tick
  has-diff_tick t s = ground (
    arith,
    has-close_gone k t.now (current_of t.snap) (open_new t.now (current_of t.snap) s.prev).0,
    has-open_new k t.now (current_of t.snap) s.prev,
    has-current_of t.snap,
  )

-- A run of cycles, with all its reports.
unfoldable pub run : Collector → List Tick → List Report × Collector
run s [] = ([], s)
run s (t ∷ ts) = let (r, s') = collect t s in let (rs, s'') = run s' ts in (r ∷ rs, s'')

unfoldable pub events_of : List Report → List Event
events_of [] = []
events_of (r ∷ rs) = r.events ++ events_of rs

-- Whether `k` was live in the last snapshot that could be read.
unfoldable pub last_seen : Key → Bool → List Tick → Bool
last_seen k b [] = b
last_seen k b (t ∷ ts) = last_seen k (if t.snap.ok then live k t.snap.conns else b) ts

abbrev pub AllReported : List Report → Type 0
AllReported = All (λ (r : Report). r.dropped ≡ 0)

has-collect :
    (k : Key) (t : Tick) (s : Collector)
    → has k (collect t s).1.prev ≡ (if t.snap.ok then live k t.snap.conns else has k s.prev)
has-collect k t s = ground (
  arith,
  collect_of_ok t s,
  collect_of_failed t s,
  has-diff_tick k t s,
  ap (has k) (prev-skip_tick t.now s),
)

trail-run :
    (k : Key) (ts : List Tick) (s : Collector)
    → NodupKeys s.prev
    → AllReported (run s ts).0
    → trail k (has k s.prev) (events_of (run s ts).0) ≡ some (last_seen k (has k s.prev) ts)
unfolding run events_of last_seen
trail-run k [] s u h = unfold trail in refl
trail-run k (t ∷ ts) s u h =
    let f = collect-Follows k t s u in
    rw (trail-append, f.0 h.0, ← has-collect k t s) (trail-run k ts (collect t s).1 f.1 h.1)

-- Over any sequence of cycles in which no event was dropped, outages of the source and a clock
-- that jumps included, the events of a connection alternate between open and close, and the
-- connection is open at the end of the trail exactly if the last snapshot that could be read has
-- a row with its key and a peer.
pub trail_exact :
    (k : Key) (ts : List Tick) (max_events top_talkers : ℕ)
    → AllReported (run (new max_events top_talkers) ts).0
    → trail k false (events_of (run (new max_events top_talkers) ts).0)
      ≡ some (last_seen k false ts)
trail_exact k ts max_events top_talkers h =
    let s = new max_events top_talkers in rw has-nil at (trail-run k ts s tt h)

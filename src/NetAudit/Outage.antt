-- ===== src/NetAudit/Outage.antt =====
-- Outages of the source, within the minute of a bucket and across its end.
use glassops.Prelude.{
  ℕ, ◌≡◌, ◌≢◌, refl, Bool, true, false, some, List, [], ◌∷◌, arith, if◌then◌else◌, ◌==◌, All, ap,
  nat_eq,
}
use glassops.NetAudit.Rollup.{minute, maybe_rollup, note_active}
use glassops.NetAudit.Collector.{Collector, Tick, current_of, diff_tick, skip_tick, collect}
use glassops.NetAudit.Branches.{collect_of_ok, collect_of_failed}
use glassops.NetAudit.Trail.{run}

-- A cycle in which the source could not be read.
abbrev pub IsFailed : Tick → Type 0
IsFailed t = t.snap.ok ≡ false

-- Some cycle of the outage falls in another minute than `b`.
unfoldable pub leaves : ℕ → List Tick → Bool
leaves b [] = false
leaves b (t ∷ ts) = if minute t.now == b then leaves b ts else true

-- During an outage only the mark on the bucket changes.
unfoldable pub spoil : Bool → Collector → Collector
spoil true s = record s { buckets = record s.buckets { invalid = true } }
spoil false s = s

skip_tick-spoil :
    (now b : ℕ) (s : Collector)
    → s.buckets.bucket ≡ some b
    → (skip_tick now s).1 ≡ spoil (if minute now == b then false else true) s
unfolding skip_tick spoil
skip_tick-spoil now b s h = ground arith

spoil_twice : (p q : Bool) (s : Collector) → spoil q (spoil p s) ≡ spoil (if p then true else q) s
unfolding spoil
spoil_twice true true s = refl
spoil_twice true false s = refl
spoil_twice false q s = refl

bucket-spoil : (p : Bool) (s : Collector) → (spoil p s).buckets.bucket ≡ s.buckets.bucket
unfolding spoil
bucket-spoil true s = refl
bucket-spoil false s = refl

run-spoil :
    (ts : List Tick) (s : Collector) (b : ℕ)
    → All IsFailed ts
    → s.buckets.bucket ≡ some b
    → (run s ts).1 ≡ spoil (leaves b ts) s
unfolding run leaves
run-spoil [] s b h open_bucket = unfold spoil in refl
run-spoil (t ∷ ts) s b h open_bucket =
    let p = if minute t.now == b then false else true in
    rw (collect_of_failed t s h.0, skip_tick-spoil t.now b s open_bucket)
      (ground (
        arith,
        run-spoil ts (spoil p s) b h.1 (rw bucket-spoil open_bucket),
        spoil_twice p (leaves b ts) s,
      ))

discard :
    (t : Tick) (s : Collector) (b : ℕ)
    → s.buckets.bucket ≡ some b
    → minute t.now ≢ b
    → ((diff_tick t (spoil true s)).0.rollups ≡ [])
      × ((diff_tick t (spoil true s)).1.buckets ≡ record {
        bucket = some (minute t.now);
        start_if = some t.counters;
        conns = note_active (current_of t.snap) [];
        invalid = false;
      })
unfolding diff_tick maybe_rollup spoil
discard t s b open_bucket other = ground arith

-- After an outage of any length, in which some cycle falls in another minute than the open
-- bucket, the first good cycle outside that minute reports no rollup: it starts a new bucket, of
-- its own minute, from its own counters and connections.
pub outage_discards :
    (ts : List Tick) (t : Tick) (s : Collector) (b : ℕ)
    → All IsFailed ts
    → s.buckets.bucket ≡ some b
    → leaves b ts ≡ true
    → t.snap.ok ≡ true
    → minute t.now ≢ b
    → ((collect t (run s ts).1).0.rollups ≡ [])
      × ((collect t (run s ts).1).1.buckets ≡ record {
        bucket = some (minute t.now);
        start_if = some t.counters;
        conns = note_active (current_of t.snap) [];
        invalid = false;
      })
outage_discards ts t s b failed open_bucket left good other =
    rw (run-spoil ts s b failed open_bucket, left, collect_of_ok t (spoil true s) good)
      (discard t s b open_bucket other)

-- An outage of which every cycle falls in the minute of the open bucket leaves no trace: what any
-- further cycles report and remember is the same as without it.
outage_unnoticed :
    (ts later : List Tick) (s : Collector) (b : ℕ)
    → All IsFailed ts
    → s.buckets.bucket ≡ some b
    → leaves b ts ≡ false
    → run (run s ts).1 later ≡ run s later
unfolding spoil
outage_unnoticed ts later s b failed open_bucket stayed =
    ap (λ c. run c later) (rw (run-spoil ts s b failed open_bucket, stayed) refl)

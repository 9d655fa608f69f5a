-- ===== src/NetAudit/Branches.antt =====
-- The branches of `collect`.
use glassops.Prelude.{ℕ, ◌≡◌, true, false, arith}
use glassops.NetAudit.Collector.{Collector, Tick, diff_tick, skip_tick, collect}

pub collect_of_ok : (t : Tick) (s : Collector) → t.snap.ok ≡ true → collect t s ≡ diff_tick t s
unfolding collect
collect_of_ok t s good = ground arith

pub collect_of_failed :
    (t : Tick) (s : Collector) → t.snap.ok ≡ false → collect t s ≡ skip_tick t.now s
unfolding collect
collect_of_failed t s failed = ground arith

pub prev-skip_tick : (now : ℕ) (s : Collector) → (skip_tick now s).1.prev ≡ s.prev
unfolding skip_tick
prev-skip_tick now s = ground arith

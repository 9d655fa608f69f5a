-- ===== src/NetAudit/Traffic.antt =====
-- The byte deltas of successive rollups, against the counter.
use glassops.Prelude.{
  ℕ, ◌+◌, ◌-◌, ◌≤◌, ◌≡◌, ◌≢◌, refl, String, Bool, true, false, Option, none, some, List, [], ◌∷◌,
  arith, if◌then◌else◌, ◌==◌, inl, inr, Option-cases, nat_eq, string_eq,
}
use glassops.Prelude.Dict.{Dict, lookup, NodupKeys}
use glassops.NetAudit.Types.{Counters}
use glassops.NetAudit.Rollup.{Interface, Rollup, Buckets, maybe_rollup, deltas, or_empty}
use glassops.NetAudit.Collector.{Collector, Tick, Report, diff_tick}
use glassops.NetAudit.Branches.{collect_of_ok}
use glassops.NetAudit.Trail.{run}

module _ (name : String) where
  unfoldable pub bytes_of : List Interface → ℕ
  bytes_of [] = 0
  bytes_of (i ∷ is) = if i.name == name then i.bytes_in + bytes_of is else bytes_of is

  unfoldable pub bytes_of_rollups : List Rollup → ℕ
  bytes_of_rollups [] = 0
  bytes_of_rollups (r ∷ rs) = bytes_of r.interfaces + bytes_of_rollups rs

  -- All that a run reports as received on the interface.
  unfoldable pub reported : List Report → ℕ
  reported [] = 0
  reported (r ∷ rs) = bytes_of_rollups r.rollups + reported rs

  -- The counter of the interface at the start of the open bucket.
  abbrev pub baseline : Buckets → Option Counters
  baseline b = lookup name (or_empty b.start_if)

  bytes_of-deltas_absent :
      (start cur : Dict String Counters) → lookup name cur ≡ none → bytes_of (deltas start cur) ≡ 0
  unfolding bytes_of deltas lookup
  bytes_of-deltas_absent start [] h = refl
  bytes_of-deltas_absent start ((n, c) ∷ cur) h = ground (arith, bytes_of-deltas_absent start cur)

  bytes_of-deltas :
      (start cur : Dict String Counters) (s c : Counters)
      → NodupKeys cur
      → lookup name start ≡ some s
      → lookup name cur ≡ some c
      → bytes_of (deltas start cur) ≡ c.bytes_in - s.bytes_in
  unfolding bytes_of deltas lookup
  bytes_of-deltas start [] s c u hs hc = cc
  bytes_of-deltas start ((n, d) ∷ cur) s c (fresh, u) hs hc =
      ground (arith, bytes_of-deltas start cur s c u, bytes_of-deltas_absent start cur)

  abbrev bytes_in_of : Option Counters → ℕ
  bytes_in_of none = 0
  bytes_in_of (some c) = c.bytes_in

  abbrev present : Option Counters → Bool
  present none = false
  present (some _) = true

  bytes_of-deltas-present :
      (start cur : Dict String Counters)
      → NodupKeys cur
      → present (lookup name start) ≡ true
      → present (lookup name cur) ≡ true
      → bytes_of (deltas start cur)
        ≡ bytes_in_of (lookup name cur) - bytes_in_of (lookup name start)
  bytes_of-deltas-present start cur u hs hc = elim (Option-cases (lookup name start)) [
    | inl no_start ↦ cc (no_start)
    | inr (s, es) ↦ elim (Option-cases (lookup name cur)) [
      | inl no_cur ↦ cc (no_cur)
      | inr (c, ec) ↦ rw (es, ec) (bytes_of-deltas start cur s c u es ec)
    ]
  ]

  -- The counter of the interface as a cycle reads it, and at the start of the open bucket.
  abbrev pub reading : Tick → ℕ
  reading t = bytes_in_of (lookup name t.counters)

  abbrev pub start_bytes : Buckets → ℕ
  start_bytes b = bytes_in_of (baseline b)

  -- Good cycles whose readings have the interface once and never go back below `lo`.
  abbrev pub Grows : ℕ → List Tick → Type 0
  Grows lo [] = Unit
  Grows lo (t ∷ ts) =
      (t.snap.ok ≡ true)
      × NodupKeys t.counters
      × (present (lookup name t.counters) ≡ true)
      × (lo ≤ reading t)
      × Grows (reading t) ts

  abbrev IsCounting : Buckets → Type 0
  IsCounting b = (b.bucket ≢ none) × (present (baseline b) ≡ true) × (b.invalid ≡ false)

  abbrev Counts : ℕ → Buckets → List Rollup × Buckets → Type 0
  Counts hi b (rs, b') =
      IsCounting b' × (bytes_of_rollups rs + start_bytes b ≡ start_bytes b') × (start_bytes b' ≤ hi)

  maybe_rollup-Counts :
      (n now : ℕ) (counters : Dict String Counters) (b : Buckets)
      → NodupKeys counters
      → present (lookup name counters) ≡ true
      → start_bytes b ≤ bytes_in_of (lookup name counters)
      → IsCounting b
      → Counts (bytes_in_of (lookup name counters)) b (maybe_rollup n now counters b)
  unfolding maybe_rollup bytes_of_rollups or_empty
  maybe_rollup-Counts n now counters b u there grows counting =
      ground (arith, bytes_of-deltas-present (or_empty b.start_if) counters u)

  diff_tick-Counts :
      (t : Tick) (s : Collector)
      → NodupKeys t.counters
      → present (lookup name t.counters) ≡ true
      → start_bytes s.buckets ≤ reading t
      → IsCounting s.buckets
      → Counts (reading t) s.buckets ((diff_tick t s).0.rollups, (diff_tick t s).1.buckets)
  unfolding diff_tick
  diff_tick-Counts t s u there grows counting =
      maybe_rollup-Counts s.top_talkers t.now t.counters s.buckets u there grows counting

  reported-run :
      (ts : List Tick) (s : Collector) (lo : ℕ)
      → IsCounting s.buckets
      → start_bytes s.buckets ≤ lo
      → Grows lo ts
      → reported (run s ts).0 + start_bytes s.buckets ≡ start_bytes (run s ts).1.buckets
  unfolding run reported
  reported-run [] s lo counting low grows = omega arith
  reported-run (t ∷ ts) s lo counting low (good, u, there, more, grows) =
      let step = diff_tick-Counts t s u there (omega arith) counting in
      rw (collect_of_ok t s good)
        (omega (arith, step, reported-run ts (diff_tick t s).1 (reading t) step.0 step.2 grows))

  first :
      (t : Tick) (s : Collector)
      → s.buckets.bucket ≡ none
      → s.buckets.invalid ≡ false
      → present (lookup name t.counters) ≡ true
      → IsCounting (diff_tick t s).1.buckets
        × (bytes_of_rollups (diff_tick t s).0.rollups ≡ 0)
        × (start_bytes (diff_tick t s).1.buckets ≡ reading t)
  unfolding diff_tick maybe_rollup bytes_of_rollups or_empty
  first t s fresh valid there = ground arith

  -- Over good cycles in which the interface is always listed, once, and its counter of received
  -- bytes never goes back, all the rollups of the run together report exactly the growth of the
  -- counter from the first cycle to the start of the bucket that is still open: no byte is
  -- counted twice and none is lost.
  pub reported_exact :
      (t : Tick) (ts : List Tick) (s : Collector)
      → s.buckets.bucket ≡ none
      → s.buckets.invalid ≡ false
      → Grows 0 (t ∷ ts)
      → reported (run s (t ∷ ts)).0 + reading t ≡ start_bytes (run s (t ∷ ts)).1.buckets
  unfolding run reported
  reported_exact t ts s fresh valid (good, u, there, more, grows) =
      let step = first t s fresh valid there in
      rw (collect_of_ok t s good) (
        omega (
          arith,
          step,
          reported-run ts (diff_tick t s).1 (reading t) step.0 (omega (arith, step.2)) grows,
        ))

-- ===== src/Metrics/Tests.antt =====
-- Tests of the metric tables, and witnesses: a bucket of three samples, folded in two calls.
use glassops.Prelude.{
  ℕ, zero, suc, ◌+◌, ◌≡◌, refl, true, none, some, if◌then◌else◌, ◌==◌, List, [], ◌∷◌, arith,
  string_eq, nat_eq, false, String, Bool,
}
use glassops.Prelude.Dict
use glassops.Prelude.Dict.{Dict, lookup}
use glassops.Metrics.Tables.{
  Fold, RawRow, BucketKey, bucket_key_eq, has, in_bucket, max_id, by_time, after, covered_at,
  coverage_key_eq, is_open, Coverage, open_bucket, sealed, folded, is_folded, by_id,
  progress_key_eq,
}
use glassops.Prelude.Sorting.{order_by, order_insert}
use glassops.Metrics.Advance.{
  Db, advance_bucket, outstanding, provable, of_generation, is_none_or_open, unpublished,
  published_gen_of, start_step, fold_step, settle_step, fold_rows, fold_row, publish,
}
use glassops.Metrics.Retention.{cleanup_retains}
use glassops.Metrics.Sealing.{not_open, cleanup_seals}
use glassops.Metrics.Cleanup.{
  cleanup_old_metrics, raw_cutoff, ds_cutoff, deletable, covered, published_behind, bucket_named,
  doomed, ids_of, in_chunk, delete_chunk, delete_chunks, delete_past, delete_raw, seal_lookup,
  seal_bucket, seal_all, seal_if_open, prune_coverage, prune_summaries, prune_buckets,
  prunable_summary, prunable_bucket, names_bucket, folded_into, erase_all,
}
use glassops.Metrics.Sealed.{run-Sealed}
use glassops.Metrics.Floor.{downsample-Settled}
use glassops.Metrics.Downsample.{
  downsample_metrics, is_supported, due_cutoff_at, downsample_from, advance_each, in_flight,
  candidates, is_candidate, is_decided, scan_floor, progress_key, buckets_of, bucket_of, agents_of,
  of_agent, unsettled, held, advanced_to, least, greatest, listed, raised, added, raise_progress,
  settle_agent, settle_agents, count_of, by_bucket,
}
use glassops.Metrics.Exact.{Event, advanced, stored, run, frozen_rows, generation_exact}
use glassops.Metrics.Publication.{IsFoldable}

-- The sum and the number of the samples.
abbrev total : Fold
total = record {
  Sample = ℕ;
  State = ℕ × ℕ;
  Summary = ℕ × ℕ;
  agg_new = (0, 0);
  agg_add = λ acc x. some (acc.0 + x, acc.1 + 1);
  reload = λ acc. acc;
  agg_finalize = λ acc. some acc;
}

abbrev minute : BucketKey
minute = record { agent_id = "web-1"; resolution = "1m"; bucket_ts = 60_000_000 }

abbrev sample_row : ℕ → ℕ → ℕ → RawRow ℕ
sample_row id timestamp value = record {
  id = id;
  agent_id = "web-1";
  timestamp = timestamp;
  sample = value;
}

abbrev three_rows : Db total
three_rows = record {
  metrics =
      sample_row 3 60_000_000 30 ∷ sample_row 2 61_000_000 20 ∷ sample_row 1 62_000_000 10 ∷ [];
  last_id = 3;
  downsampled = [];
  coverage = [];
  bucket = [];
  partials = [];
  progress = [];
  cutover = some 0;
}

abbrev two_calls : List (Event ℕ)
two_calls = advanced 2 ∷ stored "web-1" 63_000_000 99 ∷ []

due : Unit {0}
unfolding outstanding provable has of_generation in_bucket is_none_or_open is_open max_id order_by
    order_insert by_time after unpublished published_gen_of covered_at string_eq bucket_key_eq
    coverage_key_eq nat_eq lookup
due = tt

three_rows-IsFoldable : IsFoldable total (frozen_rows total minute 60 0 three_rows)
unfolding due
three_rows-IsFoldable zero = ((0, 0), refl, refl)
three_rows-IsFoldable (suc zero) = ((30, 1), refl, refl)
three_rows-IsFoldable (suc (suc zero)) = ((50, 2), refl, refl)
three_rows-IsFoldable (suc (suc (suc zero))) = ((60, 3), refl, refl)
three_rows-IsFoldable (suc (suc (suc (suc n)))) = ((60, 3), refl, refl)

generation_exact_example :
    lookup minute
      (advance_bucket total minute 60 0 5
        (run total minute 60 0 two_calls three_rows)).1.downsampled
    ≡ some (60, 3)
unfolding due
generation_exact_example =
    (generation_exact total minute 60 0 three_rows two_calls 5 (60, 3) (60, 3) three_rows-IsFoldable
      (
        ((omega arith, (omega arith, tt)), ((omega arith, tt), (tt, tt))),
        (omega arith, (omega arith, (omega arith, tt))),
      )
      refl refl refl refl (omega arith) (omega arith) refl refl).1.2

abbrev five_minutes : BucketKey
five_minutes = record { agent_id = "web-1"; resolution = "5m"; bucket_ts = 0 }

abbrev folded_at : ℕ → Coverage
folded_at bucket_ts = record { agent_id = "web-1"; bucket_ts = bucket_ts; state = folded }

-- The first of two rows is published at both resolutions, the second at none.
abbrev published_row : Db total
published_row = record {
  metrics = sample_row 2 61_000_000 20 ∷ sample_row 1 62_000_000 10 ∷ [];
  last_id = 2;
  downsampled = (minute, (10, 1)) ∷ (five_minutes, (10, 1)) ∷ [];
  coverage =
      (record { raw_id = 1; resolution = "1m" }, folded_at 60_000_000)
      ∷ (record { raw_id = 1; resolution = "5m" }, folded_at 0)
      ∷ [];
  bucket =
      (minute, record { state = open_bucket; published_gen = 1 })
      ∷ (five_minutes, record { state = open_bucket; published_gen = 1 })
      ∷ [];
  partials = [];
  progress = [];
  cutover = some 0;
}

-- Two hours later.
abbrev later : ℕ
later = 7_200_000_000

reclaimed : Unit {0}
unfolding cleanup_old_metrics raw_cutoff ds_cutoff deletable covered published_behind bucket_named
    doomed ids_of in_chunk delete_chunk delete_chunks delete_past delete_raw seal_lookup seal_bucket
    seal_all seal_if_open prune_coverage prune_summaries prune_buckets prunable_summary
    prunable_bucket names_bucket folded_into erase_all not_open has is_folded is_open order_by
    order_insert by_id covered_at string_eq bucket_key_eq coverage_key_eq nat_eq lookup Dict.insert
    Dict.erase
reclaimed = tt

cleanup_retains_example : (cleanup_old_metrics later 1 2000 published_row).0 ≡ 1
unfolding reclaimed
cleanup_retains_example =
    (cleanup_retains later 1 2000 0 published_row ((omega arith, tt), (tt, tt)) refl).2

cleanup_seals_example :
    not_open (lookup minute (cleanup_old_metrics later 1 2000 published_row).1.bucket) ≡ true
unfolding reclaimed
cleanup_seals_example =
    cleanup_seals later 1 2000 (record { raw_id = 1; resolution = "1m" }) (folded_at 60_000_000)
      published_row refl refl refl

abbrev sealed_minute : Db total
sealed_minute = record three_rows {
  downsampled = (minute, (10, 1)) ∷ [];
  bucket = (minute, record { state = sealed; published_gen = 1 }) ∷ [];
}

run-Sealed_example :
    (run total minute 60 0 two_calls sealed_minute).downsampled ≡ (minute, (10, 1)) ∷ []
unfolding due is_open
run-Sealed_example =
    (run-Sealed total minute 60 0 two_calls (record { state = sealed; published_gen = 1 })
      sealed_minute refl (refl, refl)).0

-- Two closed minutes with a row each, and a row of the minute that is open.
abbrev backlog : Db total
backlog = record {
  metrics =
      sample_row 1 1_000_000 10 ∷ sample_row 2 61_000_000 20 ∷ sample_row 3 121_000_000 30 ∷ [];
  last_id = 3;
  downsampled = [];
  coverage = [];
  bucket = [];
  partials = [];
  progress = [];
  cutover = some 0;
}

abbrev unordered : String → String → Bool
unordered a b = false

scanned : Unit {0}
unfolding advance_bucket start_step fold_step settle_step fold_rows fold_row publish outstanding
    provable has of_generation in_bucket is_none_or_open is_open max_id order_by order_insert
    by_time by_id after unpublished published_gen_of covered_at string_eq bucket_key_eq
    coverage_key_eq progress_key_eq nat_eq lookup Dict.insert Dict.erase downsample_from
    advance_each in_flight candidates is_candidate is_decided scan_floor progress_key buckets_of
    bucket_of agents_of of_agent unsettled held advanced_to least greatest listed raised
    raise_progress settle_agent settle_agents ids_of count_of added by_bucket
scanned = tt

downsample-Settled_example :
    (downsample_from total unordered 60 "1m" 0 120_000_000 5 backlog).1.metrics ≡ backlog.metrics
unfolding scanned
downsample-Settled_example =
    (downsample-Settled total unordered 60 "1m" 0 120_000_000 5 backlog (refl, (refl, (refl, tt)))
      (omega arith)).0

-- A call whose batch limit cuts the candidates off moves the floor past a row that it has not
-- decided, up to the row that is not due.
limited_scan_skips_a_row :
    let t = (downsample_from total unordered 60 "1m" 0 120_000_000 1 backlog).1 in
    (lookup (record { agent_id = "web-1"; resolution = "1m" }) t.progress ≡ some 2)
    × (has (record { raw_id = 2; resolution = "1m" }) t.coverage ≡ false)
unfolding scanned
limited_scan_skips_a_row = (refl, refl)

-- A sample of 20 raises.
abbrev strict : Fold
strict = record total { agg_add = λ acc x. if x == 20 then none else some (acc.0 + x, acc.1 + 1) }

-- One sample that raises takes back what the call did for the other buckets too.
sample_raises : downsample_metrics strict unordered 60 "1m" 180_000_000 5 backlog ≡ none
unfolding scanned downsample_metrics is_supported due_cutoff_at
sample_raises = refl

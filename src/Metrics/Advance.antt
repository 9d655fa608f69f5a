-- ===== src/Metrics/Advance.antt =====
-- `_advance_bucket` and `_mark_pending`: one bounded step of one bucket's aggregation.
use glassops.Prelude.{
  ℕ, ◌+◌, ◌*◌, String, Bool, true, false, not, ◌&&◌, ◌||◌, Option, none, some, List, [], ◌∷◌, ltb,
  leb, if◌then◌else◌, ◌==◌, any, keep, take, length, max, nat_eq, string_eq,
}
use glassops.Prelude.Dict
use glassops.Prelude.Dict.{Dict}
use glassops.Metrics.Tables.{
  Fold, RawRow, BucketKey, folded, pending, Coverage, open_bucket, Bucket, Cursor, Tables, has,
  by_id, by_time, after, in_bucket, max_id, covered_at, second, is_folded, is_open, bucket_key_eq,
  coverage_key_eq,
}
use glassops.Prelude.Sorting.{order_by}

module _ (F : Fold) where
  open F use {Sample, State, Summary, agg_new, agg_add, agg_finalize, reload}

  abbrev pub Db : Type 0
  Db = Tables Sample State Summary

  abbrev pub Row : Type 0
  Row = RawRow Sample

  -- `c.raw_id IS NULL`
  unfoldable pub undecided : String → Db → Row → Bool
  undecided resolution t r = not (has (covered_at resolution r) t.coverage)

  -- `INSERT … ON CONFLICT DO NOTHING` of a PENDING row.
  unfoldable pub mark_row : BucketKey → Row → Db → Db
  mark_row k r t = if has (covered_at k.resolution r) t.coverage then t else record t {
    coverage =
        Dict.insert (covered_at k.resolution r)
          (record { agent_id = k.agent_id; bucket_ts = k.bucket_ts; state = pending }) t.coverage;
  }

  unfoldable pub mark_rows : BucketKey → List Row → Db → Db
  mark_rows k [] t = t
  mark_rows k (r ∷ rs) t = mark_rows k rs (mark_row k r t)

  unfoldable pub mark_pending : BucketKey → ℕ → ℕ → ℕ → Db → ℕ × Db
  mark_pending k hi cutover budget t =
      let rows = take budget (
        order_by by_id (
          keep (λ (r : Row). in_bucket k hi r && ltb cutover r.id && undecided k.resolution t r)
            t.metrics)) in
      (length rows, mark_rows k rows t)

  unfoldable pub published_gen_of : Option Bucket → ℕ
  published_gen_of none = 0
  published_gen_of (some b) = b.published_gen

  -- Folded, but behind no published generation.
  unfoldable pub unpublished : ℕ → Option Coverage → Row → Bool
  unpublished published_gen none r = true
  unpublished published_gen (some c) r = is_folded c.state && ltb published_gen r.id

  -- Whether a bucket with no accumulation in flight has anything to do.
  unfoldable pub outstanding : BucketKey → ℕ → ℕ → Db → Bool
  outstanding k hi cutover t =
      any
        (λ (r : Row).
          in_bucket k hi r
          && ltb cutover r.id
          && unpublished (published_gen_of (Dict.lookup k t.bucket))
              (Dict.lookup (covered_at k.resolution r) t.coverage) r)
        t.metrics

  unfoldable pub is_none_or_open : Option Bucket → Bool
  is_none_or_open none = true
  is_none_or_open (some b) = is_open b.state

  -- A generation may start: no row from before the cutover, no sealed bucket, and no summary
  -- without the provenance that produced it.
  unfoldable pub provable : BucketKey → ℕ → ℕ → Db → Bool
  provable k hi cutover t =
      not (any (λ (r : Row). in_bucket k hi r && leb r.id cutover) t.metrics)
      && is_none_or_open (Dict.lookup k t.bucket)
      && (has k t.bucket || not (has k t.downsampled))

  -- The rows of the generation that is frozen at `through`.
  unfoldable pub of_generation : BucketKey → ℕ → ℕ → ℕ → Row → Bool
  of_generation k hi cutover through r = in_bucket k hi r && ltb cutover r.id && leb r.id through

  unfoldable pub fold_row : BucketKey → Row → Db → Db
  fold_row k r t = record t {
    coverage =
        Dict.insert (covered_at k.resolution r)
          (record { agent_id = k.agent_id; bucket_ts = k.bucket_ts; state = folded }) t.coverage;
  }

  -- The loop over the fetched rows: accumulator, cursor and coverage. `none` is what a sample raises.
  unfoldable pub fold_rows :
      BucketKey → List Row → State → Cursor → Db → Option (State × Cursor × Db)
  fold_rows k [] acc cursor t = some (acc, cursor, t)
  fold_rows k (r ∷ rs) acc cursor t = elim (agg_add acc r.sample) [
    | none ↦ none
    | some acc' ↦ fold_rows k rs acc' (some (r.timestamp, r.id)) (fold_row k r t)
  ]

  -- The publication: the summary, and the bucket row that proves what it covers.
  unfoldable pub publish : BucketKey → ℕ → Option Summary → Db → Bool × Db
  publish k through none t = (false, t)
  publish k through (some avg) t = (
    true,
    record t {
      downsampled = Dict.insert k avg t.downsampled;
      bucket =
          Dict.insert k
            (record {
              state = open_bucket;
              published_gen = max (published_gen_of (Dict.lookup k t.bucket)) through;
            })
            t.bucket;
    },
  )

  -- From the loop on. The transaction of a call that raises is undone.
  unfoldable pub settle_step :
      BucketKey → ℕ → ℕ → ℕ → ℕ → Db → Option (State × Cursor × Db) → (ℕ × Option Bool) × Db
  settle_step k hi cutover through used t none = ((used, none), t)
  settle_step k hi cutover through used t (some (acc, cursor, t')) =
      if any (λ (r : Row). of_generation k hi cutover through r && after cursor r) t'.metrics
      then (
        (used, some false),
        record t' {
          partials =
              Dict.insert k (record { cursor = cursor; through_raw_id = through; acc = acc })
                t'.partials;
        },
      )
      else (let (published, t'') =
            publish k through (agg_finalize acc)
              (record t' { partials = Dict.erase k t'.partials }) in
          ((used, some published), t''))

  -- From the fetch of the rows on, for a generation at a cursor.
  unfoldable pub fold_step :
      BucketKey → ℕ → ℕ → ℕ → ℕ → State → Cursor → Db → (ℕ × Option Bool) × Db
  fold_step k hi cutover budget through acc cursor t =
      let rows = take budget (
        order_by by_time
          (keep (λ (r : Row). of_generation k hi cutover through r && after cursor r) t.metrics)) in
      settle_step k hi cutover through (length rows) t (fold_rows k rows acc cursor t)

  -- No accumulation is in flight.
  unfoldable pub start_step : BucketKey → ℕ → ℕ → ℕ → Db → (ℕ × Option Bool) × Db
  start_step k hi cutover budget t =
      if not (outstanding k hi cutover t)
      then ((0, some false), t)
      else if not (provable k hi cutover t)
      then (let (marked, t') = mark_pending k hi cutover budget t in ((marked, some false), t'))
      else let through =
          max_id (keep (λ (r : Row). in_bucket k hi r && ltb cutover r.id) t.metrics) in
        if through == 0
        then ((0, some false), t)
        else fold_step k hi cutover budget through agg_new none t

  -- `_advance_bucket`: the rows used up of the budget, whether a summary was published, `none` where
  -- a sample raises, and the tables after it.
  unfoldable pub advance_bucket : BucketKey → ℕ → ℕ → ℕ → Db → (ℕ × Option Bool) × Db
  advance_bucket k resolution_seconds cutover budget t =
      let hi = k.bucket_ts + resolution_seconds * second in
      elim (Dict.lookup k t.partials) [
        | none ↦ start_step k hi cutover budget t
        | some p ↦ fold_step k hi cutover budget p.through_raw_id (reload p.acc) p.cursor t
      ]

-- ===== src/Metrics/Cleanup.antt =====
-- `cleanup_old_metrics`: which raw rows, summaries and bucket rows go.
use glassops.Prelude.{
  ℕ, zero, suc, ◌+◌, ◌*◌, ◌-◌, String, Bool, false, not, ◌&&◌, Option, none, some, List, [], ◌∷◌,
  ltb, leb, if◌then◌else◌, ◌==◌, contains, any, keep, take, drop, length, max, nat_eq, string_eq,
}
use glassops.Prelude.Dict
use glassops.Prelude.Dict.{Dict, keys}
use glassops.Metrics.Tables.{
  RawRow, BucketKey, CoverageKey, Coverage, sealed, Bucket, Tables, has, by_id, covered_at, second,
  is_folded, is_open, bucket_key_eq, coverage_key_eq,
}
use glassops.Prelude.Sorting.{order_by}

-- `now - max_age_hours * 3600`. Times are not negative, so a cutoff below 0 and a cutoff at 0
-- select the same rows.
unfoldable pub raw_cutoff : ℕ → ℕ → ℕ
raw_cutoff now max_age_hours = now - max_age_hours * 3600 * second

-- `now - 7 * 86400`
unfoldable pub ds_cutoff : ℕ → ℕ
ds_cutoff now = now - 7 * 86_400 * second

unfoldable pub bucket_named : CoverageKey → Coverage → BucketKey
bucket_named ck c = record {
  agent_id = c.agent_id;
  resolution = ck.resolution;
  bucket_ts = c.bucket_ts;
}

-- `_SEAL_LOOKUP_SQL`
unfoldable pub seal_lookup : List ℕ → Dict CoverageKey Coverage → List BucketKey
seal_lookup chunk [] = []
seal_lookup chunk ((ck, c) ∷ d) =
    let rest = seal_lookup chunk d in
    if contains chunk ck.raw_id && not (contains rest (bucket_named ck c))
    then bucket_named ck c ∷ rest
    else rest

unfoldable pub seal_if_open : Bucket → Bucket
seal_if_open b = if is_open b.state then record b { state = sealed } else b

-- `_SEAL_BUCKET_SQL`
unfoldable pub seal_bucket : BucketKey → Dict BucketKey Bucket → Dict BucketKey Bucket
seal_bucket k d = elim (Dict.lookup k d) [ none ↦ d | some b ↦ Dict.insert k (seal_if_open b) d ]

unfoldable pub seal_all : List BucketKey → Dict BucketKey Bucket → Dict BucketKey Bucket
seal_all [] d = d
seal_all (k ∷ ks) d = seal_all ks (seal_bucket k d)

-- `_PRUNE_COVERAGE_SQL`
unfoldable pub prune_coverage : List ℕ → Dict CoverageKey Coverage → Dict CoverageKey Coverage
prune_coverage chunk [] = []
prune_coverage chunk ((ck, c) ∷ d) =
    let rest = prune_coverage chunk d in if contains chunk ck.raw_id then rest else (ck, c) ∷ rest

-- Whether a coverage row names the bucket, and the same of a folded one.
unfoldable pub names_bucket : BucketKey → CoverageKey × Coverage → Bool
names_bucket k (ck, c) = bucket_named ck c == k

unfoldable pub folded_into : BucketKey → CoverageKey × Coverage → Bool
folded_into k (ck, c) = bucket_named ck c == k && is_folded c.state

unfoldable pub erase_all : {V : Type 0} → List BucketKey → Dict BucketKey V → Dict BucketKey V
erase_all [] d = d
erase_all (k ∷ ks) d = erase_all ks (Dict.erase k d)

module _ {D : Type 0} where
  unfoldable pub ids_of : List (RawRow D) → List ℕ
  ids_of [] = []
  ids_of (r ∷ rs) = r.id ∷ ids_of rs

  unfoldable pub in_chunk : List ℕ → RawRow D → Bool
  in_chunk chunk r = contains chunk r.id

module _ {D A S : Type 0} where
  -- The joins of `_covered_clause` with the bucket, its summary and its partial row.
  unfoldable pub published_behind : Tables D A S → BucketKey → RawRow D → Bool
  published_behind t k r = elim (Dict.lookup k t.bucket) [
    | none ↦ false
    | some b ↦ has k t.downsampled && leb r.id b.published_gen && not (has k t.partials)
  ]

  -- `_covered_clause`
  unfoldable pub covered : Tables D A S → String → RawRow D → Bool
  covered t resolution r = elim (Dict.lookup (covered_at resolution r) t.coverage) [
    | none ↦ false
    | some c ↦
        is_folded c.state
        && c.agent_id == r.agent_id
        && published_behind t (bucket_named (covered_at resolution r) c) r
  ]

  -- The condition of `_DELETABLE_RAW_SQL`.
  unfoldable pub deletable : ℕ → ℕ → Tables D A S → RawRow D → Bool
  deletable cutoff cutover t r =
      ltb r.timestamp cutoff && ltb cutover r.id && covered t "1m" r && covered t "5m" r

  -- `_DELETABLE_RAW_SQL`
  unfoldable pub doomed : ℕ → ℕ → ℕ → Tables D A S → List ℕ
  doomed cutoff cutover limit t =
      ids_of (take limit (order_by by_id (keep (deletable cutoff cutover t) t.metrics)))

  -- The body of the loop over chunks, with the row count of its delete.
  unfoldable pub delete_chunk : List ℕ → Tables D A S → ℕ × Tables D A S
  delete_chunk chunk t = (
    length (keep (in_chunk chunk) t.metrics),
    record t {
      bucket = seal_all (seal_lookup chunk t.coverage) t.bucket;
      coverage = prune_coverage chunk t.coverage;
      metrics = keep (λ (r : RawRow D). not (in_chunk chunk r)) t.metrics;
    },
  )

  -- `for start in range(0, len(doomed), 400)`, on fuel: every round takes one id or more.
  unfoldable pub delete_chunks : ℕ → List ℕ → Tables D A S → ℕ × Tables D A S
  delete_chunks zero ids t = (0, t)
  delete_chunks (suc fuel) [] t = (0, t)
  delete_chunks (suc fuel) (i ∷ ids) t =
      let (rowcount, t') = delete_chunk (take 400 (i ∷ ids)) t in
      let (rest, t'') = delete_chunks fuel (drop 400 (i ∷ ids)) t' in (rowcount + rest, t'')

  -- The condition of `_PRUNE_SUMMARY_SQL`.
  unfoldable pub prunable_summary : ℕ → Tables D A S → BucketKey → Bool
  prunable_summary cutoff t k =
      ltb k.bucket_ts cutoff && not (any (folded_into k) t.coverage) && not (has k t.partials)

  -- The condition of `_PRUNE_BUCKET_SQL`.
  unfoldable pub prunable_bucket : ℕ → Tables D A S → BucketKey → Bool
  prunable_bucket cutoff t k =
      ltb k.bucket_ts cutoff
      && not (has k t.downsampled)
      && not (any (names_bucket k) t.coverage)
      && not (has k t.partials)

  -- Of the rows that qualify, the first `limit` in the order of the table.
  unfoldable pub prune_summaries : ℕ → ℕ → Tables D A S → Tables D A S
  prune_summaries cutoff limit t = record t {
    downsampled =
        erase_all (take limit (keep (prunable_summary cutoff t) (keys t.downsampled)))
          t.downsampled;
  }

  unfoldable pub prune_buckets : ℕ → ℕ → Tables D A S → Tables D A S
  prune_buckets cutoff limit t = record t {
    bucket = erase_all (take limit (keep (prunable_bucket cutoff t) (keys t.bucket))) t.bucket;
  }

  -- Without a cutover marker nothing is deletable.
  unfoldable pub delete_past : ℕ → ℕ → Tables D A S → Option ℕ → ℕ × Tables D A S
  delete_past cutoff limit t none = (0, t)
  delete_past cutoff limit t (some cutover) =
      let ids = doomed cutoff cutover limit t in delete_chunks (length ids) ids t

  unfoldable pub delete_raw : ℕ → ℕ → Tables D A S → ℕ × Tables D A S
  delete_raw cutoff limit t = delete_past cutoff limit t t.cutover

  -- `cleanup_old_metrics`: how many raw rows went, and the tables after it.
  unfoldable pub cleanup_old_metrics : ℕ → ℕ → ℕ → Tables D A S → ℕ × Tables D A S
  cleanup_old_metrics now max_age_hours batch_limit t =
      let limit = max 1 batch_limit in
      let (raw_deleted, t') = delete_raw (raw_cutoff now max_age_hours) limit t in
      (raw_deleted, prune_buckets (ds_cutoff now) limit (prune_summaries (ds_cutoff now) limit t'))

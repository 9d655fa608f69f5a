-- ===== src/Metrics/Sealing.antt =====
-- The buckets that lose a raw row in `cleanup_old_metrics`.
use glassops.Prelude.{
  ℕ, zero, suc, ◌≤◌, ◌≡◌, refl, ◌∙◌, Bool, true, false, not, Option, none, some, List, [], ◌∷◌,
  ◌++◌, arith, ◌==◌, contains, any, take, drop, length, length-drop, take-append-drop, max, inl,
  inr, Bool-cases, ap, nat_eq,
}
use glassops.Prelude.Dict
use glassops.Prelude.Dict.{Dict, lookup, lookup-insert, lookup-erase}
use glassops.Metrics.Tables.{
  RawRow, BucketKey, CoverageKey, Coverage, Bucket, Tables, is_open, bucket_key_eq, coverage_key_eq,
}
use glassops.Metrics.Cleanup.{
  bucket_named, seal_lookup, seal_if_open, seal_bucket, seal_all, prune_coverage, erase_all,
  in_chunk, doomed, delete_chunk, delete_chunks, delete_past, delete_raw, raw_cutoff,
  prune_summaries, prune_buckets, cleanup_old_metrics,
}
use glassops.Metrics.Retention.{contains-append, spared, chunks_leave}

unfoldable pub not_open : Option Bucket → Bool
not_open none = true
not_open (some b) = not (is_open b.state)

not_open-seal_if_open : (b : Bucket) → not_open (some (seal_if_open b)) ≡ true
unfolding not_open seal_if_open is_open
not_open-seal_if_open b = ground arith

seal_bucket_here :
    (k : BucketKey) (d : Dict BucketKey Bucket) → not_open (lookup k (seal_bucket k d)) ≡ true
unfolding seal_bucket not_open
seal_bucket_here k d = by_row (lookup k d) refl
  where
    by_row :
        (o : Option Bucket)
        → lookup k d ≡ o
        → not_open (lookup k (elim o [ none ↦ d | some b ↦ Dict.insert k (seal_if_open b) d ]))
          ≡ true
    by_row none e = ground (arith, e)
    by_row (some b) e =
        ground (arith, lookup-insert k k (seal_if_open b) d, not_open-seal_if_open b)

seal_bucket-keeps :
    (j k : BucketKey) (d : Dict BucketKey Bucket)
    → not_open (lookup k d) ≡ true
    → not_open (lookup k (seal_bucket j d)) ≡ true
unfolding seal_bucket
seal_bucket-keeps j k d h = by_row (lookup j d)
  where
    by_row :
        (o : Option Bucket)
        → not_open (lookup k (elim o [ none ↦ d | some b ↦ Dict.insert j (seal_if_open b) d ]))
          ≡ true
    by_row none = h
    by_row (some b) =
        ground (arith, lookup-insert k j (seal_if_open b) d, not_open-seal_if_open b, h)

seal_all-keeps :
    (ks : List BucketKey) (k : BucketKey) (d : Dict BucketKey Bucket)
    → not_open (lookup k d) ≡ true
    → not_open (lookup k (seal_all ks d)) ≡ true
unfolding seal_all
seal_all-keeps [] k d h = h
seal_all-keeps (j ∷ ks) k d h = seal_all-keeps ks k (seal_bucket j d) (seal_bucket-keeps j k d h)

seal_all-seals :
    (ks : List BucketKey) (k : BucketKey) (d : Dict BucketKey Bucket)
    → contains ks k ≡ true
    → not_open (lookup k (seal_all ks d)) ≡ true
unfolding seal_all
seal_all-seals [] k d h = ground arith
seal_all-seals (j ∷ ks) k d h = ground (
  arith,
  seal_all-keeps ks k (seal_bucket j d),
  seal_bucket_here k d,
  seal_all-seals ks k (seal_bucket j d),
)

seal_lookup-contains :
    (chunk : List ℕ) (ck : CoverageKey) (c : Coverage) (d : Dict CoverageKey Coverage)
    → lookup ck d ≡ some c
    → contains chunk ck.raw_id ≡ true
    → contains (seal_lookup chunk d) (bucket_named ck c) ≡ true
unfolding seal_lookup lookup
seal_lookup-contains chunk ck c [] e h = ground arith
seal_lookup-contains chunk ck c ((cj, cv) ∷ d) e h =
    ground (arith, seal_lookup-contains chunk ck c d)

prune_coverage-keeps :
    (chunk : List ℕ) (ck : CoverageKey) (d : Dict CoverageKey Coverage)
    → contains chunk ck.raw_id ≡ false
    → lookup ck (prune_coverage chunk d) ≡ lookup ck d
unfolding prune_coverage lookup
prune_coverage-keeps chunk ck [] h = refl
prune_coverage-keeps chunk ck ((cj, cv) ∷ d) h = ground (arith, prune_coverage-keeps chunk ck d h)

erase_all-not_open :
    (ks : List BucketKey) (k : BucketKey) (d : Dict BucketKey Bucket)
    → not_open (lookup k d) ≡ true
    → not_open (lookup k (erase_all ks d)) ≡ true
unfolding erase_all not_open
erase_all-not_open [] k d h = h
erase_all-not_open (j ∷ ks) k d h =
    erase_all-not_open ks k (Dict.erase j d) (ground (arith, lookup-erase k j d))

module _ {D : Type 0} where
  row_kept :
      (ids : List ℕ) (i : ℕ) (xs : List (RawRow D))
      → contains ids i ≡ false
      → any (λ (r : RawRow D). r.id == i) (spared ids xs) ≡ any (λ (r : RawRow D). r.id == i) xs
  unfolding in_chunk
  row_kept ids i [] h = refl
  row_kept ids i (x ∷ xs) h = ground (arith, row_kept ids i xs h)

module _ {D A S : Type 0} where
  delete_chunks-keeps :
      (fuel : ℕ) (ids : List ℕ) (k : BucketKey) (t : Tables D A S)
      → not_open (lookup k t.bucket) ≡ true
      → not_open (lookup k (delete_chunks fuel ids t).1.bucket) ≡ true
  unfolding delete_chunks delete_chunk
  delete_chunks-keeps zero ids k t h = h
  delete_chunks-keeps (suc fuel) [] k t h = h
  delete_chunks-keeps (suc fuel) (i ∷ ids) k t h =
      let chunk = take 400 (i ∷ ids) in
      delete_chunks-keeps fuel (drop 400 (i ∷ ids)) k (delete_chunk chunk t).1
        (seal_all-keeps (seal_lookup chunk t.coverage) k t.bucket h)

  delete_chunks-seals :
      (fuel : ℕ) (ids : List ℕ) (ck : CoverageKey) (c : Coverage) (t : Tables D A S)
      → length ids ≤ fuel
      → lookup ck t.coverage ≡ some c
      → contains ids ck.raw_id ≡ true
      → not_open (lookup (bucket_named ck c) (delete_chunks fuel ids t).1.bucket) ≡ true
  unfolding delete_chunks delete_chunk
  delete_chunks-seals zero [] ck c t few e h = ground arith
  delete_chunks-seals zero (i ∷ ids) ck c t few e h = absurd (omega arith)
  delete_chunks-seals (suc fuel) [] ck c t few e h = ground arith
  delete_chunks-seals (suc fuel) (i ∷ ids) ck c t few e h =
      let chunk = take 400 (i ∷ ids) in
      let later = drop 400 (i ∷ ids) in
      let t' = (delete_chunk chunk t).1 in
      elim (Bool-cases (contains chunk ck.raw_id)) [
        | inl here ↦ delete_chunks-keeps fuel later (bucket_named ck c) t' (
            seal_all-seals (seal_lookup chunk t.coverage) (bucket_named ck c) t.bucket
              (seal_lookup-contains chunk ck c t.coverage e here))
        | inr there ↦
            delete_chunks-seals fuel later ck c t' (rw (length-drop 400 (i ∷ ids)) (omega arith))
              (prune_coverage-keeps chunk ck t.coverage there ∙ e)
              (in_rest chunk later
                (ap (λ xs. contains xs ck.raw_id) (take-append-drop 400 (i ∷ ids)) ∙ h) there)
      ]
    where
      in_rest :
          (xs ys : List ℕ)
          → contains (xs ++ ys) ck.raw_id ≡ true
          → contains xs ck.raw_id ≡ false
          → contains ys ck.raw_id ≡ true
      in_rest xs ys p q = ground (arith, contains-append xs ys ck.raw_id)

  delete_raw-seals :
      (cutoff limit : ℕ) (ck : CoverageKey) (c : Coverage) (t : Tables D A S)
      → lookup ck t.coverage ≡ some c
      → any (λ (r : RawRow D). r.id == ck.raw_id) t.metrics ≡ true
      → any (λ (r : RawRow D). r.id == ck.raw_id) (delete_raw cutoff limit t).1.metrics ≡ false
      → not_open (lookup (bucket_named ck c) (delete_raw cutoff limit t).1.bucket) ≡ true
  unfolding delete_raw delete_past
  delete_raw-seals cutoff limit ck c t e was gone = by_marker t.cutover gone
    where
      by_marker :
          (o : Option ℕ)
          → any (λ (r : RawRow D). r.id == ck.raw_id) (delete_past cutoff limit t o).1.metrics
            ≡ false
          → not_open (lookup (bucket_named ck c) (delete_past cutoff limit t o).1.bucket) ≡ true
      by_marker none g = ground (arith, was, g)
      by_marker (some cutover) g =
          let ids = doomed cutoff cutover limit t in
          let left = rw (chunks_leave (length ids) ids t (omega arith)) at g in
          let hit : contains ids ck.raw_id ≡ true =
            ground (arith, left, was, row_kept ids ck.raw_id t.metrics) in
          delete_chunks-seals (length ids) ids ck c t (omega arith) e hit

  -- A bucket that the coverage of a raw row names, where a cleanup takes this row away, is
  -- sealed after the cleanup or has no row any more: no bucket stays open that has lost a row.
  pub cleanup_seals :
      (now max_age_hours batch_limit : ℕ) (ck : CoverageKey) (c : Coverage) (t : Tables D A S)
      → lookup ck t.coverage ≡ some c
      → any (λ (r : RawRow D). r.id == ck.raw_id) t.metrics ≡ true
      → any
          (λ (r : RawRow D). r.id == ck.raw_id)
          (cleanup_old_metrics now max_age_hours batch_limit t).1.metrics
        ≡ false
      → not_open (
          lookup (bucket_named ck c) (cleanup_old_metrics now max_age_hours batch_limit t).1.bucket)
        ≡ true
  unfolding cleanup_old_metrics prune_summaries prune_buckets
  cleanup_seals now max_age_hours batch_limit ck c t e was gone =
      erase_all-not_open _ (bucket_named ck c)
        (delete_raw (raw_cutoff now max_age_hours) (max 1 batch_limit) t).1.bucket
        (delete_raw-seals (raw_cutoff now max_age_hours) (max 1 batch_limit) ck c t e was gone)

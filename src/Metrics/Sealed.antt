-- ===== src/Metrics/Sealed.antt =====
-- What the aggregation does to a bucket that is sealed.
use glassops.Prelude.{
  ℕ, ◌≡◌, refl, ◌∙◌, Bool, true, false, none, some, List, [], ◌∷◌, arith, if◌then◌else◌, nat_eq,
  inl, inr, Bool-cases, ap,
}
use glassops.Prelude.Dict
use glassops.Prelude.Dict.{Dict, lookup}
use glassops.Metrics.Tables.{
  Fold, BucketKey, Bucket, is_open, store_metric, has, covered_at, pending, bucket_key_eq,
  coverage_key_eq,
}
use glassops.Metrics.Advance.{
  Db, Row, is_none_or_open, outstanding, provable, start_step, mark_row, mark_rows, mark_pending,
  advance_bucket,
}
use glassops.Metrics.Generation.{SameBut}
use glassops.Metrics.Exact.{Event, advanced, stored, run}

module _ (F : Fold) (k : BucketKey) (resolution_seconds cutover : ℕ) where
  mark_row-SameBut : (r : Row F) (t : Db F) → SameBut F t (mark_row F k r t)
  unfolding mark_row
  mark_row-SameBut r t = by_test (has (covered_at k.resolution r) t.coverage)
    where
      by_test :
          (marked : Bool)
          → SameBut F t (
              if marked then t else record t {
                coverage =
                    Dict.insert
                      (covered_at k.resolution r)
                      (record { agent_id = k.agent_id; bucket_ts = k.bucket_ts; state = pending })
                      t.coverage;
              })
      by_test true = (refl, refl, refl, refl, refl)
      by_test false = (refl, refl, refl, refl, refl)

  mark_rows-SameBut : (rs : List (Row F)) (t : Db F) → SameBut F t (mark_rows F k rs t)
  unfolding mark_rows
  mark_rows-SameBut [] t = (refl, refl, refl, refl, refl)
  mark_rows-SameBut (r ∷ rs) t =
      let one = mark_row-SameBut r t in
      let rest = mark_rows-SameBut rs (mark_row F k r t) in
      (rest.0 ∙ one.0, rest.1 ∙ one.1, rest.2 ∙ one.2, rest.3 ∙ one.3, rest.4 ∙ one.4)

  start_step-Sealed :
      (hi budget : ℕ) (t : Db F)
      → is_none_or_open F (lookup k t.bucket) ≡ false
      → SameBut F t (start_step F k hi cutover budget t).1
  unfolding provable start_step mark_pending nat_eq
  start_step-Sealed hi budget t closed = elim (Bool-cases (outstanding F k hi cutover t)) [
    | inl work ↦ rw (start_step, work, unprovable, mark_pending) (mark_rows-SameBut _ t)
    | inr idle ↦ rw (start_step, idle) (refl, refl, refl, refl, refl)
  ]
    where
      unprovable : provable F k hi cutover t ≡ false
      unprovable = rw (provable, closed) (ground arith)

  -- What a sealed bucket keeps.
  abbrev pub Sealed : Bucket → Db F → Type 0
  Sealed b t = (lookup k t.bucket ≡ some b) × (lookup k t.partials ≡ none)

  advance_bucket-Sealed :
      (b : Bucket) (budget : ℕ) (t : Db F)
      → is_open b.state ≡ false
      → Sealed b t
      → SameBut F t (advance_bucket F k resolution_seconds cutover budget t).1
  unfolding advance_bucket is_none_or_open
  advance_bucket-Sealed b budget t closed s =
      rw (advance_bucket, s.1)
        (start_step-Sealed _ budget t (rw (s.0, is_none_or_open, closed) refl))

  -- A bucket that is sealed and has no partial row reads the same for ever: through any sequence
  -- of calls of `_advance_bucket` for it, with any budgets, and of samples that arrive, no
  -- summary and no bucket row changes, and the bucket gets no partial row.
  pub run-Sealed :
      (es : List (Event F.Sample)) (b : Bucket) (t : Db F)
      → is_open b.state ≡ false
      → Sealed b t
      → let t' = run F k resolution_seconds cutover es t in
        (t'.downsampled ≡ t.downsampled) × (t'.bucket ≡ t.bucket) × Sealed b t'
  unfolding store_metric
  run-Sealed [] b t closed s = (refl, refl, s)
  run-Sealed (advanced budget ∷ es) b t closed s =
      let same = advance_bucket-Sealed b budget t closed s in
      let still : Sealed b (advance_bucket F k resolution_seconds cutover budget t).1 =
        (ap (lookup k) same.3 ∙ s.0, ap (lookup k) same.4 ∙ s.1) in
      let rest =
        run-Sealed es b (advance_bucket F k resolution_seconds cutover budget t).1 closed still in
      (rest.0 ∙ same.2, rest.1 ∙ same.3, rest.2)
  run-Sealed (stored agent_id timestamp sample ∷ es) b t closed s =
      run-Sealed es b (store_metric agent_id timestamp sample t).1 closed s

-- ===== src/Metrics/Publication.antt =====
-- Calls of `_advance_bucket` for a generation: the first one, one in the middle, the last one.
use glassops.Prelude.{
  ℕ, zero, suc, ◌+◌, ◌-◌, ◌*◌, ◌≤◌, ◌<◌, ◌≡◌, ◌≢◌, refl, sym, ap, ◌∙◌, String, true, false, ◌&&◌,
  none, some, List, [], ◌∷◌, ◌++◌, arith, ltb, ◌==◌, keep, any, take, drop, length, length-drop,
  length-take, take-append-drop, All, max, nat_eq,
}
use glassops.Prelude.Dict
use glassops.Prelude.Dict.{Dict, lookup, lookup-insert, lookup-erase}
use glassops.Metrics.Tables.{
  Fold, BucketKey, open_bucket, in_bucket, max_id, store_metric, second, covered_at, bucket_key_eq,
  coverage_key_eq,
}
use glassops.Prelude.Sorting.{order_by}
use glassops.Metrics.Advance.{
  Db, Row, of_generation, fold_step, publish, published_gen_of, outstanding, provable, start_step,
  advance_bucket, unpublished,
}
use glassops.Metrics.Order.{UniqueIds}
use glassops.Metrics.Cursor.{position_from}
use glassops.Metrics.Generation.{
  fold_samples, fold_samples-append, generation, mark_folded-SameBut, fold_result, fold_step_lem,
}

module _ {A : Type 0} where
  take_add : (n m : ℕ) (xs : List A) → take n xs ++ take m (drop n xs) ≡ take (n + m) xs
  take_add zero m xs = let e : zero + m ≡ m = omega arith in rw e
  take_add (suc n) zero [] = let e : suc n + 0 ≡ suc n = omega arith in rw e
  take_add (suc n) (suc m) [] = let e : suc n + suc m ≡ suc (n + suc m) = omega arith in rw e
  take_add (suc n) m (x ∷ xs) =
      let e : suc n + m ≡ suc (n + m) = omega arith in rw (e, take_add n m xs)

  pub take_all : (n : ℕ) (xs : List A) → length xs ≤ n → take n xs ≡ xs
  take_all zero [] h = refl
  take_all (suc n) [] h = refl
  take_all zero (x ∷ xs) h = absurd (omega arith)
  take_all (suc n) (x ∷ xs) h = rw (take_all n xs (omega arith))

module _ (F : Fold) where
  open F use {Sample, State, Summary, agg_new, agg_finalize, reload}

  -- Ids are given out once.
  abbrev pub IsKept : Db F → Type 0
  IsKept t = UniqueIds t.metrics × All (λ (r : Row F). r.id ≤ t.last_id) t.metrics

  -- No sample of the rows raises, and json gives each accumulator of their first rows back as it was.
  abbrev pub IsFoldable : List (Row F) → Type 0
  IsFoldable rows =
      (n : ℕ)
      → (acc : State) × (fold_samples F agg_new (take n rows) ≡ some acc) × (reload acc ≡ acc)

  step_folds :
      (rows : List (Row F)) (folds : IsFoldable rows) (n budget : ℕ)
      → fold_samples F (folds n).0 (take budget (drop n rows)) ≡ some (folds (n + budget)).0
  step_folds rows folds n budget =
      sym (
        fold_samples-append F agg_new (folds n).0 (take n rows) (take budget (drop n rows))
          (folds n).1)
      ∙ ap (fold_samples F agg_new) (take_add n budget rows)
      ∙ (folds (n + budget)).1

  module _ (k : BucketKey) (resolution_seconds cutover : ℕ) where
    abbrev pub hi : ℕ
    hi = k.bucket_ts + resolution_seconds * second

    abbrev pub rows_of : ℕ → Db F → List (Row F)
    rows_of through t = generation F k hi cutover through t

    -- What a generation that starts now is frozen at.
    abbrev pub frozen_at : Db F → ℕ
    frozen_at t = max_id (keep (λ (r : Row F). in_bucket k hi r && ltb cutover r.id) t.metrics)

    -- The first `n` rows of the generation are folded, and wait in the partial row.
    abbrev pub InFlight : ℕ → (rows : List (Row F)) → IsFoldable rows → ℕ → Db F → Type 0
    InFlight through rows folds n t =
        IsKept t
        × (through ≤ t.last_id)
        × (rows_of through t ≡ rows)
        × (lookup k t.partials
            ≡ some (record {
              cursor = position_from none (take n rows);
              through_raw_id = through;
              acc = (folds n).0;
            }))

    -- The same before the first call, when there is no partial row yet.
    abbrev pub Next : ℕ → (rows : List (Row F)) → IsFoldable rows → ℕ → Db F → Type 0
    Next through rows folds n t =
        IsKept t
        × (through ≤ t.last_id)
        × (rows_of through t ≡ rows)
        × ((budget : ℕ)
            → advance_bucket F k resolution_seconds cutover budget t
              ≡ fold_step F k hi cutover budget through (folds n).0
                  (position_from none (take n rows)) t)

    pub InFlight-Next :
        (through n : ℕ) (rows : List (Row F)) (folds : IsFoldable rows) (t : Db F)
        → InFlight through rows folds n t
        → Next through rows folds n t
    unfolding advance_bucket
    InFlight-Next through n rows folds t f =
        (f.0, f.1, f.2, λ budget. rw (advance_bucket, f.3, (folds n).2) refl)

    split : (n : ℕ) (rows : List (Row F)) → rows ≡ take n rows ++ drop n rows
    split n rows = sym (take-append-drop n rows)

    advance_lem :
        (through n budget : ℕ) (rows : List (Row F)) (folds : IsFoldable rows) (t : Db F)
        → Next through rows folds n t
        → advance_bucket F k resolution_seconds cutover budget t
          ≡ fold_result F k budget through (take n rows) (drop n rows) (folds (n + budget)).0 t
    advance_lem through n budget rows folds t f =
        f.3 budget
        ∙ fold_step_lem F k hi cutover budget through t f.0.0 (take n rows) (drop n rows)
            (folds n).0 (folds (n + budget)).0 (f.2 ∙ split n rows) (step_folds rows folds n budget)

    lookup_here :
        {V : Type 0} (v : V) (d : Dict BucketKey V) → lookup k (Dict.insert k v d) ≡ some v
    lookup_here v d = ground (arith, lookup-insert k k v d)

    lookup_gone : {V : Type 0} (d : Dict BucketKey V) → lookup k (Dict.erase k d) ≡ none
    lookup_gone d = ground (arith, lookup-erase k k d)

    -- A call whose budget does not reach the end.
    pub advance_more :
        (through n budget : ℕ) (rows : List (Row F)) (folds : IsFoldable rows) (t : Db F)
        → Next through rows folds n t
        → n + budget < length rows
        → let ((used, published), t') = advance_bucket F k resolution_seconds cutover budget t in
          (used ≡ budget)
          × (published ≡ some false)
          × (t'.downsampled ≡ t.downsampled)
          × (t'.bucket ≡ t.bucket)
          × InFlight through rows folds (n + budget) t'
    advance_more through n budget rows folds t f short =
        let part = take budget (drop n rows) in
        let same = mark_folded-SameBut F k part t in
        let more : ltb 0 (length (drop budget (drop n rows))) ≡ true =
          rw (length-drop budget (drop n rows), length-drop n rows) (ground arith) in
        let used : length part ≡ budget =
          rw (length-take budget (drop n rows), length-drop n rows) (ground arith) in
        rw (advance_lem through n budget rows folds t f, more, used, take_add n budget rows)
          (
            refl,
            refl,
            same.2,
            same.3,
            (rw (same.0, same.1) f.0, rw same.1 f.1, rw same.0 f.2, lookup_here _ _),
          )

    -- The call that reaches the end.
    pub advance_last :
        (through n budget : ℕ) (rows : List (Row F)) (folds : IsFoldable rows) (t : Db F)
        (avg : Summary)
        → Next through rows folds n t
        → n ≤ length rows
        → length rows ≤ n + budget
        → agg_finalize (folds (n + budget)).0 ≡ some avg
        → let ((used, published), t') = advance_bucket F k resolution_seconds cutover budget t in
          (used ≡ length rows - n)
          × (published ≡ some true)
          × (lookup k t'.downsampled ≡ some avg)
          × (lookup k t'.bucket
              ≡ some (record {
                state = open_bucket;
                published_gen = max (published_gen_of F (lookup k t.bucket)) through;
              }))
          × (lookup k t'.partials ≡ none)
    unfolding publish
    advance_last through n budget rows folds t avg f small reach e =
        let part = take budget (drop n rows) in
        let same = mark_folded-SameBut F k part t in
        let end : ltb 0 (length (drop budget (drop n rows))) ≡ false =
          rw (length-drop budget (drop n rows), length-drop n rows) (ground arith) in
        let used : length part ≡ length rows - n =
          rw (length-take budget (drop n rows), length-drop n rows) (ground arith) in
        rw (advance_lem through n budget rows folds t f, end, used, e, publish)
          (refl, refl, lookup_here _ _, rw same.3 (lookup_here _ _), lookup_gone _)

    starts :
        (t : Db F) (budget : ℕ)
        → lookup k t.partials ≡ none
        → outstanding F k hi cutover t ≡ true
        → provable F k hi cutover t ≡ true
        → (frozen_at t == 0) ≡ false
        → advance_bucket F k resolution_seconds cutover budget t
          ≡ fold_step F k hi cutover budget (frozen_at t) agg_new none t
    unfolding advance_bucket start_step
    starts t budget idle work proof no_zero = ground (arith, idle, work, proof, no_zero)

    -- Where nothing is in flight and a generation may start, the first call folds from its first
    -- row.
    pub start_Next :
        (t : Db F)
        → IsKept t
        → lookup k t.partials ≡ none
        → outstanding F k hi cutover t ≡ true
        → provable F k hi cutover t ≡ true
        → (folds : IsFoldable (rows_of (frozen_at t) t))
        → Next (frozen_at t) (rows_of (frozen_at t) t) folds 0 t
    unfolding outstanding max_id position_from
    start_Next t kept idle work proof folds =
        let some_id = outstanding-max_id t.metrics work in
        let same : agg_new ≡ (folds 0).0 = ground (arith, (folds 0).1) in
        let no_zero : (frozen_at t == 0) ≡ false = ground arith in
        (
          kept,
          max_id_le t.metrics t.last_id kept.1,
          refl,
          λ budget. rw (← same) (starts t budget idle work proof no_zero),
        )
      where
        max_id_le :
            (xs : List (Row F)) (n : ℕ)
            → All (λ (r : Row F). r.id ≤ n) xs
            → max_id (keep (λ (r : Row F). in_bucket k hi r && ltb cutover r.id) xs) ≤ n
        max_id_le [] n h = omega arith
        max_id_le (x ∷ xs) n h = ground (arith, max_id_le xs n h.1, h.0)

        outstanding-max_id :
            (xs : List (Row F))
            → any
                (λ (r : Row F).
                  in_bucket k hi r
                  && ltb cutover r.id
                  && unpublished F
                      (published_gen_of F (lookup k t.bucket))
                      (lookup (covered_at k.resolution r) t.coverage)
                      r)
                xs
              ≡ true
            → 0 < max_id (keep (λ (r : Row F). in_bucket k hi r && ltb cutover r.id) xs)
        outstanding-max_id [] h = ground arith
        outstanding-max_id (x ∷ xs) h = ground (arith, outstanding-max_id xs)

    -- A sample that arrives is no part of a generation that is frozen.
    pub store-InFlight :
        (through n : ℕ) (rows : List (Row F)) (folds : IsFoldable rows) (t : Db F) (agent : String)
        (ts : ℕ) (sample : Sample)
        → InFlight through rows folds n t
        → InFlight through rows folds n (store_metric agent ts sample t).1
    unfolding store_metric of_generation order_by
    store-InFlight through n rows folds t agent ts sample f = (
      (
        (All-new t.metrics t.last_id f.0.1, f.0.0),
        (omega arith, All-later t.metrics t.last_id f.0.1),
      ),
      omega arith,
      ground (arith, f.2, f.1),
      f.3,
    )
      where
        All-new :
            (xs : List (Row F)) (n : ℕ)
            → All (λ (r : Row F). r.id ≤ n) xs
            → All (λ (r : Row F). n + 1 ≢ r.id) xs
        All-new [] n h = tt
        All-new (x ∷ xs) n h = (omega arith, All-new xs n h.1)

        All-later :
            (xs : List (Row F)) (n : ℕ)
            → All (λ (r : Row F). r.id ≤ n) xs
            → All (λ (r : Row F). r.id ≤ n + 1) xs
        All-later [] n h = tt
        All-later (x ∷ xs) n h = (omega arith, All-later xs n h.1)

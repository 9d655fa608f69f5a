-- ===== src/Metrics/Generation.antt =====
-- What one call of `fold_step` leaves, in terms of the ordered rows of its generation.
use mathlib.Core.List.{append_assoc}
use glassops.Prelude.{
  ℕ, ◌≡◌, refl, sym, ◌∙◌, ap, Bool, false, Option, none, some, List, inl, inr, Option-cases, arith,
  [], ◌∷◌, ◌++◌, ltb, if◌then◌else◌, keep, take, length, drop, take-append-drop, nat_eq,
}
use glassops.Prelude.Dict
use glassops.Prelude.Dict.{Dict}
use glassops.Metrics.Tables.{Fold, BucketKey, Cursor, by_time, bucket_key_eq, coverage_key_eq}
use glassops.Prelude.Sorting.{order_by}
use glassops.Metrics.Advance.{
  Db, Row, of_generation, fold_row, fold_rows, fold_step, settle_step, publish,
}
use glassops.Metrics.Order.{UniqueIds, cursor_at}
use glassops.Metrics.Cursor.{position_from, fetched, any-fetched}

module _ (F : Fold) where
  open F use {Sample, State, Summary, agg_new, agg_add, agg_finalize}

  -- The rows folded one after another, in one go.
  abbrev pub fold_samples : State → List (Row F) → Option State
  fold_samples acc [] = some acc
  fold_samples acc (r ∷ rs) = elim (agg_add acc r.sample) [
    | none ↦ none
    | some acc' ↦ fold_samples acc' rs
  ]

  pub fold_samples-append :
      (acc acc' : State) (xs ys : List (Row F))
      → fold_samples acc xs ≡ some acc'
      → fold_samples acc (xs ++ ys) ≡ fold_samples acc' ys
  fold_samples-append acc acc' [] ys e = let same : acc ≡ acc' = ground arith in rw same refl
  fold_samples-append acc acc' (x ∷ xs) ys e = elim (Option-cases (agg_add acc x.sample)) [
    | inl raised ↦ absurd (ground (arith, raised))
    | inr (a, added) ↦
        let folds : fold_samples a xs ≡ some acc' = ground (arith, added) in
        ground (arith, added, fold_samples-append a acc' xs ys folds)
  ]

  position_from-append :
      (c : Cursor) (xs ys : List (Row F))
      → position_from c (xs ++ ys) ≡ position_from (position_from c xs) ys
  unfolding position_from
  position_from-append c [] ys = refl
  position_from-append c (x ∷ xs) ys = position_from-append (cursor_at x) xs ys

  abbrev pub mark_folded : BucketKey → List (Row F) → Db F → Db F
  mark_folded k [] t = t
  mark_folded k (r ∷ rs) t = mark_folded k rs (fold_row F k r t)

  fold_rows_lem :
      (k : BucketKey) (rs : List (Row F)) (acc acc' : State) (c : Cursor) (t : Db F)
      → fold_samples acc rs ≡ some acc'
      → fold_rows F k rs acc c t ≡ some (acc', position_from c rs, mark_folded k rs t)
  unfolding fold_rows position_from cursor_at
  fold_rows_lem k [] acc acc' c t e = let same : acc ≡ acc' = ground arith in rw same refl
  fold_rows_lem k (r ∷ rs) acc acc' c t e = elim (Option-cases (agg_add acc r.sample)) [
    | inl raised ↦ absurd (ground (arith, raised))
    | inr (a, added) ↦
        let folds : fold_samples a rs ≡ some acc' = ground (arith, added) in
        ground (
          arith,
          added,
          fold_rows_lem k rs a acc' (some (r.timestamp, r.id)) (fold_row F k r t) folds,
        )
  ]

  -- Folding writes coverage alone.
  abbrev pub SameBut : Db F → Db F → Type 0
  SameBut t t' =
      (t'.metrics ≡ t.metrics)
      × (t'.last_id ≡ t.last_id)
      × (t'.downsampled ≡ t.downsampled)
      × (t'.bucket ≡ t.bucket)
      × (t'.partials ≡ t.partials)

  pub mark_folded-SameBut :
      (k : BucketKey) (rs : List (Row F)) (t : Db F) → SameBut t (mark_folded k rs t)
  unfolding fold_row
  mark_folded-SameBut k [] t = (refl, refl, refl, refl, refl)
  mark_folded-SameBut k (r ∷ rs) t = mark_folded-SameBut k rs (fold_row F k r t)

  -- The ordered rows of the generation that is frozen at `through`.
  abbrev pub generation : BucketKey → ℕ → ℕ → ℕ → Db F → List (Row F)
  generation k hi cutover through t =
      order_by by_time (keep (of_generation F k hi cutover through) t.metrics)

  -- What `fold_step` leaves of a generation whose first rows `done` are folded.
  abbrev pub fold_result :
      BucketKey → ℕ → ℕ → List (Row F) → List (Row F) → State → Db F → (ℕ × Option Bool) × Db F
  fold_result k budget through done rest acc t =
      let part = take budget rest in
      let t' = mark_folded k part t in
      if ltb 0 (length (drop budget rest))
      then (
        (length part, some false),
        record t' {
          partials =
              Dict.insert k
                (record {
                  cursor = position_from none (done ++ part);
                  through_raw_id = through;
                  acc = acc;
                })
                t'.partials;
        },
      )
      else (let (published, t'') =
            publish F k through (agg_finalize acc)
              (record t' { partials = Dict.erase k t'.partials }) in
          ((length part, some published), t''))

  module _ (k : BucketKey) (hi cutover budget through : ℕ) (t : Db F)
      (u : UniqueIds t.metrics) where
    pub fold_step_lem :
        (done rest : List (Row F)) (acc acc' : State)
        → generation k hi cutover through t ≡ done ++ rest
        → fold_samples acc (take budget rest) ≡ some acc'
        → fold_step F k hi cutover budget through acc (position_from none done) t
          ≡ fold_result k budget through done rest acc' t
    unfolding fold_step settle_step
    fold_step_lem done rest acc acc' e folds =
        let g = of_generation F k hi cutover through in
        let part = take budget rest in
        let more = drop budget rest in
        let split : generation k hi cutover through t ≡ (done ++ part) ++ more =
          e
          ∙ ap (λ xs. done ++ xs) (sym (take-append-drop budget rest))
          ∙ sym (append_assoc done part more) in
        rw (
          fold_step,
          fetched g done rest t.metrics u e,
          fold_rows_lem k part acc acc' (position_from none done) t folds,
          settle_step,
          fetched g done rest t.metrics u e,
          (mark_folded-SameBut k part t).0,
          ← position_from-append none done part,
          any-fetched g (done ++ part) more t.metrics u split,
        )

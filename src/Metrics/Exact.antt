-- ===== src/Metrics/Exact.antt =====
-- Bounded calls of `_advance_bucket` between stored samples, up to the publication.
use glassops.Prelude.{
  ℕ, ◌+◌, ◌-◌, ◌≤◌, ◌<◌, ◌≡◌, refl, ap, ◌∙◌, String, Bool, true, false, none, some, List, [], ◌∷◌,
  arith, length, take, max,
}
use glassops.Prelude.Dict.{lookup}
use glassops.Metrics.Tables.{Fold, BucketKey, open_bucket, store_metric, bucket_key_eq}
use glassops.Metrics.Advance.{Db, Row, published_gen_of, outstanding, provable, advance_bucket}
use glassops.Metrics.Generation.{fold_samples}
use glassops.Metrics.Publication.{
  IsKept, IsFoldable, take_all, rows_of, hi, frozen_at, InFlight, InFlight-Next, advance_more,
  advance_last, start_Next, store-InFlight,
}

-- What happens to the tables between two looks at them.
pub data Event (D : Type 0) : Type 0 where
  advanced : (budget : ℕ) → Event D
  stored : (agent_id : String) (timestamp : ℕ) (sample : D) → Event D

module _ (F : Fold) where
  open F use {Sample, State, Summary, agg_new, agg_finalize}

  module _ (k : BucketKey) (resolution_seconds cutover : ℕ) where
    abbrev pub run : List (Event Sample) → Db F → Db F
    run [] t = t
    run (advanced budget ∷ es) t = run es (advance_bucket F k resolution_seconds cutover budget t).1
    run (stored agent_id timestamp sample ∷ es) t =
        run es (store_metric agent_id timestamp sample t).1

    abbrev pub spent : List (Event Sample) → ℕ
    spent [] = 0
    spent (advanced budget ∷ es) = budget + spent es
    spent (stored _ _ _ ∷ es) = spent es

    -- The generation is frozen by the first call, not by what arrives before it.
    abbrev pub begins_with_call : List (Event Sample) → Bool
    begins_with_call [] = true
    begins_with_call (advanced _ ∷ _) = true
    begins_with_call (stored _ _ _ ∷ _) = false

    abbrev Unpublished : Db F → Db F → Type 0
    Unpublished t t' = (t'.downsampled ≡ t.downsampled) × (t'.bucket ≡ t.bucket)

    run-InFlight :
        (through n : ℕ) (rows : List (Row F)) (folds : IsFoldable F rows) (es : List (Event Sample))
        (t : Db F)
        → InFlight F k resolution_seconds cutover through rows folds n t
        → n + spent es < length rows
        → Unpublished t (run es t)
          × InFlight F k resolution_seconds cutover through rows folds (n + spent es) (run es t)
    unfolding store_metric
    run-InFlight through n rows folds [] t f short =
        let e : n + 0 ≡ n = omega arith in rw e ((refl, refl), f)
    run-InFlight through n rows folds (stored agent_id timestamp sample ∷ es) t f short =
        run-InFlight through n rows folds es (store_metric agent_id timestamp sample t).1
          (store-InFlight F k resolution_seconds cutover through n rows folds t agent_id timestamp
            sample f)
          short
    run-InFlight through n rows folds (advanced budget ∷ es) t f short =
        let step =
          advance_more F k resolution_seconds cutover through n budget rows folds t
            (InFlight-Next F k resolution_seconds cutover through n rows folds t f) (omega arith) in
        let e : n + (budget + spent es) ≡ (n + budget) + spent es = omega arith in
        let rest =
          run-InFlight through (n + budget) rows folds es
            (advance_bucket F k resolution_seconds cutover budget t).1 step.4 (omega arith) in
        rw e ((rest.0.0 ∙ step.2, rest.0.1 ∙ step.3), rest.1)

    -- What a last call of budget `last` does to a generation of which `n` rows are folded.
    abbrev Publishes : ℕ → List (Row F) → ℕ → ℕ → Summary → Db F → Type 0
    Publishes through rows n last avg t =
        let ((used, published), t') = advance_bucket F k resolution_seconds cutover last t in
        (used ≡ length rows - n)
        × (published ≡ some true)
        × (lookup k t'.downsampled ≡ some avg)
        × (lookup k t'.bucket
            ≡ some (record {
              state = open_bucket;
              published_gen = max (published_gen_of F (lookup k t.bucket)) through;
            }))
        × (lookup k t'.partials ≡ none)

    run-Publishes :
        (through n last : ℕ) (rows : List (Row F)) (folds : IsFoldable F rows)
        (es : List (Event Sample)) (t : Db F) (avg : Summary)
        → InFlight F k resolution_seconds cutover through rows folds n t
        → n + spent es < length rows
        → length rows ≤ (n + spent es) + last
        → agg_finalize (folds ((n + spent es) + last)).0 ≡ some avg
        → Unpublished t (run es t) × Publishes through rows (n + spent es) last avg (run es t)
    run-Publishes through n last rows folds es t avg f short reach e =
        let (same, flight) = run-InFlight through n rows folds es t f short in
        (
          same,
          advance_last F k resolution_seconds cutover through (n + spent es) last rows folds
              (run es t) avg
              (InFlight-Next F k resolution_seconds cutover through (n + spent es) rows folds
                (run es t) flight)
              (omega arith) reach e,
        )

    abbrev pub frozen_rows : Db F → List (Row F)
    frozen_rows t =
        rows_of F k resolution_seconds cutover (frozen_at F k resolution_seconds cutover t) t

    whole_fold :
        (rows : List (Row F)) (folds : IsFoldable F rows) (n : ℕ) (acc : State)
        → length rows ≤ n
        → fold_samples F agg_new rows ≡ some acc
        → (folds n).0 ≡ acc
    whole_fold rows folds n acc reach whole =
        let all_rows = take_all n rows reach in
        let same : fold_samples F agg_new (take n rows) ≡ some acc = rw all_rows whole in
        ground (arith, (folds n).1, same)

    -- Where no sample of the rows of a generation raises, and json gives the accumulators of their
    -- first rows back as they were: a bucket of which nothing is in flight, and whose generation may start with work to do,
    -- reads unchanged through any sequence of bounded calls and of stored samples that begins
    -- with a call and whose budgets do not add up to the rows of the generation. The next call
    -- whose budget covers the rest uses exactly the rest, and leaves the summary that the fold of
    -- the rows of the generation in the order of their times gives, whatever the budgets were and
    -- whatever arrived meanwhile. The bucket row then covers the greatest id of these rows, and
    -- the partial row is gone.
    pub generation_exact :
        (t : Db F) (es : List (Event Sample)) (last : ℕ) (acc : State) (avg : Summary)
        → IsFoldable F (frozen_rows t)
        → IsKept F t
        → lookup k t.partials ≡ none
        → outstanding F k (hi F k resolution_seconds cutover) cutover t ≡ true
        → provable F k (hi F k resolution_seconds cutover) cutover t ≡ true
        → begins_with_call es ≡ true
        → spent es < length (frozen_rows t)
        → length (frozen_rows t) ≤ spent es + last
        → fold_samples F agg_new (frozen_rows t) ≡ some acc
        → agg_finalize acc ≡ some avg
        → Unpublished t (run es t)
          × Publishes
              (frozen_at F k resolution_seconds cutover t)
              (frozen_rows t)
              (spent es)
              last
              avg
              (run es t)
    generation_exact t [] last acc avg folds kept idle work proof begins short reach whole e =
        let through = frozen_at F k resolution_seconds cutover t in
        (
          (refl, refl),
          advance_last F k resolution_seconds cutover through 0 last (frozen_rows t) folds t avg
              (start_Next F k resolution_seconds cutover t kept idle work proof folds) (omega arith)
              reach
              (ap agg_finalize (whole_fold (frozen_rows t) folds (0 + last) acc reach whole) ∙ e),
        )
    generation_exact t (advanced budget ∷ es) last acc avg folds kept idle work proof begins short
          reach whole e =
        let through = frozen_at F k resolution_seconds cutover t in
        let zero_first : 0 + budget ≡ budget = omega arith in
        let step =
          advance_more F k resolution_seconds cutover through 0 budget (frozen_rows t) folds t
            (start_Next F k resolution_seconds cutover t kept idle work proof folds)
            (omega arith) in
        let (same, done) =
          run-Publishes through budget last (frozen_rows t) folds es
            (advance_bucket F k resolution_seconds cutover budget t).1 avg (rw zero_first at step.4)
            short reach
            (ap agg_finalize
                (whole_fold (frozen_rows t) folds ((budget + spent es) + last) acc reach whole)
              ∙ e) in
        ((same.0 ∙ step.2, same.1 ∙ step.3), done)
    generation_exact t (stored _ _ _ ∷ es) last acc avg folds kept idle work proof begins short
          reach whole e =
        ground arith

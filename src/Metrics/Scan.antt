-- ===== src/Metrics/Scan.antt =====
-- The tables between the loops of `downsample_metrics`, and what they share.
use glassops.Prelude.{
  ℕ, zero, suc, ◌+◌, ◌-◌, ◌*◌, ◌≡◌, refl, sym, ◌∙◌, String, Bool, true, false, not, ◌&&◌, Option,
  none, some, List, [], ◌∷◌, arith, inl, inr, Option-cases, length, ltb, if◌then◌else◌, ◌==◌, keep,
  take, any, nat_eq, string_eq,
}
use glassops.Prelude.Dict
use glassops.Prelude.Dict.{Dict, lookup, lookup-insert}
use glassops.Metrics.Tables.{
  Fold, BucketKey, CoverageKey, Cursor, has, covered_at, Partial, by_time, after, second, max_id,
  in_bucket, bucket_key_eq, coverage_key_eq, progress_key_eq,
}
use glassops.Prelude.Sorting.{order_by}
use glassops.Metrics.Advance.{
  Db, Row, fold_row, fold_rows, fold_step, settle_step, publish, mark_row, mark_rows, mark_pending,
  start_step, advance_bucket, of_generation, outstanding, provable,
}
use glassops.Metrics.Downsample.{advance_each, added, count_of}
use mathlib.Core.Path.{subst}

has-insert :
    {V : Type 0} (j k : CoverageKey) (v : V) (d : Dict CoverageKey V)
    → has j d ≡ true
    → has j (Dict.insert k v d) ≡ true
unfolding has
has-insert j k v d h = ground (arith, h, lookup-insert j k v d)

module _ (F : Fold) where
  open F use {State, Summary, agg_new, agg_add, agg_finalize, reload}

  -- Rows and progress stay, and what is decided stays decided.
  abbrev pub Keeps : Db F → Db F → Type 0
  Keeps t t' =
      (t'.metrics ≡ t.metrics)
      × (t'.progress ≡ t.progress)
      × ((ck : CoverageKey) → has ck t.coverage ≡ true → has ck t'.coverage ≡ true)

  Keeps-refl : (t : Db F) → Keeps t t
  Keeps-refl t = (refl, refl, λ ck h. h)

  Keeps-trans : (t u v : Db F) → Keeps t u → Keeps u v → Keeps t v
  Keeps-trans t u v a b = (b.0 ∙ a.0, b.1 ∙ a.1, λ ck h. b.2 ck (a.2 ck h))

  Keeps-either :
      {R : Type 0} (b : Bool) (t : Db F) (x y : R × Db F)
      → Keeps t x.1
      → Keeps t y.1
      → Keeps t (if b then x else y).1
  Keeps-either true t x y p q = p
  Keeps-either false t x y p q = q

  Keeps-if : (b : Bool) (t u v : Db F) → Keeps t u → Keeps t v → Keeps t (if b then u else v)
  Keeps-if true t u v p q = p
  Keeps-if false t u v p q = q

  fold_row-Keeps : (k : BucketKey) (r : Row F) (t : Db F) → Keeps t (fold_row F k r t)
  unfolding fold_row
  fold_row-Keeps k r t = (refl, refl, λ ck h. has-insert ck _ _ t.coverage h)

  fold_rows-Keeps :
      (k : BucketKey) (rs : List (Row F)) (acc : State) (c : Cursor) (t : Db F)
      (out : State × Cursor × Db F)
      → fold_rows F k rs acc c t ≡ some out
      → Keeps t out.2
  unfolding fold_rows
  fold_rows-Keeps k [] acc c t out e =
      let same : out.2 ≡ t = ground arith in subst (Keeps t) (sym same) (Keeps-refl t)
  fold_rows-Keeps k (r ∷ rs) acc c t out e = elim (Option-cases (agg_add acc r.sample)) [
    | inl raised ↦ absurd (ground (arith, raised))
    | inr (next, added) ↦
        let cursor = some (r.timestamp, r.id) in
        let rest : fold_rows F k rs next cursor (fold_row F k r t) ≡ some out =
          ground (arith, added) in
        Keeps-trans t (fold_row F k r t) out.2 (fold_row-Keeps k r t)
          (fold_rows-Keeps k rs next cursor (fold_row F k r t) out rest)
  ]

  mark_rows-Keeps : (k : BucketKey) (rs : List (Row F)) (t : Db F) → Keeps t (mark_rows F k rs t)
  unfolding mark_rows mark_row
  mark_rows-Keeps k [] t = Keeps-refl t
  mark_rows-Keeps k (r ∷ rs) t =
      Keeps-trans t (mark_row F k r t) (mark_rows F k rs (mark_row F k r t))
        (Keeps-if (has (covered_at k.resolution r) t.coverage) t t _ (Keeps-refl t)
          (refl, refl, λ ck h. has-insert ck _ _ t.coverage h))
        (mark_rows-Keeps k rs (mark_row F k r t))

  publish-Keeps :
      (k : BucketKey) (through : ℕ) (avg : Option Summary) (t : Db F)
      → Keeps t (publish F k through avg t).1
  unfolding publish
  publish-Keeps k through none t = Keeps-refl t
  publish-Keeps k through (some avg) t = (refl, refl, λ ck h. h)

  settle_step-Keeps :
      (k : BucketKey) (hi cutover through used : ℕ) (t : Db F) (o : Option (State × Cursor × Db F))
      → ((out : State × Cursor × Db F) → o ≡ some out → Keeps t out.2)
      → Keeps t (settle_step F k hi cutover through used t o).1
  unfolding settle_step
  settle_step-Keeps k hi cutover through used t none kept = Keeps-refl t
  settle_step-Keeps k hi cutover through used t (some (acc, c, t')) kept =
      let g = of_generation F k hi cutover through in
      let cleared : Db F = record t' { partials = Dict.erase k t'.partials } in
      let same = kept (acc, c, t') refl in
      Keeps-either (any (λ (r : Row F). g r && after c r) t'.metrics) t _ _ same (
        Keeps-trans t cleared (publish F k through (agg_finalize acc) cleared).1 same
          (publish-Keeps k through (agg_finalize acc) cleared))

  fold_step-Keeps :
      (k : BucketKey) (hi cutover budget through : ℕ) (acc : State) (c : Cursor) (t : Db F)
      → Keeps t (fold_step F k hi cutover budget through acc c t).1
  unfolding fold_step
  fold_step-Keeps k hi cutover budget through acc c t =
      let rows = take budget (
        order_by by_time
          (keep (λ (r : Row F). of_generation F k hi cutover through r && after c r) t.metrics)) in
      settle_step-Keeps k hi cutover through (length rows) t (fold_rows F k rows acc c t)
        (fold_rows-Keeps k rows acc c t)

  start_step-Keeps :
      (k : BucketKey) (hi cutover budget : ℕ) (t : Db F)
      → Keeps t (start_step F k hi cutover budget t).1
  unfolding start_step mark_pending
  start_step-Keeps k hi cutover budget t =
      Keeps-either (not (outstanding F k hi cutover t)) t _ _ (Keeps-refl t) (
        Keeps-either (not (provable F k hi cutover t)) t _ _ (mark_rows-Keeps k _ t) (
          Keeps-either
            (max_id (keep (λ (r : Row F). in_bucket k hi r && ltb cutover r.id) t.metrics) == 0) t _
            _ (Keeps-refl t) (fold_step-Keeps k hi cutover budget _ agg_new none t)))

  module _ (resolution_seconds cutover : ℕ) where
    advance_bucket-Keeps :
        (k : BucketKey) (budget : ℕ) (t : Db F)
        → Keeps t (advance_bucket F k resolution_seconds cutover budget t).1
    unfolding advance_bucket
    advance_bucket-Keeps k budget t = by_partial (lookup k t.partials)
      where
        by_partial :
            (o : Option (Partial State))
            → let hi = k.bucket_ts + resolution_seconds * second in
              let out : (ℕ × Option Bool) × Db F = elim o [
                | none ↦ start_step F k hi cutover budget t
                | some p ↦
                    fold_step F k hi cutover budget p.through_raw_id (reload p.acc) p.cursor t
              ] in
              Keeps t out.1
        by_partial none = start_step-Keeps k _ cutover budget t
        by_partial (some p) =
            fold_step-Keeps k _ cutover budget p.through_raw_id (reload p.acc) p.cursor t

    pub advance_each-Keeps :
        (text_before : String → String → Bool) (label : String) (ks : List BucketKey) (budget : ℕ)
        (t : Db F)
        → Keeps t (advance_each F text_before resolution_seconds label cutover ks budget t).1.1
    unfolding advance_each
    advance_each-Keeps text_before label [] budget t = Keeps-refl t
    advance_each-Keeps text_before label (k ∷ ks) zero t = Keeps-refl t
    advance_each-Keeps text_before label (k ∷ ks) (suc b) t =
        let ((used, published), t') = advance_bucket F k resolution_seconds cutover (suc b) t in
        by_ending used published t' (advance_bucket-Keeps k (suc b) t)
          (λ n u. advance_each-Keeps text_before label ks n u)
      where
        by_ending :
            (used : ℕ) (published : Option Bool) (t' : Db F)
            → Keeps t t'
            → ((n : ℕ) (u : Db F)
                → Keeps u (advance_each F text_before resolution_seconds label cutover ks n u).1.1)
            → let out : (ℕ × Option ℕ) × (List BucketKey × Db F) = elim published [
              | none ↦ ((0, none), ([], t'))
              | some fresh ↦
                  let ((left, count), (visited, t'')) =
                    advance_each F text_before resolution_seconds label cutover ks
                      (suc b - used)
                      t' in
                  ((left, added (some (count_of fresh)) count), (k ∷ visited, t''))
            ] in
              Keeps t out.1.1
        by_ending used none t' kept later = kept
        by_ending used (some fresh) t' kept later =
            Keeps-trans t t'
              (advance_each F text_before resolution_seconds label cutover ks (suc b - used) t').1.1
              kept (later (suc b - used) t')

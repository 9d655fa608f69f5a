-- ===== src/Metrics/Retention.antt =====
-- What `cleanup_old_metrics` leaves of the raw rows.
use glassops.Prelude.{
  ℕ, zero, suc, ◌+◌, ◌≤◌, ◌≡◌, refl, sym, Bool, true, false, not, ◌||◌, some, List, [], ◌∷◌, ◌++◌,
  arith, ◌==◌, contains, keep, take, drop, length, length-take, length-drop, take-append-drop, All,
  min, max, ap, nat_eq,
}
use glassops.Metrics.Tables.{RawRow, Tables, by_id}
use glassops.Prelude.Sorting.{order_by}
use glassops.Metrics.Order.{UniqueIds, keep-UniqueIds}
use glassops.Metrics.Cleanup.{
  raw_cutoff, ids_of, in_chunk, deletable, doomed, delete_chunk, delete_chunks, delete_past,
  delete_raw, prune_summaries, prune_buckets, cleanup_old_metrics,
}
use glassops.Metrics.Ids.{
  Within, take-Within, keep-Within, order_by-Within, All-Within, take-UniqueIds, order_by-UniqueIds,
  contains-absent, selected_exactly, length-order_by,
}

pub contains-append :
    (xs ys : List ℕ) (i : ℕ) → contains (xs ++ ys) i ≡ (contains xs i || contains ys i)
contains-append [] ys i = refl
contains-append (x ∷ xs) ys i = ground (arith, contains-append xs ys i)

module _ {D : Type 0} where
  abbrev pub spared : List ℕ → List (RawRow D) → List (RawRow D)
  spared ids xs = keep (λ (r : RawRow D). not (in_chunk ids r)) xs

  spared-append :
      (is js : List ℕ) (xs : List (RawRow D)) → spared js (spared is xs) ≡ spared (is ++ js) xs
  unfolding in_chunk
  spared-append is js [] = refl
  spared-append is js (x ∷ xs) = ground (arith, contains-append is js x.id, spared-append is js xs)

  spared_none : (xs : List (RawRow D)) → spared [] xs ≡ xs
  unfolding in_chunk
  spared_none [] = refl
  spared_none (x ∷ xs) = rw (spared_none xs)

  halves :
      (p : RawRow D → Bool) (xs : List (RawRow D))
      → length (keep p xs) + length (keep (λ r. not (p r)) xs) ≡ length xs
  halves p [] = omega arith
  halves p (x ∷ xs) = ground (arith, halves p xs)

  count_none :
      (i : ℕ) (xs : List (RawRow D))
      → contains (ids_of xs) i ≡ false
      → length (keep (λ (r : RawRow D). r.id == i) xs) ≡ 0
  unfolding ids_of
  count_none i [] h = refl
  count_none i (x ∷ xs) h = ground (arith, count_none i xs)

  -- Rows with one id of a list that has it once.
  count_one :
      (i : ℕ) (xs : List (RawRow D))
      → UniqueIds xs
      → contains (ids_of xs) i ≡ true
      → length (keep (λ (r : RawRow D). r.id == i) xs) ≡ 1
  unfolding ids_of
  count_one i [] u h = ground arith
  count_one i (x ∷ xs) u h =
      ground (arith, contains-absent x.id xs u.0, count_none i xs, count_one i xs u.1)

  count_either :
      (i : ℕ) (is : List ℕ) (xs : List (RawRow D))
      → contains is i ≡ false
      → length (keep (in_chunk (i ∷ is)) xs)
        ≡ length (keep (λ (r : RawRow D). r.id == i) xs) + length (keep (in_chunk is) xs)
  unfolding in_chunk
  count_either i is [] h = omega arith
  count_either i is (x ∷ xs) h = ground (arith, count_either i is xs h)

  count_nothing : (xs : List (RawRow D)) → length (keep (in_chunk []) xs) ≡ 0
  unfolding in_chunk
  count_nothing [] = refl
  count_nothing (x ∷ xs) = count_nothing xs

  -- As many rows carry one of the ids as there are ids.
  count_ids :
      (sel xs : List (RawRow D))
      → UniqueIds sel
      → UniqueIds xs
      → All (λ (r : RawRow D). contains (ids_of xs) r.id ≡ true) sel
      → length (keep (in_chunk (ids_of sel)) xs) ≡ length sel
  unfolding ids_of
  count_ids [] xs u v h = count_nothing xs
  count_ids (s ∷ sel) xs u v h =
      rw
        (
          count_either s.id (ids_of sel) xs (contains-absent s.id sel u.0),
          count_one s.id xs v h.0,
          count_ids sel xs u.1 v h.1,
        )
        (omega arith)

  -- A filter that every row it passes also passes may be left out before it.
  keep-keep_within :
      (p q : RawRow D → Bool) (xs : List (RawRow D))
      → All (λ r. (not (q r) || p r) ≡ true) xs
      → keep q (keep p xs) ≡ keep q xs
  keep-keep_within p q [] h = refl
  keep-keep_within p q (x ∷ xs) h = ground (arith, keep-keep_within p q xs h.1, h.0)

module _ {D A S : Type 0} where
  pub chunks_leave :
      (fuel : ℕ) (ids : List ℕ) (t : Tables D A S)
      → length ids ≤ fuel
      → (delete_chunks fuel ids t).1.metrics ≡ spared ids t.metrics
  unfolding delete_chunks delete_chunk
  chunks_leave zero [] t h = sym (spared_none t.metrics)
  chunks_leave zero (i ∷ ids) t h = absurd (omega arith)
  chunks_leave (suc fuel) [] t h = sym (spared_none t.metrics)
  chunks_leave (suc fuel) (i ∷ ids) t h =
      let few : length (drop 400 (i ∷ ids)) ≤ fuel = rw (length-drop 400 (i ∷ ids)) (omega arith) in
      rw
        (
          chunks_leave fuel (drop 400 (i ∷ ids)) (delete_chunk (take 400 (i ∷ ids)) t).1 few,
          spared-append (take 400 (i ∷ ids)) (drop 400 (i ∷ ids)) t.metrics,
          take-append-drop 400 (i ∷ ids),
        )
        refl

  chunks_count :
      (fuel : ℕ) (ids : List ℕ) (t : Tables D A S)
      → (delete_chunks fuel ids t).0 + length (delete_chunks fuel ids t).1.metrics
        ≡ length t.metrics
  unfolding delete_chunks delete_chunk
  chunks_count zero ids t = omega arith
  chunks_count (suc fuel) [] t = omega arith
  chunks_count (suc fuel) (i ∷ ids) t = omega (
    arith,
    chunks_count fuel (drop 400 (i ∷ ids)) (delete_chunk (take 400 (i ∷ ids)) t).1,
    halves (in_chunk (take 400 (i ∷ ids))) t.metrics,
  )

  module _ (cutoff cutover : ℕ) (t : Tables D A S) (u : UniqueIds t.metrics) where
    abbrev dead : RawRow D → Bool
    dead = deletable cutoff cutover t

    abbrev chosen : ℕ → List (RawRow D)
    chosen limit = take limit (order_by by_id (keep dead t.metrics))

    chosen-Within-dead : (limit : ℕ) → Within (chosen limit) (keep dead t.metrics)
    chosen-Within-dead limit i h =
        order_by-Within by_id (keep dead t.metrics) i
          (take-Within limit (order_by by_id (keep dead t.metrics)) i h)

    chosen-UniqueIds : (limit : ℕ) → UniqueIds (chosen limit)
    chosen-UniqueIds limit =
        take-UniqueIds limit (order_by by_id (keep dead t.metrics))
          (order_by-UniqueIds by_id (keep dead t.metrics) (keep-UniqueIds dead t.metrics u))

    chosen_present :
        (limit : ℕ) → All (λ (r : RawRow D). contains (ids_of t.metrics) r.id ≡ true) (chosen limit)
    chosen_present limit =
        All-Within (chosen limit) t.metrics
          (λ i h. keep-Within dead t.metrics i (chosen-Within-dead limit i h))

    length-chosen : (limit : ℕ) → length (chosen limit) ≡ min limit (length (keep dead t.metrics))
    length-chosen limit =
        rw
          (
            length-take limit (order_by by_id (keep dead t.metrics)),
            length-order_by by_id (keep dead t.metrics),
          )
          refl

    -- A row that may not go carries no chosen id.
    chosen-dead :
        (limit : ℕ)
        → All
            (λ (r : RawRow D).
              (not (not (dead r)) || not (in_chunk (ids_of (chosen limit)) r)) ≡ true)
            t.metrics
    unfolding in_chunk
    chosen-dead limit = pointwise t.metrics (selected_exactly dead t.metrics u)
      where
        pointwise :
            (xs : List (RawRow D))
            → All (λ (r : RawRow D). contains (ids_of (keep dead t.metrics)) r.id ≡ dead r) xs
            → All
                (λ (r : RawRow D).
                  (not (not (dead r)) || not (in_chunk (ids_of (chosen limit)) r)) ≡ true)
                xs
        pointwise [] h = tt
        pointwise (x ∷ xs) h =
            (ground (arith, h.0, chosen-Within-dead limit x.id), pointwise xs h.1)

    length-ids_of : (xs : List (RawRow D)) → length (ids_of xs) ≡ length xs
    unfolding ids_of
    length-ids_of [] = refl
    length-ids_of (x ∷ xs) = rw (length-ids_of xs)

    abbrev after_chunks : ℕ → ℕ × Tables D A S
    after_chunks limit = delete_chunks (length (ids_of (chosen limit))) (ids_of (chosen limit)) t

    after_chunks-metrics :
        (limit : ℕ) → (after_chunks limit).1.metrics ≡ spared (ids_of (chosen limit)) t.metrics
    after_chunks-metrics limit =
        chunks_leave (length (ids_of (chosen limit))) (ids_of (chosen limit)) t (omega arith)

    after_chunks_lem :
        (limit : ℕ)
        → (keep (λ (r : RawRow D). not (dead r)) (after_chunks limit).1.metrics
            ≡ keep (λ (r : RawRow D). not (dead r)) t.metrics)
          × ((after_chunks limit).0 + length (after_chunks limit).1.metrics ≡ length t.metrics)
          × ((after_chunks limit).0 ≡ min limit (length (keep dead t.metrics)))
    after_chunks_lem limit =
        let total = chunks_count (length (ids_of (chosen limit))) (ids_of (chosen limit)) t in
        let gone =
          count_ids (chosen limit) t.metrics (chosen-UniqueIds limit) u (chosen_present limit) in
        (
          rw (after_chunks-metrics limit) (
              keep-keep_within (λ (r : RawRow D). not (in_chunk (ids_of (chosen limit)) r))
                (λ (r : RawRow D). not (dead r)) t.metrics (chosen-dead limit)),
          total,
          omega (
            arith,
            total,
            ap length (after_chunks-metrics limit),
            halves (in_chunk (ids_of (chosen limit))) t.metrics,
            gone,
            length-chosen limit,
          ),
        )

    delete_raw_lem :
        (limit : ℕ) → t.cutover ≡ some cutover → delete_raw cutoff limit t ≡ after_chunks limit
    unfolding delete_raw delete_past doomed
    delete_raw_lem limit marker = ap (delete_past cutoff limit t) marker

  -- With raw rows of different ids and with a cutover marker, a cleanup leaves every row that
  -- may not go, in the order of the table; the rows left and the number it returns are the rows
  -- there were; and that number is the number of rows that may go, up to the batch limit, which
  -- counts as 1 where it is 0. A row may go where it is older than the cutoff and newer than the
  -- cutover, and has, at both resolutions, folded coverage of its own agent in a bucket with a
  -- summary, a published generation that reaches it, and no partial row.
  pub cleanup_retains :
      (now max_age_hours batch_limit cutover : ℕ) (t : Tables D A S)
      → UniqueIds t.metrics
      → t.cutover ≡ some cutover
      → let may_go = deletable (raw_cutoff now max_age_hours) cutover t in
        let (deleted, t') = cleanup_old_metrics now max_age_hours batch_limit t in
        (keep (λ (r : RawRow D). not (may_go r)) t'.metrics
          ≡ keep (λ (r : RawRow D). not (may_go r)) t.metrics)
        × (deleted + length t'.metrics ≡ length t.metrics)
        × (deleted ≡ min (max 1 batch_limit) (length (keep may_go t.metrics)))
  unfolding cleanup_old_metrics prune_summaries prune_buckets
  cleanup_retains now max_age_hours batch_limit cutover t u marker =
      rw (delete_raw_lem (raw_cutoff now max_age_hours) cutover t u (max 1 batch_limit) marker)
        (after_chunks_lem (raw_cutoff now max_age_hours) cutover t u (max 1 batch_limit))

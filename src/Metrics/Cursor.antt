-- ===== src/Metrics/Cursor.antt =====
-- The cursor of a generation: which rows a fetch behind it selects.
use mathlib.Core.List.{append_assoc}
use glassops.Prelude.{
  suc, ◌≡◌, refl, Bool, ◌&&◌, none, List, [], ◌∷◌, ◌++◌, arith, ltb, keep, keep_and, any, length,
}
use glassops.Metrics.Tables.{RawRow, Cursor, by_time, after}
use glassops.Prelude.Sorting.{order_by, order_insert}
use glassops.Metrics.Order.{
  Ordered, UniqueIds, order_by-Ordered, order_by-keep, keep-UniqueIds, cursor_at, keep-after,
}

module _ {D : Type 0} where
  -- The cursor behind a list of rows.
  unfoldable pub position_from : Cursor → List (RawRow D) → Cursor
  position_from c [] = c
  position_from c (x ∷ xs) = position_from (cursor_at x) xs

  after-position_from :
      (done : List (RawRow D)) (x : RawRow D) (ys rest : List (RawRow D))
      → Ordered (done ++ (x ∷ (ys ++ rest)))
      → keep (after (position_from (cursor_at x) ys)) (done ++ (x ∷ (ys ++ rest))) ≡ rest
  unfolding position_from
  after-position_from done x [] rest h = keep-after done x rest h
  after-position_from done x (y ∷ ys) rest h =
      let shift = append_assoc done (x ∷ []) (y ∷ (ys ++ rest)) in
      rw (← shift) (after-position_from (done ++ (x ∷ [])) y ys rest (rw shift h))

  keep-after-none : (xs : List (RawRow D)) → keep (after none) xs ≡ xs
  unfolding after
  keep-after-none [] = refl
  keep-after-none (x ∷ xs) = rw (keep-after-none xs)

  -- Of an ordered list, what comes after its first part is its second part.
  pub keep-after_position :
      (done rest : List (RawRow D))
      → Ordered (done ++ rest)
      → keep (after (position_from none done)) (done ++ rest) ≡ rest
  unfolding position_from
  keep-after_position [] rest h = keep-after-none rest
  keep-after_position (x ∷ done) rest h = after-position_from [] x done rest h

  length-order_insert :
      (x : RawRow D) (ys : List (RawRow D)) → length (order_insert by_time x ys) ≡ suc (length ys)
  unfolding order_insert
  length-order_insert x [] = refl
  length-order_insert x (y ∷ ys) = ground (arith, length-order_insert x ys)

  length-order_by : (xs : List (RawRow D)) → length (order_by by_time xs) ≡ length xs
  unfolding order_by
  length-order_by [] = refl
  length-order_by (x ∷ xs) = rw (length-order_insert, length-order_by xs)

  any-eq-length :
      (p : RawRow D → Bool) (xs : List (RawRow D)) → any p xs ≡ ltb 0 (length (keep p xs))
  any-eq-length p [] = ground arith
  any-eq-length p (x ∷ xs) = ground (arith, any-eq-length p xs)

  -- What a fetch selects of the ordered rows of a generation.
  pub fetched :
      (g : RawRow D → Bool) (done rest xs : List (RawRow D))
      → UniqueIds xs
      → order_by by_time (keep g xs) ≡ done ++ rest
      → order_by by_time (keep (λ r. g r && after (position_from none done) r) xs) ≡ rest
  fetched g done rest xs u e =
      let c = position_from none done in
      let sorted = rw e at (order_by-Ordered (keep g xs) (keep-UniqueIds g xs u)) in
      rw (keep_and g (after c) xs, order_by-keep (after c) (keep g xs) (keep-UniqueIds g xs u), e)
        (keep-after_position done rest sorted)

  pub any-fetched :
      (g : RawRow D → Bool) (done rest xs : List (RawRow D))
      → UniqueIds xs
      → order_by by_time (keep g xs) ≡ done ++ rest
      → any (λ r. g r && after (position_from none done) r) xs ≡ ltb 0 (length rest)
  any-fetched g done rest xs u e =
      let p = λ (r : RawRow D). g r && after (position_from none done) r in
      rw (any-eq-length p xs, ← length-order_by (keep p xs), fetched g done rest xs u e)

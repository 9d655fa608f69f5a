-- ===== src/Metrics/Order.antt =====
-- `ORDER BY timestamp, id` on rows with different ids, and a cursor in the ordered list.
use glassops.Prelude.{◌≡◌, refl, Bool, some, List, ◌∷◌, ◌++◌, arith, keep, All}
use glassops.Prelude.Sorting
use glassops.Prelude.Sorting.{order_by, IsOrder}
use glassops.Metrics.Tables.{RawRow, by_time, after, Cursor}

module _ {D : Type 0} where
  abbrev pub Ordered : List (RawRow D) → Type 0
  Ordered xs = Sorting.Ordered by_time xs

  abbrev pub UniqueIds : List (RawRow D) → Type 0
  UniqueIds xs = Sorting.Distinct (λ (r : RawRow D). r.id) xs

  pub All-order_by :
      (P : RawRow D → Type 0) (xs : List (RawRow D)) → All P xs → All P (order_by by_time xs)
  All-order_by P xs h = Sorting.All-order_by by_time P xs h

  by_time-IsOrder : IsOrder by_time (λ (r : RawRow D). r.id)
  unfolding by_time
  by_time-IsOrder = record {
    trans = λ x y z p q. ground (arith, p, q);
    total = λ x y ne p. ground (arith, ne, p);
    asym = λ x y p. ground (arith, p);
  }

  pub order_by-Ordered : (xs : List (RawRow D)) → UniqueIds xs → Ordered (order_by by_time xs)
  order_by-Ordered xs u = Sorting.order_by-Ordered by_time-IsOrder xs u

  pub keep-UniqueIds :
      (p : RawRow D → Bool) (xs : List (RawRow D)) → UniqueIds xs → UniqueIds (keep p xs)
  keep-UniqueIds p xs u = Sorting.keep-Distinct (λ (r : RawRow D). r.id) p xs u

  pub order_by-keep :
      (p : RawRow D → Bool) (xs : List (RawRow D))
      → UniqueIds xs
      → order_by by_time (keep p xs) ≡ keep p (order_by by_time xs)
  order_by-keep p xs u = Sorting.order_by-keep by_time-IsOrder p xs u

  unfoldable pub cursor_at : RawRow D → Cursor
  cursor_at x = some (x.timestamp, x.id)

  after-cursor_at : (x : RawRow D) → after (cursor_at x) ≡ by_time x
  unfolding after cursor_at by_time
  after-cursor_at x = refl

  -- What comes after the row that `done` ends with.
  pub keep-after :
      (done : List (RawRow D)) (x : RawRow D) (rest : List (RawRow D))
      → Ordered (done ++ (x ∷ rest))
      → keep (after (cursor_at x)) (done ++ (x ∷ rest)) ≡ rest
  keep-after done x rest h =
      rw (after-cursor_at x) (Sorting.keep-before by_time-IsOrder done x rest h)

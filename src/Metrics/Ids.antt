-- ===== src/Metrics/Ids.antt =====
-- The ids of selected, ordered and cut lists of rows.
use glassops.Prelude.{
  ℕ, zero, suc, ◌≡◌, ◌≢◌, refl, Bool, true, false, List, [], ◌∷◌, arith, contains, keep, take,
  length, All, inl, inr, Bool-cases, sym, nat_eq,
}
use glassops.Metrics.Tables.{RawRow}
use glassops.Prelude.Sorting.{order_by, order_insert}
use glassops.Metrics.Order.{UniqueIds}
use glassops.Metrics.Cleanup.{ids_of}

module _ {D : Type 0} where
  -- Every id of the first list is one of the second.
  abbrev pub Within : List (RawRow D) → List (RawRow D) → Type 0
  Within xs ys = (i : ℕ) → contains (ids_of xs) i ≡ true → contains (ids_of ys) i ≡ true

  pub take-Within : (n : ℕ) (xs : List (RawRow D)) → Within (take n xs) xs
  unfolding ids_of
  take-Within zero xs i h = ground arith
  take-Within (suc n) [] i h = h
  take-Within (suc n) (x ∷ xs) i h = ground (arith, take-Within n xs i)

  pub keep-Within : (p : RawRow D → Bool) (xs : List (RawRow D)) → Within (keep p xs) xs
  unfolding ids_of
  keep-Within p [] i h = h
  keep-Within p (x ∷ xs) i h = ground (arith, keep-Within p xs i)

  pub All-Within :
      (xs ys : List (RawRow D))
      → Within xs ys
      → All (λ (r : RawRow D). contains (ids_of ys) r.id ≡ true) xs
  unfolding ids_of
  All-Within [] ys h = tt
  All-Within (x ∷ xs) ys h = (h x.id (ground arith), All-Within xs ys (λ i c. h i (ground arith)))

  pub take-UniqueIds : (n : ℕ) (xs : List (RawRow D)) → UniqueIds xs → UniqueIds (take n xs)
  take-UniqueIds zero xs u = tt
  take-UniqueIds (suc n) [] u = tt
  take-UniqueIds (suc n) (x ∷ xs) u = (All-take n xs u.0, take-UniqueIds n xs u.1)
    where
      All-take :
          (m : ℕ) (ys : List (RawRow D))
          → All (λ (y : RawRow D). x.id ≢ y.id) ys
          → All (λ (y : RawRow D). x.id ≢ y.id) (take m ys)
      All-take zero ys h = tt
      All-take (suc m) [] h = tt
      All-take (suc m) (y ∷ ys) h = (h.0, All-take m ys h.1)

  -- A list without an id does not contain it.
  pub contains-absent :
      (i : ℕ) (xs : List (RawRow D))
      → All (λ (y : RawRow D). i ≢ y.id) xs
      → contains (ids_of xs) i ≡ false
  unfolding ids_of
  contains-absent i [] h = refl
  contains-absent i (x ∷ xs) h = ground (arith, h.0, contains-absent i xs h.1)

  -- A selection of a list with different ids contains the ids of the rows it is for, and no more.
  pub selected_exactly :
      (p : RawRow D → Bool) (xs : List (RawRow D))
      → UniqueIds xs
      → All (λ (r : RawRow D). contains (ids_of (keep p xs)) r.id ≡ p r) xs
  unfolding ids_of
  selected_exactly p [] u = tt
  selected_exactly p (x ∷ xs) u =
      (ground (arith, absent), others xs u.0 (selected_exactly p xs u.1))
    where
      absent : contains (ids_of (keep p xs)) x.id ≡ false
      absent = elim (Bool-cases (contains (ids_of (keep p xs)) x.id)) [
        | inl there ↦
            ground (arith, there, keep-Within p xs x.id there, contains-absent x.id xs u.0)
        | inr gone ↦ gone
      ]

      others :
          (ys : List (RawRow D))
          → All (λ (y : RawRow D). x.id ≢ y.id) ys
          → All (λ (r : RawRow D). contains (ids_of (keep p xs)) r.id ≡ p r) ys
          → All (λ (r : RawRow D). contains (ids_of (keep p (x ∷ xs))) r.id ≡ p r) ys
      others [] ne h = tt
      others (y ∷ ys) ne h = (ground (arith, ne.0, h.0), others ys ne.1 h.1)

  module _ (before : RawRow D → RawRow D → Bool) where
    contains-order_insert :
        (x : RawRow D) (xs : List (RawRow D)) (i : ℕ)
        → contains (ids_of (order_insert before x xs)) i ≡ contains (ids_of (x ∷ xs)) i
    unfolding order_insert ids_of
    contains-order_insert x [] i = refl
    contains-order_insert x (y ∷ ys) i = ground (arith, contains-order_insert x ys i)

    contains-order_by :
        (xs : List (RawRow D)) (i : ℕ)
        → contains (ids_of (order_by before xs)) i ≡ contains (ids_of xs) i
    unfolding order_by ids_of
    contains-order_by [] i = refl
    contains-order_by (x ∷ xs) i =
        ground (arith, contains-order_insert x (order_by before xs) i, contains-order_by xs i)

    pub order_by-Within : (xs : List (RawRow D)) → Within (order_by before xs) xs
    order_by-Within xs i h = rw (contains-order_by xs i) at h

    All-order_insert :
        (i : ℕ) (x : RawRow D) (ys : List (RawRow D))
        → i ≢ x.id
        → All (λ (y : RawRow D). i ≢ y.id) ys
        → All (λ (y : RawRow D). i ≢ y.id) (order_insert before x ys)
    unfolding order_insert
    All-order_insert i x [] ne h = (ne, tt)
    All-order_insert i x (y ∷ ys) ne h = elim (Bool-cases (before x y)) [
      | inl first ↦ rw first (ne, h)
      | inr later ↦ rw later (h.0, All-order_insert i x ys ne h.1)
    ]

    order_insert-UniqueIds :
        (x : RawRow D) (ys : List (RawRow D))
        → All (λ (y : RawRow D). x.id ≢ y.id) ys
        → UniqueIds ys
        → UniqueIds (order_insert before x ys)
    unfolding order_insert
    order_insert-UniqueIds x [] ne u = (tt, tt)
    order_insert-UniqueIds x (y ∷ ys) ne u = elim (Bool-cases (before x y)) [
      | inl first ↦ rw first (ne, u)
      | inr later ↦ rw later (
        All-order_insert y.id x ys (λ same. ne.0 (sym same)) u.0,
        order_insert-UniqueIds x ys ne.1 u.1,
      )
    ]

    All-order_by :
        (i : ℕ) (ys : List (RawRow D))
        → All (λ (y : RawRow D). i ≢ y.id) ys
        → All (λ (y : RawRow D). i ≢ y.id) (order_by before ys)
    unfolding order_by
    All-order_by i [] h = tt
    All-order_by i (y ∷ ys) h =
        All-order_insert i y (order_by before ys) h.0 (All-order_by i ys h.1)

    pub order_by-UniqueIds : (xs : List (RawRow D)) → UniqueIds xs → UniqueIds (order_by before xs)
    unfolding order_by
    order_by-UniqueIds [] u = tt
    order_by-UniqueIds (x ∷ xs) u =
        order_insert-UniqueIds x (order_by before xs) (All-order_by x.id xs u.0)
          (order_by-UniqueIds xs u.1)

    length-order_insert :
        (x : RawRow D) (ys : List (RawRow D)) → length (order_insert before x ys) ≡ suc (length ys)
    unfolding order_insert
    length-order_insert x [] = refl
    length-order_insert x (y ∷ ys) = ground (arith, length-order_insert x ys)

    pub length-order_by : (xs : List (RawRow D)) → length (order_by before xs) ≡ length xs
    unfolding order_by
    length-order_by [] = refl
    length-order_by (x ∷ xs) = rw (length-order_insert, length-order_by xs)

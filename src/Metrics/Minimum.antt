-- ===== src/Metrics/Minimum.antt =====
-- The minimum of ids, and which ids a selection of rows lists.
use glassops.Prelude.{
  ℕ, ◌≡◌, refl, Bool, true, false, not, ◌||◌, Option, none, some, List, [], ◌∷◌, ◌++◌, arith, leb,
  contains, keep, All, nat_eq, string_eq,
}
use glassops.Metrics.Tables.{RawRow}
use glassops.Prelude.Sorting.{order_by, order_insert}
use glassops.Metrics.Cleanup.{ids_of}
use glassops.Metrics.Downsample.{least, listed}

-- Whether a minimum is at most a number.
unfoldable pub reaches : Option ℕ → ℕ → Bool
reaches none i = false
reaches (some j) i = leb j i

pub reaches-least : (is : List ℕ) (i : ℕ) → contains is i ≡ true → reaches (least is) i ≡ true
unfolding least reaches
reaches-least [] i h = h
reaches-least (j ∷ is) i h = ground (arith, reaches-least is i)

pub reaches-append :
    (is js : List ℕ) (i : ℕ) → contains is i ≡ true → reaches (least (is ++ js)) i ≡ true
unfolding least reaches
reaches-append [] js i h = ground arith
reaches-append (j ∷ is) js i h = ground (arith, reaches-append is js i)

pub reaches-listed :
    (is : List ℕ) (o : Option ℕ) (i : ℕ)
    → reaches o i ≡ true
    → reaches (least (is ++ listed o)) i ≡ true
unfolding least reaches listed
reaches-listed [] none i h = h
reaches-listed [] (some j) i h = h
reaches-listed (j ∷ is) o i h = ground (arith, reaches-listed is o i h)

module _ {D : Type 0} where
  pub kept_listed :
      (p : RawRow D → Bool) (xs : List (RawRow D))
      → All (λ (r : RawRow D). (not (p r) || contains (ids_of (keep p xs)) r.id) ≡ true) xs
  unfolding ids_of
  kept_listed p [] = tt
  kept_listed p (x ∷ xs) = (ground arith, later xs (kept_listed p xs))
    where
      later :
          (ys : List (RawRow D))
          → All (λ (r : RawRow D). (not (p r) || contains (ids_of (keep p xs)) r.id) ≡ true) ys
          → All
              (λ (r : RawRow D). (not (p r) || contains (ids_of (keep p (x ∷ xs))) r.id) ≡ true)
              ys
      later [] h = tt
      later (y ∷ ys) h = (ground (arith, h.0), later ys h.1)

  module _ (q : RawRow D → Bool) (before : RawRow D → RawRow D → Bool) where
    contains-keep_insert :
        (x : RawRow D) (xs : List (RawRow D)) (i : ℕ)
        → contains (ids_of (keep q (order_insert before x xs))) i
          ≡ contains (ids_of (keep q (x ∷ xs))) i
    unfolding order_insert ids_of
    contains-keep_insert x [] i = refl
    contains-keep_insert x (y ∷ ys) i = ground (arith, contains-keep_insert x ys i)

    pub contains-keep_order :
        (xs : List (RawRow D)) (i : ℕ)
        → contains (ids_of (keep q (order_by before xs))) i ≡ contains (ids_of (keep q xs)) i
    unfolding order_by ids_of
    contains-keep_order [] i = refl
    contains-keep_order (x ∷ xs) i =
        ground (arith, contains-keep_insert x (order_by before xs) i, contains-keep_order xs i)

-- ===== src/Prelude/Sorting.antt =====
-- `ORDER BY` as a sort by insertion, of rows that a number tells apart, and keyset cursors in the
-- sorted list.
use Prim.Native.Nat.{ℕ}
use mathlib.Core.Path.{◌≡◌, refl}
use mathlib.Core.Logic.{◌≢◌, inl, inr}
use mathlib.Core.Bool.{Bool, true, false}
use mathlib.Core.List.{List, [], ◌∷◌, ◌++◌}
use native.Mathlib.Omega.{arith}
use package.glassops.Prelude.Tests.{if◌then◌else◌, Bool-cases}
use package.glassops.Prelude.Lists.{keep, All}

module _ {ℓ} {A : Type ℓ} (before : A → A → Bool) where
  unfoldable pub order_insert : A → List A → List A
  order_insert x [] = x ∷ []
  order_insert x (y ∷ ys) = if before x y then x ∷ y ∷ ys else y ∷ order_insert x ys

  unfoldable pub order_by : List A → List A
  unfolding order_insert
  order_by [] = []
  order_by (x ∷ xs) = order_insert x (order_by xs)

  -- A strict order, in which rows of different numbers are related.
  pub record IsOrder (number : A → ℕ) : Type ℓ where
    pub trans : (x y z : A) → before x y ≡ true → before y z ≡ true → before x z ≡ true
    pub total : (x y : A) → number x ≢ number y → before x y ≡ false → before y x ≡ true
    pub asym : (x y : A) → before x y ≡ true → before y x ≡ false

  -- Every row comes before all that follow it.
  abbrev pub Ordered : List A → Type 0
  Ordered [] = Unit
  Ordered (x ∷ xs) = All (λ y. before x y ≡ true) xs × Ordered xs

module _ {ℓ} {A : Type ℓ} (number : A → ℕ) where
  abbrev pub Distinct : List A → Type 0
  Distinct [] = Unit
  Distinct (x ∷ xs) = All (λ (y : A). number x ≢ number y) xs × Distinct xs

module _ {ℓ} {A : Type ℓ} where
  All-keep : (P : A → Type 0) (p : A → Bool) (xs : List A) → All P xs → All P (keep p xs)
  All-keep P p [] h = tt
  All-keep P p (x ∷ xs) h = elim (Bool-cases (p x)) [
    | inl kept ↦ rw kept (h.0, All-keep P p xs h.1)
    | inr out ↦ rw out (All-keep P p xs h.1)
  ]

  pub keep-Distinct :
      (number : A → ℕ) (p : A → Bool) (xs : List A)
      → Distinct number xs
      → Distinct number (keep p xs)
  keep-Distinct number p [] u = tt
  keep-Distinct number p (x ∷ xs) u = elim (Bool-cases (p x)) [
    | inl kept ↦
        rw kept (All-keep (λ (y : A). number x ≢ number y) p xs u.0, keep-Distinct number p xs u.1)
    | inr out ↦ rw out (keep-Distinct number p xs u.1)
  ]

  All-order_insert :
      (before : A → A → Bool) (P : A → Type 0) (x : A) (ys : List A)
      → P x
      → All P ys
      → All P (order_insert before x ys)
  unfolding order_insert
  All-order_insert before P x [] px h = (px, tt)
  All-order_insert before P x (y ∷ ys) px h = elim (Bool-cases (before x y)) [
    | inl first ↦ rw first (px, h)
    | inr later ↦ rw later (h.0, All-order_insert before P x ys px h.1)
  ]

  pub All-order_by :
      (before : A → A → Bool) (P : A → Type 0) (xs : List A) → All P xs → All P (order_by before xs)
  unfolding order_by
  All-order_by before P [] h = tt
  All-order_by before P (x ∷ xs) h =
      All-order_insert before P x (order_by before xs) h.0 (All-order_by before P xs h.1)

module _ {ℓ} {A : Type ℓ} {before : A → A → Bool} {number : A → ℕ} (o : IsOrder before number) where
  All-before :
      (x y : A) (zs : List A)
      → before x y ≡ true
      → All (λ z. before y z ≡ true) zs
      → All (λ z. before x z ≡ true) zs
  All-before x y [] p h = tt
  All-before x y (z ∷ zs) p h = (o.trans x y z p h.0, All-before x y zs p h.1)

  order_insert-Ordered :
      (x : A) (ys : List A)
      → All (λ (y : A). number x ≢ number y) ys
      → Ordered before ys
      → Ordered before (order_insert before x ys)
  unfolding order_insert
  order_insert-Ordered x [] ne h = (tt, tt)
  order_insert-Ordered x (y ∷ ys) ne h = elim (Bool-cases (before x y)) [
    | inl first ↦ rw first ((first, All-before x y ys first h.0), h)
    | inr later ↦ rw later (
      All-order_insert before (λ z. before y z ≡ true) x ys (o.total x y ne.0 later) h.0,
      order_insert-Ordered x ys ne.1 h.1,
    )
  ]

  pub order_by-Ordered : (xs : List A) → Distinct number xs → Ordered before (order_by before xs)
  unfolding order_by
  order_by-Ordered [] u = tt
  order_by-Ordered (x ∷ xs) u =
      order_insert-Ordered x (order_by before xs)
        (All-order_by before (λ (y : A). number x ≢ number y) xs u.0) (order_by-Ordered xs u.1)

  -- A row that comes before a whole list is inserted at its head.
  order_insert_first :
      (x : A) (ys : List A) → All (λ y. before x y ≡ true) ys → order_insert before x ys ≡ x ∷ ys
  unfolding order_insert
  order_insert_first x [] h = refl
  order_insert_first x (y ∷ ys) h = rw h.0 refl

  keep-order_insert :
      (p : A → Bool) (x : A) (ys : List A)
      → Ordered before ys
      → keep p (order_insert before x ys)
        ≡ (if p x then order_insert before x (keep p ys) else keep p ys)
  unfolding order_insert
  keep-order_insert p x [] h = refl
  keep-order_insert p x (y ∷ ys) h = elim (Bool-cases (before x y)) [
    | inl first ↦ ground (
      arith,
      first,
      order_insert_first x (keep p ys)
          (All-keep (λ z. before x z ≡ true) p ys (All-before x y ys first h.0)),
    )
    | inr later ↦ ground (arith, later, keep-order_insert p x ys h.1)
  ]

  -- Filtering before or after the sort is the same.
  pub order_by-keep :
      (p : A → Bool) (xs : List A)
      → Distinct number xs
      → order_by before (keep p xs) ≡ keep p (order_by before xs)
  unfolding order_by
  order_by-keep p [] u = refl
  order_by-keep p (x ∷ xs) u = ground (
    arith,
    order_by-keep p xs u.1,
    keep-order_insert p x (order_by before xs) (order_by-Ordered xs u.1),
  )

  after-first : (x : A) (ys : List A) → All (λ y. before x y ≡ true) ys → keep (before x) ys ≡ ys
  after-first x [] h = refl
  after-first x (y ∷ ys) h = rw (h.0, after-first x ys h.1)

  before_self : (x : A) → before x x ≡ false
  before_self x = elim (Bool-cases (before x x)) [ inl loop ↦ o.asym x x loop | inr apart ↦ apart ]

  -- What comes after the row that `done` ends with.
  pub keep-before :
      (done : List A) (x : A) (rest : List A)
      → Ordered before (done ++ (x ∷ rest))
      → keep (before x) (done ++ (x ∷ rest)) ≡ rest
  keep-before [] x rest h = rw (before_self x, after-first x rest h.0)
  keep-before (y ∷ done) x rest h =
      rw (o.asym y x (All-at done x rest h.0), keep-before done x rest h.1)
    where
      All-at :
          (ys : List A) (z : A) (zs : List A)
          → All (λ w. before y w ≡ true) (ys ++ (z ∷ zs))
          → before y z ≡ true
      All-at [] z zs a = a.0
      All-at (_ ∷ ys) z zs a = All-at ys z zs a.1

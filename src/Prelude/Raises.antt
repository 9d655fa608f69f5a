-- ===== src/Prelude/Raises.antt =====
-- Functions that may raise, with the exceptions as values.
use mathlib.Core.Path.{◌≡◌, refl}
use mathlib.Core.Logic.{◌⊎◌, inl, inr}
use mathlib.Core.Bool.{Bool, true, false}
use native.Mathlib.Omega.{arith}
use package.glassops.Prelude.Tests.{if◌then◌else◌}

pub data Raises {ℓ} (E : Type 0) (A : Type ℓ) : Type ℓ where
  ok : A → Raises E A
  err : E → Raises E A

-- Goes on only if nothing was raised.
infixl 5 ◌>>=◌ ◌>>◌
abbrev pub ◌>>=◌ {ℓ ℓ'} :
    {E : Type 0} {A : Type ℓ} {C : Type ℓ'} → Raises E A → (A → Raises E C) → Raises E C
r >>= next = elim r [ err raised ↦ err raised | ok a ↦ next a ]

abbrev pub ◌>>◌ {ℓ} : {E : Type 0} {C : Type ℓ} → Raises E (Unit {0}) → Raises E C → Raises E C
r >> next = r >>= λ _. next

-- `if not condition: raise e`
abbrev pub demand : {E : Type 0} → Bool → E → Raises E (Unit {0})
demand condition e = if condition then ok tt else err e

abbrev pub is_ok {ℓ} : {E : Type 0} {A : Type ℓ} → Raises E A → Bool
is_ok r = elim r [ err _ ↦ false | ok _ ↦ true ]

pub Result-cases {ℓ} :
    {E : Type 0} {A : Type ℓ} (r : Raises E A) → ((e : E) × (r ≡ err e)) ⊎ ((a : A) × (r ≡ ok a))
Result-cases (err raised) = inl (raised, refl)
Result-cases (ok a) = inr (a, refl)

-- What a chain with a result has for its first link.
pub first-of_ok {ℓ ℓ'} :
    {E : Type 0} {A : Type ℓ} {C : Type ℓ'} (r : Raises E A) (next : A → Raises E C) {c : C}
    → (r >>= next) ≡ ok c
    → (a : A) × (r ≡ ok a) × (next a ≡ ok c)
first-of_ok (err raised) next h = ground arith
first-of_ok (ok a) next h = (a, refl, h)

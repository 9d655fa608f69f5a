-- ===== src/Ingest/Bounds.antt =====
-- Values, addresses and lists after their cleaning.
use glassops.Prelude.{
  ℕ, ◌≤◌, ◌≡◌, refl, ◌⊎◌, inl, inr, String, Bool, true, false, Option, none, some, List, [], ◌∷◌,
  leb, if◌then◌else◌, length, All, arith, zero, suc,
}
use glassops.Prelude.Text.{is_empty, text_length, text_length-prefix}
use glassops.Json.{
  pos, negsuc, Json, null, bool, int, float, infinite, str, arr, obj, Items, no_items, item,
  first_items, text_of,
}
use glassops.Ingest.{int_within, clean_each, clean_list, capped, ip}

-- A value that is missing or at most `hi`.
abbrev pub at_most : ℕ → Option ℕ → Bool
at_most hi none = true
at_most hi (some n) = leb n hi

pub at_most-int_within : (lo hi : ℕ) (v : Json) → at_most hi (int_within lo hi v) ≡ true
unfolding int_within
at_most-int_within lo hi (int (pos n)) = ground arith
at_most-int_within lo hi (int (negsuc n)) = refl
at_most-int_within lo hi null = refl
at_most-int_within lo hi _ = refl

pub text_length-capped :
    (show : Json → String) (cap : ℕ) (v : Json) → text_length (capped show cap v) ≤ cap
unfolding capped text_length
text_length-capped show cap null = omega arith
text_length-capped show cap (str s) = text_length-prefix cap s
text_length-capped show cap (bool b) = text_length-prefix cap (show (bool b))
text_length-capped show cap (int v) = text_length-prefix cap (show (int v))
text_length-capped show cap (float q) = text_length-prefix cap (show (float q))
text_length-capped show cap infinite = text_length-prefix cap (show infinite)
text_length-capped show cap (arr items) = text_length-prefix cap (show (arr items))
text_length-capped show cap (obj entries) = text_length-prefix cap (show (obj entries))

-- An address is empty or what `ipaddress` makes of one.
abbrev pub IsAddress : (String → Option String) → String → Type 0
IsAddress canonical a = (a ≡ "") ⊎ ((x : String) × (canonical x ≡ some a))

pub ip-IsAddress :
    (canonical : String → Option String) (v : Json) → IsAddress canonical (ip canonical v)
unfolding ip
ip-IsAddress canonical v = by_empty (is_empty (text_of v))
  where
    by_answer :
        (o : Option String)
        → canonical (text_of v) ≡ o
        → IsAddress canonical (elim o [ none ↦ "" | some address ↦ address ])
    by_answer none e = inl refl
    by_answer (some a) e = inr (text_of v, e)

    by_empty :
        (b : Bool)
        → IsAddress canonical
            (if b then "" else elim (canonical (text_of v)) [ none ↦ "" | some address ↦ address ])
    by_empty true = inl refl
    by_empty false = by_answer (canonical (text_of v)) refl

length-first_items : (n : ℕ) (items : Items) → length (first_items n items) ≤ n
unfolding first_items
length-first_items zero items = omega arith
length-first_items (suc n) no_items = omega arith
length-first_items (suc n) (item v rest) = omega (arith, length-first_items n rest)

module _ {ℓ} {A : Type ℓ} (P : A → Type 0) where
  -- What is kept of one item, if it is, and of several.
  abbrev pub Kept : Option (Option A) → Type 0
  Kept none = Unit
  Kept (some none) = Unit
  Kept (some (some a)) = P a

  abbrev pub AllKept : ℕ → Option (List A) → Type 0
  AllKept n none = Unit
  AllKept n (some out) = All P out × (length out ≤ n)

  AllKept-step :
      (n : ℕ) (r : Option (Option A)) (later : Option (List A))
      → Kept r
      → AllKept n later
      → AllKept (suc n) (elim r [
        | none ↦ none
        | some none ↦ later
        | some (some a) ↦ elim later [ none ↦ none | some out ↦ some (a ∷ out) ]
      ])
  AllKept-step n none later p q = tt
  AllKept-step n (some none) none p q = tt
  AllKept-step n (some none) (some out) p q = (q.0, omega (arith, q.1))
  AllKept-step n (some (some a)) none p q = tt
  AllKept-step n (some (some a)) (some out) p q = ((p, q.0), omega (arith, q.1))

  clean_each-AllKept :
      (f : Json → Option (Option A)) (vs : List Json)
      → ((v : Json) → Kept (f v))
      → AllKept (length vs) (clean_each f vs)
  unfolding clean_each
  clean_each-AllKept f [] each = (tt, omega arith)
  clean_each-AllKept f (v ∷ vs) each =
      AllKept-step (length vs) (f v) (clean_each f vs) (each v) (clean_each-AllKept f vs each)

  AllKept-mono : (n k : ℕ) (o : Option (List A)) → n ≤ k → AllKept n o → AllKept k o
  AllKept-mono n k none le h = tt
  AllKept-mono n k (some out) le h = (h.0, omega (arith, h.1))

  pub clean_list-AllKept :
      (f : Json → Option (Option A)) (n : ℕ) (v : Json)
      → ((v : Json) → Kept (f v))
      → AllKept n (clean_list f n v)
  unfolding clean_list
  clean_list-AllKept f n (arr items) each =
      AllKept-mono (length (first_items n items)) n (clean_each f (first_items n items))
        (length-first_items n items) (clean_each-AllKept f (first_items n items) each)
  clean_list-AllKept f n null each = (tt, omega arith)
  clean_list-AllKept f n _ each = (tt, omega arith)

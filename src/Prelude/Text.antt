-- ===== src/Prelude/Text.antt =====
-- The methods of Python's `str` that the program uses, over the native texts.
use Prim.Native.Nat.{ℕ, zero, suc}
use Prim.Native.Char.{Char, code}
use Prim.Native.String.{String}
use mathlib.Core.Bool.{Bool, true, false, ◌&&◌, ◌||◌}
use mathlib.Core.List.{List, [], ◌∷◌}
use Prim.Native.Nat.{◌≤◌}
use mathlib.Core.Path.{◌≡◌, refl, ap}
use native.Mathlib.Omega.{arith}
use package.glassops.Prelude.Tests.{leb, if◌then◌else◌}
use package.glassops.Prelude.Equality.{◌==◌, nat_eq}

-- `str.isspace` of one character.
unfoldable pub is_space : ℕ → Bool
unfolding nat_eq
is_space c =
    leb 9 c && leb c 13
    || leb 28 c && leb c 32
    || leb 8192 c && leb c 8202
    || c == 133
    || c == 160
    || c == 5760
    || c == 8232
    || c == 8233
    || c == 8239
    || c == 8287
    || c == 12288

lstrip : String → String
unfolding is_space
lstrip String.[] = String.[]
lstrip (String.◌∷◌ c s) = let rest = lstrip s in if is_space (code c) then rest else String.◌∷◌ c s

-- A space goes if nothing is left behind it.
trim_onto : Char → String → String
unfolding is_space
trim_onto c String.[] = if is_space (code c) then "" else String.◌∷◌ c ""
trim_onto c (String.◌∷◌ d s) = String.◌∷◌ c (String.◌∷◌ d s)

rstrip : String → String
unfolding trim_onto
rstrip String.[] = ""
rstrip (String.◌∷◌ c s) = trim_onto c (rstrip s)

-- `s.strip()`
unfoldable pub strip : String → String
unfolding lstrip rstrip
strip s = rstrip (lstrip s)

onto_first : Char → List String → List String
onto_first c [] = String.◌∷◌ c "" ∷ []
onto_first c (s ∷ rest) = String.◌∷◌ c s ∷ rest

-- `s.split(sep)` at one character
unfoldable pub split : ℕ → String → List String
unfolding onto_first nat_eq
split sep String.[] = "" ∷ []
split sep (String.◌∷◌ c s) =
    let rest = split sep s in if code c == sep then "" ∷ rest else onto_first c rest

-- `s[n:]`
unfoldable pub skip : ℕ → String → String
skip zero s = s
skip (suc n) String.[] = ""
skip (suc n) (String.◌∷◌ c s) = skip n s

unfoldable pub is_empty : String → Bool
is_empty String.[] = true
is_empty (String.◌∷◌ c s) = false

-- `s[:n]`
unfoldable pub prefix : ℕ → String → String
prefix zero s = ""
prefix (suc n) String.[] = ""
prefix (suc n) (String.◌∷◌ c s) = String.◌∷◌ c (prefix n s)

-- `len(s)`
unfoldable pub text_length : String → ℕ
text_length String.[] = 0
text_length (String.◌∷◌ c s) = suc (text_length s)

pub text_length-prefix : (n : ℕ) (s : String) → text_length (prefix n s) ≤ n
unfolding prefix text_length
text_length-prefix zero s = omega arith
text_length-prefix (suc n) String.[] = omega arith
text_length-prefix (suc n) (String.◌∷◌ c s) = omega (arith, text_length-prefix n s)

pub prefix_short : (n : ℕ) (s : String) → text_length s ≤ n → prefix n s ≡ s
unfolding prefix text_length
prefix_short zero String.[] h = refl
prefix_short zero (String.◌∷◌ c s) h = absurd (omega arith)
prefix_short (suc n) String.[] h = refl
prefix_short (suc n) (String.◌∷◌ c s) h = ap (String.◌∷◌ c) (prefix_short n s (omega arith))

-- ===== src/Prelude/Text.antt =====
-- Equality of texts, Python's `==` on strings and `hmac.compare_digest`.
use Prim.Native.Nat.{ℕ}
use Prim.Native.Char.{Char, code}
use Prim.Native.String.{String, [], ◌∷◌, ◌++◌}
use text.Mathlib.Text.{◌==◌ as str_eq}
use text.Mathlib.TextEquality.{eq_iff}
use credit_iq_ai.Prelude.Tests.{leb, ◌==◌, if◌then◌else◌}
use mathlib.Core.Path.{◌≡◌}
use mathlib.Core.Logic.{◌↔◌}
use mathlib.Core.Bool.{Bool, true, false, ◌&&◌, ◌||◌}

unfoldable pub same : String → String → Bool
same a b = str_eq a b

pub same_iff : (a b : String) → (same a b ≡ true) ↔ (a ≡ b)
unfolding same
same_iff a b = eq_iff a b

abbrev between : ℕ → ℕ → ℕ → Bool
between low high n = leb low n && leb n high

abbrev space_code : ℕ → Bool
space_code n =
    between 9 13 n
    || between 28 32 n
    || n == 133
    || n == 160
    || n == 5760
    || between 8192 8202 n
    || between 8232 8233 n
    || n == 8239
    || n == 8287
    || n == 12288

-- The characters that `str.isspace` holds of.
abbrev is_space : Char → Bool
is_space c = space_code (code c)

abbrev lstrip : String → String
lstrip [] = []
lstrip (c ∷ s) = if is_space c then lstrip s else c ∷ s

abbrev is_empty : String → Bool
is_empty [] = true
is_empty (c ∷ s) = false

abbrev rstrip : String → String
rstrip [] = []
rstrip (c ∷ s) = let rest = rstrip s in if is_space c && is_empty rest then [] else c ∷ rest

-- `text.strip()`
unfoldable pub strip : String → String
strip s = rstrip (lstrip s)

-- Each run of white space as one space.
abbrev squeeze : Bool → String → String
squeeze after_space [] = []
squeeze after_space (c ∷ s) =
    if is_space c
    then (if after_space then squeeze true s else " " ++ squeeze true s)
    else c ∷ squeeze false s

-- `" ".join(text.split())`
unfoldable pub join_words : String → String
join_words s = rstrip (lstrip (squeeze false s))

-- Python's order of texts, by code points.
abbrev pub text_leb : String → String → Bool
text_leb [] t = true
text_leb (c ∷ s) [] = false
text_leb (c ∷ s) (d ∷ t) =
    let rest = text_leb s t in if code c == code d then rest else leb (code c) (code d)

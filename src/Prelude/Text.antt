-- ===== src/Prelude/Text.antt =====
-- Texts: whole texts are compared and joined as native strings, and searched as lists of code
-- points. `concat` and `show` stand for `format!`.
use Prim.Native.Char.{code}
use Prim.Native.Nat.{ℕ, zero, suc, ◌/◌, ◌%◌}
use Prim.Native.String.{String, ◌++◌}
use mathlib.Core.Path.{◌≡◌}
use mathlib.Core.Logic.{◌↔◌}
use mathlib.Core.Bool.{Bool, true, false, ◌&&◌, ◌||◌}
use mathlib.Core.List.{List, [], ◌∷◌}
use native.Mathlib.Omega.{arith}
use text.Mathlib.Text.{◌==◌ as text_eq}
use text.Mathlib.TextEquality.{eq_iff}
use text.Mathlib.TextPositions.{eq_refl}
use secureops.Prelude.Tests.{◌==◌, ltb, leb, if◌then◌else◌}

abbrev pub str_eq : String → String → Bool
str_eq a b = text_eq a b

pub str_eq_iff : (a b : String) → (str_eq a b ≡ true) ↔ (a ≡ b)
str_eq_iff a b = eq_iff a b

pub str_eq_refl : (a : String) → str_eq a a ≡ true
str_eq_refl a = eq_refl a

unfoldable pub concat : List String → String
concat [] = ""
concat (s ∷ ss) = ◌++◌ s (concat ss)

digit : ℕ → String
digit zero = "0"
digit (suc zero) = "1"
digit (suc (suc zero)) = "2"
digit (suc (suc (suc zero))) = "3"
digit (suc (suc (suc (suc zero)))) = "4"
digit (suc (suc (suc (suc (suc zero))))) = "5"
digit (suc (suc (suc (suc (suc (suc zero)))))) = "6"
digit (suc (suc (suc (suc (suc (suc (suc zero))))))) = "7"
digit (suc (suc (suc (suc (suc (suc (suc (suc zero)))))))) = "8"
digit _ = "9"

-- A number has at most as many decimal digits as its value plus one.
show_digits : ℕ → ℕ → String → String
unfolding digit
show_digits zero n acc = acc
show_digits (suc fuel) n acc =
    let here = ◌++◌ (digit (n % 10)) acc in
    let rest = show_digits fuel (n / 10) here in if ltb n 10 then here else rest

unfoldable pub show : ℕ → String
unfolding show_digits
show n = show_digits (suc n) n ""

-- `pieces.join(separator)`
unfoldable pub join : String → List String → String
join separator [] = ""
join separator (s ∷ []) = s
join separator (s ∷ t ∷ rest) = ◌++◌ s (◌++◌ separator (join separator (t ∷ rest)))

-- `char::is_whitespace`, of a code point: Unicode's White_Space.
abbrev pub is_space : ℕ → Bool
is_space n =
    leb 9 n && leb n 13
    || n == 32
    || n == 0x85
    || n == 0xA0
    || n == 0x1680
    || leb 0x2000 n && leb n 0x200A
    || n == 0x2028
    || n == 0x2029
    || n == 0x202F
    || n == 0x205F
    || n == 0x3000

-- `trim_start`, and the rest of `trim`
abbrev pub trim_start : List ℕ → List ℕ
trim_start [] = []
trim_start (a ∷ s) = let rest = trim_start s in if is_space a then rest else a ∷ s

abbrev with_kept : ℕ → List ℕ → List ℕ
with_kept a [] = if is_space a then [] else a ∷ []
with_kept a (b ∷ s) = a ∷ b ∷ s

abbrev pub trim_end : List ℕ → List ℕ
trim_end [] = []
trim_end (a ∷ s) = with_kept a (trim_end s)

unfoldable pub trim : List ℕ → List ℕ
trim s = trim_end (trim_start s)

abbrev pub codes : String → List ℕ
codes String.[] = []
codes (String.◌∷◌ c s) = code c ∷ codes s

-- `s.starts_with(p)` over code points, the pattern second.
abbrev pub starts_with : List ℕ → List ℕ → Bool
starts_with s [] = true
starts_with [] (b ∷ p) = false
starts_with (a ∷ s) (b ∷ p) = a == b && starts_with s p

-- `s.contains(p)`
abbrev pub contains : List ℕ → List ℕ → Bool
contains [] p = starts_with [] p
contains (a ∷ s) p = starts_with (a ∷ s) p || contains s p

-- `==` on texts as code points.
abbrev pub same : List ℕ → List ℕ → Bool
same [] [] = true
same (a ∷ s) (b ∷ p) = a == b && same s p
same _ _ = false

pub same_iff : (s p : List ℕ) → (same s p ≡ true) ↔ (s ≡ p)
same_iff [] [] = ground arith
same_iff [] (b ∷ p) = ground arith
same_iff (a ∷ s) [] = ground arith
same_iff (a ∷ s) (b ∷ p) = ground (arith, same_iff s p)

pub same_refl : (s : List ℕ) → same s s ≡ true
same_refl [] = ground arith
same_refl (a ∷ s) = ground (arith, same_refl s)

-- `s.ends_with(p)`
abbrev pub ends_with : List ℕ → List ℕ → Bool
ends_with [] p = same [] p
ends_with (a ∷ s) p = same (a ∷ s) p || ends_with s p

abbrev onto_first : String → List String → List String
onto_first c [] = c ∷ []
onto_first c (piece ∷ pieces) = ◌++◌ c piece ∷ pieces

-- `text.split(separator)`, for the code point of a separator.
unfoldable pub split : ℕ → String → List String
split separator String.[] = "" ∷ []
split separator (String.◌∷◌ c s) =
    let rest = split separator s in
    if code c == separator then "" ∷ rest else onto_first (String.◌∷◌ c "") rest

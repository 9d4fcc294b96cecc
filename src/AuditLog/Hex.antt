-- ===== src/AuditLog/Hex.antt =====
-- crates/secureops-auditlog/src/lib.rs: `to_hex` and `from_hex`. A text is the list of its code
-- points; `from_hex` is read on texts of ASCII characters, where a slice of two bytes is one of two
-- characters.
use secureops.Prelude.{
  ℕ, ◌+◌, ◌-◌, ◌*◌, ◌/◌, ◌%◌, ◌<◌, ◌≡◌, refl, true, ◌&&◌, Option, none, some, List, [], ◌∷◌, arith,
  ltb, leb, ◌==◌, length, All, if◌then◌else◌,
}

pub hex_digit : ℕ → ℕ
hex_digit d = if ltb d 10 then 48 + d else 87 + d

-- `format!("{:02x}", b)` of each byte
unfoldable pub to_hex : List ℕ → List ℕ
unfolding hex_digit
to_hex [] = []
to_hex (b ∷ bytes) = hex_digit (b / 16) ∷ hex_digit (b % 16) ∷ to_hex bytes

pub digit_value : ℕ → Option ℕ
digit_value c =
    if leb 48 c && leb c 57
    then some (c - 48)
    else if leb 97 c && leb c 102
    then some (c - 87)
    else if leb 65 c && leb c 70
    then some (c - 55)
    else none

abbrev two_digits : Option ℕ → Option ℕ → Option ℕ
two_digits (some x) (some y) = some (16 * x + y)
two_digits _ _ = none

-- `u8::from_str_radix` on two characters: a leading plus sign is allowed.
pub from_str_radix : ℕ → ℕ → Option ℕ
unfolding digit_value
from_str_radix a b = if a == 43 then digit_value b else two_digits (digit_value a) (digit_value b)

abbrev prepend : Option ℕ → Option (List ℕ) → Option (List ℕ)
prepend (some b) (some bytes) = some (b ∷ bytes)
prepend _ _ = none

pub from_pairs : List ℕ → Option (List ℕ)
unfolding from_str_radix
from_pairs [] = some []
from_pairs (a ∷ []) = none
from_pairs (a ∷ b ∷ rest) = prepend (from_str_radix a b) (from_pairs rest)

unfoldable pub from_hex : List ℕ → Option (List ℕ)
unfolding from_pairs
from_hex s = if length s % 2 == 0 then from_pairs s else none

abbrev pub Bytes : List ℕ → Type 0
Bytes = All (λ (b : ℕ). b < 256)

digit_value-hex_digit : (d : ℕ) → d < 16 → digit_value (hex_digit d) ≡ some d
unfolding digit_value hex_digit
digit_value-hex_digit d h = ground arith

from_str_radix-hex_digit :
    (b : ℕ) → b < 256 → from_str_radix (hex_digit (b / 16)) (hex_digit (b % 16)) ≡ some b
unfolding from_str_radix hex_digit digit_value
from_str_radix-hex_digit b h = ground arith

pub length-to_hex : (bytes : List ℕ) → length (to_hex bytes) ≡ 2 * length bytes
unfolding to_hex
length-to_hex [] = refl
length-to_hex (b ∷ bytes) = omega (arith, length-to_hex bytes)

from_pairs-to_hex : (bytes : List ℕ) → Bytes bytes → from_pairs (to_hex bytes) ≡ some bytes
unfolding from_pairs to_hex
from_pairs-to_hex [] h = refl
from_pairs-to_hex (b ∷ bytes) h =
    rw (from_str_radix-hex_digit b h.0, from_pairs-to_hex bytes h.1) refl

even : (n : ℕ) → (2 * n % 2 == 0) ≡ true
even n = ground arith

-- The hexadecimal text of bytes reads back as the same bytes.
pub from_hex-to_hex : (bytes : List ℕ) → Bytes bytes → from_hex (to_hex bytes) ≡ some bytes
unfolding from_hex
from_hex-to_hex bytes h = rw (length-to_hex bytes, even (length bytes)) (from_pairs-to_hex bytes h)

-- So two lists of bytes with one hexadecimal text are equal.
pub to_hex-cancel : (a b : List ℕ) → Bytes a → Bytes b → to_hex a ≡ to_hex b → a ≡ b
to_hex-cancel a b h k e = cc (from_hex-to_hex a h, from_hex-to_hex b k, e)

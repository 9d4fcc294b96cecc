-- ===== src/Core/Util.antt =====
-- crates/secureops-core/src/util.rs: `basename` and the permission test; and `{:o}` of a number.
use Prim.Native.Char.{code}
use Prim.Native.Nat.{bit_and}
use Prim.Native.String
use secureops.Prelude.{
  ℕ, zero, suc, ◌/◌, ◌%◌, Bool, not, ◌&&◌, String, ◌==◌, ltb, show, str_eq, if◌then◌else◌,
}

-- `trim_end_matches('/')`
unfoldable pub trim_slashes : String → String
trim_slashes String.[] = ""
trim_slashes (String.◌∷◌ c s) =
    let rest = trim_slashes s in if code c == 47 && str_eq rest "" then "" else String.◌∷◌ c rest

-- The part after the last slash, where `whole` is the part after the last one so far.
unfoldable pub last_part : String → String → String
last_part whole String.[] = whole
last_part whole (String.◌∷◌ c s) =
    let start = if code c == 47 then s else whole in last_part start s

unfoldable pub basename : String → String
unfolding trim_slashes last_part
basename p = let trimmed = trim_slashes p in last_part trimmed trimmed

-- `mode & 0o077 != 0`
unfoldable pub is_group_or_other_accessible : ℕ → Bool
is_group_or_other_accessible mode = not (bit_and mode 63 == 0)

-- A number has at most as many octal digits as its value plus one.
octal_digits : ℕ → ℕ → String → String
octal_digits zero n acc = acc
octal_digits (suc fuel) n acc =
    let here = String.◌++◌ (show (n % 8)) acc in
    let rest = octal_digits fuel (n / 8) here in if ltb n 8 then here else rest

unfoldable pub show_octal : ℕ → String
unfolding octal_digits
show_octal n = octal_digits (suc n) n ""

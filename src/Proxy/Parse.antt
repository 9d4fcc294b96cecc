-- ===== src/Proxy/Parse.antt =====
-- crates/secureops-proxy/src/lib.rs: `parse_connect_target` and the std functions on text that the
-- request line is read with. A text is the list of its code points.
pub mod Target
use secureops.Prelude.{
  ℕ, suc, ◌+◌, ◌-◌, ◌*◌, Bool, true, false, ◌&&◌, ◌||◌, Option, none, some, List, [], ◌∷◌, leb, ltb,
  ◌==◌, is_space, if◌then◌else◌,
}

abbrev pub Text : Type 0
Text = List ℕ

abbrev flush : Text → List Text → List Text
flush [] rest = rest
flush (c ∷ word) rest = (c ∷ word) ∷ rest

-- The word at the front, and the words after the blank that ends it.
abbrev grow : ℕ → Text × List Text → Text × List Text
grow c (word, rest) = (c ∷ word, rest)

abbrev cut : Text × List Text → Text × List Text
cut (word, rest) = ([], flush word rest)

pub words_from : Text → Text × List Text
words_from [] = ([], [])
words_from (c ∷ s) = if is_space c then cut (words_from s) else grow c (words_from s)

unfoldable pub split_whitespace : Text → List Text
unfolding words_from
split_whitespace s = let (word, rest) = words_from s in flush word rest

abbrev after_return : ℕ → Text → Text → Text
after_return c [] rest = c ∷ rest
after_return c (d ∷ s) rest = if c == 13 && d == 10 then [] else c ∷ rest

-- `lines().next().unwrap_or("")`: a carriage return is dropped only before a newline.
unfoldable pub first_line : Text → Text
first_line [] = []
first_line (c ∷ s) = let rest = first_line s in if c == 10 then [] else after_return c s rest

abbrev with_left : ℕ → Option (Text × Text) → Option (Text × Text)
with_left c none = none
with_left c (some (left, right)) = some (c ∷ left, right)

abbrev or_here : ℕ → Text → Option (Text × Text) → Option (Text × Text)
or_here c s (some (left, right)) = some (c ∷ left, right)
or_here c s none = if c == 58 then some ([], s) else none

-- `rsplit_once(':')`
unfoldable pub rsplit_once : Text → Option (Text × Text)
rsplit_once [] = none
rsplit_once (c ∷ s) = or_here c s (rsplit_once s)

abbrev is_digit : ℕ → Bool
is_digit c = leb 48 c && leb c 57

-- Decimal digits after the value `n`; a value above 65535 is an overflow.
unfoldable pub digits : ℕ → Text → Option ℕ
digits n [] = some n
digits n (c ∷ s) =
    let next = 10 * n + (c - 48) in
    let rest = digits next s in if is_digit c && leb next 65535 then rest else none

abbrev unsigned : Text → Option ℕ
unfolding digits
unsigned [] = none
unsigned (c ∷ s) = digits 0 (c ∷ s)

-- `str::parse::<u16>`: one leading plus sign is allowed.
unfoldable pub parse_u16 : Text → Option ℕ
unfolding digits
parse_u16 [] = none
parse_u16 (c ∷ s) = if c == 43 then unsigned s else unsigned (c ∷ s)

abbrev with_host : Text → Option ℕ → Option (Text × ℕ)
with_host host none = none
with_host host (some port) = some (host, port)

abbrev of_split : Text → Option (Text × Text) → Option (Text × ℕ)
of_split target none = some (target, 443)
of_split target (some (host, port)) = with_host host (parse_u16 port)

unfoldable pub parse_connect_target : Text → Option (Text × ℕ)
unfolding rsplit_once parse_u16
parse_connect_target target = of_split target (rsplit_once target)

-- ===== src/Budget/Tests.antt =====
-- Runs of the tokenbudget crate's tests, and instances of the theorems.
use secureops.Prelude.{ℕ, ◌*◌, ◌≡◌, refl, some, List, [], ◌∷◌, arith, ltb, ◌==◌, if◌then◌else◌}
use secureops.Budget.Pack.{
  Base, Order, less, equal, greater, finding, Evidence, TokenBudget, available, pack,
  estimate_tokens,
}
use secureops.Budget.Pack.Fits.{IsPacked, tokens, pack-IsPacked}

abbrev compare_nat : ℕ → ℕ → Order
compare_nat a b = if ltb a b then less else if a == b then equal else greater

-- Fractions by numerator and denominator, and numbers as ids.
abbrev base : Base
base = record {
  Float = ℕ × ℕ;
  of_usize = λ n. (n, 1);
  div = λ x y. (x.0 * y.1, x.1 * y.0);
  partial_cmp = λ x y. some (compare_nat (x.0 * y.1) (y.0 * x.1));
  clamp = λ x. x;
  Uuid = ℕ;
  cmp = compare_nat;
}

abbrev piece : ℕ → ℕ → ℕ → Evidence base
piece id relevance cost = record {
  id = id;
  kind = finding;
  raw = "";
  relevance = (relevance, 10);
  est_tokens = cost;
}

abbrev items : List (Evidence base)
items = piece 1 9 90 ∷ piece 2 5 10 ∷ piece 3 8 100 ∷ []

abbrev window : TokenBudget base
window = record { model = "m"; window = 150; reserved_output = 40 }

-- The densest pieces come first, and the one that does not fit is dropped.
pack_test :
    ((pack base window items).included ≡ piece 2 5 10 ∷ piece 1 9 90 ∷ [])
    × ((pack base window items).dropped ≡ piece 3 8 100 ∷ [])
    × ((pack base window items).used_tokens ≡ 100)
unfolding pack
pack_test = (refl, refl, refl)

pack-IsPacked_example :
    IsPacked base (available base window) (tokens base items) (pack base window items)
pack-IsPacked_example = pack-IsPacked base window items (omega arith)

estimate_test : estimate_tokens "abcde" ≡ 2
unfolding estimate_tokens
estimate_test = refl

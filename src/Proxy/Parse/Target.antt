-- ===== src/Proxy/Parse/Target.antt =====
-- Round trip: a host and a port, written with a colon between them.
use secureops.Prelude.{
  ℕ, zero, suc, ◌+◌, ◌-◌, ◌*◌, ◌/◌, ◌%◌, ◌≤◌, ◌<◌, ◌≡◌, inl, inr, refl, ap, ◌∙◌, true, false,
  Bool-cases, ◌&&◌, none, some, [], ◌∷◌, ◌++◌, arith, All, leb, ltb, ◌==◌, if◌then◌else◌,
}
use secureops.Proxy.Parse.{Text, rsplit_once, digits, parse_u16, parse_connect_target}

-- The decimal digits of a number below ten to the `fuel`, the most significant first, before `acc`.
pub decimal_from : ℕ → ℕ → Text → Text
decimal_from zero n acc = acc
decimal_from (suc fuel) n acc =
    let here = (48 + n % 10) ∷ acc in
    let rest = decimal_from fuel (n / 10) here in if ltb n 10 then here else rest

-- A port in decimal; it has at most five digits.
unfoldable pub decimal : ℕ → Text
unfolding decimal_from
decimal n = decimal_from 5 n []

-- No colon in a text.
abbrev NoColon : Text → Type 0
NoColon = All (λ c. (c == 58) ≡ false)

rsplit_once-none : (s : Text) → NoColon s → rsplit_once s ≡ none
unfolding rsplit_once
rsplit_once-none [] n = refl
rsplit_once-none (c ∷ s) n = rw (rsplit_once-none s n.1, n.0) refl

rsplit_once-colon :
    (host port : Text) → NoColon port → rsplit_once (host ++ 58 ∷ port) ≡ some (host, port)
unfolding rsplit_once
rsplit_once-colon [] port n = rw (rsplit_once-none port n) refl
rsplit_once-colon (c ∷ host) port n = rw (rsplit_once-colon host port n) refl

digit-NoColon : (n : ℕ) → (48 + n % 10 == 58) ≡ false
digit-NoColon n = ground arith

decimal_from-NoColon : (fuel n : ℕ) (acc : Text) → NoColon acc → NoColon (decimal_from fuel n acc)
unfolding decimal_from
decimal_from-NoColon zero n acc a = a
decimal_from-NoColon (suc fuel) n acc a = elim (Bool-cases (ltb n 10)) [
  | inl small ↦ rw small (digit-NoColon n, a)
  | inr big ↦ rw big (decimal_from-NoColon fuel (n / 10) _ (digit-NoColon n, a))
]

-- Ten to the `fuel`.
power : ℕ → ℕ
power zero = 1
power (suc fuel) = 10 * power fuel

-- One digit more of a number that fits.
digits-digit :
    (n d : ℕ) (acc : Text)
    → d < 10
    → 10 * n + d ≤ 65535
    → digits n ((48 + d) ∷ acc) ≡ digits (10 * n + d) acc
unfolding digits
digits-digit n d acc small b = rw (value, is_one, fits) refl
  where
    value : (48 + d) - 48 ≡ d
    value = omega arith

    is_one : (leb 48 (48 + d) && leb (48 + d) 57) ≡ true
    is_one = ground (arith, small)

    fits : leb (10 * n + d) 65535 ≡ true
    fits = ground (arith, b)

rejoin : (n : ℕ) → 10 * (n / 10) + n % 10 ≡ n
rejoin n = omega arith

digits-decimal_from :
    (fuel n : ℕ) (acc : Text)
    → n < power (suc fuel)
    → n ≤ 65535
    → digits 0 (decimal_from (suc fuel) n acc) ≡ digits n acc
unfolding decimal_from power
digits-decimal_from zero n acc b c = rw (small n (omega (arith, b))) (
    digits-digit 0 (n % 10) acc (omega arith) (omega arith)
    ∙ ap (λ k. digits k acc) (omega (arith, b)))
  where
    small : (n : ℕ) → n < 10 → ltb n 10 ≡ true
    small n b = ground (arith, b)
digits-decimal_from (suc fuel) n acc b c = elim (Bool-cases (ltb n 10)) [
  | inl small ↦ rw small (
      digits-digit 0 (n % 10) acc (omega arith) (omega arith)
      ∙ ap (λ k. digits k acc) (ground (arith, small)))
  | inr big ↦ rw big (
      digits-decimal_from fuel (n / 10) ((48 + n % 10) ∷ acc) (omega (arith, b)) (omega (arith, c))
      ∙ digits-digit (n / 10) (n % 10) acc (omega arith) (omega (arith, c))
      ∙ ap (λ k. digits k acc) (rejoin n))
]

-- A text of digits does not start with a plus sign.
decimal_from-first :
    (fuel n : ℕ) (acc : Text)
    → (c : ℕ) × (s : Text) × (decimal_from (suc fuel) n acc ≡ c ∷ s) × ((c == 43) ≡ false)
unfolding decimal_from
decimal_from-first zero n acc = (48 + n % 10, acc, ground arith, ground arith)
decimal_from-first (suc fuel) n acc = elim (Bool-cases (ltb n 10)) [
  | inl small ↦ rw small (48 + n % 10, acc, refl, ground arith)
  | inr big ↦ rw big (decimal_from-first fuel (n / 10) ((48 + n % 10) ∷ acc))
]

parse_u16-digits :
    (s : Text)
    → (c : ℕ) × (rest : Text) × (s ≡ c ∷ rest) × ((c == 43) ≡ false)
    → parse_u16 s ≡ digits 0 s
unfolding parse_u16
parse_u16-digits s (c, rest, e, plain) = rw (e, plain) refl

parse_u16-decimal : (port : ℕ) → port ≤ 65535 → parse_u16 (decimal port) ≡ some port
unfolding decimal power digits
parse_u16-decimal port b =
    parse_u16-digits (decimal_from 5 port []) (decimal_from-first 4 port [])
    ∙ digits-decimal_from 4 port [] (fits port b) b
    ∙ none_left port
  where
    fits : (port : ℕ) → port ≤ 65535 → port < power 5
    fits port b = omega (arith, b)

    none_left : (port : ℕ) → digits port [] ≡ some port
    none_left port = refl

-- A host, a colon and a port of 16 bits in decimal parse back as the host and the port, whatever
-- characters the host has: the last colon splits them, so that an IPv6 address is kept whole.
pub parse_connect_target-decimal :
    (host : Text) (port : ℕ)
    → port ≤ 65535
    → parse_connect_target (host ++ 58 ∷ decimal port) ≡ some (host, port)
unfolding parse_connect_target decimal
parse_connect_target-decimal host port b =
    rw
      (
        rsplit_once-colon host (decimal port) (decimal_from-NoColon 5 port [] tt),
        parse_u16-decimal port b,
      )
      refl

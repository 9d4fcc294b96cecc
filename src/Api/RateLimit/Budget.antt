-- ===== src/Api/RateLimit/Budget.antt =====
-- crates/secureops-api/src/ratelimit.rs: `RateLimiter::allow` over a run of calls.
use secureops.Prelude.{
  ℕ, suc, ◌+◌, ◌-◌, ◌≤◌, ◌<◌, ◌≡◌, inl, inr, refl, sym, ap, ◌∙◌, subst, Bool, true, false,
  Bool-cases, ◌&&◌, Option, some, List, [], ◌∷◌, String, str_eq, str_eq_iff, str_eq_refl, arith,
  length, ltb, leb, if◌then◌else◌,
}
use secureops.Prelude.Map
use secureops.Prelude.Map.{String-Key}
use secureops.Api.RateLimit.{Window, RateLimiter, is_live, cleaned, current, hit, within, allow}

-- One call of `allow`: the key, the limit and the time.
abbrev pub Call : Type 0
Call = String × ℕ × ℕ

-- The calls of a key that are let through, of a run of calls.
pub passed : String → List Call → RateLimiter → ℕ
passed key [] l = 0
passed key ((k, limit, now) ∷ calls) l =
    let (good, l') = allow k limit now l in
    let rest = passed key calls l' in if str_eq k key && good then suc rest else rest

cleaned-get :
    (now start count : ℕ) (key : String) (l : RateLimiter)
    → Map.IsUnique l.windows
    → now < start + l.window_secs
    → Map.get key l.windows ≡ some (start, count)
    → Map.get key (cleaned now l) ≡ some (start, count)
unfolding cleaned
cleaned-get now start count key l u b g = elim (Bool-cases (ltb 100000 (length l.windows))) [
  | inl many ↦
      rw many
        (Map.get-retain (is_live l.window_secs now) key l.windows u ∙ rw g (ground (arith, b)))
  | inr few ↦ rw few g
]

cleaned-IsUnique :
    (now : ℕ) (l : RateLimiter) → Map.IsUnique l.windows → Map.IsUnique (cleaned now l)
unfolding cleaned
cleaned-IsUnique now l u = elim (Bool-cases (ltb 100000 (length l.windows))) [
  | inl many ↦ rw many (Map.retain-IsUnique _ _ u)
  | inr few ↦ rw few u
]

allow-IsUnique :
    (key : String) (limit now : ℕ) (l : RateLimiter)
    → Map.IsUnique l.windows
    → Map.IsUnique (allow key limit now l).1.windows
unfolding allow
allow-IsUnique key limit now l u = Map.insert-IsUnique key _ _ (cleaned-IsUnique now l u)

hit-current :
    (window now start count : ℕ)
    → now < start + window
    → count + 1 < 4294967296
    → hit (current window now (some (start, count))) ≡ (start, count + 1)
unfolding current
hit-current window now start count b c = ground (arith, b, c)

-- The entry that a call in the window of its key puts.
entry-next :
    (key : String) (now start count : ℕ) (l : RateLimiter)
    → Map.IsUnique l.windows
    → now < start + l.window_secs
    → count + 1 < 4294967296
    → Map.get key l.windows ≡ some (start, count)
    → hit (current l.window_secs now (Map.get key (cleaned now l))) ≡ (start, count + 1)
entry-next key now start count l u b c g =
    ap (λ (o : Option Window). hit (current l.window_secs now o))
      (cleaned-get now start count key l u b g)
    ∙ hit-current l.window_secs now start count b c

-- A call within the window of its key counts one up, and is let through while the count is within
-- the limit.
allow-same :
    (key : String) (limit now start count : ℕ) (l : RateLimiter)
    → Map.IsUnique l.windows
    → now < start + l.window_secs
    → count + 1 < 4294967296
    → Map.get key l.windows ≡ some (start, count)
    → ((allow key limit now l).0 ≡ leb (count + 1) limit)
      × (Map.get key (allow key limit now l).1.windows ≡ some (start, count + 1))
unfolding allow
allow-same key limit now start count l u b c g =
    let entry = entry-next key now start count l u b c g in
    (
      ap (within limit) entry,
      Map.get-insert key key _ (cleaned now l) ∙ rw (str_eq_refl key) (ap some entry),
    )

-- A call of another key leaves the entry as it is.
allow-other :
    (k key : String) (limit now start count : ℕ) (l : RateLimiter)
    → Map.IsUnique l.windows
    → now < start + l.window_secs
    → str_eq k key ≡ false
    → Map.get key l.windows ≡ some (start, count)
    → Map.get key (allow k limit now l).1.windows ≡ some (start, count)
unfolding allow
allow-other k key limit now start count l u b ne g =
    Map.get-insert k key _ (cleaned now l) ∙ rw ne (cleaned-get now start count key l u b g)

-- The limit of a key's calls, and the times, all before the end of the window.
abbrev pub InWindow : String → ℕ → ℕ → List Call → Type 0
InWindow key limit end [] = Unit
InWindow key limit end ((k, n, now) ∷ calls) =
    ((str_eq k key ≡ true → n ≡ limit) × (now < end)) × InWindow key limit end calls

allow-window :
    (key : String) (limit now : ℕ) (l : RateLimiter)
    → (allow key limit now l).1.window_secs ≡ l.window_secs
unfolding allow
allow-window key limit now l = refl

-- What a call in the window of its key does, the key being given with an equation.
allow-equal :
    (k key : String) (limit now start count : ℕ) (l : RateLimiter)
    → k ≡ key
    → Map.IsUnique l.windows
    → now < start + l.window_secs
    → count + 1 < 4294967296
    → Map.get key l.windows ≡ some (start, count)
    → ((allow k limit now l).0 ≡ leb (count + 1) limit)
      × (Map.get key (allow k limit now l).1.windows ≡ some (start, count + 1))
allow-equal k key limit now start count l e u b c g =
    subst
      (λ x.
        ((allow x limit now l).0 ≡ leb (count + 1) limit)
        × (Map.get key (allow x limit now l).1.windows ≡ some (start, count + 1)))
      (sym e) (allow-same key limit now start count l u b c g)

passed-step :
    (key k : String) (limit n count rest : ℕ) (good : Bool)
    → good ≡ leb (count + 1) n
    → n ≡ limit
    → rest ≤ limit - (count + 1)
    → (if str_eq k key && good then suc rest else rest) ≤ limit - count
passed-step key k limit n count rest good g e r = ground (arith, g, e, r)

-- Within the window of a key that has counted `count` requests, at most as many more are let through
-- as the limit has left, whatever other keys ask in between and whenever the map is cleaned up. It
-- asks that the u32 does not overflow.
pub passed-le :
    (key : String) (limit start end count : ℕ) (calls : List Call) (l : RateLimiter)
    → Map.IsUnique l.windows
    → Map.get key l.windows ≡ some (start, count)
    → end ≡ start + l.window_secs
    → InWindow key limit end calls
    → count + length calls < 4294967296
    → passed key calls l ≤ limit - count
unfolding passed
passed-le key limit start end count [] l u g e w c = omega arith
passed-le key limit start end count ((k, n, now) ∷ calls) l u g e w c =
    elim (Bool-cases (str_eq k key)) [
      | inl same ↦
          let (good, next) =
            allow-equal k key n now start count l (ground (arith, same, str_eq_iff k key)) u
              (omega (arith, (w.0).1, e)) (omega (arith, c)) g in
          passed-step key k limit n count _ _ good ((w.0).0 same) (
            passed-le key limit start end (count + 1) calls (allow k n now l).1
              (allow-IsUnique k n now l u) next (later k n now) w.1 (omega (arith, c)))
      | inr other ↦ rw other (
          passed-le key limit start end count calls (allow k n now l).1 (allow-IsUnique k n now l u)
            (allow-other k key n now start count l u (omega (arith, (w.0).1, e)) other g)
            (later k n now) w.1 (omega (arith, c)))
    ]
  where
    later : (k : String) (n now : ℕ) → end ≡ start + (allow k n now l).1.window_secs
    later k n now = e ∙ ap (λ s. start + s) (sym (allow-window k n now l))

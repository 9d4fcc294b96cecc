-- ===== src/Prelude/Lists.antt =====
-- Lists measured by native numbers, and the Boolean folds that the code writes as iterator chains.
use Prim.Native.Nat.{ℕ, zero, suc, ◌+◌, ◌≤◌}
use mathlib.Core.Path.{◌≡◌, refl, ap}
use mathlib.Core.Logic.{◌≢◌, ◌⊎◌, inl, inr}
use mathlib.Core.Bool.{Bool, false, ◌||◌}
use mathlib.Core.List.{List, [], ◌∷◌, ◌++◌}
use native.Mathlib.Omega.{arith}
use secureops.Prelude.Tests.{if◌then◌else◌}

module _ {ℓ} {A : Type ℓ} where
  abbrev pub length : List A → ℕ
  length [] = 0
  length (x ∷ xs) = suc (length xs)

  -- `iter().filter(p)`
  abbrev pub keep_if : (A → Bool) → List A → List A
  keep_if p [] = []
  keep_if p (x ∷ xs) = let rest = keep_if p xs in if p x then x ∷ rest else rest

  -- `iter().any(p)`
  abbrev pub any : (A → Bool) → List A → Bool
  any p [] = false
  any p (x ∷ xs) = p x || any p xs

  -- `iter().take(n)` and `iter().skip(n)`
  abbrev pub take : ℕ → List A → List A
  take zero xs = []
  take (suc n) [] = []
  take (suc n) (x ∷ xs) = x ∷ take n xs

  abbrev pub skip : ℕ → List A → List A
  skip zero xs = xs
  skip (suc n) [] = []
  skip (suc n) (x ∷ xs) = skip n xs

  pub append-[] : (xs : List A) → xs ++ [] ≡ xs
  append-[] [] = refl
  append-[] (x ∷ xs) = ap (λ ys. x ∷ ys) (append-[] xs)

  pub take-[] : (n : ℕ) → ◌≡◌ {A = List A} (take n []) []
  take-[] zero = refl
  take-[] (suc n) = refl

  pub skip-[] : (n : ℕ) → ◌≡◌ {A = List A} (skip n []) []
  skip-[] zero = refl
  skip-[] (suc n) = refl

  pub take-skip : (n m : ℕ) (xs : List A) → take n xs ++ take m (skip n xs) ≡ take (n + m) xs
  take-skip zero m xs = ground arith
  take-skip (suc n) m [] = rw (take-[] m, take-[] (suc n + m)) refl
  take-skip (suc n) m (x ∷ xs) =
      let count : suc n + m ≡ suc (n + m) = omega arith in
      rw count (ap (λ rest. x ∷ rest) (take-skip n m xs))

  pub skip-skip : (n m : ℕ) (xs : List A) → skip m (skip n xs) ≡ skip (n + m) xs
  skip-skip zero m xs = ground arith
  skip-skip (suc n) m [] = rw (skip-[] m, skip-[] (suc n + m)) refl
  skip-skip (suc n) m (x ∷ xs) =
      let count : suc n + m ≡ suc (n + m) = omega arith in rw count (skip-skip n m xs)

  pub length-append : (xs ys : List A) → length (xs ++ ys) ≡ length xs + length ys
  length-append [] ys = omega arith
  length-append (x ∷ xs) ys = omega (arith, length-append xs ys)

  pub length-keep_if-le : (p : A → Bool) (xs : List A) → length (keep_if p xs) ≤ length xs
  length-keep_if-le p [] = omega arith
  length-keep_if-le p (x ∷ xs) = ground (arith, length-keep_if-le p xs)

-- Every element satisfies the predicate.
abbrev pub All {ℓ κ} : {A : Type ℓ} → (A → Type κ) → List A → Type κ
All P [] = Unit
All P (x ∷ xs) = P x × All P xs

-- The element is one of the list's.
abbrev pub Has {ℓ} : {A : Type ℓ} → A → List A → Type ℓ
Has a [] = a ≢ a
Has a (b ∷ bs) = (a ≡ b) ⊎ Has a bs

module _ {ℓ} {A : Type ℓ} where
  -- Every element of the first list is one of the second.
  abbrev pub Includes : List A → List A → Type ℓ
  Includes xs ys = (a : A) → Has a xs → Has a ys

  pub Has-left : (a : A) (xs ys : List A) → Has a xs → Has a (xs ++ ys)
  Has-left a [] ys h = absurd (h refl)
  Has-left a (x ∷ xs) ys (inl e) = inl e
  Has-left a (x ∷ xs) ys (inr h) = inr (Has-left a xs ys h)

  pub Has-right : (a : A) (xs ys : List A) → Has a ys → Has a (xs ++ ys)
  Has-right a [] ys h = h
  Has-right a (x ∷ xs) ys h = inr (Has-right a xs ys h)

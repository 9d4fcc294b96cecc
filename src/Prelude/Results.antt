-- ===== src/Prelude/Results.antt =====
-- `Result`, with the error type first as in the monad's parameter, and what the code calls on it.
use mathlib.Core.Path.{◌≡◌, refl}
use mathlib.Core.Logic.{◌⊎◌, inl, inr}
use mathlib.Core.Option.{Option, none, some}
use native.Mathlib.Omega.{arith}

pub data Result {ℓ κ} (E : Type ℓ) (A : Type κ) : Type (ℓ ⊔ κ) where
  ok : A → Result E A
  err : E → Result E A

module _ {ℓ κ μ} {E : Type ℓ} {A : Type κ} {B : Type μ} where
  infixl 5 ◌>>=◌
  abbrev pub ◌>>=◌ : Result E A → (A → Result E B) → Result E B
  ok a >>= f = f a
  err e >>= f = err e

module _ {ℓ κ μ} {E : Type ℓ} {F : Type κ} {A : Type μ} where
  abbrev pub map_err : (E → F) → Result E A → Result F A
  map_err f (ok a) = ok a
  map_err f (err e) = err (f e)

module _ {ℓ κ} {E : Type ℓ} {A : Type κ} where
  -- `.ok()`
  abbrev pub to_option : Result E A → Option A
  to_option (ok a) = some a
  to_option (err e) = none

  -- `.unwrap_or(d)`
  abbrev pub unwrap_or : Result E A → A → A
  unwrap_or (ok a) d = a
  unwrap_or (err e) d = d

  pub Result-cases : (r : Result E A) → ((a : A) × (r ≡ ok a)) ⊎ ((e : E) × (r ≡ err e))
  Result-cases (ok a) = inl (a, refl)
  Result-cases (err e) = inr (e, refl)

-- A sequence of two calls gives a result exactly when both do.
module _ {A B : Type 0} {E : Type 0} where
  pub then_ok :
      (r : Result E A) (rest : Result E B) (c : B)
      → (r >>= λ b. rest) ≡ ok c
      → ((b : A) × (r ≡ ok b)) × (rest ≡ ok c)
  then_ok (ok b) rest c e = ((b, refl), e)
  then_ok (err why) rest c e = ground arith

  pub ok_then :
      (r : Result E A) (rest : Result E B) (b : A) (c : B)
      → r ≡ ok b
      → rest ≡ ok c
      → (r >>= λ b. rest) ≡ ok c
  ok_then (ok a) rest b c e d = d
  ok_then (err why) rest b c e d = ground arith

module _ {A B E : Type 0} where
  -- A chain of two calls gives a result only if both do.
  pub bind_ok :
      (r : Result E A) (f : A → Result E B) (c : B)
      → (r >>= f) ≡ ok c
      → (a : A) × (r ≡ ok a) × (f a ≡ ok c)
  bind_ok (ok a) f c e = (a, refl, e)
  bind_ok (err why) f c e = ground arith

module _ {A E F : Type 0} where
  pub map_err_ok : (f : E → F) (r : Result E A) (a : A) → map_err f r ≡ ok a → r ≡ ok a
  map_err_ok f (ok b) a e = ground (arith, e)
  map_err_ok f (err why) a e = ground arith

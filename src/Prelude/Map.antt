-- ===== src/Prelude/Map.antt =====
-- `HashMap` and `HashSet` as association lists: an insert replaces the entry of its key, and no key
-- stands twice. The order of the list stands for the unspecified order of iteration.
use Prim.Native.Nat.{ℕ, ◌≤◌}
use Prim.Native.String.{String}
use mathlib.Core.Path.{◌≡◌, refl}
use mathlib.Core.Logic.{◌↔◌, inl, inr}
use mathlib.Core.Bool.{Bool, true}
use mathlib.Core.Option.{Option, none, some}
use mathlib.Core.List.{List, [], ◌∷◌}
use native.Mathlib.Omega.{arith}
use secureops.Prelude.Tests.{◌==◌, ==_iff, Bool-cases, if◌then◌else◌}
use secureops.Prelude.Int.{ℤ, eqb_ℤ, eqb_ℤ_iff}
use secureops.Prelude.Lists.{length}
use secureops.Prelude.Text.{same, same_iff, str_eq, str_eq_iff}

-- A key type with a decidable equality.
pub record Key {ℓ} (K : Type ℓ) : Type ℓ where
  pub eqb : K → K → Bool
  pub eqb_iff : (a b : K) → (eqb a b ≡ true) ↔ (a ≡ b)

instance abbrev pub ℕ-Key : Key ℕ
ℕ-Key = record { eqb = ◌==◌; eqb_iff = ==_iff }

instance abbrev pub ℤ-Key : Key ℤ
ℤ-Key = record { eqb = eqb_ℤ; eqb_iff = eqb_ℤ_iff }

instance abbrev pub String-Key : Key String
String-Key = record { eqb = str_eq; eqb_iff = str_eq_iff }

instance abbrev pub Text-Key : Key (List ℕ)
Text-Key = record { eqb = same; eqb_iff = same_iff }

module _ {ℓ κ} {K : Type ℓ} {V : Type κ} ⦃key : Key K⦄ where
  unfoldable pub get : K → List (K × V) → Option V
  get k [] = none
  get k ((j, v) ∷ m) = if key.eqb j k then some v else get k m

  unfoldable pub remove : K → List (K × V) → List (K × V)
  remove k [] = []
  remove k ((j, v) ∷ m) = let rest = remove k m in if key.eqb j k then rest else (j, v) ∷ rest

  unfoldable pub insert : K → V → List (K × V) → List (K × V)
  unfolding remove
  insert k v m = (k, v) ∷ remove k m

  pub get-remove :
      (k j : K) (m : List (K × V)) → get j (remove k m) ≡ (if key.eqb k j then none else get j m)
  unfolding get remove
  get-remove k j [] = ground arith
  get-remove k j ((i, v) ∷ m) =
      ground (arith, get-remove k j m, key.eqb_iff i k, key.eqb_iff i j, key.eqb_iff k j)

  pub get-insert :
      (k j : K) (v : V) (m : List (K × V))
      → get j (insert k v m) ≡ (if key.eqb k j then some v else get j m)
  unfolding get insert
  get-insert k j v m = ground (arith, get-remove k j m)

  pub length-remove-le : (k : K) (m : List (K × V)) → length (remove k m) ≤ length m
  unfolding remove
  length-remove-le k [] = omega arith
  length-remove-le k ((j, v) ∷ m) = ground (arith, length-remove-le k m)

  -- `retain(p)`
  unfoldable pub retain : (K → V → Bool) → List (K × V) → List (K × V)
  retain p [] = []
  retain p ((j, v) ∷ m) = let rest = retain p m in if p j v then (j, v) ∷ rest else rest

  -- No key stands twice.
  unfoldable pub IsUnique : List (K × V) → Type (ℓ ⊔ κ)
  unfolding get
  IsUnique [] = Unit
  IsUnique ((k, v) ∷ m) = (get k m ≡ none) × IsUnique m

  pub remove-IsUnique : (k : K) (m : List (K × V)) → IsUnique m → IsUnique (remove k m)
  unfolding IsUnique get remove
  remove-IsUnique k [] u = tt
  remove-IsUnique k ((j, v) ∷ m) u = elim (Bool-cases (key.eqb j k)) [
    | inl here ↦ rw here (remove-IsUnique k m u.1)
    | inr other ↦ rw other (ground (arith, get-remove k j m, u.0), remove-IsUnique k m u.1)
  ]

  pub insert-IsUnique : (k : K) (v : V) (m : List (K × V)) → IsUnique m → IsUnique (insert k v m)
  unfolding IsUnique get insert
  insert-IsUnique k v m u =
      (ground (arith, get-remove k k m, key.eqb_iff k k), remove-IsUnique k m u)

  retain-none :
      (p : K → V → Bool) (k : K) (m : List (K × V)) → get k m ≡ none → get k (retain p m) ≡ none
  unfolding get retain
  retain-none p k [] n = n
  retain-none p k ((j, v) ∷ m) n = ground (arith, retain-none p k m)

  -- The entry that `retain` leaves of a key.
  abbrev pub kept : (K → V → Bool) → K → Option V → Option V
  kept p k none = none
  kept p k (some v) = if p k v then some v else none

  pub get-retain :
      (p : K → V → Bool) (k : K) (m : List (K × V))
      → IsUnique m
      → get k (retain p m) ≡ kept p k (get k m)
  unfolding IsUnique get retain
  get-retain p k [] u = refl
  get-retain p k ((j, v) ∷ m) u = elim (Bool-cases (key.eqb j k)) [
    | inl here ↦ ground (arith, here, key.eqb_iff j k, u.0, retain-none p j m u.0)
    | inr other ↦ ground (arith, other, get-retain p k m u.1)
  ]

  pub retain-IsUnique : (p : K → V → Bool) (m : List (K × V)) → IsUnique m → IsUnique (retain p m)
  unfolding IsUnique get retain
  retain-IsUnique p [] u = tt
  retain-IsUnique p ((j, v) ∷ m) u = elim (Bool-cases (p j v)) [
    | inl good ↦ rw good (retain-none p j m u.0, retain-IsUnique p m u.1)
    | inr bad ↦ rw bad (retain-IsUnique p m u.1)
  ]

-- ===== src/Graph/Reach.antt =====
-- Reachability, and the lemmas on members that the search is proved with.
use secureops.Prelude.{
  ℕ, suc, ◌≤◌, ◌≡◌, inl, inr, refl, subst, true, false, not, ◌||◌, Bool-cases, List, [], ◌∷◌, ◌++◌,
  String, keep_if, length, str_eq, str_eq_iff, str_eq_refl, arith,
}
use secureops.Graph.{member}

-- The nodes that a path of edges leads to.
pub data Reach (targets : String → List String) (start : String) : String → Type 0 where
  here : Reach targets start start
  step :
      (n m : String) → Reach targets start n → member m (targets n) ≡ true → Reach targets start m

pub member-append :
    (n : String) (a b : List String) → member n (a ++ b) ≡ (member n a || member n b)
member-append n [] b = refl
member-append n (x ∷ a) b = ground (arith, member-append n a b)

-- No node stands twice.
abbrev pub IsUnique : List String → Type 0
IsUnique [] = Unit
IsUnique (n ∷ ns) = (member n ns ≡ false) × IsUnique ns

-- How many of some nodes are not seen.
abbrev pub unseen : List String → List String → ℕ
unseen seen ns = length (keep_if (λ n. not (member n seen)) ns)

pub unseen-le : (x : String) (seen ns : List String) → unseen (x ∷ seen) ns ≤ unseen seen ns
unseen-le x seen [] = omega arith
unseen-le x seen (n ∷ ns) = ground (arith, unseen-le x seen ns)

unseen-here :
    (x n : String) (seen ns : List String)
    → x ≡ n
    → member x seen ≡ false
    → suc (unseen (x ∷ seen) (n ∷ ns)) ≤ unseen seen (n ∷ ns)
unseen-here x n seen ns e a =
    subst (λ y. suc (unseen (x ∷ seen) (y ∷ ns)) ≤ unseen seen (y ∷ ns)) {x = x} {y = n} e
      (ground (arith, a, str_eq_refl x, unseen-le x seen ns))

unseen-there :
    (x n : String) (seen ns : List String)
    → suc (unseen (x ∷ seen) ns) ≤ unseen seen ns
    → suc (unseen (x ∷ seen) (n ∷ ns)) ≤ unseen seen (n ∷ ns)
unseen-there x n seen ns r = ground (arith, r)

pub unseen-less :
    (x : String) (seen ns : List String)
    → member x seen ≡ false
    → member x ns ≡ true
    → suc (unseen (x ∷ seen) ns) ≤ unseen seen ns
unseen-less x seen [] a b = ground arith
unseen-less x seen (n ∷ ns) a b = elim (Bool-cases (str_eq x n)) [
  | inl same ↦ unseen-here x n seen ns (ground (arith, same, str_eq_iff x n)) a
  | inr other ↦ unseen-there x n seen ns (unseen-less x seen ns a (ground (arith, b, other)))
]

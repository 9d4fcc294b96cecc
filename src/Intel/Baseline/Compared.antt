-- ===== src/Intel/Baseline/Compared.antt =====
-- `compare_baseline` against equality of the two maps.
use secureops.Prelude.{
  ◌≡◌, ◌≢◌, ◌↔◌, refl, sym, ap, ◌∙◌, Option, none, some, List, [], ◌∷◌, arith, String, str_eq,
  str_eq_iff, str_eq_refl, if◌then◌else◌, inl, inr, Bool-cases, Option-cases,
}
use secureops.Prelude.Map
use secureops.Prelude.Map.{String-Key}
use secureops.Core.Runtime.{HashBaseline, BaselineComparison}
use secureops.Intel.Baseline.{
  is_removed, is_modified, removed_of, modified_of, added_of, compare_baseline,
}

abbrev pub Files : Type 0
Files = List (String × String)

-- Every path of the first map is in the second, and with the same hash.
abbrev pub Within : Files → Files → Type 0
Within files current = (p h : String) → Map.get p files ≡ some h → Map.get p current ≡ some h

head-Within :
    (p h : String) (files current : Files)
    → Map.IsUnique ((p, h) ∷ files)
    → Within ((p, h) ∷ files) current ↔ ((Map.get p current ≡ some h) × Within files current)
unfolding Map.get Map.IsUnique
head-Within p h files current u = (
  λ w. (
    w p h (ground (arith, str_eq_refl p)),
    λ q g found. w q g (ground (arith, str_eq_iff p q, u.0)),
  ),
  λ w q g found. ground (arith, str_eq_iff p q, w.0, w.1 q g),
)

hash_kept :
    (p h : String) (found : Option String) (removed modified : List String)
    → (((if is_removed found then p ∷ removed else removed) ≡ [])
        × ((if is_modified h found then p ∷ modified else modified) ≡ []))
      ↔ ((found ≡ some h) × ((removed ≡ []) × (modified ≡ [])))
hash_kept p h none removed modified = ground arith
hash_kept p h (some c) removed modified = ground (arith, str_eq_iff c h)

drift-Within :
    (files current : Files)
    → Map.IsUnique files
    → ((removed_of current files ≡ []) × (modified_of current files ≡ [])) ↔ Within files current
unfolding removed_of modified_of Map.get Map.IsUnique
drift-Within [] current u = (λ e p h found. ground (arith, found), λ w. (refl, refl))
drift-Within ((p, h) ∷ files) current u =
    let head = head-Within p h files current u in
    let kept =
      hash_kept p h (Map.get p current) (removed_of current files) (modified_of current files) in
    let tail = drift-Within files current u.1 in
    (
      λ e. head.1 ((kept.0 e).0, tail.0 (kept.0 e).1),
      λ w. kept.1 ((head.0 w).0, tail.1 (head.0 w).1),
    )

-- Every path of the second map is in the first.
abbrev pub Covers : Files → Files → Type 0
Covers files current = (p : String) → Map.get p files ≡ none → Map.get p current ≡ none

added_head :
    (p : String) (found : Option String) (added : List String)
    → ((if is_removed found then p ∷ added else added) ≡ []) ↔ ((found ≢ none) × (added ≡ []))
added_head p none added = ground arith
added_head p (some h) added = ground arith

added-Covers : (files current : Files) → (added_of files current ≡ []) ↔ Covers files current
unfolding added_of Map.get
added-Covers files [] = (λ e p absent. refl, λ c. refl)
added-Covers files ((p, h) ∷ current) =
    let head = added_head p (Map.get p files) (added_of files current) in
    let tail = added-Covers files current in
    (
      λ e q absent. elim (Bool-cases (str_eq p q)) [
        | inl same ↦ absurd ((head.0 e).0 (rw ((str_eq_iff p q).0 same) absent))
        | inr other ↦ rw other (tail.0 (head.0 e).1 q absent)
      ],
      λ c. head.1 (
        λ absent. ground (arith, c p absent, str_eq_refl p),
        tail.1 (λ q absent. ground (arith, c q absent)),
      ),
    )

-- The comparison reports no change, of either kind, exactly when the baseline and the directory have
-- the same hash at every path, a path that one of them lacks included.
pub compare_baseline-same :
    (baseline : HashBaseline) (current : Files)
    → Map.IsUnique baseline.files
    → (compare_baseline baseline current ≡ record { added = []; modified = []; removed = [] })
      ↔ ((p : String) → Map.get p baseline.files ≡ Map.get p current)
unfolding compare_baseline
compare_baseline-same baseline current u =
    let drift = drift-Within baseline.files current u in
    let cover = added-Covers baseline.files current in
    (
      λ e p.
          same_at p
            (drift.0 (
              ap (λ (c : BaselineComparison). c.removed) e,
              ap (λ (c : BaselineComparison). c.modified) e,
            ))
            (cover.0 (ap (λ (c : BaselineComparison). c.added) e)),
      λ same.
          let (none_removed, none_modified) = drift.1 (λ p h found. sym (same p) ∙ found) in
          let none_added = cover.1 (λ p absent. sym (same p) ∙ absent) in
          rw (none_removed, none_modified, none_added) refl,
    )
  where
    same_at :
        (p : String)
        → Within baseline.files current
        → Covers baseline.files current
        → Map.get p baseline.files ≡ Map.get p current
    same_at p w c = elim (Option-cases (Map.get p baseline.files)) [
      | inl absent ↦ rw (absent, c p absent) refl
      | inr (h, found) ↦ rw (found, w p h found) refl
    ]

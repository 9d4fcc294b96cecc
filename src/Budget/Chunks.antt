-- ===== src/Budget/Chunks.antt =====
-- crates/secureops-tokenbudget/src/lib.rs: `map_reduce_chunks`, on the code points of a text.
use secureops.Prelude.{
  ℕ, zero, suc, ◌-◌, ◌*◌, ◌%◌, ◌≤◌, ◌<◌, ◌≡◌, refl, ◌∙◌, ap, subst, Option, none, some, List, [],
  ◌∷◌, ◌++◌, All, arith, length, ltb, ◌==◌, if◌then◌else◌,
}

module _ {A : Type 0} where
  abbrev pub take : ℕ → List A → List A
  take zero l = []
  take (suc n) [] = []
  take (suc n) (x ∷ l) = x ∷ take n l

  abbrev pub drop : ℕ → List A → List A
  drop zero l = l
  drop (suc n) [] = []
  drop (suc n) (x ∷ l) = drop n l

  abbrev pub flatten : List (List A) → List A
  flatten [] = []
  flatten (c ∷ cs) = c ++ flatten cs

  take-drop : (n : ℕ) (l : List A) → take n l ++ drop n l ≡ l
  take-drop zero l = refl
  take-drop (suc n) [] = refl
  take-drop (suc n) (x ∷ l) = ground (arith, take-drop n l)

  length-drop : (n : ℕ) (l : List A) → length (drop n l) ≡ length l - n
  length-drop zero l = omega arith
  length-drop (suc n) [] = omega arith
  length-drop (suc n) (x ∷ l) = omega (arith, length-drop n l)

  length-take-le : (n : ℕ) (l : List A) → length (take n l) ≤ n
  length-take-le zero l = omega arith
  length-take-le (suc n) [] = omega arith
  length-take-le (suc n) (x ∷ l) = omega (arith, length-take-le n l)

  -- `slice::chunks`, on fuel: one chunk for each unit. The length of the list is enough.
  pub chunks : ℕ → ℕ → List A → List (List A)
  chunks zero n l = []
  chunks (suc fuel) n [] = []
  chunks (suc fuel) n (x ∷ l) = take n (x ∷ l) ∷ chunks fuel n (drop n (x ∷ l))

  flatten-chunks :
      (fuel n : ℕ) (l : List A) → length l ≤ fuel → 0 < n → flatten (chunks fuel n l) ≡ l
  unfolding chunks
  flatten-chunks zero n [] b p = refl
  flatten-chunks zero n (x ∷ l) b p = ground (arith, b)
  flatten-chunks (suc fuel) n [] b p = refl
  flatten-chunks (suc fuel) n (x ∷ l) b p =
      ap (λ r. take n (x ∷ l) ++ r)
        (flatten-chunks fuel n (drop n (x ∷ l)) (omega (arith, length-drop n (x ∷ l), b, p)) p)
      ∙ take-drop n (x ∷ l)

  chunks-Short : (fuel n : ℕ) (l : List A) → All (λ c. length c ≤ n) (chunks fuel n l)
  unfolding chunks
  chunks-Short zero n l = tt
  chunks-Short (suc fuel) n [] = tt
  chunks-Short (suc fuel) n (x ∷ l) =
      (length-take-le n (x ∷ l), chunks-Short fuel n (drop n (x ∷ l)))

-- The number of characters of a chunk, a usize of 64 bits.
abbrev pub chunk_chars : ℕ → ℕ
chunk_chars chunk_tokens =
    (if ltb chunk_tokens 1 then 1 else chunk_tokens) * 4 % 18446744073709551616

-- `none` where `chunks` panics: at a size of 0, which only an overflow gives.
unfoldable pub map_reduce_chunks : List ℕ → ℕ → Option (List (List ℕ))
unfolding chunks
map_reduce_chunks [] chunk_tokens = some []
map_reduce_chunks (c ∷ s) chunk_tokens =
    if chunk_chars chunk_tokens == 0
    then none
    else some (chunks (length (c ∷ s)) (chunk_chars chunk_tokens) (c ∷ s))

-- For chunk sizes below 2^62 tokens, where the size in characters does not overflow, the chunks give
-- the text when they are put together, and none is longer than four characters for each token (and
-- than four where no tokens are asked for).
pub map_reduce_chunks-flatten :
    (s : List ℕ) (chunk_tokens : ℕ)
    → chunk_tokens < 4611686018427387904
    → (cs : List (List ℕ)) × (map_reduce_chunks s chunk_tokens ≡ some cs)
      × (flatten cs ≡ s)
      × All (λ c. length c ≤ (if ltb chunk_tokens 1 then 1 else chunk_tokens) * 4) cs
unfolding map_reduce_chunks
map_reduce_chunks-flatten [] chunk_tokens b = ([], refl, refl, tt)
map_reduce_chunks-flatten (c ∷ s) chunk_tokens b = (
  chunks (length (c ∷ s)) (chunk_chars chunk_tokens) (c ∷ s),
  ground (arith, positive chunk_tokens b),
  flatten-chunks (length (c ∷ s)) (chunk_chars chunk_tokens) (c ∷ s) (omega arith)
      (positive chunk_tokens b),
  subst
      (λ n.
        All (λ (d : List ℕ). length d ≤ n)
          (chunks (length (c ∷ s)) (chunk_chars chunk_tokens) (c ∷ s)))
      (no_wrap chunk_tokens b) (chunks-Short (length (c ∷ s)) (chunk_chars chunk_tokens) (c ∷ s)),
)
  where
    no_wrap : (n : ℕ) → n < 4611686018427387904 → chunk_chars n ≡ (if ltb n 1 then 1 else n) * 4
    no_wrap n b = ground (arith, b)

    positive : (n : ℕ) → n < 4611686018427387904 → 0 < chunk_chars n
    positive n b = ground (arith, b)

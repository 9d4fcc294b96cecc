-- ===== src/Budget/Pack/Fits.antt =====
-- crates/secureops-tokenbudget/src/lib.rs: the loop of `TokenBudget::pack`.
use secureops.Prelude.{
  ℕ, ◌+◌, ◌%◌, ◌≤◌, ◌<◌, ◌≡◌, inl, inr, refl, subst, Bool-cases, List, [], ◌∷◌, ◌++◌, All, arith,
  leb,
}
use secureops.Budget.Pack.{
  Base, Evidence, insert_sorted, sort, TokenBudget, available, PackResult, pack_item, pack_all,
  pack,
}

module _ (b : Base) where
  -- The tokens of a list.
  abbrev pub tokens : List (Evidence b) → ℕ
  tokens [] = 0
  tokens (e ∷ es) = e.est_tokens + tokens es

  tokens-push :
      (es : List (Evidence b)) (e : Evidence b) → tokens (es ++ e ∷ []) ≡ tokens es + e.est_tokens
  tokens-push [] e = omega arith
  tokens-push (d ∷ es) e = omega (arith, tokens-push es e)

  tokens-insert_sorted :
      (e : Evidence b) (es : List (Evidence b))
      → tokens (insert_sorted b e es) ≡ e.est_tokens + tokens es
  unfolding insert_sorted
  tokens-insert_sorted e [] = refl
  tokens-insert_sorted e (d ∷ es) = ground (arith, tokens-insert_sorted e es)

  tokens-sort : (es : List (Evidence b)) → tokens (sort b es) ≡ tokens es
  unfolding sort
  tokens-sort [] = refl
  tokens-sort (e ∷ es) = omega (arith, tokens-insert_sorted e (sort b es), tokens-sort es)

  -- What has been packed: the count is that of what is included, and within the budget; what is
  -- dropped would have passed it.
  pub record IsPacked (budget all : ℕ) (r : PackResult b) : Type 0 where
    pub counted : r.used_tokens ≡ tokens r.included
    pub within : r.used_tokens ≤ budget
    pub whole : tokens r.included + tokens r.dropped ≡ all
    pub full : All (λ (e : Evidence b). budget < r.used_tokens + e.est_tokens) r.dropped

  abbrev TooBig : ℕ → ℕ → List (Evidence b) → Type 0
  TooBig budget used = All (λ (e : Evidence b). budget < used + e.est_tokens)

  TooBig-later :
      (budget used more : ℕ) (es : List (Evidence b))
      → used ≤ more
      → TooBig budget used es
      → TooBig budget more es
  TooBig-later budget used more [] h a = tt
  TooBig-later budget used more (e ∷ es) h a =
      (omega (arith, a.0), TooBig-later budget used more es h a.1)

  TooBig-push :
      (budget used : ℕ) (es : List (Evidence b)) (e : Evidence b)
      → TooBig budget used es
      → budget < used + e.est_tokens
      → TooBig budget used (es ++ e ∷ [])
  TooBig-push budget used [] e a h = (h, tt)
  TooBig-push budget used (d ∷ es) e a h = (a.0, TooBig-push budget used es e a.1 h)

  pack_item-IsPacked :
      (budget all : ℕ) (e : Evidence b) (r : PackResult b)
      → all + e.est_tokens < 18446744073709551616
      → IsPacked budget all r
      → IsPacked budget (all + e.est_tokens) (pack_item b budget e r)
  pack_item-IsPacked budget all e r s p =
      elim (Bool-cases (leb (r.used_tokens + e.est_tokens) budget)) [
        | inl fits ↦
            rw (no_wrap, fits)
              (record {
                counted = omega (arith, p.counted, tokens-push r.included e);
                within = ground (arith, fits);
                whole = omega (arith, p.whole, tokens-push r.included e);
                full =
                    TooBig-later budget r.used_tokens (r.used_tokens + e.est_tokens) r.dropped
                      (omega arith) p.full;
              })
        | inr big ↦
            rw (no_wrap, big)
              (record {
                counted = p.counted;
                within = p.within;
                whole = omega (arith, p.whole, tokens-push r.dropped e);
                full = TooBig-push budget r.used_tokens r.dropped e p.full (ground (arith, big));
              })
      ]
    where
      no_wrap : (r.used_tokens + e.est_tokens) % 18446744073709551616 ≡ r.used_tokens + e.est_tokens
      no_wrap = omega (arith, p.counted, p.whole, s)

  pack_all-IsPacked :
      (budget all total : ℕ) (es : List (Evidence b)) (r : PackResult b)
      → total ≡ all + tokens es
      → total < 18446744073709551616
      → IsPacked budget all r
      → IsPacked budget total (pack_all b budget es r)
  unfolding pack_all
  pack_all-IsPacked budget all total [] r e s p =
      subst (λ n. IsPacked budget n r) (omega (arith, e)) p
  pack_all-IsPacked budget all total (x ∷ es) r e s p =
      pack_all-IsPacked budget (all + x.est_tokens) total es (pack_item b budget x r)
        (omega (arith, e)) s (pack_item-IsPacked budget all x r (omega (arith, e, s)) p)

  -- The packed evidence takes no more tokens than the window leaves beside the reserved output, its
  -- count is right, the included and the dropped evidence have all the tokens of the given, and each
  -- dropped piece would have passed the budget beside what is included. It asks that the tokens of
  -- the given evidence sum to less than 2^64.
  pub pack-IsPacked :
      (t : TokenBudget b) (items : List (Evidence b))
      → tokens items < 18446744073709551616
      → IsPacked (available b t) (tokens items) (pack b t items)
  unfolding pack
  pack-IsPacked t items s =
      pack_all-IsPacked (available b t) 0 (tokens items) (sort b items) _
        (omega (arith, tokens-sort items)) s
        (record { counted = refl; within = omega arith; whole = refl; full = tt })

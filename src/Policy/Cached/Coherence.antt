-- ===== src/Policy/Cached/Coherence.antt =====
-- What the decision cache may change in a verdict, and what it may not.
use secureops.Prelude.{
  ℕ, ◌-◌, ◌<◌, ◌≡◌, ◌⊎◌, inl, inr, ap, ◌∙◌, true, false, none, some, arith, Option-cases,
}
use secureops.Prelude.Map
use secureops.Prelude.Map.{ℕ-Key}
use secureops.Policy.Types.{Decision, DecisionRequest, DecisionResponse}
use secureops.Policy.Cache
use secureops.Policy.Cache.{CacheEntry, DecisionCache}
use secureops.Policy.Cache.Reads.{Served, get-Served, get-put, put-entry, get-entry, get-miss}
use secureops.Policy.Cached.{answer}

-- On a miss within the time to live of the answer, the answer comes back.
pub answer-again :
    (key t0 t1 t2 t3 : ℕ) (first second : DecisionResponse) (c : DecisionCache)
    → c.poisoned ≡ false
    → Map.get key c.entries ≡ none
    → t2 - t1 < c.ttl
    → (answer key second t2 t3 (answer key first t0 t1 c).1).0 ≡ record first { cached = true }
unfolding answer
answer-again key t0 t1 t2 t3 first second c alive miss fresh =
    ground (arith, get-miss key t0 c, get-put key t1 t2 first c)

-- On a miss the fresh answer is given.
pub answer-miss :
    (key t0 t1 : ℕ) (fresh : DecisionResponse) (c : DecisionCache)
    → Map.get key c.entries ≡ none
    → (answer key fresh t0 t1 c).0 ≡ fresh
unfolding answer
answer-miss key t0 t1 fresh c miss = ground (arith, get-miss key t0 c miss)

-- An entry after a call is the fresh answer under the call's key, or was there before.
answer-entry :
    (key j now later : ℕ) (fresh : DecisionResponse) (c : DecisionCache) (e : CacheEntry)
    → Map.get j (answer key fresh now later c).1.entries ≡ some e
    → ((key ≡ j) × (e.resp ≡ fresh)) ⊎ (Map.get j c.entries ≡ some e)
unfolding answer
answer-entry key j now later fresh c e h = elim (Option-cases (Cache.get key now c).0) [
  | inl miss ↦
      ground (
        arith,
        miss,
        put-entry key j later fresh (Cache.get key now c).1 e,
        get-entry key j now c e,
      )
  | inr hit ↦ ground (arith, hit.1, get-entry key j now c e)
]

module _ (key : DecisionRequest → ℕ) (eval : DecisionRequest → Decision) where
  -- Requests with one key have one verdict.
  abbrev pub KeyDecides : Type 0
  KeyDecides = (a b : DecisionRequest) → key a ≡ key b → eval a ≡ eval b

  -- Every entry holds the verdict of the requests with its key.
  pub record IsCoherent (c : DecisionCache) : Type 0 where
    pub at_key :
        (req : DecisionRequest) (e : CacheEntry)
        → Map.get (key req) c.entries ≡ some e
        → e.resp.decision ≡ eval req

  Served-decision :
      (now : ℕ) (req : DecisionRequest) (c : DecisionCache) (x : DecisionResponse)
      → IsCoherent c
      → (Cache.get (key req) now c).0 ≡ some x
      → x.decision ≡ eval req
  Served-decision now req c x v h =
      let s : Served (key req) now c x = get-Served (key req) now c x h in
      ap (λ (y : DecisionResponse). y.decision) s.same ∙ v.at_key req s.entry s.stored

  -- The answer has the verdict of the evaluation, from the cache or not.
  pub answer-decision :
      (now later : ℕ) (req : DecisionRequest) (fresh : DecisionResponse) (c : DecisionCache)
      → fresh.decision ≡ eval req
      → IsCoherent c
      → (answer (key req) fresh now later c).0.decision ≡ eval req
  unfolding answer
  answer-decision now later req fresh c f v = elim (Option-cases (Cache.get (key req) now c).0) [
    | inl miss ↦ ground (arith, miss)
    | inr hit ↦ ground (arith, hit.1, Served-decision now req c hit.0 v hit.1)
  ]

  pub answer-IsCoherent :
      (now later : ℕ) (req : DecisionRequest) (fresh : DecisionResponse) (c : DecisionCache)
      → KeyDecides
      → fresh.decision ≡ eval req
      → IsCoherent c
      → IsCoherent (answer (key req) fresh now later c).1
  answer-IsCoherent now later req fresh c k f v = record {
    at_key = λ q e h. from_entry q e (answer-entry (key req) (key q) now later fresh c e h);
  }
    where
      from_entry :
          (q : DecisionRequest) (e : CacheEntry)
          → ((key req ≡ key q) × (e.resp ≡ fresh)) ⊎ (Map.get (key q) c.entries ≡ some e)
          → e.resp.decision ≡ eval q
      from_entry q e (inl new) = ap (λ (y : DecisionResponse). y.decision) new.1 ∙ f ∙ k req q new.0
      from_entry q e (inr old) = v.at_key q e old

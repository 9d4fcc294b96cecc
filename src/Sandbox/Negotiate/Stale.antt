-- ===== src/Sandbox/Negotiate/Stale.antt =====
-- A negotiation with a `RegoPdp`, whose decisions are cached under keys that leave out the path.
use secureops.Prelude.{
  ℕ, ◌+◌, ◌-◌, ◌<◌, ◌≡◌, ap, false, none, [], ◌∷◌, String, arith, if◌then◌else◌,
}
use secureops.Prelude.Map
use secureops.Prelude.Map.{ℕ-Key}
use secureops.Policy.Types.{is_allowed, DecisionResponse}
use secureops.Policy.Cached.Coherence.{answer-miss}
use secureops.Policy.Rego.{Regorus, RegoPdp, evaluate, eval_decision, key_of}
use secureops.Policy.Rego.Coherence.{evaluate-stale}
use secureops.Sandbox.Types.{Capabilities}
use secureops.Sandbox.Negotiate.{
  PolicyEngine, is_secret, path_request, grant_paths, negotiate_capabilities,
}

module _ (r : Regorus) where
  -- A `RegoPdp` with the number of calls so far; the i-th call starts and ends at these times.
  abbrev pub rego_at : (ℕ → ℕ) → (ℕ → ℕ) → PolicyEngine
  rego_at starts ends = record {
    State = RegoPdp r × ℕ;
    evaluate =
        λ req s. let (d, p) = evaluate r (starts s.1) (ends s.1) req s.0 in (d, (p, s.1 + 1));
  }

  first-decision :
      (now later pid : ℕ) (path : String) (p : RegoPdp r)
      → p.cache.poisoned ≡ false
      → Map.get (key_of r p (path_request pid path)) p.cache.entries ≡ none
      → (evaluate r now later (path_request pid path) p).0
        ≡ eval_decision r p (path_request pid path)
  unfolding evaluate
  first-decision now later pid path p alive miss =
      ap (λ (x : DecisionResponse). x.decision) (answer-miss _ now later _ p.cache miss)

  -- A `RegoPdp` asked for two paths, neither secret and the first not yet in its cache, whose lock is
  -- not poisoned, grants both or none, by its verdict on the first one only, when the second call
  -- starts within the time to live after the first has ended: the key of its cache leaves out the
  -- attributes, and the path is one.
  pub negotiate_capabilities-first :
      (starts ends : ℕ → ℕ) (pid : ℕ) (path other : String) (requested : Capabilities)
      (p : RegoPdp r)
      → p.cache.poisoned ≡ false
      → Map.get (key_of r p (path_request pid path)) p.cache.entries ≡ none
      → starts 1 - ends 0 < p.cache.ttl
      → requested.fs_paths ≡ path ∷ other ∷ []
      → is_secret path ≡ false
      → is_secret other ≡ false
      → (negotiate_capabilities (rego_at starts ends) pid requested (p, 0)).0.fs_paths
        ≡ (if is_allowed (eval_decision r p (path_request pid path)) then path ∷ other ∷ [] else [])
  unfolding negotiate_capabilities grant_paths
  negotiate_capabilities-first starts ends pid path other requested p alive miss live asked plain
        plain' =
      rw
        (
          asked,
          plain,
          plain',
          first-decision (starts 0) (ends 0) pid path p alive miss,
          evaluate-stale r (starts 0) (ends 0) (starts 1) (ends 1) (path_request pid path) none []
              (("path", other) ∷ []) p alive miss live,
        )
        (ground arith)

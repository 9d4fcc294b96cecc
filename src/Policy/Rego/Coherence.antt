-- ===== src/Policy/Rego/Coherence.antt =====
-- `RegoPdp`: what the decision cache may change in a verdict, and what it may not.
use secureops.Prelude.{
  ℕ, ◌-◌, ◌<◌, ◌≡◌, refl, ap, ap₂, sym, fun_ext, ◌∙◌, false, Option, none, String, List, [], ◌∷◌,
  map,
}
use secureops.Prelude.Map
use secureops.Prelude.Map.{ℕ-Key}
use secureops.Policy.Types.{Decision, DecisionRequest, DecisionResponse, SyscallEvent, new_response}
use secureops.Policy.Cache.{hash_request}
use secureops.Policy.Cached.Coherence.{
  KeyDecides, IsCoherent, answer-decision, answer-IsCoherent, answer-again,
}
use secureops.Policy.Rego.{
  Regorus, RegoPdp, key_of, eval_decision, detailed_response, evaluate, evaluate_detailed,
}

module _ (r : Regorus) where
  -- The two entry points.
  pub data Call : Type 0 where
    plain detailed : DecisionRequest → Call

  abbrev pub request : Call → DecisionRequest
  request (plain req) = req
  request (detailed req) = req

  pub perform : ℕ → ℕ → Call → RegoPdp r → Decision × RegoPdp r
  perform now later (plain req) p = evaluate r now later req p
  perform now later (detailed req) p =
      let (resp, p') = evaluate_detailed r now later req p in (resp.decision, p')

  -- A run of calls, each with its two readings of the clock, and the verdicts given.
  pub evaluate_all : List (ℕ × ℕ × Call) → RegoPdp r → List Decision
  unfolding perform
  evaluate_all [] p = []
  evaluate_all ((now, later, call) ∷ rest) p =
      let (decision, p') = perform now later call p in decision ∷ evaluate_all rest p'

  -- What a call leaves: the engine, the version, and a coherent cache.
  record Kept (p q : RegoPdp r) : Type 0 where
    verdicts : (req : DecisionRequest) → eval_decision r q req ≡ eval_decision r p req
    version : q.bundle_version ≡ p.bundle_version
    coherent : IsCoherent (key_of r p) (eval_decision r p) q.cache

  perform-Kept :
      (now later : ℕ) (call : Call) (p : RegoPdp r)
      → KeyDecides (key_of r p) (eval_decision r p)
      → IsCoherent (key_of r p) (eval_decision r p) p.cache
      → Kept p (perform now later call p).1
  unfolding perform evaluate evaluate_detailed eval_decision
  perform-Kept now later (plain req) p k c = record {
    verdicts = λ q. refl;
    version = refl;
    coherent =
        answer-IsCoherent (key_of r p) (eval_decision r p) now later req
          (new_response (eval_decision r p req) "rego") p.cache k refl c;
  }
  perform-Kept now later (detailed req) p k c = record {
    verdicts = λ q. refl;
    version = refl;
    coherent =
        answer-IsCoherent (key_of r p) (eval_decision r p) now later req
          (detailed_response r p (eval_decision r p req)) p.cache k refl c;
  }

  perform-decision :
      (now later : ℕ) (call : Call) (p : RegoPdp r)
      → IsCoherent (key_of r p) (eval_decision r p) p.cache
      → (perform now later call p).0 ≡ eval_decision r p (request call)
  unfolding perform evaluate evaluate_detailed
  perform-decision now later (plain req) p c =
      answer-decision (key_of r p) (eval_decision r p) now later req
        (new_response (eval_decision r p req) "rego") p.cache refl c
  perform-decision now later (detailed req) p c =
      answer-decision (key_of r p) (eval_decision r p) now later req
        (detailed_response r p (eval_decision r p req)) p.cache refl c

  Kept-key :
      (p q : RegoPdp r) → Kept p q → (req : DecisionRequest) → key_of r q req ≡ key_of r p req
  Kept-key p q h req = ap (hash_request r.hasher req) h.version

  Kept-KeyDecides :
      (p q : RegoPdp r)
      → Kept p q
      → KeyDecides (key_of r p) (eval_decision r p)
      → KeyDecides (key_of r q) (eval_decision r q)
  Kept-KeyDecides p q h k a b e =
      h.verdicts a ∙ k a b (sym (Kept-key p q h a) ∙ e ∙ Kept-key p q h b) ∙ sym (h.verdicts b)

  Kept-IsCoherent :
      (p q : RegoPdp r) → Kept p q → IsCoherent (key_of r q) (eval_decision r q) q.cache
  Kept-IsCoherent p q h = record {
    at_key = λ req e g.
        h.coherent.at_key req e
          (ap (λ (j : ℕ). Map.get j q.cache.entries) (sym (Kept-key p q h req)) ∙ g)
        ∙ sym (h.verdicts req);
  }

  -- Where requests with one key have one verdict, a pdp with coherent entries answers every run of
  -- calls of `evaluate` and `evaluate_detailed`, whatever the clock reads and whatever is evicted,
  -- with the engine's own verdicts.
  pub evaluate_all-eval_decision :
      (run : List (ℕ × ℕ × Call)) (p : RegoPdp r)
      → KeyDecides (key_of r p) (eval_decision r p)
      → IsCoherent (key_of r p) (eval_decision r p) p.cache
      → evaluate_all run p ≡ map (λ (x : ℕ × ℕ × Call). eval_decision r p (request x.2)) run
  unfolding evaluate_all
  evaluate_all-eval_decision [] p k c = refl
  evaluate_all-eval_decision ((now, later, call) ∷ rest) p k c =
      let kept : Kept p (perform now later call p).1 = perform-Kept now later call p k c in
      let same : eval_decision r (perform now later call p).1 ≡ eval_decision r p =
        fun_ext kept.verdicts in
      ap₂ ◌∷◌ (perform-decision now later call p c) (
        evaluate_all-eval_decision rest (perform now later call p).1 (Kept-KeyDecides p _ kept k)
          (Kept-IsCoherent p _ kept)
        ∙ rw same)

  -- What the key leaves out: after a request whose key the cache does not hold was evaluated, the
  -- same verdict is given, within the time to live, to every request that differs from it in the
  -- process name, the recent system calls and the attributes only, whatever the policy says of it.
  pub evaluate-stale :
      (t0 t1 t2 t3 : ℕ) (req : DecisionRequest) (comm : Option String) (window : List SyscallEvent)
      (attributes : List (String × String)) (p : RegoPdp r)
      → p.cache.poisoned ≡ false
      → Map.get (key_of r p req) p.cache.entries ≡ none
      → t2 - t1 < p.cache.ttl
      → (evaluate r t2 t3
          (record req { comm = comm; recent_syscalls = window; attributes = attributes })
          (evaluate r t0 t1 req p).1).0
        ≡ eval_decision r p req
  unfolding evaluate hash_request
  evaluate-stale t0 t1 t2 t3 req comm window attributes p alive miss fresh =
      ap (λ (x : DecisionResponse). x.decision)
        (answer-again (key_of r p req) t0 t1 t2 t3 (new_response (eval_decision r p req) "rego") _
          p.cache alive miss fresh)

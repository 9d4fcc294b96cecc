-- ===== src/Policy/Rego/Eval.antt =====
-- crates/secureops-policy/src/lib.rs: `RegoPdp::eval_decision` and `reload`.
use secureops.Prelude.{ℕ, ◌≡◌, inl, inr, true, false, arith, ok, err, Result-cases, Bool-cases}
use secureops.Prelude.Map
use secureops.Policy.Types.{PolicyError, allow, DecisionRequest, PolicyBundle, rego}
use secureops.Policy.Cache
use secureops.Policy.Cache.{DecisionCache}
use secureops.Policy.Rego.{
  Regorus, RegoPdp, build_engine, verdict, eval_decision, evaluate, reload, version,
}

module _ (r : Regorus) where
  open r use {Engine, Value, Json, Doc, request_to_string, from_json_str, eval_bool_query}

  -- What must have gone right for an `allow`.
  pub record Allowed (p : RegoPdp r) (req : DecisionRequest) : Type 0 where
    pub text : Json
    pub input : Value
    pub serialized : request_to_string req ≡ ok text
    pub parsed : from_json_str text ≡ ok input
    pub locked : p.engine_poisoned ≡ false
    pub queried : eval_bool_query p.engine input "data.secureops.policy.allow" ≡ ok true

  verdict-allow :
      (engine : Engine) (input : Value)
      → verdict r engine input ≡ allow
      → eval_bool_query engine input "data.secureops.policy.allow" ≡ ok true
  unfolding verdict
  verdict-allow engine input h = ground arith

  -- `allow` comes only from a request that was serialized and parsed, an engine lock that is not
  -- poisoned, and the query for `allow` answering true: every failure on the way denies.
  pub eval_decision-Allowed :
      (p : RegoPdp r) (req : DecisionRequest) → eval_decision r p req ≡ allow → Allowed p req
  unfolding eval_decision
  eval_decision-Allowed p req h = elim (Result-cases (request_to_string req)) [
    | inr bad ↦ ground (arith, bad.1)
    | inl text ↦ elim (Result-cases (from_json_str text.0)) [
      | inr bad ↦ ground (arith, text.1, bad.1)
      | inl input ↦ elim (Bool-cases p.engine_poisoned) [
        | inl bad ↦ ground (arith, text.1, input.1, bad)
        | inr alive ↦ record {
          text = text.0;
          input = input.0;
          serialized = text.1;
          parsed = input.1;
          locked = alive;
          queried = verdict-allow p.engine input.0 (ground (arith, text.1, input.1, alive));
        }
      ]
    ]
  ]

  -- A reload that fails leaves the pdp as it was.
  pub reload_error-unchanged :
      (bundle : PolicyBundle Doc) (p : RegoPdp r) (e : PolicyError)
      → (reload r bundle p).0 ≡ err e
      → (reload r bundle p).1 ≡ p
  unfolding reload
  reload_error-unchanged bundle p e h = ground arith

  -- A bundle in Rego that builds an engine is swapped in at once: behind healthy locks, no verdict
  -- of the old engine is served after it, and `version` still names the old bundle.
  pub reload-evaluate :
      (bundle : PolicyBundle Doc) (p : RegoPdp r) (engine : Engine) (now later : ℕ)
      (req : DecisionRequest)
      → bundle.language ≡ rego
      → build_engine r bundle ≡ ok engine
      → p.engine_poisoned ≡ false
      → p.cache.poisoned ≡ false
      → ((reload r bundle p).0 ≡ ok tt)
        × ((evaluate r now later req (reload r bundle p).1).0
            ≡ eval_decision r (record p { engine = engine }) req)
        × (version r (reload r bundle p).1 ≡ version r p)
  unfolding reload evaluate Cache.clear Cache.get Map.get eval_decision version
  reload-evaluate bundle p engine now later req l e alive open_cache = ground (arith, e)

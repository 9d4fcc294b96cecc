-- ===== src/Policy/Rego.antt =====
-- crates/secureops-policy/src/lib.rs: `RegoPdp`. The regorus engine and serde_json are the
-- parameter `r`; an `Instant` is a number of ticks, one reading for each that the code makes.
pub mod Eval
pub mod Coherence
pub mod Default
use secureops.Prelude.{
  ℕ, Bool, true, false, String, Option, none, some, concat, List, [], ◌∷◌, if◌then◌else◌, Result,
  ok, err, ◌>>=◌, map_err, to_option, unwrap_or,
}
use secureops.Core.Types.{Severity, high}
use secureops.Policy.Types.{
  PolicyError, compile, reload as reload_error, Decision, allow, deny, escalate, DecisionRequest,
  DecisionResponse, new_response, PolicyLanguage, rego, cedar, PolicyBundle,
}
use secureops.Policy.Cache
use secureops.Policy.Cache.{HashInput, hash_request, DecisionCache}
use secureops.Policy.Cached.{answer}

-- What the code calls of regorus and serde_json; an error is its text.
pub record Regorus : Type 1 where
  pub Engine : Type 0
  pub Value : Type 0
  -- a JSON text
  pub Json : Type 0
  pub Doc : Type 0
  pub request_to_string : DecisionRequest → Result String Json
  pub doc_to_string : Doc → Result String Json
  pub is_null : Doc → Bool
  pub from_json_str : Json → Result String Value
  pub new_engine : Engine
  pub add_policy : Engine → String → String → Result String Engine
  pub add_data : Engine → Value → Result String Engine
  pub eval_bool_query : Engine → Value → String → Result String Bool
  -- `DefaultHasher`, from std
  pub hasher : HashInput → ℕ

-- `{:?}` of a language
abbrev debug_language : PolicyLanguage → String
debug_language rego = "Rego"
debug_language cedar = "Cedar"

module _ (r : Regorus) where
  open r use {
    Engine, Value, Doc, request_to_string, doc_to_string, is_null, from_json_str, new_engine,
    add_policy, add_data, eval_bool_query, hasher,
  }

  pub record RegoPdp : Type 0 where
    pub cache : DecisionCache
    pub engine : Engine
    pub engine_poisoned : Bool
    pub bundle_version : String

  -- The data of the bundle, added unless it is null.
  with_data : Engine → Doc → Result PolicyError Engine
  with_data engine doc = if is_null doc then ok engine else (do
    data_json ← map_err compile (doc_to_string doc)
    value ← map_err compile (from_json_str data_json)
    map_err compile (add_data engine value))

  -- The engine that `new` and `reload` build from a bundle.
  unfoldable pub build_engine : PolicyBundle Doc → Result PolicyError Engine
  unfolding with_data
  build_engine bundle = do
    engine ← map_err compile (add_policy new_engine "secureops.rego" bundle.source)
    with_data engine bundle.bundle_data

  abbrev is_rego : PolicyLanguage → Bool
  is_rego rego = true
  is_rego cedar = false

  -- `RegoPdp::new`, with `Duration::from_secs(60)` as 60 times the ticks of a second.
  unfoldable pub new : ℕ → PolicyBundle Doc → Result PolicyError RegoPdp
  unfolding build_engine Cache.new concat
  new minute bundle =
      if is_rego bundle.language
      then (do
        engine ← build_engine bundle
        ok (record {
          cache = Cache.new 1000 minute;
          engine = engine;
          engine_poisoned = false;
          bundle_version = bundle.version;
        }))
      else err
          (compile (concat ("only Rego supported, got " ∷ debug_language bundle.language ∷ [])))

  -- The two queries, the second only where the first is not true.
  pub verdict : Engine → Value → Decision
  verdict engine input =
      if unwrap_or (eval_bool_query engine input "data.secureops.policy.allow") false
      then allow
      else if unwrap_or (eval_bool_query engine input "data.secureops.policy.escalate") false
      then escalate
      else deny

  -- `eval_decision`
  unfoldable pub eval_decision : RegoPdp → DecisionRequest → Decision
  unfolding verdict
  eval_decision p req = elim (request_to_string req) [
    | err _ ↦ deny
    | ok input_json ↦ elim (from_json_str input_json) [
      | err _ ↦ deny
      | ok input ↦ if p.engine_poisoned then deny else verdict p.engine input
    ]
  ]

  abbrev pub key_of : RegoPdp → DecisionRequest → ℕ
  key_of p req = hash_request hasher req p.bundle_version

  abbrev with_cache : RegoPdp → DecisionResponse × DecisionCache → DecisionResponse × RegoPdp
  with_cache p (resp, cache) = (resp, record p { cache = cache })

  abbrev verdict_of : DecisionResponse × RegoPdp → Decision × RegoPdp
  verdict_of (resp, p) = (resp.decision, p)

  -- `evaluate`: what it returns is the decision of the response that it stores or finds.
  unfoldable pub evaluate : ℕ → ℕ → DecisionRequest → RegoPdp → Decision × RegoPdp
  unfolding answer
  evaluate now later req p = verdict_of (
      with_cache p
        (answer (key_of p req) (new_response (eval_decision p req) "rego") now later p.cache))

  abbrev alert_severity : Decision → Option Severity
  alert_severity escalate = some high
  alert_severity _ = none

  pub detailed_response : RegoPdp → Decision → DecisionResponse
  detailed_response p decision = record {
    decision = decision;
    reason = "evaluated by Rego (secureops.policy)";
    severity = alert_severity decision;
    policy_version = some p.bundle_version;
    cached = false;
  }

  -- `evaluate_detailed`
  unfoldable pub evaluate_detailed : ℕ → ℕ → DecisionRequest → RegoPdp → DecisionResponse × RegoPdp
  unfolding answer detailed_response
  evaluate_detailed now later req p =
      with_cache p
        (answer (key_of p req) (detailed_response p (eval_decision p req)) now later p.cache)

  pub swap_in : RegoPdp → Engine → Result PolicyError (Unit {0}) × RegoPdp
  swap_in p engine =
      if p.engine_poisoned
      then (err (reload_error "engine lock poisoned"), p)
      else (ok tt, record p { engine = engine; cache = Cache.clear p.cache })

  -- `reload`, with the pdp as it is left beside the result.
  unfoldable pub reload : PolicyBundle Doc → RegoPdp → Result PolicyError (Unit {0}) × RegoPdp
  unfolding build_engine swap_in
  reload bundle p =
      if is_rego bundle.language
      then elim (build_engine bundle) [ err e ↦ (err e, p) | ok engine ↦ swap_in p engine ]
      else (err (reload_error "only Rego supported"), p)

  unfoldable pub version : RegoPdp → Option String
  version p = some p.bundle_version

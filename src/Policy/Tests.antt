-- ===== src/Policy/Tests.antt =====
-- Runs of the policy crate's tests, and instances of the theorems.
use secureops.Prelude.{
  ℕ, ◌≡◌, refl, Bool, true, false, String, some, List, [], ◌∷◌, map, str_eq, arith, if◌then◌else◌,
  Result, ok, err,
}
use secureops.Prelude.Map
use secureops.Prelude.Map.{ℕ-Key}
use secureops.Policy.Types.{
  allow, deny, Action, connect, resolve, open_file, exec, capability, SyscallEvent, DecisionRequest,
  connect_request, new_response, PolicyBundle, rego,
}
use secureops.Policy.Cache
use secureops.Policy.Cache.{HashInput, DecisionCache, host_or_empty}
use secureops.Policy.Cached.Coherence.{KeyDecides, IsCoherent}
use secureops.Policy.Rego.{Regorus, RegoPdp, key_of, eval_decision, evaluate}
use secureops.Policy.Rego.Default.{rego_allow, rego_escalate, rego_escalate-false, RunsDefault}
use secureops.Policy.Rego.Coherence.{
  Call, plain, detailed, request, evaluate_all, evaluate_all-eval_decision, evaluate-stale,
}
use secureops.Policy.Cedar
use secureops.Policy.Cedar.{
  CedarLib, CedarPdp, eval_cedar, resource_str, action_str, default_permits,
}
use secureops.Policy.Cedar.Laws.{eval_input, evaluate-eval_cedar, eval_cedar-Allowlist}

-- An engine that evaluates the default policy over the hosts that it was given as data.
data ToyJson : Type 0 where
  of_request : DecisionRequest → ToyJson
  of_hosts : List String → ToyJson

abbrev same_text : String → String
same_text s = s

abbrev query : List String → ToyJson → String → Result String Bool
query hosts (of_request req) name = ok (
    if str_eq name "data.secureops.policy.allow"
    then rego_allow hosts req
    else rego_escalate same_text hosts req)
query hosts (of_hosts _) name = err "no input"

abbrev add_hosts : List String → ToyJson → Result String (List String)
add_hosts hosts (of_hosts more) = ok more
add_hosts hosts (of_request _) = err "not a data document"

abbrev action_number : Action → ℕ
action_number connect = 1
action_number resolve = 2
action_number open_file = 3
action_number exec = 4
action_number capability = 5

abbrev toy : Regorus
toy = record {
  Engine = List String;
  Value = ToyJson;
  Json = ToyJson;
  Doc = List String;
  request_to_string = λ req. ok (of_request req);
  doc_to_string = λ hosts. ok (of_hosts hosts);
  is_null = λ _. false;
  from_json_str = λ j. ok j;
  new_engine = [];
  add_policy = λ engine _ _. ok engine;
  add_data = add_hosts;
  eval_bool_query = query;
  hasher = λ i. action_number i.action;
}

abbrev pdp : List String → RegoPdp toy
pdp hosts = record {
  cache = record { ttl = 60; capacity = 1000; entries = []; poisoned = false };
  engine = hosts;
  engine_poisoned = false;
  bundle_version = "default-v1";
}

abbrev safe : DecisionRequest
safe = connect_request 1 "safe.example" 443

abbrev env_read : SyscallEvent
env_read = record { syscall = "openat"; target = some "/home/agent/.env"; age_ms = 200 }

-- The default policy over a request that read `.env` 200 ms before: the escalation does not fire.
escalate_test : eval_decision toy (pdp []) (record safe { recent_syscalls = env_read ∷ [] }) ≡ deny
unfolding eval_decision rego_allow rego_escalate Map.get
escalate_test = refl

allow_test : eval_decision toy (pdp ("safe.example" ∷ [])) safe ≡ allow
unfolding eval_decision rego_allow
allow_test = refl

abbrev empty_bundle : PolicyBundle (List String)
empty_bundle = record { version = "v2"; language = rego; source = ""; bundle_data = [] }

rego_escalate-false_example :
    rego_escalate same_text [] (record safe { recent_syscalls = env_read ∷ [] }) ≡ false
rego_escalate-false_example =
    rego_escalate-false same_text [] (record safe { recent_syscalls = env_read ∷ [] })

toy-RunsDefault : (hosts : List String) → RunsDefault toy same_text hosts hosts
toy-RunsDefault hosts = record {
  input = λ req. of_request req;
  json = λ req. of_request req;
  serialized = λ req. refl;
  parsed = λ req. refl;
  allows = λ req. refl;
  escalates = λ req. refl;
}

-- With no host listed the action alone decides, so the toy hash confuses nothing.
toy-KeyDecides : KeyDecides (key_of toy (pdp [])) (eval_decision toy (pdp []))
unfolding eval_decision rego_allow Cache.hash_request
toy-KeyDecides a b h =
    ground (arith, rego_escalate-false same_text [] a, rego_escalate-false same_text [] b)

pdp-IsCoherent :
    (hosts : List String)
    → IsCoherent (key_of toy (pdp hosts)) (eval_decision toy (pdp hosts)) (pdp hosts).cache
unfolding Map.get
pdp-IsCoherent hosts = record { at_key = λ req e h. absurd (cc) }

abbrev calls : List (ℕ × ℕ × Call toy)
calls = (0, 1, plain safe) ∷ (2, 3, detailed safe) ∷ (90, 91, plain safe) ∷ []

evaluate_all-eval_decision_example :
    evaluate_all toy calls (pdp [])
    ≡ map (λ (x : ℕ × ℕ × Call toy). eval_decision toy (pdp []) (request toy x.2)) calls
evaluate_all-eval_decision_example =
    evaluate_all-eval_decision toy calls (pdp []) toy-KeyDecides (pdp-IsCoherent [])

evaluate-stale_example :
    (evaluate toy 2 3
      (record safe { comm = some "agent"; recent_syscalls = env_read ∷ []; attributes = [] })
      (evaluate toy 0 1 safe (pdp [])).1).0
    ≡ eval_decision toy (pdp []) safe
unfolding Map.get
evaluate-stale_example =
    evaluate-stale toy 0 1 2 3 safe (some "agent") (env_read ∷ []) [] (pdp []) refl refl
      (omega arith)

abbrev small : DecisionCache
small = record {
  ttl = 60;
  capacity = 1;
  entries = (7, record { resp = new_response deny "a"; inserted = 0 }) ∷ [];
  poisoned = false;
}

-- A Cedar library that parses every name and authorizes as the default policy says.
abbrev toy_authorized : String × Bool → String → Bool
toy_authorized (action, allowed) policies =
    if str_eq action "Action::\"connect\""
    then allowed
    else if str_eq action "Action::\"resolve\""
    then allowed
    else true

abbrev toy_cedar : CedarLib
toy_cedar = record {
  PolicySet = String;
  EntityUid = String;
  Context = Bool;
  Request = String × Bool;
  parse_policies = λ s. ok s;
  parse_uid = λ s. some s;
  make_context = λ b. some b;
  make_request = λ principal action resource ctx. some (action, ctx);
  is_authorized = toy_authorized;
  hasher = λ i. action_number i.action;
}

abbrev cedar_pdp : List String → CedarPdp toy_cedar
cedar_pdp hosts = record {
  cache = record { ttl = 60; capacity = 1000; entries = []; poisoned = false };
  policies = "default";
  allow_hosts = hosts;
  bundle_version = "default-cedar-v1";
}

toy_permits :
    (pid : ℕ) (a : Action) (resource : String) (b : Bool)
    → toy_authorized (action_str a, b) "default" ≡ default_permits a b
unfolding action_str default_permits
toy_permits pid connect resource b = refl
toy_permits pid _ resource b = refl

cedar-RunsDefault : (hosts : List String) → Cedar.Laws.RunsDefault toy_cedar (cedar_pdp hosts)
cedar-RunsDefault hosts = record {
  uid = λ s. s;
  context = λ b. b;
  request = λ principal action resource ctx. (action, ctx);
  principal_parses = λ pid. refl;
  action_parses = λ a. refl;
  contexts = λ b. refl;
  requests = λ x y z c. refl;
  permits = toy_permits;
}

-- With no host listed the action alone decides.
cedar_harmless :
    (i j : HashInput)
    → action_number i.action ≡ action_number j.action
    → eval_input toy_cedar (cedar_pdp []) i ≡ eval_input toy_cedar (cedar_pdp []) j
unfolding eval_input eval_cedar
cedar_harmless i j h = ground arith

cedar-IsCoherent :
    IsCoherent
      (Cedar.key_of toy_cedar (cedar_pdp []))
      (eval_cedar toy_cedar (cedar_pdp []))
      (cedar_pdp []).cache
unfolding Map.get
cedar-IsCoherent = record { at_key = λ req e h. absurd (cc) }

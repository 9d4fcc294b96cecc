-- ===== src/Policy/Cedar.antt =====
-- crates/secureops-policy/src/lib.rs: `CedarPdp` and its embedded policy text. The cedar-policy
-- crate is the parameter `k`.
pub mod Laws
use secureops.Prelude.{
  ℕ, Bool, true, false, String, Option, none, some, List, [], ◌∷◌, ◌==◌, concat, show,
  if◌then◌else◌, Result, ok, err, ◌>>=◌, map_err,
}
use Prim.Native.Char.{code}
use Prim.Native.String
use secureops.Core.Types.{Severity, high}
use secureops.Policy.Types.{
  PolicyError, compile, reload as reload_error, Decision, allow, deny, escalate, Action, connect,
  resolve, open_file, exec, capability, DecisionRequest, DecisionResponse, new_response,
}
use secureops.Policy.Cache
use secureops.Policy.Cache.{HashInput, hash_request, host_or_empty, DecisionCache}
use secureops.Policy.Cached.{answer}
use secureops.Policy.Allowlist.{listed}

-- What the code calls of cedar-policy; `hasher` is std's `DefaultHasher`.
pub record CedarLib : Type 1 where
  pub PolicySet : Type 0
  pub EntityUid : Type 0
  pub Context : Type 0
  pub Request : Type 0
  pub parse_policies : String → Result String PolicySet
  pub parse_uid : String → Option EntityUid
  -- the context `{ "allowedByPolicy": b }`
  pub make_context : Bool → Option Context
  pub make_request : EntityUid → EntityUid → EntityUid → Context → Option Request
  pub is_authorized : Request → PolicySet → Bool
  pub hasher : HashInput → ℕ

-- `host.replace('"', "'")`
unfoldable pub replace_quotes : String → String
replace_quotes String.[] = ""
replace_quotes (String.◌∷◌ c s) =
    let rest = replace_quotes s in if code c == 34 then String.◌++◌ "'" rest else String.◌∷◌ c rest

unfoldable pub action_str : Action → String
action_str connect = "Action::\"connect\""
action_str resolve = "Action::\"resolve\""
action_str exec = "Action::\"exec\""
action_str open_file = "Action::\"open\""
action_str capability = "Action::\"capability\""

unfoldable pub principal_str : ℕ → String
unfolding concat show
principal_str pid = concat ("Agent::\"pid-" ∷ show pid ∷ "\"" ∷ [])

unfoldable pub resource_str : String → String
unfolding concat replace_quotes
resource_str host = concat ("Resource::\"" ∷ replace_quotes host ∷ "\"" ∷ [])

-- `allowed_by_policy`
unfoldable pub allowed_by_policy : List String → Action → String → Bool
allowed_by_policy hosts connect host = listed hosts host
allowed_by_policy hosts resolve host = listed hosts host
allowed_by_policy hosts _ host = true

-- DEFAULT_CEDAR_POLICY: its first `permit` reads `context.allowedByPolicy`, its second does not.
unfoldable pub default_permits : Action → Bool → Bool
default_permits connect allowed = allowed
default_permits resolve allowed = allowed
default_permits _ allowed = true

module _ (k : CedarLib) where
  open k use {
    PolicySet, EntityUid, Context, Request, parse_policies, parse_uid, make_context, make_request,
    is_authorized, hasher,
  }

  pub record CedarPdp : Type 0 where
    pub cache : DecisionCache
    pub policies : PolicySet
    pub allow_hosts : List String
    pub bundle_version : String

  -- `CedarPdp::new`
  unfoldable pub new : ℕ → String → List String → String → Result PolicyError CedarPdp
  unfolding Cache.new
  new minute cedar_src allowed_hosts version = do
    policies ← map_err compile (parse_policies cedar_src)
    ok (record {
      cache = Cache.new 1000 minute;
      policies = policies;
      allow_hosts = allowed_hosts;
      bundle_version = version;
    })

  -- `match … { Ok(x) => x, Err(_) => return Decision::Deny }`
  abbrev or_deny : {A : Type 0} → Option A → (A → Decision) → Decision
  or_deny none f = deny
  or_deny (some a) f = f a

  unfoldable pub eval_cedar : CedarPdp → DecisionRequest → Decision
  unfolding action_str principal_str resource_str allowed_by_policy
  eval_cedar p req =
      let host = host_or_empty req.destination_host in
      or_deny (parse_uid (principal_str req.pid)) λ principal.
        or_deny (parse_uid (action_str req.action)) λ action.
          or_deny (parse_uid (resource_str host)) λ resource.
            or_deny (make_context (allowed_by_policy p.allow_hosts req.action host)) λ ctx.
              or_deny (make_request principal action resource ctx)
                λ cedar_req. if is_authorized cedar_req p.policies then allow else deny

  abbrev pub key_of : CedarPdp → DecisionRequest → ℕ
  key_of p req = hash_request hasher req p.bundle_version

  abbrev with_cache : CedarPdp → DecisionResponse × DecisionCache → DecisionResponse × CedarPdp
  with_cache p (resp, cache) = (resp, record p { cache = cache })

  abbrev verdict_of : DecisionResponse × CedarPdp → Decision × CedarPdp
  verdict_of (resp, p) = (resp.decision, p)

  unfoldable pub evaluate : ℕ → ℕ → DecisionRequest → CedarPdp → Decision × CedarPdp
  unfolding answer
  evaluate now later req p = verdict_of (
      with_cache p
        (answer (key_of p req) (new_response (eval_cedar p req) "cedar") now later p.cache))

  abbrev alert_severity : Decision → Option Severity
  alert_severity escalate = some high
  alert_severity _ = none

  pub detailed_response : CedarPdp → Decision → DecisionResponse
  detailed_response p decision = record {
    decision = decision;
    reason = "evaluated by Cedar (secureops default policy)";
    severity = alert_severity decision;
    policy_version = some p.bundle_version;
    cached = false;
  }

  unfoldable pub evaluate_detailed :
      ℕ → ℕ → DecisionRequest → CedarPdp → DecisionResponse × CedarPdp
  unfolding answer detailed_response
  evaluate_detailed now later req p =
      with_cache p
        (answer (key_of p req) (detailed_response p (eval_cedar p req)) now later p.cache)

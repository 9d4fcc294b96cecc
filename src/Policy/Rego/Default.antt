-- ===== src/Policy/Rego/Default.antt =====
-- crates/secureops-policy/src/lib.rs: the Rego text DEFAULT_REGO_POLICY, read as the JSON that serde
-- writes of a request: `DecisionRequest` renames its fields to camelCase, `SyscallEvent` does not.
use secureops.Prelude.{
  ℕ, ◌≡◌, refl, Bool, true, false, not, ◌&&◌, String, Option, none, some, List, [], ◌∷◌, arith, any,
  ltb, str_eq, codes, contains, ok,
}
use secureops.Prelude.Map
use secureops.Prelude.Map.{String-Key}
use secureops.Policy.Types.{Action, connect, resolve, SyscallEvent, DecisionRequest}
use secureops.Policy.Allowlist
use secureops.Policy.Allowlist.{listed}
use secureops.Policy.Rego.{Regorus, RegoPdp, verdict, eval_decision}

pub data JsonValue : Type 0 where
  null : JsonValue
  text : String → JsonValue
  number : ℕ → JsonValue

abbrev json_option : Option String → JsonValue
json_option none = null
json_option (some s) = text s

-- The object that `derive(Serialize)` writes of a `SyscallEvent`.
pub event_json : SyscallEvent → List (String × JsonValue)
event_json e =
    ("syscall", text e.syscall)
    ∷ ("target", json_option e.target)
    ∷ ("age_ms", number e.age_ms)
    ∷ []

-- `input.destinationHost == data.allowedHosts[_]`
abbrev host_listed : List String → Option String → Bool
host_listed hosts none = false
host_listed hosts (some h) = listed hosts h

-- The three rules named `allow`.
pub allow_rules : List String → Action → Option String → Bool
allow_rules hosts connect host = host_listed hosts host
allow_rules hosts resolve host = host_listed hosts host
allow_rules hosts _ host = true

unfoldable pub rego_allow : List String → DecisionRequest → Bool
unfolding allow_rules
rego_allow hosts req = allow_rules hosts req.action req.destination_host

abbrev is_connect : Action → Bool
is_connect connect = true
is_connect _ = false

abbrev is_text : String → Option JsonValue → Bool
is_text s (some (text t)) = str_eq t s
is_text s _ = false

-- A field that is absent is undefined, and so is a comparison with it.
abbrev below : ℕ → Option JsonValue → Bool
below n (some (number k)) = ltb k n
below n _ = false

abbrev mentions : (String → String) → String → Option JsonValue → Bool
mentions lower s (some (text t)) = contains (codes (lower t)) (codes s)
mentions lower s _ = false

-- One event of `input.recentSyscalls` against the body of `escalate`.
pub event_matches : (String → String) → List (String × JsonValue) → Bool
event_matches lower event =
    is_text "openat" (Map.get "syscall" event)
    && mentions lower ".env" (Map.get "target" event)
    && below 5000 (Map.get "ageMs" event)

-- The rule `escalate`; `lower` is Rego's built-in function.
unfoldable pub rego_escalate : (String → String) → List String → DecisionRequest → Bool
unfolding rego_allow event_json event_matches
rego_escalate lower hosts req =
    is_connect req.action
    && not (rego_allow hosts req)
    && any (λ e. event_matches lower (event_json e)) req.recent_syscalls

event_matches-event_json :
    (lower : String → String) (e : SyscallEvent) → event_matches lower (event_json e) ≡ false
unfolding event_matches event_json Map.get
event_matches-event_json lower e = ground arith

any-event_matches :
    (lower : String → String) (es : List SyscallEvent)
    → any (λ e. event_matches lower (event_json e)) es ≡ false
any-event_matches lower [] = refl
any-event_matches lower (e ∷ es) =
    ground (arith, event_matches-event_json lower e, any-event_matches lower es)

-- The default policy never escalates: the rule reads `ageMs`, and the field is written `age_ms`.
pub rego_escalate-false :
    (lower : String → String) (hosts : List String) (req : DecisionRequest)
    → rego_escalate lower hosts req ≡ false
unfolding rego_escalate
rego_escalate-false lower hosts req = ground (arith, any-event_matches lower req.recent_syscalls)

module _ (r : Regorus) where
  -- An engine that serializes every request and evaluates the default policy over these hosts.
  pub record RunsDefault (lower : String → String) (hosts : List String) (engine : r.Engine)
      : Type 0 where
    pub input : DecisionRequest → r.Value
    pub json : DecisionRequest → r.Json
    pub serialized : (req : DecisionRequest) → r.request_to_string req ≡ ok (json req)
    pub parsed : (req : DecisionRequest) → r.from_json_str (json req) ≡ ok (input req)
    pub allows :
        (req : DecisionRequest)
        → r.eval_bool_query engine (input req) "data.secureops.policy.allow"
          ≡ ok (rego_allow hosts req)
    pub escalates :
        (req : DecisionRequest)
        → r.eval_bool_query engine (input req) "data.secureops.policy.escalate"
          ≡ ok (rego_escalate lower hosts req)

  -- Under the default policy a pdp with a healthy lock decides as `AllowlistEngine` does over the
  -- same hosts, unless the empty host is listed: it never escalates, whatever the recent calls were.
  pub eval_decision-Allowlist :
      (lower : String → String) (hosts : List String) (p : RegoPdp r)
      → RunsDefault lower hosts p.engine
      → p.engine_poisoned ≡ false
      → listed hosts "" ≡ false
      → (req : DecisionRequest) → eval_decision r p req ≡ Allowlist.evaluate hosts req
  unfolding eval_decision verdict Allowlist.evaluate rego_allow
  eval_decision-Allowlist lower hosts p d alive named req = ground (
    arith,
    d.serialized req,
    d.parsed req,
    d.allows req,
    d.escalates req,
    rego_escalate-false lower hosts req,
  )

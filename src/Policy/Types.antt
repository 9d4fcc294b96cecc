-- ===== src/Policy/Types.antt =====
-- crates/secureops-policy/src/lib.rs: decisions, requests, responses, bundles and errors.
use secureops.Prelude.{ℕ, Bool, true, false, String, Option, none, some, List, []}
use secureops.Core.Types.{Severity}

pub data PolicyError : Type 0 where
  load compile evaluation reload : String → PolicyError

pub data Decision : Type 0 where
  allow deny escalate : Decision

-- `Decision::as_str`
unfoldable pub decision_as_str : Decision → String
decision_as_str allow = "ALLOW"
decision_as_str deny = "DENY"
decision_as_str escalate = "ESCALATE"

abbrev pub is_allowed : Decision → Bool
is_allowed allow = true
is_allowed _ = false

pub data Action : Type 0 where
  connect resolve open_file exec capability : Action

pub record SyscallEvent : Type 0 where
  pub syscall : String
  pub target : Option String
  pub age_ms : ℕ

pub record DecisionRequest : Type 0 where
  pub action : Action
  pub destination_host : Option String
  pub destination_port : Option ℕ
  pub pid : ℕ
  pub comm : Option String
  pub recent_syscalls : List SyscallEvent
  pub attributes : List (String × String)

-- `DecisionRequest::connect`
abbrev pub connect_request : ℕ → String → ℕ → DecisionRequest
connect_request pid host port = record {
  action = connect;
  destination_host = some host;
  destination_port = some port;
  pid = pid;
  comm = none;
  recent_syscalls = [];
  attributes = [];
}

pub record DecisionResponse : Type 0 where
  pub decision : Decision
  pub reason : String
  pub severity : Option Severity
  pub policy_version : Option String
  pub cached : Bool

-- `DecisionResponse::new`
abbrev pub new_response : Decision → String → DecisionResponse
new_response decision reason = record {
  decision = decision;
  reason = reason;
  severity = none;
  policy_version = none;
  cached = false;
}

-- `DecisionResponse::fail_closed`
abbrev pub fail_closed : String → DecisionResponse
fail_closed reason = new_response deny reason

pub data PolicyLanguage : Type 0 where
  rego cedar : PolicyLanguage

-- `Doc` is the type of the JSON data document.
pub record PolicyBundle (Doc : Type 0) : Type 0 where
  pub version : String
  pub language : PolicyLanguage
  pub source : String
  pub bundle_data : Doc

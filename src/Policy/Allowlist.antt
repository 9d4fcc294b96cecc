-- ===== src/Policy/Allowlist.antt =====
-- crates/secureops-policy/src/lib.rs: `AllowlistEngine`.
use secureops.Prelude.{Bool, Option, String, List, any, str_eq, if◌then◌else◌}
use secureops.Policy.Types.{Decision, allow, deny, connect, resolve, Action, DecisionRequest}
use secureops.Policy.Cache.{host_or_empty}

-- `HashSet::contains`
abbrev pub listed : List String → String → Bool
listed hosts host = any (λ h. str_eq h host) hosts

pub govern : List String → Action → Option String → Decision
govern hosts connect host = if listed hosts (host_or_empty host) then allow else deny
govern hosts resolve host = if listed hosts (host_or_empty host) then allow else deny
govern hosts _ host = allow

-- `AllowlistEngine::evaluate`; the engine is its set of hosts.
unfoldable pub evaluate : List String → DecisionRequest → Decision
unfolding govern
evaluate hosts req = govern hosts req.action req.destination_host

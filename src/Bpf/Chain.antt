-- ===== src/Bpf/Chain.antt =====
-- crates/secureops-bpf/src/chain.rs: `ChainCorrelator`. Times are u64 milliseconds; `observe` is
-- `observe_at` at the clock's reading. A lock is held for a whole operation, so that operations
-- come one after the other.
pub mod Window
use secureops.Prelude.{
  ℕ, ℤ, ◌-◌, Bool, true, false, Option, none, some, List, [], String, length, leb, if◌then◌else◌,
}
use secureops.Prelude.Map
use secureops.Prelude.Map.{ℤ-Key}
use secureops.Bpf.Events.{SyscallKind, openat, connect, execve, SyscallEvent, is_secret_read}

pub record ExfilChain : Type 0 where
  pub pid : ℤ
  pub comm : String
  pub cred_path : String
  pub dest : String
  pub gap_ms : ℕ

pub record PidState : Type 0 where
  pub cred_path : String
  pub comm : String
  pub opened_at_ms : ℕ

pub record ChainCorrelator : Type 0 where
  pub ttl_ms : ℕ
  pub states : List (ℤ × PidState)

unfoldable pub new : ℕ → ChainCorrelator
new ttl = record { ttl_ms = ttl; states = [] }

abbrev pub with_default_ttl : ChainCorrelator
with_default_ttl = record { ttl_ms = 500; states = [] }

abbrev pub state_of : SyscallEvent → ℕ → PidState
state_of e now = record { cred_path = e.path_or_host; comm = e.comm; opened_at_ms = now }

-- A dial-out, on what is remembered of its process.
abbrev pub match_state : ℕ → SyscallEvent → ℕ → Option PidState → Option ExfilChain
match_state ttl e now none = none
match_state ttl e now (some st) =
    let gap = now - st.opened_at_ms in
    if leb gap ttl
    then some (record {
      pid = e.pid;
      comm = st.comm;
      cred_path = st.cred_path;
      dest = e.path_or_host;
      gap_ms = gap;
    })
    else none

abbrev pub refresh : SyscallEvent → Option PidState → List (ℤ × PidState) → List (ℤ × PidState)
refresh e none states = states
refresh e (some st) states = Map.insert e.pid (record st { comm = e.comm }) states

abbrev pub observe_kind :
    SyscallKind → SyscallEvent → ℕ → ChainCorrelator → Option ExfilChain × ChainCorrelator
observe_kind openat e now c =
    if is_secret_read e
    then (none, record c { states = Map.insert e.pid (state_of e now) c.states })
    else (none, c)
observe_kind connect e now c = (
  match_state c.ttl_ms e now (Map.get e.pid c.states),
  record c { states = Map.remove e.pid c.states },
)
observe_kind execve e now c =
    (none, record c { states = refresh e (Map.get e.pid c.states) c.states })

unfoldable pub observe_at : SyscallEvent → ℕ → ChainCorrelator → Option ExfilChain × ChainCorrelator
observe_at e now c = observe_kind e.kind e now c

abbrev pub is_live : ℕ → ℕ → ℤ → PidState → Bool
is_live ttl now pid st = leb (now - st.opened_at_ms) ttl

unfoldable pub prune : ℕ → ChainCorrelator → ChainCorrelator
prune now c = record c { states = Map.retain (is_live c.ttl_ms now) c.states }

abbrev pub tracked : ChainCorrelator → ℕ
tracked c = length c.states

pub data EnforcementMode : Type 0 where
  observe_only enforce : EnforcementMode

pub data ChainAction : Type 0 where
  alert_escalate deny_connect : ChainAction

abbrev pub decide : EnforcementMode → ExfilChain → ChainAction
decide observe_only chain = alert_escalate
decide enforce chain = deny_connect

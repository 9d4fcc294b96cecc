-- ===== src/Bpf/Events.antt =====
-- crates/secureops-bpf/src/lib.rs: `SyscallEvent`.
use secureops.Prelude.{ℤ, Bool, false, ◌||◌, String, codes, contains, ends_with}
use secureops.Core.Types.{Severity, critical, MaestroLayer, l4, NistAttackType, evasion}

pub data SyscallKind : Type 0 where
  openat connect execve : SyscallKind

pub record SyscallEvent : Type 0 where
  pub pid : ℤ
  pub comm : String
  pub kind : SyscallKind
  pub path_or_host : String

abbrev has : String → String → Bool
has p part = contains (codes p) (codes part)

pub is_secret_path : String → Bool
is_secret_path p =
    ends_with (codes p) (codes ".env")
    || has p "/.env"
    || has p "credentials"
    || has p "id_rsa"
    || has p "id_ed25519"
    || has p ".pem"
    || has p "secret"
    || has p "password"
    || has p "Keychains"
    || has p ".aws"
    || has p "canary"

unfoldable pub is_secret_read : SyscallEvent → Bool
unfolding is_secret_path
is_secret_read e = elim e.kind [ openat ↦ is_secret_path e.path_or_host | _ ↦ false ]

abbrev pub maestro_layer : SyscallEvent → MaestroLayer
maestro_layer e = l4

abbrev pub nist_attack_type : SyscallEvent → NistAttackType
nist_attack_type e = evasion

abbrev pub chain_match_severity : SyscallEvent → Severity
chain_match_severity e = critical

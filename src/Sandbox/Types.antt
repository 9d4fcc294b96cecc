-- ===== src/Sandbox/Types.antt =====
-- crates/secureops-sandbox/src/lib.rs: errors, capabilities, and the findings made of errors.
use secureops.Prelude.{
  ℕ, Bool, false, ◌||◌, String, Option, List, [], ◌∷◌, ◌++◌, any, codes, starts_with, str_eq,
}
use secureops.Core.Types.{Severity, critical, high, MaestroLayer, AuditFinding, builder}

pub data SandboxError : Type 0 where
  compile : String → SandboxError
  capability_denied : String → SandboxError
  fuel_exhausted : ℕ → SandboxError
  epoch_deadline : ℕ → SandboxError
  trap : String → SandboxError
  host : String → SandboxError

pub record Capabilities : Type 0 where
  pub fs_paths : List String
  pub network_via_proxy : Bool
  pub fuel : ℕ
  pub epoch_deadline_ms : ℕ

-- `Capabilities::locked_down`
abbrev pub locked_down : Capabilities
locked_down = record { fs_paths = []; network_via_proxy = false; fuel = 0; epoch_deadline_ms = 0 }

abbrev pub within : String → String → Bool
within path granted = str_eq path granted || starts_with (codes path) (codes granted ++ 47 ∷ [])

unfoldable pub allows_path : Capabilities → String → Bool
allows_path c path = any (within path) c.fs_paths

-- Severity, OWASP id, title and description of an error.
pub describe : SandboxError → Severity × String × String × String
describe (capability_denied msg) = (high, "ASI04", "Sandbox capability denied", msg)
describe (fuel_exhausted n) =
    (high, "ASI06", "Skill fuel exhausted", "skill exceeded instruction budget")
describe (epoch_deadline n) =
    (high, "ASI06", "Skill epoch deadline exceeded", "skill exceeded wall-clock budget")
describe (trap msg) = (critical, "ASI04", "WASM guest trap", msg)
describe _ = (high, "ASI04", "Sandbox error", "skill execution failed")

-- `SkillSandbox::finding_for`, with the `{:?}` of the error as `debug`.
unfoldable pub finding_for :
    (SandboxError → String) → Option MaestroLayer → SandboxError → AuditFinding
unfolding builder describe
finding_for debug layer e =
    let (severity, owasp_asi, title, description) = describe e in
    record (builder "SC-SANDBOX-001" severity "execution-sandbox") {
      title = title;
      description = description;
      evidence = debug e;
      remediation = "Review skill sandbox policy grants (PRODUCT.md B.7)";
      references = "PRODUCT.md B.7" ∷ [];
      owasp_asi = owasp_asi;
      maestro_layer = layer;
    }

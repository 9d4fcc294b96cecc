-- ===== src/Core/Types.antt =====
-- crates/secureops-core/src/types.rs: severities, layers, findings and their builder.
use secureops.Prelude.{ℕ, Bool, false, String, Option, none, List, []}

pub data Severity : Type 0 where
  critical high medium low info : Severity

pub data MaestroLayer : Type 0 where
  l1 l2 l3 l4 l5 l6 l7 : MaestroLayer

-- `MaestroLayer::as_str`
unfoldable pub layer_as_str : MaestroLayer → String
layer_as_str l1 = "L1"
layer_as_str l2 = "L2"
layer_as_str l3 = "L3"
layer_as_str l4 = "L4"
layer_as_str l5 = "L5"
layer_as_str l6 = "L6"
layer_as_str l7 = "L7"

pub data NistAttackType : Type 0 where
  evasion poisoning privacy misuse : NistAttackType

pub record AuditFinding : Type 0 where
  pub id : String
  pub severity : Severity
  pub category : String
  pub title : String
  pub description : String
  pub evidence : String
  pub remediation : String
  pub auto_fixable : Bool
  pub references : List String
  pub owasp_asi : String
  pub maestro_layer : Option MaestroLayer
  pub nist_category : Option NistAttackType

-- `AuditFinding::builder`: the chainable setters are record updates of its result.
unfoldable pub builder : String → Severity → String → AuditFinding
builder id severity category = record {
  id = id;
  severity = severity;
  category = category;
  title = "";
  description = "";
  evidence = "";
  remediation = "";
  auto_fixable = false;
  references = [];
  owasp_asi = "";
  maestro_layer = none;
  nist_category = none;
}

pub record AuditSummary : Type 0 where
  pub critical : ℕ
  pub high : ℕ
  pub medium : ℕ
  pub low : ℕ
  pub info : ℕ
  pub auto_fixable : ℕ

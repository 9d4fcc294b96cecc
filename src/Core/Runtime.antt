-- ===== src/Core/Runtime.antt =====
-- crates/secureops-core/src/runtime.rs and ioc.rs: the values that monitors, hardening modules and
-- the threat intelligence exchange.
use secureops.Prelude.{Bool, String, Option, List}
use secureops.Core.Types.{Severity}

pub record MonitorAlert : Type 0 where
  pub timestamp : String
  pub severity : Severity
  pub monitor : String
  pub message : String
  pub details : Option String

pub record SkillScanResult : Type 0 where
  pub safe : Bool
  pub skill_name : String
  pub findings : List String
  pub dangerous_patterns : List String
  pub ioc_matches : List String

pub record HardeningAction : Type 0 where
  pub id : String
  pub description : String
  pub before : String
  pub after : String

pub record HardeningResult : Type 0 where
  pub module_name : String
  pub applied : List HardeningAction
  pub skipped : List HardeningAction
  pub errors : List String

pub record InfostealerArtifacts : Type 0 where
  pub macos : List String
  pub linux : List String

pub record IocDatabase : Type 0 where
  pub version : String
  pub last_updated : String
  pub c2_ips : List String
  pub malicious_domains : List String
  pub malicious_skill_hashes : List (String × String)
  pub typosquat_patterns : List String
  pub dangerous_prerequisite_patterns : List String
  pub infostealer_artifacts : InfostealerArtifacts

pub record HashBaseline : Type 0 where
  pub timestamp : String
  pub files : List (String × String)

pub record BaselineComparison : Type 0 where
  pub added : List String
  pub modified : List String
  pub removed : List String

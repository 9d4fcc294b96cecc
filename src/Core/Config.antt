-- ===== src/Core/Config.antt =====
-- crates/secureops-core/src/config.rs: the configuration tree that an audit reads and the hardening
-- modules change. `F` is the type of its f64 numbers. A value with no key is `none`; JSON is read and
-- written by serde_json.
use secureops.Prelude.{ℕ, Bool, Option, none, some, List, String}

pub data FailureMode : Type 0 where
  block_all safe_mode read_only : FailureMode

pub data RiskProfile : Type 0 where
  strict standard permissive : RiskProfile

pub record GatewayAuth : Type 0 where
  pub mode : Option String
  pub token : Option String
  pub password : Option String

pub record TlsConfig : Type 0 where
  pub enabled : Option Bool
  pub cert : Option String
  pub key : Option String

pub record MdnsConfig : Type 0 where
  pub mode : Option String

pub record ControlUiConfig : Type 0 where
  pub dangerously_disable_device_auth : Option Bool
  pub allow_insecure_auth : Option Bool

pub record GatewayConfig : Type 0 where
  pub bind : Option String
  pub port : Option ℕ
  pub auth_token : Option String
  pub auth : Option GatewayAuth
  pub tls : Option TlsConfig
  pub mdns : Option MdnsConfig
  pub control_ui : Option ControlUiConfig
  pub trusted_proxies : Option (List String)

pub record ExecConfig : Type 0 where
  pub approvals : Option String
  pub auto_approve : Option (List String)

pub record SandboxConfig : Type 0 where
  pub mode : Option String
  pub scope : Option String
  pub workspace_access : Option String

pub record ToolsExec : Type 0 where
  pub host : Option String

pub record ToolsConfig : Type 0 where
  pub exec : Option ToolsExec

pub record SessionConfig : Type 0 where
  pub dm_scope : Option String

pub record LoggingConfig : Type 0 where
  pub redact_sensitive : Option String

pub record MonitorsToggle : Type 0 where
  pub credentials : Option Bool
  pub memory : Option Bool
  pub skills : Option Bool
  pub cost : Option Bool

pub record CostLimits (F : Type 0) : Type 0 where
  pub hourly_limit_usd : Option F
  pub daily_limit_usd : Option F
  pub monthly_limit_usd : Option F
  pub circuit_breaker_enabled : Option Bool

pub record MemorySettings : Type 0 where
  pub integrity_checks : Option Bool
  pub prompt_injection_scan : Option Bool
  pub quarantine_enabled : Option Bool
  pub trust_levels : Option Bool

pub record SkillsSettings : Type 0 where
  pub block_unaudited : Option Bool
  pub scan_on_install : Option Bool
  pub ioc_check_enabled : Option Bool

pub record NetworkSettings : Type 0 where
  pub egress_allowlist_enabled : Option Bool
  pub egress_allowlist : Option (List String)

pub record RiskProfileDef (F : Type 0) : Type 0 where
  pub failure_mode : Option FailureMode
  pub approval_required : Option Bool
  pub allowed_tools : Option (List String)
  pub blocked_tools : Option (List String)
  pub max_cost_per_session : Option F

pub record BehavioralSettings (F : Type 0) : Type 0 where
  pub baseline_enabled : Option Bool
  pub deviation_threshold : Option F
  pub window_minutes : Option ℕ

pub record SecureOpsConfig (F : Type 0) : Type 0 where
  pub monitors : Option MonitorsToggle
  pub cost : Option (CostLimits F)
  pub memory : Option MemorySettings
  pub skills : Option SkillsSettings
  pub network : Option NetworkSettings
  pub failure_mode : Option FailureMode
  pub risk_profile : Option RiskProfile
  pub risk_profiles : Option (List (String × RiskProfileDef F))
  pub behavioral : Option (BehavioralSettings F)

pub record OpenClawConfig (F : Type 0) : Type 0 where
  pub gateway : Option GatewayConfig
  pub exec : Option ExecConfig
  pub sandbox : Option SandboxConfig
  pub tools : Option ToolsConfig
  pub session : Option SessionConfig
  pub logging : Option LoggingConfig
  pub secureops : Option (SecureOpsConfig F)

pub record DockerLimits : Type 0 where
  pub memory : Option String
  pub cpus : Option String

pub record DockerResources : Type 0 where
  pub limits : Option DockerLimits

pub record DockerDeploy : Type 0 where
  pub resources : Option DockerResources

pub record DockerServiceConfig : Type 0 where
  pub read_only : Option Bool
  pub cap_drop : Option (List String)
  pub security_opt : Option (List String)
  pub networks : Option (List String)
  pub network_mode : Option String
  pub volumes : Option (List String)
  pub deploy : Option DockerDeploy

pub record DockerNetwork : Type 0 where
  pub driver : Option String
  pub internal : Option Bool

pub record DockerComposeConfig : Type 0 where
  pub services : Option (List (String × DockerServiceConfig))
  pub networks : Option (List (String × DockerNetwork))

abbrev pub default_gateway_auth : GatewayAuth
default_gateway_auth = record { mode = none; token = none; password = none }

abbrev pub default_control_ui_config : ControlUiConfig
default_control_ui_config = record {
  dangerously_disable_device_auth = none;
  allow_insecure_auth = none;
}

abbrev pub default_gateway_config : GatewayConfig
default_gateway_config = record {
  bind = none;
  port = none;
  auth_token = none;
  auth = none;
  tls = none;
  mdns = none;
  control_ui = none;
  trusted_proxies = none;
}

abbrev pub default_tools_exec : ToolsExec
default_tools_exec = record { host = none }

abbrev pub default_tools_config : ToolsConfig
default_tools_config = record { exec = none }

abbrev pub default_session_config : SessionConfig
default_session_config = record { dm_scope = none }

abbrev pub default_logging_config : LoggingConfig
default_logging_config = record { redact_sensitive = none }

-- `unwrap_or` on a failure mode and on a risk profile
abbrev or_failure_mode : FailureMode → Option FailureMode → FailureMode
or_failure_mode d none = d
or_failure_mode d (some m) = m

abbrev or_risk_profile : RiskProfile → Option RiskProfile → RiskProfile
or_risk_profile d none = d
or_risk_profile d (some p) = p

module _ {F : Type 0} where
  abbrev pub default_config : OpenClawConfig F
  default_config = record {
    gateway = none;
    exec = none;
    sandbox = none;
    tools = none;
    session = none;
    logging = none;
    secureops = none;
  }

  abbrev failure_mode_of : Option (SecureOpsConfig F) → Option FailureMode
  failure_mode_of none = none
  failure_mode_of (some s) = s.failure_mode

  -- The methods `failure_mode` and `risk_profile`.
  unfoldable pub failure_mode : OpenClawConfig F → FailureMode
  failure_mode c = or_failure_mode block_all (failure_mode_of c.secureops)

  abbrev risk_profile_of : Option (SecureOpsConfig F) → Option RiskProfile
  risk_profile_of none = none
  risk_profile_of (some s) = s.risk_profile

  unfoldable pub risk_profile : OpenClawConfig F → RiskProfile
  risk_profile c = or_risk_profile standard (risk_profile_of c.secureops)

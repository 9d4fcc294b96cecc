-- ===== src/Harden/ConfigCheck.antt =====
-- crates/secureops-harden/src/config_hardening.rs: `ConfigHardening::check`, and the channels that the
-- audit's context lists (crates/secureops-core/src/context.rs).
use secureops.Prelude.{
  true, false, Option, none, some, List, [], ◌∷◌, ◌++◌, String, concat, if◌then◌else◌,
}
use secureops.Core.Types.{AuditFinding, critical, high, medium}
use secureops.Core.Config.{ExecConfig, SandboxConfig, OpenClawConfig}
use secureops.Checks.Ports.{or_text}
use secureops.Checks.Gateway.{is_text}

pub record ChannelConfig : Type 0 where
  pub name : String
  pub dm_policy : Option String
  pub group_policy : Option String
  pub allowlist : Option (List String)

abbrev pub approvals_off : AuditFinding
approvals_off = record {
  id = "SC-EXEC-001";
  severity = critical;
  category = "execution";
  title = "Execution approvals disabled";
  description =
      "Execution approvals are disabled. This allows commands to run without user confirmation.";
  evidence = "exec.approvals = \"off\"";
  remediation =
      "Manually set exec.approvals to \"always\" in your OpenClaw settings (not auto-fixable - key not in OpenClaw config schema)";
  auto_fixable = false;
  references = [];
  owasp_asi = "ASI02";
  maestro_layer = none;
  nist_category = none;
}

abbrev pub not_sandboxed : Option String → AuditFinding
not_sandboxed mode = record {
  id = "SC-EXEC-003";
  severity = medium;
  category = "execution";
  title = "Sandbox not set to all";
  description =
      "Sandbox mode is not set to \"all\". Not all commands run in a sandboxed environment.";
  evidence = concat ("sandbox.mode = \"" ∷ or_text "undefined" mode ∷ "\"" ∷ []);
  remediation =
      "Manually set sandbox.mode to \"all\" in your OpenClaw settings (not auto-fixable - key not in OpenClaw config schema)";
  auto_fixable = false;
  references = [];
  owasp_asi = "ASI05";
  maestro_layer = none;
  nist_category = none;
}

abbrev open_channel : String → AuditFinding
open_channel name = record {
  id = "SC-AC-001";
  severity = high;
  category = "access-control";
  title = concat ("Channel \"" ∷ name ∷ "\" has open DM policy" ∷ []);
  description = "Will set to \"pairing\".";
  evidence = "dmPolicy = \"open\"";
  remediation = "Set dmPolicy to \"pairing\"";
  auto_fixable = true;
  references = [];
  owasp_asi = "ASI01";
  maestro_layer = none;
  nist_category = none;
}

abbrev approvals_of : Option ExecConfig → Option String
approvals_of none = none
approvals_of (some e) = e.approvals

abbrev mode_of : Option SandboxConfig → Option String
mode_of none = none
mode_of (some s) = s.mode

-- The loop over the channels.
unfoldable pub channel_findings : List ChannelConfig → List AuditFinding
channel_findings [] = []
channel_findings (ch ∷ chs) =
    let rest = channel_findings chs in
    if is_text "open" ch.dm_policy then open_channel ch.name ∷ rest else rest

abbrev sandbox_findings : Option String → List AuditFinding
sandbox_findings mode = if is_text "all" mode then [] else not_sandboxed mode ∷ []

abbrev exec_findings : Option String → List AuditFinding
exec_findings approvals = if is_text "off" approvals then approvals_off ∷ [] else []

unfoldable pub check : {F : Type 0} → OpenClawConfig F → List ChannelConfig → List AuditFinding
unfolding channel_findings
check config channels =
    exec_findings (approvals_of config.exec)
    ++ sandbox_findings (mode_of config.sandbox)
    ++ channel_findings channels

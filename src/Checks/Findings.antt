-- ===== src/Checks/Findings.antt =====
-- crates/secureops-checks/src/gateway.rs: the findings that `GatewayCheck::run` pushes, without those
-- of the ports.
use secureops.Prelude.{ℕ, true, false, Option, some, [], ◌∷◌, String, concat, show}
use secureops.Core.Types.{AuditFinding, critical, medium, l4, evasion}
use secureops.Checks.Ports.{or_text}

abbrev pub gw_001 : Option String → AuditFinding
gw_001 bind = record {
  id = "SC-GW-001";
  severity = critical;
  category = "gateway";
  title = "Gateway not bound to loopback";
  description = concat (
      "Gateway is bound to \""
      ∷ or_text "all interfaces" bind
      ∷ "\" instead of loopback. This exposes the gateway to network attacks."
      ∷ []);
  evidence = concat ("gateway.bind = \"" ∷ or_text "undefined" bind ∷ "\"" ∷ []);
  remediation = "Set gateway.bind to \"loopback\" in openclaw.json";
  auto_fixable = true;
  references = "CVE-2026-25253" ∷ [];
  owasp_asi = "ASI03";
  maestro_layer = some l4;
  nist_category = some evasion;
}

abbrev pub gw_002 : Option String → AuditFinding
gw_002 auth_mode = record {
  id = "SC-GW-002";
  severity = critical;
  category = "gateway";
  title = "Gateway authentication disabled";
  description = concat (
      "Gateway authentication mode is \""
      ∷ or_text "none" auth_mode
      ∷ "\". Anyone with network access can control this instance."
      ∷ []);
  evidence = concat ("gateway.auth.mode = \"" ∷ or_text "undefined" auth_mode ∷ "\"" ∷ []);
  remediation =
      "Set gateway.auth.mode to \"password\" or \"token\" and configure a strong credential";
  auto_fixable = true;
  references = "CVE-2026-25253" ∷ [];
  owasp_asi = "ASI03";
  maestro_layer = some l4;
  nist_category = some evasion;
}

abbrev pub gw_003 : ℕ → AuditFinding
gw_003 token_len = record {
  id = "SC-GW-003";
  severity = medium;
  category = "gateway";
  title = "Weak gateway authentication token";
  description = concat (
      "Gateway auth token/password is only "
      ∷ show token_len
      ∷ " characters. Minimum 32 recommended."
      ∷ []);
  evidence = concat ("Token length: " ∷ show token_len ∷ " characters" ∷ []);
  remediation = "Generate a token of at least 32 characters using a CSPRNG";
  auto_fixable = true;
  references = [];
  owasp_asi = "ASI03";
  maestro_layer = some l4;
  nist_category = some evasion;
}

abbrev pub gw_006 : AuditFinding
gw_006 = record {
  id = "SC-GW-006";
  severity = medium;
  category = "gateway";
  title = "TLS not enabled on gateway";
  description =
      "Gateway traffic is unencrypted. Credentials and conversation data are transmitted in plaintext.";
  evidence = "gateway.tls is not configured";
  remediation = "Configure gateway.tls with a valid certificate and key";
  auto_fixable = false;
  references = [];
  owasp_asi = "ASI03";
  maestro_layer = some l4;
  nist_category = some evasion;
}

abbrev pub gw_007 : Option String → AuditFinding
gw_007 mode = record {
  id = "SC-GW-007";
  severity = medium;
  category = "gateway";
  title = "mDNS broadcasting in full mode";
  description = "mDNS is broadcasting sensitive instance information on the local network.";
  evidence = concat ("gateway.mdns.mode = \"" ∷ or_text "undefined" mode ∷ "\"" ∷ []);
  remediation =
      "Manually set gateway.mdns.mode to \"minimal\" (not auto-fixable - key not in OpenClaw config schema)";
  auto_fixable = false;
  references = [];
  owasp_asi = "ASI05";
  maestro_layer = some l4;
  nist_category = some evasion;
}

abbrev pub gw_008 : Option String → AuditFinding
gw_008 bind = record {
  id = "SC-GW-008";
  severity = critical;
  category = "gateway";
  title = "Reverse proxy without trustedProxies configuration";
  description =
      "Gateway is network-accessible without trustedProxies set. All connections appear as localhost, bypassing authentication.";
  evidence = concat ("gateway.bind = \"" ∷ or_text "all" bind ∷ "\", trustedProxies = []" ∷ []);
  remediation = "Set gateway.trustedProxies to the IP of your reverse proxy, e.g., [\"127.0.0.1\"]";
  auto_fixable = true;
  references = "CVE-2026-25253" ∷ [];
  owasp_asi = "ASI03";
  maestro_layer = some l4;
  nist_category = some evasion;
}

abbrev pub gw_009 : AuditFinding
gw_009 = record {
  id = "SC-GW-009";
  severity = critical;
  category = "gateway";
  title = "Device authentication disabled on Control UI";
  description =
      "dangerouslyDisableDeviceAuth is enabled, bypassing all device-level authentication for the Control UI.";
  evidence = "gateway.controlUi.dangerouslyDisableDeviceAuth = true";
  remediation = "Set gateway.controlUi.dangerouslyDisableDeviceAuth to false";
  auto_fixable = true;
  references = [];
  owasp_asi = "ASI03";
  maestro_layer = some l4;
  nist_category = some evasion;
}

abbrev pub gw_010 : AuditFinding
gw_010 = record {
  id = "SC-GW-010";
  severity = medium;
  category = "gateway";
  title = "Insecure authentication allowed on Control UI";
  description = "allowInsecureAuth is enabled, allowing weaker authentication methods.";
  evidence = "gateway.controlUi.allowInsecureAuth = true";
  remediation = "Set gateway.controlUi.allowInsecureAuth to false";
  auto_fixable = true;
  references = [];
  owasp_asi = "ASI03";
  maestro_layer = some l4;
  nist_category = some evasion;
}

-- ===== src/Harden/GatewayCheck.antt =====
-- crates/secureops-harden/src/gateway_hardening.rs: `GatewayHardening::check`.
use secureops.Prelude.{
  ℕ, Bool, true, false, not, ◌&&◌, Option, none, some, List, [], ◌∷◌, ◌++◌, ltb, String, concat,
  show, str_eq, if◌then◌else◌,
}
use secureops.Core.Types.{Severity, AuditFinding, critical, medium}
use secureops.Core.Config.{GatewayAuth, MdnsConfig, ControlUiConfig, GatewayConfig}
use secureops.Checks.Ports.{or_text}
use secureops.Checks.Gateway.{is_text, is_set, or_option, has_mode, bind_of}
use secureops.Harden.Gateway.{byte_len}

-- What these findings share.
abbrev report : String → Severity → String → String → String → String → Bool → String → AuditFinding
report id severity title description evidence remediation fixable asi = record {
  id = id;
  severity = severity;
  category = "gateway";
  title = title;
  description = description;
  evidence = evidence;
  remediation = remediation;
  auto_fixable = fixable;
  references = [];
  owasp_asi = asi;
  maestro_layer = none;
  nist_category = none;
}

abbrev bind_finding : Option String → AuditFinding
bind_finding bind =
    report "SC-GW-001" critical "Gateway not bound to loopback"
      "Gateway needs to be bound to loopback."
      (concat ("gateway.bind = \"" ∷ or_text "undefined" bind ∷ "\"" ∷ []))
      "Will set gateway.bind to \"loopback\"" true "ASI03"

abbrev auth_finding : Option String → AuditFinding
auth_finding mode =
    report "SC-GW-002" critical "Gateway authentication disabled"
      "Will enable password authentication with a strong token."
      (concat ("gateway.auth.mode = \"" ∷ or_text "none" mode ∷ "\"" ∷ []))
      "Will set gateway.auth.mode to \"password\" and generate a token" true "ASI03"

abbrev weak_finding : ℕ → AuditFinding
weak_finding n =
    report "SC-GW-003" medium "Weak gateway auth token"
      "Will regenerate a strong 64-character token." (concat ("Token length: " ∷ show n ∷ []))
      "Will generate a 32-byte (64-char hex) token" true "ASI03"

abbrev device_finding : AuditFinding
device_finding =
    report "SC-GW-009" critical "Device auth disabled" "Will re-enable device authentication."
      "dangerouslyDisableDeviceAuth = true" "Will set to false" true "ASI03"

abbrev insecure_finding : AuditFinding
insecure_finding =
    report "SC-GW-010" medium "Insecure auth allowed" "Will disable insecure auth."
      "allowInsecureAuth = true" "Will set to false" true "ASI03"

abbrev mdns_finding : Option String → AuditFinding
mdns_finding mode =
    report "SC-GW-007" medium "mDNS in full mode"
      "mDNS is broadcasting in full mode, exposing service information to the local network."
      (concat ("mdns.mode = \"" ∷ or_text "" mode ∷ "\"" ∷ []))
      "Manually set gateway.mdns.mode to \"minimal\" (not auto-fixable - key not in OpenClaw config schema)"
      false "ASI05"

abbrev auth_of : Option GatewayConfig → Option GatewayAuth
auth_of none = none
auth_of (some g) = g.auth

-- The mode, without the legacy token of the audit's check.
abbrev pub mode_of : Option GatewayAuth → Option String
mode_of none = none
mode_of (some a) = a.mode

abbrev pub token_of : Option GatewayAuth → String
token_of none = ""
token_of (some a) = or_text "" (or_option a.token a.password)

abbrev control_ui_of : Option GatewayConfig → Option ControlUiConfig
control_ui_of none = none
control_ui_of (some g) = g.control_ui

abbrev device_flag : Option ControlUiConfig → Option Bool
device_flag none = none
device_flag (some c) = c.dangerously_disable_device_auth

abbrev insecure_flag : Option ControlUiConfig → Option Bool
insecure_flag none = none
insecure_flag (some c) = c.allow_insecure_auth

abbrev mdns_of : Option GatewayConfig → Option MdnsConfig
mdns_of none = none
mdns_of (some g) = g.mdns

abbrev mdns_findings : Option MdnsConfig → List AuditFinding
mdns_findings none = []
mdns_findings (some m) = if is_text "minimal" m.mode then [] else mdns_finding m.mode ∷ []

abbrev pub no_auth : Option String → List AuditFinding
no_auth mode =
    if not (is_text "password" mode) && not (is_text "token" mode)
    then auth_finding mode ∷ []
    else []

abbrev pub weak_token : Option String → String → List AuditFinding
weak_token mode token =
    if has_mode mode && not (str_eq token "") && ltb (byte_len token) 32
    then weak_finding (byte_len token) ∷ []
    else []

unfoldable pub check : Option GatewayConfig → List AuditFinding
check gw =
    (if is_text "loopback" (bind_of gw) then [] else bind_finding (bind_of gw) ∷ [])
    ++ no_auth (mode_of (auth_of gw))
    ++ weak_token (mode_of (auth_of gw)) (token_of (auth_of gw))
    ++ (if is_set (device_flag (control_ui_of gw)) then device_finding ∷ [] else [])
    ++ (if is_set (insecure_flag (control_ui_of gw)) then insecure_finding ∷ [] else [])
    ++ mdns_findings (mdns_of gw)

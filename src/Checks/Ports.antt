-- ===== src/Checks/Ports.antt =====
-- crates/secureops-checks/src/gateway.rs: the two checks of `GatewayCheck::run` that probe ports. A
-- port is a u16; `probe` says for each whether 127.0.0.1 accepts a connection on it.
use secureops.Prelude.{
  ℕ, ◌+◌, ◌-◌, ◌%◌, Bool, true, false, ◌||◌, Option, none, some, [], ◌∷◌, String, concat, show,
  str_eq, if◌then◌else◌,
}
use secureops.Core.Types.{AuditFinding, medium, high, low, info, l4, evasion}
use secureops.Core.Config.{GatewayConfig}

-- `unwrap_or` on texts
abbrev pub or_text : String → Option String → String
or_text d none = d
or_text d (some s) = s

-- `bind_mode == "loopback" || ..`
abbrev pub is_loopback : String → Bool
is_loopback mode = str_eq mode "loopback" || str_eq mode "127.0.0.1" || str_eq mode "localhost"

abbrev or_port : ℕ → Option ℕ → ℕ
or_port d none = d
or_port d (some p) = p

abbrev pub port_of : Option GatewayConfig → Option ℕ
port_of none = none
port_of (some g) = g.port

abbrev pub gateway_port : Option GatewayConfig → ℕ
gateway_port gw = or_port 18789 (port_of gw)

-- `- 897` on a u16, which wraps where overflow is not checked.
abbrev pub browser_relay_port : Option GatewayConfig → ℕ
browser_relay_port gw = (gateway_port gw + (65536 - 897)) % 65536

abbrev gw_004_loopback : ℕ → String → AuditFinding
gw_004_loopback port bind_mode = record {
  id = "SC-GW-004";
  severity = low;
  category = "gateway";
  title = "Gateway port open on loopback only";
  description = concat (
      "Port "
      ∷ show port
      ∷ " is listening on loopback (localhost). This is the recommended configuration."
      ∷ []);
  evidence = concat ("Port: " ∷ show port ∷ ", Bind: " ∷ bind_mode ∷ ", Status: open" ∷ []);
  remediation = "No action needed - loopback binding is secure";
  auto_fixable = false;
  references = [];
  owasp_asi = "ASI05";
  maestro_layer = some l4;
  nist_category = some evasion;
}

abbrev gw_004_exposed : ℕ → String → AuditFinding
gw_004_exposed port bind_mode = record {
  id = "SC-GW-004";
  severity = high;
  category = "gateway";
  title = "Gateway port open and bound to non-loopback interface";
  description = concat (
      "Port "
      ∷ show port
      ∷ " is listening and bound to \""
      ∷ bind_mode
      ∷ "\". It may be accessible from other machines on the network."
      ∷ []);
  evidence = concat ("Port: " ∷ show port ∷ ", Bind: " ∷ bind_mode ∷ ", Status: open" ∷ []);
  remediation = "Set gateway.bind to \"loopback\" to restrict access to localhost only";
  auto_fixable = true;
  references = [];
  owasp_asi = "ASI05";
  maestro_layer = some l4;
  nist_category = some evasion;
}

abbrev gw_004_closed : ℕ → AuditFinding
gw_004_closed port = record {
  id = "SC-GW-004";
  severity = info;
  category = "gateway";
  title = "Gateway port not listening";
  description = concat (
      "Port "
      ∷ show port
      ∷ " is not currently accepting connections. Gateway may not be running."
      ∷ []);
  evidence = concat ("Port: " ∷ show port ∷ ", Status: closed/unreachable" ∷ []);
  remediation = "Start the gateway if it should be running";
  auto_fixable = false;
  references = [];
  owasp_asi = "ASI05";
  maestro_layer = some l4;
  nist_category = some evasion;
}

abbrev gw_004_shallow : ℕ → AuditFinding
gw_004_shallow port = record {
  id = "SC-GW-004";
  severity = info;
  category = "gateway";
  title = "Gateway port accessibility check";
  description = concat (
      "Port "
      ∷ show port
      ∷ " remote accessibility requires deep scan mode (--deep) for active probing."
      ∷ []);
  evidence = concat ("Port: " ∷ show port ∷ []);
  remediation = "Run audit with --deep flag for active network probing";
  auto_fixable = false;
  references = [];
  owasp_asi = "ASI05";
  maestro_layer = some l4;
  nist_category = some evasion;
}

abbrev gw_005_loopback : ℕ → String → AuditFinding
gw_005_loopback port bind_mode = record {
  id = "SC-GW-005";
  severity = low;
  category = "gateway";
  title = "Browser relay port open on loopback only";
  description =
      concat ("Browser relay port " ∷ show port ∷ " is listening on loopback. This is safe." ∷ []);
  evidence = concat ("Port: " ∷ show port ∷ ", Bind: " ∷ bind_mode ∷ ", Status: open" ∷ []);
  remediation = "No action needed";
  auto_fixable = false;
  references = [];
  owasp_asi = "ASI05";
  maestro_layer = some l4;
  nist_category = some evasion;
}

abbrev gw_005_exposed : ℕ → String → AuditFinding
gw_005_exposed port bind_mode = record {
  id = "SC-GW-005";
  severity = medium;
  category = "gateway";
  title = "Browser relay port open and may be network-accessible";
  description = concat (
      "Browser relay port "
      ∷ show port
      ∷ " is listening and bound to \""
      ∷ bind_mode
      ∷ "\". The browser automation surface may be reachable from the network."
      ∷ []);
  evidence = concat ("Port: " ∷ show port ∷ ", Bind: " ∷ bind_mode ∷ ", Status: open" ∷ []);
  remediation = "Set gateway.bind to \"loopback\" to restrict the browser relay to localhost";
  auto_fixable = true;
  references = [];
  owasp_asi = "ASI05";
  maestro_layer = some l4;
  nist_category = some evasion;
}

abbrev gw_005_closed : ℕ → AuditFinding
gw_005_closed port = record {
  id = "SC-GW-005";
  severity = info;
  category = "gateway";
  title = "Browser relay port not listening";
  description =
      concat ("Browser relay port " ∷ show port ∷ " is not currently accepting connections." ∷ []);
  evidence = concat ("Port: " ∷ show port ∷ ", Status: closed/unreachable" ∷ []);
  remediation = "No action needed if browser automation is not in use";
  auto_fixable = false;
  references = [];
  owasp_asi = "ASI05";
  maestro_layer = some l4;
  nist_category = some evasion;
}

abbrev gw_005_shallow : ℕ → AuditFinding
gw_005_shallow port = record {
  id = "SC-GW-005";
  severity = info;
  category = "gateway";
  title = "Browser relay port check";
  description =
      concat ("Browser relay port " ∷ show port ∷ " accessibility requires deep scan mode." ∷ []);
  evidence = concat ("Port: " ∷ show port ∷ []);
  remediation = "Run audit with --deep flag for active network probing";
  auto_fixable = false;
  references = [];
  owasp_asi = "ASI05";
  maestro_layer = some l4;
  nist_category = some evasion;
}

abbrev gateway_open : ℕ → String → AuditFinding
gateway_open port mode =
    if is_loopback mode then gw_004_loopback port mode else gw_004_exposed port mode

-- SC-GW-004
abbrev pub port_finding : Bool → (ℕ → Bool) → Option String → ℕ → AuditFinding
port_finding false probe bind port = gw_004_shallow port
port_finding true probe bind port =
    if probe port then gateway_open port (or_text "all" bind) else gw_004_closed port

abbrev relay_open : ℕ → String → AuditFinding
relay_open port mode =
    if is_loopback mode then gw_005_loopback port mode else gw_005_exposed port mode

-- SC-GW-005
abbrev pub relay_finding : Bool → (ℕ → Bool) → Option String → ℕ → AuditFinding
relay_finding false probe bind port = gw_005_shallow port
relay_finding true probe bind port =
    if probe port then relay_open port (or_text "all" bind) else gw_005_closed port

-- ===== src/Checks/Gateway.antt =====
-- crates/secureops-checks/src/gateway.rs: `GatewayCheck::run`, with what it pushes for each of its
-- ten checks.
use secureops.Prelude.{
  ℕ, Bool, true, false, not, ◌&&◌, ◌||◌, Option, none, some, List, [], ◌∷◌, ◌++◌, length, codes,
  ltb, String, str_eq, if◌then◌else◌,
}
use secureops.Core.Types.{AuditFinding}
use secureops.Core.Config.{GatewayAuth, TlsConfig, MdnsConfig, ControlUiConfig, GatewayConfig}
use secureops.Checks.Findings.{gw_001, gw_002, gw_003, gw_006, gw_007, gw_008, gw_009, gw_010}
use secureops.Checks.Ports.{or_text, gateway_port, browser_relay_port, port_finding, relay_finding}

-- `x == Some(text)`
abbrev pub is_text : String → Option String → Bool
is_text text none = false
is_text text (some s) = str_eq s text

-- `Option::or`
abbrev pub or_option : Option String → Option String → Option String
or_option none b = b
or_option (some a) b = some a

abbrev pub bind_of : Option GatewayConfig → Option String
bind_of none = none
bind_of (some g) = g.bind

abbrev auth_of : Option GatewayConfig → Option GatewayAuth
auth_of none = none
auth_of (some g) = g.auth

abbrev auth_token_of : Option GatewayConfig → Option String
auth_token_of none = none
auth_token_of (some g) = g.auth_token

abbrev mode_of : Option GatewayAuth → Option String
mode_of none = none
mode_of (some a) = a.mode

abbrev secret_of : Option GatewayAuth → Option String
secret_of none = none
secret_of (some a) = or_option a.token a.password

-- A legacy token that is not empty.
abbrev pub legacy_mode : Option String → Option String
legacy_mode none = none
legacy_mode (some t) = if str_eq t "" then none else some "token"

abbrev pub auth_mode : Option GatewayConfig → Option String
auth_mode gw = or_option (mode_of (auth_of gw)) (legacy_mode (auth_token_of gw))

abbrev pub token_of : Option GatewayConfig → String
token_of gw = or_text "" (or_option (secret_of (auth_of gw)) (auth_token_of gw))

abbrev pub has_mode : Option String → Bool
has_mode mode = is_text "token" mode || is_text "password" mode

abbrev pub bind_findings : Option String → List AuditFinding
bind_findings bind = if is_text "loopback" bind then [] else gw_001 bind ∷ []

abbrev pub auth_findings : Option String → List AuditFinding
auth_findings mode =
    if not (is_text "password" mode) && not (is_text "token" mode) then gw_002 mode ∷ [] else []

abbrev weak_token : ℕ → List AuditFinding
weak_token n = if ltb 0 n && ltb n 32 then gw_003 n ∷ [] else []

abbrev pub token_findings : Option String → String → List AuditFinding
token_findings mode token = if has_mode mode then weak_token (length (codes token)) else []

abbrev tls_enabled : Option TlsConfig → Option Bool
tls_enabled none = none
tls_enabled (some t) = t.enabled

abbrev tls_of : Option GatewayConfig → Option TlsConfig
tls_of none = none
tls_of (some g) = g.tls

-- `unwrap_or(false)`
abbrev pub is_set : Option Bool → Bool
is_set none = false
is_set (some b) = b

abbrev pub tls_findings : Option GatewayConfig → List AuditFinding
tls_findings gw = if not (is_set (tls_enabled (tls_of gw))) then gw_006 ∷ [] else []

abbrev mdns_of : Option GatewayConfig → Option MdnsConfig
mdns_of none = none
mdns_of (some g) = g.mdns

abbrev pub mdns_findings : Option MdnsConfig → List AuditFinding
mdns_findings none = []
mdns_findings (some m) = if is_text "minimal" m.mode then [] else gw_007 m.mode ∷ []

abbrev proxies_of : Option GatewayConfig → Option (List String)
proxies_of none = none
proxies_of (some g) = g.trusted_proxies

abbrev is_empty : Option (List String) → Bool
is_empty none = true
is_empty (some []) = true
is_empty (some (p ∷ ps)) = false

abbrev pub proxy_findings : Option GatewayConfig → List AuditFinding
proxy_findings gw =
    if not (is_text "loopback" (bind_of gw)) && is_empty (proxies_of gw)
    then gw_008 (bind_of gw) ∷ []
    else []

abbrev control_ui_of : Option GatewayConfig → Option ControlUiConfig
control_ui_of none = none
control_ui_of (some g) = g.control_ui

abbrev device_flag : Option ControlUiConfig → Option Bool
device_flag none = none
device_flag (some c) = c.dangerously_disable_device_auth

abbrev insecure_flag : Option ControlUiConfig → Option Bool
insecure_flag none = none
insecure_flag (some c) = c.allow_insecure_auth

abbrev pub device_findings : Option GatewayConfig → List AuditFinding
device_findings gw = if is_set (device_flag (control_ui_of gw)) then gw_009 ∷ [] else []

abbrev pub insecure_findings : Option GatewayConfig → List AuditFinding
insecure_findings gw = if is_set (insecure_flag (control_ui_of gw)) then gw_010 ∷ [] else []

-- `deep` and `probe` are the options of the audit and `probe_port` on 127.0.0.1.
unfoldable pub run : Bool → (ℕ → Bool) → Option GatewayConfig → List AuditFinding
run deep probe gw =
    bind_findings (bind_of gw)
    ++ auth_findings (auth_mode gw)
    ++ token_findings (auth_mode gw) (token_of gw)
    ++ port_finding deep probe (bind_of gw) (gateway_port gw) ∷ []
    ++ relay_finding deep probe (bind_of gw) (browser_relay_port gw) ∷ []
    ++ tls_findings gw
    ++ mdns_findings (mdns_of gw)
    ++ proxy_findings gw
    ++ device_findings gw
    ++ insecure_findings gw

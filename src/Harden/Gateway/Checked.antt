-- ===== src/Harden/Gateway/Checked.antt =====
-- What the audit's check of the gateway still reports once the gateway's hardening has run.
use secureops.Prelude.{
  ℕ, ◌≡◌, refl, ap, ◌∙◌, Bool, true, false, Option, none, some, List, [], ◌∷◌, ◌++◌, append-[], All,
  String, Bool-cases, inl, inr, ◌⊎◌, arith, str_eq_iff,
}
use secureops.Core.Types.{Severity, critical, high, AuditFinding}
use secureops.Core.Config.{GatewayAuth, ControlUiConfig, MdnsConfig, GatewayConfig}
use secureops.Checks.Ports.{gateway_port, browser_relay_port, port_finding, relay_finding}
use secureops.Checks.Gateway.{
  is_text, or_option, legacy_mode, is_set, auth_mode, token_of, auth_findings, token_findings,
  tls_findings, run,
}
use secureops.Harden.Gateway.{
  set_bind, set_proxies, set_auth, set_control_ui, strip_mdns, harden_auth, strengthen,
  clear_device, clear_insecure, or_auth, or_control_ui, or_no_proxies, harden_gateway,
}

-- A flag that hardening has cleared.
abbrev cleared : Option Bool → Option Bool
cleared none = none
cleared (some b) = some false

abbrev cleared_ui : ControlUiConfig → ControlUiConfig
cleared_ui c = record {
  dangerously_disable_device_auth = cleared c.dangerously_disable_device_auth;
  allow_insecure_auth = cleared c.allow_insecure_auth;
}

-- The configuration that the steps come to.
abbrev pub hardened : String → GatewayConfig → GatewayConfig
hardened token g = record {
  bind = some "loopback";
  port = g.port;
  auth_token = g.auth_token;
  auth = some (harden_auth token (or_auth g.auth)).0;
  tls = g.tls;
  mdns = none;
  control_ui = some (cleared_ui (or_control_ui g.control_ui));
  trusted_proxies = or_no_proxies g.trusted_proxies;
}

is_text-some : (text : String) (o : Option String) → is_text text o ≡ true → o ≡ some text
is_text-some text none e = ground arith
is_text-some text (some s) e = ap some ((str_eq_iff s text).0 e)

pub set_bind-loopback : (g : GatewayConfig) → (set_bind g).0 ≡ record g { bind = some "loopback" }
set_bind-loopback g = elim (Bool-cases (is_text "loopback" g.bind)) [
  | inl e ↦ rw e (ap (λ b. record g { bind = b }) (is_text-some "loopback" g.bind e))
  | inr e ↦ rw e refl
]

clear_device-cleared :
    (c : ControlUiConfig) (d : Option Bool)
    → c.dangerously_disable_device_auth ≡ d
    → (clear_device c).0 ≡ record c { dangerously_disable_device_auth = cleared d }
clear_device-cleared c none e = rw e refl
clear_device-cleared c (some false) e = rw e refl
clear_device-cleared c (some true) e = rw e refl

clear_insecure-cleared :
    (c : ControlUiConfig) (d : Option Bool)
    → c.allow_insecure_auth ≡ d
    → (clear_insecure c).0 ≡ record c { allow_insecure_auth = cleared d }
clear_insecure-cleared c none e = rw e refl
clear_insecure-cleared c (some false) e = rw e refl
clear_insecure-cleared c (some true) e = rw e refl

strip_mdns-none :
    (g : GatewayConfig) (m : Option MdnsConfig)
    → g.mdns ≡ m
    → (strip_mdns g).0 ≡ record g { mdns = none }
strip_mdns-none g none e = rw e refl
strip_mdns-none g (some m) e = rw e refl

cleared_both : (c : ControlUiConfig) → (clear_insecure (clear_device c).0).0 ≡ cleared_ui c
cleared_both c =
    ap (λ d. (clear_insecure d).0) (clear_device-cleared c c.dangerously_disable_device_auth refl)
    ∙ clear_insecure-cleared
        (record c { dangerously_disable_device_auth = cleared c.dangerously_disable_device_auth })
        c.allow_insecure_auth refl

pub harden_gateway-hardened :
    (token : String) (g : GatewayConfig) → (harden_gateway token g).0 ≡ hardened token g
unfolding harden_gateway
harden_gateway-hardened token g =
    ap (λ x. (set_proxies (strip_mdns (set_control_ui (set_auth token x).0).0).0).0)
      (set_bind-loopback g)
    ∙ ap (λ x. (set_proxies x).0)
        (strip_mdns-none (set_control_ui (set_auth token (record g { bind = some "loopback" })).0).0
          g.mdns refl)
    ∙ ap (λ c. record (hardened token g) { control_ui = some c })
        (cleared_both (or_control_ui g.control_ui))

-- What the check still gives: the weak token, the ports and TLS.
abbrev pub leftover : Bool → (ℕ → Bool) → GatewayConfig → List AuditFinding
leftover deep probe h =
    token_findings (auth_mode (some h)) (token_of (some h))
    ++ port_finding deep probe h.bind (gateway_port (some h)) ∷ []
    ++ relay_finding deep probe h.bind (browser_relay_port (some h)) ∷ []
    ++ tls_findings (some h)

strengthen-mode : (token : String) (a : GatewayAuth) → (strengthen token a).0.mode ≡ a.mode
strengthen-mode token a = ground arith

pub harden_auth-mode :
    (token : String) (a : GatewayAuth)
    → ((harden_auth token a).0.mode ≡ some "password")
      ⊎ ((harden_auth token a).0.mode ≡ some "token")
harden_auth-mode token a = elim (Bool-cases (is_text "password" a.mode)) [
  | inl e ↦ inl (rw e (strengthen-mode token a ∙ is_text-some "password" a.mode e))
  | inr e ↦ elim (Bool-cases (is_text "token" a.mode)) [
    | inl f ↦ inr (rw (e, f) (strengthen-mode token a ∙ is_text-some "token" a.mode f))
    | inr f ↦ inl (rw (e, f) refl)
  ]
]

auth_findings-harden_auth :
    (token : String) (a : GatewayAuth) (legacy : Option String)
    → auth_findings (or_option (harden_auth token a).0.mode legacy) ≡ []
auth_findings-harden_auth token a legacy = elim (harden_auth-mode token a) [
  | inl e ↦ ap (λ m. auth_findings (or_option m legacy)) e
  | inr e ↦ ap (λ m. auth_findings (or_option m legacy)) e
]

pub cleared-set : (d : Option Bool) → is_set (cleared d) ≡ false
cleared-set none = refl
cleared-set (some d) = refl

append-nothing : (xs : List AuditFinding) → xs ++ [] ++ [] ++ [] ++ [] ≡ xs
append-nothing xs =
    ap (λ ys. ys ++ [] ++ [] ++ []) (append-[] xs)
    ∙ ap (λ ys. ys ++ [] ++ []) (append-[] xs)
    ∙ ap (λ ys. ys ++ []) (append-[] xs)
    ∙ append-[] xs

pub run-hardened :
    (deep : Bool) (probe : ℕ → Bool) (token : String) (g : GatewayConfig)
    → run deep probe (some (hardened token g)) ≡ leftover deep probe (hardened token g)
unfolding run
run-hardened deep probe token g =
    let found = leftover deep probe (hardened token g) in
    rw
      (
        auth_findings-harden_auth token (or_auth g.auth) (legacy_mode g.auth_token),
        cleared-set (or_control_ui g.control_ui).dangerously_disable_device_auth,
        cleared-set (or_control_ui g.control_ui).allow_insecure_auth,
      )
      (append-nothing found)

abbrev is_minor : Severity → Bool
is_minor critical = false
is_minor high = false
is_minor _ = true

abbrev pub IsMinor : AuditFinding → Type 0
IsMinor f = is_minor f.severity ≡ true

All-append : (xs ys : List AuditFinding) → All IsMinor xs → All IsMinor ys → All IsMinor (xs ++ ys)
All-append [] ys h k = k
All-append (x ∷ xs) ys h k = (h.0, All-append xs ys h.1 k)

port_finding-IsMinor :
    (deep : Bool) (probe : ℕ → Bool) (port : ℕ)
    → IsMinor (port_finding deep probe (some "loopback") port)
port_finding-IsMinor false probe port = refl
port_finding-IsMinor true probe port = ground arith

relay_finding-IsMinor :
    (deep : Bool) (probe : ℕ → Bool) (port : ℕ)
    → IsMinor (relay_finding deep probe (some "loopback") port)
relay_finding-IsMinor false probe port = refl
relay_finding-IsMinor true probe port = ground arith

token_findings-IsMinor :
    (mode : Option String) (token : String) → All IsMinor (token_findings mode token)
token_findings-IsMinor mode token = ground arith

tls_findings-IsMinor : (gw : Option GatewayConfig) → All IsMinor (tls_findings gw)
tls_findings-IsMinor gw = ground arith

pub leftover-IsMinor :
    (deep : Bool) (probe : ℕ → Bool) (token : String) (g : GatewayConfig)
    → All IsMinor (leftover deep probe (hardened token g))
leftover-IsMinor deep probe token g =
    let h = some (hardened token g) in
    All-append _ _
      (All-append _ _
        (All-append _ _ (token_findings-IsMinor (auth_mode h) (token_of h))
          (port_finding-IsMinor deep probe (gateway_port h), tt))
        (relay_finding-IsMinor deep probe (browser_relay_port h), tt))
      (tls_findings-IsMinor h)

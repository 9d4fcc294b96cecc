-- ===== src/Harden/Gateway.antt =====
-- crates/secureops-harden/src/gateway_hardening.rs: `fix`, with the steps of `fix_inner` on the
-- gateway's configuration. `token` is what `generate_token(32)` draws.
pub mod Checked
pub mod Own
pub mod Fixed
pub mod Weak
use Prim.Native.Char.{code}
use Prim.Native.String
use secureops.Prelude.{
  ℕ, zero, suc, ◌+◌, Bool, true, false, not, ◌&&◌, ◌||◌, Option, none, some, List, [], ◌∷◌, ◌++◌,
  ltb, String, concat, show, str_eq, Result, ok, err, if◌then◌else◌,
}
use secureops.Core.Config.{
  GatewayAuth, MdnsConfig, ControlUiConfig, GatewayConfig, OpenClawConfig, default_gateway_auth,
  default_control_ui_config, default_gateway_config,
}
use secureops.Core.Runtime.{HardeningAction, HardeningResult}
use secureops.Checks.Ports.{or_text}
use secureops.Checks.Gateway.{is_text, or_option}
use secureops.Harden.Files.{
  PathBuf, IoError, Io, Files, Json, config_path, read_config, write_config,
}

-- The bytes of a character in UTF-8.
abbrev pub char_len : ℕ → ℕ
char_len c = if ltb c 128 then 1 else if ltb c 2048 then 2 else if ltb c 65536 then 3 else 4

-- `len()`
unfoldable pub byte_len : String → ℕ
byte_len String.[] = 0
byte_len (String.◌∷◌ c s) = char_len (code c) + byte_len s

-- `&token[..n]` of an ASCII text
unfoldable pub prefix : ℕ → String → String
prefix zero s = ""
prefix (suc n) String.[] = ""
prefix (suc n) (String.◌∷◌ c s) = String.◌∷◌ c (prefix n s)

abbrev pub action : String → String → String → String → HardeningAction
action id description before after = record {
  id = id;
  description = description;
  before = before;
  after = after;
}

-- A step gives the configuration after it and the actions it applied.
abbrev pub Step : Type 0 → Type 0
Step A = A × List HardeningAction

abbrev pub set_bind : GatewayConfig → Step GatewayConfig
set_bind g = if is_text "loopback" g.bind then (g, []) else (
  record g { bind = some "loopback" },
  action "gw-bind" "Set gateway bind to loopback" (or_text "undefined" g.bind) "loopback" ∷ [],
)

abbrev pub or_auth : Option GatewayAuth → GatewayAuth
or_auth none = default_gateway_auth
or_auth (some a) = a

abbrev pub enable_password : String → GatewayAuth → Step GatewayAuth
enable_password token a = (
  record a { mode = some "password"; password = some token },
  action "gw-auth" "Enabled password authentication with strong token"
        (concat ("mode=" ∷ or_text "none" a.mode ∷ []))
        (concat ("mode=password, token=" ∷ prefix 8 token ∷ "..." ∷ []))
      ∷ [],
)

-- The password, or else the token.
abbrev pub existing : GatewayAuth → String
existing a = or_text "" (or_option a.password a.token)

abbrev pub strengthen : String → GatewayAuth → Step GatewayAuth
strengthen token a =
    if not (str_eq (existing a) "") && ltb (byte_len (existing a)) 32
    then (
      record a { password = some token },
      action "gw-token-strength" "Regenerated stronger auth token"
            (concat ("length=" ∷ show (byte_len (existing a)) ∷ []))
            (concat ("length=" ∷ show (byte_len token) ∷ []))
          ∷ [],
    )
    else (a, [])

abbrev pub harden_auth : String → GatewayAuth → Step GatewayAuth
harden_auth token a =
    if not (is_text "password" a.mode) && not (is_text "token" a.mode)
    then enable_password token a
    else strengthen token a

abbrev put_auth : GatewayConfig → Step GatewayAuth → Step GatewayConfig
put_auth g (a, actions) = (record g { auth = some a }, actions)

abbrev pub set_auth : String → GatewayConfig → Step GatewayConfig
set_auth token g = put_auth g (harden_auth token (or_auth g.auth))

abbrev pub or_control_ui : Option ControlUiConfig → ControlUiConfig
or_control_ui none = default_control_ui_config
or_control_ui (some c) = c

-- `== Some(true)`
abbrev is_on : Option Bool → Bool
is_on none = false
is_on (some b) = b

abbrev pub clear_device : ControlUiConfig → Step ControlUiConfig
clear_device c =
    if is_on c.dangerously_disable_device_auth
    then (
      record c { dangerously_disable_device_auth = some false },
      action "gw-device-auth" "Re-enabled device authentication" "true" "false" ∷ [],
    )
    else (c, [])

abbrev pub clear_insecure : ControlUiConfig → Step ControlUiConfig
clear_insecure c =
    if is_on c.allow_insecure_auth
    then (
      record c { allow_insecure_auth = some false },
      action "gw-insecure-auth" "Disabled insecure authentication" "true" "false" ∷ [],
    )
    else (c, [])

-- A step after another, with the actions of both.
abbrev pub and_then : {A : Type 0} → (A → Step A) → Step A → Step A
and_then f (a, actions) = ((f a).0, actions ++ (f a).1)

abbrev put_control_ui : GatewayConfig → Step ControlUiConfig → Step GatewayConfig
put_control_ui g (c, actions) = (record g { control_ui = some c }, actions)

abbrev pub set_control_ui : GatewayConfig → Step GatewayConfig
set_control_ui g =
    put_control_ui g (and_then clear_insecure (clear_device (or_control_ui g.control_ui)))

abbrev pub mdns_gone : GatewayConfig → Option MdnsConfig → Step GatewayConfig
mdns_gone g none = (g, [])
mdns_gone g (some m) = (
  record g { mdns = none },
  action "gw-strip-mdns" "Removed invalid \"gateway.mdns\" key (not in OpenClaw schema)" "present"
        "removed"
      ∷ [],
)

abbrev pub strip_mdns : GatewayConfig → Step GatewayConfig
strip_mdns g = mdns_gone g g.mdns

-- `Some(vec![])` where there are none
abbrev pub or_no_proxies : Option (List String) → Option (List String)
or_no_proxies none = some []
or_no_proxies (some ps) = some ps

abbrev pub set_proxies : GatewayConfig → Step GatewayConfig
set_proxies g = (record g { trusted_proxies = or_no_proxies g.trusted_proxies }, [])

-- The steps that `fix_inner` takes on the gateway's configuration.
unfoldable pub harden_gateway : String → GatewayConfig → Step GatewayConfig
harden_gateway token g =
    and_then set_proxies
      (and_then strip_mdns (and_then set_control_ui (and_then (set_auth token) (set_bind g))))

abbrev pub or_gateway : Option GatewayConfig → GatewayConfig
or_gateway none = default_gateway_config
or_gateway (some g) = g

module _ {F : Type 0} (fs : Files) (json : Json F) (state_dir : PathBuf) where
  abbrev pub harden_config : String → OpenClawConfig F → Step (OpenClawConfig F)
  harden_config token config =
      let done = harden_gateway token (or_gateway config.gateway) in
      (record config { gateway = some done.0 }, done.1)

  -- What `write_config` answered, with the actions that were applied before it.
  abbrev pub with_actions :
      {S : Type 0}
      → List HardeningAction
      → Io S
      → (Result IoError (Unit {0}) × List HardeningAction) × S
  with_actions actions (r, s) = ((r, actions), s)

  abbrev pub rewrite :
      String → fs.State → (Result IoError (Unit {0}) × List HardeningAction) × fs.State
  rewrite token s =
      let (config, actions) = harden_config token (read_config fs json state_dir s) in
      with_actions actions (write_config fs json state_dir config s)

  -- After the backup, which may have found no file.
  abbrev pub backed_up :
      String → Io fs.State → (Result IoError (Unit {0}) × List HardeningAction) × fs.State
  backed_up token (ok done, s) = rewrite token s
  backed_up token (err e, s) = if not e.not_found then ((err e, []), s) else rewrite token s

  unfoldable pub fix_inner :
      String → PathBuf → fs.State → (Result IoError (Unit {0}) × List HardeningAction) × fs.State
  fix_inner token backup_dir s =
      backed_up token (fs.copy (config_path state_dir) (backup_dir ++ "openclaw.json" ∷ []) s)

  abbrev pub errors_of : Result IoError (Unit {0}) → List String
  errors_of (ok done) = []
  errors_of (err e) = concat ("Gateway hardening error: " ∷ e.text ∷ []) ∷ []

  abbrev pub result_of :
      (Result IoError (Unit {0}) × List HardeningAction) × fs.State → HardeningResult × fs.State
  result_of ((r, actions), s) = (
    record {
      module_name = "gateway-hardening";
      applied = actions;
      skipped = [];
      errors = errors_of r;
    },
    s,
  )

  unfoldable pub fix : String → PathBuf → fs.State → HardeningResult × fs.State
  unfolding fix_inner
  fix token backup_dir s = result_of (fix_inner token backup_dir s)

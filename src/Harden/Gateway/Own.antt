-- ===== src/Harden/Gateway/Own.antt =====
-- What the module's own check still finds once its steps have run.
use secureops.Prelude.{◌≡◌, ap, ◌∙◌, some, List, [], ◌++◌, append-[], inl, inr, String}
use secureops.Core.Types.{AuditFinding}
use secureops.Core.Config.{GatewayAuth, GatewayConfig}
use secureops.Harden.Gateway.{harden_auth, or_auth, or_control_ui}
use secureops.Harden.Gateway.Checked.{hardened, harden_auth-mode, cleared-set}
use secureops.Harden.GatewayCheck.{token_of, no_auth, weak_token, check}

-- The weak token, where the token or else the password is one.
abbrev pub own_leftover : GatewayAuth → List AuditFinding
own_leftover a = weak_token a.mode (token_of (some a))

no_auth-harden_auth : (token : String) (a : GatewayAuth) → no_auth (harden_auth token a).0.mode ≡ []
no_auth-harden_auth token a = elim (harden_auth-mode token a) [
  | inl e ↦ ap no_auth e
  | inr e ↦ ap no_auth e
]

pub check-hardened :
    (token : String) (g : GatewayConfig)
    → check (some (hardened token g)) ≡ own_leftover (harden_auth token (or_auth g.auth)).0
unfolding check
check-hardened token g =
    let found = own_leftover (harden_auth token (or_auth g.auth)).0 in
    rw
      (
        no_auth-harden_auth token (or_auth g.auth),
        cleared-set (or_control_ui g.control_ui).dangerously_disable_device_auth,
        cleared-set (or_control_ui g.control_ui).allow_insecure_auth,
      )
      (ap (λ ys. ys ++ [] ++ []) (append-[] found)
        ∙ ap (λ ys. ys ++ []) (append-[] found)
        ∙ append-[] found)

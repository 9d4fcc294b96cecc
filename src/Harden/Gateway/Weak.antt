-- ===== src/Harden/Gateway/Weak.antt =====
-- The weak token that the gateway's hardening leaves in place.
use Prim.Native.Char.{code}
use secureops.Prelude.{
  ℕ, ◌≤◌, ◌<◌, ◌≡◌, refl, ap, ◌∙◌, sym, subst, Bool, true, false, none, some, [], ◌∷◌, String,
  concat, show, length, codes, ltb, str_eq, Has, Has-left, Has-right, inl, arith,
}
use secureops.Core.Config.{GatewayAuth, GatewayConfig}
use secureops.Checks.Ports.{or_text}
use secureops.Checks.Findings.{gw_003}
use secureops.Checks.Gateway.{or_option, legacy_mode, token_findings, run}
use secureops.Harden.Gateway.{
  char_len, byte_len, action, harden_auth, set_bind, set_auth, harden_gateway,
}
use secureops.Harden.Gateway.Checked.{set_bind-loopback, harden_gateway-hardened, run-hardened}

abbrev pub weak_auth : String → GatewayAuth
weak_auth weak = record { mode = some "token"; token = some weak; password = none }

-- A gateway with a token of its own, and no password.
abbrev pub token_mode : String → GatewayConfig → GatewayConfig
token_mode weak g = record g { auth = some (weak_auth weak) }

char_len-positive : (c : ℕ) → 1 ≤ char_len c
char_len-positive c = ground arith

codes-byte_len : (s : String) → length (codes s) ≤ byte_len s
unfolding byte_len
codes-byte_len String.[] = ground arith
codes-byte_len (String.◌∷◌ c s) = omega (arith, codes-byte_len s, char_len-positive (code c))

codes-filled : (s : String) → str_eq s "" ≡ false → 0 < length (codes s)
codes-filled String.[] e = ground arith
codes-filled (String.◌∷◌ c s) e = ground arith

module _ (fresh weak : String) (filled : str_eq weak "" ≡ false) (short : byte_len weak < 32) where
  is_short : ltb (byte_len weak) 32 ≡ true
  is_short = ground arith

  harden_auth-weak : harden_auth fresh (weak_auth weak) ≡ (
    record (weak_auth weak) { password = some fresh },
    action "gw-token-strength" "Regenerated stronger auth token"
          (concat ("length=" ∷ show (byte_len weak) ∷ []))
          (concat ("length=" ∷ show (byte_len fresh) ∷ []))
        ∷ [],
  )
  harden_auth-weak = rw (filled, is_short) refl

  token_findings-weak : token_findings (some "token") weak ≡ gw_003 (length (codes weak)) ∷ []
  token_findings-weak =
      let more : ltb 0 (length (codes weak)) ≡ true = ground (arith, codes-filled weak filled) in
      let less : ltb (length (codes weak)) 32 ≡ true = ground (arith, codes-byte_len weak, short) in
      rw (more, less) refl

found_weak :
    (fresh weak : String) (g : GatewayConfig) (deep : Bool) (probe : ℕ → Bool)
    → str_eq weak "" ≡ false
    → byte_len weak < 32
    → Has
        (gw_003 (length (codes weak)))
        (run deep probe (some (harden_gateway fresh (token_mode weak g)).0))
found_weak fresh weak g deep probe filled short =
    let found =
      ap (λ h. run deep probe (some h)) (harden_gateway-hardened fresh (token_mode weak g))
      ∙ run-hardened deep probe fresh (token_mode weak g) in
    let tokens =
      ap
        (λ a.
          token_findings (or_option a.0.mode (legacy_mode g.auth_token))
            (or_text "" (or_option (or_option a.0.token a.0.password) g.auth_token)))
        (harden_auth-weak fresh weak filled short)
      ∙ token_findings-weak fresh weak filled short in
    let target = gw_003 (length (codes weak)) in
    subst (Has target) (sym found) (
      Has-left target _ _
        (Has-left target _ _ (Has-left target _ _ (subst (Has target) (sym tokens) (inl refl)))))

claimed_strong :
    (fresh weak : String) (g : GatewayConfig)
    → str_eq weak "" ≡ false
    → byte_len weak < 32
    → Has
        (action "gw-token-strength" "Regenerated stronger auth token"
          (concat ("length=" ∷ show (byte_len weak) ∷ []))
          (concat ("length=" ∷ show (byte_len fresh) ∷ [])))
        (harden_gateway fresh (token_mode weak g)).1
unfolding harden_gateway
claimed_strong fresh weak g filled short =
    let target =
      action "gw-token-strength" "Regenerated stronger auth token"
        (concat ("length=" ∷ show (byte_len weak) ∷ []))
        (concat ("length=" ∷ show (byte_len fresh) ∷ [])) in
    let actions =
      ap (λ x. (set_auth fresh x).1) (set_bind-loopback (token_mode weak g))
      ∙ ap (λ a. a.1) (harden_auth-weak fresh weak filled short) in
    Has-left target _ _ (
      Has-left target _ _ (
        Has-left target _ _ (
          Has-right target (set_bind (token_mode weak g)).1 _
            (subst (Has target) (sym actions) (inl refl)))))

-- A token that is not empty and shorter than 32 bytes, of a gateway in the mode "token" without a
-- password, is still found weak after the fix, which says that it regenerated it: only a password
-- is set, which the check does not read where there is a token.
pub harden_gateway-weak :
    (fresh weak : String) (g : GatewayConfig) (deep : Bool) (probe : ℕ → Bool)
    → str_eq weak "" ≡ false
    → byte_len weak < 32
    → Has
        (gw_003 (length (codes weak)))
        (run deep probe (some (harden_gateway fresh (token_mode weak g)).0))
      × Has
          (action "gw-token-strength" "Regenerated stronger auth token"
            (concat ("length=" ∷ show (byte_len weak) ∷ []))
            (concat ("length=" ∷ show (byte_len fresh) ∷ [])))
          (harden_gateway fresh (token_mode weak g)).1
harden_gateway-weak fresh weak g deep probe filled short =
    (found_weak fresh weak g deep probe filled short, claimed_strong fresh weak g filled short)

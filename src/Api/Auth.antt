-- ===== src/Api/Auth.antt =====
-- crates/secureops-api/src/auth.rs, authz.rs and ws.rs: how a principal is resolved from a request,
-- what it may do under the built-in Cedar policy, and which events a subscriber is sent.
pub mod Session
use secureops.Prelude.{
  ℕ, Bool, true, false, ◌&&◌, ◌||◌, Option, none, some, List, [], ◌∷◌, String, Result, ok, err,
  map_err, to_option, any, ◌==◌, str_eq, if◌then◌else◌,
}
use secureops.AuditLog.Hex.{to_hex}
use secureops.Api.Models.{Claims, ApiError, unauthorized, store_failed}
use secureops.Api.Store.{Fallible, Store}

abbrev pub issuer : String
issuer = "secureops"

abbrev pub Text : Type 0
Text = List ℕ

-- What the code calls of jsonwebtoken, with HS256 only and an issuer to validate, and of hmac and sha2.
-- `decode` reads the clock for the expiry.
pub record Crypto : Type 0 where
  pub encode : String → Claims → Result String Text
  pub decode : String → String → ℕ → Text → Option Claims
  pub hmac : String → Text → List ℕ

-- `strip_prefix`, over code points.
unfoldable pub strip_prefix : Text → Text → Option Text
strip_prefix [] s = some s
strip_prefix (a ∷ p) [] = none
strip_prefix (a ∷ p) (b ∷ s) = if a == b then strip_prefix p s else none

-- "Bearer "
abbrev pub bearer : Text
bearer = 66 ∷ 101 ∷ 97 ∷ 114 ∷ 101 ∷ 114 ∷ 32 ∷ []

-- A header is absent, or a value that may fail to be text.
abbrev pub Header : Type 0
Header = Option (Option Text)

abbrev ok_or {ℓ} : {A : Type ℓ} → String → Option A → Result String A
ok_or code none = err code
ok_or code (some a) = ok a

module _ (c : Crypto) where
  unfoldable pub issue_jwt : String → Claims → Result String Text
  issue_jwt secret claims = c.encode secret (record claims { iss = issuer })

  unfoldable pub verify_jwt : String → ℕ → Text → Result String Claims
  verify_jwt secret now token = ok_or "invalid_token" (c.decode secret issuer now token)

  unfoldable pub hash_api_key : String → Text → Text
  hash_api_key pepper key = to_hex (c.hmac pepper key)

  module _ (S : Store) (secret pepper : String) where
    abbrev pub claims_of : Fallible (Option Claims) → Result ApiError Claims
    claims_of (err e) = err (store_failed e)
    claims_of (ok (some claims)) = ok claims
    claims_of (ok none) = err (unauthorized "invalid_api_key")

    -- The second way: the X-API-Key header.
    abbrev pub from_api_key : Header → S.State → Result ApiError Claims
    from_api_key none s = err (unauthorized "missing_credentials")
    from_api_key (some none) s = err (unauthorized "invalid_token")
    from_api_key (some (some key)) s = claims_of (S.lookup_api_key (hash_api_key pepper key) s)

    abbrev from_bearer : ℕ → Option Text → Result ApiError Claims → Result ApiError Claims
    from_bearer now none other = other
    from_bearer now (some token) other = map_err unauthorized (verify_jwt secret now token)

    -- `Authenticated::from_request_parts`, on the two headers.
    unfoldable pub authenticate : ℕ → Header → Header → S.State → Result ApiError Claims
    authenticate now none api_key s = from_api_key api_key s
    authenticate now (some none) api_key s = err (unauthorized "invalid_token")
    authenticate now (some (some raw)) api_key s =
        from_bearer now (strip_prefix bearer raw) (from_api_key api_key s)

    -- `ws.rs`: the three ways of `resolve_ws_principal`, each tried only after the one before it fails.
    abbrev verified : ℕ → Option Text → Option Claims
    verified now none = none
    verified now (some token) = to_option (verify_jwt secret now token)

    abbrev text_of : Header → Option Text
    text_of none = none
    text_of (some value) = value

    abbrev bearer_of : Option Text → Option Text
    bearer_of none = none
    bearer_of (some raw) = strip_prefix bearer raw

    abbrev found : Fallible (Option Claims) → Option Claims
    found (ok claims) = claims
    found (err e) = none

    abbrev by_key : Option Text → S.State → Option Claims
    by_key none s = none
    by_key (some key) s = found (S.lookup_api_key (hash_api_key pepper key) s)

    abbrev or_else : Option Claims → Option Claims → Option Claims
    or_else (some a) other = some a
    or_else none other = other

    unfoldable pub resolve_ws_principal :
        ℕ → Header → Option Text → Header → S.State → Option Claims
    resolve_ws_principal now authorization access_token api_key s =
        or_else (verified now (bearer_of (text_of authorization)))
          (or_else (verified now access_token) (by_key (text_of api_key) s))

pub record HubMsg : Type 0 where
  pub tenant : Option String
  pub payload : String

-- Whether `forward` sends a message to a subscriber of the tenant.
abbrev is_for : String → Option String → Bool
is_for tenant none = true
is_for tenant (some t) = str_eq t tenant

-- What a subscriber whose socket takes every message is sent.
unfoldable pub forward : String → List HubMsg → List String
forward tenant [] = []
forward tenant (msg ∷ msgs) =
    let rest = forward tenant msgs in if is_for tenant msg.tenant then msg.payload ∷ rest else rest

-- authz.rs, DEFAULT_POLICY: the permit policies, the first three and the last under a condition.
unfoldable pub allows_role : List String → String → String → Bool
allows_role features role action =
    str_eq action "bughunt" && any (str_eq "bughunt") features
    || str_eq action "sso" && any (str_eq "sso") features
    || str_eq action "threat_intel" && any (str_eq "threat_intel") features
    || str_eq action "scans"
    || str_eq action "findings"
    || str_eq action "license"
    || str_eq action "compliance"
    || str_eq action "clouds"
    || str_eq action "llm_keys"
    || str_eq action "remediation_admin" && str_eq role "admin"

unfoldable pub allows : List String → String → Bool
allows features action = allows_role features "member" action

-- ===== src/Api/License.antt =====
-- crates/secureops-api/src/license.rs: licenses, `verify` and `sign`. Base64, ed25519 and serde_json
-- are the parameter `b`; times are seconds after the epoch, and a text is the list of its code points.
pub mod RoundTrip
use secureops.Prelude.{
  ℕ, ℤ, leb_ℤ, not, Bool, true, false, Option, none, some, List, [], ◌∷◌, ◌++◌, String, Result, ok,
  err, ◌>>=◌, ◌==◌, any, str_eq, if◌then◌else◌,
}

pub data Tier : Type 0 where
  community pro enterprise : Tier

pub record License : Type 0 where
  pub lic_id : String
  pub tenant_id : String
  pub tier : Tier
  pub seats : ℕ
  pub features : List String
  pub issued : ℤ
  pub expiry : ℤ
  pub mode : String
  pub grace_days : ℕ

abbrev pub is_expired_at : ℤ → License → Bool
is_expired_at now l = not (leb_ℤ now l.expiry)

abbrev pub has_feature : String → License → Bool
has_feature feature l = any (λ f. str_eq f feature) l.features

abbrev pub Text : Type 0
Text = List ℕ

pub record Base : Type 1 where
  pub SigningKey : Type 0
  pub VerifyingKey : Type 0
  pub Signature : Type 0
  pub encode : List ℕ → Text
  pub decode : Text → Option (List ℕ)
  pub from_bytes : List ℕ → Option VerifyingKey
  pub from_slice : List ℕ → Option Signature
  pub sign : SigningKey → List ℕ → List ℕ
  pub verify : VerifyingKey → List ℕ → Signature → Bool
  pub to_vec : License → List ℕ
  pub from_json : List ℕ → Option License

-- `ok_or`, and `map_err(|_| code)` on a result of which only the success is read
abbrev pub ok_or {ℓ} : {A : Type ℓ} → String → Option A → Result String A
ok_or code none = err code
ok_or code (some a) = ok a

abbrev with_left : ℕ → Option (Text × Text) → Option (Text × Text)
with_left c none = none
with_left c (some (left, right)) = some (c ∷ left, right)

-- `split_once('.')`
unfoldable pub split_once : Text → Option (Text × Text)
split_once [] = none
split_once (c ∷ s) = let rest = split_once s in if c == 46 then some ([], s) else with_left c rest

module _ (b : Base) where
  -- The payload is parsed only after its signature was checked.
  pub open_payload : List ℕ → ℤ → Bool → Result String License
  open_payload payload now false = err "invalid_signature"
  open_payload payload now true = ok_or "malformed_payload" (b.from_json payload) >>= λ lic.
      if is_expired_at now lic then err "license_expired" else ok lic

  pub check_parts : Text × Text → List ℕ → ℤ → Result String License
  unfolding open_payload
  check_parts (payload_b64, sig_b64) pubkey now =
      ok_or "malformed_key" (b.decode payload_b64) >>= λ payload.
      ok_or "malformed_key" (b.decode sig_b64) >>= λ sig_bytes.
      ok_or "bad_pubkey" (b.from_bytes pubkey) >>= λ vk.
      ok_or "invalid_signature" (b.from_slice sig_bytes) >>= λ sig.
      open_payload payload now (b.verify vk payload sig)

  unfoldable pub verify : Text → List ℕ → ℤ → Result String License
  unfolding split_once check_parts
  verify key pubkey now =
      ok_or "malformed_key" (split_once key) >>= λ parts. check_parts parts pubkey now

  unfoldable pub sign : License → b.SigningKey → Text
  sign lic signing_key =
      let payload = b.to_vec lic in b.encode payload ++ 46 ∷ b.encode (b.sign signing_key payload)

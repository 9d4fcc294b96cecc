-- ===== src/Api/License/RoundTrip.antt =====
-- crates/secureops-api/src/license.rs: `verify` on what `sign` makes.
use secureops.Prelude.{
  ℕ, ℤ, leb_ℤ, Bool, not, ◌≡◌, refl, true, false, some, List, [], ◌∷◌, ◌++◌, ok, err, All, ◌==◌,
  if◌then◌else◌,
}
use secureops.Api.License.{License, Text, Base, split_once, check_parts, open_payload, verify, sign}

-- What the libraries promise: Base64 without a dot that decodes back, a signature that verifies under
-- the key's public bytes, and JSON of the license that reads back.
pub record IsBase (b : Base) (key : b.SigningKey) (pubkey : List ℕ) (lic : License) : Type 0 where
  pub decodes : (bytes : List ℕ) → b.decode (b.encode bytes) ≡ some bytes
  pub no_dot : (bytes : List ℕ) → All (λ c. (c == 46) ≡ false) (b.encode bytes)
  pub public : b.VerifyingKey
  pub parsed : b.from_bytes pubkey ≡ some public
  pub signature : List ℕ → b.Signature
  pub sliced : (payload : List ℕ) → b.from_slice (b.sign key payload) ≡ some (signature payload)
  pub verifies : (payload : List ℕ) → b.verify public payload (signature payload) ≡ true
  pub reads : b.from_json (b.to_vec lic) ≡ some lic

split_once-dot :
    (left right : Text)
    → All (λ c. (c == 46) ≡ false) left
    → split_once (left ++ 46 ∷ right) ≡ some (left, right)
unfolding split_once
split_once-dot [] right a = refl
split_once-dot (c ∷ left) right a = rw (split_once-dot left right a.1, a.0) refl

if-not {ℓ} : {A : Type ℓ} (b : Bool) (x y : A) → (if not b then x else y) ≡ (if b then y else x)
if-not true x y = refl
if-not false x y = refl

-- A license that was signed verifies under the public key to the license itself, whatever it holds,
-- up to and with the second of its expiry, and after that as expired.
pub verify-sign :
    (b : Base) (key : b.SigningKey) (pubkey : List ℕ) (lic : License) (now : ℤ)
    → IsBase b key pubkey lic
    → verify b (sign b lic key) pubkey now
      ≡ (if leb_ℤ now lic.expiry then ok lic else err "license_expired")
unfolding verify sign check_parts open_payload
verify-sign b key pubkey lic now h =
    rw
      (
        split_once-dot (b.encode (b.to_vec lic)) (b.encode (b.sign key (b.to_vec lic)))
            (h.no_dot (b.to_vec lic)),
        h.decodes (b.to_vec lic),
        h.decodes (b.sign key (b.to_vec lic)),
        h.parsed,
        h.sliced (b.to_vec lic),
        h.verifies (b.to_vec lic),
        h.reads,
      )
      (if-not (leb_ℤ now lic.expiry) (err "license_expired") (ok lic))

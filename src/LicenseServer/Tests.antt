-- ===== src/LicenseServer/Tests.antt =====
-- Runs of the license server's tests, and instances of the theorems.
use secureops.Prelude.{
  ℕ, pos, leb_ℤ, ◌+◌, ◌-◌, ◌==◌, ◌≡◌, refl, ap, true, false, none, some, List, [], ◌∷◌, ok, err,
  All, arith, if◌then◌else◌,
}
use secureops.Api.License.{License, enterprise, Text, Base, verify, sign}
use secureops.Api.License.RoundTrip.{IsBase, verify-sign}
use secureops.LicenseServer.{AppState, new, ct_eq, status, heartbeat, revoke}
use secureops.LicenseServer.Revoked.{serve, heartbeat-revoked}

abbrev license : License
license = record {
  lic_id = "lic_1";
  tenant_id = "t1";
  tier = enterprise;
  seats = 10;
  features = [];
  issued = pos 0;
  expiry = pos 1000;
  mode = "online";
  grace_days = 7;
}

-- Bytes as characters after the dot.
abbrev shift : List ℕ → Text
shift [] = []
shift (b ∷ bytes) = (b + 47) ∷ shift bytes

abbrev unshift : Text → List ℕ
unshift [] = []
unshift (c ∷ s) = (c - 47) ∷ unshift s

unshift-shift : (bytes : List ℕ) → unshift (shift bytes) ≡ bytes
unshift-shift [] = refl
unshift-shift (b ∷ bytes) = rw (unshift-shift bytes) (ap (λ n. n ∷ bytes) (back b))
  where
    back : (b : ℕ) → (b + 47) - 47 ≡ b
    back b = omega arith

shift-no_dot : (bytes : List ℕ) → All (λ c. (c == 46) ≡ false) (shift bytes)
shift-no_dot [] = tt
shift-no_dot (b ∷ bytes) = (ground arith, shift-no_dot bytes)

-- Libraries that know one license: its payload and every signature are of one byte.
abbrev toy : Base
toy = record {
  SigningKey = Unit {0};
  VerifyingKey = Unit {0};
  Signature = Unit {0};
  encode = shift;
  decode = λ text. some (unshift text);
  from_bytes = λ bytes. some tt;
  from_slice = λ bytes. some tt;
  sign = λ key payload. 2 ∷ [];
  verify = λ key payload sig. true;
  to_vec = λ lic. 1 ∷ [];
  from_json = λ bytes. some license;
}

toy-IsBase : IsBase toy tt [] license
toy-IsBase = record {
  decodes = λ bytes. ap some (unshift-shift bytes);
  no_dot = shift-no_dot;
  public = tt;
  parsed = refl;
  signature = λ payload. tt;
  sliced = λ payload. refl;
  verifies = λ payload. refl;
  reads = refl;
}

abbrev key : Text
key = 48 ∷ 46 ∷ 49 ∷ []

verify-sign_example :
    verify toy (sign toy license tt) [] (pos 1001)
    ≡ (if leb_ℤ (pos 1001) license.expiry then ok license else err "license_expired")
verify-sign_example = verify-sign toy tt [] license (pos 1001) toy-IsBase

abbrev server : AppState
server = new [] (7 ∷ 8 ∷ [])

ct_eq_test : (ct_eq (7 ∷ 8 ∷ []) (7 ∷ 8 ∷ []) ≡ true) × (ct_eq (7 ∷ 9 ∷ []) (7 ∷ 8 ∷ []) ≡ false)
unfolding ct_eq
ct_eq_test = (refl, refl)

heartbeat-revoked_example :
    heartbeat toy key
      (pos 5)
      (serve ((none, "lic_2") ∷ []) (revoke (some (7 ∷ 8 ∷ [])) "lic_1" server).1)
    ≡ status "revoked" (pos 1000) "lic_1"
unfolding ct_eq verify
heartbeat-revoked_example =
    heartbeat-revoked toy (7 ∷ 8 ∷ []) ((none, "lic_2") ∷ []) key (pos 5) license server refl refl

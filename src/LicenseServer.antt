-- ===== src/LicenseServer.antt =====
-- crates/secureops-license-server/src/lib.rs: `heartbeat` and `revoke`, on the set of revoked ids.
-- The HTTP response is a value; the lock is held for each read and write of the set.
pub mod Revoked
mod Tests
use Prim.Native.Nat.{bit_or, bit_xor}
use secureops.Prelude.{
  ℕ, ℤ, Bool, true, false, ◌&&◌, Option, none, some, List, [], ◌∷◌, String, Result, ok, err, any,
  length, ◌==◌, str_eq, if◌then◌else◌,
}
use secureops.Api.License.{License, Text, Base, verify}

pub record AppState : Type 0 where
  pub pubkey : List ℕ
  pub admin_key : List ℕ
  pub revoked : List String

-- `AppState::new`
abbrev pub new : List ℕ → List ℕ → AppState
new pubkey admin_key = record { pubkey = pubkey; admin_key = admin_key; revoked = [] }

-- The fold over the pairs of bytes.
abbrev difference : ℕ → List ℕ → List ℕ → ℕ
difference acc (x ∷ a) (y ∷ b) = difference (bit_or acc (bit_xor x y)) a b
difference acc _ _ = acc

unfoldable pub ct_eq : List ℕ → List ℕ → Bool
ct_eq a b = length a == length b && difference 0 a b == 0

abbrev pub contains : String → List String → Bool
contains id revoked = any (str_eq id) revoked

pub data Response : Type 0 where
  status : String → ℤ → String → Response
  expired : Response
  forbidden : String → Response
  unauthorized : Response
  revoked_id : String → Response

unfoldable pub response_of : AppState → Result String License → Response
response_of s (ok lic) =
    status (if contains lic.lic_id s.revoked then "revoked" else "active") lic.expiry lic.lic_id
response_of s (err code) = if str_eq code "license_expired" then expired else forbidden code

unfoldable pub heartbeat : (b : Base) → Text → ℤ → AppState → Response
unfolding response_of
heartbeat b key now s = response_of s (verify b key s.pubkey now)

abbrev pub is_authorized : Option (List ℕ) → AppState → Bool
is_authorized none s = false
is_authorized (some k) s = ct_eq k s.admin_key

-- `HashSet::insert`
abbrev pub insert : String → List String → List String
insert id revoked = if contains id revoked then revoked else id ∷ revoked

-- `header` is the value of x-admin-key, where it is text.
unfoldable pub revoke : Option (List ℕ) → String → AppState → Response × AppState
unfolding ct_eq
revoke header lic_id s =
    if is_authorized header s
    then (revoked_id lic_id, record s { revoked = insert lic_id s.revoked })
    else (unauthorized, s)

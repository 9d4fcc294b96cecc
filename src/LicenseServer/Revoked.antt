-- ===== src/LicenseServer/Revoked.antt =====
-- crates/secureops-license-server/src/lib.rs: `heartbeat` after runs of `revoke`.
use secureops.Prelude.{
  ℕ, ℤ, ◌≡◌, inl, inr, refl, ◌∙◌, true, false, Bool-cases, Option, some, List, [], ◌∷◌, String, ok,
  any, str_eq_refl, arith,
}
use secureops.Api.License.{License, Text, Base, verify}
use secureops.LicenseServer.{
  AppState, ct_eq, contains, status, is_authorized, insert, response_of, heartbeat, revoke,
}

-- The requests that may change the state: revocations, with the header and the id.
unfoldable pub serve : List (Option (List ℕ) × String) → AppState → AppState
serve [] s = s
serve ((header, id) ∷ rest) s = serve rest (revoke header id s).1

contains-insert :
    (id x : String) (revoked : List String)
    → contains id revoked ≡ true
    → contains id (insert x revoked) ≡ true
contains-insert id x revoked h = ground (arith, h)

contains-inserted : (id : String) (revoked : List String) → contains id (insert id revoked) ≡ true
contains-inserted id revoked = ground (arith, str_eq_refl id)

revoke-keeps :
    (header : Option (List ℕ)) (x id : String) (s : AppState)
    → contains id s.revoked ≡ true
    → (contains id (revoke header x s).1.revoked ≡ true) × ((revoke header x s).1.pubkey ≡ s.pubkey)
unfolding revoke
revoke-keeps header x id s h = elim (Bool-cases (is_authorized header s)) [
  | inl granted ↦ rw granted (contains-insert id x s.revoked h, refl)
  | inr refused ↦ rw refused (h, refl)
]

serve-keeps :
    (requests : List (Option (List ℕ) × String)) (id : String) (s : AppState)
    → contains id s.revoked ≡ true
    → (contains id (serve requests s).revoked ≡ true) × ((serve requests s).pubkey ≡ s.pubkey)
unfolding serve
serve-keeps [] id s h = (h, refl)
serve-keeps ((header, x) ∷ rest) id s h =
    let (kept, same) = revoke-keeps header x id s h in
    let (later, same') = serve-keeps rest id (revoke header x s).1 kept in (later, same' ∙ same)

revoke-adds :
    (k : List ℕ) (id : String) (s : AppState)
    → ct_eq k s.admin_key ≡ true
    → (contains id (revoke (some k) id s).1.revoked ≡ true)
      × ((revoke (some k) id s).1.pubkey ≡ s.pubkey)
unfolding revoke
revoke-adds k id s h = rw h (contains-inserted id s.revoked, refl)

-- After a revocation with the admin key, whatever requests follow, with or without that key, the
-- heartbeat of a valid license of that id is answered as revoked, never as active.
pub heartbeat-revoked :
    (b : Base) (k : List ℕ) (requests : List (Option (List ℕ) × String)) (key : Text) (now : ℤ)
    (lic : License) (s : AppState)
    → ct_eq k s.admin_key ≡ true
    → verify b key s.pubkey now ≡ ok lic
    → heartbeat b key now (serve requests (revoke (some k) lic.lic_id s).1)
      ≡ status "revoked" lic.expiry lic.lic_id
unfolding heartbeat response_of
heartbeat-revoked b k requests key now lic s a v =
    let (added, same) = revoke-adds k lic.lic_id s a in
    let (kept, same') = serve-keeps requests lic.lic_id (revoke (some k) lic.lic_id s).1 added in
    rw (same', same, v, kept) refl

-- Requests without the admin key change nothing.
pub serve-unauthorized :
    (requests : List (Option (List ℕ) × String)) (s : AppState)
    → any (λ r. is_authorized r.0 s) requests ≡ false
    → serve requests s ≡ s
unfolding serve revoke
serve-unauthorized [] s h = refl
serve-unauthorized ((header, id) ∷ rest) s h = elim (Bool-cases (is_authorized header s)) [
  | inl granted ↦ ground (arith, granted, h)
  | inr refused ↦ rw refused (serve-unauthorized rest s (ground (arith, refused, h)))
]

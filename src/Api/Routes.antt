-- ===== src/Api/Routes.antt =====
-- crates/secureops-api/src/routes.rs: the handlers for licenses, scans and findings. A handler gives
-- its answer and the state after it. JSON texts are made by the parameter `json`, from their fields;
-- new UUIDs and the clock are arguments.
use secureops.Prelude.{
  ℕ, ℤ, pos, negsuc, Bool, true, false, not, Option, none, some, List, [], ◌∷◌, ◌++◌, ◌-◌, String,
  concat, Result, ok, err, str_eq, if◌then◌else◌,
}
use secureops.Api.License
use secureops.Api.License.{License, Tier, community, pro, enterprise, Base}
use secureops.Api.Models.{
  Scan, queued, Finding, FindingFilter, Claims, ApiError, forbidden, bad_request, not_found,
  store_failed, internal,
}
use secureops.Api.Store.{Fallible, Store}
use secureops.Api.Auth.{Text, Crypto, HubMsg, issuer, issue_jwt, allows}

pub data Field : Type 0 where
  text : String → String → Field
  uuid : String → ℕ → Field

abbrev pub Json : Type 0
Json = List Field → String

-- The part of `AppState` that handlers change: the store, the hub's messages and the scan queue, the
-- oldest first.
pub record AppState (S : Store) : Type 0 where
  pub store : S.State
  pub hub : List HubMsg
  pub queue : List String

abbrev pub tier_name : Tier → String
tier_name community = "community"
tier_name pro = "pro"
tier_name enterprise = "enterprise"

-- `as usize`, on 64 bits
abbrev as_usize : ℤ → ℕ
as_usize (pos n) = n
as_usize (negsuc n) = 18446744073709551615 - n

-- The claims of the session that an activation mints.
abbrev pub admin_claims : License → Claims
admin_claims lic = record {
  sub = concat ("license:" ∷ lic.lic_id ∷ []);
  tenant = lic.tenant_id;
  tier = tier_name lic.tier;
  role = "admin";
  features = lic.features;
  iss = issuer;
  exp = as_usize lic.expiry;
}

abbrev pub ok_or {ℓ} : {A : Type ℓ} → Option A → Result ApiError A
ok_or none = err not_found
ok_or (some a) = ok a

abbrev pub status_of : String → Option String
status_of action =
    if str_eq action "confirm"
    then some "confirmed"
    else if str_eq action "dismiss"
    then some "dismissed"
    else if str_eq action "escalate"
    then some "escalated"
    else none

module _ (S : Store) where
  abbrev pub Handled : Type 0 → Type 0
  Handled A = Result ApiError A × AppState S

  abbrev pub published : String → String → AppState S → AppState S
  published tenant payload s = record s {
    hub = s.hub ++ record { tenant = some tenant; payload = payload } ∷ [];
  }

  -- `.map_err(|e| ApiError::Store(..))?` on a call of the store, and what follows it.
  abbrev pub stored :
      {A B : Type 0} → Fallible A × S.State → AppState S → (A → AppState S → Handled B) → Handled B
  stored (err e, store) s next = (err (store_failed e), record s { store = store })
  stored (ok a, store) s next = next a (record s { store = store })

  module _ (b : Base) (c : Crypto) (secret : String) where
    abbrev minted : License → Result String Text → Result ApiError Text
    minted lic (err e) = err (internal e)
    minted lic (ok token) = ok token

    abbrev activated : Result String License → AppState S → Handled Text
    activated (err code) s = (err (ApiError.license code), s)
    activated (ok lic) s =
        stored (S.put_license lic s.store) s
          (λ done t. (minted lic (issue_jwt c secret (admin_claims lic)), t))

    -- The token of the answer; its tier, expiry and features are the license's.
    unfoldable pub license_activate : List ℕ → ℤ → License.Text → AppState S → Handled Text
    license_activate pubkey now key s = activated (License.verify b key pubkey now) s

  unfoldable pub license_get : Claims → AppState S → Handled License
  license_get claims s =
      stored (S.get_license claims.tenant s.store, s.store) s (λ found t. (ok_or found, t))

  module _ (json : Json) where
    abbrev pub job_payload : Scan → String
    job_payload scan = json (
        uuid "scanId" scan.id
        ∷ text "scope" scan.scope
        ∷ text "kind" scan.kind
        ∷ text "tenant_id" scan.tenant_id
        ∷ [])

    -- `redis` is absent, or answers an enqueue with success or a failure, which is only logged.
    abbrev enqueue : Option Bool → String → AppState S → AppState S
    enqueue (some true) payload s = record s { queue = s.queue ++ payload ∷ [] }
    enqueue _ payload s = s

    unfoldable pub create_scan : Option Bool → ℕ → ℕ → Claims → String → AppState S → Handled ℕ
    create_scan redis id now claims scope s =
        let scan : Scan = record {
          id = id;
          tenant_id = claims.tenant;
          scope = scope;
          kind = "scan";
          status = queued;
          created_at = now;
        } in
        let answer = stored (S.create_scan scan s.store) s (λ done t. (
          ok id,
          published claims.tenant (json (text "event" "scan.queued" ∷ uuid "id" id ∷ []))
              (enqueue redis (job_payload scan) t),
        )) in
        if not (allows claims.features "scans") then (err (forbidden "scans"), s) else answer

    unfoldable pub finding_action : Claims → ℕ → String → AppState S → Handled String
    finding_action claims id action s = act (status_of action)
      where
        updated : String → Bool → AppState S → Handled String
        updated status false t = (err not_found, t)
        updated status true t = (
          ok status,
          published claims.tenant
              (json (text "event" "finding.action" ∷ uuid "id" id ∷ text "status" status ∷ [])) t,
        )

        act : Option String → Handled String
        act none = (err (bad_request (concat ("unknown action: " ∷ action ∷ []))), s)
        act (some status) =
            stored (S.set_finding_status claims.tenant id status s.store) s (updated status)

  unfoldable pub get_scan : Claims → ℕ → AppState S → Handled Scan
  get_scan claims id s =
      stored (S.get_scan claims.tenant id s.store, s.store) s (λ found t. (ok_or found, t))

  abbrev or_value : Option ℤ → ℕ → ℤ
  or_value none d = pos d
  or_value (some n) d = n

  -- `rank` is the re-ranking by the tenant's model, of `intel::rank_findings`.
  unfoldable pub list_findings :
      (String → List Finding → List Finding)
      → Claims
      → Option String
      → Option String
      → Option ℤ
      → Option ℤ
      → AppState S
      → Handled (List Finding)
  list_findings rank claims severity status limit offset s =
      let filter : FindingFilter = record {
        severity = severity;
        status = status;
        limit = or_value limit 50;
        offset = or_value offset 0;
      } in
      let answer =
        stored (S.list_findings claims.tenant filter s.store, s.store) s
          (λ items t. (ok (rank claims.tenant items), t)) in
      if not (allows claims.features "findings") then (err (forbidden "findings"), s) else answer

-- ===== src/Api/Remediations/Approved.antt =====
-- `remediation_approve`: who may run a playbook, and what the store then says of it.
use secureops.Prelude.{
  ℕ, ◌≡◌, ◌≢◌, refl, true, Option, none, some, List, String, Result, ok, err, str_eq_iff,
  Bool-cases, inl, inr,
}
use secureops.Prelude.Map
use secureops.Prelude.Map.{String-Key}
use secureops.SelfHeal.Types.{Playbook}
use secureops.SelfHeal.Breaker.{F32}
use secureops.SelfHeal.Engine.{CloudBackend}
use secureops.Api.Models.{Remediation, Claims}
use secureops.Api.Store.{Store, Mem, or_empty}
use secureops.Api.Auth.{allows_role}
use secureops.Api.Routes.{AppState, Json}
use secureops.Api.Remediations.{
  find_playbook, find_remediation, Healing, approve_with, approve_found, approve_listed,
  remediation_approve,
}

allows_role-admin :
    (features : List String) (role : String)
    → allows_role features role "remediation_admin" ≡ true
    → role ≡ "admin"
unfolding allows_role
allows_role-admin features role h = (str_eq_iff role "admin").0 h

module _ (S : Store) (json : Json) (playbooks : List Playbook) (f : F32)
    (backend : Playbook → CloudBackend) (start : (pb : Playbook) → (backend pb).Cloud) where
  -- The remediation of the id is in the tenant's queue, and its playbook is an embedded one.
  pub record IsQueued (claims : Claims) (id : ℕ) (s : AppState S) : Type 0 where
    pub items : List Remediation
    pub rem : Remediation
    pub pb : Playbook
    pub listed : S.list_remediations claims.tenant s.store ≡ ok items
    pub queued : find_remediation id items ≡ some rem
    pub embedded : find_playbook rem.playbook_id playbooks ≡ some pb

  approve_with-IsQueued :
      (now : ℕ) (claims : Claims) (id : ℕ) (h : Healing S json playbooks f backend start)
      (items : List Remediation) (rem : Remediation)
      → S.list_remediations claims.tenant h.app.store ≡ ok items
      → find_remediation id items ≡ some rem
      → (found : Option Playbook) → find_playbook rem.playbook_id playbooks ≡ found
      → (approve_with S json playbooks f backend start now claims id found h).1 ≢ h
      → IsQueued claims id h.app
  approve_with-IsQueued now claims id h items rem l q none e changed = absurd (changed refl)
  approve_with-IsQueued now claims id h items rem l q (some pb) e changed = record {
    items = items;
    rem = rem;
    pb = pb;
    listed = l;
    queued = q;
    embedded = e;
  }

  approve_found-IsQueued :
      (now : ℕ) (claims : Claims) (id : ℕ) (h : Healing S json playbooks f backend start)
      (items : List Remediation)
      → S.list_remediations claims.tenant h.app.store ≡ ok items
      → (found : Option Remediation) → find_remediation id items ≡ found
      → (approve_found S json playbooks f backend start now claims id found h).1 ≢ h
      → IsQueued claims id h.app
  approve_found-IsQueued now claims id h items l none q changed = absurd (changed refl)
  approve_found-IsQueued now claims id h items l (some rem) q changed =
      approve_with-IsQueued now claims id h items rem l q (find_playbook rem.playbook_id playbooks)
        refl changed

  approve_listed-IsQueued :
      (now : ℕ) (claims : Claims) (id : ℕ) (h : Healing S json playbooks f backend start)
      (listed : Result String (List Remediation))
      → S.list_remediations claims.tenant h.app.store ≡ listed
      → (approve_listed S json playbooks f backend start now claims id listed h).1 ≢ h
      → IsQueued claims id h.app
  approve_listed-IsQueued now claims id h (err e) l changed = absurd (changed refl)
  approve_listed-IsQueued now claims id h (ok items) l changed =
      approve_found-IsQueued now claims id h items l (find_remediation id items) refl changed

  -- An approval that changes anything at all, the store, the hub's messages or the circuit breaker,
  -- came from a principal with the admin role, for a remediation of its own tenant's queue whose
  -- playbook is an embedded one.
  pub remediation_approve-IsQueued :
      (now : ℕ) (claims : Claims) (id : ℕ) (h : Healing S json playbooks f backend start)
      → (remediation_approve S json playbooks f backend start now claims id h).1 ≢ h
      → (claims.role ≡ "admin") × IsQueued claims id h.app
  unfolding remediation_approve
  remediation_approve-IsQueued now claims id h changed =
      elim (Bool-cases (allows_role claims.features claims.role "remediation_admin")) [
        | inl may ↦ (
          allows_role-admin claims.features claims.role may,
          approve_listed-IsQueued now claims id h (S.list_remediations claims.tenant h.app.store)
              refl (rw may at changed),
        )
        | inr may_not ↦ absurd ((rw may_not at changed) refl)
      ]

-- The tenant's remediation of the id, in the in-memory store.
abbrev pub remediation_of : String → ℕ → Mem → Option Remediation
remediation_of tenant id s = find_remediation id (or_empty (Map.get tenant s.remediations))

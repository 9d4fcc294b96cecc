-- ===== src/Api/Remediations.antt =====
-- crates/secureops-api/src/intel.rs: the remediation handlers, over the self-healing engine. The
-- embedded playbooks are a parameter, since a YAML parser reads them, and so are the backends that
-- `cloud_backend_for` chooses between, each with the cloud it starts from.
pub mod Approved
use secureops.Prelude.{
  ℕ, Bool, true, false, not, Option, none, some, List, [], ◌∷◌, ◌++◌, String, concat, Result, ok,
  err, ◌==◌, str_eq, if◌then◌else◌,
}
use secureops.SelfHeal.Types.{
  PlaybookClass, safe, reversible, destructive, Playbook, Approval, approved, ExecState, completed,
  rolled_back, aborted, failed, ExecOutcome,
}
use secureops.SelfHeal.Breaker.{F32, CircuitBreaker, reset}
use secureops.SelfHeal.Engine.{CloudBackend, World, run}
use secureops.Api.Models.{Remediation, Claims, ApiError, forbidden, bad_request, not_found}
use secureops.Api.Store.{Store}
use secureops.Api.Auth.{allows_role}
use secureops.Api.Routes.{AppState, Field, text, uuid, Json, Handled, published, stored}

abbrev pub exec_state_str : ExecState → String
exec_state_str completed = "completed"
exec_state_str rolled_back = "rolled_back"
exec_state_str aborted = "aborted"
exec_state_str failed = "failed"

-- `format!("{:?}", class).to_lowercase()`
abbrev pub class_name : PlaybookClass → String
class_name safe = "safe"
class_name reversible = "reversible"
class_name destructive = "destructive"

abbrev pub parse_playbook_class : String → Option PlaybookClass
parse_playbook_class s =
    if str_eq s "safe"
    then some safe
    else if str_eq s "reversible"
    then some reversible
    else if str_eq s "destructive"
    then some destructive
    else none

-- `into_iter().find(..)`
unfoldable pub find_playbook : String → List Playbook → Option Playbook
find_playbook id [] = none
find_playbook id (pb ∷ pbs) = if str_eq pb.id id then some pb else find_playbook id pbs

unfoldable pub find_remediation : ℕ → List Remediation → Option Remediation
find_remediation id [] = none
find_remediation id (r ∷ rs) = if r.id == id then some r else find_remediation id rs

module _ (S : Store) (json : Json) (playbooks : List Playbook) where
  abbrev created : ℕ → Claims → String → Option Playbook → AppState S → Handled S Remediation
  created id claims finding_id none s = (err not_found, s)
  created id claims finding_id (some pb) s =
      let rem : Remediation = record {
        id = id;
        finding_id = finding_id;
        playbook_id = pb.id;
        class = class_name pb.class;
        state = "pending";
      } in
      stored S (S.insert_remediation claims.tenant rem s.store) s (λ done t. (
        ok rem,
        published S claims.tenant
            (json (
              text "event" "remediation.queued"
              ∷ uuid "id" id
              ∷ text "class" (class_name pb.class)
              ∷ []))
            t,
      ))

  unfoldable pub remediation_create :
      ℕ → Claims → String → String → AppState S → Handled S Remediation
  remediation_create id claims finding_id playbook_id s =
      created id claims finding_id (find_playbook playbook_id playbooks) s

  unfoldable pub remediations_queue : Claims → AppState S → Handled S (List Remediation)
  remediations_queue claims s =
      stored S (S.list_remediations claims.tenant s.store, s.store) s (λ items t. (ok items, t))

  abbrev denied : Claims → ℕ → Bool → AppState S → Handled S String
  denied claims id false t = (err not_found, t)
  denied claims id true t = (
    ok "aborted",
    published S claims.tenant
        (json (text "event" "remediation.denied" ∷ uuid "id" id ∷ text "state" "aborted" ∷ [])) t,
  )

  unfoldable pub remediation_deny : Claims → ℕ → AppState S → Handled S String
  remediation_deny claims id s =
      stored S (S.set_remediation_state claims.tenant id "aborted" s.store) s (denied claims id)

  module _ (f : F32) (backend : Playbook → CloudBackend)
      (start : (pb : Playbook) → (backend pb).Cloud) where
    -- The handlers' state with the breaker of the engine.
    pub record Healing : Type 0 where
      pub app : AppState S
      pub breaker : CircuitBreaker f

    -- What an approved playbook comes to, and the breaker after it. The audit sink is new, and is
    -- dropped with the cloud when the run ends.
    pub executed : ℕ → String → Playbook → CircuitBreaker f → ExecOutcome × CircuitBreaker f
    executed now by pb breaker =
        let (outcome, w) =
          run f (backend pb) now pb (some (approved by))
            (record { breaker = breaker; cloud = start pb; log = [] }) in
        (outcome, w.breaker)

    abbrev settled :
        Claims
        → ℕ
        → ExecOutcome × CircuitBreaker f
        → AppState S
        → Result ApiError (String × Bool) × Healing
    settled claims id (outcome, breaker) s =
        let state = exec_state_str outcome.state in
        let t =
          published S claims.tenant
            (json (text "event" "remediation.completed" ∷ uuid "id" id ∷ text "state" state ∷ []))
            s in
        let (answer, u) =
          stored S (S.set_remediation_state claims.tenant id state t.store) t
            (λ updated v. (ok (state, outcome.executed), v)) in
        (answer, record { app = u; breaker = breaker })

    abbrev approve_with :
        ℕ → Claims → ℕ → Option Playbook → Healing → Result ApiError (String × Bool) × Healing
    approve_with now claims id none h = (err not_found, h)
    approve_with now claims id (some pb) h =
        settled claims id (executed now claims.sub pb h.breaker) h.app

    abbrev approve_found :
        ℕ → Claims → ℕ → Option Remediation → Healing → Result ApiError (String × Bool) × Healing
    approve_found now claims id none h = (err not_found, h)
    approve_found now claims id (some rem) h =
        approve_with now claims id (find_playbook rem.playbook_id playbooks) h

    abbrev approve_listed :
        ℕ
        → Claims
        → ℕ
        → Result String (List Remediation)
        → Healing
        → Result ApiError (String × Bool) × Healing
    approve_listed now claims id (err e) h = (err (ApiError.store_failed e), h)
    approve_listed now claims id (ok items) h =
        approve_found now claims id (find_remediation id items) h

    -- The state that the playbook came to, and whether it executed.
    unfoldable pub remediation_approve :
        ℕ → Claims → ℕ → Healing → Result ApiError (String × Bool) × Healing
    unfolding executed
    remediation_approve now claims id h =
        let answer =
          approve_listed now claims id (S.list_remediations claims.tenant h.app.store) h in
        if not (allows_role claims.features claims.role "remediation_admin")
        then (err (forbidden "remediation_admin"), h)
        else answer

    abbrev reset_class :
        String → Option PlaybookClass → Healing → Result ApiError (Unit {0}) × Healing
    reset_class name none h = (err (bad_request (concat ("unknown class: " ∷ name ∷ []))), h)
    reset_class name (some class) h = (ok tt, record h { breaker = reset f class h.breaker })

    unfoldable pub remediation_circuit_reset :
        Claims → String → Healing → Result ApiError (Unit {0}) × Healing
    remediation_circuit_reset claims name h =
        if not (allows_role claims.features claims.role "remediation_admin")
        then (err (forbidden "remediation_admin"), h)
        else reset_class name (parse_playbook_class name) h

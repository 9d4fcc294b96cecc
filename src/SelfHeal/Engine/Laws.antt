-- ===== src/SelfHeal/Engine/Laws.antt =====
-- `PlaybookEngine::run`: what a run may do to the cloud, and what it records.
use secureops.Prelude.{
  ℕ, ◌≡◌, inl, inr, refl, Bool, true, false, ◌&&◌, String, Option, none, some, [], ◌∷◌, ◌++◌, arith,
  Result, ok, err, to_option, Bool-cases, if◌then◌else◌,
}
use secureops.SelfHeal.Types.{
  PlaybookClass, safe, reversible, destructive, Playbook, Approval, approved, denied, timeout,
  ExecState, completed, rolled_back, aborted, failed, AuditRecord, ExecOutcome,
}
use secureops.SelfHeal.Breaker.{F32, record_at, is_open}
use secureops.SelfHeal.Engine.{
  CloudBackend, World, audit, note, finalize_execute, take_snapshot, check_health, is_ok, undo,
  settle, run_safe, run_reversible, run_destructive, await_approval, run_class, run,
}

module _ (f : F32) (k : CloudBackend) where
  -- While a class is halted, a run of a playbook of it aborts and touches neither the cloud nor the
  -- breaker.
  pub run-halted :
      (now : ℕ) (pb : Playbook) (approval : Option Approval) (w : World f k)
      → is_open f pb.class w.breaker ≡ true
      → ((run f k now pb approval w).0 ≡ record { state = aborted; executed = false })
        × ((run f k now pb approval w).1.cloud ≡ w.cloud)
        × ((run f k now pb approval w).1.breaker ≡ w.breaker)
  unfolding run
  run-halted now pb approval w h = ground arith

  abbrev pub is_approved : Option Approval → Bool
  is_approved (some (approved by)) = true
  is_approved _ = false

  -- A destructive playbook without an approval aborts and touches neither the cloud nor the breaker,
  -- whatever the answer was: denied, timed out or none at all.
  pub run-unapproved :
      (now : ℕ) (pb : Playbook) (approval : Option Approval) (w : World f k)
      → pb.class ≡ destructive
      → is_approved approval ≡ false
      → ((run f k now pb approval w).0 ≡ record { state = aborted; executed = false })
        × ((run f k now pb approval w).1.cloud ≡ w.cloud)
        × ((run f k now pb approval w).1.breaker ≡ w.breaker)
  unfolding run
  run-unapproved now pb approval w d h = ground arith

  -- What a run appends to the audit log: nothing where the playbook does not require an audit, and
  -- else one record, of the playbook and with the state of the outcome.
  pub record Appends (pb : Playbook) (w : World f k) (r : ExecOutcome × World f k) : Type 0 where
    pub entry : AuditRecord
    pub log : (r.1).log ≡ (if pb.audit_required then w.log ++ entry ∷ [] else w.log)
    pub of_playbook : entry.playbook_id ≡ pb.id
    pub of_state : entry.state ≡ (r.0).state

  audit-Appends :
      (pb : Playbook) (action : String) (after : Option String) (state : ExecState)
      (actor : Option String) (executed : Bool) (w v : World f k)
      → v.log ≡ w.log
      → Appends pb w
          (record { state = state; executed = executed }, audit f k pb action after state actor v)
  unfolding audit
  audit-Appends pb action after state actor executed w v h = record {
    entry = record {
      playbook_id = pb.id;
      action = action;
      before = none;
      after = after;
      state = state;
      actor = actor;
    };
    log = ground arith;
    of_playbook = refl;
    of_state = refl;
  }

  finalize_execute-Appends :
      (now : ℕ) (pb : Playbook) (actor : Option String) (result : Result String String)
      (w v : World f k)
      → v.log ≡ w.log
      → Appends pb w (finalize_execute f k now pb actor result v)
  unfolding finalize_execute
  finalize_execute-Appends now pb actor (ok out) w v h =
      audit-Appends pb "execute" (some out) completed actor true w (note f k pb.class true now v)
        (unfold note in h)
  finalize_execute-Appends now pb actor (err e) w v h =
      audit-Appends pb "execute" (some e) failed actor true w (note f k pb.class false now v)
        (unfold note in h)

  settle-Appends :
      (now : ℕ) (pb : Playbook) (snap : Option String) (exec : Result String String)
      (healthy : Bool) (cloud : k.Cloud) (w : World f k)
      → Appends pb w (settle f k now pb snap exec (healthy, cloud) w)
  unfolding settle note
  settle-Appends now pb snap exec healthy cloud w = elim (Bool-cases (is_ok f k exec && healthy)) [
    | inl good ↦ rw good (
        audit-Appends pb "execute" (to_option exec) completed none true w
          (note f k pb.class true now (record w { cloud = cloud })) refl)
    | inr bad ↦ rw bad (
        audit-Appends pb "rollback" none rolled_back none (is_ok f k exec) w
          (note f k pb.class false now (record w { cloud = undo f k pb.rollback snap cloud })) refl)
  ]

  -- The three answers of a reversible run: the snapshot, the execution and the health check.
  abbrev pub snap_of : Playbook → World f k → Option String × k.Cloud
  snap_of pb w = take_snapshot f k pb.snapshot w.cloud

  abbrev pub exec_of : Playbook → World f k → Result String String × k.Cloud
  exec_of pb w = k.execute pb.execute (snap_of pb w).1

  abbrev pub health_of : Playbook → World f k → Bool × k.Cloud
  health_of pb w = check_health f k pb.health_check (exec_of pb w).0 (exec_of pb w).1

  run_class-Appends :
      (class : PlaybookClass) (now : ℕ) (pb : Playbook) (approval : Option Approval) (w : World f k)
      → Appends pb w (run_class f k class now pb approval w)
  unfolding run_class run_safe run_reversible run_destructive await_approval
  run_class-Appends safe now pb approval w = finalize_execute-Appends now pb none _ w _ refl
  run_class-Appends reversible now pb approval w =
      settle-Appends now pb (snap_of pb w).0 (exec_of pb w).0 (health_of pb w).0 (health_of pb w).1
        w
  run_class-Appends destructive now pb (some (approved by)) w =
      finalize_execute-Appends now pb (some by) _ w _ refl
  run_class-Appends destructive now pb (some (denied reason)) w =
      audit-Appends pb "await_approval" none aborted none false w w refl
  run_class-Appends destructive now pb (some timeout) w =
      audit-Appends pb "await_approval" none aborted none false w w refl
  run_class-Appends destructive now pb none w =
      audit-Appends pb "await_approval" none aborted none false w w refl

  -- Every run, of every class and with every answer of the cloud, only appends to the audit log:
  -- one record, of the playbook and with the state of the outcome, or none where the playbook does
  -- not require an audit.
  pub run-Appends :
      (now : ℕ) (pb : Playbook) (approval : Option Approval) (w : World f k)
      → Appends pb w (run f k now pb approval w)
  unfolding run
  run-Appends now pb approval w = elim (Bool-cases (is_open f pb.class w.breaker)) [
    | inl halted ↦ rw halted (audit-Appends pb "blocked" none aborted none false w w refl)
    | inr going ↦ rw going (run_class-Appends pb.class now pb approval w)
  ]

  abbrev pub is_completed : ExecState → Bool
  is_completed completed = true
  is_completed _ = false

  abbrev pub is_aborted : ExecState → Bool
  is_aborted aborted = true
  is_aborted _ = false

  -- Every run that does not abort records one result with the breaker, good exactly when the run
  -- completed; a run that aborts records none.
  pub run-record_at :
      (now : ℕ) (pb : Playbook) (approval : Option Approval) (w : World f k)
      → (run f k now pb approval w).1.breaker ≡ (
          if is_aborted (run f k now pb approval w).0.state
          then w.breaker
          else record_at f pb.class
              (is_completed (run f k now pb approval w).0.state)
              now
              w.breaker)
  unfolding run
  run-record_at now pb approval w = ground arith

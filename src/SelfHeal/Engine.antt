-- ===== src/SelfHeal/Engine.antt =====
-- crates/secureops-selfheal/src/lib.rs: `PlaybookEngine::run`. The cloud is a state that the backend
-- changes, and the audit sink is the list of its records, oldest first.
pub mod Laws
pub mod Protocol
use secureops.Prelude.{
  ℕ, Bool, true, false, ◌&&◌, String, Option, none, some, List, [], ◌∷◌, ◌++◌, Result, ok, err,
  to_option, unwrap_or, if◌then◌else◌,
}
use secureops.SelfHeal.Types.{
  PlaybookClass, safe, reversible, destructive, Playbook, Approval, approved, denied, timeout,
  ExecState, completed, rolled_back, aborted, failed, AuditRecord, ExecOutcome,
}
use secureops.SelfHeal.Breaker.{F32, CircuitBreaker, record_at, is_open}

-- `CloudBackend`: each step may change the cloud, whether it succeeds or not.
pub record CloudBackend : Type 1 where
  pub Cloud : Type 0
  pub dry_run : String → Cloud → Result String String × Cloud
  pub snapshot : String → Cloud → Result String String × Cloud
  pub execute : String → Cloud → Result String String × Cloud
  pub health_check : String → Cloud → Result String Bool × Cloud
  pub rollback : String → String → Cloud → Result String (Unit {0}) × Cloud

module _ (f : F32) (k : CloudBackend) where
  pub record World : Type 0 where
    pub breaker : CircuitBreaker f
    pub cloud : k.Cloud
    pub log : List AuditRecord

  pub audit : Playbook → String → Option String → ExecState → Option String → World → World
  audit pb action after state actor w =
      if pb.audit_required
      then record w {
        log =
            w.log
            ++ record {
              playbook_id = pb.id;
              action = action;
              before = none;
              after = after;
              state = state;
              actor = actor;
            }
              ∷ [];
      }
      else w

  pub note : PlaybookClass → Bool → ℕ → World → World
  note class good now w = record w { breaker = record_at f class good now w.breaker }

  -- `finalize_execute`, on the result of the backend's `execute`.
  pub finalize_execute :
      ℕ → Playbook → Option String → Result String String → World → ExecOutcome × World
  unfolding audit note
  finalize_execute now pb actor (ok after) w = (
    record { state = completed; executed = true },
    audit pb "execute" (some after) completed actor (note pb.class true now w),
  )
  finalize_execute now pb actor (err e) w = (
    record { state = failed; executed = true },
    audit pb "execute" (some e) failed actor (note pb.class false now w),
  )

  abbrev in_cloud : World → k.Cloud → World
  in_cloud w cloud = record w { cloud = cloud }

  -- `let _ = cloud.dry_run(dr)`, where there is a dry run
  abbrev pub try_dry_run : Option String → k.Cloud → k.Cloud
  try_dry_run none cloud = cloud
  try_dry_run (some step) cloud = (k.dry_run step cloud).1

  pub run_safe : ℕ → Playbook → World → ExecOutcome × World
  unfolding finalize_execute
  run_safe now pb w =
      let (result, cloud) = k.execute pb.execute (try_dry_run pb.dry_run w.cloud) in
      finalize_execute now pb none result (in_cloud w cloud)

  abbrev option_of : Result String String × k.Cloud → Option String × k.Cloud
  option_of (r, cloud) = (to_option r, cloud)

  abbrev pub take_snapshot : Option String → k.Cloud → Option String × k.Cloud
  take_snapshot none cloud = (none, cloud)
  take_snapshot (some step) cloud = option_of (k.snapshot step cloud)

  abbrev healthy_of : Result String Bool × k.Cloud → Bool × k.Cloud
  healthy_of (r, cloud) = (unwrap_or r false, cloud)

  -- `healthy`, after the result of `execute`
  abbrev pub check_health : Option String → Result String String → k.Cloud → Bool × k.Cloud
  check_health step (err e) cloud = (false, cloud)
  check_health none (ok out) cloud = (true, cloud)
  check_health (some step) (ok out) cloud = healthy_of (k.health_check step cloud)

  abbrev pub is_ok : Result String String → Bool
  is_ok (ok out) = true
  is_ok (err e) = false

  abbrev pub undo : Option String → Option String → k.Cloud → k.Cloud
  undo (some rb) (some snap) cloud = (k.rollback rb snap cloud).1
  undo _ _ cloud = cloud

  -- The two ends of a reversible run.
  pub settle :
      ℕ
      → Playbook
      → Option String
      → Result String String
      → Bool × k.Cloud
      → World
      → ExecOutcome × World
  unfolding audit note
  settle now pb snap exec (healthy, cloud) w =
      if is_ok exec && healthy
      then (
        record { state = completed; executed = true },
        audit pb "execute" (to_option exec) completed none
            (note pb.class true now (in_cloud w cloud)),
      )
      else (
        record { state = rolled_back; executed = is_ok exec },
        audit pb "rollback" none rolled_back none
            (note pb.class false now (in_cloud w (undo pb.rollback snap cloud))),
      )

  pub run_reversible : ℕ → Playbook → World → ExecOutcome × World
  unfolding settle
  run_reversible now pb w =
      let (snap, cloud) = take_snapshot pb.snapshot w.cloud in
      let (exec, cloud') = k.execute pb.execute cloud in
      settle now pb snap exec (check_health pb.health_check exec cloud') w

  pub await_approval : Playbook → World → ExecOutcome × World
  unfolding audit
  await_approval pb w =
      (record { state = aborted; executed = false }, audit pb "await_approval" none aborted none w)

  pub run_destructive : ℕ → Playbook → Option Approval → World → ExecOutcome × World
  unfolding finalize_execute await_approval
  run_destructive now pb (some (approved by)) w =
      let (result, cloud) = k.execute pb.execute w.cloud in
      finalize_execute now pb (some by) result (in_cloud w cloud)
  run_destructive now pb _ w = await_approval pb w

  pub run_class : PlaybookClass → ℕ → Playbook → Option Approval → World → ExecOutcome × World
  unfolding run_safe run_reversible run_destructive
  run_class safe now pb approval w = run_safe now pb w
  run_class reversible now pb approval w = run_reversible now pb w
  run_class destructive now pb approval w = run_destructive now pb approval w

  -- `run`; `now` is the clock that the breaker reads when a result is recorded.
  unfoldable pub run : ℕ → Playbook → Option Approval → World → ExecOutcome × World
  unfolding run_class audit
  run now pb approval w =
      if is_open f pb.class w.breaker
      then (record { state = aborted; executed = false }, audit pb "blocked" none aborted none w)
      else run_class pb.class now pb approval w

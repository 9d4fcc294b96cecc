-- ===== src/SelfHeal/Engine/Protocol.antt =====
-- What a run of a playbook does to the cloud, told step by step of the backend alone, and that
-- `PlaybookEngine::run` does it.
use secureops.Prelude.{
  ℕ, ◌≡◌, ◌≢◌, refl, ap, ◌∙◌, inl, inr, Bool-cases, ◌&&◌, sym, subst, Bool, true, false, String,
  Option, none, some, arith, Result, ok, err, to_option, unwrap_or,
}
use secureops.SelfHeal.Types.{
  PlaybookClass, safe, reversible, destructive, Playbook, Approval, approved, denied, timeout,
  completed, rolled_back, ExecOutcome,
}
use secureops.SelfHeal.Breaker.{F32, is_open}
use secureops.SelfHeal.Engine.Laws.{is_approved}
use secureops.SelfHeal.Engine.{
  CloudBackend, World, try_dry_run, take_snapshot, check_health, undo, settle, finalize_execute,
  is_ok, run_safe, run_reversible, run_destructive, await_approval, run_class, run,
}

-- A step succeeded.
abbrev pub IsDone : Result String String → Type 0
IsDone r = (out : String) × (r ≡ ok out)

-- A reversible playbook, from the cloud that it starts in.
module _ (k : CloudBackend) (pb : Playbook) (start : k.Cloud) where
  -- After the snapshot, where the playbook has one.
  abbrev pub snapped : Option String → k.Cloud
  snapped none = start
  snapped (some step) = (k.snapshot step start).1

  -- The execution's answer, and the cloud after it.
  abbrev pub executing : Result String String × k.Cloud
  executing = k.execute pb.execute (snapped pb.snapshot)

  -- The health check passes, if there is one.
  abbrev pub Passes : Option String → Type 0
  Passes none = Unit
  Passes (some step) = (k.health_check step executing.1).0 ≡ ok true

  -- The cloud after the health check.
  abbrev pub checked : Option String → k.Cloud
  checked none = executing.1
  checked (some step) = (k.health_check step executing.1).1

  -- A rollback to a snapshot, where that was taken.
  abbrev pub back_to : String → Result String String → k.Cloud → k.Cloud
  back_to rb (ok snap) cloud = (k.rollback rb snap cloud).1
  back_to rb (err e) cloud = cloud

  abbrev pub restored : Option String → Option String → k.Cloud → k.Cloud
  restored (some rb) (some step) cloud = back_to rb (k.snapshot step start).0 cloud
  restored _ _ cloud = cloud

  -- How it may end: the execution succeeds and the check passes, or the execution fails, or it
  -- succeeds and the check does not pass; the last two are rolled back.
  pub data Ends : ExecOutcome → k.Cloud → Type 0 where
    kept :
        (out : String)
        → executing.0 ≡ ok out
        → Passes pb.health_check
        → Ends (record { state = completed; executed = true }) (checked pb.health_check)
    broken :
        (e : String)
        → executing.0 ≡ err e
        → Ends
            (record { state = rolled_back; executed = false })
            (restored pb.rollback pb.snapshot executing.1)
    unhealthy :
        (out step : String)
        → executing.0 ≡ ok out
        → pb.health_check ≡ some step
        → (k.health_check step executing.1).0 ≢ ok true
        → Ends
            (record { state = rolled_back; executed = true })
            (restored pb.rollback pb.snapshot (checked (some step)))

  kept-Passes :
      {outcome : ExecOutcome} {cloud : k.Cloud}
      → Ends outcome cloud
      → outcome.state ≡ completed
      → IsDone executing.0 × Passes pb.health_check
  kept-Passes (kept out e p) h = ((out, e), p)
  kept-Passes (broken x e) h = ground arith
  kept-Passes (unhealthy out step e c n) h = ground arith

  module _ (f : F32) where
    take_snapshot-snapped : (o : Option String) → (take_snapshot f k o start).1 ≡ snapped o
    take_snapshot-snapped none = refl
    take_snapshot-snapped (some step) = refl

    undo-back_to :
        (rb : String) (r : Result String String) (cloud : k.Cloud)
        → undo f k (some rb) (to_option r) cloud ≡ back_to rb r cloud
    undo-back_to rb (ok snap) cloud = refl
    undo-back_to rb (err e) cloud = refl

    undo-restored :
        (rb step : Option String) (cloud : k.Cloud)
        → undo f k rb (take_snapshot f k step start).0 cloud ≡ restored rb step cloud
    undo-restored none step cloud = refl
    undo-restored (some rb) none cloud = refl
    undo-restored (some rb) (some step) cloud = undo-back_to rb (k.snapshot step start).0 cloud

    module _ (now : ℕ) (w : World f k) where
      -- The end of a run, from the execution's answer and the check's.
      abbrev settled : Result String String → Bool × k.Cloud → ExecOutcome × World f k
      settled r health = settle f k now pb (take_snapshot f k pb.snapshot start).0 r health w

      kept-cloud :
          (out : String) (cloud : k.Cloud) → (settled (ok out) (true, cloud)).1.cloud ≡ cloud
      unfolding settle
      kept-cloud out cloud = ground arith

      undone-cloud :
          (r : Result String String) (b : Bool) (cloud : k.Cloud)
          → is_ok f k r && b ≡ false
          → (settled r (b, cloud)).1.cloud ≡ restored pb.rollback pb.snapshot cloud
      unfolding settle
      undone-cloud r b cloud e = ground (arith, e, undo-restored pb.rollback pb.snapshot cloud)

      health-Ends :
          (out step : String) (r : Result String Bool)
          → executing.0 ≡ ok out
          → pb.health_check ≡ some step
          → (k.health_check step executing.1).0 ≡ r
          → Ends
              (settled (ok out) (unwrap_or r false, checked (some step))).0
              (settled (ok out) (unwrap_or r false, checked (some step))).1.cloud
      unfolding settle
      health-Ends out step (ok true) e c h =
          subst (Ends (record { state = completed; executed = true }))
            (sym (kept-cloud out (checked (some step))))
            (subst (λ o. Ends (record { state = completed; executed = true }) (checked o)) c
              (kept out e (subst Passes (sym c) h)))
      health-Ends out step (ok false) e c h =
          subst (Ends (record { state = rolled_back; executed = true }))
            (sym (undone-cloud (ok out) false (checked (some step)) refl))
            (unhealthy out step e c (λ x. ground (arith, h, x)))
      health-Ends out step (err x) e c h =
          subst (Ends (record { state = rolled_back; executed = true }))
            (sym (undone-cloud (ok out) false (checked (some step)) refl))
            (unhealthy out step e c (λ y. ground (arith, h, y)))

      settled-Ends :
          (o : Option String) (r : Result String String)
          → pb.health_check ≡ o
          → executing.0 ≡ r
          → Ends
              (settled r (check_health f k o r executing.1)).0
              (settled r (check_health f k o r executing.1)).1.cloud
      unfolding settle
      settled-Ends none (ok out) c e =
          subst (Ends (record { state = completed; executed = true }))
            (sym (kept-cloud out executing.1))
            (subst (λ o. Ends (record { state = completed; executed = true }) (checked o)) c
              (kept out e (subst Passes (sym c) tt)))
      settled-Ends (some step) (ok out) c e =
          health-Ends out step (k.health_check step executing.1).0 e c refl
      settled-Ends none (err x) c e =
          subst (Ends (record { state = rolled_back; executed = false }))
            (sym (undone-cloud (err x) false executing.1 refl)) (broken x e)
      settled-Ends (some step) (err x) c e =
          subst (Ends (record { state = rolled_back; executed = false }))
            (sym (undone-cloud (err x) false executing.1 refl)) (broken x e)

module _ (f : F32) (k : CloudBackend) where
  run_reversible-Ends :
      (now : ℕ) (pb : Playbook) (w : World f k)
      → Ends k pb w.cloud (run_reversible f k now pb w).0 (run_reversible f k now pb w).1.cloud
  unfolding run_reversible
  run_reversible-Ends now pb w =
      subst
        (λ c.
          Ends k pb w.cloud
            (settled k pb w.cloud f now w (k.execute pb.execute c).0 (
              check_health f k pb.health_check (k.execute pb.execute c).0
                (k.execute pb.execute c).1)).0
            (settled k pb w.cloud f now w (k.execute pb.execute c).0 (
              check_health f k pb.health_check (k.execute pb.execute c).0
                (k.execute pb.execute c).1)).1.cloud)
        (sym (take_snapshot-snapped k pb w.cloud f pb.snapshot))
        (settled-Ends k pb w.cloud f now w pb.health_check (executing k pb w.cloud).0 refl refl)

  reversible-run :
      (now : ℕ) (pb : Playbook) (approval : Option Approval) (w : World f k)
      → pb.class ≡ reversible
      → is_open f pb.class w.breaker ≡ false
      → run f k now pb approval w ≡ run_reversible f k now pb w
  unfolding run run_class
  reversible-run now pb approval w c going =
      let open_run : run f k now pb approval w ≡ run_class f k pb.class now pb approval w =
        rw going refl in
      open_run ∙ ap (λ class. run_class f k class now pb approval w) c

  -- A run of a reversible playbook, of a class that is not halted, follows the protocol, whatever the
  -- backend answers: snapshot, execution and health check in this order, each in the cloud that the
  -- one before left; the run completes exactly where the execution succeeds and the check, if there
  -- is one, answers true, and else ends as rolled back, in the cloud that the rollback step makes of
  -- it, where the playbook has one and a snapshot was taken. An outcome whose execution failed says
  -- that it was not executed, though it was called.
  pub run-Ends :
      (now : ℕ) (pb : Playbook) (approval : Option Approval) (w : World f k)
      → pb.class ≡ reversible
      → is_open f pb.class w.breaker ≡ false
      → Ends k pb w.cloud (run f k now pb approval w).0 (run f k now pb approval w).1.cloud
  run-Ends now pb approval w c going =
      subst (λ r. Ends k pb w.cloud r.0 r.1.cloud) (sym (reversible-run now pb approval w c going))
        (run_reversible-Ends now pb w)

  -- The dry run, where there is one, before a safe playbook.
  abbrev pub dried : Option String → k.Cloud → k.Cloud
  dried none cloud = cloud
  dried (some step) cloud = (k.dry_run step cloud).1

  dried_same : (o : Option String) (cloud : k.Cloud) → try_dry_run f k o cloud ≡ dried o cloud
  dried_same none cloud = refl
  dried_same (some step) cloud = refl

  is_ok-IsDone : (r : Result String String) → is_ok f k r ≡ true → IsDone r
  is_ok-IsDone (ok out) e = (out, refl)
  is_ok-IsDone (err x) e = ground arith

  approved_of :
      (a : Option Approval) → is_approved f k a ≡ true → (by : String) × (a ≡ some (approved by))
  approved_of none e = ground arith
  approved_of (some (approved by)) e = (by, refl)
  approved_of (some (denied reason)) e = ground arith
  approved_of (some timeout) e = ground arith

  -- What a completed run had to meet, by the class of its playbook.
  abbrev pub Met : PlaybookClass → Playbook → Option Approval → k.Cloud → Type 0
  Met safe pb approval start = IsDone (k.execute pb.execute (dried pb.dry_run start)).0
  Met reversible pb approval start =
      IsDone (executing k pb start).0 × Passes k pb start pb.health_check
  Met destructive pb approval start =
      ((by : String) × (approval ≡ some (approved by))) × IsDone (k.execute pb.execute start).0

  safe-Met :
      (now : ℕ) (pb : Playbook) (approval : Option Approval) (w : World f k)
      → (run_class f k safe now pb approval w).0.state ≡ completed
      → Met safe pb approval w.cloud
  unfolding run_class run_safe finalize_execute
  safe-Met now pb approval w h =
      subst (λ c. IsDone (k.execute pb.execute c).0) (dried_same pb.dry_run w.cloud)
        (is_ok-IsDone _ (ground (arith, h)))

  destructive-Met :
      (now : ℕ) (pb : Playbook) (approval : Option Approval) (w : World f k)
      → (run_class f k destructive now pb approval w).0.state ≡ completed
      → Met destructive pb approval w.cloud
  unfolding run_class run_destructive finalize_execute await_approval
  destructive-Met now pb approval w h =
      (approved_of approval (ground (arith, h)), is_ok-IsDone _ (ground (arith, h)))

  run_class-Met :
      (class : PlaybookClass) (now : ℕ) (pb : Playbook) (approval : Option Approval) (w : World f k)
      → (run_class f k class now pb approval w).0.state ≡ completed
      → Met class pb approval w.cloud
  unfolding run_class
  run_class-Met safe now pb approval w h = safe-Met now pb approval w h
  run_class-Met reversible now pb approval w h =
      kept-Passes k pb w.cloud (run_reversible-Ends now pb w) h
  run_class-Met destructive now pb approval w h = destructive-Met now pb approval w h

  -- A run completes only if its class is not halted and the execution, in the cloud as the dry run
  -- or the snapshot left it, succeeded; a reversible one only if its health check, asked after the
  -- execution, answered true, if it has one; a destructive one only if it was approved.
  pub run-Met :
      (now : ℕ) (pb : Playbook) (approval : Option Approval) (w : World f k)
      → (run f k now pb approval w).0.state ≡ completed
      → (is_open f pb.class w.breaker ≡ false) × Met pb.class pb approval w.cloud
  unfolding run
  run-Met now pb approval w h = elim (Bool-cases (is_open f pb.class w.breaker)) [
    | inl halted ↦ ground (arith, h, halted)
    | inr going ↦ (going, run_class-Met pb.class now pb approval w (rw going at h))
  ]

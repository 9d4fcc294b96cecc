-- ===== src/SelfHeal/Tests.antt =====
-- Runs of the selfheal crate's tests, and instances of the theorems.
use secureops.Prelude.{
  ℕ, ◌*◌, ◌≡◌, refl, true, false, String, none, some, List, [], ◌∷◌, ◌++◌, ltb, str_eq,
  if◌then◌else◌, Result, ok, err,
}
use secureops.Prelude.Map
use secureops.SelfHeal.Types.{
  PlaybookClass, PlaybookClass-Key, safe, reversible, destructive, Playbook, approved, rolled_back,
  aborted, put_bucket_acl,
}
use secureops.SelfHeal.Breaker
use secureops.SelfHeal.Breaker.{F32, CircuitBreaker, record_at, is_open, window_at}
use secureops.SelfHeal.Breaker.Laws.{IsTimed, recorded, resetted, replay, is_open-replay}
use secureops.SelfHeal.Engine.{CloudBackend, World, run}
use secureops.SelfHeal.Engine.Laws.{run-Appends, Appends}
use secureops.SelfHeal.Engine.Protocol.{Ends, run-Ends, Met, run-Met}
use secureops.SelfHeal.Step.{parse_step}

-- Fractions, as numerator and denominator.
abbrev fraction : F32
fraction = record {
  Float = ℕ × ℕ;
  of_usize = λ n. (n, 1);
  div = λ x y. (x.0 * y.1, x.1 * y.0);
  gt = λ x y. ltb (y.0 * x.1) (x.0 * y.1);
}

-- A cloud that keeps the list of the calls made; the step "fail" fails.
abbrev logged : String → List String → Result String String × List String
logged step calls = (if str_eq step "fail" then err "failed" else ok "done", calls ++ step ∷ [])

abbrev mock : CloudBackend
mock = record {
  Cloud = List String;
  dry_run = logged;
  snapshot = logged;
  execute = logged;
  health_check = λ step calls. (ok true, calls ++ step ∷ []);
  rollback = λ step snap calls. (ok tt, calls ++ step ∷ []);
}

abbrev breaker : CircuitBreaker fraction
breaker = record {
  window_ms = 300000;
  threshold = (1, 5);
  min_samples = 3;
  samples = [];
  halted = [];
}

abbrev world : World fraction mock
world = record { breaker = breaker; cloud = []; log = [] }

abbrev playbook : PlaybookClass → String → Playbook
playbook class execute = record {
  id = "pb";
  matches = [];
  class = class;
  dry_run = none;
  snapshot = some "snap";
  execute = execute;
  health_check = some "health";
  rollback = some "undo";
  audit_required = true;
}

-- lib.rs:653: three errors within the window halt the class, and no other; a reset opens it.
abbrev three_errors : CircuitBreaker fraction
unfolding record_at
three_errors =
    record_at fraction reversible false 200
      (record_at fraction reversible false 100 (record_at fraction reversible false 0 breaker))

halts_test :
    (is_open fraction reversible three_errors ≡ true)
    × (is_open fraction safe three_errors ≡ false)
    × (is_open fraction reversible (Breaker.reset fraction reversible three_errors) ≡ false)
unfolding three_errors is_open Breaker.reset Map.get Map.insert
halts_test = (refl, refl, refl)

-- lib.rs:593: a failed execution is rolled back, and the outcome says that it was not executed.
rolls_back_test :
    ((run fraction mock 5 (playbook reversible "fail") none world).0
      ≡ record { state = rolled_back; executed = false })
    × ((run fraction mock 5 (playbook reversible "fail") none world).1.cloud
        ≡ "snap" ∷ "fail" ∷ "undo" ∷ [])
unfolding run is_open Map.get
rolls_back_test = (refl, refl)

breaker-IsTimed : IsTimed fraction 0 breaker
unfolding Map.get
breaker-IsTimed = record { ordered = λ c. tt }

is_open-replay_example :
    is_open fraction reversible
      (replay fraction (recorded reversible true 300 ∷ resetted safe ∷ []) three_errors)
    ≡ true
unfolding three_errors is_open Map.get Map.insert
is_open-replay_example =
    is_open-replay fraction reversible (recorded reversible true 300 ∷ resetted safe ∷ [])
      three_errors refl (refl, tt)

abbrev halted_world : World fraction mock
unfolding three_errors
halted_world = record { breaker = three_errors; cloud = []; log = [] }

run-Appends_example :
    Appends fraction mock
      (playbook safe "go")
      world
      (run fraction mock 5 (playbook safe "go") none world)
run-Appends_example = run-Appends fraction mock 5 (playbook safe "go") none world

run-Ends_example :
    Ends mock
      (playbook reversible "fail")
      []
      (run fraction mock 5 (playbook reversible "fail") none world).0
      (run fraction mock 5 (playbook reversible "fail") none world).1.cloud
unfolding is_open Map.get
run-Ends_example = run-Ends fraction mock 5 (playbook reversible "fail") none world refl refl

run-Met_example :
    (is_open fraction destructive breaker ≡ false)
    × Met fraction mock destructive (playbook destructive "go") (some (approved "alice")) []
unfolding run is_open Map.get
run-Met_example =
    run-Met fraction mock 5 (playbook destructive "go") (some (approved "alice")) world refl

parse_test : parse_step "s3.put_bucket_acl bucket=b1 acl=private" ≡ put_bucket_acl "b1" "private"
unfolding parse_step Map.get Map.insert
parse_test = refl

-- A run of a halted class aborts.
halted_test :
    (run fraction mock 5 (playbook reversible "go") none halted_world).0
    ≡ record { state = aborted; executed = false }
unfolding run halted_world is_open Map.get Map.insert
halted_test = refl

-- ===== src/Sandbox/Tests.antt =====
-- Runs of the sandbox crate's tests, and instances of the theorems.
use secureops.Prelude.{
  ◌+◌, ◌*◌, ◌≡◌, ◌↔◌, refl, true, false, ◌&&◌, String, none, some, List, [], ◌∷◌, All, arith,
  str_eq, ok, if◌then◌else◌, ltb,
}
use secureops.Prelude.Map
use secureops.Prelude.Map.{ℕ-Key}
use secureops.Policy.Types.{allow, deny, is_allowed}
use secureops.Policy.Rego.{Regorus, RegoPdp, eval_decision}
use secureops.Sandbox.Types.{Capabilities, locked_down, allows_path}
use secureops.Sandbox.Negotiate.{PolicyEngine, is_secret, path_request, negotiate_capabilities}
use secureops.Sandbox.Negotiate.Granted.{stateless, IsGranted, allows_path-IsGranted}
use secureops.Sandbox.Negotiate.Stale.{rego_at, negotiate_capabilities-first}
use secureops.Sandbox.Run.{StoreConfig, Wasmtime, ticks_of, run_skill}
use secureops.Sandbox.Run.Preopens.{run_skill-Ran}

abbrev allow_all : PolicyEngine
allow_all = stateless (λ req. allow)

abbrev wanted : Capabilities
wanted = record {
  fs_paths = "/srv/data" ∷ "/home/agent/.env" ∷ [];
  network_via_proxy = true;
  fuel = 1000;
  epoch_deadline_ms = 25;
}

-- A path that names a `.env` file is dropped, whatever the engine says.
negotiate_test : (negotiate_capabilities allow_all 7 wanted tt).0.fs_paths ≡ "/srv/data" ∷ []
unfolding negotiate_capabilities is_secret
negotiate_test = refl

abbrev home : Capabilities
home = record {
  fs_paths = "/home/agent" ∷ [];
  network_via_proxy = false;
  fuel = 1;
  epoch_deadline_ms = 1;
}

allows_path-IsGranted_example :
    (allows_path (negotiate_capabilities allow_all 7 home tt).0 "/home/agent/.env" ≡ true)
    ↔ IsGranted (λ req. allow) 7 ("/home/agent" ∷ []) "/home/agent/.env"
allows_path-IsGranted_example = allows_path-IsGranted (λ req. allow) 7 home "/home/agent/.env"

-- A `.env` file below a granted directory.
env_test :
    (is_secret "/home/agent/.env" ≡ true)
    × (allows_path (negotiate_capabilities allow_all 7 home tt).0 "/home/agent/.env" ≡ true)
unfolding negotiate_capabilities allows_path is_secret
env_test = (refl, refl)

abbrev path_of : List (String × String) → String
path_of [] = ""
path_of ((name, value) ∷ rest) = value

-- A policy that allows the path "/ok" only.
abbrev by_path : Regorus
by_path = record {
  Engine = Unit {0};
  Value = String;
  Json = String;
  Doc = Unit {0};
  request_to_string = λ req. ok (path_of req.attributes);
  doc_to_string = λ d. ok "";
  is_null = λ d. true;
  from_json_str = λ j. ok j;
  new_engine = tt;
  add_policy = λ e name source. ok tt;
  add_data = λ e v. ok tt;
  eval_bool_query =
      λ e path query. ok (str_eq query "data.secureops.policy.allow" && str_eq path "/ok");
  hasher = λ h. h.pid;
}

abbrev pdp : RegoPdp by_path
pdp = record {
  cache = record { ttl = 60; capacity = 1000; entries = []; poisoned = false };
  engine = tt;
  engine_poisoned = false;
  bundle_version = "v1";
}

abbrev two : Capabilities
two = record locked_down { fs_paths = "/ok" ∷ "/not-allowed" ∷ [] }

-- The second path is granted though the policy denies it.
negotiate_capabilities-first_example :
    (negotiate_capabilities
      (rego_at by_path (λ i. 5 + 10 * i) (λ i. 6 + 10 * i))
      7
      two
      (pdp, 0)).0.fs_paths
    ≡ (if is_allowed (eval_decision by_path pdp (path_request 7 "/ok"))
        then "/ok" ∷ "/not-allowed" ∷ []
        else [])
unfolding is_secret Map.get
negotiate_capabilities-first_example =
    negotiate_capabilities-first by_path (λ i. 5 + 10 * i) (λ i. 6 + 10 * i) 7 "/ok" "/not-allowed"
      two pdp refl refl (omega arith) refl refl refl

verdicts_test :
    (eval_decision by_path pdp (path_request 7 "/ok") ≡ allow)
    × (eval_decision by_path pdp (path_request 7 "/not-allowed") ≡ deny)
unfolding eval_decision
verdicts_test = (refl, refl)

abbrev machine : Wasmtime
machine = record {
  Bytes = Unit {0};
  Module = Unit {0};
  Start = Unit {0};
  from_binary = λ b. ok tt;
  preopened_dir = λ path. ok tt;
  set_fuel = λ n. ok tt;
  link = ok tt;
  instantiate = λ c m. ok tt;
  start_func = λ m. ok tt;
  call = λ c s. ok tt;
}

run_skill-Ran_example :
    (config : StoreConfig) × (start : Unit {0}) × (machine.call config start ≡ ok tt)
    × All (λ path. is_secret path ≡ false) config.preopens
    × (config.fuel ≡ (if ltb 0 1000 then some 1000 else none))
    × (config.deadline_ticks ≡ ticks_of machine wanted)
unfolding run_skill negotiate_capabilities is_secret
run_skill-Ran_example = run_skill-Ran machine allow_all tt 7 wanted tt refl

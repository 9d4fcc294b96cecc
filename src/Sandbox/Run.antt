-- ===== src/Sandbox/Run.antt =====
-- crates/secureops-sandbox/src/lib.rs: `SkillSandbox::run_wasm` and `run_skill`. The wasmtime engine
-- with its WASI context is the parameter `w`.
pub mod Preopens
use secureops.Prelude.{
  ℕ, ◌+◌, ◌/◌, Bool, true, false, ◌||◌, String, Option, none, some, List, [], ◌∷◌, codes, contains,
  ends_with, concat, Result, ok, err, ◌>>=◌, map_err, ltb, if◌then◌else◌,
}
use secureops.Sandbox.Types.{
  SandboxError, compile, capability_denied, fuel_exhausted, epoch_deadline, trap, host,
  Capabilities,
}
use secureops.Sandbox.Negotiate.{PolicyEngine, negotiate_capabilities}

-- The limits and the preopened directories of a store. No fuel is set where the budget is 0.
pub record StoreConfig : Type 0 where
  pub preopens : List String
  pub fuel : Option ℕ
  pub deadline_ticks : Option ℕ

-- What the code calls of wasmtime; an error is its text.
pub record Wasmtime : Type 1 where
  pub Bytes : Type 0
  pub Module : Type 0
  pub Start : Type 0
  pub from_binary : Bytes → Result String Module
  pub preopened_dir : String → Result String (Unit {0})
  pub set_fuel : ℕ → Result String (Unit {0})
  pub link : Result String (Unit {0})
  pub instantiate : StoreConfig → Module → Result String Module
  pub start_func : Module → Result String Start
  pub call : StoreConfig → Start → Result String (Unit {0})

abbrev pub is_env : String → Bool
is_env path = ends_with (codes path) (codes ".env") || contains (codes path) (codes "/.env")

-- The error of a failed `_start`, told by its text.
pub call_error : Capabilities → String → SandboxError
call_error caps msg =
    if contains (codes msg) (codes "fuel")
    then fuel_exhausted caps.fuel
    else if contains (codes msg) (codes "epoch") || contains (codes msg) (codes "interrupt")
    then epoch_deadline caps.epoch_deadline_ms
    else trap msg

module _ (w : Wasmtime) where
  abbrev pub add_dir :
      String → Result SandboxError (List String) → Result SandboxError (List String)
  add_dir path rest = rest >>= λ dirs. ok (path ∷ dirs)

  abbrev pub refused : String → String → SandboxError
  refused path e = capability_denied (concat ("preopened_dir " ∷ path ∷ " failed: " ∷ e ∷ []))

  -- The loop over the granted paths.
  unfoldable pub preopen : List String → Result SandboxError (List String)
  preopen [] = ok []
  preopen (path ∷ paths) =
      let rest = preopen paths in
      if is_env path
      then rest
      else map_err (refused path) (w.preopened_dir path) >>= λ u. add_dir path rest

  abbrev pub fuel_of : Capabilities → Result SandboxError (Option ℕ)
  fuel_of caps =
      if ltb 0 caps.fuel
      then (map_err host (w.set_fuel caps.fuel) >>= λ u. ok (some caps.fuel))
      else ok none

  -- `div_ceil(10)`: the epoch ticks every 10 ms.
  abbrev pub ticks_of : Capabilities → Option ℕ
  ticks_of caps =
      if ltb 0 caps.epoch_deadline_ms then some ((caps.epoch_deadline_ms + 9) / 10) else none

  abbrev pub config_of : Capabilities → List String → Option ℕ → StoreConfig
  config_of caps dirs fuel = record { preopens = dirs; fuel = fuel; deadline_ticks = ticks_of caps }

  abbrev pub no_start : String → SandboxError
  no_start e = trap (concat ("no _start export: " ∷ e ∷ []))

  pub call_start : Capabilities → StoreConfig → w.Start → Result SandboxError (Unit {0})
  unfolding call_error
  call_start caps config start = map_err (call_error caps) (w.call config start)

  abbrev pub with_instance : Capabilities → StoreConfig → w.Module → Result SandboxError (Unit {0})
  with_instance caps config instance' =
      map_err no_start (w.start_func instance') >>= call_start caps config

  abbrev pub with_linker :
      Capabilities → StoreConfig → w.Module → Unit {0} → Result SandboxError (Unit {0})
  with_linker caps config compiled u =
      map_err trap (w.instantiate config compiled) >>= with_instance caps config

  abbrev pub with_fuel :
      Capabilities → w.Module → List String → Option ℕ → Result SandboxError (Unit {0})
  with_fuel caps compiled dirs fuel =
      let config = config_of caps dirs fuel in
      map_err host w.link >>= with_linker caps config compiled

  abbrev pub with_dirs : Capabilities → w.Module → List String → Result SandboxError (Unit {0})
  with_dirs caps compiled dirs = fuel_of caps >>= with_fuel caps compiled dirs

  abbrev pub with_module : Capabilities → w.Module → Result SandboxError (Unit {0})
  with_module caps compiled = preopen caps.fs_paths >>= with_dirs caps compiled

  -- Compile, preopen, set the budgets, link, instantiate and call `_start`.
  unfoldable pub run_wasm : w.Bytes → Capabilities → Result SandboxError (Unit {0})
  unfolding preopen call_start
  run_wasm bytes caps = map_err compile (w.from_binary bytes) >>= with_module caps

  -- `run_skill`, in the process `pid`
  unfoldable pub run_skill :
      (pdp : PolicyEngine)
      → w.Bytes
      → ℕ
      → Capabilities
      → pdp.State
      → Result SandboxError (Unit {0}) × pdp.State
  unfolding run_wasm
  run_skill pdp bytes pid caps s =
      let (granted, s') = negotiate_capabilities pdp pid caps s in (run_wasm bytes granted, s')

-- ===== src/Sandbox/Run/Preopens.antt =====
-- crates/secureops-sandbox/src/lib.rs: what a skill that ran was given.
use secureops.Prelude.{
  ℕ, ◌≡◌, inl, inr, refl, Bool, false, not, Bool-cases, String, Option, none, some, List, [], ◌∷◌,
  All, keep_if, arith, ok, map_err, bind_ok, map_err_ok, if◌then◌else◌, ltb,
}
use secureops.Sandbox.Types.{compile, trap, host, Capabilities}
use secureops.Sandbox.Negotiate.{PolicyEngine, is_secret, negotiate_capabilities}
use secureops.Sandbox.Negotiate.Granted.{negotiate_capabilities-Plain}
use secureops.Sandbox.Run.{
  StoreConfig, Wasmtime, is_env, refused, add_dir, preopen, fuel_of, ticks_of, config_of, no_start,
  call_error, call_start, with_instance, with_linker, with_fuel, with_dirs, with_module, run_wasm,
  run_skill,
}

module _ (w : Wasmtime) where
  opened_dir :
      (path : String) (paths dirs : List String)
      → ((ds : List String) → preopen w paths ≡ ok ds → ds ≡ keep_if (λ p. not (is_env p)) paths)
      → (u : Unit {0}) × (map_err (refused w path) (w.preopened_dir path) ≡ ok u)
        × (add_dir w path (preopen w paths) ≡ ok dirs)
      → dirs ≡ path ∷ keep_if (λ p. not (is_env p)) paths
  opened_dir path paths dirs f (u, o, a) =
      let (rest, r, c) = bind_ok (preopen w paths) (λ ds. ok (path ∷ ds)) dirs a in
      ground (arith, f rest r, c)

  preopen-keep_if :
      (paths dirs : List String)
      → preopen w paths ≡ ok dirs
      → dirs ≡ keep_if (λ path. not (is_env path)) paths
  unfolding preopen
  preopen-keep_if [] dirs e = ground (arith, e)
  preopen-keep_if (path ∷ paths) dirs e = elim (Bool-cases (is_env path)) [
    | inl env ↦ rw env (preopen-keep_if paths dirs (ground (arith, e, env)))
    | inr plain ↦ rw plain (
        opened_dir path paths dirs (preopen-keep_if paths) (
          bind_ok (map_err (refused w path) (w.preopened_dir path))
            (λ u. add_dir w path (preopen w paths)) dirs (ground (arith, e, plain))))
  ]

  -- What a successful run was given: its `_start` was called with the budgets that were granted and
  -- with the granted directories, any `.env` left out.
  pub record Ran (caps : Capabilities) : Type 0 where
    pub config : StoreConfig
    pub start : w.Start
    pub called : w.call config start ≡ ok tt
    pub preopens : config.preopens ≡ keep_if (λ path. not (is_env path)) caps.fs_paths
    pub fuelled : config.fuel ≡ (if ltb 0 caps.fuel then some caps.fuel else none)
    pub deadline : config.deadline_ticks ≡ ticks_of w caps

  fuel_of-some :
      (caps : Capabilities) (fuel : Option ℕ)
      → fuel_of w caps ≡ ok fuel
      → fuel ≡ (if ltb 0 caps.fuel then some caps.fuel else none)
  fuel_of-some caps fuel e = ground (arith, e)

  run_wasm-Ran : (bytes : w.Bytes) (caps : Capabilities) → run_wasm w bytes caps ≡ ok tt → Ran caps
  unfolding run_wasm call_start
  run_wasm-Ran bytes caps e =
      let (compiled, c, e1) =
        bind_ok (map_err compile (w.from_binary bytes)) (with_module w caps) tt e in
      let (dirs, d, e2) = bind_ok (preopen w caps.fs_paths) (with_dirs w caps compiled) tt e1 in
      let (fuel, f, e3) = bind_ok (fuel_of w caps) (with_fuel w caps compiled dirs) tt e2 in
      let config = config_of w caps dirs fuel in
      let (u, l, e4) = bind_ok (map_err host w.link) (with_linker w caps config compiled) tt e3 in
      let (instance', i, e5) =
        bind_ok (map_err trap (w.instantiate config compiled)) (with_instance w caps config) tt
          e4 in
      let (start, s, e6) =
        bind_ok (map_err (no_start w) (w.start_func instance')) (call_start w caps config) tt e5 in
      record {
        config = config;
        start = start;
        called = map_err_ok (call_error caps) (w.call config start) tt e6;
        preopens = preopen-keep_if caps.fs_paths dirs d;
        fuelled = fuel_of-some caps fuel f;
        deadline = refl;
      }

  keep_if-All :
      (p : String → Bool) (paths : List String)
      → All (λ path. is_secret path ≡ false) paths
      → All (λ path. is_secret path ≡ false) (keep_if p paths)
  keep_if-All p [] a = tt
  keep_if-All p (path ∷ paths) a = elim (Bool-cases (p path)) [
    | inl here ↦ rw here (a.0, keep_if-All p paths a.1)
    | inr gone ↦ rw gone (keep_if-All p paths a.1)
  ]

  -- A skill that ran to its end, with any module, engine and answers of the PDP, had its `_start`
  -- called in a store whose preopened directories name no `.env` file and no credentials, with the
  -- fuel and the deadline that were asked for (no fuel is set for a budget of 0, and a deadline is
  -- rounded up to ticks of 10 ms).
  pub run_skill-Ran :
      (pdp : PolicyEngine) (bytes : w.Bytes) (pid : ℕ) (caps : Capabilities) (s : pdp.State)
      → (run_skill w pdp bytes pid caps s).0 ≡ ok tt
      → (config : StoreConfig) × (start : w.Start) × (w.call config start ≡ ok tt)
        × All (λ path. is_secret path ≡ false) config.preopens
        × (config.fuel ≡ (if ltb 0 caps.fuel then some caps.fuel else none))
        × (config.deadline_ticks ≡ ticks_of w caps)
  unfolding run_skill negotiate_capabilities
  run_skill-Ran pdp bytes pid caps s e =
      let ran = run_wasm-Ran bytes (negotiate_capabilities pdp pid caps s).0 e in
      (
        ran.config,
        ran.start,
        ran.called,
        rw (ran.preopens) (keep_if-All _ _ (negotiate_capabilities-Plain pdp pid caps s)),
        ran.fuelled,
        ran.deadline,
      )

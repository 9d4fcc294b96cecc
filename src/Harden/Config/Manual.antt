-- ===== src/Harden/Config/Manual.antt =====
-- What `ConfigHardening` still reports after its fix, and that a second fix changes nothing.
use secureops.Prelude.{
  ◌≡◌, ◌≢◌, refl, ap, ◌∙◌, sym, subst, Bool-cases, inl, inr, none, some, List, [], ◌∷◌, ◌++◌,
  Result, ok, err, arith,
}
use secureops.Core.Config.{ToolsExec, SessionConfig, LoggingConfig, OpenClawConfig}
use secureops.Checks.Gateway.{is_text}
use secureops.Harden.Files.{
  PathBuf, IoError, Files, IsSound, Json, ReadsBack, or_empty, config_path, read_config,
}
use secureops.Harden.Gateway.Fixed.{read_config-write_config}
use secureops.Harden.ConfigCheck.{ChannelConfig, not_sandboxed, channel_findings, check}
use secureops.Harden.Gateway.{Step}
use secureops.Harden.Config.{
  or_tools, or_exec, or_session, or_logging, harden_config, errors_of, backup, fix, sandbox_host,
  isolate, redact,
}

-- The second time, a step has nothing to do.
sandbox_host-twice : (e : ToolsExec) → sandbox_host (sandbox_host e).0 ≡ ((sandbox_host e).0, [])
sandbox_host-twice e = elim (Bool-cases (is_text "sandbox" e.host)) [
  | inl y ↦ rw (y, y) refl
  | inr n ↦ rw n refl
]

isolate-twice : (s : SessionConfig) → isolate (isolate s).0 ≡ ((isolate s).0, [])
isolate-twice s = elim (Bool-cases (is_text "per-channel-peer" s.dm_scope)) [
  | inl y ↦ rw (y, y) refl
  | inr n ↦ rw n refl
]

redact-twice : (l : LoggingConfig) → redact (redact l).0 ≡ ((redact l).0, [])
redact-twice l = elim (Bool-cases (is_text "tools" l.redact_sensitive)) [
  | inl y ↦ rw (y, y) refl
  | inr n ↦ rw n refl
]

-- What the steps come to, from the results of those on the three tables.
abbrev joined :
    {F : Type 0}
    → OpenClawConfig F
    → Step ToolsExec
    → Step SessionConfig
    → Step LoggingConfig
    → Step (OpenClawConfig F)
joined c e s l = (
  record c {
    exec = none;
    sandbox = none;
    tools = some (record { exec = some e.0 });
    session = some s.0;
    logging = some l.0;
  },
  e.1 ++ s.1 ++ l.1 ++ [] ++ [],
)

harden_config-twice :
    {F : Type 0} (c : OpenClawConfig F)
    → harden_config (harden_config c).0 ≡ ((harden_config c).0, [])
unfolding harden_config
harden_config-twice c =
    let e = or_exec (or_tools c.tools).exec in
    let s = or_session c.session in
    let l = or_logging c.logging in
    ap (λ x. joined c x (isolate (isolate s).0) (redact (redact l).0)) (sandbox_host-twice e)
    ∙ ap (λ x. joined c ((sandbox_host e).0, []) x (redact (redact l).0)) (isolate-twice s)
    ∙ ap (λ x. joined c ((sandbox_host e).0, []) ((isolate s).0, []) x) (redact-twice l)

check-harden_config :
    {F : Type 0} (c : OpenClawConfig F) (channels : List ChannelConfig)
    → check (harden_config c).0 channels ≡ not_sandboxed none ∷ channel_findings channels
unfolding check harden_config
check-harden_config c channels = refl

module _ {F : Type 0} (fs : Files) (sound : IsSound fs) (json : Json F) (state_dir : PathBuf)
    (backup_dir : PathBuf)
    (apart : config_path state_dir ≢ backup_dir ++ "openclaw-config.json" ∷ []) where
  errors_of-ok : (r : Result IoError (Unit {0})) → errors_of fs json state_dir r ≡ [] → r ≡ ok tt
  errors_of-ok (ok tt) h = refl
  errors_of-ok (err e) h = ground arith

  read_config-backup :
      (s : fs.State)
      → read_config fs json state_dir (backup fs json state_dir backup_dir s)
        ≡ read_config fs json state_dir s
  unfolding read_config
  read_config-backup s =
      ap (λ o. json.from_json_or_default (or_empty o))
        (sound.copy_keeps _ _ (config_path state_dir) s apart)

  again :
      (s : fs.State)
      → ReadsBack json (harden_config (read_config fs json state_dir s)).0
      → ReadsBack json
          (harden_config (read_config fs json state_dir (backup fs json state_dir backup_dir s))).0
  again s reads = subst (λ c. ReadsBack json (harden_config c).0) (sym (read_config-backup s)) reads

  fix-config :
      (s : fs.State)
      → ReadsBack json (harden_config (read_config fs json state_dir s)).0
      → (fix fs json state_dir backup_dir s).0.errors ≡ []
      → read_config fs json state_dir (fix fs json state_dir backup_dir s).1
        ≡ (harden_config (read_config fs json state_dir s)).0
  unfolding fix
  fix-config s reads h =
      read_config-write_config fs sound json state_dir _ _ (again s reads) (errors_of-ok _ h)
      ∙ ap (λ c. (harden_config c).0) (read_config-backup s)

  fix-applied :
      (s : fs.State)
      → (fix fs json state_dir backup_dir s).0.applied
        ≡ (harden_config (read_config fs json state_dir s)).1
  unfolding fix
  fix-applied s = ap (λ c. (harden_config c).1) (read_config-backup s)

  -- After a fix without errors, the module's check of what the file then says reports that the
  -- sandbox is not set to all, whatever it was set to before, and each open channel as before,
  -- and no longer that approvals are off: the fix drops both settings. It asks that files keep what is
  -- written, that the written configuration's JSON reads back, and that the backup is another file.
  pub fix-manual :
      (s : fs.State) (channels : List ChannelConfig)
      → ReadsBack json (harden_config (read_config fs json state_dir s)).0
      → (fix fs json state_dir backup_dir s).0.errors ≡ []
      → check (read_config fs json state_dir (fix fs json state_dir backup_dir s).1) channels
        ≡ not_sandboxed none ∷ channel_findings channels
  fix-manual s channels reads h =
      ap (λ c. check c channels) (fix-config s reads h)
      ∙ check-harden_config (read_config fs json state_dir s) channels

  -- What is hardened twice is what was hardened once.
  settled :
      (s : fs.State)
      → ReadsBack json (harden_config (read_config fs json state_dir s)).0
      → (fix fs json state_dir backup_dir s).0.errors ≡ []
      → ReadsBack json
          (harden_config (read_config fs json state_dir (fix fs json state_dir backup_dir s).1)).0
  settled s reads h =
      subst (ReadsBack json)
        (sym (
          ap (λ c. (harden_config c).0) (fix-config s reads h)
          ∙ ap (λ r. r.0) (harden_config-twice (read_config fs json state_dir s))))
        reads

  -- Where two fixes after each other give no errors, the second applies no action and leaves the
  -- configuration as the first did. It asks that files keep what is written, that the written
  -- configuration's JSON reads back, and that the backup is another file.
  pub fix-twice :
      (s : fs.State)
      → ReadsBack json (harden_config (read_config fs json state_dir s)).0
      → (fix fs json state_dir backup_dir s).0.errors ≡ []
      → (fix fs json state_dir backup_dir (fix fs json state_dir backup_dir s).1).0.errors ≡ []
      → ((fix fs json state_dir backup_dir (fix fs json state_dir backup_dir s).1).0.applied ≡ [])
        × (read_config fs json state_dir
              (fix fs json state_dir backup_dir (fix fs json state_dir backup_dir s).1).1
            ≡ read_config fs json state_dir (fix fs json state_dir backup_dir s).1)
  fix-twice s reads h k =
      let t = (fix fs json state_dir backup_dir s).1 in
      let c = read_config fs json state_dir s in
      let once = fix-config s reads h in
      (
        fix-applied t ∙ ap (λ x. (harden_config x).1) once ∙ ap (λ r. r.1) (harden_config-twice c),
        fix-config t (settled s reads h) k
            ∙ ap (λ x. (harden_config x).0) once
            ∙ ap (λ r. r.0) (harden_config-twice c)
            ∙ sym once,
      )

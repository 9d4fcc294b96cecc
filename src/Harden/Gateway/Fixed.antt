-- ===== src/Harden/Gateway/Fixed.antt =====
-- The gateway's `fix` over the files: what the audit finds in the configuration that it
-- leaves.
use secureops.Prelude.{
  ℕ, ◌≡◌, ◌≢◌, refl, ap, ◌∙◌, sym, Bool, true, false, not, some, [], ◌∷◌, ◌++◌, String, All, Result,
  ok, err, arith, if◌then◌else◌, subst,
}
use secureops.Core.Config.{OpenClawConfig}
use secureops.Checks.Gateway.{run}
use secureops.Harden.Files.{
  PathBuf, IoError, Files, IsSound, Json, ReadsBack, config_path, or_empty, read_config, write_json,
  write_config,
}
use secureops.Harden.Gateway.{
  or_gateway, harden_gateway, harden_config, rewrite, backed_up, errors_of, fix_inner, fix,
}
use secureops.Harden.GatewayCheck.{check}
use secureops.Harden.Gateway.Own.{own_leftover, check-hardened}
use secureops.Harden.Gateway.{harden_auth, or_auth}
use secureops.Harden.Gateway.Checked.{
  hardened, harden_gateway-hardened, leftover, run-hardened, IsMinor, leftover-IsMinor,
}

module _ {F : Type 0} (fs : Files) (sound : IsSound fs) (json : Json F) (state_dir : PathBuf) where
  write_json-read :
      (c : OpenClawConfig F) (r : Result IoError String) (s : fs.State)
      → ReadsBack json c
      → json.to_string_pretty c ≡ r
      → (write_json fs json (config_path state_dir) r s).0 ≡ ok tt
      → read_config fs json state_dir (write_json fs json (config_path state_dir) r s).1 ≡ c
  unfolding read_config
  write_json-read c (err e) s reads printed h = ground arith
  write_json-read c (ok text) s reads printed h =
      ap (λ o. json.from_json_or_default (or_empty o))
        (sound.written (config_path state_dir) text s h)
      ∙ reads text printed

  pub read_config-write_config :
      (c : OpenClawConfig F) (s : fs.State)
      → ReadsBack json c
      → (write_config fs json state_dir c s).0 ≡ ok tt
      → read_config fs json state_dir (write_config fs json state_dir c s).1 ≡ c
  unfolding write_config
  read_config-write_config c s reads h = write_json-read c (json.to_string_pretty c) s reads refl h

  errors_of-ok : (r : Result IoError (Unit {0})) → errors_of fs json state_dir r ≡ [] → r ≡ ok tt
  errors_of-ok (ok tt) h = refl
  errors_of-ok (err e) h = ground arith

  rewrite-config :
      (token : String) (s : fs.State)
      → ReadsBack json (harden_config fs json state_dir token (read_config fs json state_dir s)).0
      → errors_of fs json state_dir (rewrite fs json state_dir token s).0.0 ≡ []
      → read_config fs json state_dir (rewrite fs json state_dir token s).1
        ≡ (harden_config fs json state_dir token (read_config fs json state_dir s)).0
  rewrite-config token s reads h = read_config-write_config _ s reads (errors_of-ok _ h)

  not_found-config :
      (token : String) (e : IoError) (b : Bool) (s : fs.State)
      → ReadsBack json (harden_config fs json state_dir token (read_config fs json state_dir s)).0
      → errors_of fs json state_dir
          (if not b then ((err e, []), s) else rewrite fs json state_dir token s).0.0
        ≡ []
      → read_config fs json state_dir
          (if not b then ((err e, []), s) else rewrite fs json state_dir token s).1
        ≡ (harden_config fs json state_dir token (read_config fs json state_dir s)).0
  not_found-config token e true s reads h = rewrite-config token s reads h
  not_found-config token e false s reads h = ground arith

  backed_up-config :
      (token : String) (r : Result IoError (Unit {0})) (s : fs.State)
      → ReadsBack json (harden_config fs json state_dir token (read_config fs json state_dir s)).0
      → errors_of fs json state_dir (backed_up fs json state_dir token (r, s)).0.0 ≡ []
      → read_config fs json state_dir (backed_up fs json state_dir token (r, s)).1
        ≡ (harden_config fs json state_dir token (read_config fs json state_dir s)).0
  backed_up-config token (ok done) s reads h = rewrite-config token s reads h
  backed_up-config token (err e) s reads h = not_found-config token e e.not_found s reads h

  module _ (backup_dir : PathBuf)
      (apart : config_path state_dir ≢ backup_dir ++ "openclaw.json" ∷ []) where
    fix-gateway :
        (token : String) (s : fs.State)
        → ReadsBack json (harden_config fs json state_dir token (read_config fs json state_dir s)).0
        → (fix fs json state_dir token backup_dir s).0.errors ≡ []
        → (read_config fs json state_dir (fix fs json state_dir token backup_dir s).1).gateway
          ≡ some (hardened token (or_gateway (read_config fs json state_dir s).gateway))
    unfolding fix fix_inner read_config
    fix-gateway token s reads h =
        let copied = fs.copy (config_path state_dir) (backup_dir ++ "openclaw.json" ∷ []) s in
        let kept = sound.copy_keeps _ _ (config_path state_dir) s apart in
        let again =
          subst
            (λ o.
              ReadsBack json
                (harden_config fs json state_dir token (json.from_json_or_default (or_empty o))).0)
            (sym kept) reads in
        ap (λ c. c.gateway) (backed_up-config token copied.0 copied.1 again h)
        ∙ ap
            (λ o.
              some
                (harden_gateway token
                  (or_gateway (json.from_json_or_default (or_empty o)).gateway)).0)
            kept
        ∙ ap some (harden_gateway-hardened token _)

    -- After a fix without errors, the audit's check of the gateway in what the file then says
    -- reports a weak token, the two ports and TLS at most, and nothing critical or high, whatever
    -- the ports answer, and the module's own check at most a weak token. It asks that files keep
    -- what is written, that the written configuration's JSON reads back, and that the backup is
    -- another file.
    pub fix-leftover :
        (token : String) (s : fs.State) (deep : Bool) (probe : ℕ → Bool)
        → ReadsBack json (harden_config fs json state_dir token (read_config fs json state_dir s)).0
        → (fix fs json state_dir token backup_dir s).0.errors ≡ []
        → (run deep probe
              (read_config fs json state_dir (fix fs json state_dir token backup_dir s).1).gateway
            ≡ leftover deep probe
                (hardened token (or_gateway (read_config fs json state_dir s).gateway)))
          × All IsMinor (
              run deep probe
                (read_config fs json state_dir
                  (fix fs json state_dir token backup_dir s).1).gateway)
          × (check
                (read_config fs json state_dir (fix fs json state_dir token backup_dir s).1).gateway
              ≡ own_leftover
                  (harden_auth token
                    (or_auth (or_gateway (read_config fs json state_dir s).gateway).auth)).0)
    fix-leftover token s deep probe reads h =
        let g = or_gateway (read_config fs json state_dir s).gateway in
        let written = fix-gateway token s reads h in
        let found = ap (run deep probe) written ∙ run-hardened deep probe token g in
        (
          found,
          subst (All IsMinor) (sym found) (leftover-IsMinor deep probe token g),
          ap check written ∙ check-hardened token g,
        )

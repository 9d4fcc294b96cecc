-- ===== src/Harden/Run/Original.antt =====
-- After `harden`, the backup holds the configuration from before it.
use secureops.Prelude.{
  ◌≡◌, ◌≢◌, refl, ap, ◌∙◌, sym, Bool, true, false, none, some, List, [], ◌∷◌, ◌++◌, All, String,
  str_eq, Result, ok, err, arith, if◌then◌else◌,
}
use secureops.Core.Runtime.{HardeningResult}
use secureops.Harden.Files.{PathBuf, IoError, Files, IsSound, Json, config_path}
use secureops.Harden.Run.{
  HardeningModule, sanitize_timestamp, in_backup, backup_dir_of, gateway_module, config_module,
  default_modules, Manifest, HardenOutcome, written, write_manifest, run_modules, backed_up,
  dir_made, harden,
}
use secureops.Harden.Run.Kept.{
  Keeps, backup_config, other_file, backup_dir-file, gateway-kept, config-kept, sort-Keeps,
  fix_all-Keeps,
}

abbrev pub original : PathBuf → String → PathBuf
original state_dir now = in_backup state_dir (sanitize_timestamp now) "openclaw.json.original"

abbrev pub now_dir : PathBuf → String → PathBuf
now_dir state_dir now = backup_dir_of state_dir (sanitize_timestamp now)

some-none : {text : String} → some text ≢ none
some-none e = ground arith

module _ {F : Type 0} (fs : Files) (sound : IsSound fs) (json : Json F) (state_dir : PathBuf)
    (now token : String) where
  -- A file of the modules' backups is not the original.
  own_copy :
      (file : String)
      → "openclaw.json.original" ≢ file
      → original state_dir now ≢ now_dir state_dir now ++ file ∷ []
  own_copy file n e =
      other_file state_dir (sanitize_timestamp now) _ _ n
        (e ∙ backup_dir-file state_dir (sanitize_timestamp now) file)

  gateway_module-Keeps :
      Keeps fs
        (original state_dir now)
        (now_dir state_dir now)
        (gateway_module fs json state_dir token)
  gateway_module-Keeps s =
      gateway-kept fs sound json state_dir _ (backup_config state_dir _ _) token _ s
        (own_copy "openclaw.json" (λ e. ground (arith, ap (λ x. str_eq x "openclaw.json") e)))

  config_module-Keeps :
      Keeps fs (original state_dir now) (now_dir state_dir now) (config_module fs json state_dir)
  config_module-Keeps s = config-kept fs sound json state_dir _ (backup_config state_dir _ _) _ s (
      own_copy "openclaw-config.json"
        (λ e. ground (arith, ap (λ x. str_eq x "openclaw-config.json") e)))

  pub default_modules-Keeps :
      (credential docker network : HardeningModule fs.State)
      → Keeps fs (original state_dir now) (now_dir state_dir now) credential
      → Keeps fs (original state_dir now) (now_dir state_dir now) docker
      → Keeps fs (original state_dir now) (now_dir state_dir now) network
      → All
          (Keeps fs (original state_dir now) (now_dir state_dir now))
          (default_modules fs json state_dir token credential docker network)
  unfolding default_modules
  default_modules-Keeps credential docker network c d n =
      sort-Keeps fs (original state_dir now) (now_dir state_dir now)
        (gateway_module fs json state_dir token
          ∷ credential
          ∷ config_module fs json state_dir
          ∷ docker
          ∷ network
          ∷ [])
        (gateway_module-Keeps, (c, (config_module-Keeps, (d, (n, tt)))))

module _ (fs : Files) (sound : IsSound fs) (to_manifest : Manifest → Result IoError String)
    (state_dir : PathBuf) (now : String) (ms : List (HardeningModule fs.State))
    (kept : All (Keeps fs (original state_dir now) (now_dir state_dir now)) ms) where
  written-state :
      (results : List HardeningResult) (r : Result IoError (Unit {0})) (s : fs.State)
      → (written fs to_manifest state_dir now results (r, s)).1 ≡ s
  written-state results (ok done) s = refl
  written-state results (err e) s = refl

  write_manifest-original :
      (results : List HardeningResult) (r : Result IoError String) (s : fs.State)
      → fs.read_to_string
          (original state_dir now)
          (write_manifest fs to_manifest state_dir now results r s).1
        ≡ fs.read_to_string (original state_dir now) s
  write_manifest-original results (err e) s = refl
  write_manifest-original results (ok text) s =
      let path = in_backup state_dir (sanitize_timestamp now) "manifest.json" in
      let io = fs.write path text s in
      ap (fs.read_to_string (original state_dir now)) (written-state results io.0 io.1)
      ∙ sound.write_keeps path text (original state_dir now) s
          (other_file state_dir _ _ _ (λ e. ground (arith, ap (λ x. str_eq x "manifest.json") e)))

  run_modules-original :
      (s : fs.State)
      → fs.read_to_string (original state_dir now) (run_modules fs to_manifest state_dir ms now s).1
        ≡ fs.read_to_string (original state_dir now) s
  run_modules-original s =
      write_manifest-original _ _ _ ∙ fix_all-Keeps fs _ (now_dir state_dir now) ms s kept

  module _ (text : String) where
    not_found-original :
        (b : Bool) (s : fs.State) (why : String) (outcome : HardenOutcome)
        → b ≢ true
        → (if b then run_modules fs to_manifest state_dir ms now s else (err why, s)).0 ≡ ok outcome
        → fs.read_to_string
            (original state_dir now)
            (if b then run_modules fs to_manifest state_dir ms now s else (err why, s)).1
          ≡ some text
    not_found-original true s why outcome n h = absurd (n refl)
    not_found-original false s why outcome n h = ground arith

    backed_up-original :
        (r : Result IoError (Unit {0})) (s : fs.State) (outcome : HardenOutcome)
        → (r ≡ ok tt → fs.read_to_string (original state_dir now) s ≡ some text)
        → ((e : IoError) → r ≡ err e → e.not_found ≢ true)
        → (backed_up fs to_manifest state_dir ms now (r, s)).0 ≡ ok outcome
        → fs.read_to_string
            (original state_dir now)
            (backed_up fs to_manifest state_dir ms now (r, s)).1
          ≡ some text
    backed_up-original (ok tt) s outcome copied missing h = run_modules-original s ∙ copied refl
    backed_up-original (err e) s outcome copied missing h =
        not_found-original e.not_found s _ outcome (missing e refl) h

    dir_made-original :
        (r : Result IoError (Unit {0})) (s : fs.State) (outcome : HardenOutcome)
        → fs.read_to_string (config_path state_dir) s ≡ some text
        → (dir_made fs to_manifest state_dir ms now (r, s)).0 ≡ ok outcome
        → fs.read_to_string
            (original state_dir now)
            (dir_made fs to_manifest state_dir ms now (r, s)).1
          ≡ some text
    dir_made-original (err e) s outcome there h = ground arith
    dir_made-original (ok tt) s outcome there h =
        let target = original state_dir now in
        let io = fs.copy (config_path state_dir) target s in
        backed_up-original io.0 io.1 outcome
          (λ e. sound.copied (config_path state_dir) target s e ∙ there)
          (λ e failed lost.
            some-none (sym there ∙ sound.missing (config_path state_dir) target s e failed lost))
          h

    pub harden-original :
        (s : fs.State) (outcome : HardenOutcome)
        → fs.read_to_string (config_path state_dir) s ≡ some text
        → (harden fs to_manifest state_dir ms now s).0 ≡ ok outcome
        → fs.read_to_string (original state_dir now) (harden fs to_manifest state_dir ms now s).1
          ≡ some text
    unfolding harden
    harden-original s outcome there h =
        let io = fs.create_dir_all (now_dir state_dir now) s in
        dir_made-original io.0 io.1 outcome
          (sound.create_keeps (now_dir state_dir now) (config_path state_dir) s ∙ there) h

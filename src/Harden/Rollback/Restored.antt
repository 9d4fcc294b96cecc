-- ===== src/Harden/Rollback/Restored.antt =====
-- A rollback gives back the configuration that `harden` found.
use Prim.Native.String
use secureops.Prelude.{
  ◌≡◌, ◌≢◌, refl, ap, ◌∙◌, true, Option, none, some, List, [], ◌∷◌, ◌++◌, All, Bool-cases, inl, inr,
  String, str_eq, Result, ok, err, arith,
}
use secureops.Harden.Files.{PathBuf, IoError, Files, IsSound, Json, config_path}
use secureops.Harden.Run.{
  HardeningModule, sanitize_timestamp, in_backup, backup_dir_of, default_modules, Manifest,
  HardenOutcome, harden,
}
use secureops.Harden.Run.Kept.{Keeps, below}
use secureops.Harden.Run.Original.{original, now_dir, default_modules-Keeps, harden-original}
use secureops.Harden.Rollback.{
  strip_prefix, strip_suffix, is_own, credential_dest, env_dest, profile_dest, memory_found,
  memory_dest, dests, copy_all, restore, answer, restore_dir, first_copied, restore_backup,
  list_backups, rollback,
}

-- A destination other than the configuration.
abbrev Other : PathBuf → PathBuf → Type 0
Other d p = config_path d ≢ p

All-append :
    (d : PathBuf) (ps qs : List PathBuf)
    → All (Other d) ps
    → All (Other d) qs
    → All (Other d) (ps ++ qs)
All-append d [] qs h k = k
All-append d (p ∷ ps) qs h k = (h.0, All-append d ps qs h.1 k)

credential_dest-Other : (d : PathBuf) (o : Option String) → All (Other d) (credential_dest d o)
credential_dest-Other d none = tt
credential_dest-Other d (some name) = (below d _ _ (λ e. ground arith), tt)

abbrev first : List String → String
first [] = ""
first (x ∷ xs) = x

env_dest-Other : (d : PathBuf) (file : String) → All (Other d) (env_dest d file)
env_dest-Other d file = elim (Bool-cases (str_eq file ".env")) [
  | inl y ↦ rw y (below d _ _ (λ e. ground (arith, ap (λ xs. str_eq (first xs) ".env") e)), tt)
  | inr n ↦ rw n tt
]

profile_dest-Other : (d : PathBuf) (o : Option String) → All (Other d) (profile_dest d o)
profile_dest-Other d none = tt
profile_dest-Other d (some rest) = (below d _ _ (λ e. ground arith), tt)

memory_found-Other :
    (d : PathBuf) (mem : String) (o : Option String) (rest : List PathBuf)
    → All (Other d) rest
    → All (Other d) (memory_found d mem o rest)
memory_found-Other d mem none rest h = h
memory_found-Other d mem (some agent) rest h = (below d _ _ (λ e. ground arith), tt)

memory_dest-Other :
    (d : PathBuf) (file : String) (mems : List String) → All (Other d) (memory_dest d file mems)
memory_dest-Other d file [] = tt
memory_dest-Other d file (mem ∷ mems) =
    memory_found-Other d mem (strip_suffix (String.◌++◌ "-" mem) file) (memory_dest d file mems)
      (memory_dest-Other d file mems)

dests-Other : (d : PathBuf) (file : String) → All (Other d) (dests d file)
unfolding dests
dests-Other d file = elim (Bool-cases (is_own file)) [
  | inl y ↦ rw y tt
  | inr n ↦ rw n (
      All-append d _ _
        (All-append d _ _
          (All-append d _ _ (credential_dest-Other d (strip_prefix "cred-" file))
            (env_dest-Other d file))
          (profile_dest-Other d (strip_prefix "auth-profiles-" file)))
        (memory_dest-Other d file ("soul.md" ∷ "SOUL.md" ∷ "MEMORY.md" ∷ [])))
]

module _ (fs : Files) (sound : IsSound fs) (state_dir : PathBuf) where
  copy_all-config :
      (src : PathBuf) (file : String) (ps : List PathBuf) (s : fs.State)
      → All (Other state_dir) ps
      → fs.read_to_string (config_path state_dir) (copy_all fs state_dir src file ps s).1
        ≡ fs.read_to_string (config_path state_dir) s
  copy_all-config src file [] s h = refl
  copy_all-config src file (p ∷ ps) s h =
      copy_all-config src file ps (fs.copy src p s).1 h.1
      ∙ sound.copy_keeps src p (config_path state_dir) s h.0

  restore-config :
      (target : String) (files : List String) (s : fs.State)
      → fs.read_to_string (config_path state_dir) (restore fs state_dir target files s).1
        ≡ fs.read_to_string (config_path state_dir) s
  unfolding restore
  restore-config target [] s = refl
  restore-config target (file ∷ files) s =
      restore-config target files _
      ∙ copy_all-config (in_backup state_dir target file) file (dests state_dir file) s
          (dests-Other state_dir file)

  answer-state : (failed : List String) (s : fs.State) → (answer fs state_dir (failed, s)).1 ≡ s
  answer-state [] s = refl
  answer-state (f ∷ failed) s = refl

  restore_dir-config :
      (target : String) (o : Option (List String)) (s : fs.State)
      → fs.read_to_string (config_path state_dir) (restore_dir fs state_dir target o s).1
        ≡ fs.read_to_string (config_path state_dir) s
  restore_dir-config target none s = refl
  restore_dir-config target (some files) s =
      let done = restore fs state_dir target files s in
      ap (fs.read_to_string (config_path state_dir)) (answer-state done.0 done.1)
      ∙ restore-config target files s

  first_copied-config :
      (target : String) (r : Result IoError (Unit {0})) (s : fs.State)
      → r ≡ ok tt
      → fs.read_to_string (config_path state_dir) (first_copied fs state_dir target (r, s)).1
        ≡ fs.read_to_string (config_path state_dir) s
  first_copied-config target (ok tt) s e = restore_dir-config target _ s
  first_copied-config target (err x) s e = ground arith

  restore_backup-config :
      (target : String) (s : fs.State)
      → fs.is_there (backup_dir_of state_dir target) s ≡ true
      → (fs.copy (in_backup state_dir target "openclaw.json.original") (config_path state_dir) s).0
        ≡ ok tt
      → fs.read_to_string (config_path state_dir) (restore_backup fs state_dir target s).1
        ≡ fs.read_to_string (in_backup state_dir target "openclaw.json.original") s
  unfolding restore_backup
  restore_backup-config target s there copied =
      let source = in_backup state_dir target "openclaw.json.original" in
      let io = fs.copy source (config_path state_dir) s in
      rw there (
        first_copied-config target io.0 io.1 copied
        ∙ sound.copied source (config_path state_dir) s copied)

  rollback-config :
      (target : String) (s : fs.State) (newest : String) (older : List String)
      → list_backups fs state_dir s ≡ newest ∷ older
      → fs.is_there (backup_dir_of state_dir target) s ≡ true
      → (fs.copy (in_backup state_dir target "openclaw.json.original") (config_path state_dir) s).0
        ≡ ok tt
      → fs.read_to_string (config_path state_dir) (rollback fs state_dir (some target) s).1
        ≡ fs.read_to_string (in_backup state_dir target "openclaw.json.original") s
  unfolding rollback
  rollback-config target s newest older listed there copied =
      rw listed (restore_backup-config target s there copied)

module _ {F : Type 0} (fs : Files) (sound : IsSound fs) (json : Json F)
    (to_manifest : Manifest → Result IoError String) (state_dir : PathBuf) (now token : String)
    (credential docker network : HardeningModule fs.State) where
  -- The files after `harden` with the default modules.
  abbrev pub hardened_files : fs.State → fs.State
  hardened_files s =
      (harden fs to_manifest state_dir
        (default_modules fs json state_dir token credential docker network) now s).1

  -- Where there was a configuration and harden ran to its end with the default modules, the rollback
  -- to its backup gives the configuration's text back, whatever else it restores or fails to. It asks
  -- that files keep what is written, that the credential, docker and network modules leave the backup
  -- of the configuration alone, and of the files after harden that some backup is listed, that the
  -- directory of this one is there and that the copy out of it succeeds.
  pub rollback-harden :
      (s : fs.State) (text : String) (outcome : HardenOutcome) (newest : String)
      (older : List String)
      → Keeps fs (original state_dir now) (now_dir state_dir now) credential
      → Keeps fs (original state_dir now) (now_dir state_dir now) docker
      → Keeps fs (original state_dir now) (now_dir state_dir now) network
      → fs.read_to_string (config_path state_dir) s ≡ some text
      → (harden fs to_manifest state_dir
          (default_modules fs json state_dir token credential docker network)
          now
          s).0
        ≡ ok outcome
      → list_backups fs state_dir (hardened_files s) ≡ newest ∷ older
      → fs.is_there (now_dir state_dir now) (hardened_files s) ≡ true
      → (fs.copy (original state_dir now) (config_path state_dir) (hardened_files s)).0 ≡ ok tt
      → fs.read_to_string
          (config_path state_dir)
          (rollback fs state_dir (some (sanitize_timestamp now)) (hardened_files s)).1
        ≡ some text
  rollback-harden s text outcome newest older c d n found done listed there copied =
      rollback-config fs sound state_dir (sanitize_timestamp now) (hardened_files s) newest older
        listed there copied
      ∙ harden-original fs sound to_manifest state_dir now
          (default_modules fs json state_dir token credential docker network)
          (default_modules-Keeps fs sound json state_dir now token credential docker network c d n)
          text s outcome found done

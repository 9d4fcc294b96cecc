-- ===== src/Harden/Run/Kept.antt =====
-- The paths of a backup, and what a run of the modules keeps there.
use secureops.Prelude.{
  ◌≡◌, ◌≢◌, refl, ap, ◌∙◌, Bool, true, false, not, List, [], ◌∷◌, ◌++◌, All, leb, Bool-cases, inl,
  inr, String, Result, ok, err, arith, if◌then◌else◌,
}
use secureops.Harden.Files.{
  PathBuf, IoError, Files, IsSound, Json, config_path, write_json, write_config,
}
use secureops.Harden.Gateway
use secureops.Harden.Config
use secureops.Harden.Run.{
  HardeningModule, insert, sort_by_priority, in_backup, backup_dir_of, fix_all,
}

abbrev tail : List String → List String
tail [] = []
tail (x ∷ xs) = xs

pub append-cancel : (xs ys zs : List String) → xs ++ ys ≡ xs ++ zs → ys ≡ zs
append-cancel [] ys zs e = e
append-cancel (x ∷ xs) ys zs e = append-cancel xs ys zs (ap tail e)

-- Paths below one directory differ where their last parts do.
pub below : (d ys zs : List String) → ys ≢ zs → d ++ ys ≢ d ++ zs
below d ys zs n e = n (append-cancel d ys zs e)

pub backup_config : (d : PathBuf) (target file : String) → in_backup d target file ≢ config_path d
backup_config d target file = below d _ _ (λ e. ground arith)

abbrev fourth : List String → String
fourth (a ∷ b ∷ c ∷ d ∷ rest) = d
fourth _ = ""

pub other_file :
    (d : PathBuf) (target a b : String) → a ≢ b → in_backup d target a ≢ in_backup d target b
other_file d target a b n = below d _ _ (λ e. n (ap fourth e))

append_assoc : (xs ys zs : List String) → xs ++ ys ++ zs ≡ xs ++ (ys ++ zs)
append_assoc [] ys zs = refl
append_assoc (x ∷ xs) ys zs = ap (λ t. x ∷ t) (append_assoc xs ys zs)

-- A file of the backup, from its directory.
pub backup_dir-file :
    (d : PathBuf) (target file : String)
    → backup_dir_of d target ++ file ∷ [] ≡ in_backup d target file
backup_dir-file d target file = append_assoc d _ _

module _ {F : Type 0} (fs : Files) (sound : IsSound fs) (json : Json F) (state_dir p : PathBuf)
    (apart : p ≢ config_path state_dir) where
  write_json-kept :
      (r : Result IoError String) (s : fs.State)
      → fs.read_to_string p (write_json fs json (config_path state_dir) r s).1
        ≡ fs.read_to_string p s
  write_json-kept (err e) s = refl
  write_json-kept (ok text) s = sound.write_keeps (config_path state_dir) text p s apart

  rewrite-kept :
      (token : String) (s : fs.State)
      → fs.read_to_string p (Gateway.rewrite fs json state_dir token s).1 ≡ fs.read_to_string p s
  unfolding write_config
  rewrite-kept token s = write_json-kept _ s

  not_found-kept :
      (token : String) (e : IoError) (b : Bool) (s : fs.State)
      → fs.read_to_string p
          (if not b then ((err e, []), s) else Gateway.rewrite fs json state_dir token s).1
        ≡ fs.read_to_string p s
  not_found-kept token e true s = rewrite-kept token s
  not_found-kept token e false s = refl

  backed_up-kept :
      (token : String) (r : Result IoError (Unit {0})) (s : fs.State)
      → fs.read_to_string p (Gateway.backed_up fs json state_dir token (r, s)).1
        ≡ fs.read_to_string p s
  backed_up-kept token (ok done) s = rewrite-kept token s
  backed_up-kept token (err e) s = not_found-kept token e e.not_found s

  pub gateway-kept :
      (token : String) (backup_dir : PathBuf) (s : fs.State)
      → p ≢ backup_dir ++ "openclaw.json" ∷ []
      → fs.read_to_string p (Gateway.fix fs json state_dir token backup_dir s).1
        ≡ fs.read_to_string p s
  unfolding Gateway.fix Gateway.fix_inner
  gateway-kept token backup_dir s n =
      let copied = fs.copy (config_path state_dir) (backup_dir ++ "openclaw.json" ∷ []) s in
      backed_up-kept token copied.0 copied.1 ∙ sound.copy_keeps _ _ p s n

  pub config-kept :
      (backup_dir : PathBuf) (s : fs.State)
      → p ≢ backup_dir ++ "openclaw-config.json" ∷ []
      → fs.read_to_string p (Config.fix fs json state_dir backup_dir s).1 ≡ fs.read_to_string p s
  unfolding Config.fix write_config
  config-kept backup_dir s n = write_json-kept _ _ ∙ sound.copy_keeps _ _ p s n

-- A module that keeps a file, in a run with one backup directory.
abbrev pub Keeps : (fs : Files) → PathBuf → PathBuf → HardeningModule fs.State → Type 0
Keeps fs p backup_dir m =
    (s : fs.State) → fs.read_to_string p (m.fix backup_dir s).1 ≡ fs.read_to_string p s

module _ (fs : Files) (p backup_dir : PathBuf) where
  insert-Keeps :
      (m : HardeningModule fs.State) (ns : List (HardeningModule fs.State))
      → Keeps fs p backup_dir m
      → All (Keeps fs p backup_dir) ns
      → All (Keeps fs p backup_dir) (insert m ns)
  insert-Keeps m [] k ks = (k, tt)
  insert-Keeps m (n ∷ ns) k ks = elim (Bool-cases (leb m.priority n.priority)) [
    | inl e ↦ rw e (k, ks)
    | inr e ↦ rw e (ks.0, insert-Keeps m ns k ks.1)
  ]

  pub sort-Keeps :
      (ms : List (HardeningModule fs.State))
      → All (Keeps fs p backup_dir) ms
      → All (Keeps fs p backup_dir) (sort_by_priority ms)
  sort-Keeps [] ks = tt
  sort-Keeps (m ∷ ms) ks = insert-Keeps m (sort_by_priority ms) ks.0 (sort-Keeps ms ks.1)

  pub fix_all-Keeps :
      (ms : List (HardeningModule fs.State)) (s : fs.State)
      → All (Keeps fs p backup_dir) ms
      → fs.read_to_string p (fix_all ms backup_dir s).1 ≡ fs.read_to_string p s
  unfolding fix_all
  fix_all-Keeps [] s ks = refl
  fix_all-Keeps (m ∷ ms) s ks = fix_all-Keeps ms (m.fix backup_dir s).1 ks.1 ∙ ks.0 s

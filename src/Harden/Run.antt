-- ===== src/Harden/Run.antt =====
-- crates/secureops-harden/src/lib.rs: `default_modules` and `harden`. The modules that are not
-- modelled are arguments.
pub mod Kept
pub mod Original
use Prim.Native.Char.{code}
use Prim.Native.String
use secureops.Prelude.{
  ℕ, Bool, true, false, not, ◌||◌, List, [], ◌∷◌, ◌++◌, length, map, ◌==◌, leb, String, concat,
  Result, ok, err, if◌then◌else◌,
}
use secureops.Core.Runtime.{HardeningResult}
use secureops.Harden.Files.{PathBuf, IoError, Io, Files, Json, config_path}
use secureops.Harden.Gateway
use secureops.Harden.Config

-- `HardeningModule`, with what its `fix` does to the files. Its `check` reads the audit's context.
pub record HardeningModule (S : Type 0) : Type 0 where
  pub name : String
  pub priority : ℕ
  pub fix : PathBuf → S → HardeningResult × S

-- The stable sort of `sort_by_key`.
abbrev pub insert :
    {S : Type 0} → HardeningModule S → List (HardeningModule S) → List (HardeningModule S)
insert m [] = m ∷ []
insert m (n ∷ ns) =
    let rest = insert m ns in if leb m.priority n.priority then m ∷ n ∷ ns else n ∷ rest

abbrev pub sort_by_priority : {S : Type 0} → List (HardeningModule S) → List (HardeningModule S)
sort_by_priority [] = []
sort_by_priority (m ∷ ms) = insert m (sort_by_priority ms)

-- `:` and `.` become `-`.
unfoldable pub sanitize_timestamp : String → String
sanitize_timestamp String.[] = ""
sanitize_timestamp (String.◌∷◌ c s) =
    let rest = sanitize_timestamp s in
    if code c == 58 || code c == 46 then String.◌++◌ "-" rest else String.◌∷◌ c rest

abbrev pub backups : PathBuf → PathBuf
backups state_dir = state_dir ++ ".secureops" ∷ "backup" ∷ []

abbrev pub in_backup : PathBuf → String → String → PathBuf
in_backup state_dir target file = state_dir ++ ".secureops" ∷ "backup" ∷ target ∷ file ∷ []

abbrev pub backup_dir_of : PathBuf → String → PathBuf
backup_dir_of state_dir target = state_dir ++ ".secureops" ∷ "backup" ∷ target ∷ []

pub record ManifestEntry : Type 0 where
  pub module_name : String
  pub actions_applied : ℕ
  pub actions_skipped : ℕ
  pub errors : ℕ

pub record Manifest : Type 0 where
  pub timestamp : String
  pub backup_dir : PathBuf
  pub modules : List ManifestEntry

pub record HardenOutcome : Type 0 where
  pub backup_dir : PathBuf
  pub results : List HardeningResult

abbrev entry_of : HardeningResult → ManifestEntry
entry_of r = record {
  module_name = r.module_name;
  actions_applied = length r.applied;
  actions_skipped = length r.skipped;
  errors = length r.errors;
}

-- The loop over the modules.
unfoldable pub fix_all :
    {S : Type 0} → List (HardeningModule S) → PathBuf → S → List HardeningResult × S
fix_all [] backup_dir s = ([], s)
fix_all (m ∷ ms) backup_dir s =
    let (r, t) = m.fix backup_dir s in let (rs, u) = fix_all ms backup_dir t in (r ∷ rs, u)

module _ {F : Type 0} (fs : Files) (json : Json F) (state_dir : PathBuf) where
  abbrev pub gateway_module : String → HardeningModule fs.State
  gateway_module token = record {
    name = "gateway-hardening";
    priority = 1;
    fix = Gateway.fix fs json state_dir token;
  }

  abbrev pub config_module : HardeningModule fs.State
  config_module = record {
    name = "config-hardening";
    priority = 3;
    fix = Config.fix fs json state_dir;
  }

  unfoldable pub default_modules :
      String
      → HardeningModule fs.State
      → HardeningModule fs.State
      → HardeningModule fs.State
      → List (HardeningModule fs.State)
  default_modules token credential docker network =
      sort_by_priority (gateway_module token ∷ credential ∷ config_module ∷ docker ∷ network ∷ [])

-- `to_manifest` is `to_string_pretty` of the manifest.
module _ (fs : Files) (to_manifest : Manifest → Result IoError String) (state_dir : PathBuf) where
  abbrev manifest_of : String → List HardeningResult → Manifest
  manifest_of now results = record {
    timestamp = now;
    backup_dir = backup_dir_of state_dir (sanitize_timestamp now);
    modules = map entry_of results;
  }

  abbrev pub written :
      String → List HardeningResult → Io fs.State → Result String HardenOutcome × fs.State
  written now results (err e, s) = (err e.text, s)
  written now results (ok done, s) = (
    ok (record {
      backup_dir = backup_dir_of state_dir (sanitize_timestamp now);
      results = results;
    }),
    s,
  )

  abbrev pub write_manifest :
      String
      → List HardeningResult
      → Result IoError String
      → fs.State
      → Result String HardenOutcome × fs.State
  write_manifest now results (err e) s = (err e.text, s)
  write_manifest now results (ok text) s =
      written now results
        (fs.write (in_backup state_dir (sanitize_timestamp now) "manifest.json") text s)

  abbrev pub with_manifest :
      String → List HardeningResult × fs.State → Result String HardenOutcome × fs.State
  with_manifest now (results, s) =
      write_manifest now results (to_manifest (manifest_of now results)) s

  abbrev pub run_modules :
      List (HardeningModule fs.State) → String → fs.State → Result String HardenOutcome × fs.State
  run_modules modules now s =
      with_manifest now (fix_all modules (backup_dir_of state_dir (sanitize_timestamp now)) s)

  abbrev pub backed_up :
      List (HardeningModule fs.State)
      → String
      → Io fs.State
      → Result String HardenOutcome × fs.State
  backed_up modules now (ok done, s) = run_modules modules now s
  backed_up modules now (err e, s) =
      if e.not_found
      then run_modules modules now s
      else (err (concat ("Failed to backup config before hardening: " ∷ e.text ∷ [])), s)

  abbrev pub dir_made :
      List (HardeningModule fs.State)
      → String
      → Io fs.State
      → Result String HardenOutcome × fs.State
  dir_made modules now (err e, s) = (err e.text, s)
  dir_made modules now (ok done, s) = backed_up modules now (
      fs.copy (config_path state_dir)
        (in_backup state_dir (sanitize_timestamp now) "openclaw.json.original") s)

  unfoldable pub harden :
      List (HardeningModule fs.State) → String → fs.State → Result String HardenOutcome × fs.State
  unfolding fix_all
  harden modules now s =
      dir_made modules now (fs.create_dir_all (backup_dir_of state_dir (sanitize_timestamp now)) s)

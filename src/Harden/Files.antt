-- ===== src/Harden/Files.antt =====
-- crates/secureops-harden/src/lib.rs: `read_config` and `write_config`, over the files that tokio and
-- the system keep. A path is the list of its components.
use secureops.Prelude.{
  ◌≡◌, ◌≢◌, Bool, true, Option, none, some, List, [], ◌∷◌, ◌++◌, String, Result, ok, err,
}
use secureops.Core.Config.{OpenClawConfig}

abbrev pub PathBuf : Type 0
PathBuf = List String

-- Whether `kind()` is `NotFound`, and the text of the error.
pub record IoError : Type 0 where
  pub not_found : Bool
  pub text : String

abbrev pub Io : Type 0 → Type 0
Io S = Result IoError (Unit {0}) × S

pub record Files : Type 1 where
  pub State : Type 0
  pub copy : PathBuf → PathBuf → State → Io State
  pub write : PathBuf → String → State → Io State
  pub create_dir_all : PathBuf → State → Io State
  pub read_to_string : PathBuf → State → Option String
  -- the names of the entries, and whether there is such a directory
  pub read_dir : PathBuf → State → Option (List String)
  pub is_there : PathBuf → State → Bool

-- What a file system does: a copy that succeeds gives its target what its source has, one that does
-- not find its source has none, a write that succeeds is read back, and no operation changes a file
-- that it does not name.
pub record IsSound (fs : Files) : Type 0 where
  pub copied :
      (src dst : PathBuf) (s : fs.State)
      → (fs.copy src dst s).0 ≡ ok tt
      → fs.read_to_string dst (fs.copy src dst s).1 ≡ fs.read_to_string src s
  pub missing :
      (src dst : PathBuf) (s : fs.State) (e : IoError)
      → (fs.copy src dst s).0 ≡ err e
      → e.not_found ≡ true
      → fs.read_to_string src s ≡ none
  pub written :
      (p : PathBuf) (text : String) (s : fs.State)
      → (fs.write p text s).0 ≡ ok tt
      → fs.read_to_string p (fs.write p text s).1 ≡ some text
  pub copy_keeps :
      (src dst p : PathBuf) (s : fs.State)
      → p ≢ dst
      → fs.read_to_string p (fs.copy src dst s).1 ≡ fs.read_to_string p s
  pub write_keeps :
      (q : PathBuf) (text : String) (p : PathBuf) (s : fs.State)
      → p ≢ q
      → fs.read_to_string p (fs.write q text s).1 ≡ fs.read_to_string p s
  pub create_keeps :
      (q p : PathBuf) (s : fs.State)
      → fs.read_to_string p (fs.create_dir_all q s).1 ≡ fs.read_to_string p s

-- serde_json: `from_json_or_default`, and the pretty printer.
pub record Json (F : Type 0) : Type 0 where
  pub from_json_or_default : String → OpenClawConfig F
  pub to_string_pretty : OpenClawConfig F → Result IoError String

abbrev pub config_path : PathBuf → PathBuf
config_path state_dir = state_dir ++ "openclaw.json" ∷ []

-- `unwrap_or_default` on a text
abbrev pub or_empty : Option String → String
or_empty none = ""
or_empty (some s) = s

module _ {F : Type 0} (fs : Files) (json : Json F) where
  unfoldable pub read_config : PathBuf → fs.State → OpenClawConfig F
  read_config state_dir s =
      json.from_json_or_default (or_empty (fs.read_to_string (config_path state_dir) s))

  abbrev pub write_json : PathBuf → Result IoError String → fs.State → Io fs.State
  write_json path (err e) s = (err e, s)
  write_json path (ok text) s = fs.write path text s

  unfoldable pub write_config : PathBuf → OpenClawConfig F → fs.State → Io fs.State
  write_config state_dir config s =
      write_json (config_path state_dir) (json.to_string_pretty config) s

-- serde_json prints this configuration to a text that reads back as it.
abbrev pub ReadsBack : {F : Type 0} → Json F → OpenClawConfig F → Type 0
ReadsBack json c =
    (text : String) → json.to_string_pretty c ≡ ok text → json.from_json_or_default text ≡ c

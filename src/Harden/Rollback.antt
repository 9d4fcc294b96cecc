-- ===== src/Harden/Rollback.antt =====
-- crates/secureops-harden/src/lib.rs: `list_backups` and `rollback`.
pub mod Restored
use Prim.Native.String
use secureops.Prelude.{
  ℕ, Bool, true, false, not, ◌||◌, Option, none, some, List, [], ◌∷◌, ◌++◌, length, codes, show,
  join, String, concat, str_eq, Result, ok, err, if◌then◌else◌,
}
use secureops.Intel.Feed.{str_le}
use secureops.Checks.Ports.{or_text}
use secureops.Harden.Files.{PathBuf, IoError, Io, Files, config_path}
use secureops.Harden.Run.{backups, in_backup, backup_dir_of}

-- The names in the reverse of the order of texts.
abbrev insert : String → List String → List String
insert a [] = a ∷ []
insert a (b ∷ bs) =
    let rest = insert a bs in if str_le (codes b) (codes a) then a ∷ b ∷ bs else b ∷ rest

abbrev newest_first : List String → List String
newest_first [] = []
newest_first (a ∷ names) = insert a (newest_first names)

abbrev or_none : Option (List String) → List String
or_none none = []
or_none (some names) = names

-- `strip_prefix` and `strip_suffix`, the pattern first
unfoldable pub strip_prefix : String → String → Option String
strip_prefix String.[] s = some s
strip_prefix (String.◌∷◌ p ps) String.[] = none
strip_prefix (String.◌∷◌ p ps) (String.◌∷◌ c s) =
    let rest = strip_prefix ps s in
    if str_eq (String.◌∷◌ p "") (String.◌∷◌ c "") then rest else none

abbrev put_char : String → Option String → Option String
put_char c none = none
put_char c (some s) = some (String.◌++◌ c s)

unfoldable pub strip_suffix : String → String → Option String
strip_suffix p String.[] = if str_eq p "" then some "" else none
strip_suffix p (String.◌∷◌ c s) =
    let rest = strip_suffix p s in
    if str_eq p (String.◌∷◌ c s) then some "" else put_char (String.◌∷◌ c "") rest

-- The files of a backup that are not restored by the loop.
abbrev pub is_own : String → Bool
is_own file =
    str_eq file "manifest.json"
    || str_eq file "openclaw.json.original"
    || str_eq file "openclaw.json"
    || str_eq file "openclaw-config.json"

module _ (state_dir : PathBuf) where
  abbrev pub credential_dest : Option String → List PathBuf
  credential_dest none = []
  credential_dest (some name) = (state_dir ++ "credentials" ∷ name ∷ []) ∷ []

  abbrev pub env_dest : String → List PathBuf
  env_dest file = if str_eq file ".env" then (state_dir ++ ".env" ∷ []) ∷ [] else []

  abbrev pub profile_dest : Option String → List PathBuf
  profile_dest none = []
  profile_dest (some rest) =
      (state_dir
        ++ "agents"
          ∷ or_text rest (strip_suffix ".json" rest)
          ∷ "agent"
          ∷ "auth-profiles.json"
          ∷ [])
      ∷ []

  abbrev pub memory_found : String → Option String → List PathBuf → List PathBuf
  memory_found mem none rest = rest
  memory_found mem (some agent) rest = (state_dir ++ "agents" ∷ agent ∷ mem ∷ []) ∷ []

  -- The first memory file whose name ends the file's.
  abbrev pub memory_dest : String → List String → List PathBuf
  memory_dest file [] = []
  memory_dest file (mem ∷ mems) =
      memory_found mem (strip_suffix (String.◌++◌ "-" mem) file) (memory_dest file mems)

  -- Where the loop copies a file to.
  unfoldable pub dests : String → List PathBuf
  unfolding strip_prefix strip_suffix
  dests file =
      if is_own file
      then []
      else credential_dest (strip_prefix "cred-" file)
        ++ env_dest file
        ++ profile_dest (strip_prefix "auth-profiles-" file)
        ++ memory_dest file ("soul.md" ∷ "SOUL.md" ∷ "MEMORY.md" ∷ [])

module _ (fs : Files) (state_dir : PathBuf) where
  unfoldable pub list_backups : fs.State → List String
  list_backups s = newest_first (or_none (fs.read_dir (backups state_dir) s))

  abbrev failure : String → Result IoError (Unit {0}) → List String
  failure file (ok done) = []
  failure file (err e) = concat (file ∷ ": " ∷ e.text ∷ []) ∷ []

  abbrev pub copy_all : PathBuf → String → List PathBuf → fs.State → List String × fs.State
  copy_all src file [] s = ([], s)
  copy_all src file (dest ∷ rest) s =
      let (r, t) = fs.copy src dest s in
      let (failed, u) = copy_all src file rest t in (failure file r ++ failed, u)

  -- The loop over the files of the backup.
  unfoldable pub restore : String → List String → fs.State → List String × fs.State
  unfolding dests
  restore target [] s = ([], s)
  restore target (file ∷ files) s =
      let (failed, t) = copy_all (in_backup state_dir target file) file (dests state_dir file) s in
      let (more, u) = restore target files t in (failed ++ more, u)

  abbrev pub answer : List String × fs.State → Result String (Unit {0}) × fs.State
  answer ([], s) = (ok tt, s)
  answer (f ∷ failed, s) = (
    err (
        concat (
          "rollback restored the config but "
          ∷ show (length (f ∷ failed))
          ∷ " file(s) failed: "
          ∷ join "; " (f ∷ failed)
          ∷ [])),
    s,
  )

  abbrev pub restore_dir :
      String → Option (List String) → fs.State → Result String (Unit {0}) × fs.State
  restore_dir target none s = (ok tt, s)
  restore_dir target (some files) s = answer (restore target files s)

  abbrev pub restore_files : String → fs.State → Result String (Unit {0}) × fs.State
  restore_files target s = restore_dir target (fs.read_dir (backup_dir_of state_dir target) s) s

  abbrev second_copied : String → Io fs.State → Result String (Unit {0}) × fs.State
  second_copied target (ok done, s) = restore_files target s
  second_copied target (err e, s) = (err "No config backup found in backup directory", s)

  abbrev pub first_copied : String → Io fs.State → Result String (Unit {0}) × fs.State
  first_copied target (ok done, s) = restore_files target s
  first_copied target (err e, s) =
      second_copied target
        (fs.copy (in_backup state_dir target "openclaw.json") (config_path state_dir) s)

  unfoldable pub restore_backup : String → fs.State → Result String (Unit {0}) × fs.State
  unfolding restore
  restore_backup target s =
      if fs.is_there (backup_dir_of state_dir target) s
      then first_copied target
          (fs.copy (in_backup state_dir target "openclaw.json.original") (config_path state_dir) s)
      else (
        err (
            concat
              ("Backup directory not found: " ∷ join "/" (backup_dir_of state_dir target) ∷ [])),
        s,
      )

  abbrev pub chosen : Option String → List String → fs.State → Result String (Unit {0}) × fs.State
  chosen timestamp [] s = (err "No backups available for rollback", s)
  chosen timestamp (newest ∷ older) s = restore_backup (or_text newest timestamp) s

  unfoldable pub rollback : Option String → fs.State → Result String (Unit {0}) × fs.State
  unfolding list_backups restore_backup
  rollback timestamp s = chosen timestamp (list_backups s) s

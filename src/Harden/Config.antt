-- ===== src/Harden/Config.antt =====
-- crates/secureops-harden/src/config_hardening.rs: `ConfigHardening::fix`, with its
-- steps on the configuration.
pub mod Manual
use secureops.Prelude.{
  Bool, true, false, Option, none, some, List, [], ◌∷◌, ◌++◌, String, concat, Result, ok, err,
  if◌then◌else◌,
}
use secureops.Core.Config.{
  ExecConfig, SandboxConfig, ToolsExec, ToolsConfig, SessionConfig, LoggingConfig, OpenClawConfig,
  default_tools_exec, default_tools_config, default_session_config, default_logging_config,
}
use secureops.Core.Runtime.{HardeningAction, HardeningResult}
use secureops.Checks.Ports.{or_text}
use secureops.Checks.Gateway.{is_text}
use secureops.Harden.Files.{
  PathBuf, IoError, Io, Files, Json, config_path, read_config, write_config,
}
use secureops.Harden.Gateway.{Step, action, and_then}

abbrev pub or_tools : Option ToolsConfig → ToolsConfig
or_tools none = default_tools_config
or_tools (some t) = t

abbrev pub or_exec : Option ToolsExec → ToolsExec
or_exec none = default_tools_exec
or_exec (some e) = e

-- The host of `tools.exec`, where there are tools.
abbrev put_host : {F : Type 0} → OpenClawConfig F → Step ToolsExec → Step (OpenClawConfig F)
put_host config (e, actions) =
    (record config { tools = some (record (or_tools config.tools) { exec = some e }) }, actions)

abbrev pub sandbox_host : ToolsExec → Step ToolsExec
sandbox_host e = if is_text "sandbox" e.host then (e, []) else (
  record e { host = some "sandbox" },
  action "config-exec-host" "Set tools.exec.host to \"sandbox\"" (or_text "undefined" e.host)
        "sandbox"
      ∷ [],
)

abbrev set_exec_host : {F : Type 0} → OpenClawConfig F → Step (OpenClawConfig F)
set_exec_host config = put_host config (sandbox_host (or_exec (or_tools config.tools).exec))

abbrev pub or_session : Option SessionConfig → SessionConfig
or_session none = default_session_config
or_session (some s) = s

abbrev pub isolate : SessionConfig → Step SessionConfig
isolate s = if is_text "per-channel-peer" s.dm_scope then (s, []) else (
  record s { dm_scope = some "per-channel-peer" },
  action "config-dm-scope" "Set session.dmScope to \"per-channel-peer\""
        (or_text "undefined" s.dm_scope) "per-channel-peer"
      ∷ [],
)

abbrev put_session : {F : Type 0} → OpenClawConfig F → Step SessionConfig → Step (OpenClawConfig F)
put_session config (s, actions) = (record config { session = some s }, actions)

abbrev set_dm_scope : {F : Type 0} → OpenClawConfig F → Step (OpenClawConfig F)
set_dm_scope config = put_session config (isolate (or_session config.session))

abbrev pub or_logging : Option LoggingConfig → LoggingConfig
or_logging none = default_logging_config
or_logging (some l) = l

abbrev pub redact : LoggingConfig → Step LoggingConfig
redact l = if is_text "tools" l.redact_sensitive then (l, []) else (
  record l { redact_sensitive = some "tools" },
  action "config-log-redact" "Enabled sensitive log redaction"
        (or_text "undefined" l.redact_sensitive) "tools"
      ∷ [],
)

abbrev put_logging : {F : Type 0} → OpenClawConfig F → Step LoggingConfig → Step (OpenClawConfig F)
put_logging config (l, actions) = (record config { logging = some l }, actions)

abbrev set_redact : {F : Type 0} → OpenClawConfig F → Step (OpenClawConfig F)
set_redact config = put_logging config (redact (or_logging config.logging))

abbrev exec_gone : Option ExecConfig → List HardeningAction
exec_gone none = []
exec_gone (some e) =
    action "config-strip-exec" "Removed invalid root-level \"exec\" key (not in OpenClaw schema)"
      "present" "removed"
    ∷ []

abbrev strip_exec : {F : Type 0} → OpenClawConfig F → Step (OpenClawConfig F)
strip_exec config = (record config { exec = none }, exec_gone config.exec)

abbrev sandbox_gone : Option SandboxConfig → List HardeningAction
sandbox_gone none = []
sandbox_gone (some s) =
    action "config-strip-sandbox"
      "Removed invalid root-level \"sandbox\" key (not in OpenClaw schema)" "present" "removed"
    ∷ []

abbrev strip_sandbox : {F : Type 0} → OpenClawConfig F → Step (OpenClawConfig F)
strip_sandbox config = (record config { sandbox = none }, sandbox_gone config.sandbox)

-- The steps that `fix` takes on the configuration.
unfoldable pub harden_config : {F : Type 0} → OpenClawConfig F → Step (OpenClawConfig F)
harden_config config =
    and_then strip_sandbox
      (and_then strip_exec (and_then set_redact (and_then set_dm_scope (set_exec_host config))))

module _ {F : Type 0} (fs : Files) (json : Json F) (state_dir : PathBuf) where
  abbrev pub errors_of : Result IoError (Unit {0}) → List String
  errors_of (ok done) = []
  errors_of (err e) = concat ("Config hardening error: " ∷ e.text ∷ []) ∷ []

  abbrev result_of : List HardeningAction → Io fs.State → HardeningResult × fs.State
  result_of actions (r, s) = (
    record {
      module_name = "config-hardening";
      applied = actions;
      skipped = [];
      errors = errors_of r;
    },
    s,
  )

  abbrev pub backup : PathBuf → fs.State → fs.State
  backup backup_dir s =
      (fs.copy (config_path state_dir) (backup_dir ++ "openclaw-config.json" ∷ []) s).1

  -- After the copy, whatever it answered.
  abbrev pub rewrite : fs.State → HardeningResult × fs.State
  rewrite s =
      let (config, actions) = harden_config (read_config fs json state_dir s) in
      result_of actions (write_config fs json state_dir config s)

  unfoldable pub fix : PathBuf → fs.State → HardeningResult × fs.State
  fix backup_dir s = rewrite (backup backup_dir s)

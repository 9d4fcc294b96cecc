-- ===== src/Monitors/Credential.antt =====
-- crates/secureops-monitors/src/credential.rs: alerts on credential files. A scan gives the map from
-- the paths of the files to their permission bits.
pub mod Watch
use secureops.Prelude.{
  ℕ, Bool, true, false, Option, none, some, List, [], ◌∷◌, ◌++◌, String, concat, ◌==◌,
  if◌then◌else◌,
}
use secureops.Prelude.Map
use secureops.Prelude.Map.{String-Key}
use secureops.Core.Types.{Severity, critical, high, medium}
use secureops.Core.Runtime.{MonitorAlert}
use secureops.Core.Util.{basename, is_group_or_other_accessible, show_octal}

abbrev alert : Severity → String → String → String → MonitorAlert
alert severity message details now_iso = record {
  timestamp = now_iso;
  severity = severity;
  monitor = "credential-monitor";
  message = message;
  details = some details;
}

-- The alert, as a list of at most one.
unfoldable pub permission_alert : String → ℕ → String → List MonitorAlert
permission_alert path mode now_iso =
    if is_group_or_other_accessible mode
    then alert critical
        (concat (
          "Credential file permissions are too open: "
          ∷ basename path
          ∷ " ("
          ∷ show_octal mode
          ∷ ")"
          ∷ []))
        (concat ("Path: " ∷ path ∷ ", Permissions: " ∷ show_octal mode ∷ [])) now_iso
      ∷ []
    else []

abbrev pub new_file_alert : String → String → MonitorAlert
new_file_alert path now_iso =
    alert high (concat ("New credential file detected: " ∷ basename path ∷ []))
      (concat ("Path: " ∷ path ∷ [])) now_iso

abbrev pub deleted_file_alert : String → String → MonitorAlert
deleted_file_alert path now_iso =
    alert medium (concat ("Credential file deleted: " ∷ basename path ∷ []))
      (concat ("Path: " ∷ path ∷ [])) now_iso

abbrev pub Modes : Type 0
Modes = List (String × ℕ)

-- The match on what the last scan had at a path.
abbrev pub compare_mode : String → String → ℕ → Option ℕ → List MonitorAlert
compare_mode now path mode none = new_file_alert path now ∷ permission_alert path mode now
compare_mode now path mode (some pm) = if pm == mode then [] else permission_alert path mode now

-- The first loop.
unfoldable pub present_alerts : String → Modes → Modes → List MonitorAlert
present_alerts now prev [] = []
present_alerts now prev ((path, mode) ∷ cur) =
    compare_mode now path mode (Map.get path prev) ++ present_alerts now prev cur

abbrev deleted : String → String → Option ℕ → List MonitorAlert
deleted now path none = deleted_file_alert path now ∷ []
deleted now path (some mode) = []

-- The second loop.
unfoldable pub deleted_alerts : String → Modes → Modes → List MonitorAlert
deleted_alerts now cur [] = []
deleted_alerts now cur ((path, mode) ∷ prev) =
    deleted now path (Map.get path cur) ++ deleted_alerts now cur prev

-- What a tick publishes, after the scan before it, where there was one.
unfoldable pub tick_alerts : String → Option Modes → Modes → List MonitorAlert
unfolding present_alerts deleted_alerts
tick_alerts now none cur = []
tick_alerts now (some prev) cur = present_alerts now prev cur ++ deleted_alerts now cur prev

-- A tick reads the clock and a scan.
abbrev pub Tick : Type 0
Tick = String × Modes

-- `run`, from the scan before, over the ticks: what it publishes.
unfoldable pub run : Option Modes → List Tick → List MonitorAlert
unfolding tick_alerts
run prev [] = []
run prev ((now, cur) ∷ ticks) = tick_alerts now prev cur ++ run (some cur) ticks

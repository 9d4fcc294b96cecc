-- ===== src/Monitors/Memory.antt =====
-- crates/secureops-monitors/src/memory_integrity.rs: alerts on memory files. The regex engine is the
-- parameter `is_match`, asked without regard to case, and SHA-256 is `hash_string`.
pub mod Checked
use secureops.Prelude.{
  ℕ, Bool, true, false, not, Option, none, some, List, [], ◌∷◌, ◌++◌, String, concat, join, keep_if,
  str_eq, if◌then◌else◌,
}
use secureops.Prelude.Map
use secureops.Prelude.Map.{String-Key}
use secureops.Core.Types.{Severity, critical, high, medium}
use secureops.Core.Runtime.{MonitorAlert, HashBaseline}

-- crates/secureops-core/src/patterns.rs
abbrev pub prompt_injection_sources : List String
prompt_injection_sources =
    "ignore\\s+previous\\s+instructions" ∷ "you\\s+are\\s+now" ∷ "new\\s+system\\s+prompt"
    ∷ "forward\\s+to" ∷ "send\\s+to" ∷ "exfiltrate" ∷ []

-- A memory file: its name, its path in the state directory and its content.
pub record MemoryFile : Type 0 where
  pub base : String
  pub rel : String
  pub content : String

abbrev alert : Severity → String → String → String → MonitorAlert
alert severity message details now = record {
  timestamp = now;
  severity = severity;
  monitor = "memory-integrity";
  message = message;
  details = some details;
}

-- `prefix` gives the first sixteen bytes of a hash.
module _ (is_match : String → String → Bool) (hash_string : String → String)
    (prefix : String → String) where
  unfoldable pub scan_for_prompt_injection : String → List String
  scan_for_prompt_injection content =
      keep_if (λ source. is_match source content) prompt_injection_sources

  -- The comparison with the expected hash, where the baseline has one.
  abbrev pub hash_alerts : String → Option String → String → String → List MonitorAlert
  hash_alerts base none hash now = []
  hash_alerts base (some expected) hash now =
      if str_eq expected hash
      then []
      else alert high (concat ("Memory file modified: " ∷ base ∷ []))
          (concat ("Expected hash: " ∷ prefix expected ∷ "..., Got: " ∷ prefix hash ∷ "..." ∷ []))
          now
        ∷ []

  abbrev pub injection_alerts : String → List String → String → List MonitorAlert
  injection_alerts base [] now = []
  injection_alerts base (i ∷ is) now =
      alert critical (concat ("Prompt injection patterns detected in " ∷ base ∷ []))
        (concat ("Patterns: " ∷ join ", " (i ∷ is) ∷ [])) now
      ∷ []

  unfoldable pub check_memory_content : MemoryFile → HashBaseline → String → List MonitorAlert
  unfolding scan_for_prompt_injection
  check_memory_content file baseline now =
      hash_alerts file.base (Map.get file.rel baseline.files) (hash_string file.content) now
      ++ injection_alerts file.base (scan_for_prompt_injection file.content) now

  abbrev pub Hashes : Type 0
  Hashes = List (String × String)

  unfoldable pub hashes : List MemoryFile → Hashes → Hashes
  hashes [] cur = cur
  hashes (file ∷ files) cur = hashes files (Map.insert file.rel (hash_string file.content) cur)

  unfoldable pub create_memory_baseline : List MemoryFile → String → HashBaseline
  unfolding hashes
  create_memory_baseline files now = record { timestamp = now; files = hashes files [] }

  abbrev new_alert : MemoryFile → String → MonitorAlert
  new_alert file now =
      alert medium (concat ("New memory file created: " ∷ file.base ∷ []))
        (concat ("Path: " ∷ file.rel ∷ [])) now

  -- What is published of a file, by the hash that the tick before had at its path.
  abbrev pub file_alerts : MemoryFile → HashBaseline → String → Option String → List MonitorAlert
  file_alerts file baseline now none = new_alert file now ∷ check_memory_content file baseline now
  file_alerts file baseline now (some hash) =
      if str_eq hash (hash_string file.content) then [] else check_memory_content file baseline now

  unfoldable pub tick_alerts :
      HashBaseline → String → Option Hashes → List MemoryFile → List MonitorAlert
  unfolding check_memory_content
  tick_alerts baseline now none files = []
  tick_alerts baseline now (some prev) [] = []
  tick_alerts baseline now (some prev) (file ∷ files) =
      file_alerts file baseline now (Map.get file.rel prev)
      ++ tick_alerts baseline now (some prev) files

  -- The monitor: its baseline, whether it was built, and the hashes of the tick before.
  pub record Monitor : Type 0 where
    pub baseline : HashBaseline
    pub built : Bool
    pub last : Option Hashes

  abbrev is_empty : Hashes → Bool
  is_empty [] = true
  is_empty (h ∷ hs) = false

  -- The state in which `run` starts.
  abbrev pub started : HashBaseline → Monitor
  started baseline = record {
    baseline = baseline;
    built = not (is_empty baseline.files);
    last = none;
  }

  -- A tick reads the clock and the files.
  abbrev pub Tick : Type 0
  Tick = String × List MemoryFile

  unfoldable pub tick : Tick → Monitor → List MonitorAlert × Monitor
  unfolding create_memory_baseline tick_alerts
  tick (now, files) m =
      let baseline = if m.built then m.baseline else create_memory_baseline files now in
      (
        tick_alerts baseline now m.last files,
        record { baseline = baseline; built = true; last = some (hashes files []) },
      )

  unfoldable pub run : List Tick → Monitor → List MonitorAlert
  unfolding tick
  run [] m = []
  run (t ∷ ts) m = let (alerts, m') = tick t m in alerts ++ run ts m'

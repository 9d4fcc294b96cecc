-- ===== src/Monitors/Skills.antt =====
-- crates/secureops-monitors/src/skill_scanner.rs: dangerous patterns, `scan_skill_content` and the
-- loop over the skills directory. The regex engine is the parameter `is_match`, asked with the
-- pattern that the code compiles.
pub mod Safe
use secureops.Prelude.{
  ℕ, Bool, true, false, not, ◌&&◌, Option, none, some, List, [], ◌∷◌, ◌++◌, String, concat, join,
  keep_if, str_eq, if◌then◌else◌, map,
}
use secureops.Prelude.Map
use secureops.Prelude.Map.{String-Key}
use secureops.Core.Types.{critical}
use secureops.Core.Runtime.{MonitorAlert, SkillScanResult, IocDatabase}
use secureops.Intel.{Matching, matches_typosquat, is_known_malicious_hash}

pub record DangerousPattern : Type 0 where
  pub regex : String
  pub source : String
  pub description : String
  pub severity : String

abbrev entry : String → String → String → String → DangerousPattern
entry regex source description severity = record {
  regex = regex;
  source = source;
  description = description;
  severity = severity;
}

unfoldable pub dangerous_patterns : List DangerousPattern
dangerous_patterns =
    entry "child_process" "child_process" "child_process import" "critical"
    ∷ entry "\\.exec\\s*\\(" "\\.exec\\s*\\(" "exec() call" "critical"
    ∷ entry "\\.spawn\\s*\\(" "\\.spawn\\s*\\(" "spawn() call" "critical"
    ∷ entry "eval\\s*\\(" "eval\\s*\\(" "eval() call" "critical"
    ∷ entry "Function\\s*\\(" "Function\\s*\\(" "Function() constructor" "critical"
    ∷ entry "webhook\\.site" "webhook\\.site" "webhook.site exfiltration" "critical"
    ∷ entry "reverse.shell" "reverse.shell" "reverse shell pattern" "critical"
    ∷ entry "(?i)base64.*decode" "base64.*decode" "base64 decode (obfuscation)" "high"
    ∷ entry "curl\\s+.*\\|\\s*sh" "curl\\s+.*\\|\\s*sh" "curl pipe to shell" "critical"
    ∷ entry "wget\\s+.*\\|\\s*sh" "wget\\s+.*\\|\\s*sh" "wget pipe to shell" "critical"
    ∷ entry "~/\\.openclaw" "~\\/\\.openclaw" "openclaw config access" "high"
    ∷ entry "~/\\.clawdbot" "~\\/\\.clawdbot" "legacy clawdbot config access" "high"
    ∷ entry "creds\\.json" "creds\\.json" "credential file access" "high"
    ∷ entry "\\.env" "\\.env" ".env file access" "medium"
    ∷ entry "auth-profiles" "auth-profiles" "auth-profiles access" "high"
    ∷ entry "LD_PRELOAD" "LD_PRELOAD" "LD_PRELOAD injection" "critical"
    ∷ entry "DYLD_INSERT" "DYLD_INSERT" "DYLD_INSERT injection" "critical"
    ∷ entry "NODE_OPTIONS" "NODE_OPTIONS" "NODE_OPTIONS injection" "high"
    ∷ []

-- A file of a skill: its name and its content.
abbrev pub File : Type 0
File = String × String

module _ (k : Matching) (is_match : String → String → Bool) where
  unfoldable pub scan_content : String → List DangerousPattern
  scan_content content =
      keep_if (λ (p : DangerousPattern). is_match p.regex content) dangerous_patterns

  -- What the scan of a skill collects.
  pub record Scan : Type 0 where
    pub safe : Bool
    pub findings : List String
    pub patterns : List String
    pub ioc_matches : List String

  -- The loop over the matches in a file.
  abbrev pub add_matches : String → List DangerousPattern → Scan → Scan
  add_matches file [] s = s
  add_matches file (m ∷ ms) s = add_matches file ms (record {
    safe = s.safe && not (str_eq m.severity "critical");
    findings =
        s.findings ++ concat (file ∷ ": " ∷ m.description ∷ " (" ∷ m.severity ∷ ")" ∷ []) ∷ [];
    patterns = s.patterns ++ m.source ∷ [];
    ioc_matches = s.ioc_matches;
  })

  abbrev pub add_campaign : String → String → Option String → Scan → Scan
  add_campaign file hash none s = s
  add_campaign file hash (some campaign) s = record {
    safe = false;
    findings =
        s.findings
        ++ concat (file ∷ ": matches known malicious hash (campaign: " ∷ campaign ∷ ")" ∷ []) ∷ [];
    patterns = s.patterns;
    ioc_matches = s.ioc_matches ++ concat ("hash:" ∷ hash ∷ ":" ∷ campaign ∷ []) ∷ [];
  }

  abbrev pub add_hash : Option IocDatabase → String → String → Scan → Scan
  add_hash none file content s = s
  add_hash (some db) file content s =
      let hash = k.hash_string content in add_campaign file hash (is_known_malicious_hash db hash) s

  unfoldable pub scan_files : Option IocDatabase → List File → Scan → Scan
  unfolding scan_content
  scan_files db [] s = s
  scan_files db ((file, content) ∷ files) s =
      scan_files db files (add_hash db file content (add_matches file (scan_content content) s))

  abbrev pub is_typosquat : Option IocDatabase → String → Bool
  is_typosquat none name = false
  is_typosquat (some db) name = matches_typosquat k db name

  abbrev pub start : String → Bool → Scan
  start name false = record { safe = true; findings = []; patterns = []; ioc_matches = [] }
  start name true = record {
    safe = false;
    findings = concat ("Skill name \"" ∷ name ∷ "\" matches known typosquat pattern" ∷ []) ∷ [];
    patterns = [];
    ioc_matches = concat ("typosquat:" ∷ name ∷ []) ∷ [];
  }

  unfoldable pub scan_skill_content : String → List File → Option IocDatabase → SkillScanResult
  unfolding scan_files
  scan_skill_content name files db =
      let s = scan_files db files (start name (is_typosquat db name)) in
      record {
        safe = s.safe;
        skill_name = name;
        findings = s.findings;
        dangerous_patterns = s.patterns;
        ioc_matches = s.ioc_matches;
      }

  -- The loop of the monitor, with the database of the scanner. A skill is its name and its files, and
  -- `seen` has the hash of the contents of each skill of the scan before.
  abbrev pub Skill : Type 0
  Skill = String × List File

  abbrev combined : List File → List String
  combined [] = []
  combined ((file, content) ∷ files) = file ∷ "\0" ∷ content ∷ "\0" ∷ combined files

  abbrev pub skill_hash : List File → String
  skill_hash files = k.hash_string (concat (combined files))

  abbrev pub Seen : Type 0
  Seen = List (String × String)

  abbrev differs : String → Option String → Bool
  differs hash none = true
  differs hash (some h) = not (str_eq h hash)

  abbrev pub is_changed : Option Seen → String → String → Bool
  is_changed none name hash = false
  is_changed (some seen) name hash = differs hash (Map.get name seen)

  abbrev unsafe_alert : String → String → SkillScanResult → List MonitorAlert
  unsafe_alert now name result =
      if result.safe
      then []
      else record {
        timestamp = now;
        severity = critical;
        monitor = "skill-scanner";
        message = concat ("Unsafe skill detected: " ∷ name ∷ []);
        details = some (join "; " result.findings);
      }
        ∷ []

  unfoldable pub tick_alerts : IocDatabase → String → Option Seen → List Skill → List MonitorAlert
  unfolding scan_skill_content
  tick_alerts db now seen [] = []
  tick_alerts db now seen ((name, files) ∷ skills) =
      let rest = tick_alerts db now seen skills in
      if is_changed seen name (skill_hash files)
      then unsafe_alert now name (scan_skill_content name files (some db)) ++ rest
      else rest

  abbrev pub hashes : List Skill → Seen → Seen
  hashes [] cur = cur
  hashes ((name, files) ∷ skills) cur = hashes skills (Map.insert name (skill_hash files) cur)

  -- A tick reads the clock and the skills.
  abbrev pub Tick : Type 0
  Tick = String × List Skill

  unfoldable pub run : IocDatabase → Option Seen → List Tick → List MonitorAlert
  unfolding tick_alerts
  run db seen [] = []
  run db seen ((now, skills) ∷ ticks) =
      tick_alerts db now seen skills ++ run db (some (hashes skills [])) ticks

-- ===== src/Monitors/Tests.antt =====
-- Runs of the monitors crate's tests, and instances of the theorems.
use secureops.Prelude.{
  ℕ, ℤ, pos, ◌+◌, ◌*◌, ◌≡◌, ◌↔◌, refl, inl, Option, none, some, List, [], ◌∷◌, String, Bool, true,
  false, ◌||◌, any, Has, All, ap, split, show, ltb, arith, str_eq, contains, codes, if◌then◌else◌,
}
use secureops.Prelude.Map
use secureops.Prelude.Map.{String-Key}
use secureops.Core.Util.{basename, is_group_or_other_accessible, show_octal}
use secureops.Monitors.{armed, tripped}
use secureops.Monitors.Cost
use secureops.Monitors.CostLog.{F64, Usage, parse_session_log, entry_of, token_cost}
use secureops.Monitors.Cost.{CostMonitor, Tick, Event, ticked, tripped_by_chain, run}
use secureops.Monitors.Cost.Trips.{overspends, trips_monitor, trips_channel, run-tripped}
use secureops.Monitors.Credential.{Modes}
use secureops.Monitors.Memory
use secureops.Monitors.Memory.{MemoryFile}
use secureops.Monitors.Memory.Checked.{second_alerts, modified, injected, second_alerts-modified}
use secureops.Monitors.Skills.{File, scan_skill_content, is_typosquat}
use secureops.Monitors.Skills.Safe.{IsClean, scan_skill_content-safe}
use secureops.Intel.{Matching}

-- Amounts in cents, each literal taken as 1.
abbrev cents : F64
cents = record {
  Float = ℕ;
  literal = λ s. if str_eq s "0.0" then 0 else 1;
  of_u64 = λ n. n;
  add = ◌+◌;
  mul = ◌*◌;
  div = λ a b. a;
  gt = λ a b. ltb b a;
  fixed_2 = λ a. "";
  display = λ a. "";
}

abbrev usage : String → Option Usage
usage line = some (record {
  input_tokens = some 2;
  output_tokens = some 3;
  model = some "gpt-4";
  timestamp = some "t";
})

abbrev at_time : String → Option ℤ
at_time ts = some (pos 1000)

abbrev now : Tick cents usage at_time
now = record { logs = "{}" ∷ []; now_ms = pos 2000; now_iso = "now" }

abbrev monitor : CostMonitor cents usage at_time
monitor = Cost.new cents usage at_time

-- cost.rs: five tokens at one cent are above the limit of one cent.
overspends_test : overspends cents usage at_time monitor.limits now ≡ true
unfolding parse_session_log entry_of token_cost split
overspends_test = refl

abbrev events : List (Event cents usage at_time)
events = tripped_by_chain ∷ ticked now ∷ []

run-tripped_example :
    ((run cents usage at_time events monitor).tripped
      ≡ (false || any (trips_monitor cents usage at_time monitor.limits) events))
    × ((run cents usage at_time events monitor).circuit ≡ (
        if any (trips_channel cents usage at_time monitor.limits) events then tripped else armed))
run-tripped_example = run-tripped cents usage at_time events monitor

-- credential.rs
basename_test : (basename "/state/credentials/a.json" ≡ "a.json") × (basename "a/b/" ≡ "b")
unfolding basename
basename_test = (refl, refl)

octal_test : (show_octal 420 ≡ "644") × (is_group_or_other_accessible 384 ≡ false)
unfolding show_octal show is_group_or_other_accessible
octal_test = (refl, refl)

abbrev before : Modes
before = ("/s/.env", 384) ∷ []

abbrev after : Modes
after = ("/s/.env", 420) ∷ []

-- memory_integrity.rs, with a regex engine that looks for the text itself and the text as its hash
abbrev finds : String → String → Bool
finds source content = contains (codes content) (codes source)

abbrev same : String → String
same s = s

abbrev soul : String → MemoryFile
soul content = record { base = "SOUL.md"; rel = "agents/a/SOUL.md"; content = content }

second_alerts-modified_example :
    Has (modified finds same same "SOUL.md" "be kind" "exfiltrate" "later") (
      second_alerts finds same same
        (record { timestamp = ""; files = [] })
        "now"
        (soul "be kind" ∷ [])
        "later"
        (soul "exfiltrate" ∷ []))
    × Has (injected finds same same "SOUL.md" ("exfiltrate" ∷ []) "later") (
        second_alerts finds same same
          (record { timestamp = ""; files = [] })
          "now"
          (soul "be kind" ∷ [])
          "later"
          (soul "exfiltrate" ∷ []))
unfolding Memory.hashes Map.get Map.insert Map.remove
second_alerts-modified_example =
    second_alerts-modified finds same same "now" "later" "be kind" "" (soul "be kind" ∷ [])
      (soul "exfiltrate" ∷ []) (soul "exfiltrate") (inl refl) refl
      (λ e. ground (arith, ap (λ s. str_eq s "be kind") e))

abbrev matching : Matching
matching = record {
  hash_string = same;
  to_lowercase = λ c. c ∷ [];
  is_similar = λ a b. false;
  is_match = λ p. none;
}

abbrev files : List File
files = ("index.js", "eval (1)") ∷ []

scan_skill_content-safe_example :
    ((scan_skill_content matching finds "weather" files none).safe ≡ true) ↔ (
      (is_typosquat matching finds none "weather" ≡ false)
      × All (IsClean matching finds none) files)
scan_skill_content-safe_example = scan_skill_content-safe matching finds "weather" files none

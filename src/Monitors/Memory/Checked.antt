-- ===== src/Monitors/Memory/Checked.antt =====
-- What the memory monitor reports of a file that changes after it started.
use secureops.Prelude.{
  ◌≡◌, ◌≢◌, refl, Bool, false, Option, none, some, List, [], ◌∷◌, ◌++◌, arith, String, Has,
  Has-left, Has-right, Includes, concat, join, keep_if, str_eq, str_eq_iff, inl, inr,
}
use secureops.Prelude.Map
use secureops.Prelude.Map.{String-Key}
use secureops.Core.Types.{high, critical}
use secureops.Core.Runtime.{MonitorAlert, HashBaseline}
use secureops.Monitors.Memory.{
  prompt_injection_sources, MemoryFile, hash_alerts, injection_alerts, scan_for_prompt_injection,
  check_memory_content, hashes, create_memory_baseline, file_alerts, tick_alerts, started, tick,
}

module _ (is_match : String → String → Bool) (hash_string : String → String)
    (prefix : String → String) where
  changed-checked :
      (file : MemoryFile) (baseline : HashBaseline) (now : String) (before : Option String)
      → before ≢ some (hash_string file.content)
      → Includes
          (check_memory_content is_match hash_string prefix file baseline now)
          (file_alerts is_match hash_string prefix file baseline now before)
  changed-checked file baseline now none d a h = inr h
  changed-checked file baseline now (some hash) d a h =
      let differs : str_eq hash (hash_string file.content) ≡ false =
        ground (arith, str_eq_iff hash (hash_string file.content)) in
      rw differs h

  tick_alerts-checked :
      (file : MemoryFile) (baseline : HashBaseline) (now : String) (prev : List (String × String))
      (files : List MemoryFile)
      → Has file files
      → Map.get file.rel prev ≢ some (hash_string file.content)
      → Includes
          (check_memory_content is_match hash_string prefix file baseline now)
          (tick_alerts is_match hash_string prefix baseline now (some prev) files)
  unfolding tick_alerts
  tick_alerts-checked file baseline now prev [] member d a h = absurd (member refl)
  tick_alerts-checked file baseline now prev (f ∷ files) (inl e) d a h = rw (← e) (
      Has-left a (file_alerts is_match hash_string prefix file baseline now (Map.get file.rel prev))
        (tick_alerts is_match hash_string prefix baseline now (some prev) files)
        (changed-checked file baseline now (Map.get file.rel prev) d a h))
  tick_alerts-checked file baseline now prev (f ∷ files) (inr m) d a h =
      Has-right a (file_alerts is_match hash_string prefix f baseline now (Map.get f.rel prev))
        (tick_alerts is_match hash_string prefix baseline now (some prev) files)
        (tick_alerts-checked file baseline now prev files m d a h)

  -- The alerts of the second tick, of a monitor that was given no baseline.
  abbrev pub second_alerts :
      HashBaseline → String → List MemoryFile → String → List MemoryFile → List MonitorAlert
  second_alerts empty now files later changed =
      let m =
        (tick is_match hash_string prefix (now, files)
          (started is_match hash_string prefix empty)).1 in
      (tick is_match hash_string prefix (later, changed) m).0

  second_alerts-checked :
      (now later hash timestamp : String) (files changed : List MemoryFile) (file : MemoryFile)
      → Has file changed
      → Map.get file.rel (hashes is_match hash_string prefix files []) ≡ some hash
      → hash ≢ hash_string file.content
      → Includes
          (hash_alerts is_match hash_string prefix file.base
              (some hash)
              (hash_string file.content)
              later
            ++ injection_alerts is_match hash_string prefix file.base
                (scan_for_prompt_injection is_match hash_string prefix file.content)
                later)
          (second_alerts (record { timestamp = timestamp; files = [] }) now files later changed)
  unfolding tick create_memory_baseline check_memory_content
  second_alerts-checked now later hash timestamp files changed file member before differs a h =
      let prev = hashes is_match hash_string prefix files [] in
      let baseline : HashBaseline = record { timestamp = now; files = prev } in
      tick_alerts-checked file baseline later prev changed member
        (λ e. differs (ground (arith, e, before))) a (rw before h)

  abbrev pub modified : String → String → String → String → MonitorAlert
  modified base expected hash now = record {
    timestamp = now;
    severity = high;
    monitor = "memory-integrity";
    message = concat ("Memory file modified: " ∷ base ∷ []);
    details =
        some
          (concat ("Expected hash: " ∷ prefix expected ∷ "..., Got: " ∷ prefix hash ∷ "..." ∷ []));
  }

  abbrev pub injected : String → List String → String → MonitorAlert
  injected base patterns now = record {
    timestamp = now;
    severity = critical;
    monitor = "memory-integrity";
    message = concat ("Prompt injection patterns detected in " ∷ base ∷ []);
    details = some (concat ("Patterns: " ∷ join ", " patterns ∷ []));
  }

  -- Where patterns match, the alert that lists them is among those given.
  abbrev pub Lists : String → String → List String → List MonitorAlert → Type 0
  Lists base now [] alerts = Unit
  Lists base now (i ∷ is) alerts = Has (injected base (i ∷ is) now) alerts

  modified-alert :
      (base hash got now : String) (rest : List MonitorAlert)
      → hash ≢ got
      → Has
          (modified base hash got now)
          (hash_alerts is_match hash_string prefix base (some hash) got now ++ rest)
  modified-alert base hash got now rest differs =
      let apart : str_eq hash got ≡ false = ground (arith, differs, str_eq_iff hash got) in
      rw apart (inl refl)

  injected-Lists :
      (base now : String) (patterns : List String) (before alerts : List MonitorAlert)
      → Includes (before ++ injection_alerts is_match hash_string prefix base patterns now) alerts
      → Lists base now patterns alerts
  injected-Lists base now [] before alerts h = tt
  injected-Lists base now (i ∷ is) before alerts h =
      h (injected base (i ∷ is) now) (Has-right (injected base (i ∷ is) now) before _ (inl refl))

  -- A monitor that was given no baseline takes what it finds first as the baseline: of a file whose
  -- content has another hash at the next tick, that tick publishes a high alert that it was modified,
  -- with the hash that it had and the one it has, and, where injection patterns match the new
  -- content, a critical alert that lists every one of them.
  pub second_alerts-modified :
      (now later hash timestamp : String) (files changed : List MemoryFile) (file : MemoryFile)
      → Has file changed
      → Map.get file.rel (hashes is_match hash_string prefix files []) ≡ some hash
      → hash ≢ hash_string file.content
      → Has
          (modified file.base hash (hash_string file.content) later)
          (second_alerts (record { timestamp = timestamp; files = [] }) now files later changed)
        × Lists file.base later
            (keep_if (λ source. is_match source file.content) prompt_injection_sources)
            (second_alerts (record { timestamp = timestamp; files = [] }) now files later changed)
  unfolding scan_for_prompt_injection
  second_alerts-modified now later hash timestamp files changed file member before differs =
      let all =
        second_alerts-checked now later hash timestamp files changed file member before differs in
      (
        all _ (modified-alert file.base hash (hash_string file.content) later _ differs),
        injected-Lists file.base later _ _ _ all,
      )

-- ===== src/Monitors/Skills/Safe.antt =====
-- When the scan of a skill calls it safe.
use secureops.Prelude.{
  ◌≡◌, ◌↔◌, ◌∙◌, Bool, true, false, not, ◌&&◌, Option, none, some, List, [], ◌∷◌, arith, String,
  All, any, keep_if, str_eq, Bool-cases, inl, inr,
}
use secureops.Core.Runtime.{IocDatabase}
use secureops.Intel.{Matching, is_known_malicious_hash}
use secureops.Monitors.Skills.{
  DangerousPattern, dangerous_patterns, File, scan_content, Scan, add_matches, add_hash,
  add_campaign, scan_files, is_typosquat, start, scan_skill_content,
}

abbrev is_critical : DangerousPattern → Bool
is_critical p = str_eq p.severity "critical"

-- No pattern of the table that matches is critical.
abbrev pub NoCritical : (String → String → Bool) → String → List DangerousPattern → Type 0
NoCritical is_match content = All (λ (p : DangerousPattern).
    is_match p.regex content ≡ true → str_eq p.severity "critical" ≡ false)

any-NoCritical :
    (is_match : String → String → Bool) (content : String) (ps : List DangerousPattern)
    → (any is_critical (keep_if (λ (p : DangerousPattern). is_match p.regex content) ps) ≡ false)
      ↔ NoCritical is_match content ps
any-NoCritical is_match content [] = ground arith
any-NoCritical is_match content (p ∷ ps) = elim (Bool-cases (is_match p.regex content)) [
  | inl hit ↦ rw hit (ground (arith, any-NoCritical is_match content ps))
  | inr miss ↦ rw miss (ground (arith, any-NoCritical is_match content ps))
]

module _ (k : Matching) (is_match : String → String → Bool) where
  -- The content has a hash of the database.
  abbrev pub campaign_of : Option IocDatabase → String → Option String
  campaign_of none content = none
  campaign_of (some db) content = is_known_malicious_hash db (k.hash_string content)

  abbrev pub IsClean : Option IocDatabase → File → Type 0
  IsClean db (file, content) =
      NoCritical is_match content dangerous_patterns × (campaign_of db content ≡ none)

  add_matches-safe :
      (file : String) (ms : List DangerousPattern) (s : Scan k is_match)
      → (add_matches k is_match file ms s).safe ≡ (s.safe && not (any is_critical ms))
  add_matches-safe file [] s = ground arith
  add_matches-safe file (m ∷ ms) s = add_matches-safe file ms _ ∙ ground arith

  campaign-safe :
      (file hash : String) (found : Option String) (s : Scan k is_match)
      → ((add_campaign k is_match file hash found s).safe ≡ true)
        ↔ ((s.safe ≡ true) × (found ≡ none))
  campaign-safe file hash none s = ground arith
  campaign-safe file hash (some c) s = ground arith

  hash-safe :
      (db : Option IocDatabase) (file content : String) (s : Scan k is_match)
      → ((add_hash k is_match db file content s).safe ≡ true)
        ↔ ((s.safe ≡ true) × (campaign_of db content ≡ none))
  hash-safe none file content s = ground arith
  hash-safe (some db) file content s =
      campaign-safe file (k.hash_string content)
        (is_known_malicious_hash db (k.hash_string content)) s

  scan_files-safe :
      (db : Option IocDatabase) (files : List File) (s : Scan k is_match)
      → ((scan_files k is_match db files s).safe ≡ true)
        ↔ ((s.safe ≡ true) × All (IsClean db) files)
  unfolding scan_files scan_content
  scan_files-safe db [] s = ground arith
  scan_files-safe db ((file, content) ∷ files) s =
      let matches = scan_content k is_match content in
      let t = add_matches k is_match file matches s in
      ground (
        arith,
        scan_files-safe db files (add_hash k is_match db file content t),
        hash-safe db file content t,
        add_matches-safe file matches s,
        any-NoCritical is_match content dangerous_patterns,
      )

  -- A skill scans as safe exactly when its name is no typosquat and, in every one of its files, no
  -- pattern that matches is critical and the hash is none that the database knows. Patterns of other
  -- severities are only listed.
  pub scan_skill_content-safe :
      (name : String) (files : List File) (db : Option IocDatabase)
      → ((scan_skill_content k is_match name files db).safe ≡ true)
        ↔ ((is_typosquat k is_match db name ≡ false) × All (IsClean db) files)
  unfolding scan_skill_content
  scan_skill_content-safe name files db = ground (
    arith,
    scan_files-safe db files (start k is_match name (is_typosquat k is_match db name)),
    started name (is_typosquat k is_match db name),
  )
    where
      started :
          (name : String) (squat : Bool)
          → ((start k is_match name squat).safe ≡ true) ↔ (squat ≡ false)
      started name true = ground arith
      started name false = ground arith

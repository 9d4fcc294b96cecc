-- ===== src/Intel.antt =====
-- crates/secureops-intel/src/lib.rs: the matchers on the indicator database. SHA-256, the regex
-- engine, Jaro-Winkler similarity and Unicode's lower case are the parameter `k`.
pub mod Baseline
pub mod Feed
mod Tests
use secureops.Prelude.{
  ℕ, Bool, true, false, not, ◌&&◌, ◌||◌, Option, none, some, List, [], ◌∷◌, ◌++◌, String, any,
  keep_if, is_space, codes, contains, ends_with, same, ◌==◌, str_eq, if◌then◌else◌,
}
use secureops.Prelude.Map
use secureops.Prelude.Map.{String-Key}
use secureops.Core.Runtime.{IocDatabase, InfostealerArtifacts}

pub record Matching : Type 0 where
  -- SHA-256 of the text's UTF-8 bytes, in hexadecimal
  pub hash_string : String → String
  pub to_lowercase : ℕ → List ℕ
  -- `jaro_winkler(a, b) >= 0.90`
  pub is_similar : List ℕ → List ℕ → Bool
  -- a case-insensitive regex, where it compiles
  pub is_match : String → Option (String → Bool)

abbrev pub empty_database : IocDatabase
empty_database = record {
  version = "0.0.0";
  last_updated = "";
  c2_ips = [];
  malicious_domains = [];
  malicious_skill_hashes = [];
  typosquat_patterns = [];
  dangerous_prerequisite_patterns = [];
  infostealer_artifacts = record { macos = []; linux = [] };
}

unfoldable pub is_known_c2 : IocDatabase → String → Bool
is_known_c2 db ip = any (λ c. str_eq c ip) db.c2_ips

-- Whether a domain is the listed one, or ends with a full stop and it.
abbrev pub under : String → String → Bool
under domain d = str_eq domain d || ends_with (codes domain) (46 ∷ codes d)

unfoldable pub is_known_malicious_domain : IocDatabase → String → Bool
is_known_malicious_domain db domain = any (under domain) db.malicious_domains

abbrev pub is_known_malicious_hash : IocDatabase → String → Option String
is_known_malicious_hash db sha256 = Map.get sha256 db.malicious_skill_hashes

abbrev pub infostealer_artifacts : IocDatabase → String → List String
infostealer_artifacts db platform =
    if str_eq platform "darwin"
    then db.infostealer_artifacts.macos
    else if str_eq platform "linux"
    then db.infostealer_artifacts.linux
    else []

module _ (k : Matching) where
  -- `flat_map(|c| c.to_lowercase())`, of the characters that are kept
  abbrev lowered : List ℕ → List ℕ
  lowered [] = []
  lowered (c ∷ cs) = k.to_lowercase c ++ lowered cs

  unfoldable pub normalize_skill_name : String → List ℕ
  normalize_skill_name s =
      lowered (keep_if (λ c. not (c == 45 || c == 95) && not (is_space c)) (codes s))

  abbrev resembles : List ℕ → List ℕ → Bool
  resembles name np = same name np || contains name np || contains np name || k.is_similar name np

  unfoldable pub matches_typosquat : IocDatabase → String → Bool
  unfolding normalize_skill_name
  matches_typosquat db name =
      any (λ pattern. resembles (normalize_skill_name name) (normalize_skill_name pattern))
        db.typosquat_patterns

  abbrev applies : Option (String → Bool) → String → Bool
  applies none content = false
  applies (some test) content = test content

  unfoldable pub matches_dangerous_pattern : IocDatabase → String → List String
  matches_dangerous_pattern db content =
      keep_if (λ pattern. applies (k.is_match pattern) content) db.dangerous_prerequisite_patterns

-- ===== src/AuditLog/Types.antt =====
-- crates/secureops-auditlog/src/lib.rs: errors and entries, and the chain hash. JSON values with
-- their canonical text are serde_json's, and SHA-256 is sha2's.
use secureops.Prelude.{ℕ, ◌≡◌, Bool, List, [], ◌++◌, Result, unwrap_or, String, same, length}
use secureops.AuditLog.Hex.{to_hex, Bytes}

abbrev pub Text : Type 0
Text = List ℕ

pub data AuditLogError : Type 0 where
  chain_broken : ℕ → String → AuditLogError
  signature_invalid : ℕ → AuditLogError
  signing : String → AuditLogError
  serialize : String → AuditLogError
  anchor : String → AuditLogError
  invalid_range : ℕ → ℕ → AuditLogError

-- `serde_json::Value` with `to_string`, and `Sha256` on the bytes of a text.
pub record Hashing : Type 1 where
  pub Value : Type 0
  pub to_string : Value → Result String Text
  pub sha256 : Text → List ℕ

module _ (h : Hashing) where
  -- The canonical text of a payload.
  abbrev pub canonical : h.Value → Text
  canonical payload = unwrap_or (h.to_string payload) []

  unfoldable pub chain_hash : Text → h.Value → Text
  chain_hash prev_hash payload = to_hex (h.sha256 (prev_hash ++ canonical payload))

  pub record LogEntry : Type 0 where
    pub seq : ℕ
    pub timestamp : String
    pub prev_hash : Text
    pub payload : h.Value
    pub hash : Text
    pub signature : Text

  abbrev pub recompute_hash_matches : LogEntry → Bool
  recompute_hash_matches e = same (chain_hash e.prev_hash e.payload) e.hash

  -- What SHA-256 returns: 32 bytes.
  pub record HasDigests : Type 0 where
    pub bytes : (t : Text) → Bytes (h.sha256 t)
    pub width : (t : Text) → length (h.sha256 t) ≡ 32

-- ===== src/AuditLog/Signer.antt =====
-- crates/secureops-auditlog/src/lib.rs: the trait `Signer` and `InMemorySigner`, over ed25519-dalek.
use secureops.Prelude.{
  ℕ, ◌≡◌, Bool, true, Option, none, some, List, arith, Result, ok, err, ◌==◌, length, if◌then◌else◌,
}
use secureops.AuditLog.Hex.{to_hex, from_hex, Bytes, from_hex-to_hex}
use secureops.AuditLog.Types.{Text, AuditLogError, signing}

pub record Signer : Type 0 where
  pub sign : Text → Result AuditLogError Text
  pub verify : Text → Text → Result AuditLogError Bool

-- The contract of the trait: what a signer signs, it verifies.
pub record IsSound (s : Signer) : Type 0 where
  pub verifies :
      (hash signature : Text) → s.sign hash ≡ ok signature → s.verify hash signature ≡ ok true

-- `SigningKey`, with `verify` against its own verifying key.
pub record Ed25519 : Type 1 where
  pub SigningKey : Type 0
  pub sign : SigningKey → Text → List ℕ
  pub verify : SigningKey → Text → List ℕ → Bool

-- What ed25519 promises: a signature is 64 bytes, and it verifies.
pub record IsEd25519 (c : Ed25519) : Type 0 where
  pub bytes : (key : c.SigningKey) (hash : Text) → Bytes (c.sign key hash)
  pub width : (key : c.SigningKey) (hash : Text) → length (c.sign key hash) ≡ 64
  pub verifies : (key : c.SigningKey) (hash : Text) → c.verify key hash (c.sign key hash) ≡ true

module _ (c : Ed25519) where
  unfoldable pub in_memory_sign : c.SigningKey → Text → Result AuditLogError Text
  in_memory_sign key hash = ok (to_hex (c.sign key hash))

  abbrev verify_bytes : c.SigningKey → Text → Option (List ℕ) → Result AuditLogError Bool
  verify_bytes key hash none = err (signing "signature not hex")
  verify_bytes key hash (some bytes) =
      if length bytes == 64
      then ok (c.verify key hash bytes)
      else err (signing "signature not 64 bytes")

  unfoldable pub in_memory_verify : c.SigningKey → Text → Text → Result AuditLogError Bool
  in_memory_verify key hash signature = verify_bytes key hash (from_hex signature)

  abbrev pub in_memory : c.SigningKey → Signer
  in_memory key = record { sign = in_memory_sign key; verify = in_memory_verify key }

  -- The in-memory signer keeps the contract: the hexadecimal signature that it gives out is decoded
  -- to the same bytes and verifies.
  pub in_memory-IsSound : IsEd25519 c → (key : c.SigningKey) → IsSound (in_memory key)
  unfolding in_memory_sign in_memory_verify
  in_memory-IsSound laws key = record {
    verifies = λ hash signature e. ground (
      arith,
      from_hex-to_hex (c.sign key hash) (laws.bytes key hash),
      laws.width key hash,
      laws.verifies key hash,
    );
  }

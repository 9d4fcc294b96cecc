-- ===== src/AuditLog/Log.antt =====
-- crates/secureops-auditlog/src/lib.rs: `AuditLog`, but for `open`. The file at `persist_path` is the state `File`
-- of a store that opens, writes and reads it; lines are serde_json's. `next_seq` is a u64.
pub mod Chain
pub mod Tamper
pub mod Segment
pub mod Stored
use secureops.Prelude.{
  ℕ, zero, suc, ◌+◌, ◌%◌, ◌≡◌, Bool, true, false, not, ◌&&◌, ◌||◌, Option, none, some, List, [],
  ◌∷◌, ◌++◌, String, Result, ok, err, ◌>>=◌, map_err, leb, ltb, ◌==◌, same, keep_if, if◌then◌else◌,
}
use secureops.AuditLog.Types.{
  Text, AuditLogError, chain_broken, signature_invalid, serialize, invalid_range, Hashing,
  chain_hash, LogEntry, recompute_hash_matches,
}
use secureops.AuditLog.Signer.{Signer}

abbrev pub u64 : ℕ → ℕ
u64 n = n % 18446744073709551616

pub repeat : ℕ → Text
repeat zero = []
repeat (suc n) = 48 ∷ repeat n

unfoldable pub genesis_hash : Text
unfolding repeat
genesis_hash = repeat 64

-- `Anchor`
pub record Anchor : Type 0 where
  pub anchor_head : Text → Result AuditLogError String

-- The file system below `OpenOptions::append` and `BufReader::lines`, with serde_json's lines.
pub record Store (h : Hashing) : Type 1 where
  pub File : Type 0
  pub append_line : Text → File → Result String (Unit {0}) × File
  pub lines : File → Result String (List Text)
  pub entry_to_string : LogEntry h → Result String Text
  pub entry_from_str : Text → Result String (LogEntry h)

module _ (h : Hashing) (t : Store h) where
  pub record AuditLog : Type 0 where
    pub next_seq : ℕ
    pub prev_hash : Text
    pub signer : Signer
    pub anchor : Option Anchor
    pub entries : List (LogEntry h)
    pub persist_path : Option t.File

  unfoldable pub new : Signer → AuditLog
  new signer = record {
    next_seq = 0;
    prev_hash = genesis_hash;
    signer = signer;
    anchor = none;
    entries = [];
    persist_path = none;
  }

  abbrev pub with_anchor : Anchor → AuditLog → AuditLog
  with_anchor a l = record l { anchor = some a }

  -- The entry that `append` makes of a payload.
  abbrev pub next_entry : h.Value → String → Text → AuditLog → LogEntry h
  next_entry payload now signature l = record {
    seq = l.next_seq;
    timestamp = now;
    prev_hash = l.prev_hash;
    payload = payload;
    hash = chain_hash h l.prev_hash payload;
    signature = signature;
  }

  abbrev pub push : LogEntry h → AuditLog → AuditLog
  push e l = record l {
    next_seq = u64 (l.next_seq + 1);
    prev_hash = e.hash;
    entries = l.entries ++ e ∷ [];
  }

  abbrev pub written :
      LogEntry h → Result String (Unit {0}) × t.File → Result AuditLogError (LogEntry h) × t.File
  written e (ok u, file) = (ok e, file)
  written e (err why, file) = (err (serialize why), file)

  -- The line, where serde_json gives one, is written and flushed.
  abbrev pub write :
      Result String Text → LogEntry h → t.File → Result AuditLogError (LogEntry h) × t.File
  write (err why) e file = (err (serialize why), file)
  write (ok line) e file = written e (t.append_line line file)

  abbrev pub persist_to :
      Option t.File → LogEntry h → AuditLog → Result AuditLogError (LogEntry h) × AuditLog
  persist_to none e l = (ok e, l)
  persist_to (some file) e l =
      let (result, file') = write (t.entry_to_string e) e file in
      (result, record l { persist_path = some file' })

  -- `append` from the signer's answer on
  abbrev pub commit :
      h.Value
      → String
      → AuditLog
      → Result AuditLogError Text
      → Result AuditLogError (LogEntry h) × AuditLog
  commit payload now l (err e) = (err e, l)
  commit payload now l (ok signature) =
      let e = next_entry payload now signature l in persist_to l.persist_path e (push e l)

  unfoldable pub append : h.Value → String → AuditLog → Result AuditLogError (LogEntry h) × AuditLog
  append payload now l = commit payload now l (l.signer.sign (chain_hash h l.prev_hash payload))

  abbrev signed : LogEntry h → Result AuditLogError Bool → Result AuditLogError Bool
  signed e (ok true) = ok true
  signed e (ok false) = err (signature_invalid e.seq)
  signed e (err why) = err why

  -- What `verify_chain` asks of the `i`-th entry.
  unfoldable pub check_entry : Signer → ℕ → Text → LogEntry h → Result AuditLogError Bool
  check_entry s i expected_prev e =
      if not (e.seq == u64 i)
      then err (chain_broken e.seq "non-contiguous seq")
      else if not (same e.prev_hash expected_prev)
      then err (chain_broken e.seq "prev_hash does not match predecessor")
      else if not (recompute_hash_matches h e)
      then err (chain_broken e.seq "payload tampered (hash mismatch)")
      else signed e (s.verify e.hash e.signature)

  -- The loop of `verify_chain` from the `i`-th entry on.
  unfoldable pub verify_from : Signer → ℕ → Text → List (LogEntry h) → Result AuditLogError Bool
  unfolding check_entry
  verify_from s i expected_prev [] = ok true
  verify_from s i expected_prev (e ∷ es) =
      let rest = verify_from s (suc i) e.hash es in check_entry s i expected_prev e >>= λ good. rest

  unfoldable pub verify_chain : AuditLog → Result AuditLogError Bool
  verify_chain l = verify_from l.signer 0 genesis_hash l.entries

  abbrev pub in_range : ℕ → ℕ → LogEntry h → Bool
  in_range from to e = leb from e.seq && leb e.seq to

  unfoldable pub export_segment : ℕ → ℕ → AuditLog → Result AuditLogError (List (LogEntry h))
  export_segment from to l =
      if ltb to from then err (invalid_range from to) else ok (keep_if (in_range from to) l.entries)

  unfoldable pub anchor_now : AuditLog → Result AuditLogError (Option String)
  anchor_now l = elim l.anchor [
    | none ↦ ok none
    | some a ↦ a.anchor_head l.prev_hash >>= λ proof. ok (some proof)
  ]

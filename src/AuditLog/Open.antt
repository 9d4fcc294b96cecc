-- ===== src/AuditLog/Open.antt =====
-- crates/secureops-auditlog/src/lib.rs: `AuditLog::open`. A path that does not exist is a file
-- without lines.
pub mod Load
pub mod Reopen
pub mod Lost
use secureops.Prelude.{
  ℕ, ◌+◌, ◌≡◌, Bool, true, false, not, Option, none, some, List, [], ◌∷◌, String, Result, ok, err,
  ◌>>=◌, map_err, trim, same, if◌then◌else◌,
}
use secureops.AuditLog.Types.{Text, Hashing, LogEntry, recompute_hash_matches}
use secureops.AuditLog.Signer.{Signer}
use secureops.AuditLog.Log.{u64, genesis_hash, Store, AuditLog}

pub data OpenError : Type 0 where
  io corrupt_line : String → OpenError
  broken_at mismatch_at : ℕ → OpenError

module _ (h : Hashing) (t : Store h) where
  abbrev pub cons_ok :
      LogEntry h → Result OpenError (List (LogEntry h)) → Result OpenError (List (LogEntry h))
  cons_ok e rest = rest >>= λ es. ok (e ∷ es)

  -- One line, read before the lines after it.
  pub load_line : Text → Result OpenError (List (LogEntry h)) → Result OpenError (List (LogEntry h))
  load_line [] rest = rest
  load_line (c ∷ line) rest =
      map_err corrupt_line (t.entry_from_str (c ∷ line)) >>= λ e. cons_ok e rest

  unfoldable pub load : List Text → Result OpenError (List (LogEntry h))
  unfolding load_line
  load [] = ok []
  load (line ∷ lines) = load_line (trim line) (load lines)

  -- `next_seq` and `prev_hash`, from the last entry.
  unfoldable pub tail_of : ℕ → Text → List (LogEntry h) → ℕ × Text
  tail_of n prev [] = (n, prev)
  tail_of n prev (e ∷ es) = tail_of (u64 (e.seq + 1)) e.hash es

  unfoldable pub verify_loaded : Text → List (LogEntry h) → Result OpenError (Unit {0})
  verify_loaded expected_prev [] = ok tt
  verify_loaded expected_prev (e ∷ es) =
      let rest = verify_loaded e.hash es in
      if not (same e.prev_hash expected_prev)
      then err (broken_at e.seq)
      else if not (recompute_hash_matches h e)
      then err (mismatch_at e.seq)
      else rest

  abbrev pub opened : t.File → Signer → List (LogEntry h) → AuditLog h t
  opened file signer entries =
      let (next_seq, prev_hash) = tail_of 0 genesis_hash entries in
      record {
        next_seq = next_seq;
        prev_hash = prev_hash;
        signer = signer;
        anchor = none;
        entries = entries;
        persist_path = some file;
      }

  unfoldable pub open_log : t.File → Signer → Result OpenError (AuditLog h t)
  unfolding load verify_loaded tail_of
  open_log file signer = map_err io (t.lines file) >>= λ lines. load lines >>= λ entries.
      verify_loaded genesis_hash entries >>= λ u. ok (opened file signer entries)

-- ===== src/AuditLog/Log/Stored.antt =====
-- `AuditLog::append` on a log with a file: what it has done when it returns an entry.
use secureops.Prelude.{◌≡◌, refl, sym, subst, some, String, arith, Result, ok, err}
use secureops.AuditLog.Types.{Text, AuditLogError, Hashing, LogEntry}
use secureops.AuditLog.Log.{
  Store, AuditLog, next_entry, push, written, write, persist_to, commit, append,
}

module _ (h : Hashing) (t : Store h) where
  abbrev pub stored : t.File → AuditLog h t → AuditLog h t
  stored file l = record l { persist_path = some file }

  -- The entry was signed, its line written, and the log is the old one with the entry pushed.
  pub record Stored (payload : h.Value) (now : String) (file : t.File) (l l' : AuditLog h t)
      (e : LogEntry h) : Type 0 where
    pub signature : Text
    pub line : Text
    pub file' : t.File
    pub made : next_entry h t payload now signature l ≡ e
    pub rendered : t.entry_to_string (next_entry h t payload now signature l) ≡ ok line
    pub wrote : t.append_line line file ≡ (ok tt, file')
    pub after : stored file' (push h t (next_entry h t payload now signature l) l) ≡ l'

  module _ (payload : h.Value) (now : String) (file : t.File) (l : AuditLog h t) where
    abbrev next : Text → LogEntry h
    next signature = next_entry h t payload now signature l

    written-Stored :
        (signature line : Text) (e : LogEntry h)
        → t.entry_to_string (next signature) ≡ ok line
        → (out : Result String (Unit {0}) × t.File) → t.append_line line file ≡ out
        → (written h t (next signature) out).0 ≡ ok e
        → Stored payload now file l
            (stored (written h t (next signature) out).1 (push h t (next signature) l))
            e
    written-Stored signature line e s (err why, file') a w = ground arith
    written-Stored signature line e s (ok u, file') a w = record {
      signature = signature;
      line = line;
      file' = file';
      made = ground (arith, w);
      rendered = s;
      wrote = a;
      after = refl;
    }

    persist_to-Stored :
        (signature : Text) (e : LogEntry h) (r : Result String Text)
        → t.entry_to_string (next signature) ≡ r
        → (write h t r (next signature) file).0 ≡ ok e
        → Stored payload now file l
            (stored (write h t r (next signature) file).1 (push h t (next signature) l))
            e
    persist_to-Stored signature e (err why) s w = ground arith
    persist_to-Stored signature e (ok line) s w = written-Stored signature line e s _ refl w

    commit-Stored :
        (e : LogEntry h) (r : Result AuditLogError Text)
        → l.persist_path ≡ some file
        → (commit h t payload now l r).0 ≡ ok e
        → Stored payload now file l (commit h t payload now l r).1 e
    commit-Stored e (err why) p w = ground arith
    commit-Stored e (ok signature) p w =
        subst
          (λ path.
            (persist_to h t path (next signature) (push h t (next signature) l)).0 ≡ ok e
            → Stored payload now file l
                (persist_to h t path (next signature) (push h t (next signature) l)).1 e)
          (sym p) (persist_to-Stored signature e _ refl) w

    pub append-Stored :
        (e : LogEntry h)
        → l.persist_path ≡ some file
        → (append h t payload now l).0 ≡ ok e
        → Stored payload now file l (append h t payload now l).1 e
    unfolding append
    append-Stored e p w = commit-Stored e _ p w

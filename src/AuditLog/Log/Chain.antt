-- ===== src/AuditLog/Log/Chain.antt =====
-- crates/secureops-auditlog/src/lib.rs: `AuditLog::append` against `verify_chain`.
use secureops.Prelude.{
  ℕ, suc, ◌+◌, ◌≡◌, refl, sym, Bool, true, Option, none, some, List, [], ◌∷◌, ◌++◌, String, arith,
  Result, ok, err, then_ok, ok_then, same_iff, length, length-append,
}
use secureops.AuditLog.Types.{Text, AuditLogError, Hashing, chain_hash, LogEntry}
use secureops.AuditLog.Signer.{Signer, IsSound}
use secureops.AuditLog.Log.{
  u64, genesis_hash, Store, AuditLog, new, next_entry, push, persist_to, commit, append,
  check_entry, verify_from, verify_chain,
}

module _ (h : Hashing) (t : Store h) where
  -- The hash that the next entry links to.
  abbrev pub head : Text → List (LogEntry h) → Text
  head prev [] = prev
  head prev (e ∷ es) = head e.hash es

  pub head-push :
      (prev : Text) (es : List (LogEntry h)) (e : LogEntry h) → head prev (es ++ e ∷ []) ≡ e.hash
  head-push prev [] e = refl
  head-push prev (d ∷ es) e = head-push d.hash es e

  -- The invariant of a log: it verifies, and its tail is the tail of its entries.
  pub record IsChained (l : AuditLog h t) : Type 0 where
    pub verified : verify_chain h t l ≡ ok true
    pub at_seq : l.next_seq ≡ u64 (length l.entries)
    pub at_head : l.prev_hash ≡ head genesis_hash l.entries

  pub new-IsChained : (s : Signer) → IsChained (new h t s)
  unfolding new verify_chain verify_from
  new-IsChained s = record { verified = refl; at_seq = refl; at_head = refl }

  verify_from-push :
      (s : Signer) (i k : ℕ) (prev : Text) (es : List (LogEntry h)) (e : LogEntry h)
      → k ≡ i + length es
      → verify_from h t s i prev es ≡ ok true
      → check_entry h t s k (head prev es) e ≡ ok true
      → verify_from h t s i prev (es ++ e ∷ []) ≡ ok true
  unfolding verify_from
  verify_from-push s i k prev [] e n v c = ground arith
  verify_from-push s i k prev (d ∷ es) e n v c =
      let (good, rest) = then_ok _ _ true v in
      ok_then _ _ good.0 true good.1
        (verify_from-push s (suc i) k d.hash es e (omega (arith, n)) rest c)

  -- What passes the check: the number, the link, the hash and the signature are right.
  pub record IsGood (s : Signer) (i : ℕ) (prev : Text) (e : LogEntry h) : Type 0 where
    pub seq : e.seq ≡ u64 i
    pub link : e.prev_hash ≡ prev
    pub hash : chain_hash h e.prev_hash e.payload ≡ e.hash
    pub signature : s.verify e.hash e.signature ≡ ok true

  pub check_entry-IsGood :
      (s : Signer) (i : ℕ) (prev : Text) (e : LogEntry h) (b : Bool)
      → check_entry h t s i prev e ≡ ok b
      → IsGood s i prev e
  unfolding check_entry
  check_entry-IsGood s i prev e b c = record {
    seq = ground arith;
    link = ground (arith, same_iff e.prev_hash prev);
    hash = ground (arith, same_iff (chain_hash h e.prev_hash e.payload) e.hash);
    signature = ground arith;
  }

  pub IsGood-check_entry :
      (s : Signer) (i : ℕ) (prev : Text) (e : LogEntry h)
      → IsGood s i prev e
      → check_entry h t s i prev e ≡ ok true
  unfolding check_entry
  IsGood-check_entry s i prev e g = ground (
    arith,
    g.seq,
    same_iff e.prev_hash prev,
    g.link,
    g.hash,
    g.signature,
    same_iff (chain_hash h e.prev_hash e.payload) e.hash,
  )

  push-IsChained :
      (l : AuditLog h t) (payload : h.Value) (now : String) (signature : Text)
      → IsSound l.signer
      → l.signer.sign (chain_hash h l.prev_hash payload) ≡ ok signature
      → IsChained l
      → IsChained (push h t (next_entry h t payload now signature l) l)
  unfolding verify_chain
  push-IsChained l payload now signature sound s c = record {
    verified =
        verify_from-push l.signer 0 (length l.entries) genesis_hash l.entries _ (omega arith)
          c.verified
          (IsGood-check_entry l.signer (length l.entries) (head genesis_hash l.entries) _ (record {
            seq = c.at_seq;
            link = c.at_head;
            hash = refl;
            signature = sound.verifies _ signature s;
          }));
    at_seq =
        omega
          (arith, c.at_seq, length-append l.entries (next_entry h t payload now signature l ∷ []));
    at_head = sym (head-push genesis_hash l.entries (next_entry h t payload now signature l));
  }

  persist_to-IsChained :
      (file : Option t.File) (e : LogEntry h) (l : AuditLog h t)
      → IsChained l
      → IsChained (persist_to h t file e l).1
  unfolding verify_chain
  persist_to-IsChained none e l c = c
  persist_to-IsChained (some file) e l c = record {
    verified = c.verified;
    at_seq = c.at_seq;
    at_head = c.at_head;
  }

  commit-IsChained :
      (payload : h.Value) (now : String) (l : AuditLog h t) (r : Result AuditLogError Text)
      → r ≡ l.signer.sign (chain_hash h l.prev_hash payload)
      → IsSound l.signer
      → IsChained l
      → IsChained (commit h t payload now l r).1
  commit-IsChained payload now l (err e) s sound c = c
  commit-IsChained payload now l (ok signature) s sound c =
      persist_to-IsChained l.persist_path (next_entry h t payload now signature l) _
        (push-IsChained l payload now signature sound (sym s) c)

  -- Whatever an append returns, and where the file refuses the line too, it keeps the invariant.
  pub append-IsChained :
      (payload : h.Value) (now : String) (l : AuditLog h t)
      → IsSound l.signer
      → IsChained l
      → IsChained (append h t payload now l).1
  unfolding append
  append-IsChained payload now l sound c = commit-IsChained payload now l _ refl sound c

  -- Appends one after the other, each with its time, those that fail included.
  unfoldable pub append_each : List (h.Value × String) → AuditLog h t → AuditLog h t
  append_each [] l = l
  append_each ((payload, now) ∷ rest) l = append_each rest (append h t payload now l).1

  append-signer :
      (payload : h.Value) (now : String) (l : AuditLog h t)
      → (append h t payload now l).1.signer ≡ l.signer
  unfolding append
  append-signer payload now l = ground arith

  append_each-IsChained :
      (ps : List (h.Value × String)) (l : AuditLog h t)
      → IsSound l.signer
      → IsChained l
      → IsChained (append_each ps l)
  unfolding append_each
  append_each-IsChained [] l sound c = c
  append_each-IsChained ((payload, now) ∷ rest) l sound c =
      append_each-IsChained rest (append h t payload now l).1
        (rw (append-signer payload now l) sound) (append-IsChained payload now l sound c)

  -- A log on which any run of appends was made, at any times and failed ones included, passes
  -- `verify_chain`, when the signer verifies what it signs.
  pub append_each-verify_chain :
      (s : Signer) (ps : List (h.Value × String))
      → IsSound s
      → verify_chain h t (append_each ps (new h t s)) ≡ ok true
  unfolding new
  append_each-verify_chain s ps sound =
      (append_each-IsChained ps (new h t s) sound (new-IsChained s)).verified

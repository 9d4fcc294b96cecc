-- ===== src/AuditLog/Open/Lost.antt =====
-- `AuditLog::open` after a line that the file refused.
use secureops.Prelude.{
  ◌≡◌, ◌≢◌, refl, sym, ap, ◌∙◌, subst, Option, some, List, String, Result, ok, err,
}
use secureops.AuditLog.Types.{Text, AuditLogError, Hashing, LogEntry, chain_hash}
use secureops.AuditLog.Signer.{Signer}
use secureops.AuditLog.Log.{
  genesis_hash, Store, AuditLog, next_entry, write, persist_to, commit, append,
}
use secureops.AuditLog.Log.Chain.{head}
use secureops.AuditLog.Log.Stored.{append-Stored}
use secureops.AuditLog.Open.{broken_at, load, verify_loaded, open_log}
use secureops.AuditLog.Open.Load.{load-push, tail_of-head, verify_loaded-broken}
use secureops.AuditLog.Open.Reopen.{IsDurable, Mirrors, opened-Mirrors}

module _ (h : Hashing) (t : Store h) where
  -- The file has all the entries of the log but those from the head `prev` on.
  record LacksFrom (prev : Text) (file : t.File) (l : AuditLog h t) : Type 0 where
    pub lines : List Text
    pub kept : List (LogEntry h)
    pub held : t.lines file ≡ ok lines
    pub loaded : load h t lines ≡ ok kept
    pub linked : verify_loaded h t genesis_hash kept ≡ ok tt
    pub ends : head h t genesis_hash kept ≡ prev
    pub on_path : l.persist_path ≡ some file

  persist_to-path :
      (e : LogEntry h) (file : t.File) (path : Option t.File) (l : AuditLog h t)
      → path ≡ some file
      → (write h t (t.entry_to_string e) e file).1 ≡ file
      → ((persist_to h t path e l).1.persist_path ≡ some file)
        × ((persist_to h t path e l).1.prev_hash ≡ l.prev_hash)
  persist_to-path e file path l p w =
      subst
        (λ q.
          ((persist_to h t q e l).1.persist_path ≡ some file)
          × ((persist_to h t q e l).1.prev_hash ≡ l.prev_hash))
        (sym p) (ap some w, refl)

  commit-path :
      (payload : h.Value) (now : String) (signature : Text) (file : t.File) (l : AuditLog h t)
      (r : Result AuditLogError Text)
      → r ≡ ok signature
      → l.persist_path ≡ some file
      → (write h t
          (t.entry_to_string (next_entry h t payload now signature l))
          (next_entry h t payload now signature l)
          file).1
        ≡ file
      → ((commit h t payload now l r).1.persist_path ≡ some file)
        × ((commit h t payload now l r).1.prev_hash ≡ chain_hash h l.prev_hash payload)
  commit-path payload now signature file l r s p w =
      subst
        (λ q.
          ((commit h t payload now l q).1.persist_path ≡ some file)
          × ((commit h t payload now l q).1.prev_hash ≡ chain_hash h l.prev_hash payload))
        (sym s) (persist_to-path _ file l.persist_path _ p w)

  -- After an append whose line the file refuses and leaves nothing of, the log in memory has an
  -- entry that the file lacks.
  lost-LacksFrom :
      (payload : h.Value) (now : String) (signature : Text) (file : t.File) (l : AuditLog h t)
      → Mirrors h t file l
      → l.signer.sign (chain_hash h l.prev_hash payload) ≡ ok signature
      → (write h t
          (t.entry_to_string (next_entry h t payload now signature l))
          (next_entry h t payload now signature l)
          file).1
        ≡ file
      → LacksFrom l.prev_hash file (append h t payload now l).1
        × ((append h t payload now l).1.prev_hash ≡ chain_hash h l.prev_hash payload)
  unfolding append
  lost-LacksFrom payload now signature file l m s w =
      let (path, prev) = commit-path payload now signature file l _ s m.on_path w in
      (
        record {
          lines = m.lines;
          kept = l.entries;
          held = m.held;
          loaded = m.loaded;
          linked = m.linked;
          ends = sym (ap (λ p. p.1) m.tail ∙ tail_of-head h t 0 genesis_hash l.entries);
          on_path = path;
        },
        prev,
      )

  -- The next entry that does reach the file breaks the chain there.
  LacksFrom-broken :
      (prev : Text) (payload : h.Value) (now : String) (file : t.File) (s : Signer)
      (l : AuditLog h t) (e : LogEntry h)
      → IsDurable h t
      → LacksFrom prev file l
      → l.prev_hash ≢ prev
      → (append h t payload now l).0 ≡ ok e
      → (file' : t.File) × ((append h t payload now l).1.persist_path ≡ some file')
        × (open_log h t file' s ≡ err (broken_at l.next_seq))
  unfolding open_log
  LacksFrom-broken prev payload now file s l e d m n w =
      let st = append-Stored h t payload now file l e m.on_path w in
      let next = next_entry h t payload now st.signature l in
      let (filled, read) = d.reads next st.line st.rendered in
      let held =
        sym (ap (λ (o : Result String (Unit {0}) × t.File). t.lines o.1) st.wrote)
        ∙ d.appends st.line file m.lines m.held (ap (λ o. o.0) st.wrote) in
      (
        st.file',
        ap (λ (k : AuditLog h t). k.persist_path) (sym st.after),
        rw
            (
              held,
              load-push h t m.lines st.line m.kept next m.loaded filled read,
              verify_loaded-broken h t genesis_hash m.kept next m.linked (λ x. n (x ∙ m.ends)),
            )
            refl,
      )

  -- A line that the file refused, leaving nothing of it, is lost for good: the entry counts in
  -- memory, so that the next append that returns an entry links to it, and the file, opened after
  -- a restart, is refused as a broken chain. It asks that the hash of the lost entry is not the one
  -- before it, that appended lines stay in the file and that the line of an entry reads back.
  pub open_log-lost :
      (p q : h.Value) (now later : String) (signature : Text) (file : t.File) (l : AuditLog h t)
      (e : LogEntry h)
      → IsDurable h t
      → open_log h t file l.signer ≡ ok l
      → l.signer.sign (chain_hash h l.prev_hash p) ≡ ok signature
      → (write h t
          (t.entry_to_string (next_entry h t p now signature l))
          (next_entry h t p now signature l)
          file).1
        ≡ file
      → chain_hash h l.prev_hash p ≢ l.prev_hash
      → (append h t q later (append h t p now l).1).0 ≡ ok e
      → (file' : t.File) × ((append h t q later (append h t p now l).1).1.persist_path ≡ some file')
        × (open_log h t file' l.signer ≡ err (broken_at (append h t p now l).1.next_seq))
  open_log-lost p q now later signature file l e d o s w n k =
      let (lacks, prev) =
        lost-LacksFrom p now signature file l (opened-Mirrors h t file l.signer l o) s w in
      LacksFrom-broken l.prev_hash q later file l.signer (append h t p now l).1 e d lacks
        (λ x. n (sym prev ∙ x)) k

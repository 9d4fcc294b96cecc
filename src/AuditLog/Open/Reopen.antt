-- ===== src/AuditLog/Open/Reopen.antt =====
-- `AuditLog::open` after `append`: what a restart finds in the file.
use secureops.Prelude.{
  ◌≡◌, ◌≢◌, refl, sym, ap, ◌∙◌, subst, none, some, List, [], ◌∷◌, ◌++◌, String, arith, Result, ok,
  err, ◌>>=◌, map_err, then_ok, trim,
}
use secureops.AuditLog.Types.{Text, AuditLogError, Hashing, LogEntry}
use secureops.AuditLog.Signer.{Signer}
use secureops.AuditLog.Log.{genesis_hash, Store, AuditLog, next_entry, append}
use secureops.AuditLog.Log.Stored.{append-Stored}
use secureops.AuditLog.Open.{OpenError, io, load, tail_of, verify_loaded, opened, open_log}
use secureops.AuditLog.Open.Load.{load-push, tail_of-push, tail_of-head, verify_loaded-push}

module _ (h : Hashing) (t : Store h) where
  -- What the file system and serde_json promise: a line that was appended stands at the end of the
  -- file, and the line of an entry is no blank one and reads back as the entry.
  pub record IsDurable : Type 0 where
    pub appends :
        (line : Text) (file : t.File) (ls : List Text)
        → t.lines file ≡ ok ls
        → (t.append_line line file).0 ≡ ok tt
        → t.lines (t.append_line line file).1 ≡ ok (ls ++ line ∷ [])
    pub reads :
        (e : LogEntry h) (line : Text)
        → t.entry_to_string e ≡ ok line
        → (trim line ≢ []) × (t.entry_from_str (trim line) ≡ ok e)

  -- The log in memory is what its file holds, and nothing else.
  pub record Mirrors (file : t.File) (l : AuditLog h t) : Type 0 where
    pub lines : List Text
    pub held : t.lines file ≡ ok lines
    pub loaded : load h t lines ≡ ok l.entries
    pub linked : verify_loaded h t genesis_hash l.entries ≡ ok tt
    pub tail : (l.next_seq, l.prev_hash) ≡ tail_of h t 0 genesis_hash l.entries
    pub on_path : l.persist_path ≡ some file

  -- A log that mirrors its file is what opening the file gives, but for the anchor.
  pub open_log-Mirrors :
      (file : t.File) (l : AuditLog h t)
      → Mirrors file l
      → open_log h t file l.signer ≡ ok (record l { anchor = none })
  unfolding open_log
  open_log-Mirrors file l m = rw (m.held, m.loaded, m.linked, m.on_path) (cc m.tail)

  -- An append that returns an entry leaves a log that mirrors its file again.
  append-Mirrors :
      (payload : h.Value) (now : String) (file : t.File) (l : AuditLog h t) (e : LogEntry h)
      → IsDurable
      → Mirrors file l
      → (append h t payload now l).0 ≡ ok e
      → (file' : t.File) × Mirrors file' (append h t payload now l).1
  append-Mirrors payload now file l e d m w =
      let s = append-Stored h t payload now file l e m.on_path w in
      let next = next_entry h t payload now s.signature l in
      let (filled, read) = d.reads next s.line s.rendered in
      (
        s.file',
        subst (λ k. Mirrors s.file' k) s.after
            (record {
              lines = m.lines ++ s.line ∷ [];
              held =
                  sym (ap (λ (o : Result String (Unit {0}) × t.File). t.lines o.1) s.wrote)
                  ∙ d.appends s.line file m.lines m.held (ap (λ o. o.0) s.wrote);
              loaded = load-push h t m.lines s.line l.entries next m.loaded filled read;
              linked =
                  verify_loaded-push h t genesis_hash l.entries next m.linked
                    (ap (λ p. p.1) m.tail ∙ tail_of-head h t 0 genesis_hash l.entries) refl;
              tail = sym (tail_of-push h t 0 genesis_hash l.entries next);
              on_path = refl;
            }),
      )

  -- Appends one after the other, as long as each returns its entry.
  unfoldable pub append_all :
      List (h.Value × String) → AuditLog h t → Result AuditLogError (AuditLog h t)
  append_all [] l = ok l
  append_all ((payload, now) ∷ rest) l =
      let (result, l') = append h t payload now l in result >>= λ e. append_all rest l'

  append_all-Mirrors :
      (ps : List (h.Value × String)) (file : t.File) (l l' : AuditLog h t)
      → IsDurable
      → Mirrors file l
      → append_all ps l ≡ ok l'
      → (file' : t.File) × Mirrors file' l'
  unfolding append_all
  append_all-Mirrors [] file l l' d m w = (file, subst (λ k. Mirrors file k) (ground (arith, w)) m)
  append_all-Mirrors ((payload, now) ∷ rest) file l l' d m w =
      let ((e, good), w') = then_ok _ _ l' w in
      let (file', m') = append-Mirrors payload now file l e d m good in
      append_all-Mirrors rest file' (append h t payload now l).1 l' d m' w'

  of_verified :
      (file : t.File) (s : Signer) (l : AuditLog h t) (lines : List Text) (es : List (LogEntry h))
      → t.lines file ≡ ok lines
      → load h t lines ≡ ok es
      → (r : Result OpenError (Unit {0})) → verify_loaded h t genesis_hash es ≡ r
      → (r >>= λ u. ok (opened h t file s es)) ≡ ok l
      → Mirrors file l
  of_verified file s l lines es p q (err why) v w = ground arith
  of_verified file s l lines es p q (ok u) v w =
      subst (λ k. Mirrors file k) {x = opened h t file s es} (ground (arith, w))
        (record { lines = lines; held = p; loaded = q; linked = v; tail = refl; on_path = refl })

  of_loaded :
      (file : t.File) (s : Signer) (l : AuditLog h t) (lines : List Text)
      → t.lines file ≡ ok lines
      → (r : Result OpenError (List (LogEntry h))) → load h t lines ≡ r
      → (r >>= λ es. verify_loaded h t genesis_hash es >>= λ u. ok (opened h t file s es)) ≡ ok l
      → Mirrors file l
  of_loaded file s l lines p (err why) q w = ground arith
  of_loaded file s l lines p (ok es) q w = of_verified file s l lines es p q _ refl w

  of_lines :
      (file : t.File) (s : Signer) (l : AuditLog h t)
      → (r : Result String (List Text)) → t.lines file ≡ r
      → (map_err io r >>= λ ls. load h t ls >>= λ es.
          verify_loaded h t genesis_hash es >>= λ u. ok (opened h t file s es))
        ≡ ok l
      → Mirrors file l
  of_lines file s l (err why) p w = ground arith
  of_lines file s l (ok ls) p w = of_loaded file s l ls p _ refl w

  pub opened-Mirrors :
      (file : t.File) (s : Signer) (l : AuditLog h t) → open_log h t file s ≡ ok l → Mirrors file l
  unfolding open_log
  opened-Mirrors file s l w = of_lines file s l _ refl w

  -- A log that was opened from a file, and to which any entries were appended, each append
  -- returning its entry, is what opening the file gives after a restart, but for the anchor. It
  -- asks that appended lines stay in the file and that the line of an entry reads back.
  pub open_log-append_all :
      (ps : List (h.Value × String)) (file : t.File) (s : Signer) (l l' : AuditLog h t)
      → IsDurable
      → open_log h t file s ≡ ok l
      → append_all ps l ≡ ok l'
      → (file' : t.File) × (l'.persist_path ≡ some file')
        × (open_log h t file' l'.signer ≡ ok (record l' { anchor = none }))
  open_log-append_all ps file s l l' d o w =
      let (file', m) = append_all-Mirrors ps file l l' d (opened-Mirrors file s l o) w in
      (file', m.on_path, open_log-Mirrors file' l' m)

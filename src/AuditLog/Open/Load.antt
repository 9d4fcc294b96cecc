-- ===== src/AuditLog/Open/Load.antt =====
-- `AuditLog::open` on one more line: what loading, the tail and the check make of it.
use secureops.Prelude.{
  ℕ, ◌+◌, ◌≡◌, ◌≢◌, refl, List, [], ◌∷◌, ◌++◌, String, arith, Result, ok, err, ◌>>=◌, map_err, trim,
  same_iff,
}
use secureops.AuditLog.Types.{Text, Hashing, LogEntry, chain_hash}
use secureops.AuditLog.Log.{u64, Store}
use secureops.AuditLog.Log.Chain.{head}
use secureops.AuditLog.Open.{
  OpenError, broken_at, corrupt_line, cons_ok, load_line, load, tail_of, verify_loaded,
}

module _ (h : Hashing) (t : Store h) where
  parse-push :
      (p : Result String (LogEntry h)) (rest rest' : Result OpenError (List (LogEntry h)))
      (es : List (LogEntry h)) (e : LogEntry h)
      → (map_err corrupt_line p >>= λ d. cons_ok h t d rest) ≡ ok es
      → ((ds : List (LogEntry h)) → rest ≡ ok ds → rest' ≡ ok (ds ++ e ∷ []))
      → (map_err corrupt_line p >>= λ d. cons_ok h t d rest') ≡ ok (es ++ e ∷ [])
  parse-push (err why) rest rest' es e l f = ground arith
  parse-push (ok d) (err why) rest' es e l f = ground arith
  parse-push (ok d) (ok ds) rest' es e l f = rw (f ds refl) (ground (arith, l))

  load_line-push :
      (s : Text) (rest rest' : Result OpenError (List (LogEntry h))) (es : List (LogEntry h))
      (e : LogEntry h)
      → load_line h t s rest ≡ ok es
      → ((ds : List (LogEntry h)) → rest ≡ ok ds → rest' ≡ ok (ds ++ e ∷ []))
      → load_line h t s rest' ≡ ok (es ++ e ∷ [])
  unfolding load_line
  load_line-push [] rest rest' es e l f = f es l
  load_line-push (c ∷ s) rest rest' es e l f =
      parse-push (t.entry_from_str (c ∷ s)) rest rest' es e l f

  load_line-reads :
      (s : Text) (e : LogEntry h)
      → s ≢ []
      → t.entry_from_str s ≡ ok e
      → load_line h t s (ok []) ≡ ok (e ∷ [])
  unfolding load_line
  load_line-reads [] e n r = ground arith
  load_line-reads (c ∷ s) e n r = rw r refl

  pub load-push :
      (ls : List Text) (line : Text) (es : List (LogEntry h)) (e : LogEntry h)
      → load h t ls ≡ ok es
      → trim line ≢ []
      → t.entry_from_str (trim line) ≡ ok e
      → load h t (ls ++ line ∷ []) ≡ ok (es ++ e ∷ [])
  unfolding load
  load-push [] line es e l n r = rw (load_line-reads (trim line) e n r) (ground (arith, l))
  load-push (first ∷ ls) line es e l n r =
      load_line-push (trim first) (load h t ls) _ es e l (λ ds k. load-push ls line ds e k n r)

  pub tail_of-push :
      (n : ℕ) (prev : Text) (es : List (LogEntry h)) (e : LogEntry h)
      → tail_of h t n prev (es ++ e ∷ []) ≡ (u64 (e.seq + 1), e.hash)
  unfolding tail_of
  tail_of-push n prev [] e = refl
  tail_of-push n prev (d ∷ es) e = tail_of-push (u64 (d.seq + 1)) d.hash es e

  pub tail_of-head :
      (n : ℕ) (prev : Text) (es : List (LogEntry h)) → (tail_of h t n prev es).1 ≡ head h t prev es
  unfolding tail_of
  tail_of-head n prev [] = refl
  tail_of-head n prev (d ∷ es) = tail_of-head (u64 (d.seq + 1)) d.hash es

  pub verify_loaded-push :
      (prev : Text) (es : List (LogEntry h)) (e : LogEntry h)
      → verify_loaded h t prev es ≡ ok tt
      → e.prev_hash ≡ head h t prev es
      → chain_hash h e.prev_hash e.payload ≡ e.hash
      → verify_loaded h t prev (es ++ e ∷ []) ≡ ok tt
  unfolding verify_loaded
  verify_loaded-push prev [] e v p c =
      ground
        (arith, same_iff e.prev_hash prev, same_iff (chain_hash h e.prev_hash e.payload) e.hash)
  verify_loaded-push prev (d ∷ es) e v p c = ground (arith, verify_loaded-push d.hash es e, p, c)

  pub verify_loaded-broken :
      (prev : Text) (es : List (LogEntry h)) (e : LogEntry h)
      → verify_loaded h t prev es ≡ ok tt
      → e.prev_hash ≢ head h t prev es
      → verify_loaded h t prev (es ++ e ∷ []) ≡ err (broken_at e.seq)
  unfolding verify_loaded
  verify_loaded-broken prev [] e v p = ground (arith, same_iff e.prev_hash prev, p)
  verify_loaded-broken prev (d ∷ es) e v p = ground (arith, verify_loaded-broken d.hash es e, p)

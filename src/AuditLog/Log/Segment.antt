-- ===== src/AuditLog/Log/Segment.antt =====
-- `AuditLog::export_segment` on a log that verifies, and what `verify_chain` does not read.
use secureops.Prelude.{
  ℕ, zero, suc, ◌+◌, ◌-◌, ◌≤◌, ◌<◌, ◌≡◌, refl, sym, true, ◌&&◌, List, [], ◌∷◌, arith, String, ok,
  err, then_ok, leb, ltb, keep_if, length, take, skip, take-[], skip-[], if◌then◌else◌,
}
use secureops.AuditLog.Types.{Text, invalid_range, Hashing, LogEntry}
use secureops.AuditLog.Signer.{Signer}
use secureops.AuditLog.Log.{
  genesis_hash, Store, AuditLog, check_entry, verify_from, verify_chain, in_range, export_segment,
}
use secureops.AuditLog.Log.Chain.{check_entry-IsGood}

module _ (h : Hashing) (t : Store h) where
  -- The entries from place `from` to place `to`, both included, of a list that starts at `i`.
  pub slice : ℕ → ℕ → ℕ → List (LogEntry h) → List (LogEntry h)
  slice i from to [] = []
  slice i from to (e ∷ es) =
      let rest = slice (suc i) from to es in if leb from i && leb i to then e ∷ rest else rest

  keep_if-slice :
      (s : Signer) (i from to : ℕ) (prev : Text) (es : List (LogEntry h))
      → verify_from h t s i prev es ≡ ok true
      → i + length es < 18446744073709551616
      → keep_if (in_range h t from to) es ≡ slice i from to es
  unfolding verify_from slice
  keep_if-slice s i from to prev [] v b = refl
  keep_if-slice s i from to prev (e ∷ es) v b =
      let ((x, c), rest) = then_ok _ _ true v in
      let good = check_entry-IsGood h t s i prev e x c in
      ground (arith, good.seq, keep_if-slice s (suc i) from to e.hash es rest (omega (arith, b)))

  -- From `from` on, the slice is the first so many entries.
  slice-take :
      (i from to n : ℕ) (es : List (LogEntry h))
      → from ≤ i
      → n ≡ suc to - i
      → slice i from to es ≡ take n es
  unfolding slice
  slice-take i from to n [] b e = sym (take-[] n)
  slice-take i from to zero (d ∷ es) b e =
      ground (arith, slice-take (suc i) from to zero es (omega (arith, b)) (omega (arith, e)))
  slice-take i from to (suc n) (d ∷ es) b e =
      ground (arith, slice-take (suc i) from to n es (omega (arith, b)) (omega (arith, e)))

  slice-skip :
      (i from to k : ℕ) (es : List (LogEntry h))
      → from ≡ k + i
      → slice i from to es ≡ take (suc to - from) (skip k es)
  unfolding slice
  slice-skip i from to k [] e = rw (skip-[] k, take-[] (suc to - from)) refl
  slice-skip i from to zero (d ∷ es) e =
      slice-take i from to (suc to - from) (d ∷ es) (omega (arith, e)) (omega (arith, e))
  slice-skip i from to (suc k) (d ∷ es) e =
      ground (arith, slice-skip (suc i) from to k es (omega (arith, e)))

  -- On a log that passes `verify_chain` and has fewer than 2^64 entries, an exported segment is the
  -- stretch of the log from place `from` to place `to`, both included and cut at the log's end; a
  -- range that ends before it starts is refused.
  pub export_segment-take :
      (l : AuditLog h t) (from to : ℕ)
      → verify_chain h t l ≡ ok true
      → length l.entries < 18446744073709551616
      → export_segment h t from to l ≡ (
          if ltb to from
          then err (invalid_range from to)
          else ok (take (suc to - from) (skip from l.entries)))
  unfolding export_segment verify_chain
  export_segment-take l from to v b =
      rw
        (
          keep_if-slice l.signer 0 from to genesis_hash l.entries v (omega (arith, b)),
          slice-skip 0 from to from l.entries (omega arith),
        )
        refl

  -- The entries with other timestamps, one for each.
  abbrev pub retime : (LogEntry h → String) → List (LogEntry h) → List (LogEntry h)
  retime clock [] = []
  retime clock (e ∷ es) = record e { timestamp = clock e } ∷ retime clock es

  verify_from-retime :
      (clock : LogEntry h → String) (s : Signer) (i : ℕ) (prev : Text) (es : List (LogEntry h))
      → verify_from h t s i prev (retime clock es) ≡ verify_from h t s i prev es
  unfolding verify_from check_entry
  verify_from-retime clock s i prev [] = refl
  verify_from-retime clock s i prev (e ∷ es) =
      rw (verify_from-retime clock s (suc i) e.hash es) refl

  -- Neither the hash nor the signature covers the timestamps: a log whose entries are all given
  -- other times verifies, or fails to, as before.
  pub verify_chain-retime :
      (clock : LogEntry h → String) (l : AuditLog h t)
      → verify_chain h t (record l { entries = retime clock l.entries }) ≡ verify_chain h t l
  unfolding verify_chain
  verify_chain-retime clock l = verify_from-retime clock l.signer 0 genesis_hash l.entries

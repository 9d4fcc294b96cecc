-- ===== src/AuditLog/Log/Tamper.antt =====
-- crates/secureops-auditlog/src/lib.rs: `verify_chain` as evidence: what two verified logs with one head have in common.
use secureops.Prelude.{
  ℕ, suc, ◌≡◌, ◌≢◌, ◌⊎◌, inl, inr, refl, Bool, true, Bool-cases, List, [], ◌∷◌, ◌++◌, arith, ok,
  then_ok, same, same_iff, length,
}
use secureops.AuditLog.Hex.{to_hex-cancel, length-to_hex}
use secureops.AuditLog.Types.{Text, Hashing, HasDigests, canonical, chain_hash, LogEntry}
use secureops.AuditLog.Signer.{Signer}
use secureops.AuditLog.Log.{genesis_hash, Store, AuditLog, check_entry, verify_from, verify_chain}
use secureops.AuditLog.Log.Chain.{head, IsGood, check_entry-IsGood}

append-cancel : (a b c d : Text) → length a ≡ length b → a ++ c ≡ b ++ d → (a ≡ b) × (c ≡ d)
append-cancel [] [] c d n e = (refl, e)
append-cancel [] (y ∷ b) c d n e = ground arith
append-cancel (x ∷ a) [] c d n e = ground arith
append-cancel (x ∷ a) (y ∷ b) c d n e = ground (arith, append-cancel a b c d)

module _ (h : Hashing) (t : Store h) where
  -- The text that SHA-256 is asked for at an entry.
  abbrev pub hashed : LogEntry h → Text
  hashed e = e.prev_hash ++ canonical h e.payload

  -- Two entries that SHA-256 does not tell apart, though it is asked for different texts.
  pub record IsCollision (e f : LogEntry h) : Type 0 where
    pub differ : hashed e ≢ hashed f
    pub agree : h.sha256 (hashed e) ≡ h.sha256 (hashed f)

  -- At some position the entries of two lists collide.
  abbrev pub Collides : List (LogEntry h) → List (LogEntry h) → Type 0
  Collides (e ∷ es) (f ∷ fs) = IsCollision e f ⊎ Collides es fs
  Collides _ _ = ⊥

  -- The canonical text of each payload, in order.
  abbrev pub payloads : List (LogEntry h) → List Text
  payloads [] = []
  payloads (e ∷ es) = canonical h e.payload ∷ payloads es

  chain_hash-IsCollision :
      (e f : LogEntry h)
      → HasDigests h
      → length e.prev_hash ≡ length f.prev_hash
      → chain_hash h e.prev_hash e.payload ≡ chain_hash h f.prev_hash f.payload
      → ((e.prev_hash ≡ f.prev_hash) × (canonical h e.payload ≡ canonical h f.payload))
        ⊎ IsCollision e f
  unfolding chain_hash
  chain_hash-IsCollision e f d n same_hash = elim (Bool-cases (same (hashed e) (hashed f))) [
    | inl eq ↦ inl (
        append-cancel e.prev_hash f.prev_hash _ _ n
          (ground (arith, same_iff (hashed e) (hashed f))))
    | inr ne ↦ inr (record {
      differ = λ x. ground (arith, same_iff (hashed e) (hashed f));
      agree = to_hex-cancel _ _ (d.bytes _) (d.bytes _) same_hash;
    })
  ]

  length-chain_hash : (p : Text) (v : h.Value) → HasDigests h → length (chain_hash h p v) ≡ 64
  unfolding chain_hash
  length-chain_hash p v d =
      omega (arith, length-to_hex (h.sha256 (p ++ canonical h v)), d.width (p ++ canonical h v))

  hash_width :
      (d : HasDigests h) (s : Signer) (i : ℕ) (p : Text) (e : LogEntry h)
      → (b : Bool) × (check_entry h t s i p e ≡ ok b)
      → length e.hash ≡ 64
  hash_width d s i p e (b, c) =
      let good = check_entry-IsGood h t s i p e b c in
      cc (length-chain_hash e.prev_hash e.payload d, good.hash)

  verify_from-Collides :
      (s r : Signer) (i : ℕ) (p q : Text) (es fs : List (LogEntry h))
      → HasDigests h
      → length p ≡ 64
      → length q ≡ 64
      → length es ≡ length fs
      → verify_from h t s i p es ≡ ok true
      → verify_from h t r i q fs ≡ ok true
      → head h t p es ≡ head h t q fs
      → ((p ≡ q) × (payloads es ≡ payloads fs)) ⊎ Collides es fs
  unfolding verify_from
  verify_from-Collides s r i p q [] [] d lp lq n v w e = inl (e, refl)
  verify_from-Collides s r i p q [] (f ∷ fs) d lp lq n v w e = ground arith
  verify_from-Collides s r i p q (e ∷ es) [] d lp lq n v w k = ground arith
  verify_from-Collides s r i p q (e ∷ es) (f ∷ fs) d lp lq n v w k =
      let (ce, ve) = then_ok _ _ true v in
      let (cf, vf) = then_ok _ _ true w in
      step (check_entry-IsGood h t s i p e ce.0 ce.1) (check_entry-IsGood h t r i q f cf.0 cf.1) (
        verify_from-Collides s r (suc i) e.hash f.hash es fs d (hash_width d s i p e ce)
          (hash_width d r i q f cf) (omega (arith, n)) ve vf k)
    where
      step :
          IsGood h t s i p e
          → IsGood h t r i q f
          → ((e.hash ≡ f.hash) × (payloads es ≡ payloads fs)) ⊎ Collides es fs
          → ((p ≡ q) × (payloads (e ∷ es) ≡ payloads (f ∷ fs))) ⊎ Collides (e ∷ es) (f ∷ fs)
      step g g' (inr c) = inr (inr c)
      step g g' (inl (same_hash, same_rest)) =
          elim (chain_hash-IsCollision e f d (cc (lp, lq, g.link, g'.link))
            (cc (g.hash, g'.hash, same_hash))) [
              | inl (same_prev, same_payload) ↦
                  inl (cc (same_prev, g.link, g'.link), cc (same_payload, same_rest))
              | inr c ↦ inr (inl c)
            ]

  -- Tamper evidence, as a reduction: from two logs that both pass `verify_chain`, hold as many
  -- entries as each other and end in the same hash, whatever their signers are, either the payloads
  -- have the same canonical texts, entry by entry, or at some position the two entries are a
  -- collision: SHA-256 was asked for different texts, each a previous hash with its payload, and
  -- gave one digest. It asks that digests are 32 bytes.
  pub verify_chain-Collides :
      (l m : AuditLog h t)
      → HasDigests h
      → verify_chain h t l ≡ ok true
      → verify_chain h t m ≡ ok true
      → length l.entries ≡ length m.entries
      → head h t genesis_hash l.entries ≡ head h t genesis_hash m.entries
      → (payloads l.entries ≡ payloads m.entries) ⊎ Collides l.entries m.entries
  unfolding verify_chain genesis_hash
  verify_chain-Collides l m d v w n e =
      elim (verify_from-Collides l.signer m.signer 0 genesis_hash genesis_hash l.entries m.entries d
        genesis_width genesis_width n v w e) [ inl (p, eq) ↦ inl eq | inr c ↦ inr c ]
    where
      genesis_width : length genesis_hash ≡ 64
      genesis_width = refl

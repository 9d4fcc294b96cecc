-- ===== src/Intel/Feed/Trusted.antt =====
-- What `update_feed` applies, and how the version moves over its calls.
use secureops.Prelude.{
  ℕ, ◌≡◌, refl, subst, ◌⊎◌, inl, inr, Bool, true, false, Option, none, some, List, [], ◌∷◌, arith,
  String, concat, Result, ok, err, bind_ok, str_eq, str_eq_iff, Bool-cases,
}
use secureops.Core.Runtime.{IocDatabase}
use secureops.Intel.Feed.{
  Response, not_modified, success, status, Net, FeedUpdateOutcome, updated, failed, SigPolicy,
  verify, skip_insecure, resolve_sig_policy, feed_url_allowed, str_le, sidecar_ok, check_signature,
  is_rollback, check_version, check_body, check_response, update_feed_inner, update_feed,
  outcome_of, etag,
}

module _ (net : Net) where
  -- The bytes have a sidecar that verifies under the key; or no key is set, and the insecure flag is.
  abbrev pub IsVouched : String → String → Bool → List ℕ → Type 0
  IsVouched url key insecure raw =
      ((key ≡ "") × (insecure ≡ true))
      ⊎ ((sig : List ℕ) × (net.get (concat (url ∷ ".minisig" ∷ [])) none ≡ ok (success sig))
          × (net.verify_minisign key raw sig ≡ ok tt))

  sidecar-vouched :
      (key : String) (raw : List ℕ) (r : Result String Response)
      → sidecar_ok net key raw r ≡ ok tt
      → (sig : List ℕ) × (r ≡ ok (success sig)) × (net.verify_minisign key raw sig ≡ ok tt)
  sidecar-vouched key raw (err e) h = ground arith
  sidecar-vouched key raw (ok (success sig)) h = (sig, refl, h)
  sidecar-vouched key raw (ok not_modified) h = ground arith
  sidecar-vouched key raw (ok (status n)) h = ground arith

  policy-IsVouched :
      (url key : String) (insecure : Bool) (raw : List ℕ) (policy : SigPolicy)
      → resolve_sig_policy key insecure ≡ ok policy
      → check_signature net url raw policy ≡ ok tt
      → IsVouched url key insecure raw
  policy-IsVouched url key insecure raw skip_insecure p s =
      inl (ground (arith, str_eq_iff key "", p))
  policy-IsVouched url key insecure raw (verify k) p s =
      let same_key : k ≡ key = ground (arith, str_eq_iff key "", p) in
      inr (
        sidecar-vouched key raw (net.get (concat (url ∷ ".minisig" ∷ [])) none) (
          subst (λ k. sidecar_ok net k raw (net.get (concat (url ∷ ".minisig" ∷ [])) none) ≡ ok tt)
            {x = k} {y = key} same_key s))

  pub record IsTrusted (url key : String) (insecure : Bool) (current db : IocDatabase)
      : Type 0 where
    pub allowed : feed_url_allowed url insecure ≡ true
    pub raw : List ℕ
    pub vouched : IsVouched url key insecure raw
    pub parsed : net.from_slice raw ≡ some db
    pub newer : is_rollback net current db ≡ false

  check_version-updated :
      (current db : IocDatabase) (new : Option IocDatabase)
      → check_version net current new ≡ ok (updated db)
      → (new ≡ some db) × (is_rollback net current db ≡ false)
  check_version-updated current db none h = ground arith
  check_version-updated current db (some new) h = ground (arith, h)

  check_body-updated :
      (url key : String) (insecure : Bool) (current db : IocDatabase) (raw : List ℕ)
      → check_body net url key insecure current raw ≡ ok (updated db)
      → IsVouched url key insecure raw
        × (net.from_slice raw ≡ some db)
        × (is_rollback net current db ≡ false)
  unfolding check_body
  check_body-updated url key insecure current db raw h =
      let (policy, p, h1) = bind_ok (resolve_sig_policy key insecure) _ (updated db) h in
      let (done, s, v) = bind_ok (check_signature net url raw policy) _ (updated db) h1 in
      let (parsed, newer) = check_version-updated current db (net.from_slice raw) v in
      (policy-IsVouched url key insecure raw policy p s, parsed, newer)

  check_response-IsTrusted :
      (url key : String) (insecure : Bool) (current db : IocDatabase) (r : Result String Response)
      → feed_url_allowed url insecure ≡ true
      → check_response net url key insecure current r ≡ ok (updated db)
      → IsTrusted url key insecure current db
  unfolding check_response
  check_response-IsTrusted url key insecure current db (err e) allowed h = ground (arith, h)
  check_response-IsTrusted url key insecure current db (ok not_modified) allowed h =
      ground (arith, h)
  check_response-IsTrusted url key insecure current db (ok (status n)) allowed h = ground (arith, h)
  check_response-IsTrusted url key insecure current db (ok (success raw)) allowed h =
      let (vouched, parsed, newer) = check_body-updated url key insecure current db raw h in
      record { allowed = allowed; raw = raw; vouched = vouched; parsed = parsed; newer = newer }

  outcome-updated :
      (r : Result String FeedUpdateOutcome) (db : IocDatabase)
      → outcome_of net r ≡ updated db
      → r ≡ ok (updated db)
  outcome-updated (ok o) db h = ground (arith, h)
  outcome-updated (err e) db h = ground (arith, h)

  inner-IsTrusted :
      (url key : String) (insecure : Bool) (current db : IocDatabase)
      → update_feed_inner net url key insecure current ≡ ok (updated db)
      → IsTrusted url key insecure current db
  unfolding update_feed_inner
  inner-IsTrusted url key insecure current db h =
      elim (Bool-cases (feed_url_allowed url insecure)) [
        | inl allowed ↦
            check_response-IsTrusted url key insecure current db
              (net.get url (some (etag net current))) allowed (rw allowed at h)
        | inr refused ↦ ground (arith, refused, rw refused at h)
      ]

  -- Whatever the servers answer, a database that update_feed hands out came from an https URL or under
  -- the insecure flag, is what its bytes parse to, is not below the current version in the order of
  -- texts, and its bytes are signed under the configured key, unless no key is configured and the
  -- insecure flag is set.
  pub update_feed-IsTrusted :
      (url key : String) (insecure : Bool) (current db : IocDatabase)
      → update_feed net url key insecure current ≡ updated db
      → IsTrusted url key insecure current db
  unfolding update_feed
  update_feed-IsTrusted url key insecure current db h =
      inner-IsTrusted url key insecure current db
        (outcome-updated (update_feed_inner net url key insecure current) db h)

  -- The order of versions is that of texts: where the installed version is 1.10.0, a signed feed of
  -- version 1.9.0 is applied, although it is the older one, and where 1.9.0 is installed a signed feed
  -- of version 1.10.0 is refused.
  pub update_feed-version_order :
      (url key : String) (current db : IocDatabase) (raw sig : List ℕ)
      → feed_url_allowed url false ≡ true
      → str_eq key "" ≡ false
      → net.get url (some (etag net current)) ≡ ok (success raw)
      → net.get (concat (url ∷ ".minisig" ∷ [])) none ≡ ok (success sig)
      → net.verify_minisign key raw sig ≡ ok tt
      → net.from_slice raw ≡ some db
      → (current.version ≡ "1.10.0"
          → db.version ≡ "1.9.0"
          → update_feed net url key false current ≡ updated db)
        × (current.version ≡ "1.9.0"
            → db.version ≡ "1.10.0"
            → update_feed net url key false current ≡ failed "feed version not monotonic")
  unfolding update_feed update_feed_inner check_response check_body str_le
  update_feed-version_order url key current db raw sig allowed keyed got side signed parsed = (
    λ old new. rw (allowed, got, keyed, side, signed, parsed, old, new) refl,
    λ old new. rw (allowed, got, keyed, side, signed, parsed, old, new) refl,
  )

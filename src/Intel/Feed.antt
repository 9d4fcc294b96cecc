-- ===== src/Intel/Feed.antt =====
-- crates/secureops-intel/src/lib.rs: `update_feed`. The network, minisign and serde_json are the
-- parameter `net`; the environment gives the key and the insecure flag.
pub mod Trusted
use Prim.Native.Char.{code}
use Prim.Native.String
use secureops.Prelude.{
  ℕ, Bool, true, false, not, ◌&&◌, ◌||◌, Option, none, some, List, [], ◌∷◌, String, concat, Result,
  ok, err, ◌>>=◌, codes, starts_with, ltb, ◌==◌, str_eq, if◌then◌else◌,
}
use secureops.Core.Runtime.{IocDatabase}

pub data Response : Type 0 where
  not_modified : Response
  success : List ℕ → Response
  status : ℕ → Response

pub record Net : Type 0 where
  -- a GET with an `If-None-Match`, where there is one
  pub get : String → Option String → Result String Response
  -- the key, the bytes and the signature's text
  pub verify_minisign : String → List ℕ → List ℕ → Result String (Unit {0})
  pub from_slice : List ℕ → Option IocDatabase

pub data FeedUpdateOutcome : Type 0 where
  kept : FeedUpdateOutcome
  updated : IocDatabase → FeedUpdateOutcome
  failed : String → FeedUpdateOutcome

pub data SigPolicy : Type 0 where
  verify : String → SigPolicy
  skip_insecure : SigPolicy

abbrev pub resolve_sig_policy : String → Bool → Result String SigPolicy
resolve_sig_policy pubkey insecure =
    if not (str_eq pubkey "")
    then ok (verify pubkey)
    else if insecure
    then ok skip_insecure
    else err "no IOC feed public key configured; refusing unsigned update"

-- "https://"
abbrev https : List ℕ
https = 104 ∷ 116 ∷ 116 ∷ 112 ∷ 115 ∷ 58 ∷ 47 ∷ 47 ∷ []

abbrev pub feed_url_allowed : String → Bool → Bool
feed_url_allowed url insecure = insecure || starts_with (codes url) https

-- `a <= b` on texts: by the first code points that differ.
unfoldable pub str_le : List ℕ → List ℕ → Bool
str_le [] b = true
str_le (x ∷ a) [] = false
str_le (x ∷ a) (y ∷ b) = ltb x y || x == y && str_le a b

module _ (net : Net) where
  abbrev pub sidecar_ok : String → List ℕ → Result String Response → Result String (Unit {0})
  sidecar_ok key raw (err e) = err e
  sidecar_ok key raw (ok (success sig)) = net.verify_minisign key raw sig
  sidecar_ok key raw (ok _) = err "signature sidecar not found"

  abbrev pub check_signature : String → List ℕ → SigPolicy → Result String (Unit {0})
  check_signature url raw skip_insecure = ok tt
  check_signature url raw (verify key) =
      sidecar_ok key raw (net.get (concat (url ∷ ".minisig" ∷ [])) none)

  abbrev pub is_rollback : IocDatabase → IocDatabase → Bool
  is_rollback current new =
      not (str_eq current.version "") && str_le (codes new.version) (codes current.version)

  abbrev pub check_version : IocDatabase → Option IocDatabase → Result String FeedUpdateOutcome
  check_version current none = err "feed parse failed"
  check_version current (some new) =
      if is_rollback current new then err "feed version not monotonic" else ok (updated new)

  unfoldable pub check_body :
      String → String → Bool → IocDatabase → List ℕ → Result String FeedUpdateOutcome
  check_body url key insecure current raw = resolve_sig_policy key insecure >>= λ policy.
      check_signature url raw policy >>= λ verified. check_version current (net.from_slice raw)

  unfoldable pub check_response :
      String
      → String
      → Bool
      → IocDatabase
      → Result String Response
      → Result String FeedUpdateOutcome
  unfolding check_body
  check_response url key insecure current (err e) = err e
  check_response url key insecure current (ok not_modified) = ok kept
  check_response url key insecure current (ok (status n)) = err "feed server returned an error"
  check_response url key insecure current (ok (success raw)) =
      check_body url key insecure current raw

  -- `format!("\"{}\"", version)`
  abbrev pub etag : IocDatabase → String
  etag current = concat ("\"" ∷ current.version ∷ "\"" ∷ [])

  unfoldable pub update_feed_inner :
      String → String → Bool → IocDatabase → Result String FeedUpdateOutcome
  unfolding check_response
  update_feed_inner url key insecure current =
      if not (feed_url_allowed url insecure)
      then err "feed URL must be https://"
      else check_response url key insecure current (net.get url (some (etag current)))

  abbrev pub outcome_of : Result String FeedUpdateOutcome → FeedUpdateOutcome
  outcome_of (ok outcome) = outcome
  outcome_of (err e) = failed e

  unfoldable pub update_feed : String → String → Bool → IocDatabase → FeedUpdateOutcome
  update_feed url key insecure current = outcome_of (update_feed_inner url key insecure current)

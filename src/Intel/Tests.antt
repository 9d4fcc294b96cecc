-- ===== src/Intel/Tests.antt =====
-- Runs of the intel crate's tests, and instances of the theorems.
use secureops.Prelude.{
  ◌≡◌, ◌↔◌, refl, some, [], ◌∷◌, String, ok, err, true, false, str_eq, concat, if◌then◌else◌,
}
use secureops.Prelude.Map
use secureops.Prelude.Map.{String-Key}
use secureops.Core.Runtime.{IocDatabase, HashBaseline}
use secureops.Intel.{empty_database, is_known_malicious_domain}
use secureops.Intel.Baseline.{compare_baseline}
use secureops.Intel.Baseline.Compared.{compare_baseline-same}
use secureops.Intel.Feed.{
  Net, success, updated, update_feed, update_feed_inner, check_response, check_body, str_le,
}
use secureops.Intel.Feed.Trusted.{IsTrusted, update_feed-IsTrusted, update_feed-version_order}

abbrev with_domain : IocDatabase
with_domain = record empty_database { malicious_domains = "evil.com" ∷ [] }

domain_test :
    (is_known_malicious_domain with_domain "sub.evil.com" ≡ true)
    × (is_known_malicious_domain with_domain "notevil.com" ≡ false)
unfolding is_known_malicious_domain
domain_test = (refl, refl)

abbrev of_version : String → IocDatabase
of_version v = record empty_database { version = v }

abbrev feed : String
feed = "https://feed"

-- The feed has version 1.9.0, and a sidecar that verifies under the key "k".
abbrev net : Net
net = record {
  get = λ url tag. if str_eq url feed then ok (success (1 ∷ [])) else ok (success (2 ∷ []));
  verify_minisign = λ key raw sig. if str_eq key "k" then ok tt else err "bad key";
  from_slice = λ raw. some (of_version "1.9.0");
}

update_feed-IsTrusted_example :
    IsTrusted net feed "k" false (of_version "1.8.0") (of_version "1.9.0")
unfolding update_feed update_feed_inner check_response check_body concat str_le
update_feed-IsTrusted_example =
    update_feed-IsTrusted net feed "k" false (of_version "1.8.0") (of_version "1.9.0") refl

update_feed-version_order_example :
    update_feed net feed "k" false (of_version "1.10.0") ≡ updated (of_version "1.9.0")
unfolding concat
update_feed-version_order_example =
    (update_feed-version_order net feed "k" (of_version "1.10.0") (of_version "1.9.0") (1 ∷ [])
        (2 ∷ []) refl refl refl refl refl refl).0
      refl refl

abbrev stored : HashBaseline
stored = record { timestamp = "t"; files = ("a", "1") ∷ ("b", "2") ∷ [] }

-- baseline.rs: one file changed, one gone, one new.
compare_test :
    compare_baseline stored (("a", "9") ∷ ("c", "3") ∷ [])
    ≡ record { added = "c" ∷ []; modified = "a" ∷ []; removed = "b" ∷ [] }
unfolding compare_baseline Map.get
compare_test = refl

compare_baseline-same_example :
    (compare_baseline stored (("b", "2") ∷ ("a", "1") ∷ [])
      ≡ record { added = []; modified = []; removed = [] })
    ↔ ((p : String) → Map.get p stored.files ≡ Map.get p (("b", "2") ∷ ("a", "1") ∷ []))
unfolding Map.get Map.IsUnique
compare_baseline-same_example =
    compare_baseline-same stored (("b", "2") ∷ ("a", "1") ∷ []) (refl, (refl, tt))

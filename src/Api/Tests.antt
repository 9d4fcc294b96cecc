-- ===== src/Api/Tests.antt =====
-- Runs of the api crate's tests, and instances of the theorems.
use secureops.Prelude.{
  ℕ, pos, negsuc, ◌-◌, ◌≤◌, ◌≡◌, refl, ap, true, false, none, some, List, [], ◌∷◌, ◌++◌, arith,
  String, ok, err, leb, length, if◌then◌else◌,
}
use secureops.Prelude.Map
use secureops.Prelude.Map.{String-Key}
use secureops.Api.RateLimit.{RateLimiter, new, allow, enforce}
use secureops.Api.RateLimit.Budget.{Call, passed, passed-le}
use secureops.SelfHeal.Types.{Playbook, safe}
use secureops.SelfHeal.Breaker
use secureops.SelfHeal.Breaker.{F32}
use secureops.SelfHeal.Engine
use secureops.SelfHeal.Engine.{CloudBackend}
use secureops.Api.Models.{Finding, FindingFilter, Remediation, Claims, critical, unauthorized}
use secureops.Api.Store
use secureops.Api.Store.{
  Mem, seed_finding, list_findings, set_finding_status, with_status, in_memory,
}
use secureops.Api.Store.Tenants.{
  Write, insert_finding, finding_status, remediation_state, record_rl_feedback, write_all, reads,
  write_all-reads,
}
use secureops.Api.Auth.{
  Crypto, bearer, strip_prefix, verify_jwt, authenticate, forward, allows, allows_role,
}
use secureops.Api.Routes.{Json}
use secureops.Api.Remediations.{find_playbook, find_remediation, Healing, remediation_approve}
use secureops.Api.Remediations.Approved.{IsQueued, remediation_approve-IsQueued}

-- ratelimit.rs: the third request of a client is refused under a limit of two, not one of another.
abbrev after_two : RateLimiter
unfolding allow
after_two = (allow "auth:1.2.3.4" 2 101 (allow "auth:1.2.3.4" 2 100 (new 60 600 2)).1).1

limit_test :
    ((allow "auth:1.2.3.4" 2 102 after_two).0 ≡ false)
    × ((allow "auth:9.9.9.9" 2 102 after_two).0 ≡ true)
    × ((allow "auth:1.2.3.4" 2 160 after_two).0 ≡ true)
unfolding after_two allow Map.get Map.insert
limit_test = (refl, refl, refl)

enforce_test :
    ((enforce "/api/v1/license/activate" "1.2.3.4" 102 (new 60 600 0)).0 ≡ false)
    × ((enforce "/api/v1/findings" "1.2.3.4" 102 (new 60 600 0)).0 ≡ true)
unfolding enforce allow Map.get Map.insert
enforce_test = (refl, refl)

abbrev started : RateLimiter
started = record (new 60 600 30) { windows = ("auth:1.2.3.4", (100, 1)) ∷ [] }

abbrev calls : List Call
calls = ("auth:1.2.3.4", 2, 110) ∷ ("global:1.2.3.4", 600, 111) ∷ ("auth:1.2.3.4", 2, 112) ∷ []

passed-le_example : passed "auth:1.2.3.4" calls started ≤ 2 - 1
unfolding Map.get Map.IsUnique
passed-le_example =
    passed-le "auth:1.2.3.4" 2 100 160 1 calls started (refl, tt) refl refl
      (
        (λ e. refl, omega arith),
        ((λ e. ground (arith, e), omega arith), ((λ e. refl, omega arith), tt)),
      )
      (omega arith)

-- The store: what one tenant writes, another does not see.
abbrev finding : String → ℕ → Finding
finding tenant id = record {
  id = id;
  tenant_id = tenant;
  scan_id = none;
  title = "open bucket";
  severity = critical;
  status = "open";
  cloud = some "aws";
  blast_radius = pos 9;
}

abbrev seeded : Mem
seeded = seed_finding (finding "b" 2) (seed_finding (finding "a" 1) Store.new)

abbrev all_findings : FindingFilter
all_findings = record { severity = none; status = none; limit = pos 0; offset = negsuc 3 }

list_test :
    (list_findings "a" all_findings seeded ≡ finding "a" 1 ∷ [])
    × (list_findings "a" (record all_findings { severity = some "low" }) seeded ≡ [])
    × ((set_finding_status "a" 2 "dismissed" seeded).0 ≡ false)
unfolding list_findings set_finding_status with_status
list_test = (refl, refl, refl)

abbrev others : List Write
others =
    insert_finding (finding "b" 3)
    ∷ finding_status "b" 1 "dismissed"
    ∷ remediation_state "b" 4 "aborted"
    ∷ record_rl_feedback "b"
    ∷ []

write_all-reads_example :
    reads "a" 5 all_findings (write_all others seeded) ≡ reads "a" 5 all_findings seeded
write_all-reads_example =
    write_all-reads "a" 5 all_findings others seeded (refl, (refl, (refl, (tt, tt))))

abbrev claims : Claims
claims = record {
  sub = "user";
  tenant = "a";
  tier = "pro";
  role = "admin";
  features = [];
  iss = "secureops";
  exp = 100;
}

-- A library with one token, 7, that stands for these claims, and one API key.
abbrev tokens : Crypto
tokens = record {
  encode = λ secret c. ok (7 ∷ []);
  decode = λ secret iss now token. if leb now 100 then some claims else none;
  hmac = λ pepper key. key;
}

-- auth.rs: an expired token is refused, with an API key or without.
authenticate_test :
    authenticate tokens in_memory "s" "p" 101 (some (some (bearer ++ 7 ∷ []))) (some none) seeded
    ≡ err (unauthorized "invalid_token")
unfolding authenticate verify_jwt strip_prefix
authenticate_test = refl

-- ws.rs: a subscriber is sent its own tenant's messages and the global ones.
forward_test :
    forward "a" (
      record { tenant = some "a"; payload = "1" }
      ∷ record { tenant = some "b"; payload = "2" }
      ∷ record { tenant = none; payload = "3" }
      ∷ [])
    ≡ "1" ∷ "3" ∷ []
unfolding forward
forward_test = refl

-- authz.rs: community_denied_bughunt, and the admin gate
authz_test :
    (allows [] "bughunt" ≡ false)
    × (allows ("bughunt" ∷ []) "bughunt" ≡ true)
    × (allows_role [] "member" "remediation_admin" ≡ false)
unfolding allows allows_role
authz_test = (refl, refl, refl)

abbrev playbook : Playbook
playbook = record {
  id = "pb";
  matches = [];
  class = safe;
  dry_run = none;
  snapshot = none;
  execute = "noop";
  health_check = none;
  rollback = none;
  audit_required = true;
}

-- A cloud without state, in which every step succeeds.
abbrev noop : Playbook → CloudBackend
noop pb = record {
  Cloud = Unit;
  dry_run = λ step c. (ok "", c);
  snapshot = λ step c. (ok "", c);
  execute = λ step c. (ok "", c);
  health_check = λ step c. (ok true, c);
  rollback = λ step snap c. (ok tt, c);
}

abbrev json : Json
json fields = ""

abbrev rates : F32
rates = record { Float = ℕ; of_usize = λ n. n; div = λ a b. a; gt = λ a b. false }

abbrev remediation : Remediation
remediation = record {
  id = 4;
  finding_id = "f";
  playbook_id = "pb";
  class = "safe";
  state = "pending";
}

abbrev healing : Healing in_memory json (playbook ∷ []) rates noop (λ pb. tt)
healing = record {
  app = record {
    store = record seeded { remediations = ("a", remediation ∷ []) ∷ [] };
    hub = [];
    queue = [];
  };
  breaker = Breaker.new rates 60 1 5;
}

remediation_approve-IsQueued_example :
    (claims.role ≡ "admin")
    × IsQueued in_memory json (playbook ∷ []) rates noop (λ pb. tt) claims 4 healing.app
unfolding find_playbook find_remediation Map.get Engine.run Breaker.is_open Breaker.new
    remediation_approve allows_role
remediation_approve-IsQueued_example =
    remediation_approve-IsQueued in_memory json (playbook ∷ []) rates noop (λ pb. tt) 9 claims 4
      healing
      (λ e. ground (
        arith,
        ap (λ (h : Healing in_memory json (playbook ∷ []) rates noop (λ pb. tt)). length h.app.hub)
            e,
      ))

-- ===== src/Api/Store.antt =====
-- crates/secureops-api/src/store.rs: the `Store` contract and `InMemoryStore`, whose mutex is held for
-- a whole operation. An operation gives its answer and the store after it.
pub mod Tenants
pub mod Pages
use secureops.Prelude.{
  ℕ, ◌+◌, ℤ, pos, negsuc, max_0, Bool, true, false, not, ◌&&◌, Option, none, some, List, [], ◌∷◌,
  ◌++◌, String, Result, ok, keep_if, take, skip, ◌==◌, str_eq, if◌then◌else◌,
}
use secureops.Prelude.Map
use secureops.Prelude.Map.{ℕ-Key, String-Key, Text-Key}
use secureops.Api.License.{License}
use secureops.Api.Models.{
  Scan, Severity, severity_name, Finding, Remediation, Claims, FindingFilter,
}

-- An `anyhow::Error` is its text. A hashed API key is the list of its code points.
abbrev pub Fallible : Type 0 → Type 0
Fallible A = Result String A

-- The persistence contract: its methods over an unknown state.
pub record Store : Type 1 where
  pub State : Type 0
  pub health : State → Bool
  pub lookup_api_key : List ℕ → State → Fallible (Option Claims)
  pub put_license : License → State → Fallible Unit × State
  pub get_license : String → State → Fallible (Option License)
  pub any_license : State → Fallible Bool
  pub create_scan : Scan → State → Fallible Unit × State
  pub get_scan : String → ℕ → State → Fallible (Option Scan)
  pub list_findings : String → FindingFilter → State → Fallible (List Finding)
  pub set_finding_status : String → ℕ → String → State → Fallible Bool × State
  pub insert_finding : Finding → State → Fallible Unit × State
  pub insert_remediation : String → Remediation → State → Fallible Unit × State
  pub list_remediations : String → State → Fallible (List Remediation)
  pub set_remediation_state : String → ℕ → String → State → Fallible Bool × State
  pub record_rl_feedback : String → State → Fallible Unit × State

-- The counter `rl_feedback` is a u64 that no run of the program fills.
pub record Mem : Type 0 where
  pub licenses : List (String × License)
  pub api_keys : List (List ℕ × Claims)
  pub scans : List (ℕ × Scan)
  pub findings : List Finding
  pub remediations : List (String × List Remediation)
  pub rl_feedback : ℕ

-- `InMemoryStore::new`
abbrev pub new : Mem
new = record {
  licenses = [];
  api_keys = [];
  scans = [];
  findings = [];
  remediations = [];
  rl_feedback = 0;
}

abbrev pub with_api_key : List ℕ → Claims → Mem → Mem
with_api_key hashed claims s = record s { api_keys = Map.insert hashed claims s.api_keys }

abbrev pub seed_finding : Finding → Mem → Mem
seed_finding f s = record s { findings = s.findings ++ f ∷ [] }

-- `Option::filter` with the tenant
abbrev pub owned : String → Option Scan → Option Scan
owned tenant none = none
owned tenant (some s) = if str_eq s.tenant_id tenant then some s else none

-- `is_none_or(|s| text == s)`
abbrev pub is_none_or : String → Option String → Bool
is_none_or text none = true
is_none_or text (some s) = str_eq text s

abbrev pub has_severity : FindingFilter → Finding → Bool
has_severity f x = is_none_or (severity_name x.severity) f.severity

abbrev pub has_status : FindingFilter → Finding → Bool
has_status f x = is_none_or x.status f.status

-- The three filters, before pagination.
pub matching : String → FindingFilter → List Finding → List Finding
matching tenant f xs =
    keep_if (has_status f) (keep_if (has_severity f) (keep_if (λ x. str_eq x.tenant_id tenant) xs))

abbrev pub limit_of : ℤ → ℕ
limit_of (pos n) = if n == 0 then 50 else n
limit_of (negsuc n) = 50

unfoldable pub list_findings : String → FindingFilter → Mem → List Finding
unfolding matching
list_findings tenant f s =
    take (limit_of f.limit) (skip (max_0 f.offset) (matching tenant f s.findings))

-- The loop of `set_finding_status`.
abbrev pub is_target : String → ℕ → Finding → Bool
is_target tenant id x = x.id == id && str_eq x.tenant_id tenant

unfoldable pub with_status : String → ℕ → String → List Finding → Bool × List Finding
with_status tenant id status [] = (false, [])
with_status tenant id status (x ∷ xs) =
    let (found, rest) = with_status tenant id status xs in
    if is_target tenant id x then (true, record x { status = status } ∷ xs) else (found, x ∷ rest)

unfoldable pub set_finding_status : String → ℕ → String → Mem → Bool × Mem
unfolding with_status
set_finding_status tenant id status s =
    let (found, findings) = with_status tenant id status s.findings in
    (found, record s { findings = findings })

-- `unwrap_or_default` on a list
abbrev pub or_empty : Option (List Remediation) → List Remediation
or_empty none = []
or_empty (some rs) = rs

-- The first remediation of the id.
unfoldable pub with_state : ℕ → String → List Remediation → Bool × List Remediation
with_state id state [] = (false, [])
with_state id state (r ∷ rs) =
    let (found, rest) = with_state id state rs in
    if r.id == id then (true, record r { state = state } ∷ rs) else (found, r ∷ rest)

abbrev pub put_back : String → Mem → Bool × List Remediation → Bool × Mem
put_back tenant s (found, rs) =
    (found, record s { remediations = Map.insert tenant rs s.remediations })

abbrev pub set_state : String → ℕ → String → Mem → Option (List Remediation) → Bool × Mem
set_state tenant id state s none = (false, s)
set_state tenant id state s (some rs) = put_back tenant s (with_state id state rs)

unfoldable pub set_remediation_state : String → ℕ → String → Mem → Bool × Mem
unfolding with_state
set_remediation_state tenant id state s =
    set_state tenant id state s (Map.get tenant s.remediations)

abbrev is_empty {ℓ} : {A : Type ℓ} → List A → Bool
is_empty [] = true
is_empty (x ∷ xs) = false

abbrev answered {ℓ} : {A S : Type ℓ} → A × S → Result String A × S
answered (a, s) = (ok a, s)

-- `impl Store for InMemoryStore`: nothing fails.
abbrev pub in_memory : Store
in_memory = record {
  State = Mem;
  health = λ s. true;
  lookup_api_key = λ hashed s. ok (Map.get hashed s.api_keys);
  put_license = λ lic s. (ok tt, record s { licenses = Map.insert lic.tenant_id lic s.licenses });
  get_license = λ tenant s. ok (Map.get tenant s.licenses);
  any_license = λ s. ok (not (is_empty s.licenses));
  create_scan = λ scan s. (ok tt, record s { scans = Map.insert scan.id scan s.scans });
  get_scan = λ tenant id s. ok (owned tenant (Map.get id s.scans));
  list_findings = λ tenant f s. ok (list_findings tenant f s);
  set_finding_status = λ tenant id status s. answered (set_finding_status tenant id status s);
  insert_finding = λ finding s. (ok tt, record s { findings = s.findings ++ finding ∷ [] });
  insert_remediation = λ tenant r s. (
    ok tt,
    record s {
      remediations =
          Map.insert tenant (or_empty (Map.get tenant s.remediations) ++ r ∷ []) s.remediations;
    },
  );
  list_remediations = λ tenant s. ok (or_empty (Map.get tenant s.remediations));
  set_remediation_state = λ tenant id state s. answered (set_remediation_state tenant id state s);
  record_rl_feedback = λ tenant s. (ok tt, record s { rl_feedback = s.rl_feedback + 1 });
}

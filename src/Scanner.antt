-- ===== src/Scanner.antt =====
-- crates/secureops-scanner/src/lib.rs: scan jobs, `MockCollector` and the worker's loop. The queue is
-- the list of payloads, the next one first; serde_json is the parameter `parse`.
pub mod Rules
pub mod Worker
mod Tests
use secureops.Prelude.{
  ℕ, ◌+◌, ℤ, pos, Bool, true, false, Option, none, some, List, [], ◌∷◌, ◌++◌, String, Result, ok,
  err, str_eq, if◌then◌else◌,
}
use secureops.Api.Models.{Finding, Severity, critical, high, info}
use secureops.Api.Store.{Store}

pub record ScanJob : Type 0 where
  pub scan_id : ℕ
  pub scope : String
  pub kind : String
  pub tenant_id : Option String

pub record CollectorFinding : Type 0 where
  pub title : String
  pub severity : Severity
  pub cloud : Option String
  pub blast_radius : ℤ

-- `Collector::collect`
abbrev pub Collector : Type 0
Collector = ScanJob → Result String (List CollectorFinding)

abbrev mk : String → Severity → ℕ → String → CollectorFinding
mk cloud sev blast title = record {
  title = title;
  severity = sev;
  cloud = some cloud;
  blast_radius = pos blast;
}

abbrev mock_findings : String → List CollectorFinding
mock_findings scope =
    if str_eq scope "aws"
    then mk "aws" critical 90 "S3 bucket world-readable" ∷ []
    else if str_eq scope "gcp"
    then mk "gcp" high 70 "GCS bucket allUsers reader" ∷ []
    else if str_eq scope "azure"
    then mk "azure" high 65 "NSG opens RDP to 0.0.0.0/0" ∷ []
    else if str_eq scope "all"
    then mk "aws" critical 90 "S3 bucket world-readable"
      ∷ mk "gcp" high 70 "GCS bucket allUsers reader"
      ∷ mk "azure" high 65 "NSG opens RDP to 0.0.0.0/0"
      ∷ []
    else mk "n/a" info 0 "no rules matched for the requested scope" ∷ []

unfoldable pub mock_collector : Collector
mock_collector job = ok (mock_findings job.scope)

abbrev pub tenant_or : String → Option String → String
tenant_or d none = d
tenant_or d (some tenant) = tenant

-- What one call of `process_one` meets: no connection to Redis, no job before the timeout, or a
-- payload.
pub data Poll : Type 0 where
  unreachable : String → Poll
  timeout : Poll
  popped : String → Poll

-- `new_v4` gives the id of the n-th finding that the process makes.
module _ (S : Store) (collect : Collector) (parse : String → Option ScanJob) (new_v4 : ℕ → ℕ)
    (default_tenant : String) where
  -- What the worker changes: the store, and how many ids it has made.
  pub record State : Type 0 where
    pub store : S.State
    pub ids : ℕ

  abbrev pub finding_of : ScanJob → ℕ → CollectorFinding → Finding
  finding_of job n c = record {
    id = new_v4 n;
    tenant_id = tenant_or default_tenant job.tenant_id;
    scan_id = some job.scan_id;
    title = c.title;
    severity = c.severity;
    status = "open";
    cloud = c.cloud;
    blast_radius = c.blast_radius;
  }

  -- An insert that fails is only logged.
  pub persist : ScanJob → List CollectorFinding → State → State
  persist job [] w = w
  persist job (c ∷ cs) w =
      persist job cs
        (record { store = (S.insert_finding (finding_of job w.ids c) w.store).1; ids = w.ids + 1 })

  abbrev pub handle_collected :
      ScanJob → Result String (List CollectorFinding) → State → Result String (Unit {0}) × State
  handle_collected job (err e) w = (err e, w)
  handle_collected job (ok collected) w = (ok tt, persist job collected w)

  abbrev pub handle_job : Option ScanJob → State → Result String (Unit {0}) × State
  handle_job none w = (err "the payload is not a scan job", w)
  handle_job (some job) w = handle_collected job (collect job) w

  unfoldable pub handle_payload : String → State → Result String (Unit {0}) × State
  unfolding persist
  handle_payload payload w = handle_job (parse payload) w

  abbrev pub processed : Result String (Unit {0}) × State → Result String Bool × State
  processed (ok done, w) = (ok true, w)
  processed (err e, w) = (err e, w)

  unfoldable pub process_one : Poll → State → Result String Bool × State
  unfolding handle_payload
  process_one (unreachable e) w = (err e, w)
  process_one timeout w = (ok false, w)
  process_one (popped payload) w = processed (handle_payload payload w)

  -- `run_until`, over what its polls meet before it is cancelled: an error is logged, and the loop
  -- goes on.
  unfoldable pub run_until : List Poll → State → State
  run_until [] w = w
  run_until (poll ∷ polls) w = run_until polls (process_one poll w).1

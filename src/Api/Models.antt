-- ===== src/Api/Models.antt =====
-- crates/secureops-api/src/models.rs and error.rs, and `Claims` of auth.rs: what the handlers and the
-- store exchange. A UUID is a number.
use secureops.Prelude.{ℕ, ℤ, Bool, Option, List, String, str_eq}

pub data ScanStatus : Type 0 where
  queued running completed failed : ScanStatus

pub record Scan : Type 0 where
  pub id : ℕ
  pub tenant_id : String
  pub scope : String
  pub kind : String
  pub status : ScanStatus
  pub created_at : ℕ

pub data Severity : Type 0 where
  critical high medium low info : Severity

-- `format!("{:?}", severity).to_lowercase()`
abbrev pub severity_name : Severity → String
severity_name critical = "critical"
severity_name high = "high"
severity_name medium = "medium"
severity_name low = "low"
severity_name info = "info"

pub record Finding : Type 0 where
  pub id : ℕ
  pub tenant_id : String
  pub scan_id : Option ℕ
  pub title : String
  pub severity : Severity
  pub status : String
  pub cloud : Option String
  pub blast_radius : ℤ

pub record Remediation : Type 0 where
  pub id : ℕ
  pub finding_id : String
  pub playbook_id : String
  pub class : String
  pub state : String

pub record Claims : Type 0 where
  pub sub : String
  pub tenant : String
  pub tier : String
  pub role : String
  pub features : List String
  pub iss : String
  pub exp : ℕ

abbrev pub is_admin : Claims → Bool
is_admin c = str_eq c.role "admin"

pub record FindingFilter : Type 0 where
  pub severity : Option String
  pub status : Option String
  pub limit : ℤ
  pub offset : ℤ

pub data ApiError : Type 0 where
  unauthorized : String → ApiError
  forbidden : String → ApiError
  license : String → ApiError
  bad_request : String → ApiError
  not_found : ApiError
  store_failed : String → ApiError
  internal : String → ApiError

-- The status of the response, its code, and whether it carries `WWW-Authenticate: Bearer`.
abbrev pub into_response : ApiError → ℕ × String × Bool
into_response (unauthorized c) = (401, c, Bool.true)
into_response (forbidden c) = (403, c, Bool.false)
into_response (license c) = (403, c, Bool.false)
into_response (bad_request _) = (400, "bad_request", Bool.false)
into_response not_found = (404, "not_found", Bool.false)
into_response (store_failed _) = (503, "storage_unavailable", Bool.false)
into_response (internal _) = (500, "internal", Bool.false)

-- ===== src/Scanner/Tests.antt =====
-- Runs of the scanner crate's tests, and instances of the theorems.
use secureops.Prelude.{
  ℕ, pos, negsuc, ◌≡◌, ◌↔◌, refl, Option, none, some, List, [], ◌∷◌, ◌++◌, String, true, false, All,
  str_eq, if◌then◌else◌,
}
use secureops.Api.Models.{critical}
use secureops.Api.Store.{new, in_memory}
use secureops.Scanner.{
  ScanJob, Poll, unreachable, timeout, popped, mock_collector, run_until, finding_of,
}
use secureops.Scanner.Rules.{
  S3BucketObservation, SecurityGroupObservation, AccountObservation, range_covers,
}
use secureops.Scanner.Rules.Coverage.{
  evaluate_all, IsPrivate, IsClosed, IsWatched, evaluate_all-clean,
}
use secureops.Scanner.Worker.{found_by_all, run_until-found}

abbrev job : ScanJob
job = record { scan_id = 7; scope = "aws"; kind = "scan"; tenant_id = some "acme" }

abbrev parse_job : String → Option ScanJob
parse_job payload = if str_eq payload "job" then some job else none

abbrev ids : ℕ → ℕ
ids n = n

-- lib.rs: a payload that is not a job, and a Redis that is down, do not stop the worker.
abbrev polls : List Poll
polls = popped "nonsense" ∷ unreachable "connection refused" ∷ popped "job" ∷ timeout ∷ []

worker_test :
    found_by_all mock_collector parse_job ids "default" 0 polls
    ≡ finding_of in_memory mock_collector parse_job ids "default" job 0 (record {
      title = "S3 bucket world-readable";
      severity = critical;
      cloud = some "aws";
      blast_radius = pos 90;
    })
      ∷ []
unfolding mock_collector
worker_test = refl

run_until-found_example :
    (run_until in_memory mock_collector parse_job ids "default" polls
      (record { store = new; ids = 0 })).store
    ≡ record new { findings = [] ++ found_by_all mock_collector parse_job ids "default" 0 polls }
run_until-found_example =
    run_until-found mock_collector parse_job ids "default" polls (record { store = new; ids = 0 })

abbrev bucket : S3BucketObservation
bucket = record { name = "logs"; public_access_block_all = some true; encrypted = true }

abbrev group : SecurityGroupObservation
group = record {
  id = "sg-1";
  name = "web";
  world_open =
      record { from = pos 20; to = pos 25; cidr = "0.0.0.0/0" }
      ∷ record { from = pos 443; to = pos 443; cidr = "::/0" }
      ∷ record { from = negsuc 0; to = negsuc 0; cidr = "0.0.0.0/0" }
      ∷ [];
}

abbrev account : AccountObservation
account = record { cloudtrail_trail_count = 1; root_mfa_enabled = none }

-- aws_rules.rs: ssh_range_and_all_traffic
range_test :
    (range_covers (pos 20) (pos 25) (pos 22) ≡ true)
    × (range_covers (negsuc 0) (negsuc 0) (pos 3389) ≡ true)
    × (range_covers (pos 443) (pos 443) (pos 22) ≡ false)
unfolding range_covers
range_test = (refl, refl, refl)

evaluate_all-clean_example :
    (evaluate_all (bucket ∷ []) [] account ≡ [])
    ↔ (All IsPrivate (bucket ∷ []) × All IsClosed [] × IsWatched account)
evaluate_all-clean_example = evaluate_all-clean (bucket ∷ []) [] account

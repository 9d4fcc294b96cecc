-- ===== src/Scanner/Worker.antt =====
-- The worker over the in-memory store: what a run of it stores.
use secureops.Prelude.{
  ℕ, suc, ◌+◌, ◌≡◌, refl, ap, ◌∙◌, Option, none, some, List, [], ◌∷◌, ◌++◌, arith, String, Result,
  ok, err, length,
}
use mathlib.Core.List.{append-nil, append_assoc}
use secureops.Api.Models.{Finding}
use secureops.Api.Store.{in_memory}
use secureops.Scanner.{
  ScanJob, CollectorFinding, Collector, Poll, unreachable, timeout, popped, State, tenant_or,
  finding_of, persist, handle_collected, handle_job, handle_payload, process_one, processed,
  run_until,
}

module _ (collect : Collector) (parse : String → Option ScanJob) (new_v4 : ℕ → ℕ)
    (tenant : String) where
  -- The tenant that a job names, or else the worker's.
  abbrev pub owner : Option String → String
  owner none = tenant
  owner (some name) = name

  -- The row of a collector's finding: open, of the job's tenant and scan.
  abbrev pub row : ScanJob → ℕ → CollectorFinding → Finding
  row job n c = record {
    id = new_v4 n;
    tenant_id = owner job.tenant_id;
    scan_id = some job.scan_id;
    title = c.title;
    severity = c.severity;
    status = "open";
    cloud = c.cloud;
    blast_radius = c.blast_radius;
  }

  owner_same : (o : Option String) → tenant_or tenant o ≡ owner o
  owner_same none = refl
  owner_same (some name) = refl

  finding_of-row :
      (job : ScanJob) (n : ℕ) (c : CollectorFinding)
      → finding_of in_memory collect parse new_v4 tenant job n c ≡ row job n c
  finding_of-row job n c =
      ap (λ t. record (row job n c) { tenant_id = t }) (owner_same job.tenant_id)

  -- The findings of a job, whose ids are made from the n-th on.
  abbrev pub numbered : ScanJob → ℕ → List CollectorFinding → List Finding
  numbered job n [] = []
  numbered job n (c ∷ cs) = row job n c ∷ numbered job (n + 1) cs

  abbrev collected_of : ScanJob → ℕ → Result String (List CollectorFinding) → List Finding × ℕ
  collected_of job n (err e) = ([], n)
  collected_of job n (ok cs) = (numbered job n cs, n + length cs)

  abbrev job_of : ℕ → Option ScanJob → List Finding × ℕ
  job_of n none = ([], n)
  job_of n (some job) = collected_of job n (collect job)

  -- What a poll comes to, and the next id: nothing, unless it pops a job that can be read and whose
  -- collector succeeds.
  abbrev pub found_by : ℕ → Poll → List Finding × ℕ
  found_by n (unreachable e) = ([], n)
  found_by n timeout = ([], n)
  found_by n (popped payload) = job_of n (parse payload)

  abbrev pub found_by_all : ℕ → List Poll → List Finding
  found_by_all n [] = []
  found_by_all n (poll ∷ polls) = (found_by n poll).0 ++ found_by_all (found_by n poll).1 polls

  abbrev Worker : Type 0
  Worker = State in_memory collect parse new_v4 tenant

  abbrev stored_in : Worker → List Finding × ℕ → Worker
  stored_in w (fs, n) = record {
    store = record w.store { findings = w.store.findings ++ fs };
    ids = n;
  }

  persist-numbered :
      (job : ScanJob) (cs : List CollectorFinding) (w : Worker)
      → persist in_memory collect parse new_v4 tenant job cs w
        ≡ stored_in w (numbered job w.ids cs, w.ids + length cs)
  unfolding persist
  persist-numbered job [] w =
      let count : w.ids + 0 ≡ w.ids = omega arith in rw (append-nil w.store.findings, count) refl
  persist-numbered job (c ∷ cs) w =
      let f = row job w.ids c in
      let rest = numbered job (w.ids + 1) cs in
      let count : w.ids + 1 + length cs ≡ w.ids + suc (length cs) = omega arith in
      ap
        (λ g. persist in_memory collect parse new_v4 tenant job cs (record {
          store = record w.store { findings = w.store.findings ++ g ∷ [] };
          ids = w.ids + 1;
        }))
        (finding_of-row job w.ids c)
      ∙ persist-numbered job cs (record {
        store = record w.store { findings = w.store.findings ++ f ∷ [] };
        ids = w.ids + 1;
      })
      ∙ rw (append_assoc w.store.findings (f ∷ []) rest, count) refl

  unchanged : (w : Worker) → w ≡ stored_in w ([], w.ids)
  unchanged w = rw (append-nil w.store.findings) refl

  collected-stored :
      (job : ScanJob) (r : Result String (List CollectorFinding)) (w : Worker)
      → (handle_collected in_memory collect parse new_v4 tenant job r w).1
        ≡ stored_in w (collected_of job w.ids r)
  collected-stored job (err e) w = unchanged w
  collected-stored job (ok cs) w = persist-numbered job cs w

  job-stored :
      (job : Option ScanJob) (w : Worker)
      → (handle_job in_memory collect parse new_v4 tenant job w).1 ≡ stored_in w (job_of w.ids job)
  job-stored none w = unchanged w
  job-stored (some job) w = collected-stored job (collect job) w

  processed-state :
      (r : Result String (Unit {0}) × Worker)
      → (processed in_memory collect parse new_v4 tenant r).1 ≡ r.1
  processed-state (ok done, w) = refl
  processed-state (err e, w) = refl

  process_one-stored :
      (poll : Poll) (w : Worker)
      → (process_one in_memory collect parse new_v4 tenant poll w).1
        ≡ stored_in w (found_by w.ids poll)
  unfolding process_one handle_payload
  process_one-stored (unreachable e) w = unchanged w
  process_one-stored timeout w = unchanged w
  process_one-stored (popped payload) w =
      processed-state (handle_job in_memory collect parse new_v4 tenant (parse payload) w)
      ∙ job-stored (parse payload) w

  -- Whatever the polls of a worker meet, over the in-memory store, failed connections, unreadable
  -- payloads and failing collectors included: the worker goes on, and it stores, in the order of the
  -- polls and after what was there, one open finding of the job's tenant (or the worker's own) and scan for each finding
  -- that the collector gives for a job that can be read, and changes nothing else in the store.
  pub run_until-found :
      (polls : List Poll) (w : Worker)
      → (run_until in_memory collect parse new_v4 tenant polls w).store
        ≡ record w.store { findings = w.store.findings ++ found_by_all w.ids polls }
  unfolding run_until
  run_until-found [] w = rw (append-nil w.store.findings) refl
  run_until-found (poll ∷ polls) w =
      ap (λ v. (run_until in_memory collect parse new_v4 tenant polls v).store)
        (process_one-stored poll w)
      ∙ run_until-found polls (stored_in w (found_by w.ids poll))
      ∙ rw
          (append_assoc w.store.findings (found_by w.ids poll).0
            (found_by_all (found_by w.ids poll).1 polls))
          refl

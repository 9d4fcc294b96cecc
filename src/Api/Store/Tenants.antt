-- ===== src/Api/Store/Tenants.antt =====
-- `InMemoryStore`: what one tenant reads while others write.
use secureops.Prelude.{
  ℕ, ◌≡◌, refl, ◌∙◌, false, Option, none, some, List, [], ◌∷◌, ◌++◌, arith, String, All, keep_if,
  ◌==◌, str_eq, str_eq_iff,
}
use secureops.Prelude.Map
use secureops.Prelude.Map.{ℕ-Key, String-Key}
use secureops.Api.License.{License}
use secureops.Api.Models.{Scan, Finding, Remediation, FindingFilter}
use secureops.Api.Store.{
  Fallible, Mem, matching, with_status, with_state, set_state, or_empty, list_findings,
  set_finding_status, set_remediation_state, in_memory,
}

-- The writing methods.
pub data Write : Type 0 where
  put_license : License → Write
  create_scan : Scan → Write
  finding_status : String → ℕ → String → Write
  insert_finding : Finding → Write
  insert_remediation : String → Remediation → Write
  remediation_state : String → ℕ → String → Write
  record_rl_feedback : String → Write

pub write : Write → Mem → Mem
write (put_license lic) s = (in_memory.put_license lic s).1
write (create_scan scan) s = (in_memory.create_scan scan s).1
write (finding_status tenant id status) s = (in_memory.set_finding_status tenant id status s).1
write (insert_finding f) s = (in_memory.insert_finding f s).1
write (insert_remediation tenant r) s = (in_memory.insert_remediation tenant r s).1
write (remediation_state tenant id state) s = (in_memory.set_remediation_state tenant id state s).1
write (record_rl_feedback tenant) s = (in_memory.record_rl_feedback tenant s).1

pub write_all : List Write → Mem → Mem
write_all [] s = s
write_all (w ∷ ws) s = write_all ws (write w s)

-- The write is another tenant's, and stores no scan under the id.
abbrev pub IsForeign : String → ℕ → Write → Type 0
IsForeign t id (put_license lic) = str_eq lic.tenant_id t ≡ false
IsForeign t id (create_scan scan) = (str_eq scan.tenant_id t ≡ false) × ((scan.id == id) ≡ false)
IsForeign t id (finding_status tenant _ _) = str_eq tenant t ≡ false
IsForeign t id (insert_finding f) = str_eq f.tenant_id t ≡ false
IsForeign t id (insert_remediation tenant r) = str_eq tenant t ≡ false
IsForeign t id (remediation_state tenant _ _) = str_eq tenant t ≡ false
IsForeign t id (record_rl_feedback tenant) = Unit

abbrev own : String → List Finding → List Finding
own t = keep_if (λ x. str_eq x.tenant_id t)

own-insert :
    (t : String) (f : Finding) (xs : List Finding)
    → str_eq f.tenant_id t ≡ false
    → own t (xs ++ f ∷ []) ≡ own t xs
own-insert t f [] h = rw h refl
own-insert t f (x ∷ xs) h = rw (own-insert t f xs h) refl

own-with_status :
    (t tenant : String) (id : ℕ) (status : String) (xs : List Finding)
    → str_eq tenant t ≡ false
    → own t (with_status tenant id status xs).1 ≡ own t xs
unfolding with_status
own-with_status t tenant id status [] h = refl
own-with_status t tenant id status (x ∷ xs) h = ground (
  arith,
  own-with_status t tenant id status xs h,
  str_eq_iff x.tenant_id tenant,
  str_eq_iff x.tenant_id t,
)

-- The five reads of a tenant.
pub record Reads : Type 0 where
  pub license : Fallible (Option License)
  pub scan : Fallible (Option Scan)
  pub findings : Fallible (List Finding)
  pub remediations : Fallible (List Remediation)

abbrev pub reads : String → ℕ → FindingFilter → Mem → Reads
reads t id f s = record {
  license = in_memory.get_license t s;
  scan = in_memory.get_scan t id s;
  findings = in_memory.list_findings t f s;
  remediations = in_memory.list_remediations t s;
}

set_state-reads :
    (t : String) (id : ℕ) (f : FindingFilter) (tenant : String) (j : ℕ) (state : String) (s : Mem)
    → str_eq tenant t ≡ false
    → (found : Option (List Remediation))
    → reads t id f (set_state tenant j state s found).1 ≡ reads t id f s
unfolding list_findings
set_state-reads t id f tenant j state s h none = refl
set_state-reads t id f tenant j state s h (some rs) =
    rw (Map.get-insert tenant t (with_state j state rs).1 s.remediations, h) refl

write-reads :
    (t : String) (id : ℕ) (f : FindingFilter) (w : Write) (s : Mem)
    → IsForeign t id w
    → reads t id f (write w s) ≡ reads t id f s
unfolding write list_findings matching set_finding_status set_remediation_state
write-reads t id f (put_license lic) s h =
    rw (Map.get-insert lic.tenant_id t lic s.licenses, h) refl
write-reads t id f (create_scan scan) s h = rw (Map.get-insert scan.id id scan s.scans, h.1) refl
write-reads t id f (finding_status tenant j status) s h =
    rw (own-with_status t tenant j status s.findings h) refl
write-reads t id f (insert_finding x) s h = rw (own-insert t x s.findings h) refl
write-reads t id f (insert_remediation tenant r) s h =
    rw
      (
        Map.get-insert tenant t (or_empty (Map.get tenant s.remediations) ++ r ∷ []) s.remediations,
        h,
      )
      refl
write-reads t id f (remediation_state tenant j state) s h =
    set_state-reads t id f tenant j state s h (Map.get tenant s.remediations)
write-reads t id f (record_rl_feedback tenant) s h = refl

-- Whatever other tenants write to the in-memory store, in any order, a tenant reads what it read
-- before: its license, its findings under every filter and page, its remediations, and every scan
-- under whose id none of those writes stores one.
pub write_all-reads :
    (t : String) (id : ℕ) (f : FindingFilter) (ws : List Write) (s : Mem)
    → All (IsForeign t id) ws
    → reads t id f (write_all ws s) ≡ reads t id f s
unfolding write_all
write_all-reads t id f [] s h = refl
write_all-reads t id f (w ∷ ws) s h =
    write_all-reads t id f ws (write w s) h.1 ∙ write-reads t id f w s h.0

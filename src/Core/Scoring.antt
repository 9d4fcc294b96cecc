-- ===== src/Core/Scoring.antt =====
-- crates/secureops-core/src/scoring.rs: the score, the summary and the cross-layer pass.
pub mod Score
pub mod Layers
use secureops.Prelude.{
  ℕ, suc, ◌+◌, ◌-◌, ◌%◌, Bool, true, false, Option, none, some, List, [], ◌∷◌, map, String, ltb,
  leb, ◌==◌, if◌then◌else◌, length, concat, show, join,
}
use secureops.Core.Types.{
  Severity, critical, high, medium, low, info, MaestroLayer, l1, l2, l3, l4, l5, l6, l7,
  layer_as_str, evasion, AuditFinding, AuditSummary, builder,
}

unfoldable pub severity_deduction : Severity → ℕ
severity_deduction critical = 15
severity_deduction high = 8
severity_deduction medium = 3
severity_deduction low = 1
severity_deduction info = 0

abbrev pub i32_mod : ℕ
i32_mod = 4294967296

abbrev pub i32_half : ℕ
i32_half = 2147483648

-- `score -= d` on an `i32`, as the bit pattern of the two's complement.
pub i32_sub : ℕ → ℕ → ℕ
i32_sub score d = (score + i32_mod - d) % i32_mod

pub deduct : ℕ → List AuditFinding → ℕ
unfolding i32_sub severity_deduction
deduct score [] = score
deduct score (f ∷ fs) = deduct (i32_sub score (severity_deduction f.severity)) fs

-- `score.max(0) as u32`
pub max_zero : ℕ → ℕ
max_zero score = if ltb score i32_half then score else 0

unfoldable pub calculate_score : List AuditFinding → ℕ
unfolding deduct max_zero
calculate_score fs = max_zero (deduct 100 fs)

-- `+= 1` on a `u32`
pub bump : ℕ → ℕ
bump n = (n + 1) % i32_mod

pub tally_severity : AuditSummary → Severity → AuditSummary
unfolding bump
tally_severity s critical = record s { critical = bump s.critical }
tally_severity s high = record s { high = bump s.high }
tally_severity s medium = record s { medium = bump s.medium }
tally_severity s low = record s { low = bump s.low }
tally_severity s info = record s { info = bump s.info }

pub tally_fixable : AuditSummary → Bool → AuditSummary
unfolding bump
tally_fixable s true = record s { auto_fixable = bump s.auto_fixable }
tally_fixable s false = s

pub tally : AuditSummary → List AuditFinding → AuditSummary
unfolding tally_severity tally_fixable
tally s [] = s
tally s (f ∷ fs) = tally (tally_fixable (tally_severity s f.severity) f.auto_fixable) fs

abbrev pub no_findings : AuditSummary
no_findings = record { critical = 0; high = 0; medium = 0; low = 0; info = 0; auto_fixable = 0 }

pub compute_summary : List AuditFinding → AuditSummary
unfolding tally
compute_summary fs = tally no_findings fs

-- The derived order of `MaestroLayer`.
unfoldable pub rank : MaestroLayer → ℕ
rank l1 = 1
rank l2 = 2
rank l3 = 3
rank l4 = 4
rank l5 = 5
rank l6 = 6
rank l7 = 7

-- `BTreeSet::insert`, on the sorted list of the set's elements.
pub insert : MaestroLayer → List MaestroLayer → List MaestroLayer
insert l [] = l ∷ []
insert l (k ∷ ks) =
    let rest = insert l ks in
    if ltb (rank l) (rank k) then l ∷ k ∷ ks else if rank l == rank k then k ∷ ks else k ∷ rest

-- `f.severity != Severity::Info`
abbrev pub is_info : Severity → Bool
is_info info = true
is_info _ = false

pub affect : Option MaestroLayer → Severity → List MaestroLayer → List MaestroLayer
unfolding insert
affect none severity layers = layers
affect (some l) severity layers = if is_info severity then layers else insert l layers

pub collect : List MaestroLayer → List AuditFinding → List MaestroLayer
unfolding affect
collect layers [] = layers
collect layers (f ∷ fs) = collect (affect f.maestro_layer f.severity layers) fs

pub cross_finding : List MaestroLayer → AuditFinding
unfolding builder concat show join layer_as_str
cross_finding affected =
    let layers = join ", " (map layer_as_str affected) in
    record (builder "SC-CROSS-001" high "cross-layer") {
      title = "Cross-layer compound attack surface detected";
      description = concat (
          "Findings span "
          ∷ show (length affected)
          ∷ " MAESTRO layers ("
          ∷ layers
          ∷ "). Compound attack surfaces enable chained exploits (e.g., supply chain → agent compromise → credential theft)."
          ∷ []);
      evidence = concat ("Affected layers: " ∷ layers ∷ []);
      remediation =
          "Address findings in each affected layer to reduce the compound attack surface. Prioritize layers with CRITICAL/HIGH findings.";
      references =
          "https://cloudsecurityalliance.org/blog/2025/02/06/agentic-ai-threat-modeling-framework-maestro"
          ∷ [];
      owasp_asi = "ASI10";
      maestro_layer = some l6;
      nist_category = some evasion;
    }

unfoldable pub cross_layer_risk : List AuditFinding → List AuditFinding
unfolding collect cross_finding
cross_layer_risk fs =
    let affected = collect [] fs in
    if leb 3 (length affected) then cross_finding affected ∷ [] else []

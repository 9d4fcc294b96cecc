-- ===== src/Core/Scoring/Score.antt =====
-- scoring.rs: the score and the summary against sums over the findings.
use secureops.Prelude.{
  ℕ, ◌+◌, ◌-◌, ◌*◌, ◌%◌, ◌≤◌, ◌<◌, ◌≡◌, Bool, true, false, List, [], ◌∷◌, arith, length,
  if◌then◌else◌,
}
use secureops.Core.Types.{Severity, critical, high, medium, low, info, AuditFinding, AuditSummary}
use secureops.Core.Scoring.{
  severity_deduction, i32_mod, i32_sub, deduct, max_zero, calculate_score, bump, tally_severity,
  tally_fixable, tally, no_findings, compute_summary,
}

-- The sum of the deductions.
abbrev pub total : List AuditFinding → ℕ
total [] = 0
total (f ∷ fs) = severity_deduction f.severity + total fs

deduction-le : (s : Severity) → severity_deduction s ≤ 15
unfolding severity_deduction
deduction-le s = ground arith

deduct-total :
    (d : ℕ) (fs : List AuditFinding)
    → d + total fs ≤ 2147483748
    → deduct ((100 + i32_mod - d) % i32_mod) fs ≡ (100 + i32_mod - (d + total fs)) % i32_mod
unfolding deduct i32_sub
deduct-total d [] h = omega arith
deduct-total d (f ∷ fs) h =
    let e : i32_sub ((100 + i32_mod - d) % i32_mod) (severity_deduction f.severity)
        ≡ (100 + i32_mod - (d + severity_deduction f.severity)) % i32_mod =
      omega (arith, deduction-le f.severity) in
    rw (e, deduct-total (d + severity_deduction f.severity) fs (omega arith)) (omega arith)

max_zero-wrapped :
    (d : ℕ) → d ≤ 2147483748 → max_zero ((100 + i32_mod - (0 + d)) % i32_mod) ≡ 100 - d
unfolding max_zero
max_zero-wrapped d h = ground arith

-- As long as the deductions sum to at most 2^31 + 100, where the `i32` cannot wrap, the score is 100
-- less that sum, and 0 where the sum passes 100.
pub calculate_score-total :
    (fs : List AuditFinding) → total fs ≤ 2147483748 → calculate_score fs ≡ 100 - total fs
unfolding calculate_score
calculate_score-total fs h =
    let e : deduct 100 fs ≡ (100 + i32_mod - (0 + total fs)) % i32_mod =
      deduct-total 0 fs (omega arith) in
    rw e (max_zero-wrapped (total fs) h)

-- The findings of a severity, counted.
abbrev pub same_severity : Severity → Severity → Bool
same_severity critical critical = true
same_severity high high = true
same_severity medium medium = true
same_severity low low = true
same_severity info info = true
same_severity _ _ = false

abbrev pub count : Severity → List AuditFinding → ℕ
count s [] = 0
count s (f ∷ fs) = let rest = count s fs in if same_severity f.severity s then rest + 1 else rest

abbrev pub count_fixable : List AuditFinding → ℕ
count_fixable [] = 0
count_fixable (f ∷ fs) = let rest = count_fixable fs in if f.auto_fixable then rest + 1 else rest

-- What `tally` adds to a summary.
record Adds (s : AuditSummary) (fs : List AuditFinding) (t : AuditSummary) : Type 0 where
  criticals : t.critical ≡ (s.critical + count critical fs) % i32_mod
  highs : t.high ≡ (s.high + count high fs) % i32_mod
  mediums : t.medium ≡ (s.medium + count medium fs) % i32_mod
  lows : t.low ≡ (s.low + count low fs) % i32_mod
  infos : t.info ≡ (s.info + count info fs) % i32_mod
  fixables : t.auto_fixable ≡ (s.auto_fixable + count_fixable fs) % i32_mod

record Fits (s : AuditSummary) : Type 0 where
  criticals : s.critical < i32_mod
  highs : s.high < i32_mod
  mediums : s.medium < i32_mod
  lows : s.low < i32_mod
  infos : s.info < i32_mod
  fixables : s.auto_fixable < i32_mod

tally_severity-Fits : (s : AuditSummary) (v : Severity) → Fits s → Fits (tally_severity s v)
unfolding tally_severity bump
tally_severity-Fits s critical h = omega arith
tally_severity-Fits s _ h = omega arith

tally_fixable-Fits : (s : AuditSummary) (b : Bool) → Fits s → Fits (tally_fixable s b)
unfolding tally_fixable bump
tally_fixable-Fits s true h = omega arith
tally_fixable-Fits s false h = h

-- One finding, counted first by the step and then by the sums.
Adds-cons :
    (s : AuditSummary) (f : AuditFinding) (fs : List AuditFinding) (t : AuditSummary)
    → Adds (tally_fixable (tally_severity s f.severity) f.auto_fixable) fs t
    → Adds s (f ∷ fs) t
unfolding tally_severity tally_fixable bump
Adds-cons s f fs t h = ground arith

tally-Adds : (s : AuditSummary) (fs : List AuditFinding) → Fits s → Adds s fs (tally s fs)
unfolding tally
tally-Adds s [] h = omega arith
tally-Adds s (f ∷ fs) h = Adds-cons s f fs _ (
    tally-Adds (tally_fixable (tally_severity s f.severity) f.auto_fixable) fs
      (tally_fixable-Fits _ f.auto_fixable (tally_severity-Fits s f.severity h)))

count-sum :
    (fs : List AuditFinding)
    → count critical fs + count high fs + count medium fs + count low fs + count info fs ≡ length fs
count-sum [] = omega arith
count-sum (f ∷ fs) = ground (arith, count-sum fs)

total-count :
    (fs : List AuditFinding)
    → total fs ≡ 15 * count critical fs + 8 * count high fs + 3 * count medium fs + count low fs
unfolding severity_deduction
total-count [] = omega arith
total-count (f ∷ fs) = ground (arith, total-count fs)

-- What `compute_summary` returns for fewer than 2^32 findings: each field is the number of findings
-- of its severity, or of the auto-fixable ones, and the five severities add up to all findings.
pub record Counts (fs : List AuditFinding) (s : AuditSummary) : Type 0 where
  pub criticals : s.critical ≡ count critical fs
  pub highs : s.high ≡ count high fs
  pub mediums : s.medium ≡ count medium fs
  pub lows : s.low ≡ count low fs
  pub infos : s.info ≡ count info fs
  pub fixables : s.auto_fixable ≡ count_fixable fs
  pub sums : s.critical + s.high + s.medium + s.low + s.info ≡ length fs

count_fixable-le : (fs : List AuditFinding) → count_fixable fs ≤ length fs
count_fixable-le [] = omega arith
count_fixable-le (f ∷ fs) = ground (arith, count_fixable-le fs)

-- For fewer than 2^32 findings each field of the summary counts the findings of its severity, or
-- the auto-fixable ones, and the five severities add up to the number of findings.
pub compute_summary-Counts :
    (fs : List AuditFinding) → length fs < i32_mod → Counts fs (compute_summary fs)
unfolding compute_summary
compute_summary-Counts fs h =
    let a : Adds no_findings fs (tally no_findings fs) = tally-Adds no_findings fs (omega arith) in
    omega (arith, count-sum fs, count_fixable-le fs)

-- For at most 143165576 findings, which the `i32` holds whatever their severities, the score is
-- computed from the summary alone: 100 less 15, 8, 3 and 1 for each critical, high, medium and low
-- finding, or 0 where that would be negative.
pub calculate_score-compute_summary :
    (fs : List AuditFinding)
    → length fs ≤ 143165576
    → calculate_score fs
      ≡ 100
        - (15 * (compute_summary fs).critical
            + 8 * (compute_summary fs).high
            + 3 * (compute_summary fs).medium
            + (compute_summary fs).low)
calculate_score-compute_summary fs h =
    let c : Counts fs (compute_summary fs) = compute_summary-Counts fs (omega arith) in
    omega (
      arith,
      count-sum fs,
      total-count fs,
      calculate_score-total fs (omega (arith, count-sum fs, total-count fs)),
    )

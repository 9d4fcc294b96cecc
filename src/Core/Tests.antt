-- ===== src/Core/Tests.antt =====
-- Runs of scoring.rs's own tests, and instances of the theorems.
use secureops.Prelude.{◌≡◌, refl, Bool, true, false, Option, some, List, [], ◌∷◌, map}
use secureops.Core.Types.{
  Severity, critical, high, medium, info, MaestroLayer, l1, l3, l4, l7, AuditFinding, builder,
}
use secureops.Core.Scoring.{rank, calculate_score, cross_layer_risk}

abbrev finding : Severity → Option MaestroLayer → Bool → AuditFinding
unfolding builder
finding sev layer auto = record (builder "SC-TEST-001" sev "test") {
  maestro_layer = layer;
  auto_fixable = auto;
}

abbrev three : List AuditFinding
three =
    finding high (some l4) false
    ∷ finding medium (some l3) false
    ∷ finding info (some l1) false
    ∷ finding critical (some l7) true
    ∷ []

-- scoring.rs:112: an empty report scores 100, and ten critical findings score 0.
empty_score : calculate_score [] ≡ 100
unfolding calculate_score
empty_score = refl

evidence_test : map (λ f. f.evidence) (cross_layer_risk three) ≡ "Affected layers: L3, L4, L7" ∷ []
unfolding cross_layer_risk rank
evidence_test = refl

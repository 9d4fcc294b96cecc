-- ===== src/Scanner/Rules.antt =====
-- crates/secureops-scanner/src/aws_rules.rs: from what was observed of an AWS account to findings.
pub mod Coverage
use secureops.Prelude.{
  ℕ, ℤ, pos, negsuc, eqb_ℤ, leb_ℤ, show_ℤ, Bool, true, false, ◌&&◌, ◌||◌, not, Option, none, some,
  List, [], ◌∷◌, ◌++◌, String, concat, ◌==◌, if◌then◌else◌,
}
use secureops.Api.Models.{Severity, critical, high, medium}
use secureops.Scanner.{CollectorFinding}

pub record S3BucketObservation : Type 0 where
  pub name : String
  pub public_access_block_all : Option Bool
  pub encrypted : Bool

-- An ingress rule: from port, to port and source.
pub record Ingress : Type 0 where
  pub from : ℤ
  pub to : ℤ
  pub cidr : String

pub record SecurityGroupObservation : Type 0 where
  pub id : String
  pub name : String
  pub world_open : List Ingress

pub record AccountObservation : Type 0 where
  pub cloudtrail_trail_count : ℕ
  pub root_mfa_enabled : Option Bool

abbrev pub finding : String → Severity → ℕ → CollectorFinding
finding title severity blast = record {
  title = title;
  severity = severity;
  cloud = some "aws";
  blast_radius = pos blast;
}

-- The finding on the public-access block of a bucket.
abbrev pub access_finding : String → Option Bool → List CollectorFinding
access_finding name (some true) = []
access_finding name none =
    finding (concat ("S3 bucket '" ∷ name ∷ "' " ∷ "has no public-access-block configuration" ∷ []))
      high 70
    ∷ []
access_finding name (some false) =
    finding
      (concat
        ("S3 bucket '" ∷ name ∷ "' " ∷ "has an incomplete public-access-block configuration" ∷ []))
      high 70
    ∷ []

abbrev pub encryption_finding : String → Bool → List CollectorFinding
encryption_finding name true = []
encryption_finding name false =
    finding (concat ("S3 bucket '" ∷ name ∷ "' has no default encryption" ∷ [])) medium 40 ∷ []

unfoldable pub evaluate_s3 : List S3BucketObservation → List CollectorFinding
evaluate_s3 [] = []
evaluate_s3 (b ∷ bs) =
    access_finding b.name b.public_access_block_all
    ++ encryption_finding b.name b.encrypted
    ++ evaluate_s3 bs

abbrev minus_1 : ℤ
minus_1 = negsuc 0

unfoldable pub range_covers : ℤ → ℤ → ℤ → Bool
range_covers from to port =
    eqb_ℤ from minus_1 && eqb_ℤ to minus_1 || leb_ℤ from port && leb_ℤ port to

-- `label`, `severity` and `blast`
abbrev pub Grade : Type 0
Grade = String × Severity × ℕ

pub grade : Ingress → Grade
unfolding range_covers
grade r =
    if range_covers r.from r.to (pos 22)
    then ("SSH (22)", critical, 90)
    else if range_covers r.from r.to (pos 3389)
    then ("RDP (3389)", critical, 90)
    else ("ingress", high, 60)

abbrev ports : Ingress → String
ports r =
    if eqb_ℤ r.from minus_1
    then "all ports"
    else if eqb_ℤ r.from r.to
    then concat ("port " ∷ show_ℤ r.from ∷ [])
    else concat ("ports " ∷ show_ℤ r.from ∷ "-" ∷ show_ℤ r.to ∷ [])

pub ingress_finding : SecurityGroupObservation → Ingress → Grade → CollectorFinding
ingress_finding g r (label, severity, blast) =
    finding
      (concat (
        "Security group '"
        ∷ g.name
        ∷ "' ("
        ∷ g.id
        ∷ ") opens "
        ∷ label
        ∷ " to "
        ∷ r.cidr
        ∷ " ("
        ∷ ports r
        ∷ ")"
        ∷ []))
      severity blast

-- The inner loop.
abbrev pub evaluate_group : SecurityGroupObservation → List Ingress → List CollectorFinding
evaluate_group g [] = []
evaluate_group g (r ∷ rs) = ingress_finding g r (grade r) ∷ evaluate_group g rs

unfoldable pub evaluate_security_groups : List SecurityGroupObservation → List CollectorFinding
unfolding grade ingress_finding
evaluate_security_groups [] = []
evaluate_security_groups (g ∷ gs) = evaluate_group g g.world_open ++ evaluate_security_groups gs

abbrev pub trail_finding : Bool → List CollectorFinding
trail_finding true = finding "CloudTrail is not enabled in this account/region" high 80 ∷ []
trail_finding false = []

abbrev pub mfa_finding : Option Bool → List CollectorFinding
mfa_finding (some false) = finding "Root account has no MFA device" critical 95 ∷ []
mfa_finding _ = []

unfoldable pub evaluate_account : AccountObservation → List CollectorFinding
evaluate_account acct =
    trail_finding (acct.cloudtrail_trail_count == 0) ++ mfa_finding acct.root_mfa_enabled

-- ===== src/Scanner/Rules/Coverage.antt =====
-- What the AWS rules find, against a description of what is wrong with an account.
use secureops.Prelude.{
  ℕ, suc, ◌+◌, ◌≡◌, ◌≢◌, ◌==◌, ◌↔◌, refl, ap, pos, Bool, true, false, ◌||◌, Option, none, some,
  List, [], ◌∷◌, ◌++◌, arith, String, All, length, length-append, Bool-cases, keep_if, inl, inr,
}
use secureops.Api.Models.{Severity, critical}
use secureops.Scanner.{CollectorFinding}
use secureops.Scanner.Rules.{
  S3BucketObservation, Ingress, SecurityGroupObservation, AccountObservation, access_finding,
  encryption_finding, evaluate_s3, range_covers, grade, ingress_finding, evaluate_group,
  trail_finding, mfa_finding, evaluate_security_groups, evaluate_account,
}

abbrev pub IsPrivate : S3BucketObservation → Type 0
IsPrivate b = (b.public_access_block_all ≡ some true) × (b.encrypted ≡ true)

private_bucket :
    (name : String) (access : Option Bool) (encrypted : Bool) (rest : List CollectorFinding)
    → (access_finding name access ++ encryption_finding name encrypted ++ rest ≡ [])
      ↔ (((access ≡ some true) × (encrypted ≡ true)) × (rest ≡ []))
private_bucket name (some true) true rest = ground arith
private_bucket name (some true) false rest = ground arith
private_bucket name (some false) encrypted rest = ground arith
private_bucket name none encrypted rest = ground arith

evaluate_s3-IsPrivate : (bs : List S3BucketObservation) → (evaluate_s3 bs ≡ []) ↔ All IsPrivate bs
unfolding evaluate_s3
evaluate_s3-IsPrivate [] = ground arith
evaluate_s3-IsPrivate (b ∷ bs) =
    let head = private_bucket b.name b.public_access_block_all b.encrypted (evaluate_s3 bs) in
    let tail = evaluate_s3-IsPrivate bs in
    (λ e. ((head.0 e).0, tail.0 (head.0 e).1), λ h. head.1 (h.0, tail.1 h.1))

append-nil_iff : (xs ys : List CollectorFinding) → (xs ++ ys ≡ []) ↔ ((xs ≡ []) × (ys ≡ []))
append-nil_iff [] ys = ground arith
append-nil_iff (x ∷ xs) ys = ground arith

-- The groups of the list open nothing to the world.
abbrev pub IsClosed : SecurityGroupObservation → Type 0
IsClosed g = g.world_open ≡ []

closed_group :
    (g : SecurityGroupObservation) (rs : List Ingress) → (evaluate_group g rs ≡ []) ↔ (rs ≡ [])
closed_group g [] = ground arith
closed_group g (r ∷ rs) = ground arith

evaluate_security_groups-IsClosed :
    (gs : List SecurityGroupObservation) → (evaluate_security_groups gs ≡ []) ↔ All IsClosed gs
unfolding evaluate_security_groups
evaluate_security_groups-IsClosed [] = ground arith
evaluate_security_groups-IsClosed (g ∷ gs) =
    let head = append-nil_iff (evaluate_group g g.world_open) (evaluate_security_groups gs) in
    let group = closed_group g g.world_open in
    let tail = evaluate_security_groups-IsClosed gs in
    (λ e. (group.0 (head.0 e).0, tail.0 (head.0 e).1), λ h. head.1 (group.1 h.0, tail.1 h.1))

-- All three rules.
abbrev pub evaluate_all :
    List S3BucketObservation
    → List SecurityGroupObservation
    → AccountObservation
    → List CollectorFinding
evaluate_all bs gs acct = evaluate_s3 bs ++ evaluate_security_groups gs ++ evaluate_account acct

abbrev pub IsWatched : AccountObservation → Type 0
IsWatched acct = (acct.cloudtrail_trail_count ≢ 0) × (acct.root_mfa_enabled ≢ some false)

watched_account :
    (trails : ℕ) (mfa : Option Bool)
    → (trail_finding (trails == 0) ++ mfa_finding mfa ≡ []) ↔ ((trails ≢ 0) × (mfa ≢ some false))
watched_account trails none = ground arith
watched_account trails (some true) = ground arith
watched_account trails (some false) = ground arith

evaluate_account-IsWatched :
    (acct : AccountObservation) → (evaluate_account acct ≡ []) ↔ IsWatched acct
unfolding evaluate_account
evaluate_account-IsWatched acct = watched_account acct.cloudtrail_trail_count acct.root_mfa_enabled

-- The rules find nothing exactly when every bucket blocks public access in full and is encrypted, no
-- security group is open to the world, a trail is on and the root account is not known to lack MFA.
pub evaluate_all-clean :
    (bs : List S3BucketObservation) (gs : List SecurityGroupObservation) (acct : AccountObservation)
    → (evaluate_all bs gs acct ≡ []) ↔ (All IsPrivate bs × All IsClosed gs × IsWatched acct)
evaluate_all-clean bs gs acct =
    let all =
      append-nil_iff (evaluate_s3 bs ++ evaluate_security_groups gs) (evaluate_account acct) in
    let first = append-nil_iff (evaluate_s3 bs) (evaluate_security_groups gs) in
    let s3 = evaluate_s3-IsPrivate bs in
    let groups = evaluate_security_groups-IsClosed gs in
    let account = evaluate_account-IsWatched acct in
    (
      λ e. (s3.0 (first.0 (all.0 e).0).0, groups.0 (first.0 (all.0 e).0).1, account.0 (all.0 e).1),
      λ h. all.1 (first.1 (s3.1 h.0, groups.1 h.1), account.1 h.2),
    )

abbrev pub is_critical : CollectorFinding → Bool
is_critical c = critical_severity c.severity
  where
    critical_severity : Severity → Bool
    critical_severity critical = true
    critical_severity _ = false

-- The rule opens the port of SSH or of RDP.
abbrev pub opens_admin : Ingress → Bool
opens_admin r = range_covers r.from r.to (pos 22) || range_covers r.from r.to (pos 3389)

abbrev pub all_open : List SecurityGroupObservation → List Ingress
all_open [] = []
all_open (g ∷ gs) = g.world_open ++ all_open gs

abbrev pub criticals : List CollectorFinding → ℕ
criticals cs = length (keep_if is_critical cs)

abbrev pub admin_rules : List Ingress → ℕ
admin_rules rs = length (keep_if opens_admin rs)

keep_if-append {ℓ} :
    {A : Type ℓ} (p : A → Bool) (xs ys : List A)
    → length (keep_if p (xs ++ ys)) ≡ length (keep_if p xs) + length (keep_if p ys)
keep_if-append p [] ys = omega arith
keep_if-append p (x ∷ xs) ys = ground (arith, keep_if-append p xs ys)

grade-critical :
    (g : SecurityGroupObservation) (r : Ingress)
    → is_critical (ingress_finding g r (grade r)) ≡ opens_admin r
unfolding grade ingress_finding
grade-critical g r = elim (Bool-cases (range_covers r.from r.to (pos 22))) [
  | inl ssh ↦ rw ssh refl
  | inr other ↦ elim (Bool-cases (range_covers r.from r.to (pos 3389))) [
    | inl rdp ↦ rw (other, rdp) refl
    | inr neither ↦ rw (other, neither) refl
  ]
]

evaluate_group-criticals :
    (g : SecurityGroupObservation) (rs : List Ingress)
    → criticals (evaluate_group g rs) ≡ admin_rules rs
evaluate_group-criticals g [] = refl
evaluate_group-criticals g (r ∷ rs) =
    ground (arith, grade-critical g r, evaluate_group-criticals g rs)

length-evaluate_group :
    (g : SecurityGroupObservation) (rs : List Ingress) → length (evaluate_group g rs) ≡ length rs
length-evaluate_group g [] = refl
length-evaluate_group g (r ∷ rs) = ap suc (length-evaluate_group g rs)

-- Every rule that opens the port of SSH or of RDP to the world, all ports included, gives one
-- critical finding, and no other rule does; each rule gives one finding.
pub evaluate_security_groups-criticals :
    (gs : List SecurityGroupObservation)
    → (criticals (evaluate_security_groups gs) ≡ admin_rules (all_open gs))
      × (length (evaluate_security_groups gs) ≡ length (all_open gs))
unfolding evaluate_security_groups
evaluate_security_groups-criticals [] = (refl, refl)
evaluate_security_groups-criticals (g ∷ gs) = (
  ground (
    arith,
    keep_if-append is_critical (evaluate_group g g.world_open) (evaluate_security_groups gs),
    keep_if-append opens_admin g.world_open (all_open gs),
    evaluate_group-criticals g g.world_open,
    evaluate_security_groups-criticals gs,
  ),
  ground (
    arith,
    length-append (evaluate_group g g.world_open) (evaluate_security_groups gs),
    length-append g.world_open (all_open gs),
    length-evaluate_group g g.world_open,
    evaluate_security_groups-criticals gs,
  ),
)

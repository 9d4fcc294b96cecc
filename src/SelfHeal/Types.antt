-- ===== src/SelfHeal/Types.antt =====
-- crates/secureops-selfheal/src/lib.rs: playbooks, approvals, outcomes, audit records, cloud actions.
use secureops.Prelude.{◌≡◌, ◌↔◌, Bool, true, false, String, Option, List, arith}
use secureops.Prelude.Map.{Key}

pub data PlaybookClass : Type 0 where
  safe reversible destructive : PlaybookClass

abbrev pub same_class : PlaybookClass → PlaybookClass → Bool
same_class safe safe = true
same_class reversible reversible = true
same_class destructive destructive = true
same_class _ _ = false

pub same_class_iff : (a b : PlaybookClass) → (same_class a b ≡ true) ↔ (a ≡ b)
same_class_iff a b = ground arith

instance abbrev pub PlaybookClass-Key : Key PlaybookClass
PlaybookClass-Key = record { eqb = same_class; eqb_iff = same_class_iff }

pub record Playbook : Type 0 where
  pub id : String
  pub matches : List String
  pub class : PlaybookClass
  pub dry_run : Option String
  pub snapshot : Option String
  pub execute : String
  pub health_check : Option String
  pub rollback : Option String
  pub audit_required : Bool

pub data Approval : Type 0 where
  approved denied : String → Approval
  timeout : Approval

pub data ExecState : Type 0 where
  completed rolled_back aborted failed : ExecState

pub record AuditRecord : Type 0 where
  pub playbook_id : String
  pub action : String
  pub before : Option String
  pub after : Option String
  pub state : ExecState
  pub actor : Option String

pub record ExecOutcome : Type 0 where
  pub state : ExecState
  pub executed : Bool

pub data CloudAction : Type 0 where
  put_bucket_acl : String → String → CloudAction
  revoke_security_group_ingress : String → String → String → CloudAction
  start_cloud_trail : String → CloudAction
  gcs_remove_iam_member : String → String → CloudAction
  delete_k8s_pod : String → String → CloudAction
  azure_nsg_revoke_rule : String → String → String → CloudAction
  gcp_firewall_revoke : String → String → CloudAction
  unknown : String → CloudAction

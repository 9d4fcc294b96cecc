-- ===== src/SelfHeal/Step.antt =====
-- crates/secureops-selfheal/src/lib.rs: `parse_step`, and the std functions on `&str` that it calls.
pub mod RoundTrip
use Prim.Native.Char.{Char, code}
use Prim.Native.String.{◌++◌ as str_append}
use secureops.Prelude.{
  ℕ, Bool, true, false, ◌&&◌, ◌||◌, String, Option, none, some, List, [], ◌∷◌, leb, ◌==◌, is_space,
  str_eq, if◌then◌else◌,
}
use secureops.Prelude.Map
use secureops.Prelude.Map.{String-Key}
use secureops.SelfHeal.Types.{
  CloudAction, put_bucket_acl, revoke_security_group_ingress, start_cloud_trail,
  gcs_remove_iam_member, delete_k8s_pod, azure_nsg_revoke_rule, gcp_firewall_revoke, unknown,
}

abbrev pub is_whitespace : Char → Bool
is_whitespace c = is_space (code c)

pub push : String → Char → String
push s c = str_append s (String.◌∷◌ c "")

-- A word that has ended, if it is one.
abbrev pub flush : String → List String → List String
flush String.[] rest = rest
flush (String.◌∷◌ c s) rest = String.◌∷◌ c s ∷ rest

-- `split_whitespace`, with the word read so far.
unfoldable pub split_from : String → String → List String
unfolding push
split_from word String.[] = flush word []
split_from word (String.◌∷◌ c s) =
    let rest = split_from (if is_whitespace c then "" else push word c) s in
    if is_whitespace c then flush word rest else rest

unfoldable pub split_whitespace : String → List String
unfolding split_from
split_whitespace s = split_from "" s

abbrev pub with_key : Char → Option (String × String) → Option (String × String)
with_key c none = none
with_key c (some (key, value)) = some (String.◌∷◌ c key, value)

-- `split_once('=')`
unfoldable pub split_once : String → Option (String × String)
split_once String.[] = none
split_once (String.◌∷◌ c s) =
    let rest = split_once s in if code c == 61 then some ("", s) else with_key c rest

abbrev pub add_pair : Option (String × String) → List (String × String) → List (String × String)
add_pair none kv = kv
add_pair (some (key, value)) kv = Map.insert key value kv

-- `parts.filter_map(|p| p.split_once('=')).collect()`: a later key replaces an earlier one.
pub collect : List (String × String) → List String → List (String × String)
unfolding split_once
collect kv [] = kv
collect kv (p ∷ ps) = collect (add_pair (split_once p) kv) ps

abbrev pub or_empty : Option String → String
or_empty none = ""
or_empty (some s) = s

-- The closure `g`.
abbrev pub field : List (String × String) → String → String
field kv key = or_empty (Map.get key kv)

-- The match on the operation, the arms in their order.
pub action_of : String → String → List (String × String) → CloudAction
action_of step op kv =
    if str_eq op "s3.put_bucket_acl"
    then put_bucket_acl (field kv "bucket") (field kv "acl")
    else if str_eq op "ec2.revoke_ingress"
    then revoke_security_group_ingress (field kv "sg") (field kv "cidr") (field kv "port")
    else if str_eq op "cloudtrail.start_logging"
    then start_cloud_trail (field kv "name")
    else if str_eq op "gcs.remove_iam_member"
    then gcs_remove_iam_member (field kv "bucket") (field kv "member")
    else if str_eq op "k8s.delete_pod"
    then delete_k8s_pod (field kv "namespace") (field kv "pod")
    else if str_eq op "azure.nsg_revoke_rule"
    then azure_nsg_revoke_rule (field kv "nsg") (field kv "cidr") (field kv "port")
    else if str_eq op "gcp.firewall_revoke"
    then gcp_firewall_revoke (field kv "firewall") (field kv "cidr")
    else unknown step

pub of_parts : String → List String → CloudAction
unfolding collect action_of
of_parts step [] = action_of step "" []
of_parts step (op ∷ parts) = action_of step op (collect [] parts)

unfoldable pub parse_step : String → CloudAction
unfolding of_parts split_whitespace
parse_step step = of_parts step (split_whitespace step)

-- ===== src/SelfHeal/Step/RoundTrip.antt =====
-- `parse_step` against a printer of actions in the structured format.
use Prim.Native.Char.{Char, code}
use Prim.Native.String.{◌++◌ as str_append}
use text.Mathlib.TextLemmas.{nil-append, cons-append, append-nil, append_assoc}
use secureops.Prelude.{
  ◌≡◌, ◌≢◌, refl, sym, ap, ◌∙◌, Bool, true, false, ◌&&◌, not, String, some, List, [], ◌∷◌, map, All,
  join, arith, ◌==◌,
}
use secureops.Prelude.Map
use secureops.Prelude.Map.{String-Key}
use secureops.SelfHeal.Types.{
  CloudAction, put_bucket_acl, revoke_security_group_ingress, start_cloud_trail,
  gcs_remove_iam_member, delete_k8s_pod, azure_nsg_revoke_rule, gcp_firewall_revoke, unknown,
}
use secureops.SelfHeal.Step.{
  is_whitespace, push, flush, split_from, split_whitespace, split_once, collect, action_of,
  of_parts, parse_step,
}

-- No whitespace in the text.
abbrev pub solid : String → Bool
solid String.[] = true
solid (String.◌∷◌ c s) = not (is_whitespace c) && solid s

abbrev pub Solid : String → Type 0
Solid s = solid s ≡ true

Solid-cons : (c : Char) (s : String) → Solid (String.◌∷◌ c s) → (is_whitespace c ≡ false) × Solid s
Solid-cons c s h = ground arith

-- A solid text is read into the current word.
split_from-Solid :
    (word w rest : String)
    → Solid w
    → split_from word (str_append w rest) ≡ split_from (str_append word w) rest
unfolding split_from push
split_from-Solid word String.[] rest h = rw (nil-append rest, append-nil word)
split_from-Solid word (String.◌∷◌ c w) rest h =
    rw (cons-append c w rest, (Solid-cons c w h).0)
      (split_from-Solid (str_append word (String.◌∷◌ c "")) w rest (Solid-cons c w h).1
        ∙ rw (append_assoc word (String.◌∷◌ c "") w, cons-append c "" w, nil-append w))

-- A word: solid and not empty.
abbrev pub Word : String → Type 0
Word w = Solid w × (w ≢ "")

flush-word : (w : String) (rest : List String) → w ≢ "" → flush w rest ≡ w ∷ rest
flush-word String.[] rest h = absurd (h refl)
flush-word (String.◌∷◌ c w) rest h = refl

split_from-last : (w : String) → Word w → split_from "" w ≡ w ∷ []
unfolding split_from
split_from-last w h =
    ap (split_from "") (sym (append-nil w))
    ∙ split_from-Solid "" w "" h.0
    ∙ rw (nil-append w) (flush-word w [] h.1)

split_from-Word :
    (w rest : String)
    → Word w
    → split_from "" (str_append w (str_append " " rest)) ≡ w ∷ split_from "" rest
unfolding split_from
split_from-Word w rest h =
    split_from-Solid "" w (str_append " " rest) h.0
    ∙ rw (nil-append w, cons-append " " "" rest, nil-append rest)
        (flush-word w (split_from "" rest) h.1)

-- Words joined by a space are split again.
split_whitespace-join : (ws : List String) → All Word ws → split_whitespace (join " " ws) ≡ ws
unfolding split_whitespace join
split_whitespace-join [] h = refl
split_whitespace-join (w ∷ []) h = split_from-last w h.0
split_whitespace-join (w ∷ v ∷ ws) h =
    split_from-Word w (join " " (v ∷ ws)) h.0 ∙ ap (◌∷◌ w) (split_whitespace-join (v ∷ ws) h.1)

-- `key=value`
abbrev pair : String × String → String
pair (key, value) = str_append key (String.◌∷◌ "=" value)

-- Neither whitespace nor `=`.
abbrev is_key : String → Bool
is_key String.[] = true
is_key (String.◌∷◌ c s) = not (is_whitespace c) && not (code c == 61) && is_key s

abbrev Key : String → Type 0
Key s = is_key s ≡ true

Key-cons :
    (c : Char) (s : String)
    → Key (String.◌∷◌ c s)
    → (is_whitespace c ≡ false) × ((code c == 61) ≡ false) × Key s
Key-cons c s h = ground arith

pair-Solid : (key value : String) → Key key → Solid value → Solid (pair (key, value))
pair-Solid String.[] value k h = rw (nil-append (String.◌∷◌ "=" value)) h
pair-Solid (String.◌∷◌ c key) value k h =
    rw (cons-append c key (String.◌∷◌ "=" value))
      (rw (Key-cons c key k).0 (pair-Solid key value (Key-cons c key k).2 h))

pair-ne-empty : (key value : String) → pair (key, value) ≢ ""
pair-ne-empty String.[] value = λ e. cc (nil-append (String.◌∷◌ "=" value))
pair-ne-empty (String.◌∷◌ c key) value = λ e. cc (cons-append c key (String.◌∷◌ "=" value))

split_once-pair :
    (key value : String) → Key key → split_once (pair (key, value)) ≡ some (key, value)
unfolding split_once
split_once-pair String.[] value k = rw (nil-append (String.◌∷◌ "=" value))
split_once-pair (String.◌∷◌ c key) value k = rw (
  cons-append c key (String.◌∷◌ "=" value),
  (Key-cons c key k).1,
  split_once-pair key value (Key-cons c key k).2,
)

abbrev insert_all : List (String × String) → List (String × String) → List (String × String)
insert_all kv [] = kv
insert_all kv ((key, value) ∷ rest) = insert_all (Map.insert key value kv) rest

-- Pairs whose keys are keys and whose values are solid.
abbrev Pairs : List (String × String) → Type 0
Pairs = All (λ (p : String × String). Key p.0 × Solid p.1)

collect-Pairs :
    (kv ps : List (String × String)) → Pairs ps → collect kv (map pair ps) ≡ insert_all kv ps
unfolding collect
collect-Pairs kv [] h = refl
collect-Pairs kv ((key, value) ∷ ps) h =
    rw (split_once-pair key value h.0.0, collect) (collect-Pairs (Map.insert key value kv) ps h.1)

Pairs-Word : (ps : List (String × String)) → Pairs ps → All Word (map pair ps)
Pairs-Word [] h = tt
Pairs-Word ((key, value) ∷ ps) h =
    ((pair-Solid key value h.0.0 h.0.1, pair-ne-empty key value), Pairs-Word ps h.1)

abbrev op_of : CloudAction → String
op_of (put_bucket_acl bucket acl) = "s3.put_bucket_acl"
op_of (revoke_security_group_ingress sg cidr port) = "ec2.revoke_ingress"
op_of (start_cloud_trail name) = "cloudtrail.start_logging"
op_of (gcs_remove_iam_member bucket member) = "gcs.remove_iam_member"
op_of (delete_k8s_pod namespace pod) = "k8s.delete_pod"
op_of (azure_nsg_revoke_rule nsg cidr port) = "azure.nsg_revoke_rule"
op_of (gcp_firewall_revoke firewall cidr) = "gcp.firewall_revoke"
op_of (unknown step) = step

abbrev pairs_of : CloudAction → List (String × String)
pairs_of (put_bucket_acl bucket acl) = ("bucket", bucket) ∷ ("acl", acl) ∷ []
pairs_of (revoke_security_group_ingress sg cidr port) =
    ("sg", sg) ∷ ("cidr", cidr) ∷ ("port", port) ∷ []
pairs_of (start_cloud_trail name) = ("name", name) ∷ []
pairs_of (gcs_remove_iam_member bucket member) = ("bucket", bucket) ∷ ("member", member) ∷ []
pairs_of (delete_k8s_pod namespace pod) = ("namespace", namespace) ∷ ("pod", pod) ∷ []
pairs_of (azure_nsg_revoke_rule nsg cidr port) = ("nsg", nsg) ∷ ("cidr", cidr) ∷ ("port", port) ∷ []
pairs_of (gcp_firewall_revoke firewall cidr) = ("firewall", firewall) ∷ ("cidr", cidr) ∷ []
pairs_of (unknown step) = []

-- An action in the structured format of a playbook step.
pub render : CloudAction → String
unfolding join
render a = join " " (op_of a ∷ map pair (pairs_of a))

-- The actions that the format can write: a known operation, and no whitespace in a value.
abbrev pub IsPrintable : CloudAction → Type 0
IsPrintable (unknown step) = ⊥
IsPrintable (put_bucket_acl a b) = Solid a × Solid b
IsPrintable (revoke_security_group_ingress a b c) = Solid a × Solid b × Solid c
IsPrintable (start_cloud_trail a) = Solid a
IsPrintable (gcs_remove_iam_member a b) = Solid a × Solid b
IsPrintable (delete_k8s_pod a b) = Solid a × Solid b
IsPrintable (azure_nsg_revoke_rule a b c) = Solid a × Solid b × Solid c
IsPrintable (gcp_firewall_revoke a b) = Solid a × Solid b

of_words :
    (op : String) (ps : List (String × String))
    → Word op
    → Pairs ps
    → parse_step (join " " (op ∷ map pair ps))
      ≡ action_of (join " " (op ∷ map pair ps)) op (insert_all [] ps)
unfolding parse_step of_parts
of_words op ps w h =
    rw (split_whitespace-join (op ∷ map pair ps) (w, Pairs-Word ps h), collect-Pairs [] ps h)

-- Parsing a step printed from an action of a known operation gives the action back, whatever its
-- values hold but whitespace, and whether or not they are empty.
pub parse_step-render : (a : CloudAction) → IsPrintable a → parse_step (render a) ≡ a
unfolding render action_of Map.insert Map.get
parse_step-render (put_bucket_acl a b) h =
    of_words "s3.put_bucket_acl" (("bucket", a) ∷ ("acl", b) ∷ []) (refl, λ e. cc)
      ((refl, h.0), ((refl, h.1), tt))
parse_step-render (revoke_security_group_ingress a b c) h =
    of_words "ec2.revoke_ingress" (("sg", a) ∷ ("cidr", b) ∷ ("port", c) ∷ []) (refl, λ e. cc)
      ((refl, h.0), ((refl, h.1), ((refl, h.2), tt)))
parse_step-render (start_cloud_trail a) h =
    of_words "cloudtrail.start_logging" (("name", a) ∷ []) (refl, λ e. cc) ((refl, h), tt)
parse_step-render (gcs_remove_iam_member a b) h =
    of_words "gcs.remove_iam_member" (("bucket", a) ∷ ("member", b) ∷ []) (refl, λ e. cc)
      ((refl, h.0), ((refl, h.1), tt))
parse_step-render (delete_k8s_pod a b) h =
    of_words "k8s.delete_pod" (("namespace", a) ∷ ("pod", b) ∷ []) (refl, λ e. cc)
      ((refl, h.0), ((refl, h.1), tt))
parse_step-render (azure_nsg_revoke_rule a b c) h =
    of_words "azure.nsg_revoke_rule" (("nsg", a) ∷ ("cidr", b) ∷ ("port", c) ∷ []) (refl, λ e. cc)
      ((refl, h.0), ((refl, h.1), ((refl, h.2), tt)))
parse_step-render (gcp_firewall_revoke a b) h =
    of_words "gcp.firewall_revoke" (("firewall", a) ∷ ("cidr", b) ∷ []) (refl, λ e. cc)
      ((refl, h.0), ((refl, h.1), tt))
parse_step-render (unknown step) h = absurd h

-- ===== src/Policy/Cedar/Laws.antt =====
-- crates/secureops-policy/src/lib.rs: `CedarPdp::evaluate` against the authorizer and the allowlist.
use secureops.Prelude.{ℕ, ◌≡◌, refl, sym, [], ◌∙◌, Bool, String, Option, none, some, arith}
use secureops.Policy.Types.{Decision, deny, Action, DecisionRequest, new_response}
use secureops.Policy.Cache.{HashInput, hash_request, host_or_empty}
use secureops.Policy.Cached.Coherence.{KeyDecides, IsCoherent, answer-decision, answer-IsCoherent}
use secureops.Policy.Cedar.{
  CedarLib, CedarPdp, key_of, eval_cedar, evaluate, action_str, principal_str, resource_str,
  allowed_by_policy, default_permits,
}
use secureops.Policy.Allowlist

module _ (k : CedarLib) where
  -- The verdict is a function of what is hashed.
  unfoldable pub eval_input : CedarPdp k → HashInput → Decision
  eval_input p i = eval_cedar k p (record {
    action = i.action;
    destination_host = some i.host;
    destination_port = i.port;
    pid = i.pid;
    comm = none;
    recent_syscalls = [];
    attributes = [];
  })

  abbrev input_of : CedarPdp k → DecisionRequest → HashInput
  input_of p req = record {
    action = req.action;
    host = host_or_empty req.destination_host;
    port = req.destination_port;
    pid = req.pid;
    policy_version = p.bundle_version;
  }

  eval_input-input_of :
      (p : CedarPdp k) (req : DecisionRequest) → eval_input p (input_of p req) ≡ eval_cedar k p req
  unfolding eval_input eval_cedar
  eval_input-input_of p req = refl

  KeyDecides-eval_cedar :
      (p : CedarPdp k)
      → ((i j : HashInput) → k.hasher i ≡ k.hasher j → eval_input p i ≡ eval_input p j)
      → KeyDecides (key_of k p) (eval_cedar k p)
  unfolding hash_request
  KeyDecides-eval_cedar p harmless a b h =
      sym (eval_input-input_of p a)
      ∙ harmless (input_of p a) (input_of p b) h
      ∙ eval_input-input_of p b

  -- If the hash confuses no two inputs that are decided differently, an evaluation from a coherent cache gives the verdict that
  -- the authorizer gives, and leaves the cache coherent: unlike for `RegoPdp`, the key holds all
  -- that decides.
  pub evaluate-eval_cedar :
      (now later : ℕ) (req : DecisionRequest) (p : CedarPdp k)
      → ((i j : HashInput) → k.hasher i ≡ k.hasher j → eval_input p i ≡ eval_input p j)
      → IsCoherent (key_of k p) (eval_cedar k p) p.cache
      → ((evaluate k now later req p).0 ≡ eval_cedar k p req)
        × IsCoherent (key_of k p) (eval_cedar k p) (evaluate k now later req p).1.cache
  unfolding evaluate
  evaluate-eval_cedar now later req p harmless c = (
    answer-decision (key_of k p) (eval_cedar k p) now later req
        (new_response (eval_cedar k p req) "cedar") p.cache refl c,
    answer-IsCoherent (key_of k p) (eval_cedar k p) now later req
        (new_response (eval_cedar k p req) "cedar") p.cache (KeyDecides-eval_cedar p harmless) refl
        c,
  )

  -- A library that parses the principals and actions that the code writes, builds every context and
  -- request, and authorizes with the policy text as `default_permits` reads it.
  pub record RunsDefault (p : CedarPdp k) : Type 0 where
    pub uid : String → k.EntityUid
    pub context : Bool → k.Context
    pub request : k.EntityUid → k.EntityUid → k.EntityUid → k.Context → k.Request
    pub principal_parses :
        (pid : ℕ) → k.parse_uid (principal_str pid) ≡ some (uid (principal_str pid))
    pub action_parses : (a : Action) → k.parse_uid (action_str a) ≡ some (uid (action_str a))
    pub contexts : (b : Bool) → k.make_context b ≡ some (context b)
    pub requests :
        (x y z : k.EntityUid) (c : k.Context) → k.make_request x y z c ≡ some (request x y z c)
    pub permits :
        (pid : ℕ) (a : Action) (resource : k.EntityUid) (b : Bool)
        → k.is_authorized
            (request (uid (principal_str pid)) (uid (action_str a)) resource (context b))
            p.policies
          ≡ default_permits a b

  -- Under the default policy, a request whose resource parses is decided as `AllowlistEngine`
  -- decides it over the same hosts, and one whose resource does not parse is denied.
  pub eval_cedar-Allowlist :
      (p : CedarPdp k) (req : DecisionRequest) (parsed : Option k.EntityUid)
      → RunsDefault p
      → k.parse_uid (resource_str (host_or_empty req.destination_host)) ≡ parsed
      → eval_cedar k p req
        ≡ (elim parsed [ none ↦ deny | some u ↦ Allowlist.evaluate p.allow_hosts req ])
  unfolding eval_cedar Allowlist.evaluate default_permits
  eval_cedar-Allowlist p req none d e =
      ground (arith, d.principal_parses req.pid, d.action_parses req.action)
  eval_cedar-Allowlist p req (some u) d e =
      let listed =
        allowed_by_policy p.allow_hosts req.action (host_or_empty req.destination_host) in
      ground (
        arith,
        d.principal_parses req.pid,
        d.action_parses req.action,
        d.contexts listed,
        d.requests (d.uid (principal_str req.pid)) (d.uid (action_str req.action)) u
            (d.context listed),
        d.permits req.pid req.action u listed,
      )

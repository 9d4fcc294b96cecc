-- ===== src/Sandbox/Negotiate.antt =====
-- crates/secureops-sandbox/src/lib.rs: `SkillSandbox::negotiate_capabilities`. The PDP's state, such
-- as its cache, goes from each call to the next.
pub mod Granted
pub mod Stale
use secureops.Prelude.{
  ℕ, Bool, true, false, ◌||◌, String, Option, none, some, List, [], ◌∷◌, codes, contains, ends_with,
  if◌then◌else◌,
}
use secureops.Policy.Types.{Decision, is_allowed, capability, DecisionRequest}
use secureops.Sandbox.Types.{Capabilities, locked_down}

-- `PolicyEngine::evaluate`, with interior state.
pub record PolicyEngine : Type 1 where
  pub State : Type 0
  pub evaluate : DecisionRequest → State → Decision × State

-- The paths that are never granted.
unfoldable pub is_secret : String → Bool
is_secret path =
    ends_with (codes path) (codes ".env")
    || contains (codes path) (codes "/.env")
    || contains (codes path) (codes "/credentials")

abbrev pub path_request : ℕ → String → DecisionRequest
path_request pid path = record {
  action = capability;
  destination_host = none;
  destination_port = none;
  pid = pid;
  comm = none;
  recent_syscalls = [];
  attributes = ("path", path) ∷ [];
}

abbrev pub network_request : ℕ → DecisionRequest
network_request pid = record {
  action = capability;
  destination_host = some "*";
  destination_port = none;
  pid = pid;
  comm = none;
  recent_syscalls = [];
  attributes = ("capability", "network_via_proxy") ∷ [];
}

module _ (pdp : PolicyEngine) where
  abbrev pub keep : String → Decision → List String × pdp.State → List String × pdp.State
  keep path d (rest, s) = (if is_allowed d then path ∷ rest else rest, s)

  -- The loop over the requested paths.
  unfoldable pub grant_paths : ℕ → List String → pdp.State → List String × pdp.State
  unfolding is_secret
  grant_paths pid [] s = ([], s)
  grant_paths pid (path ∷ paths) s =
      let skipped = grant_paths pid paths s in
      let (d, s') = pdp.evaluate (path_request pid path) s in
      let asked = grant_paths pid paths s' in if is_secret path then skipped else keep path d asked

  abbrev pub verdict_on : Decision × pdp.State → Bool × pdp.State
  verdict_on (d, s) = (is_allowed d, s)

  unfoldable pub grant_network : ℕ → Bool → pdp.State → Bool × pdp.State
  grant_network pid true s = verdict_on (pdp.evaluate (network_request pid) s)
  grant_network pid false s = (false, s)

  -- It never returns an error.
  unfoldable pub negotiate_capabilities : ℕ → Capabilities → pdp.State → Capabilities × pdp.State
  unfolding grant_paths grant_network
  negotiate_capabilities pid requested s =
      let (paths, s') = grant_paths pid requested.fs_paths s in
      let (network, s'') = grant_network pid requested.network_via_proxy s' in
      (
        record {
          fs_paths = paths;
          network_via_proxy = network;
          fuel = requested.fuel;
          epoch_deadline_ms = requested.epoch_deadline_ms;
        },
        s'',
      )

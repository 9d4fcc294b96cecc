-- ===== src/Policy/Cached.antt =====
-- crates/secureops-policy/src/lib.rs: the cached path that `evaluate` and `evaluate_detailed` of
-- `RegoPdp` and `CedarPdp` all write out: ask the cache, else evaluate, store the answer and give it.
pub mod Coherence
use secureops.Prelude.{ℕ, Option, none, some}
use secureops.Policy.Types.{Decision, DecisionRequest, DecisionResponse}
use secureops.Policy.Cache
use secureops.Policy.Cache.{DecisionCache}

-- `fresh` is the response to a request that the cache did not answer; `later` is the clock that
-- `put` reads.
pub finish :
    ℕ
    → DecisionResponse
    → ℕ
    → Option DecisionResponse × DecisionCache
    → DecisionResponse × DecisionCache
finish key fresh later (some cached, cache) = (cached, cache)
finish key fresh later (none, cache) = (fresh, Cache.put key later fresh cache)

unfoldable pub answer :
    ℕ → DecisionResponse → ℕ → ℕ → DecisionCache → DecisionResponse × DecisionCache
unfolding finish
answer key fresh now later cache = finish key fresh later (Cache.get key now cache)

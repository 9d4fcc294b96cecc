-- ===== src/Graph.antt =====
-- crates/secureops-graph/src/lib.rs: `SecurityGraph` and `blast_radius`. Difficulties are f32, a
-- parameter; a hash map is a `Map`.
pub mod Reach
pub mod Search
pub mod Radius
mod Tests
use secureops.Prelude.{
  ℕ, zero, suc, ◌+◌, Bool, true, false, ◌||◌, Option, none, some, List, [], ◌∷◌, ◌++◌, String, any,
  length, str_eq, if◌then◌else◌,
}
use secureops.Prelude.Map
use secureops.Prelude.Map.{String-Key}

pub data EdgeKind : Type 0 where
  can_assume has_permission connects_to exposes has_vuln violates owns : EdgeKind

pub record NodeData : Type 0 where
  pub id : String
  pub kind : String
  pub exposed : Bool
  pub sensitive : Bool

abbrev pub new_node : String → String → NodeData
new_node id kind = record { id = id; kind = kind; exposed = false; sensitive = false }

-- `seen.contains(n)`
abbrev pub member : String → List String → Bool
member n seen = any (str_eq n) seen

-- The breadth-first search of `blast_radius`, on the targets of a node's edges and the sensitive
-- nodes; its state is the seen nodes, the queue and the count.
module _ (targets : String → List String) (sensitive : String → Bool) where
  abbrev pub count_up : String → ℕ → ℕ
  count_up n count = if sensitive n then count + 1 else count

  -- The loop over the edges of one node.
  unfoldable pub scan : List String → List String → List String → ℕ → List String × List String × ℕ
  scan [] seen queue count = (seen, queue, count)
  scan (n ∷ ns) seen queue count =
      let known = scan ns seen queue count in
      let added = scan ns (n ∷ seen) (queue ++ n ∷ []) (count_up n count) in
      if member n seen then known else added

  -- The loop over the queue.
  unfoldable pub search : ℕ → List String → List String → ℕ → List String × ℕ
  unfolding scan
  search zero seen queue count = (seen, count)
  search (suc fuel) seen [] count = (seen, count)
  search (suc fuel) seen (n ∷ queue) count =
      let (seen', queue', count') = scan (targets n) seen queue count in
      search fuel seen' queue' count'

module _ (Difficulty : Type 0) where
  pub record EdgeRef : Type 0 where
    pub to : String
    pub kind : EdgeKind
    pub difficulty : Difficulty

  pub record SecurityGraph : Type 0 where
    pub nodes : List (String × NodeData)
    pub adj : List (String × List EdgeRef)

  abbrev pub new : SecurityGraph
  new = record { nodes = []; adj = [] }

  abbrev pub or_none : Option (List EdgeRef) → List EdgeRef
  or_none none = []
  or_none (some es) = es

  -- `adj.entry(id).or_default()`
  abbrev pub with_entry : String → List (String × List EdgeRef) → List (String × List EdgeRef)
  with_entry id adj = Map.insert id (or_none (Map.get id adj)) adj

  unfoldable pub add_node : NodeData → SecurityGraph → SecurityGraph
  add_node node g = record {
    nodes = Map.insert node.id node g.nodes;
    adj = with_entry node.id g.adj;
  }

  abbrev has_node : String → SecurityGraph → Bool
  has_node id g = elim (Map.get id g.nodes) [ none ↦ false | some node ↦ true ]

  pub ensure_node : String → SecurityGraph → SecurityGraph
  unfolding add_node
  ensure_node id g = if has_node id g then g else add_node (new_node id "unknown") g

  abbrev push_edge : String → EdgeRef → SecurityGraph → SecurityGraph
  push_edge from e g = record g {
    adj = Map.insert from (or_none (Map.get from g.adj) ++ e ∷ []) g.adj;
  }

  -- `max_zero` is `difficulty.max(0.0)`.
  unfoldable pub add_edge :
      (Difficulty → Difficulty)
      → String
      → String
      → EdgeKind
      → Difficulty
      → SecurityGraph
      → SecurityGraph
  unfolding ensure_node
  add_edge max_zero from to kind difficulty g =
      push_edge from (record { to = to; kind = kind; difficulty = max_zero difficulty })
        (ensure_node to (ensure_node from g))

  abbrev pub ends : List EdgeRef → List String
  ends [] = []
  ends (e ∷ es) = e.to ∷ ends es

  unfoldable pub targets_of : SecurityGraph → String → List String
  targets_of g n = ends (or_none (Map.get n g.adj))

  unfoldable pub is_sensitive : SecurityGraph → String → Bool
  is_sensitive g n = elim (Map.get n g.nodes) [ none ↦ false | some node ↦ node.sensitive ]

  abbrev pub all_ends : List (String × List EdgeRef) → List String
  all_ends [] = []
  all_ends ((n, es) ∷ adj) = ends es ++ all_ends adj

  -- A node is queued once, so one step more than there are edges empties the queue.
  unfoldable pub blast_search : SecurityGraph → String → List String × ℕ
  unfolding search targets_of is_sensitive
  blast_search g start =
      search (targets_of g) (is_sensitive g) (suc (length (all_ends g.adj))) (start ∷ [])
        (start ∷ []) 0

  unfoldable pub blast_radius : SecurityGraph → String → ℕ
  unfolding blast_search
  blast_radius g start = (blast_search g start).1

-- ===== src/Graph/Radius.antt =====
-- `SecurityGraph::blast_radius` against reachability.
use secureops.Prelude.{
  ℕ, suc, ◌+◌, ◌≡◌, ◌↔◌, inl, refl, subst, true, not, List, [], ◌∷◌, String, length,
  length-keep_if-le, str_eq_iff, str_eq_refl, arith,
}
use secureops.Prelude.Map
use secureops.Prelude.Map.{String-Key}
use secureops.Graph.{
  member, EdgeRef, SecurityGraph, or_none, ends, targets_of, is_sensitive, all_ends, blast_search,
  blast_radius,
}
use secureops.Graph.Reach.{Reach, here, member-append, IsUnique}
use secureops.Graph.Search.{sensitive_in, IsSearch, search-IsSearch, IsSearch-complete}

module _ (D : Type 0) where
  -- Every target of an edge is among the targets of all.
  targets_of-all :
      (n m : String) (adj : List (String × List (EdgeRef D)))
      → member m (ends D (or_none D (Map.get n adj))) ≡ true
      → member m (all_ends D adj) ≡ true
  unfolding Map.get
  targets_of-all n m [] h = h
  targets_of-all n m ((k, es) ∷ adj) h =
      ground (arith, h, member-append m (ends D es) (all_ends D adj), targets_of-all n m adj)

  -- The nodes that were seen: each reachable node once, and no other; and the count.
  pub record IsRadius (g : SecurityGraph D) (start : String) (count : ℕ) : Type 0 where
    pub seen : List String
    pub unique : IsUnique seen
    pub exact : (n : String) → (member n seen ≡ true) ↔ Reach (targets_of D g) start n
    pub counted :
        count + sensitive_in (targets_of D g) (is_sensitive D g) (start ∷ [])
        ≡ sensitive_in (targets_of D g) (is_sensitive D g) seen

  blast_search-IsSearch :
      (g : SecurityGraph D) (start : String)
      → IsSearch
          (targets_of D g)
          (is_sensitive D g)
          start
          (blast_search D g start).0
          []
          (blast_search D g start).1
  unfolding blast_search targets_of
  blast_search-IsSearch g start =
      search-IsSearch (targets_of D g) (is_sensitive D g) (all_ends D g.adj) start
        (suc (length (all_ends D g.adj))) (start ∷ []) (start ∷ []) 0
        (λ n m h. targets_of-all n m g.adj h)
        (omega (arith, length-keep_if-le (λ n. not (member n (start ∷ []))) (all_ends D g.adj)))
        (record {
          sound = λ n h.
              subst (Reach (targets_of D g) start) {x = start} {y = n}
                (ground (arith, h, str_eq_iff n start)) here;
          queued = λ n h. h;
          closed = λ n h. inl h;
          started = ground (arith, str_eq_refl start);
          unique = (refl, tt);
          counted = omega arith;
        })

  -- The blast radius of a node is the number of sensitive nodes that can be reached from it, the
  -- node itself left out, each counted once, in every graph: there is a list without repetitions of
  -- exactly the reachable nodes, and the count is that of the sensitive ones in it, less one where
  -- the node itself is sensitive. The search ends: it never runs out of steps.
  pub blast_radius-IsRadius :
      (g : SecurityGraph D) (start : String) → IsRadius g start (blast_radius D g start)
  unfolding blast_radius
  blast_radius-IsRadius g start =
      let i = blast_search-IsSearch g start in
      record {
        seen = (blast_search D g start).0;
        unique = i.unique;
        exact =
            λ n. (i.sound n, IsSearch-complete (targets_of D g) (is_sensitive D g) start n _ _ i);
        counted = i.counted;
      }

-- ===== src/Graph/Search.antt =====
-- crates/secureops-graph/src/lib.rs: the loops of `blast_radius`.
use secureops.Prelude.{
  ℕ, zero, suc, ◌+◌, ◌≤◌, ◌≡◌, ◌⊎◌, inl, inr, sym, subst, Bool, true, false, Bool-cases, List, [],
  ◌∷◌, ◌++◌, String, keep_if, length, length-append, str_eq_iff, str_eq_refl, arith,
}
use secureops.Graph.{member, count_up, scan, search}
use secureops.Graph.Reach.{Reach, here, step, member-append, IsUnique, unseen, unseen-less}

module _ (targets : String → List String) (sensitive : String → Bool) where
  -- The sensitive nodes among some.
  abbrev pub sensitive_in : List String → ℕ
  sensitive_in ns = length (keep_if sensitive ns)

  -- What the loop over `ns` makes of the seen nodes, the queue and the count.
  record Scanned (all ns seen queue : List String) (count : ℕ) (r : List String × List String × ℕ)
      : Type 0 where
    pub keeps : (n : String) → member n seen ≡ true → member n r.0 ≡ true
    pub queues : (n : String) → member n queue ≡ true → member n r.1 ≡ true
    pub sees : (n : String) → member n ns ≡ true → member n r.0 ≡ true
    pub new_seen :
        (n : String)
        → member n r.0 ≡ true
        → (member n seen ≡ true) ⊎ ((member n r.1 ≡ true) × (member n ns ≡ true))
    pub new_queued :
        (n : String) → member n r.1 ≡ true → (member n queue ≡ true) ⊎ (member n r.0 ≡ true)
    pub unique : IsUnique seen → IsUnique r.0
    pub counted : r.2 + sensitive_in seen ≡ count + sensitive_in r.0
    pub measured : length r.1 + unseen r.0 all ≤ length queue + unseen seen all

  first : (x : String) (ns : List String) → member x (x ∷ ns) ≡ true
  first x ns = ground (arith, str_eq_refl x)

  more : (x n : String) (ns : List String) → member n ns ≡ true → member n (x ∷ ns) ≡ true
  more x n ns h = ground (arith, h)

  split :
      (x n : String) (ns : List String) → member n (x ∷ ns) ≡ true → (n ≡ x) ⊎ (member n ns ≡ true)
  split x n ns h = ground (arith, h, str_eq_iff n x)

  -- An edge to a node that is seen already.
  skip :
      (all : List String) (x : String) (ns seen queue : List String) (count : ℕ)
      (r : List String × List String × ℕ)
      → member x seen ≡ true
      → Scanned all ns seen queue count r
      → Scanned all (x ∷ ns) seen queue count r
  skip all x ns seen queue count r known s = record {
    keeps = s.keeps;
    queues = s.queues;
    sees = λ n h. elim (split x n ns h) [
      | inl e ↦ s.keeps n (subst (λ y. member y seen ≡ true) (sym e) known)
      | inr rest ↦ s.sees n rest
    ];
    new_seen = λ n h. elim (s.new_seen n h) [
      | inl old ↦ inl old
      | inr new ↦ inr (new.0, more x n ns new.1)
    ];
    new_queued = s.new_queued;
    unique = s.unique;
    counted = s.counted;
    measured = s.measured;
  }

  last : (n x : String) (queue : List String) → n ≡ x → member n (queue ++ x ∷ []) ≡ true
  last n x queue e = ground (arith, member-append n queue (x ∷ []), str_eq_iff n x, e)

  split_last :
      (n x : String) (queue : List String)
      → member n (queue ++ x ∷ []) ≡ true
      → (member n queue ≡ true) ⊎ (n ≡ x)
  split_last n x queue h = ground (arith, member-append n queue (x ∷ []), str_eq_iff n x, h)

  -- An edge to a new node.
  add :
      (all : List String) (x : String) (ns seen queue : List String) (count : ℕ)
      (r : List String × List String × ℕ)
      → member x seen ≡ false
      → member x all ≡ true
      → Scanned all ns (x ∷ seen) (queue ++ x ∷ []) (count_up targets sensitive x count) r
      → Scanned all (x ∷ ns) seen queue count r
  add all x ns seen queue count r fresh inside s = record {
    keeps = λ n h. s.keeps n (more x n seen h);
    queues = λ n h. s.queues n (ground (arith, member-append n queue (x ∷ []), h));
    sees = λ n h. elim (split x n ns h) [
      | inl e ↦ s.keeps n (subst (λ y. member y (x ∷ seen) ≡ true) (sym e) (first x seen))
      | inr rest ↦ s.sees n rest
    ];
    new_seen = λ n h. elim (s.new_seen n h) [
      | inl old ↦ elim (split x n seen old) [
        | inl e ↦ inr (
          s.queues n (last n x queue e),
          subst (λ y. member y (x ∷ ns) ≡ true) (sym e) (first x ns),
        )
        | inr old' ↦ inl old'
      ]
      | inr new ↦ inr (new.0, more x n ns new.1)
    ];
    new_queued = λ n h. elim (s.new_queued n h) [
      | inl old ↦ elim (split_last n x queue old) [
        | inl old' ↦ inl old'
        | inr e ↦ inr (s.keeps n (subst (λ y. member y (x ∷ seen) ≡ true) (sym e) (first x seen)))
      ]
      | inr seen' ↦ inr seen'
    ];
    unique = λ u. s.unique (fresh, u);
    counted = ground (arith, s.counted);
    measured =
        omega
          (arith, s.measured, length-append queue (x ∷ []), unseen-less x seen all fresh inside);
  }

  scan-Scanned :
      (all ns seen queue : List String) (count : ℕ)
      → ((n : String) → member n ns ≡ true → member n all ≡ true)
      → Scanned all ns seen queue count (scan targets sensitive ns seen queue count)
  unfolding scan
  scan-Scanned all [] seen queue count sub = record {
    keeps = λ n h. h;
    queues = λ n h. h;
    sees = λ n h. ground arith;
    new_seen = λ n h. inl h;
    new_queued = λ n h. inl h;
    unique = λ u. u;
    counted = omega arith;
    measured = omega arith;
  }
  scan-Scanned all (x ∷ ns) seen queue count sub = elim (Bool-cases (member x seen)) [
    | inl known ↦ rw known (
        skip all x ns seen queue count _ known
          (scan-Scanned all ns seen queue count (λ n h. sub n (more x n ns h))))
    | inr fresh ↦ rw fresh (
        add all x ns seen queue count _ fresh (sub x (first x ns)) (
          scan-Scanned all ns (x ∷ seen) (queue ++ x ∷ []) (count_up targets sensitive x count)
            (λ n h. sub n (more x n ns h))))
  ]

  -- The invariant of the loop over the queue.
  pub record IsSearch (start : String) (seen queue : List String) (count : ℕ) : Type 0 where
    pub sound : (n : String) → member n seen ≡ true → Reach targets start n
    pub queued : (n : String) → member n queue ≡ true → member n seen ≡ true
    pub closed :
        (n : String)
        → member n seen ≡ true
        → (member n queue ≡ true)
          ⊎ ((m : String) → member m (targets n) ≡ true → member m seen ≡ true)
    pub started : member start seen ≡ true
    pub unique : IsUnique seen
    pub counted : count + sensitive_in (start ∷ []) ≡ sensitive_in seen

  expand :
      (all : List String) (start x : String) (seen queue : List String) (count : ℕ)
      (r : List String × List String × ℕ)
      → IsSearch start seen (x ∷ queue) count
      → Scanned all (targets x) seen queue count r
      → IsSearch start r.0 r.1 r.2
  expand all start x seen queue count r i s = record {
    sound = λ n h. elim (s.new_seen n h) [
      | inl old ↦ i.sound n old
      | inr new ↦ step x n (i.sound x (i.queued x (first x queue))) new.1
    ];
    queued = λ n h. elim (s.new_queued n h) [
      | inl old ↦ s.keeps n (i.queued n (more x n queue old))
      | inr seen' ↦ seen'
    ];
    closed = λ n h. elim (s.new_seen n h) [
      | inl old ↦ elim (i.closed n old) [
        | inl waiting ↦ elim (split x n queue waiting) [
          | inl e ↦ inr (λ m k. s.sees m (subst (λ y. member m (targets y) ≡ true) e k))
          | inr later ↦ inl (s.queues n later)
        ]
        | inr done ↦ inr (λ m k. s.keeps m (done m k))
      ]
      | inr new ↦ inl new.0
    ];
    started = s.keeps start i.started;
    unique = s.unique i.unique;
    counted = omega (arith, s.counted, i.counted);
  }

  -- With enough fuel the queue ends empty.
  pub search-IsSearch :
      (all : List String) (start : String) (fuel : ℕ) (seen queue : List String) (count : ℕ)
      → ((n m : String) → member m (targets n) ≡ true → member m all ≡ true)
      → length queue + unseen seen all ≤ fuel
      → IsSearch start seen queue count
      → IsSearch start
          (search targets sensitive fuel seen queue count).0
          []
          (search targets sensitive fuel seen queue count).1
  unfolding search
  search-IsSearch all start zero seen [] count sub b i = i
  search-IsSearch all start zero seen (x ∷ queue) count sub b i = absurd (omega (arith, b))
  search-IsSearch all start (suc fuel) seen [] count sub b i = i
  search-IsSearch all start (suc fuel) seen (x ∷ queue) count sub b i =
      let s = scan-Scanned all (targets x) seen queue count (sub x) in
      let (seen', queue', count') = scan targets sensitive (targets x) seen queue count in
      search-IsSearch all start fuel seen' queue' count' sub (omega (arith, b, s.measured))
        (expand all start x seen queue count _ i s)

  -- Where the queue is empty, everything that can be reached is seen.
  pub IsSearch-complete :
      (start n : String) (seen : List String) (count : ℕ)
      → IsSearch start seen [] count
      → Reach targets start n
      → member n seen ≡ true
  IsSearch-complete start n seen count i here = i.started
  IsSearch-complete start n seen count i (step k m r e) =
      elim (i.closed k (IsSearch-complete start k seen count i r)) [
        | inl waiting ↦ ground (arith, waiting)
        | inr done ↦ done m e
      ]

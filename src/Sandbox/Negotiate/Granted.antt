-- ===== src/Sandbox/Negotiate/Granted.antt =====
-- crates/secureops-sandbox/src/lib.rs: what `negotiate_capabilities` grants.
use secureops.Prelude.{
  ℕ, ◌≡◌, ◌↔◌, ◌⊎◌, inl, inr, refl, sym, subst, Bool, true, any, Has, str_eq, str_eq_iff, false,
  not, ◌&&◌, Bool-cases, String, List, [], ◌∷◌, ◌++◌, All, keep_if, codes, starts_with, arith,
}
use secureops.Policy.Types.{Decision, is_allowed, DecisionRequest}
use secureops.Sandbox.Types.{Capabilities, within, allows_path}
use secureops.Sandbox.Negotiate.{
  PolicyEngine, is_secret, path_request, network_request, keep, grant_paths, grant_network,
  negotiate_capabilities,
}

abbrev Plain : List String → Type 0
Plain = All (λ path. is_secret path ≡ false)

module _ (pdp : PolicyEngine) where
  keep-Plain :
      (path : String) (d : Decision) (rest : List String × pdp.State)
      → is_secret path ≡ false
      → Plain rest.0
      → Plain (keep pdp path d rest).0
  keep-Plain path d (rest, s) plain a = elim (Bool-cases (is_allowed d)) [
    | inl granted ↦ rw granted (plain, a)
    | inr refused ↦ rw refused a
  ]

  grant_paths-Plain :
      (pid : ℕ) (paths : List String) (s : pdp.State) → Plain (grant_paths pdp pid paths s).0
  unfolding grant_paths
  grant_paths-Plain pid [] s = tt
  grant_paths-Plain pid (path ∷ paths) s = elim (Bool-cases (is_secret path)) [
    | inl secret ↦ rw secret (grant_paths-Plain pid paths s)
    | inr plain ↦
        let (d, s') = pdp.evaluate (path_request pid path) s in
        rw plain
          (keep-Plain path d (grant_paths pdp pid paths s') plain (grant_paths-Plain pid paths s'))
  ]

  -- Whatever the PDP answers, and however its state moves from call to call, no path that names a
  -- `.env` file or credentials is granted.
  pub negotiate_capabilities-Plain :
      (pid : ℕ) (requested : Capabilities) (s : pdp.State)
      → All (λ path. is_secret path ≡ false) (negotiate_capabilities pdp pid requested s).0.fs_paths
  unfolding negotiate_capabilities
  negotiate_capabilities-Plain pid requested s = grant_paths-Plain pid requested.fs_paths s

-- An engine that answers by a function of the request.
abbrev pub stateless : (DecisionRequest → Decision) → PolicyEngine
stateless f = record { State = Unit {0}; evaluate = λ req s. (f req, s) }

grant_paths-keep_if :
    (f : DecisionRequest → Decision) (pid : ℕ) (paths : List String)
    → (grant_paths (stateless f) pid paths tt).0
      ≡ keep_if (λ path. not (is_secret path) && is_allowed (f (path_request pid path))) paths
unfolding grant_paths
grant_paths-keep_if f pid [] = refl
grant_paths-keep_if f pid (path ∷ paths) = ground (arith, grant_paths-keep_if f pid paths)

-- With an engine whose verdict depends on the request only, the negotiated capabilities are those of
-- the requested ones that the engine allows, secret paths left out, with the requested budgets.
pub negotiate_capabilities-keep_if :
    (f : DecisionRequest → Decision) (pid : ℕ) (requested : Capabilities)
    → (negotiate_capabilities (stateless f) pid requested tt).0 ≡ record {
      fs_paths =
          keep_if
            (λ path. not (is_secret path) && is_allowed (f (path_request pid path)))
            requested.fs_paths;
      network_via_proxy = requested.network_via_proxy && is_allowed (f (network_request pid));
      fuel = requested.fuel;
      epoch_deadline_ms = requested.epoch_deadline_ms;
    }
unfolding negotiate_capabilities grant_network
negotiate_capabilities-keep_if f pid requested =
    ground (arith, grant_paths-keep_if f pid requested.fs_paths)

starts_with-append : (p rest : List ℕ) → starts_with (p ++ rest) p ≡ true
starts_with-append [] [] = refl
starts_with-append [] (c ∷ rest) = refl
starts_with-append (c ∷ p) rest = ground (arith, starts_with-append p rest)

rest_of : (s p : List ℕ) → starts_with s p ≡ true → (rest : List ℕ) × (s ≡ p ++ rest)
rest_of s [] e = (s, refl)
rest_of [] (c ∷ p) e = ground arith
rest_of (d ∷ s) (c ∷ p) e =
    let (rest, h) = rest_of s p (ground (arith, e)) in (rest, ground (arith, e, h))

-- A path is a directory, or continues it with a slash.
abbrev pub Below : String → String → Type 0
Below dir path = (path ≡ dir) ⊎ ((rest : List ℕ) × (codes path ≡ (codes dir ++ 47 ∷ []) ++ rest))

within-Below : (dir path : String) → within path dir ≡ true → Below dir path
within-Below dir path e = elim (Bool-cases (str_eq path dir)) [
  | inl same ↦ inl ((str_eq_iff path dir).0 same)
  | inr other ↦ inr (rest_of (codes path) (codes dir ++ 47 ∷ []) (ground (arith, e, other)))
]

Below-within : (dir path : String) → Below dir path → within path dir ≡ true
Below-within dir path (inl e) = ground (arith, (str_eq_iff path dir).1 e)
Below-within dir path (inr (rest, e)) =
    let found : starts_with (codes path) (codes dir ++ 47 ∷ []) ≡ true =
      rw e (starts_with-append (codes dir ++ 47 ∷ []) rest) in
    ground (arith, found)

module _ (p q : String → Bool) where
  any-keep_if :
      (xs : List String)
      → any p (keep_if q xs) ≡ true
      → (x : String) × Has x xs × (q x ≡ true) × (p x ≡ true)
  any-keep_if [] e = ground arith
  any-keep_if (x ∷ xs) e = elim (Bool-cases (q x && p x)) [
    | inl good ↦ (x, inl refl, ground (arith, good), ground (arith, good))
    | inr bad ↦
        let (y, member, kept, found) = any-keep_if xs (ground (arith, bad, e)) in
        (y, inr member, kept, found)
  ]

  keep_if-any :
      (xs : List String) (x : String)
      → Has x xs
      → q x ≡ true
      → p x ≡ true
      → any p (keep_if q xs) ≡ true
  keep_if-any [] x member kept found = absurd (member refl)
  keep_if-any (y ∷ xs) x (inl e) kept found =
      let here : (q y ≡ true) × (p y ≡ true) = (rw (← e) kept, rw (← e) found) in
      rw (here.0, here.1) refl
  keep_if-any (y ∷ xs) x (inr member) kept found =
      ground (arith, keep_if-any xs x member kept found)

-- A requested directory, not itself secret and allowed by the engine, that lets a path in.
pub record IsGranted (f : DecisionRequest → Decision) (pid : ℕ) (paths : List String)
    (path : String) : Type 0 where
  pub dir : String
  pub asked : Has dir paths
  pub plain : is_secret dir ≡ false
  pub allowed : is_allowed (f (path_request pid dir)) ≡ true
  pub below : Below dir path

-- With an engine whose verdict depends on the request only, the negotiated capabilities allow a path
-- exactly when it is, or continues with a slash, a requested one that is not itself secret and that
-- the engine allows: whether the path itself is secret does not matter, so that a `.env` file below
-- a granted directory is let in.
pub allows_path-IsGranted :
    (f : DecisionRequest → Decision) (pid : ℕ) (requested : Capabilities) (path : String)
    → (allows_path (negotiate_capabilities (stateless f) pid requested tt).0 path ≡ true)
      ↔ IsGranted f pid requested.fs_paths path
unfolding allows_path
allows_path-IsGranted f pid requested path =
    let q = λ (dir : String). not (is_secret dir) && is_allowed (f (path_request pid dir)) in
    let caps = negotiate_capabilities-keep_if f pid requested in
    (
      λ e.
          let (dir, asked, kept, found) =
            any-keep_if (within path) q requested.fs_paths
              (subst (λ c. any (within path) c.fs_paths ≡ true) caps e) in
          record {
            dir = dir;
            asked = asked;
            plain = ground (arith, kept);
            allowed = ground (arith, kept);
            below = within-Below dir path found;
          },
      λ g.
          subst (λ c. any (within path) c.fs_paths ≡ true) (sym caps)
            (keep_if-any (within path) q requested.fs_paths g.dir g.asked
              (rw (g.plain, g.allowed) refl) (Below-within g.dir path g.below)),
    )

-- ===== src/Bpf/Chain/Window.antt =====
-- crates/secureops-bpf/src/chain.rs: what the correlator reports, against the history of the process that dials out.
use secureops.Prelude.{
  ℕ, ℤ, eqb_ℤ, eqb_ℤ_iff, ◌+◌, ◌-◌, ◌≤◌, ◌<◌, ◌≡◌, ◌≢◌, ◌⊎◌, inl, inr, refl, sym, subst, ap, ◌∙◌,
  Bool, false, Bool-cases, Option, none, some, List, [], ◌∷◌, arith, leb, if◌then◌else◌,
}
use secureops.Prelude.Map
use secureops.Prelude.Map.{ℤ-Key}
use secureops.Bpf.Events.{SyscallKind, openat, connect, execve, SyscallEvent, is_secret_read}
use secureops.Bpf.Chain.{
  ExfilChain, PidState, ChainCorrelator, new, state_of, match_state, refresh, observe_kind,
  observe_at, is_live, prune,
}

-- What is done with a correlator: an event is observed, or old states are dropped.
pub data Step : Type 0 where
  observed : SyscallEvent → ℕ → Step
  pruned : ℕ → Step

abbrev time_of : Step → ℕ
time_of (observed e now) = now
time_of (pruned now) = now

abbrev pub step : Step → ChainCorrelator → ChainCorrelator
step (observed e now) c = (observe_at e now c).1
step (pruned now) c = prune now c

-- The steps with the latest first.
unfoldable pub after : ℕ → List Step → ChainCorrelator
after ttl [] = new ttl
after ttl (s ∷ past) = step s (after ttl past)

-- What an event makes of a process's open secret: a secret read puts one, a dial-out takes it, and
-- an execution renames it.
abbrev renamed : SyscallEvent → Option PidState → Option PidState
renamed e none = none
renamed e (some st) = some (record st { comm = e.comm })

abbrev event_on : SyscallKind → SyscallEvent → ℕ → Option PidState → Option PidState
event_on openat e now s =
    if is_secret_read e
    then some (record { cred_path = e.path_or_host; comm = e.comm; opened_at_ms = now })
    else s
event_on connect e now s = none
event_on execve e now s = renamed e s

-- The last secret that a process has read and not yet dialed out after, whatever was dropped.
unfoldable pub pending : ℤ → List Step → Option PidState
pending pid [] = none
pending pid (observed e now ∷ past) =
    let before = pending pid past in
    if eqb_ℤ e.pid pid then event_on e.kind e now before else before
pending pid (pruned now ∷ past) = pending pid past

-- The times of the steps do not go back, and none is later than `now`.
abbrev pub IsOrdered : ℕ → List Step → Type 0
IsOrdered now [] = Unit
IsOrdered now (s ∷ past) = (time_of s ≤ now) × IsOrdered (time_of s) past

-- An open secret is young enough to be reported.
abbrev reports : ℕ → ℕ → Option PidState → Bool
reports ttl now none = false
reports ttl now (some st) = leb (now - st.opened_at_ms) ttl

-- What is remembered of a process is its open secret, or nothing where that is too old by now.
abbrev Covers : ℕ → ℕ → Option PidState → Option PidState → Type 0
Covers ttl now got want = (got ≡ want) ⊎ ((got ≡ none) × (reports ttl now want ≡ false))

reports-later :
    (ttl t now : ℕ) (want : Option PidState)
    → t ≤ now
    → reports ttl t want ≡ false
    → reports ttl now want ≡ false
reports-later ttl t now none h r = r
reports-later ttl t now (some st) h r = ground (arith, h, r)

Covers-later :
    (ttl t now : ℕ) (got want : Option PidState)
    → t ≤ now
    → Covers ttl t got want
    → Covers ttl now got want
Covers-later ttl t now got want h (inl e) = inl e
Covers-later ttl t now got want h (inr (n, r)) = inr (n, reports-later ttl t now want h r)

reports-renamed :
    (ttl t : ℕ) (e : SyscallEvent) (s : Option PidState)
    → reports ttl t (renamed e s) ≡ reports ttl t s
reports-renamed ttl t e none = refl
reports-renamed ttl t e (some st) = refl

event_on-Covers :
    (ttl t : ℕ) (k : SyscallKind) (e : SyscallEvent) (got want : Option PidState)
    → Covers ttl t got want
    → Covers ttl t (event_on k e t got) (event_on k e t want)
event_on-Covers ttl t k e got want (inl c) = inl (ap (event_on k e t) c)
event_on-Covers ttl t openat e got want (inr (n, r)) = elim (Bool-cases (is_secret_read e)) [
  | inl secret ↦ inl (rw secret refl)
  | inr plain ↦ inr (rw plain (n, r))
]
event_on-Covers ttl t connect e got want (inr (n, r)) = inl refl
event_on-Covers ttl t execve e got want (inr (n, r)) =
    inr (ap (renamed e) n, reports-renamed ttl t e want ∙ r)

get-refresh :
    (e : SyscallEvent) (pid : ℤ) (s : Option PidState) (states : List (ℤ × PidState))
    → Map.get e.pid states ≡ s
    → Map.get pid (refresh e s states)
      ≡ (if eqb_ℤ e.pid pid then renamed e (Map.get pid states) else Map.get pid states)
get-refresh e pid none states g = ground (arith, g, eqb_ℤ_iff e.pid pid)
get-refresh e pid (some st) states g =
    ground
      (arith, g, eqb_ℤ_iff e.pid pid, Map.get-insert e.pid pid (record st { comm = e.comm }) states)

get-observe_kind :
    (k : SyscallKind) (e : SyscallEvent) (now : ℕ) (pid : ℤ) (c : ChainCorrelator)
    → Map.get pid (observe_kind k e now c).1.states
      ≡ (if eqb_ℤ e.pid pid then event_on k e now (Map.get pid c.states) else Map.get pid c.states)
get-observe_kind openat e now pid c =
    ground (arith, Map.get-insert e.pid pid (state_of e now) c.states)
get-observe_kind connect e now pid c = Map.get-remove e.pid pid c.states
get-observe_kind execve e now pid c = get-refresh e pid _ c.states refl

observe_kind-ttl :
    (k : SyscallKind) (e : SyscallEvent) (now : ℕ) (c : ChainCorrelator)
    → (observe_kind k e now c).1.ttl_ms ≡ c.ttl_ms
observe_kind-ttl openat e now c = ground arith
observe_kind-ttl connect e now c = refl
observe_kind-ttl execve e now c = refl

after-ttl : (ttl : ℕ) (past : List Step) → (after ttl past).ttl_ms ≡ ttl
unfolding after new observe_at prune
after-ttl ttl [] = refl
after-ttl ttl (observed e now ∷ past) = observe_kind-ttl e.kind e now _ ∙ after-ttl ttl past
after-ttl ttl (pruned now ∷ past) = after-ttl ttl past

refresh-IsUnique :
    (e : SyscallEvent) (s : Option PidState) (states : List (ℤ × PidState))
    → Map.IsUnique states
    → Map.IsUnique (refresh e s states)
refresh-IsUnique e none states u = u
refresh-IsUnique e (some st) states u = Map.insert-IsUnique e.pid _ states u

observe_kind-IsUnique :
    (k : SyscallKind) (e : SyscallEvent) (now : ℕ) (c : ChainCorrelator)
    → Map.IsUnique c.states
    → Map.IsUnique (observe_kind k e now c).1.states
observe_kind-IsUnique openat e now c u = elim (Bool-cases (is_secret_read e)) [
  | inl secret ↦ rw secret (Map.insert-IsUnique e.pid (state_of e now) c.states u)
  | inr plain ↦ rw plain u
]
observe_kind-IsUnique connect e now c u = Map.remove-IsUnique e.pid c.states u
observe_kind-IsUnique execve e now c u = refresh-IsUnique e _ c.states u

after-IsUnique : (ttl : ℕ) (past : List Step) → Map.IsUnique (after ttl past).states
unfolding Map.IsUnique after new observe_at prune
after-IsUnique ttl [] = tt
after-IsUnique ttl (observed e now ∷ past) =
    observe_kind-IsUnique e.kind e now _ (after-IsUnique ttl past)
after-IsUnique ttl (pruned now ∷ past) = Map.retain-IsUnique _ _ (after-IsUnique ttl past)

kept-Covers :
    (ttl t : ℕ) (pid : ℤ) (got want : Option PidState)
    → Covers ttl t got want
    → Covers ttl t (Map.kept (is_live ttl t) pid got) want
kept-Covers ttl t pid none want c = c
kept-Covers ttl t pid (some st) want (inl c) = elim (Bool-cases (is_live ttl t pid st)) [
  | inl live ↦ inl (rw live c)
  | inr old ↦ inr (rw old (refl, ap (reports ttl t) (sym c) ∙ old))
]
kept-Covers ttl t pid (some st) want (inr (n, r)) = ground (arith, n)

-- After any steps in the order of time, what is remembered covers what is pending.
after-Covers :
    (ttl now : ℕ) (pid : ℤ) (past : List Step)
    → IsOrdered now past
    → Covers ttl now (Map.get pid (after ttl past).states) (pending pid past)
unfolding after new observe_at prune pending Map.get
after-Covers ttl now pid [] o = inl refl
after-Covers ttl now pid (observed e t ∷ past) o = Covers-later ttl t now _ _ o.0 (
    rw (get-observe_kind e.kind e t pid (after ttl past)) (elim (Bool-cases (eqb_ℤ e.pid pid)) [
      | inl same ↦ rw same (event_on-Covers ttl t e.kind e _ _ (after-Covers ttl t pid past o.1))
      | inr other ↦ rw other (after-Covers ttl t pid past o.1)
    ]))
after-Covers ttl now pid (pruned t ∷ past) o = Covers-later ttl t now _ _ o.0 (
    rw
      (
        Map.get-retain (is_live (after ttl past).ttl_ms t) pid (after ttl past).states
            (after-IsUnique ttl past),
        after-ttl ttl past,
      )
      (kept-Covers ttl t pid _ _ (after-Covers ttl t pid past o.1)))

match_state-Covers :
    (ttl now : ℕ) (e : SyscallEvent) (got want : Option PidState)
    → Covers ttl now got want
    → match_state ttl e now got ≡ match_state ttl e now want
match_state-Covers ttl now e got want (inl c) = ap (match_state ttl e now) c
match_state-Covers ttl now e got none (inr (n, r)) = ap (match_state ttl e now) n
match_state-Covers ttl now e got (some st) (inr (n, r)) = ground (arith, n, r)

-- What a dial-out at `now` is to be reported as, by the open secret of its process: the window is
-- closed at its end.
pub data IsReport (ttl now : ℕ) (e : SyscallEvent)
    : Option PidState → Option ExfilChain → Type 0 where
  clean : IsReport ttl now e none none
  within :
      (st : PidState)
      → now ≤ st.opened_at_ms + ttl
      → IsReport ttl now e (some st) (
          some (record {
            pid = e.pid;
            comm = st.comm;
            cred_path = st.cred_path;
            dest = e.path_or_host;
            gap_ms = now - st.opened_at_ms;
          }))
  expired : (st : PidState) → st.opened_at_ms + ttl < now → IsReport ttl now e (some st) none

match_state-IsReport :
    (ttl now : ℕ) (e : SyscallEvent) (want : Option PidState)
    → IsReport ttl now e want (match_state ttl e now want)
match_state-IsReport ttl now e none = clean
match_state-IsReport ttl now e (some st) = elim (Bool-cases (leb (now - st.opened_at_ms) ttl)) [
  | inl live ↦ rw live (within st (ground (arith, live)))
  | inr old ↦ rw old (expired st (ground (arith, old)))
]

reported-by :
    (ttl now : ℕ) (past : List Step) (e : SyscallEvent)
    → IsOrdered now past
    → e.kind ≡ connect
    → (observe_at e now (after ttl past)).0 ≡ match_state ttl e now (pending e.pid past)
unfolding observe_at
reported-by ttl now past e o k =
    rw (k, after-ttl ttl past)
      (match_state-Covers ttl now e _ _ (after-Covers ttl now e.pid past o))

-- After any sequence of observed events and of prunes at times that do not go back, a dial-out is
-- reported as a chain exactly when its process has read a secret since it last dialed out, and the
-- last one at most the window ago: the chain is of that path, with the name that the process last
-- had, at the read or at an execution since, and pruning never hides one.
pub observe_at-IsReport :
    (ttl now : ℕ) (past : List Step) (e : SyscallEvent)
    → IsOrdered now past
    → e.kind ≡ connect
    → IsReport ttl now e (pending e.pid past) (observe_at e now (after ttl past)).0
observe_at-IsReport ttl now past e o k =
    subst (IsReport ttl now e (pending e.pid past)) (sym (reported-by ttl now past e o k))
      (match_state-IsReport ttl now e (pending e.pid past))

-- Only a dial-out is ever reported.
pub observe_at-quiet :
    (now : ℕ) (e : SyscallEvent) (c : ChainCorrelator)
    → e.kind ≢ connect
    → (observe_at e now c).0 ≡ none
unfolding observe_at
observe_at-quiet now e c k = ground (arith, k)

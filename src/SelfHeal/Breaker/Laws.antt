-- ===== src/SelfHeal/Breaker/Laws.antt =====
-- `CircuitBreaker`: when a class halts, how long it stays halted, and what its window holds.
use secureops.Prelude.{
  ℕ, ◌-◌, ◌≤◌, ◌≡◌, inl, inr, Bool, true, false, not, ◌&&◌, ◌||◌, List, [], ◌∷◌, ◌++◌, arith, ltb,
  All, Bool-cases,
}
use secureops.Prelude.Map
use secureops.SelfHeal.Types.{PlaybookClass, PlaybookClass-Key, same_class}
use secureops.SelfHeal.Breaker.{
  F32, Sample, CircuitBreaker, trim, samples_or_empty, trips, window_at, record_at, is_open, reset,
}

-- Samples in the order of their times, the last no later than `now`.
abbrev pub InOrder : ℕ → List Sample → Type 0
InOrder now [] = Unit
InOrder now ((ok, t) ∷ rest) = (t ≤ now) × All (λ (s : Sample). t ≤ s.1) rest × InOrder now rest

abbrev pub Recent : ℕ → ℕ → List Sample → Type 0
Recent window now = All (λ (s : Sample). now - s.1 ≤ window)

All-since :
    (window now t : ℕ) (l : List Sample)
    → now - t ≤ window
    → All (λ (s : Sample). t ≤ s.1) l
    → Recent window now l
All-since window now t [] h a = tt
All-since window now t (s ∷ l) h a = (omega (arith, a.0), All-since window now t l h a.1)

-- What `trim` keeps of samples in order is within the window.
trim-Recent :
    (window now : ℕ) (l : List Sample) → InOrder now l → Recent window now (trim window now l)
unfolding trim
trim-Recent window now [] h = tt
trim-Recent window now ((ok, t) ∷ rest) h = elim (Bool-cases (ltb window (now - t))) [
  | inl old ↦ rw old (trim-Recent window now rest h.2)
  | inr kept ↦ rw kept (ground arith, All-since window now t rest (ground arith) h.1)
]

All-trim :
    (t window now : ℕ) (l : List Sample)
    → All (λ (s : Sample). t ≤ s.1) l
    → All (λ (s : Sample). t ≤ s.1) (trim window now l)
unfolding trim
All-trim t window now [] a = tt
All-trim t window now (s ∷ l) a = ground (arith, All-trim t window now l a.1)

trim-InOrder : (window now : ℕ) (l : List Sample) → InOrder now l → InOrder now (trim window now l)
unfolding trim
trim-InOrder window now [] h = tt
trim-InOrder window now ((ok, t) ∷ rest) h = elim (Bool-cases (ltb window (now - t))) [
  | inl old ↦ rw old (trim-InOrder window now rest h.2)
  | inr kept ↦ rw kept h
]

All-push :
    (t now : ℕ) (ok : Bool) (l : List Sample)
    → t ≤ now
    → All (λ (s : Sample). t ≤ s.1) l
    → All (λ (s : Sample). t ≤ s.1) (l ++ (ok, now) ∷ [])
All-push t now ok [] h a = (h, tt)
All-push t now ok (s ∷ l) h a = (a.0, All-push t now ok l h a.1)

-- A sample pushed at a later time keeps the order.
push-InOrder :
    (before now : ℕ) (ok : Bool) (l : List Sample)
    → before ≤ now
    → InOrder before l
    → InOrder now (l ++ (ok, now) ∷ [])
push-InOrder before now ok [] h o = (omega arith, tt, tt)
push-InOrder before now ok ((good, t) ∷ l) h o = (
  omega (arith, o.0),
  All-push t now ok l (omega (arith, o.0)) o.1,
  push-InOrder before now ok l h o.2,
)

module _ (f : F32) where
  -- Every class has its samples in order.
  pub record IsTimed (now : ℕ) (b : CircuitBreaker f) : Type 0 where
    pub ordered : (class : PlaybookClass) → InOrder now (samples_or_empty (Map.get class b.samples))

  window_at-InOrder :
      (before now : ℕ) (class : PlaybookClass) (ok : Bool) (b : CircuitBreaker f)
      → before ≤ now
      → IsTimed before b
      → InOrder now (window_at f b class ok now)
  unfolding window_at
  window_at-InOrder before now class ok b h t =
      trim-InOrder b.window_ms now _ (push-InOrder before now ok _ h (t.ordered class))

  -- Recorded at times that do not go back, the samples that a class is judged by are those of the
  -- window: none is older than it.
  pub window_at-Recent :
      (before now : ℕ) (class : PlaybookClass) (ok : Bool) (b : CircuitBreaker f)
      → before ≤ now
      → IsTimed before b
      → Recent b.window_ms now (window_at f b class ok now)
  unfolding window_at
  window_at-Recent before now class ok b h t =
      trim-Recent b.window_ms now _ (push-InOrder before now ok _ h (t.ordered class))

  InOrder-later :
      (before now : ℕ) (l : List Sample) → before ≤ now → InOrder before l → InOrder now l
  InOrder-later before now [] h o = tt
  InOrder-later before now (s ∷ l) h o = (omega (arith, o.0), o.1, InOrder-later before now l h o.2)

  pub record_at-IsTimed :
      (before now : ℕ) (class : PlaybookClass) (ok : Bool) (b : CircuitBreaker f)
      → before ≤ now
      → IsTimed before b
      → IsTimed now (record_at f class ok now b)
  unfolding record_at
  record_at-IsTimed before now class ok b h t = record {
    ordered = λ c.
        rw (Map.get-insert class c (window_at f b class ok now) b.samples)
          (elim (Bool-cases (same_class class c)) [
            | inl same ↦ rw same (window_at-InOrder before now class ok b h t)
            | inr other ↦ rw other (InOrder-later before now _ h (t.ordered c))
          ]);
  }

  -- A recorded result halts its own class, and only that, exactly when the class's window holds
  -- enough samples and its error rate exceeds the threshold; a halted class stays halted.
  pub is_open-record_at :
      (class c : PlaybookClass) (ok : Bool) (now : ℕ) (b : CircuitBreaker f)
      → is_open f c (record_at f class ok now b)
        ≡ (is_open f c b || (same_class class c && trips f b (window_at f b class ok now)))
  unfolding is_open record_at
  is_open-record_at class c ok now b = ground (arith, Map.get-insert class c true b.halted)

  -- A reset opens its own class to runs and leaves the others as they are.
  pub is_open-reset :
      (class c : PlaybookClass) (b : CircuitBreaker f)
      → is_open f c (reset f class b) ≡ (not (same_class class c) && is_open f c b)
  unfolding is_open reset
  is_open-reset class c b = ground (arith, Map.get-insert class c false b.halted)

  pub data Event : Type 0 where
    recorded : PlaybookClass → Bool → ℕ → Event
    resetted : PlaybookClass → Event

  pub apply : Event → CircuitBreaker f → CircuitBreaker f
  apply (recorded class ok now) b = record_at f class ok now b
  apply (resetted class) b = reset f class b

  pub replay : List Event → CircuitBreaker f → CircuitBreaker f
  unfolding apply
  replay [] b = b
  replay (e ∷ es) b = replay es (apply e b)

  -- No event resets the class.
  abbrev pub Spares : PlaybookClass → List Event → Type 0
  Spares c [] = Unit
  Spares c (recorded class ok now ∷ es) = Spares c es
  Spares c (resetted class ∷ es) = (same_class class c ≡ false) × Spares c es

  -- A halted class stays halted through every sequence of recorded results, of any class and at any
  -- times, and of resets of other classes.
  pub is_open-replay :
      (c : PlaybookClass) (es : List Event) (b : CircuitBreaker f)
      → is_open f c b ≡ true
      → Spares c es
      → is_open f c (replay es b) ≡ true
  unfolding replay
  is_open-replay c [] b h n = h
  is_open-replay c (recorded class ok now ∷ es) b h n =
      is_open-replay c es (record_at f class ok now b)
        (ground (arith, is_open-record_at class c ok now b)) n
  is_open-replay c (resetted class ∷ es) b h n =
      is_open-replay c es (reset f class b) (ground (arith, is_open-reset class c b, n.0)) n.1

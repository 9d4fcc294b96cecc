-- ===== src/SelfHeal/Breaker.antt =====
-- crates/secureops-selfheal/src/lib.rs: `CircuitBreaker`. A sample is its result and its time in
-- milliseconds; `f32` is the parameter `f`.
pub mod Laws
use secureops.Prelude.{
  ℕ, ◌-◌, Bool, true, false, not, ◌&&◌, Option, none, some, List, [], ◌∷◌, ◌++◌, keep_if, length,
  ltb, leb, if◌then◌else◌,
}
use secureops.Prelude.Map
use secureops.SelfHeal.Types.{PlaybookClass, PlaybookClass-Key}

pub record F32 : Type 1 where
  pub Float : Type 0
  pub of_usize : ℕ → Float
  pub div : Float → Float → Float
  pub gt : Float → Float → Bool

abbrev pub Sample : Type 0
Sample = Bool × ℕ

-- The loop that pops samples off the front while they are older than the window.
unfoldable pub trim : ℕ → ℕ → List Sample → List Sample
trim window now [] = []
trim window now ((ok, t) ∷ rest) =
    let trimmed = trim window now rest in if ltb window (now - t) then trimmed else (ok, t) ∷ rest

pub errors : List Sample → List Sample
errors samples = keep_if (λ (s : Sample). not s.0) samples

abbrev pub samples_or_empty : Option (List Sample) → List Sample
samples_or_empty none = []
samples_or_empty (some samples) = samples

abbrev pub flag_or_false : Option Bool → Bool
flag_or_false none = false
flag_or_false (some b) = b

module _ (f : F32) where
  pub record CircuitBreaker : Type 0 where
    pub window_ms : ℕ
    pub threshold : f.Float
    pub min_samples : ℕ
    pub samples : List (PlaybookClass × List Sample)
    pub halted : List (PlaybookClass × Bool)

  -- `CircuitBreaker::new`
  unfoldable pub new : ℕ → f.Float → ℕ → CircuitBreaker
  new window_ms threshold min_samples = record {
    window_ms = window_ms;
    threshold = threshold;
    min_samples = min_samples;
    samples = [];
    halted = [];
  }

  -- Whether the samples of a class halt it.
  pub trips : CircuitBreaker → List Sample → Bool
  unfolding errors
  trips b samples =
      leb b.min_samples (length samples)
      && f.gt (f.div (f.of_usize (length (errors samples))) (f.of_usize (length samples)))
          b.threshold

  -- The window of a class, the new sample pushed and the old ones popped.
  pub window_at : CircuitBreaker → PlaybookClass → Bool → ℕ → List Sample
  unfolding trim
  window_at b class ok now =
      trim b.window_ms now (samples_or_empty (Map.get class b.samples) ++ (ok, now) ∷ [])

  unfoldable pub record_at : PlaybookClass → Bool → ℕ → CircuitBreaker → CircuitBreaker
  unfolding trips window_at
  record_at class ok now b =
      let window = window_at b class ok now in
      record b {
        samples = Map.insert class window b.samples;
        halted = if trips b window then Map.insert class true b.halted else b.halted;
      }

  unfoldable pub is_open : PlaybookClass → CircuitBreaker → Bool
  is_open class b = flag_or_false (Map.get class b.halted)

  unfoldable pub reset : PlaybookClass → CircuitBreaker → CircuitBreaker
  reset class b = record b {
    halted = Map.insert class false b.halted;
    samples = Map.remove class b.samples;
  }

-- ===== src/Policy/Cache/Bounds.antt =====
-- crates/secureops-policy/src/lib.rs: the capacity of `DecisionCache` and its eviction.
use secureops.Prelude.{
  ℕ, ◌+◌, ◌≤◌, ◌<◌, ◌≡◌, ◌≢◌, refl, none, some, List, [], ◌∷◌, arith, length, All, Option-cases,
  inl, inr,
}
use secureops.Prelude.Map
use secureops.Prelude.Map.{ℕ-Key}
use secureops.Policy.Types.{DecisionResponse}
use secureops.Policy.Cache.{
  CacheEntry, DecisionCache, serve, get, oldest, evict, make_room, put, clear,
}

abbrev Entry : Type 0
Entry = ℕ × CacheEntry

oldest-length :
    (l : List Entry) (y : Entry) → oldest l ≡ some y → length (Map.remove y.0 l) < length l
unfolding oldest Map.remove
oldest-length [] y h = ground arith
oldest-length (x ∷ rest) y h = elim (Option-cases (oldest rest)) [
  | inl e ↦ ground (arith, e, Map.length-remove-le x.0 rest)
  | inr found ↦
      ground (arith, found.1, Map.length-remove-le x.0 rest, oldest-length rest found.0 found.1)
]

oldest-ne-none : (x : Entry) (rest : List Entry) → oldest (x ∷ rest) ≢ none
unfolding oldest
oldest-ne-none x rest = ground arith

abbrev SinceAll : ℕ → List Entry → Type 0
SinceAll n = All (λ (x : Entry). n ≤ (x.1).inserted)

SinceAll-weaken : (n m : ℕ) (l : List Entry) → n ≤ m → SinceAll m l → SinceAll n l
SinceAll-weaken n m [] h a = tt
SinceAll-weaken n m (x ∷ l) h a = (omega arith, SinceAll-weaken n m l h a.1)

oldest-none : (l : List Entry) → oldest l ≡ none → l ≡ []
oldest-none [] h = refl
oldest-none (x ∷ rest) h = absurd (oldest-ne-none x rest h)

-- The entry that `oldest` finds was inserted no later than any other.
oldest-le : (l : List Entry) (y : Entry) → oldest l ≡ some y → SinceAll (y.1).inserted l
unfolding oldest
oldest-le [] y h = tt
oldest-le (x ∷ rest) y h = elim (Option-cases (oldest rest)) [
  | inl e ↦ ground (arith, e, oldest-none rest e)
  | inr found ↦ ground (
    arith,
    found.1,
    oldest-le rest found.0 found.1,
    SinceAll-weaken (x.1).inserted ((found.0).1).inserted rest,
  )
]

-- The capacity is positive and bounds the number of entries.
pub record IsBounded (c : DecisionCache) : Type 0 where
  pub within : length c.entries ≤ c.capacity
  pub positive : 0 < c.capacity

make_room-length : (c : DecisionCache) → IsBounded c → length (make_room c) + 1 ≤ c.capacity
unfolding make_room evict
make_room-length c v = elim (Option-cases (oldest c.entries)) [
  | inl e ↦ ground (arith, e, oldest-none c.entries e)
  | inr found ↦ ground (arith, found.1, oldest-length c.entries found.0 found.1)
]

-- A cache with a positive capacity that it does not exceed does not exceed it after a put, be it of
-- a new key, where the oldest entry makes room, or of one that it has.
pub put-IsBounded :
    (key now : ℕ) (resp : DecisionResponse) {c : DecisionCache}
    → IsBounded c
    → IsBounded (put key now resp c)
unfolding put Map.insert
put-IsBounded key now resp {c} v =
    ground (arith, make_room-length c v, Map.length-remove-le key (make_room c))

pub get-IsBounded : (key now : ℕ) {c : DecisionCache} → IsBounded c → IsBounded (get key now c).1
unfolding get serve
get-IsBounded key now {c} v = ground (arith, Map.length-remove-le key c.entries)

pub clear-IsBounded : {c : DecisionCache} → IsBounded c → IsBounded (clear c)
unfolding clear
clear-IsBounded v = ground arith

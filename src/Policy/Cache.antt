-- ===== src/Policy/Cache.antt =====
-- crates/secureops-policy/src/lib.rs: `hash_request` and `DecisionCache`. The mutex is a flag that
-- says whether it is poisoned, and an `Instant` is a number of ticks. Where several entries have the
-- smallest `inserted`, the first in the list is evicted.
pub mod Bounds
pub mod Reads
use secureops.Prelude.{
  ℕ, ◌-◌, Bool, true, false, String, Option, none, some, List, [], ◌∷◌, ltb, leb, length,
  if◌then◌else◌,
}
use secureops.Prelude.Map
use secureops.Prelude.Map.{ℕ-Key}
use secureops.Policy.Types.{Action, DecisionRequest, DecisionResponse}

-- What `hash_request` feeds to the hasher, in order.
pub record HashInput : Type 0 where
  pub action : Action
  pub host : String
  pub port : Option ℕ
  pub pid : ℕ
  pub policy_version : String

abbrev pub host_or_empty : Option String → String
host_or_empty none = ""
host_or_empty (some h) = h

-- `hasher` is what `DefaultHasher` makes of the input, an algorithm that its library leaves open.
unfoldable pub hash_request : (HashInput → ℕ) → DecisionRequest → String → ℕ
hash_request hasher req version = hasher (record {
  action = req.action;
  host = host_or_empty req.destination_host;
  port = req.destination_port;
  pid = req.pid;
  policy_version = version;
})

pub record CacheEntry : Type 0 where
  pub resp : DecisionResponse
  pub inserted : ℕ

pub record DecisionCache : Type 0 where
  pub ttl : ℕ
  pub capacity : ℕ
  pub entries : List (ℕ × CacheEntry)
  pub poisoned : Bool

-- `DecisionCache::new`
unfoldable pub new : ℕ → ℕ → DecisionCache
new capacity ttl = record { ttl = ttl; capacity = capacity; entries = []; poisoned = false }

-- The entry under a key, with the clock read by `elapsed`: served, expired and removed, or absent.
pub serve : ℕ → ℕ → DecisionCache → Option CacheEntry → Option DecisionResponse × DecisionCache
serve key now c none = (none, c)
serve key now c (some e) =
    if ltb (now - e.inserted) c.ttl
    then (some (record e.resp { cached = true }), c)
    else (none, record c { entries = Map.remove key c.entries })

unfoldable pub get : ℕ → ℕ → DecisionCache → Option DecisionResponse × DecisionCache
unfolding serve
get key now c = if c.poisoned then (none, c) else serve key now c (Map.get key c.entries)

-- `iter().min_by_key(|(_, e)| e.inserted)`: the first of the oldest entries.
pub oldest : List (ℕ × CacheEntry) → Option (ℕ × CacheEntry)
oldest [] = none
oldest (x ∷ rest) = elim (oldest rest) [
  | none ↦ some x
  | some y ↦ if leb (x.1).inserted (y.1).inserted then some x else some y
]

pub evict : Option (ℕ × CacheEntry) → List (ℕ × CacheEntry) → List (ℕ × CacheEntry)
evict none entries = entries
evict (some x) entries = Map.remove x.0 entries

pub make_room : DecisionCache → List (ℕ × CacheEntry)
unfolding oldest evict
make_room c =
    if leb c.capacity (length c.entries) then evict (oldest c.entries) c.entries else c.entries

unfoldable pub put : ℕ → ℕ → DecisionResponse → DecisionCache → DecisionCache
unfolding make_room
put key now resp c = if c.poisoned then c else record c {
  entries = Map.insert key (record { resp = resp; inserted = now }) (make_room c);
}

unfoldable pub clear : DecisionCache → DecisionCache
clear c = if c.poisoned then c else record c { entries = [] }

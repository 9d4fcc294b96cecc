-- ===== src/Policy/Cache/Reads.antt =====
-- crates/secureops-policy/src/lib.rs: what `DecisionCache::get` serves.
use secureops.Prelude.{
  ℕ, ◌-◌, ◌<◌, ◌≡◌, ◌⊎◌, inl, inr, true, false, none, some, arith, ◌==◌, Option-cases, Bool-cases,
}
use secureops.Prelude.Map
use secureops.Prelude.Map.{ℕ-Key}
use secureops.Policy.Types.{DecisionResponse}
use secureops.Policy.Cache.{CacheEntry, DecisionCache, serve, get, oldest, evict, make_room, put}

-- A verdict that was put is served again under its key, marked as cached, as long as less than the
-- time to live has passed; the read leaves the cache as it is.
pub get-put :
    (key now later : ℕ) (resp : DecisionResponse) (c : DecisionCache)
    → c.poisoned ≡ false
    → later - now < c.ttl
    → get key later (put key now resp c)
      ≡ (some (record resp { cached = true }), put key now resp c)
unfolding get serve put
get-put key now later resp c alive fresh =
    ground (arith, Map.get-insert key key (record { resp = resp; inserted = now }) (make_room c))

-- What a read serves: an entry of the cache younger than the time to live.
pub record Served (key now : ℕ) (c : DecisionCache) (r : DecisionResponse) : Type 0 where
  pub entry : CacheEntry
  pub stored : Map.get key c.entries ≡ some entry
  pub fresh : now - entry.inserted < c.ttl
  pub same : r ≡ record entry.resp { cached = true }

pub get-Served :
    (key now : ℕ) (c : DecisionCache) (r : DecisionResponse)
    → (get key now c).0 ≡ some r
    → Served key now c r
unfolding get serve
get-Served key now c r h = elim (Option-cases (Map.get key c.entries)) [
  | inl e ↦ ground (arith, e)
  | inr found ↦ record {
    entry = found.0;
    stored = found.1;
    fresh = ground (arith, found.1);
    same = ground (arith, found.1);
  }
]

get-make_room :
    (j : ℕ) (c : DecisionCache)
    → (Map.get j (make_room c) ≡ Map.get j c.entries) ⊎ (Map.get j (make_room c) ≡ none)
unfolding make_room evict
get-make_room j c = elim (Option-cases (oldest c.entries)) [
  | inl e ↦ inl (ground (arith, e))
  | inr found ↦ ground (arith, found.1, Map.get-remove (found.0).0 j c.entries)
]

-- A `put` under another key keeps an entry or evicts it; it changes none.
pub get_other-put :
    (key j now : ℕ) (resp : DecisionResponse) (c : DecisionCache)
    → (key == j) ≡ false
    → (Map.get j (put key now resp c).entries ≡ Map.get j c.entries)
      ⊎ (Map.get j (put key now resp c).entries ≡ none)
unfolding put
get_other-put key j now resp c ne = ground (
  arith,
  Map.get-insert key j (record { resp = resp; inserted = now }) (make_room c),
  get-make_room j c,
)

-- A read keeps an entry or drops it; it changes none.
pub get_any-get :
    (key j now : ℕ) (c : DecisionCache)
    → (Map.get j (get key now c).1.entries ≡ Map.get j c.entries)
      ⊎ (Map.get j (get key now c).1.entries ≡ none)
unfolding get serve
get_any-get key j now c = ground (arith, Map.get-remove key j c.entries)

-- Under its own key a `put` leaves the new entry, or changes nothing behind a poisoned lock.
pub get_self-put :
    (key now : ℕ) (resp : DecisionResponse) (c : DecisionCache)
    → (Map.get key (put key now resp c).entries ≡ some (record { resp = resp; inserted = now }))
      ⊎ (put key now resp c ≡ c)
unfolding put
get_self-put key now resp c =
    ground (arith, Map.get-insert key key (record { resp = resp; inserted = now }) (make_room c))

-- An entry after a `put`: the new one, or one from before.
pub put-entry :
    (key j now : ℕ) (resp : DecisionResponse) (c : DecisionCache) (e : CacheEntry)
    → Map.get j (put key now resp c).entries ≡ some e
    → ((key ≡ j) × (e.resp ≡ resp)) ⊎ (Map.get j c.entries ≡ some e)
put-entry key j now resp c e h = elim (Bool-cases (key == j)) [
  | inl eq ↦ ground (arith, eq, get_self-put key now resp c)
  | inr ne ↦ elim (get_other-put key j now resp c ne) [
    | inl kept ↦ inr (cc)
    | inr gone ↦ absurd (cc)
  ]
]

pub get-entry :
    (key j now : ℕ) (c : DecisionCache) (e : CacheEntry)
    → Map.get j (get key now c).1.entries ≡ some e
    → Map.get j c.entries ≡ some e
get-entry key j now c e h = elim (get_any-get key j now c) [
  | inl kept ↦ cc
  | inr gone ↦ absurd (cc)
]

-- A read of a key that is not there leaves the cache alone.
pub get-miss :
    (key now : ℕ) (c : DecisionCache) → Map.get key c.entries ≡ none → get key now c ≡ (none, c)
unfolding get serve
get-miss key now c h = ground (arith, h)

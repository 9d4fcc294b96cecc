-- ===== src/Budget/Pack.antt =====
-- crates/secureops-tokenbudget/src/lib.rs: `Evidence`, `TokenBudget::pack`. The f32 operations and
-- the order of the ids are parameters; token counts are usize of 64 bits.
pub mod Fits
use secureops.Prelude.{
  ℕ, ◌+◌, ◌-◌, ◌/◌, ◌%◌, Bool, true, false, Option, none, some, List, [], ◌∷◌, ◌++◌, String, codes,
  length, leb, ◌==◌, if◌then◌else◌,
}

pub data EvidenceKind : Type 0 where
  finding iam_policy manifest log schema other : EvidenceKind

pub data Order : Type 0 where
  less equal greater : Order

-- f32 with its comparison, and `Uuid`.
pub record Base : Type 1 where
  pub Float : Type 0
  pub of_usize : ℕ → Float
  pub div : Float → Float → Float
  pub partial_cmp : Float → Float → Option Order
  pub clamp : Float → Float
  pub Uuid : Type 0
  pub cmp : Uuid → Uuid → Order

-- `estimate_tokens`: four characters to a token, rounded up.
unfoldable pub estimate_tokens : String → ℕ
estimate_tokens s = (length (codes s) + 3) / 4

abbrev pub or_equal : Option Order → Order
or_equal none = equal
or_equal (some o) = o

-- `Ordering::then`
abbrev pub and_then : Order → Order → Order
and_then equal o = o
and_then less o = less
and_then greater o = greater

module _ (b : Base) where
  pub record Evidence : Type 0 where
    pub id : b.Uuid
    pub kind : EvidenceKind
    pub raw : String
    pub relevance : b.Float
    pub est_tokens : ℕ

  -- `Evidence::new`, with the id that is drawn.
  abbrev pub new_evidence : b.Uuid → EvidenceKind → String → b.Float → Evidence
  new_evidence id kind raw relevance = record {
    id = id;
    kind = kind;
    raw = raw;
    relevance = b.clamp relevance;
    est_tokens = estimate_tokens raw;
  }

  pub density : Evidence → b.Float
  density e = if e.est_tokens == 0 then e.relevance else b.div e.relevance (b.of_usize e.est_tokens)

  -- The comparison that `pack` sorts by.
  pub compare_evidence : Evidence → Evidence → Order
  unfolding density
  compare_evidence x y =
      and_then
        (and_then (or_equal (b.partial_cmp (density y) (density x)))
          (or_equal (b.partial_cmp y.relevance x.relevance)))
        (b.cmp x.id y.id)

  abbrev is_greater : Order → Bool
  is_greater greater = true
  is_greater _ = false

  -- A stable sort: an element goes before the first that is greater.
  pub insert_sorted : Evidence → List Evidence → List Evidence
  unfolding compare_evidence
  insert_sorted x [] = x ∷ []
  insert_sorted x (y ∷ ys) =
      let rest = insert_sorted x ys in
      if is_greater (compare_evidence x y) then y ∷ rest else x ∷ y ∷ ys

  unfoldable pub sort : List Evidence → List Evidence
  unfolding insert_sorted
  sort [] = []
  sort (x ∷ xs) = insert_sorted x (sort xs)

  pub record TokenBudget : Type 0 where
    pub model : String
    pub window : ℕ
    pub reserved_output : ℕ

  abbrev pub available : TokenBudget → ℕ
  available t = t.window - t.reserved_output

  pub record PackResult : Type 0 where
    pub included : List Evidence
    pub dropped : List Evidence
    pub used_tokens : ℕ

  abbrev pub sum_tokens : ℕ → ℕ → ℕ
  sum_tokens used tokens = (used + tokens) % 18446744073709551616

  -- One item of the loop.
  abbrev pub pack_item : ℕ → Evidence → PackResult → PackResult
  pack_item budget e r =
      if leb (sum_tokens r.used_tokens e.est_tokens) budget
      then record r {
        used_tokens = sum_tokens r.used_tokens e.est_tokens;
        included = r.included ++ e ∷ [];
      }
      else record r { dropped = r.dropped ++ e ∷ [] }

  unfoldable pub pack_all : ℕ → List Evidence → PackResult → PackResult
  pack_all budget [] r = r
  pack_all budget (e ∷ es) r = pack_all budget es (pack_item budget e r)

  unfoldable pub pack : TokenBudget → List Evidence → PackResult
  unfolding sort pack_all
  pack t items =
      pack_all (available t) (sort items) (record { included = []; dropped = []; used_tokens = 0 })

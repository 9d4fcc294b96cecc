-- ===== src/Core/Scoring/Layers.antt =====
-- scoring.rs: when the cross-layer pass reports, and what its set of layers holds.
use secureops.Prelude.{
  ℕ, ◌≤◌, ◌<◌, ◌≡◌, refl, ap₂, Bool, true, false, ◌&&◌, ◌||◌, not, Option, none, some, List, [],
  ◌∷◌, arith, length, leb, ◌==◌, any, if◌then◌else◌, keep_if, Bool-cases, inl, inr,
}
use secureops.Core.Types.{Severity, info, MaestroLayer, l1, l2, l3, l4, l5, l6, l7, AuditFinding}
use secureops.Core.Scoring.{rank, insert, is_info, affect, collect, cross_finding, cross_layer_risk}

-- Whether a set holds a layer, and whether a finding other than `info` carries it.
abbrev holds : MaestroLayer → List MaestroLayer → Bool
holds l = any (λ k. rank k == rank l)

abbrev pub carries : MaestroLayer → Option MaestroLayer → Severity → Bool
carries l none severity = false
carries l (some k) severity = not (is_info severity) && rank k == rank l

abbrev pub hit : MaestroLayer → List AuditFinding → Bool
hit l = any (λ f. carries l f.maestro_layer f.severity)

-- Strictly ascending, from above a bound.
abbrev Ascends : ℕ → List MaestroLayer → Type 0
Ascends n [] = Unit
Ascends n (k ∷ ks) = (n < rank k) × Ascends (rank k) ks

holds-insert :
    (j l : MaestroLayer) (ks : List MaestroLayer)
    → holds j (insert l ks) ≡ (rank l == rank j || holds j ks)
unfolding insert
holds-insert j l [] = refl
holds-insert j l (k ∷ ks) = ground (arith, holds-insert j l ks)

Ascends-weaken : (n m : ℕ) (ks : List MaestroLayer) → m ≤ n → Ascends n ks → Ascends m ks
Ascends-weaken n m [] h a = a
Ascends-weaken n m (k ∷ ks) h a = (omega arith, a.1)

insert-Ascends :
    (n : ℕ) (l : MaestroLayer) (ks : List MaestroLayer)
    → n < rank l
    → Ascends n ks
    → Ascends n (insert l ks)
unfolding insert
insert-Ascends n l [] h a = (h, tt)
insert-Ascends n l (k ∷ ks) h a = ground (arith, insert-Ascends (rank k) l ks)

-- A layer below all elements of an ascending list is not in it.
holds-below :
    (l : MaestroLayer) (n : ℕ) (ks : List MaestroLayer)
    → rank l ≤ n
    → Ascends n ks
    → holds l ks ≡ false
holds-below l n [] h a = refl
holds-below l n (k ∷ ks) h a = ground (arith, holds-below l (rank k) ks)

rank-pos : (l : MaestroLayer) → 0 < rank l
unfolding rank
rank-pos l1 = omega arith
rank-pos _ = omega arith

affect-Ascends :
    (o : Option MaestroLayer) (v : Severity) (ks : List MaestroLayer)
    → Ascends 0 ks
    → Ascends 0 (affect o v ks)
unfolding affect
affect-Ascends none v ks a = a
affect-Ascends (some l) info ks a = a
affect-Ascends (some l) _ ks a = insert-Ascends 0 l ks (rank-pos l) a

collect-Ascends :
    (ks : List MaestroLayer) (fs : List AuditFinding) → Ascends 0 ks → Ascends 0 (collect ks fs)
unfolding collect
collect-Ascends ks [] a = a
collect-Ascends ks (f ∷ fs) a =
    collect-Ascends (affect f.maestro_layer f.severity ks) fs
      (affect-Ascends f.maestro_layer f.severity ks a)

holds-affect :
    (j : MaestroLayer) (o : Option MaestroLayer) (v : Severity) (ks : List MaestroLayer)
    → holds j (affect o v ks) ≡ (carries j o v || holds j ks)
unfolding affect
holds-affect j none v ks = refl
holds-affect j (some l) info ks = refl
holds-affect j (some l) _ ks = holds-insert j l ks

-- After the loop a layer is in the set exactly when it was before or a finding carries it.
holds-collect :
    (j : MaestroLayer) (ks : List MaestroLayer) (fs : List AuditFinding)
    → holds j (collect ks fs) ≡ (hit j fs || holds j ks)
unfolding collect
holds-collect j ks [] = refl
holds-collect j ks (f ∷ fs) = ground (
  arith,
  holds-collect j (affect f.maestro_layer f.severity ks) fs,
  holds-affect j f.maestro_layer f.severity ks,
)

hit-collect : (j : MaestroLayer) (fs : List AuditFinding) → holds j (collect [] fs) ≡ hit j fs
hit-collect j fs = ground (arith, holds-collect j [] fs)

rank-injective : (l k : MaestroLayer) → rank l ≡ rank k → l ≡ k
unfolding rank
rank-injective l1 k h = ground arith
rank-injective _ k h = ground arith

-- Ascending lists with the same elements are equal.
Ascends-ext :
    (n m : ℕ) (xs ys : List MaestroLayer)
    → Ascends n xs
    → Ascends m ys
    → ((j : MaestroLayer) → holds j xs ≡ holds j ys)
    → xs ≡ ys
Ascends-ext n m [] [] a b h = refl
Ascends-ext n m [] (y ∷ ys) a b h = ground (arith, h y)
Ascends-ext n m (x ∷ xs) [] a b h = ground (arith, h x)
Ascends-ext n m (x ∷ xs) (y ∷ ys) a b h =
    let e : rank x ≡ rank y =
      ground (arith, h x, h y, holds-below x (rank y) ys, holds-below y (rank x) xs) in
    let tails : xs ≡ ys = Ascends-ext (rank x) (rank y) xs ys a.1 b.1 (λ j. tail_holds j e) in
    ap₂ ◌∷◌ (rank-injective x y e) tails
  where
    tail_holds : (j : MaestroLayer) → rank x ≡ rank y → holds j xs ≡ holds j ys
    tail_holds j e = ground (arith, h j, holds-below j (rank x) xs, holds-below j (rank y) ys)

abbrev all_layers : List MaestroLayer
all_layers = l1 ∷ l2 ∷ l3 ∷ l4 ∷ l5 ∷ l6 ∷ l7 ∷ []

-- The layers that a finding other than `info` carries, in order.
abbrev pub layers_of : List AuditFinding → List MaestroLayer
layers_of fs = keep_if (λ l. hit l fs) all_layers

keep_if-Ascends :
    (p : MaestroLayer → Bool) (n : ℕ) (ks : List MaestroLayer)
    → Ascends n ks
    → Ascends n (keep_if p ks)
keep_if-Ascends p n [] a = tt
keep_if-Ascends p n (k ∷ ks) a = elim (Bool-cases (p k)) [
  | inl e ↦ rw e (a.0, keep_if-Ascends p (rank k) ks a.1)
  | inr e ↦ rw e (
      Ascends-weaken (rank k) n (keep_if p ks) (omega (arith, a.0))
        (keep_if-Ascends p (rank k) ks a.1))
]

holds-keep_if :
    (p : MaestroLayer → Bool) (j : MaestroLayer) (ks : List MaestroLayer)
    → holds j (keep_if p ks) ≡ (p j && holds j ks)
holds-keep_if p j [] = ground arith
holds-keep_if p j (k ∷ ks) = ground (arith, holds-keep_if p j ks, rank-injective k j)

holds-all_layers : (j : MaestroLayer) → holds j all_layers ≡ true
unfolding rank
holds-all_layers l1 = refl
holds-all_layers _ = refl

Ascends-all_layers : Ascends 0 all_layers
unfolding rank
Ascends-all_layers = omega arith

-- The set that the loop builds is the list of the affected layers, in order.
collect-layers_of : (fs : List AuditFinding) → collect [] fs ≡ layers_of fs
collect-layers_of fs =
    Ascends-ext 0 0 (collect [] fs) (layers_of fs) (collect-Ascends [] fs tt)
      (keep_if-Ascends (λ l. hit l fs) 0 all_layers Ascends-all_layers)
      (λ j.
        ground
          (arith, hit-collect j fs, holds-keep_if (λ l. hit l fs) j all_layers, holds-all_layers j))

-- The pass reports one finding, naming in order the layers that a finding other than `info` carries,
-- exactly when these are three or more, and nothing otherwise.
pub cross_layer_risk-layers_of :
    (fs : List AuditFinding)
    → cross_layer_risk fs
      ≡ (if leb 3 (length (layers_of fs)) then cross_finding (layers_of fs) ∷ [] else [])
unfolding cross_layer_risk
cross_layer_risk-layers_of fs = rw (collect-layers_of fs)

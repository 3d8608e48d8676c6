-- ===== src/Gossip/Clock/Order.antt =====
-- vectorClockCompare decides which of two clocks dominates.
use faultlab.Prelude.{
  ◌≡◌, refl, ◌↔◌, ◌⊎◌, inl, inr, String, Bool, true, false, ◌||◌, some, [], ◌∷◌, arith,
  if◌then◌else◌, length, ◌=ℕ=◌, ℤ, pos, negsuc, ◌<ℤ◌, ◌≤ℤ◌, ltb_ℤ, GoMap, at, insert, at-insert,
  eq_iff, Bool-cases, Option-cases, Bool-ext,
}
use faultlab.Gossip.Clock.{Clock, clock_at, add_nodes, scan, verdict, vector_clock_compare}

-- Some node's counter is higher in the first clock.
abbrev pub Exceeds : Clock → Clock → Type 0
Exceeds a b = (node : String) × (clock_at b node <ℤ clock_at a node)

-- The first clock has seen all that the second has, and more.
abbrev pub Dominates : Clock → Clock → Type 0
Dominates a b = ((node : String) → clock_at b node ≤ℤ clock_at a node) × Exceeds a b

-- The same, as a test over the nodes of a map.
exceeds_in {ℓ} : {V : Type ℓ} → Clock → Clock → GoMap V → Bool
exceeds_in a b [] = false
exceeds_in a b ((node, _) ∷ rest) = ltb_ℤ (clock_at b node) (clock_at a node) || exceeds_in a b rest

exceeds_in_sound {ℓ} :
    {V : Type ℓ} (a b : Clock) (m : GoMap V) → exceeds_in a b m ≡ true → Exceeds a b
unfolding exceeds_in
exceeds_in_sound a b [] h = absurd (ground arith)
exceeds_in_sound a b ((node, v) ∷ rest) h =
    elim (Bool-cases (ltb_ℤ (clock_at b node) (clock_at a node))) [
      | inl e ↦ (node, ground arith)
      | inr e ↦ exceeds_in_sound a b rest (ground arith)
    ]

exceeds_in_complete {ℓ} :
    {V : Type ℓ} (a b : Clock) (m : GoMap V) (node : String) (v : V)
    → at m node ≡ some v
    → clock_at b node <ℤ clock_at a node
    → exceeds_in a b m ≡ true
unfolding exceeds_in at
exceeds_in_complete a b [] node v h lt = cc
exceeds_in_complete a b ((j, w) ∷ rest) node v h lt =
    ground (arith, eq_iff j node, exceeds_in_complete a b rest node v)

-- Whether the first clock has a higher counter somewhere.
pub exceeds : Clock → Clock → Bool
exceeds a b = exceeds_in a b a || exceeds_in a b b

pub exceeds_sound : (a b : Clock) → exceeds a b ≡ true → Exceeds a b
unfolding exceeds
exceeds_sound a b h = elim (Bool-cases (exceeds_in a b a)) [
  | inl e ↦ exceeds_in_sound a b a e
  | inr e ↦ exceeds_in_sound a b b (ground arith)
]

-- A node with a higher counter is a key of one of the clocks: what neither has reads 0 in both.
Exceeds-key :
    (a b : Clock) (node : String)
    → clock_at b node <ℤ clock_at a node
    → ((n : ℤ) × (at a node ≡ some n)) ⊎ ((n : ℤ) × (at b node ≡ some n))
unfolding clock_at
Exceeds-key a b node lt = elim (Option-cases (at a node)) [
  | inr found ↦ inl found
  | inl e ↦ elim (Option-cases (at b node)) [
    | inr found ↦ inr found
    | inl f ↦ absurd (ground arith)
  ]
]

pub exceeds_complete : (a b : Clock) → Exceeds a b → exceeds a b ≡ true
unfolding exceeds
exceeds_complete a b (node, lt) = elim (Exceeds-key a b node lt) [
  | inl (n, e) ↦ ground (arith, exceeds_in_complete a b a node n e lt)
  | inr (n, e) ↦ ground (arith, exceeds_in_complete a b b node n e lt)
]

at-add_nodes :
    (nodes : GoMap Bool) (vc : Clock) (k : String) (n : ℤ)
    → (at nodes k ≡ some true) ⊎ (at vc k ≡ some n)
    → at (add_nodes nodes vc) k ≡ some true
unfolding add_nodes at
at-add_nodes nodes [] k n h = ground arith
at-add_nodes nodes ((j, m) ∷ vc) k n h =
    ground (arith, eq_iff j k, at-insert nodes j true k, at-add_nodes (insert nodes j true) vc k n)

abbrev all_nodes : Clock → Clock → GoMap Bool
all_nodes a b = add_nodes (add_nodes [] a) b

at-all_nodes :
    (a b : Clock) (k : String)
    → ((n : ℤ) × (at a k ≡ some n)) ⊎ ((n : ℤ) × (at b k ≡ some n))
    → at (all_nodes a b) k ≡ some true
at-all_nodes a b k (inl (n, e)) =
    at-add_nodes (add_nodes [] a) b k n (inl (at-add_nodes [] a k n (inr e)))
at-all_nodes a b k (inr (n, e)) = at-add_nodes (add_nodes [] a) b k n (inr e)

-- A loop over all nodes of both clocks decides as well.
exceeds_in-exceeds :
    (a b : Clock) (nodes : GoMap Bool)
    → ((k : String)
        → ((n : ℤ) × (at a k ≡ some n)) ⊎ ((n : ℤ) × (at b k ≡ some n))
        → at nodes k ≡ some true)
    → exceeds_in a b nodes ≡ exceeds a b
exceeds_in-exceeds a b nodes covers =
    Bool-ext _ _ (λ h. exceeds_complete a b (exceeds_in_sound a b nodes h))
      λ h.
        let (node, lt) = exceeds_sound a b h in
        exceeds_in_complete a b nodes node true (covers node (Exceeds-key a b node lt)) lt

scan_lem :
    (a b : Clock) (nodes : GoMap Bool) (g l : Bool)
    → scan a b nodes g l ≡ (exceeds_in a b nodes || g, exceeds_in b a nodes || l)
unfolding scan exceeds_in
scan_lem a b [] g l = refl
scan_lem a b ((node, _) ∷ rest) g l = rw (scan_lem a b rest) (ground arith)

compare_nodes :
    (a b : Clock) (nodes : GoMap Bool)
    → exceeds_in a b nodes ≡ exceeds a b
    → exceeds_in b a nodes ≡ exceeds b a
    → (if length nodes =ℕ= 0 then pos 0 else verdict (scan a b nodes false false))
      ≡ verdict (exceeds a b, exceeds b a)
unfolding exceeds_in verdict
compare_nodes a b [] p q = ground arith
compare_nodes a b (n ∷ nodes) p q = ground (arith, scan_lem a b (n ∷ nodes) false false)

-- vectorClockCompare by the two tests, whatever the order of the loop.
pub vector_clock_compare_lem :
    (a b : Clock) → vector_clock_compare a b ≡ verdict (exceeds a b, exceeds b a)
unfolding vector_clock_compare
vector_clock_compare_lem a b =
    compare_nodes a b (all_nodes a b) (exceeds_in-exceeds a b _ (at-all_nodes a b)) (
      exceeds_in-exceeds b a _ λ k h. at-all_nodes a b k (elim h [ inl x ↦ inr x | inr x ↦ inl x ]))

pub exceeds-false :
    (a b : Clock) (node : String) → exceeds a b ≡ false → clock_at a node ≤ℤ clock_at b node
exceeds-false a b node h = elim (Bool-cases (ltb_ℤ (clock_at b node) (clock_at a node))) [
  | inl e ↦ absurd (cc (exceeds_complete a b (node, ground arith)))
  | inr e ↦ ground arith
]

pub exceeds-Dominates : (a b : Clock) → exceeds a b ≡ true → exceeds b a ≡ false → Dominates a b
exceeds-Dominates a b h k = (λ node. exceeds-false b a node k, exceeds_sound a b h)

pub Dominates-exceeds : (a b : Clock) → Dominates a b → (exceeds a b ≡ true) × (exceeds b a ≡ false)
Dominates-exceeds a b (le, over) = (
  exceeds_complete a b over,
  elim (Bool-cases (exceeds b a)) [
    | inl e ↦ let (node, lt) = exceeds_sound b a e in absurd (omega (arith, le node))
    | inr e ↦ e
  ],
)

verdict-pos : (x y : Bool) → verdict (x, y) ≡ pos 1 → (x ≡ true) × (y ≡ false)
unfolding verdict
verdict-pos x y h = ground arith

verdict-neg : (x y : Bool) → verdict (x, y) ≡ negsuc 0 → (y ≡ true) × (x ≡ false)
unfolding verdict
verdict-neg x y h = ground arith

-- The result is 1 exactly if the first clock dominates: no counter is lower, and one is higher.
-- It is -1 exactly if the second dominates, and 0 in every other case.
pub vector_clock_compare-Dominates :
    (a b : Clock)
    → ((vector_clock_compare a b ≡ pos 1) ↔ Dominates a b)
      × ((vector_clock_compare a b ≡ negsuc 0) ↔ Dominates b a)
      × ((vector_clock_compare a b ≡ pos 0) ↔ ((¬ Dominates a b) × (¬ Dominates b a)))
unfolding verdict
vector_clock_compare-Dominates a b = rw (vector_clock_compare_lem a b) (
  (
    λ h. let (x, y) = verdict-pos _ _ h in exceeds-Dominates a b x y,
    λ d. ground (arith, Dominates-exceeds a b d),
  ),
  (
    λ h. let (x, y) = verdict-neg _ _ h in exceeds-Dominates b a x y,
    λ d. ground (arith, Dominates-exceeds b a d),
  ),
  (
    λ h. (
      λ d. ground (arith, Dominates-exceeds a b d),
      λ d. ground (arith, Dominates-exceeds b a d),
    ),
    λ n. incomparable n.0 n.1,
  ),
)
  where
    incomparable : ¬ Dominates a b → ¬ Dominates b a → verdict (exceeds a b, exceeds b a) ≡ pos 0
    incomparable p q = elim (Bool-cases (exceeds a b)) [
      | inl x ↦ elim (Bool-cases (exceeds b a)) [
        | inl y ↦ rw (x, y)
        | inr y ↦ absurd (p (exceeds-Dominates a b x y))
      ]
      | inr x ↦ elim (Bool-cases (exceeds b a)) [
        | inl y ↦ absurd (q (exceeds-Dominates b a y x))
        | inr y ↦ rw (x, y)
      ]
    ]

-- Swapping the clocks turns the sign of the result.
pub vector_clock_compare_flip :
    (a b : Clock)
    → ((vector_clock_compare a b ≡ pos 0) × (vector_clock_compare b a ≡ pos 0))
      ⊎ ((vector_clock_compare a b ≡ pos 1) × (vector_clock_compare b a ≡ negsuc 0))
      ⊎ ((vector_clock_compare a b ≡ negsuc 0) × (vector_clock_compare b a ≡ pos 1))
unfolding verdict
vector_clock_compare_flip a b =
    ground (arith, vector_clock_compare_lem a b, vector_clock_compare_lem b a)

-- ===== src/Gossip/Clock/Merge.antt =====
-- Copying and merging clocks.
use faultlab.Prelude.{
  ◌≡◌, refl, String, true, false, none, [], ◌∷◌, arith, if◌then◌else◌, ℤ, pos, ◌≤ℤ◌, ltb_ℤ, at,
  insert, IsMap, at-insert, insert_all, at-insert_all, eq_iff, Bool-cases, Bool-ext, inl, inr, ◌==◌,
  ◌∙◌, sym,
}
use mathlib.Core.Path.{ap₂}
use faultlab.Gossip.Clock.{
  Clock, clock_at, raise, raise_all, vector_clock_compare, merge_clock, verdict,
}
use faultlab.Gossip.Clock.Order.{exceeds, exceeds_sound, exceeds_complete, vector_clock_compare_lem}

-- Each node stands once, and no counter is negative.
abbrev pub IsClock : Clock → Type 0
IsClock [] = Unit
IsClock ((k, c) ∷ m) = (at m k ≡ none) × (pos 0 ≤ℤ c) × IsClock m

pub IsClock-IsMap : (vc : Clock) → IsClock vc → IsMap vc
IsClock-IsMap [] h = tt
IsClock-IsMap ((k, c) ∷ m) h = (h.0, IsClock-IsMap m h.2)

pub clock_at-nonneg : (vc : Clock) (node : String) → IsClock vc → pos 0 ≤ℤ clock_at vc node
unfolding clock_at at
clock_at-nonneg [] node h = omega arith
clock_at-nonneg ((k, c) ∷ m) node h = ground (arith, clock_at-nonneg m node h.2)

pub clock_at-insert :
    (vc : Clock) (k : String) (c : ℤ) (node : String)
    → clock_at (insert vc k c) node ≡ (if k == node then c else clock_at vc node)
unfolding clock_at
clock_at-insert vc k c node = ground (arith, at-insert vc k c node)

pub insert-IsClock :
    (vc : Clock) (k : String) (c : ℤ) → pos 0 ≤ℤ c → IsClock vc → IsClock (insert vc k c)
unfolding insert at
insert-IsClock [] k c n h = (refl, n, tt)
insert-IsClock ((j, d) ∷ m) k c n h =
    ground (arith, eq_iff j k, eq_iff k j, insert-IsClock m k c n h.2, at-insert m k c j)

pub clock_at-copy :
    (vc : Clock) (node : String) → IsMap vc → clock_at (insert_all [] vc) node ≡ clock_at vc node
unfolding clock_at at
clock_at-copy vc node h = ground (arith, at-insert_all [] vc node h)

copy-IsClock : (into vc : Clock) → IsClock into → IsClock vc → IsClock (insert_all into vc)
unfolding insert_all
copy-IsClock into [] i h = i
copy-IsClock into ((k, c) ∷ vc) i h =
    copy-IsClock (insert into k c) vc (insert-IsClock into k c h.1 i) h.2

-- The higher of two counters.
abbrev pub higher : ℤ → ℤ → ℤ
higher a b = if ltb_ℤ a b then b else a

clock_at-raise :
    (merged : Clock) (k : String) (c : ℤ) (node : String)
    → clock_at (raise merged k c) node
      ≡ (if k == node then higher (clock_at merged node) c else clock_at merged node)
unfolding raise
clock_at-raise merged k c node = ground (arith, clock_at-insert merged k c node, eq_iff k node)

raise-IsClock :
    (merged : Clock) (k : String) (c : ℤ) → pos 0 ≤ℤ c → IsClock merged → IsClock (raise merged k c)
unfolding raise
raise-IsClock merged k c n m = ground (arith, insert-IsClock merged k c n m)

clock_at-cons :
    (k : String) (c : ℤ) (vc : Clock) (node : String)
    → clock_at ((k, c) ∷ vc) node ≡ (if k == node then c else clock_at vc node)
unfolding clock_at at
clock_at-cons k c vc node = ground arith

clock_at-none : (vc : Clock) (k : String) → at vc k ≡ none → clock_at vc k ≡ pos 0
unfolding clock_at
clock_at-none vc k h = rw (h, clock_at)

higher_zero : (a : ℤ) → pos 0 ≤ℤ a → higher a (pos 0) ≡ a
higher_zero a h = ground arith

clock_at-raise_all :
    (merged vc : Clock) (node : String)
    → IsClock merged
    → IsClock vc
    → clock_at (raise_all merged vc) node ≡ higher (clock_at merged node) (clock_at vc node)
unfolding raise_all
clock_at-raise_all merged [] node m h =
    rw (clock_at-none [] node (unfold at in refl))
      (sym (higher_zero _ (clock_at-nonneg merged node m)))
clock_at-raise_all merged ((k, c) ∷ vc) node m h = ground (
  arith,
  clock_at-raise_all (raise merged k c) vc node (raise-IsClock merged k c h.1 m) h.2,
  clock_at-raise merged k c node,
  clock_at-cons k c vc node,
  clock_at-none vc k h.0,
  clock_at-nonneg merged node m,
  eq_iff k node,
)

raise_all-IsClock :
    (merged vc : Clock) → IsClock merged → IsClock vc → IsClock (raise_all merged vc)
unfolding raise_all
raise_all-IsClock merged [] m h = m
raise_all-IsClock merged ((k, c) ∷ vc) m h =
    raise_all-IsClock (raise merged k c) vc (raise-IsClock merged k c h.1 m) h.2

pub merge_clock-IsClock :
    (local incoming : Clock)
    → IsClock local
    → IsClock incoming
    → IsClock (merge_clock local incoming)
unfolding merge_clock
merge_clock-IsClock local incoming l i =
    raise_all-IsClock (insert_all [] local) incoming (copy-IsClock [] local tt l) i

-- The merged clock has, for each node, the higher of the two counters.
pub clock_at-merge_clock :
    (local incoming : Clock) (node : String)
    → IsClock local
    → IsClock incoming
    → clock_at (merge_clock local incoming) node
      ≡ higher (clock_at local node) (clock_at incoming node)
unfolding merge_clock
clock_at-merge_clock local incoming node l i = ground (
  arith,
  clock_at-raise_all (insert_all [] local) incoming node (copy-IsClock [] local tt l) i,
  clock_at-copy local node (IsClock-IsMap local l),
)

-- Comparisons see a clock only through its counters.
pub exceeds_of_le :
    (a b : Clock) → ((node : String) → clock_at a node ≤ℤ clock_at b node) → exceeds a b ≡ false
exceeds_of_le a b le = elim (Bool-cases (exceeds a b)) [
  | inl e ↦ let (node, lt) = exceeds_sound a b e in absurd (omega (arith, le node))
  | inr e ↦ e
]

exceeds_cong :
    (a b c d : Clock)
    → ((node : String) → clock_at a node ≡ clock_at c node)
    → ((node : String) → clock_at b node ≡ clock_at d node)
    → exceeds a b ≡ true
    → exceeds c d ≡ true
exceeds_cong a b c d p q e =
    let (node, lt) = exceeds_sound a b e in exceeds_complete c d (node, rw (← p node, ← q node) lt)

pub vector_clock_compare_cong :
    (a b c d : Clock)
    → ((node : String) → clock_at a node ≡ clock_at c node)
    → ((node : String) → clock_at b node ≡ clock_at d node)
    → vector_clock_compare a b ≡ vector_clock_compare c d
vector_clock_compare_cong a b c d p q =
    vector_clock_compare_lem a b
    ∙ ap₂ (λ x y. verdict (x, y))
        (Bool-ext _ _ (exceeds_cong a b c d p q)
          (exceeds_cong c d a b (λ n. sym (p n)) (λ n. sym (q n))))
        (Bool-ext _ _ (exceeds_cong b a d c q p)
          (exceeds_cong d c b a (λ n. sym (q n)) (λ n. sym (p n))))
    ∙ sym (vector_clock_compare_lem c d)

-- A merged clock is never behind what went into it.
pub merge_clock-not-behind :
    (local incoming : Clock)
    → IsClock local
    → IsClock incoming
    → (exceeds local (merge_clock local incoming) ≡ false)
      × (exceeds incoming (merge_clock local incoming) ≡ false)
merge_clock-not-behind local incoming l i = (
  exceeds_of_le _ _ (λ node. ground (arith, clock_at-merge_clock local incoming node l i)),
  exceeds_of_le _ _ (λ node. ground (arith, clock_at-merge_clock local incoming node l i)),
)

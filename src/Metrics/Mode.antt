-- ===== src/Metrics/Mode.antt =====
-- mostCommonState against the number of nodes that each state has.
use faultlab.Prelude.{
  ℕ, ◌+◌, ◌≤◌, ◌<◌, ◌≡◌, refl, sym, ◌∙◌, ◌↔◌, ◌≢◌, true, false, List, [], ◌∷◌, if◌then◌else◌,
  eq_of_parts, GoMap, eq_iff, str_ltb_irrefl, str_ltb_trans, str_ltb_total, str_ltb_asymm,
  Bool-cases, inl, inr, arith,
}
use faultlab.Metrics.{
  NodeState, zero_state, state_eq, less_state, count_at, increment, is_better, top_of,
  most_common_state,
}

-- How many nodes have the state.
abbrev pub occurrences : GoMap NodeState → NodeState → ℕ
occurrences [] s = 0
occurrences ((id, t) ∷ nodes) s = (if state_eq t s then 1 else 0) + occurrences nodes s

-- All fields but `exists` are the same.
abbrev pub SameButExists : NodeState → NodeState → Type 0
SameButExists a b =
    (a.value ≡ b.value)
    × (a.version ≡ b.version)
    × (a.origin ≡ b.origin)
    × (a.has_metadata ≡ b.has_metadata)

-- `top` has the largest count `n`, and no state with that count is below it.
abbrev pub IsTop : (NodeState → ℕ) → NodeState → ℕ → Type 0
IsTop f top n =
    ((s : NodeState) → f s ≤ n)
    × (f top ≡ n)
    × ((s : NodeState) → 0 < n → f s ≡ n → less_state s top ≡ false)

pub state_eq_iff : (a b : NodeState) → (state_eq a b ≡ true) ↔ (a ≡ b)
unfolding state_eq
state_eq_iff a b = (
  λ h.
      ground
        (arith, eq_iff a.value b.value, eq_iff a.origin b.origin, eq_of_parts a.version b.version),
  λ e. ground (arith, eq_iff a.value b.value, eq_iff a.origin b.origin),
)

less_state_irrefl : (a : NodeState) → less_state a a ≡ false
unfolding less_state
less_state_irrefl a = ground (arith, str_ltb_irrefl a.value, str_ltb_irrefl a.origin)

less_state_trans :
    (a b c : NodeState) → less_state a b ≡ true → less_state b c ≡ true → less_state a c ≡ true
unfolding less_state
less_state_trans a b c h k = ground (
  arith,
  eq_iff a.value b.value,
  eq_iff b.value c.value,
  eq_iff a.value c.value,
  eq_iff a.origin b.origin,
  eq_iff b.origin c.origin,
  eq_iff a.origin c.origin,
  str_ltb_trans a.value b.value c.value,
  str_ltb_asymm a.value b.value,
  str_ltb_trans a.origin b.origin c.origin,
  str_ltb_asymm a.origin b.origin,
)

pub less_state_total :
    (a b : NodeState) → less_state a b ≡ false → less_state b a ≡ false → SameButExists a b
unfolding less_state
less_state_total a b h k = ground (
  arith,
  eq_iff a.value b.value,
  eq_iff b.value a.value,
  eq_iff a.origin b.origin,
  eq_iff b.origin a.origin,
  eq_of_parts a.version b.version,
  str_ltb_total a.value b.value,
  str_ltb_total a.origin b.origin,
)

count_at-increment :
    (counts : List (NodeState × ℕ)) (s t : NodeState)
    → count_at (increment counts s) t
      ≡ (if state_eq s t then count_at counts t + 1 else count_at counts t)
unfolding count_at increment
count_at-increment [] s t = ground arith
count_at-increment ((u, n) ∷ counts) s t =
    ground
      (arith, state_eq_iff u s, state_eq_iff u t, state_eq_iff s t, count_at-increment counts s t)

IsTop-ext :
    (f g : NodeState → ℕ) (top : NodeState) (n : ℕ)
    → ((s : NodeState) → f s ≡ g s)
    → IsTop f top n
    → IsTop g top n
IsTop-ext f g top n e (bound, attained, least) =
    (λ s. omega (arith, e s, bound s), omega (arith, e top), λ s p q. least s p (e s ∙ q))

-- One more node with `state`.
abbrev raised : (NodeState → ℕ) → NodeState → NodeState → ℕ
raised f state s = if state_eq state s then f s + 1 else f s

module _ (f : NodeState → ℕ) (top : NodeState) (n : ℕ) (state : NodeState) (h : IsTop f top n) where
  better_cases :
      (is_better (raised f state state) state n top ≡ true)
      → (n ≤ f state + 1) × (f state + 1 ≡ n → less_state state top ≡ true)
  unfolding is_better
  better_cases b = ground (arith, state_eq_iff state state)

  worse_cases :
      (is_better (raised f state state) state n top ≡ false)
      → (f state + 1 ≤ n) × (f state + 1 ≡ n → less_state state top ≡ false)
  unfolding is_better
  worse_cases b = ground (arith, state_eq_iff state state)

  raised-IsTop_better :
      is_better (raised f state state) state n top ≡ true
      → IsTop (raised f state) state (raised f state state)
  raised-IsTop_better b =
      let (above, smaller) = better_cases b in
      let (bound, attained, least) = h in
      (
        λ s. ground (arith, state_eq_iff state s, state_eq_iff state state, bound s),
        refl,
        λ s p q. ground (
          arith,
          state_eq_iff state s,
          state_eq_iff state state,
          bound s,
          least s,
          less_state_irrefl s,
          less_state_trans s state top,
        ),
      )

  raised-IsTop_worse :
      is_better (raised f state state) state n top ≡ false → IsTop (raised f state) top n
  raised-IsTop_worse b =
      let (below, larger) = worse_cases b in
      let (bound, attained, least) = h in
      (
        λ s. ground (arith, state_eq_iff state s, bound s),
        ground (arith, state_eq_iff state top),
        λ s p q. ground (arith, state_eq_iff state s, bound s, least s),
      )

  raised-IsTop :
      (count : ℕ)
      → count ≡ raised f state state
      → IsTop
          (raised f state)
          (if is_better count state n top then state else top)
          (if is_better count state n top then count else n)
  raised-IsTop count e = elim (Bool-cases (is_better count state n top)) [
    | inl b ↦ rw b (rw e (raised-IsTop_better (rw e at b)))
    | inr b ↦ rw b (raised-IsTop_worse (rw e at b))
  ]

top_of-IsTop :
    (counts : List (NodeState × ℕ)) (top : NodeState) (n : ℕ) (nodes : GoMap NodeState)
    → IsTop (count_at counts) top n
    → IsTop
        (λ s. count_at counts s + occurrences nodes s)
        (top_of counts top n nodes).0
        (top_of counts top n nodes).1
unfolding top_of
top_of-IsTop counts top n [] h = IsTop-ext _ _ top n (λ s. omega arith) h
top_of-IsTop counts top n ((id, state) ∷ nodes) h =
    IsTop-ext _ _ _ _ (λ s. ground (arith, count_at-increment counts state s))
      (top_of-IsTop (increment counts state) _ _ nodes (
        IsTop-ext (raised (count_at counts) state) _ _ _
          (λ s. sym (count_at-increment counts state s))
          (raised-IsTop (count_at counts) top n state h (count_at (increment counts state) state)
            (count_at-increment counts state state))))

-- The count that the code finds is the largest number of nodes with one state, its state has that
-- many nodes, and, where the map is not empty, no other state with that many nodes is below it in
-- the order of lessState.
pub most_common_state-IsTop :
    (nodes : GoMap NodeState)
    → IsTop (occurrences nodes) (most_common_state nodes).0 (most_common_state nodes).1
unfolding most_common_state
most_common_state-IsTop [] = (λ s. omega arith, refl, λ s p q. absurd (omega arith))
most_common_state-IsTop ((id, state) ∷ nodes) =
    IsTop-ext _ _ _ _ (λ s. omega arith) (top_of-IsTop [] zero_state 0 ((id, state) ∷ nodes) start)
  where
    start : IsTop (count_at []) zero_state 0
    start = (λ s. omega arith, refl, λ s p q. absurd (omega arith))

occurrences-pos : (nodes : GoMap NodeState) → nodes ≢ [] → 0 < (most_common_state nodes).1
occurrences-pos [] h = absurd (h refl)
occurrences-pos ((id, state) ∷ nodes) h =
    ground
      (arith, state_eq_iff state state, (most_common_state-IsTop ((id, state) ∷ nodes)).0 state)

-- Two orders of visiting the nodes, in which each state occurs as often, give the same count and,
-- where there are nodes, top states that agree in all fields but `exists`.
pub most_common_state_order :
    (nodes nodes' : GoMap NodeState)
    → ((s : NodeState) → occurrences nodes s ≡ occurrences nodes' s)
    → nodes ≢ []
    → ((most_common_state nodes).1 ≡ (most_common_state nodes').1)
      × SameButExists (most_common_state nodes).0 (most_common_state nodes').0
most_common_state_order nodes nodes' same filled =
    let (bound, attained, least) = most_common_state-IsTop nodes in
    let (bound', attained', least') = most_common_state-IsTop nodes' in
    let s = (most_common_state nodes).0 in
    let s' = (most_common_state nodes').0 in
    let p = occurrences-pos nodes filled in
    let e : (most_common_state nodes).1 ≡ (most_common_state nodes').1 =
      omega (arith, bound s', bound' s, same s, same s') in
    (
      e,
      less_state_total s s' (least' s (omega arith) (omega (arith, same s)))
          (least s' p (omega (arith, same s'))),
    )

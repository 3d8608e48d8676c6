-- ===== src/Gossip/Value/Order.antt =====
-- What the two comparisons of values decide, and that they decide alike.
use faultlab.Prelude.{
  ◌≡◌, ◌↔◌, ◌⊎◌, refl, true, false, arith, if◌then◌else◌, pos, negsuc, ◌<ℤ◌, inl, inr, str_ltb,
  str_ltb_total, eq_of_parts, str_ltb_asymm, str_ltb_irrefl, IsMap,
}
use faultlab.Gossip.Clock.{vector_clock_compare}
use faultlab.Gossip.Clock.Order.{
  Dominates, vector_clock_compare_flip, vector_clock_compare-Dominates,
}
use faultlab.Gossip.Clock.Merge.{clock_at-copy, vector_clock_compare_cong}
use faultlab.Gossip.Value.{Value, value_to_digest_entry, is_incoming_newer, compare_value_to_digest}

-- Of two values, each is not newer than the other.
pub is_incoming_newer_asymm :
    (a b : Value) → is_incoming_newer a b ≡ true → is_incoming_newer b a ≡ false
unfolding is_incoming_newer
is_incoming_newer_asymm a b h = ground (
  arith,
  vector_clock_compare_flip a.vector_clock b.vector_clock,
  str_ltb_asymm a.origin b.origin,
  str_ltb_asymm b.origin a.origin,
)

pub is_incoming_newer_irrefl : (a : Value) → is_incoming_newer a a ≡ false
unfolding is_incoming_newer
is_incoming_newer_irrefl a =
    ground (arith, vector_clock_compare_flip a.vector_clock a.vector_clock, str_ltb_irrefl a.origin)

compare_clock-digest :
    (local v : Value)
    → IsMap v.vector_clock
    → vector_clock_compare local.vector_clock (value_to_digest_entry v).vector_clock
      ≡ vector_clock_compare local.vector_clock v.vector_clock
unfolding value_to_digest_entry
compare_clock-digest local v h =
    vector_clock_compare_cong _ _ _ _ (λ n. refl) (λ n. clock_at-copy v.vector_clock n h)

-- A value is compared with the digest of another as it is with that other value: the result is -1
-- exactly where the other would be accepted as newer, 1 exactly where the other would accept this
-- one, and 0 where neither is newer.
pub compare_value_to_digest_lem :
    (local v : Value)
    → IsMap v.vector_clock
    → compare_value_to_digest local (value_to_digest_entry v) ≡ (
        if is_incoming_newer local v
        then negsuc 0
        else if is_incoming_newer v local
        then pos 1
        else pos 0)
unfolding compare_value_to_digest is_incoming_newer value_to_digest_entry
compare_value_to_digest_lem local v h = ground (
  arith,
  compare_clock-digest local v h,
  vector_clock_compare_flip local.vector_clock v.vector_clock,
  str_ltb_asymm local.origin v.origin,
  str_ltb_asymm v.origin local.origin,
)

-- Neither clock dominates.
abbrev pub Concurrent : Value → Value → Type 0
Concurrent a b =
    (¬ Dominates a.vector_clock b.vector_clock) × (¬ Dominates b.vector_clock a.vector_clock)

-- The last-writer-wins order: by timestamp, then origin, then version.
abbrev pub LwwBefore : Value → Value → Type 0
LwwBefore a b =
    (a.timestamp <ℤ b.timestamp)
    ⊎ ((a.timestamp ≡ b.timestamp)
        × ((str_ltb a.origin b.origin ≡ true) ⊎ ((a.origin ≡ b.origin) × (a.version <ℤ b.version))))

newer_of_neg :
    (local incoming : Value)
    → vector_clock_compare local.vector_clock incoming.vector_clock ≡ negsuc 0
    → is_incoming_newer local incoming ≡ true
unfolding is_incoming_newer
newer_of_neg a b e = ground arith

newer_of_pos :
    (local incoming : Value)
    → vector_clock_compare local.vector_clock incoming.vector_clock ≡ pos 1
    → is_incoming_newer local incoming ≡ false
unfolding is_incoming_newer
newer_of_pos a b e = ground arith

newer_of_zero :
    (local incoming : Value)
    → vector_clock_compare local.vector_clock incoming.vector_clock ≡ pos 0
    → (is_incoming_newer local incoming ≡ true) ↔ LwwBefore local incoming
unfolding is_incoming_newer
newer_of_zero a b e = (
  λ h. ground (
    arith,
    eq_of_parts a.timestamp b.timestamp,
    str_ltb_total a.origin b.origin,
    str_ltb_asymm a.origin b.origin,
  ),
  λ w. ground (arith, str_ltb_asymm a.origin b.origin, str_ltb_irrefl a.origin),
)

-- An incoming value is accepted exactly if its clock dominates the local one, or neither clock
-- dominates and it comes later by timestamp, then origin, then version.
pub is_incoming_newer_iff :
    (local incoming : Value)
    → (is_incoming_newer local incoming ≡ true) ↔ (
        Dominates incoming.vector_clock local.vector_clock
        ⊎ (Concurrent local incoming × LwwBefore local incoming))
is_incoming_newer_iff a b = (
  λ h. elim (vector_clock_compare_flip a.vector_clock b.vector_clock) [
    | inl (z, _) ↦ inr (clocks.2.0 z, (newer_of_zero a b z).0 h)
    | inr (inl (above, _)) ↦ absurd (cc (newer_of_pos a b above))
    | inr (inr (below, _)) ↦ inl (clocks.1.0 below)
  ],
  λ s. elim s [
    | inl d ↦ newer_of_neg a b (clocks.1.1 d)
    | inr (c, w) ↦ (newer_of_zero a b (clocks.2.1 c)).1 w
  ],
)
  where
    clocks :
        ((vector_clock_compare a.vector_clock b.vector_clock ≡ pos 1)
          ↔ Dominates a.vector_clock b.vector_clock)
        × ((vector_clock_compare a.vector_clock b.vector_clock ≡ negsuc 0)
            ↔ Dominates b.vector_clock a.vector_clock)
        × ((vector_clock_compare a.vector_clock b.vector_clock ≡ pos 0) ↔ Concurrent a b)
    clocks = vector_clock_compare-Dominates a.vector_clock b.vector_clock

-- The order has cycles: when c was written after a was seen, and b concurrently with both, and the
-- timestamps fall from a to b to c, then c replaces a, b replaces c, and a replaces b.
pub is_incoming_newer_cycle :
    (a b c : Value)
    → Dominates c.vector_clock a.vector_clock
    → Concurrent b a
    → Concurrent b c
    → c.timestamp <ℤ b.timestamp
    → b.timestamp <ℤ a.timestamp
    → (is_incoming_newer a c ≡ true)
      × (is_incoming_newer c b ≡ true)
      × (is_incoming_newer b a ≡ true)
is_incoming_newer_cycle a b c d p q s t = (
  (is_incoming_newer_iff a c).1 (inl d),
  (is_incoming_newer_iff c b).1 (inr ((q.1, q.0), inl s)),
  (is_incoming_newer_iff b a).1 (inr (p, inl t)),
)

-- The same version, origin and timestamp.
abbrev pub SameStamp : Value → Value → Type 0
SameStamp a b = (a.version ≡ b.version) × (a.origin ≡ b.origin) × (a.timestamp ≡ b.timestamp)

-- Only values with one stamp are such that neither is newer.
pub SameStamp-of_tie :
    (a b : Value) → is_incoming_newer a b ≡ false → is_incoming_newer b a ≡ false → SameStamp a b
unfolding is_incoming_newer
SameStamp-of_tie a b h k = ground (
  arith,
  vector_clock_compare_flip a.vector_clock b.vector_clock,
  str_ltb_total a.origin b.origin,
  eq_of_parts a.version b.version,
  eq_of_parts a.timestamp b.timestamp,
)

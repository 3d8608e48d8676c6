-- ===== src/Gossip/Merge/Settled.antt =====
-- After handleState no replica holds anything older than it held or was sent.
use faultlab.Prelude.{
  ◌≡◌, refl, String, true, false, Option, none, some, [], arith, at, IsMap, str_ltb_asymm,
  str_ltb_irrefl, Bool-cases, Option-cases, inl, inr, ◌∙◌, ap, sym,
}
use mathlib.Core.Option.{some-injective}
use mathlib.Core.Path.{subst}
use faultlab.Gossip.Clock.{Clock, verdict}
use faultlab.Gossip.Clock.Order.{
  exceeds, exceeds_sound, exceeds_complete, exceeds-false, vector_clock_compare_lem,
}
use faultlab.Gossip.Clock.Merge.{IsClock, merge_clock-IsClock, merge_clock-not-behind}
use faultlab.Gossip.Value.{Value, is_incoming_newer}
use faultlab.Gossip.Value.Order.{is_incoming_newer_irrefl}
use faultlab.Gossip.State.{GossipProtocol, GossipMessage}
use faultlab.Gossip.Merge.{handle_state}
use faultlab.Gossip.Merge.Laws.{merged, merged_first, received, at-handle_state}

-- Each node stands once in the clock of the value, with a counter that is not negative.
abbrev pub IsValid : Value → Type 0
IsValid v = IsClock v.vector_clock

-- What a lower clock exceeds, a clock that is not behind it exceeds too.
exceeds_mono : (a b c : Clock) → exceeds a c ≡ false → exceeds a b ≡ true → exceeds c b ≡ true
exceeds_mono a b c k h =
    let (node, lt) = exceeds_sound a b h in
    exceeds_complete c b (node, omega (arith, exceeds-false a c node k))

-- A value with the stamp of a later one and a clock that is not behind is not older.
newer-merged_local :
    (l v m : Value)
    → is_incoming_newer l v ≡ true
    → exceeds l.vector_clock m.vector_clock ≡ false
    → exceeds v.vector_clock m.vector_clock ≡ false
    → m.timestamp ≡ v.timestamp
    → m.origin ≡ v.origin
    → m.version ≡ v.version
    → is_incoming_newer m l ≡ false
unfolding is_incoming_newer verdict
newer-merged_local l v m h p q t o n = ground (
  arith,
  vector_clock_compare_lem l.vector_clock v.vector_clock,
  vector_clock_compare_lem m.vector_clock l.vector_clock,
  exceeds_mono v.vector_clock l.vector_clock m.vector_clock q,
  str_ltb_asymm l.origin v.origin,
)

newer_of_not-behind :
    (m v : Value)
    → exceeds v.vector_clock m.vector_clock ≡ false
    → m.timestamp ≡ v.timestamp
    → m.origin ≡ v.origin
    → m.version ≡ v.version
    → is_incoming_newer m v ≡ false
unfolding is_incoming_newer verdict
newer_of_not-behind m v p t o n =
    ground (arith, vector_clock_compare_lem m.vector_clock v.vector_clock, str_ltb_irrefl v.origin)

-- What a replica holds after an incoming value: neither the incoming value nor the one that it held
-- is newer, and the clock is well formed.
pub received_settled :
    (found : Option Value) (v : Value)
    → ((l : Value) → found ≡ some l → IsValid l)
    → IsValid v
    → (w : Value) × (received found (some v) ≡ some w)
      × (is_incoming_newer w v ≡ false)
      × ((l : Value) → found ≡ some l → is_incoming_newer w l ≡ false)
      × IsValid w
received_settled none v fl fv =
    let behind = merge_clock-not-behind [] v.vector_clock tt fv in
    (
      merged_first v,
      refl,
      newer_of_not-behind (merged_first v) v behind.1 refl refl refl,
      λ l e. cc,
      merge_clock-IsClock [] v.vector_clock tt fv,
    )
received_settled (some l) v fl fv =
    let behind = merge_clock-not-behind l.vector_clock v.vector_clock (fl l refl) fv in
    elim (Bool-cases (is_incoming_newer l v)) [
      | inl e ↦ (
        merged l v,
        rw e,
        newer_of_not-behind (merged l v) v behind.1 refl refl refl,
        λ k p.
            subst (λ x. is_incoming_newer (merged l v) x ≡ false) (some-injective _ _ p)
              (newer-merged_local l v (merged l v) e behind.0 behind.1 refl refl refl),
        merge_clock-IsClock l.vector_clock v.vector_clock (fl l refl) fv,
      )
      | inr e ↦ (
        l,
        rw e,
        e,
        λ k p.
            subst (λ x. is_incoming_newer l x ≡ false) (some-injective _ _ p)
              (is_incoming_newer_irrefl l),
        fl l refl,
      )
    ]

-- No message makes a replica go back: under each key that it had, it still has a value, and what it
-- had is not newer than that value.
pub handle_state-no_regress :
    (g : GossipProtocol) (msg : GossipMessage) (k : String) (l : Value)
    → IsMap msg.state
    → ((v : Value) → at msg.state k ≡ some v → IsValid v)
    → IsValid l
    → at g.store k ≡ some l
    → (w : Value) × (at (handle_state g msg).0.store k ≡ some w) × (is_incoming_newer w l ≡ false)
handle_state-no_regress g msg k l m valid lv e = elim (Option-cases (at msg.state k)) [
  | inl f ↦ (l, at-handle_state g msg k m ∙ cc, is_incoming_newer_irrefl l)
  | inr (v, f) ↦
      let (w, r, _, not_older, _) =
        received_settled (some l) v (λ x p. subst IsValid (some-injective _ _ p) lv) (valid v f) in
      (w, at-handle_state g msg k m ∙ rw (e, f) r, not_older l refl)
]

received_twice :
    (found sent : Option Value)
    → ((l : Value) → found ≡ some l → IsValid l)
    → ((v : Value) → sent ≡ some v → IsValid v)
    → received (received found sent) sent ≡ received found sent
received_twice found none fl fv = refl
received_twice found (some v) fl fv =
    let (w, r, settled, _, _) = received_settled found v fl (fv v refl) in rw r (rw settled)

-- A STATE message that arrives twice changes nothing the second time.
pub handle_state_idem :
    (g : GossipProtocol) (msg : GossipMessage) (k : String)
    → IsMap msg.state
    → ((l : Value) → at g.store k ≡ some l → IsValid l)
    → ((v : Value) → at msg.state k ≡ some v → IsValid v)
    → at (handle_state (handle_state g msg).0 msg).0.store k ≡ at (handle_state g msg).0.store k
handle_state_idem g msg k m fl fv =
    at-handle_state (handle_state g msg).0 msg k m
    ∙ ap (λ o. received o (at msg.state k)) (at-handle_state g msg k m)
    ∙ received_twice (at g.store k) (at msg.state k) fl fv
    ∙ sym (at-handle_state g msg k m)

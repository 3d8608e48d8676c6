-- ===== src/Runtime/FaultParams/Laws.antt =====
-- What a fault request leaves in the engine.
use faultlab.Prelude.{
  ◌≡◌, ◌∙◌, ◌⊎◌, inl, inr, Option-cases, ◌↔◌, refl, String, Bool, true, false, not, ◌&&◌, ◌||◌,
  Option, none, some, List, [], ◌∷◌, arith, if◌then◌else◌, ℤ, pos, ltb_ℤ, GoMap, at, insert,
  at-insert, at-delete, ◌==◌, eq_iff, contains,
}
use faultlab.Fault.{
  Floats, Engine, crash, recover, set_drop_rate, set_delay, partition, heal, is_partitioned,
}
use faultlab.Runtime.FaultParams.{
  FaultRequest, ParamsError, desired_from, cut_or_heal, apply_known, apply_desired, apply_params,
  check_params, apply_unless, set_fault_params,
}

-- The peers that a request asks to cut off.
abbrev pub asks : String → List String → String → Bool
asks self ids p = not (p == "") && not (p == self) && contains ids p

at-desired_from :
    (self : String) (desired : GoMap (Unit {0})) (ids : List String) (p : String)
    → at (desired_from self desired ids) p ≡ (if asks self ids p then some tt else at desired p)
unfolding desired_from contains
at-desired_from self desired [] p = ground arith
at-desired_from self desired (id ∷ ids) p = ground (
  arith,
  at-desired_from self (if id == "" || id == self then desired else insert desired id tt) ids p,
  at-insert desired id tt p,
  eq_iff id p,
)

-- The flag of a peer after a loop that cuts it off if it is in the desired set.
cut : Option (Unit {0}) → Option Bool → Option Bool
cut none b = b
cut (some _) b = some true

module _ {Float : Type 0} where
  at-cut_or_heal :
      (d : Option (Unit {0})) (e : Engine Float) (id p : String)
      → at (cut_or_heal d e id).partitions p ≡ (if id == p then cut d none else at e.partitions p)
  unfolding cut_or_heal partition heal cut
  at-cut_or_heal none e id p = at-delete e.partitions id p
  at-cut_or_heal (some _) e id p = at-insert e.partitions id true p

  at-apply_known :
      (desired : GoMap (Unit {0})) (e : Engine Float) (ids : List String) (p : String)
      → at (apply_known desired e ids).partitions p
        ≡ (if contains ids p then cut (at desired p) none else at e.partitions p)
  unfolding apply_known contains cut
  at-apply_known desired e [] p = refl
  at-apply_known desired e (id ∷ ids) p = ground (
    arith,
    at-apply_known desired (cut_or_heal (at desired id) e id) ids p,
    at-cut_or_heal (at desired id) e id p,
    eq_iff id p,
  )

  at-apply_desired :
      (e : Engine Float) (desired : GoMap (Unit {0})) (p : String)
      → at (apply_desired e desired).partitions p ≡ cut (at desired p) (at e.partitions p)
  unfolding apply_desired partition cut at
  at-apply_desired e [] p = refl
  at-apply_desired e ((id, _) ∷ desired) p =
      ground (arith, at-apply_desired (partition e id) desired p, at-insert e.partitions id true p)

  -- All of an engine but its partitions.
  abbrev switches : Engine Float → Bool × Float × ℤ
  switches e = (e.crashed, e.drop_rate, e.delay_ms)

  switches-cut_or_heal :
      (d : Option (Unit {0})) (e : Engine Float) (id : String)
      → switches (cut_or_heal d e id) ≡ switches e
  unfolding cut_or_heal partition heal
  switches-cut_or_heal none e id = refl
  switches-cut_or_heal (some _) e id = refl

  switches-apply_known :
      (desired : GoMap (Unit {0})) (e : Engine Float) (ids : List String)
      → switches (apply_known desired e ids) ≡ switches e
  unfolding apply_known
  switches-apply_known desired e [] = refl
  switches-apply_known desired e (id ∷ ids) =
      switches-apply_known desired (cut_or_heal (at desired id) e id) ids
      ∙ switches-cut_or_heal (at desired id) e id

  switches-apply_desired :
      (e : Engine Float) (desired : GoMap (Unit {0}))
      → switches (apply_desired e desired) ≡ switches e
  unfolding apply_desired partition
  switches-apply_desired e [] = refl
  switches-apply_desired e ((id, _) ∷ desired) = switches-apply_desired (partition e id) desired

  -- The engine after the switches of a request and before its partitions.
  abbrev tuned : Engine Float → FaultRequest Float → Engine Float
  tuned e r =
      set_delay (set_drop_rate (if r.crashed then crash e else recover e) r.drop_rate) r.delay_ms

  switches-tuned :
      (e : Engine Float) (r : FaultRequest Float)
      → (switches (tuned e r) ≡ (r.crashed, r.drop_rate, r.delay_ms))
        × ((tuned e r).partitions ≡ e.partitions)
  unfolding set_delay set_drop_rate crash recover
  switches-tuned e r = ground arith

  -- The effect of an accepted request: the switches are those of the request, the peers that it
  -- names are cut off, and of the others the known ones are let through; a peer that is neither
  -- named nor known stays as it was.
  abbrev pub IsApplied :
      String → List String → Engine Float → FaultRequest Float → Engine Float → Type 0
  IsApplied self known e r e' =
      (switches e' ≡ (r.crashed, r.drop_rate, r.delay_ms))
      × ((p : String)
          → is_partitioned e' p
            ≡ (asks self r.partition p || (not (contains known p) && is_partitioned e p)))

  apply_params-IsApplied :
      (self : String) (known : List String) (e : Engine Float) (r : FaultRequest Float)
      → IsApplied self known e r (apply_params self known e r)
  unfolding apply_params is_partitioned cut
  apply_params-IsApplied self known e r =
      let desired = desired_from self [] r.partition in
      (
        switches-apply_desired (apply_known desired (tuned e r) known) desired
            ∙ switches-apply_known desired (tuned e r) known
            ∙ (switches-tuned e r).0,
        λ p. ground (
          arith,
          at-apply_desired (apply_known desired (tuned e r) known) desired p,
          at-apply_known desired (tuned e r) known p,
          at-desired_from self [] r.partition p,
          (switches-tuned e r).1,
          at-nil p,
        ),
      )
    where
      at-nil : (q : String) → at {V = Unit {0}} [] q ≡ none
      at-nil q = unfold at in refl

module _ (floats : Floats) where
  open floats use {Float, lt, zero_rate, one_rate}

  -- A request that is for this node, with a drop rate from 0 to 1 and no negative delay.
  abbrev pub IsAcceptable : String → FaultRequest Float → Type 0
  IsAcceptable self r =
      ((r.node_id ≡ "") ⊎ (r.node_id ≡ self))
      × (lt r.drop_rate zero_rate ≡ false)
      × (lt one_rate r.drop_rate ≡ false)
      × (ltb_ℤ r.delay_ms (pos 0) ≡ false)

  check_params-IsAcceptable :
      (self : String) (r : FaultRequest Float)
      → (check_params floats self r ≡ none) ↔ IsAcceptable self r
  unfolding check_params
  check_params-IsAcceptable self r = (
    λ h. ground (arith, eq_iff r.node_id "", eq_iff r.node_id self),
    λ a. ground (arith, eq_iff r.node_id "", eq_iff r.node_id self),
  )

  -- SetFaultParams answers with an error exactly if the request is not acceptable, and then leaves
  -- the engine alone; otherwise the switches become those of the request, the peers that it names
  -- are cut off, the other known peers are let through, and a peer that is neither named nor known
  -- stays as it was.
  pub set_fault_params_lem :
      (self : String) (known : List String) (e : Engine Float) (r : FaultRequest Float)
      → (IsAcceptable self r
          × (e' : Engine Float) × (set_fault_params floats self known (some e) (some r)
              ≡ (none, some e'))
          × IsApplied self known e r e')
        ⊎ ((¬ IsAcceptable self r)
            × (error : ParamsError) × (set_fault_params floats self known (some e) (some r)
                ≡ (some error, some e)))
  unfolding set_fault_params
  set_fault_params_lem self known e r = elim (Option-cases (check_params floats self r)) [
    | inl none_found ↦ inl (
      (check_params-IsAcceptable self r).0 none_found,
      apply_params self known e r,
      rw (none_found, apply_unless),
      apply_params-IsApplied self known e r,
    )
    | inr (error, found) ↦
        inr (λ a. cc ((check_params-IsAcceptable self r).1 a), error, rw (found, apply_unless))
  ]

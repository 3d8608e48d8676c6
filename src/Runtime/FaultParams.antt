-- ===== src/Runtime/FaultParams.antt =====
-- SetFaultParams of internal/node/runtime/rpc.go.
pub mod Laws
use faultlab.Prelude.{
  String, Bool, true, false, not, ◌&&◌, ◌||◌, Option, none, some, List, [], ◌∷◌, if◌then◌else◌, ℤ,
  pos, ltb_ℤ, GoMap, at, insert, ◌==◌,
}
use faultlab.Fault.{Floats, Engine, crash, recover, set_drop_rate, set_delay, partition, heal}

-- protocol.FaultRequest
pub record FaultRequest (Float : Type 0) : Type 0 where
  pub node_id : String
  pub crashed : Bool
  pub drop_rate : Float
  pub delay_ms : ℤ
  pub partition : List String

pub data ParamsError : Type 0 where
  nil_request nil_engine node_mismatch drop_rate_range negative_delay : ParamsError

-- desired[id] = struct{}{} for each id that is neither empty nor the node itself
desired_from : String → GoMap (Unit {0}) → List String → GoMap (Unit {0})
desired_from self desired [] = desired
desired_from self desired (id ∷ ids) =
    desired_from self (if id == "" || id == self then desired else insert desired id tt) ids

module _ {Float : Type 0} where
  cut_or_heal : Option (Unit {0}) → Engine Float → String → Engine Float
  cut_or_heal none e id = heal e id
  cut_or_heal (some _) e id = partition e id

  -- The loop over the known peers.
  apply_known : GoMap (Unit {0}) → Engine Float → List String → Engine Float
  unfolding cut_or_heal
  apply_known desired e [] = e
  apply_known desired e (id ∷ ids) = apply_known desired (cut_or_heal (at desired id) e id) ids

  -- The loop over the desired set.
  apply_desired : Engine Float → GoMap (Unit {0}) → Engine Float
  apply_desired e [] = e
  apply_desired e ((id, _) ∷ desired) = apply_desired (partition e id) desired

  apply_params : String → List String → Engine Float → FaultRequest Float → Engine Float
  unfolding desired_from apply_known apply_desired
  apply_params self known e r =
      let switched = if r.crashed then crash e else recover e in
      let tuned = set_delay (set_drop_rate switched r.drop_rate) r.delay_ms in
      let desired = desired_from self [] r.partition in
      apply_desired (apply_known desired tuned known) desired

module _ (floats : Floats) where
  open floats use {Float, lt, zero_rate, one_rate}

  -- The three guards.
  check_params : String → FaultRequest Float → Option ParamsError
  check_params self r =
      if not (r.node_id == "") && not (r.node_id == self)
      then some node_mismatch
      else if lt r.drop_rate zero_rate || lt one_rate r.drop_rate
      then some drop_rate_range
      else if ltb_ℤ r.delay_ms (pos 0)
      then some negative_delay
      else none

  apply_unless :
      Option ParamsError
      → String
      → List String
      → Engine Float
      → FaultRequest Float
      → Option ParamsError × Option (Engine Float)
  unfolding apply_params
  apply_unless none self known e r = (none, some (apply_params self known e r))
  apply_unless (some error) self known e r = (some error, some e)

  -- SetFaultParams: the error, if any, and the engine. `self` and `known` are the node's id and the
  -- ids of its peers in the configuration.
  unfoldable pub set_fault_params :
      String
      → List String
      → Option (Engine Float)
      → Option (FaultRequest Float)
      → Option ParamsError × Option (Engine Float)
  unfolding check_params apply_unless
  set_fault_params self known engine none = (some nil_request, engine)
  set_fault_params self known none (some r) = (some nil_engine, none)
  set_fault_params self known (some e) (some r) = apply_unless (check_params self r) self known e r

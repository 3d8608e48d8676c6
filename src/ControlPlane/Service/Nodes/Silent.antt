-- ===== src/ControlPlane/Service/Nodes/Silent.antt =====
-- The lifecycle events of SetFaultParams.
use faultlab.Prelude.{
  ℕ, ◌≡◌, refl, String, Bool, Option, none, some, inl, inr, ℤ, pos, eq_refl, Option-cases,
  Bool-cases, arith,
}
use faultlab.Cluster.{FaultState, Node, no_capabilities}
use faultlab.Cluster.Manager.{
  Manager, FaultReply, refused, stored, passed_on, get_node, set_fault_params,
}
use faultlab.Cluster.Manager.Registry.{get_node-changes}
use faultlab.ControlPlane.Service.{Service}
use faultlab.ControlPlane.Service.Nodes.{
  crash_event, partition_event, fault_events, faults_set, service_set_fault_params,
}

module _ {Float : Type 0} where
  -- The stored node has the new parameters after the write.
  stored_fault :
      (m : Manager Float) (c n : String) (params : FaultState Float) (old : Node Float)
      → get_node (set_fault_params m c n params).1 c n ≡ some old
      → old.fault ≡ params
  stored_fault m c n params old h =
      let after = (get_node-changes m c c n n 0 0 "" no_capabilities (pos 0) params).3 in
      elim (Option-cases (get_node m c n)) [
        | inl missing ↦ absurd (ground (arith, after, eq_refl c, eq_refl n))
        | inr (x, found) ↦ ground (arith, after, eq_refl c, eq_refl n)
      ]

  unchanged_fault :
      (s : Service Float) (c n : String) (fault : FaultState Float) (now : ℕ)
      → partition_event (crash_event s c n fault fault now) c n fault fault now ≡ s
  unfolding crash_event partition_event
  unchanged_fault s c n fault now = ground arith

  fault_events-silent :
      (s : Service Float) (c n : String) (o : Option (Node Float)) (fault : FaultState Float)
      (now : ℕ)
      → ((old : Node Float) → o ≡ some old → old.fault ≡ fault)
      → fault_events s c n o fault now ≡ s
  unfolding fault_events
  fault_events-silent s c n none fault now h = refl
  fault_events-silent s c n (some old) fault now h =
      rw (h old refl) (unchanged_fault s c n fault now)

  faults_set-silent :
      (s : Service Float) (c n : String) (fault : FaultState Float) (now : ℕ)
      (answer : String → ℤ → Bool) (reply : FaultReply Float)
      → ((old : Node Float) → get_node s.cluster c n ≡ some old → old.fault ≡ fault)
      → (faults_set s c n fault now answer reply).1 ≡ s
  unfolding faults_set
  faults_set-silent s c n fault now answer (refused e) h = refl
  faults_set-silent s c n fault now answer stored h =
      fault_events-silent s c n (get_node s.cluster c n) fault now h
  faults_set-silent s c n fault now answer (passed_on host port m params) h =
      elim (Bool-cases (answer host port)) [
        | inl e ↦ rw e (fault_events-silent s c n (get_node s.cluster c n) fault now h)
        | inr e ↦ rw e refl
      ]

  -- SetFaultParams records no lifecycle event, whatever the request changes: the sessions and all
  -- else but the clusters are those from before.
  pub service_set_fault_params-silent :
      (s : Service Float) (c n : String) (fault : FaultState Float) (now : ℕ)
      (answer : String → ℤ → Bool)
      → (service_set_fault_params s c n fault now answer).1
        ≡ record s { cluster = (set_fault_params s.cluster c n fault).1 }
  unfolding service_set_fault_params
  service_set_fault_params-silent s c n fault now answer =
      faults_set-silent (record s { cluster = (set_fault_params s.cluster c n fault).1 }) c n fault
        now answer (set_fault_params s.cluster c n fault).0 (stored_fault s.cluster c n fault)

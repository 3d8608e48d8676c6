-- ===== src/Tests/Faults.antt =====
-- The fault engine and fault requests at concrete inputs; a rate is a number of percent.
use faultlab.Prelude.{ℕ, ◌≡◌, ◌⊎◌, true, false, none, some, [], ◌∷◌, pos, ltb}
use faultlab.Fault.{Floats, Engine}
use faultlab.Runtime.FaultParams.{FaultRequest, ParamsError, set_fault_params}
use faultlab.Runtime.FaultParams.Laws.{IsAcceptable, IsApplied, set_fault_params_lem}

abbrev pub percent : Floats
percent = record { Float = ℕ; lt = ltb; zero_rate = 0; one_rate = 100 }

abbrev pub lossy : Engine ℕ
lossy = record {
  crashed = false;
  drop_rate = 30;
  delay_ms = pos 40;
  partitions = ("peer-2", true) ∷ [];
}

abbrev split : FaultRequest ℕ
split = record {
  node_id = "n1";
  crashed = false;
  drop_rate = 10;
  delay_ms = pos 5;
  partition = "peer-3" ∷ [];
}

set_fault_params_lem_example :
    (IsAcceptable percent "n1" split
      × (e' : Engine ℕ) × (set_fault_params percent "n1" ("peer-1" ∷ []) (some lossy) (some split)
          ≡ (none, some e'))
      × IsApplied "n1" ("peer-1" ∷ []) lossy split e')
    ⊎ ((¬ IsAcceptable percent "n1" split)
        × (error : ParamsError) × (set_fault_params percent "n1"
              ("peer-1" ∷ [])
              (some lossy)
              (some split)
            ≡ (some error, some lossy)))
set_fault_params_lem_example = set_fault_params_lem percent "n1" ("peer-1" ∷ []) lossy split

-- ===== src/Tests/Boundary.antt =====
-- Runs of the boundary-scan models and of network planning (src/warptap/bsr_plan.py, bsr_model.py,
-- sib_plan.py).
use warptap.Base.{true, List, [], ◌∷◌, map, reverse, none, some, String, ◌≡◌, refl, ◌⊎◌}
use warptap.BsrPlan.{
  BsrPlan, BsrCell, output3, bc_1, input_cell, control_cell, driven_cell, Direction, PortInfo,
  input_port, output_port, plan_ports, build_bsr_plan,
}
use warptap.BsrPlan.Paired.{Paired, build_bsr_plan-Paired}
use warptap.BsrModel.{
  CellState, BoundaryScanRegister, driven, high_z, reset, capture, update, observed_value,
  pin_drive_value,
}
use warptap.BsrModel.Scan.{feed, held, committed, update-feed-capture}
use warptap.BsrModel.Safe.{reset-high_z}
use warptap.IclModel.{read, write, Chain, end, sib_node, validate_physical_graph}
use warptap.IclModel.Address.{
  ModuleInstance, module_instance, no_modules, child, name_of, children_of,
}
use warptap.IclModel.Valid.{WellFormed}
use warptap.SibPlan.{Specs, no_specs, instrument_spec, hierarchy_spec, build_sib_plan}
use warptap.SibPlan.Agreed.{instrument_names, module_names, build_sib_plan-Agreed}
use warptap.Tests.Network.{instrument}

abbrev port : String → Direction → PortInfo
port name direction = record { name = name; direction = direction }

-- A clock, an input and an output.
abbrev ports : List PortInfo
ports = port "clk" input_port ∷ port "d" input_port ∷ port "q" output_port ∷ []

abbrev plan : BsrPlan
plan = record {
  cells = input_cell 0 "d" ∷ control_cell 1 "q" ∷ driven_cell 1 bc_1 output3 "q" ∷ [];
  skipped_ports = "clk" ∷ [];
}

build_bsr_plan-Paired_example : Paired 0 none plan.cells
unfolding plan_ports build_bsr_plan
build_bsr_plan-Paired_example = build_bsr_plan-Paired ports ("clk" ∷ []) [] plan refl

abbrev cell_state : BsrCell → CellState
cell_state cell = record { cell = cell; shift_ff = 1; po = 1 }

abbrev chain : BoundaryScanRegister
chain = record {
  states =
      cell_state (input_cell 0 "d")
      ∷ cell_state (control_cell 1 "q")
      ∷ cell_state (driven_cell 1 bc_1 output3 "q")
      ∷ [];
  functional_inputs = ("d", 1) ∷ [];
}

update-feed-capture_example :
    ((feed (capture chain).states (1 ∷ 0 ∷ 1 ∷ [])).1
      ≡ reverse (map (λ s. observed_value chain.functional_inputs s.cell) chain.states))
    × (held
          (update (record (capture chain) {
            states = (feed (capture chain).states (1 ∷ 0 ∷ 1 ∷ [])).0;
          })).states
        ≡ committed (held chain.states) (reverse (1 ∷ 0 ∷ 1 ∷ [])))
update-feed-capture_example = update-feed-capture chain (1 ∷ 0 ∷ 1 ∷ []) refl

reset-high_z_example :
    (pin_drive_value (reset chain) "q" true ≡ none)
    ⊎ (pin_drive_value (reset chain) "q" true ≡ some high_z)
unfolding build_bsr_plan
reset-high_z_example = reset-high_z ports ("clk" ∷ []) [] plan chain "q" refl refl

-- The output pin is driven before the reset and is not after it.
driven_before : pin_drive_value chain "q" true ≡ some (driven 1)
unfolding pin_drive_value
driven_before = refl

disabled_after : pin_drive_value (reset chain) "q" true ≡ some high_z
unfolding pin_drive_value reset
disabled_after = refl

-- A group of one instrument, and an instrument.
abbrev specs : Specs
specs =
    hierarchy_spec "g" (instrument_spec (instrument "x" read) no_specs)
      (instrument_spec (instrument "y" write) no_specs)

abbrev planned : Chain
planned =
    sib_node "sib_g" none (sib_node "sib_x" (some (instrument "x" read)) end end)
      (sib_node "sib_y" (some (instrument "y" write)) end end)

abbrev tree : ModuleInstance
tree =
    module_instance "top"
      (child (module_instance "x" no_modules) (child (module_instance "y" no_modules) no_modules))

build_sib_plan-Agreed_example :
    WellFormed planned
    × (name_of tree ≡ "top")
    × (instrument_names planned ≡ module_names (children_of tree))
unfolding build_sib_plan validate_physical_graph
build_sib_plan-Agreed_example = build_sib_plan-Agreed specs "top" planned tree refl

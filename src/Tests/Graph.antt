-- ===== src/Tests/Graph.antt =====
-- Runs of the check of a network (src/warptap/icl_model.py).
use warptap.Base.{ℕ, String, true, false, ◌||◌, none, [], ◌∷◌, ◌≡◌, refl}
use warptap.IclModel.OneHot.{
  address, OneHotDataRegister, OneHotDataGroup, is_nil, check_address, check_registers,
  validate_one_hot_data_group,
}
use warptap.IclModel.OneHot.Accepted.{Accepted, validate_one_hot_data_group-Accepted}
use warptap.IclModel.{validate_physical_graph, walk_slots, require_leaf_xor_nested, check_values}
use warptap.IclModel.Valid.{slot_names, NewNames, WellFormed, validate_physical_graph-WellFormed}
use warptap.Tests.Network.{network}

validate_physical_graph-WellFormed_example : NewNames (slot_names network) [] × WellFormed network
unfolding validate_physical_graph walk_slots require_leaf_xor_nested check_values
validate_physical_graph-WellFormed_example = validate_physical_graph-WellFormed network refl

abbrev register : String → ℕ → OneHotDataRegister
register name a = record {
  name = name;
  location = address a;
  width = 8;
  reset_value = none;
  write_signal_bits = [];
  read_signal_bits = [];
}

abbrev group : OneHotDataGroup
group = record {
  name = "file";
  address_width = 2;
  data_width = 8;
  registers = register "r0" 0 ∷ register "r3" 3 ∷ [];
  writable = true;
  readable = false;
}

validate_one_hot_data_group-Accepted_example :
    (is_nil group.registers ≡ false)
    × ((group.writable || group.readable) ≡ true)
    × Accepted group group.registers [] []
unfolding validate_one_hot_data_group check_registers check_address
validate_one_hot_data_group-Accepted_example = validate_one_hot_data_group-Accepted group refl

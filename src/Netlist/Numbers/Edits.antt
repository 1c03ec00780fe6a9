-- ===== src/Netlist/Numbers/Edits.antt =====
-- Calls of the methods that edit a module (src/warptap/netlist.py).
use warptap.Base.{ℕ, List, Option, String}
use warptap.Netlist.Data.{Bit, Value, Cell, Module}
use warptap.Netlist.{
  new_wire, add_cell, connect, set_keep, add_port, detach_port, rename_port, set_module_attribute,
}
use warptap.Netlist.Numbers.{Below, CellBelow, Numbered}
use warptap.Netlist.Numbers.Wires.{
  new_wire-Numbered, add_cell-Numbered, connect-Numbered, set_keep-Numbered,
}
use warptap.Netlist.Numbers.Ports.{add_port-Numbered, detach_port-Numbered, rename_port-Numbered}

-- Calls of the methods that change a module.
pub data Call : Type 0 where
  wire_call : ℕ → Option String → List (String × Value) → Call
  cell_call : String → Cell → Call
  connect_call : String → String → List Bit → Call
  keep_call : Option String → Option String → Call
  port_call : String → String → ℕ → Call
  detach_call : String → Call
  rename_call : String → String → Call
  attribute_call : String → Value → Call

-- The module after a call, also one that raises.
unfoldable pub perform : Call → Module → Module
unfolding new_wire add_cell connect set_keep add_port detach_port rename_port set_module_attribute
perform (wire_call width name attributes) m = (new_wire width name attributes m).1
perform (cell_call name cell) m = (add_cell name cell m).1
perform (connect_call cell port bits) m = (connect cell port bits m).1
perform (keep_call wire_name cell_name) m = (set_keep wire_name cell_name m).1
perform (port_call name direction width) m = (add_port name direction width m).1
perform (detach_call name) m = (detach_port name m).1
perform (rename_call old new) m = (rename_port old new m).1
perform (attribute_call key value) m = (set_module_attribute key value m).1

-- The nets that a call is given belong to the module.
abbrev pub Uses : Module → Call → Type 0
Uses m (cell_call name cell) = CellBelow m.next_bit cell
Uses m (connect_call cell port bits) = Below m.next_bit bits
Uses m call = Unit

pub perform-Numbered :
    (call : Call) (m : Module) → Numbered m → Uses m call → Numbered (perform call m)
unfolding perform
perform-Numbered (wire_call width name attributes) m h u =
    new_wire-Numbered width name attributes m h
perform-Numbered (cell_call name cell) m h u = add_cell-Numbered name cell m h u
perform-Numbered (connect_call cell port bits) m h u = connect-Numbered cell port bits m h u
perform-Numbered (keep_call wire_name cell_name) m h u = set_keep-Numbered wire_name cell_name m h
perform-Numbered (port_call name direction width) m h u = add_port-Numbered name direction width m h
perform-Numbered (detach_call name) m h u = detach_port-Numbered name m h
perform-Numbered (rename_call old new) m h u = rename_port-Numbered old new m h
perform-Numbered (attribute_call key value) m h u = unfold set_module_attribute in h

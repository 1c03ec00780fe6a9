-- ===== src/Tests/Yosys.antt =====
-- Edits of a small module (src/warptap/netlist.py).
use warptap.Base.{◌≤◌, ◌+◌, List, [], ◌∷◌, none, some, String, ok, ◌≡◌, refl, length}
use warptap.Base.Dicts.{lookup}
use warptap.Netlist.Data.{net, constant, Port, Module, or_empty, new_module}
use warptap.Netlist.{alloc_bits, detach_port}
use warptap.Netlist.Numbers.{Numbered, fresh_bits, advanced}
use warptap.Netlist.Numbers.Edits.{port_call, detach_call, perform}
use warptap.Netlist.Reached.{stay, further, read, edited, Reached-Numbered, detach_port-moved}

abbrev ports : List (String × Port)
ports =
    ("clk", record { direction = "input"; bits = net 2 ∷ [] })
    ∷ ("q", record { direction = "output"; bits = net 3 ∷ constant "1" ∷ [] })
    ∷ []

abbrev top : Module
top = new_module none (some ports) none none

abbrev edits : Module
edits = perform (detach_call "q") (perform (port_call "tck" "input" 1) top)

-- One more port, after two nets are given.
abbrev later : Module
later = perform (port_call "tms" "input" 1) (advanced 2 edits)

Reached-Numbered_example :
    Numbered edits
    × (alloc_bits 2 edits ≡ (ok (fresh_bits edits.next_bit 2), advanced 2 edits))
    × (alloc_bits 3 later ≡ (ok (fresh_bits later.next_bit 3), advanced 3 later))
    × (edits.next_bit + 2 ≤ later.next_bit)
Reached-Numbered_example =
    Reached-Numbered edits later 2 3
      (edited (edited (read none (some ports) none none) (port_call "tck" "input" 1) tt)
        (detach_call "q") tt)
      (further stay (port_call "tms" "input" 1))

abbrev q_port : Port
q_port = record { direction = "output"; bits = net 3 ∷ constant "1" ∷ [] }

detach_port-moved_example :
    let after = (detach_port "q" top).1 in
    ((detach_port "q" top).0 ≡ ok q_port.bits)
    × (lookup (or_empty after.ports) "q"
        ≡ some (record q_port { bits = fresh_bits top.next_bit (length q_port.bits) }))
    × (lookup (or_empty after.ports) "clk" ≡ lookup (or_empty top.ports) "clk")
    × (after.cells ≡ top.cells)
    × (after.next_bit ≡ top.next_bit + length q_port.bits)
unfolding new_module
detach_port-moved_example = detach_port-moved "q" "clk" q_port top refl refl

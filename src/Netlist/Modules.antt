-- ===== src/Netlist/Modules.antt =====
-- A document of several modules, and the listings of one (src/warptap/netlist.py). The document and
-- the dictionary of `Module` objects hold the same modules.
use warptap.Base.{
  ℕ, false, List, map, Option, none, some, String, Result, ok, err, ◌≡◌, refl, same_name, length,
}
use warptap.Base.Exec.{Exec}
use warptap.Base.Dicts.{lookup, assign, lookup-assign, lookup-assign_other}
use warptap.Netlist.Data.{Bit, Port, Module, NetlistError, name_exists, no_such_name, or_empty}

-- `PortInfo`, with the bits.
pub record PortListing : Type 0 where
  pub name : String
  pub direction : String
  pub bits : List Bit

abbrev pub listing : String × Port → PortListing
listing entry = record { name = entry.0; direction = entry.1.direction; bits = entry.1.bits }

unfoldable pub list_ports : Module → List PortListing
list_ports m = map listing (or_empty m.ports)

unfoldable pub cell_count : Module → ℕ
cell_count m = length (or_empty m.cells)

pub record Netlist : Type 0 where
  pub modules : Option (List (String × Module))

abbrev pub found_module : Option Module → String → Result NetlistError Module
found_module none name = err (no_such_name name)
found_module (some m) name = ok m

unfoldable pub find_module : String → Netlist → Result NetlistError Module
find_module name netlist = found_module (lookup (or_empty netlist.modules) name) name

abbrev pub added :
    Option Module → String → Module → List (String × Module) → Result NetlistError Module × Netlist
added (some taken) name m modules = (err (name_exists name), record { modules = some modules })
added none name m modules = (ok m, record { modules = some (assign modules name m) })

unfoldable pub add_module : String → Module → Exec NetlistError Netlist Module
add_module name m netlist =
    let modules = or_empty netlist.modules in added (lookup modules name) name m modules

-- A module that was added is found, and the others are as they were.
pub find_module-add_module :
    (name other : String) (m : Module) (netlist : Netlist)
    → lookup (or_empty netlist.modules) name ≡ none
    → same_name name other ≡ false
    → (find_module name (add_module name m netlist).1 ≡ ok m)
      × (find_module other (add_module name m netlist).1 ≡ find_module other netlist)
unfolding find_module add_module
find_module-add_module name other m netlist free apart =
    let modules = or_empty netlist.modules in
    rw (free, lookup-assign modules name m, lookup-assign_other modules name other m apart)
      (refl, refl)

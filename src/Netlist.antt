-- ===== src/Netlist.antt =====
-- Modules of a Yosys netlist and the edits on them (src/warptap/netlist.py). A port, a cell and a
-- netname have all the keys of the format; the dictionaries of a module may be missing.
pub mod Data
pub mod Modules
pub mod Numbers
pub mod Reached
use Prim.Native.Nat.{max}
use Prim.Native.String.{◌++◌ as append}
use warptap.Base.{
  ℕ, zero, suc, ◌+◌, List, [], ◌∷◌, ◌++◌, map, Option, none, some, String, Result, ok, err, length,
  if◌then◌else◌,
}
use warptap.Base.Exec.{Exec, pure, lift, modify, ◌>>=◌, ◌>>◌}
use warptap.Netlist.Data.{
  Bit, net, constant, Value, number, text, Port, Cell, Netname, Module, NetlistError, name_exists,
  no_such_name, Edit, or_empty, above, above_each, above_port, above_cell, above_netname,
  scan_max_bit, new_module,
}
use warptap.Base.Dicts.{lookup, assign, remove}

unfoldable pub alloc_bit : Edit ℕ
alloc_bit m = (ok m.next_bit, record m { next_bit = suc m.next_bit })

-- `range(width)` of calls of `alloc_bit`
unfoldable pub alloc_bits : ℕ → Edit (List Bit)
unfolding alloc_bit
alloc_bits zero = pure []
alloc_bits (suc width) = do bit ← alloc_bit; bits ← alloc_bits width; pure (net bit ∷ bits)

abbrev pub wire : List Bit → List (String × Value) → Netname
wire bits attributes = record { hide_name = 0; bits = bits; attributes = attributes }

-- `self.data.setdefault("netnames", {})[name] = ...`
abbrev pub name_wire : String → Netname → Module → Module
name_wire name entry m = record m { netnames = some (assign (or_empty m.netnames) name entry) }

abbrev pub name_new : Option String → List Bit → List (String × Value) → Module → Module
name_new none bits attributes m = m
name_new (some name) bits attributes m = name_wire name (wire bits attributes) m

unfoldable pub new_wire : ℕ → Option String → List (String × Value) → Edit (List Bit)
unfolding alloc_bits
new_wire width name attributes = do
  bits ← alloc_bits width
  modify (name_new name bits attributes)
  pure bits

abbrev pub raise_present : {A : Type 0} → Option A → String → Edit (Unit {0})
raise_present none name m = (ok tt, m)
raise_present (some a) name m = (err (name_exists name), m)

abbrev pub require : {A : Type 0} → Option A → String → Edit A
require none name m = (err (no_such_name name), m)
require (some a) name m = (ok a, m)

unfoldable pub add_cell : String → Cell → Edit (Unit {0})
add_cell cell_name cell m =
    let cells = or_empty m.cells in
    (do
      raise_present (lookup cells cell_name) cell_name
      modify λ m. record m { cells = some (assign cells cell_name cell) })
      (record m { cells = some cells })

unfoldable pub connect : String → String → List Bit → Edit (Unit {0})
connect cell_name port bits m =
    let cells = or_empty m.cells in
    (do
      cell ← require (lookup cells cell_name) cell_name
      let rewired : Cell = record cell { connections = assign cell.connections port bits }
      modify λ m. record m { cells = some (assign cells cell_name rewired) })
      m

unfoldable pub keep_wire : String → Edit (Unit {0})
keep_wire name m =
    let netnames = or_empty m.netnames in
    (do
      entry ← require (lookup netnames name) name
      let kept : Netname = record entry { attributes = assign entry.attributes "keep" (number 1) }
      modify λ m. record m { netnames = some (assign netnames name kept) })
      m

unfoldable pub keep_cell : String → Edit (Unit {0})
keep_cell name m =
    let cells = or_empty m.cells in
    (do
      entry ← require (lookup cells name) name
      let kept : Cell = record entry { attributes = assign entry.attributes "keep" (number 1) }
      modify λ m. record m { cells = some (assign cells name kept) })
      m

abbrev pub each : (String → Edit (Unit {0})) → Option String → Edit (Unit {0})
each f none = pure tt
each f (some name) = f name

unfoldable pub set_keep : Option String → Option String → Edit (Unit {0})
unfolding keep_wire keep_cell
set_keep wire_name cell_name = each keep_wire wire_name >> each keep_cell cell_name

unfoldable pub port_bits : String → Edit (List Bit)
port_bits name m = (do p ← require (lookup (or_empty m.ports) name) name; pure p.bits) m

abbrev pub set_port : String → Port → Module → Module
set_port name port m = record m { ports = some (assign (or_empty m.ports) name port) }

unfoldable pub add_port : String → String → ℕ → Edit (List Bit)
unfolding alloc_bits
add_port name direction width m =
    (do
      raise_present (lookup (or_empty m.ports) name) name
      bits ← alloc_bits width
      let port : Port = record { direction = direction; bits = bits }
      modify (set_port name port)
      pure bits)
      (record m { ports = some (or_empty m.ports) })

-- A netname of the port moves to the new bits.
abbrev pub wire_at : List Bit → Netname → Netname
wire_at bits entry = record entry { bits = bits }

abbrev pub repoint :
    List (String × Netname) → String → List Bit → Option Netname → List (String × Netname)
repoint netnames name bits none = netnames
repoint netnames name bits (some entry) = assign netnames name (wire_at bits entry)

unfoldable pub detach_port : String → Edit (List Bit)
unfolding alloc_bits
detach_port name m =
    (do
      port ← require (lookup (or_empty m.ports) name) name
      new_bits ← alloc_bits (length port.bits)
      let moved : Port = record port { bits = new_bits }
      modify (set_port name moved)
      modify (name_wire (append name "_pre_bsr") (wire port.bits []))
      modify λ m. record m {
        netnames =
            some (repoint (or_empty m.netnames) name new_bits (lookup (or_empty m.netnames) name));
      }
      pure port.bits)
      m

-- The entry moves to the end of the dictionary, under its new name.
abbrev pub rename_key :
    {A : Type 0} → List (String × A) → String → String → Option A → List (String × A)
rename_key d old new none = d
rename_key d old new (some entry) = assign (remove d old) new entry

abbrev pub rename_netname :
    Option (List (String × Netname)) → String → String → Option (List (String × Netname))
rename_netname none old new = none
rename_netname (some d) old new = some (rename_key d old new (lookup d old))

-- `setdefault` stays done when the names are refused.
unfoldable pub rename_port : String → String → Edit (Unit {0})
rename_port old new m =
    let ports = or_empty m.ports in
    (do
      port ← require (lookup ports old) old
      raise_present (lookup ports new) new
      modify λ m. record m {
        ports = some (assign (remove ports old) new port);
        netnames = rename_netname m.netnames old new;
      })
      (record m { ports = some ports })

unfoldable pub set_module_attribute : String → Value → Edit (Unit {0})
set_module_attribute key value =
    modify λ m. record m { attributes = some (assign (or_empty m.attributes) key value) }

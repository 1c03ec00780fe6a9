-- ===== src/Netlist/Numbers/Wires.antt =====
-- Wires and cells keep the numbering of the nets (src/warptap/netlist.py).
use warptap.Base.{ℕ, List, Option, none, some, String, Result, ok, err, Option-cases, inl, inr}
use warptap.Base.Exec.{continue}
use warptap.Base.Dicts.{lookup, assign}
use warptap.Netlist.Data.{
  NetlistError, Edit, number, Bit, Value, Port, Cell, Netname, Module, or_empty,
}
use warptap.Netlist.{
  each, wire, name_new, name_wire, new_wire, add_cell, connect, keep_wire, keep_cell, set_keep,
  set_port,
}
use warptap.Netlist.Numbers.{
  Each-lookup, Each-assign, Below, PortBelow, CellBelow, NetnameBelow, Numbered, fresh_bits,
  fresh_bits-Below, advanced, advanced-Numbered, alloc_bits-fresh,
}

pub set_port-Numbered :
    (name : String) (port : Port) (m : Module)
    → Numbered m
    → PortBelow m.next_bit port
    → Numbered (set_port name port m)
set_port-Numbered name port m h p =
    (Each-assign (PortBelow m.next_bit) (or_empty m.ports) name port h.0 p, h.1, h.2)

pub name_wire-Numbered :
    (name : String) (entry : Netname) (m : Module)
    → Numbered m
    → NetnameBelow m.next_bit entry
    → Numbered (name_wire name entry m)
name_wire-Numbered name entry m h p =
    (h.0, h.1, Each-assign (NetnameBelow m.next_bit) (or_empty m.netnames) name entry h.2 p)

name_new-Numbered :
    (name : Option String) (bits : List Bit) (attributes : List (String × Value)) (m : Module)
    → Numbered m
    → Below m.next_bit bits
    → Numbered (name_new name bits attributes m)
name_new-Numbered none bits attributes m h p = h
name_new-Numbered (some name) bits attributes m h p =
    name_wire-Numbered name (wire bits attributes) m h p

pub new_wire-Numbered :
    (width : ℕ) (name : Option String) (attributes : List (String × Value)) (m : Module)
    → Numbered m
    → Numbered (new_wire width name attributes m).1
unfolding new_wire
new_wire-Numbered width name attributes m h = rw (alloc_bits-fresh width m) (
    name_new-Numbered name (fresh_bits m.next_bit width) attributes (advanced width m)
      (advanced-Numbered width m h) (fresh_bits-Below m.next_bit width))

pub add_cell-Numbered :
    (name : String) (cell : Cell) (m : Module)
    → Numbered m
    → CellBelow m.next_bit cell
    → Numbered (add_cell name cell m).1
unfolding add_cell
add_cell-Numbered name cell m h p = elim (Option-cases (lookup (or_empty m.cells) name)) [
  | inl absent ↦
      rw absent (h.0, Each-assign (CellBelow m.next_bit) (or_empty m.cells) name cell h.1 p, h.2)
  | inr (present, e) ↦ rw e h
]

pub connect-Numbered :
    (name port : String) (bits : List Bit) (m : Module)
    → Numbered m
    → Below m.next_bit bits
    → Numbered (connect name port bits m).1
unfolding connect
connect-Numbered name port bits m h p = elim (Option-cases (lookup (or_empty m.cells) name)) [
  | inl absent ↦ rw absent h
  | inr (cell, e) ↦
      let old : CellBelow m.next_bit cell =
        Each-lookup (CellBelow m.next_bit) (or_empty m.cells) name h.1 e in
      let rewired : Cell = record cell { connections = assign cell.connections port bits } in
      rw e (
        h.0,
        Each-assign (CellBelow m.next_bit) (or_empty m.cells) name rewired h.1
            (Each-assign (Below m.next_bit) cell.connections port bits old p),
        h.2,
      )
]

keep_wire-Numbered : (name : String) (m : Module) → Numbered m → Numbered (keep_wire name m).1
unfolding keep_wire
keep_wire-Numbered name m h = elim (Option-cases (lookup (or_empty m.netnames) name)) [
  | inl absent ↦ rw absent h
  | inr (entry, e) ↦
      let kept : Netname = record entry {
        attributes = assign entry.attributes "keep" (number 1);
      } in
      let old : NetnameBelow m.next_bit entry =
        Each-lookup (NetnameBelow m.next_bit) (or_empty m.netnames) name h.2 e in
      rw e (h.0, h.1, Each-assign (NetnameBelow m.next_bit) (or_empty m.netnames) name kept h.2 old)
]

keep_cell-Numbered : (name : String) (m : Module) → Numbered m → Numbered (keep_cell name m).1
unfolding keep_cell
keep_cell-Numbered name m h = elim (Option-cases (lookup (or_empty m.cells) name)) [
  | inl absent ↦ rw absent h
  | inr (cell, e) ↦
      let kept : Cell = record cell { attributes = assign cell.attributes "keep" (number 1) } in
      let old : CellBelow m.next_bit cell =
        Each-lookup (CellBelow m.next_bit) (or_empty m.cells) name h.1 e in
      rw e (h.0, Each-assign (CellBelow m.next_bit) (or_empty m.cells) name kept h.1 old, h.2)
]

each-Numbered :
    (f : String → Edit (Unit {0})) (name : Option String) (m : Module)
    → ((name : String) (m : Module) → Numbered m → Numbered (f name m).1)
    → Numbered m
    → Numbered (each f name m).1
each-Numbered f none m keeps h = h
each-Numbered f (some name) m keeps h = keeps name m h

-- The second part runs only if the first one does not raise.
continue-Numbered :
    {A B : Type 0} (f : A → Edit B) (r : Result NetlistError A) (m : Module)
    → ((a : A) → Numbered (f a m).1)
    → Numbered m
    → Numbered (continue f (r, m)).1
continue-Numbered f (ok a) m keeps h = keeps a
continue-Numbered f (err e) m keeps h = h

pub set_keep-Numbered :
    (wire_name cell_name : Option String) (m : Module)
    → Numbered m
    → Numbered (set_keep wire_name cell_name m).1
unfolding set_keep
set_keep-Numbered wire_name cell_name m h =
    let first = each keep_wire wire_name m in
    let kept : Numbered first.1 = each-Numbered keep_wire wire_name m keep_wire-Numbered h in
    continue-Numbered (λ u. each keep_cell cell_name) first.0 first.1
      (λ u. each-Numbered keep_cell cell_name first.1 keep_cell-Numbered kept) kept

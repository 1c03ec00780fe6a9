-- ===== src/Netlist/Numbers/Growth.antt =====
-- The next number never falls (src/warptap/netlist.py).
use warptap.Base.{
  ℕ, ◌≤◌, List, Option, none, some, String, Result, ok, err, Option-cases, inl, inr, arith,
}
use warptap.Base.Exec.{continue}
use warptap.Base.Dicts.{lookup}
use warptap.Netlist.Data.{NetlistError, Edit, Value, Cell, Module, or_empty, Bit}
use warptap.Netlist.{
  each, new_wire, add_cell, connect, keep_wire, keep_cell, set_keep, add_port, detach_port,
  rename_port, set_module_attribute,
}
use warptap.Netlist.Numbers.{alloc_bits-fresh}
use warptap.Netlist.Numbers.Ports.{detach_port-detached}
use warptap.Netlist.Numbers.Edits.{
  Call, wire_call, cell_call, connect_call, keep_call, port_call, detach_call, rename_call,
  attribute_call, perform,
}

-- The module has a next number that is not below the first one.
abbrev Grown : ℕ → Module → Type 0
Grown n m = n ≤ m.next_bit

new_wire-le :
    (width : ℕ) (name : Option String) (attributes : List (String × Value)) (m : Module)
    → Grown m.next_bit (new_wire width name attributes m).1
unfolding new_wire
new_wire-le width none attributes m = rw (alloc_bits-fresh width m) (omega arith)
new_wire-le width (some name) attributes m = rw (alloc_bits-fresh width m) (omega arith)

add_cell-le : (name : String) (cell : Cell) (m : Module) → Grown m.next_bit (add_cell name cell m).1
unfolding add_cell
add_cell-le name cell m = elim (Option-cases (lookup (or_empty m.cells) name)) [
  | inl absent ↦ rw absent (omega arith)
  | inr (old, e) ↦ rw e (omega arith)
]

connect-le :
    (name port : String) (bits : List Bit) (m : Module)
    → Grown m.next_bit (connect name port bits m).1
unfolding connect
connect-le name port bits m = elim (Option-cases (lookup (or_empty m.cells) name)) [
  | inl absent ↦ rw absent (omega arith)
  | inr (cell, e) ↦ rw e (omega arith)
]

keep_wire-le : (n : ℕ) (name : String) (m : Module) → Grown n m → Grown n (keep_wire name m).1
unfolding keep_wire
keep_wire-le n name m h = elim (Option-cases (lookup (or_empty m.netnames) name)) [
  | inl absent ↦ rw absent h
  | inr (entry, e) ↦ rw e h
]

keep_cell-le : (n : ℕ) (name : String) (m : Module) → Grown n m → Grown n (keep_cell name m).1
unfolding keep_cell
keep_cell-le n name m h = elim (Option-cases (lookup (or_empty m.cells) name)) [
  | inl absent ↦ rw absent h
  | inr (cell, e) ↦ rw e h
]

each-le :
    (n : ℕ) (f : String → Edit (Unit {0})) (name : Option String) (m : Module)
    → ((name : String) (m : Module) → Grown n m → Grown n (f name m).1)
    → Grown n m
    → Grown n (each f name m).1
each-le n f none m keeps h = h
each-le n f (some name) m keeps h = keeps name m h

continue-le :
    {A B : Type 0} (n : ℕ) (f : A → Edit B) (r : Result NetlistError A) (m : Module)
    → ((a : A) → Grown n (f a m).1)
    → Grown n m
    → Grown n (continue f (r, m)).1
continue-le n f (ok a) m keeps h = keeps a
continue-le n f (err e) m keeps h = h

set_keep-le :
    (wire_name cell_name : Option String) (m : Module)
    → Grown m.next_bit (set_keep wire_name cell_name m).1
unfolding set_keep
set_keep-le wire_name cell_name m =
    let n = m.next_bit in
    let first = each keep_wire wire_name m in
    let kept : Grown n first.1 = each-le n keep_wire wire_name m (keep_wire-le n) (omega arith) in
    continue-le n (λ u. each keep_cell cell_name) first.0 first.1
      (λ u. each-le n keep_cell cell_name first.1 (keep_cell-le n) kept) kept

add_port-le :
    (name direction : String) (width : ℕ) (m : Module)
    → Grown m.next_bit (add_port name direction width m).1
unfolding add_port
add_port-le name direction width m =
    let there = record m { ports = some (or_empty m.ports) } in
    elim (Option-cases (lookup (or_empty m.ports) name)) [
      | inl absent ↦ rw (absent, alloc_bits-fresh width there) (omega arith)
      | inr (port, e) ↦ rw e (omega arith)
    ]

detach_port-le : (name : String) (m : Module) → Grown m.next_bit (detach_port name m).1
detach_port-le name m = elim (Option-cases (lookup (or_empty m.ports) name)) [
  | inl absent ↦ unfold detach_port in rw absent (omega arith)
  | inr (port, e) ↦ rw (detach_port-detached name port m e) (omega arith)
]

rename_port-le : (old new : String) (m : Module) → Grown m.next_bit (rename_port old new m).1
unfolding rename_port
rename_port-le old new m =
    let ports = or_empty m.ports in
    elim (Option-cases (lookup ports old)) [
      | inl absent ↦ rw absent (omega arith)
      | inr (port, e) ↦ elim (Option-cases (lookup ports new)) [
        | inl free ↦ rw (e, free) (omega arith)
        | inr (taken, e') ↦ rw (e, e') (omega arith)
      ]
    ]

pub perform-le : (call : Call) (m : Module) → Grown m.next_bit (perform call m)
unfolding perform
perform-le (wire_call width name attributes) m = new_wire-le width name attributes m
perform-le (cell_call name cell) m = add_cell-le name cell m
perform-le (connect_call cell port bits) m = connect-le cell port bits m
perform-le (keep_call wire_name cell_name) m = set_keep-le wire_name cell_name m
perform-le (port_call name direction width) m = add_port-le name direction width m
perform-le (detach_call name) m = detach_port-le name m
perform-le (rename_call old new) m = rename_port-le old new m
perform-le (attribute_call key value) m = unfold set_module_attribute in omega arith

-- ===== src/Netlist/Reached.antt =====
-- Modules that edits lead to (src/warptap/netlist.py).
use warptap.Base.{
  ℕ, ◌+◌, ◌≤◌, arith, false, List, Option, some, String, ok, ◌≡◌, refl, same_name, length,
}
use warptap.Base.Dicts.{lookup, lookup-assign, lookup-assign_other}
use warptap.Netlist.Data.{Value, Port, Cell, Netname, Module, or_empty, new_module}
use warptap.Netlist.{alloc_bits, detach_port}
use warptap.Netlist.Numbers.{Numbered, fresh_bits, advanced, alloc_bits-fresh, new_module-Numbered}
use warptap.Netlist.Numbers.Edits.{Call, perform, Uses, perform-Numbered}
use warptap.Netlist.Numbers.Growth.{perform-le}
use warptap.Netlist.Numbers.Ports.{detach_port-detached}

-- A module is read, and then changed by calls that are given nets of the module.
pub data Reached : Module → Type 0 where
  read :
      (attributes : Option (List (String × Value))) (ports : Option (List (String × Port)))
      (cells : Option (List (String × Cell))) (netnames : Option (List (String × Netname)))
      → Reached (new_module attributes ports cells netnames)
  edited : {m : Module} → Reached m → (call : Call) → Uses m call → Reached (perform call m)

-- Calls that lead from one module to another.
pub data Leads (from : Module) : Module → Type 0 where
  stay : Leads from from
  further : {m : Module} → Leads from m → (call : Call) → Leads from (perform call m)

Leads-le : {from m : Module} → Leads from m → from.next_bit ≤ m.next_bit
Leads-le stay = omega arith
Leads-le (further {m = m0} r call) = omega (arith, Leads-le r, perform-le call m0)

-- Let a module be read and then edited, also by calls that raise, where `add_cell` and `connect` are
-- given only nets with numbers below the next one. Then every net of a port, a cell or a netname has a
-- number below the next one, and `alloc_bits` gives nets with the numbers from the next one on. After
-- any further calls it gives nets from a number on that is above all of these.
pub Reached-Numbered :
    (m later : Module) (width width' : ℕ)
    → Reached m
    → Leads (advanced width m) later
    → Numbered m
      × (alloc_bits width m ≡ (ok (fresh_bits m.next_bit width), advanced width m))
      × (alloc_bits width' later ≡ (ok (fresh_bits later.next_bit width'), advanced width' later))
      × (m.next_bit + width ≤ later.next_bit)
Reached-Numbered m later width width' r more =
    (numbered m r, alloc_bits-fresh width m, alloc_bits-fresh width' later, Leads-le more)
  where
    numbered : (m : Module) → Reached m → Numbered m
    numbered m (read attributes ports cells netnames) =
        new_module-Numbered attributes ports cells netnames
    numbered m (edited {m = m0} r call uses) = perform-Numbered call m0 (numbered m0 r) uses

-- `detach_port` of a port that is there gives back its nets, gives the port as many new ones with
-- the numbers from the next one on, in order, and leaves the other ports and all cells as they were.
pub detach_port-moved :
    (name other : String) (port : Port) (m : Module)
    → lookup (or_empty m.ports) name ≡ some port
    → same_name name other ≡ false
    → let after = (detach_port name m).1 in
      ((detach_port name m).0 ≡ ok port.bits)
      × (lookup (or_empty after.ports) name
          ≡ some (record port { bits = fresh_bits m.next_bit (length port.bits) }))
      × (lookup (or_empty after.ports) other ≡ lookup (or_empty m.ports) other)
      × (after.cells ≡ m.cells)
      × (after.next_bit ≡ m.next_bit + length port.bits)
detach_port-moved name other port m e apart =
    let moved : Port = record port { bits = fresh_bits m.next_bit (length port.bits) } in
    rw (detach_port-detached name port m e) (
      refl,
      lookup-assign (or_empty m.ports) name moved,
      lookup-assign_other (or_empty m.ports) name other moved apart,
      refl,
      refl,
    )

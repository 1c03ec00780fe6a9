-- ===== src/Netlist/Numbers/Ports.antt =====
-- Edits of the ports keep the numbering of the nets (src/warptap/netlist.py).
use warptap.Base.{
  ℕ, ◌+◌, List, [], Option, none, some, String, ok, ◌≡◌, refl, arith, Option-cases, inl, inr,
  length,
}
use Prim.Native.String.{◌++◌ as append}
use warptap.Base.Dicts.{lookup, assign, remove}
use warptap.Netlist.Data.{Bit, Port, Netname, Module, or_empty}
use warptap.Netlist.{
  wire, name_wire, add_port, detach_port, rename_port, rename_netname, set_port, repoint, wire_at,
}
use warptap.Netlist.Numbers.{
  Each, Each-lookup, Each-assign, Each-remove, Below, PortBelow, NetnameBelow, Numbered, Below-mono,
  fresh_bits, fresh_bits-Below, advanced, advanced-Numbered, alloc_bits-fresh,
}
use warptap.Netlist.Numbers.Wires.{set_port-Numbered, name_wire-Numbered}

pub add_port-Numbered :
    (name direction : String) (width : ℕ) (m : Module)
    → Numbered m
    → Numbered (add_port name direction width m).1
unfolding add_port
add_port-Numbered name direction width m h =
    let there = record m { ports = some (or_empty m.ports) } in
    elim (Option-cases (lookup (or_empty m.ports) name)) [
      | inl absent ↦
          rw (absent, alloc_bits-fresh width there)
            (set_port-Numbered name
              (record { direction = direction; bits = fresh_bits m.next_bit width })
              (advanced width there) (advanced-Numbered width there h)
              (fresh_bits-Below m.next_bit width))
      | inr (port, e) ↦ rw e h
    ]

repoint-Numbered :
    (name : String) (bits : List Bit) (n : ℕ) (netnames : List (String × Netname))
    (entry : Option Netname)
    → Each (NetnameBelow n) netnames
    → Below n bits
    → Each (NetnameBelow n) (repoint netnames name bits entry)
repoint-Numbered name bits n netnames none h p = h
repoint-Numbered name bits n netnames (some entry) h p =
    Each-assign (NetnameBelow n) netnames name (wire_at bits entry) h p

-- What `detach_port` does with a port that is there.
abbrev pub detached : String → Port → Module → Module
detached name port m =
    let bits = fresh_bits m.next_bit (length port.bits) in
    let moved : Port = record port { bits = bits } in
    let m1 = set_port name moved (advanced (length port.bits) m) in
    let m2 = name_wire (append name "_pre_bsr") (wire port.bits []) m1 in
    let netnames = or_empty m2.netnames in
    record m2 { netnames = some (repoint netnames name bits (lookup netnames name)) }

pub detach_port-detached :
    (name : String) (port : Port) (m : Module)
    → lookup (or_empty m.ports) name ≡ some port
    → detach_port name m ≡ (ok port.bits, detached name port m)
unfolding detach_port
detach_port-detached name port m e = rw (e, alloc_bits-fresh (length port.bits) m) refl

detached-Numbered :
    (name : String) (port : Port) (m : Module)
    → Numbered m
    → PortBelow m.next_bit port
    → Numbered (detached name port m)
detached-Numbered name port m h p =
    let width = length port.bits in
    let bits = fresh_bits m.next_bit width in
    let fresh = fresh_bits-Below m.next_bit width in
    let moved : Port = record port { bits = bits } in
    let m1 = set_port name moved (advanced width m) in
    let old : Below (m.next_bit + width) port.bits =
      Below-mono m.next_bit (m.next_bit + width) port.bits (omega arith) p in
    let h1 = set_port-Numbered name moved (advanced width m) (advanced-Numbered width m h) fresh in
    let h2 = name_wire-Numbered (append name "_pre_bsr") (wire port.bits []) m1 h1 old in
    let netnames = assign (or_empty m1.netnames) (append name "_pre_bsr") (wire port.bits []) in
    (
      h2.0,
      h2.1,
      repoint-Numbered name bits (m.next_bit + width) netnames (lookup netnames name) h2.2 fresh,
    )

pub detach_port-Numbered :
    (name : String) (m : Module) → Numbered m → Numbered (detach_port name m).1
detach_port-Numbered name m h = elim (Option-cases (lookup (or_empty m.ports) name)) [
  | inl absent ↦ unfold detach_port in rw absent h
  | inr (port, e) ↦ rw (detach_port-detached name port m e) (
      detached-Numbered name port m h
        (Each-lookup (PortBelow m.next_bit) (or_empty m.ports) name h.0 e))
]

rename_netname-Each :
    (n : ℕ) (old new : String) (netnames : Option (List (String × Netname)))
    → Each (NetnameBelow n) (or_empty netnames)
    → Each (NetnameBelow n) (or_empty (rename_netname netnames old new))
rename_netname-Each n old new none h = h
rename_netname-Each n old new (some d) h = elim (Option-cases (lookup d old)) [
  | inl absent ↦ rw absent h
  | inr (entry, e) ↦ rw e (
      Each-assign (NetnameBelow n) (remove d old) new entry (Each-remove (NetnameBelow n) d old h)
        (Each-lookup (NetnameBelow n) d old h e))
]

pub rename_port-Numbered :
    (old new : String) (m : Module) → Numbered m → Numbered (rename_port old new m).1
unfolding rename_port
rename_port-Numbered old new m h =
    let ports = or_empty m.ports in
    let n = m.next_bit in
    elim (Option-cases (lookup ports old)) [
      | inl absent ↦ rw absent h
      | inr (port, e) ↦ elim (Option-cases (lookup ports new)) [
        | inl free ↦
            rw (e, free)
              (
                Each-assign (PortBelow n) (remove ports old) new port
                    (Each-remove (PortBelow n) ports old h.0)
                    (Each-lookup (PortBelow n) ports old h.0 e),
                h.1,
                rename_netname-Each n old new m.netnames h.2,
              )
        | inr (taken, e') ↦ rw (e, e') h
      ]
    ]

-- ===== src/Netlist/Numbers.antt =====
-- The numbers of the nets of a module (src/warptap/netlist.py).
pub mod Wires
pub mod Ports
pub mod Edits
pub mod Growth
use Prim.Native.Nat.{max}
use warptap.Base.{
  ℕ, zero, suc, ◌+◌, ◌<◌, ◌≤◌, List, [], ◌∷◌, ◌++◌, Option, none, some, String, Result, ok, err,
  ◌≡◌, refl, ap, subst, sym, ◌∙◌, arith, same_name, Bool-cases, inl, inr, ok-injective,
}
use warptap.Base.Dicts.{lookup, assign, remove}
use warptap.Netlist.Data.{
  Bit, net, constant, Port, Cell, Netname, Module, or_empty, above, above_each, above_port,
  above_cell, above_netname, scan_max_bit, new_module,
}
use warptap.Netlist.{alloc_bit, alloc_bits}

-- Every entry of a dictionary has the property.
abbrev pub Each : {A : Type 0} → (A → Type 0) → List (String × A) → Type 0
Each P [] = Unit {0}
Each P ((key, a) ∷ d) = P a × Each P d

module _ {A : Type 0} (P : A → Type 0) where
  pub Each-lookup :
      (d : List (String × A)) (key : String) {a : A} → Each P d → lookup d key ≡ some a → P a
  Each-lookup [] key {a} h e = absurd cc
  Each-lookup ((k, v) ∷ d) key {a} h e = elim (Bool-cases (same_name k key)) [
    | inl same ↦
        let found : some v ≡ some a = rw same at e in let value : v ≡ a = cc in subst P value h.0
    | inr other ↦ Each-lookup d key h.1 (rw other at e)
  ]

  pub Each-assign :
      (d : List (String × A)) (key : String) (a : A) → Each P d → P a → Each P (assign d key a)
  Each-assign [] key a h p = (p, tt)
  Each-assign ((k, v) ∷ d) key a h p = elim (Bool-cases (same_name k key)) [
    | inl same ↦ rw same (p, h.1)
    | inr other ↦ rw other (h.0, Each-assign d key a h.1 p)
  ]

  pub Each-remove : (d : List (String × A)) (key : String) → Each P d → Each P (remove d key)
  Each-remove [] key h = tt
  Each-remove ((k, v) ∷ d) key h = elim (Bool-cases (same_name k key)) [
    | inl same ↦ rw same (Each-remove d key h.1)
    | inr other ↦ rw other (h.0, Each-remove d key h.1)
  ]

pub Each-mono :
    {A : Type 0} (P Q : A → Type 0) (d : List (String × A))
    → ((a : A) → P a → Q a)
    → Each P d
    → Each Q d
Each-mono P Q [] f h = tt
Each-mono P Q ((k, v) ∷ d) f h = (f v h.0, Each-mono P Q d f h.1)

-- The nets have numbers below a bound.
abbrev pub Below : ℕ → List Bit → Type 0
Below n [] = Unit {0}
Below n (net b ∷ bits) = (b < n) × Below n bits
Below n (constant c ∷ bits) = Below n bits

abbrev pub PortBelow : ℕ → Port → Type 0
PortBelow n port = Below n port.bits

abbrev pub CellBelow : ℕ → Cell → Type 0
CellBelow n cell = Each (Below n) cell.connections

abbrev pub NetnameBelow : ℕ → Netname → Type 0
NetnameBelow n entry = Below n entry.bits

-- The nets of the ports, the cells and the netnames have numbers below the next one.
abbrev pub Numbered : Module → Type 0
Numbered m =
    Each (PortBelow m.next_bit) (or_empty m.ports)
    × Each (CellBelow m.next_bit) (or_empty m.cells)
    × Each (NetnameBelow m.next_bit) (or_empty m.netnames)

pub Below-mono : (n n' : ℕ) (bits : List Bit) → n ≤ n' → Below n bits → Below n' bits
Below-mono n n' [] le h = tt
Below-mono n n' (net b ∷ bits) le h = (omega (arith, h.0), Below-mono n n' bits le h.1)
Below-mono n n' (constant c ∷ bits) le h = Below-mono n n' bits le h

CellBelow-mono : (n n' : ℕ) (cell : Cell) → n ≤ n' → CellBelow n cell → CellBelow n' cell
CellBelow-mono n n' cell le h =
    Each-mono (Below n) (Below n') cell.connections (λ bits. Below-mono n n' bits le) h

above-le : (n : ℕ) (bits : List Bit) → n ≤ above n bits
unfolding above
above-le n [] = omega arith
above-le n (net b ∷ bits) = omega (arith, above-le (max n (suc b)) bits)
above-le n (constant c ∷ bits) = above-le n bits

above-Below : (n : ℕ) (bits : List Bit) → Below (above n bits) bits
unfolding above
above-Below n [] = tt
above-Below n (net b ∷ bits) =
    (omega (arith, above-le (max n (suc b)) bits), above-Below (max n (suc b)) bits)
above-Below n (constant c ∷ bits) = above-Below n bits

module _ {A : Type 0} (f : ℕ → A → ℕ) (P : ℕ → A → Type 0) (f_le : (n : ℕ) (a : A) → n ≤ f n a)
    (f_P : (n : ℕ) (a : A) → P (f n a) a)
    (P_mono : (n n' : ℕ) (a : A) → n ≤ n' → P n a → P n' a) where
  above_each-le : (n : ℕ) (d : List (String × A)) → n ≤ above_each f n d
  unfolding above_each
  above_each-le n [] = omega arith
  above_each-le n ((k, a) ∷ d) = omega (arith, f_le n a, above_each-le (f n a) d)

  above_each-Each : (n : ℕ) (d : List (String × A)) → Each (P (above_each f n d)) d
  unfolding above_each
  above_each-Each n [] = tt
  above_each-Each n ((k, a) ∷ d) = (
    P_mono (f n a) (above_each f (f n a) d) a (above_each-le (f n a) d) (f_P n a),
    above_each-Each (f n a) d,
  )

above_cell-le : (n : ℕ) (cell : Cell) → n ≤ above_cell n cell
above_cell-le n cell = above_each-le above Below above-le above-Below Below-mono n cell.connections

above_cell-CellBelow : (n : ℕ) (cell : Cell) → CellBelow (above_cell n cell) cell
above_cell-CellBelow n cell =
    above_each-Each above Below above-le above-Below Below-mono n cell.connections

pub new_module-Numbered :
    (attributes : _) (ports : Option (List (String × Port))) (cells : Option (List (String × Cell)))
    (netnames : Option (List (String × Netname)))
    → Numbered (new_module attributes ports cells netnames)
unfolding new_module scan_max_bit
new_module-Numbered attributes ports cells netnames =
    let p = above_each above_port 0 (or_empty ports) in
    let c = above_each above_cell p (or_empty cells) in
    let n = above_each above_netname c (or_empty netnames) in
    let wires_le : c ≤ n =
      above_each-le above_netname NetnameBelow (λ n w. above-le n w.bits)
        (λ n w. above-Below n w.bits) (λ n n' w. Below-mono n n' w.bits) c (or_empty netnames) in
    let cells_le : p ≤ c =
      above_each-le above_cell CellBelow above_cell-le above_cell-CellBelow CellBelow-mono p
        (or_empty cells) in
    let ports_le : p ≤ n = omega arith in
    (
      Each-mono (PortBelow p) (PortBelow n) (or_empty ports)
          (λ port. Below-mono p n port.bits ports_le)
          (above_each-Each above_port PortBelow (λ n port. above-le n port.bits)
            (λ n port. above-Below n port.bits) (λ n n' port. Below-mono n n' port.bits) 0
            (or_empty ports)),
      Each-mono (CellBelow c) (CellBelow n) (or_empty cells)
          (λ cell. CellBelow-mono c n cell wires_le)
          (above_each-Each above_cell CellBelow above_cell-le above_cell-CellBelow CellBelow-mono p
            (or_empty cells)),
      above_each-Each above_netname NetnameBelow (λ n w. above-le n w.bits)
          (λ n w. above-Below n w.bits) (λ n n' w. Below-mono n n' w.bits) c (or_empty netnames),
    )

-- The nets that are given next.
abbrev pub fresh_bits : ℕ → ℕ → List Bit
fresh_bits n zero = []
fresh_bits n (suc width) = net n ∷ fresh_bits (suc n) width

abbrev pub advanced : ℕ → Module → Module
advanced width m = record m { next_bit = m.next_bit + width }

pub alloc_bits-fresh :
    (width : ℕ) (m : Module)
    → alloc_bits width m ≡ (ok (fresh_bits m.next_bit width), advanced width m)
unfolding alloc_bits alloc_bit
alloc_bits-fresh zero m =
    let same : m.next_bit ≡ m.next_bit + 0 = omega arith in
    ap (λ (k : ℕ). (ok [], record m { next_bit = k })) same
alloc_bits-fresh (suc width) m =
    let n = m.next_bit in
    let same : suc n + width ≡ n + suc width = omega arith in
    rw (alloc_bits-fresh width (record m { next_bit = suc n }))
      (ap (λ (k : ℕ). (ok (net n ∷ fresh_bits (suc n) width), record m { next_bit = k })) same)

pub fresh_bits-Below : (n width : ℕ) → Below (n + width) (fresh_bits n width)
fresh_bits-Below n zero = tt
fresh_bits-Below n (suc width) = (
  omega arith,
  Below-mono (suc n + width) (n + suc width) (fresh_bits (suc n) width) (omega arith)
      (fresh_bits-Below (suc n) width),
)

pub advanced-Numbered : (width : ℕ) (m : Module) → Numbered m → Numbered (advanced width m)
advanced-Numbered width m h =
    let n = m.next_bit in
    let le : n ≤ n + width = omega arith in
    (
      Each-mono (PortBelow n) (PortBelow (n + width)) (or_empty m.ports)
          (λ p. Below-mono n (n + width) p.bits le) h.0,
      Each-mono (CellBelow n) (CellBelow (n + width)) (or_empty m.cells)
          (λ c. CellBelow-mono n (n + width) c le) h.1,
      Each-mono (NetnameBelow n) (NetnameBelow (n + width)) (or_empty m.netnames)
          (λ w. Below-mono n (n + width) w.bits le) h.2,
    )

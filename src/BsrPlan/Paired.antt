-- ===== src/BsrPlan/Paired.antt =====
-- The order of the cells in a planned boundary-scan register (src/warptap/bsr_plan.py).
use warptap.Base.{
  ℕ, suc, Bool, true, false, List, [], ◌∷◌, ◌++◌, Option, none, some, String, Result, ok, err,
  ◌>>=◌, >>=-eq-ok, ok-injective, ◌≡◌, refl, subst,
}
use warptap.IclModel.{name_in}
use warptap.BsrPlan.{
  BsrFunction, input, output3, control, internal, clock, bidir, bc_1, bc_7, BsrCell, BsrPlan,
  BsrPlanError, Direction, input_port, output_port, inout_port, other_direction, PortInfo,
  enable_name, control_cell, driven_cell, input_cell, unrecognized_direction, plan_ports,
  build_bsr_plan,
}

-- A cell is disabled by the cell before it, a control cell with the name of its port.
abbrev pub DisabledBy : Option BsrCell → BsrCell → Type 0
DisabledBy before cell =
    (c : BsrCell) × (before ≡ some c)
    × (c.function ≡ control)
    × (c.port_name ≡ enable_name cell.port_name)
    × (cell.disable_cell_index ≡ some c.cell_number)

abbrev pub Gated : BsrFunction → Option BsrCell → BsrCell → Type 0
Gated output3 before cell = DisabledBy before cell
Gated bidir before cell = DisabledBy before cell
Gated input before cell = cell.disable_cell_index ≡ none
Gated control before cell = cell.disable_cell_index ≡ none
Gated internal before cell = false ≡ true
Gated clock before cell = false ≡ true

-- The cells, from one number on and after one cell: they are numbered in order, and each output or
-- bidirectional cell is disabled by the cell before it.
abbrev pub Paired : ℕ → Option BsrCell → List BsrCell → Type 0
Paired n before [] = Unit
Paired n before (cell ∷ cells) =
    (cell.cell_number ≡ n)
    × (cell.safe_value ≡ 0)
    × Gated cell.function before cell
    × Paired (suc n) (some cell) cells

abbrev Planned : List String → ℕ → List BsrCell × List String → Type 0
Planned skip n out = (before : Option BsrCell) → Paired n before out.0

plan_ports-Planned :
    (skip : List String) (ports : List PortInfo) (n : ℕ) (out : List BsrCell × List String)
    → plan_ports skip ports n ≡ ok out
    → Planned skip n out
unfolding plan_ports
plan_ports-Planned skip [] n out h before = subst (λ t. Paired n before t.0) (ok-injective h) tt
plan_ports-Planned skip (port ∷ ports) n out h before =
    go (name_in port.name skip) port.direction h (plan_ports-Planned skip ports)
  where
    go :
        (b : Bool) (d : Direction)
        → (elim b as (λ _. Result BsrPlanError (List BsrCell × List String)) [
          | true ↦
              (plan_ports skip ports n >>= λ (r : List BsrCell × List String).
              ok (r.0, port.name ∷ r.1))
          | false ↦ elim d [
            | input_port ↦
                (plan_ports skip ports (suc n) >>= λ (r : List BsrCell × List String).
                ok (input_cell n port.name ∷ r.0, r.1))
            | output_port ↦
                (plan_ports skip ports (suc (suc n)) >>= λ (r : List BsrCell × List String).
                ok (control_cell n port.name ∷ driven_cell n bc_1 output3 port.name ∷ r.0, r.1))
            | inout_port ↦
                (plan_ports skip ports (suc (suc n)) >>= λ (r : List BsrCell × List String).
                ok (control_cell n port.name ∷ driven_cell n bc_7 bidir port.name ∷ r.0, r.1))
            | other_direction text ↦ err (unrecognized_direction port.name text)
          ]
        ])
          ≡ ok out
        → ((m : ℕ) (o : List BsrCell × List String)
            → plan_ports skip ports m ≡ ok o
            → Planned skip m o)
        → Paired n before out.0
    go true d e later =
        let (r, first, same) = >>=-eq-ok (plan_ports skip ports n) _ e in
        subst (λ t. Paired n before t.0) (ok-injective same) (later n r first before)
    go false input_port e later =
        let (r, first, same) = >>=-eq-ok (plan_ports skip ports (suc n)) _ e in
        subst (λ t. Paired n before t.0) (ok-injective same)
          (refl, refl, refl, later (suc n) r first _)
    go false output_port e later =
        let (r, first, same) = >>=-eq-ok (plan_ports skip ports (suc (suc n))) _ e in
        subst (λ t. Paired n before t.0) (ok-injective same)
          (
            refl,
            refl,
            refl,
            (
              refl,
              refl,
              (control_cell n port.name, refl, refl, refl, refl),
              later (suc (suc n)) r first _,
            ),
          )
    go false inout_port e later =
        let (r, first, same) = >>=-eq-ok (plan_ports skip ports (suc (suc n))) _ e in
        subst (λ t. Paired n before t.0) (ok-injective same)
          (
            refl,
            refl,
            refl,
            (
              refl,
              refl,
              (control_cell n port.name, refl, refl, refl, refl),
              later (suc (suc n)) r first _,
            ),
          )
    go false (other_direction text) e later = cc

-- In the plan of a boundary-scan register the cells are numbered from 0 in order and all have the safe
-- value 0; directly before each output and bidirectional cell stands the control cell of its port,
-- which it names as the cell that disables it; and no other cell names one.
pub build_bsr_plan-Paired :
    (ports : List PortInfo) (clock_ports excluded_ports : List String) (plan : BsrPlan)
    → build_bsr_plan ports clock_ports excluded_ports ≡ ok plan
    → Paired 0 none plan.cells
unfolding build_bsr_plan
build_bsr_plan-Paired ports clock_ports excluded_ports plan h =
    let (out, planned, same) = >>=-eq-ok (plan_ports (clock_ports ++ excluded_ports) ports 0) _ h in
    subst (λ (p : BsrPlan). Paired 0 none p.cells) (ok-injective same)
      (plan_ports-Planned (clock_ports ++ excluded_ports) ports 0 out planned none)

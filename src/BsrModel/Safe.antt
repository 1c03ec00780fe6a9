-- ===== src/BsrModel/Safe.antt =====
-- A planned boundary-scan register after a reset (src/warptap/bsr_model.py, src/warptap/bsr_plan.py).
use text.Mathlib.TextEquality.{eq_iff}
use warptap.Base.{
  not_both, ℕ, suc, if◌then◌else◌, Bool, true, false, not, ◌&&◌, List, [], ◌∷◌, map, Option, none,
  some, String, same_name, ok, ◌≡◌, refl, sym, ap, subst, ◌∙◌, ◌⊎◌, inl, inr,
}
use warptap.BsrPlan.{
  BsrFunction, input, output3, control, internal, clock, bidir, BsrCell, BsrPlan, PortInfo,
  enable_name, build_bsr_plan,
}
use warptap.BsrPlan.Paired.{Gated, Paired, build_bsr_plan-Paired}
use warptap.BsrModel.{
  CellState, BoundaryScanRegister, high_z, reset, is_cell, find_states, pin_value, pin_drive_value,
}

-- The register holds the cells, and all its update latches hold 0.
abbrev Cleared : List BsrCell → List CellState → Type 0
Cleared [] [] = Unit
Cleared (cell ∷ cells) (s ∷ states) = (s.cell ≡ cell) × (s.po ≡ 0) × Cleared cells states
Cleared _ _ = false ≡ true

-- What the loop has found so far: an output cell only with a control cell, whose latch holds 0; and
-- the control cell if it is the cell at hand.
abbrev Found : String → Option BsrCell → Option CellState × Option CellState → Type 0
Found name before (output, enable) =
    ((s : CellState) → enable ≡ some s → s.po ≡ 0)
    × ((s : CellState) → output ≡ some s → (e : CellState) × (enable ≡ some e))
    × ((c : BsrCell)
        → before ≡ some c
        → c.function ≡ control
        → c.port_name ≡ enable_name name
        → (e : CellState) × (enable ≡ some e))

abbrev output_test : BsrFunction → String → String → Bool
output_test fn port name = elim fn [ output3 ↦ same_name port name | _ ↦ false ]

abbrev control_test : BsrFunction → String → String → Bool
control_test fn port name = elim fn [ control ↦ same_name port (enable_name name) | _ ↦ false ]

-- One step of the loop.
step-Found :
    (name : String) (before : Option BsrCell) (s : CellState) (output enable : Option CellState)
    → s.po ≡ 0
    → Found name before (output, enable)
    → (fn : BsrFunction) → s.cell.function ≡ fn
    → Gated fn before s.cell
    → (is_output is_enable : Bool) → is_output ≡ output_test fn s.cell.port_name name
    → is_enable ≡ control_test fn s.cell.port_name name
    → Found name (some s.cell) (
      if is_output then some s else output,
      if not is_output && is_enable then some s else enable,
    )
step-Found name before s output enable z f output3 q g true is_enable ho he =
    let mine : s.cell.port_name ≡ name = (eq_iff s.cell.port_name name).0 (sym ho) in
    let gated = f.2 g.0 g.1 g.2 (g.3 ∙ ap enable_name mine) in (f.0, (λ t e. gated), λ c e k n. cc)
step-Found name before s output enable z f output3 q g false true ho he = cc
step-Found name before s output enable z f output3 q g false false ho he = (f.0, f.1, λ c e k n. cc)
step-Found name before s output enable z f control q g true is_enable ho he = cc
step-Found name before s output enable z f control q g false true ho he = (
  (λ t e. let same : s ≡ t = cc in subst (λ u. u.po ≡ 0) same z),
  (λ t e. (s, refl)),
  λ c e k n. (s, refl),
)
step-Found name before s output enable z f control q g false false ho he = (
  f.0,
  f.1,
  λ c e k n.
      let same : s.cell ≡ c = cc in
      let named = (eq_iff s.cell.port_name (enable_name name)).1 (ap (λ x. x.port_name) same ∙ n) in
      not_both (same_name s.cell.port_name (enable_name name)) (sym he) named,
)
step-Found name before s output enable z f input q g true is_enable ho he = cc
step-Found name before s output enable z f input q g false true ho he = cc
step-Found name before s output enable z f input q g false false ho he = (f.0, f.1, λ c e k n. cc)
step-Found name before s output enable z f bidir q g true is_enable ho he = cc
step-Found name before s output enable z f bidir q g false true ho he = cc
step-Found name before s output enable z f bidir q g false false ho he = (f.0, f.1, λ c e k n. cc)
step-Found name before s output enable z f internal q g is_output is_enable ho he = cc
step-Found name before s output enable z f clock q g is_output is_enable ho he = cc

find_states-Found :
    (name : String) (cells : List BsrCell) (n : ℕ) (before : Option BsrCell)
    (states : List CellState) (output enable : Option CellState)
    → Paired n before cells
    → Cleared cells states
    → Found name before (output, enable)
    → Found name none (find_states name states output enable)
unfolding find_states
find_states-Found name [] n before [] output enable p c f = (f.0, f.1, λ c' e. cc)
find_states-Found name [] n before (s ∷ states) output enable p c f = cc
find_states-Found name (cell ∷ cells) n before [] output enable p c f = cc
find_states-Found name (cell ∷ cells) n before (s ∷ states) output enable p c f =
    find_states-Found name cells (suc n) (some s.cell) states _ _
      (subst (λ x. Paired (suc n) (some x) cells) (sym c.0) p.3) c.2
      (step-Found name before s output enable c.1 f s.cell.function refl
        (subst (λ x. Gated x.function before x) (sym c.0) p.2) (is_cell s output3 name)
        (is_cell s control (enable_name name)) refl refl)

reset-Cleared :
    (cells : List BsrCell) (states : List CellState)
    → map (λ s. s.cell) states ≡ cells
    → Cleared cells (map {A = CellState} (λ s. record s { shift_ff = 0; po = 0 }) states)
reset-Cleared [] [] h = tt
reset-Cleared [] (s ∷ states) h = cc
reset-Cleared (cell ∷ cells) [] h = cc
reset-Cleared (cell ∷ cells) (s ∷ states) h = (cc, refl, reset-Cleared cells states cc)

Found-high_z :
    (inputs : List (String × ℕ)) (name : String) (found : Option CellState × Option CellState)
    → Found name none found
    → (pin_value inputs true found ≡ none) ⊎ (pin_value inputs true found ≡ some high_z)
Found-high_z inputs name (none, enable) f = inl refl
Found-high_z inputs name (some s, none) f = let (e, h) = f.1 s refl in cc
Found-high_z inputs name (some s, some e) f =
    let zero_latch = f.0 e refl in inr (rw zero_latch refl)

-- A reset disables every driver: right after it, under EXTEST, no pin of a register with the cells of
-- a plan is driven; `pin_drive_value` returns "z", or None for a port without an output cell.
pub reset-high_z :
    (ports : List PortInfo) (clock_ports excluded_ports : List String) (plan : BsrPlan)
    (r : BoundaryScanRegister) (port_name : String)
    → build_bsr_plan ports clock_ports excluded_ports ≡ ok plan
    → map (λ s. s.cell) r.states ≡ plan.cells
    → (pin_drive_value (reset r) port_name true ≡ none)
      ⊎ (pin_drive_value (reset r) port_name true ≡ some high_z)
unfolding pin_drive_value reset
reset-high_z ports clock_ports excluded_ports plan r port_name planned same =
    Found-high_z r.functional_inputs port_name _ (
      find_states-Found port_name plan.cells 0 none _ none none
        (build_bsr_plan-Paired ports clock_ports excluded_ports plan planned)
        (reset-Cleared plan.cells r.states same) ((λ s e. cc), (λ s e. cc), λ c e k n. cc))

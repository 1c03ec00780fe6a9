-- ===== src/BsrModel.antt =====
-- The model of a boundary-scan register (src/warptap/bsr_model.py).
pub mod Scan
pub mod Safe
use warptap.Base.{
  ℕ, truthy, if◌then◌else◌, Bool, true, false, ◌&&◌, List, [], ◌∷◌, map, Option, none, some, String,
  same_name, Result, ok, err, ◌>>=◌, ◌>>◌, raise_if, not, ◌||◌,
}
use warptap.Base.Dicts.{lookup}
use warptap.SibLayout.{get_or_0}
use warptap.TapModel.Registers.{DataRegister}
use warptap.BsrPlan.{
  BsrFunction, input, output3, control, internal, clock, bidir, BsrCell, BsrPlan, enable_name,
}

-- `_CellState`.
pub record CellState : Type 0 where
  pub cell : BsrCell
  pub shift_ff : ℕ
  pub po : ℕ

pub record BoundaryScanRegister : Type 0 where
  pub states : List CellState
  pub functional_inputs : List (String × ℕ)

-- The NotImplementedError of the constructor.
pub data BsrModelError : Type 0 where
  not_modelled : BsrFunction → BsrModelError

-- `function in (BsrFunction.INPUT, BsrFunction.CONTROL, BsrFunction.OUTPUT3)`
abbrev pub is_modelled : BsrFunction → Bool
is_modelled input = true
is_modelled control = true
is_modelled output3 = true
is_modelled internal = false
is_modelled clock = false
is_modelled bidir = false

-- The loop of the constructor, and a `_CellState` for each cell.
unfoldable pub new_states : List BsrCell → Result BsrModelError (List CellState)
new_states [] = ok []
new_states (cell ∷ cells) = do
  raise_if (not (is_modelled cell.function)) (not_modelled cell.function)
  states ← new_states cells
  ok (record { cell = cell; shift_ff = 0; po = 0 } ∷ states)

unfoldable pub new_register : BsrPlan → Result BsrModelError BoundaryScanRegister
unfolding new_states
new_register plan = do
  states ← new_states plan.cells
  ok (record { states = states; functional_inputs = [] })

unfoldable pub reset : BoundaryScanRegister → BoundaryScanRegister
reset r = record r {
  states = map {A = CellState} (λ s. record s { shift_ff = 0; po = 0 }) r.states;
}

unfoldable pub set_functional_inputs :
    List (String × ℕ) → BoundaryScanRegister → BoundaryScanRegister
set_functional_inputs inputs r = record r { functional_inputs = inputs }

-- `_observed_value`
unfoldable pub observed_value : List (String × ℕ) → BsrCell → ℕ
observed_value inputs cell = elim cell.function [
  | control ↦ 1
  | _ ↦ get_or_0 (lookup inputs cell.port_name)
]

unfoldable pub capture : BoundaryScanRegister → BoundaryScanRegister
unfolding observed_value
capture r = record r {
  states =
      map {A = CellState} (λ s. record s { shift_ff = observed_value r.functional_inputs s.cell })
        r.states;
}

-- The loop of `shift`: each cell takes what comes in and passes its own bit on; with nothing after
-- it, that bit is TDO.
unfoldable pub shift_states : List CellState → ℕ → List CellState × ℕ
shift_states [] incoming = ([], incoming)
shift_states (s ∷ states) incoming =
    let (later, tdo) = shift_states states s.shift_ff in
    (record s { shift_ff = incoming } ∷ later, tdo)

unfoldable pub shift : BoundaryScanRegister → ℕ → BoundaryScanRegister × ℕ
unfolding shift_states
shift r tdi = let (states, tdo) = shift_states r.states tdi in (record r { states = states }, tdo)

-- `function in (BsrFunction.CONTROL, BsrFunction.OUTPUT3)`
abbrev pub latches : BsrFunction → Bool
latches control = true
latches output3 = true
latches input = false
latches internal = false
latches clock = false
latches bidir = false

unfoldable pub update : BoundaryScanRegister → BoundaryScanRegister
update r = record r {
  states = map (λ s. if latches s.cell.function then record s { po = s.shift_ff } else s) r.states;
}

abbrev pub bsr_methods : DataRegister BoundaryScanRegister
bsr_methods = record { capture = capture; shift = shift; update = update }

-- The value of a pin, or "z".
pub data PinValue : Type 0 where
  driven : ℕ → PinValue
  high_z : PinValue

-- `cell.function is function and cell.port_name == name`
abbrev pub is_cell : CellState → BsrFunction → String → Bool
is_cell s output3 name = elim s.cell.function [
  | output3 ↦ same_name s.cell.port_name name
  | _ ↦ false
]
is_cell s control name = elim s.cell.function [
  | control ↦ same_name s.cell.port_name name
  | _ ↦ false
]
is_cell s _ name = false

-- The loop of `pin_drive_value`: the last output cell and the last control cell of the port.
unfoldable pub find_states :
    String
    → List CellState
    → Option CellState
    → Option CellState
    → Option CellState × Option CellState
find_states name [] output enable = (output, enable)
find_states name (s ∷ states) output enable =
    let is_output = is_cell s output3 name in
    let is_enable = not is_output && is_cell s control (enable_name name) in
    find_states name states (if is_output then some s else output)
      (if is_enable then some s else enable)

abbrev pub enable_value : Bool → Option CellState → ℕ
enable_value true (some s) = s.po
enable_value true none = 1
enable_value false s = 1

-- `none` for a port that has no output cell.
abbrev pub pin_value :
    List (String × ℕ) → Bool → Option CellState × Option CellState → Option PinValue
pin_value inputs extest_mode (none, enable) = none
pin_value inputs extest_mode (some s, enable) = some (
    if truthy (enable_value extest_mode enable)
    then driven (if extest_mode then s.po else observed_value inputs s.cell)
    else high_z)

unfoldable pub pin_drive_value : BoundaryScanRegister → String → Bool → Option PinValue
unfolding find_states observed_value
pin_drive_value r port_name extest_mode =
    pin_value r.functional_inputs extest_mode (find_states port_name r.states none none)

-- ===== src/BsrPlan.antt =====
-- The plan of a boundary-scan register: its cells, in the order of the ports (src/warptap/bsr_plan.py).
pub mod Paired
use Prim.Native.String.{◌++◌ as join}
use warptap.Base.{
  ℕ, suc, ◌+◌, if◌then◌else◌, Bool, true, false, ◌||◌, List, [], ◌∷◌, ◌++◌, Option, none, some,
  String, same_name, Result, ok, err, ◌>>=◌,
}
use warptap.IclModel.{name_in}

pub data BsrFunction : Type 0 where
  input output3 control internal clock bidir : BsrFunction

pub data CellType : Type 0 where
  bc_1 bc_7 : CellType

pub record BsrCell : Type 0 where
  pub cell_number : ℕ
  pub cell_type : CellType
  pub port_name : String
  pub function : BsrFunction
  pub safe_value : ℕ
  pub disable_cell_index : Option ℕ

pub record BsrPlan : Type 0 where
  pub cells : List BsrCell
  pub skipped_ports : List String

-- The text of a port's direction.
pub data Direction : Type 0 where
  input_port output_port inout_port : Direction
  other_direction : String → Direction

-- `PortInfo`, of whose fields the plan reads these two.
pub record PortInfo : Type 0 where
  pub name : String
  pub direction : Direction

-- The ValueError, with the port and its direction.
pub data BsrPlanError : Type 0 where
  unrecognized_direction : String → String → BsrPlanError

-- `f"{port.name}_oe"`
abbrev pub enable_name : String → String
enable_name name = join name "_oe"

abbrev pub control_cell : ℕ → String → BsrCell
control_cell n name = record {
  cell_number = n;
  cell_type = bc_1;
  port_name = enable_name name;
  function = control;
  safe_value = 0;
  disable_cell_index = none;
}

-- The cell after a control cell of that number.
abbrev pub driven_cell : ℕ → CellType → BsrFunction → String → BsrCell
driven_cell control_number cell_type function name = record {
  cell_number = suc control_number;
  cell_type = cell_type;
  port_name = name;
  function = function;
  safe_value = 0;
  disable_cell_index = some control_number;
}

abbrev pub input_cell : ℕ → String → BsrCell
input_cell n name = record {
  cell_number = n;
  cell_type = bc_1;
  port_name = name;
  function = input;
  safe_value = 0;
  disable_cell_index = none;
}

-- The loop over the ports, with the number of the next cell: the cells and the skipped ports.
unfoldable pub plan_ports :
    List String → List PortInfo → ℕ → Result BsrPlanError (List BsrCell × List String)
plan_ports skip [] n = ok ([], [])
plan_ports skip (port ∷ ports) n = elim (name_in port.name skip) [
  | true ↦ (do (cells, skipped) ← plan_ports skip ports n; ok (cells, port.name ∷ skipped))
  | false ↦ elim port.direction [
    | input_port ↦ (do
      (cells, skipped) ← plan_ports skip ports (suc n)
      ok (input_cell n port.name ∷ cells, skipped))
    | output_port ↦ (do
      (cells, skipped) ← plan_ports skip ports (suc (suc n))
      ok (control_cell n port.name ∷ driven_cell n bc_1 output3 port.name ∷ cells, skipped))
    | inout_port ↦ (do
      (cells, skipped) ← plan_ports skip ports (suc (suc n))
      ok (control_cell n port.name ∷ driven_cell n bc_7 bidir port.name ∷ cells, skipped))
    | other_direction text ↦ err (unrecognized_direction port.name text)
  ]
]

unfoldable pub build_bsr_plan :
    List PortInfo → List String → List String → Result BsrPlanError BsrPlan
unfolding plan_ports
build_bsr_plan ports clock_ports excluded_ports = do
  (cells, skipped) ← plan_ports (clock_ports ++ excluded_ports) ports 0
  ok (record { cells = cells; skipped_ports = skipped })

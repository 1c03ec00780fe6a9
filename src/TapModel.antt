-- ===== src/TapModel.antt =====
-- The behavioural model of a TAP core: the state machine, the instruction register, and the data
-- registers that are registered for its instructions (src/warptap/tap_model.py). Registers that a
-- caller plugs in are objects of one type `R`, held in a store by handle, so that one object can
-- serve two instructions.
pub mod Registers
pub mod Opcodes
pub mod Decode
pub mod ShiftRegister
use warptap.Base.{
  ℕ, ◌%◌, ◌==◌, if◌then◌else◌, Bool, true, false, Option, none, some, Result, ok, err, ◌>>=◌, ◌>>◌,
}
use mathlib.Core.Option
use warptap.TapFsm.{
  TapState, next_state, test_logic_reset, capture_ir, shift_ir, update_ir, capture_dr, shift_dr,
  update_dr,
}
use Opcodes.{
  Instruction, extest, sample_preload, idcode, bypass, ijtag_access, Problem, Value,
  decode_instruction, idcode_value_error, ijtag_access_opcode_error, network_access_instruction,
  opcode_idcode, opcode_extest, opcode_sample_preload, capture_ir_pattern, bypass_opcode,
  same_instruction, value_of,
}
use Registers.{
  DataRegister, BypassRegister, IdcodeRegister, new_bypass, new_idcode, reset_bypass, reset_idcode,
  bypass_methods, idcode_methods, shift_in,
}

-- `TapModelError`.
pub data TapModelError : Type 0 where
  invalid : Problem → TapModelError
  no_register : Instruction → TapModelError

-- What an entry of `_data_registers` refers to.
pub data Handle : Type 0 where
  builtin_bypass builtin_idcode : Handle
  plugged : ℕ → Handle

pub record TapModel (R : Type 0) : Type 0 where
  pub ir_width : ℕ
  pub has_idcode : Bool
  pub ijtag_access_opcode : Option ℕ
  pub network_instruction : Instruction
  pub bypass_register : BypassRegister
  pub idcode_register : IdcodeRegister  -- no handle refers to it if IDCODE is not configured
  pub data_registers : Instruction → Option Handle
  pub objects : ℕ → R
  pub state : TapState
  pub ir_shift : ℕ
  pub instruction : Instruction

-- `_reset_instruction`.
unfoldable pub reset_instruction : Bool → Instruction
reset_instruction has_idcode = if has_idcode then idcode else bypass

-- `d[key] = value`.
abbrev pub put {ℓ} : {A : Type ℓ} → Instruction → A → (Instruction → A) → Instruction → A
put key value d i = if same_instruction key i then value else d i

-- The registers that `__init__` enters.
unfoldable pub builtin_registers : Bool → Instruction → Option Handle
builtin_registers has_idcode =
    let only_bypass = put bypass (some builtin_bypass) (λ i. none) in
    if has_idcode then put idcode (some builtin_idcode) only_bypass else only_bypass

-- The entries of `opcodes` in `instruction_opcode`.
unfoldable pub opcode_of : ℕ → Option ℕ → Instruction → Option ℕ
unfolding bypass_opcode
opcode_of ir_width access extest = some opcode_extest
opcode_of ir_width access sample_preload = some opcode_sample_preload
opcode_of ir_width access idcode = some opcode_idcode
opcode_of ir_width access bypass = some (bypass_opcode ir_width)
opcode_of ir_width access ijtag_access = access

abbrev raise_if_problem : Option Problem → Result TapModelError (Unit {0})
raise_if_problem none = ok tt
raise_if_problem (some p) = err (invalid p)

abbrev opcode_problem : Option Value → ℕ → Option Problem
opcode_problem none ir_width = none
opcode_problem (some v) ir_width = ijtag_access_opcode_error v ir_width

module _ {R : Type 0} where
  -- `__init__`, over the store of the objects that may be plugged in later.
  unfoldable pub init :
      (ℕ → R) → ℕ → Bool → Value → Option Value → Result TapModelError (TapModel R)
  unfolding builtin_registers reset_instruction network_access_instruction new_bypass new_idcode
  init objects ir_width has_idcode idcode_value access = do
    raise_if_problem (if has_idcode then idcode_value_error idcode_value else none)
    raise_if_problem (opcode_problem access ir_width)
    let opcode = Option.map value_of access
    ok (record {
      ir_width = ir_width;
      has_idcode = has_idcode;
      ijtag_access_opcode = opcode;
      network_instruction = network_access_instruction opcode;
      bypass_register = new_bypass;
      idcode_register = new_idcode (value_of idcode_value);
      data_registers = builtin_registers has_idcode;
      objects = objects;
      state = test_logic_reset;
      ir_shift = 0;
      instruction = reset_instruction has_idcode;
    })

  unfoldable pub register_data_register : Instruction → ℕ → TapModel R → TapModel R
  register_data_register i k m = record m {
    data_registers = put i (some (plugged k)) m.data_registers;
  }

  -- Without IDCODE the model's IDCODE register is not in `_builtin_registers`, and nothing reads it.
  unfoldable pub reset : TapModel R → TapModel R
  unfolding reset_instruction reset_bypass reset_idcode
  reset m = record m {
    state = test_logic_reset;
    ir_shift = 0;
    instruction = reset_instruction m.has_idcode;
    bypass_register = reset_bypass m.bypass_register;
    idcode_register = reset_idcode m.idcode_register;
  }

  -- `instruction_opcode`; `none` is the KeyError.
  unfoldable pub instruction_opcode : TapModel R → Option ℕ
  unfolding opcode_of
  instruction_opcode m = opcode_of m.ir_width m.ijtag_access_opcode m.instruction

  -- `_active_dr`.
  unfoldable pub active_dr : TapModel R → Result TapModelError Handle
  active_dr m = elim (m.data_registers m.instruction) [
    | some h ↦ ok h
    | none ↦ err (no_register m.instruction)
  ]

module _ {R : Type 0} ⦃dr : DataRegister R⦄ where
  abbrev store : ℕ → R → (ℕ → R) → ℕ → R
  store k r objects j = if k == j then r else objects j

  -- The three methods, called through a handle.
  unfoldable pub capture : Handle → TapModel R → TapModel R
  unfolding bypass_methods idcode_methods
  capture builtin_bypass m = record m { bypass_register = bypass_methods.capture m.bypass_register }
  capture builtin_idcode m = record m { idcode_register = idcode_methods.capture m.idcode_register }
  capture (plugged k) m = record m { objects = store k (dr.capture (m.objects k)) m.objects }

  unfoldable pub shift : Handle → ℕ → TapModel R → TapModel R × ℕ
  unfolding bypass_methods idcode_methods
  shift builtin_bypass tdi m =
      let (r, tdo) = bypass_methods.shift m.bypass_register tdi in
      (record m { bypass_register = r }, tdo)
  shift builtin_idcode tdi m =
      let (r, tdo) = idcode_methods.shift m.idcode_register tdi in
      (record m { idcode_register = r }, tdo)
  shift (plugged k) tdi m =
      let (r, tdo) = dr.shift (m.objects k) tdi in (record m { objects = store k r m.objects }, tdo)

  unfoldable pub update : Handle → TapModel R → TapModel R
  unfolding bypass_methods idcode_methods
  update builtin_bypass m = record m { bypass_register = bypass_methods.update m.bypass_register }
  update builtin_idcode m = record m { idcode_register = idcode_methods.update m.idcode_register }
  update (plugged k) m = record m { objects = store k (dr.update (m.objects k)) m.objects }

  -- The `if` chain of `tick`, on the state before the edge.
  unfoldable pub act : TapState → ℕ → TapModel R → Result TapModelError (TapModel R × ℕ)
  unfolding reset_instruction active_dr capture shift update shift_in
  act test_logic_reset tdi m = ok (record m { instruction = reset_instruction m.has_idcode }, 0)
  act capture_ir tdi m = ok (record m { ir_shift = capture_ir_pattern }, 0)
  act shift_ir tdi m =
      ok (record m { ir_shift = shift_in m.ir_width m.ir_shift tdi }, m.ir_shift % 2)
  act update_ir tdi m = ok (
    record m {
      instruction = decode_instruction m.ir_shift m.ir_width m.has_idcode m.ijtag_access_opcode;
    },
    0,
  )
  act capture_dr tdi m = do h ← active_dr m; ok (capture h m, 0)
  act shift_dr tdi m = do h ← active_dr m; ok (shift h tdi m)
  act update_dr tdi m = do h ← active_dr m; ok (update h m, 0)
  act _ tdi m = ok (m, 0)

  -- One rising edge of TCK: the new model, and TDO.
  unfoldable pub tick : ℕ → ℕ → TapModel R → Result TapModelError (TapModel R × ℕ)
  unfolding act
  tick tms tdi m = do
    (m', tdo) ← act m.state tdi m
    ok (record m' { state = next_state m.state tms }, tdo)

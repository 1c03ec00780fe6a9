-- ===== src/TapModel/Opcodes.antt =====
-- Instructions, their opcodes, and the checks on configured values (src/warptap/tap_model.py).
use warptap.Base.{
  ℕ, ◌-◌, ◌^◌, ◌%◌, ◌==◌, ltb, if◌then◌else◌, Bool, true, false, ◌&&◌, Option, none, some,
}

pub data Instruction : Type 0 where
  extest sample_preload idcode bypass ijtag_access : Instruction

-- `dict` keys are compared for identity.
abbrev pub same_instruction : Instruction → Instruction → Bool
same_instruction extest extest = true
same_instruction sample_preload sample_preload = true
same_instruction idcode idcode = true
same_instruction bypass bypass = true
same_instruction ijtag_access ijtag_access = true
same_instruction _ _ = false

abbrev pub default_ir_width : ℕ
default_ir_width = 4

abbrev pub opcode_extest : ℕ
opcode_extest = 0b0000

abbrev pub opcode_sample_preload : ℕ
opcode_sample_preload = 0b0010

abbrev pub opcode_idcode : ℕ
opcode_idcode = 0b0001

abbrev pub opcode_ijtag_access : ℕ
opcode_ijtag_access = 0b1100

abbrev pub capture_ir_pattern : ℕ
capture_ir_pattern = opcode_idcode

abbrev pub idcode_default : ℕ
idcode_default = 0x1A5A5003

-- A Python object that is given for an integer: a non-negative int, the int -(n + 1), or anything
-- else, a bool included.
pub data Value : Type 0 where
  int_pos : ℕ → Value
  int_negsuc : ℕ → Value
  not_int : Value

-- The number of a value that a check has accepted.
abbrev pub value_of : Value → ℕ
value_of (int_pos n) = n
value_of _ = 0

-- What the messages of the two checks say.
pub data Problem : Type 0 where
  not_an_int not_32_bits bit_0_clear does_not_fit : Problem
  already_taken : Instruction → Problem

unfoldable pub idcode_value_error : Value → Option Problem
idcode_value_error not_int = some not_an_int
idcode_value_error (int_negsuc n) = some not_32_bits
idcode_value_error (int_pos value) =
    if ltb value (2 ^ 32)
    then if value % 2 == 1 then none else some bit_0_clear
    else some not_32_bits

unfoldable pub bypass_opcode : ℕ → ℕ
bypass_opcode ir_width = 2 ^ ir_width - 1

unfoldable pub network_access_instruction : Option ℕ → Instruction
network_access_instruction none = extest
network_access_instruction (some _) = ijtag_access

-- `opcode in taken`. The last key of the dict wins where BYPASS's opcode is one of the others.
unfoldable pub ijtag_access_opcode_error : Value → ℕ → Option Problem
unfolding bypass_opcode
ijtag_access_opcode_error not_int ir_width = some not_an_int
ijtag_access_opcode_error (int_negsuc n) ir_width = some does_not_fit
ijtag_access_opcode_error (int_pos opcode) ir_width =
    if ltb opcode (2 ^ ir_width)
    then if opcode == bypass_opcode ir_width
      then some (already_taken bypass)
      else if opcode == opcode_extest
      then some (already_taken extest)
      else if opcode == opcode_sample_preload
      then some (already_taken sample_preload)
      else if opcode == opcode_idcode
      then some (already_taken idcode)
      else none
    else some does_not_fit

-- The tests that both branches on `ijtag_access_opcode` fall through to.
decode_rest : ℕ → ℕ → Bool → Instruction
unfolding bypass_opcode
decode_rest opcode ir_width has_idcode =
    if has_idcode && opcode == opcode_idcode
    then idcode
    else if opcode == bypass_opcode ir_width
    then bypass
    else bypass

unfoldable pub decode_instruction : ℕ → ℕ → Bool → Option ℕ → Instruction
unfolding decode_rest
decode_instruction opcode ir_width has_idcode (some ijtag_access_opcode) =
    if opcode == ijtag_access_opcode then ijtag_access else decode_rest opcode ir_width has_idcode
decode_instruction opcode ir_width has_idcode none =
    if opcode == opcode_extest
    then extest
    else if opcode == opcode_sample_preload
    then sample_preload
    else decode_rest opcode ir_width has_idcode

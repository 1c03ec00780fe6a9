-- ===== src/TapModel/Decode.antt =====
-- Decoding and encoding of instructions (src/warptap/tap_model.py).
use warptap.Base.{ℕ, ◌^◌, ◌<◌, ◌≤◌, zero, suc, ◌≡◌, arith, Bool, Option, none, some}
use warptap.Base.Bits.{pow_double, pow_pos}
use warptap.TapModel.{opcode_of}
use warptap.TapModel.Opcodes.{int_pos, decode_instruction, ijtag_access_opcode_error}

-- The configured access opcode has passed its check.
abbrev pub AccessOk : Option ℕ → ℕ → Type 0
AccessOk none ir_width = Unit {0}
AccessOk (some opcode) ir_width = ijtag_access_opcode_error (int_pos opcode) ir_width ≡ none

four-le-pow : (n : ℕ) → 2 ≤ n → 4 ≤ 2 ^ n
four-le-pow zero h = absurd (omega arith)
four-le-pow (suc zero) h = absurd (omega arith)
four-le-pow (suc (suc n)) h = omega (arith, pow_double (suc n), pow_double n, pow_pos n)

abbrev opcode_or_0 : Option ℕ → ℕ
opcode_or_0 none = 0
opcode_or_0 (some n) = n

-- On a TAP whose access opcode, if any, has passed its check and whose instruction register has
-- two bits or more, the canonical opcode of a decoded instruction exists, fits the register and
-- decodes to the same instruction.
pub decode-opcode_of :
    (opcode ir_width : ℕ) (has_idcode : Bool) (access : Option ℕ)
    → 2 ≤ ir_width
    → AccessOk access ir_width
    → let i = decode_instruction opcode ir_width has_idcode access in
      (canonical : ℕ) × (opcode_of ir_width access i ≡ some canonical)
      × (canonical < 2 ^ ir_width)
      × (decode_instruction canonical ir_width has_idcode access ≡ i)
unfolding decode_instruction opcode_of ijtag_access_opcode_error
decode-opcode_of opcode ir_width has_idcode none wide fine = (
  opcode_or_0 (opcode_of ir_width none (decode_instruction opcode ir_width has_idcode none)),
  ground arith,
  ground (arith, four-le-pow ir_width wide),
  ground (arith, four-le-pow ir_width wide),
)
decode-opcode_of opcode ir_width has_idcode (some access) wide fine = (
  opcode_or_0 (
      opcode_of ir_width (some access)
        (decode_instruction opcode ir_width has_idcode (some access))),
  ground arith,
  ground (arith, four-le-pow ir_width wide),
  ground (arith, four-le-pow ir_width wide),
)

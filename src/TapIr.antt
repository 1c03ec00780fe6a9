-- ===== src/TapIr.antt =====
-- The scan-test operations that every output format shares, and the packing of bits into an
-- integer (src/warptap/tap_ir.py).
pub mod Packing
use warptap.Base.{ℕ, zero, suc, ◌+◌, ◌*◌, ◌/◌, ◌%◌, ◌^◌, List, [], ◌∷◌, Option, String}
use warptap.TapFsm.{TapState}

-- `GotoState`, `ShiftIR`, `ShiftDR`, `Runtest`, `PulsePin`, `SetPins`.
pub data IrOp : Type 0 where
  goto_state : TapState → IrOp
  shift_ir : ℕ → ℕ → Option ℕ → Option ℕ → IrOp  -- bits, tdi, tdo, mask
  shift_dr : ℕ → ℕ → Option ℕ → Option ℕ → IrOp
  runtest : ℕ → TapState → TapState → IrOp  -- count, run_state, end_state
  pulse_pin : String → ℕ → List (String × ℕ) → IrOp  -- port, count, hold_pins
  set_pins : List (String × ℕ) → IrOp

-- `TAP_STATE_NAMES`
unfoldable pub state_name : TapState → String
state_name TapState.test_logic_reset = "RESET"
state_name TapState.run_test_idle = "IDLE"
state_name TapState.select_dr_scan = "DRSELECT"
state_name TapState.capture_dr = "DRCAPTURE"
state_name TapState.shift_dr = "DRSHIFT"
state_name TapState.exit1_dr = "DREXIT1"
state_name TapState.pause_dr = "DRPAUSE"
state_name TapState.exit2_dr = "DREXIT2"
state_name TapState.update_dr = "DRUPDATE"
state_name TapState.select_ir_scan = "IRSELECT"
state_name TapState.capture_ir = "IRCAPTURE"
state_name TapState.shift_ir = "IRSHIFT"
state_name TapState.exit1_ir = "IREXIT1"
state_name TapState.pause_ir = "IRPAUSE"
state_name TapState.exit2_ir = "IREXIT2"
state_name TapState.update_ir = "IRUPDATE"

-- `sum(bit << i for i, bit in enumerate(bits))`, with `i` counting from `start`.
pub bits_to_int_from : ℕ → List ℕ → ℕ
bits_to_int_from start [] = 0
bits_to_int_from start (bit ∷ bits) = bit * 2 ^ start + bits_to_int_from (suc start) bits

unfoldable pub bits_to_int : List ℕ → ℕ
unfolding bits_to_int_from
bits_to_int bits = bits_to_int_from 0 bits

-- `[f(i) for i in range(start, start + count)]`
unfoldable pub for_range {ℓ} : {A : Type ℓ} → ℕ → ℕ → (ℕ → A) → List A
for_range start zero f = []
for_range start (suc count) f = f start ∷ for_range (suc start) count f

-- `[(value >> i) & 1 for i in range(width)]`
unfoldable pub bits_from_int : ℕ → ℕ → List ℕ
unfolding for_range
bits_from_int value width = for_range 0 width (λ i. value / 2 ^ i % 2)

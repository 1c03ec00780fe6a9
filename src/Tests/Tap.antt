-- ===== src/Tests/Tap.antt =====
-- Runs of the TAP models (src/warptap/tap_fsm.py, tap_ir.py, tap_model.py, tap_ir_play.py).
use warptap.Base.{
  ℕ, ◌<◌, ◌%◌, ◌^◌, List, [], ◌∷◌, map, none, some, true, Result, ok, err, ◌≡◌, refl, arith,
}
use warptap.TapFsm.{next_state, walk, test_logic_reset, run_test_idle, shift_dr, shift_ir, pause_ir}
use warptap.TapFsm.Walks.{five_ones_reset}
use warptap.TapIr.{IrOp, goto_state, bits_to_int, bits_from_int}
use warptap.TapIr.Packing.{bits_from_int-bits_to_int}
use warptap.TapModel.Opcodes.{decode_instruction, ijtag_access_opcode_error}
use warptap.TapModel.Decode.{decode-opcode_of}
use warptap.TapModel.{
  TapModel, opcode_of, builtin_registers, active_dr, capture, shift, update, act, tick,
}
use warptap.TapModel.Registers.{new_bypass, new_idcode, bypass_methods}
use warptap.TapModel.Opcodes.{extest, bypass, idcode_default}
use warptap.TapIrPlay.{
  navigation_tms, shift_tms, shift_cycles, tick_all, cycles_op, to_cycles, shift_op_ranges, play,
}
use warptap.TapIrPlay.Traces.{observe}
use warptap.TapIrPlay.Cycles.{play-to_cycles}
use warptap.TapIrPlay.IrScan.{load_ir, play-load_ir}
use warptap.PdlVerify.{ReadCheckResult, check_reads, correlate_observed}
use warptap.PdlVerify.Passed.{Judged}
use warptap.PdlVerify.Traced.{check_reads-Judged}
use warptap.SibModel.{sib_network_register}
use warptap.SibModel.State.{Slots, no_slots}

five_ones_reset_example :
    (walk pause_ir (1 ∷ 1 ∷ 1 ∷ 1 ∷ 1 ∷ []) ≡ test_logic_reset)
    × (next_state test_logic_reset 1 ≡ test_logic_reset)
five_ones_reset_example = five_ones_reset pause_ir

bits_from_int-bits_to_int_example : bits_from_int (bits_to_int (1 ∷ 0 ∷ 1 ∷ [])) 3 ≡ 1 ∷ 0 ∷ 1 ∷ []
bits_from_int-bits_to_int_example =
    bits_from_int-bits_to_int (1 ∷ 0 ∷ 1 ∷ []) (omega arith, (omega arith, (omega arith, tt)))

decode-opcode_of_example :
    let i = decode_instruction 9 4 true (some 12) in
    (canonical : ℕ) × (opcode_of 4 (some 12) i ≡ some canonical)
    × (canonical < 2 ^ 4)
    × (decode_instruction canonical 4 true (some 12) ≡ i)
unfolding ijtag_access_opcode_error
decode-opcode_of_example = decode-opcode_of 9 4 true (some 12) (omega arith) refl

-- A TAP with IDCODE, at rest.
abbrev idle : TapModel Slots
idle = record {
  ir_width = 4;
  has_idcode = true;
  ijtag_access_opcode = none;
  network_instruction = extest;
  bypass_register = new_bypass;
  idcode_register = new_idcode idcode_default;
  data_registers = builtin_registers true;
  objects = λ k. no_slots;
  state = run_test_idle;
  ir_shift = 0;
  instruction = bypass;
}

play-load_ir_example :
    play idle (load_ir 4 15)
    ≡ ok (
      record idle {
        ir_shift = 15 % 2 ^ 4;
        state = run_test_idle;
        instruction = decode_instruction (15 % 2 ^ 4) 4 true none;
      },
      1 ∷ [],
    )
play-load_ir_example = play-load_ir idle 15 refl (omega arith)

-- Load BYPASS, and shift three bits through it, of which two are expected at TDO.
abbrev ops : List IrOp
ops =
    goto_state shift_ir
    ∷ IrOp.shift_ir 4 15 none none
    ∷ goto_state run_test_idle
    ∷ goto_state shift_dr
    ∷ IrOp.shift_dr 3 5 (some 2) (some 6)
    ∷ goto_state run_test_idle
    ∷ []

abbrev pub ok_or : {E A : Type 0} → A → Result E A → A
ok_or d (ok a) = a
ok_or d (err e) = d

abbrev cycles : List (ℕ × ℕ)
unfolding to_cycles cycles_op shift_cycles shift_tms navigation_tms walk next_state bits_from_int
cycles = ok_or [] (to_cycles ops)

abbrev after : TapModel Slots × List ℕ
unfolding to_cycles cycles_op shift_cycles shift_tms navigation_tms walk next_state bits_from_int
    tick_all tick act active_dr capture shift update builtin_registers decode_instruction
    bypass_methods new_bypass
after = ok_or (idle, []) (tick_all cycles idle)

play-to_cycles_example :
    (ranges : List (ℕ × ℕ)) × (shift_op_ranges ops ≡ ok ranges)
    × (play idle ops ≡ ok (after.0, map (observe after.1) ranges))
unfolding to_cycles cycles_op shift_cycles shift_tms navigation_tms walk next_state bits_from_int
    tick_all tick act active_dr capture shift update builtin_registers decode_instruction
    bypass_methods new_bypass
play-to_cycles_example =
    play-to_cycles ops idle after.0 cycles after.1
      (tt, (omega arith, (tt, (tt, (omega arith, (tt, tt)))))) refl refl refl

check_reads-Judged_example :
    (values : List ℕ) × (results : List ReadCheckResult) × (play idle ops ≡ ok (after.0, values))
    × (correlate_observed ops after.1 ≡ ok values)
    × (check_reads ops values ≡ ok results)
    × Judged 0 ops values results
unfolding to_cycles cycles_op shift_cycles shift_tms navigation_tms walk next_state bits_from_int
    tick_all tick act active_dr capture shift update builtin_registers decode_instruction
    bypass_methods new_bypass
check_reads-Judged_example =
    check_reads-Judged ops idle after.0 cycles after.1
      (tt, (omega arith, (tt, (tt, (omega arith, (tt, tt)))))) refl refl refl

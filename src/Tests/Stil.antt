-- ===== src/Tests/Stil.antt =====
-- A pattern with a reset lead-in, a scan and a clock pulse (src/warptap/tap_ir_stil.py).
use warptap.Base.{ℕ, List, [], ◌∷◌, none, some, ok, ◌≡◌, refl}
use warptap.TapFsm.{next_state, walk, test_logic_reset, run_test_idle, shift_dr}
use warptap.TapIr.{IrOp, goto_state, runtest, pulse_pin, set_pins, bits_from_int}
use warptap.TapIrPlay.{navigation_tms, shift_tms, shift_cycles, cycles_op, to_cycles}
use warptap.TapIrStil.{
  Cycle, Pins, declared_pins, walk_op, walk_cycles, settle, shift_vectors, compare_at, drive_pins,
}
use warptap.TapIrStil.Sent.{sends, tap_ops, walk_cycles-to_cycles}
use warptap.TapIrStil.Pattern.{pattern_lines}
use warptap.TapIrStil.Pattern.Loops.{played, vectors_of, OpensWithVector, pattern_lines-played}
use warptap.Tests.Tap.{ok_or}

abbrev pins : Pins
pins = record { inputs = ("trst_n", 1) ∷ ("clk", 0) ∷ []; outputs = "q" ∷ [] }

declared : declared_pins (("trst_n", 1) ∷ ("clk", 0) ∷ []) ("q" ∷ []) ≡ ok pins
unfolding declared_pins
declared = refl

abbrev ops : List IrOp
ops =
    set_pins (("trst_n", 0) ∷ [])
    ∷ goto_state test_logic_reset
    ∷ set_pins (("trst_n", 1) ∷ [])
    ∷ goto_state run_test_idle
    ∷ runtest 20 run_test_idle run_test_idle
    ∷ goto_state shift_dr
    ∷ IrOp.shift_dr 2 1 (some 2) (some 2)
    ∷ goto_state run_test_idle
    ∷ pulse_pin "clk" 3 (("d", 1) ∷ [])
    ∷ []

abbrev tap_cycles : List (ℕ × ℕ)
unfolding to_cycles cycles_op shift_cycles shift_tms navigation_tms walk next_state bits_from_int
tap_cycles = ok_or [] (to_cycles (tap_ops ops))

walk_cycles-to_cycles_example :
    (vs : List Cycle) × (walk_cycles pins ops ≡ ok vs) × (sends vs ≡ tap_cycles)
unfolding to_cycles cycles_op shift_cycles shift_tms navigation_tms walk next_state bits_from_int
walk_cycles-to_cycles_example =
    walk_cycles-to_cycles pins ops tap_cycles ((refl, refl, tt), ((refl, refl, tt), tt)) refl

abbrev cycles : List Cycle
unfolding walk_cycles walk_op shift_cycles shift_tms navigation_tms walk next_state bits_from_int
    settle shift_vectors compare_at drive_pins
cycles = ok_or [] (walk_cycles pins ops)

pattern_lines-played_example :
    (played none (pattern_lines pins ("clk" ∷ "d" ∷ "q" ∷ "trst_n" ∷ []) cycles)
      ≡ vectors_of pins ("clk" ∷ "d" ∷ "q" ∷ "trst_n" ∷ []) cycles)
    × OpensWithVector (pattern_lines pins ("clk" ∷ "d" ∷ "q" ∷ "trst_n" ∷ []) cycles)
unfolding walk_cycles walk_op shift_cycles shift_tms navigation_tms walk next_state bits_from_int
    settle shift_vectors compare_at drive_pins
pattern_lines-played_example =
    pattern_lines-played pins ("clk" ∷ "d" ∷ "q" ∷ "trst_n" ∷ []) ops cycles refl

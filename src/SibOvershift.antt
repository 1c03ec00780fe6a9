-- ===== src/SibOvershift.antt =====
-- The over-shift test of a network: more bits than the chain is said to be long are shifted through
-- it, and what comes out is compared with a fresh model (src/warptap/sib_overshift.py).
pub mod Probe
pub mod Verdict
pub mod Effect
use warptap.Base.{
  ℕ, zero, suc, ◌+◌, ◌/◌, ◌%◌, ◌==◌, if◌then◌else◌, Bool, true, false, ◌&&◌, List, [], ◌∷◌, ◌++◌,
  reverse, Option, none, some, Result, ok, err, ◌>>=◌, length, String,
}
use warptap.TapFsm.{shift_dr, run_test_idle}
use warptap.TapIr.{IrOp, goto_state, for_range, bits_to_int, bits_from_int}
use warptap.IclModel.{Chain}
use warptap.SibLayout.{OpenMap, OpenSet, values, LayoutError, layout_bit_length, compose_bits}
use warptap.SibRetarget.{RetargetError, stage_open_sequence}
use warptap.SibModel.{sib_network_register, last_or}
use warptap.SibModel.State.{Slots, SibModelError, new_register}
use warptap.TapModel.Opcodes.{Instruction, extest, Value, int_pos, default_ir_width, idcode_default}
use warptap.TapModel.{TapModel, TapModelError, init, register_data_register, tick}
use warptap.TapIrPlay.{PlayError, play}

-- `default_sentinel_pattern`.
unfoldable pub default_sentinel_pattern : ℕ → ℕ
default_sentinel_pattern bits = bits_to_int (for_range 0 bits (λ i. i / 2 % 2))

-- An int: a number, or -(n + 1).
pub data Margin : Type 0 where
  count negative : ℕ → Margin

-- The ValueError, and what the functions that are called raise.
pub data OvershiftError : Type 0 where
  negative_margin : OvershiftError
  retarget_error : RetargetError → OvershiftError
  layout_error : LayoutError → OvershiftError

abbrev pub lift_layout : {A : Type 0} → Result LayoutError A → Result OvershiftError A
lift_layout (ok a) = ok a
lift_layout (err e) = err (layout_error e)

abbrev pub lift_retarget : {A : Type 0} → Result RetargetError A → Result OvershiftError A
lift_retarget (ok a) = ok a
lift_retarget (err e) = err (retarget_error e)

-- A scan of the data register from Run-Test/Idle and back.
abbrev pub scan : ℕ → ℕ → List IrOp
scan bits tdi =
    goto_state shift_dr ∷ IrOp.shift_dr bits tdi none none ∷ goto_state run_test_idle ∷ []

-- The loop over the rounds: the operations, and the set that is open after them.
unfoldable pub round_ops :
    Chain → OpenSet → List OpenMap → Result OvershiftError (List IrOp × OpenSet)
round_ops chain prior_open [] = ok ([], prior_open)
round_ops chain prior_open (open_after ∷ later) = do
  len1 ← lift_layout (layout_bit_length chain prior_open)
  bits1 ← lift_layout (compose_bits chain prior_open (values open_after) none 0)
  (ops, last_open) ← round_ops chain (values open_after) later
  ok (scan len1 (bits_to_int (reverse bits1)) ++ ops, last_open)

abbrev pub sentinel_or_default : Option ℕ → ℕ → ℕ
sentinel_or_default none margin = default_sentinel_pattern margin
sentinel_or_default (some sentinel) margin = sentinel

unfoldable pub build_overshift_ops :
    Chain → OpenSet → OpenSet → Margin → Option ℕ → Result OvershiftError (List IrOp)
unfolding round_ops
build_overshift_ops chain target_open currently_open (negative n) sentinel = err negative_margin
build_overshift_ops chain target_open currently_open (count margin) sentinel = do
  stages ← lift_retarget (stage_open_sequence chain target_open currently_open)
  (ops, last_open) ← round_ops chain currently_open stages
  tail_bits ← lift_layout (compose_bits chain last_open last_open none 0)
  let sentinel_bits = bits_from_int (sentinel_or_default sentinel margin) margin
  let fed_bits = sentinel_bits ++ reverse tail_bits
  ok (ops ++ scan (margin + length tail_bits) (bits_to_int fed_bits))

-- What `expected_probe_tdo` may raise; `nothing_observed` is the IndexError of `observed[-1]`.
pub data ProbeError : Type 0 where
  network_error : SibModelError → ProbeError
  tap_error : TapModelError → ProbeError
  play_error : PlayError → ProbeError
  nothing_observed : ProbeError

abbrev lift_network : {A : Type 0} → Result SibModelError A → Result ProbeError A
lift_network (ok a) = ok a
lift_network (err e) = err (network_error e)

abbrev lift_tap : {A : Type 0} → Result TapModelError A → Result ProbeError A
lift_tap (ok a) = ok a
lift_tap (err e) = err (tap_error e)

abbrev lift_play : {A : Type 0} → Result PlayError A → Result ProbeError A
lift_play (ok a) = ok a
lift_play (err e) = err (play_error e)

abbrev last_value : List ℕ → Result ProbeError ℕ
last_value [] = err nothing_observed
last_value (v ∷ vs) = ok (last_or v vs)

-- `expected_probe_tdo`: a fresh TAP with a fresh network at EXTEST.
unfoldable pub expected_probe_tdo : Chain → List IrOp → Result ProbeError ℕ
expected_probe_tdo chain ops = do
  network ← lift_network (new_register chain)
  model ← lift_tap (
      init (λ k. warptap.SibModel.reset network) default_ir_width true (int_pos idcode_default)
        none)
  (model1, tdo) ←
      lift_tap (tick 0 0 (warptap.TapModel.reset (register_data_register extest 0 model)))
  (model2, observed) ← lift_play (play model1 ops)
  last_value observed

-- What the texts of `diagnosis` say.
pub data Diagnosis : Type 0 where
  matching constant_output : Diagnosis
  diverges_after : ℕ → Diagnosis

pub record OverShiftResult : Type 0 where
  pub passed : Bool
  pub probe_bits : ℕ
  pub layout_bits : ℕ
  pub expected_tdo : ℕ
  pub observed_tdo : ℕ
  pub diagnosis : Diagnosis

abbrev all_are : ℕ → List ℕ → Bool
all_are b [] = true
all_are b (c ∷ cs) = b == c && all_are b cs

-- `len(set(bits)) <= 1`
abbrev pub is_constant : List ℕ → Bool
is_constant [] = true
is_constant (b ∷ bs) = all_are b bs

-- The loop that counts the bits that agree.
unfoldable pub agree : List ℕ → List ℕ → ℕ
agree [] os = 0
agree (e ∷ es) [] = 0
agree (e ∷ es) (o ∷ os) = let later = agree es os in if e == o then suc later else 0

unfoldable pub diagnose_overshift : ℕ → ℕ → ℕ → ℕ → OverShiftResult
unfolding agree
diagnose_overshift probe_bits layout_bits expected_tdo observed_tdo =
    let passed = expected_tdo == observed_tdo in
    let observed_bits = bits_from_int observed_tdo probe_bits in
    let expected_bits = bits_from_int expected_tdo probe_bits in
    record {
      passed = passed;
      probe_bits = probe_bits;
      layout_bits = layout_bits;
      expected_tdo = expected_tdo;
      observed_tdo = observed_tdo;
      diagnosis =
          if passed
          then matching
          else if is_constant observed_bits
          then constant_output
          else diverges_after (agree expected_bits observed_bits);
    }

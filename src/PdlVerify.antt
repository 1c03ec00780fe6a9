-- ===== src/PdlVerify.antt =====
-- Comparing what was read with what the program expects (src/warptap/pdl_verify.py).
pub mod Passed
pub mod Traced
use Prim.Native.Nat.{bit_and}
use warptap.Base.{
  ℕ, zero, suc, ◌==◌, Bool, List, [], ◌∷◌, map, Option, none, some, Result, ok, err, ◌>>=◌, take,
  drop,
}
use warptap.TapIr.{IrOp, goto_state, shift_ir, shift_dr, runtest, pulse_pin, set_pins, bits_to_int}
use warptap.TapIrPlay.{PlayError, shift_op_ranges}

-- `PDLVerifyError`, with the index of the shift that has no observed value.
pub data PdlVerifyError : Type 0 where
  not_observed : ℕ → PdlVerifyError

-- The mask -1, which has every bit, is `none`.
pub record ReadCheckResult : Type 0 where
  pub shift_op_index : ℕ
  pub expected : ℕ
  pub observed : ℕ
  pub mask : Option ℕ
  pub passed : Bool

-- `observed_by_shift_op[index]`
abbrev pub value_at : List ℕ → ℕ → Option ℕ
value_at [] index = none
value_at (v ∷ values) zero = some v
value_at (v ∷ values) (suc index) = value_at values index

-- `value & mask`
abbrev pub under : Option ℕ → ℕ → ℕ
under none value = value
under (some mask) value = bit_and value mask

unfoldable pub check_one : ℕ → ℕ → Option ℕ → ℕ → ReadCheckResult
check_one index tdo mask observed = record {
  shift_op_index = index;
  expected = tdo;
  observed = observed;
  mask = mask;
  passed = under mask observed == under mask tdo;
}

-- The `tdo` and `mask` of a shift; `none` for another operation.
abbrev pub expectation : IrOp → Option (Option ℕ × Option ℕ)
expectation (goto_state state) = none
expectation (shift_ir bits tdi tdo mask) = some (tdo, mask)
expectation (shift_dr bits tdi tdo mask) = some (tdo, mask)
expectation (runtest count run_state end_state) = none
expectation (pulse_pin port count hold_pins) = none
expectation (set_pins pins) = none

-- The loop over the operations, from the shift of one index on.
unfoldable pub check_from : List ℕ → ℕ → List IrOp → Result PdlVerifyError (List ReadCheckResult)
unfolding check_one
check_from observed index [] = ok []
check_from observed index (op ∷ ops) = elim (expectation op) [
  | none ↦ check_from observed index ops
  | some (none, mask) ↦ check_from observed (suc index) ops
  | some (some tdo, mask) ↦ elim (value_at observed index) [
    | none ↦ err (not_observed index)
    | some value ↦ (do
      results ← check_from observed (suc index) ops
      ok (check_one index tdo mask value ∷ results))
  ]
]

unfoldable pub check_reads : List IrOp → List ℕ → Result PdlVerifyError (List ReadCheckResult)
unfolding check_from
check_reads ir_ops observed_by_shift_op = check_from observed_by_shift_op 0 ir_ops

-- A slice of the trace for each shift. What `shift_op_ranges` raises passes through.
unfoldable pub correlate_observed : List IrOp → List ℕ → Result PlayError (List ℕ)
correlate_observed ir_ops tdo_by_cycle = do
  ranges ← shift_op_ranges ir_ops
  ok (map (λ (r : ℕ × ℕ). bits_to_int (take r.1 (drop r.0 tdo_by_cycle))) ranges)

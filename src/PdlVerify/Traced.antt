-- ===== src/PdlVerify/Traced.antt =====
-- Checking a trace recorded from a device (src/warptap/pdl_verify.py).
use warptap.Base.{
  ℕ, ◌+◌, List, [], ◌∷◌, map, none, some, ok, ◌≡◌, refl, ap, sym, arith, length, length-append,
  length-map, >>=-eq-ok, ok-injective,
}
use warptap.TapFsm.{TapState, run_test_idle}
use warptap.TapIr.{IrOp, goto_state, shift_ir, shift_dr, runtest, pulse_pin, set_pins}
use warptap.TapModel.Registers.{DataRegister}
use warptap.TapModel.{TapModel}
use warptap.TapIrPlay.{
  navigation_tms, tick_all, play, to_cycles, ranges_op, ranges_from, shift_op_ranges,
}
use warptap.TapIrPlay.Traces.{AllShift, observe}
use warptap.TapIrPlay.Cycles.{play-to_cycles}
use warptap.PdlVerify.{ReadCheckResult, expectation, check_reads, correlate_observed}
use warptap.PdlVerify.Passed.{Judged, shift_ops, check_from-Judged}

-- The number of ranges that an operation appends.
abbrev pub is_shift : IrOp → ℕ
is_shift op = elim (expectation op) [ none ↦ 0 | some e ↦ 1 ]

length-ranges_op :
    (op : IrOp) (s : TapState) (index : ℕ) {s1 : TapState} {index1 : ℕ} {here : List (ℕ × ℕ)}
    → ranges_op op s index ≡ ok (s1, index1, here)
    → length here ≡ is_shift op
unfolding ranges_op
length-ranges_op (goto_state to) s index h =
    let (nav, found, done) = >>=-eq-ok (navigation_tms s to) _ h in cc
length-ranges_op (shift_ir bits tdi tdo mask) s index h = ground arith
length-ranges_op (shift_dr bits tdi tdo mask) s index h = ground arith
length-ranges_op (runtest count run_state end_state) s index h = ground arith
length-ranges_op (pulse_pin port count hold_pins) s index h = ground arith
length-ranges_op (set_pins pins) s index h = ground arith

shift_ops-cons : (op : IrOp) (ops : List IrOp) → shift_ops (op ∷ ops) ≡ is_shift op + shift_ops ops
shift_ops-cons (goto_state to) ops = omega arith
shift_ops-cons (shift_ir bits tdi tdo mask) ops = omega arith
shift_ops-cons (shift_dr bits tdi tdo mask) ops = omega arith
shift_ops-cons (runtest count run_state end_state) ops = omega arith
shift_ops-cons (pulse_pin port count hold_pins) ops = omega arith
shift_ops-cons (set_pins pins) ops = omega arith

length-ranges_from :
    (ops : List IrOp) (s : TapState) (index : ℕ) {ranges : List (ℕ × ℕ)}
    → ranges_from s index ops ≡ ok ranges
    → length ranges ≡ shift_ops ops
unfolding ranges_from
length-ranges_from [] s index h = ap length (sym (ok-injective h))
length-ranges_from (op ∷ ops) s index h =
    let ((s1, index1, here), first, later) = >>=-eq-ok (ranges_op op s index) _ h in
    let (rest, second, done) = >>=-eq-ok (ranges_from s1 index1 ops) _ later in
    omega (
      arith,
      ap length (ok-injective done),
      length-append here rest,
      length-ranges_op op s index first,
      length-ranges_from ops s1 index1 second,
      shift_ops-cons op ops,
    )

module _ {R : Type 0} ⦃dr : DataRegister R⦄ where
  -- If every shift of the operations has a bit, and a model that rests in Run-Test/Idle leaves a
  -- trace of TDO values on the cycles that `to_cycles` lists, `correlate_observed` turns the trace
  -- into the values that `play` reports, and `check_reads` accepts these: its results are those of
  -- the shifts with an expected value, in order, with the number of the shift and what it expected
  -- and observed, and a result has passed exactly if the two agree at each bit of its mask.
  pub check_reads-Judged :
      (ops : List IrOp) (m m2 : TapModel R) (cs : List (ℕ × ℕ)) (trace : List ℕ)
      → AllShift ops
      → m.state ≡ run_test_idle
      → to_cycles ops ≡ ok cs
      → tick_all cs m ≡ ok (m2, trace)
      → (values : List ℕ) × (results : List ReadCheckResult) × (play m ops ≡ ok (m2, values))
        × (correlate_observed ops trace ≡ ok values)
        × (check_reads ops values ≡ ok results)
        × Judged 0 ops values results
  unfolding correlate_observed check_reads observe shift_op_ranges
  check_reads-Judged ops m m2 cs trace pos idle h t =
      let (ranges, listed, played) = play-to_cycles ops m m2 cs trace pos idle h t in
      let values = map (observe trace) ranges in
      let one_each : length values ≡ shift_ops ops =
        omega (
          arith,
          length-map ranges (observe trace),
          length-ranges_from ops run_test_idle 0 listed,
        ) in
      let (results, checked, judged) = check_from-Judged ops [] values one_each in
      (values, results, played, rw listed refl, checked, judged)

-- ===== src/TapIrPlay.antt =====
-- Two backends for scan operations: one drives a TAP model, one lists the cycles to send
-- (src/warptap/tap_ir_play.py).
pub mod Navigation
pub mod Traces
pub mod Cycles
pub mod IrScan
use warptap.Base.{
  ℕ, zero, suc, ◌+◌, ◌-◌, List, [], ◌∷◌, ◌++◌, map, Option, none, some, Result, ok, err, ◌>>=◌,
  replicate, length,
}
use warptap.TapFsm.{
  TapState, next_state, walk, test_logic_reset, run_test_idle, shift_dr, shift_ir, exit1_dr,
  exit1_ir,
}
use warptap.TapIr.{IrOp, goto_state, runtest, pulse_pin, set_pins, bits_to_int, bits_from_int}
use warptap.TapModel.Registers.{DataRegister}
use warptap.TapModel.{TapModel, TapModelError, tick}

-- `TapIrPlayError`, and what a model raises.
pub data PlayError : Type 0 where
  cannot_navigate : TapState → TapState → PlayError
  unsupported_op : IrOp → PlayError
  model_error : TapModelError → PlayError

-- The TMS values that lead from the first state to the second.
unfoldable pub navigation_tms : TapState → TapState → Result PlayError (List ℕ)
navigation_tms from test_logic_reset = ok (1 ∷ 1 ∷ 1 ∷ 1 ∷ 1 ∷ [])
navigation_tms run_test_idle shift_dr = ok (1 ∷ 0 ∷ 0 ∷ [])
navigation_tms run_test_idle shift_ir = ok (1 ∷ 1 ∷ 0 ∷ 0 ∷ [])
navigation_tms run_test_idle run_test_idle = ok []
navigation_tms test_logic_reset run_test_idle = ok (0 ∷ [])
navigation_tms exit1_dr run_test_idle = ok (1 ∷ 0 ∷ [])
navigation_tms exit1_ir run_test_idle = ok (1 ∷ 0 ∷ [])
navigation_tms from to = err (cannot_navigate from to)

-- TMS for each of `bits` shift cycles. `range(bits - 1)` is empty at 0 bits too.
unfoldable pub shift_tms : ℕ → List ℕ
shift_tms bits = replicate (bits - 1) 0 ++ 1 ∷ []

abbrev pub with_tdi_0 : ℕ → ℕ × ℕ
with_tdi_0 tms = (tms, 0)

-- `zip(xs, ys)`
pub zip {ℓ κ} : {A : Type ℓ} {B : Type κ} → List A → List B → List (A × B)
zip [] ys = []
zip (x ∷ xs) [] = []
zip (x ∷ xs) (y ∷ ys) = (x, y) ∷ zip xs ys

-- The cycles of a shift operation.
unfoldable pub shift_cycles : ℕ → ℕ → List (ℕ × ℕ)
unfolding zip shift_tms
shift_cycles bits tdi = zip (shift_tms bits) (bits_from_int tdi bits)

abbrev pub lift_model : {A : Type 0} → Result TapModelError A → Result PlayError A
lift_model (ok a) = ok a
lift_model (err e) = err (model_error e)

module _ {R : Type 0} ⦃dr : DataRegister R⦄ where
  -- `model.tick(tms, tdi)` for each cycle: the model, and the TDO values.
  unfoldable pub tick_all : List (ℕ × ℕ) → TapModel R → Result TapModelError (TapModel R × List ℕ)
  tick_all [] m = ok (m, [])
  tick_all ((tms, tdi) ∷ cycles) m = do
    (m1, tdo) ← tick tms tdi m
    (m2, rest) ← tick_all cycles m1
    ok (m2, tdo ∷ rest)

  abbrev drive : List (ℕ × ℕ) → TapModel R → Result PlayError (TapModel R × List ℕ)
  drive cycles m = lift_model (tick_all cycles m)

  -- One operation of `play`: the model, and what it appends to `observed`.
  unfoldable pub play_op : IrOp → TapModel R → Result PlayError (TapModel R × List ℕ)
  unfolding tick_all shift_cycles
  play_op (goto_state to) m = do
    nav ← navigation_tms m.state to
    (m1, out) ← drive (map with_tdi_0 nav) m
    ok (m1, [])
  play_op (IrOp.shift_ir bits tdi tdo mask) m = do
    (m1, out) ← drive (shift_cycles bits tdi) m
    ok (m1, bits_to_int out ∷ [])
  play_op (IrOp.shift_dr bits tdi tdo mask) m = do
    (m1, out) ← drive (shift_cycles bits tdi) m
    ok (m1, bits_to_int out ∷ [])
  play_op (runtest count run_state end_state) m = do
    (m1, out) ← drive (replicate count (0, 0)) m
    ok (m1, [])
  play_op op m = err (unsupported_op op)

  unfoldable pub play : TapModel R → List IrOp → Result PlayError (TapModel R × List ℕ)
  unfolding play_op
  play m [] = ok (m, [])
  play m (op ∷ ops) = do (m1, seen) ← play_op op m; (m2, rest) ← play m1 ops; ok (m2, seen ++ rest)

-- One operation of `to_cycles`: the state that it tracks, and the cycles that it appends.
unfoldable pub cycles_op : IrOp → TapState → Result PlayError (TapState × List (ℕ × ℕ))
unfolding shift_cycles
cycles_op (goto_state to) s = do nav ← navigation_tms s to; ok (walk s nav, map with_tdi_0 nav)
cycles_op (IrOp.shift_ir bits tdi tdo mask) s =
    let cycles = shift_cycles bits tdi in ok (walk s (map (λ c. c.0) cycles), cycles)
cycles_op (IrOp.shift_dr bits tdi tdo mask) s =
    let cycles = shift_cycles bits tdi in ok (walk s (map (λ c. c.0) cycles), cycles)
cycles_op (runtest count run_state end_state) s =
    ok (walk s (replicate count 0), replicate count (0, 0))
cycles_op op s = err (unsupported_op op)

unfoldable pub cycles_from : TapState → List IrOp → Result PlayError (List (ℕ × ℕ))
cycles_from s [] = ok []
cycles_from s (op ∷ ops) = do
  (s1, cycles) ← cycles_op op s
  rest ← cycles_from s1 ops
  ok (cycles ++ rest)

unfoldable pub to_cycles : List IrOp → Result PlayError (List (ℕ × ℕ))
unfolding cycles_from
to_cycles ops = cycles_from run_test_idle ops

-- One operation of `shift_op_ranges`: the state, the index, and the ranges that it appends.
unfoldable pub ranges_op : IrOp → TapState → ℕ → Result PlayError (TapState × ℕ × List (ℕ × ℕ))
ranges_op (goto_state to) s index = do
  nav ← navigation_tms s to
  ok (walk s nav, index + length nav, [])
ranges_op (IrOp.shift_ir bits tdi tdo mask) s index =
    ok (walk s (shift_tms bits), index + bits, (index, bits) ∷ [])
ranges_op (IrOp.shift_dr bits tdi tdo mask) s index =
    ok (walk s (shift_tms bits), index + bits, (index, bits) ∷ [])
ranges_op (runtest count run_state end_state) s index =
    ok (walk s (replicate count 0), index + count, [])
ranges_op op s index = err (unsupported_op op)

unfoldable pub ranges_from : TapState → ℕ → List IrOp → Result PlayError (List (ℕ × ℕ))
ranges_from s index [] = ok []
ranges_from s index (op ∷ ops) = do
  (s1, index1, ranges) ← ranges_op op s index
  rest ← ranges_from s1 index1 ops
  ok (ranges ++ rest)

unfoldable pub shift_op_ranges : List IrOp → Result PlayError (List (ℕ × ℕ))
unfolding ranges_from
shift_op_ranges ops = ranges_from run_test_idle 0 ops

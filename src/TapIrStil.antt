-- ===== src/TapIrStil.antt =====
-- Scan operations as the cycles of a test pattern (src/warptap/tap_ir_stil.py).
pub mod Sent
pub mod Pattern
use Prim.Native.Nat.{min}
use warptap.Base.{
  ℕ, zero, suc, ◌-◌, ◌==◌, Bool, true, false, not, ◌&&◌, ◌||◌, List, [], ◌∷◌, ◌++◌, map, Option,
  none, some, String, Result, ok, err, ◌>>=◌, ◌>>◌, raise_if, replicate, get_or, ltb, truthy,
  same_name, if◌then◌else◌,
}
use warptap.Base.Dicts.{lookup, assign}
use warptap.TapFsm.{TapState, next_state, walk, run_test_idle}
use warptap.TapIr.{
  IrOp, goto_state, shift_ir, shift_dr, runtest, pulse_pin, set_pins, bits_from_int,
}
use warptap.TapIrPlay.{PlayError, navigation_tms, shift_cycles}

-- `TapIrStilError`, and what the navigation raises.
pub data StilError : Type 0 where
  navigation : PlayError → StilError
  undeclared_pin : String → StilError
  not_a_bit : String → ℕ → StilError
  tap_pin : String → StilError
  both_ways : List String → StilError

-- `_JtagCycle`; `tdo_compare` is `none` where nothing is compared.
pub record JtagCycle : Type 0 where
  pub tms : ℕ
  pub tdi : ℕ
  pub tdo_compare : Option ℕ
  pub static : List (String × ℕ)
  pub repeat : ℕ

-- `_PulseCycle`
pub record PulseCycle : Type 0 where
  pub port : String
  pub hold_pins : List (String × ℕ)
  pub static : List (String × ℕ)
  pub repeat : ℕ

pub data Cycle : Type 0 where
  jtag : JtagCycle → Cycle
  pulse : PulseCycle → Cycle

-- `_Pins`
pub record Pins : Type 0 where
  pub inputs : List (String × ℕ)
  pub outputs : List String

-- `name in names`
abbrev pub has_name : String → List String → Bool
has_name name [] = false
has_name name (n ∷ names) = same_name n name || has_name name names

abbrev pub tap_pins : List String
tap_pins = "tck" ∷ "tms" ∷ "tdi" ∷ "tdo" ∷ []

abbrev pub name_of_pin : String × ℕ → String
name_of_pin p = p.0

abbrev pub is_bit : ℕ → Bool
is_bit value = (value == 0) || (value == 1)

abbrev pub check_names : List String → Result StilError (Unit {0})
check_names [] = ok tt
check_names (name ∷ names) = do raise_if (has_name name tap_pins) (tap_pin name); check_names names

abbrev pub check_levels : List (String × ℕ) → Result StilError (Unit {0})
check_levels [] = ok tt
check_levels ((name, value) ∷ pins) = do
  raise_if (not (is_bit value)) (not_a_bit name value)
  check_levels pins

-- The names that the second list has too. The error of the source lists them sorted.
abbrev pub common_names : List String → List String → List String
common_names [] others = []
common_names (name ∷ names) others =
    let rest = common_names names others in if has_name name others then name ∷ rest else rest

abbrev pub raise_some : List String → Result StilError (Unit {0})
raise_some [] = ok tt
raise_some (name ∷ names) = err (both_ways (name ∷ names))

unfoldable pub declared_pins : List (String × ℕ) → List String → Result StilError Pins
declared_pins inputs outputs = do
  check_names (map name_of_pin inputs ++ outputs)
  check_levels inputs
  raise_some (common_names (map name_of_pin inputs) outputs)
  ok (record { inputs = inputs; outputs = outputs })

-- What the cycle at a position of a shift compares.
unfoldable pub compare_at : ℕ → Option ℕ → Option ℕ → ℕ → Option ℕ
compare_at bits (some tdo) (some mask) i =
    if truthy (get_or (bits_from_int mask bits) i 0)
    then some (get_or (bits_from_int tdo bits) i 0)
    else none
compare_at bits tdo mask i = none

abbrev pub jtag_tick : List (String × ℕ) → ℕ → ℕ → Option ℕ → Cycle
jtag_tick snapshot tms tdi tdo_compare =
    jtag (record { tms = tms; tdi = tdi; tdo_compare = tdo_compare; static = snapshot; repeat = 1 })

-- The cycles of a shift, from one position on.
unfoldable pub shift_vectors : List (String × ℕ) → (ℕ → Option ℕ) → ℕ → List (ℕ × ℕ) → List Cycle
shift_vectors snapshot compare i [] = []
shift_vectors snapshot compare i ((tms, tdi) ∷ cycles) =
    jtag_tick snapshot tms tdi (compare i) ∷ shift_vectors snapshot compare (suc i) cycles

-- `settle`
unfoldable pub settle : ℕ → TapState → TapState
settle count state = walk state (replicate (min count 3) 0)

-- The loop over the pins of a `SetPins`. Only declared inputs can be set.
unfoldable pub drive_pins :
    List (String × ℕ) → List (String × ℕ) → List (String × ℕ) → Result StilError (List (String × ℕ))
drive_pins inputs static [] = ok static
drive_pins inputs static ((name, value) ∷ pins) = do
  raise_if (not (has_name name (map name_of_pin inputs))) (undeclared_pin name)
  raise_if (not (is_bit value)) (not_a_bit name value)
  drive_pins inputs (assign static name value) pins

abbrev pub lift_navigation : {A : Type 0} → Result PlayError A → Result StilError A
lift_navigation (ok a) = ok a
lift_navigation (err e) = err (navigation e)

abbrev pub tms_cycle : List (String × ℕ) → ℕ → Cycle
tms_cycle snapshot tms = jtag_tick snapshot tms 0 none

abbrev pub run_cycle : List (String × ℕ) → ℕ → Cycle
run_cycle snapshot count =
    jtag (record { tms = 0; tdi = 0; tdo_compare = none; static = snapshot; repeat = count })

abbrev pub pulse_run : List (String × ℕ) → String → ℕ → List (String × ℕ) → Cycle
pulse_run snapshot port count hold_pins =
    pulse (record { port = port; hold_pins = hold_pins; static = snapshot; repeat = count })

-- The cycles of a scan, and the state after them.
abbrev pub scan_vectors :
    List (String × ℕ)
    → TapState
    → ℕ
    → ℕ
    → Option ℕ
    → Option ℕ
    → TapState × List (String × ℕ) × List Cycle
scan_vectors static state bits tdi tdo mask =
    let cycles = shift_cycles bits tdi in
    (
      walk state (map (λ c. c.0) cycles),
      static,
      shift_vectors static (compare_at bits tdo mask) 0 cycles,
    )

-- One operation of `_walk_cycles`: the state, the values of the declared inputs, and the cycles
-- that it appends.
unfoldable pub walk_op :
    Pins
    → TapState
    → List (String × ℕ)
    → IrOp
    → Result StilError (TapState × List (String × ℕ) × List Cycle)
unfolding settle shift_vectors compare_at drive_pins
walk_op pins state static (goto_state to) = do
  nav ← lift_navigation (navigation_tms state to)
  ok (walk state nav, static, map (tms_cycle static) nav)
walk_op pins state static (shift_ir bits tdi tdo mask) =
    ok (scan_vectors static state bits tdi tdo mask)
walk_op pins state static (shift_dr bits tdi tdo mask) =
    ok (scan_vectors static state bits tdi tdo mask)
walk_op pins state static (runtest count run_state end_state) = ok (
    if ltb 0 count
    then (settle count state, static, run_cycle static count ∷ [])
    else (state, static, []))
walk_op pins state static (pulse_pin port count hold_pins) = ok (
    if ltb 0 count
    then (state, static, pulse_run static port count hold_pins ∷ [])
    else (state, static, []))
walk_op pins state static (set_pins driven) = do
  driven_static ← drive_pins pins.inputs static driven
  ok (state, driven_static, [])

unfoldable pub walk_from :
    Pins → TapState → List (String × ℕ) → List IrOp → Result StilError (List Cycle)
unfolding walk_op
walk_from pins state static [] = ok []
walk_from pins state static (op ∷ ops) = do
  (state1, static1, cycles) ← walk_op pins state static op
  rest ← walk_from pins state1 static1 ops
  ok (cycles ++ rest)

unfoldable pub walk_cycles : Pins → List IrOp → Result StilError (List Cycle)
unfolding walk_from
walk_cycles pins ir_ops = walk_from pins run_test_idle pins.inputs ir_ops

-- ===== src/TapIrStil/Sent.antt =====
-- The cycles of a pattern send what the operations send (src/warptap/tap_ir_stil.py).
use Prim.Native.Nat.{min}
use warptap.Base.{
  ℕ, zero, suc, true, List, [], ◌∷◌, ◌++◌, map, Option, String, ok, ◌≡◌, refl, ap, ap₂, sym, subst,
  ◌∙◌, arith, replicate, ltb, >>=-eq-ok, ok-injective, append-nil, append_assoc,
}
use warptap.Base.Dicts.{assign}
use warptap.TapFsm.{TapState, next_state, walk, test_logic_reset, run_test_idle}
use warptap.TapIr.{IrOp, goto_state, shift_ir, shift_dr, runtest, pulse_pin, set_pins}
use warptap.TapIrPlay.{navigation_tms, with_tdi_0, shift_cycles, cycles_op, cycles_from, to_cycles}
use warptap.TapIrPlay.Navigation.{walk_zeros}
use warptap.TapIrPlay.Traces.{cycles_from-cons}
use warptap.TapIrStil.{
  Cycle, jtag, pulse, Pins, has_name, name_of_pin, is_bit, shift_vectors, settle, drive_pins,
  tms_cycle, run_cycle, pulse_run, compare_at, walk_op, walk_from, walk_cycles,
}

-- The TMS and TDI values that the cycles send, each as often as it is repeated. A pulse sends none.
abbrev pub sends : List Cycle → List (ℕ × ℕ)
sends [] = []
sends (jtag c ∷ cycles) = replicate c.repeat (c.tms, c.tdi) ++ sends cycles
sends (pulse c ∷ cycles) = sends cycles

-- The operations on the TAP.
abbrev pub tap_ops : List IrOp → List IrOp
tap_ops [] = []
tap_ops (pulse_pin port count hold_pins ∷ ops) = tap_ops ops
tap_ops (set_pins pins ∷ ops) = tap_ops ops
tap_ops (op ∷ ops) = op ∷ tap_ops ops

-- The pins are declared inputs, and their values bits.
abbrev pub Drivable : List (String × ℕ) → List (String × ℕ) → Type 0
Drivable inputs [] = Unit {0}
Drivable inputs ((name, value) ∷ pins) =
    (has_name name (map name_of_pin inputs) ≡ true) × (is_bit value ≡ true) × Drivable inputs pins

abbrev pub AllDrivable : List (String × ℕ) → List IrOp → Type 0
AllDrivable inputs [] = Unit {0}
AllDrivable inputs (set_pins pins ∷ ops) = Drivable inputs pins × AllDrivable inputs ops
AllDrivable inputs (op ∷ ops) = AllDrivable inputs ops

drive_pins-ok :
    (inputs static pins : List (String × ℕ))
    → Drivable inputs pins
    → (after : List (String × ℕ)) × (drive_pins inputs static pins ≡ ok after)
unfolding drive_pins
drive_pins-ok inputs static [] h = (static, refl)
drive_pins-ok inputs static ((name, value) ∷ pins) (declared, bit, h) =
    let (after, driven) = drive_pins-ok inputs (assign static name value) pins h in
    (after, rw (declared, bit) driven)

sends-shift_vectors :
    (static : List (String × ℕ)) (compare : ℕ → Option ℕ) (i : ℕ) (cycles : List (ℕ × ℕ))
    → sends (shift_vectors static compare i cycles) ≡ cycles
unfolding shift_vectors
sends-shift_vectors static compare i [] = refl
sends-shift_vectors static compare i ((tms, tdi) ∷ cycles) =
    ap (λ (r : List (ℕ × ℕ)). (tms, tdi) ∷ r) (sends-shift_vectors static compare (suc i) cycles)

sends-tms_cycles :
    (static : List (String × ℕ)) (nav : List ℕ)
    → sends (map (tms_cycle static) nav) ≡ map with_tdi_0 nav
sends-tms_cycles static [] = refl
sends-tms_cycles static (tms ∷ nav) =
    ap (λ (r : List (ℕ × ℕ)). (tms, 0) ∷ r) (sends-tms_cycles static nav)

-- After three edges with TMS = 0 no further one changes the state.
settled : (s : TapState) → next_state (walk s (0 ∷ 0 ∷ 0 ∷ [])) 0 ≡ walk s (0 ∷ 0 ∷ 0 ∷ [])
unfolding walk next_state
settled test_logic_reset = refl
settled _ = refl

pub settle-walk : (count : ℕ) (s : TapState) → settle count s ≡ walk s (replicate count 0)
unfolding settle walk
settle-walk zero s = refl
settle-walk (suc zero) s = refl
settle-walk (suc (suc zero)) s = refl
settle-walk (suc (suc (suc n))) s =
    let three : min (suc (suc (suc n))) 3 ≡ 3 = omega arith in
    ap (λ (k : ℕ). walk s (replicate k 0)) three
    ∙ sym (walk_zeros (walk s (0 ∷ 0 ∷ 0 ∷ [])) n (settled s))

sends-append : (xs ys : List Cycle) → sends (xs ++ ys) ≡ sends xs ++ sends ys
sends-append [] ys = refl
sends-append (jtag c ∷ xs) ys =
    ap (λ (r : List (ℕ × ℕ)). replicate c.repeat (c.tms, c.tdi) ++ r) (sends-append xs ys)
    ∙ sym (append_assoc (replicate c.repeat (c.tms, c.tdi)) (sends xs) (sends ys))
sends-append (pulse c ∷ xs) ys = sends-append xs ys

-- The cycles of one operation, with the state after it, send those of `cycles_op`.
abbrev Sent : Pins → TapState → List (String × ℕ) → IrOp → TapState → List (ℕ × ℕ) → Type 0
Sent pins s static op s1 cs =
    (after : List (String × ℕ)) × (vs : List Cycle) × (walk_op pins s static op
      ≡ ok (s1, after, vs))
    × (sends vs ≡ cs)

walk_op-goto :
    (pins : Pins) (s to : TapState) (static : List (String × ℕ)) (nav : List ℕ)
    → navigation_tms s to ≡ ok nav
    → Sent pins s static (goto_state to) (walk s nav) (map with_tdi_0 nav)
unfolding walk_op
walk_op-goto pins s to static nav found =
    (static, map (tms_cycle static) nav, rw found refl, sends-tms_cycles static nav)

walk_op-runtest :
    (pins : Pins) (s run_state end_state : TapState) (static : List (String × ℕ)) (count : ℕ)
    → Sent pins s static
        (runtest count run_state end_state)
        (walk s (replicate count 0))
        (replicate count (0, 0))
unfolding walk_op
walk_op-runtest pins s r e static zero = (static, [], unfold walk in refl, refl)
walk_op-runtest pins s r e static (suc count) =
    let busy : ltb 0 (suc count) ≡ true = ground arith in
    (
      static,
      run_cycle static (suc count) ∷ [],
      rw busy (
          ap (λ (t : TapState). ok (t, static, run_cycle static (suc count) ∷ []))
            (settle-walk (suc count) s)),
      append-nil (replicate (suc count) (0, 0)),
    )

walk_op-Sent :
    (pins : Pins) (s : TapState) (static : List (String × ℕ)) (op : IrOp) {s1 : TapState}
    {cs : List (ℕ × ℕ)}
    → cycles_op op s ≡ ok (s1, cs)
    → Sent pins s static op s1 cs
unfolding cycles_op walk_op
walk_op-Sent pins s static (goto_state to) h =
    let (nav, found, done) = >>=-eq-ok (navigation_tms s to) _ h in
    subst (λ p. Sent pins s static (goto_state to) p.0 p.1) (ok-injective done)
      (walk_op-goto pins s to static nav found)
walk_op-Sent pins s static (shift_ir bits tdi tdo mask) h =
    subst (λ p. Sent pins s static (shift_ir bits tdi tdo mask) p.0 p.1) (ok-injective h)
      (
        static,
        _,
        refl,
        sends-shift_vectors static (compare_at bits tdo mask) 0 (shift_cycles bits tdi),
      )
walk_op-Sent pins s static (shift_dr bits tdi tdo mask) h =
    subst (λ p. Sent pins s static (shift_dr bits tdi tdo mask) p.0 p.1) (ok-injective h)
      (
        static,
        _,
        refl,
        sends-shift_vectors static (compare_at bits tdo mask) 0 (shift_cycles bits tdi),
      )
walk_op-Sent pins s static (runtest count r e) h =
    subst (λ p. Sent pins s static (runtest count r e) p.0 p.1) (ok-injective h)
      (walk_op-runtest pins s r e static count)
walk_op-Sent pins s static (pulse_pin port count hold_pins) h = absurd cc
walk_op-Sent pins s static (set_pins driven) h = absurd cc

-- The cycles of all operations send some values.
abbrev AllSent : Pins → TapState → List (String × ℕ) → List IrOp → List (ℕ × ℕ) → Type 0
AllSent pins s static ops cs =
    (vs : List Cycle) × (walk_from pins s static ops ≡ ok vs) × (sends vs ≡ cs)

walk_from-cons :
    (pins : Pins) (s : TapState) (static : List (String × ℕ)) (op : IrOp) (ops : List IrOp)
    {s1 : TapState} {cs1 cs2 : List (ℕ × ℕ)}
    → Sent pins s static op s1 cs1
    → ((after : List (String × ℕ)) → AllSent pins s1 after ops cs2)
    → AllSent pins s static (op ∷ ops) (cs1 ++ cs2)
unfolding walk_from
walk_from-cons pins s static op ops (after, vs, walked, same) rest =
    let (vs2, walked2, same2) = rest after in
    (
      vs ++ vs2,
      rw (walked, walked2) refl,
      sends-append vs vs2 ∙ ap₂ (λ (a b : List (ℕ × ℕ)). a ++ b) same same2,
    )

walk_from-tap :
    (pins : Pins) (s : TapState) (static : List (String × ℕ)) (op : IrOp) (ops later : List IrOp)
    {cs : List (ℕ × ℕ)}
    → cycles_from s (op ∷ later) ≡ ok cs
    → ((s1 : TapState) (after : List (String × ℕ)) (cs2 : List (ℕ × ℕ))
        → cycles_from s1 later ≡ ok cs2
        → AllSent pins s1 after ops cs2)
    → AllSent pins s static (op ∷ ops) cs
walk_from-tap pins s static op ops later h rest =
    let (s1, cs1, cs2, first, second, done) = cycles_from-cons op later s h in
    subst (λ (cs : List (ℕ × ℕ)). AllSent pins s static (op ∷ ops) cs) done
      (walk_from-cons pins s static op ops (walk_op-Sent pins s static op first)
        (λ after. rest s1 after cs2 second))

walk_op-pulse :
    (pins : Pins) (s : TapState) (static : List (String × ℕ)) (port : String) (count : ℕ)
    (hold_pins : List (String × ℕ))
    → Sent pins s static (pulse_pin port count hold_pins) s []
unfolding walk_op
walk_op-pulse pins s static port zero hold_pins = (static, [], refl, refl)
walk_op-pulse pins s static port (suc count) hold_pins =
    let busy : ltb 0 (suc count) ≡ true = ground arith in
    (static, pulse_run static port (suc count) hold_pins ∷ [], rw busy refl, refl)

walk_op-set :
    (pins : Pins) (s : TapState) (static driven : List (String × ℕ))
    → Drivable pins.inputs driven
    → Sent pins s static (set_pins driven) s []
unfolding walk_op
walk_op-set pins s static driven h =
    let (after, set) = drive_pins-ok pins.inputs static driven h in (after, [], rw set refl, refl)

walk_from-sends :
    (pins : Pins) (ops : List IrOp) (s : TapState) (static : List (String × ℕ)) {cs : List (ℕ × ℕ)}
    → AllDrivable pins.inputs ops
    → cycles_from s (tap_ops ops) ≡ ok cs
    → AllSent pins s static ops cs
walk_from-sends pins [] s static d h =
    ([], unfold walk_from in refl, unfold cycles_from in ok-injective h)
walk_from-sends pins (pulse_pin port count hold_pins ∷ ops) s static d h =
    walk_from-cons pins s static (pulse_pin port count hold_pins) ops
      (walk_op-pulse pins s static port count hold_pins)
      (λ after. walk_from-sends pins ops s after d h)
walk_from-sends pins (set_pins driven ∷ ops) s static d h =
    walk_from-cons pins s static (set_pins driven) ops (walk_op-set pins s static driven d.0)
      (λ after. walk_from-sends pins ops s after d.1 h)
walk_from-sends pins (goto_state to ∷ ops) s static d h =
    walk_from-tap pins s static (goto_state to) ops (tap_ops ops) h
      (λ s1 after cs2 h2. walk_from-sends pins ops s1 after d h2)
walk_from-sends pins (shift_ir bits tdi tdo mask ∷ ops) s static d h =
    walk_from-tap pins s static (shift_ir bits tdi tdo mask) ops (tap_ops ops) h
      (λ s1 after cs2 h2. walk_from-sends pins ops s1 after d h2)
walk_from-sends pins (shift_dr bits tdi tdo mask ∷ ops) s static d h =
    walk_from-tap pins s static (shift_dr bits tdi tdo mask) ops (tap_ops ops) h
      (λ s1 after cs2 h2. walk_from-sends pins ops s1 after d h2)
walk_from-sends pins (runtest count r e ∷ ops) s static d h =
    walk_from-tap pins s static (runtest count r e) ops (tap_ops ops) h
      (λ s1 after cs2 h2. walk_from-sends pins ops s1 after d h2)

-- If every pin that is set is a declared input that gets 0 or 1, and `to_cycles` lists the cycles of
-- the operations on the TAP, the ones on other pins left out, the walk for a pattern succeeds, and
-- its cycles send these TMS and TDI values, each as often as it is repeated.
pub walk_cycles-to_cycles :
    (pins : Pins) (ops : List IrOp) (cs : List (ℕ × ℕ))
    → AllDrivable pins.inputs ops
    → to_cycles (tap_ops ops) ≡ ok cs
    → (vs : List Cycle) × (walk_cycles pins ops ≡ ok vs) × (sends vs ≡ cs)
unfolding walk_cycles to_cycles
walk_cycles-to_cycles pins ops cs d h = walk_from-sends pins ops run_test_idle pins.inputs d h

-- ===== src/TapIrPlay/Cycles.antt =====
-- Driving a model by operations is driving it by the cycles of the operations
-- (src/warptap/tap_ir_play.py).
use warptap.Base.{
  ℕ, suc, ◌+◌, ◌<◌, List, [], ◌∷◌, ◌++◌, map, ◌≡◌, refl, ap, sym, ◌∙◌, arith, ok, replicate, length,
  >>=-eq-ok, length-append, length-map, length-replicate, append_assoc, ok-injective, subst, subst₂,
}
use warptap.TapFsm.{TapState, next_state, walk, run_test_idle}
use warptap.TapIr.{IrOp, goto_state, runtest, pulse_pin, set_pins, bits_to_int}
use warptap.TapModel.Registers.{DataRegister}
use warptap.TapModel.{TapModel, tick}
use warptap.TapIrPlay.{
  navigation_tms, shift_tms, with_tdi_0, shift_cycles, tick_all, play_op, play, cycles_op,
  cycles_from, to_cycles, ranges_op, ranges_from, shift_op_ranges,
}
use warptap.TapIrPlay.Traces.{
  tms_of, Shifts, AllShift, observe, observe_middle, shift_cycles-tms, goto-tms, runtest-tms,
  map_glue, cycles_from-cons, ranges_from-ok,
}

module _ {R : Type 0} ⦃dr : DataRegister R⦄ where
  tick-state :
      (tms tdi : ℕ) (m : TapModel R) {m' : TapModel R} {tdo : ℕ}
      → tick tms tdi m ≡ ok (m', tdo)
      → m'.state ≡ next_state m.state tms
  unfolding tick
  tick-state tms tdi m h = ground arith

  tick_all-cons :
      (tms tdi : ℕ) (cs : List (ℕ × ℕ)) (m : TapModel R) {m2 : TapModel R} {out : List ℕ}
      → tick_all ((tms, tdi) ∷ cs) m ≡ ok (m2, out)
      → (m1 : TapModel R) × (tdo : ℕ) × (rest : List ℕ) × (tick tms tdi m ≡ ok (m1, tdo))
        × (tick_all cs m1 ≡ ok (m2, rest))
        × (out ≡ tdo ∷ rest)
  unfolding tick_all
  tick_all-cons tms tdi cs m h =
      let ((m1, tdo), first, later) = >>=-eq-ok (tick tms tdi m) _ h in
      let ((m2, rest), second, last) = >>=-eq-ok (tick_all cs m1) _ later in
      (m1, tdo, rest, first, cc, cc)

  tick_all-ok :
      (tms tdi : ℕ) (cs : List (ℕ × ℕ)) (m : TapModel R) {m1 m2 : TapModel R} {tdo : ℕ}
      {rest : List ℕ}
      → tick tms tdi m ≡ ok (m1, tdo)
      → tick_all cs m1 ≡ ok (m2, rest)
      → tick_all ((tms, tdi) ∷ cs) m ≡ ok (m2, tdo ∷ rest)
  unfolding tick_all
  tick_all-ok tms tdi cs m first later = rw (first, later)

  tick_all-state :
      (cs : List (ℕ × ℕ)) (m : TapModel R) {m' : TapModel R} {out : List ℕ}
      → tick_all cs m ≡ ok (m', out)
      → (m'.state ≡ walk m.state (map tms_of cs)) × (length out ≡ length cs)
  unfolding walk
  tick_all-state [] m h = unfold tick_all in (cc, cc)
  tick_all-state ((tms, tdi) ∷ cs) m h =
      let (m1, tdo, rest, first, later, out_eq) = tick_all-cons tms tdi cs m h in
      let (same, long) = tick_all-state cs m1 later in
      (
        same ∙ ap (λ (s : TapState). walk s (map tms_of cs)) (tick-state tms tdi m first),
        ap length out_eq ∙ ap suc long,
      )

  tick_all-append :
      (xs ys : List (ℕ × ℕ)) (m : TapModel R) {m2 : TapModel R} {out : List ℕ}
      → tick_all (xs ++ ys) m ≡ ok (m2, out)
      → (m1 : TapModel R) × (o1 : List ℕ) × (o2 : List ℕ) × (tick_all xs m ≡ ok (m1, o1))
        × (tick_all ys m1 ≡ ok (m2, o2))
        × (out ≡ o1 ++ o2)
  tick_all-append [] ys m {out = out} h = (m, [], out, unfold tick_all in refl, h, refl)
  tick_all-append ((tms, tdi) ∷ xs) ys m h =
      let (m1, tdo, rest, first, later, out_eq) = tick_all-cons tms tdi (xs ++ ys) m h in
      let (m', o1, o2, one, two, rest_eq) = tick_all-append xs ys m1 later in
      (
        m',
        tdo ∷ o1,
        o2,
        tick_all-ok tms tdi xs m first one,
        two,
        out_eq ∙ ap (λ (r : List ℕ). tdo ∷ r) rest_eq,
      )

  -- What one operation adds: cycles, ranges in the numbering of the cycles, and observations that
  -- are slices of any trace that has the operation's TDO values at its place.
  record Agrees (op : IrOp) (m m1 : TapModel R) (cs : List (ℕ × ℕ)) (out : List ℕ) (s1 : TapState)
      : Type 0 where
    ranges : ℕ → List (ℕ × ℕ)
    ranges_eq : (index : ℕ) → ranges_op op m.state index ≡ ok (s1, index + length cs, ranges index)
    seen : List ℕ
    play_eq : play_op op m ≡ ok (m1, seen)
    state_eq : m1.state ≡ s1
    seen_eq : (pre post : List ℕ) → map (observe (pre ++ out ++ post)) (ranges (length pre)) ≡ seen

  goto-Agrees :
      (to : TapState) (nav : List ℕ) (m : TapModel R) {m1 : TapModel R} {out : List ℕ}
      → navigation_tms m.state to ≡ ok nav
      → tick_all (map with_tdi_0 nav) m ≡ ok (m1, out)
      → Agrees (goto_state to) m m1 (map with_tdi_0 nav) out (walk m.state nav)
  goto-Agrees to nav m h t =
      let (state, count) = tick_all-state (map with_tdi_0 nav) m t in
      record {
        ranges = λ index. [];
        ranges_eq = λ index. unfold ranges_op in rw (h, length-map nav with_tdi_0);
        seen = [];
        play_eq = unfold play_op in rw (h, t);
        state_eq = rw (goto-tms nav) at state;
        seen_eq = λ pre post. refl;
      }

  runtest-Agrees :
      (n : ℕ) (run_state end_state : TapState) (m : TapModel R) {m1 : TapModel R} {out : List ℕ}
      → tick_all (replicate n (0, 0)) m ≡ ok (m1, out)
      → Agrees
          (runtest n run_state end_state)
          m
          m1
          (replicate n (0, 0))
          out
          (walk m.state (replicate n 0))
  runtest-Agrees n run_state end_state m t =
      let (state, count) = tick_all-state (replicate n (0, 0)) m t in
      record {
        ranges = λ index. [];
        ranges_eq = λ index. unfold ranges_op in rw (length-replicate {A = ℕ × ℕ} n (0, 0));
        seen = [];
        play_eq = unfold play_op in rw t;
        state_eq = rw (runtest-tms n) at state;
        seen_eq = λ pre post. refl;
      }

  shift-Agrees :
      (op : IrOp) (bits tdi : ℕ) (m : TapModel R) {m1 : TapModel R} {out : List ℕ}
      → 0 < bits
      → tick_all (shift_cycles bits tdi) m ≡ ok (m1, out)
      → ((index : ℕ)
          → ranges_op op m.state index
            ≡ ok (walk m.state (shift_tms bits), index + bits, (index, bits) ∷ []))
      → play_op op m ≡ ok (m1, bits_to_int out ∷ [])
      → Agrees op m m1
          (shift_cycles bits tdi)
          out
          (walk m.state (map tms_of (shift_cycles bits tdi)))
  shift-Agrees op bits tdi m {out = out} pos t listed played =
      let (same, long) = shift_cycles-tms bits tdi pos in
      let (state, count) = tick_all-state (shift_cycles bits tdi) m t in
      record {
        ranges = λ index. (index, bits) ∷ [];
        ranges_eq = λ index. rw (long, same) (listed index);
        seen = bits_to_int out ∷ [];
        play_eq = played;
        state_eq = state;
        seen_eq =
            λ pre post. ap (λ (v : ℕ). v ∷ []) (observe_middle bits pre out post (count ∙ long));
      }

  op-Agrees :
      (op : IrOp) (m : TapModel R) (s1 : TapState) (cs : List (ℕ × ℕ)) {m1 : TapModel R}
      {out : List ℕ}
      → Shifts op
      → cycles_op op m.state ≡ ok (s1, cs)
      → tick_all cs m ≡ ok (m1, out)
      → Agrees op m m1 cs out s1
  unfolding cycles_op play_op ranges_op
  op-Agrees (goto_state to) m s1 cs {m1} {out} pos h t =
      let (nav, nav_eq, rest) = >>=-eq-ok (navigation_tms m.state to) _ h in
      let cs_eq : map with_tdi_0 nav ≡ cs = cc in
      let s1_eq : walk m.state nav ≡ s1 = cc in
      subst₂ (λ c s. Agrees (goto_state to) m m1 c out s) cs_eq s1_eq
        (goto-Agrees to nav m nav_eq (rw (← cs_eq) at t))
  op-Agrees (IrOp.shift_ir bits tdi tdo mask) m s1 cs {m1} {out} pos h t =
      let cs_eq : shift_cycles bits tdi ≡ cs = cc in
      let s1_eq : walk m.state (map tms_of (shift_cycles bits tdi)) ≡ s1 = cc in
      let t' : tick_all (shift_cycles bits tdi) m ≡ ok (m1, out) = rw (← cs_eq) at t in
      subst₂ (λ c s. Agrees (IrOp.shift_ir bits tdi tdo mask) m m1 c out s) cs_eq s1_eq
        (shift-Agrees (IrOp.shift_ir bits tdi tdo mask) bits tdi m pos t' (λ index. refl) (rw t'))
  op-Agrees (IrOp.shift_dr bits tdi tdo mask) m s1 cs {m1} {out} pos h t =
      let cs_eq : shift_cycles bits tdi ≡ cs = cc in
      let s1_eq : walk m.state (map tms_of (shift_cycles bits tdi)) ≡ s1 = cc in
      let t' : tick_all (shift_cycles bits tdi) m ≡ ok (m1, out) = rw (← cs_eq) at t in
      subst₂ (λ c s. Agrees (IrOp.shift_dr bits tdi tdo mask) m m1 c out s) cs_eq s1_eq
        (shift-Agrees (IrOp.shift_dr bits tdi tdo mask) bits tdi m pos t' (λ index. refl) (rw t'))
  op-Agrees (runtest n run_state end_state) m s1 cs {m1} {out} pos h t =
      let cs_eq : replicate n (0, 0) ≡ cs = cc in
      let s1_eq : walk m.state (replicate n 0) ≡ s1 = cc in
      subst₂ (λ c s. Agrees (runtest n run_state end_state) m m1 c out s) cs_eq s1_eq
        (runtest-Agrees n run_state end_state m (rw (← cs_eq) at t))
  op-Agrees (pulse_pin port n pins) m s1 cs pos h t = cc
  op-Agrees (set_pins pins) m s1 cs pos h t = cc

  pub play-ok :
      (op : IrOp) (ops : List IrOp) (m : TapModel R) {m1 m2 : TapModel R} {seen rest : List ℕ}
      → play_op op m ≡ ok (m1, seen)
      → play m1 ops ≡ ok (m2, rest)
      → play m (op ∷ ops) ≡ ok (m2, seen ++ rest)
  unfolding play
  play-ok op ops m first later = rw (first, later)

  cycles_from-lem :
      (ops : List IrOp) (m : TapModel R) (pre : List ℕ) {cs : List (ℕ × ℕ)} {m2 : TapModel R}
      {out : List ℕ}
      → AllShift ops
      → cycles_from m.state ops ≡ ok cs
      → tick_all cs m ≡ ok (m2, out)
      → (ranges : List (ℕ × ℕ)) × (ranges_from m.state (length pre) ops ≡ ok ranges)
        × (play m ops ≡ ok (m2, map (observe (pre ++ out)) ranges))
  cycles_from-lem [] m pre {cs} {m2} {out} pos h t =
      let cs_eq : [] ≡ cs = unfold cycles_from in ok-injective h in
      let same : m ≡ m2 = unfold tick_all in cc (rw (← cs_eq) at t) in
      ([], unfold ranges_from in refl, unfold play in ap (λ (x : TapModel R). ok (x, [])) same)
  cycles_from-lem (op ∷ ops) m pre {cs} {m2} {out} pos h t =
      let (s1, cs1, cs2, first, second, done) = cycles_from-cons op ops m.state h in
      let (m1, o1, o2, one, two, out_eq) = tick_all-append cs1 cs2 m (rw (← done) at t) in
      let a = op-Agrees op m s1 cs1 pos.0 first one in
      let (state, count) = tick_all-state cs1 m one in
      let (ranges2, listed, played) =
        cycles_from-lem ops m1 (pre ++ o1) pos.1 (rw (← a.state_eq) at second) two in
      let index : length (pre ++ o1) ≡ length pre + length cs1 =
        omega (arith, length-append pre o1, count) in
      let listed' : ranges_from s1 (length pre + length cs1) ops ≡ ok ranges2 =
        subst₂ (λ s i. ranges_from s i ops ≡ ok ranges2) a.state_eq index listed in
      let trace : (pre ++ o1) ++ o2 ≡ pre ++ out =
        append_assoc pre o1 o2 ∙ ap (λ (r : List ℕ). pre ++ r) (sym out_eq) in
      let seen : map (observe (pre ++ out)) (a.ranges (length pre)) ≡ a.seen =
        sym (ap (λ (r : List ℕ). map (observe r) (a.ranges (length pre))) trace)
        ∙ a.seen_eq pre o2 in
      (
        a.ranges (length pre) ++ ranges2,
        ranges_from-ok op ops m.state (length pre) (a.ranges_eq (length pre)) listed',
        play-ok op ops m a.play_eq played
            ∙ ap (λ (r : List ℕ). ok (m2, r))
                (map_glue (observe (pre ++ out)) (a.ranges (length pre)) ranges2 (sym seen)
                  (ap (λ (r : List ℕ). map (observe r) ranges2) trace)),
      )

  -- If every shift of the operations has a bit, a model that rests in Run-Test/Idle and is driven
  -- through the cycles that `to_cycles` lists ends where `play` leaves it, `shift_op_ranges`
  -- succeeds, and `play` reports, for each range, the integer that the TDO values of the range
  -- pack to.
  pub play-to_cycles :
      (ops : List IrOp) (m m2 : TapModel R) (cs : List (ℕ × ℕ)) (trace : List ℕ)
      → AllShift ops
      → m.state ≡ run_test_idle
      → to_cycles ops ≡ ok cs
      → tick_all cs m ≡ ok (m2, trace)
      → (ranges : List (ℕ × ℕ)) × (shift_op_ranges ops ≡ ok ranges)
        × (play m ops ≡ ok (m2, map (observe trace) ranges))
  unfolding to_cycles shift_op_ranges
  play-to_cycles ops m m2 cs trace pos idle h t =
      let (ranges, listed, played) = cycles_from-lem ops m [] pos (rw (← idle) at h) t in
      (ranges, subst (λ s. ranges_from s 0 ops ≡ ok ranges) idle listed, played)

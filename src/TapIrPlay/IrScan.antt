-- ===== src/TapIrPlay/IrScan.antt =====
-- Loading an instruction through the TAP (src/warptap/tap_ir_play.py, src/warptap/tap_model.py).
use warptap.Base.{
  ℕ, zero, suc, ◌-◌, ◌%◌, ◌^◌, ◌<◌, List, [], ◌∷◌, ◌++◌, ◌≡◌, refl, ap, ap₂, subst, sym, ◌∙◌, arith,
  none, ok, replicate, length,
}
use warptap.TapFsm.{TapState, next_state, run_test_idle, shift_ir, exit1_ir}
use native.Mathlib.Nat.{mod-eq_of_lt}
use warptap.Base.Bits.{pow_double, pow_pos}
use warptap.TapIrPlay.Cycles.{play-ok}
use warptap.TapIr.{IrOp, goto_state, bits_to_int, bits_from_int}
use warptap.TapIr.Packing.{length-bits_from_int, bits_from_int-AreBits, bits_to_int-bits_from_int}
use warptap.TapModel.Registers.{DataRegister, shift_in}
use warptap.TapModel.Opcodes.{decode_instruction, capture_ir_pattern}
use warptap.TapModel.{TapModel, tick}
use warptap.TapModel.ShiftRegister.{shift_all, shift_all_full}
use warptap.TapIrPlay.{navigation_tms, shift_tms, zip, shift_cycles, tick_all, play_op, play}

module _ {R : Type 0} ⦃dr : DataRegister R⦄ where
  abbrev ir_at : TapModel R → ℕ → TapState → TapModel R
  ir_at m r s = record m { ir_shift = r; state = s }

  tick_all-shift_ir :
      (m : TapModel R) (bs : List ℕ) (b r : ℕ)
      → tick_all (zip (replicate (length bs) 0 ++ 1 ∷ []) (b ∷ bs)) (ir_at m r shift_ir)
        ≡ ok (
          ir_at m (shift_all m.ir_width r (b ∷ bs)).0 exit1_ir,
          (shift_all m.ir_width r (b ∷ bs)).1,
        )
  unfolding tick_all zip tick next_state shift_all
  tick_all-shift_ir m [] b r = refl
  tick_all-shift_ir m (c ∷ bs) b r = rw (tick_all-shift_ir m bs c (shift_in m.ir_width r b))

one-lt-pow : (n : ℕ) → 0 < n → 1 < 2 ^ n
one-lt-pow zero h = absurd (omega arith)
one-lt-pow (suc n) h = omega (arith, pow_double n, pow_pos n)

-- The operations that load an instruction: from Run-Test/Idle and back.
abbrev pub load_ir : ℕ → ℕ → List IrOp
load_ir ir_width opcode =
    goto_state shift_ir ∷ IrOp.shift_ir ir_width opcode none none ∷ goto_state run_test_idle ∷ []

module _ {R : Type 0} ⦃dr : DataRegister R⦄ where
  tick_all-shift_tms :
      (m : TapModel R) (bits : List ℕ) (r : ℕ)
      → 0 < length bits
      → tick_all (zip (shift_tms (length bits)) bits) (ir_at m r shift_ir)
        ≡ ok (ir_at m (shift_all m.ir_width r bits).0 exit1_ir, (shift_all m.ir_width r bits).1)
  unfolding shift_tms
  tick_all-shift_tms m [] r h = absurd (omega arith)
  tick_all-shift_tms m (b ∷ bs) r h =
      let less : suc (length bs) - 1 ≡ length bs = omega arith in
      rw less (tick_all-shift_ir m bs b r)

  shift_ir-cycles :
      (m : TapModel R) (opcode : ℕ)
      → 0 < m.ir_width
      → tick_all (shift_cycles m.ir_width opcode) (ir_at m capture_ir_pattern shift_ir)
        ≡ ok (ir_at m (opcode % 2 ^ m.ir_width) exit1_ir, bits_from_int 1 m.ir_width)
  unfolding shift_cycles
  shift_ir-cycles m opcode wide =
      let bits = bits_from_int opcode m.ir_width in
      let long : length bits ≡ m.ir_width = length-bits_from_int opcode m.ir_width in
      let fits : 1 < 2 ^ length bits = one-lt-pow (length bits) (omega (arith, long)) in
      let full =
        shift_all_full bits 1 (omega (arith, long)) fits
          (bits_from_int-AreBits opcode m.ir_width) in
      let packed : bits_to_int bits ≡ opcode % 2 ^ m.ir_width =
        bits_to_int-bits_from_int opcode m.ir_width in
      ap (λ n. tick_all (zip (shift_tms n) bits) (ir_at m capture_ir_pattern shift_ir)) (sym long)
      ∙ tick_all-shift_tms m bits 1 (omega (arith, long))
      ∙ ap (λ p. ok (ir_at m p.0 exit1_ir, p.1))
          (ap (λ n. shift_all n 1 bits) (sym long)
            ∙ full
            ∙ ap₂ (λ (v n : ℕ). (v, bits_from_int 1 n)) packed long)

  abbrev loaded : TapModel R → ℕ → TapModel R
  loaded m opcode =
      let cut = opcode % 2 ^ m.ir_width in
      record m {
        ir_shift = cut;
        state = run_test_idle;
        instruction = decode_instruction cut m.ir_width m.has_idcode m.ijtag_access_opcode;
      }

  play_op-enter :
      (m : TapModel R)
      → play_op (goto_state shift_ir) (ir_at m m.ir_shift run_test_idle)
        ≡ ok (ir_at m capture_ir_pattern shift_ir, [])
  unfolding play_op navigation_tms tick next_state
  play_op-enter m = refl

  play_op-shift_ir :
      (m : TapModel R) (opcode : ℕ)
      → 0 < m.ir_width
      → play_op (IrOp.shift_ir m.ir_width opcode none none) (ir_at m capture_ir_pattern shift_ir)
        ≡ ok (
          ir_at m (opcode % 2 ^ m.ir_width) exit1_ir,
          bits_to_int (bits_from_int 1 m.ir_width) ∷ [],
        )
  unfolding play_op
  play_op-shift_ir m opcode wide = rw (shift_ir-cycles m opcode wide)

  play_op-leave :
      (m : TapModel R) (r : ℕ)
      → play_op (goto_state run_test_idle) (ir_at m r exit1_ir)
        ≡ ok (
          record m {
            ir_shift = r;
            state = run_test_idle;
            instruction = decode_instruction r m.ir_width m.has_idcode m.ijtag_access_opcode;
          },
          [],
        )
  unfolding play_op navigation_tms tick next_state
  play_op-leave m r = refl

  play-nil : {m : TapModel R} → play m [] ≡ ok (m, [])
  unfolding play
  play-nil = refl

  -- From Run-Test/Idle, on a TAP whose instruction register has a bit, these operations come back
  -- to Run-Test/Idle with the instruction that the opcode, cut to the register's width, decodes to,
  -- and with nothing else of the model changed but the shift register; what is seen at TDO is 1,
  -- the Capture-IR pattern.
  pub play-load_ir :
      (m : TapModel R) (opcode : ℕ)
      → m.state ≡ run_test_idle
      → 0 < m.ir_width
      → let cut = opcode % 2 ^ m.ir_width in
        play m (load_ir m.ir_width opcode)
        ≡ ok (
          record m {
            ir_shift = cut;
            state = run_test_idle;
            instruction = decode_instruction cut m.ir_width m.has_idcode m.ijtag_access_opcode;
          },
          1 ∷ [],
        )
  play-load_ir m opcode idle wide =
      let here : m ≡ ir_at m m.ir_shift run_test_idle = λ i. record m { state = idle i } in
      let seen : bits_to_int (bits_from_int 1 m.ir_width) ≡ 1 =
        bits_to_int-bits_from_int 1 m.ir_width ∙ mod-eq_of_lt (one-lt-pow m.ir_width wide) in
      subst (λ x. play x (load_ir m.ir_width opcode) ≡ ok (loaded m opcode, 1 ∷ [])) (sym here)
        (play-ok (goto_state shift_ir) _ _ (play_op-enter m) (
            play-ok (IrOp.shift_ir m.ir_width opcode none none) _ _ (play_op-shift_ir m opcode wide)
              (play-ok (goto_state run_test_idle) _ _ (play_op-leave m (opcode % 2 ^ m.ir_width))
                play-nil))
          ∙ ap (λ (v : ℕ). ok (loaded m opcode, v ∷ [])) seen)

-- ===== src/PdlVerify/Passed.antt =====
-- What each result of a check says (src/warptap/pdl_verify.py).
use Prim.Native.Nat.{bit_and, min}
use warptap.Base.{
  ℕ, zero, suc, ◌<◌, ◌==◌, true, List, [], ◌∷◌, ◌++◌, Option, none, some, ok, ◌≡◌, refl, ap, sym,
  subst₂, ◌∙◌, ◌↔◌, ◌⊎◌, inl, inr, arith, length, ==_iff, append_assoc, length-append,
}
use warptap.Base.BitOf.{bit, bit-lt, bit-bit_and, bit_ext}
use warptap.TapIr.{IrOp, goto_state, shift_ir, shift_dr, runtest, pulse_pin, set_pins}
use warptap.PdlVerify.{ReadCheckResult, value_at, under, check_one, expectation, check_from}

-- Whether the mask has a bit. The mask -1 has all.
abbrev pub Compared : Option ℕ → ℕ → Type 0
Compared none k = Unit
Compared (some mask) k = bit mask k ≡ 1

-- The values agree at each bit of the mask.
abbrev pub Met : Option ℕ → ℕ → ℕ → Type 0
Met mask tdo value = (k : ℕ) → Compared mask k → bit value k ≡ bit tdo k

bit_and-bits :
    (value tdo mask : ℕ) → bit_and value mask ≡ bit_and tdo mask → Met (some mask) tdo value
bit_and-bits value tdo mask same k one = omega (
  arith,
  bit-bit_and value mask k,
  bit-bit_and tdo mask k,
  ap (λ (t : ℕ). bit t k) same,
  bit-lt value k,
  bit-lt tdo k,
)

zero_or_one : (b : ℕ) → b < 2 → (b ≡ 0) ⊎ (b ≡ 1)
zero_or_one zero h = inl refl
zero_or_one (suc zero) h = inr refl
zero_or_one (suc (suc b)) h = absurd (omega arith)

bits-bit_and :
    (value tdo mask : ℕ) → Met (some mask) tdo value → bit_and value mask ≡ bit_and tdo mask
bits-bit_and value tdo mask met = bit_ext (bit_and value mask) (bit_and tdo mask) (λ k.
    bit-bit_and value mask k
    ∙ elim (zero_or_one (bit mask k) (bit-lt mask k)) [
      | inl none_here ↦ omega arith
      | inr one ↦ ap (λ (t : ℕ). min t (bit mask k)) (met k one)
    ]
    ∙ sym (bit-bit_and tdo mask k))

pub under-Met :
    (mask : Option ℕ) (tdo value : ℕ)
    → ((under mask value == under mask tdo) ≡ true) ↔ Met mask tdo value
under-Met none tdo value = (
  (λ e. let same = (==_iff value tdo).0 e in λ k c. ap (λ (t : ℕ). bit t k) same),
  (λ met. (==_iff value tdo).1 (bit_ext value tdo (λ k. met k tt))),
)
under-Met (some mask) tdo value = (
  (λ e. bit_and-bits value tdo mask ((==_iff (bit_and value mask) (bit_and tdo mask)).0 e)),
  (λ met. (==_iff (bit_and value mask) (bit_and tdo mask)).1 (bits-bit_and value tdo mask met)),
)

-- A list of values has one for each shift, and the results are those of the shifts with an
-- expected value, in order, with the number of the shift. A result has passed exactly if its
-- values agree at each bit of the mask.
pub data Judged : ℕ → List IrOp → List ℕ → List ReadCheckResult → Type 0 where
  done : {index : ℕ} → Judged index [] [] []
  no_shift :
      {index : ℕ} {op : IrOp} {ops : List IrOp} {values : List ℕ} {results : List ReadCheckResult}
      → expectation op ≡ none
      → Judged index ops values results
      → Judged index (op ∷ ops) values results
  not_read :
      {index value : ℕ} {mask : Option ℕ} {op : IrOp} {ops : List IrOp} {values : List ℕ}
      {results : List ReadCheckResult}
      → expectation op ≡ some (none, mask)
      → Judged (suc index) ops values results
      → Judged index (op ∷ ops) (value ∷ values) results
  is_read :
      {index value tdo : ℕ} {mask : Option ℕ} {op : IrOp} {ops : List IrOp} {values : List ℕ}
      {r : ReadCheckResult} {results : List ReadCheckResult}
      → expectation op ≡ some (some tdo, mask)
      → (r.shift_op_index ≡ index) × (r.expected ≡ tdo) × (r.observed ≡ value) × (r.mask ≡ mask)
      → (r.passed ≡ true) ↔ Met mask tdo value
      → Judged (suc index) ops values results
      → Judged index (op ∷ ops) (value ∷ values) (r ∷ results)

-- The number of shifts.
abbrev pub shift_ops : List IrOp → ℕ
shift_ops [] = 0
shift_ops (op ∷ ops) =
    let rest = shift_ops ops in elim (expectation op) [ none ↦ rest | some e ↦ suc rest ]

value_at-length :
    (pre : List ℕ) (value : ℕ) (values : List ℕ)
    → value_at (pre ++ value ∷ values) (length pre) ≡ some value
value_at-length [] value values = refl
value_at-length (p ∷ pre) value values = value_at-length pre value values

abbrev pub Checked : List ℕ → ℕ → List IrOp → List ℕ → Type 0
Checked observed index ops values =
    (results : List ReadCheckResult) × (check_from observed index ops ≡ ok results)
    × Judged index ops values results

expectation-cases :
    (op : IrOp)
    → (expectation op ≡ none)
      ⊎ ((tdo : Option ℕ) × (mask : Option ℕ) × (expectation op ≡ some (tdo, mask)))
expectation-cases (goto_state state) = inl refl
expectation-cases (shift_ir bits tdi tdo mask) = inr (tdo, mask, refl)
expectation-cases (shift_dr bits tdi tdo mask) = inr (tdo, mask, refl)
expectation-cases (runtest count run_state end_state) = inl refl
expectation-cases (pulse_pin port count hold_pins) = inl refl
expectation-cases (set_pins pins) = inl refl

-- One step of the loop at a shift that has its value.
check_from-shift :
    (observed : List ℕ) (index value : ℕ) (tdo mask : Option ℕ) (op : IrOp) (ops : List IrOp)
    (values : List ℕ)
    → expectation op ≡ some (tdo, mask)
    → value_at observed index ≡ some value
    → Checked observed (suc index) ops values
    → Checked observed index (op ∷ ops) (value ∷ values)
unfolding check_from check_one
check_from-shift observed index value none mask op ops values e here (results, checked, judged) =
    (results, rw (e, check_from) checked, not_read e judged)
check_from-shift observed index value (some tdo) mask op ops values e here
      (results, checked, judged) =
    (
      check_one index tdo mask value ∷ results,
      rw (e, here, checked, check_from) refl,
      is_read e (refl, refl, refl, refl) (under-Met mask tdo value) judged,
    )

check_from-no_shift :
    (observed : List ℕ) (index : ℕ) (op : IrOp) (ops : List IrOp) (values : List ℕ)
    → expectation op ≡ none
    → Checked observed index ops values
    → Checked observed index (op ∷ ops) values
unfolding check_from
check_from-no_shift observed index op ops values e (results, checked, judged) =
    (results, rw (e, check_from) checked, no_shift e judged)

-- If there are as many values as shifts, the check succeeds and judges each shift that is read.
pub check_from-Judged :
    (ops : List IrOp) (pre values : List ℕ)
    → length values ≡ shift_ops ops
    → Checked (pre ++ values) (length pre) ops values
check_from-Judged [] pre [] h = ([], unfold check_from in refl, done)
check_from-Judged [] pre (value ∷ values) h = absurd (omega arith)
check_from-Judged (op ∷ ops) pre [] h = elim (expectation-cases op) [
  | inl e ↦
      check_from-no_shift (pre ++ []) (length pre) op ops [] e
        (check_from-Judged ops pre [] (rw (e, shift_ops) at h))
  | inr (tdo, mask, e) ↦ absurd (omega (arith, rw (e, shift_ops) at h))
]
check_from-Judged (op ∷ ops) pre (value ∷ values) h = elim (expectation-cases op) [
  | inl e ↦
      check_from-no_shift (pre ++ value ∷ values) (length pre) op ops (value ∷ values) e
        (check_from-Judged ops pre (value ∷ values) (rw (e, shift_ops) at h))
  | inr (tdo, mask, e) ↦
      let one_each : suc (length values) ≡ suc (shift_ops ops) = rw (e, shift_ops) at h in
      let index : length (pre ++ value ∷ []) ≡ suc (length pre) =
        omega (arith, length-append pre (value ∷ [])) in
      check_from-shift (pre ++ value ∷ values) (length pre) value tdo mask op ops values e
        (value_at-length pre value values)
        (subst₂ (λ o i. Checked o i ops values) (append_assoc pre (value ∷ []) values) index
          (check_from-Judged ops (pre ++ value ∷ []) values (omega (arith, one_each))))
]

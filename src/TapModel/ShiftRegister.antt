-- ===== src/TapModel/ShiftRegister.antt =====
-- The right-shifting register of the instruction register and of IDCODE
-- (src/warptap/tap_model.py).
use warptap.Base.{
  ℕ, zero, suc, ◌+◌, ◌-◌, ◌*◌, ◌/◌, ◌%◌, ◌^◌, ◌<◌, List, [], ◌∷◌, ◌≡◌, refl, ap, ap₂, sym, ◌∙◌,
  arith, length,
}
use native.Mathlib.Nat.{add-mul-div_right, div-div-eq-div-mul, mul_comm, pow-suc, div-eq_of_lt}
use warptap.Base.Bits.{pow_double, pow_pos, bit_or-shifted}
use warptap.TapIr.{bits_to_int, bits_from_int}
use warptap.TapIr.Packing.{AreBits, bits_to_int-cons, bits_from_int-suc}
use warptap.TapModel.Registers.{shift_in}

-- The register after a sequence of TDI bits, and the TDO bits.
unfoldable pub shift_all : ℕ → ℕ → List ℕ → ℕ × List ℕ
shift_all width reg [] = (reg, [])
shift_all width reg (tdi ∷ bits) =
    let (last, out) = shift_all width (shift_in width reg tdi) bits in (last, reg % 2 ∷ out)

pow_add : (a b : ℕ) → 2 ^ (a + b) ≡ 2 ^ a * 2 ^ b
pow_add zero b = let e : 0 + b ≡ b = omega arith in rw e (omega arith)
pow_add (suc a) b =
    let e : suc a + b ≡ suc (a + b) = omega arith in
    rw e (omega (arith, pow_double (a + b), pow_add a b, ap (λ (t : ℕ). t * 2 ^ b) (pow_double a)))

pub shift_in-eq :
    (width reg tdi : ℕ)
    → reg < 2 ^ suc width
    → tdi < 2
    → shift_in (suc width) reg tdi ≡ reg / 2 + tdi * 2 ^ width
unfolding shift_in
shift_in-eq width reg tdi fits bit =
    let same : tdi % 2 ≡ tdi = omega arith in
    let less : suc width - 1 ≡ width = omega arith in
    rw (same, less) (bit_or-shifted width (reg / 2) tdi (omega (arith, pow_double width)))

shift_in-lt :
    (width reg tdi : ℕ) → reg < 2 ^ suc width → tdi < 2 → reg / 2 + tdi * 2 ^ width < 2 ^ suc width
shift_in-lt width reg zero fits bit = omega (arith, pow_double width)
shift_in-lt width reg (suc zero) fits bit = omega (arith, pow_double width)
shift_in-lt width reg (suc (suc tdi)) fits bit = absurd (omega arith)

-- Dividing a sum by a power that divides its second part.
div_sum : (k x y : ℕ) → (x + y * 2 ^ k) / 2 ^ k ≡ x / 2 ^ k + y
div_sum k x y = add-mul-div_right x y (pow_pos k)

-- The low bits of a number are those of it with a multiple of a higher power added.
bits_from_int-add : (n x y : ℕ) → bits_from_int (x + y * 2 ^ n) n ≡ bits_from_int x n
bits_from_int-add zero x y = unfold bits_from_int in refl
bits_from_int-add (suc n) x y =
    let e : y * 2 ^ suc n ≡ y * 2 ^ n * 2 = omega (arith, ap (λ (t : ℕ). y * t) (pow_double n)) in
    let low : (x + y * 2 ^ n * 2) % 2 ≡ x % 2 = omega arith in
    let high : (x + y * 2 ^ n * 2) / 2 ≡ x / 2 + y * 2 ^ n = omega arith in
    rw e (
      bits_from_int-suc (x + y * 2 ^ n * 2) n
      ∙ ap₂ (λ b v. b ∷ bits_from_int v n) low high
      ∙ ap (λ (t : List ℕ). x % 2 ∷ t) (bits_from_int-add n (x / 2) y)
      ∙ sym (bits_from_int-suc x n))

exponent : (k n : ℕ) {w : ℕ} → suc w ≡ k + suc n → w ≡ k + n
exponent k n h = omega arith

halve : (v i : ℕ) → v / 2 ^ suc i ≡ v / 2 / 2 ^ i
halve v i = rw (pow-suc 2 i, mul_comm (2 ^ i) 2) (sym (div-div-eq-div-mul v 2 (2 ^ i)))

module _ (w : ℕ) where
  shift_all-partial :
      (k : ℕ) (bits : List ℕ) (reg : ℕ)
      → suc w ≡ k + length bits
      → reg < 2 ^ suc w
      → AreBits bits
      → ((shift_all (suc w) reg bits).0 ≡ reg / 2 ^ length bits + bits_to_int bits * 2 ^ k)
        × ((shift_all (suc w) reg bits).1 ≡ bits_from_int reg (length bits))
  unfolding shift_all
  shift_all-partial k [] reg room fits h =
      (unfold shift_all bits_to_int in omega arith, unfold shift_all bits_from_int in refl)
  shift_all-partial k (b ∷ bs) reg room fits h =
      let n = length bs in
      let next = reg / 2 + b * 2 ^ w in
      let step : shift_in (suc w) reg b ≡ next = shift_in-eq w reg b fits h.0 in
      let (reg_eq, out_eq) =
        shift_all-partial (suc k) bs next (omega arith) (shift_in-lt w reg b fits h.0) h.1 in
      let split : b * 2 ^ w ≡ b * 2 ^ k * 2 ^ n = omega (
        arith,
        ap (λ (t : ℕ). b * 2 ^ t) (exponent k n room),
        ap (λ (t : ℕ). b * t) (pow_add k n),
      ) in
      let upper : next / 2 ^ n ≡ reg / 2 ^ suc n + b * 2 ^ k =
        ap (λ (t : ℕ). (reg / 2 + t) / 2 ^ n) split
        ∙ div_sum n (reg / 2) (b * 2 ^ k)
        ∙ ap (λ (t : ℕ). t + b * 2 ^ k) (sym (halve reg n)) in
      let value : next / 2 ^ n + bits_to_int bs * 2 ^ suc k
          ≡ reg / 2 ^ suc n + bits_to_int (b ∷ bs) * 2 ^ k =
        omega (
          arith,
          upper,
          ap (λ (t : ℕ). bits_to_int bs * t) (pow_double k),
          ap (λ (t : ℕ). t * 2 ^ k) (bits_to_int-cons b bs),
        ) in
      let low : reg % 2 ∷ bits_from_int next n ≡ bits_from_int reg (suc n) =
        ap (λ (t : ℕ). reg % 2 ∷ bits_from_int (reg / 2 + t) n) split
        ∙ ap (λ (t : List ℕ). reg % 2 ∷ t) (bits_from_int-add n (reg / 2) (b * 2 ^ k))
        ∙ sym (bits_from_int-suc reg n) in
      (
        ap (λ (t : ℕ). (shift_all (suc w) t bs).0) step ∙ reg_eq ∙ value,
        ap (λ (t : ℕ). reg % 2 ∷ (shift_all (suc w) t bs).1) step
            ∙ ap (λ (t : List ℕ). reg % 2 ∷ t) out_eq
            ∙ low,
      )

-- As many bits as the register is wide replace its content, and its old bits come out at TDO, the
-- lowest first.
pub shift_all_full :
    (bits : List ℕ) (reg : ℕ)
    → 0 < length bits
    → reg < 2 ^ length bits
    → AreBits bits
    → shift_all (length bits) reg bits ≡ (bits_to_int bits, bits_from_int reg (length bits))
shift_all_full [] reg some_bit fits h = absurd (omega arith)
shift_all_full (b ∷ bs) reg some_bit fits h =
    let (reg_eq, out_eq) = shift_all-partial (length bs) 0 (b ∷ bs) reg (omega arith) fits h in
    let gone : reg / 2 ^ suc (length bs) ≡ 0 = div-eq_of_lt fits in
    let value : reg / 2 ^ suc (length bs) + bits_to_int (b ∷ bs) * 2 ^ 0 ≡ bits_to_int (b ∷ bs) =
      omega (arith, gone) in
    λ i. ((reg_eq ∙ value) i, out_eq i)

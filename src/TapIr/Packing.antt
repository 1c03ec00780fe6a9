-- ===== src/TapIr/Packing.antt =====
-- Packing bits into an integer and unpacking them are inverse (src/warptap/tap_ir.py).
use warptap.Base.{
  ℕ, zero, suc, ◌+◌, ◌*◌, ◌/◌, ◌%◌, ◌^◌, ◌<◌, List, [], ◌∷◌, ◌≡◌, refl, ap, arith, length, fun_ext,
  sym,
}
use native.Mathlib.Nat.{pow-suc, mul_comm, div-div-eq-div-mul}
use warptap.Base.Bits.{pow_double, pow_pos}
use warptap.TapIr.{bits_to_int_from, bits_to_int, for_range, bits_from_int}

-- Every entry is 0 or 1.
abbrev pub AreBits : List ℕ → Type 0
AreBits [] = Unit {0}
AreBits (b ∷ bs) = (b < 2) × AreBits bs

bits_to_int_from_double :
    (k : ℕ) (bs : List ℕ) → bits_to_int_from (suc k) bs ≡ 2 * bits_to_int_from k bs
unfolding bits_to_int_from
bits_to_int_from_double k [] = omega arith
bits_to_int_from_double k (b ∷ bs) =
    omega (arith, bits_to_int_from_double (suc k) bs, ap (λ (t : ℕ). b * t) (pow_double k))

pub bits_to_int-cons : (b : ℕ) (bs : List ℕ) → bits_to_int (b ∷ bs) ≡ b + 2 * bits_to_int bs
unfolding bits_to_int
bits_to_int-cons b bs = omega (arith, bits_to_int_from_double 0 bs)

for_range_shift : (s c : ℕ) (f : ℕ → ℕ) → for_range (suc s) c f ≡ for_range s c (λ i. f (suc i))
unfolding for_range
for_range_shift s zero f = refl
for_range_shift s (suc c) f = ap (λ (t : List ℕ). f (suc s) ∷ t) (for_range_shift (suc s) c f)

halve : (v i : ℕ) → v / 2 ^ suc i ≡ v / 2 / 2 ^ i
halve v i = rw (pow-suc 2 i) (rw (mul_comm (2 ^ i) 2) (sym (div-div-eq-div-mul v 2 (2 ^ i))))

pub bits_from_int-suc : (v w : ℕ) → bits_from_int v (suc w) ≡ v % 2 ∷ bits_from_int (v / 2) w
unfolding bits_from_int
bits_from_int-suc v w = rw (for_range_shift 0 w (λ i. v / 2 ^ i % 2)) (
    rw (fun_ext (λ i. ap (λ (t : ℕ). t % 2) (halve v i))) (
      ap (λ (t : ℕ). t % 2 ∷ for_range 0 w (λ i. v / 2 / 2 ^ i % 2)) {x = v / 1} {y = v}
        (omega arith)))

pub length-bits_from_int : (v w : ℕ) → length (bits_from_int v w) ≡ w
length-bits_from_int v zero = unfold bits_from_int in refl
length-bits_from_int v (suc w) =
    rw (bits_from_int-suc v w) (ap suc (length-bits_from_int (v / 2) w))

pub bits_from_int-AreBits : (v w : ℕ) → AreBits (bits_from_int v w)
bits_from_int-AreBits v zero = unfold bits_from_int in tt
bits_from_int-AreBits v (suc w) =
    rw (bits_from_int-suc v w) (omega arith, bits_from_int-AreBits (v / 2) w)

-- Unpacking a packed list of bits gives the list back.
pub bits_from_int-bits_to_int :
    (bs : List ℕ) → AreBits bs → bits_from_int (bits_to_int bs) (length bs) ≡ bs
bits_from_int-bits_to_int [] h = unfold bits_from_int in refl
bits_from_int-bits_to_int (b ∷ bs) h =
    let low : bits_to_int (b ∷ bs) % 2 ≡ b = omega (arith, bits_to_int-cons b bs) in
    let high : bits_to_int (b ∷ bs) / 2 ≡ bits_to_int bs = omega (arith, bits_to_int-cons b bs) in
    rw (bits_from_int-suc (bits_to_int (b ∷ bs)) (length bs), low, high)
      (ap (λ (t : List ℕ). b ∷ t) (bits_from_int-bits_to_int bs h.1))

mod_double : (v w : ℕ) → v % 2 ^ suc w ≡ v % 2 + 2 * (v / 2 % 2 ^ w)
mod_double v w = rw (pow_double w) (grind (arith, pow_pos w))

-- Packing the bits of a number gives the number modulo 2 ^ width.
pub bits_to_int-bits_from_int : (v w : ℕ) → bits_to_int (bits_from_int v w) ≡ v % 2 ^ w
bits_to_int-bits_from_int v zero = unfold bits_to_int bits_from_int in omega arith
bits_to_int-bits_from_int v (suc w) =
    rw (bits_from_int-suc v w, bits_to_int-cons (v % 2) (bits_from_int (v / 2) w))
      (rw (bits_to_int-bits_from_int (v / 2) w) (sym (mod_double v w)))

-- A packed list of bits fits its length.
pub bits_to_int-lt : (bs : List ℕ) → AreBits bs → bits_to_int bs < 2 ^ length bs
bits_to_int-lt [] h = unfold bits_to_int in omega arith
bits_to_int-lt (b ∷ bs) h =
    omega (arith, bits_to_int-cons b bs, pow_double (length bs), bits_to_int-lt bs h.1)

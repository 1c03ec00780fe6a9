-- ===== src/Base/BitOf.antt =====
-- The single bits of numbers, and what `&`, `|` and `^` do to them.
use Prim.Native.Nat.{
  ℕ, zero, suc, ◌+◌, ◌-◌, ◌*◌, ◌/◌, ◌%◌, ◌^◌, ◌≤◌, ◌<◌, min, max, differ, digits, bit_and, bit_or,
  bit_xor, bit_and-bitwise, bit_or-bitwise, bit_xor-bitwise,
}
use mathlib.Core.Path.{◌≡◌, refl, sym, ap, ◌∙◌}
use native.Mathlib.Omega.{arith}
use native.Mathlib.Nat.{pow-suc, mul_comm, div-div-eq-div-mul}
use warptap.Base.Tests.{ltb, if◌then◌else◌}
use warptap.Base.Bits.{pow_double, pow_pos}

-- `(v >> k) & 1`
abbrev pub bit : ℕ → ℕ → ℕ
bit v k = v / 2 ^ k % 2

pub bit-suc : (v k : ℕ) → bit v (suc k) ≡ bit (v / 2) k
bit-suc v k =
    ap (λ (t : ℕ). v / t % 2) (pow-suc 2 k ∙ mul_comm (2 ^ k) 2)
    ∙ ap (λ (t : ℕ). t % 2) (sym (div-div-eq-div-mul v 2 (2 ^ k)))

pub bit-zero : (v : ℕ) → bit v 0 ≡ v % 2
bit-zero v = omega arith

pub zero-bit : (k : ℕ) → bit 0 k ≡ 0
zero-bit zero = omega arith
zero-bit (suc k) =
    bit-suc 0 k ∙ ap (λ (t : ℕ). bit t k) {x = 0 / 2} {y = 0} (omega arith) ∙ zero-bit k

pub bit-lt : (v k : ℕ) → bit v k < 2
bit-lt v k = omega arith

-- An operation on digits that gives digits acts bit by bit.
module _ (z : ℕ → ℕ) (f : ℕ → ℕ → ℕ) (z_bit : (b k : ℕ) → bit (z b) k ≡ f 0 (bit b k))
    (f_lt : (x y : ℕ) → x < 2 → y < 2 → f x y < 2) where
  digits-bit : (n a b k : ℕ) → a ≤ n → bit (digits z f n a b) k ≡ f (bit a k) (bit b k)
  digits-bit zero zero b k h = z_bit b k ∙ ap (λ (t : ℕ). f t (bit b k)) (sym (zero-bit k))
  digits-bit zero (suc a) b k h = absurd (omega arith)
  digits-bit (suc n) zero b k h = z_bit b k ∙ ap (λ (t : ℕ). f t (bit b k)) (sym (zero-bit k))
  digits-bit (suc n) (suc a) b zero h =
      let low = f_lt (suc a % 2) (b % 2) (omega arith) (omega arith) in
      rw (bit-zero (suc a), bit-zero b)
        (omega
          (arith, low, bit-zero (digits z f n (suc a / 2) (b / 2) * 2 + f (suc a % 2) (b % 2))))
  digits-bit (suc n) (suc a) b (suc k) h =
      let low = f_lt (suc a % 2) (b % 2) (omega arith) (omega arith) in
      let all = digits z f n (suc a / 2) (b / 2) * 2 + f (suc a % 2) (b % 2) in
      let half : all / 2 ≡ digits z f n (suc a / 2) (b / 2) = omega (arith, low) in
      bit-suc all k
      ∙ ap (λ (t : ℕ). bit t k) half
      ∙ digits-bit n (suc a / 2) (b / 2) k (omega arith)
      ∙ rw (bit-suc (suc a) k, bit-suc b k) refl

min-lt : (x y : ℕ) → x < 2 → y < 2 → min x y < 2
min-lt x y h h' = omega arith

max-lt : (x y : ℕ) → x < 2 → y < 2 → max x y < 2
max-lt x y h h' = omega arith

differ-lt : (x y : ℕ) → x < 2 → y < 2 → differ x y < 2
differ-lt zero y h h' = h'
differ-lt (suc zero) zero h h' = h
differ-lt (suc zero) (suc zero) h h' = omega arith
differ-lt (suc zero) (suc (suc y)) h h' = absurd (omega arith)
differ-lt (suc (suc x)) y h h' = absurd (omega arith)

pub bit-bit_and : (a b k : ℕ) → bit (bit_and a b) k ≡ min (bit a k) (bit b k)
bit-bit_and a b k =
    ap (λ (t : ℕ). bit t k) (bit_and-bitwise a b)
    ∙ digits-bit (λ b. zero) min (λ b k. zero-bit k ∙ omega arith) min-lt a a b k (omega arith)

pub bit-bit_or : (a b k : ℕ) → bit (bit_or a b) k ≡ max (bit a k) (bit b k)
bit-bit_or a b k =
    ap (λ (t : ℕ). bit t k) (bit_or-bitwise a b)
    ∙ digits-bit (λ b. b) max (λ b k. omega arith) max-lt a a b k (omega arith)

pub bit-bit_xor : (a b k : ℕ) → bit (bit_xor a b) k ≡ differ (bit a k) (bit b k)
bit-bit_xor a b k =
    ap (λ (t : ℕ). bit t k) (bit_xor-bitwise a b)
    ∙ digits-bit (λ b. b) differ (λ b k. refl) differ-lt a a b k (omega arith)

-- `v << l`
pub bit-shifted : (v l k : ℕ) → bit (v * 2 ^ l) k ≡ (if ltb k l then 0 else bit v (k - l))
bit-shifted v zero k = ap (λ (t : ℕ). bit t k) {x = v * 1} {y = v} (omega arith) ∙ ground arith
bit-shifted v (suc l) zero =
    let even : v * 2 ^ suc l % 2 ≡ 0 = omega (arith, ap (λ (t : ℕ). v * t) (pow_double l)) in
    bit-zero (v * 2 ^ suc l) ∙ even ∙ ground arith
bit-shifted v (suc l) (suc k) =
    let half : v * 2 ^ suc l / 2 ≡ v * 2 ^ l =
      omega (arith, ap (λ (t : ℕ). v * t) (pow_double l)) in
    bit-suc (v * 2 ^ suc l) k ∙ ap (λ (t : ℕ). bit t k) half ∙ bit-shifted v l k ∙ ground arith

-- `(1 << w) - 1`
pub bit-ones : (w k : ℕ) → bit (2 ^ w - 1) k ≡ (if ltb k w then 1 else 0)
bit-ones zero k =
    ap (λ (t : ℕ). bit t k) {x = 1 - 1} {y = 0} (omega arith) ∙ zero-bit k ∙ ground arith
bit-ones (suc w) zero =
    let odd : (2 ^ suc w - 1) % 2 ≡ 1 = omega (arith, pow_double w, pow_pos w) in
    bit-zero (2 ^ suc w - 1) ∙ odd ∙ ground arith
bit-ones (suc w) (suc k) =
    let half : (2 ^ suc w - 1) / 2 ≡ 2 ^ w - 1 = omega (arith, pow_double w, pow_pos w) in
    bit-suc (2 ^ suc w - 1) k ∙ ap (λ (t : ℕ). bit t k) half ∙ bit-ones w k ∙ ground arith

bits_eq : (n a b : ℕ) → a ≤ n → b ≤ n → ((k : ℕ) → bit a k ≡ bit b k) → a ≡ b
bits_eq zero a b p q same = omega arith
bits_eq (suc n) a b p q same =
    let half : a / 2 ≡ b / 2 =
      bits_eq n (a / 2) (b / 2) (omega arith) (omega arith)
        (λ k. sym (bit-suc a k) ∙ same (suc k) ∙ bit-suc b k) in
    let low : a % 2 ≡ b % 2 = sym (bit-zero a) ∙ same 0 ∙ bit-zero b in omega (arith, half, low)

-- Numbers with the same bits are equal.
pub bit_ext : (a b : ℕ) → ((k : ℕ) → bit a k ≡ bit b k) → a ≡ b
bit_ext a b same = bits_eq (a + b) a b (omega arith) (omega arith) same

-- ===== src/Base/Parity.antt =====
-- The scalar product of two numbers as vectors of bits, modulo 2.
use Prim.Native.Nat.{ℕ, zero, suc, ◌+◌, ◌-◌, ◌*◌, ◌/◌, ◌%◌, ◌^◌, ◌<◌, min, differ, bit_or, bit_xor}
use mathlib.Core.Path.{◌≡◌, refl, ap, ap₂, ◌∙◌}
use native.Mathlib.Omega.{arith}
use warptap.Base.Tests.{ltb, ◌==◌, if◌then◌else◌}
use warptap.Base.BitOf.{bit, bit-lt, zero-bit, bit-suc, bit-bit_or, bit-bit_xor, bit-shifted}

-- How many of the first `w` bits both numbers have.
abbrev pub common : ℕ → ℕ → ℕ → ℕ
common zero a b = 0
common (suc w) a b = min (bit a w) (bit b w) + common w a b

abbrev pub dot : ℕ → ℕ → ℕ → ℕ
dot w a b = common w a b % 2

pub differ-sum : (x y : ℕ) → x < 2 → y < 2 → differ x y ≡ (x + y) % 2
differ-sum zero zero h h' = omega arith
differ-sum zero (suc zero) h h' = omega arith
differ-sum (suc zero) zero h h' = omega arith
differ-sum (suc zero) (suc zero) h h' = omega arith
differ-sum zero (suc (suc y)) h h' = absurd (omega arith)
differ-sum (suc zero) (suc (suc y)) h h' = absurd (omega arith)
differ-sum (suc (suc x)) y h h' = absurd (omega arith)

-- The scalar product is linear in its first argument.
pub dot-bit_xor : (w a b s : ℕ) → dot w (bit_xor a b) s ≡ (dot w a s + dot w b s) % 2
dot-bit_xor zero a b s = omega arith
dot-bit_xor (suc w) a b s = omega (
  arith,
  bit-bit_xor a b w,
  differ-sum (bit a w) (bit b w) (bit-lt a w) (bit-lt b w),
  bit-lt a w,
  bit-lt b w,
  bit-lt s w,
  dot-bit_xor w a b s,
)

pub zero-dot : (w s : ℕ) → dot w 0 s ≡ 0
zero-dot zero s = omega arith
zero-dot (suc w) s = omega (arith, zero-bit w, zero-dot w s)

pub dot-zero : (w a : ℕ) → dot w a 0 ≡ 0
dot-zero zero a = omega arith
dot-zero (suc w) a = omega (arith, zero-bit w, dot-zero w a)

bit-one : (k : ℕ) → bit 1 k ≡ (if k == 0 then 1 else 0)
bit-one zero = omega arith
bit-one (suc k) =
    bit-suc 1 k
    ∙ ap (λ (t : ℕ). bit t k) {x = 1 / 2} {y = 0} (omega arith)
    ∙ zero-bit k
    ∙ ground arith

pub bit-pow : (c k : ℕ) → bit (2 ^ c) k ≡ (if k == c then 1 else 0)
bit-pow c k =
    ap (λ (t : ℕ). bit t k) {x = 2 ^ c} {y = 1 * 2 ^ c} (omega arith)
    ∙ bit-shifted 1 c k
    ∙ ap (λ t. if ltb k c then 0 else t) (bit-one (k - c))
    ∙ ground arith

-- A new bit in the second argument adds the bit of the first one.
pub common-bit_or :
    (w a s c : ℕ)
    → bit s c ≡ 0
    → common w a (bit_or s (2 ^ c)) ≡ common w a s + (if ltb c w then bit a c else 0)
common-bit_or zero a s c h = ground arith
common-bit_or (suc w) a s c h =
    ground (
      arith,
      bit-bit_or s (2 ^ c) w,
      bit-pow c w,
      bit-lt a w,
      bit-lt s w,
      common-bit_or w a s c h,
      h,
    )

-- One bit in the first argument picks the bit of the second one.
pub pow-common : (w c s : ℕ) → common w (2 ^ c) s ≡ (if ltb c w then bit s c else 0)
pow-common zero c s = ground arith
pow-common (suc w) c s = ground (arith, bit-pow c w, bit-lt s w, pow-common w c s)

-- Only the first `w` bits count.
pub common-cong :
    (w a b s : ℕ) → ((k : ℕ) → k < w → bit a k ≡ bit b k) → common w a s ≡ common w b s
common-cong zero a b s h = refl
common-cong (suc w) a b s h =
    ap₂ (λ (x : ℕ) (y : ℕ). min x (bit s w) + y) (h w (omega arith))
      (common-cong w a b s (λ k l. h k (omega arith)))

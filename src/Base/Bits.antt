-- ===== src/Base/Bits.antt =====
-- Powers of two, and the law of `|` that a shift register uses.
use Prim.Native.Nat.{
  ℕ, zero, suc, ◌+◌, ◌*◌, ◌/◌, ◌%◌, ◌^◌, ◌≤◌, ◌<◌, max, bit_or, bit_xor, differ, digits,
  bit_or-bitwise, bit_xor-bitwise,
}
use mathlib.Core.Path.{◌≡◌, refl, ap}
use native.Mathlib.Omega.{arith}
use native.Mathlib.Nat.{pow-suc}

abbrev or_digits : ℕ → ℕ → ℕ → ℕ
or_digits n a b = digits (λ b. b) max n a b

or_digits_fuel : (n m a b : ℕ) → a ≤ n → a ≤ m → or_digits n a b ≡ or_digits m a b
or_digits_fuel zero zero a b p q = refl
or_digits_fuel zero (suc m) zero b p q = refl
or_digits_fuel zero (suc m) (suc a) b p q = absurd (omega arith)
or_digits_fuel (suc n) zero zero b p q = refl
or_digits_fuel (suc n) zero (suc a) b p q = absurd (omega arith)
or_digits_fuel (suc n) (suc m) zero b p q = refl
or_digits_fuel (suc n) (suc m) (suc a) b p q =
    omega (arith, or_digits_fuel n m (suc a / 2) (b / 2) (omega arith) (omega arith))

pub zero-bit_or : (b : ℕ) → bit_or 0 b ≡ b
zero-bit_or b = bit_or-bitwise 0 b

pub bit_or_step : (a b : ℕ) → bit_or a b ≡ bit_or (a / 2) (b / 2) * 2 + max (a % 2) (b % 2)
bit_or_step zero b = omega (arith, zero-bit_or b, zero-bit_or (b / 2))
bit_or_step (suc a) b = omega (
  arith,
  bit_or-bitwise (suc a) b,
  bit_or-bitwise (suc a / 2) (b / 2),
  or_digits_fuel a (suc a / 2) (suc a / 2) (b / 2) (omega arith) (omega arith),
)

pub pow_double : (k : ℕ) → 2 ^ suc k ≡ 2 ^ k * 2
pow_double k = pow-suc 2 k

pub pow_pos : (k : ℕ) → 0 < 2 ^ k
pow_pos zero = omega arith
pow_pos (suc k) = omega (arith, pow_double k, pow_pos k)

bit_or_double : (a c : ℕ) → bit_or a (c * 2) ≡ bit_or (a / 2) c * 2 + a % 2
bit_or_double a c =
    let half : c * 2 / 2 ≡ c = omega arith in omega (arith, rw half at (bit_or_step a (c * 2)))

-- A number below 2 ^ k and a multiple of 2 ^ k have no bit in common.
pub bit_or-shifted : (k a b : ℕ) → a < 2 ^ k → bit_or a (b * 2 ^ k) ≡ a + b * 2 ^ k
bit_or-shifted zero zero b h = omega (arith, zero-bit_or (b * 2 ^ 0))
bit_or-shifted zero (suc a) b h = absurd (omega arith)
bit_or-shifted (suc k) a b h =
    let half : b * 2 ^ suc k ≡ b * 2 ^ k * 2 =
      omega (arith, ap (λ (t : ℕ). b * t) (pow_double k)) in
    rw half (
      omega (
        arith,
        bit_or_double a (b * 2 ^ k),
        bit_or-shifted k (a / 2) b (omega (arith, pow_double k)),
      ))

abbrev xor_digits : ℕ → ℕ → ℕ → ℕ
xor_digits n a b = digits (λ b. b) differ n a b

differ-lt : (x y : ℕ) → x < 2 → y < 2 → differ x y < 2
differ-lt zero y h h' = h'
differ-lt (suc zero) zero h h' = h
differ-lt (suc zero) (suc zero) h h' = omega arith
differ-lt (suc zero) (suc (suc y)) h h' = absurd (omega arith)
differ-lt (suc (suc x)) y h h' = absurd (omega arith)

xor_digits-lt : (n k a b : ℕ) → a < 2 ^ k → b < 2 ^ k → xor_digits n a b < 2 ^ k
xor_digits-lt zero k a b h h' = h'
xor_digits-lt (suc n) k zero b h h' = h'
xor_digits-lt (suc n) zero (suc a) b h h' = absurd (omega arith)
xor_digits-lt (suc n) (suc k) (suc a) b h h' = omega (
  arith,
  pow_double k,
  differ-lt (suc a % 2) (b % 2) (omega arith) (omega arith),
  xor_digits-lt n k (suc a / 2) (b / 2) (omega (arith, pow_double k)) (omega (arith, pow_double k)),
)

-- The exclusive or of two numbers has no more bits than they have.
pub bit_xor-lt : (k a b : ℕ) → a < 2 ^ k → b < 2 ^ k → bit_xor a b < 2 ^ k
bit_xor-lt k a b h h' = omega (arith, bit_xor-bitwise a b, xor_digits-lt a k a b h h')

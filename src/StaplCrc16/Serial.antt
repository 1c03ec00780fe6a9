-- ===== src/StaplCrc16/Serial.antt =====
-- The CRC as the textbook has it: a register that takes the bits of the text one by one
-- (src/warptap/stapl_crc16.py).
use Prim.Native.Nat.{bit_xor, bit_xor-bitwise, differ}
use warptap.Base.{
  ℕ, zero, suc, ◌/◌, ◌%◌, ◌^◌, ◌<◌, ◌==◌, if◌then◌else◌, Bool, true, false, List, [], ◌∷◌, none,
  some, ◌≡◌, refl, ap, sym, ◌∙◌, arith,
}
use warptap.Base.BitOf.{bit, bit-suc, bit-zero, bit-lt, bit-bit_xor, bit_ext}
use warptap.Base.Bits.{pow_double}
use warptap.StaplCrc16.{
  poly_mask, init, xorout, crc_bit, crc_bits, crc_loop, crc16_x25, without_cr, encode_ascii,
  stapl_file_crc,
}
use warptap.StaplCrc16.Laws.{
  AreBytes, AreAscii, encode_ascii-ok, ascii-AreBytes, crc16_x25-lt, crlf, stapl_file_crc-crlf,
}

-- One bit goes in. Its sum with the lowest bit of the register, modulo 2, is fed back into the register,
-- shifted down by one. In 33800, which is 0x8408, bit 15 - k is the coefficient of x^k in the generator
-- x^16 + x^12 + x^5 + 1.
abbrev pub serial_step : ℕ → ℕ → ℕ
serial_step register b =
    if differ (register % 2) b == 1 then bit_xor (register / 2) 33800 else register / 2

-- The bits of a number, lowest first, go in.
abbrev pub serial_byte : ℕ → ℕ → ℕ → ℕ
serial_byte zero register byte = register
serial_byte (suc n) register byte = serial_byte n (serial_step register (byte % 2)) (byte / 2)

-- Eight bits of each byte go in.
abbrev pub serial : ℕ → List ℕ → ℕ
serial register [] = register
serial register (byte ∷ bytes) = serial (serial_byte 8 register byte) bytes

differ_assoc : (x y z : ℕ) → x < 2 → y < 2 → z < 2 → differ (differ x y) z ≡ differ x (differ y z)
differ_assoc zero y z h h' h'' = refl
differ_assoc (suc zero) zero z h h' h'' = refl
differ_assoc (suc zero) (suc zero) zero h h' h'' = refl
differ_assoc (suc zero) (suc zero) (suc zero) h h' h'' = refl
differ_assoc (suc zero) (suc zero) (suc (suc z)) h h' h'' = absurd (omega arith)
differ_assoc (suc zero) (suc (suc y)) z h h' h'' = absurd (omega arith)
differ_assoc (suc (suc x)) y z h h' h'' = absurd (omega arith)

differ_comm : (x y : ℕ) → x < 2 → y < 2 → differ x y ≡ differ y x
differ_comm zero zero h h' = refl
differ_comm zero (suc zero) h h' = refl
differ_comm (suc zero) zero h h' = refl
differ_comm (suc zero) (suc zero) h h' = refl
differ_comm zero (suc (suc y)) h h' = absurd (omega arith)
differ_comm (suc zero) (suc (suc y)) h h' = absurd (omega arith)
differ_comm (suc (suc x)) y h h' = absurd (omega arith)

bit_xor_assoc : (a b c : ℕ) → bit_xor (bit_xor a b) c ≡ bit_xor a (bit_xor b c)
bit_xor_assoc a b c = bit_ext (bit_xor (bit_xor a b) c) (bit_xor a (bit_xor b c)) (λ k.
    bit-bit_xor (bit_xor a b) c k
    ∙ ap (λ (t : ℕ). differ t (bit c k)) (bit-bit_xor a b k)
    ∙ differ_assoc (bit a k) (bit b k) (bit c k) (bit-lt a k) (bit-lt b k) (bit-lt c k)
    ∙ ap (λ (t : ℕ). differ (bit a k) t) (sym (bit-bit_xor b c k))
    ∙ sym (bit-bit_xor a (bit_xor b c) k))

bit_xor_comm : (a b : ℕ) → bit_xor a b ≡ bit_xor b a
bit_xor_comm a b = bit_ext (bit_xor a b) (bit_xor b a) (λ k.
    bit-bit_xor a b k
    ∙ differ_comm (bit a k) (bit b k) (bit-lt a k) (bit-lt b k)
    ∙ sym (bit-bit_xor b a k))

-- Two summands change places.
bit_xor_swap : (a b c : ℕ) → bit_xor (bit_xor a b) c ≡ bit_xor (bit_xor a c) b
bit_xor_swap a b c =
    bit_xor_assoc a b c ∙ ap (bit_xor a) (bit_xor_comm b c) ∙ sym (bit_xor_assoc a c b)

half-bit_xor : (a b : ℕ) → bit_xor a b / 2 ≡ bit_xor (a / 2) (b / 2)
half-bit_xor a b = bit_ext (bit_xor a b / 2) (bit_xor (a / 2) (b / 2)) (λ k.
    sym (bit-suc (bit_xor a b) k)
    ∙ bit-bit_xor a b (suc k)
    ∙ rw (bit-suc a k, bit-suc b k) refl
    ∙ sym (bit-bit_xor (a / 2) (b / 2) k))

low-bit_xor : (a b : ℕ) → bit_xor a b % 2 ≡ differ (a % 2) (b % 2)
low-bit_xor a b =
    sym (bit-zero (bit_xor a b)) ∙ bit-bit_xor a b 0 ∙ rw (bit-zero a, bit-zero b) refl

bit_xor-zero : (a : ℕ) → bit_xor a 0 ≡ a
bit_xor-zero a = bit_xor_comm a 0 ∙ bit_xor-bitwise 0 a

-- A turn of the loop on a register with a byte in it takes the lowest bit of the byte, and leaves the
-- other ones where the next turn finds them.
crc_bit-serial :
    (register byte : ℕ)
    → crc_bit (bit_xor register byte) ≡ bit_xor (serial_step register (byte % 2)) (byte / 2)
unfolding crc_bit
crc_bit-serial register byte =
    rw (half-bit_xor register byte, low-bit_xor register byte)
      (go (differ (register % 2) (byte % 2) == 1))
  where
    go :
        (b : Bool)
        → (if b
            then bit_xor (bit_xor (register / 2) (byte / 2)) poly_mask
            else bit_xor (register / 2) (byte / 2))
          ≡ bit_xor (if b then bit_xor (register / 2) 33800 else register / 2) (byte / 2)
    go true = bit_xor_swap (register / 2) (byte / 2) poly_mask
    go false = refl

crc_bits-serial :
    (n register byte : ℕ)
    → byte < 2 ^ n
    → crc_bits n (bit_xor register byte) ≡ serial_byte n register byte
unfolding crc_bits
crc_bits-serial zero register byte h =
    let none_left : byte ≡ 0 = omega arith in
    ap (bit_xor register) none_left ∙ bit_xor-zero register
crc_bits-serial (suc n) register byte h =
    ap (crc_bits n) (crc_bit-serial register byte)
    ∙ crc_bits-serial n (serial_step register (byte % 2)) (byte / 2) (omega (arith, pow_double n))

crc_loop-serial :
    (register : ℕ) (content : List ℕ)
    → AreBytes content
    → crc_loop register content ≡ serial register content
unfolding crc_loop
crc_loop-serial register [] a = refl
crc_loop-serial register (byte ∷ content) a =
    ap (λ (r : ℕ). crc_loop r content) (crc_bits-serial 8 register byte (omega (arith, a.0)))
    ∙ crc_loop-serial (serial_byte 8 register byte) content a.1

-- No carriage return is in the text.
abbrev pub NoCr : List ℕ → Type 0
NoCr [] = Unit {0}
NoCr (c ∷ text) = ((c == 13) ≡ false) × NoCr text

without_cr-NoCr : (text : List ℕ) → NoCr text → without_cr text ≡ text
unfolding without_cr
without_cr-NoCr [] h = refl
without_cr-NoCr (c ∷ text) h = rw h.0 (ap (λ (t : List ℕ). c ∷ t) (without_cr-NoCr text h.1))

-- What the register holds after the text, complemented.
abbrev pub serial_crc : List ℕ → ℕ
serial_crc text = bit_xor (serial 65535 text) 65535

-- The CRC of an ASCII text without carriage returns is the complement of what a register of sixteen
-- ones holds after the bits of all characters went in one by one, of each character the lowest first.
-- The text with its line ends written CR-LF has the same CRC, and the CRC has 16 bits.
pub stapl_file_crc-serial :
    (text : List ℕ)
    → AreAscii text
    → NoCr text
    → (stapl_file_crc text ≡ some (serial_crc text))
      × (stapl_file_crc (crlf text) ≡ some (serial_crc text))
      × (serial_crc text < 2 ^ 16)
unfolding crc16_x25
stapl_file_crc-serial text a no_cr =
    let bytes = ascii-AreBytes text a in
    let value : stapl_file_crc text ≡ some (serial_crc text) =
      unfold stapl_file_crc in
      ap (λ t. elim (encode_ascii t) [ none ↦ none | some bytes ↦ some (crc16_x25 bytes) ])
        (without_cr-NoCr text no_cr)
      ∙ ap (λ o. elim o [ none ↦ none | some bytes ↦ some (crc16_x25 bytes) ])
          (encode_ascii-ok text a)
      ∙ ap (λ (r : ℕ). some (bit_xor r xorout)) (crc_loop-serial init text bytes) in
    (
      value,
      stapl_file_crc-crlf text ∙ value,
      rw (← crc_loop-serial init text bytes) (crc16_x25-lt text bytes),
    )

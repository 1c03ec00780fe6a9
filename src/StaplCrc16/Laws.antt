-- ===== src/StaplCrc16/Laws.antt =====
-- The CRC of a text: when there is one, how large it is, and what it does not depend on
-- (src/warptap/stapl_crc16.py).
use Prim.Native.Nat.{bit_xor}
use warptap.Base.{
  ℕ, zero, suc, ◌/◌, ◌%◌, ◌^◌, ◌<◌, ◌==◌, ltb, if◌then◌else◌, Bool, true, false, List, [], ◌∷◌,
  none, some, ◌≡◌, refl, ap, ◌∙◌, arith,
}
use warptap.Base.Bits.{bit_xor-lt}
use warptap.StaplCrc16.{
  poly_mask, init, xorout, crc_bit, crc_bits, crc_loop, crc16_x25, without_cr, encode_ascii,
  stapl_file_crc,
}

crc_bit-lt : (crc : ℕ) → crc < 2 ^ 16 → crc_bit crc < 2 ^ 16
unfolding crc_bit
crc_bit-lt crc h = go (crc % 2 == 1)
  where
    go : (b : Bool) → (if b then bit_xor (crc / 2) poly_mask else crc / 2) < 2 ^ 16
    go true = bit_xor-lt 16 (crc / 2) poly_mask (omega arith) (omega arith)
    go false = omega arith

crc_bits-lt : (n crc : ℕ) → crc < 2 ^ 16 → crc_bits n crc < 2 ^ 16
unfolding crc_bits
crc_bits-lt zero crc h = h
crc_bits-lt (suc n) crc h = crc_bits-lt n (crc_bit crc) (crc_bit-lt crc h)

-- Every entry is a byte.
abbrev pub AreBytes : List ℕ → Type 0
AreBytes [] = Unit {0}
AreBytes (b ∷ bs) = (b < 256) × AreBytes bs

crc_loop-lt :
    (crc : ℕ) (content : List ℕ) → crc < 2 ^ 16 → AreBytes content → crc_loop crc content < 2 ^ 16
unfolding crc_loop
crc_loop-lt crc [] h a = h
crc_loop-lt crc (byte ∷ content) h a =
    crc_loop-lt (crc_bits 8 (bit_xor crc byte)) content
      (crc_bits-lt 8 (bit_xor crc byte) (bit_xor-lt 16 crc byte h (omega (arith, a.0)))) a.1

-- The CRC of bytes has 16 bits.
pub crc16_x25-lt : (content : List ℕ) → AreBytes content → crc16_x25 content < 2 ^ 16
unfolding crc16_x25
crc16_x25-lt content a =
    bit_xor-lt 16 (crc_loop init content) xorout (crc_loop-lt init content (omega arith) a)
      (omega arith)

-- Every code point is one of ASCII.
abbrev pub AreAscii : List ℕ → Type 0
AreAscii [] = Unit {0}
AreAscii (c ∷ cs) = (c < 128) × AreAscii cs

pub encode_ascii-ok : (text : List ℕ) → AreAscii text → encode_ascii text ≡ some text
unfolding encode_ascii
encode_ascii-ok [] a = refl
encode_ascii-ok (c ∷ text) a =
    rw (encode_ascii-ok text a.1) (small (ltb c 128) (ground (arith, a.0)))
  where
    small : (b : Bool) → b ≡ true → (if b then some (c ∷ text) else none) ≡ some (c ∷ text)
    small true e = refl
    small false e = cc

pub without_cr-AreAscii : (text : List ℕ) → AreAscii text → AreAscii (without_cr text)
unfolding without_cr
without_cr-AreAscii [] a = tt
without_cr-AreAscii (c ∷ text) a = go (c == 13) (without_cr-AreAscii text a.1)
  where
    go :
        (b : Bool)
        → AreAscii (without_cr text)
        → AreAscii (if b then without_cr text else c ∷ without_cr text)
    go true h = h
    go false h = (a.0, h)

pub ascii-AreBytes : (text : List ℕ) → AreAscii text → AreBytes text
ascii-AreBytes [] a = tt
ascii-AreBytes (c ∷ text) a = (omega (arith, a.0), ascii-AreBytes text a.1)

-- Of an ASCII text the CRC exists and has 16 bits.
pub stapl_file_crc-lt :
    (text : List ℕ) → AreAscii text → (crc : ℕ) × (stapl_file_crc text ≡ some crc) × (crc < 2 ^ 16)
unfolding stapl_file_crc
stapl_file_crc-lt text a =
    let kept = without_cr-AreAscii text a in
    (
      crc16_x25 (without_cr text),
      ap (λ o. elim o [ none ↦ none | some bytes ↦ some (crc16_x25 bytes) ])
          (encode_ascii-ok (without_cr text) kept),
      crc16_x25-lt (without_cr text) (ascii-AreBytes (without_cr text) kept),
    )

-- `"\n"` written as `"\r\n"`
abbrev pub crlf : List ℕ → List ℕ
crlf [] = []
crlf (c ∷ text) = if c == 10 then 13 ∷ 10 ∷ crlf text else c ∷ crlf text

without_cr-crlf : (text : List ℕ) → without_cr (crlf text) ≡ without_cr text
unfolding without_cr
without_cr-crlf [] = refl
without_cr-crlf (c ∷ text) = go (c == 10) refl (without_cr-crlf text)
  where
    line :
        c ≡ 10 → (10 ∷ without_cr text) ≡ (if c == 13 then without_cr text else c ∷ without_cr text)
    line e = rw e refl

    go :
        (b : Bool)
        → (c == 10) ≡ b
        → without_cr (crlf text) ≡ without_cr text
        → without_cr (if b then 13 ∷ 10 ∷ crlf text else c ∷ crlf text) ≡ without_cr (c ∷ text)
    go true e h = ap (λ (t : List ℕ). 10 ∷ t) h ∙ line (ground arith)
    go false e h = ap (λ (t : List ℕ). if c == 13 then t else c ∷ t) h

-- A text and the same text with its line ends written CR-LF have the same CRC, or both have none.
pub stapl_file_crc-crlf : (text : List ℕ) → stapl_file_crc (crlf text) ≡ stapl_file_crc text
unfolding stapl_file_crc
stapl_file_crc-crlf text =
    ap (λ t. elim (encode_ascii t) [ none ↦ none | some bytes ↦ some (crc16_x25 bytes) ])
      (without_cr-crlf text)

-- ===== src/StaplCrc16.antt =====
-- The CRC of STAPL files (src/warptap/stapl_crc16.py). A text is the list of its code points, bytes
-- are numbers.
pub mod Laws
pub mod Serial
use Prim.Native.Nat.{bit_xor}
use warptap.Base.{
  ℕ, zero, suc, ◌/◌, ◌%◌, ◌==◌, ltb, if◌then◌else◌, Bool, true, false, List, [], ◌∷◌, Option, none,
  some,
}

-- `_POLY_MASK`, `_INIT`, `_XOROUT`.
abbrev pub poly_mask : ℕ
poly_mask = 33800

abbrev pub init : ℕ
init = 65535

abbrev pub xorout : ℕ
xorout = 65535

-- One turn of the inner loop: `crc & 1` is the parity, `>> 1` the half.
unfoldable pub crc_bit : ℕ → ℕ
crc_bit crc = if crc % 2 == 1 then bit_xor (crc / 2) poly_mask else crc / 2

unfoldable pub crc_bits : ℕ → ℕ → ℕ
unfolding crc_bit
crc_bits zero crc = crc
crc_bits (suc n) crc = crc_bits n (crc_bit crc)

-- The loop over the bytes.
unfoldable pub crc_loop : ℕ → List ℕ → ℕ
unfolding crc_bits
crc_loop crc [] = crc
crc_loop crc (byte ∷ content) = crc_loop (crc_bits 8 (bit_xor crc byte)) content

unfoldable pub crc16_x25 : List ℕ → ℕ
unfolding crc_loop
crc16_x25 content = bit_xor (crc_loop init content) xorout

-- `text.replace("\r", "")`
unfoldable pub without_cr : List ℕ → List ℕ
without_cr [] = []
without_cr (c ∷ text) = let rest = without_cr text in if c == 13 then rest else c ∷ rest

-- `.encode("ascii")`, `none` for the UnicodeEncodeError.
unfoldable pub encode_ascii : List ℕ → Option (List ℕ)
encode_ascii [] = some []
encode_ascii (c ∷ text) =
    let rest = encode_ascii text in
    if ltb c 128 then elim rest [ none ↦ none | some bytes ↦ some (c ∷ bytes) ] else none

unfoldable pub stapl_file_crc : List ℕ → Option ℕ
unfolding encode_ascii without_cr crc16_x25
stapl_file_crc text = elim (encode_ascii (without_cr text)) [
  | none ↦ none
  | some bytes ↦ some (crc16_x25 bytes)
]

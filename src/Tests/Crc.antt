-- ===== src/Tests/Crc.antt =====
-- Runs of the CRC (src/warptap/stapl_crc16.py).
use warptap.Base.{◌^◌, ◌<◌, [], ◌∷◌, some, ◌≡◌, refl, arith}
use warptap.StaplCrc16.{crc_bit, crc_bits, crc_loop, crc16_x25, stapl_file_crc}
use warptap.StaplCrc16.Laws.{crlf}
use warptap.StaplCrc16.Serial.{serial_crc, stapl_file_crc-serial}

-- The catalogued check value, of the digits 1 to 9.
check_value : crc16_x25 (49 ∷ 50 ∷ 51 ∷ 52 ∷ 53 ∷ 54 ∷ 55 ∷ 56 ∷ 57 ∷ []) ≡ 36974
unfolding crc16_x25 crc_loop crc_bits crc_bit
check_value = refl

stapl_file_crc-serial_example :
    (stapl_file_crc (78 ∷ 10 ∷ []) ≡ some (serial_crc (78 ∷ 10 ∷ [])))
    × (stapl_file_crc (crlf (78 ∷ 10 ∷ [])) ≡ some (serial_crc (78 ∷ 10 ∷ [])))
    × (serial_crc (78 ∷ 10 ∷ []) < 2 ^ 16)
stapl_file_crc-serial_example =
    stapl_file_crc-serial (78 ∷ 10 ∷ []) (omega arith, (omega arith, tt)) (refl, (refl, tt))

-- ===== src/PdlInterpreter/Merge.antt =====
-- Writing a value into a field of another value, bit by bit (src/warptap/pdl_interpreter.py).
use Prim.Native.Nat.{min, max, differ, bit_and, bit_or}
use warptap.Base.{
  ℕ, zero, suc, ◌-◌, ◌*◌, ◌^◌, ◌≤◌, ◌<◌, ltb, leb, if◌then◌else◌, false, ◌&&◌, ok, ◌≡◌, refl, ap,
  ap₂, ◌∙◌, arith,
}
use warptap.Base.BitOf.{bit, bit-lt, bit-bit_and, bit-bit_or, bit-bit_xor, bit-shifted, bit-ones}
use warptap.PdlInterpreter.Fields.{and_not, set_bit_range}

mask_bit :
    (low high k : ℕ)
    → low ≤ suc high
    → bit ((2 ^ (suc high - low) - 1) * 2 ^ low) k ≡ (if leb low k && leb k high then 1 else 0)
mask_bit low high k h =
    bit-shifted (2 ^ (suc high - low) - 1) low k
    ∙ ap (λ t. if ltb k low then 0 else t) (bit-ones (suc high - low) (k - low))
    ∙ ground arith

keep_or_take :
    (c v : ℕ)
    → c < 2
    → v < 2
    → (max (differ c (min c 0)) (min v 0) ≡ c) × (max (differ c (min c 1)) (min v 1) ≡ v)
keep_or_take zero v h h' = (omega arith, omega arith)
keep_or_take (suc zero) v h h' = (omega arith, omega arith)
keep_or_take (suc (suc c)) v h h' = absurd (omega arith)

choose :
    (c v low high k : ℕ)
    → c < 2
    → v < 2
    → max
        (differ c (min c (if leb low k && leb k high then 1 else 0)))
        (min (if ltb k low then 0 else v) (if leb low k && leb k high then 1 else 0))
      ≡ (if leb low k && leb k high then v else c)
choose c v low high k h h' = ground (arith, keep_or_take c v h h', keep_or_take c 0 h (omega arith))

-- If the field does not end more than one bit before it begins, `_set_bit_range` returns, and in its
-- result each bit of the field is the bit of the value that stands as far from bit 0 as it stands from
-- the low end of the field, and each other bit is that of the current value.
pub set_bit_range-bit :
    (current low high value k : ℕ)
    → low ≤ suc high
    → (merged : ℕ) × (set_bit_range current low high value ≡ ok merged)
      × (bit merged k ≡ (if leb low k && leb k high then bit value (k - low) else bit current k))
unfolding set_bit_range
set_bit_range-bit current low high value k h =
    let mask = (2 ^ (suc high - low) - 1) * 2 ^ low in
    let no_error : ltb (suc high) low ≡ false = ground arith in
    (
      bit_or (and_not current mask) (bit_and (value * 2 ^ low) mask),
      rw no_error refl,
      bit-bit_or (and_not current mask) (bit_and (value * 2 ^ low) mask) k
          ∙ ap₂ max
              (bit-bit_xor current (bit_and current mask) k
                ∙ ap (differ (bit current k)) (bit-bit_and current mask k))
              (bit-bit_and (value * 2 ^ low) mask k
                ∙ ap (λ t. min t (bit mask k)) (bit-shifted value low k))
          ∙ ap
              (λ m.
                max (differ (bit current k) (min (bit current k) m))
                  (min (if ltb k low then 0 else bit value (k - low)) m))
              (mask_bit low high k h)
          ∙ choose (bit current k) (bit value (k - low)) low high k (bit-lt current k)
              (bit-lt value (k - low)),
    )

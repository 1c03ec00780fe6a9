-- ===== src/FaultflowCompression/Linear.antt =====
-- The rows of `care_bit_rows` say what a seed expands to (src/warptap/faultflow_compression.py).
use Prim.Native.Nat.{bit_xor}
use warptap.Base.{
  ℕ, zero, suc, ◌+◌, ◌-◌, ◌%◌, ◌^◌, ◌<◌, if◌then◌else◌, Bool, true, false, List, [], ◌∷◌, map, ◌≡◌,
  refl, sym, ap, ap₂, ◌∙◌, arith, get_or, fun_ext, map-map, map-cong,
}
use warptap.Base.BitOf.{bit-lt}
use warptap.Base.Parity.{dot, dot-bit_xor, zero-dot, pow-common}
use warptap.TapIr.{for_range, bits_from_int}
use warptap.IclModel.{contains}
use warptap.FaultflowCompression.{LfsrPolynomial, step, xor_reduce, expand, care_bit_rows}

bits_below_two : (x y : ℕ) → x < 2 → y < 2 → bit_xor x y ≡ (x + y) % 2
bits_below_two zero zero h h' = refl
bits_below_two zero (suc zero) h h' = refl
bits_below_two (suc zero) zero h h' = refl
bits_below_two (suc zero) (suc zero) h h' = refl
bits_below_two zero (suc (suc y)) h h' = absurd (omega arith)
bits_below_two (suc zero) (suc (suc y)) h h' = absurd (omega arith)
bits_below_two (suc (suc x)) y h h' = absurd (omega arith)

module _ (w seed : ℕ) where
  -- The value of a row of coefficients at the seed.
  abbrev pub at : ℕ → ℕ
  at row = dot w row seed

  at-bit_xor : (a b : ℕ) → at (bit_xor a b) ≡ bit_xor (at a) (at b)
  at-bit_xor a b =
      dot-bit_xor w a b seed ∙ sym (bits_below_two (at a) (at b) (omega arith) (omega arith))

  pub get_or-at : (rows : List ℕ) (k : ℕ) → at (get_or rows k 0) ≡ get_or (map at rows) k 0
  get_or-at [] k = zero-dot w seed
  get_or-at (r ∷ rows) zero = refl
  get_or-at (r ∷ rows) (suc k) = get_or-at rows k

  map-for_range :
      (start count : ℕ) (f : ℕ → ℕ)
      → map at (for_range start count f) ≡ for_range start count (λ i. at (f i))
  unfolding for_range
  map-for_range start zero f = refl
  map-for_range start (suc count) f =
      ap (λ (t : List ℕ). at (f start) ∷ t) (map-for_range (suc start) count f)

  xor_reduce-at : (values : List ℕ) → at (xor_reduce values) ≡ xor_reduce (map at values)
  unfolding xor_reduce
  xor_reduce-at [] = zero-dot w seed
  xor_reduce-at (v ∷ values) =
      at-bit_xor v (xor_reduce values) ∙ ap (bit_xor (at v)) (xor_reduce-at values)

  if-at : (b : Bool) (x : ℕ) → at (if b then x else 0) ≡ (if b then at x else 0)
  if-at true x = refl
  if-at false x = zero-dot w seed

  step-at :
      (poly : LfsrPolynomial) (rows : List ℕ) → map at (step poly rows) ≡ step poly (map at rows)
  unfolding step
  step-at poly rows =
      let fb = get_or rows (poly.width - 1) 0 in
      let same = get_or-at rows (poly.width - 1) in
      ap₂ (λ (x : ℕ) (t : List ℕ). x ∷ t) same
        (map-for_range 1 (poly.width - 1) _
          ∙ ap (for_range 1 (poly.width - 1)) (
              fun_ext λ i.
                at-bit_xor (get_or rows (i - 1) 0) (if contains poly.taps i then fb else 0)
                ∙ ap₂ bit_xor (get_or-at rows (i - 1)) (
                    if-at (contains poly.taps i) fb
                    ∙ ap (λ (t : ℕ). if contains poly.taps i then t else 0) same)))

  expand-at :
      (poly : LfsrPolynomial) (phase : List (List ℕ)) (cycles : ℕ) (rows : List ℕ)
      → map (map at) (expand poly phase cycles rows) ≡ expand poly phase cycles (map at rows)
  unfolding expand
  expand-at poly phase zero rows = refl
  expand-at poly phase (suc cycles) rows =
      ap₂ (λ (x : List ℕ) (t : List (List ℕ)). x ∷ t)
        (map-map at (λ taps. xor_reduce (map (λ k. get_or rows k 0) taps)) phase
          ∙ map-cong _ _
              (λ taps.
                xor_reduce-at (map (λ k. get_or rows k 0) taps)
                ∙ ap xor_reduce (
                    map-map at (λ k. get_or rows k 0) taps
                    ∙ map-cong _ _ (λ k. get_or-at rows k) taps))
              phase)
        (expand-at poly phase cycles (step poly rows)
          ∙ ap (expand poly phase cycles) (step-at poly rows))

for_range-below :
    (start count : ℕ) (f g : ℕ → ℕ)
    → ((i : ℕ) → i < start + count → f i ≡ g i)
    → for_range start count f ≡ for_range start count g
unfolding for_range
for_range-below start zero f g h = refl
for_range-below start (suc count) f g h =
    ap₂ (λ (x : ℕ) (t : List ℕ). x ∷ t) (h start (omega arith))
      (for_range-below (suc start) count f g (λ i l. h i (omega arith)))

-- The rows of `care_bit_rows` are right for every seed: the exclusive or of the seed's bits that the
-- row of a cycle and a chain names is the bit that the chain takes in that cycle when the shift
-- register starts with the seed in it and is stepped once in each cycle.
pub care_bit_rows-expand :
    (poly : LfsrPolynomial) (phase : List (List ℕ)) (cycles seed : ℕ)
    → map (map (at poly.width seed)) (care_bit_rows poly phase cycles)
      ≡ expand poly phase cycles (bits_from_int seed poly.width)
unfolding care_bit_rows bits_from_int
care_bit_rows-expand poly phase cycles seed =
    let w = poly.width in
    expand-at w seed poly phase cycles (for_range 0 w (λ i. 2 ^ i))
    ∙ ap (expand poly phase cycles) (
        map-for_range w seed 0 w (λ i. 2 ^ i)
        ∙ for_range-below 0 w _ _ (λ i l. ground (arith, pow-common w i seed, bit-lt seed i)))

-- ===== src/FaultflowCompression.antt =====
-- Compressed scan patterns: the linear feedback shift register that expands a seed into the content of
-- all chains, and the equations that a seed must solve (src/warptap/faultflow_compression.py).
pub mod Linear
pub mod Solver
pub mod Pattern
pub mod Expansion
pub mod Retarget
use Prim.Native.Nat.{bit_and, bit_or, bit_xor}
use warptap.Base.{
  ℕ, zero, suc, ◌+◌, ◌-◌, ◌*◌, ◌^◌, ◌==◌, if◌then◌else◌, Bool, true, false, ◌&&◌, List, [], ◌∷◌,
  ◌++◌, map, Option, none, some, String, Result, ok, err, ◌>>=◌, get_or, length, not,
}
use warptap.Base.BitOf.{bit}
use warptap.TapIr.{for_range}
use warptap.IclModel.{contains}

-- The FaultflowCompressionErrors of this part.
pub data CompressionError : Type 0 where
  no_polynomial : ℕ → CompressionError
  wrong_length no_seed : ℕ → CompressionError  -- pattern
  no_such_chain : ℕ → CompressionError  -- the IndexError of `rows[cycle][chain_id]`

-- `taps` is a set.
pub record LfsrPolynomial : Type 0 where
  pub width : ℕ
  pub taps : List ℕ

-- `PRIMITIVE_POLYNOMIALS`
unfoldable pub primitive_polynomials : List (ℕ × LfsrPolynomial)
primitive_polynomials =
    (8, record { width = 8; taps = 4 ∷ 5 ∷ 6 ∷ [] })
    ∷ (16, record { width = 16; taps = 4 ∷ 13 ∷ 15 ∷ [] })
    ∷ (32, record { width = 32; taps = 1 ∷ 2 ∷ 22 ∷ [] })
    ∷ (64, record { width = 64; taps = 60 ∷ 61 ∷ 63 ∷ [] })
    ∷ []

-- A polynomial in the table.
unfoldable pub find_polynomial :
    List (ℕ × LfsrPolynomial) → ℕ → Result CompressionError LfsrPolynomial
find_polynomial [] width = err (no_polynomial width)
find_polynomial ((w, poly) ∷ table) width =
    let later = find_polynomial table width in if w == width then ok poly else later

unfoldable pub lookup_polynomial : ℕ → Result CompressionError LfsrPolynomial
unfolding find_polynomial primitive_polynomials
lookup_polynomial width = find_polynomial primitive_polynomials width

-- `manifest["compression"]`, of which two entries are read.
pub record Compression : Type 0 where
  pub polynomial : Option LfsrPolynomial
  pub num_channels : ℕ

unfoldable pub polynomial_from_manifest : Compression → Result CompressionError LfsrPolynomial
unfolding lookup_polynomial
polynomial_from_manifest c = elim c.polynomial [
  | none ↦ lookup_polynomial c.num_channels
  | some poly ↦ ok poly
]

-- `_step`, for a polynomial of width 1 or more and as many rows.
unfoldable pub step : LfsrPolynomial → List ℕ → List ℕ
unfolding for_range
step poly rows =
    let fb = get_or rows (poly.width - 1) 0 in
    fb
    ∷ for_range 1 (poly.width - 1)
        (λ i. bit_xor (get_or rows (i - 1) 0) (if contains poly.taps i then fb else 0))

unfoldable pub xor_reduce : List ℕ → ℕ
xor_reduce [] = 0
xor_reduce (v ∷ values) = bit_xor v (xor_reduce values)

-- The loop of `care_bit_rows`, whose taps are below the width.
unfoldable pub expand : LfsrPolynomial → List (List ℕ) → ℕ → List ℕ → List (List ℕ)
unfolding step xor_reduce
expand poly phase_shifter_taps zero rows = []
expand poly phase_shifter_taps (suc cycles) rows =
    map (λ taps. xor_reduce (map (λ k. get_or rows k 0) taps)) phase_shifter_taps
    ∷ expand poly phase_shifter_taps cycles (step poly rows)

unfoldable pub care_bit_rows : LfsrPolynomial → List (List ℕ) → ℕ → List (List ℕ)
unfolding expand
care_bit_rows poly phase_shifter_taps max_chain_length =
    expand poly phase_shifter_taps max_chain_length (for_range 0 poly.width (λ i. 2 ^ i))

-- One row with its right-hand side at bit `width`.
abbrev pub augment : ℕ → ℕ → Bool → ℕ
augment width row r = bit_or (bit_and row (2 ^ width - 1)) (if r then 2 ^ width else 0)

abbrev pub augment_all : ℕ → List ℕ → List Bool → List ℕ
augment_all width [] rhs = []
augment_all width (row ∷ rows) [] = []
augment_all width (row ∷ rows) (r ∷ rhs) = augment width row r ∷ augment_all width rows rhs

-- The first row from `pivot_row` on that has the column's bit, with the rows before and after it.
unfoldable pub select : ℕ → List ℕ → Option (List ℕ × ℕ × List ℕ)
select col [] = none
select col (row ∷ rows) =
    let later = select col rows in
    if bit row col == 1
    then some ([], row, rows)
    else elim later [ none ↦ none | some (before, sel, after) ↦ some (row ∷ before, sel, after) ]

-- The rows after `pivot_row`, once the row there has changed places with the one selected.
abbrev pub swapped : List ℕ → List ℕ → List ℕ
swapped [] after = after
swapped (first ∷ before) after = before ++ first ∷ after

abbrev pub eliminate : ℕ → ℕ → ℕ → ℕ
eliminate col pivot row = if bit row col == 1 then bit_xor row pivot else row

-- The rows before `pivot_row`, with their pivot columns, and the rows from there on.
abbrev pub Rows : Type 0
Rows = List (ℕ × ℕ) × List ℕ

-- The loop over the columns.
unfoldable pub columns : ℕ → ℕ → Rows → Rows
unfolding select
columns zero col (done, rest) = (done, rest)
columns (suc count) col (done, rest) = elim (select col rest) [
  | none ↦ columns count (suc col) (done, rest)
  | some (before, pivot, after) ↦ columns count (suc col) (
    map (λ r. (r.0, eliminate col pivot r.1)) done ++ (col, pivot) ∷ [],
    map (eliminate col pivot) (swapped before after),
  )
]

-- `coeffs == 0 and rhs_bit` for some row.
unfoldable pub contradictory : ℕ → List ℕ → Bool
contradictory width [] = false
contradictory width (row ∷ rows) =
    let later = contradictory width rows in
    if bit_and row (2 ^ width - 1) == 0 && bit row width == 1 then true else later

-- The loop that builds the seed.
unfoldable pub seed_from : ℕ → List (ℕ × ℕ) → ℕ → ℕ
seed_from width [] seed = seed
seed_from width ((col, row) ∷ done) seed =
    seed_from width done (if bit row width == 1 then bit_or seed (2 ^ col) else seed)

unfoldable pub solve_xor_broadcast : List ℕ → List Bool → ℕ → Option ℕ
unfolding columns contradictory seed_from
solve_xor_broadcast rows rhs width =
    let (done, rest) = columns width 0 ([], augment_all width rows rhs) in
    if contradictory width rest then none else some (seed_from width done 0)

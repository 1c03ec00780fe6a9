-- ===== src/FaultflowCompression/Pattern.antt =====
-- The equations of a pattern and its seed (src/warptap/faultflow_compression.py).
use warptap.Base.{
  ℕ, suc, ltb, ◌==◌, if◌then◌else◌, Bool, true, false, ◌&&◌, ◌||◌, List, [], ◌∷◌, ◌++◌, map, not,
  Option, none, some, Result, ok, err, ◌>>=◌, ◌>>◌, raise_if, length, get_or,
}
use warptap.FaultflowCompression.{
  CompressionError, wrong_length, no_seed, no_such_chain, solve_xor_broadcast,
}

-- `(chain_id, cycle) in load_care`
abbrev pub is_care : List (ℕ × ℕ) → ℕ → ℕ → Bool
is_care [] chain cycle = false
is_care ((c, t) ∷ positions) chain cycle =
    (c == chain && t == cycle) || is_care positions chain cycle

-- A position whose value the seed must give.
abbrev pub cares : Option (List (ℕ × ℕ)) → ℕ → ℕ → Bool
cares none chain cycle = true
cares (some positions) chain cycle = is_care positions chain cycle

-- `rows[cycle][chain_id]`
abbrev pub row_of : List ℕ → ℕ → Result CompressionError ℕ
row_of row chain =
    if ltb chain (length row) then ok (get_or row chain 0) else err (no_such_chain chain)

-- The loop over the cycles of a chain: the rows of the equations with their right-hand sides.
unfoldable pub equations_of :
    Option (List (ℕ × ℕ))
    → ℕ
    → ℕ
    → List Bool
    → List (List ℕ)
    → Result CompressionError (List (ℕ × Bool))
equations_of load_care chain cycle [] rows = ok []
equations_of load_care chain cycle (value ∷ bits) [] = ok []
equations_of load_care chain cycle (value ∷ bits) (row ∷ rows) =
    let later = equations_of load_care chain (suc cycle) bits rows in
    if cares load_care chain cycle
    then (do
      coefficients ← row_of row chain
      equations ← later
      ok ((coefficients, value) ∷ equations))
    else later

-- The loop over the chains.
unfoldable pub all_equations :
    Option (List (ℕ × ℕ))
    → ℕ
    → List (ℕ × List Bool)
    → List (List ℕ)
    → Result CompressionError (List (ℕ × Bool))
unfolding equations_of
all_equations load_care pattern_index [] rows = ok []
all_equations load_care pattern_index ((chain, bits) ∷ load_seqs) rows = do
  raise_if (not (length bits == length rows)) (wrong_length pattern_index)
  equations ← equations_of load_care chain 0 bits rows
  others ← all_equations load_care pattern_index load_seqs rows
  ok (equations ++ others)

abbrev pub seed_or_error : Option ℕ → ℕ → Result CompressionError ℕ
seed_or_error none pattern_index = err (no_seed pattern_index)
seed_or_error (some seed) pattern_index = ok seed

unfoldable pub solve_pattern_seed :
    List (ℕ × List Bool) → List (List ℕ) → ℕ → ℕ → Option (List (ℕ × ℕ)) → Result CompressionError ℕ
unfolding all_equations
solve_pattern_seed load_seqs rows width pattern_index load_care = do
  equations ← all_equations load_care pattern_index load_seqs rows
  seed_or_error (solve_xor_broadcast (map (λ e. e.0) equations) (map (λ e. e.1) equations) width)
      pattern_index

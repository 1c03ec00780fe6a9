-- ===== src/FaultflowCompression/Expansion.antt =====
-- What the seed of a pattern expands to (src/warptap/faultflow_compression.py).
use warptap.Base.{
  ℕ, suc, ltb, ◌==◌, if◌then◌else◌, Bool, true, false, not, List, [], ◌∷◌, ◌++◌, map, Option,
  Result, ok, err, ◌>>=◌, raise_if, >>=-eq-ok, ok-injective, length, get_or, ◌≡◌, refl, sym, ap,
  subst, ◌∙◌, inl, inr, arith,
}
use warptap.Base.Parity.{dot}
use warptap.SibLayout.{bit_of}
use warptap.TapIr.{bits_from_int}
use warptap.FaultflowCompression.{
  CompressionError, no_such_chain, no_seed, wrong_length, LfsrPolynomial, expand, care_bit_rows,
  solve_xor_broadcast,
}
use warptap.FaultflowCompression.Linear.{at, get_or-at, care_bit_rows-expand}
use warptap.FaultflowCompression.Solver.{Solves}
use warptap.FaultflowCompression.Solver.Solution.{solve_xor_broadcast-Solves}
use warptap.FaultflowCompression.Pattern.{
  cares, row_of, equations_of, all_equations, seed_or_error, solve_pattern_seed,
}

-- From one cycle on, the chain takes the values that the pattern gives it, where they matter; the
-- outputs of the cycles are lists by chain.
abbrev pub Agrees : Option (List (ℕ × ℕ)) → ℕ → ℕ → List Bool → List (List ℕ) → Type 0
Agrees load_care chain cycle [] [] = Unit
Agrees load_care chain cycle (value ∷ bits) (output ∷ outputs) =
    (cares load_care chain cycle ≡ true → get_or output chain 0 ≡ bit_of value)
    × Agrees load_care chain (suc cycle) bits outputs
Agrees load_care chain cycle _ _ = false ≡ true

abbrev pub AllAgree : Option (List (ℕ × ℕ)) → List (ℕ × List Bool) → List (List ℕ) → Type 0
AllAgree load_care [] outputs = Unit
AllAgree load_care ((chain, bits) ∷ load_seqs) outputs =
    Agrees load_care chain 0 bits outputs × AllAgree load_care load_seqs outputs

module _ (w seed : ℕ) where
  abbrev Solved : List (ℕ × Bool) → Type 0
  Solved [] = Unit
  Solved ((row, value) ∷ equations) = (dot w row seed ≡ bit_of value) × Solved equations

  Solves-Solved :
      (equations : List (ℕ × Bool))
      → Solves w seed (map (λ e. e.0) equations) (map (λ e. e.1) equations)
      → Solved equations
  Solves-Solved [] h = tt
  Solves-Solved ((row, value) ∷ equations) h = (h.0, Solves-Solved equations h.1)

  Solved-parts : (xs ys : List (ℕ × Bool)) → Solved (xs ++ ys) → Solved xs × Solved ys
  Solved-parts [] ys h = (tt, h)
  Solved-parts (x ∷ xs) ys h = let rest = Solved-parts xs ys h.1 in ((h.0, rest.0), rest.1)

  row_of-ok :
      (row : List ℕ) (chain coefficients : ℕ)
      → row_of row chain ≡ ok coefficients
      → get_or row chain 0 ≡ coefficients
  row_of-ok row chain coefficients h = go (ltb chain (length row)) h
    where
      go :
          (b : Bool)
          → (if b then ok (get_or row chain 0) else err (no_such_chain chain)) ≡ ok coefficients
          → get_or row chain 0 ≡ coefficients
      go true e = ok-injective e
      go false e = cc

  equations_of-Agrees :
      (load_care : Option (List (ℕ × ℕ))) (chain cycle : ℕ) (bits : List Bool)
      (rows : List (List ℕ)) (equations : List (ℕ × Bool))
      → length bits ≡ length rows
      → equations_of load_care chain cycle bits rows ≡ ok equations
      → Solved equations
      → Agrees load_care chain cycle bits (map (map (at w seed)) rows)
  unfolding equations_of
  equations_of-Agrees care chain cycle [] [] equations l h s = tt
  equations_of-Agrees care chain cycle [] (row ∷ rows) equations l h s = absurd (omega arith)
  equations_of-Agrees care chain cycle (value ∷ bits) [] equations l h s = absurd (omega arith)
  equations_of-Agrees care chain cycle (value ∷ bits) (row ∷ rows) equations l h s =
      go (cares care chain cycle) h (equations_of-Agrees care chain (suc cycle) bits rows)
    where
      later : Result CompressionError (List (ℕ × Bool))
      later = equations_of care chain (suc cycle) bits rows

      go :
          (b : Bool)
          → (if b
              then (row_of row chain >>= λ (c : ℕ).
                  later >>= λ (es : List (ℕ × Bool)). ok ((c, value) ∷ es))
              else later)
            ≡ ok equations
          → ((es : List (ℕ × Bool))
              → length bits ≡ length rows
              → later ≡ ok es
              → Solved es
              → Agrees care chain (suc cycle) bits (map (map (at w seed)) rows))
          → (b ≡ true → get_or (map (at w seed) row) chain 0 ≡ bit_of value)
            × Agrees care chain (suc cycle) bits (map (map (at w seed)) rows)
      go false e ih = ((λ x. cc), ih equations (omega arith) e s)
      go true e ih =
          let (c, first, rest) = >>=-eq-ok (row_of row chain) _ e in
          let (es, others, out) = >>=-eq-ok later _ rest in
          let solved : Solved ((c, value) ∷ es) = subst Solved (sym (ok-injective out)) s in
          (
            (λ x.
                sym (get_or-at w seed row chain)
                ∙ ap (at w seed) (row_of-ok row chain c first)
                ∙ solved.0),
            ih es (omega arith) others solved.1,
          )

  all_equations-AllAgree :
      (load_care : Option (List (ℕ × ℕ))) (pattern_index : ℕ) (load_seqs : List (ℕ × List Bool))
      (rows : List (List ℕ)) (equations : List (ℕ × Bool))
      → all_equations load_care pattern_index load_seqs rows ≡ ok equations
      → Solved equations
      → AllAgree load_care load_seqs (map (map (at w seed)) rows)
  unfolding all_equations
  all_equations-AllAgree care i [] rows equations h s = tt
  all_equations-AllAgree care i ((chain, bits) ∷ load_seqs) rows equations h s =
      let (u, same, rest) =
        >>=-eq-ok (raise_if (not (length bits == length rows)) (wrong_length i)) _ h in
      let (es, first, rest') = >>=-eq-ok (equations_of care chain 0 bits rows) _ rest in
      let (others, second, out) = >>=-eq-ok (all_equations care i load_seqs rows) _ rest' in
      let parts = Solved-parts es others (subst Solved (sym (ok-injective out)) s) in
      (
        equations_of-Agrees care chain 0 bits rows es (checked (length bits) (length rows) u same)
            first parts.0,
        all_equations-AllAgree care i load_seqs rows others second parts.1,
      )
    where
      checked : (m n : ℕ) (v : Unit {0}) → raise_if (not (m == n)) (wrong_length i) ≡ ok v → m ≡ n
      checked m n v e = go (m == n) refl e
        where
          go : (b : Bool) → (m == n) ≡ b → raise_if (not b) (wrong_length i) ≡ ok v → m ≡ n
          go true e' x = ground arith
          go false e' x = cc

-- A seed that is found for a pattern is right in the circuit: when the shift register starts with it
-- and is stepped once in each cycle, every chain of the pattern takes in every cycle the value that
-- the pattern gives it, or, if the pattern names its care positions, in every cycle that they name.
pub solve_pattern_seed-AllAgree :
    (poly : LfsrPolynomial) (phase : List (List ℕ)) (cycles : ℕ) (load_seqs : List (ℕ × List Bool))
    (pattern_index : ℕ) (load_care : Option (List (ℕ × ℕ))) (seed : ℕ)
    → solve_pattern_seed load_seqs
        (care_bit_rows poly phase cycles)
        poly.width
        pattern_index
        load_care
      ≡ ok seed
    → AllAgree load_care load_seqs (expand poly phase cycles (bits_from_int seed poly.width))
unfolding solve_pattern_seed
solve_pattern_seed-AllAgree poly phase cycles load_seqs i care seed h =
    let rows = care_bit_rows poly phase cycles in
    let (equations, built, solved) = >>=-eq-ok (all_equations care i load_seqs rows) _ h in
    let solution = found (map (λ e. e.0) equations) (map (λ e. e.1) equations) solved in
    subst (AllAgree care load_seqs) (care_bit_rows-expand poly phase cycles seed) (
      all_equations-AllAgree poly.width seed care i load_seqs rows equations built
        (Solves-Solved poly.width seed equations solution))
  where
    found :
        (lhs : List ℕ) (rhs : List Bool)
        → seed_or_error (solve_xor_broadcast lhs rhs poly.width) i ≡ ok seed
        → Solves poly.width seed lhs rhs
    found lhs rhs e = elim (solve_xor_broadcast-Solves lhs rhs poly.width) [
      | inl (s, some_seed, solves) ↦
          let same : s ≡ seed = ok-injective (sym (ap (λ o. seed_or_error o i) some_seed) ∙ e) in
          subst (λ (n : ℕ). Solves poly.width n lhs rhs) same solves
      | inr (no_one, never) ↦
          let impossible : ◌≡◌ {A = Result CompressionError ℕ} (err (no_seed i)) (ok seed) =
            sym (ap (λ o. seed_or_error o i) no_one) ∙ e in
          cc
    ]

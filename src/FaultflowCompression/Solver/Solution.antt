-- ===== src/FaultflowCompression/Solver/Solution.antt =====
-- The seed that the elimination yields solves the equations, and if it yields none there is none
-- (src/warptap/faultflow_compression.py).
use Prim.Native.Nat.{bit_and, bit_or, max}
use warptap.Base.{
  ℕ, zero, suc, ◌+◌, ◌-◌, ◌/◌, ◌%◌, ◌^◌, ◌<◌, ◌≤◌, ◌==◌, ltb, if◌then◌else◌, Bool, true, false,
  ◌&&◌, List, [], ◌∷◌, none, some, ◌≡◌, refl, sym, ap, ap₂, subst, ◌∙◌, arith, inl, inr, ◌⊎◌,
  Bool-cases,
}
use warptap.Base.BitOf.{bit, bit-lt, bit-suc, bit-zero, bit-bit_and, bit-bit_or, bit-ones, zero-bit}
use warptap.Base.Parity.{dot, common, common-cong, common-bit_or, bit-pow, zero-dot}
use warptap.SibLayout.{bit_of}
use warptap.FaultflowCompression.{
  augment_all, columns, contradictory, seed_from, solve_xor_broadcast,
}
use warptap.FaultflowCompression.Solver.{AllSat, DoneSat, Solves, columns-Sat, augment_all-Sat}
use warptap.FaultflowCompression.Solver.Reduced.{
  Reduced, ZeroInDone, ZeroAt, Below, Low, columns-Reduced,
}

-- A number whose bits are all 0.
no_bits : (n v : ℕ) → v ≤ n → ((k : ℕ) → bit v k ≡ 0) → v ≡ 0
no_bits zero v h z = omega arith
no_bits (suc n) v h z =
    let half = no_bits n (v / 2) (omega arith) (λ k. sym (bit-suc v k) ∙ z (suc k)) in
    omega (arith, half, bit-zero v, z 0)

masked : (w row k : ℕ) → bit (bit_and row (2 ^ w - 1)) k ≡ (if ltb k w then bit row k else 0)
masked w row k = ground (arith, bit-bit_and row (2 ^ w - 1) k, bit-ones w k, bit-lt row k)

-- A row without coefficients.
no_coefficients : (w row s : ℕ) → ((k : ℕ) → k < w → bit row k ≡ 0) → dot w row s ≡ 0
no_coefficients w row s h =
    ap (λ (t : ℕ). t % 2) (common-cong w row 0 s (λ k l. h k l ∙ sym (zero-bit k))) ∙ zero-dot w s

coefficients_zero :
    (w row : ℕ) → (bit_and row (2 ^ w - 1) == 0) ≡ true → (k : ℕ) → k < w → bit row k ≡ 0
coefficients_zero w row h k l =
    let none_left : bit_and row (2 ^ w - 1) ≡ 0 = ground arith in
    let masked_bit : (if ltb k w then bit row k else 0) ≡ 0 =
      sym (masked w row k) ∙ ap (λ (t : ℕ). bit t k) none_left ∙ zero-bit k in
    ground (arith, masked_bit)

zero_coefficients :
    (w row : ℕ) → ((k : ℕ) → k < w → bit row k ≡ 0) → (bit_and row (2 ^ w - 1) == 0) ≡ true
zero_coefficients w row h =
    let none_left : bit_and row (2 ^ w - 1) ≡ 0 =
      no_bits (bit_and row (2 ^ w - 1)) (bit_and row (2 ^ w - 1)) (omega arith)
        (λ k. masked w row k ∙ small k (Bool-cases (ltb k w))) in
    ground arith
  where
    small : (k : ℕ) → (ltb k w ≡ true) ⊎ (ltb k w ≡ false) → (if ltb k w then bit row k else 0) ≡ 0
    small k (inl e) = rw e (h k (ground arith))
    small k (inr e) = rw e refl

-- A contradictory row has no solution.
contradictory-AllSat : (w s : ℕ) (rows : List ℕ) → contradictory w rows ≡ true → ¬ AllSat w s rows
unfolding contradictory
contradictory-AllSat w s [] h all = cc
contradictory-AllSat w s (row ∷ rows) h all =
    elim (Bool-cases (bit_and row (2 ^ w - 1) == 0 && bit row w == 1)) [
      | inl e ↦
          let empty : (bit_and row (2 ^ w - 1) == 0) ≡ true = ground arith in
          let one : bit row w ≡ 1 = ground arith in
          let zero_dot = no_coefficients w row s (coefficients_zero w row empty) in
          absurd (omega (arith, all.0))
      | inr e ↦ contradictory-AllSat w s rows (sym (rw e refl) ∙ h) all.1
    ]

both : (x y r : Bool) → (if x && y then true else r) ≡ false → x ≡ true → (y ≡ false) × (r ≡ false)
both true true r h e = cc
both true false r h e = (refl, h)
both false y r h e = cc

-- Rows without coefficients that do not contradict.
consistent-AllSat :
    (w s : ℕ) (rows : List ℕ) → contradictory w rows ≡ false → Low w rows → AllSat w s rows
unfolding contradictory
consistent-AllSat w s [] h low = tt
consistent-AllSat w s (row ∷ rows) h low =
    let clear : (k : ℕ) → k < w → bit row k ≡ 0 = λ k l. (low k l).0 in
    let empty = zero_coefficients w row clear in
    let (no_rhs, rest) =
      both (bit_and row (2 ^ w - 1) == 0) (bit row w == 1) (contradictory w rows) h empty in
    (
      no_coefficients w row s clear ∙ ground (arith, bit-lt row w, no_rhs),
      consistent-AllSat w s rows rest (λ k l. (low k l).1),
    )

-- What the equations of the pivots contribute to the scalar product of a row with the seed.
abbrev contribution : ℕ → ℕ → List (ℕ × ℕ) → ℕ
contribution w row [] = 0
contribution w row ((c, r) ∷ done) =
    (if bit r w == 1 then bit row c else 0) + contribution w row done

ZeroAt-bit_or :
    (seed c : ℕ) (done : List (ℕ × ℕ))
    → ZeroAt seed done
    → ZeroInDone c done
    → Reduced done
    → ZeroAt (bit_or seed (2 ^ c)) done
ZeroAt-bit_or seed c [] z z' r = tt
ZeroAt-bit_or seed c ((c', row) ∷ done) z z' r = (
  bit-bit_or seed (2 ^ c) c'
      ∙ ap₂ max z.0 (bit-pow c c' ∙ other (Bool-cases (c' == c)))
      ∙ omega arith,
  ZeroAt-bit_or seed c done z.1 z'.1 r.3,
)
  where
    other : ((c' == c) ≡ true) ⊎ ((c' == c) ≡ false) → bit_of (c' == c) ≡ 0
    other (inl e) =
        let same : c' ≡ c = ground arith in
        let one : bit row c ≡ 1 = subst (λ (n : ℕ). bit row n ≡ 1) same r.0 in
        absurd (omega (arith, one, z'.0))
    other (inr e) = rw e refl

seed_from-common :
    (w row : ℕ) (done : List (ℕ × ℕ)) (seed : ℕ)
    → Below w done
    → Reduced done
    → ZeroAt seed done
    → common w row (seed_from w done seed) ≡ common w row seed + contribution w row done
unfolding seed_from
seed_from-common w row [] seed b r z = omega arith
seed_from-common w row ((c, pivot) ∷ done) seed b r z = elim (Bool-cases (bit pivot w == 1)) [
  | inl e ↦
      let added : common w row (bit_or seed (2 ^ c)) ≡ common w row seed + bit row c =
        common-bit_or w row seed c z.0 ∙ ground (arith, b.0) in
      let rest =
        seed_from-common w row done (bit_or seed (2 ^ c)) b.1 r.3
          (ZeroAt-bit_or seed c done z.1 r.1 r.3) in
      rw (seed_from, e) (omega (arith, added, rest))
  | inr e ↦ rw (seed_from, e) (omega (arith, seed_from-common w row done seed b.1 r.3 z.1))
]

contribution-zero :
    (w row : ℕ) (done : List (ℕ × ℕ)) → ZeroAt row done → contribution w row done ≡ 0
contribution-zero w row [] z = refl
contribution-zero w row ((c, r) ∷ done) z = ground (arith, z.0, contribution-zero w row done z.1)

-- To its own equation each pivot contributes the right-hand side and the others nothing.
abbrev Owns : ℕ → List (ℕ × ℕ) → List (ℕ × ℕ) → Type 0
Owns w all [] = Unit
Owns w all ((c, row) ∷ done) = (contribution w row all ≡ bit row w) × Owns w all done

Owns-cons :
    (w c pivot : ℕ) (all done : List (ℕ × ℕ))
    → Owns w all done
    → ZeroInDone c done
    → Owns w ((c, pivot) ∷ all) done
Owns-cons w c pivot all [] o z = tt
Owns-cons w c pivot all ((c', row) ∷ done) o z =
    (ground (arith, o.0, z.0), Owns-cons w c pivot all done o.1 z.1)

Reduced-Owns : (w : ℕ) (done : List (ℕ × ℕ)) → Reduced done → Owns w done done
Reduced-Owns w [] r = tt
Reduced-Owns w ((c, pivot) ∷ done) r = (
  ground (arith, r.0, contribution-zero w pivot done r.2, bit-lt pivot w),
  Owns-cons w c pivot done done (Reduced-Owns w done r.3) r.1,
)

Owns-DoneSat :
    (w s : ℕ) (all done : List (ℕ × ℕ))
    → ((row : ℕ) → common w row s ≡ contribution w row all)
    → Owns w all done
    → DoneSat w s done
Owns-DoneSat w s all [] h o = tt
Owns-DoneSat w s all ((c, row) ∷ done) h o =
    (omega (arith, h row, o.0, bit-lt row w), Owns-DoneSat w s all done h o.1)

common-zero : (w row : ℕ) → common w row 0 ≡ 0
common-zero zero row = refl
common-zero (suc w) row = omega (arith, zero-bit w, common-zero w row)

zero-ZeroAt : (done : List (ℕ × ℕ)) → ZeroAt 0 done
zero-ZeroAt [] = tt
zero-ZeroAt ((c, row) ∷ done) = (zero-bit c, zero-ZeroAt done)

zero-Low : (rows : List ℕ) → Low 0 rows
zero-Low rows k l = absurd (omega arith)

-- Either `solve_xor_broadcast` returns a seed, and it solves every equation: the exclusive or of the
-- seed's bits that a row names is the row's right-hand side; or it returns None, and no seed solves
-- them all.
pub solve_xor_broadcast-Solves :
    (rows : List ℕ) (rhs : List Bool) (width : ℕ)
    → ((seed : ℕ) × (solve_xor_broadcast rows rhs width ≡ some seed) × Solves width seed rows rhs)
      ⊎ ((solve_xor_broadcast rows rhs width ≡ none) × ((s : ℕ) → ¬ Solves width s rows rhs))
unfolding solve_xor_broadcast
solve_xor_broadcast-Solves rows rhs width =
    let given = augment_all width rows rhs in
    let out = columns width 0 ([], given) in
    let (reduced, below, low) = columns-Reduced width 0 [] given tt tt (zero-Low given) in
    let below' : Below width out.0 =
      subst (λ (n : ℕ). Below n out.0) {x = 0 + width} {y = width} (omega arith) below in
    let low' : Low width out.1 =
      subst (λ (n : ℕ). Low n out.1) {x = 0 + width} {y = width} (omega arith) low in
    elim (Bool-cases (contradictory width out.1)) [
      | inl e ↦ inr (
        rw e refl,
        λ s solved.
            contradictory-AllSat width s out.1 e
              ((columns-Sat width s width 0 [] given).1
                (tt, (augment_all-Sat width s rows rhs).1 solved)).1,
      )
      | inr e ↦
          let seed = seed_from width out.0 0 in
          let sums : (row : ℕ) → common width row seed ≡ contribution width row out.0 = λ row.
            seed_from-common width row out.0 0 below' reduced (zero-ZeroAt out.0)
            ∙ omega (arith, common-zero width row) in
          let done_sat =
            Owns-DoneSat width seed out.0 out.0 sums (Reduced-Owns width out.0 reduced) in
          let rest_sat = consistent-AllSat width seed out.1 e low' in
          inl (
            seed,
            rw e refl,
            (augment_all-Sat width seed rows rhs).0
                ((columns-Sat width seed width 0 [] given).0 (done_sat, rest_sat)).1,
          )
    ]

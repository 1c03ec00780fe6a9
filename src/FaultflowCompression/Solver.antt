-- ===== src/FaultflowCompression/Solver.antt =====
-- The elimination keeps the solutions of the equations (src/warptap/faultflow_compression.py).
pub mod Reduced
pub mod Solution
use Prim.Native.Nat.{bit_and, bit_or, bit_xor, differ, min, max}
use warptap.Base.{
  ℕ, zero, suc, ◌+◌, ◌-◌, ◌%◌, ◌^◌, ◌<◌, ◌==◌, ltb, if◌then◌else◌, Bool, true, false, ◌&&◌, List,
  [], ◌∷◌, ◌++◌, map, Option, none, some, ◌≡◌, refl, sym, ap, ap₂, subst, ◌∙◌, ◌↔◌, arith,
  Bool-cases, inl, inr, ◌⊎◌,
}
use warptap.Base.BitOf.{bit, bit-lt, bit-bit_and, bit-bit_or, bit-bit_xor, bit-ones, zero-bit}
use warptap.Base.Parity.{dot, common, dot-bit_xor, differ-sum, common-cong, bit-pow}
use warptap.SibLayout.{bit_of}
use warptap.FaultflowCompression.{augment, augment_all, select, swapped, eliminate, Rows, columns}

abbrev pub reduce : ℕ → ℕ → List (ℕ × ℕ) → List (ℕ × ℕ)
reduce col pivot done = map (λ r. (r.0, eliminate col pivot r.1)) done

module _ (w s : ℕ) where
  -- The seed solves the equation of a row that has its right-hand side at bit `w`.
  abbrev pub Sat : ℕ → Type 0
  Sat row = dot w row s ≡ bit row w

  abbrev pub AllSat : List ℕ → Type 0
  AllSat [] = Unit
  AllSat (row ∷ rows) = Sat row × AllSat rows

  abbrev pub DoneSat : List (ℕ × ℕ) → Type 0
  DoneSat [] = Unit
  DoneSat ((col, row) ∷ done) = Sat row × DoneSat done

  -- The seed solves the equations as they were given.
  abbrev pub Solves : List ℕ → List Bool → Type 0
  Solves [] rhs = Unit
  Solves (row ∷ rows) [] = Unit
  Solves (row ∷ rows) (r ∷ rhs) = (dot w row s ≡ bit_of r) × Solves rows rhs

  xor_bit : (a b : ℕ) → bit (bit_xor a b) w ≡ (bit a w + bit b w) % 2
  xor_bit a b = bit-bit_xor a b w ∙ differ-sum (bit a w) (bit b w) (bit-lt a w) (bit-lt b w)

  Sat-bit_xor : (a b : ℕ) → Sat b → Sat (bit_xor a b) ↔ Sat a
  Sat-bit_xor a b h = (
    λ e. omega (arith, xor_bit a b, dot-bit_xor w a b s, bit-lt a w, bit-lt b w),
    λ e. omega (arith, xor_bit a b, dot-bit_xor w a b s),
  )

  Sat-eliminate : (col pivot row : ℕ) → Sat pivot → Sat (eliminate col pivot row) ↔ Sat row
  Sat-eliminate col pivot row h = go (bit row col == 1)
    where
      go : (b : Bool) → Sat (if b then bit_xor row pivot else row) ↔ Sat row
      go true = Sat-bit_xor row pivot h
      go false = (λ e. e, λ e. e)

  AllSat-eliminate :
      (col pivot : ℕ) (rows : List ℕ)
      → Sat pivot
      → AllSat (map (eliminate col pivot) rows) ↔ AllSat rows
  AllSat-eliminate col pivot [] h = (λ e. e, λ e. e)
  AllSat-eliminate col pivot (row ∷ rows) h =
      let one = Sat-eliminate col pivot row h in
      let all = AllSat-eliminate col pivot rows h in
      (λ e. (one.0 e.0, all.0 e.1), λ e. (one.1 e.0, all.1 e.1))

  DoneSat-snoc :
      (col pivot : ℕ) (done : List (ℕ × ℕ))
      → Sat pivot
      → DoneSat (reduce col pivot done ++ (col, pivot) ∷ []) ↔ DoneSat done
  DoneSat-snoc col pivot [] h = (λ e. tt, λ e. (h, tt))
  DoneSat-snoc col pivot ((c, row) ∷ done) h =
      let one = Sat-eliminate col pivot row h in
      let all = DoneSat-snoc col pivot done h in
      (λ e. (one.0 e.0, all.0 e.1), λ e. (one.1 e.0, all.1 e.1))

  last-Sat : (col pivot : ℕ) (done : List (ℕ × ℕ)) → DoneSat (done ++ (col, pivot) ∷ []) → Sat pivot
  last-Sat col pivot [] e = e.0
  last-Sat col pivot (r ∷ done) e = last-Sat col pivot done e.1

  AllSat-append : (xs ys : List ℕ) → AllSat (xs ++ ys) ↔ (AllSat xs × AllSat ys)
  AllSat-append [] ys = (λ e. (tt, e), λ e. e.1)
  AllSat-append (x ∷ xs) ys =
      let all = AllSat-append xs ys in
      (λ e. ((e.0, (all.0 e.1).0), (all.0 e.1).1), λ e. (e.0.0, all.1 (e.0.1, e.1)))

  AllSat-swapped :
      (before after : List ℕ) (pivot : ℕ)
      → AllSat (before ++ pivot ∷ after) ↔ (Sat pivot × AllSat (swapped before after))
  AllSat-swapped [] after pivot = (λ e. e, λ e. e)
  AllSat-swapped (first ∷ before) after pivot =
      let all = AllSat-append before (pivot ∷ after) in
      let all' = AllSat-append before (first ∷ after) in
      (
        λ e. let parts = all.0 e.1 in (parts.1.0, all'.1 (parts.0, (e.0, parts.1.1))),
        λ e. let parts = all'.0 e.1 in (parts.1.0, all.1 (parts.0, (e.0, parts.1.1))),
      )

-- No row has a bit in the column.
abbrev pub ZeroIn : ℕ → List ℕ → Type 0
ZeroIn k [] = Unit
ZeroIn k (row ∷ rows) = (bit row k ≡ 0) × ZeroIn k rows

pub select-cases :
    (col : ℕ) (rows : List ℕ)
    → ((before : List ℕ) × (pivot : ℕ) × (after : List ℕ) × (select col rows
          ≡ some (before, pivot, after))
        × (rows ≡ before ++ pivot ∷ after)
        × (bit pivot col ≡ 1))
      ⊎ ((select col rows ≡ none) × ZeroIn col rows)
unfolding select
select-cases col [] = inr (refl, tt)
select-cases col (row ∷ rows) = elim (Bool-cases (bit row col == 1)) [
  | inl hit ↦ inl ([], row, rows, rw hit refl, refl, ground arith)
  | inr miss ↦
      let zero_bit : bit row col ≡ 0 = ground (arith, bit-lt row col) in
      elim (select-cases col rows) [
        | inl (before, pivot, after, e, split, one) ↦
            inl (
              row ∷ before,
              pivot,
              after,
              rw (miss, e) refl,
              ap (λ (t : List ℕ). row ∷ t) split,
              one,
            )
        | inr (e, zeros) ↦ inr (rw (miss, e) refl, (zero_bit, zeros))
      ]
]

-- A seed solves the equations before the loop over the columns if and only if it solves those after
-- it.
pub columns-Sat :
    (w s count col : ℕ) (done : List (ℕ × ℕ)) (rest : List ℕ)
    → (DoneSat w s (columns count col (done, rest)).0
        × AllSat w s (columns count col (done, rest)).1)
      ↔ (DoneSat w s done × AllSat w s rest)
unfolding columns
columns-Sat w s zero col done rest = (λ e. e, λ e. e)
columns-Sat w s (suc count) col done rest = elim (select-cases col rest) [
  | inr (e, zeros) ↦ rw (columns, e) (columns-Sat w s count (suc col) done rest)
  | inl (before, pivot, after, e, split, one) ↦
      let done' = reduce col pivot done ++ (col, pivot) ∷ [] in
      let rest' = map (eliminate col pivot) (swapped before after) in
      let later = columns-Sat w s count (suc col) done' rest' in
      let parts = AllSat-swapped w s before after pivot in
      rw (columns, e)
        (
          λ h.
              let (d, r) = later.0 h in
              let p = last-Sat w s col pivot (reduce col pivot done) d in
              (
                (DoneSat-snoc w s col pivot done p).0 d,
                subst (AllSat w s) (sym split)
                    (parts.1 (p, (AllSat-eliminate w s col pivot (swapped before after) p).0 r)),
              ),
          λ h.
              let (p, r) = parts.0 (subst (AllSat w s) split h.1) in
              later.1 (
                (DoneSat-snoc w s col pivot done p).1 h.0,
                (AllSat-eliminate w s col pivot (swapped before after) p).1 r,
              ),
        )
]

pub bit-augment :
    (w row k : ℕ) (r : Bool)
    → bit (augment w row r) k ≡ (if ltb k w then bit row k else (if k == w then bit_of r else 0))
bit-augment w row k true = ground (
  arith,
  bit-bit_or (bit_and row (2 ^ w - 1)) (2 ^ w) k,
  bit-bit_and row (2 ^ w - 1) k,
  bit-ones w k,
  bit-pow w k,
  bit-lt row k,
)
bit-augment w row k false = ground (
  arith,
  bit-bit_or (bit_and row (2 ^ w - 1)) 0 k,
  bit-bit_and row (2 ^ w - 1) k,
  bit-ones w k,
  zero-bit k,
  bit-lt row k,
)

augment-dot : (w row s : ℕ) (r : Bool) → dot w (augment w row r) s ≡ dot w row s
augment-dot w row s r =
    ap (λ (t : ℕ). t % 2)
      (common-cong w (augment w row r) row s (λ k l. bit-augment w row k r ∙ ground arith))

augment-rhs : (w row : ℕ) (r : Bool) → bit (augment w row r) w ≡ bit_of r
augment-rhs w row r = bit-augment w row w r ∙ ground arith

-- The equations as given and the packed rows have the same solutions.
pub augment_all-Sat :
    (w s : ℕ) (rows : List ℕ) (rhs : List Bool)
    → AllSat w s (augment_all w rows rhs) ↔ Solves w s rows rhs
augment_all-Sat w s [] rhs = (λ e. tt, λ e. tt)
augment_all-Sat w s (row ∷ rows) [] = (λ e. tt, λ e. tt)
augment_all-Sat w s (row ∷ rows) (r ∷ rhs) =
    let all = augment_all-Sat w s rows rhs in
    (
      λ e. (sym (augment-dot w row s r) ∙ e.0 ∙ augment-rhs w row r, all.0 e.1),
      λ e. (augment-dot w row s r ∙ e.0 ∙ sym (augment-rhs w row r), all.1 e.1),
    )

-- ===== src/FaultflowCompression/Solver/Reduced.antt =====
-- The elimination leaves the rows reduced: each pivot column has a bit in its own row only, and the
-- rows left over have no coefficients (src/warptap/faultflow_compression.py).
use Prim.Native.Nat.{bit_xor, differ}
use warptap.Base.{
  ℕ, zero, suc, ◌+◌, ◌<◌, ◌==◌, if◌then◌else◌, Bool, true, false, List, [], ◌∷◌, ◌++◌, map, ◌≡◌,
  refl, sym, ap, subst, ◌∙◌, arith, inl, inr, ◌⊎◌,
}
use warptap.Base.BitOf.{bit, bit-lt, bit-bit_xor}
use warptap.FaultflowCompression.{swapped, eliminate, Rows, columns}
use warptap.FaultflowCompression.Solver.{ZeroIn, select-cases, reduce}

-- No row of the pivots has a bit in the column; the row has none in their columns.
abbrev pub ZeroInDone : ℕ → List (ℕ × ℕ) → Type 0
ZeroInDone k [] = Unit
ZeroInDone k ((c, row) ∷ done) = (bit row k ≡ 0) × ZeroInDone k done

abbrev pub ZeroAt : ℕ → List (ℕ × ℕ) → Type 0
ZeroAt row [] = Unit
ZeroAt row ((c, other) ∷ done) = (bit row c ≡ 0) × ZeroAt row done

abbrev pub Reduced : List (ℕ × ℕ) → Type 0
Reduced [] = Unit
Reduced ((c, row) ∷ done) = (bit row c ≡ 1) × ZeroInDone c done × ZeroAt row done × Reduced done

-- The pivot columns are below `n`.
abbrev pub Below : ℕ → List (ℕ × ℕ) → Type 0
Below n [] = Unit
Below n ((c, row) ∷ done) = (c < n) × Below n done

-- No row has a bit in the columns below `n`.
abbrev pub Low : ℕ → List ℕ → Type 0
Low n rows = (k : ℕ) → k < n → ZeroIn k rows

eliminate-other :
    (col pivot row k : ℕ) → bit pivot k ≡ 0 → bit (eliminate col pivot row) k ≡ bit row k
eliminate-other col pivot row k h = go (bit row col == 1)
  where
    go : (b : Bool) → bit (if b then bit_xor row pivot else row) k ≡ bit row k
    go true = bit-bit_xor row pivot k ∙ ap (differ (bit row k)) h ∙ same (bit row k)
      where
        same : (x : ℕ) → differ x 0 ≡ x
        same zero = refl
        same (suc x) = refl
    go false = refl

eliminate-col : (col pivot row : ℕ) → bit pivot col ≡ 1 → bit (eliminate col pivot row) col ≡ 0
eliminate-col col pivot row h =
    ground
      (arith, bit-bit_xor row pivot col, one_one (bit row col) (bit pivot col) h, bit-lt row col)
  where
    one_one : (x y : ℕ) → y ≡ 1 → x ≡ 1 → differ x y ≡ 0
    one_one x y e e' = rw (e, e') refl

module _ (col pivot : ℕ) where
  ZeroIn-eliminate :
      (k : ℕ) (rows : List ℕ)
      → bit pivot k ≡ 0
      → ZeroIn k rows
      → ZeroIn k (map (eliminate col pivot) rows)
  ZeroIn-eliminate k [] h z = tt
  ZeroIn-eliminate k (row ∷ rows) h z =
      (eliminate-other col pivot row k h ∙ z.0, ZeroIn-eliminate k rows h z.1)

  ZeroIn-col : (rows : List ℕ) → bit pivot col ≡ 1 → ZeroIn col (map (eliminate col pivot) rows)
  ZeroIn-col [] h = tt
  ZeroIn-col (row ∷ rows) h = (eliminate-col col pivot row h, ZeroIn-col rows h)

  ZeroInDone-reduce :
      (k : ℕ) (done : List (ℕ × ℕ))
      → bit pivot k ≡ 0
      → ZeroInDone k done
      → ZeroInDone k (reduce col pivot done)
  ZeroInDone-reduce k [] h z = tt
  ZeroInDone-reduce k ((c, row) ∷ done) h z =
      (eliminate-other col pivot row k h ∙ z.0, ZeroInDone-reduce k done h z.1)

  ZeroInDone-col :
      (done : List (ℕ × ℕ)) → bit pivot col ≡ 1 → ZeroInDone col (reduce col pivot done)
  ZeroInDone-col [] h = tt
  ZeroInDone-col ((c, row) ∷ done) h = (eliminate-col col pivot row h, ZeroInDone-col done h)

  -- The pivot has no bit in the columns of the pivots before it.
  ZeroAt-reduce :
      (row : ℕ) (done : List (ℕ × ℕ))
      → ZeroAt pivot done
      → ZeroAt row done
      → ZeroAt (eliminate col pivot row) (reduce col pivot done)
  ZeroAt-reduce row [] h z = tt
  ZeroAt-reduce row ((c, other) ∷ done) h z =
      (eliminate-other col pivot row c h.0 ∙ z.0, ZeroAt-reduce row done h.1 z.1)

  ZeroAt-pivot : (done : List (ℕ × ℕ)) → ZeroAt pivot done → ZeroAt pivot (reduce col pivot done)
  ZeroAt-pivot [] h = tt
  ZeroAt-pivot ((c, other) ∷ done) h = (h.0, ZeroAt-pivot done h.1)

  Below-reduce :
      (n : ℕ) (done : List (ℕ × ℕ))
      → Below n done
      → col < suc n
      → Below (suc n) (reduce col pivot done ++ (col, pivot) ∷ [])
  Below-reduce n [] b h = (h, tt)
  Below-reduce n ((c, row) ∷ done) b h = (omega (arith, b.0), Below-reduce n done b.1 h)

  ZeroInDone-snoc :
      (k : ℕ) (done : List (ℕ × ℕ))
      → ZeroInDone k done
      → bit pivot k ≡ 0
      → ZeroInDone k (done ++ (col, pivot) ∷ [])
  ZeroInDone-snoc k [] z h = (h, tt)
  ZeroInDone-snoc k (r ∷ done) z h = (z.0, ZeroInDone-snoc k done z.1 h)

  ZeroAt-snoc :
      (row : ℕ) (done : List (ℕ × ℕ))
      → ZeroAt row done
      → bit row col ≡ 0
      → ZeroAt row (done ++ (col, pivot) ∷ [])
  ZeroAt-snoc row [] z h = (h, tt)
  ZeroAt-snoc row (r ∷ done) z h = (z.0, ZeroAt-snoc row done z.1 h)

  Reduced-step :
      (done : List (ℕ × ℕ))
      → bit pivot col ≡ 1
      → ZeroAt pivot done
      → Reduced done
      → Reduced (reduce col pivot done ++ (col, pivot) ∷ [])
  Reduced-step [] h z r = (h, tt, tt, tt)
  Reduced-step ((c, row) ∷ done) h z r = (
    eliminate-other col pivot row c z.0 ∙ r.0,
    ZeroInDone-snoc c (reduce col pivot done) (ZeroInDone-reduce c done z.0 r.1) z.0,
    ZeroAt-snoc (eliminate col pivot row) (reduce col pivot done) (ZeroAt-reduce row done z.1 r.2)
        (eliminate-col col pivot row h),
    Reduced-step done h z.1 r.3,
  )

ZeroIn-append : (k : ℕ) (xs ys : List ℕ) → ZeroIn k xs → ZeroIn k ys → ZeroIn k (xs ++ ys)
ZeroIn-append k [] ys z z' = z'
ZeroIn-append k (x ∷ xs) ys z z' = (z.0, ZeroIn-append k xs ys z.1 z')

ZeroIn-parts : (k : ℕ) (xs ys : List ℕ) → ZeroIn k (xs ++ ys) → ZeroIn k xs × ZeroIn k ys
ZeroIn-parts k [] ys z = (tt, z)
ZeroIn-parts k (x ∷ xs) ys z = let rest = ZeroIn-parts k xs ys z.1 in ((z.0, rest.0), rest.1)

ZeroIn-swapped :
    (k : ℕ) (before after : List ℕ) (pivot : ℕ)
    → ZeroIn k (before ++ pivot ∷ after)
    → (bit pivot k ≡ 0) × ZeroIn k (swapped before after)
ZeroIn-swapped k [] after pivot z = z
ZeroIn-swapped k (first ∷ before) after pivot z =
    let (xs, ys) = ZeroIn-parts k before (pivot ∷ after) z.1 in
    (ys.0, ZeroIn-append k before (first ∷ after) xs (z.0, ys.1))

-- A row without bits in the columns below `n` has none in the columns of pivots below `n`.
ZeroAt-low :
    (n pivot : ℕ) (done : List (ℕ × ℕ))
    → Below n done
    → ((k : ℕ) → k < n → bit pivot k ≡ 0)
    → ZeroAt pivot done
ZeroAt-low n pivot [] b h = tt
ZeroAt-low n pivot ((c, row) ∷ done) b h = (h c b.0, ZeroAt-low n pivot done b.1 h)

Below-suc : (n : ℕ) (done : List (ℕ × ℕ)) → Below n done → Below (suc n) done
Below-suc n [] b = tt
Below-suc n ((c, row) ∷ done) b = (omega (arith, b.0), Below-suc n done b.1)

last_or_below : (k n : ℕ) → k < suc n → (k ≡ n) ⊎ (k < n)
last_or_below k n small = omega arith

-- After the loop over the columns from `col` on.
pub columns-Reduced :
    (count col : ℕ) (done : List (ℕ × ℕ)) (rest : List ℕ)
    → Reduced done
    → Below col done
    → Low col rest
    → Reduced (columns count col (done, rest)).0
      × Below (col + count) (columns count col (done, rest)).0
      × Low (col + count) (columns count col (done, rest)).1
unfolding columns
columns-Reduced zero col done rest r b l =
    let same : col ≡ col + 0 = omega arith in
    (r, subst (λ (n : ℕ). Below n done) same b, subst (λ (n : ℕ). Low n rest) same l)
columns-Reduced (suc count) col done rest r b l =
    let next : suc col + count ≡ col + suc count = omega arith in
    elim (select-cases col rest) [
      | inr (e, zeros) ↦
          rw (columns, e)
            (from next (done, rest)
              (columns-Reduced count (suc col) done rest r (Below-suc col done b)
                (raise rest l zeros)))
      | inl (before, pivot, after, e, split, one) ↦
          let parts : (k : ℕ) → k < col → (bit pivot k ≡ 0) × ZeroIn k (swapped before after) =
            λ k small. ZeroIn-swapped k before after pivot (subst (ZeroIn k) split (l k small)) in
          let clear = ZeroAt-low col pivot done b (λ k small. (parts k small).0) in
          let done' = reduce col pivot done ++ (col, pivot) ∷ [] in
          let rest' = map (eliminate col pivot) (swapped before after) in
          let low : Low col rest' = λ k small.
            ZeroIn-eliminate col pivot k (swapped before after) (parts k small).0
              (parts k small).1 in
          rw (columns, e)
            (from next (done', rest')
              (columns-Reduced count (suc col) done' rest' (Reduced-step col pivot done one clear r)
                (Below-reduce col pivot col done b (omega arith))
                (raise rest' low (ZeroIn-col col pivot (swapped before after) one))))
    ]
  where
    from :
        suc col + count ≡ col + suc count
        → (state : Rows)
        → Reduced (columns count (suc col) state).0
          × Below (suc col + count) (columns count (suc col) state).0
          × Low (suc col + count) (columns count (suc col) state).1
        → Reduced (columns count (suc col) state).0
          × Below (col + suc count) (columns count (suc col) state).0
          × Low (col + suc count) (columns count (suc col) state).1
    from e state h =
        subst
          (λ (n : ℕ).
            Reduced (columns count (suc col) state).0
            × Below n (columns count (suc col) state).0
            × Low n (columns count (suc col) state).1)
          e h

    raise : (rows : List ℕ) → Low col rows → ZeroIn col rows → Low (suc col) rows
    raise rows low here k small = elim (last_or_below k col small) [
      | inl e ↦ subst (λ (n : ℕ). ZeroIn n rows) (sym e) here
      | inr lt ↦ low k lt
    ]

-- ===== src/SibOvershift/Verdict.antt =====
-- What the diagnosis of an over-shift test says (src/warptap/sib_overshift.py).
use warptap.Base.{
  ℕ, suc, ◌<◌, ◌==◌, if◌then◌else◌, Bool, true, false, List, [], ◌∷◌, length, take, get_or, ◌≡◌,
  ◌≢◌, refl, sym, ap, ◌∙◌, ◌⊎◌, inl, inr, arith, subst, ◌↔◌, ==_iff,
}
use warptap.TapIr.{bits_from_int}
use warptap.TapIr.Packing.{length-bits_from_int}
use warptap.SibOvershift.{
  matching, constant_output, diverges_after, is_constant, agree, diagnose_overshift,
}

-- The first place at which two lists differ, or their end.
abbrev FirstDifference : ℕ → List ℕ → List ℕ → Type 0
FirstDifference k es os =
    (take k es ≡ take k os)
    × ((k ≡ length es) ⊎ ((k < length es) × (get_or es k 0 ≢ get_or os k 0)))

agree-FirstDifference :
    (es os : List ℕ) → length es ≡ length os → FirstDifference (agree es os) es os
unfolding agree
agree-FirstDifference [] os h = (refl, inl refl)
agree-FirstDifference (e ∷ es) [] h = absurd (omega arith)
agree-FirstDifference (e ∷ es) (o ∷ os) h =
    go (e == o) refl (agree-FirstDifference es os (omega arith))
  where
    go :
        (b : Bool)
        → (e == o) ≡ b
        → FirstDifference (agree es os) es os
        → FirstDifference (if b then suc (agree es os) else 0) (e ∷ es) (o ∷ os)
    go true same (taken, inl all) = (longer (ground arith) taken, inl (ap suc all))
      where
        longer :
            e ≡ o
            → take (agree es os) es ≡ take (agree es os) os
            → (e ∷ take (agree es os) es) ≡ (o ∷ take (agree es os) os)
        longer p q = cc
    go true same (taken, inr (less, other)) =
        (longer (ground arith) taken, inr (omega arith, other))
      where
        longer :
            e ≡ o
            → take (agree es os) es ≡ take (agree es os) os
            → (e ∷ take (agree es os) es) ≡ (o ∷ take (agree es os) os)
        longer p q = cc
    go false same x = (refl, inr (omega arith, λ p. absurd (ground arith)))

-- If the diagnosis is a divergence after k bits, the two values differ, k is at most the number of
-- bits of the probe, the first k bits of both are the same, and either these are all bits of the probe
-- or the next bits differ.
pub diagnose_overshift-diverges_after :
    (probe_bits layout_bits expected observed k : ℕ)
    → (diagnose_overshift probe_bits layout_bits expected observed).diagnosis ≡ diverges_after k
    → (expected ≢ observed)
      × (take k (bits_from_int expected probe_bits) ≡ take k (bits_from_int observed probe_bits))
      × ((k ≡ probe_bits)
          ⊎ ((k < probe_bits)
              × (get_or (bits_from_int expected probe_bits) k 0
                  ≢ get_or (bits_from_int observed probe_bits) k 0)))
unfolding diagnose_overshift
diagnose_overshift-diverges_after n l e o k h = go (e == o) refl (is_constant (bits_from_int o n)) h
  where
    found :
        FirstDifference
          (agree (bits_from_int e n) (bits_from_int o n))
          (bits_from_int e n)
          (bits_from_int o n)
    found =
        agree-FirstDifference (bits_from_int e n) (bits_from_int o n)
          (length-bits_from_int e n ∙ sym (length-bits_from_int o n))

    at_k :
        agree (bits_from_int e n) (bits_from_int o n) ≡ k
        → FirstDifference k (bits_from_int e n) (bits_from_int o n)
    at_k same = subst (λ j. FirstDifference j (bits_from_int e n) (bits_from_int o n)) same found

    sized :
        FirstDifference k (bits_from_int e n) (bits_from_int o n)
        → (take k (bits_from_int e n) ≡ take k (bits_from_int o n))
          × ((k ≡ n)
              ⊎ ((k < n) × (get_or (bits_from_int e n) k 0 ≢ get_or (bits_from_int o n) k 0)))
    sized f =
        subst
          (λ m.
            (take k (bits_from_int e n) ≡ take k (bits_from_int o n))
            × ((k ≡ m)
                ⊎ ((k < m) × (get_or (bits_from_int e n) k 0 ≢ get_or (bits_from_int o n) k 0))))
          (length-bits_from_int e n) f

    go :
        (b : Bool)
        → (e == o) ≡ b
        → (c : Bool)
        → (if b
            then matching
            else if c
            then constant_output
            else diverges_after (agree (bits_from_int e n) (bits_from_int o n)))
          ≡ diverges_after k
        → (e ≢ o)
          × (take k (bits_from_int e n) ≡ take k (bits_from_int o n))
          × ((k ≡ n)
              ⊎ ((k < n) × (get_or (bits_from_int e n) k 0 ≢ get_or (bits_from_int o n) k 0)))
    go true x c h = cc
    go false x true h = cc
    go false x false h = let s = sized (at_k cc) in ((λ p. absurd (ground arith)), s.0, s.1)

impossible : {A : Type 0} → false ≡ true → A
impossible h = cc

-- A test passes exactly if the two values are equal, and then and only then the diagnosis is a match.
pub diagnose_overshift-passed :
    (probe_bits layout_bits expected observed : ℕ)
    → let r = diagnose_overshift probe_bits layout_bits expected observed in
      ((r.passed ≡ true) ↔ (expected ≡ observed))
      × ((r.diagnosis ≡ matching) ↔ (expected ≡ observed))
unfolding diagnose_overshift
diagnose_overshift-passed n l e o =
    (==_iff e o, go (e == o) (==_iff e o) (is_constant (bits_from_int o n)))
  where
    go :
        (b : Bool)
        → ((b ≡ true) ↔ (e ≡ o))
        → (c : Bool)
        → ((if b
              then matching
              else if c
              then constant_output
              else diverges_after (agree (bits_from_int e n) (bits_from_int o n)))
            ≡ matching)
          ↔ (e ≡ o)
    go true f c = ((λ x. f.0 refl), (λ x. refl))
    go false f true = ((λ x. cc), (λ p. impossible (f.1 p)))
    go false f false = ((λ x. cc), (λ p. impossible (f.1 p)))

-- ===== src/SibModel/Writes.antt =====
-- Writing a list of values to a list of references, one after the other (the loop of `shift` in
-- src/warptap/sib_model.py).
use warptap.Base.{
  ℕ, zero, suc, ◌≤◌, ◌<◌, List, [], ◌∷◌, ◌++◌, map, reverse, ◌≡◌, refl, sym, ap, ap₂, ◌∙◌, arith,
  length, take, drop, set, append_assoc, append-nil, reverse-cons, drop_all,
}
use warptap.TapIr.{for_range}

module _ {S Ref : Type 0} (put : S → Ref → ℕ → S) where
  unfoldable pub write_all : S → List Ref → List ℕ → S
  write_all s [] vs = s
  write_all s (r ∷ rs) [] = s
  write_all s (r ∷ rs) (v ∷ vs) = write_all (put s r v) rs vs

  pub write_all-append :
      (s : S) (rs qs : List Ref) (vs : List ℕ)
      → write_all s (rs ++ qs) vs ≡ write_all (write_all s rs vs) qs (drop (length rs) vs)
  unfolding write_all
  write_all-append s [] qs vs = refl
  write_all-append s (r ∷ rs) [] [] = refl
  write_all-append s (r ∷ rs) (q ∷ qs) [] = refl
  write_all-append s (r ∷ rs) qs (v ∷ vs) = write_all-append (put s r v) rs qs vs

-- Writes to a part of a state.
pub write_all-part :
    {S T Ref Sub : Type 0} (put : S → Ref → ℕ → S) (put_sub : T → Sub → ℕ → T) (embed : T → S)
    (outer : Sub → Ref)
    → ((t : T) (r : Sub) (v : ℕ) → put (embed t) (outer r) v ≡ embed (put_sub t r v))
    → (t : T) (rs : List Sub) (vs : List ℕ)
    → write_all put (embed t) (map outer rs) vs ≡ embed (write_all put_sub t rs vs)
unfolding write_all
write_all-part put put_sub embed outer same t [] vs = refl
write_all-part put put_sub embed outer same t (r ∷ rs) [] = refl
write_all-part put put_sub embed outer same t (r ∷ rs) (v ∷ vs) =
    ap (λ x. write_all put x (map outer rs) vs) (same t r v)
    ∙ write_all-part put put_sub embed outer same (put_sub t r v) rs vs

abbrev pub index : ℕ → ℕ
index k = k

-- Indices from below `w` down to 0.
abbrev pub descending : ℕ → List ℕ
descending zero = []
descending (suc w) = w ∷ descending w

set-at : (pre xs : List ℕ) (x v : ℕ) → set (pre ++ x ∷ xs) (length pre) v ≡ pre ++ v ∷ xs
set-at [] xs x v = refl
set-at (p ∷ pre) xs x v = ap (λ (t : List ℕ). p ∷ t) (set-at pre xs x v)

length-snoc : (pre : List ℕ) (v : ℕ) → length (pre ++ v ∷ []) ≡ suc (length pre)
length-snoc [] v = refl
length-snoc (p ∷ pre) v = ap suc (length-snoc pre v)

-- Writing all positions in ascending order replaces a list.
ascending_from :
    (pre xs vs : List ℕ)
    → length xs ≤ length vs
    → write_all set (pre ++ xs) (for_range (length pre) (length xs) index) vs
      ≡ pre ++ take (length xs) vs
unfolding write_all for_range
ascending_from pre [] vs h = refl
ascending_from pre (x ∷ xs) [] h = absurd (omega arith)
ascending_from pre (x ∷ xs) (v ∷ vs) h =
    ap₂ (λ (l : List ℕ) (n : ℕ). write_all set l (for_range n (length xs) index) vs)
      (set-at pre xs x v ∙ sym (append_assoc pre (v ∷ []) xs)) (sym (length-snoc pre v))
    ∙ ascending_from (pre ++ v ∷ []) xs vs (omega arith)
    ∙ append_assoc pre (v ∷ []) (take (length xs) vs)

pub write_all-ascending :
    (xs vs : List ℕ)
    → length xs ≤ length vs
    → write_all set xs (for_range 0 (length xs) index) vs ≡ take (length xs) vs
write_all-ascending xs vs h = ascending_from [] xs vs h

length-set : (xs : List ℕ) (k v : ℕ) → length (set xs k v) ≡ length xs
length-set [] k v = refl
length-set (x ∷ xs) zero v = refl
length-set (x ∷ xs) (suc k) v = ap suc (length-set xs k v)

drop-set : (xs : List ℕ) (k v : ℕ) → k < length xs → drop k (set xs k v) ≡ v ∷ drop (suc k) xs
drop-set [] k v h = absurd (omega arith)
drop-set (x ∷ xs) zero v h = refl
drop-set (x ∷ xs) (suc k) v h = drop-set xs k v (omega arith)

descending_to :
    (w : ℕ) (xs vs : List ℕ)
    → w ≤ length xs
    → w ≤ length vs
    → write_all set xs (descending w) vs ≡ reverse (take w vs) ++ drop w xs
unfolding write_all
descending_to zero xs vs h k = refl
descending_to (suc w) xs [] h k = absurd (omega arith)
descending_to (suc w) xs (v ∷ vs) h k =
    descending_to w (set xs w v) vs (omega (arith, length-set xs w v)) (omega arith)
    ∙ ap (λ (t : List ℕ). reverse (take w vs) ++ t) (drop-set xs w v h)
    ∙ sym (append_assoc (reverse (take w vs)) (v ∷ []) (drop (suc w) xs))
    ∙ ap (λ (t : List ℕ). t ++ drop (suc w) xs) (sym (reverse-cons v (take w vs)))

-- Writing all positions in descending order replaces a list by the reverse.
pub write_all-descending :
    (xs vs : List ℕ)
    → length xs ≤ length vs
    → write_all set xs (descending (length xs)) vs ≡ reverse (take (length xs) vs)
write_all-descending xs vs h =
    descending_to (length xs) xs vs (omega arith) h
    ∙ ap (λ (t : List ℕ). reverse (take (length xs) vs) ++ t) (drop_all xs)
    ∙ append-nil (reverse (take (length xs) vs))

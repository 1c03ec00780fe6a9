-- ===== src/SibRetarget/OnePath.antt =====
-- The rounds for one slot, from a network with nothing open (src/warptap/sib_retarget.py).
use warptap.Base.{
  ℕ, zero, suc, ◌+◌, ◌-◌, ◌<◌, ltb, leb, if◌then◌else◌, Bool, true, false, List, [], ◌∷◌, ◌++◌,
  none, some, String, same_name, ok, ◌>>=◌, ◌≡◌, refl, sym, ap, ap₂, ◌∙◌, arith, length, take,
  append_assoc, append-nil,
}
use warptap.TapIr.{for_range}
use warptap.IclModel.{Chain}
use warptap.SibLayout.{OpenMap, names, normalize_open}
use warptap.SibRetarget.{
  DepthMap, enter, enter_path, enter_paths, paths_to, max_depth, first_new_depth, round_map, rounds,
  path_to_sib_name, stage_open_sequence,
}

abbrev named : String → List (String × ℕ) → Bool
named name [] = false
named name ((n, v) ∷ p) = if same_name name n then true else named name p

-- No name occurs twice.
abbrev pub Distinct : List (String × ℕ) → Type 0
Distinct [] = Unit
Distinct ((name, value) ∷ p) = (named name p ≡ false) × Distinct p

-- The steps with their depths.
abbrev numbered : ℕ → List (String × ℕ) → DepthMap
numbered d [] = []
numbered d ((name, value) ∷ p) = (name, d, value) ∷ numbered (suc d) p

abbrev held : String → DepthMap → Bool
held name [] = false
held name ((n, d, v) ∷ m) = if same_name n name then true else held name m

enter_new :
    (name : String) (d v : ℕ) (m : DepthMap)
    → held name m ≡ false
    → enter name d v m ≡ m ++ ((name, d, v) ∷ [])
unfolding enter
enter_new name d v [] h = refl
enter_new name d v ((n, d', v') ∷ m) h = go (same_name n name) h (enter_new name d v m)
  where
    go :
        (b : Bool)
        → (if b then true else held name m) ≡ false
        → (held name m ≡ false → enter name d v m ≡ m ++ ((name, d, v) ∷ []))
        → (if b then (n, d, v) ∷ m else (n, d', v') ∷ enter name d v m)
          ≡ (n, d', v') ∷ (m ++ ((name, d, v) ∷ []))
    go true e r = cc
    go false e r = ap (λ (t : DepthMap). (n, d', v') ∷ t) (r e)

-- None of the steps is held yet.
abbrev Fresh : List (String × ℕ) → DepthMap → Type 0
Fresh [] m = Unit
Fresh ((name, value) ∷ p) m = (held name m ≡ false) × Fresh p m

held-snoc :
    (name other : String) (d v : ℕ) (m : DepthMap)
    → held name m ≡ false
    → same_name other name ≡ false
    → held name (m ++ ((other, d, v) ∷ [])) ≡ false
held-snoc name other d v [] h e = rw e refl
held-snoc name other d v ((n, d', v') ∷ m) h e =
    go (same_name n name) h (λ x. held-snoc name other d v m x e)
  where
    go :
        (b : Bool)
        → (if b then true else held name m) ≡ false
        → (held name m ≡ false → held name (m ++ ((other, d, v) ∷ [])) ≡ false)
        → (if b then true else held name (m ++ ((other, d, v) ∷ []))) ≡ false
    go true x r = cc
    go false x r = r x

Fresh-snoc :
    (p : List (String × ℕ)) (other : String) (d v : ℕ) (m : DepthMap)
    → Fresh p m
    → named other p ≡ false
    → Fresh p (m ++ ((other, d, v) ∷ []))
Fresh-snoc [] other d v m f h = tt
Fresh-snoc ((name, value) ∷ p) other d v m f h =
    go (same_name other name) refl h (Fresh-snoc p other d v m f.1)
  where
    go :
        (b : Bool)
        → same_name other name ≡ b
        → (if b then true else named other p) ≡ false
        → (named other p ≡ false → Fresh p (m ++ ((other, d, v) ∷ [])))
        → Fresh ((name, value) ∷ p) (m ++ ((other, d, v) ∷ []))
    go true e x r = cc
    go false e x r = (held-snoc name other d v m f.0 e, r x)

enter_path-numbered :
    (p : List (String × ℕ)) (d : ℕ) (m : DepthMap)
    → Distinct p
    → Fresh p m
    → enter_path d p m ≡ m ++ numbered d p
unfolding enter_path
enter_path-numbered [] d m h f = sym (append-nil m)
enter_path-numbered ((name, value) ∷ p) d m h f =
    ap (enter_path (suc d) p) (enter_new name d value m f.0)
    ∙ enter_path-numbered p (suc d) (m ++ ((name, d, value) ∷ [])) h.1
        (Fresh-snoc p name d value m f.1 h.0)
    ∙ append_assoc m ((name, d, value) ∷ []) (numbered (suc d) p)

Fresh-nil : (p : List (String × ℕ)) → Fresh p []
Fresh-nil [] = tt
Fresh-nil ((name, value) ∷ p) = (refl, Fresh-nil p)

max_depth-numbered :
    (x : String × ℕ) (p : List (String × ℕ)) (d : ℕ) → max_depth (numbered d (x ∷ p)) ≡ d + length p
unfolding max_depth
max_depth-numbered (name, value) [] zero = refl
max_depth-numbered (name, value) [] (suc d) = ground arith
max_depth-numbered (name, value) (y ∷ p) d =
    go (max_depth (numbered (suc d) (y ∷ p))) (max_depth-numbered y p (suc d))
  where
    go : (k : ℕ) → k ≡ suc d + length p → (if ltb k d then d else k) ≡ d + suc (length p)
    go k e = ground arith

first_new_depth-numbered :
    (x : String × ℕ) (p : List (String × ℕ)) (d : ℕ)
    → first_new_depth [] (numbered d (x ∷ p)) ≡ some d
unfolding first_new_depth
first_new_depth-numbered (name, value) [] d = refl
first_new_depth-numbered (name, value) (y ∷ p) d =
    ap (λ o. elim o [ none ↦ some d | some e ↦ if ltb d e then some d else some e ])
      (first_new_depth-numbered y p (suc d))
    ∙ ground arith

if-true : (b : Bool) (x y : OpenMap) → b ≡ true → (if b then x else y) ≡ x
if-true true x y e = refl
if-true false x y e = cc

if-false : (b : Bool) (x y : OpenMap) → b ≡ false → (if b then x else y) ≡ y
if-false true x y e = cc
if-false false x y e = refl

round_map-above : (p : List (String × ℕ)) (d r : ℕ) → r < d → round_map (numbered d p) r ≡ []
unfolding round_map
round_map-above [] d r h = refl
round_map-above ((name, value) ∷ p) d r h =
    let rest = round_map (numbered (suc d) p) r in
    if-false (leb d r) ((name, value) ∷ rest) rest (ground arith)
    ∙ round_map-above p (suc d) r (omega arith)

round_map-numbered :
    (p : List (String × ℕ)) (d k : ℕ) → round_map (numbered d p) (d + k) ≡ take (suc k) p
unfolding round_map
round_map-numbered [] d k = refl
round_map-numbered ((name, value) ∷ p) d zero =
    let rest = round_map (numbered (suc d) p) (d + 0) in
    if-true (leb d (d + 0)) ((name, value) ∷ rest) rest (ground arith)
    ∙ ap (λ (t : OpenMap). (name, value) ∷ t) (round_map-above p (suc d) (d + 0) (omega arith))
round_map-numbered ((name, value) ∷ p) d (suc k) =
    let rest = round_map (numbered (suc d) p) (d + suc k) in
    let next : d + suc k ≡ suc d + k = omega arith in
    if-true (leb d (d + suc k)) ((name, value) ∷ rest) rest (ground arith)
    ∙ ap (λ (t : OpenMap). (name, value) ∷ t)
        (ap (round_map (numbered (suc d) p)) next ∙ round_map-numbered p (suc d) k)

for_range-cong :
    (s n : ℕ) (f g : ℕ → OpenMap)
    → ((k : ℕ) → f (s + k) ≡ g (s + k))
    → for_range s n f ≡ for_range s n g
unfolding for_range
for_range-cong s zero f g h = refl
for_range-cong s (suc n) f g h =
    ap₂ (λ (x : OpenMap) (t : List OpenMap). x ∷ t) (ap f (omega arith) ∙ h 0 ∙ ap g (omega arith))
      (for_range-cong (suc s) n f g (λ k. ap f (omega arith) ∙ h (suc k) ∙ ap g (omega arith)))

rounds-numbered :
    (x : String × ℕ) (p : List (String × ℕ))
    → rounds [] (numbered 1 (x ∷ p)) ≡ for_range 1 (length (x ∷ p)) (λ r. take r (x ∷ p))
unfolding rounds
rounds-numbered x p =
    ap
      (λ o. elim o [
        | none ↦ []
        | some first ↦
            for_range first (suc (max_depth (numbered 1 (x ∷ p))) - first)
              (round_map (numbered 1 (x ∷ p)))
      ])
      (first_new_depth-numbered x p 1)
    ∙ ap (λ (n : ℕ). for_range 1 (suc n - 1) (round_map (numbered 1 (x ∷ p))))
        (max_depth-numbered x p 1)
    ∙ ap (λ (n : ℕ). for_range 1 n (round_map (numbered 1 (x ∷ p)))) (omega arith)
    ∙ for_range-cong 1 (suc (length p)) (round_map (numbered 1 (x ∷ p))) (λ r. take r (x ∷ p))
        (λ k.
          round_map-numbered (x ∷ p) 1 k
          ∙ ap (λ (n : ℕ). take n (x ∷ p)) {x = suc k} {y = 1 + k} (omega arith))

-- From a network with nothing open, the rounds for one slot whose path names no ancestor twice open
-- the path from the root, one more step in each round: the first opens one step, the last all.
pub stage_open_sequence-one :
    (chain : Chain) (sib_name : String) (x : String × ℕ) (p : List (String × ℕ))
    → path_to_sib_name chain sib_name 1 ≡ ok (x ∷ p)
    → Distinct (x ∷ p)
    → stage_open_sequence chain (names (sib_name ∷ [])) (names [])
      ≡ ok (for_range 1 (length (x ∷ p)) (λ r. take r (x ∷ p)))
unfolding stage_open_sequence normalize_open paths_to enter_paths
stage_open_sequence-one chain sib_name x p found distinct =
    ap (λ r. (do path ← r; ok (path ∷ [])) >>= λ paths. ok (rounds [] (enter_paths paths []))) found
    ∙ ap (λ m. ok (rounds [] m)) (enter_path-numbered (x ∷ p) 1 [] distinct (Fresh-nil (x ∷ p)))
    ∙ ap ok (rounds-numbered x p)

-- ===== src/SibLayout/Length.antt =====
-- The two walks of src/warptap/sib_layout.py, one that counts the live chain's bits and one that
-- composes them, agree.
use warptap.Base.{
  ℕ, ◌+◌, if◌then◌else◌, Bool, true, false, List, [], ◌∷◌, ◌++◌, Option, none, some, String, Result,
  ok, err, ◌>>=◌, length, length-append, length-reverse, length-replicate, ◌≡◌, refl, ap, subst₂,
  ◌∙◌, arith,
}
use warptap.TapIr.{bits_from_int}
use warptap.TapIr.Packing.{length-bits_from_int}
use warptap.IclModel.{
  InstrumentNode, Chain, end, sib_node, scan_mux_node, Arms, no_arms, scan_arm, is_empty, contains,
}
use warptap.SibLayout.{
  OpenMap, OpenSet, LayoutError, normalize_open, get, is_open, is_target, bit_of, msb_first,
  get_or_0, leaf_width, walk_length, arm_length, layout_bit_length, leaf_content_bits, walk_bits,
  arm_bits, compose_bits,
}

abbrev lengths : Result LayoutError (List ℕ) → Result LayoutError ℕ
lengths r = r >>= λ bits. ok (length bits)

lengths-if :
    (b : Bool) (r t : Result LayoutError (List ℕ)) {n m : Result LayoutError ℕ}
    → lengths r ≡ n
    → lengths t ≡ m
    → lengths (if b then r else t) ≡ (if b then n else m)
lengths-if true r t h h' = h
lengths-if false r t h h' = h'

lengths-leaf :
    (payload : ℕ) (target : Bool) (i : Option InstrumentNode)
    → lengths (leaf_content_bits payload target i) ≡ leaf_width i
unfolding leaf_content_bits leaf_width
lengths-leaf payload target none = refl
lengths-leaf payload true (some i) = ap ok (length-bits_from_int payload i.width)
lengths-leaf payload false (some i) = ap ok (length-replicate i.width 0)

abbrev sib_bits :
    Bool
    → ℕ
    → Result LayoutError (List ℕ)
    → Result LayoutError (List ℕ)
    → Result LayoutError (List ℕ)
sib_bits b bit inner rest = do
  here ← if b then inner else ok []
  there ← rest
  ok (here ++ (bit ∷ there))

abbrev sib_length : Bool → Result LayoutError ℕ → Result LayoutError ℕ → Result LayoutError ℕ
sib_length b inner rest = do
  here ← if b then (do n ← inner; ok (n + 1)) else ok 1
  there ← rest
  ok (here + there)

length-sib :
    (b : Bool) (bit : ℕ) (inner rest : Result LayoutError (List ℕ)) {n m : Result LayoutError ℕ}
    → lengths inner ≡ n
    → lengths rest ≡ m
    → lengths (sib_bits b bit inner rest) ≡ sib_length b n m
length-sib b bit inner rest h h' =
    subst₂ (λ x y. lengths (sib_bits b bit inner rest) ≡ sib_length b x y) h h' (go b inner rest)
  where
    go :
        (b : Bool) (inner rest : Result LayoutError (List ℕ))
        → lengths (sib_bits b bit inner rest) ≡ sib_length b (lengths inner) (lengths rest)
    go true (ok xs) (ok ys) = ap ok (length-append xs (bit ∷ ys) ∙ omega arith)
    go true (ok xs) (err e) = refl
    go true (err e) r = refl
    go false x (ok ys) = ap ok (omega arith)
    go false x (err e) = refl

length-mux :
    (own : List ℕ) (w : ℕ) (inner rest : Result LayoutError (List ℕ)) {n m : Result LayoutError ℕ}
    → length own ≡ w
    → lengths inner ≡ n
    → lengths rest ≡ m
    → lengths (do a ← inner; b ← rest; ok (a ++ (own ++ b))) ≡ (do x ← n; y ← m; ok (w + x + y))
length-mux own w inner rest size h h' =
    subst₂
      (λ x y.
        lengths (do a ← inner; b ← rest; ok (a ++ (own ++ b))) ≡ (do n ← x; m ← y; ok (w + n + m)))
      h h' (go inner rest)
  where
    go :
        (inner rest : Result LayoutError (List ℕ))
        → lengths (do a ← inner; b ← rest; ok (a ++ (own ++ b)))
          ≡ (do x ← lengths inner; y ← lengths rest; ok (w + x + y))
    go (ok xs) (ok ys) =
        ap ok (omega (arith, length-append xs (own ++ ys), length-append own ys, size))
    go (ok xs) (err e) = refl
    go (err e) r = refl

length-arm :
    (b : Bool) (here there : Result LayoutError (List ℕ)) {n m : Result LayoutError ℕ}
    → lengths here ≡ n
    → lengths there ≡ m
    → lengths (elim b [ true ↦ here | false ↦ there ]) ≡ elim b [ true ↦ n | false ↦ m ]
length-arm true here there h h' = h
length-arm false here there h h' = h'

module _ (now after : OpenMap) (target : Option String) (payload : ℕ) where
  mutual
    unfolding walk_bits walk_length

    length-walk :
        (chain : Chain) → lengths (walk_bits now after target payload chain) ≡ walk_length now chain
    length-walk end = refl
    length-walk (sib_node name instrument nested rest) =
        length-sib (is_open now name) (bit_of (is_open after name))
          (if is_empty nested
            then leaf_content_bits payload (is_target target name) instrument
            else walk_bits now after target payload nested)
          (walk_bits now after target payload rest)
          (lengths-if (is_empty nested)
            (leaf_content_bits payload (is_target target name) instrument)
            (walk_bits now after target payload nested)
            (lengths-leaf payload (is_target target name) instrument) (length-walk nested))
          (length-walk rest)
    length-walk (scan_mux_node name w arms rest) =
        length-mux (msb_first (get_or_0 (get after name)) w) w
          (arm_bits now after target payload name (get now name) arms)
          (walk_bits now after target payload rest)
          (length-reverse (bits_from_int (get_or_0 (get after name)) w)
            ∙ length-bits_from_int (get_or_0 (get after name)) w)
          (length-arms name (get now name) arms) (length-walk rest)

    length-arms :
        (name : String) (v : Option ℕ) (arms : Arms)
        → lengths (arm_bits now after target payload name v arms) ≡ arm_length now v arms
    length-arms name none arms = refl
    length-arms name (some v) no_arms = refl
    length-arms name (some v) (scan_arm vs instrument nested arms) =
        length-arm (contains vs v)
          (if is_empty nested
            then leaf_content_bits payload (is_target target name) instrument
            else walk_bits now after target payload nested)
          (arm_bits now after target payload name (some v) arms)
          (lengths-if (is_empty nested)
            (leaf_content_bits payload (is_target target name) instrument)
            (walk_bits now after target payload nested)
            (lengths-leaf payload (is_target target name) instrument) (length-walk nested))
          (length-arms name (some v) arms)

-- The bits composed to move a network from one set of open slots to another are exactly as many as
-- the live chain is long at the first set, whatever the second set, the target and the payload; and
-- either both computations return or both raise.
pub length-compose_bits :
    (chain : Chain) (open_now open_after : OpenSet) (target : Option String) (payload : ℕ)
    → lengths (compose_bits chain open_now open_after target payload)
      ≡ layout_bit_length chain open_now
unfolding compose_bits layout_bit_length
length-compose_bits chain open_now open_after target payload =
    length-walk (normalize_open open_now) (normalize_open open_after) target payload chain

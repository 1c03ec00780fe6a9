-- ===== src/SibLayout/Bits.antt =====
-- What `compose_bits` returns are bits (src/warptap/sib_layout.py).
use warptap.Base.{
  ℕ, zero, suc, ◌<◌, if◌then◌else◌, Bool, true, false, List, [], ◌∷◌, ◌++◌, reverse, reverse-cons,
  Option, none, some, String, Result, ok, err, ◌>>=◌, ok-injective, replicate, ◌≡◌, refl, subst,
  sym, arith,
}
use warptap.TapIr.{bits_from_int}
use warptap.TapIr.Packing.{AreBits, bits_from_int-AreBits}
use warptap.IclModel.{
  InstrumentNode, Chain, end, sib_node, scan_mux_node, Arms, no_arms, scan_arm, is_empty, contains,
}
use warptap.SibLayout.{
  OpenMap, OpenSet, LayoutError, normalize_open, get, is_open, is_target, bit_of, msb_first,
  get_or_0, leaf_content_bits, walk_bits, arm_bits, compose_bits,
}

pub append-AreBits : (xs ys : List ℕ) → AreBits xs → AreBits ys → AreBits (xs ++ ys)
append-AreBits [] ys h h' = h'
append-AreBits (x ∷ xs) ys h h' = (h.0, append-AreBits xs ys h.1 h')

pub reverse-AreBits : (xs : List ℕ) → AreBits xs → AreBits (reverse xs)
reverse-AreBits [] h = tt
reverse-AreBits (x ∷ xs) h =
    subst AreBits (sym (reverse-cons x xs))
      (append-AreBits (reverse xs) (x ∷ []) (reverse-AreBits xs h.1) (h.0, tt))

pub replicate-AreBits : (n : ℕ) → AreBits (replicate n 0)
replicate-AreBits zero = tt
replicate-AreBits (suc n) = (omega arith, replicate-AreBits n)

bit_of-lt : (b : Bool) → bit_of b < 2
bit_of-lt true = omega arith
bit_of-lt false = omega arith

-- A result that, if it is one, holds bits.
abbrev GivesBits : Result LayoutError (List ℕ) → Type 0
GivesBits r = (bits : List ℕ) → r ≡ ok bits → AreBits bits

leaf-GivesBits :
    (payload : ℕ) (target : Bool) (i : Option InstrumentNode)
    → GivesBits (leaf_content_bits payload target i)
unfolding leaf_content_bits
leaf-GivesBits payload target none bits h = cc
leaf-GivesBits payload true (some i) bits h =
    subst AreBits (ok-injective h) (bits_from_int-AreBits payload i.width)
leaf-GivesBits payload false (some i) bits h =
    subst AreBits (ok-injective h) (replicate-AreBits i.width)

nil-GivesBits : GivesBits (ok [])
nil-GivesBits bits h = subst AreBits (ok-injective h) tt

if-GivesBits :
    (b : Bool) (x y : Result LayoutError (List ℕ))
    → GivesBits x
    → GivesBits y
    → GivesBits (if b then x else y)
if-GivesBits true x y h h' = h
if-GivesBits false x y h h' = h'

arm-GivesBits :
    (b : Bool) (x y : Result LayoutError (List ℕ))
    → GivesBits x
    → GivesBits y
    → GivesBits (elim b [ true ↦ x | false ↦ y ])
arm-GivesBits true x y h h' = h
arm-GivesBits false x y h h' = h'

-- Two parts with bits between them.
parts-GivesBits :
    (own : List ℕ) (x y : Result LayoutError (List ℕ))
    → AreBits own
    → GivesBits x
    → GivesBits y
    → GivesBits (do a ← x; b ← y; ok (a ++ (own ++ b)))
parts-GivesBits own (ok a) (ok b) o h h' bits e =
    subst AreBits (ok-injective e)
      (append-AreBits a (own ++ b) (h a refl) (append-AreBits own b o (h' b refl)))
parts-GivesBits own (ok a) (err p) o h h' bits e = cc
parts-GivesBits own (err p) y o h h' bits e = cc

module _ (now after : OpenMap) (target : Option String) (payload : ℕ) where
  mutual
    unfolding walk_bits

    walk-GivesBits : (chain : Chain) → GivesBits (walk_bits now after target payload chain)
    walk-GivesBits end = nil-GivesBits
    walk-GivesBits (sib_node name i nested rest) =
        let inner =
          if is_empty nested
          then leaf_content_bits payload (is_target target name) i
          else walk_bits now after target payload nested in
        parts-GivesBits (bit_of (is_open after name) ∷ [])
          (if is_open now name then inner else ok []) (walk_bits now after target payload rest)
          (bit_of-lt (is_open after name), tt)
          (if-GivesBits (is_open now name) inner (ok [])
            (if-GivesBits (is_empty nested) (leaf_content_bits payload (is_target target name) i)
              (walk_bits now after target payload nested)
              (leaf-GivesBits payload (is_target target name) i) (walk-GivesBits nested))
            nil-GivesBits)
          (walk-GivesBits rest)
    walk-GivesBits (scan_mux_node name w arms rest) =
        parts-GivesBits (msb_first (get_or_0 (get after name)) w)
          (arm_bits now after target payload name (get now name) arms)
          (walk_bits now after target payload rest)
          (reverse-AreBits (bits_from_int (get_or_0 (get after name)) w)
            (bits_from_int-AreBits (get_or_0 (get after name)) w))
          (arms-GiveBits name (get now name) arms) (walk-GivesBits rest)

    arms-GiveBits :
        (name : String) (v : Option ℕ) (arms : Arms)
        → GivesBits (arm_bits now after target payload name v arms)
    arms-GiveBits name none arms = nil-GivesBits
    arms-GiveBits name (some v) no_arms = nil-GivesBits
    arms-GiveBits name (some v) (scan_arm vs i nested arms) =
        let inner =
          if is_empty nested
          then leaf_content_bits payload (is_target target name) i
          else walk_bits now after target payload nested in
        arm-GivesBits (contains vs v) inner (arm_bits now after target payload name (some v) arms)
          (if-GivesBits (is_empty nested) (leaf_content_bits payload (is_target target name) i)
            (walk_bits now after target payload nested)
            (leaf-GivesBits payload (is_target target name) i) (walk-GivesBits nested))
          (arms-GiveBits name (some v) arms)

-- All that `compose_bits` returns are bits.
pub compose_bits-AreBits :
    (chain : Chain) (open_now open_after : OpenSet) (target : Option String) (payload : ℕ)
    (bits : List ℕ)
    → compose_bits chain open_now open_after target payload ≡ ok bits
    → AreBits bits
unfolding compose_bits
compose_bits-AreBits chain open_now open_after target payload bits h =
    walk-GivesBits (normalize_open open_now) (normalize_open open_after) target payload chain bits h

-- ===== src/SibOvershift/Probe.antt =====
-- The operations of an over-shift test end with the probe (src/warptap/sib_overshift.py).
use warptap.Base.{
  ℕ, ◌+◌, ◌/◌, ◌%◌, List, [], ◌∷◌, ◌++◌, reverse, Option, none, ok, err, >>=-eq-ok, ok-injective,
  Result, length, length-append, length-reverse, ◌≡◌, sym, ap, ap₂, ◌∙◌, arith, zero, suc,
}
use warptap.TapIr.{IrOp, for_range, bits_to_int, bits_from_int}
use warptap.TapIr.Packing.{
  AreBits, bits_from_int-AreBits, length-bits_from_int, bits_from_int-bits_to_int,
}
use warptap.IclModel.{Chain}
use warptap.SibLayout.{OpenMap, OpenSet, values, LayoutError, layout_bit_length, compose_bits}
use warptap.SibLayout.Bits.{append-AreBits, reverse-AreBits, compose_bits-AreBits}
use warptap.SibRetarget.{RetargetError, stage_open_sequence}
use warptap.SibRetarget.Stages.{last_of}
use warptap.SibModel.Load.{length-for_range}
use warptap.SibOvershift.{
  default_sentinel_pattern, count, lift_layout, lift_retarget, scan, round_ops, sentinel_or_default,
  build_overshift_ops,
}

lift_layout-eq-ok :
    {A : Type 0} (r : Result LayoutError A) {a : A} → lift_layout r ≡ ok a → r ≡ ok a
lift_layout-eq-ok (ok a) h = cc
lift_layout-eq-ok (err e) h = cc

lift_retarget-eq-ok :
    {A : Type 0} (r : Result RetargetError A) {a : A} → lift_retarget r ≡ ok a → r ≡ ok a
lift_retarget-eq-ok (ok a) h = cc
lift_retarget-eq-ok (err e) h = cc

unpacked :
    (margin sentinel : ℕ) (tail : List ℕ)
    → AreBits tail
    → bits_from_int
        (bits_to_int (bits_from_int sentinel margin ++ reverse tail))
        (margin + length tail)
      ≡ bits_from_int sentinel margin ++ reverse tail
unpacked margin sentinel tail h =
    let fed = bits_from_int sentinel margin ++ reverse tail in
    let long : length fed ≡ margin + length tail =
      length-append (bits_from_int sentinel margin) (reverse tail)
      ∙ ap₂ (λ (a b : ℕ). a + b) (length-bits_from_int sentinel margin) (length-reverse tail) in
    ap (bits_from_int (bits_to_int fed)) (sym long)
    ∙ bits_from_int-bits_to_int fed (
        append-AreBits (bits_from_int sentinel margin) (reverse tail)
          (bits_from_int-AreBits sentinel margin) (reverse-AreBits tail h))

-- The operations of the rounds: a scan each, of the length of the chain before the round, with the
-- bits that take the network to the round's set, last one first.
abbrev pub RoundScans : Chain → OpenSet → List OpenMap → List IrOp → Type 0
RoundScans chain now [] ops = ops ≡ []
RoundScans chain now (after ∷ later) ops =
    (len : ℕ) × (bits : List ℕ) × (rest : List IrOp) × (layout_bit_length chain now ≡ ok len)
    × (compose_bits chain now (values after) none 0 ≡ ok bits)
    × (ops ≡ scan len (bits_to_int (reverse bits)) ++ rest)
    × RoundScans chain (values after) later rest

round_ops-RoundScans :
    (chain : Chain) (now last_open : OpenSet) (stages : List OpenMap) (ops : List IrOp)
    → round_ops chain now stages ≡ ok (ops, last_open)
    → (last_open ≡ last_of now stages) × RoundScans chain now stages ops
unfolding round_ops
round_ops-RoundScans chain now last_open [] ops h =
    (ap (λ r. r.1) (sym (ok-injective h)), ap (λ r. r.0) (sym (ok-injective h)))
round_ops-RoundScans chain now last_open (after ∷ later) ops h =
    let (len, long, h1) = >>=-eq-ok (lift_layout (layout_bit_length chain now)) _ h in
    let (bits, composed, h2) =
      >>=-eq-ok (lift_layout (compose_bits chain now (values after) none 0)) _ h1 in
    let ((rest, opened), others, done) = >>=-eq-ok (round_ops chain (values after) later) _ h2 in
    let (same, scans) = round_ops-RoundScans chain (values after) opened later rest others in
    (
      ap (λ r. r.1) (sym (ok-injective done)) ∙ same,
      (
        len,
        bits,
        rest,
        lift_layout-eq-ok (layout_bit_length chain now) long,
        lift_layout-eq-ok (compose_bits chain now (values after) none 0) composed,
        ap (λ r. r.0) (sym (ok-injective done)),
        scans,
      ),
    )

-- The operations that are built for a margin of zero or more are those of the rounds that
-- `stage_open_sequence` gives for the target and for what is open, and then one scan of the margin and
-- the chain's length together. Its bits are those of the sentinel, low bit first, and then, last one
-- first, the bits that take the network from the set that is open after the last round, or at first if
-- there is no round, to the same set.
pub build_overshift_ops-probe :
    (chain : Chain) (target_open currently_open : OpenSet) (margin : ℕ) (sentinel : Option ℕ)
    (ops : List IrOp)
    → build_overshift_ops chain target_open currently_open (count margin) sentinel ≡ ok ops
    → (stages : List OpenMap) × (front : List IrOp) × (tail : List ℕ) × (tdi : ℕ)
      × (stage_open_sequence chain target_open currently_open ≡ ok stages)
      × RoundScans chain currently_open stages front
      × (compose_bits chain (last_of currently_open stages) (last_of currently_open stages) none 0
          ≡ ok tail)
      × (ops ≡ front ++ scan (margin + length tail) tdi)
      × (bits_from_int tdi (margin + length tail)
          ≡ bits_from_int (sentinel_or_default sentinel margin) margin ++ reverse tail)
unfolding build_overshift_ops
build_overshift_ops-probe chain target_open currently_open margin sentinel ops h =
    let (stages, first, later) =
      >>=-eq-ok (lift_retarget (stage_open_sequence chain target_open currently_open)) _ h in
    let ((front, last_open), second, later') =
      >>=-eq-ok (round_ops chain currently_open stages) _ later in
    let (tail, third, done) =
      >>=-eq-ok (lift_layout (compose_bits chain last_open last_open none 0)) _ later' in
    let (opened, scans) = round_ops-RoundScans chain currently_open last_open stages front second in
    let composed = lift_layout-eq-ok (compose_bits chain last_open last_open none 0) third in
    let s = sentinel_or_default sentinel margin in
    (
      stages,
      front,
      tail,
      bits_to_int (bits_from_int s margin ++ reverse tail),
      lift_retarget-eq-ok (stage_open_sequence chain target_open currently_open) first,
      scans,
      rw (← opened) composed,
      sym (ok-injective done),
      unpacked margin s tail (compose_bits-AreBits chain last_open last_open none 0 tail composed),
    )

pattern-AreBits : (s n : ℕ) → AreBits (for_range s n (λ i. i / 2 % 2))
unfolding for_range
pattern-AreBits s zero = tt
pattern-AreBits s (suc n) = (omega arith, pattern-AreBits (suc s) n)

-- The default sentinel is 0, 0, 1, 1 and so on from its lowest bit, for any number of bits.
pub default_sentinel_pattern-bits :
    (bits : ℕ)
    → bits_from_int (default_sentinel_pattern bits) bits ≡ for_range 0 bits (λ i. i / 2 % 2)
unfolding default_sentinel_pattern
default_sentinel_pattern-bits bits =
    let fed = for_range 0 bits (λ i. i / 2 % 2) in
    ap (bits_from_int (bits_to_int fed)) (sym (length-for_range 0 bits (λ i. i / 2 % 2)))
    ∙ bits_from_int-bits_to_int fed (pattern-AreBits 0 bits)

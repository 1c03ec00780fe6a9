-- ===== src/PdlInterpreter/Fit.antt =====
-- The numbers in the scans of `iApply` have no more bits than the scans
-- (src/warptap/pdl_interpreter.py).
use warptap.Base.{
  ℕ, zero, suc, ◌+◌, ◌-◌, ◌*◌, ◌/◌, ◌%◌, ◌^◌, ◌<◌, ltb, leb, if◌then◌else◌, Bool, true, false, List,
  [], ◌∷◌, reverse, Option, none, some, String, Result, ok, err, ◌>>=◌, >>=-eq-ok, ok-injective,
  length, length-reverse, length-replicate, replicate, set, ◌≡◌, refl, sym, ap, subst, ◌∙◌, arith,
}
use warptap.TapIr.{bits_to_int}
use warptap.TapIr.Packing.{AreBits, bits_to_int-lt}
use warptap.IclModel.{Chain}
use warptap.SibLayout.{OpenSet, LayoutError, normalize_open, layout_bit_length, compose_bits}
use warptap.SibLayout.Bits.{reverse-AreBits, compose_bits-AreBits, replicate-AreBits}
use warptap.SibLayout.Length.{length-compose_bits}
use warptap.PdlInterpreter.Fields.{PdlError}
use warptap.PdlInterpreter.Layout.{
  Place, target_layout, from_layout, put_at, put_chronological, write_each, field_range,
  read_mask_bits, mux_arm_read_chronological_bits,
}
use warptap.PdlInterpreter.State.{PendingRead}
use warptap.PdlInterpreter.Phases.{asked, expected_at, expected_scan}

pub from_layout-ok :
    {A : Type 0} (r : Result LayoutError A) (a : A) → from_layout r ≡ ok a → r ≡ ok a
from_layout-ok (ok b) a h = cc
from_layout-ok (err e) a h = cc

-- What `compose_bits` returns fits into the length of the chain.
pub compose_bits-lt :
    (graph : Chain) (now after : OpenSet) (target : Option String) (payload n : ℕ) (bits : List ℕ)
    → layout_bit_length graph now ≡ ok n
    → compose_bits graph now after target payload ≡ ok bits
    → (length bits ≡ n) × (bits_to_int (reverse bits) < 2 ^ n)
compose_bits-lt graph now after target payload n bits long composed =
    let same : length bits ≡ n = ok-injective (
      sym (ap (λ r. r >>= λ b. ok (length b)) composed)
      ∙ length-compose_bits graph now after target payload
      ∙ long) in
    let fits =
      bits_to_int-lt (reverse bits) (
        reverse-AreBits bits (compose_bits-AreBits graph now after target payload bits composed)) in
    (same, subst (λ (k : ℕ). bits_to_int (reverse bits) < 2 ^ k) (length-reverse bits ∙ same) fits)

-- A list of that many bits.
abbrev Row : ℕ → List ℕ → Type 0
Row n bits = (length bits ≡ n) × AreBits bits

set-Row : (n i b : ℕ) (bits : List ℕ) → b < 2 → Row n bits → Row n (set bits i b)
set-Row n i b [] h r = r
set-Row n zero b (x ∷ bits) h r = (r.0, (h, r.1.1))
set-Row n (suc i) b (x ∷ bits) h r =
    let rest = set-Row (length bits) i b bits h (refl, r.1.1) in
    (ap suc rest.0 ∙ r.0, (r.1.0, rest.1))

replicate-Row : (n : ℕ) → Row n (replicate n 0)
replicate-Row n = (length-replicate n 0, replicate-AreBits n)

-- A step that writes a bit, if it returns.
abbrev KeepsRow : (List ℕ → ℕ → Result PdlError (List ℕ)) → Type 0
KeepsRow f = (n k : ℕ) (bits next : List ℕ) → Row n bits → f bits k ≡ ok next → Row n next

if-Row :
    (c : Bool) (n : ℕ) (bits next : List ℕ) (x y : Result PdlError (List ℕ))
    → (x ≡ ok next → Row n next)
    → (y ≡ ok next → Row n next)
    → (if c then x else y) ≡ ok next
    → Row n next
if-Row true n bits next x y h h' e = h e
if-Row false n bits next x y h h' e = h' e

put_at-KeepsRow :
    (at value : ℕ → ℕ) → ((k : ℕ) → value k < 2) → KeepsRow (λ bits k. put_at bits (at k) (value k))
put_at-KeepsRow at value small n k bits next r h =
    if-Row (ltb (at k) (length bits)) n bits next _ _
      (λ e. subst (Row n) (ok-injective e) (set-Row n (at k) (value k) bits (small k) r)) (λ e. cc)
      h

put_chronological-KeepsRow :
    (width : ℕ) (value : ℕ → ℕ)
    → ((k : ℕ) → value k < 2)
    → KeepsRow (λ bits k. put_chronological width bits k (value k))
put_chronological-KeepsRow width value small n k bits next r h =
    if-Row (leb (suc k) width) n bits next _ _
      (put_at-KeepsRow (λ k. width - suc k) value small n k bits next r)
      (if-Row (leb (suc k - width) (length bits)) n bits next _ _
        (λ e.
          subst (Row n) (ok-injective e)
            (set-Row n (length bits - (suc k - width)) (value k) bits (small k) r))
        (λ e. cc))
      h

write_each-Row :
    (f : List ℕ → ℕ → Result PdlError (List ℕ))
    → KeepsRow f
    → (ks : List ℕ) (n : ℕ) (bits out : List ℕ) → Row n bits
    → write_each f ks bits ≡ ok out
    → Row n out
unfolding write_each
write_each-Row f keeps [] n bits out r h = subst (Row n) (ok-injective h) r
write_each-Row f keeps (k ∷ ks) n bits out r h =
    let (next, first, rest) = >>=-eq-ok (f bits k) _ h in
    write_each-Row f keeps ks n next out (keeps n k bits next r first) rest

Row-lt : (n : ℕ) (bits : List ℕ) → Row n bits → bits_to_int bits < 2 ^ n
Row-lt n bits r = subst (λ (k : ℕ). bits_to_int bits < 2 ^ k) r.0 (bits_to_int-lt bits r.1)

reverse-Row-lt : (n : ℕ) (bits : List ℕ) → Row n bits → bits_to_int (reverse bits) < 2 ^ n
reverse-Row-lt n bits r =
    Row-lt n (reverse bits) (length-reverse bits ∙ r.0, reverse-AreBits bits r.1)

abbrev pub FitsIn : ℕ → Option ℕ → Type 0
FitsIn bits none = Unit
FitsIn bits (some value) = value < 2 ^ bits

expected_at-FitsIn :
    (graph : Chain) (opened : OpenSet) (sib : String) (n expected : ℕ) (field : ℕ × ℕ)
    (place : Place) (tdo mask : Option ℕ)
    → layout_bit_length graph opened ≡ ok n
    → expected_at graph opened sib n expected field place ≡ ok (tdo, mask)
    → FitsIn n tdo × FitsIn n mask
unfolding expected_at mux_arm_read_chronological_bits read_mask_bits
expected_at-FitsIn graph opened sib n expected (low, stop) (offset, width, true) tdo mask long h =
    let ((tdo', mask'), both, same) =
      >>=-eq-ok (mux_arm_read_chronological_bits n width low stop (expected * 2 ^ low)) _ h in
    let (tdo_bits, first, rest) =
      >>=-eq-ok (write_each _ (field_range low stop) (replicate n 0)) _ both in
    let (mask_bits, second, out) =
      >>=-eq-ok (write_each _ (field_range low stop) (replicate n 0)) _ rest in
    let row =
      write_each-Row _
        (put_chronological-KeepsRow width (λ k. expected * 2 ^ low / 2 ^ k % 2) (λ k. omega arith))
        (field_range low stop) n (replicate n 0) tdo_bits (replicate-Row n) first in
    let row' =
      write_each-Row _ (put_chronological-KeepsRow width (λ k. 1) (λ k. omega arith))
        (field_range low stop) n (replicate n 0) mask_bits (replicate-Row n) second in
    subst (λ t. FitsIn n t.0 × FitsIn n t.1)
      (ap (λ t. (some t.0, some t.1)) (ok-injective out) ∙ ok-injective same)
      (Row-lt n tdo_bits row, Row-lt n mask_bits row')
expected_at-FitsIn graph opened sib n expected (low, stop) (offset, width, false) tdo mask long h =
    let (bits, composed, rest) =
      >>=-eq-ok (from_layout (compose_bits graph opened opened (some sib) (expected * 2 ^ low))) _
        h in
    let (marks, marked, out) = >>=-eq-ok (read_mask_bits (length bits) offset low stop) _ rest in
    let (same, fits) =
      compose_bits-lt graph opened opened (some sib) (expected * 2 ^ low) n bits long
        (from_layout-ok _ bits composed) in
    let row =
      write_each-Row _ (put_at-KeepsRow (λ k. offset + k) (λ k. 1) (λ k. omega arith))
        (field_range low stop) (length bits) (replicate (length bits) 0) marks
        (replicate-Row (length bits)) marked in
    subst (λ t. FitsIn n t.0 × FitsIn n t.1) (ok-injective out)
      (
        fits,
        subst (λ (k : ℕ). bits_to_int (reverse marks) < 2 ^ k) same
            (reverse-Row-lt (length bits) marks row),
      )

pub expected_scan-FitsIn :
    (graph : Chain) (opened : OpenSet) (sib : String) (n : ℕ) (pending : Option PendingRead)
    (tdo mask : Option ℕ)
    → layout_bit_length graph opened ≡ ok n
    → expected_scan graph opened sib n pending ≡ ok (tdo, mask)
    → FitsIn n tdo × FitsIn n mask
unfolding expected_scan
expected_scan-FitsIn graph opened sib n none tdo mask long h =
    subst (λ t. FitsIn n t.0 × FitsIn n t.1) (ok-injective h) (tt, tt)
expected_scan-FitsIn graph opened sib n (some r) tdo mask long h =
    let (place, found, rest) = >>=-eq-ok (target_layout graph (normalize_open opened) sib) _ h in
    expected_at-FitsIn graph opened sib n r.expected (asked r.bits place.1) place tdo mask long rest

-- ===== src/PdlInterpreter/Scans.antt =====
-- The operations that `iApply` emits are whole scans (src/warptap/pdl_interpreter.py).
use warptap.Base.{
  ℕ, ◌++◌, ◌^◌, ◌<◌, List, [], ◌∷◌, reverse, Option, none, some, String, ok, >>=-eq-ok,
  ok-injective, ◌≡◌, subst,
}
use warptap.TapIr.{IrOp, bits_to_int}
use warptap.IclModel.{Chain}
use warptap.SibLayout.{OpenMap, OpenSet, values, layout_bit_length, compose_bits}
use warptap.SibRetarget.{open_path_to, stage_open_sequence}
use warptap.PdlInterpreter.Layout.{from_layout}
use warptap.PdlInterpreter.Phases.{
  from_retarget, last_name, dict_from, scan, open_rounds, open_target, expected_scan, deliver,
}
use warptap.PdlInterpreter.Fit.{FitsIn, from_layout-ok, compose_bits-lt, expected_scan-FitsIn}

-- Whole scans, each of which starts and ends in Run-Test/Idle and whose numbers fit in its length.
pub data Scans : List IrOp → Type 0 where
  no_scans : Scans []
  one_scan :
      (bits tdi : ℕ) (tdo mask : Option ℕ)
      → tdi < 2 ^ bits
      → FitsIn bits tdo
      → FitsIn bits mask
      → (ops : List IrOp) → Scans ops
      → Scans (scan bits tdi tdo mask ++ ops)

pub Scans-append : (xs ys : List IrOp) → Scans xs → Scans ys → Scans (xs ++ ys)
Scans-append [] ys no_scans h = h
Scans-append _ ys (one_scan bits tdi tdo mask a b c ops rest) h =
    one_scan bits tdi tdo mask a b c (ops ++ ys) (Scans-append ops ys rest h)

open_rounds-Scans :
    (graph : Chain) (now : OpenSet) (stages : List OpenMap) (ops : List IrOp) (opened : OpenSet)
    → open_rounds graph now stages ≡ ok (ops, opened)
    → Scans ops
unfolding open_rounds
open_rounds-Scans graph now [] ops opened h = subst (λ t. Scans t.0) (ok-injective h) no_scans
open_rounds-Scans graph now (after ∷ later) ops opened h =
    let (n, long, rest) = >>=-eq-ok (from_layout (layout_bit_length graph now)) _ h in
    let (bits, composed, rest') =
      >>=-eq-ok (from_layout (compose_bits graph now (values after) none 0)) _ rest in
    let ((others, last), done, out) = >>=-eq-ok (open_rounds graph (values after) later) _ rest' in
    let fits =
      compose_bits-lt graph now (values after) none 0 n bits (from_layout-ok _ n long)
        (from_layout-ok _ bits composed) in
    subst (λ t. Scans t.0) (ok-injective out)
      (one_scan n (bits_to_int (reverse bits)) none none fits.1 tt tt others
        (open_rounds-Scans graph (values after) later others last done))

pub open_target-Scans :
    (graph : Chain) (name : String) (now : OpenSet) (t : String × List IrOp × OpenSet)
    → open_target graph name now ≡ ok t
    → Scans t.1
unfolding open_target
open_target-Scans graph name now t h =
    let (path, found, rest) = >>=-eq-ok (from_retarget (open_path_to graph name)) _ h in
    let (sib, last, rest') = >>=-eq-ok (last_name path) _ rest in
    let (stages, staged, rest'') =
      >>=-eq-ok (from_retarget (stage_open_sequence graph (values (dict_from [] path)) now)) _
        rest' in
    let ((ops, opened), done, out) = >>=-eq-ok (open_rounds graph now stages) _ rest'' in
    subst (λ u. Scans u.1) (ok-injective out) (open_rounds-Scans graph now stages ops opened done)

pub deliver-Scans :
    (graph : Chain) (opened : OpenSet) (sib : String) (payload : ℕ) (pending : _) (ops : List IrOp)
    → deliver graph opened sib payload pending ≡ ok ops
    → Scans ops
unfolding deliver
deliver-Scans graph opened sib payload pending ops h =
    let (n, long, rest) = >>=-eq-ok (from_layout (layout_bit_length graph opened)) _ h in
    let (bits, composed, rest') =
      >>=-eq-ok (from_layout (compose_bits graph opened opened (some sib) payload)) _ rest in
    let ((tdo, mask), expected, out) =
      >>=-eq-ok (expected_scan graph opened sib n pending) _ rest' in
    let long' = from_layout-ok (layout_bit_length graph opened) n long in
    let fits =
      compose_bits-lt graph opened opened (some sib) payload n bits long'
        (from_layout-ok _ bits composed) in
    let (tdo_fits, mask_fits) =
      expected_scan-FitsIn graph opened sib n pending tdo mask long' expected in
    subst Scans (ok-injective out)
      (one_scan n (bits_to_int (reverse bits)) tdo mask fits.1 tdo_fits mask_fits [] no_scans)

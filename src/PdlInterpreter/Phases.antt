-- ===== src/PdlInterpreter/Phases.antt =====
-- The two phases of `iApply`: the rounds that open the way to the target, and the scan that delivers its payload
-- (src/warptap/pdl_interpreter.py).
use warptap.Base.{
  ℕ, suc, ◌*◌, ◌^◌, ◌++◌, if◌then◌else◌, Bool, true, false, List, [], ◌∷◌, reverse, Option, none,
  some, String, Result, ok, err, ◌>>=◌, length,
}
use warptap.Base.Dicts.{lookup, assign, remove}
use warptap.TapFsm.{shift_dr, run_test_idle}
use warptap.TapIr.{IrOp, goto_state, bits_to_int}
use warptap.IclModel.{read, write, InstrumentNode, Chain}
use warptap.SibLayout.{OpenMap, OpenSet, values, normalize_open, layout_bit_length, compose_bits}
use warptap.SibRetarget.{RetargetError, open_path_to, stage_open_sequence}
use warptap.PdlInterpreter.Fields.{PdlError, retarget_error, index_error, find_instrument}
use warptap.PdlInterpreter.Layout.{
  Place, from_layout, target_layout, read_mask_bits, mux_arm_read_chronological_bits,
}
use warptap.PdlInterpreter.State.{PendingRead, PdlInterpreter, committed}

abbrev pub from_retarget : {A : Type 0} → Result RetargetError A → Result PdlError A
from_retarget (ok a) = ok a
from_retarget (err e) = err (retarget_error e)

-- `target_path[-1].name`
abbrev pub last_name : List (String × ℕ) → Result PdlError String
last_name [] = err index_error
last_name ((name, value) ∷ []) = ok name
last_name (step ∷ next ∷ path) = last_name (next ∷ path)

-- `{step.name: step.value for step in target_path}`
abbrev pub dict_from : OpenMap → List (String × ℕ) → OpenMap
dict_from m [] = m
dict_from m ((name, value) ∷ path) = dict_from (assign m name value) path

-- One scan of the data register from Run-Test/Idle and back.
abbrev pub scan : ℕ → ℕ → Option ℕ → Option ℕ → List IrOp
scan bits tdi tdo mask =
    goto_state shift_dr ∷ IrOp.shift_dr bits tdi tdo mask ∷ goto_state run_test_idle ∷ []

-- Phase 1: the loop over the rounds, from what is open before them to what is open after them.
unfoldable pub open_rounds : Chain → OpenSet → List OpenMap → Result PdlError (List IrOp × OpenSet)
open_rounds graph prior_open [] = ok ([], prior_open)
open_rounds graph prior_open (open_after ∷ later) = do
  len1 ← from_layout (layout_bit_length graph prior_open)
  bits1 ← from_layout (compose_bits graph prior_open (values open_after) none 0)
  (ops, opened) ← open_rounds graph (values open_after) later
  ok (scan len1 (bits_to_int (reverse bits1)) none none ++ ops, opened)

-- The SIB or mux that gates the instrument, and phase 1.
unfoldable pub open_target :
    Chain → String → OpenSet → Result PdlError (String × List IrOp × OpenSet)
unfolding open_rounds
open_target graph name currently_open = do
  target_path ← from_retarget (open_path_to graph name)
  target_sib ← last_name target_path
  stages ←
      from_retarget (stage_open_sequence graph (values (dict_from [] target_path)) currently_open)
  (ops, opened) ← open_rounds graph currently_open stages
  ok (target_sib, ops, opened)

abbrev is_write : Option InstrumentNode → Bool
is_write none = false
is_write (some i) = elim i.direction [ read ↦ false | write ↦ true ]

unfoldable pub is_write_target : Chain → String → Bool
is_write_target graph name = is_write (find_instrument graph name)

-- What phase 2 shifts into the target.
unfoldable pub payload_for : Chain → PdlInterpreter → String → ℕ
unfolding is_write_target
payload_for graph p name = elim (lookup p.pending_writes name) [
  | some payload ↦ payload
  | none ↦ if is_write_target graph name then committed p name else 0
]

-- The assignments to the object between the two phases: what is open, the pending write popped, the
-- payload committed, the pending read popped.
unfoldable pub take_pending : Chain → String → OpenSet → ℕ → PdlInterpreter → PdlInterpreter
unfolding is_write_target
take_pending graph name opened payload p = record p {
  currently_open = opened;
  pending_writes = remove p.pending_writes name;
  committed_writes =
      if is_write_target graph name
      then assign p.committed_writes name payload
      else p.committed_writes;
  pending_reads = remove p.pending_reads name;
}

-- The bits of the instrument that a read is about: from the first to before the second.
abbrev pub asked : Option (ℕ × ℕ) → ℕ → ℕ × ℕ
asked none width = (0, width)
asked (some (low, high)) width = (low, suc high)

unfoldable pub expected_at :
    Chain → OpenSet → String → ℕ → ℕ → ℕ × ℕ → Place → Result PdlError (Option ℕ × Option ℕ)
expected_at graph opened target_sib len2 expected (low, stop) (offset, width, true) = do
  (tdo, mask) ← mux_arm_read_chronological_bits len2 width low stop (expected * 2 ^ low)
  ok (some tdo, some mask)
expected_at graph opened target_sib len2 expected (low, stop) (offset, width, false) = do
  expected_bits ←
      from_layout (compose_bits graph opened opened (some target_sib) (expected * 2 ^ low))
  mask_bits ← read_mask_bits (length expected_bits) offset low stop
  ok (some (bits_to_int (reverse expected_bits)), some (bits_to_int (reverse mask_bits)))

-- `tdo` and `mask` of the scan of phase 2. The set of open slots is a dict by then.
unfoldable pub expected_scan :
    Chain → OpenSet → String → ℕ → Option PendingRead → Result PdlError (Option ℕ × Option ℕ)
unfolding expected_at
expected_scan graph opened target_sib len2 none = ok (none, none)
expected_scan graph opened target_sib len2 (some r) = do
  place ← target_layout graph (normalize_open opened) target_sib
  expected_at graph opened target_sib len2 r.expected (asked r.bits place.1) place

-- Phase 2.
unfoldable pub deliver :
    Chain → OpenSet → String → ℕ → Option PendingRead → Result PdlError (List IrOp)
unfolding expected_scan
deliver graph opened target_sib payload pending_read = do
  len2 ← from_layout (layout_bit_length graph opened)
  bits2 ← from_layout (compose_bits graph opened opened (some target_sib) payload)
  (tdo, mask) ← expected_scan graph opened target_sib len2 pending_read
  ok (scan len2 (bits_to_int (reverse bits2)) tdo mask)

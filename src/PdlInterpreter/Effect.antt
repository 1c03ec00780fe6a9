-- ===== src/PdlInterpreter/Effect.antt =====
-- What the scans of `iApply` do to a SIB network that is as the interpreter has it
-- (src/warptap/pdl_interpreter.py, src/warptap/sib_model.py).
use warptap.Base.{
  ℕ, ◌<◌, ◌++◌, List, [], ◌∷◌, reverse, Option, none, some, String, ok, length, length-reverse, ◌≡◌,
  refl, sym, ap, subst, ◌∙◌,
}
use warptap.Base.Dicts.{lookup}
use warptap.TapIr.{IrOp, shift_dr, bits_to_int, bits_from_int}
use warptap.TapIr.Packing.{bits_from_int-bits_to_int}
use warptap.IclModel.{Chain}
use warptap.IclModel.Address.{ModuleInstance, name_of}
use warptap.SibLayout.{OpenMap, OpenSet, values, normalize_open, layout_bit_length, compose_bits}
use warptap.SibLayout.Bits.{reverse-AreBits, compose_bits-AreBits}
use warptap.SibModel.{capture, update}
use warptap.SibModel.State.{Slots}
use warptap.SibModel.Load.{size}
use warptap.SibModel.Feed.{feed}
use warptap.SibRetarget.{open_path_to, stage_open_sequence}
use warptap.SibRetarget.Stages.{last_of}
use warptap.SibRetarget.Paths.{HasValues}
use warptap.PdlInterpreter.Delivered.{LeadsBySibs, HeldAt, Holds, moved-HeldAt, opened-path}
use warptap.PdlInterpreter.Payload.{value_due, payload_for-due}
use warptap.SibRound.{moved}
use warptap.SibRound.Compose.{round-compose_bits}
use warptap.SibRound.Shut.{Admits}
use warptap.SibRound.Sync.{Synced, moved-Synced}
use warptap.PdlHistory.{apply_stmt}
use warptap.PdlInterpreter.Phases.{
  is_write_target, last_name, dict_from, scan, open_rounds, open_target, payload_for, take_pending,
  expected_scan, deliver,
}
use warptap.PdlInterpreter.State.{PdlInterpreter}
use warptap.PdlInterpreter.{i_apply}

-- What a network that the TAP has selected does in an operation that starts in Run-Test/Idle or
-- Shift-DR: a scan captures, shifts and updates; it holds still in all others.
abbrev pub carry_op : Slots → IrOp → Slots
carry_op s (shift_dr bits tdi tdo mask) = update (feed (capture s) (bits_from_int tdi bits)).0
carry_op s op = s

abbrev pub carry_out : Slots → List IrOp → Slots
carry_out s [] = s
carry_out s (op ∷ ops) = carry_out (carry_op s op) ops

carry_out-append :
    (s : Slots) (xs ys : List IrOp) → carry_out s (xs ++ ys) ≡ carry_out (carry_out s xs) ys
carry_out-append s [] ys = refl
carry_out-append s (x ∷ xs) ys = carry_out-append (carry_op s x) xs ys

-- The network after the rounds of phase 1.
abbrev pub moved_by : List OpenMap → Slots → Slots
moved_by [] s = s
moved_by (after ∷ later) s = moved_by later (moved after none 0 s)

-- Each round opens one level at most and takes no mux to an arm.
abbrev pub Admitted : List OpenMap → Slots → Type 0
Admitted [] s = Unit
Admitted (after ∷ later) s = (0 < size s) × Admits after s × Admitted later (moved after none 0 s)

-- One scan with the bits of `compose_bits`.
round_scan :
    (graph : Chain) (s : Slots) (now after : OpenSet) (target : Option String) (payload : ℕ)
    (tdo mask : Option ℕ)
    → Synced graph now s
    → 0 < size s
    → (bits : List ℕ) × (compose_bits graph now after target payload ≡ ok bits)
      × (layout_bit_length graph now ≡ ok (length bits))
      × (carry_out s (scan (length bits) (bits_to_int (reverse bits)) tdo mask)
          ≡ moved (normalize_open after) target payload s)
round_scan graph s now after target payload tdo mask y some_cell =
    let (bits, composed, long, state, out) =
      round-compose_bits graph s now after target payload y.fits y.sized y.no_relay some_cell
        y.tracks in
    let unpacked : bits_from_int (bits_to_int (reverse bits)) (length bits) ≡ reverse bits =
      ap (bits_from_int (bits_to_int (reverse bits))) (sym (length-reverse bits))
      ∙ bits_from_int-bits_to_int (reverse bits) (
          reverse-AreBits bits
            (compose_bits-AreBits graph now after target payload bits composed)) in
    (bits, composed, long, ap (λ fed. update (feed (capture s) fed).0) unpacked ∙ state)

open_rounds-Synced :
    (graph : Chain) (stages : List OpenMap) (now : OpenSet) (s : Slots)
    → Synced graph now s
    → Admitted stages s
    → (ops : List IrOp) × (open_rounds graph now stages ≡ ok (ops, last_of now stages))
      × (carry_out s ops ≡ moved_by stages s)
      × Synced graph (last_of now stages) (moved_by stages s)
unfolding open_rounds normalize_open
open_rounds-Synced graph [] now s y a = ([], refl, refl, y)
open_rounds-Synced graph (after ∷ later) now s y a =
    let (bits, composed, long, state) =
      round_scan graph s now (values after) none 0 none none y a.0 in
    let y' : Synced graph (values after) (moved after none 0 s) =
      moved-Synced graph s now (values after) none 0 y a.1 in
    let (ops, done, there, end) =
      open_rounds-Synced graph later (values after) (moved after none 0 s) y' a.2 in
    let one = scan (length bits) (bits_to_int (reverse bits)) none none in
    (
      one ++ ops,
      rw (long, composed, done) refl,
      carry_out-append s one ops ∙ ap (λ t. carry_out t ops) state ∙ there,
      end,
    )

-- The interpreter after an `iApply` that returns the operations.
abbrev pub applied : Chain → PdlInterpreter → String → OpenSet → List IrOp → PdlInterpreter
applied graph p name opened ops =
    record (take_pending graph name opened (payload_for graph p name) p) {
      program = p.program ++ ops;
      history = p.history ++ apply_stmt ∷ [];
    }

pub i_apply-applied :
    (graph : Chain) (p : PdlInterpreter) (node : ModuleInstance) (sib : String) (opened : OpenSet)
    (ops last : List IrOp)
    → p.scope ≡ some node
    → open_target graph (name_of node) p.currently_open ≡ ok (sib, ops, opened)
    → deliver graph opened sib
        (payload_for graph p (name_of node))
        (lookup p.pending_reads (name_of node))
      ≡ ok last
    → i_apply graph p ≡ (ok (ops ++ last), applied graph p (name_of node) opened (ops ++ last))
unfolding i_apply take_pending payload_for
i_apply-applied graph p node sib opened ops last set target delivered =
    simp (set, target, delivered)

-- Let every arm of the graph have a value, the target be set, and `open_path_to` lead to its
-- instrument through SIBs alone; let there be rounds for this path, and the network be as the
-- interpreter has it; and let each round, the last scan's included, find a live flip-flop, open one
-- level at most and take no mux to an arm. Then an `iApply` whose expected values can be worked out
-- returns, and its operations go to the end of the program. Carried out on the network, they make the
-- rounds' moves and then the move of the last scan, after which the network is as the interpreter has
-- it again, all SIBs of the path are open, and the instrument behind the last one holds a value: in
-- its shift flip-flops, and if it is a WRITE instrument in its latches too. The value is the pending
-- one, or else, for a WRITE target, the one that is committed, or 0 if there is none.
pub i_apply-moved :
    (graph : Chain) (p : PdlInterpreter) (node : ModuleInstance) (path : List (String × ℕ))
    (sib : String) (stages : List OpenMap) (tdo mask : Option ℕ) (s : Slots)
    → HasValues graph
    → p.scope ≡ some node
    → open_path_to graph (name_of node) ≡ ok path
    → LeadsBySibs (name_of node) graph path
    → last_name path ≡ ok sib
    → stage_open_sequence graph (values (dict_from [] path)) p.currently_open ≡ ok stages
    → ((bits : ℕ)
        → layout_bit_length graph (last_of p.currently_open stages) ≡ ok bits
        → expected_scan graph
            (last_of p.currently_open stages)
            sib
            bits
            (lookup p.pending_reads (name_of node))
          ≡ ok (tdo, mask))
    → Synced graph p.currently_open s
    → Admitted stages s
    → 0 < size (moved_by stages s)
    → Admits (normalize_open (last_of p.currently_open stages)) (moved_by stages s)
    → let value =
        value_due
          (lookup p.pending_writes (name_of node))
          (is_write_target graph (name_of node))
          (lookup p.committed_writes (name_of node)) in
      (ops : List IrOp) × ((i_apply graph p).0 ≡ ok ops)
      × ((i_apply graph p).1.program ≡ p.program ++ ops)
      × (carry_out s ops
          ≡ moved
              (normalize_open (last_of p.currently_open stages))
              (some sib)
              value
              (moved_by stages s))
      × Synced graph (i_apply graph p).1.currently_open (carry_out s ops)
      × HeldAt (Holds value) path (carry_out s ops)
unfolding open_target deliver take_pending
i_apply-moved graph p node path sib stages tdo mask s valued set found leads last staged expected y
      a some_cell b =
    let name = name_of node in
    let opened = last_of p.currently_open stages in
    let payload = payload_for graph p name in
    let value =
      value_due (lookup p.pending_writes name) (is_write_target graph name)
        (lookup p.committed_writes name) in
    let due : payload ≡ value = payload_for-due graph p name in
    let (ops, done, there, y') = open_rounds-Synced graph stages p.currently_open s y a in
    let (bits, composed, long, state) =
      round_scan graph (moved_by stages s) opened opened (some sib) payload tdo mask y' some_cell in
    let final = scan (length bits) (bits_to_int (reverse bits)) tdo mask in
    let carried : carry_out s (ops ++ final)
        ≡ moved (normalize_open opened) (some sib) value (moved_by stages s) =
      carry_out-append s ops final
      ∙ ap (λ t. carry_out t final) there
      ∙ state
      ∙ ap (λ v. moved (normalize_open opened) (some sib) v (moved_by stages s)) due in
    let kept : Synced graph opened (carry_out s (ops ++ final)) =
      subst (Synced graph opened) (sym carried)
        (moved-Synced graph (moved_by stages s) opened opened (some sib) value y' b) in
    let held : HeldAt (Holds value) path (carry_out s (ops ++ final)) =
      subst (HeldAt (Holds value) path) (sym carried) (
        moved-HeldAt (normalize_open opened) sib value name graph (moved_by stages s) path leads
          last (opened-path graph path p.currently_open stages valued staged) y'.fits y'.tracks) in
    let target : open_target graph name p.currently_open ≡ ok (sib, ops, opened) =
      rw (found, last, staged, done) refl in
    let delivered : deliver graph opened sib payload (lookup p.pending_reads name) ≡ ok final =
      rw (long, composed, expected (length bits) long) refl in
    let returned = i_apply-applied graph p node sib opened ops final set target delivered in
    (
      ops ++ final,
      ap (λ r. r.0) returned,
      ap (λ r. r.1.program) returned,
      carried,
      subst (λ r. Synced graph r.1.currently_open (carry_out s (ops ++ final))) (sym returned) kept,
      held,
    )

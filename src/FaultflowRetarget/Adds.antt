-- ===== src/FaultflowRetarget/Adds.antt =====
-- What the parts of a pattern add to the program (src/warptap/faultflow_retarget.py).
use warptap.Base.{
  ℕ, List, [], ◌∷◌, ◌++◌, Bool, Option, none, some, String, Result, ok, err, append_assoc,
  append-nil, ◌≡◌, refl, sym, ap, ◌∙◌,
}
use warptap.Base.Exec.{pure, lift, continue, ◌>>=◌}
use warptap.TapIr.{IrOp}
use warptap.IclModel.{Chain}
use warptap.IclModel.Address.{ModuleInstance, resolve_dotted_address}
use warptap.PdlInterpreter.Fields.{PdlError}
use warptap.PdlInterpreter.State.{PdlInterpreter}
use warptap.PdlInterpreter.Scans.{Scans, no_scans, Scans-append}
use warptap.PdlInterpreter.Returned.{i_apply-ok, i_apply-scope}
use warptap.PdlInterpreter.Program.{continue-keeps}
use warptap.PdlInterpreter.{
  Command, from_address, scope_or_error, written, require_scope, i_target, i_write, i_read, i_apply,
}
use warptap.FaultflowRetarget.{
  FaultflowError, instrument_width, instrument_of, find, strip_load_padding, strip_unload_padding,
  sequence_to_payload, Session, from_pdl, call, write_instrument, read_instrument, find_targets,
  load_one, load_chains, unload_one, unload_chains, Target,
}

-- If the method returns, it has added whole scans to the program and nothing else.
abbrev pub AddsScans : {A : Type 0} → Session A → Type 0
AddsScans {A} m =
    (p : PdlInterpreter) (a : A)
    → (m p).0 ≡ ok a
    → (ops : List IrOp) × ((m p).1.program ≡ p.program ++ ops) × Scans ops

pub continue-returns :
    {A B : Type 0} (f : A → Session B) (r : Result FaultflowError A × PdlInterpreter) (b : B)
    → (continue f r).0 ≡ ok b
    → (a : A) × (r.0 ≡ ok a) × ((f a r.1).0 ≡ ok b) × ((continue f r).1 ≡ (f a r.1).1)
continue-returns f (ok a, p) b h = (a, refl, h, refl)
continue-returns f (err e, p) b h = cc

lift-AddsScans : {A : Type 0} (r : Result FaultflowError A) → AddsScans (lift r)
lift-AddsScans r p a h = ([], sym (append-nil p.program), no_scans)

pub bind-AddsScans :
    {A B : Type 0} (m : Session A) (f : A → Session B)
    → AddsScans m
    → ((a : A) → AddsScans (f a))
    → AddsScans (m >>= f)
bind-AddsScans m f hm hf p b h =
    let (a, first, later, same) = continue-returns f (m p) b h in
    let (ops, e, s) = hm p a first in
    let (ops', e', s') = hf a (m p).1 b later in
    (
      ops ++ ops',
      ap (λ q. q.program) same
          ∙ e'
          ∙ ap (λ (t : List IrOp). t ++ ops') e
          ∙ append_assoc p.program ops ops',
      Scans-append ops ops' s s',
    )

-- Calls of the interpreter that return.
pub call-ok :
    {A : Type 0} (m : Command A) (p : PdlInterpreter) (a : A)
    → (call m p).0 ≡ ok a
    → ((m p).0 ≡ ok a) × ((call m p).1 ≡ (m p).1)
call-ok {A} m p a h = go (m p) h
  where
    go :
        (r : Result PdlError A × PdlInterpreter)
        → (from_pdl r).0 ≡ ok a
        → (r.0 ≡ ok a) × ((from_pdl r).1 ≡ r.1)
    go (ok b, q) e = (cc, refl)
    go (err b, q) e = cc

module _ (graph : Chain) (root : ModuleInstance) where
  i_apply-AddsScans : AddsScans (call (i_apply graph))
  i_apply-AddsScans p ops h =
      let (returned, same) = call-ok (i_apply graph) p ops h in
      let (node, set) = i_apply-scope graph p ops returned in
      let (opened, all, some_scans, e) = i_apply-ok graph p node ops set returned in
      (all, ap (λ q. q.program) same ∙ ap (λ r. r.1.program) e, some_scans)

  -- A call that does not touch the program.
  quiet-AddsScans :
      (m : Command (Unit {0}))
      → ((p : PdlInterpreter) → (m p).1.program ≡ p.program)
      → AddsScans (call m)
  quiet-AddsScans m quiet p a h =
      let (returned, same) = call-ok m p a h in
      ([], ap (λ q. q.program) same ∙ quiet p ∙ sym (append-nil p.program), no_scans)

  i_target-quiet :
      (dotted : String) (p : PdlInterpreter) → (i_target root dotted p).1.program ≡ p.program
  unfolding i_target
  i_target-quiet dotted p =
      continue-keeps (λ q. q.program ≡ p.program) _
        (from_address (resolve_dotted_address root dotted)) p refl (λ node e. refl)

  i_write-quiet :
      (value : ℕ) (p : PdlInterpreter) → (i_write graph value none p).1.program ≡ p.program
  unfolding i_write require_scope written
  i_write-quiet value p =
      continue-keeps (λ q. q.program ≡ p.program) _ (scope_or_error p.scope) p refl (λ node e. refl)

  i_read-quiet :
      (value : ℕ) (p : PdlInterpreter) → (i_read graph value none p).1.program ≡ p.program
  unfolding i_read require_scope
  i_read-quiet value p =
      continue-keeps (λ q. q.program ≡ p.program) _ (scope_or_error p.scope) p refl (λ node e. refl)

  pure-AddsScans : {A : Type 0} (a : A) → AddsScans (pure a)
  pure-AddsScans a p b h = ([], sym (append-nil p.program), no_scans)

  write_instrument-AddsScans :
      (name : String) (value : ℕ) → AddsScans (write_instrument graph root name value)
  unfolding write_instrument
  write_instrument-AddsScans name value =
      bind-AddsScans (call (i_target root name)) _
        (quiet-AddsScans (i_target root name) (i_target-quiet name))
        (λ u.
          bind-AddsScans (call (i_write graph value none)) _
            (quiet-AddsScans (i_write graph value none) (i_write-quiet value))
            (λ u'.
              bind-AddsScans (call (i_apply graph)) _ i_apply-AddsScans (λ ops. pure-AddsScans tt)))

  read_instrument-AddsScans :
      (name : String) (value : ℕ) → AddsScans (read_instrument graph root name value)
  unfolding read_instrument
  read_instrument-AddsScans name value =
      bind-AddsScans (call (i_target root name)) _
        (quiet-AddsScans (i_target root name) (i_target-quiet name))
        (λ u.
          bind-AddsScans (call (i_read graph value none)) _
            (quiet-AddsScans (i_read graph value none) (i_read-quiet value))
            (λ u'.
              bind-AddsScans (call (i_apply graph)) _ i_apply-AddsScans (λ ops. pure-AddsScans tt)))

  load_one-AddsScans :
      (name : String) (width : ℕ) (bits : Option (List Bool))
      → AddsScans (load_one graph root name width bits)
  load_one-AddsScans name width none = pure-AddsScans tt
  load_one-AddsScans name width (some bits) =
      bind-AddsScans (lift (strip_load_padding bits width)) _
        (lift-AddsScans (strip_load_padding bits width))
        (λ seq. write_instrument-AddsScans name (sequence_to_payload seq))

  unload_one-AddsScans :
      (name : String) (width : ℕ) (bits : Option (List Bool))
      → AddsScans (unload_one graph root name width bits)
  unload_one-AddsScans name width none = pure-AddsScans tt
  unload_one-AddsScans name width (some bits) =
      bind-AddsScans (lift (strip_unload_padding bits width)) _
        (lift-AddsScans (strip_unload_padding bits width))
        (λ seq. read_instrument-AddsScans name (sequence_to_payload seq))

  pub load_chains-AddsScans :
      (d : List (ℕ × List Bool)) (targets : List Target)
      → AddsScans (load_chains graph root d targets)
  unfolding load_chains
  load_chains-AddsScans d [] = pure-AddsScans tt
  load_chains-AddsScans d ((chain_id, name, width) ∷ targets) =
      bind-AddsScans (load_one graph root name width (find d chain_id)) _
        (load_one-AddsScans name width (find d chain_id)) (λ u. load_chains-AddsScans d targets)

  pub unload_chains-AddsScans :
      (d : List (ℕ × List Bool)) (targets : List Target)
      → AddsScans (unload_chains graph root d targets)
  unfolding unload_chains
  unload_chains-AddsScans d [] = pure-AddsScans tt
  unload_chains-AddsScans d ((chain_id, name, width) ∷ targets) =
      bind-AddsScans (unload_one graph root name width (find d chain_id)) _
        (unload_one-AddsScans name width (find d chain_id)) (λ u. unload_chains-AddsScans d targets)

  pub find_targets-quiet :
      (m : List (ℕ × String)) (ids : List ℕ) (p : PdlInterpreter) (targets : List Target)
      → (find_targets graph root m ids p).0 ≡ ok targets
      → (find_targets graph root m ids p).1 ≡ p
  unfolding find_targets
  find_targets-quiet m [] p targets h = refl
  find_targets-quiet m (chain_id ∷ ids) p targets h =
      let (name, e, rest, same) =
        continue-returns _ (instrument_of (find m chain_id) chain_id, p) targets h in
      let (width, e', rest', same') =
        continue-returns _ (instrument_width graph name, p) targets rest in
      let (others, e'', rest'', same'') =
        continue-returns _ (find_targets graph root m ids p) targets rest' in
      same ∙ same' ∙ same'' ∙ find_targets-quiet m ids p others e''

-- ===== src/PdlInterpreter/Calls.antt =====
-- Calls of the interpreter's methods, and what a call that raises leaves behind
-- (src/warptap/pdl_interpreter.py).
use warptap.Base.{
  ℕ, ◌++◌, List, [], ◌∷◌, Option, none, some, String, Result, ok, err, ◌≡◌, refl, ap, if◌then◌else◌,
  subst, ◌⊎◌, inl, inr,
}
use warptap.Base.Exec.{pure, ◌>>=◌, continue}
use warptap.Base.Dicts.{lookup, assign, remove}
use warptap.TapIr.{IrOp}
use warptap.IclModel.{Chain}
use warptap.IclModel.Address.{ModuleInstance, name_of, resolve_dotted_address}
use warptap.PdlHistory.{apply_stmt}
use warptap.PdlInterpreter.Fields.{PdlError}
use warptap.PdlInterpreter.State.{PdlInterpreter}
use warptap.SibLayout.{OpenSet}
use warptap.PdlInterpreter.Payload.{value_due, payload_for-due}
use warptap.PdlInterpreter.Phases.{is_write_target, open_target, payload_for, take_pending, deliver}
use warptap.PdlInterpreter.{
  Command, from_address, scope_or_error, require_scope, written, read_bits, i_target, i_write,
  i_read, i_run_loop, i_apply,
}

-- dotted; value, field; expected, field; count, sck_port
pub data Call : Type 0 where
  target : String → Call
  write_value : ℕ → Option String → Call
  read_value : ℕ → Option String → Call
  run_loop : ℕ → Option String → Call
  apply_pending : Call

-- The exception comes from the first of two parts, which leaves the object alone, or from the second.
continue-raises :
    {A B : Type 0} (Q : PdlInterpreter → Type 0) (f : A → Command B) (r : Result PdlError A)
    (p : PdlInterpreter)
    → Q p
    → ((a : A) (e : PdlError) → (f a p).0 ≡ err e → Q (f a p).1)
    → (e : PdlError) → (continue f (r, p)).0 ≡ err e
    → Q (continue f (r, p)).1
continue-raises Q f (ok a) p h later e raised = later a e raised
continue-raises Q f (err problem) p h later e raised = h

-- The interpreter once an `iApply` with a target has put its statement into the history.
abbrev pub begun : PdlInterpreter → PdlInterpreter
begun p = record p { history = p.history ++ apply_stmt ∷ [] }

-- The interpreter as it is between the two phases of an `iApply`.
abbrev pub between : Chain → PdlInterpreter → String → OpenSet → PdlInterpreter
between graph p name opened =
    let value =
      value_due (lookup p.pending_writes name) (is_write_target graph name)
        (lookup p.committed_writes name) in
    record (begun p) {
      currently_open = opened;
      pending_writes = remove p.pending_writes name;
      committed_writes =
          if is_write_target graph name
          then assign p.committed_writes name value
          else p.committed_writes;
      pending_reads = remove p.pending_reads name;
    }

-- What an `iApply` with a target leaves when it raises: the rounds could not be worked out, or the
-- delivery after them.
abbrev pub GivenUp : Chain → PdlInterpreter → PdlError → PdlInterpreter → Type 0
GivenUp graph p e q =
    (node : ModuleInstance) × (p.scope ≡ some node)
    × (((open_target graph (name_of node) p.currently_open ≡ err e) × (q ≡ begun p))
        ⊎ ((sib : String) × (ops : List IrOp) × (opened : OpenSet) × (open_target graph
                (name_of node) p.currently_open
              ≡ ok (sib, ops, opened))
            × (deliver graph opened sib (payload_for graph p (name_of node))
                  (lookup p.pending_reads (name_of node))
                ≡ err e)
            × (q ≡ between graph p (name_of node) opened)))

-- The call is not an `iApply` for a target.
abbrev pub NotApplied : Call → PdlInterpreter → Type 0
NotApplied apply_pending p = p.scope ≡ none
NotApplied call p = Unit

taken-between :
    (graph : Chain) (p : PdlInterpreter) (name : String) (opened : OpenSet)
    → take_pending graph name opened (payload_for graph p name) (begun p)
      ≡ between graph p name opened
unfolding take_pending
taken-between graph p name opened =
    ap (λ v. take_pending graph name opened v (begun p)) (payload_for-due graph p name)

continue-raises_from :
    {A B : Type 0} (Q : PdlError → PdlInterpreter → Type 0) (f : A → Command B)
    (r : Result PdlError A) (p : PdlInterpreter)
    → ((e : PdlError) → r ≡ err e → Q e p)
    → ((a : A) (e : PdlError) → r ≡ ok a → (f a p).0 ≡ err e → Q e (f a p).1)
    → (e : PdlError) → (continue f (r, p)).0 ≡ err e
    → Q e (continue f (r, p)).1
continue-raises_from Q f (ok a) p h later e raised = later a e refl raised
continue-raises_from Q f (err problem) p h later e raised = h e (cc raised)

scope_or_error-ok :
    (scope : Option ModuleInstance) {node : ModuleInstance}
    → scope_or_error scope ≡ ok node
    → scope ≡ some node
scope_or_error-ok none h = absurd cc
scope_or_error-ok (some n) h = cc

scope_or_error-err :
    (scope : Option ModuleInstance) {e : PdlError} → scope_or_error scope ≡ err e → scope ≡ none
scope_or_error-err none h = refl
scope_or_error-err (some n) h = absurd cc

i_apply-raises :
    (graph : Chain) (p : PdlInterpreter) (e : PdlError)
    → (i_apply graph p).0 ≡ err e
    → (((i_apply graph p).1 ≡ p) × (p.scope ≡ none)) ⊎ GivenUp graph p e (i_apply graph p).1
unfolding i_apply require_scope payload_for
i_apply-raises graph p e raised =
    continue-raises_from (λ e q. ((q ≡ p) × (p.scope ≡ none)) ⊎ GivenUp graph p e q) _
      (scope_or_error p.scope) p (λ e' h. inl (refl, scope_or_error-err p.scope h))
      (λ node e' set h.
        let here = scope_or_error-ok p.scope set in
        let payload = payload_for graph p (name_of node) in
        inr (
          continue-raises_from (GivenUp graph p) _
            (open_target graph (name_of node) p.currently_open) (begun p)
            (λ e'' failed. (node, here, inl (failed, refl)))
            (λ t e'' target h'.
              continue-raises_from (GivenUp graph p) _
                (deliver graph t.2 t.0 payload (lookup p.pending_reads (name_of node)))
                (take_pending graph (name_of node) t.2 payload (begun p))
                (λ e3 failed. (
                  node,
                  here,
                  inr (t.0, t.1, t.2, target, failed, taken-between graph p (name_of node) t.2),
                ))
                (λ last e3 done h3. absurd cc) e'' h')
            e' h))
      e raised

without_result :
    (r : Result PdlError (List IrOp) × PdlInterpreter) (e : PdlError)
    → (continue {B = Unit {0}} (λ ops. pure tt) r).0 ≡ err e
    → (r.0 ≡ err e) × (r.1 ≡ (continue {B = Unit {0}} (λ ops. pure tt) r).1)
without_result (ok ops, q) e h = cc
without_result (err problem, q) e h = (cc, refl)

module _ (graph : Chain) (root : ModuleInstance) where
  unfoldable pub perform : Call → Command (Unit {0})
  unfolding i_target i_write i_read i_run_loop i_apply
  perform (target dotted) = i_target root dotted
  perform (write_value value field) = i_write graph value field
  perform (read_value expected field) = i_read graph expected field
  perform (run_loop count sck_port) = i_run_loop count sck_port
  perform apply_pending = do ops ← i_apply graph; pure tt

  -- A call that raises an exception changes nothing, unless it is an `iApply` with a target. Then either
  -- it is phase 1 that raised, and the `iApply` has put its statement into the history and changed
  -- nothing else; or it is phase 2, the delivery, and besides, the set that is open is the one after the
  -- rounds, what was pending for the target is gone, and to a WRITE target the value that was to be
  -- delivered, the pending or else the committed one, or 0, is committed.
  pub perform-raises :
      (call : Call) (p : PdlInterpreter) (e : PdlError)
      → (perform call p).0 ≡ err e
      → (((perform call p).1 ≡ p) × NotApplied call p)
        ⊎ ((call ≡ apply_pending) × GivenUp graph p e (perform call p).1)
  unfolding perform i_target i_write i_read i_run_loop i_apply take_pending require_scope
  perform-raises (target dotted) p e raised = inl (
    (continue-raises (λ q. q ≡ p) _ (from_address (resolve_dotted_address root dotted)) p refl
        (λ node e' h. cc) e raised),
    tt,
  )
  perform-raises (write_value value field) p e raised = inl (
    (continue-raises (λ q. q ≡ p) _ (scope_or_error p.scope) p refl
        (λ node.
          continue-raises (λ q. q ≡ p) _ (written graph p (name_of node) field value) p refl
            (λ v e' h. cc))
        e raised),
    tt,
  )
  perform-raises (read_value expected field) p e raised = inl (
    (continue-raises (λ q. q ≡ p) _ (scope_or_error p.scope) p refl
        (λ node.
          continue-raises (λ q. q ≡ p) _ (read_bits graph (name_of node) field) p refl
            (λ bits e' h. cc))
        e raised),
    tt,
  )
  perform-raises (run_loop count sck_port) p e raised = cc
  perform-raises apply_pending p e raised =
      let (failed, same) = without_result (i_apply graph p) e raised in
      subst
        (λ q.
          ((q ≡ p) × (p.scope ≡ none)) ⊎ ((apply_pending ≡ apply_pending) × GivenUp graph p e q))
        same (elim (i_apply-raises graph p e failed) [ inl h ↦ inl h | inr h ↦ inr (refl, h) ])

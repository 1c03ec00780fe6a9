-- ===== src/PdlInterpreter/Program.antt =====
-- The program of an interpreter, whatever calls were made (src/warptap/pdl_interpreter.py).
use warptap.Base.{
  append_assoc, append-nil, ℕ, ◌++◌, List, [], ◌∷◌, Option, String, Result, ok, err, ◌≡◌, refl, sym,
  subst,
}
use warptap.Base.Exec.{continue, pure}
use warptap.Base.Dicts.{lookup}
use warptap.TapIr.{IrOp}
use warptap.IclModel.{Chain}
use warptap.IclModel.Address.{ModuleInstance, name_of, resolve_dotted_address}
use warptap.PdlHistory.{apply_stmt}
use warptap.PdlInterpreter.Fields.{PdlError}
use warptap.PdlInterpreter.State.{PdlInterpreter, new_interpreter}
use warptap.PdlInterpreter.Phases.{open_target, payload_for, take_pending, deliver}
use warptap.PdlInterpreter.{
  Command, from_address, scope_or_error, require_scope, written, read_bits, wait_op, i_target,
  i_write, i_read, i_run_loop, i_apply,
}
use warptap.PdlInterpreter.Calls.{
  Call, target, write_value, read_value, run_loop, apply_pending, perform,
}
use warptap.PdlInterpreter.Scans.{Scans, Scans-append, open_target-Scans, deliver-Scans}

-- Whole scans and waits.
pub data Segments : List IrOp → Type 0 where
  finished : Segments []
  scans_first : (xs ops : List IrOp) → Scans xs → Segments ops → Segments (xs ++ ops)
  wait_first :
      (count : ℕ) (port : Option String) (ops : List IrOp)
      → Segments ops
      → Segments (wait_op count port ∷ ops)

Segments-append : (xs ys : List IrOp) → Segments xs → Segments ys → Segments (xs ++ ys)
Segments-append [] ys finished h = h
Segments-append _ ys (scans_first xs ops some_scans rest) h =
    subst Segments (sym (append_assoc xs ops ys))
      (scans_first xs (ops ++ ys) some_scans (Segments-append ops ys rest h))
Segments-append _ ys (wait_first count port ops rest) h =
    wait_first count port (ops ++ ys) (Segments-append ops ys rest h)

Scans-Segments : (xs : List IrOp) → Scans xs → Segments xs
Scans-Segments xs h = subst Segments (append-nil xs) (scans_first xs [] h finished)

-- The rest of a block may use that its first part returned.
pub continue-keeps :
    {A B : Type 0} (Q : PdlInterpreter → Type 0) (f : A → Command B) (r : Result PdlError A)
    (p : PdlInterpreter)
    → Q p
    → ((a : A) → r ≡ ok a → Q (f a p).1)
    → Q (continue f (r, p)).1
continue-keeps Q f (ok a) p h later = later a refl
continue-keeps Q f (err problem) p h later = h

abbrev Whole : PdlInterpreter → Type 0
Whole p = Segments p.program

i_apply-Whole : (graph : Chain) (p : PdlInterpreter) → Whole p → Whole (i_apply graph p).1
unfolding i_apply take_pending require_scope
i_apply-Whole graph p h =
    let self = record p { history = p.history ++ apply_stmt ∷ [] } in
    continue-keeps Whole _ (scope_or_error p.scope) p h (λ node set.
      continue-keeps Whole _ (open_target graph (name_of node) p.currently_open) self h (λ t found.
        let payload = payload_for graph self (name_of node) in
        let pending = lookup self.pending_reads (name_of node) in
        continue-keeps Whole _ (deliver graph t.2 t.0 payload pending)
          (take_pending graph (name_of node) t.2 payload self) h
          (λ last delivered. Segments-append p.program (t.1 ++ last) h (
            Scans-Segments (t.1 ++ last) (
              Scans-append t.1 last
                (open_target-Scans graph (name_of node) p.currently_open t found)
                (deliver-Scans graph t.2 t.0 payload pending last delivered))))))

without_result :
    (r : Result PdlError (List IrOp) × PdlInterpreter)
    → (continue {B = Unit {0}} (λ ops. pure tt) r).1 ≡ r.1
without_result (ok ops, q) = refl
without_result (err problem, q) = refl

module _ (graph : Chain) (root : ModuleInstance) where
  perform-Whole : (call : Call) (p : PdlInterpreter) → Whole p → Whole (perform graph root call p).1
  unfolding perform i_target i_write i_read i_run_loop require_scope
  perform-Whole (target dotted) p h =
      continue-keeps Whole _ (from_address (resolve_dotted_address root dotted)) p h (λ node e. h)
  perform-Whole (write_value value field) p h =
      continue-keeps Whole _ (scope_or_error p.scope) p h (λ node e.
        continue-keeps Whole _ (written graph p (name_of node) field value) p h (λ v e'. h))
  perform-Whole (read_value expected field) p h =
      continue-keeps Whole _ (scope_or_error p.scope) p h
        (λ node e. continue-keeps Whole _ (read_bits graph (name_of node) field) p h (λ bits e'. h))
  perform-Whole (run_loop count sck_port) p h =
      Segments-append p.program (wait_op count sck_port ∷ []) h
        (wait_first count sck_port [] finished)
  perform-Whole apply_pending p h =
      subst Whole (sym (without_result (i_apply graph p))) (i_apply-Whole graph p h)

  -- Calls in sequence, in which an exception ends the call only.
  abbrev pub perform_all : List Call → PdlInterpreter → PdlInterpreter
  perform_all [] p = p
  perform_all (call ∷ calls) p = perform_all calls (perform graph root call p).1

  perform_all-Whole :
      (calls : List Call) (p : PdlInterpreter) → Whole p → Whole (perform_all calls p)
  perform_all-Whole [] p h = h
  perform_all-Whole (call ∷ calls) p h =
      perform_all-Whole calls (perform graph root call p).1 (perform-Whole call p h)

  -- After any calls on a new interpreter, of which any may have raised an exception, its program
  -- consists of waits and of whole scans, each from Run-Test/Idle and back; and each scan's TDI value,
  -- and its expected value and mask where it has them, fit in the number of its bits.
  pub perform_all-Segments :
      (calls : List Call) → Segments (perform_all calls new_interpreter).program
  perform_all-Segments calls = perform_all-Whole calls new_interpreter finished

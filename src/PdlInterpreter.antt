-- ===== src/PdlInterpreter.antt =====
-- The interpreter of PDL commands: targets, pending writes and reads, and the scans that carry them
-- out (src/warptap/pdl_interpreter.py).
pub mod Fields
pub mod Merge
pub mod Layout
pub mod State
pub mod Phases
pub mod Delivered
pub mod Payload
pub mod Effect
pub mod Fit
pub mod Calls
pub mod Committed
pub mod Scans
pub mod Returned
pub mod Program
use warptap.Base.{
  ℕ, ◌++◌, if◌then◌else◌, Bool, true, false, List, [], ◌∷◌, Option, none, some, String, Result, ok,
  err,
}
use warptap.Base.Exec.{Exec, pure, lift, gets, modify, ◌>>=◌, ◌>>◌}
use warptap.Base.Dicts.{lookup, assign}
use warptap.TapFsm.{run_test_idle}
use warptap.TapIr.{IrOp, runtest, pulse_pin}
use warptap.IclModel.{Chain}
use warptap.IclModel.Address.{IclAddressError, ModuleInstance, name_of, resolve_dotted_address}
use warptap.SibLayout.{OpenMap, OpenSet, names, LayoutError, get_or_0}
use warptap.SibRetarget.{RetargetError}
use warptap.PdlHistory.{apply_stmt, PdlStatement, target_stmt, write_stmt, read_stmt, run_loop_stmt}
use warptap.PdlInterpreter.Fields.{PdlError, no_scope, address_error, resolve_field, set_bit_range}
use warptap.PdlInterpreter.State.{PendingRead, PdlInterpreter, pending_or_committed}
use warptap.PdlInterpreter.Phases.{open_target, payload_for, take_pending, deliver}

abbrev pub Command : Type 0 → Type 0
Command A = Exec PdlError PdlInterpreter A

-- `self.history.append(stmt)`
abbrev pub append_history : PdlStatement → Command (Unit {0})
append_history stmt = modify λ p. record p { history = p.history ++ stmt ∷ [] }

abbrev pub from_address : {A : Type 0} → Result IclAddressError A → Result PdlError A
from_address (ok a) = ok a
from_address (err e) = err (address_error e)

unfoldable pub i_target : ModuleInstance → String → Command (Unit {0})
i_target root dotted = do
  node ← lift (from_address (resolve_dotted_address root dotted))
  modify (λ p. record p { scope = some node })
  append_history (target_stmt dotted)

abbrev pub scope_or_error : Option ModuleInstance → Result PdlError ModuleInstance
scope_or_error none = err no_scope
scope_or_error (some node) = ok node

-- `_require_scope`
unfoldable pub require_scope : Command ModuleInstance
require_scope p = (scope_or_error p.scope, p)

-- The value that a write leaves pending.
unfoldable pub written : Chain → PdlInterpreter → String → Option String → ℕ → Result PdlError ℕ
written graph p name none value = ok value
written graph p name (some field) value = elim (resolve_field graph name field) [
  | err e ↦ err e
  | ok (low, high) ↦ set_bit_range (pending_or_committed p name) low high value
]

-- The field of the statement in the history.
abbrev pub field_or : Option String → String → String
field_or none name = name
field_or (some field) name = field

unfoldable pub i_write : Chain → ℕ → Option String → Command (Unit {0})
unfolding require_scope written
i_write graph value field = do
  scope ← require_scope
  self ← gets (λ p. p)
  let name = name_of scope
  pending ← lift (written graph self name field value)
  modify (λ p. record p { pending_writes = assign p.pending_writes name pending })
  append_history (write_stmt (field_or field name) value)

abbrev pub read_bits : Chain → String → Option String → Result PdlError (Option (ℕ × ℕ))
read_bits graph name none = ok none
read_bits graph name (some field) = elim (resolve_field graph name field) [
  | err e ↦ err e
  | ok bits ↦ ok (some bits)
]

unfoldable pub i_read : Chain → ℕ → Option String → Command (Unit {0})
unfolding require_scope
i_read graph expected field = do
  scope ← require_scope
  let name = name_of scope
  bits ← lift (read_bits graph name field)
  modify (λ p. record p {
    pending_reads = assign p.pending_reads name (record { expected = expected; bits = bits });
  })
  append_history (read_stmt (field_or field name) expected)

abbrev pub extend_program : List IrOp → Command (Unit {0})
extend_program ops = modify λ p. record p { program = p.program ++ ops }

abbrev pub wait_op : ℕ → Option String → IrOp
wait_op count none = runtest count run_test_idle run_test_idle
wait_op count (some port) = pulse_pin port count []

unfoldable pub i_run_loop : ℕ → Option String → Command (Unit {0})
i_run_loop count sck_port = do
  extend_program (wait_op count sck_port ∷ [])
  append_history (run_loop_stmt count sck_port)

-- The statement is in the history before anything can raise.
unfoldable pub i_apply : Chain → Command (List IrOp)
unfolding require_scope
i_apply graph = do
  scope ← require_scope
  append_history apply_stmt
  self ← gets (λ p. p)
  let name = name_of scope
  (target_sib, ops, opened) ← lift (open_target graph name self.currently_open)
  let payload = payload_for graph self name
  modify (take_pending graph name opened payload)
  last ← lift (deliver graph opened target_sib payload (lookup self.pending_reads name))
  extend_program (ops ++ last)
  pure (ops ++ last)

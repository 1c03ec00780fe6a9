-- ===== src/PdlInterpreter/State.antt =====
-- The state of a PDL interpreter (src/warptap/pdl_interpreter.py).
use warptap.Base.{ℕ, List, [], Option, none, some, String}
use warptap.Base.Dicts.{lookup}
use warptap.TapIr.{IrOp}
use warptap.IclModel.Address.{ModuleInstance}
use warptap.SibLayout.{OpenSet, names, get_or_0}
use warptap.PdlHistory.{PdlStatement}

-- A pending read: the expected value, and the bits of a named field or none for the whole instrument.
pub record PendingRead : Type 0 where
  pub expected : ℕ
  pub bits : Option (ℕ × ℕ)  -- low, high

-- `_graph` and `_root`, which no method assigns, are arguments of the methods that read them.
pub record PdlInterpreter : Type 0 where
  pub scope : Option ModuleInstance
  pub pending_writes : List (String × ℕ)
  pub committed_writes : List (String × ℕ)
  pub pending_reads : List (String × PendingRead)
  pub currently_open : OpenSet
  pub program : List IrOp
  pub history : List PdlStatement

abbrev pub new_interpreter : PdlInterpreter
new_interpreter = record {
  scope = none;
  pending_writes = [];
  committed_writes = [];
  pending_reads = [];
  currently_open = names [];
  program = [];
  history = [];
}

-- `self._committed_writes.get(name, 0)`
abbrev pub committed : PdlInterpreter → String → ℕ
committed p name = get_or_0 (lookup p.committed_writes name)

-- `self._pending_writes.get(name, ...)`
abbrev pub pending_or_committed : PdlInterpreter → String → ℕ
pending_or_committed p name = elim (lookup p.pending_writes name) [
  | none ↦ committed p name
  | some v ↦ v
]

-- ===== src/FaultflowCompaction.antt =====
-- Compacted scan patterns carried over a SIB network: the chains come out folded into few channels
-- (src/warptap/faultflow_compaction.py).
use Prim.Native.Nat.{bit_or, bit_xor}
use warptap.Base.{
  ℕ, zero, suc, ◌*◌, ◌^◌, ltb, if◌then◌else◌, Bool, List, [], ◌∷◌, ◌++◌, Option, none, some, String,
  Result, ok, err, length,
}
use warptap.Base.Exec.{Exec, pure, lift, modify, ◌>>=◌, ◌>>◌}
use warptap.TapIr.{IrOp, pulse_pin}
use warptap.IclModel.{Chain}
use warptap.IclModel.Address.{ModuleInstance}
use warptap.SibLayout.{bit_of}
use warptap.PdlInterpreter.State.{PdlInterpreter, new_interpreter}
use warptap.FaultflowRetarget.{
  FaultflowError, Session, Pattern, find, hold_pins, instrument_width, strip_load_padding,
  sequence_to_payload, write_instrument, read_instrument,
}

-- The FaultflowCompactionErrors, and the IndexError of a sequence that ends before the cycle.
pub data CompactionError : Type 0 where
  load_not_mapped fold_not_covered : ℕ → CompactionError
  sequence_ended : CompactionError
  faultflow_error : FaultflowError → CompactionError

-- `seq[cycle]`
abbrev pub bit_at : List Bool → ℕ → Result CompactionError ℕ
bit_at [] cycle = err sequence_ended
bit_at (b ∷ bits) zero = ok (bit_of b)
bit_at (b ∷ bits) (suc cycle) = bit_at bits cycle

-- A chain's bit in the cycle.
abbrev pub chain_bit : List (ℕ × List Bool) → ℕ → ℕ → Result CompactionError ℕ
chain_bit expected_unload cycle chain_id = elim (find expected_unload chain_id) [
  | none ↦ err (fold_not_covered chain_id)
  | some bits ↦ bit_at bits cycle
]

abbrev both :
    Result CompactionError ℕ → Result CompactionError ℕ → (ℕ → ℕ → ℕ) → Result CompactionError ℕ
both (err e) r f = err e
both (ok a) (err e) f = err e
both (ok a) (ok b) f = ok (f a b)

-- The loop over the chains that one output folds. Of two chains that raise, the first one does.
unfoldable pub fold_chains : List (ℕ × List Bool) → ℕ → List ℕ → Result CompactionError ℕ
fold_chains expected_unload cycle [] = ok 0
fold_chains expected_unload cycle (chain_id ∷ chains) =
    both (chain_bit expected_unload cycle chain_id) (fold_chains expected_unload cycle chains)
      bit_xor

-- The loop over the outputs from `o` on.
unfoldable pub channel_from :
    List (ℕ × List Bool) → List (List ℕ) → ℕ → ℕ → Result CompactionError ℕ
unfolding fold_chains
channel_from expected_unload [] cycle o = ok 0
channel_from expected_unload (chains ∷ fanout) cycle o =
    both (fold_chains expected_unload cycle chains)
      (channel_from expected_unload fanout cycle (suc o)) (λ bit rest. bit_or (bit * 2 ^ o) rest)

unfoldable pub expected_channel_value :
    List (ℕ × List Bool) → List (List ℕ) → ℕ → Result CompactionError ℕ
unfolding channel_from
expected_channel_value expected_unload fanout cycle = channel_from expected_unload fanout cycle 0

abbrev CompactedSession : Type 0 → Type 0
CompactedSession A = Exec CompactionError PdlInterpreter A

abbrev widen : {A : Type 0} → Result FaultflowError A → Result CompactionError A
widen (ok a) = ok a
widen (err e) = err (faultflow_error e)

abbrev within : {A : Type 0} → Session A → CompactedSession A
within m p = let (r, q) = m p in (widen r, q)

abbrev mapped : Option String → ℕ → Result CompactionError String
mapped none chain_id = err (load_not_mapped chain_id)
mapped (some name) chain_id = ok name

abbrev add_op : IrOp → CompactedSession (Unit {0})
add_op op = modify λ p. record p { program = p.program ++ op ∷ [] }

-- `max((len(v) for v in expected_unload.values()), default=0)`
abbrev pub longest : List (ℕ × List Bool) → ℕ
longest [] = 0
longest ((chain_id, bits) ∷ d) =
    let others = longest d in if ltb others (length bits) then length bits else others

module _ (chain_to_instrument : List (ℕ × String)) (channel_instrument : String) (graph : Chain)
    (root : ModuleInstance) (fanout : List (List ℕ)) (clock_port scan_enable_port : String)
    (clock_pulse_count : ℕ) where
  -- The load side.
  unfoldable pub load_each : List (ℕ × List Bool) → CompactedSession (Unit {0})
  load_each [] = pure tt
  load_each ((chain_id, bits) ∷ load_seqs) = do
    name ← lift (mapped (find chain_to_instrument chain_id) chain_id)
    width ← lift (widen (instrument_width graph name))
    seq ← lift (widen (strip_load_padding bits width))
    within (write_instrument graph root name (sequence_to_payload seq))
    load_each load_seqs

  abbrev capture_pulse : Pattern → CompactedSession (Unit {0})
  capture_pulse pattern = elim pattern.expected_unload [
    | [] ↦ pure tt
    | (entry ∷ entries) ↦
        add_op (pulse_pin clock_port clock_pulse_count (hold_pins pattern.capture_pi_values))
  ]

  -- The shift pulse after every cycle but the last.
  abbrev shift_pulse : ℕ → CompactedSession (Unit {0})
  shift_pulse zero = pure tt
  shift_pulse (suc later) = add_op (pulse_pin clock_port 1 ((scan_enable_port, 1) ∷ []))

  -- The loop over the cycles from one on, of which `count` are left.
  unfoldable pub unload_cycles : List (ℕ × List Bool) → ℕ → ℕ → CompactedSession (Unit {0})
  unfolding expected_channel_value
  unload_cycles expected_unload cycle zero = pure tt
  unload_cycles expected_unload cycle (suc count) = do
    value ← lift (expected_channel_value expected_unload fanout cycle)
    within (read_instrument graph root channel_instrument value)
    shift_pulse count
    unload_cycles expected_unload (suc cycle) count

  unfoldable pub retarget_each : List Pattern → CompactedSession (Unit {0})
  unfolding load_each unload_cycles
  retarget_each [] = pure tt
  retarget_each (pattern ∷ patterns) = do
    load_each pattern.load_seqs
    capture_pulse pattern
    unload_cycles pattern.expected_unload 0 (longest pattern.expected_unload)
    retarget_each patterns

  abbrev program_of :
      Result CompactionError (Unit {0}) × PdlInterpreter → Result CompactionError (List IrOp)
  program_of (ok done, p) = ok p.program
  program_of (err e, p) = err e

  unfoldable pub retarget_compacted_faultflow_patterns :
      List Pattern → Result CompactionError (List IrOp)
  unfolding retarget_each
  retarget_compacted_faultflow_patterns patterns =
      program_of (retarget_each patterns new_interpreter)

-- ===== src/FaultflowCompression/Retarget.antt =====
-- Compressed scan patterns carried over a SIB network (src/warptap/faultflow_compression.py).
use warptap.Base.{ℕ, suc, Bool, List, [], ◌∷◌, ◌++◌, Option, none, some, String, Result, ok, err}
use warptap.Base.Exec.{Exec, pure, lift, modify, ◌>>=◌, ◌>>◌}
use warptap.TapIr.{IrOp, pulse_pin}
use warptap.IclModel.{Chain}
use warptap.IclModel.Address.{ModuleInstance}
use warptap.PdlInterpreter.State.{PdlInterpreter, new_interpreter}
use warptap.FaultflowRetarget.{
  FaultflowError, Session, find, hold_pins, instrument_width, strip_unload_padding,
  sequence_to_payload, sorted_ids, write_instrument, read_instrument,
}
use warptap.FaultflowCompression.{CompressionError, LfsrPolynomial, care_bit_rows}
use warptap.FaultflowCompression.Pattern.{solve_pattern_seed}

-- One pattern of a campaign with compression.
pub record CompressedPattern : Type 0 where
  pub load_seqs : List (ℕ × List Bool)
  pub expected_unload : List (ℕ × List Bool)
  pub capture_pi_values : List (String × Bool)
  pub load_care : Option (List (ℕ × ℕ))

-- `unload_not_mapped` is the FaultflowCompressionError of the unload side.
pub data CompressedError : Type 0 where
  unload_not_mapped : ℕ → CompressedError
  compression_error : CompressionError → CompressedError
  faultflow_error : FaultflowError → CompressedError

abbrev CompressedSession : Type 0 → Type 0
CompressedSession A = Exec CompressedError PdlInterpreter A

abbrev widen : {A : Type 0} → Result FaultflowError A → Result CompressedError A
widen (ok a) = ok a
widen (err e) = err (faultflow_error e)

abbrev within : {A : Type 0} → Session A → CompressedSession A
within m p = let (r, q) = m p in (widen r, q)

abbrev from_compression : {A : Type 0} → Result CompressionError A → Result CompressedError A
from_compression (ok a) = ok a
from_compression (err e) = err (compression_error e)

abbrev mapped : Option String → ℕ → Result CompressedError String
mapped none chain_id = err (unload_not_mapped chain_id)
mapped (some name) chain_id = ok name

-- `expected_unload[key]` for a key that it has
abbrev entry_or_nil : Option (List Bool) → List Bool
entry_or_nil none = []
entry_or_nil (some bits) = bits

abbrev add_op : IrOp → CompressedSession (Unit {0})
add_op op = modify λ p. record p { program = p.program ++ op ∷ [] }

module _ (chain_to_instrument : List (ℕ × String)) (channel_instrument : String) (graph : Chain)
    (root : ModuleInstance) (poly : LfsrPolynomial) (max_chain_length : ℕ)
    (clock_port scan_enable_port : String) (clock_pulse_count : ℕ) where
  -- The load side: the seed, the idle edge, and the reseed edge with the steps after it.
  unfoldable pub load_seed : List (List ℕ) → ℕ → CompressedPattern → CompressedSession (Unit {0})
  load_seed rows pattern_index pattern = elim pattern.load_seqs [
    | [] ↦ pure tt
    | (entry ∷ entries) ↦ (do
      seed ← lift (
          from_compression
            (solve_pattern_seed pattern.load_seqs rows poly.width pattern_index pattern.load_care))
      within (write_instrument graph root channel_instrument seed)
      add_op (pulse_pin clock_port 1 ((scan_enable_port, 0) ∷ []))
      add_op (pulse_pin clock_port max_chain_length ((scan_enable_port, 1) ∷ [])))
  ]

  abbrev capture_pulse : CompressedPattern → CompressedSession (Unit {0})
  capture_pulse pattern = elim pattern.expected_unload [
    | [] ↦ pure tt
    | (entry ∷ entries) ↦ add_op (
        pulse_pin clock_port clock_pulse_count
          ((scan_enable_port, 0) ∷ hold_pins pattern.capture_pi_values))
  ]

  -- The unload side.
  unfoldable pub unload_each : List (ℕ × List Bool) → List ℕ → CompressedSession (Unit {0})
  unload_each expected_unload [] = pure tt
  unload_each expected_unload (chain_id ∷ ids) = do
    name ← lift (mapped (find chain_to_instrument chain_id) chain_id)
    width ← lift (widen (instrument_width graph name))
    seq ← lift (widen (strip_unload_padding (entry_or_nil (find expected_unload chain_id)) width))
    within (read_instrument graph root name (sequence_to_payload seq))
    unload_each expected_unload ids

  unfoldable pub retarget_each :
      List (List ℕ) → ℕ → List CompressedPattern → CompressedSession (Unit {0})
  unfolding load_seed unload_each
  retarget_each rows pattern_index [] = pure tt
  retarget_each rows pattern_index (pattern ∷ patterns) = do
    load_seed rows pattern_index pattern
    capture_pulse pattern
    unload_each pattern.expected_unload (sorted_ids pattern.expected_unload [])
    retarget_each rows (suc pattern_index) patterns

  abbrev program_of :
      Result CompressedError (Unit {0}) × PdlInterpreter → Result CompressedError (List IrOp)
  program_of (ok done, p) = ok p.program
  program_of (err e, p) = err e

  unfoldable pub retarget_compressed_faultflow_patterns :
      List (List ℕ) → List CompressedPattern → Result CompressedError (List IrOp)
  unfolding retarget_each
  retarget_compressed_faultflow_patterns phase_shifter_taps patterns = program_of (
      retarget_each (care_bit_rows poly phase_shifter_taps max_chain_length) 0 patterns
        new_interpreter)

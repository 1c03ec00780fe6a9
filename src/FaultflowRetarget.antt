-- ===== src/FaultflowRetarget.antt =====
-- Scan patterns carried over a SIB network: each chain of a pattern is an instrument
-- (src/warptap/faultflow_retarget.py).
pub mod Adds
pub mod Records
pub mod Order
pub mod Payload
use warptap.Base.{
  ℕ, ◌-◌, ◌==◌, ltb, if◌then◌else◌, Bool, true, false, List, [], ◌∷◌, ◌++◌, map, reverse, Option,
  none, some, String, Result, ok, err, length, take, drop, truthy,
}
use warptap.Base.Exec.{Exec, pure, lift, modify, ◌>>=◌, ◌>>◌}
use warptap.TapIr.{IrOp, pulse_pin, bits_to_int}
use warptap.IclModel.{InstrumentNode, Chain, end, sib_node, scan_mux_node}
use warptap.IclModel.Address.{ModuleInstance}
use warptap.SibLayout.{bit_of}
use warptap.SibRetarget.{gates}
use warptap.PdlInterpreter.Fields.{PdlError}
use warptap.PdlInterpreter.State.{PdlInterpreter, new_interpreter}
use warptap.PdlInterpreter.{Command, extend_program, i_target, i_write, i_read, i_apply}

-- The FaultflowRetargetErrors, what the interpreter raises, and the AttributeError of
-- `node.instrument` for a mux.
pub data FaultflowError : Type 0 where
  chain_not_mapped : ℕ → FaultflowError
  no_instrument_named : String → FaultflowError
  sequence_too_short mux_has_no_instrument : FaultflowError
  pdl_error : PdlError → FaultflowError

-- `_instrument_width`: a loop over the slots at the top level.
unfoldable pub instrument_width : Chain → String → Result FaultflowError ℕ
instrument_width end name = err (no_instrument_named name)
instrument_width (scan_mux_node mux width arms rest) name = err mux_has_no_instrument
instrument_width (sib_node sib none nested rest) name = instrument_width rest name
instrument_width (sib_node sib (some i) nested rest) name =
    let later = instrument_width rest name in if gates (some i) name then ok i.width else later

-- `_strip_load_padding`: the last `width` elements.
unfoldable pub strip_load_padding : List Bool → ℕ → Result FaultflowError (List Bool)
strip_load_padding seq width =
    if ltb (length seq) width then err sequence_too_short else ok (drop (length seq - width) seq)

-- `_strip_unload_padding`: the first `width` elements.
unfoldable pub strip_unload_padding : List Bool → ℕ → Result FaultflowError (List Bool)
strip_unload_padding seq width =
    if ltb (length seq) width then err sequence_too_short else ok (take width seq)

unfoldable pub sequence_to_payload : List Bool → ℕ
sequence_to_payload seq = bits_to_int (map bit_of (reverse seq))

-- A dictionary with chain numbers as keys. The keys of the patterns are the decimals of chain numbers.
module _ {A : Type 0} where
  abbrev pub find : List (ℕ × A) → ℕ → Option A
  find [] key = none
  find ((k, v) ∷ d) key = if k == key then some v else find d key

-- One entry of `--export-patterns`.
pub record Pattern : Type 0 where
  pub load_seqs : List (ℕ × List Bool)
  pub expected_unload : List (ℕ × List Bool)
  pub capture_pi_values : List (String × Bool)

-- A number into an ascending list without repetitions.
abbrev pub insert_id : ℕ → List ℕ → List ℕ
insert_id n [] = n ∷ []
insert_id n (m ∷ ms) =
    let later = insert_id n ms in
    if n == m then m ∷ ms else (if ltb n m then n ∷ m ∷ ms else m ∷ later)

-- `sorted(... | ...)` of the keys.
unfoldable pub sorted_ids : {A : Type 0} → List (ℕ × A) → List ℕ → List ℕ
sorted_ids [] ids = ids
sorted_ids ((k, v) ∷ d) ids = insert_id k (sorted_ids d ids)

abbrev pub Session : Type 0 → Type 0
Session A = Exec FaultflowError PdlInterpreter A

abbrev pub from_pdl :
    {A : Type 0} → Result PdlError A × PdlInterpreter → Result FaultflowError A × PdlInterpreter
from_pdl (ok a, p) = (ok a, p)
from_pdl (err e, p) = (err (pdl_error e), p)

-- A call of the interpreter.
abbrev pub call : {A : Type 0} → Command A → Session A
call m p = from_pdl (m p)

-- `hold_pins`
abbrev pub hold_pins : List (String × Bool) → List (String × ℕ)
hold_pins values = map (λ v. (v.0, bit_of v.1)) values

abbrev pub is_some : {A : Type 0} → Option A → Bool
is_some none = false
is_some (some a) = true

-- `chain_id not in chain_to_instrument`
abbrev pub instrument_of : Option String → ℕ → Result FaultflowError String
instrument_of none chain_id = err (chain_not_mapped chain_id)
instrument_of (some name) chain_id = ok name

-- A chain of a pattern with its instrument and the width of that.
abbrev pub Target : Type 0
Target = ℕ × String × ℕ

module _ (graph : Chain) (root : ModuleInstance) where
  -- `iTarget`, `iWrite`, `iApply`
  unfoldable pub write_instrument : String → ℕ → Session (Unit {0})
  write_instrument name value = do
    call (i_target root name)
    call (i_write graph value none)
    ops ← call (i_apply graph)
    pure tt

  -- `iTarget`, `iRead`, `iApply`
  unfoldable pub read_instrument : String → ℕ → Session (Unit {0})
  read_instrument name value = do
    call (i_target root name)
    call (i_read graph value none)
    ops ← call (i_apply graph)
    pure tt

  -- The first loop over the chains of a pattern.
  unfoldable pub find_targets : List (ℕ × String) → List ℕ → Session (List Target)
  unfolding instrument_width
  find_targets chain_to_instrument [] = pure []
  find_targets chain_to_instrument (chain_id ∷ ids) = do
    name ← lift (instrument_of (find chain_to_instrument chain_id) chain_id)
    width ← lift (instrument_width graph name)
    targets ← find_targets chain_to_instrument ids
    pure ((chain_id, name, width) ∷ targets)

  abbrev pub load_one : String → ℕ → Option (List Bool) → Session (Unit {0})
  load_one name width none = pure tt
  load_one name width (some bits) = do
    seq ← lift (strip_load_padding bits width)
    write_instrument name (sequence_to_payload seq)

  -- Phase 1.
  unfoldable pub load_chains : List (ℕ × List Bool) → List Target → Session (Unit {0})
  unfolding write_instrument strip_load_padding sequence_to_payload
  load_chains load_seqs [] = pure tt
  load_chains load_seqs ((chain_id, name, width) ∷ targets) = do
    load_one name width (find load_seqs chain_id)
    load_chains load_seqs targets

  abbrev pub unload_one : String → ℕ → Option (List Bool) → Session (Unit {0})
  unload_one name width none = pure tt
  unload_one name width (some bits) = do
    seq ← lift (strip_unload_padding bits width)
    read_instrument name (sequence_to_payload seq)

  -- Phase 3.
  unfoldable pub unload_chains : List (ℕ × List Bool) → List Target → Session (Unit {0})
  unfolding read_instrument strip_unload_padding sequence_to_payload
  unload_chains expected_unload [] = pure tt
  unload_chains expected_unload ((chain_id, name, width) ∷ targets) = do
    unload_one name width (find expected_unload chain_id)
    unload_chains expected_unload targets

  -- Phase 2.
  abbrev pub pulse : String → ℕ → List (String × Bool) → List (ℕ × List Bool) → Session (Unit {0})
  pulse clock_port clock_pulse_count values [] = pure tt
  pulse clock_port clock_pulse_count values (entry ∷ entries) =
      call (extend_program (pulse_pin clock_port clock_pulse_count (hold_pins values) ∷ []))

  module _ (chain_to_instrument : List (ℕ × String)) (clock_port : String)
      (clock_pulse_count : ℕ) where
    unfoldable pub retarget_pattern : Pattern → Session (Unit {0})
    unfolding find_targets load_chains unload_chains sorted_ids
    retarget_pattern pattern = do
      targets ←
          find_targets chain_to_instrument
            (sorted_ids pattern.load_seqs (sorted_ids pattern.expected_unload []))
      load_chains pattern.load_seqs targets
      pulse clock_port clock_pulse_count pattern.capture_pi_values pattern.expected_unload
      unload_chains pattern.expected_unload targets

    unfoldable pub retarget_patterns : List Pattern → Session (Unit {0})
    unfolding retarget_pattern
    retarget_patterns [] = pure tt
    retarget_patterns (pattern ∷ patterns) = do retarget_pattern pattern; retarget_patterns patterns

    abbrev program_of :
        Result FaultflowError (Unit {0}) × PdlInterpreter → Result FaultflowError (List IrOp)
    program_of (ok done, p) = ok p.program
    program_of (err e, p) = err e

    -- The program of a new interpreter, if no pattern raises.
    unfoldable pub retarget_faultflow_patterns : List Pattern → Result FaultflowError (List IrOp)
    unfolding retarget_patterns
    retarget_faultflow_patterns patterns = program_of (retarget_patterns patterns new_interpreter)

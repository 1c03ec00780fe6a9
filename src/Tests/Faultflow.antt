-- ===== src/Tests/Faultflow.antt =====
-- Runs of the pattern tools (src/warptap/faultflow_retarget.py, faultflow_compression.py).
use warptap.Base.{
  ℕ, true, false, Bool, List, [], ◌∷◌, ◌++◌, map, reverse, none, some, ok, length, ◌≡◌, refl, ◌⊎◌,
}
use warptap.TapIr.{for_range, bits_from_int, bits_to_int}
use warptap.SibLayout.{bit_of, normalize_open, layout_bit_length, compose_bits}
use warptap.SibRetarget.{open_path_to, stage_open_sequence}
use warptap.PdlInterpreter.{i_target, i_write, i_read, i_apply}
use warptap.PdlInterpreter.Phases.{open_target, deliver, take_pending, payload_for}
use warptap.PdlInterpreter.Layout.{target_layout, read_mask_bits, step_inside}
use warptap.PdlInterpreter.State.{new_interpreter}
use warptap.IclModel.{Chain, end, sib_node, write}
use warptap.IclModel.Address.{
  ModuleInstance, module_instance, no_modules, child, resolve_dotted_address,
}
use warptap.FaultflowRetarget.{
  Target, find_targets, sorted_ids, Pattern, strip_load_padding, strip_unload_padding,
  sequence_to_payload, retarget_pattern,
}
use warptap.FaultflowRetarget.Payload.{sequence_to_payload-bits}
use warptap.FaultflowRetarget.Order.{Phases, retarget_pattern-pulses}
use warptap.FaultflowCompression.{LfsrPolynomial, care_bit_rows, expand, solve_xor_broadcast}
use warptap.FaultflowCompression.Linear.{at, care_bit_rows-expand}
use warptap.FaultflowCompression.Solver.{Solves}
use warptap.FaultflowCompression.Solver.Solution.{solve_xor_broadcast-Solves}
use warptap.FaultflowCompression.Pattern.{solve_pattern_seed}
use warptap.FaultflowCompression.Expansion.{AllAgree, solve_pattern_seed-AllAgree}
use warptap.Tests.Network.{instrument}

sequence_to_payload-bits_example :
    (strip_load_padding ((false ∷ []) ++ (true ∷ false ∷ [])) (length (true ∷ false ∷ []))
      ≡ ok (true ∷ false ∷ []))
    × (strip_unload_padding ((true ∷ false ∷ []) ++ (true ∷ [])) (length (true ∷ false ∷ []))
        ≡ ok (true ∷ false ∷ []))
    × (bits_from_int (sequence_to_payload (true ∷ false ∷ [])) (length (true ∷ false ∷ []))
        ≡ reverse (map bit_of (true ∷ false ∷ [])))
sequence_to_payload-bits_example =
    sequence_to_payload-bits (false ∷ []) (true ∷ false ∷ []) (true ∷ [])

-- One chain of two cells behind one SIB.
abbrev network : Chain
network = sib_node "s" (some (instrument "c0" write)) end end

abbrev root : ModuleInstance
root = module_instance "top" (child (module_instance "c0" no_modules) no_modules)

abbrev pattern : Pattern
pattern = record {
  load_seqs = (0, true ∷ false ∷ []) ∷ [];
  expected_unload = (0, false ∷ true ∷ []) ∷ [];
  capture_pi_values = ("a", true) ∷ [];
}

retarget_pattern-pulses_example :
    (targets : List Target) × (find_targets network root
        ((0, "c0") ∷ [])
        (sorted_ids pattern.load_seqs (sorted_ids pattern.expected_unload []))
        new_interpreter
      ≡ (ok targets, new_interpreter))
    × Phases network root "clk" 1 pattern targets new_interpreter
        (retarget_pattern network root ((0, "c0") ∷ []) "clk" 1 pattern new_interpreter)
unfolding retarget_pattern i_target resolve_dotted_address i_write i_apply open_target open_path_to
    stage_open_sequence normalize_open for_range layout_bit_length compose_bits deliver i_read
    take_pending target_layout read_mask_bits bits_from_int bits_to_int step_inside payload_for
retarget_pattern-pulses_example =
    retarget_pattern-pulses network root ((0, "c0") ∷ []) "clk" 1 pattern new_interpreter refl

abbrev poly : LfsrPolynomial
poly = record { width = 3; taps = 2 ∷ [] }

-- Two chains, of which the second takes the exclusive or of two stages.
abbrev phase : List (List ℕ)
phase = (0 ∷ []) ∷ (1 ∷ 2 ∷ []) ∷ []

care_bit_rows-expand_example :
    map (map (at 3 5)) (care_bit_rows poly phase 4) ≡ expand poly phase 4 (bits_from_int 5 3)
care_bit_rows-expand_example = care_bit_rows-expand poly phase 4 5

solve_xor_broadcast-Solves_example :
    ((seed : ℕ) × (solve_xor_broadcast (3 ∷ 6 ∷ []) (true ∷ false ∷ []) 3 ≡ some seed)
      × Solves 3 seed (3 ∷ 6 ∷ []) (true ∷ false ∷ []))
    ⊎ ((solve_xor_broadcast (3 ∷ 6 ∷ []) (true ∷ false ∷ []) 3 ≡ none)
        × ((s : ℕ) → ¬ Solves 3 s (3 ∷ 6 ∷ []) (true ∷ false ∷ [])))
solve_xor_broadcast-Solves_example = solve_xor_broadcast-Solves (3 ∷ 6 ∷ []) (true ∷ false ∷ []) 3

contradiction_found : solve_xor_broadcast (3 ∷ 3 ∷ []) (true ∷ false ∷ []) 3 ≡ none
unfolding solve_xor_broadcast
contradiction_found = refl

abbrev load_seqs : List (ℕ × List Bool)
load_seqs = (0, true ∷ false ∷ []) ∷ (1, true ∷ false ∷ []) ∷ []

abbrev seed : ℕ
seed = 3

solve_pattern_seed-AllAgree_example :
    AllAgree none load_seqs (expand poly phase 2 (bits_from_int seed 3))
unfolding solve_pattern_seed care_bit_rows solve_xor_broadcast for_range
solve_pattern_seed-AllAgree_example =
    solve_pattern_seed-AllAgree poly phase 2 load_seqs 0 none seed refl

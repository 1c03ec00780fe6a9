-- ===== src/FaultflowRetarget/Order.antt =====
-- The order of the operations of a pattern (src/warptap/faultflow_retarget.py).
use warptap.Base.{
  ℕ, List, [], ◌∷◌, ◌++◌, Bool, String, Result, ok, append-nil, ◌≡◌, refl, sym, ap, subst, ◌∙◌,
}
use warptap.Base.Exec.{continue, ◌>>◌}
use warptap.TapIr.{IrOp, pulse_pin}
use warptap.IclModel.{Chain}
use warptap.IclModel.Address.{ModuleInstance}
use warptap.PdlInterpreter.State.{PdlInterpreter}
use warptap.PdlInterpreter.Scans.{Scans}
use warptap.FaultflowRetarget.{
  FaultflowError, Pattern, Session, hold_pins, find_targets, load_chains, unload_chains, pulse,
  sorted_ids, Target, retarget_pattern,
}
use warptap.FaultflowRetarget.Adds.{
  continue-returns, find_targets-quiet, load_chains-AddsScans, unload_chains-AddsScans,
}
use warptap.FaultflowRetarget.Records.{
  load_stmts, unload_stmts, load_chains-Records, unload_chains-Records,
}

-- The pulse of a pattern with something to unload.
abbrev pub pulses : String → ℕ → List (String × Bool) → List (ℕ × List Bool) → List IrOp
pulses clock_port count values [] = []
pulses clock_port count values (entry ∷ entries) =
    pulse_pin clock_port count (hold_pins values) ∷ []

module _ (graph : Chain) (root : ModuleInstance) where
  pulse-program :
      (clock_port : String) (count : ℕ) (values : List (String × Bool)) (d : List (ℕ × List Bool))
      (p : PdlInterpreter)
      → (pulse graph root clock_port count values d p).1.program
        ≡ p.program ++ pulses clock_port count values d
  pulse-program clock_port count values [] p = sym (append-nil p.program)
  pulse-program clock_port count values (entry ∷ entries) p = refl

  pulse-history :
      (clock_port : String) (count : ℕ) (values : List (String × Bool)) (d : List (ℕ × List Bool))
      (p : PdlInterpreter)
      → (pulse graph root clock_port count values d p).1.history ≡ p.history
  pulse-history clock_port count values [] p = refl
  pulse-history clock_port count values (entry ∷ entries) p = refl

  module _ (clock_port : String) (count : ℕ) (pattern : Pattern) where
    -- What the three phases of a pattern do, to where they end.
    abbrev pub Phases :
        List Target → PdlInterpreter → Result FaultflowError (Unit {0}) × PdlInterpreter → Type 0
    Phases targets p end =
        (loaded pulsed : PdlInterpreter) × (loads unloads : List IrOp) × (load_chains graph root
            pattern.load_seqs targets p
          ≡ (ok tt, loaded))
        × (loaded.program ≡ p.program ++ loads)
        × Scans loads
        × (loaded.history ≡ p.history ++ load_stmts root pattern.load_seqs targets)
        × (pulsed.program
            ≡ loaded.program
              ++ pulses clock_port count pattern.capture_pi_values pattern.expected_unload)
        × (pulsed.history ≡ loaded.history)
        × (unload_chains graph root pattern.expected_unload targets pulsed ≡ end)
        × (end.1.program ≡ pulsed.program ++ unloads)
        × Scans unloads
        × (end.1.history ≡ pulsed.history ++ unload_stmts root pattern.expected_unload targets)

    abbrev three : List Target → Session (Unit {0})
    three targets = do
      load_chains graph root pattern.load_seqs targets
      pulse graph root clock_port count pattern.capture_pi_values pattern.expected_unload
      unload_chains graph root pattern.expected_unload targets

    three-Phases :
        (targets : List Target) (p : PdlInterpreter)
        → (three targets p).0 ≡ ok tt
        → Phases targets p (three targets p)
    three-Phases targets p h =
        let load = load_chains graph root pattern.load_seqs targets p in
        let (u1, e1, r1, s1) = continue-returns _ load tt h in
        let (loads, add1, scans1) =
          load_chains-AddsScans graph root pattern.load_seqs targets p u1 e1 in
        let values = pattern.capture_pi_values in
        let unload = pattern.expected_unload in
        let pulsed = pulse graph root clock_port count values unload load.1 in
        let (u2, e2, r2, s2) = continue-returns _ pulsed tt r1 in
        let (unloads, add2, scans2) =
          unload_chains-AddsScans graph root unload targets pulsed.1 tt r2 in
        let loaded : load ≡ (ok tt, load.1) = λ i. (e1 i, load.1) in
        let given : pulsed ≡ (ok tt, pulsed.1) = λ i. (e2 i, pulsed.1) in
        let end : three targets p ≡ unload_chains graph root unload targets pulsed.1 =
          ap
            (continue (λ u.
              pulse graph root clock_port count values unload
              >> unload_chains graph root unload targets))
            loaded
          ∙ ap (continue (λ u. unload_chains graph root unload targets)) given in
        (
          load.1,
          pulsed.1,
          loads,
          unloads,
          loaded,
          add1,
          scans1,
          load_chains-Records graph root pattern.load_seqs targets p u1 e1,
          pulse-program clock_port count values unload load.1,
          pulse-history clock_port count values unload load.1,
          sym end,
          ap (λ r. r.1.program) end ∙ add2,
          scans2,
          ap (λ r. r.1.history) end
              ∙ unload_chains-Records graph root unload targets pulsed.1 tt r2,
        )

  pub retarget_pattern-pulses :
      (chain_to_instrument : List (ℕ × String)) (clock_port : String) (count : ℕ)
      (pattern : Pattern) (p : PdlInterpreter)
      → (retarget_pattern graph root chain_to_instrument clock_port count pattern p).0 ≡ ok tt
      → (targets : List Target) × (find_targets graph root chain_to_instrument
            (sorted_ids pattern.load_seqs (sorted_ids pattern.expected_unload []))
            p
          ≡ (ok targets, p))
        × Phases clock_port count pattern targets p
            (retarget_pattern graph root chain_to_instrument clock_port count pattern p)
  unfolding retarget_pattern
  retarget_pattern-pulses m clock_port count pattern p h =
      let ids = sorted_ids pattern.load_seqs (sorted_ids pattern.expected_unload []) in
      let found = find_targets graph root m ids p in
      let (targets, e0, r0, s0) = continue-returns _ found tt h in
      let same = find_targets-quiet graph root m ids p targets e0 in
      let there : found ≡ (ok targets, p) = λ i. (e0 i, same i) in
      let whole : retarget_pattern graph root m clock_port count pattern p
          ≡ three clock_port count pattern targets p =
        ap (continue (three clock_port count pattern)) there in
      (
        targets,
        there,
        subst (Phases clock_port count pattern targets p) (sym whole)
            (three-Phases clock_port count pattern targets p (ap (λ r. r.0) (sym whole) ∙ h)),
      )

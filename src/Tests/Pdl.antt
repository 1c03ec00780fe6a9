-- ===== src/Tests/Pdl.antt =====
-- Runs of the PDL interpreter (src/warptap/pdl_interpreter.py, src/warptap/icl_model.py).
use warptap.Base.{
  ℕ, same_name, ◌++◌, List, [], ◌∷◌, none, some, ok, err, false, String, ◌≡◌, refl, inl, ◌⊎◌, arith,
  ◌&&◌, leb, if◌then◌else◌, ◌-◌,
}
use warptap.Base.BitOf.{bit}
use warptap.TapIr.{for_range, IrOp, bits_to_int, bits_from_int}
use warptap.IclModel.Address.{
  ModuleInstance, module_instance, no_modules, child, split_dots, resolve_dotted_address, no_child,
  children_of,
}
use warptap.IclModel.Address.Reached.{Reaches, NoneNamed, resolve_dotted_address-Reaches}
use warptap.SibLayout.{layout_bit_length, compose_bits, OpenMap, names, normalize_open}
use warptap.SibModel.{capture_content}
use warptap.SibModel.State.{new_register}
use warptap.SibModel.Load.{size}
use warptap.SibRetarget.{no_path, open_path_to, stage_open_sequence}
use warptap.SibRound.{moved}
use warptap.SibRound.Sync.{Synced, new_register-Synced}
use warptap.PdlInterpreter.Fields.{set_bit_range, retarget_error, find_instrument}
use warptap.PdlInterpreter.Phases.{
  open_target, deliver, expected_scan, payload_for, is_write_target,
}
use warptap.PdlInterpreter.Effect.{carry_out, moved_by, i_apply-moved}
use warptap.SibRetarget.Stages.{last_of}
use warptap.Tests.Retarget.{network-HasValues}
use warptap.PdlInterpreter.Delivered.{HeldAt, Holds}
use warptap.PdlInterpreter.Payload.{value_due}
use warptap.Base.Dicts.{lookup}
use warptap.PdlInterpreter.Committed.{i_apply-payload}
use warptap.PdlInterpreter.Merge.{set_bit_range-bit}
use warptap.PdlInterpreter.State.{PdlInterpreter, new_interpreter}
use warptap.PdlInterpreter.{i_apply}
use warptap.PdlInterpreter.Calls.{
  target, write_value, read_value, run_loop, apply_pending, perform, perform-raises, GivenUp,
  NotApplied,
}
use warptap.PdlInterpreter.Program.{Segments, perform_all, perform_all-Segments}
use warptap.Tests.Network.{network, fresh}

abbrev root : ModuleInstance
root =
    module_instance "top"
      (child (module_instance "ia" no_modules) (child (module_instance "ic" no_modules) no_modules))

abbrev session : PdlInterpreter
session =
    perform_all network root
      (target "ia"
        ∷ write_value 2 none
        ∷ apply_pending
        ∷ target "ic"
        ∷ read_value 1 none
        ∷ apply_pending
        ∷ [])
      new_interpreter

resolve_dotted_address-Reaches_example :
    ((node : ModuleInstance) × (resolve_dotted_address root "ia.x" ≡ ok node)
      × Reaches root (split_dots "ia.x") node)
    ⊎ ((before : List String) × (segment : String) × (after : List String) × (stop : ModuleInstance)
        × (resolve_dotted_address root "ia.x" ≡ err (no_child segment))
        × (split_dots "ia.x" ≡ before ++ segment ∷ after)
        × Reaches root before stop
        × NoneNamed (children_of stop) segment)
resolve_dotted_address-Reaches_example = resolve_dotted_address-Reaches root "ia.x"

set_bit_range-bit_example :
    (merged : ℕ) × (set_bit_range 255 2 4 1 ≡ ok merged)
    × (bit merged 3 ≡ (if leb 2 3 && leb 3 4 then bit 1 (3 - 2) else bit 255 3))
set_bit_range-bit_example = set_bit_range-bit 255 2 4 1 3 (omega arith)

perform_all-Segments_example :
    Segments
      (perform_all network root
        (apply_pending ∷ target "ia" ∷ write_value 2 none ∷ apply_pending ∷ run_loop 5 none ∷ [])
        new_interpreter).program
perform_all-Segments_example =
    perform_all-Segments network root
      (apply_pending ∷ target "ia" ∷ write_value 2 none ∷ apply_pending ∷ run_loop 5 none ∷ [])

-- The first instrument is the target, with a write pending.
abbrev ready : PdlInterpreter
ready = record new_interpreter {
  scope = some (module_instance "ia" no_modules);
  pending_writes = ("ia", 2) ∷ [];
}

abbrev stages : List OpenMap
stages = (("a", 1) ∷ []) ∷ []

-- The top module is no instrument.
abbrev astray : PdlInterpreter
astray = record ready { scope = some root }

perform-raises_example :
    (((perform network root apply_pending astray).1 ≡ astray) × NotApplied apply_pending astray)
    ⊎ ((apply_pending ≡ apply_pending)
        × GivenUp network astray
            (retarget_error no_path)
            (perform network root apply_pending astray).1)
unfolding perform open_target open_path_to
perform-raises_example =
    perform-raises network root apply_pending astray (retarget_error no_path) refl

i_apply-moved_example :
    let value =
      value_due
        (lookup ready.pending_writes "ia")
        (is_write_target network "ia")
        (lookup ready.committed_writes "ia") in
    (ops : List IrOp) × ((i_apply network ready).0 ≡ ok ops)
    × ((i_apply network ready).1.program ≡ [] ++ ops)
    × (carry_out fresh ops
        ≡ moved
            (normalize_open (last_of (names []) stages))
            (some "a")
            value
            (moved_by stages fresh))
    × Synced network (i_apply network ready).1.currently_open (carry_out fresh ops)
    × HeldAt (Holds value) (("a", 1) ∷ []) (carry_out fresh ops)
unfolding open_path_to stage_open_sequence normalize_open size expected_scan moved for_range
    new_register bits_from_int bits_to_int capture_content
i_apply-moved_example =
    i_apply-moved network ready (module_instance "ia" no_modules) (("a", 1) ∷ []) "a" stages none
      none fresh network-HasValues refl refl (inl (refl, refl, refl)) refl refl (λ bits e. refl)
      (new_register-Synced network fresh (tt, ((tt, tt), (refl, tt))) refl)
      (
        omega arith,
        (
          (λ o e. tt),
          (λ e. tt),
          (λ e. tt),
          ((λ o e. cc), (λ e. (refl, tt, tt)), (λ e. (refl, tt, tt)), (inl refl, refl, tt)),
        ),
        tt,
      )
      (omega arith)
      (
        (λ o e. tt),
        (λ e. tt),
        (λ e. tt),
        ((λ o e. cc), (λ e. (refl, tt, tt)), (λ e. (refl, tt, tt)), (inl refl, refl, tt)),
      )

i_apply-payload_example :
    (payload_for network (i_apply network ready).1 "ia" ≡ payload_for network ready "ia")
    × ((other : String)
        → same_name "ia" other ≡ false
        → payload_for network (i_apply network ready).1 other ≡ payload_for network ready other)
unfolding i_apply is_write_target open_target open_path_to stage_open_sequence normalize_open
    layout_bit_length compose_bits deliver for_range find_instrument
i_apply-payload_example =
    i_apply-payload network ready (module_instance "ia" no_modules) _ refl refl refl

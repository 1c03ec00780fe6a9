-- ===== src/PdlInterpreter/Committed.antt =====
-- What the interpreter remembers of WRITE instruments (src/warptap/pdl_interpreter.py).
use warptap.Base.{
  ℕ, if◌then◌else◌, Bool, true, false, List, some, String, same_name, ok, ◌≡◌, refl, sym, ap, ◌∙◌,
}
use warptap.Base.Dicts.{
  lookup, assign, lookup-assign, lookup-assign_other, lookup-remove, lookup-remove_other,
}
use warptap.TapIr.{IrOp}
use warptap.IclModel.{Chain}
use warptap.IclModel.Address.{ModuleInstance, name_of}
use warptap.SibLayout.{OpenSet}
use warptap.PdlInterpreter.State.{PdlInterpreter}
use warptap.PdlInterpreter.Phases.{is_write_target, payload_for, take_pending}
use warptap.PdlInterpreter.Payload.{payload_for-due}
use warptap.PdlInterpreter.Returned.{i_apply-ok}
use warptap.PdlInterpreter.{i_apply}

assigned_other :
    (w : Bool) (d : List (String × ℕ)) (name other : String) (payload : ℕ)
    → same_name name other ≡ false
    → lookup (if w then assign d name payload else d) other ≡ lookup d other
assigned_other true d name other payload h = lookup-assign_other d name other payload h
assigned_other false d name other payload h = refl

-- What a later `iApply` would deliver, after the assignments between the two phases.
module _ (graph : Chain) (name : String) (opened : OpenSet) (payload : ℕ) (p : PdlInterpreter) where
  take_pending-payload :
      is_write_target graph name ≡ true
      → payload_for graph (take_pending graph name opened payload p) name ≡ payload
  unfolding take_pending
  take_pending-payload w =
      payload_for-due graph (take_pending graph name opened payload p) name
      ∙ rw (w, lookup-remove p.pending_writes name, lookup-assign p.committed_writes name payload)
          refl

  take_pending-other :
      (other : String)
      → same_name name other ≡ false
      → payload_for graph (take_pending graph name opened payload p) other
        ≡ payload_for graph p other
  unfolding take_pending
  take_pending-other other h =
      payload_for-due graph (take_pending graph name opened payload p) other
      ∙ rw
          (
            lookup-remove_other p.pending_writes name other h,
            assigned_other (is_write_target graph name) p.committed_writes name other payload h,
          )
          (sym (payload_for-due graph p other))

-- After an `iApply` for a WRITE instrument has returned, the next one, if no write comes in between,
-- delivers to it the value that this one delivered; and the value that an `iApply` delivers to any
-- other instrument is what it was.
pub i_apply-payload :
    (graph : Chain) (p : PdlInterpreter) (node : ModuleInstance) (ops : List IrOp)
    → p.scope ≡ some node
    → is_write_target graph (name_of node) ≡ true
    → (i_apply graph p).0 ≡ ok ops
    → (payload_for graph (i_apply graph p).1 (name_of node) ≡ payload_for graph p (name_of node))
      × ((other : String)
          → same_name (name_of node) other ≡ false
          → payload_for graph (i_apply graph p).1 other ≡ payload_for graph p other)
unfolding payload_for
i_apply-payload graph p node ops set w returned =
    let (opened, all, some_scans, e) = i_apply-ok graph p node ops set returned in
    let name = name_of node in
    let payload = payload_for graph p name in
    (
      ap (λ r. payload_for graph r.1 name) e ∙ take_pending-payload graph name opened payload p w,
      λ other h.
          ap (λ r. payload_for graph r.1 other) e
          ∙ take_pending-other graph name opened payload p other h,
    )

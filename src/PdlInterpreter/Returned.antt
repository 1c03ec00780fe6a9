-- ===== src/PdlInterpreter/Returned.antt =====
-- What an `iApply` that returns has done to the interpreter (src/warptap/pdl_interpreter.py).
use warptap.Base.{
  Option, none, ◌++◌, List, [], ◌∷◌, some, Result, ok, err, ◌≡◌, refl, ok-injective, subst, sym, ap,
  ◌∙◌,
}
use warptap.Base.Exec.{continue}
use warptap.Base.Dicts.{lookup}
use warptap.TapIr.{IrOp}
use warptap.IclModel.{Chain}
use warptap.IclModel.Address.{ModuleInstance, name_of}
use warptap.SibLayout.{OpenSet}
use warptap.PdlInterpreter.Fields.{PdlError}
use warptap.PdlInterpreter.State.{PdlInterpreter}
use warptap.PdlInterpreter.Phases.{open_target, payload_for, take_pending, deliver}
use warptap.PdlInterpreter.Scans.{Scans, Scans-append, open_target-Scans, deliver-Scans}
use warptap.PdlInterpreter.Effect.{applied, i_apply-applied}
use warptap.PdlHistory.{apply_stmt}
use warptap.PdlInterpreter.{Command, scope_or_error, require_scope, i_apply}

pub continue-ok :
    {A B : Type 0} (f : A → Command B) (r : Result PdlError A) (p : PdlInterpreter) (b : B)
    → (continue f (r, p)).0 ≡ ok b
    → (a : A) × (r ≡ ok a) × ((f a p).0 ≡ ok b)
continue-ok f (ok a) p b h = (a, refl, h)
continue-ok f (err e) p b h = cc

scope_or_error-ok :
    (scope : Option ModuleInstance) (node : ModuleInstance)
    → scope_or_error scope ≡ ok node
    → scope ≡ some node
scope_or_error-ok none node h = cc
scope_or_error-ok (some other) node h = cc

-- An `iApply` that returns has a target.
pub i_apply-scope :
    (graph : Chain) (p : PdlInterpreter) (ops : List IrOp)
    → (i_apply graph p).0 ≡ ok ops
    → (node : ModuleInstance) × (p.scope ≡ some node)
unfolding i_apply require_scope
i_apply-scope graph p ops returned =
    let (node, here, rest) = continue-ok _ (scope_or_error p.scope) p ops returned in
    (node, scope_or_error-ok p.scope node here)

-- An `iApply` that returns has emitted whole scans.
pub i_apply-ok :
    (graph : Chain) (p : PdlInterpreter) (node : ModuleInstance) (ops : List IrOp)
    → p.scope ≡ some node
    → (i_apply graph p).0 ≡ ok ops
    → (opened : OpenSet) × (all : List IrOp) × Scans all
      × (i_apply graph p ≡ (ok all, applied graph p (name_of node) opened all))
unfolding i_apply require_scope take_pending payload_for
i_apply-ok graph p node ops set returned =
    let name = name_of node in
    let self = record p { history = p.history ++ apply_stmt ∷ [] } in
    let (node', here, rest) = continue-ok _ (scope_or_error p.scope) p ops returned in
    let same : node' ≡ node = ok-injective (sym here ∙ ap scope_or_error set) in
    let found_rest =
      continue-ok _ (open_target graph (name_of node') p.currently_open) self ops rest in
    let t = found_rest.0 in
    let payload = payload_for graph p (name_of node') in
    let (last, delivered, end) =
      continue-ok _ (deliver graph t.2 t.0 payload (lookup p.pending_reads (name_of node')))
        (take_pending graph (name_of node') t.2 payload self) ops found_rest.2 in
    (
      t.2,
      t.1 ++ last,
      Scans-append t.1 last
          (open_target-Scans graph (name_of node') p.currently_open t found_rest.1)
          (deliver-Scans graph t.2 t.0 payload (lookup p.pending_reads (name_of node')) last
            delivered),
      i_apply-applied graph p node t.0 t.2 t.1 last set
          (subst (λ n. open_target graph (name_of n) p.currently_open ≡ ok t) same found_rest.1)
          (subst
            (λ n.
              deliver graph t.2 t.0 (payload_for graph p (name_of n))
                (lookup p.pending_reads (name_of n))
              ≡ ok last)
            same delivered),
    )

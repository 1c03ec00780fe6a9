-- ===== src/FaultflowRetarget/Records.antt =====
-- What the parts of a pattern add to the history (src/warptap/faultflow_retarget.py).
use warptap.Base.{
  ℕ, ◌-◌, List, [], ◌∷◌, ◌++◌, Bool, ltb, Bool-cases, inl, inr, Option, none, some, String, Result,
  ok, err, append_assoc, append-nil, ◌≡◌, refl, sym, ap, ◌∙◌, length, take, drop,
}
use warptap.Base.Exec.{pure, ◌>>=◌}
use warptap.IclModel.{Chain}
use warptap.IclModel.Address.{ModuleInstance, IclAddressError, name_of, resolve_dotted_address}
use warptap.PdlHistory.{PdlStatement, target_stmt, write_stmt, read_stmt, apply_stmt}
use warptap.PdlInterpreter.State.{PdlInterpreter}
use warptap.PdlInterpreter.Returned.{i_apply-ok, continue-ok}
use warptap.PdlInterpreter.{
  Command, from_address, written, require_scope, i_target, i_write, i_read, i_apply,
}
use warptap.FaultflowRetarget.{
  FaultflowError, find, strip_load_padding, strip_unload_padding, sequence_to_payload, Session,
  call, write_instrument, read_instrument, load_one, load_chains, unload_one, unload_chains, Target,
}
use warptap.FaultflowRetarget.Adds.{continue-returns, call-ok}

-- The own name of the module at an address.
abbrev pub local_name : ModuleInstance → String → String
local_name root name = elim (resolve_dotted_address root name) [
  | err e ↦ name
  | ok node ↦ name_of node
]

abbrev pub write_stmts : ModuleInstance → String → ℕ → List PdlStatement
write_stmts root name value =
    target_stmt name ∷ write_stmt (local_name root name) value ∷ apply_stmt ∷ []

abbrev pub read_stmts : ModuleInstance → String → ℕ → List PdlStatement
read_stmts root name value =
    target_stmt name ∷ read_stmt (local_name root name) value ∷ apply_stmt ∷ []

-- The statements of a chain with a load sequence, of which the last bits are loaded.
abbrev pub load_stmt : ModuleInstance → String → ℕ → Option (List Bool) → List PdlStatement
load_stmt root name width none = []
load_stmt root name width (some seq) =
    write_stmts root name (sequence_to_payload (drop (length seq - width) seq))

abbrev pub load_stmts : ModuleInstance → List (ℕ × List Bool) → List Target → List PdlStatement
load_stmts root d [] = []
load_stmts root d ((chain_id, name, width) ∷ targets) =
    load_stmt root name width (find d chain_id) ++ load_stmts root d targets

-- The statements of a chain that is unloaded, of which the first bits are compared.
abbrev pub unload_stmt : ModuleInstance → String → ℕ → Option (List Bool) → List PdlStatement
unload_stmt root name width none = []
unload_stmt root name width (some seq) = read_stmts root name (sequence_to_payload (take width seq))

abbrev pub unload_stmts : ModuleInstance → List (ℕ × List Bool) → List Target → List PdlStatement
unload_stmts root d [] = []
unload_stmts root d ((chain_id, name, width) ∷ targets) =
    unload_stmt root name width (find d chain_id) ++ unload_stmts root d targets

-- If the method returns, it has put these statements into the history.
abbrev pub Records : {A : Type 0} → List PdlStatement → Session A → Type 0
Records {A} stmts m =
    (p : PdlInterpreter) (a : A) → (m p).0 ≡ ok a → (m p).1.history ≡ p.history ++ stmts

bind-Records :
    {A B : Type 0} (xs ys : List PdlStatement) (m : Session A) (f : A → Session B)
    → Records xs m
    → ((a : A) → Records ys (f a))
    → Records (xs ++ ys) (m >>= f)
bind-Records xs ys m f hm hf p b h =
    let (a, first, later, same) = continue-returns f (m p) b h in
    ap (λ q. q.history) same
    ∙ hf a (m p).1 b later
    ∙ ap (λ (t : List PdlStatement). t ++ ys) (hm p a first)
    ∙ append_assoc p.history xs ys

pure-Records : {A : Type 0} (a : A) → Records [] (pure a)
pure-Records a p b h = sym (append-nil p.history)

from_address-ok :
    (r : Result IclAddressError ModuleInstance) {node : ModuleInstance}
    → from_address r ≡ ok node
    → r ≡ ok node
from_address-ok (ok n) h = cc
from_address-ok (err e) h = absurd cc

module _ (graph : Chain) (root : ModuleInstance) where
  i_target-found :
      (name : String) (p : PdlInterpreter) (node : ModuleInstance)
      → resolve_dotted_address root name ≡ ok node
      → (local_name root name ≡ name_of node)
        × ((i_target root name p).1.scope ≡ some node)
        × ((i_target root name p).1.history ≡ p.history ++ target_stmt name ∷ [])
  unfolding i_target
  i_target-found name p node there = (rw (there, local_name) refl, rw there refl, rw there refl)

  i_target-returns :
      (name : String) (p : PdlInterpreter) (u : Unit {0})
      → (i_target root name p).0 ≡ ok u
      → (node : ModuleInstance) × (local_name root name ≡ name_of node)
        × ((i_target root name p).1.scope ≡ some node)
        × ((i_target root name p).1.history ≡ p.history ++ target_stmt name ∷ [])
  unfolding i_target
  i_target-returns name p u h =
      let (node, found, rest) =
        continue-ok _ (from_address (resolve_dotted_address root name)) p u h in
      let (own, scope, history) =
        i_target-found name p node (from_address-ok (resolve_dotted_address root name) found) in
      (node, own, scope, history)

  i_write-history :
      (value : ℕ) (q : PdlInterpreter) (node : ModuleInstance)
      → q.scope ≡ some node
      → ((i_write graph value none q).1.history ≡ q.history ++ write_stmt (name_of node) value ∷ [])
        × ((i_write graph value none q).1.scope ≡ some node)
  unfolding i_write require_scope written
  i_write-history value q node set = (rw set refl, rw set refl)

  i_read-history :
      (value : ℕ) (q : PdlInterpreter) (node : ModuleInstance)
      → q.scope ≡ some node
      → ((i_read graph value none q).1.history ≡ q.history ++ read_stmt (name_of node) value ∷ [])
        × ((i_read graph value none q).1.scope ≡ some node)
  unfolding i_read require_scope
  i_read-history value q node set = (rw set refl, rw set refl)

  -- A target, a call that records a statement for it, and an apply.
  applied-Records :
      (name : String) (m : Command (Unit {0})) (stmt : String → PdlStatement)
      → ((q : PdlInterpreter) (node : ModuleInstance)
          → q.scope ≡ some node
          → ((m q).1.history ≡ q.history ++ stmt (name_of node) ∷ []) × ((m q).1.scope ≡ some node))
      → Records (target_stmt name ∷ stmt (local_name root name) ∷ apply_stmt ∷ []) (
          call (i_target root name) >>= λ u.
          call m >>= λ u'. call (i_apply graph) >>= λ ops. pure {E = FaultflowError} tt)
  applied-Records name m stmt records p a h =
      let (u, e, rest, same) = continue-returns _ (call (i_target root name) p) a h in
      let (returned, kept) = call-ok (i_target root name) p u e in
      let (node, own, scope, history) = i_target-returns name p u returned in
      let q = (call (i_target root name) p).1 in
      let (u', e', rest', same') = continue-returns _ (call m q) a rest in
      let (returned', kept') = call-ok m q u' e' in
      let (history', scope') = records q node (ap (λ r. r.scope) kept ∙ scope) in
      let q' = (call m q).1 in
      let (ops, e'', rest'', same'') = continue-returns _ (call (i_apply graph) q') a rest' in
      let (returned'', kept'') = call-ok (i_apply graph) q' ops e'' in
      let (opened, all, scans, done) =
        i_apply-ok graph q' node ops (ap (λ r. r.scope) kept' ∙ scope') returned'' in
      let snoc = λ (x : PdlStatement) (t : List PdlStatement). t ++ x ∷ [] in
      ap (λ r. r.history) (same ∙ same' ∙ same'' ∙ kept'')
      ∙ ap (λ r. r.1.history) done
      ∙ ap (snoc apply_stmt) (
          ap (λ r. r.history) kept'
          ∙ history'
          ∙ ap (snoc (stmt (name_of node))) (ap (λ r. r.history) kept ∙ history))
      ∙ rw own (
          append_assoc (p.history ++ target_stmt name ∷ []) (stmt (name_of node) ∷ [])
            (apply_stmt ∷ [])
          ∙ append_assoc p.history (target_stmt name ∷ []) (stmt (name_of node) ∷ apply_stmt ∷ []))

  write_instrument-Records :
      (name : String) (value : ℕ)
      → Records (write_stmts root name value) (write_instrument graph root name value)
  unfolding write_instrument
  write_instrument-Records name value =
      applied-Records name (i_write graph value none) (λ own. write_stmt own value)
        (i_write-history value)

  read_instrument-Records :
      (name : String) (value : ℕ)
      → Records (read_stmts root name value) (read_instrument graph root name value)
  unfolding read_instrument
  read_instrument-Records name value =
      applied-Records name (i_read graph value none) (λ own. read_stmt own value)
        (i_read-history value)

  load_one-Records :
      (name : String) (width : ℕ) (seq : Option (List Bool))
      → Records (load_stmt root name width seq) (load_one graph root name width seq)
  unfolding strip_load_padding
  load_one-Records name width none p a h = pure-Records tt p a h
  load_one-Records name width (some seq) p a h = elim (Bool-cases (ltb (length seq) width)) [
    | inl short ↦ absurd (cc (rw short at h))
    | inr long ↦
        let wrote =
          write_instrument-Records name (sequence_to_payload (drop (length seq - width) seq)) p a in
        rw long (wrote (rw long at h))
  ]

  unload_one-Records :
      (name : String) (width : ℕ) (seq : Option (List Bool))
      → Records (unload_stmt root name width seq) (unload_one graph root name width seq)
  unfolding strip_unload_padding
  unload_one-Records name width none p a h = pure-Records tt p a h
  unload_one-Records name width (some seq) p a h = elim (Bool-cases (ltb (length seq) width)) [
    | inl short ↦ absurd (cc (rw short at h))
    | inr long ↦
        let read = read_instrument-Records name (sequence_to_payload (take width seq)) p a in
        rw long (read (rw long at h))
  ]

  pub load_chains-Records :
      (d : List (ℕ × List Bool)) (targets : List Target)
      → Records (load_stmts root d targets) (load_chains graph root d targets)
  unfolding load_chains
  load_chains-Records d [] = pure-Records tt
  load_chains-Records d ((chain_id, name, width) ∷ targets) =
      bind-Records (load_stmt root name width (find d chain_id)) (load_stmts root d targets)
        (load_one graph root name width (find d chain_id)) _
        (load_one-Records name width (find d chain_id)) (λ u. load_chains-Records d targets)

  pub unload_chains-Records :
      (d : List (ℕ × List Bool)) (targets : List Target)
      → Records (unload_stmts root d targets) (unload_chains graph root d targets)
  unfolding unload_chains
  unload_chains-Records d [] = pure-Records tt
  unload_chains-Records d ((chain_id, name, width) ∷ targets) =
      bind-Records (unload_stmt root name width (find d chain_id)) (unload_stmts root d targets)
        (unload_one graph root name width (find d chain_id)) _
        (unload_one-Records name width (find d chain_id)) (λ u. unload_chains-Records d targets)

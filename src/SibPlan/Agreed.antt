-- ===== src/SibPlan/Agreed.antt =====
-- The network and the module tree of a plan agree (src/warptap/sib_plan.py).
use warptap.Base.{
  List, [], ◌∷◌, ◌++◌, Option, none, some, String, Result, ok, err, raise_if, >>=-eq-ok,
  ok-injective, ◌≡◌, refl, sym, ap, ap₂, subst, ◌∙◌,
}
use warptap.IclModel.{
  InstrumentNode, Chain, end, sib_node, scan_mux_node, IclModelError, name_in,
  validate_physical_graph,
}
use warptap.IclModel.Address.{
  ModuleInstance, ModuleInstances, no_modules, child, name_of, children_of,
}
use warptap.IclModel.Valid.{WellFormed, validate_physical_graph-WellFormed}
use warptap.SibPlan.{
  Specs, no_specs, instrument_spec, hierarchy_spec, duplicate_name, children_from, from_model,
  build_chain, build_sib_plan,
}

abbrev own_name : Option InstrumentNode → List String
own_name none = []
own_name (some i) = i.name ∷ []

-- The instruments of a network without muxes, in the order of the chain.
abbrev pub instrument_names : Chain → List String
instrument_names end = []
instrument_names (sib_node name instrument nested rest) =
    own_name instrument ++ instrument_names nested ++ instrument_names rest
instrument_names (scan_mux_node name width arms rest) = instrument_names rest

abbrev pub module_names : ModuleInstances → List String
module_names no_modules = []
module_names (child m rest) = name_of m ∷ module_names rest

abbrev names_of : List ModuleInstance → List String
names_of [] = []
names_of (m ∷ modules) = name_of m ∷ names_of modules

names_of-append : (xs ys : List ModuleInstance) → names_of (xs ++ ys) ≡ names_of xs ++ names_of ys
names_of-append [] ys = refl
names_of-append (x ∷ xs) ys = ap (λ (t : List String). name_of x ∷ t) (names_of-append xs ys)

children_from-names :
    (modules : List ModuleInstance) → module_names (children_from modules) ≡ names_of modules
children_from-names [] = refl
children_from-names (m ∷ modules) =
    ap (λ (t : List String). name_of m ∷ t) (children_from-names modules)

abbrev Agreed : Chain × List ModuleInstance → Type 0
Agreed out = instrument_names out.0 ≡ names_of out.1

build_chain-Agreed :
    (specs : Specs) (seen : List String) (out : Chain × List ModuleInstance)
    → build_chain specs seen ≡ ok out
    → Agreed out
unfolding build_chain
build_chain-Agreed no_specs seen out h = subst Agreed (ok-injective h) refl
build_chain-Agreed (instrument_spec spec rest) seen out h =
    let (u, free, h1) =
      >>=-eq-ok (raise_if (name_in spec.name seen) (duplicate_name spec.name)) _ h in
    let (later, built, last) = >>=-eq-ok (build_chain rest (spec.name ∷ seen)) _ h1 in
    subst Agreed (ok-injective last) (
      ap (λ (t : List String). spec.name ∷ t)
        (build_chain-Agreed rest (spec.name ∷ seen) later built))
build_chain-Agreed (hierarchy_spec name children rest) seen out h =
    let (u, free, h1) = >>=-eq-ok (raise_if (name_in name seen) (duplicate_name name)) _ h in
    let (inner, below, h2) = >>=-eq-ok (build_chain children []) _ h1 in
    let (later, built, last) = >>=-eq-ok (build_chain rest (name ∷ seen)) _ h2 in
    subst Agreed (ok-injective last) (
      ap₂ (λ (x : List String) (y : List String). x ++ y)
        (build_chain-Agreed children [] inner below)
        (build_chain-Agreed rest (name ∷ seen) later built)
      ∙ sym (names_of-append inner.1 later.1))

from_model-ok :
    (r : Result IclModelError (Unit {0})) (u : Unit {0}) → from_model r ≡ ok u → r ≡ ok tt
from_model-ok (ok v) u h = refl
from_model-ok (err e) u h = cc

-- A plan that is built is a well-formed network, and its module tree has below the root one module
-- for each instrument of the network, with its name and in the order of the chain, at whatever depth
-- the instrument stands.
pub build_sib_plan-Agreed :
    (specs : Specs) (top_name : String) (chain : Chain) (root : ModuleInstance)
    → build_sib_plan specs top_name ≡ ok (chain, root)
    → WellFormed chain
      × (name_of root ≡ top_name)
      × (instrument_names chain ≡ module_names (children_of root))
unfolding build_sib_plan
build_sib_plan-Agreed specs top_name chain root h =
    let (out, built, h1) = >>=-eq-ok (build_chain specs []) _ h in
    let (u, checked, last) = >>=-eq-ok (from_model (validate_physical_graph out.0)) _ h1 in
    let formed =
      (validate_physical_graph-WellFormed out.0
        (from_model-ok (validate_physical_graph out.0) u checked)).1 in
    let agreed = build_chain-Agreed specs [] out built in
    let good : WellFormed out.0
        × (top_name ≡ top_name)
        × (instrument_names out.0 ≡ module_names (children_from out.1)) =
      (formed, refl, agreed ∙ sym (children_from-names out.1)) in
    subst
      (λ (p : Chain × ModuleInstance).
        WellFormed p.0
        × (name_of p.1 ≡ top_name)
        × (instrument_names p.0 ≡ module_names (children_of p.1)))
      (ok-injective last) good

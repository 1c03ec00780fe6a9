-- ===== src/SibPlan.antt =====
-- The plan of a SIB network: one SIB for each instrument or group (src/warptap/sib_plan.py).
pub mod Agreed
use Prim.Native.String.{◌++◌ as join}
use warptap.Base.{
  ℕ, if◌then◌else◌, Bool, true, false, List, [], ◌∷◌, ◌++◌, none, some, String, Result, ok, err,
  ◌>>=◌, ◌>>◌, raise_if,
}
use warptap.IclModel.{
  InstrumentDirection, SignalBinding, Alias, InstrumentNode, Chain, end, sib_node, name_in,
  IclModelError, validate_physical_graph,
}
use warptap.IclModel.Address.{ModuleInstance, module_instance, ModuleInstances, no_modules, child}

-- `InstrumentSpec` and `HierarchySpec` with the specs after it: a list of specs, each cell with the
-- fields of its head. The fields of an `InstrumentSpec` are those of an `InstrumentNode`.
pub data Specs : Type 0 where
  no_specs : Specs
  instrument_spec : InstrumentNode → Specs → Specs
  hierarchy_spec : String → Specs → Specs → Specs

pub data SibPlanError : Type 0 where
  duplicate_name : String → SibPlanError
  model_error : IclModelError → SibPlanError

-- `f"sib_{spec.name}"`
abbrev pub sib_name_of : String → String
sib_name_of name = join "sib_" name

-- `module_children.extend(...)`
abbrev pub extend : List ModuleInstance → List ModuleInstance → List ModuleInstance
extend xs ys = xs ++ ys

-- `_build_chain` on the specs from one on, with the names seen so far, and `_build_node` on each.
unfoldable pub build_chain : Specs → List String → Result SibPlanError (Chain × List ModuleInstance)
build_chain no_specs seen = ok (end, [])
build_chain (instrument_spec spec rest) seen = do
  raise_if (name_in spec.name seen) (duplicate_name spec.name)
  (chain, modules) ← build_chain rest (spec.name ∷ seen)
  ok (
    sib_node (sib_name_of spec.name) (some spec) end chain,
    module_instance spec.name no_modules ∷ modules,
  )
build_chain (hierarchy_spec name children rest) seen = do
  raise_if (name_in name seen) (duplicate_name name)
  (nested, inner) ← build_chain children []
  (chain, modules) ← build_chain rest (name ∷ seen)
  ok (sib_node (sib_name_of name) none nested chain, extend inner modules)

abbrev pub children_from : List ModuleInstance → ModuleInstances
children_from [] = no_modules
children_from (m ∷ modules) = child m (children_from modules)

abbrev pub from_model : {A : Type 0} → Result IclModelError A → Result SibPlanError A
from_model (ok a) = ok a
from_model (err e) = err (model_error e)

unfoldable pub build_sib_plan : Specs → String → Result SibPlanError (Chain × ModuleInstance)
unfolding build_chain
build_sib_plan specs top_name = do
  (chain, modules) ← build_chain specs []
  checked ← from_model (validate_physical_graph chain)
  ok (chain, module_instance top_name (children_from modules))

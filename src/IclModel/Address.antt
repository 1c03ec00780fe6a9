-- ===== src/IclModel/Address.antt =====
-- The tree of module instances and dotted addresses in it (src/warptap/icl_model.py).
pub mod Reached
use Prim.Native.Char.{Char, code}
use warptap.Base.{
  ◌==◌, if◌then◌else◌, List, [], ◌∷◌, Option, none, some, String, same_name, Result, ok, err,
}

mutual
  pub data ModuleInstance : Type 0 where
    -- name, children
    module_instance : String → ModuleInstances → ModuleInstance

  pub data ModuleInstances : Type 0 where
    no_modules : ModuleInstances
    child : ModuleInstance → ModuleInstances → ModuleInstances

abbrev pub name_of : ModuleInstance → String
name_of (module_instance name children) = name

abbrev pub children_of : ModuleInstance → ModuleInstances
children_of (module_instance name children) = children

-- A character in front of the first part.
abbrev push : Char → List String → List String
push c [] = String.◌∷◌ c String.[] ∷ []
push c (part ∷ parts) = String.◌∷◌ c part ∷ parts

-- `dotted.split(".")`
unfoldable pub split_dots : String → List String
split_dots String.[] = String.[] ∷ []
split_dots (String.◌∷◌ c s) =
    let parts = split_dots s in if code c == 46 then String.[] ∷ parts else push c parts

-- `ICLAddressError`, with the segment that names no child.
pub data IclAddressError : Type 0 where
  no_child : String → IclAddressError

-- `next((c for c in node.children if c.name == segment), None)`
unfoldable pub find_child : ModuleInstances → String → Option ModuleInstance
find_child no_modules segment = none
find_child (child c rest) segment =
    let later = find_child rest segment in if same_name (name_of c) segment then some c else later

-- The loop over the segments.
unfoldable pub descend : ModuleInstance → List String → Result IclAddressError ModuleInstance
unfolding find_child
descend node [] = ok node
descend node (segment ∷ segments) = elim (find_child (children_of node) segment) [
  | none ↦ err (no_child segment)
  | some match ↦ descend match segments
]

unfoldable pub resolve_dotted_address :
    ModuleInstance → String → Result IclAddressError ModuleInstance
unfolding descend split_dots
resolve_dotted_address root dotted = descend root (split_dots dotted)

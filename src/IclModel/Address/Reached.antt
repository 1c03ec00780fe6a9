-- ===== src/IclModel/Address/Reached.antt =====
-- What a dotted address reaches (src/warptap/icl_model.py).
use text.Mathlib.TextEquality.{eq_iff}
use warptap.Base.{
  true, false, List, [], ◌∷◌, ◌++◌, none, some, String, same_name, ok, err, ◌≡◌, ◌≢◌, refl, ap, ◌⊎◌,
  inl, inr, Bool-cases, arith,
}
use warptap.IclModel.Address.{
  ModuleInstance, ModuleInstances, no_modules, child, name_of, children_of, no_child, split_dots,
  find_child, descend, resolve_dotted_address,
}

-- The first child of that name is this one.
abbrev pub FirstNamed : ModuleInstances → String → ModuleInstance → Type 0
FirstNamed no_modules name node = false ≡ true
FirstNamed (child c rest) name node =
    ((name_of c ≡ name) × (c ≡ node)) ⊎ ((name_of c ≢ name) × FirstNamed rest name node)

-- No child has the name.
abbrev pub NoneNamed : ModuleInstances → String → Type 0
NoneNamed no_modules name = Unit
NoneNamed (child c rest) name = (name_of c ≢ name) × NoneNamed rest name

-- The names lead from the node to the other, by the first child of each name.
abbrev pub Reaches : ModuleInstance → List String → ModuleInstance → Type 0
Reaches node [] other = node ≡ other
Reaches node (segment ∷ segments) other =
    (next : ModuleInstance) × FirstNamed (children_of node) segment next
    × Reaches next segments other

find_child-FirstNamed :
    (nodes : ModuleInstances) (name : String)
    → ((node : ModuleInstance) × (find_child nodes name ≡ some node) × FirstNamed nodes name node)
      ⊎ ((find_child nodes name ≡ none) × NoneNamed nodes name)
unfolding find_child
find_child-FirstNamed no_modules name = inr (refl, tt)
find_child-FirstNamed (child c rest) name = elim (Bool-cases (same_name (name_of c) name)) [
  | inl same ↦ inl (c, rw same refl, inl ((eq_iff (name_of c) name).0 same, refl))
  | inr differs ↦
      let other : name_of c ≢ name = λ e. ground (arith, eq_iff (name_of c) name) in
      elim (find_child-FirstNamed rest name) [
        | inl (node, found, first) ↦ inl (node, rw differs found, inr (other, first))
        | inr (lost, none_of) ↦ inr (rw differs lost, (other, none_of))
      ]
]

descend-Reaches :
    (node : ModuleInstance) (segments : List String)
    → ((other : ModuleInstance) × (descend node segments ≡ ok other) × Reaches node segments other)
      ⊎ ((before : List String) × (segment : String) × (after : List String)
          × (stop : ModuleInstance) × (descend node segments ≡ err (no_child segment))
          × (segments ≡ before ++ segment ∷ after)
          × Reaches node before stop
          × NoneNamed (children_of stop) segment)
unfolding descend
descend-Reaches node [] = inl (node, refl, refl)
descend-Reaches node (segment ∷ segments) =
    elim (find_child-FirstNamed (children_of node) segment) [
      | inl (next, found, first) ↦ elim (descend-Reaches next segments) [
        | inl (other, e, there) ↦ inl (other, rw (descend, found) e, (next, first, there))
        | inr (before, bad, after, stop, e, parts, there, none_of) ↦ inr (
          segment ∷ before,
          bad,
          after,
          stop,
          rw (descend, found) e,
          ap (λ (t : List String). segment ∷ t) parts,
          (next, first, there),
          none_of,
        )
      ]
      | inr (lost, none_of) ↦
          inr ([], segment, segments, node, rw (descend, lost) refl, refl, refl, none_of)
    ]

-- Either `resolve_dotted_address` returns the node that the parts of the address lead to from the
-- root, by the first child of each name, or it raises ICLAddressError with a part: the parts before it
-- lead to a node that has no child of that name.
pub resolve_dotted_address-Reaches :
    (root : ModuleInstance) (dotted : String)
    → ((node : ModuleInstance) × (resolve_dotted_address root dotted ≡ ok node)
        × Reaches root (split_dots dotted) node)
      ⊎ ((before : List String) × (segment : String) × (after : List String)
          × (stop : ModuleInstance) × (resolve_dotted_address root dotted ≡ err (no_child segment))
          × (split_dots dotted ≡ before ++ segment ∷ after)
          × Reaches root before stop
          × NoneNamed (children_of stop) segment)
unfolding resolve_dotted_address
resolve_dotted_address-Reaches root dotted = descend-Reaches root (split_dots dotted)

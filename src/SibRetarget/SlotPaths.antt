-- ===== src/SibRetarget/SlotPaths.antt =====
-- The search for a slot by its own name (src/warptap/sib_retarget.py).
use warptap.Base.{
  ℕ, Bool, true, false, if◌then◌else◌, List, [], ◌∷◌, ◌++◌, some, String, same_name, ok, err, ◌≡◌,
  refl, ap, ◌∙◌, ◌⊎◌, inl, inr, append_assoc,
}
use warptap.IclModel.{Chain, end, sib_node, scan_mux_node, Arms, no_arms, scan_arm}
use warptap.SibRetarget.{
  no_path, Search, or_else, path_or_error, search_by_sib_name, search_arms_by_sib_name,
  path_to_sib_name,
}
use warptap.SibRetarget.Paths.{
  Steps, Decides, decide_one, decide_or, nowhere, HasValues, ArmsHaveValues,
}

-- The steps lead from the chain to the slot of that name, which is to carry the value if it is a mux.
abbrev mutual
  pub LeadsToSlot : String → ℕ → Chain → List (String × ℕ) → Type 0
  LeadsToSlot target value end p = false ≡ true
  LeadsToSlot target value (sib_node name i nested rest) p =
      ((same_name name target ≡ true) × (p ≡ (name, 1) ∷ []))
      ⊎ (((q : List (String × ℕ)) × (p ≡ (name, 1) ∷ q) × LeadsToSlot target value nested q)
          ⊎ LeadsToSlot target value rest p)
  LeadsToSlot target value (scan_mux_node name w arms rest) p =
      ((same_name name target ≡ true) × (p ≡ (name, value) ∷ []))
      ⊎ (ArmsLeadToSlot target value name arms p ⊎ LeadsToSlot target value rest p)

  pub ArmsLeadToSlot : String → ℕ → String → Arms → List (String × ℕ) → Type 0
  ArmsLeadToSlot target value name no_arms p = false ≡ true
  ArmsLeadToSlot target value name (scan_arm [] i nested arms) p = false ≡ true
  ArmsLeadToSlot target value name (scan_arm (v ∷ vs) i nested arms) p =
      ((q : List (String × ℕ)) × (p ≡ (name, v) ∷ q) × LeadsToSlot target value nested q)
      ⊎ ArmsLeadToSlot target value name arms p

decide_own :
    (b : Bool) (s : String × ℕ) (path : Steps) (others : Search) (Others : Steps → Type 0)
    → Decides others path Others
    → Decides
        (if b then ok (some (path ++ s ∷ [])) else others)
        path
        (λ p. ((b ≡ true) × (p ≡ s ∷ [])) ⊎ Others p)
decide_own true s path others Others h = inl (s ∷ [], refl, inl (refl, refl))
decide_own false s path others Others (inl (p, e, good)) = inl (p, e, inr good)
decide_own false s path others Others (inr (e, never)) = inr (e, none_of)
  where
    none_of : (p : Steps) → ¬ (((false ≡ true) × (p ≡ s ∷ [])) ⊎ Others p)
    none_of p (inl (h, x)) = cc
    none_of p (inr good) = never p good

-- A search below a step.
decide_below :
    (s : String × ℕ) (path : Steps) (inside : Search) (In : Steps → Type 0)
    → Decides inside (path ++ s ∷ []) In
    → Decides inside path (λ p. (q : Steps) × (p ≡ s ∷ q) × In q)
decide_below s path inside In (inl (p, e, good)) =
    inl (s ∷ p, e ∙ ap (λ t. ok (some t)) (append_assoc path (s ∷ []) p), (p, refl, good))
decide_below s path inside In (inr (e, never)) = inr (e, λ p h. never h.0 h.2)

mutual
  unfolding search_by_sib_name

  search_by_sib_name-LeadsToSlot :
      (target : String) (value : ℕ) (chain : Chain) (path : Steps)
      → HasValues chain
      → Decides (search_by_sib_name target value chain path) path (LeadsToSlot target value chain)
  search_by_sib_name-LeadsToSlot target value end path h = inr (refl, nowhere)
  search_by_sib_name-LeadsToSlot target value (sib_node name i nested rest) path h =
      decide_one (same_name name target) (name, 1) path
        (search_by_sib_name target value nested (path ++ (name, 1) ∷ []))
        (search_by_sib_name target value rest path) (LeadsToSlot target value nested)
        (LeadsToSlot target value rest)
        (search_by_sib_name-LeadsToSlot target value nested (path ++ (name, 1) ∷ []) h.0)
        (search_by_sib_name-LeadsToSlot target value rest path h.1)
  search_by_sib_name-LeadsToSlot target value (scan_mux_node name w arms rest) path h =
      let inside = search_arms_by_sib_name target value name arms path in
      let later = search_by_sib_name target value rest path in
      decide_own (same_name name target) (name, value) path (or_else inside later)
        (λ p. ArmsLeadToSlot target value name arms p ⊎ LeadsToSlot target value rest p)
        (decide_or path inside later (ArmsLeadToSlot target value name arms)
          (LeadsToSlot target value rest) (search_arms-LeadToSlot target value name arms path h.0)
          (search_by_sib_name-LeadsToSlot target value rest path h.1))

  search_arms-LeadToSlot :
      (target : String) (value : ℕ) (name : String) (arms : Arms) (path : Steps)
      → ArmsHaveValues arms
      → Decides
          (search_arms_by_sib_name target value name arms path)
          path
          (ArmsLeadToSlot target value name arms)
  search_arms-LeadToSlot target value name no_arms path h = inr (refl, nowhere)
  search_arms-LeadToSlot target value name (scan_arm [] i nested arms) path h = cc
  search_arms-LeadToSlot target value name (scan_arm (v ∷ vs) i nested arms) path h =
      decide_or path (search_by_sib_name target value nested (path ++ (name, v) ∷ []))
        (search_arms_by_sib_name target value name arms path)
        (λ p. (q : Steps) × (p ≡ (name, v) ∷ q) × LeadsToSlot target value nested q)
        (ArmsLeadToSlot target value name arms)
        (decide_below (name, v) path
          (search_by_sib_name target value nested (path ++ (name, v) ∷ []))
          (LeadsToSlot target value nested)
          (search_by_sib_name-LeadsToSlot target value nested (path ++ (name, v) ∷ []) h.0))
        (search_arms-LeadToSlot target value name arms path h.1)

-- On a network in which every arm has a value, either `path_to_sib_name` returns steps that lead to
-- the SIB or mux of that name, the last one with the value asked for if it is a mux, or it raises
-- SibRetargetError and no steps lead there.
pub path_to_sib_name-LeadsToSlot :
    (chain : Chain) (sib_name : String) (target_value : ℕ)
    → HasValues chain
    → ((p : List (String × ℕ)) × (path_to_sib_name chain sib_name target_value ≡ ok p)
        × LeadsToSlot sib_name target_value chain p)
      ⊎ ((path_to_sib_name chain sib_name target_value ≡ err no_path)
          × ((p : List (String × ℕ)) → ¬ LeadsToSlot sib_name target_value chain p))
unfolding path_to_sib_name
path_to_sib_name-LeadsToSlot chain sib_name target_value h =
    elim (search_by_sib_name-LeadsToSlot sib_name target_value chain [] h) [
      | inl (p, e, good) ↦ inl (p, ap path_or_error e, good)
      | inr (e, never) ↦ inr (ap path_or_error e, never)
    ]

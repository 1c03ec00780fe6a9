-- ===== src/SibRetarget/Paths.antt =====
-- What the search for a path returns is a path, and it returns one if there is one
-- (src/warptap/sib_retarget.py).
use warptap.Base.{
  ℕ, ◌^◌, Bool, true, false, if◌then◌else◌, List, [], ◌∷◌, ◌++◌, none, some, String, ok, err, ◌≡◌,
  refl, ap, ◌∙◌, ◌⊎◌, inl, inr, append_assoc,
}
use warptap.IclModel.{Chain, end, sib_node, scan_mux_node, Arms, no_arms, scan_arm}
use warptap.IclModel.Valid.{WellFormed, WellFormedArms}
use warptap.SibRetarget.{
  no_path, Search, or_else, path_or_error, gates, search, search_arms, open_path_to,
}

abbrev pub Steps : Type 0
Steps = List (String × ℕ)

-- The steps lead from the chain to the slot that gates the instrument: each names a slot and, of a
-- mux, the arm, and the next one is in what it gates.
abbrev mutual
  pub Leads : String → Chain → List (String × ℕ) → Type 0
  Leads target end p = false ≡ true
  Leads target (sib_node name i nested rest) p =
      ((gates i target ≡ true) × (p ≡ (name, 1) ∷ []))
      ⊎ (((q : List (String × ℕ)) × (p ≡ (name, 1) ∷ q) × Leads target nested q)
          ⊎ Leads target rest p)
  Leads target (scan_mux_node name w arms rest) p =
      LeadsArms target name arms p ⊎ Leads target rest p

  pub LeadsArms : String → String → Arms → List (String × ℕ) → Type 0
  LeadsArms target name no_arms p = false ≡ true
  LeadsArms target name (scan_arm [] i nested arms) p = false ≡ true
  LeadsArms target name (scan_arm (v ∷ vs) i nested arms) p =
      ((gates i target ≡ true) × (p ≡ (name, v) ∷ []))
      ⊎ (((q : List (String × ℕ)) × (p ≡ (name, v) ∷ q) × Leads target nested q)
          ⊎ LeadsArms target name arms p)

-- Every arm has a value, as `validate_physical_graph` demands.
abbrev mutual
  pub HasValues : Chain → Type 0
  HasValues end = Unit
  HasValues (sib_node name i nested rest) = HasValues nested × HasValues rest
  HasValues (scan_mux_node name w arms rest) = ArmsHaveValues arms × HasValues rest

  pub ArmsHaveValues : Arms → Type 0
  ArmsHaveValues no_arms = Unit
  ArmsHaveValues (scan_arm [] i nested arms) = false ≡ true
  ArmsHaveValues (scan_arm (v ∷ vs) i nested arms) = HasValues nested × ArmsHaveValues arms

-- A search that was given some steps and what they lead to: it finds a continuation of them, or
-- there is none.
abbrev pub Decides : Search → Steps → (Steps → Type 0) → Type 0
Decides r path Good =
    ((p : Steps) × (r ≡ ok (some (path ++ p))) × Good p)
    ⊎ ((r ≡ ok none) × ((p : Steps) → ¬ Good p))

-- A slot or arm: it gates the instrument itself, or something in it may lead there, or what follows.
abbrev pub Step : Bool → (String × ℕ) → (Steps → Type 0) → (Steps → Type 0) → Steps → Type 0
Step b s In Later p = ((b ≡ true) × (p ≡ s ∷ [])) ⊎ (((q : Steps) × (p ≡ s ∷ q) × In q) ⊎ Later p)

pub decide_one :
    (b : Bool) (s : String × ℕ) (path : Steps) (inside later : Search) (In Later : Steps → Type 0)
    → Decides inside (path ++ s ∷ []) In
    → Decides later path Later
    → Decides
        (if b then ok (some (path ++ s ∷ [])) else or_else inside later)
        path
        (Step b s In Later)
decide_one true s path inside later In Later h h' = inl (s ∷ [], refl, inl (refl, refl))
decide_one false s path inside later In Later (inl (p, e, good)) h' = inl (
  s ∷ p,
  ap (λ r. or_else r later) e ∙ ap (λ t. ok (some t)) (append_assoc path (s ∷ []) p),
  inr (inl (p, refl, good)),
)
decide_one false s path inside later In Later (inr (e, never)) (inl (p, e', good)) =
    inl (p, ap (λ r. or_else r later) e ∙ e', inr (inr good))
decide_one false s path inside later In Later (inr (e, never)) (inr (e', never')) =
    inr (ap (λ r. or_else r later) e ∙ e', none_of)
  where
    none_of : (p : Steps) → ¬ Step false s In Later p
    none_of p (inl (h, x)) = cc
    none_of p (inr (inl (q, x, good))) = never q good
    none_of p (inr (inr good)) = never' p good

pub decide_or :
    (path : Steps) (inside later : Search) (In Later : Steps → Type 0)
    → Decides inside path In
    → Decides later path Later
    → Decides (or_else inside later) path (λ p. In p ⊎ Later p)
decide_or path inside later In Later (inl (p, e, good)) h' =
    inl (p, ap (λ r. or_else r later) e, inl good)
decide_or path inside later In Later (inr (e, never)) (inl (p, e', good)) =
    inl (p, ap (λ r. or_else r later) e ∙ e', inr good)
decide_or path inside later In Later (inr (e, never)) (inr (e', never')) =
    inr (ap (λ r. or_else r later) e ∙ e', none_of)
  where
    none_of : (p : Steps) → ¬ (In p ⊎ Later p)
    none_of p (inl good) = never p good
    none_of p (inr good) = never' p good

pub nowhere : (p : Steps) → ¬ (false ≡ true)
nowhere p h = cc

mutual
  unfolding search

  search-Leads :
      (target : String) (chain : Chain) (path : Steps)
      → HasValues chain
      → Decides (search target chain path) path (Leads target chain)
  search-Leads target end path h = inr (refl, nowhere)
  search-Leads target (sib_node name i nested rest) path h =
      decide_one (gates i target) (name, 1) path (search target nested (path ++ (name, 1) ∷ []))
        (search target rest path) (Leads target nested) (Leads target rest)
        (search-Leads target nested (path ++ (name, 1) ∷ []) h.0)
        (search-Leads target rest path h.1)
  search-Leads target (scan_mux_node name w arms rest) path h =
      decide_or path (search_arms target name arms path) (search target rest path)
        (LeadsArms target name arms) (Leads target rest)
        (search_arms-Leads target name arms path h.0) (search-Leads target rest path h.1)

  search_arms-Leads :
      (target name : String) (arms : Arms) (path : Steps)
      → ArmsHaveValues arms
      → Decides (search_arms target name arms path) path (LeadsArms target name arms)
  search_arms-Leads target name no_arms path h = inr (refl, nowhere)
  search_arms-Leads target name (scan_arm [] i nested arms) path h = cc
  search_arms-Leads target name (scan_arm (v ∷ vs) i nested arms) path h =
      decide_one (gates i target) (name, v) path (search target nested (path ++ (name, v) ∷ []))
        (search_arms target name arms path) (Leads target nested) (LeadsArms target name arms)
        (search-Leads target nested (path ++ (name, v) ∷ []) h.0)
        (search_arms-Leads target name arms path h.1)

-- On a network in which every arm has a value, either `open_path_to` returns steps that lead to the
-- slot that gates the instrument, or it raises SibRetargetError and no steps lead there.
pub open_path_to-Leads :
    (chain : Chain) (instrument_name : String)
    → HasValues chain
    → ((p : List (String × ℕ)) × (open_path_to chain instrument_name ≡ ok p)
        × Leads instrument_name chain p)
      ⊎ ((open_path_to chain instrument_name ≡ err no_path)
          × ((p : List (String × ℕ)) → ¬ Leads instrument_name chain p))
unfolding open_path_to
open_path_to-Leads chain instrument_name h = elim (search-Leads instrument_name chain [] h) [
  | inl (p, e, good) ↦ inl (p, ap path_or_error e, good)
  | inr (e, never) ↦ inr (ap path_or_error e, never)
]

-- Of a network that passed its check every arm has a value.
mutual
  pub WellFormed-HasValues : (chain : Chain) → WellFormed chain → HasValues chain
  WellFormed-HasValues end h = tt
  WellFormed-HasValues (sib_node name i nested rest) h =
      (WellFormed-HasValues nested h.1, WellFormed-HasValues rest h.2)
  WellFormed-HasValues (scan_mux_node name w arms rest) h =
      (WellFormedArms-HaveValues arms (2 ^ w) [] h.2, WellFormed-HasValues rest h.3)

  WellFormedArms-HaveValues :
      (arms : Arms) (limit : ℕ) (claimed : List ℕ)
      → WellFormedArms arms limit claimed
      → ArmsHaveValues arms
  WellFormedArms-HaveValues no_arms limit claimed h = tt
  WellFormedArms-HaveValues (scan_arm [] i nested arms) limit claimed h = cc
  WellFormedArms-HaveValues (scan_arm (v ∷ u ∷ vs) i nested arms) limit claimed h = cc
  WellFormedArms-HaveValues (scan_arm (v ∷ []) i nested arms) limit claimed h =
      (WellFormed-HasValues nested h.3, WellFormedArms-HaveValues arms limit (v ∷ claimed) h.4)

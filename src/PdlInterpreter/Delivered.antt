-- ===== src/PdlInterpreter/Delivered.antt =====
-- What a round leaves in the instrument that it is for (src/warptap/pdl_interpreter.py,
-- src/warptap/sib_model.py).
use warptap.Base.{
  ℕ, truthy, Bool, true, false, if◌then◌else◌, List, [], ◌∷◌, some, String, same_name, ok, ◌&&◌,
  ok-injective, ◌≡◌, refl, ap, sym, subst, ◌∙◌, ◌⊎◌, inl, inr,
}
use warptap.TapIr.{bits_from_int}
use warptap.IclModel.{Chain, end, sib_node, scan_mux_node, is_empty}
use warptap.SibLayout.{OpenSet, values, normalize_open, OpenMap, is_open, is_target}
use warptap.SibModel.{update_leaf, is_write}
use warptap.SibModel.State.{Leaf, Slots, no_slots, sib_slot, mux_slot, Content, leaf, children}
use warptap.SibRetarget.{gates, stage_open_sequence}
use warptap.SibRetarget.Paths.{HasValues}
use warptap.SibRetarget.Stages.{last_of}
use warptap.SibRetarget.Named.{same_name_refl, is_open-cons, uncons, assign-keeps, assign-open}
use warptap.SibRetarget.Opened.{stage_open_sequence-open}
use warptap.Base.Dicts.{assign}
use warptap.SibRound.{moved, moved_content, Fits, Tracks}
use warptap.PdlInterpreter.Phases.{last_name, dict_from}

-- The steps lead through SIBs alone to the one that gates the instrument.
abbrev pub LeadsBySibs : String → Chain → List (String × ℕ) → Type 0
LeadsBySibs target end p = false ≡ true
LeadsBySibs target (sib_node name i nested rest) p =
    ((gates i target ≡ true) × (is_empty nested ≡ true) × (p ≡ (name, 1) ∷ []))
    ⊎ (((q : List (String × ℕ)) × (p ≡ (name, 1) ∷ q)
          × (is_empty nested ≡ false)
          × LeadsBySibs target nested q)
        ⊎ LeadsBySibs target rest p)
LeadsBySibs target (scan_mux_node name w arms rest) p = LeadsBySibs target rest p

-- The SIBs of the steps are open, and the instrument behind the last one has the property.
abbrev mutual
  pub HeldAt : (Leaf → Type 0) → List (String × ℕ) → Slots → Type 0
  HeldAt P p no_slots = false ≡ true
  HeldAt P p (sib_slot name ff po c rest) =
      ((truthy po ≡ true) × HeldIn P name p c) ⊎ HeldAt P p rest
  HeldAt P p (mux_slot name w ff po arms rest) = HeldAt P p rest

  pub HeldIn : (Leaf → Type 0) → String → List (String × ℕ) → Content → Type 0
  HeldIn P name p (leaf l) = (p ≡ (name, 1) ∷ []) × P l
  HeldIn P name p (children s) = (q : List (String × ℕ)) × (p ≡ (name, 1) ∷ q) × HeldAt P q s

-- The shift flip-flops hold the payload, and if it is a WRITE instrument so do its latches.
abbrev pub Holds : ℕ → Leaf → Type 0
Holds payload l =
    (l.inst_shift_ff ≡ bits_from_int payload l.width)
    × (is_write l.direction ≡ true → l.inst_po ≡ bits_from_int payload l.width)

update_leaf-Holds :
    (payload : ℕ) (l : Leaf)
    → l.inst_shift_ff ≡ bits_from_int payload l.width
    → Holds payload (update_leaf true l)
unfolding update_leaf
update_leaf-Holds payload l h = go (is_write l.direction) refl
  where
    go :
        (b : Bool)
        → is_write l.direction ≡ b
        → Holds payload (if b && true then record l { inst_po = l.inst_shift_ff } else l)
    go true e = (h, λ e'. h)
    go false e = (h, λ e'. absurd (cc (sym e ∙ e')))

not_end : (target : String) (chain : Chain) → LeadsBySibs target chain [] → false ≡ true
not_end target end h = h
not_end target (sib_node name i nested rest) (inl (g, empty, same)) = absurd cc
not_end target (sib_node name i nested rest) (inr (inl (q, same, some_nested, h))) = absurd cc
not_end target (sib_node name i nested rest) (inr (inr h)) = not_end target rest h
not_end target (scan_mux_node name w arms rest) h = not_end target rest h

last_name-cons :
    (target : String) (chain : Chain) (name sib : String) (q : List (String × ℕ))
    → LeadsBySibs target chain q
    → last_name ((name, 1) ∷ q) ≡ ok sib
    → last_name q ≡ ok sib
last_name-cons target chain name sib [] h last = absurd (cc (not_end target chain h))
last_name-cons target chain name sib (step ∷ q) h last = last

module _ (m : OpenMap) (sib : String) (payload : ℕ) where
  -- A SIB that is open before and after.
  moved-slot :
      (name : String) (ff po : ℕ) (c : Content) (rest : Slots) (p : List (String × ℕ))
      → is_open m name ≡ true
      → truthy po ≡ true
      → HeldIn (Holds payload) name p (moved_content m (some sib) payload true name c)
      → HeldAt (Holds payload) p (moved m (some sib) payload (sib_slot name ff po c rest))
  unfolding moved
  moved-slot name ff po c rest p opened live h = rw (opened, live) (inl (refl, h))

  moved_content-target :
      (name : String) (l : Leaf)
      → name ≡ sib
      → HeldIn
          (Holds payload)
          name
          ((name, 1) ∷ [])
          (moved_content m (some sib) payload true name (leaf l))
  unfolding moved
  moved_content-target name l e =
      let mine : is_target (some sib) name ≡ true =
        subst (λ t. same_name sib t ≡ true) (sym e) (same_name_refl sib) in
      rw mine (
        refl,
        update_leaf-Holds payload (record l { inst_shift_ff = bits_from_int payload l.width }) refl,
      )

  pub moved-HeldAt :
      (target : String) (chain : Chain) (s : Slots) (p : List (String × ℕ))
      → LeadsBySibs target chain p
      → last_name p ≡ ok sib
      → ((n : String) → is_open p n ≡ true → is_open m n ≡ true)
      → Fits chain s
      → Tracks m s
      → HeldAt (Holds payload) p (moved m (some sib) payload s)
  unfolding moved
  moved-HeldAt target end s p h last o f t = absurd cc
  moved-HeldAt target (sib_node name i nested rest) no_slots p h last o f t = absurd cc
  moved-HeldAt target (sib_node name i nested rest) (mux_slot _ _ _ _ _ _) p h last o f t =
      absurd cc
  moved-HeldAt target (scan_mux_node name w arms rest) no_slots p h last o f t = absurd cc
  moved-HeldAt target (scan_mux_node name w arms rest) (sib_slot _ _ _ _ _) p h last o f t =
      absurd cc
  moved-HeldAt target (scan_mux_node name w arms rest) (mux_slot name' w' ff po arms' rest') p h
        last o f t =
      moved-HeldAt target rest rest' p h last o f.3 t.1
  moved-HeldAt target (sib_node name i nested rest) (sib_slot name' ff po c rest') p (inr (inr h))
        last o f t =
      inr (moved-HeldAt target rest rest' p h last o f.2 t.2)
  moved-HeldAt target (sib_node name i nested rest) (sib_slot name' ff po (leaf l) rest') p
        (inl (g, empty, same)) last o f t =
      let same' : p ≡ (name', 1) ∷ [] = same ∙ ap (λ (n : String). (n, 1) ∷ []) f.0 in
      let opened : is_open m name' ≡ true = o name' (rw (same', same_name_refl name') refl) in
      let own : name' ≡ sib = ok-injective (sym (ap last_name same') ∙ last) in
      moved-slot name' ff po (leaf l) rest' p opened (sym t.0 ∙ opened) (
        subst
          (λ p.
            HeldIn (Holds payload) name' p (moved_content m (some sib) payload true name' (leaf l)))
          (sym same') (moved_content-target name' l own))
  moved-HeldAt target (sib_node name i nested rest) (sib_slot name' ff po (children s) rest') p
        (inl (g, empty, same)) last o f t =
      absurd (cc (sym empty ∙ f.1.0))
  moved-HeldAt target (sib_node name i nested rest) (sib_slot name' ff po (leaf l) rest') p
        (inr (inl (q, same, some_nested, h))) last o f t =
      absurd (cc (sym some_nested ∙ f.1.0))
  moved-HeldAt target (sib_node name i nested rest) (sib_slot name' ff po (children s) rest') p
        (inr (inl (q, same, some_nested, h))) last o f t =
      let same' : p ≡ (name', 1) ∷ q = same ∙ ap (λ (n : String). (n, 1) ∷ q) f.0 in
      let opened : is_open m name' ≡ true = o name' (rw (same', same_name_refl name') refl) in
      let live : truthy po ≡ true = sym t.0 ∙ opened in
      let end = last_name-cons target nested name' sib q h (sym (ap last_name same') ∙ last) in
      let inner =
        moved-HeldAt target nested s q h end (λ n e. o n (rw same' (is_open-cons name' 1 q n e)))
          f.1.1 (t.1 live) in
      moved-slot name' ff po (children s) rest' p opened live (q, same', inner)

dict_from-open :
    (m : OpenMap) (path : List (String × ℕ)) (n : String)
    → (is_open m n ≡ true) ⊎ (is_open path n ≡ true)
    → is_open (dict_from m path) n ≡ true
dict_from-open m [] n (inl h) = h
dict_from-open m [] n (inr h) = absurd cc
dict_from-open m ((name, value) ∷ path) n (inl h) =
    dict_from-open (assign m name value) path n (inl (assign-keeps m name value n h))
dict_from-open m ((name, value) ∷ path) n (inr h) =
    let later = dict_from-open (assign m name value) path n in
    elim (uncons name value path n h) [
      | inl same ↦ later (inl (assign-open m name value n same))
      | inr e ↦ later (inr e)
    ]

-- The set that is open after the rounds for a path has all of its SIBs.
pub opened-path :
    (graph : Chain) (path : List (String × ℕ)) (now : OpenSet) (stages : List OpenMap)
    → HasValues graph
    → stage_open_sequence graph (values (dict_from [] path)) now ≡ ok stages
    → (n : String) → is_open path n ≡ true
    → is_open (normalize_open (last_of now stages)) n ≡ true
opened-path graph path now stages h staged n o =
    stage_open_sequence-open graph (dict_from [] path) now stages n h staged
      (dict_from-open [] path n (inr o))

-- ===== src/SibModel/Load.antt =====
-- The live flip-flops of a network as one list of bits: how many there are, what they hold, and the
-- network with other bits in them (src/warptap/sib_model.py).
use warptap.Base.{
  ℕ, zero, suc, ◌+◌, truthy, if◌then◌else◌, Bool, true, false, List, [], ◌∷◌, ◌++◌, map, reverse,
  ◌≡◌, refl, ap, ap₂, ◌∙◌, length, take, drop, length-append, length-map, length-reverse,
}
use warptap.TapIr.{for_range}
use warptap.IclModel.{contains}
use warptap.SibModel.State.{
  Slots, no_slots, sib_slot, mux_slot, ArmStates, no_arm_states, arm_state, Content, leaf, children,
}
use warptap.SibModel.Cells.{
  CellRef, sib_cell, mux_cell, in_content, in_arms, next, ContentRef, leaf_cell, in_children,
  ArmRef, first_arm, next_arm, live_layout, arm_layout, content_layout, value_of,
}

-- The number of live flip-flops.
unfoldable mutual
  pub size : Slots → ℕ
  size no_slots = 0
  size (sib_slot name ff po c rest) = (if truthy po then size_content c else 0) + suc (size rest)
  size (mux_slot name w ff po arms rest) = size_arms (value_of po) arms + (w + size rest)

  pub size_arms : ℕ → ArmStates → ℕ
  size_arms matched no_arm_states = 0
  size_arms matched (arm_state values c arms) =
      if contains values matched then size_content c else size_arms matched arms

  pub size_content : Content → ℕ
  size_content (leaf l) = l.width
  size_content (children s) = size s

abbrev pub head_or_0 : List ℕ → ℕ
head_or_0 [] = 0
head_or_0 (v ∷ vs) = v

-- The network with the first bits of a list in its live flip-flops, in the order of the layout.
unfoldable mutual
  unfolding size

  pub load : Slots → List ℕ → Slots
  load no_slots vs = no_slots
  load (sib_slot name ff po c rest) vs =
      let k = if truthy po then size_content c else 0 in
      sib_slot name (head_or_0 (drop k vs)) po (if truthy po then load_content c vs else c)
        (load rest (drop 1 (drop k vs)))
  load (mux_slot name w ff po arms rest) vs =
      let k = size_arms (value_of po) arms in
      mux_slot name w (reverse (take w (drop k vs))) po (load_arms (value_of po) arms vs)
        (load rest (drop w (drop k vs)))

  pub load_arms : ℕ → ArmStates → List ℕ → ArmStates
  load_arms matched no_arm_states vs = no_arm_states
  load_arms matched (arm_state values c arms) vs =
      if contains values matched
      then arm_state values (load_content c vs) arms
      else arm_state values c (load_arms matched arms vs)

  pub load_content : Content → List ℕ → Content
  load_content (leaf l) vs = leaf (record l { inst_shift_ff = take l.width vs })
  load_content (children s) vs = children (load s vs)

-- Every list of flip-flops has as many as its field is wide.
abbrev mutual
  pub Sized : Slots → Type 0
  Sized no_slots = Unit
  Sized (sib_slot name ff po c rest) = SizedContent c × Sized rest
  Sized (mux_slot name w ff po arms rest) =
      (length ff ≡ w) × (length po ≡ w) × SizedArms arms × Sized rest

  pub SizedArms : ArmStates → Type 0
  SizedArms no_arm_states = Unit
  SizedArms (arm_state values c arms) = SizedContent c × SizedArms arms

  pub SizedContent : Content → Type 0
  SizedContent (leaf l) = (length l.inst_shift_ff ≡ l.width) × (length l.inst_po ≡ l.width)
  SizedContent (children s) = Sized s

pub length-for_range : {A : Type 0} (s n : ℕ) (f : ℕ → A) → length (for_range s n f) ≡ n
unfolding for_range
length-for_range s zero f = refl
length-for_range s (suc n) f = ap suc (length-for_range (suc s) n f)

pub length_if :
    {A : Type 0} (b : Bool) (xs : List A) {k : ℕ}
    → length xs ≡ k
    → length (if b then xs else []) ≡ (if b then k else 0)
length_if true xs h = h
length_if false xs h = refl

sib_length :
    (po : ℕ) (inner : List ContentRef) (others : List CellRef) {k m : ℕ}
    → length inner ≡ k
    → length others ≡ m
    → length ((if truthy po then map in_content inner else []) ++ (sib_cell ∷ map next others))
      ≡ (if truthy po then k else 0) + suc m
sib_length po inner others h h' =
    length-append (if truthy po then map in_content inner else []) (sib_cell ∷ map next others)
    ∙ ap₂ (λ (a b : ℕ). a + suc b)
        (length_if (truthy po) (map in_content inner) (length-map inner in_content ∙ h))
        (length-map others next ∙ h')

mux_length :
    (w : ℕ) (inner : List ArmRef) (others : List CellRef) {k m : ℕ}
    → length inner ≡ k
    → length others ≡ m
    → length (map in_arms inner ++ (reverse (for_range 0 w mux_cell) ++ map next others))
      ≡ k + (w + m)
mux_length w inner others h h' =
    length-append (map in_arms inner) (reverse (for_range 0 w mux_cell) ++ map next others)
    ∙ ap₂ (λ (a b : ℕ). a + b) (length-map inner in_arms ∙ h)
        (length-append (reverse (for_range 0 w mux_cell)) (map next others)
          ∙ ap₂ (λ (a b : ℕ). a + b)
              (length-reverse (for_range 0 w mux_cell) ∙ length-for_range 0 w mux_cell)
              (length-map others next ∙ h'))

arm_length :
    (b : Bool) (here : List ContentRef) (there : List ArmRef) {k m : ℕ}
    → length here ≡ k
    → length there ≡ m
    → length (if b then map first_arm here else map next_arm there) ≡ (if b then k else m)
arm_length true here there h h' = length-map here first_arm ∙ h
arm_length false here there h h' = length-map there next_arm ∙ h'

-- The layout has as many references as there are live flip-flops.
mutual
  unfolding size live_layout

  pub length-live_layout : (s : Slots) → length (live_layout s) ≡ size s
  length-live_layout no_slots = refl
  length-live_layout (sib_slot name ff po c rest) =
      sib_length po (content_layout c) (live_layout rest) (length-content_layout c)
        (length-live_layout rest)
  length-live_layout (mux_slot name w ff po arms rest) =
      mux_length w (arm_layout (value_of po) arms) (live_layout rest)
        (length-arm_layout (value_of po) arms) (length-live_layout rest)

  pub length-arm_layout : (v : ℕ) (arms : ArmStates) → length (arm_layout v arms) ≡ size_arms v arms
  length-arm_layout v no_arm_states = refl
  length-arm_layout v (arm_state values c arms) =
      arm_length (contains values v) (content_layout c) (arm_layout v arms)
        (length-content_layout c) (length-arm_layout v arms)

  pub length-content_layout : (c : Content) → length (content_layout c) ≡ size_content c
  length-content_layout (leaf l) = length-for_range 0 l.width leaf_cell
  length-content_layout (children s) = length-map (live_layout s) in_children ∙ length-live_layout s

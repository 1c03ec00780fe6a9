-- ===== src/SibModel/Contents.antt =====
-- What the live cells of a network hold while every live mux bypasses its arms
-- (src/warptap/sib_model.py).
use warptap.Base.{
  ℕ, zero, suc, truthy, if◌then◌else◌, Bool, true, false, List, [], ◌∷◌, ◌++◌, map, reverse, none,
  ◌≡◌, refl, sym, ap, ap₂, subst, ◌∙◌, arith, length, get_or, map-append, map-map, map-cong, String,
}
use warptap.TapIr.{for_range}
use warptap.IclModel.{contains}
use warptap.SibModel.State.{
  Leaf, Slots, no_slots, sib_slot, mux_slot, ArmStates, no_arm_states, arm_state, Content, leaf,
  children,
}
use warptap.SibModel.Cells.{
  sib_cell, mux_cell, in_content, in_arms, next, leaf_cell, in_children, live_layout, arm_layout,
  content_layout, value_of, read_cell, read_content, arm_so, live_so,
}
use warptap.SibModel.Load.{size, size_arms, load, load_arms, Sized, SizedContent}
use warptap.SibModel.WriteSlots.{reverse-for_range}
use warptap.SibModel.Writes.{descending}

-- Some arm claims the value.
abbrev pub arm_matched : ℕ → ArmStates → Bool
arm_matched v no_arm_states = false
arm_matched v (arm_state values c arms) = if contains values v then true else arm_matched v arms

-- No live mux has an arm matched.
abbrev mutual
  pub NoRelay : Slots → Type 0
  NoRelay no_slots = Unit
  NoRelay (sib_slot name ff po c rest) = (truthy po ≡ true → NoRelayContent c) × NoRelay rest
  NoRelay (mux_slot name w ff po arms rest) =
      (arm_matched (value_of po) arms ≡ false) × NoRelay rest

  pub NoRelayContent : Content → Type 0
  NoRelayContent (leaf l) = Unit
  NoRelayContent (children s) = NoRelay s

-- The bits in the live cells, while no mux relays.
unfoldable mutual
  pub contents : Slots → List ℕ
  contents no_slots = []
  contents (sib_slot name ff po c rest) =
      (if truthy po then contents_of c else []) ++ (ff ∷ contents rest)
  contents (mux_slot name w ff po arms rest) = reverse ff ++ contents rest

  pub contents_of : Content → List ℕ
  contents_of (leaf l) = l.inst_shift_ff
  contents_of (children s) = contents s

-- A bypassing mux shows nothing of its arms.
module _ (v : ℕ) where
  pub unmatched_layout : (arms : ArmStates) → arm_matched v arms ≡ false → arm_layout v arms ≡ []
  unfolding live_layout
  unmatched_layout no_arm_states h = refl
  unmatched_layout (arm_state values c arms) h = ground (arith, unmatched_layout arms)

  pub unmatched_size : (arms : ArmStates) → arm_matched v arms ≡ false → size_arms v arms ≡ 0
  unfolding size
  unmatched_size no_arm_states h = refl
  unmatched_size (arm_state values c arms) h = ground (arith, unmatched_size arms)

  pub unmatched_so : (arms : ArmStates) → arm_matched v arms ≡ false → arm_so v arms ≡ none
  unfolding live_so
  unmatched_so no_arm_states h = refl
  unmatched_so (arm_state values c arms) h = ground (arith, unmatched_so arms)

  pub unmatched_load :
      (arms : ArmStates) (vs : List ℕ) → arm_matched v arms ≡ false → load_arms v arms vs ≡ arms
  unfolding load
  unmatched_load no_arm_states vs h = refl
  unmatched_load (arm_state values c arms) vs h = ground (arith, unmatched_load arms vs)

for_range-suc :
    {A : Type 0} (s n : ℕ) (f : ℕ → A) → for_range (suc s) n f ≡ for_range s n (λ k. f (suc k))
unfolding for_range
for_range-suc s zero f = refl
for_range-suc s (suc n) f = ap (λ t. f (suc s) ∷ t) (for_range-suc (suc s) n f)

map-for_range :
    {A B : Type 0} (s n : ℕ) (f : ℕ → A) (g : A → B)
    → map g (for_range s n f) ≡ for_range s n (λ k. g (f k))
unfolding for_range
map-for_range s zero f g = refl
map-for_range s (suc n) f g = ap (λ t. g (f s) ∷ t) (map-for_range (suc s) n f g)

-- Reading all positions of a list gives the list.
for_range-get_or : (xs : List ℕ) → for_range 0 (length xs) (λ k. get_or xs k 0) ≡ xs
unfolding for_range
for_range-get_or [] = refl
for_range-get_or (x ∷ xs) =
    ap (λ t. x ∷ t) (for_range-suc 0 (length xs) (λ k. get_or (x ∷ xs) k 0) ∙ for_range-get_or xs)

for_range-get_or_sized :
    (xs : List ℕ) {w : ℕ} → length xs ≡ w → for_range 0 w (λ k. get_or xs k 0) ≡ xs
for_range-get_or_sized xs h =
    subst (λ n. for_range 0 n (λ k. get_or xs k 0) ≡ xs) h (for_range-get_or xs)

read_leaf :
    (l : Leaf)
    → SizedContent (leaf l)
    → map (read_content (leaf l)) (content_layout (leaf l)) ≡ l.inst_shift_ff
unfolding live_layout read_cell
read_leaf l h =
    map-for_range 0 l.width leaf_cell (read_content (leaf l))
    ∙ for_range-get_or_sized l.inst_shift_ff h.0

read_if :
    (name : String) (ff po : ℕ) (c : Content) (rest : Slots) (b : Bool) (others : List ℕ)
    → (b ≡ true → map (read_content c) (content_layout c) ≡ contents_of c)
    → map (read_cell rest) (live_layout rest) ≡ others
    → map (read_cell (sib_slot name ff po c rest)) (
        (if b then map in_content (content_layout c) else [])
        ++ (sib_cell ∷ map next (live_layout rest)))
      ≡ (if b then contents_of c else []) ++ (ff ∷ others)
unfolding read_cell
read_if name ff po c rest b others h h' = rw map-append (
    ap₂ (λ xs ys. xs ++ ys) (inner b h)
      (ap (λ t. ff ∷ t)
        (map-map (read_cell (sib_slot name ff po c rest)) next (live_layout rest) ∙ h')))
  where
    inner :
        (b : Bool)
        → (b ≡ true → map (read_content c) (content_layout c) ≡ contents_of c)
        → map
            (read_cell (sib_slot name ff po c rest))
            (if b then map in_content (content_layout c) else [])
          ≡ (if b then contents_of c else [])
    inner true h =
        map-map (read_cell (sib_slot name ff po c rest)) in_content (content_layout c) ∙ h refl
    inner false h = refl

read_children :
    (s : Slots)
    → map (read_cell s) (live_layout s) ≡ contents s
    → map (read_content (children s)) (content_layout (children s)) ≡ contents s
unfolding live_layout read_cell
read_children s h = map-map (read_content (children s)) in_children (live_layout s) ∙ h

read_select :
    (name : String) (w : ℕ) (ff po : List ℕ) (arms : ArmStates) (rest : Slots) (k : ℕ)
    → arm_matched (value_of po) arms ≡ false
    → read_cell (mux_slot name w ff po arms rest) (mux_cell k) ≡ get_or ff k 0
unfolding read_cell
read_select name w ff po arms rest zero h = rw (unmatched_so (value_of po) arms h)
read_select name w ff po arms rest (suc k) h = refl

read_mux :
    (name : String) (w : ℕ) (ff po : List ℕ) (arms : ArmStates) (rest : Slots) (others : List ℕ)
    → length ff ≡ w
    → arm_matched (value_of po) arms ≡ false
    → map (read_cell rest) (live_layout rest) ≡ others
    → map
        (read_cell (mux_slot name w ff po arms rest))
        (live_layout (mux_slot name w ff po arms rest))
      ≡ reverse ff ++ others
unfolding live_layout read_cell
read_mux name w ff po arms rest others sized h h' =
    let S = mux_slot name w ff po arms rest in
    ap
      (λ t.
        map (read_cell S)
          (map in_arms t ++ (reverse (for_range 0 w mux_cell) ++ map next (live_layout rest))))
      (unmatched_layout (value_of po) arms h)
    ∙ map-append' (read_cell S) (reverse (for_range 0 w mux_cell)) (map next (live_layout rest))
    ∙ ap₂ (λ xs ys. xs ++ ys) select (map-map (read_cell S) next (live_layout rest) ∙ h')
  where
    map-append' :
        {A : Type 0} (f : A → ℕ) (xs ys : List A) → map f (xs ++ ys) ≡ map f xs ++ map f ys
    map-append' f xs ys = rw map-append

    select :
        map (read_cell (mux_slot name w ff po arms rest)) (reverse (for_range 0 w mux_cell))
        ≡ reverse ff
    select =
        ap (map (read_cell (mux_slot name w ff po arms rest))) (reverse-for_range w mux_cell)
        ∙ map-map (read_cell (mux_slot name w ff po arms rest)) mux_cell (descending w)
        ∙ map-cong (λ k. read_cell (mux_slot name w ff po arms rest) (mux_cell k))
            (λ k. get_or ff k 0) (λ k. read_select name w ff po arms rest k h) (descending w)
        ∙ sym (reverse-for_range w (λ k. get_or ff k 0))
        ∙ ap reverse (for_range-get_or_sized ff sized)

mutual
  unfolding contents live_layout

  -- The layout shows the contents.
  pub read_layout :
      (s : Slots) → Sized s → NoRelay s → map (read_cell s) (live_layout s) ≡ contents s
  read_layout no_slots h q = refl
  read_layout (sib_slot name ff po c rest) h q =
      read_if name ff po c rest (truthy po) (contents rest) (λ e. read_layout_content c h.0 (q.0 e))
        (read_layout rest h.1 q.1)
  read_layout (mux_slot name w ff po arms rest) h q =
      read_mux name w ff po arms rest (contents rest) h.0 q.0 (read_layout rest h.3 q.1)

  pub read_layout_content :
      (c : Content)
      → SizedContent c
      → NoRelayContent c
      → map (read_content c) (content_layout c) ≡ contents_of c
  read_layout_content (leaf l) h q = read_leaf l h
  read_layout_content (children s) h q = read_children s (read_layout s h q)

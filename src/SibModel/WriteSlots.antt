-- ===== src/SibModel/WriteSlots.antt =====
-- Writing the cells of one slot through the references of the layout (src/warptap/sib_model.py).
use warptap.Base.{
  ℕ, zero, suc, ◌+◌, ◌-◌, ◌≤◌, truthy, if◌then◌else◌, Bool, true, false, List, [], ◌∷◌, ◌++◌, map,
  reverse, ◌≡◌, refl, ap, ap₂, ◌∙◌, arith, length, take, drop, set, length-map, length-drop, String,
  ◌<◌, reverse-append, length-reverse, subst,
}
use native.Mathlib.Nat.{zero-add}
use warptap.TapIr.{for_range}
use warptap.SibModel.State.{Leaf, Slots, no_slots, sib_slot, mux_slot, ArmStates, Content, leaf}
use warptap.SibModel.Cells.{
  CellRef, sib_cell, mux_cell, in_content, in_arms, next, leaf_cell, live_layout, arm_layout,
  content_layout, value_of, read_cell, write_cell, write_arm, write_content,
}
use warptap.SibModel.Writes.{
  write_all, write_all-append, write_all-part, index, descending, write_all-ascending,
  write_all-descending,
}
use warptap.SibModel.Load.{
  size, size_arms, size_content, head_or_0, load, load_arms, load_content, SizedContent,
  length-arm_layout, length-content_layout, length_if, length-for_range,
}
use warptap.SibModel.{shift_loop, with_value}

-- The loop of `shift` writes TDI and the values, each to the next cell.
pub shift_loop-write_all :
    (s t : Slots) (incoming : ℕ) (refs : List CellRef)
    → shift_loop s incoming (map (with_value t) refs)
      ≡ write_all write_cell s refs (incoming ∷ map (read_cell t) refs)
unfolding shift_loop write_all
shift_loop-write_all s t incoming [] = refl
shift_loop-write_all s t incoming (r ∷ refs) =
    shift_loop-write_all (write_cell s r incoming) t (read_cell t r) refs

for_range-map : {A : Type 0} (s n : ℕ) (f : ℕ → A) → for_range s n f ≡ map f (for_range s n index)
unfolding for_range
for_range-map s zero f = refl
for_range-map s (suc n) f = ap (λ t. f s ∷ t) (for_range-map (suc s) n f)

for_range-snoc :
    {A : Type 0} (s n : ℕ) (f : ℕ → A) → for_range s (suc n) f ≡ for_range s n f ++ f (s + n) ∷ []
unfolding for_range
for_range-snoc s zero f = ap (λ k. f k ∷ []) (omega arith)
for_range-snoc s (suc n) f =
    ap (λ t. f s ∷ t)
      (for_range-snoc (suc s) n f ∙ ap (λ k. for_range (suc s) n f ++ f k ∷ []) (omega arith))

pub reverse-for_range :
    {A : Type 0} (n : ℕ) (f : ℕ → A) → reverse (for_range 0 n f) ≡ map f (descending n)
reverse-for_range zero f = unfold for_range in refl
reverse-for_range (suc n) f =
    ap reverse (for_range-snoc 0 n f)
    ∙ reverse-append (for_range 0 n f) (f (0 + n) ∷ [])
    ∙ ap₂ (λ k t. f k ∷ t) (zero-add n) (reverse-for_range n f)

pub write_leaf :
    (l : Leaf) (vs : List ℕ)
    → SizedContent (leaf l)
    → l.width ≤ length vs
    → write_all write_content (leaf l) (content_layout (leaf l)) vs ≡ load_content (leaf l) vs
unfolding content_layout load_content write_content
write_leaf l vs h room =
    ap (λ t. write_all write_content (leaf l) t vs) (for_range-map 0 l.width leaf_cell)
    ∙ write_all-part write_content set (λ bits. leaf (record l { inst_shift_ff = bits })) leaf_cell
        (λ bits k v. refl) l.inst_shift_ff (for_range 0 l.width index) vs
    ∙ ap (λ bits. leaf (record l { inst_shift_ff = bits })) (fill l.width h.0 room)
  where
    fill :
        (w : ℕ)
        → length l.inst_shift_ff ≡ w
        → w ≤ length vs
        → write_all set l.inst_shift_ff (for_range 0 w index) vs ≡ take w vs
    fill w e r =
        subst (λ n. write_all set l.inst_shift_ff (for_range 0 n index) vs ≡ take n vs) e
          (write_all-ascending l.inst_shift_ff vs (omega (arith, e)))

pub unfold_nil : (vs : List ℕ) → write_all write_cell no_slots [] vs ≡ no_slots
unfolding write_all
unfold_nil vs = refl

write_if :
    (name : String) (ff po : ℕ) (c : Content) (rest : Slots) (open_now : Bool) (vs : List ℕ)
    → (open_now ≡ true → write_all write_content c (content_layout c) vs ≡ load_content c vs)
    → write_all write_cell
        (sib_slot name ff po c rest)
        (if open_now then map in_content (content_layout c) else [])
        vs
      ≡ sib_slot name ff po (if open_now then load_content c vs else c) rest
unfolding write_all write_cell
write_if name ff po c rest true vs h =
    write_all-part write_cell write_content (λ x. sib_slot name ff po x rest) in_content
      (λ x r v. refl) c (content_layout c) vs
    ∙ ap (λ x. sib_slot name ff po x rest) (h refl)
write_if name ff po c rest false vs h = refl

write_own :
    (name : String) (ff po : ℕ) (c : Content) (rest : Slots) (vs : List ℕ)
    → 0 < length vs
    → write_all write_cell rest (live_layout rest) (drop 1 vs) ≡ load rest (drop 1 vs)
    → write_all write_cell (sib_slot name ff po c rest) (sib_cell ∷ map next (live_layout rest)) vs
      ≡ sib_slot name (head_or_0 vs) po c (load rest (drop 1 vs))
unfolding write_all write_cell
write_own name ff po c rest [] h e = absurd (omega arith)
write_own name ff po c rest (v ∷ vs) h e =
    write_all-part write_cell write_cell (sib_slot name v po c) next (λ x r u. refl) rest
      (live_layout rest) vs
    ∙ ap (sib_slot name v po c) e

write_select :
    (name : String) (w : ℕ) (ff po : List ℕ) (arms : ArmStates) (rest : Slots) (vs : List ℕ)
    → length ff ≡ w
    → w ≤ length vs
    → write_all write_cell (mux_slot name w ff po arms rest) (reverse (for_range 0 w mux_cell)) vs
      ≡ mux_slot name w (reverse (take w vs)) po arms rest
unfolding write_cell
write_select name w ff po arms rest vs sized room =
    ap (λ t. write_all write_cell (mux_slot name w ff po arms rest) t vs)
      (reverse-for_range w mux_cell)
    ∙ write_all-part write_cell set (λ bits. mux_slot name w bits po arms rest) mux_cell
        (λ bits k v. refl) ff (descending w) vs
    ∙ ap (λ bits. mux_slot name w bits po arms rest)
        (subst (λ n. write_all set ff (descending n) vs ≡ reverse (take n vs)) sized
          (write_all-descending ff vs (omega (arith, sized))))

-- The number of cells of what a SIB gates.
abbrev opened : ℕ → Content → ℕ
opened po c = if truthy po then size_content c else 0

length-opened :
    (po : ℕ) (c : Content)
    → length (if truthy po then map in_content (content_layout c) else []) ≡ opened po c
length-opened po c =
    length_if (truthy po) (map in_content (content_layout c))
      (length-map (content_layout c) in_content ∙ length-content_layout c)

room_if : (b : Bool) (k m : ℕ) {n : ℕ} → (if b then k else 0) + m ≤ n → b ≡ true → k ≤ n
room_if true k m h e = omega arith
room_if false k m h e = cc

pub write_sib :
    (name : String) (ff po : ℕ) (c : Content) (rest : Slots) (vs : List ℕ)
    → size (sib_slot name ff po c rest) ≤ length vs
    → (size_content c ≤ length vs
        → write_all write_content c (content_layout c) vs ≡ load_content c vs)
    → ((us : List ℕ)
        → size rest ≤ length us
        → write_all write_cell rest (live_layout rest) us ≡ load rest us)
    → write_all write_cell
        (sib_slot name ff po c rest)
        (live_layout (sib_slot name ff po c rest))
        vs
      ≡ load (sib_slot name ff po c rest) vs
unfolding live_layout load
write_sib name ff po c rest vs room inner others =
    let k = opened po c in
    let long : length (drop k vs) ≡ length vs - k = length-drop k vs in
    let long' : length (drop 1 (drop k vs)) ≡ length (drop k vs) - 1 = length-drop 1 (drop k vs) in
    write_all-append write_cell (sib_slot name ff po c rest)
      (if truthy po then map in_content (content_layout c) else [])
      (sib_cell ∷ map next (live_layout rest)) vs
    ∙ ap₂ (λ x n. write_all write_cell x (sib_cell ∷ map next (live_layout rest)) (drop n vs))
        (write_if name ff po c rest (truthy po) vs
          (λ e. inner (room_if (truthy po) (size_content c) (suc (size rest)) room e)))
        (length-opened po c)
    ∙ write_own name ff po (if truthy po then load_content c vs else c) rest (drop k vs)
        (omega (arith, long)) (others (drop 1 (drop k vs)) (omega (arith, long, long')))

pub write_mux :
    (name : String) (w : ℕ) (ff po : List ℕ) (arms : ArmStates) (rest : Slots) (vs : List ℕ)
    → length ff ≡ w
    → size (mux_slot name w ff po arms rest) ≤ length vs
    → write_all write_arm arms (arm_layout (value_of po) arms) vs ≡ load_arms (value_of po) arms vs
    → ((us : List ℕ)
        → size rest ≤ length us
        → write_all write_cell rest (live_layout rest) us ≡ load rest us)
    → write_all write_cell
        (mux_slot name w ff po arms rest)
        (live_layout (mux_slot name w ff po arms rest))
        vs
      ≡ load (mux_slot name w ff po arms rest) vs
unfolding live_layout load write_cell
write_mux name w ff po arms rest vs sized room inner others =
    let k = size_arms (value_of po) arms in
    let arms' = load_arms (value_of po) arms vs in
    let A = map in_arms (arm_layout (value_of po) arms) in
    let B = reverse (for_range 0 w mux_cell) in
    let C = map next (live_layout rest) in
    let lengthA : length A ≡ k =
      length-map (arm_layout (value_of po) arms) in_arms ∙ length-arm_layout (value_of po) arms in
    let lengthB : length B ≡ w =
      length-reverse (for_range 0 w mux_cell) ∙ length-for_range 0 w mux_cell in
    let long : length (drop k vs) ≡ length vs - k = length-drop k vs in
    let long' : length (drop w (drop k vs)) ≡ length (drop k vs) - w = length-drop w (drop k vs) in
    write_all-append write_cell (mux_slot name w ff po arms rest) A (B ++ C) vs
    ∙ ap₂ (λ x n. write_all write_cell x (B ++ C) (drop n vs))
        (write_all-part write_cell write_arm (λ x. mux_slot name w ff po x rest) in_arms
            (λ x r v. refl) arms (arm_layout (value_of po) arms) vs
          ∙ ap (λ x. mux_slot name w ff po x rest) inner)
        lengthA
    ∙ write_all-append write_cell (mux_slot name w ff po arms' rest) B C (drop k vs)
    ∙ ap₂ (λ x n. write_all write_cell x C (drop n (drop k vs)))
        (write_select name w ff po arms' rest (drop k vs) sized (omega (arith, long))) lengthB
    ∙ write_all-part write_cell write_cell (mux_slot name w (reverse (take w (drop k vs))) po arms')
        next (λ x r u. refl) rest (live_layout rest) (drop w (drop k vs))
    ∙ ap (mux_slot name w (reverse (take w (drop k vs))) po arms')
        (others (drop w (drop k vs)) (omega (arith, long, long')))

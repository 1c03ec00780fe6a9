-- ===== src/SibModel/Shift.antt =====
-- A shift of the network moves one list of bits by one place (src/warptap/sib_model.py).
use warptap.Base.{
  ℕ, ◌≤◌, if◌then◌else◌, Bool, true, false, List, ◌∷◌, map, ◌≡◌, refl, ap, ◌∙◌, arith, length,
  length-map,
}
use warptap.IclModel.{contains}
use warptap.SibModel.State.{
  Slots, no_slots, sib_slot, mux_slot, ArmStates, no_arm_states, arm_state, Content, leaf, children,
}
use warptap.SibModel.Cells.{
  in_children, first_arm, next_arm, live_layout, arm_layout, content_layout, value_of, read_cell,
  write_cell, write_arm, write_content,
}
use warptap.SibModel.Writes.{write_all, write_all-part}
use warptap.SibModel.Load.{
  size, size_arms, size_content, load, load_arms, load_content, Sized, SizedArms, SizedContent,
  length-live_layout,
}
use warptap.SibModel.{shift}
use warptap.SibModel.WriteSlots.{shift_loop-write_all, write_leaf, unfold_nil, write_sib, write_mux}

write_arm_state :
    (values : List ℕ) (c : Content) (arms : ArmStates) (v : ℕ) (vs : List ℕ) (here : Bool)
    → (here ≡ true → write_all write_content c (content_layout c) vs ≡ load_content c vs)
    → (here ≡ false → write_all write_arm arms (arm_layout v arms) vs ≡ load_arms v arms vs)
    → write_all write_arm
        (arm_state values c arms)
        (if here then map first_arm (content_layout c) else map next_arm (arm_layout v arms))
        vs
      ≡ (if here
          then arm_state values (load_content c vs) arms
          else arm_state values c (load_arms v arms vs))
unfolding write_cell
write_arm_state values c arms v vs true h h' =
    write_all-part write_arm write_content (λ x. arm_state values x arms) first_arm (λ x r u. refl)
      c (content_layout c) vs
    ∙ ap (λ x. arm_state values x arms) (h refl)
write_arm_state values c arms v vs false h h' =
    write_all-part write_arm write_arm (arm_state values c) next_arm (λ x r u. refl) arms
      (arm_layout v arms) vs
    ∙ ap (arm_state values c) (h' refl)

room_then : (b : Bool) (k m : ℕ) {n : ℕ} → (if b then k else m) ≤ n → b ≡ true → k ≤ n
room_then true k m h e = h
room_then false k m h e = cc

room_else : (b : Bool) (k m : ℕ) {n : ℕ} → (if b then k else m) ≤ n → b ≡ false → m ≤ n
room_else true k m h e = cc
room_else false k m h e = h

write_children :
    (s : Slots) (vs : List ℕ)
    → write_all write_cell s (live_layout s) vs ≡ load s vs
    → write_all write_content (children s) (content_layout (children s)) vs
      ≡ load_content (children s) vs
unfolding live_layout load write_cell
write_children s vs h =
    write_all-part write_content write_cell children in_children (λ x r v. refl) s (live_layout s)
      vs
    ∙ ap children h

write_no_arms :
    (v : ℕ) (vs : List ℕ)
    → write_all write_arm no_arm_states (arm_layout v no_arm_states) vs ≡ no_arm_states
unfolding live_layout write_all
write_no_arms v vs = refl

-- Writing through the references of the layout loads the list.
mutual
  unfolding live_layout load size

  pub write_layout :
      (s : Slots) (vs : List ℕ)
      → Sized s
      → size s ≤ length vs
      → write_all write_cell s (live_layout s) vs ≡ load s vs
  write_layout no_slots vs h room = unfold_nil vs
  write_layout (sib_slot name ff po c rest) vs h room =
      write_sib name ff po c rest vs room (λ r. write_layout_content c vs h.0 r)
        (λ us r. write_layout rest us h.1 r)
  write_layout (mux_slot name w ff po arms rest) vs h room =
      write_mux name w ff po arms rest vs h.0 room
        (write_layout_arms (value_of po) arms vs h.2 (omega arith))
        (λ us r. write_layout rest us h.3 r)

  write_layout_arms :
      (v : ℕ) (arms : ArmStates) (vs : List ℕ)
      → SizedArms arms
      → size_arms v arms ≤ length vs
      → write_all write_arm arms (arm_layout v arms) vs ≡ load_arms v arms vs
  write_layout_arms v no_arm_states vs h room = write_no_arms v vs
  write_layout_arms v (arm_state values c arms) vs h room =
      write_arm_state values c arms v vs (contains values v)
        (λ e.
          write_layout_content c vs h.0
            (room_then (contains values v) (size_content c) (size_arms v arms) room e))
        (λ e.
          write_layout_arms v arms vs h.1
            (room_else (contains values v) (size_content c) (size_arms v arms) room e))

  write_layout_content :
      (c : Content) (vs : List ℕ)
      → SizedContent c
      → size_content c ≤ length vs
      → write_all write_content c (content_layout c) vs ≡ load_content c vs
  write_layout_content (leaf l) vs h room = write_leaf l vs h room
  write_layout_content (children s) vs h room = write_children s vs (write_layout s vs h room)

-- A shift puts TDI before the bits that the live cells show, and the network keeps as many of these
-- as it has cells.
pub shift-load :
    (s : Slots) (tdi : ℕ)
    → Sized s
    → (shift s tdi).0 ≡ load s (tdi ∷ map (read_cell s) (live_layout s))
unfolding shift
shift-load s tdi h =
    shift_loop-write_all s s tdi (live_layout s)
    ∙ write_layout s (tdi ∷ map (read_cell s) (live_layout s)) h
        (omega (arith, length-map (live_layout s) (read_cell s), length-live_layout s))

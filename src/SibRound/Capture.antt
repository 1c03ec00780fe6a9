-- ===== src/SibRound/Capture.antt =====
-- A capture changes what the flip-flops of a network hold and nothing else
-- (src/warptap/sib_model.py).
use warptap.Base.{
  ℕ, suc, ◌+◌, truthy, if◌then◌else◌, Bool, true, false, ◌&&◌, List, length, ◌≡◌, refl, ap, ap₂,
  ◌∙◌,
}
use warptap.TapIr.{bits_from_int}
use warptap.TapIr.Packing.{length-bits_from_int}
use warptap.IclModel.{contains}
use warptap.SibModel.{is_write, capture_leaf, capture_chain, capture_arms, capture_content}
use warptap.SibModel.State.{
  Leaf, Slots, no_slots, sib_slot, mux_slot, ArmStates, no_arm_states, arm_state, Content, leaf,
  children,
}
use warptap.SibModel.Cells.{value_of}
use warptap.SibModel.Load.{size, size_arms, size_content, Sized, SizedArms, SizedContent}
use warptap.SibModel.Contents.{arm_matched, NoRelay, NoRelayContent}

length_choice :
    (b : Bool) (xs ys : List ℕ) {n : ℕ}
    → length xs ≡ n
    → length ys ≡ n
    → length (if b then xs else ys) ≡ n
length_choice true xs ys h h' = h
length_choice false xs ys h h' = h'

captured_length : (l : Leaf) → SizedContent (leaf l) → SizedContent (leaf (capture_leaf l))
unfolding capture_leaf
captured_length l h = (
  length_choice (is_write l.direction) l.inst_po (bits_from_int l.capture_value l.width) h.1
      (length-bits_from_int l.capture_value l.width),
  h.1,
)

pub captured_width : (l : Leaf) → (capture_leaf l).width ≡ l.width
unfolding capture_leaf
captured_width l = refl

mutual
  unfolding capture_chain

  pub capture-Sized : (b : Bool) (s : Slots) → Sized s → Sized (capture_chain b s)
  capture-Sized b no_slots h = tt
  capture-Sized b (sib_slot name ff po c rest) h =
      (capture_content-Sized (truthy po) c h.0, capture-Sized b rest h.1)
  capture-Sized b (mux_slot name w ff po arms rest) h = (
    length_choice b po ff h.1 h.0,
    h.1,
    capture_arms-Sized b (value_of po) arms h.2,
    capture-Sized b rest h.3,
  )

  pub capture_arms-Sized :
      (b : Bool) (v : ℕ) (arms : ArmStates) → SizedArms arms → SizedArms (capture_arms b v arms)
  capture_arms-Sized b v no_arm_states h = tt
  capture_arms-Sized b v (arm_state values c arms) h =
      (capture_content-Sized (b && contains values v) c h.0, capture_arms-Sized b v arms h.1)

  pub capture_content-Sized :
      (b : Bool) (c : Content) → SizedContent c → SizedContent (capture_content b c)
  capture_content-Sized b (leaf l) h = captured_length l h
  capture_content-Sized b (children s) h = capture-Sized b s h

pub matched-capture_arms :
    (b : Bool) (v u : ℕ) (arms : ArmStates)
    → arm_matched u (capture_arms b v arms) ≡ arm_matched u arms
unfolding capture_chain
matched-capture_arms b v u no_arm_states = refl
matched-capture_arms b v u (arm_state values c arms) =
    ap (λ t. if contains values u then true else t) (matched-capture_arms b v u arms)

mutual
  unfolding capture_chain

  pub capture-NoRelay : (b : Bool) (s : Slots) → NoRelay s → NoRelay (capture_chain b s)
  capture-NoRelay b no_slots q = tt
  capture-NoRelay b (sib_slot name ff po c rest) q =
      (λ e. capture_content-NoRelay (truthy po) c (q.0 e), capture-NoRelay b rest q.1)
  capture-NoRelay b (mux_slot name w ff po arms rest) q =
      (matched-capture_arms b (value_of po) (value_of po) arms ∙ q.0, capture-NoRelay b rest q.1)

  pub capture_content-NoRelay :
      (b : Bool) (c : Content) → NoRelayContent c → NoRelayContent (capture_content b c)
  capture_content-NoRelay b (leaf l) q = tt
  capture_content-NoRelay b (children s) q = capture-NoRelay b s q

mutual
  unfolding capture_chain size

  pub size-capture : (b : Bool) (s : Slots) → size (capture_chain b s) ≡ size s
  size-capture b no_slots = refl
  size-capture b (sib_slot name ff po c rest) =
      ap₂ (λ (x y : ℕ). (if truthy po then x else 0) + suc y) (size-capture_content (truthy po) c)
        (size-capture b rest)
  size-capture b (mux_slot name w ff po arms rest) =
      ap₂ (λ (x y : ℕ). x + (w + y)) (size-capture_arms b (value_of po) (value_of po) arms)
        (size-capture b rest)

  pub size-capture_arms :
      (b : Bool) (v u : ℕ) (arms : ArmStates)
      → size_arms u (capture_arms b v arms) ≡ size_arms u arms
  size-capture_arms b v u no_arm_states = refl
  size-capture_arms b v u (arm_state values c arms) =
      ap₂ (λ (x y : ℕ). if contains values u then x else y)
        (size-capture_content (b && contains values v) c) (size-capture_arms b v u arms)

  pub size-capture_content :
      (b : Bool) (c : Content) → size_content (capture_content b c) ≡ size_content c
  size-capture_content b (leaf l) = captured_width l
  size-capture_content b (children s) = size-capture b s

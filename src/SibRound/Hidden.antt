-- ===== src/SibRound/Hidden.antt =====
-- An update does nothing to what is not live (src/warptap/sib_model.py).
use warptap.Base.{ℕ, if◌then◌else◌, Bool, true, false, ◌&&◌, ◌≡◌, refl, ap, ap₂, ◌∙◌}
use warptap.IclModel.{contains}
use warptap.SibModel.{is_write, update_leaf, update_chain, update_arms, update_content}
use warptap.SibModel.State.{
  Leaf, Slots, no_slots, sib_slot, mux_slot, ArmStates, no_arm_states, arm_state, Content, leaf,
  children,
}
use warptap.SibModel.Cells.{value_of}
use warptap.SibModel.Contents.{arm_matched}

if_never : {A : Type 0} (b : Bool) (x y : A) → (if b && false then x else y) ≡ y
if_never true x y = refl
if_never false x y = refl

uncommitted : (l : Leaf) → update_leaf false l ≡ l
unfolding update_leaf
uncommitted l = if_never (is_write l.direction) (record l { inst_po = l.inst_shift_ff }) l

-- An update does nothing to what is not live.
mutual
  unfolding update_chain

  update_hidden : (s : Slots) → update_chain false s ≡ s
  update_hidden no_slots = refl
  update_hidden (sib_slot name ff po c rest) =
      ap₂ (sib_slot name ff po) (update_hidden_content c) (update_hidden rest)
  update_hidden (mux_slot name w ff po arms rest) =
      ap₂ (mux_slot name w ff po) (update_hidden_arms (value_of po) (value_of ff) arms)
        (update_hidden rest)

  update_hidden_arms : (v u : ℕ) (arms : ArmStates) → update_arms false v u arms ≡ arms
  update_hidden_arms v u no_arm_states = refl
  update_hidden_arms v u (arm_state values c arms) =
      ap₂ (arm_state values) (update_hidden_content c) (update_hidden_arms v u arms)

  pub update_hidden_content : (c : Content) → update_content false false c ≡ c
  update_hidden_content (leaf l) = ap leaf (uncommitted l)
  update_hidden_content (children s) = ap children (update_hidden s)

pub update_unmatched_arms :
    (v u : ℕ) (arms : ArmStates) → arm_matched v arms ≡ false → update_arms true v u arms ≡ arms
unfolding update_chain
update_unmatched_arms v u no_arm_states h = refl
update_unmatched_arms v u (arm_state values c arms) h =
    ap₂ (λ x y. arm_state values x y)
      (ap (λ b. update_content b (b && contains values u) c)
          (first (contains values v) (arm_matched v arms) h)
        ∙ update_hidden_content c)
      (update_unmatched_arms v u arms (others (contains values v) (arm_matched v arms) h))
  where
    first : (b t : Bool) → (if b then true else t) ≡ false → b ≡ false
    first true t e = cc
    first false t e = refl

    others : (b t : Bool) → (if b then true else t) ≡ false → t ≡ false
    others true t e = cc
    others false t e = e

-- ===== src/SibModel/State.antt =====
-- The state of a SIB network (src/warptap/sib_model.py).
use warptap.Base.{
  ℕ, List, String, Option, none, some, Result, ok, err, ◌>>=◌, replicate, if◌then◌else◌,
}
use warptap.IclModel.{
  InstrumentDirection, InstrumentNode, Chain, end, sib_node, scan_mux_node, Arms, no_arms, scan_arm,
  is_empty,
}

-- The leaf-only fields of `_SlotState` and `_ArmState`. Both lists have `width` entries.
pub record Leaf : Type 0 where
  pub width : ℕ
  pub capture_value : ℕ
  pub direction : InstrumentDirection
  pub inst_shift_ff : List ℕ
  pub inst_po : List ℕ

-- A list of `_SlotState` and `_MuxSlotState`, and a list of `_ArmState`, each cell with the fields
-- of its head; `Content` is the leaf-or-children part of a slot or an arm.
mutual
  pub data Slots : Type 0 where
    no_slots : Slots
    -- sib_name, sib_shift_ff, sib_po
    sib_slot : String → ℕ → ℕ → Content → Slots → Slots
    -- mux_name, select_width, shift_ff, po, arms
    mux_slot : String → ℕ → List ℕ → List ℕ → ArmStates → Slots → Slots

  pub data ArmStates : Type 0 where
    no_arm_states : ArmStates
    -- values
    arm_state : List ℕ → Content → ArmStates → ArmStates

  pub data Content : Type 0 where
    leaf : Leaf → Content
    children : Slots → Content

-- The NotImplementedError of the constructors.
pub data SibModelError : Type 0 where
  gates_nothing : SibModelError

unfoldable pub new_leaf : Option InstrumentNode → Result SibModelError Content
new_leaf none = err gates_nothing
new_leaf (some i) = ok (
    leaf (record {
      width = i.width;
      capture_value = i.capture_value;
      direction = i.direction;
      inst_shift_ff = replicate i.width 0;
      inst_po = replicate i.width 0;
    }))

-- `_make_chain`, and the list of an `_ArmState` for each arm.
unfoldable mutual
  pub make_chain : Chain → Result SibModelError Slots
  make_chain end = ok no_slots
  make_chain (sib_node name instrument nested rest) =
      let inner =
        if is_empty nested
        then new_leaf instrument
        else (do s ← make_chain nested; ok (children s)) in
      do c ← inner; there ← make_chain rest; ok (sib_slot name 0 0 c there)
  make_chain (scan_mux_node name select_width arms rest) = do
    states ← make_arms arms
    there ← make_chain rest
    ok (
        mux_slot name select_width (replicate select_width 0) (replicate select_width 0) states
          there)

  pub make_arms : Arms → Result SibModelError ArmStates
  make_arms no_arms = ok no_arm_states
  make_arms (scan_arm values instrument nested arms) =
      let inner =
        if is_empty nested
        then new_leaf instrument
        else (do s ← make_chain nested; ok (children s)) in
      do c ← inner; there ← make_arms arms; ok (arm_state values c there)

-- `SibNetworkRegister(graph)`.
unfoldable pub new_register : Chain → Result SibModelError Slots
unfolding make_chain new_leaf
new_register chain = make_chain chain

-- ===== src/SibModel.antt =====
-- The behavioural model of an inserted SIB network (src/warptap/sib_model.py). Bits are the
-- numbers 0 and 1 of the source, and what it tests for truth is tested so here.
pub mod State
pub mod Cells
pub mod Writes
pub mod Load
pub mod WriteSlots
pub mod Shift
pub mod Contents
pub mod Reload
pub mod Prefix
pub mod Feed
pub mod LongFeed
use warptap.Base.{
  ℕ, zero, suc, ◌-◌, truthy, if◌then◌else◌, Bool, true, false, ◌&&◌, List, [], ◌∷◌, ◌++◌, map,
  reverse, Option, none, some, replicate, get_or,
}
use warptap.TapIr.{for_range, bits_to_int, bits_from_int}
use warptap.IclModel.{InstrumentDirection, read, write, contains}
use warptap.TapModel.Registers.{DataRegister}
use State.{
  Leaf, Slots, no_slots, sib_slot, mux_slot, ArmStates, no_arm_states, arm_state, Content, leaf,
  children,
}
use Cells.{
  CellRef, sib_cell, mux_cell, in_content, in_arms, next, ContentRef, leaf_cell, in_children,
  ArmRef, first_arm, next_arm, live_layout, read_cell, write_cell, value_of,
}

abbrev pub is_write : InstrumentDirection → Bool
is_write write = true
is_write read = false

reset_leaf : Leaf → Leaf
reset_leaf l = record l { inst_shift_ff = replicate l.width 0; inst_po = replicate l.width 0 }

-- `_reset_chain`.
mutual
  reset_chain : Slots → Slots
  reset_chain no_slots = no_slots
  reset_chain (sib_slot name ff po c rest) = sib_slot name 0 0 (reset_content c) (reset_chain rest)
  reset_chain (mux_slot name w ff po arms rest) =
      mux_slot name w (replicate w 0) (replicate w 0) (reset_arms arms) (reset_chain rest)

  reset_arms : ArmStates → ArmStates
  reset_arms no_arm_states = no_arm_states
  reset_arms (arm_state values c arms) = arm_state values (reset_content c) (reset_arms arms)

  reset_content : Content → Content
  reset_content (leaf l) = leaf (reset_leaf l)
  reset_content (children s) = children (reset_chain s)

unfoldable pub reset : Slots → Slots
unfolding reset_chain reset_leaf
reset slots = reset_chain slots

-- A WRITE instrument captures what was committed, a READ instrument its fixed value.
unfoldable pub capture_leaf : Leaf → Leaf
capture_leaf l = record l {
  inst_shift_ff = if is_write l.direction then l.inst_po else bits_from_int l.capture_value l.width;
}

-- `_capture_chain`. A SIB's children see its `sib_po` alone, an arm's also `parent_open`.
unfoldable mutual
  pub capture_chain : Bool → Slots → Slots
  capture_chain parent_open no_slots = no_slots
  capture_chain parent_open (sib_slot name ff po c rest) =
      sib_slot name (if parent_open then po else ff) po (capture_content (truthy po) c)
        (capture_chain parent_open rest)
  capture_chain parent_open (mux_slot name w ff po arms rest) =
      mux_slot name w (if parent_open then po else ff) po
        (capture_arms parent_open (value_of po) arms) (capture_chain parent_open rest)

  pub capture_arms : Bool → ℕ → ArmStates → ArmStates
  capture_arms parent_open matched no_arm_states = no_arm_states
  capture_arms parent_open matched (arm_state values c arms) =
      arm_state values (capture_content (parent_open && contains values matched) c)
        (capture_arms parent_open matched arms)

  pub capture_content : Bool → Content → Content
  capture_content parent_open (leaf l) = leaf (capture_leaf l)
  capture_content parent_open (children s) = children (capture_chain parent_open s)

unfoldable pub capture : Slots → Slots
unfolding capture_chain capture_leaf
capture slots = capture_chain true slots

-- `_capture_leaves`.
mutual
  capture_leaves : Slots → Slots
  capture_leaves no_slots = no_slots
  capture_leaves (sib_slot name ff po c rest) =
      sib_slot name ff po (capture_leaves_content c) (capture_leaves rest)
  capture_leaves (mux_slot name w ff po arms rest) =
      mux_slot name w ff po (capture_leaves_arms arms) (capture_leaves rest)

  capture_leaves_arms : ArmStates → ArmStates
  capture_leaves_arms no_arm_states = no_arm_states
  capture_leaves_arms (arm_state values c arms) =
      arm_state values (capture_leaves_content c) (capture_leaves_arms arms)

  capture_leaves_content : Content → Content
  capture_leaves_content (leaf l) = leaf (capture_leaf l)
  capture_leaves_content (children s) = children (capture_leaves s)

unfoldable pub capture_unselected : Slots → Slots
unfolding capture_leaves capture_leaf
capture_unselected slots = capture_leaves slots

-- The commit of a leaf's bits: `inst_po[k] = inst_shift_ff[k]` for each `k`.
unfoldable pub update_leaf : Bool → Leaf → Leaf
update_leaf stays l =
    if is_write l.direction && stays then record l { inst_po = l.inst_shift_ff } else l

-- `_update_chain`: what a slot gates sees the slot before the edge; a leaf commits only if its slot
-- was open, or its arm matched, before and after.
unfoldable mutual
  pub update_chain : Bool → Slots → Slots
  update_chain parent_open no_slots = no_slots
  update_chain parent_open (sib_slot name ff po c rest) =
      sib_slot name ff (if parent_open then ff else po)
        (update_content (parent_open && truthy po) (parent_open && truthy po && truthy ff) c)
        (update_chain parent_open rest)
  update_chain parent_open (mux_slot name w ff po arms rest) =
      mux_slot name w ff (if parent_open then ff else po)
        (update_arms parent_open (value_of po) (value_of ff) arms) (update_chain parent_open rest)

  pub update_arms : Bool → ℕ → ℕ → ArmStates → ArmStates
  update_arms parent_open before after no_arm_states = no_arm_states
  update_arms parent_open before after (arm_state values c arms) =
      arm_state values
        (update_content (parent_open && contains values before)
          (parent_open && contains values before && contains values after) c)
        (update_arms parent_open before after arms)

  pub update_content : Bool → Bool → Content → Content
  update_content parent_open stays (leaf l) = leaf (update_leaf stays l)
  update_content parent_open stays (children s) = children (update_chain parent_open s)

unfoldable pub update : Slots → Slots
unfolding update_chain update_leaf
update slots = update_chain true slots

-- The loop of `shift` over the layout and the values that were read from it.
unfoldable pub shift_loop : Slots → ℕ → List (CellRef × ℕ) → Slots
shift_loop slots incoming [] = slots
shift_loop slots incoming ((ref, val) ∷ cells) =
    shift_loop (write_cell slots ref incoming) val cells

abbrev pub last_or : ℕ → List ℕ → ℕ
last_or d [] = d
last_or d (v ∷ vs) = last_or v vs

abbrev pub with_value : Slots → CellRef → CellRef × ℕ
with_value slots ref = (ref, read_cell slots ref)

-- TDO is the last value; an empty network passes TDI on.
unfoldable pub shift : Slots → ℕ → Slots × ℕ
unfolding shift_loop
shift slots tdi =
    let layout = live_layout slots in
    (
      shift_loop slots tdi (map (with_value slots) layout),
      last_or tdi (map (read_cell slots) layout),
    )

-- `tail`; `none` is the ValueError of an empty network.
unfoldable pub tail : Slots → Option ℕ
tail slots = elim (map (read_cell slots) (live_layout slots)) [
  | [] ↦ none
  | v ∷ vs ↦ some (last_or v vs)
]

-- The network as the TAP sees it.
instance abbrev pub sib_network_register : DataRegister Slots
sib_network_register = record { capture = capture; shift = shift; update = update }

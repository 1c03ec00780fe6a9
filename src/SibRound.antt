-- ===== src/SibRound.antt =====
-- One Capture-Shift-Update round of a SIB network with the bits that `compose_bits` gives for it
-- (src/warptap/sib_layout.py against src/warptap/sib_model.py): what it is to do to the network.
pub mod Capture
pub mod Hidden
pub mod Update
pub mod Compose
pub mod Start
pub mod Keep
pub mod Shut
pub mod Quiet
pub mod Sync
use warptap.Base.{
  ℕ, zero, suc, ◌+◌, truthy, if◌then◌else◌, Bool, true, false, List, [], ◌∷◌, ◌++◌, map, reverse,
  Option, none, some, String, replicate, ◌≡◌, ◌⊎◌,
}
use warptap.TapIr.{bits_from_int}
use warptap.IclModel.{
  InstrumentNode, Chain, end, sib_node, scan_mux_node, Arms, no_arms, scan_arm, is_empty,
}
use warptap.SibLayout.{OpenMap, get, is_open, is_target, get_or_0, bit_of, msb_first}
use warptap.SibModel.{capture_arms, capture_content, update_leaf}
use warptap.SibModel.State.{
  Leaf, Slots, no_slots, sib_slot, mux_slot, ArmStates, no_arm_states, arm_state, Content, leaf,
  children,
}
use warptap.SibModel.Cells.{value_of}

-- The set of slots to be open after the round, the SIB whose instrument is addressed, and the value
-- for it.
module _ (after : OpenMap) (target : Option String) (payload : ℕ) where
  abbrev pub leaf_bits : String → ℕ → List ℕ
  leaf_bits name width =
      if is_target target name then bits_from_int payload width else replicate width 0

  -- The bits for a network whose live muxes bypass their arms.
  unfoldable mutual
    pub target_bits : Slots → List ℕ
    target_bits no_slots = []
    target_bits (sib_slot name ff po c rest) =
        (if truthy po then content_bits name c else [])
        ++ (bit_of (is_open after name) ∷ target_bits rest)
    target_bits (mux_slot name w ff po arms rest) =
        msb_first (get_or_0 (get after name)) w ++ target_bits rest

    pub content_bits : String → Content → List ℕ
    content_bits name (leaf l) = leaf_bits name l.width
    content_bits name (children s) = target_bits s

  -- The network after the round. What is gated by a closed slot only captures.
  unfoldable mutual
    pub moved : Slots → Slots
    moved no_slots = no_slots
    moved (sib_slot name ff po c rest) =
        let bit = bit_of (is_open after name) in
        sib_slot name bit bit
          (if truthy po then moved_content (truthy bit) name c else capture_content false c)
          (moved rest)
    moved (mux_slot name w ff po arms rest) =
        let bits = bits_from_int (get_or_0 (get after name)) w in
        mux_slot name w bits bits (capture_arms true (value_of po) arms) (moved rest)

    pub moved_content : Bool → String → Content → Content
    moved_content stays name (leaf l) =
        leaf (update_leaf stays (record l { inst_shift_ff = leaf_bits name l.width }))
    moved_content stays name (children s) = children (moved s)

-- The network has the shape that the graph describes.
abbrev mutual
  pub Fits : Chain → Slots → Type 0
  Fits end no_slots = Unit
  Fits (sib_node name instrument nested rest) (sib_slot name' ff po c rest') =
      (name ≡ name') × FitsContent instrument nested c × Fits rest rest'
  Fits (scan_mux_node name w arms rest) (mux_slot name' w' ff po arms' rest') =
      (name ≡ name') × (w ≡ w') × FitsArms arms arms' × Fits rest rest'
  Fits _ _ = false ≡ true

  pub FitsArms : Arms → ArmStates → Type 0
  FitsArms no_arms no_arm_states = Unit
  FitsArms (scan_arm values instrument nested arms) (arm_state values' c arms') =
      (values ≡ values') × FitsContent instrument nested c × FitsArms arms arms'
  FitsArms _ _ = false ≡ true

  pub FitsContent : Option InstrumentNode → Chain → Content → Type 0
  FitsContent instrument nested (leaf l) =
      (is_empty nested ≡ true)
      × ((i : InstrumentNode) × (instrument ≡ some i) × (i.width ≡ l.width))
  FitsContent instrument nested (children s) = (is_empty nested ≡ false) × Fits nested s

-- The map of open slots says what is live: a SIB is in it when it is open, and a live mux is not in
-- it or has its value in it.
abbrev mutual
  pub Tracks : OpenMap → Slots → Type 0
  Tracks now no_slots = Unit
  Tracks now (sib_slot name ff po c rest) =
      (is_open now name ≡ truthy po) × (truthy po ≡ true → TracksContent now c) × Tracks now rest
  Tracks now (mux_slot name w ff po arms rest) =
      ((get now name ≡ none) ⊎ (get now name ≡ some (value_of po))) × Tracks now rest

  pub TracksContent : OpenMap → Content → Type 0
  TracksContent now (leaf l) = Unit
  TracksContent now (children s) = Tracks now s

-- ===== src/SibModel/Cells.antt =====
-- The live flip-flops of a SIB network as references (src/warptap/sib_model.py).
use warptap.Base.{
  ℕ, zero, suc, ◌-◌, truthy, if◌then◌else◌, Bool, true, false, List, [], ◌∷◌, ◌++◌, map, reverse,
  Option, none, some, get_or, set,
}
use warptap.TapIr.{for_range, bits_to_int}
use warptap.IclModel.{contains}
use warptap.SibModel.State.{
  Slots, no_slots, sib_slot, mux_slot, ArmStates, no_arm_states, arm_state, Content, leaf, children,
}

-- `_value_of`.
abbrev pub value_of : List ℕ → ℕ
value_of bits = bits_to_int bits

-- `_CellRef`: the place of the slot or arm in the network, and the bit.
mutual
  pub data CellRef : Type 0 where
    sib_cell : CellRef  -- the `sib_shift_ff` of the first slot
    mux_cell : ℕ → CellRef  -- a bit of the `shift_ff` of the first slot
    in_content : ContentRef → CellRef
    in_arms : ArmRef → CellRef
    next : CellRef → CellRef

  pub data ContentRef : Type 0 where
    leaf_cell : ℕ → ContentRef  -- a bit of `inst_shift_ff`
    in_children : CellRef → ContentRef

  pub data ArmRef : Type 0 where
    first_arm : ContentRef → ArmRef
    next_arm : ArmRef → ArmRef

-- `_live_layout_chain`. The bits of a mux stand in descending order.
unfoldable mutual
  pub live_layout : Slots → List CellRef
  live_layout no_slots = []
  live_layout (sib_slot name ff po c rest) =
      let inner = map in_content (content_layout c) in
      (if truthy po then inner else []) ++ (sib_cell ∷ map next (live_layout rest))
  live_layout (mux_slot name w ff po arms rest) =
      map in_arms (arm_layout (value_of po) arms)
      ++ (reverse (for_range 0 w mux_cell) ++ map next (live_layout rest))

  -- The content of the first arm that claims the value.
  pub arm_layout : ℕ → ArmStates → List ArmRef
  arm_layout matched no_arm_states = []
  arm_layout matched (arm_state values c arms) =
      if contains values matched
      then map first_arm (content_layout c)
      else map next_arm (arm_layout matched arms)

  pub content_layout : Content → List ContentRef
  content_layout (leaf l) = for_range 0 l.width leaf_cell
  content_layout (children s) = map in_children (live_layout s)

abbrev pub is_last : Slots → Bool
is_last no_slots = true
is_last (sib_slot name ff po c rest) = false
is_last (mux_slot name w ff po arms rest) = false

-- The `so` of a mux: the matched arm's, or else bit 0 of its own register.
abbrev pub relay : Option ℕ → List ℕ → ℕ
relay (some so) ff = so
relay none ff = get_or ff 0 0

-- `_live_so`, on the last slot of a chain. An instrument has at least one bit.
unfoldable mutual
  pub live_so : Slots → ℕ
  live_so no_slots = 0
  live_so (sib_slot name ff po c rest) = if is_last rest then ff else live_so rest
  live_so (mux_slot name w ff po arms rest) =
      if is_last rest then relay (arm_so (value_of po) arms) ff else live_so rest

  pub arm_so : ℕ → ArmStates → Option ℕ
  arm_so matched no_arm_states = none
  arm_so matched (arm_state values c arms) =
      if contains values matched then some (content_so c) else arm_so matched arms

  pub content_so : Content → ℕ
  content_so (leaf l) = get_or l.inst_shift_ff (l.width - 1) 0
  content_so (children s) = live_so s

-- `_read`. A reference that does not fit the network reads 0; the layout has none.
unfoldable mutual
  unfolding live_so

  pub read_cell : Slots → CellRef → ℕ
  read_cell (sib_slot name ff po c rest) sib_cell = ff
  read_cell (sib_slot name ff po c rest) (in_content r) = read_content c r
  read_cell (sib_slot name ff po c rest) (next r) = read_cell rest r
  read_cell (mux_slot name w ff po arms rest) (mux_cell zero) = relay (arm_so (value_of po) arms) ff
  read_cell (mux_slot name w ff po arms rest) (mux_cell (suc k)) = get_or ff (suc k) 0
  read_cell (mux_slot name w ff po arms rest) (in_arms r) = read_arm arms r
  read_cell (mux_slot name w ff po arms rest) (next r) = read_cell rest r
  read_cell _ _ = 0

  pub read_arm : ArmStates → ArmRef → ℕ
  read_arm no_arm_states r = 0
  read_arm (arm_state values c arms) (first_arm r) = read_content c r
  read_arm (arm_state values c arms) (next_arm r) = read_arm arms r

  pub read_content : Content → ContentRef → ℕ
  read_content (leaf l) (leaf_cell k) = get_or l.inst_shift_ff k 0
  read_content (children s) (in_children r) = read_cell s r
  read_content _ _ = 0

-- `_write`. A reference that does not fit the network changes nothing; the layout has none.
unfoldable mutual
  pub write_cell : Slots → CellRef → ℕ → Slots
  write_cell (sib_slot name ff po c rest) sib_cell v = sib_slot name v po c rest
  write_cell (sib_slot name ff po c rest) (in_content r) v =
      sib_slot name ff po (write_content c r v) rest
  write_cell (sib_slot name ff po c rest) (next r) v = sib_slot name ff po c (write_cell rest r v)
  write_cell (mux_slot name w ff po arms rest) (mux_cell k) v =
      mux_slot name w (set ff k v) po arms rest
  write_cell (mux_slot name w ff po arms rest) (in_arms r) v =
      mux_slot name w ff po (write_arm arms r v) rest
  write_cell (mux_slot name w ff po arms rest) (next r) v =
      mux_slot name w ff po arms (write_cell rest r v)
  write_cell s _ v = s

  pub write_arm : ArmStates → ArmRef → ℕ → ArmStates
  write_arm no_arm_states r v = no_arm_states
  write_arm (arm_state values c arms) (first_arm r) v = arm_state values (write_content c r v) arms
  write_arm (arm_state values c arms) (next_arm r) v = arm_state values c (write_arm arms r v)

  pub write_content : Content → ContentRef → ℕ → Content
  write_content (leaf l) (leaf_cell k) v =
      leaf (record l { inst_shift_ff = set l.inst_shift_ff k v })
  write_content (children s) (in_children r) v = children (write_cell s r v)
  write_content c _ v = c

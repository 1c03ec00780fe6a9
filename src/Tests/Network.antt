-- ===== src/Tests/Network.antt =====
-- A network of five slots, with a state of it (src/warptap/icl_model.py, src/warptap/sib_model.py).
use warptap.Base.{[], ◌∷◌, none, some, false, String, refl}
use warptap.IclModel.{
  InstrumentDirection, read, write, InstrumentNode, Chain, end, sib_node, scan_mux_node, no_arms,
  scan_arm,
}
use warptap.SibLayout.{OpenSet, names, values}
use warptap.SibModel.State.{
  Slots, no_slots, sib_slot, mux_slot, no_arm_states, arm_state, Content, leaf, children,
}
use warptap.SibModel.Load.{Sized, SizedContent}

abbrev pub instrument : String → InstrumentDirection → InstrumentNode
instrument name direction = record {
  name = name;
  width = 2;
  capture_value = 1;
  direction = direction;
  signal_bits = [];
  aliases = [];
  capture_sync = false;
}

-- A WRITE instrument behind a SIB, a SIB that gates another SIB, and a mux with two arms.
abbrev pub network : Chain
network = sib_node "a" (some (instrument "ia" write)) end (
    sib_node "b" none (sib_node "c" (some (instrument "ic" read)) end end) (
      scan_mux_node "m" 2
        (scan_arm (1 ∷ []) (some (instrument "i1" read)) end
          (scan_arm (2 ∷ []) (some (instrument "i2" read)) end no_arms))
        end))

abbrev pub cells : InstrumentDirection → Content
cells direction = leaf (record {
  width = 2;
  capture_value = 1;
  direction = direction;
  inst_shift_ff = 0 ∷ 0 ∷ [];
  inst_po = 0 ∷ 0 ∷ [];
})

-- The state with the SIBs "a" and "b" open.
abbrev pub state : Slots
state = sib_slot "a" 1 1 (cells write) (
    sib_slot "b" 1 1 (children (sib_slot "c" 0 0 (cells read) no_slots)) (
      mux_slot "m" 2 (0 ∷ 0 ∷ []) (0 ∷ 0 ∷ [])
        (arm_state (1 ∷ []) (cells read) (arm_state (2 ∷ []) (cells read) no_arm_states)) no_slots))

abbrev pub now : OpenSet
now = names ("a" ∷ "b" ∷ [])

abbrev pub after : OpenSet
after = values (("a", 1) ∷ ("b", 1) ∷ ("c", 1) ∷ ("m", 2) ∷ [])

abbrev pub cells-Sized : (d : InstrumentDirection) → SizedContent (cells d)
cells-Sized d = (refl, refl)

abbrev pub state-Sized : Sized state
state-Sized = (
  cells-Sized write,
  ((cells-Sized read, tt), (refl, refl, (cells-Sized read, (cells-Sized read, tt)), tt)),
)

-- The network as the constructor returns it.
abbrev pub fresh : Slots
fresh = sib_slot "a" 0 0 (cells write) (
    sib_slot "b" 0 0 (children (sib_slot "c" 0 0 (cells read) no_slots)) (
      mux_slot "m" 2 (0 ∷ 0 ∷ []) (0 ∷ 0 ∷ [])
        (arm_state (1 ∷ []) (cells read) (arm_state (2 ∷ []) (cells read) no_arm_states)) no_slots))

-- ===== src/SibRound/Keep.antt =====
-- A round keeps the shape of a network (src/warptap/sib_model.py).
use warptap.Base.{
  ℕ, truthy, if◌then◌else◌, Bool, true, false, ◌&&◌, Option, String, ◌≡◌, refl, sym, ◌∙◌,
}
use warptap.TapIr.Packing.{length-bits_from_int}
use warptap.IclModel.{
  InstrumentNode, Chain, end, sib_node, scan_mux_node, Arms, no_arms, scan_arm, contains,
}
use warptap.SibLayout.{OpenMap, get, is_open, get_or_0, bit_of}
use warptap.SibModel.{is_write, capture_chain, capture_arms, capture_content, update_leaf}
use warptap.SibModel.State.{
  Leaf, Slots, no_slots, sib_slot, mux_slot, ArmStates, no_arm_states, arm_state, Content, leaf,
  children,
}
use warptap.SibModel.Cells.{value_of}
use warptap.SibModel.Load.{Sized, SizedContent}
use warptap.SibRound.{leaf_bits, moved, moved_content, Fits, FitsArms, FitsContent}
use warptap.SibRound.Capture.{capture_arms-Sized, capture_content-Sized, captured_width}
use warptap.SibRound.Update.{length-leaf_bits}

mutual
  unfolding capture_chain

  capture-Fits :
      (b : Bool) (chain : Chain) (s : Slots) → Fits chain s → Fits chain (capture_chain b s)
  capture-Fits b end no_slots f = tt
  capture-Fits b end (sib_slot name ff po c rest) f = cc
  capture-Fits b end (mux_slot name w ff po arms rest) f = cc
  capture-Fits b (sib_node n i nested rest) no_slots f = cc
  capture-Fits b (sib_node n i nested rest) (sib_slot name ff po c rest') f =
      (f.0, capture_content-Fits (truthy po) i nested c f.1, capture-Fits b rest rest' f.2)
  capture-Fits b (sib_node n i nested rest) (mux_slot name w ff po arms rest') f = cc
  capture-Fits b (scan_mux_node n w arms rest) no_slots f = cc
  capture-Fits b (scan_mux_node n w arms rest) (sib_slot name ff po c rest') f = cc
  capture-Fits b (scan_mux_node n w arms rest) (mux_slot name w' ff po states rest') f =
      (f.0, f.1, capture_arms-Fits b (value_of po) arms states f.2, capture-Fits b rest rest' f.3)

  capture_arms-Fits :
      (b : Bool) (v : ℕ) (arms : Arms) (states : ArmStates)
      → FitsArms arms states
      → FitsArms arms (capture_arms b v states)
  capture_arms-Fits b v no_arms no_arm_states f = tt
  capture_arms-Fits b v no_arms (arm_state values c states) f = cc
  capture_arms-Fits b v (scan_arm vs i nested arms) no_arm_states f = cc
  capture_arms-Fits b v (scan_arm vs i nested arms) (arm_state values c states) f = (
    f.0,
    capture_content-Fits (b && contains values v) i nested c f.1,
    capture_arms-Fits b v arms states f.2,
  )

  capture_content-Fits :
      (b : Bool) (i : Option InstrumentNode) (nested : Chain) (c : Content)
      → FitsContent i nested c
      → FitsContent i nested (capture_content b c)
  capture_content-Fits b i nested (leaf l) f = (f.0, (f.1.0, f.1.1, f.1.2 ∙ sym (captured_width l)))
  capture_content-Fits b i nested (children s) f = (f.0, capture-Fits b nested s f.1)

choose : {A : Type 0} (P : A → Type 0) (b : Bool) (x y : A) → P x → P y → P (if b then x else y)
choose P true x y h h' = h
choose P false x y h h' = h'

updated_width : (stays : Bool) (l : Leaf) → (update_leaf stays l).width ≡ l.width
unfolding update_leaf
updated_width stays l =
    choose (λ x. x.width ≡ l.width) (is_write l.direction && stays)
      (record l { inst_po = l.inst_shift_ff }) l refl refl

updated-Sized :
    (stays : Bool) (l : Leaf) → SizedContent (leaf l) → SizedContent (leaf (update_leaf stays l))
unfolding update_leaf
updated-Sized stays l h =
    choose (λ x. SizedContent (leaf x)) (is_write l.direction && stays)
      (record l { inst_po = l.inst_shift_ff }) l (h.0, h.0) h

module _ (after : OpenMap) (target : Option String) (payload : ℕ) where
  mutual
    unfolding moved

    pub moved-Fits :
        (chain : Chain) (s : Slots) → Fits chain s → Fits chain (moved after target payload s)
    moved-Fits end no_slots f = tt
    moved-Fits end (sib_slot name ff po c rest) f = cc
    moved-Fits end (mux_slot name w ff po arms rest) f = cc
    moved-Fits (sib_node n i nested rest) no_slots f = cc
    moved-Fits (sib_node n i nested rest) (sib_slot name ff po c rest') f = (
      f.0,
      choose (FitsContent i nested) (truthy po)
          (moved_content after target payload (truthy (bit_of (is_open after name))) name c)
          (capture_content false c)
          (moved_content-Fits (truthy (bit_of (is_open after name))) name i nested c f.1)
          (capture_content-Fits false i nested c f.1),
      moved-Fits rest rest' f.2,
    )
    moved-Fits (sib_node n i nested rest) (mux_slot name w ff po arms rest') f = cc
    moved-Fits (scan_mux_node n w arms rest) no_slots f = cc
    moved-Fits (scan_mux_node n w arms rest) (sib_slot name ff po c rest') f = cc
    moved-Fits (scan_mux_node n w arms rest) (mux_slot name w' ff po states rest') f =
        (f.0, f.1, capture_arms-Fits true (value_of po) arms states f.2, moved-Fits rest rest' f.3)

    moved_content-Fits :
        (stays : Bool) (name : String) (i : Option InstrumentNode) (nested : Chain) (c : Content)
        → FitsContent i nested c
        → FitsContent i nested (moved_content after target payload stays name c)
    moved_content-Fits stays name i nested (leaf l) f = (
      f.0,
      (
        f.1.0,
        f.1.1,
        f.1.2
            ∙ sym (
                updated_width stays
                  (record l { inst_shift_ff = leaf_bits after target payload name l.width })),
      ),
    )
    moved_content-Fits stays name i nested (children s) f = (f.0, moved-Fits nested s f.1)

  mutual
    unfolding moved

    pub moved-Sized : (s : Slots) → Sized s → Sized (moved after target payload s)
    moved-Sized no_slots h = tt
    moved-Sized (sib_slot name ff po c rest) h = (
      choose SizedContent (truthy po)
          (moved_content after target payload (truthy (bit_of (is_open after name))) name c)
          (capture_content false c)
          (moved_content-Sized (truthy (bit_of (is_open after name))) name c h.0)
          (capture_content-Sized false c h.0),
      moved-Sized rest h.1,
    )
    moved-Sized (mux_slot name w ff po arms rest) h = (
      length-bits_from_int (get_or_0 (get after name)) w,
      length-bits_from_int (get_or_0 (get after name)) w,
      capture_arms-Sized true (value_of po) arms h.2,
      moved-Sized rest h.3,
    )

    moved_content-Sized :
        (stays : Bool) (name : String) (c : Content)
        → SizedContent c
        → SizedContent (moved_content after target payload stays name c)
    moved_content-Sized stays name (leaf l) h =
        updated-Sized stays
          (record l { inst_shift_ff = leaf_bits after target payload name l.width })
          (length-leaf_bits after target payload name l.width, h.1)
    moved_content-Sized stays name (children s) h = moved-Sized s h

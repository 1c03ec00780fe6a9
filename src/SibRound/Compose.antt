-- ===== src/SibRound/Compose.antt =====
-- `compose_bits` on the graph gives the target bits of a network that fits it, so that a round with
-- them does what it is to do (src/warptap/sib_layout.py, src/warptap/sib_model.py).
use warptap.Base.{
  ℕ, ◌<◌, truthy, if◌then◌else◌, Bool, true, false, List, [], ◌∷◌, ◌++◌, reverse, Option, none,
  some, String, Result, ok, ◌>>=◌, replicate, length, ◌≡◌, refl, sym, ap, ap₂, subst, ◌∙◌, inl, inr,
  ◌⊎◌,
}
use warptap.TapIr.{bits_from_int}
use warptap.IclModel.{
  InstrumentNode, Chain, end, sib_node, scan_mux_node, Arms, no_arms, scan_arm, is_empty, contains,
}
use warptap.SibLayout.{
  OpenMap, OpenSet, LayoutError, normalize_open, get, is_open, is_target, bit_of, msb_first,
  get_or_0, layout_bit_length, compose_bits, leaf_content_bits, walk_bits, arm_bits,
}
use warptap.SibLayout.Length.{length-compose_bits}
use warptap.SibModel.{capture, update}
use warptap.SibModel.State.{
  Leaf, Slots, no_slots, sib_slot, mux_slot, ArmStates, no_arm_states, arm_state, Content, leaf,
  children,
}
use warptap.SibModel.Cells.{value_of}
use warptap.SibModel.Load.{size, Sized}
use warptap.SibModel.Contents.{arm_matched, NoRelay, NoRelayContent, contents}
use warptap.SibModel.Feed.{feed}
use warptap.SibRound.{
  target_bits, content_bits, moved, Fits, FitsArms, FitsContent, Tracks, TracksContent,
}
use warptap.SibRound.Update.{update-feed-capture}

abbrev Bits : Type 0
Bits = Result LayoutError (List ℕ)

compose_sib :
    (b b' : Bool) (bit : ℕ) (inner rest : Bits) (xs ys : List ℕ)
    → b ≡ b'
    → (b' ≡ true → inner ≡ ok xs)
    → rest ≡ ok ys
    → (do here ← if b then inner else ok []; there ← rest; ok (here ++ (bit ∷ there)))
      ≡ ok ((if b' then xs else []) ++ (bit ∷ ys))
compose_sib true true bit inner rest xs ys e h h' = rw (h refl, h') refl
compose_sib false false bit inner rest xs ys e h h' = rw h' refl
compose_sib true false bit inner rest xs ys e h h' = cc
compose_sib false true bit inner rest xs ys e h h' = cc

compose_mux :
    (own : List ℕ) (inner rest : Bits) (ys : List ℕ)
    → inner ≡ ok []
    → rest ≡ ok ys
    → (do a ← inner; b ← rest; ok (a ++ (own ++ b))) ≡ ok (own ++ ys)
compose_mux own inner rest ys h h' = rw (h, h') refl

module _ (now after : OpenMap) (target : Option String) (payload : ℕ) where
  -- What `compose_bits` gives for the content of a SIB.
  unfoldable inner_bits : String → Option InstrumentNode → Chain → Bits
  inner_bits name instrument nested =
      if is_empty nested
      then leaf_content_bits payload (is_target target name) instrument
      else walk_bits now after target payload nested

  -- A mux whose arms do not claim its value shows nothing of them.
  arm_bits-unmatched :
      (name : String) (v : ℕ) (arms : Arms) (states : ArmStates)
      → FitsArms arms states
      → arm_matched v states ≡ false
      → arm_bits now after target payload name (some v) arms ≡ ok []
  unfolding walk_bits inner_bits
  arm_bits-unmatched name v no_arms no_arm_states f q = refl
  arm_bits-unmatched name v no_arms (arm_state values c states) f q = cc
  arm_bits-unmatched name v (scan_arm vs i nested arms) no_arm_states f q = cc
  arm_bits-unmatched name v (scan_arm vs i nested arms) (arm_state values c states) f q =
      go (contains vs v) (arm_matched v states)
        (subst (λ t. (if contains t v then true else arm_matched v states) ≡ false) (sym f.0) q)
        (λ e. arm_bits-unmatched name v arms states f.2 e)
    where
      go :
          (b t : Bool)
          → (if b then true else t) ≡ false
          → (t ≡ false → arm_bits now after target payload name (some v) arms ≡ ok [])
          → elim b [
            | true ↦ inner_bits name i nested
            | false ↦ arm_bits now after target payload name (some v) arms
          ]
            ≡ ok []
      go true t e h = cc
      go false t e h = h e

  arm_bits-tracked :
      (name : String) (v : Option ℕ) (bits : List ℕ) (arms : Arms) (states : ArmStates)
      → FitsArms arms states
      → arm_matched (value_of bits) states ≡ false
      → (v ≡ none) ⊎ (v ≡ some (value_of bits))
      → arm_bits now after target payload name v arms ≡ ok []
  unfolding walk_bits
  arm_bits-tracked name v bits arms states f q (inl e) = rw e refl
  arm_bits-tracked name v bits arms states f q (inr e) =
      rw e (arm_bits-unmatched name (value_of bits) arms states f q)

  bits_of_leaf :
      (name : String) (instrument : Option InstrumentNode) (nested : Chain) (l : Leaf)
      → FitsContent instrument nested (leaf l)
      → inner_bits name instrument nested ≡ ok (content_bits after target payload name (leaf l))
  unfolding inner_bits leaf_content_bits target_bits
  bits_of_leaf name instrument nested l (empty, (i, e, w)) =
      rw (empty, e)
        (ap
          (λ (n : ℕ). ok (if is_target target name then bits_from_int payload n else replicate n 0))
          w)

  bits_of_children :
      (name : String) (instrument : Option InstrumentNode) (nested : Chain) (s : Slots)
      → is_empty nested ≡ false
      → walk_bits now after target payload nested ≡ ok (target_bits after target payload s)
      → inner_bits name instrument nested ≡ ok (content_bits after target payload name (children s))
  unfolding inner_bits target_bits
  bits_of_children name instrument nested s full h = rw full h

  mutual
    unfolding walk_bits target_bits inner_bits

    pub walk-target_bits :
        (chain : Chain) (s : Slots)
        → Fits chain s
        → NoRelay s
        → Tracks now s
        → walk_bits now after target payload chain ≡ ok (target_bits after target payload s)
    walk-target_bits end no_slots f q t = refl
    walk-target_bits end (sib_slot name ff po c rest) f q t = cc
    walk-target_bits end (mux_slot name w ff po arms rest) f q t = cc
    walk-target_bits (sib_node n i nested rest) no_slots f q t = cc
    walk-target_bits (sib_node n i nested rest) (sib_slot name ff po c rest') f q t =
        compose_sib (is_open now n) (truthy po) (bit_of (is_open after n)) (inner_bits n i nested)
          (walk_bits now after target payload rest) (content_bits after target payload name c)
          (target_bits after target payload rest') (ap (is_open now) f.0 ∙ t.0)
          (λ e.
            ap (λ m. inner_bits m i nested) f.0
            ∙ walk-content_bits name i nested c f.1 (q.0 e) (t.1 e))
          (walk-target_bits rest rest' f.2 q.1 t.2)
        ∙ ap
            (λ m. ok (
              (if truthy po then content_bits after target payload name c else [])
              ++ (bit_of (is_open after m) ∷ target_bits after target payload rest')))
            f.0
    walk-target_bits (sib_node n i nested rest) (mux_slot name w ff po arms rest') f q t = cc
    walk-target_bits (scan_mux_node n w arms rest) no_slots f q t = cc
    walk-target_bits (scan_mux_node n w arms rest) (sib_slot name ff po c rest') f q t = cc
    walk-target_bits (scan_mux_node n w arms rest) (mux_slot name w' ff po states rest') f q t =
        compose_mux (msb_first (get_or_0 (get after n)) w)
          (arm_bits now after target payload n (get now n) arms)
          (walk_bits now after target payload rest) (target_bits after target payload rest')
          (ap (λ m. arm_bits now after target payload n (get now m) arms) f.0
            ∙ arm_bits-tracked n (get now name) po arms states f.2 q.0 t.0)
          (walk-target_bits rest rest' f.3 q.1 t.1)
        ∙ ap₂
            (λ m (k : ℕ).
              ok (msb_first (get_or_0 (get after m)) k ++ target_bits after target payload rest'))
            f.0 f.1

    walk-content_bits :
        (name : String) (i : Option InstrumentNode) (nested : Chain) (c : Content)
        → FitsContent i nested c
        → NoRelayContent c
        → TracksContent now c
        → inner_bits name i nested ≡ ok (content_bits after target payload name c)
    walk-content_bits name i nested (leaf l) f q t = bits_of_leaf name i nested l f
    walk-content_bits name i nested (children s) f q t =
        bits_of_children name i nested s f.0 (walk-target_bits nested s f.1 q t)

-- For a network that fits the graph, whose lists of flip-flops have their widths, of whose live muxes
-- none has an arm matched, which has a live flip-flop, and whose open slots the first set names:
-- `compose_bits` returns bits, `layout_bit_length` says how many there are, and capture, a scan of
-- them with the last one first, and update move the network to the second set: every live SIB and mux
-- takes the value the set gives it, the target instrument gets the payload and every other live one
-- zeros, a WRITE instrument commits these if its SIB is open before and after, and nothing that is not
-- live changes but by the capture. What the live flip-flops captured comes out at TDO.
pub round-compose_bits :
    (chain : Chain) (s : Slots) (open_now open_after : OpenSet) (target : Option String)
    (payload : ℕ)
    → Fits chain s
    → Sized s
    → NoRelay s
    → 0 < size s
    → Tracks (normalize_open open_now) s
    → (bits : List ℕ) × (compose_bits chain open_now open_after target payload ≡ ok bits)
      × (layout_bit_length chain open_now ≡ ok (length bits))
      × (update (feed (capture s) (reverse bits)).0
          ≡ moved (normalize_open open_after) target payload s)
      × ((feed (capture s) (reverse bits)).1 ≡ reverse (contents (capture s)))
unfolding compose_bits
round-compose_bits chain s open_now open_after target payload f h q some_cell t =
    let after = normalize_open open_after in
    let composed = walk-target_bits (normalize_open open_now) after target payload chain s f q t in
    let (state, out) = update-feed-capture after target payload s h q some_cell in
    (
      target_bits after target payload s,
      composed,
      sym (length-compose_bits chain open_now open_after target payload)
          ∙ ap (λ r. r >>= λ bits. ok (length bits)) composed,
      state,
      out,
    )

-- ===== src/SibLayout.antt =====
-- How long the live scan chain is for a given set of open slots, and which bits move it to another
-- set (src/warptap/sib_layout.py).
pub mod Length
pub mod Bits
use warptap.Base.{
  ℕ, zero, suc, ◌+◌, ◌/◌, ◌%◌, ◌^◌, if◌then◌else◌, Bool, true, false, List, [], ◌∷◌, ◌++◌, map,
  reverse, Option, none, some, String, same_name, Result, ok, err, ◌>>=◌, replicate,
}
use warptap.TapIr.{bits_from_int}
use warptap.IclModel.{
  InstrumentNode, Chain, end, sib_node, scan_mux_node, Arms, no_arms, scan_arm, is_empty, contains,
}

-- A dict from names to values, in insertion order.
abbrev pub OpenMap : Type 0
OpenMap = List (String × ℕ)

pub data OpenSet : Type 0 where
  names : List String → OpenSet
  values : OpenMap → OpenSet

-- `_normalize_open`.
unfoldable pub normalize_open : OpenSet → OpenMap
normalize_open (names ns) = map (λ n. (n, 1)) ns
normalize_open (values m) = m

-- `open_map.get(name)`.
abbrev pub get : OpenMap → String → Option ℕ
get [] name = none
get ((n, v) ∷ m) name = if same_name n name then some v else get m name

-- `name in open_map`.
abbrev pub is_open : OpenMap → String → Bool
is_open [] name = false
is_open ((n, v) ∷ m) name = if same_name n name then true else is_open m name

-- The NotImplementedError of `_require_leaf_or_nested`.
pub data LayoutError : Type 0 where
  no_leaf_or_nested : LayoutError

unfoldable leaf_width : Option InstrumentNode → Result LayoutError ℕ
leaf_width none = err no_leaf_or_nested
leaf_width (some i) = ok i.width

-- `_walk` of `layout_bit_length`, and the content of the arm that `_matching_arm` finds.
unfoldable mutual
  walk_length : OpenMap → Chain → Result LayoutError ℕ
  walk_length m end = ok 0
  walk_length m (sib_node name instrument nested rest) =
      let inner = if is_empty nested then leaf_width instrument else walk_length m nested in
      do
        here ← if is_open m name then (do n ← inner; ok (n + 1)) else ok 1
        there ← walk_length m rest
        ok (here + there)
  walk_length m (scan_mux_node name select_width arms rest) = do
    inner ← arm_length m (get m name) arms
    there ← walk_length m rest
    ok (select_width + inner + there)

  arm_length : OpenMap → Option ℕ → Arms → Result LayoutError ℕ
  arm_length m none arms = ok 0
  arm_length m (some v) no_arms = ok 0
  arm_length m (some v) (scan_arm vs instrument nested arms) =
      let inner = if is_empty nested then leaf_width instrument else walk_length m nested in
      elim (contains vs v) [ true ↦ inner | false ↦ arm_length m (some v) arms ]

unfoldable pub layout_bit_length : Chain → OpenSet → Result LayoutError ℕ
unfolding walk_length leaf_width normalize_open
layout_bit_length chain open_sibs = walk_length (normalize_open open_sibs) chain

-- `name == target_sib`
abbrev pub is_target : Option String → String → Bool
is_target none name = false
is_target (some t) name = same_name t name

abbrev pub get_or_0 : Option ℕ → ℕ
get_or_0 none = 0
get_or_0 (some v) = v

abbrev pub bit_of : Bool → ℕ
bit_of b = if b then 1 else 0

-- `[(value >> k) & 1 for k in range(width - 1, -1, -1)]`
abbrev pub msb_first : ℕ → ℕ → List ℕ
msb_first value width = reverse (bits_from_int value width)

-- `_leaf_content_bits`.
unfoldable pub leaf_content_bits : ℕ → Bool → Option InstrumentNode → Result LayoutError (List ℕ)
leaf_content_bits payload target none = err no_leaf_or_nested
leaf_content_bits payload target (some i) =
    ok (if target then bits_from_int payload i.width else replicate i.width 0)

-- `_walk` of `compose_bits`: what is open now, what is to be open after, the target and its payload.
module _ (now after : OpenMap) (target_sib : Option String) (payload : ℕ) where
  unfoldable mutual
    pub walk_bits : Chain → Result LayoutError (List ℕ)
    walk_bits end = ok []
    walk_bits (sib_node name instrument nested rest) =
        let inner =
          if is_empty nested
          then leaf_content_bits payload (is_target target_sib name) instrument
          else walk_bits nested in
        do
          here ← if is_open now name then inner else ok []
          there ← walk_bits rest
          ok (here ++ (bit_of (is_open after name) ∷ there))
    walk_bits (scan_mux_node name select_width arms rest) = do
      inner ← arm_bits name (get now name) arms
      there ← walk_bits rest
      ok (inner ++ (msb_first (get_or_0 (get after name)) select_width ++ there))

    pub arm_bits : String → Option ℕ → Arms → Result LayoutError (List ℕ)
    arm_bits name none arms = ok []
    arm_bits name (some v) no_arms = ok []
    arm_bits name (some v) (scan_arm vs instrument nested arms) =
        let inner =
          if is_empty nested
          then leaf_content_bits payload (is_target target_sib name) instrument
          else walk_bits nested in
        elim (contains vs v) [ true ↦ inner | false ↦ arm_bits name (some v) arms ]

unfoldable pub compose_bits :
    Chain → OpenSet → OpenSet → Option String → ℕ → Result LayoutError (List ℕ)
unfolding walk_bits leaf_content_bits normalize_open
compose_bits chain open_now open_after target_sib payload_value =
    walk_bits (normalize_open open_now) (normalize_open open_after) target_sib payload_value chain

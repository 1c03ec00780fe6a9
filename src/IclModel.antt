-- ===== src/IclModel.antt =====
-- The scan network as data: slots that gate instruments or further networks, and the check of a
-- network (src/warptap/icl_model.py).
pub mod Valid
pub mod OneHot
pub mod Address
use warptap.Base.{
  ℕ, suc, ◌^◌, ◌==◌, ltb, Bool, true, false, not, ◌&&◌, ◌||◌, List, [], ◌∷◌, Option, none, some,
  String, same_name, Result, ok, err, ◌>>=◌, ◌>>◌, raise_if,
}

pub data InstrumentDirection : Type 0 where
  read write : InstrumentDirection

pub record SignalBinding : Type 0 where
  pub port_name : String
  pub bit : ℕ

pub record Alias : Type 0 where
  pub name : String
  pub low_bit : ℕ
  pub high_bit : ℕ

pub record InstrumentNode : Type 0 where
  pub name : String
  pub width : ℕ
  pub capture_value : ℕ
  pub direction : InstrumentDirection
  pub signal_bits : List SignalBinding
  pub aliases : List Alias
  pub capture_sync : Bool

-- A tuple of `ChainSlot`s and a tuple of `ScanArm`s, each as a list whose cells carry the fields
-- of the slot or arm at its head: `sib_node` is a `SibNode` before further slots, `scan_mux_node` a
-- `ScanMuxNode`, `scan_arm` a `ScanArm` before further arms. `PhysicalGraph` is its chain.
mutual
  pub data Chain : Type 0 where
    end : Chain
    -- sib_name, instrument, nested
    sib_node : String → Option InstrumentNode → Chain → Chain → Chain
    -- mux_name, select_width, arms
    scan_mux_node : String → ℕ → Arms → Chain → Chain

  pub data Arms : Type 0 where
    no_arms : Arms
    -- values, instrument, nested
    scan_arm : List ℕ → Option InstrumentNode → Chain → Arms → Arms

abbrev pub is_empty : Chain → Bool
is_empty end = true
is_empty (sib_node name instrument nested rest) = false
is_empty (scan_mux_node name width arms rest) = false

abbrev pub has_instrument : Option InstrumentNode → Bool
has_instrument none = false
has_instrument (some i) = true

-- `value in values`
abbrev pub contains : List ℕ → ℕ → Bool
contains [] v = false
contains (w ∷ ws) v = w == v || contains ws v

abbrev pub name_in : String → List String → Bool
name_in n [] = false
name_in n (m ∷ ms) = same_name m n || name_in n ms

-- What `ICLModelError` says.
pub data IclModelError : Type 0 where
  both_populated neither_populated not_unique bad_select_width too_few_arms no_values
        too_many_values value_out_of_range value_claimed_twice :
      IclModelError

abbrev pub arm_count : Arms → ℕ
arm_count no_arms = 0
arm_count (scan_arm values instrument nested arms) = suc (arm_count arms)

unfoldable pub require_leaf_xor_nested :
    Option InstrumentNode → Chain → Result IclModelError (Unit {0})
require_leaf_xor_nested instrument nested = do
  raise_if (has_instrument instrument && not (is_empty nested)) both_populated
  raise_if (not (has_instrument instrument) && is_empty nested) neither_populated

-- The checks of one arm's `values` against the values that earlier arms claim.
unfoldable pub check_values : List ℕ → ℕ → List ℕ → Result IclModelError (List ℕ)
check_values [] limit claimed = err no_values
check_values (v ∷ w ∷ ws) limit claimed = err too_many_values
check_values (v ∷ []) limit claimed = do
  raise_if (not (ltb v limit)) value_out_of_range
  raise_if (contains claimed v) value_claimed_twice
  ok (v ∷ claimed)

-- `_walk_slot` on each slot, and the loop over the arms in `_walk_scan_mux`. The names seen so far
-- go in and come back.
unfoldable mutual
  pub walk_slots : Chain → List String → Result IclModelError (List String)
  walk_slots end seen = ok seen
  walk_slots (sib_node name instrument nested rest) seen = do
    raise_if (name_in name seen) not_unique
    require_leaf_xor_nested instrument nested
    seen1 ← walk_slots nested (name ∷ seen)
    walk_slots rest seen1
  walk_slots (scan_mux_node name select_width arms rest) seen = do
    raise_if (name_in name seen) not_unique
    raise_if (ltb select_width 1) bad_select_width
    raise_if (ltb (arm_count arms) 2) too_few_arms
    seen1 ← walk_arms arms (2 ^ select_width) [] (name ∷ seen)
    walk_slots rest seen1

  walk_arms : Arms → ℕ → List ℕ → List String → Result IclModelError (List String)
  walk_arms no_arms limit claimed seen = ok seen
  walk_arms (scan_arm values instrument nested arms) limit claimed seen = do
    claimed1 ← check_values values limit claimed
    require_leaf_xor_nested instrument nested
    seen1 ← walk_slots nested seen
    walk_arms arms limit claimed1 seen1

unfoldable pub validate_physical_graph : Chain → Result IclModelError (Unit {0})
unfolding walk_slots require_leaf_xor_nested check_values
validate_physical_graph chain = do seen ← walk_slots chain []; ok tt

-- ===== src/PdlInterpreter/Layout.antt =====
-- Where the content of the target stands in the scan, and what is expected to come out for a read
-- (src/warptap/pdl_interpreter.py).
use warptap.Base.{
  ℕ, suc, ◌+◌, ◌-◌, ◌/◌, ◌%◌, ◌^◌, ltb, leb, if◌then◌else◌, Bool, true, false, List, [], ◌∷◌,
  Option, none, some, String, same_name, Result, ok, err, ◌>>=◌, replicate, length, set,
}
use warptap.TapIr.{for_range, bits_to_int}
use warptap.IclModel.{
  InstrumentNode, Chain, end, sib_node, scan_mux_node, Arms, no_arms, scan_arm, is_empty, contains,
}
use warptap.SibLayout.{OpenMap, values, LayoutError, get, is_open, layout_bit_length}
use warptap.PdlInterpreter.Fields.{
  PdlError, layout_error, not_in_chain, no_such_attribute, index_error,
}

abbrev pub from_layout : {A : Type 0} → Result LayoutError A → Result PdlError A
from_layout (ok a) = ok a
from_layout (err e) = err (layout_error e)

-- offset, width, is_mux_arm
abbrev pub Place : Type 0
Place = ℕ × ℕ × Bool

-- What is at hand behind an open slot: the target, or the bits to count past it.
pub data Inside : Type 0 where
  found : Place → Inside
  passed : ℕ → Inside

-- `node.instrument.width`
abbrev pub width_of : Option InstrumentNode → Result PdlError ℕ
width_of none = err no_such_attribute
width_of (some i) = ok i.width

-- The instrument of the arm that claims the value.
abbrev pub matched_instrument : Option ℕ → Arms → Option InstrumentNode
matched_instrument none arms = none
matched_instrument (some v) no_arms = none
matched_instrument (some v) (scan_arm vs instrument nested arms) =
    let later = matched_instrument (some v) arms in if contains vs v then instrument else later

-- The step of `_walk` into an open slot or a matched arm, with what its call on `nested` returns.
unfoldable pub step_inside :
    OpenMap
    → Option InstrumentNode
    → Chain
    → Result PdlError (Option Place)
    → Result PdlError Inside
step_inside opened instrument nested below =
    if is_empty nested then (do width ← width_of instrument; ok (passed width)) else (do
      place ← below
      elim place [
        | some p ↦ ok (found p)
        | none ↦ (do
          bits ← from_layout (layout_bit_length nested (values opened))
          ok (passed bits))
      ])

-- `_walk` of `_target_layout`, and its arms.
module _ (opened : OpenMap) (target_sib : String) where
  unfoldable mutual
    pub walk_layout : Chain → ℕ → Result PdlError (Option Place)
    walk_layout end offset = ok none
    walk_layout (sib_node name instrument nested rest) offset =
        let below = walk_layout nested offset in
        let step =
          if is_open opened name
          then step_inside opened instrument nested below
          else ok (passed 0) in
        if same_name name target_sib
        then (do width ← width_of instrument; ok (some (offset, width, false)))
        else (do
          inside ← step
          elim inside [
            | found place ↦ ok (some place)
            | passed bits ↦ walk_layout rest (offset + bits + 1)
          ])
    walk_layout (scan_mux_node name select_width arms rest) offset =
        let value = get opened name in
        let step = walk_arms value arms offset in
        if same_name name target_sib
        then (do width ← width_of (matched_instrument value arms); ok (some (offset, width, true)))
        else (do
          inside ← step
          elim inside [
            | found place ↦ ok (some place)
            | passed bits ↦ walk_layout rest (offset + bits + select_width)
          ])

    pub walk_arms : Option ℕ → Arms → ℕ → Result PdlError Inside
    walk_arms none arms offset = ok (passed 0)
    walk_arms (some v) no_arms offset = ok (passed 0)
    walk_arms (some v) (scan_arm vs instrument nested arms) offset =
        let step = step_inside opened instrument nested (walk_layout nested offset) in
        let later = walk_arms (some v) arms offset in if contains vs v then step else later

abbrev place_or_error : Option Place → Result PdlError Place
place_or_error none = err not_in_chain
place_or_error (some place) = ok place

unfoldable pub target_layout : Chain → OpenMap → String → Result PdlError Place
unfolding walk_layout
target_layout chain opened target_sib = do
  place ← walk_layout opened target_sib chain 0
  place_or_error place

-- `bits[index] = bit`
abbrev pub put_at : List ℕ → ℕ → ℕ → Result PdlError (List ℕ)
put_at bits index bit = if ltb index (length bits) then ok (set bits index bit) else err index_error

-- A loop over `k` that writes into a list.
unfoldable pub write_each :
    (List ℕ → ℕ → Result PdlError (List ℕ)) → List ℕ → List ℕ → Result PdlError (List ℕ)
write_each f [] bits = ok bits
write_each f (k ∷ ks) bits = do next ← f bits k; write_each f ks next

-- `range(low, high + 1)`; `stop` is `high + 1`, as `high` may be -1.
abbrev pub field_range : ℕ → ℕ → List ℕ
field_range low stop = for_range low (stop - low) (λ k. k)

unfoldable pub read_mask_bits : ℕ → ℕ → ℕ → ℕ → Result PdlError (List ℕ)
unfolding write_each
read_mask_bits total_bits offset low stop =
    write_each (λ bits k. put_at bits (offset + k) 1) (field_range low stop)
      (replicate total_bits 0)

-- `width - 1` is -1 when the width is 0: index `-1 - k` from the end.
abbrev pub put_chronological : ℕ → List ℕ → ℕ → ℕ → Result PdlError (List ℕ)
put_chronological width bits k bit =
    if leb (suc k) width
    then put_at bits (width - suc k) bit
    else if leb (suc k - width) (length bits)
    then ok (set bits (length bits - (suc k - width)) bit)
    else err index_error

-- The two lists are written in one loop; that both have the same length makes the order of the two
-- writes immaterial to which exception is raised.
unfoldable pub mux_arm_read_chronological_bits : ℕ → ℕ → ℕ → ℕ → ℕ → Result PdlError (ℕ × ℕ)
unfolding write_each
mux_arm_read_chronological_bits total_bits width low stop payload_value = do
  tdo_bits ←
      write_each (λ bits k. put_chronological width bits k (payload_value / 2 ^ k % 2))
        (field_range low stop) (replicate total_bits 0)
  mask_bits ←
      write_each (λ bits k. put_chronological width bits k 1) (field_range low stop)
        (replicate total_bits 0)
  ok (bits_to_int tdo_bits, bits_to_int mask_bits)

-- ===== src/PdlInterpreter/Fields.antt =====
-- The instrument and the field that a command addresses (src/warptap/pdl_interpreter.py).
use Prim.Native.Nat.{bit_and, bit_or, bit_xor}
use warptap.Base.{
  ℕ, suc, ◌-◌, ◌*◌, ◌^◌, ltb, if◌then◌else◌, List, [], ◌∷◌, Option, none, some, String, same_name,
  Result, ok, err, ◌>>◌, raise_if,
}
use warptap.IclModel.{
  Alias, InstrumentNode, Chain, end, sib_node, scan_mux_node, Arms, no_arms, scan_arm,
}
use warptap.IclModel.Address.{IclAddressError}
use warptap.SibLayout.{LayoutError}
use warptap.SibRetarget.{RetargetError, gates}

-- What a command may raise: the PDLErrors, what the functions that it calls raise, and the exceptions
-- of Python's own operations.
pub data PdlError : Type 0 where
  no_scope no_instrument not_an_alias : PdlError
  address_error : IclAddressError → PdlError
  retarget_error : RetargetError → PdlError
  layout_error : LayoutError → PdlError
  -- AssertionError, AttributeError, IndexError, and the ValueError of a negative shift count
  not_in_chain no_such_attribute index_error negative_shift : PdlError

-- `if found is not None: return found`, and what comes after.
abbrev first_of : Option InstrumentNode → Option InstrumentNode → Option InstrumentNode
first_of none next = next
first_of (some i) next = some i

-- `_find_instrument`, on each slot of a chain, and its loop over the arms of a mux.
unfoldable mutual
  pub find_instrument : Chain → String → Option InstrumentNode
  find_instrument end target = none
  find_instrument (sib_node name instrument nested rest) target =
      let inside = find_instrument nested target in
      let later = find_instrument rest target in
      if gates instrument target then instrument else first_of inside later
  find_instrument (scan_mux_node name width arms rest) target =
      first_of (find_in_arms arms target) (find_instrument rest target)

  pub find_in_arms : Arms → String → Option InstrumentNode
  find_in_arms no_arms target = none
  find_in_arms (scan_arm values instrument nested arms) target =
      let inside = find_instrument nested target in
      let later = find_in_arms arms target in
      if gates instrument target then instrument else first_of inside later

-- The loop over the aliases.
unfoldable pub find_alias : List Alias → String → Result PdlError (ℕ × ℕ)
find_alias [] field = err not_an_alias
find_alias (alias ∷ aliases) field =
    let later = find_alias aliases field in
    if same_name alias.name field then ok (alias.low_bit, alias.high_bit) else later

unfoldable pub resolve_field : Chain → String → String → Result PdlError (ℕ × ℕ)
unfolding find_instrument find_alias
resolve_field chain instrument_name field = elim (find_instrument chain instrument_name) [
  | none ↦ err no_instrument
  | some instrument ↦ find_alias instrument.aliases field
]

-- `a & ~b`
abbrev pub and_not : ℕ → ℕ → ℕ
and_not a b = bit_xor a (bit_and a b)

-- `1 << width` raises when `width` is negative.
unfoldable pub set_bit_range : ℕ → ℕ → ℕ → ℕ → Result PdlError ℕ
set_bit_range current low high value = do
  raise_if (ltb (suc high) low) negative_shift
  let mask = (2 ^ (suc high - low) - 1) * 2 ^ low
  ok (bit_or (and_not current mask) (bit_and (value * 2 ^ low) mask))

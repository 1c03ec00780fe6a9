-- ===== src/FaultflowRetarget/Payload.antt =====
-- The content of a chain without its padding, as the payload of an instrument
-- (src/warptap/faultflow_retarget.py).
use warptap.Base.{
  ℕ, ◌-◌, ltb, Bool, true, false, List, [], ◌∷◌, ◌++◌, map, reverse, ok, length, ◌≡◌, refl, sym, ap,
  ◌∙◌, arith, length-append, length-map, length-reverse, take-append, drop-append, reverse-cons,
  map-append,
}
use warptap.SibLayout.{bit_of}
use warptap.TapIr.{bits_from_int}
use warptap.TapIr.Packing.{AreBits, bits_from_int-bits_to_int}
use warptap.FaultflowRetarget.{strip_load_padding, strip_unload_padding, sequence_to_payload}

map-bit_of-AreBits : (seq : List Bool) → AreBits (map bit_of seq)
map-bit_of-AreBits [] = tt
map-bit_of-AreBits (true ∷ seq) = (omega arith, map-bit_of-AreBits seq)
map-bit_of-AreBits (false ∷ seq) = (omega arith, map-bit_of-AreBits seq)

map-reverse : (seq : List Bool) → map bit_of (reverse seq) ≡ reverse (map bit_of seq)
map-reverse [] = refl
map-reverse (b ∷ seq) =
    ap (map bit_of) (reverse-cons b seq)
    ∙ map-append bit_of (reverse seq) (b ∷ [])
    ∙ ap (λ (t : List ℕ). t ++ bit_of b ∷ []) (map-reverse seq)
    ∙ sym (reverse-cons (bit_of b) (map bit_of seq))

-- Whatever padding stands in front of the content of a chain when it is loaded, or behind it when it is
-- unloaded, the padding of the instrument's width is taken away exactly; and the payload for the
-- content has at bit 0 the last element of it, and so on back to the first.
pub sequence_to_payload-bits :
    (front seq back : List Bool)
    → (strip_load_padding (front ++ seq) (length seq) ≡ ok seq)
      × (strip_unload_padding (seq ++ back) (length seq) ≡ ok seq)
      × (bits_from_int (sequence_to_payload seq) (length seq) ≡ reverse (map bit_of seq))
unfolding strip_load_padding strip_unload_padding sequence_to_payload
sequence_to_payload-bits front seq back =
    let long = length-append front seq in
    let long' = length-append seq back in
    let enough : ltb (length (front ++ seq)) (length seq) ≡ false = ground (arith, long) in
    let enough' : ltb (length (seq ++ back)) (length seq) ≡ false = ground (arith, long') in
    let cut : length (front ++ seq) - length seq ≡ length front = omega (arith, long) in
    let bits = map bit_of (reverse seq) in
    let same : length seq ≡ length bits =
      sym (length-map (reverse seq) bit_of ∙ length-reverse seq) in
    (
      rw enough (rw cut (ap ok (drop-append front seq))),
      rw enough' (ap ok (take-append seq back)),
      ap (bits_from_int (sequence_to_payload seq)) same
          ∙ bits_from_int-bits_to_int bits (map-bit_of-AreBits (reverse seq))
          ∙ map-reverse seq,
    )

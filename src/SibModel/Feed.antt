-- ===== src/SibModel/Feed.antt =====
-- A scan of a SIB network as a queue: what a sequence of shifts leaves in the live cells, and what
-- comes out at TDO, while every live mux bypasses its arms (src/warptap/sib_model.py).
use warptap.Base.{
  ℕ, suc, ◌≤◌, ◌<◌, List, [], ◌∷◌, ◌++◌, reverse, ◌≡◌, refl, sym, ap, ap₂, ◌∙◌, arith, length, take,
  length-map, length-reverse, take-append, reverse-cons, append_assoc, append-nil, subst, take_all,
  reverse-append, reverse-reverse,
}
use warptap.SibModel.{shift, last_or}
use warptap.SibModel.State.{Slots}
use warptap.SibModel.Cells.{live_layout, read_cell}
use warptap.SibModel.Load.{size, load, Sized, length-live_layout}
use warptap.SibModel.Contents.{NoRelay, contents, read_layout}
use warptap.SibModel.Reload.{load-Sized, load-NoRelay, load-load}
use warptap.SibModel.Prefix.{load-take, contents-load}
use warptap.SibModel.Shift.{shift-load}

-- A sequence of TDI bits, with the TDO bits.
unfoldable pub feed : Slots → List ℕ → Slots × List ℕ
feed slots [] = (slots, [])
feed slots (tdi ∷ bits) =
    let (slots1, tdo) = shift slots tdi in
    let (slots2, out) = feed slots1 bits in (slots2, tdo ∷ out)

pub length-contents : (s : Slots) → Sized s → NoRelay s → length (contents s) ≡ size s
length-contents s h q =
    ap length (sym (read_layout s h q))
    ∙ length-map (live_layout s) (read_cell s)
    ∙ length-live_layout s

shift_state :
    (s : Slots) (vs : List ℕ) (tdi : ℕ)
    → Sized s
    → NoRelay s
    → size s ≤ length vs
    → (shift (load s vs) tdi).0 ≡ load s (tdi ∷ vs)
shift_state s vs tdi h q room =
    let L = load s vs in
    let sized : Sized L = load-Sized s vs h q room in
    shift-load L tdi sized
    ∙ ap (λ us. load L (tdi ∷ us))
        (read_layout L sized (load-NoRelay s vs q) ∙ contents-load s vs q room)
    ∙ load-load s vs (tdi ∷ take (size s) vs) q
    ∙ load-take s (suc (size s)) (tdi ∷ vs) q (omega arith)

pub shift_first :
    (s : Slots) (tdi : ℕ) → Sized s → NoRelay s → (shift s tdi).0 ≡ load s (tdi ∷ contents s)
shift_first s tdi h q = shift-load s tdi h ∙ ap (λ us. load s (tdi ∷ us)) (read_layout s h q)

shift_out : (s : Slots) (tdi : ℕ) → Sized s → NoRelay s → (shift s tdi).1 ≡ last_or tdi (contents s)
unfolding shift
shift_out s tdi h q = ap (last_or tdi) (read_layout s h q)

feed_state :
    (s : Slots) (bits vs : List ℕ)
    → Sized s
    → NoRelay s
    → size s ≤ length vs
    → (feed (load s vs) bits).0 ≡ load s (reverse bits ++ vs)
unfolding feed
feed_state s [] vs h q room = refl
feed_state s (b ∷ bs) vs h q room =
    ap (λ t. (feed t bs).0) (shift_state s vs b h q room)
    ∙ feed_state s bs (b ∷ vs) h q (omega arith)
    ∙ ap (load s) (
        sym (append_assoc (reverse bs) (b ∷ []) vs)
        ∙ ap (λ (t : List ℕ). t ++ vs) (sym (reverse-cons b bs)))

last_out : (t : ℕ) (xs : List ℕ) → take (length xs) (t ∷ xs) ++ (last_or t xs ∷ []) ≡ t ∷ xs
last_out t [] = refl
last_out t (x ∷ xs) = ap (λ (u : List ℕ). t ∷ u) (last_out x xs)

-- One shift moves the contents by one place.
module _ (s : Slots) (h : Sized s) (q : NoRelay s) (tdi : ℕ) where
  pub shift-Sized : Sized (shift s tdi).0
  shift-Sized =
      subst Sized (sym (shift_first s tdi h q))
        (load-Sized s (tdi ∷ contents s) h q (omega (arith, length-contents s h q)))

  pub shift-NoRelay : NoRelay (shift s tdi).0
  shift-NoRelay = subst NoRelay (sym (shift_first s tdi h q)) (load-NoRelay s (tdi ∷ contents s) q)

  contents-shift : contents (shift s tdi).0 ≡ take (size s) (tdi ∷ contents s)
  contents-shift =
      ap contents (shift_first s tdi h q)
      ∙ contents-load s (tdi ∷ contents s) q (omega (arith, length-contents s h q))

  pub shift_queue :
      (shift s tdi).1 ∷ reverse (contents (shift s tdi).0) ≡ reverse (contents s) ++ (tdi ∷ [])
  shift_queue =
      ap₂ (λ o c. o ∷ reverse c) (shift_out s tdi h q)
        (contents-shift ∙ ap (λ (n : ℕ). take n (tdi ∷ contents s)) (sym (length-contents s h q)))
      ∙ sym (
          reverse-append (take (length (contents s)) (tdi ∷ contents s))
            (last_or tdi (contents s) ∷ []))
      ∙ ap reverse (last_out tdi (contents s))
      ∙ reverse-cons tdi (contents s)

-- For a network whose lists of flip-flops have their widths and of whose live muxes none has an arm
-- matched: the bits that a scan puts out at TDO, followed by what the live cells hold after it (from
-- TDO's end), are what they held before, followed by the bits put in at TDI. Nothing is lost, doubled
-- or reordered, however long the scan is.
pub feed_queue :
    (s : Slots) (bits : List ℕ)
    → Sized s
    → NoRelay s
    → (feed s bits).1 ++ reverse (contents (feed s bits).0) ≡ reverse (contents s) ++ bits
unfolding feed
feed_queue s [] h q = sym (append-nil (reverse (contents s)))
feed_queue s (b ∷ bs) h q =
    ap (λ (t : List ℕ). (shift s b).1 ∷ t)
      (feed_queue (shift s b).0 bs (shift-Sized s h q b) (shift-NoRelay s h q b))
    ∙ ap (λ (t : List ℕ). t ++ bs) (shift_queue s h q b)
    ∙ append_assoc (reverse (contents s)) (b ∷ []) bs

length-feed : (s : Slots) (bits : List ℕ) → length (feed s bits).1 ≡ length bits
unfolding feed
length-feed s [] = refl
length-feed s (b ∷ bs) = ap suc (length-feed (shift s b).0 bs)

same_prefix : {xs ys : List ℕ} (zs : List ℕ) → length xs ≡ length ys → xs ++ zs ≡ ys ++ zs → xs ≡ ys
same_prefix {xs} {ys} zs h e =
    sym (take-append xs zs) ∙ ap₂ (λ (n : ℕ) t. take n t) h e ∙ take-append ys zs

full_state :
    (s : Slots) (bits : List ℕ)
    → Sized s
    → NoRelay s
    → 0 < length bits
    → length bits ≡ size s
    → (feed s bits).0 ≡ load s (reverse bits)
unfolding feed
full_state s [] h q some_bit full = absurd (omega arith)
full_state s (b ∷ bs) h q some_bit full =
    let n = length-reverse (b ∷ bs) ∙ full in
    ap (λ t. (feed t bs).0) (shift_first s b h q)
    ∙ feed_state s bs (b ∷ contents s) h q (omega (arith, length-contents s h q))
    ∙ ap (load s) (
        sym (append_assoc (reverse bs) (b ∷ []) (contents s))
        ∙ ap (λ (t : List ℕ). t ++ contents s) (sym (reverse-cons b bs)))
    ∙ sym (load-take s (size s) (reverse (b ∷ bs) ++ contents s) q (omega arith))
    ∙ ap (load s) (
        ap (λ (k : ℕ). take k (reverse (b ∷ bs) ++ contents s)) (sym n)
        ∙ take-append (reverse (b ∷ bs)) (contents s))

-- For a network whose lists of flip-flops have their widths and of whose live muxes none has an arm
-- matched, a scan of as many bits (at least one) as it has live flip-flops replaces
-- all of them and nothing else: the live cells hold the bits, the last one nearest to TDI, and what
-- came out at TDO is what they held before, from TDO's end.
pub feed_full :
    (s : Slots) (bits : List ℕ)
    → Sized s
    → NoRelay s
    → 0 < length bits
    → length bits ≡ size s
    → feed s bits ≡ (load s (reverse bits), reverse (contents s))
feed_full s bits h q some_bit full =
    let state = full_state s bits h q some_bit full in
    let held : reverse (contents (feed s bits).0) ≡ bits =
      ap (λ t. reverse (contents t)) state
      ∙ ap reverse (
          contents-load s (reverse bits) q (omega (arith, length-reverse bits))
          ∙ ap (λ (n : ℕ). take n (reverse bits)) (sym full ∙ sym (length-reverse bits))
          ∙ take_all (reverse bits))
      ∙ reverse-reverse bits in
    let out : (feed s bits).1 ≡ reverse (contents s) =
      same_prefix bits
        (length-feed s bits
          ∙ full
          ∙ sym (length-contents s h q)
          ∙ sym (length-reverse (contents s)))
        (ap (λ (t : List ℕ). (feed s bits).1 ++ t) (sym held) ∙ feed_queue s bits h q) in
    λ i. (state i, out i)

-- ===== src/BsrModel/Scan.antt =====
-- Scans of a boundary-scan register (src/warptap/bsr_model.py).
use warptap.Base.{
  ℕ, suc, if◌then◌else◌, Bool, true, false, List, [], ◌∷◌, ◌++◌, map, reverse, String, ◌≡◌, refl,
  sym, ap, ap₂, ◌∙◌, length, length-reverse, reverse-cons, append_assoc, append-nil, take, drop,
  take-append, drop-append, reverse-append, reverse-reverse,
}
use warptap.BsrPlan.{BsrCell}
use warptap.BsrModel.{
  CellState, BoundaryScanRegister, shift_states, latches, update, capture, observed_value,
}

-- The shift flip-flops, first cell first.
abbrev pub flip_flops : List CellState → List ℕ
flip_flops [] = []
flip_flops (s ∷ states) = s.shift_ff ∷ flip_flops states

-- Everything but the shift flip-flops.
abbrev pub held : List CellState → List (BsrCell × ℕ)
held [] = []
held (s ∷ states) = (s.cell, s.po) ∷ held states

-- A sequence of TDI bits, with the TDO bits.
unfoldable pub feed : List CellState → List ℕ → List CellState × List ℕ
feed states [] = (states, [])
feed states (tdi ∷ bits) =
    let (states1, tdo) = shift_states states tdi in
    let (states2, out) = feed states1 bits in (states2, tdo ∷ out)

shift_states-queue :
    (states : List CellState) (tdi : ℕ)
    → (tdi ∷ flip_flops states
        ≡ flip_flops (shift_states states tdi).0 ++ (shift_states states tdi).1 ∷ [])
      × (held (shift_states states tdi).0 ≡ held states)
unfolding shift_states
shift_states-queue [] tdi = (refl, refl)
shift_states-queue (s ∷ states) tdi =
    let (queue, same) = shift_states-queue states s.shift_ff in
    (ap (λ (t : List ℕ). tdi ∷ t) queue, ap (λ t. (s.cell, s.po) ∷ t) same)

-- Shifting bits in is adding them to a queue of fixed length: the bits in the chain, last cell first,
-- and then the bits that come in are the bits that come out and then those in the chain afterwards.
-- No cell is exchanged and no update latch changes.
pub feed-queue :
    (states : List CellState) (bits : List ℕ)
    → (reverse (flip_flops states) ++ bits
        ≡ (feed states bits).1 ++ reverse (flip_flops (feed states bits).0))
      × (held (feed states bits).0 ≡ held states)
unfolding feed
feed-queue states [] = (append-nil (reverse (flip_flops states)), refl)
feed-queue states (tdi ∷ bits) =
    let (queue, same) = shift_states-queue states tdi in
    let (later, same') = feed-queue (shift_states states tdi).0 bits in
    let ffs = flip_flops states in
    let ffs1 = flip_flops (shift_states states tdi).0 in
    let tdo = (shift_states states tdi).1 in
    let turned : reverse ffs ++ tdi ∷ [] ≡ tdo ∷ reverse ffs1 =
      sym (reverse-cons tdi ffs) ∙ ap reverse queue ∙ reverse-append ffs1 (tdo ∷ []) in
    (
      sym (append_assoc (reverse ffs) (tdi ∷ []) bits)
          ∙ ap (λ (t : List ℕ). t ++ bits) turned
          ∙ ap (λ (t : List ℕ). tdo ∷ t) later,
      same' ∙ same,
    )

length-flip_flops : (states : List CellState) → length (flip_flops states) ≡ length states
length-flip_flops [] = refl
length-flip_flops (s ∷ states) = ap suc (length-flip_flops states)

length-held : (states : List CellState) → length (held states) ≡ length states
length-held [] = refl
length-held (s ∷ states) = ap suc (length-held states)

length-feed : (states : List CellState) (bits : List ℕ) → length (feed states bits).1 ≡ length bits
unfolding feed
length-feed states [] = refl
length-feed states (tdi ∷ bits) = ap suc (length-feed (shift_states states tdi).0 bits)

-- Two lists in two parts each, with first parts of one length.
first_part :
    (xs ys us vs : List ℕ) → length xs ≡ length us → xs ++ ys ≡ us ++ vs → (xs ≡ us) × (ys ≡ vs)
first_part xs ys us vs h e = (
  sym (take-append xs ys) ∙ ap₂ take h e ∙ take-append us vs,
  sym (drop-append xs ys) ∙ ap₂ drop h e ∙ drop-append us vs,
)

-- A scan of as many bits as there are cells.
feed_full :
    (states : List CellState) (bits : List ℕ)
    → length bits ≡ length states
    → ((feed states bits).1 ≡ reverse (flip_flops states))
      × (flip_flops (feed states bits).0 ≡ reverse bits)
      × (held (feed states bits).0 ≡ held states)
feed_full states bits h =
    let (queue, same) = feed-queue states bits in
    let long : length (feed states bits).1 ≡ length (reverse (flip_flops states)) =
      length-feed states bits
      ∙ h
      ∙ sym (length-reverse (flip_flops states) ∙ length-flip_flops states) in
    let (out, rest) =
      first_part (feed states bits).1 (reverse (flip_flops (feed states bits).0))
        (reverse (flip_flops states)) bits long (sym queue) in
    (out, sym (reverse-reverse (flip_flops (feed states bits).0)) ∙ ap reverse rest, same)

-- What the update latches hold after an update with these bits in the flip-flops.
abbrev pub committed : List (BsrCell × ℕ) → List ℕ → List (BsrCell × ℕ)
committed [] bits = []
committed ((cell, po) ∷ h) [] = (cell, po) ∷ h
committed ((cell, po) ∷ h) (b ∷ bits) =
    (cell, if latches cell.function then b else po) ∷ committed h bits

held-update :
    (states : List CellState) (inputs : List (String × ℕ))
    → held (update (record { states = states; functional_inputs = inputs })).states
      ≡ committed (held states) (flip_flops states)
unfolding update
held-update [] inputs = refl
held-update (s ∷ states) inputs =
    ap₂ (λ x t. x ∷ t) (go (latches s.cell.function)) (held-update states inputs)
  where
    latched : Bool → CellState
    latched b = if b then record s { po = s.shift_ff } else s

    go :
        (b : Bool)
        → ◌≡◌ {A = BsrCell × ℕ}
            ((latched b).cell, (latched b).po)
            (s.cell, if b then s.shift_ff else s.po)
    go true = refl
    go false = refl

held-capture : (r : BoundaryScanRegister) → held (capture r).states ≡ held r.states
unfolding capture
held-capture r = go r.states
  where
    go :
        (states : List CellState)
        → held (
            map {A = CellState}
              (λ s. record s { shift_ff = observed_value r.functional_inputs s.cell })
              states)
          ≡ held states
    go [] = refl
    go (s ∷ states) = ap (λ t. (s.cell, s.po) ∷ t) (go states)

flip_flops-capture :
    (r : BoundaryScanRegister)
    → flip_flops (capture r).states ≡ map (λ s. observed_value r.functional_inputs s.cell) r.states
unfolding capture
flip_flops-capture r = go r.states
  where
    go :
        (states : List CellState)
        → flip_flops (
            map {A = CellState}
              (λ s. record s { shift_ff = observed_value r.functional_inputs s.cell })
              states)
          ≡ map (λ s. observed_value r.functional_inputs s.cell) states
    go [] = refl
    go (s ∷ states) = ap (λ (t : List ℕ). observed_value r.functional_inputs s.cell ∷ t) (go states)

-- Capture, a scan of as many bits as there are cells, and update: at TDO comes out what the cells
-- observed, last cell first, and afterwards the update latch of each control and output cell holds
-- its bit, the last bit for the first cell, while the cells and all other latches are as before.
pub update-feed-capture :
    (r : BoundaryScanRegister) (bits : List ℕ)
    → length bits ≡ length r.states
    → ((feed (capture r).states bits).1
        ≡ reverse (map (λ s. observed_value r.functional_inputs s.cell) r.states))
      × (held (update (record (capture r) { states = (feed (capture r).states bits).0 })).states
          ≡ committed (held r.states) (reverse bits))
update-feed-capture r bits h =
    let C = (capture r).states in
    let long : length bits ≡ length C =
      h ∙ sym (length-held r.states) ∙ ap length (sym (held-capture r)) ∙ length-held C in
    let (out, left, same) = feed_full C bits long in
    (
      out ∙ ap reverse (flip_flops-capture r),
      held-update (feed C bits).0 (capture r).functional_inputs
          ∙ ap₂ committed (same ∙ held-capture r) left,
    )

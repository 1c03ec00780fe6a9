-- ===== src/SibModel/LongFeed.antt =====
-- A scan that is longer than the live chain (src/warptap/sib_model.py).
use warptap.Base.{
  ℕ, ◌<◌, List, [], ◌∷◌, ◌++◌, reverse, ◌≡◌, sym, ap, ◌∙◌, length, append_assoc, append-nil,
}
use warptap.SibModel.{shift}
use warptap.SibModel.State.{Slots}
use warptap.SibModel.Load.{size, load, Sized}
use warptap.SibModel.Contents.{NoRelay, contents}
use warptap.SibModel.Reload.{size-load, load-load}
use warptap.SibModel.Feed.{feed, feed_full, shift_first, shift-Sized, shift-NoRelay, shift_queue}

-- For a network whose lists of flip-flops have their widths and of whose live muxes none has an arm
-- matched: if the last bits of a scan are as many as it has live flip-flops, and at least one, then
-- only these stay in it, and at TDO comes out what the flip-flops held, from TDO's end, and after it
-- the bits that were put in before the last ones.
pub feed-append :
    (s : Slots) (xs ys : List ℕ)
    → Sized s
    → NoRelay s
    → 0 < length ys
    → length ys ≡ size s
    → feed s (xs ++ ys) ≡ (load s (reverse ys), reverse (contents s) ++ xs)
unfolding feed
feed-append s [] ys h q some_bit full =
    feed_full s ys h q some_bit full
    ∙ ap (λ (out : List ℕ). (load s (reverse ys), out)) (sym (append-nil (reverse (contents s))))
feed-append s (x ∷ xs) ys h q some_bit full =
    let s1 = (shift s x).0 in
    let first = shift_first s x h q in
    let same : size s1 ≡ size s = ap size first ∙ size-load s (x ∷ contents s) q in
    let later =
      feed-append s1 xs ys (shift-Sized s h q x) (shift-NoRelay s h q x) some_bit
        (full ∙ sym same) in
    let state : load s1 (reverse ys) ≡ load s (reverse ys) =
      ap (λ t. load t (reverse ys)) first ∙ load-load s (x ∷ contents s) (reverse ys) q in
    let out : (shift s x).1 ∷ (reverse (contents s1) ++ xs) ≡ reverse (contents s) ++ (x ∷ xs) =
      ap (λ (t : List ℕ). t ++ xs) (shift_queue s h q x)
      ∙ append_assoc (reverse (contents s)) (x ∷ []) xs in
    ap (λ r. (r.0, (shift s x).1 ∷ r.1)) later ∙ (λ i. (state i, out i))

-- ===== src/SibRound/Update.antt =====
-- The round on the network itself: capture, a scan of the target bits, update
-- (src/warptap/sib_model.py).
use warptap.Base.{
  ℕ, suc, ◌+◌, ◌<◌, truthy, if◌then◌else◌, Bool, true, false, ◌&&◌, List, [], ◌∷◌, ◌++◌, reverse,
  Option, String, replicate, length, take, drop, ◌≡◌, refl, sym, ap, ap₂, ◌∙◌, arith, length-append,
  length-reverse, length-replicate, take-append, drop-append, append_assoc, append-nil,
  reverse-reverse,
}
use warptap.TapIr.{bits_from_int}
use warptap.TapIr.Packing.{length-bits_from_int}
use warptap.SibLayout.{OpenMap, get, is_open, is_target, get_or_0, bit_of, msb_first}
use warptap.SibModel.{
  capture, capture_leaf, capture_chain, capture_arms, capture_content, update, update_leaf,
  update_chain, update_content,
}
use warptap.SibModel.State.{
  Leaf, Slots, no_slots, sib_slot, mux_slot, ArmStates, Content, leaf, children,
}
use warptap.SibModel.Cells.{value_of}
use warptap.SibModel.Load.{size, size_content, head_or_0, load, load_content, Sized}
use warptap.SibModel.Contents.{arm_matched, NoRelay, NoRelayContent, contents}
use warptap.SibModel.Reload.{size-mux, load-mux, loaded_if, size_if}
use warptap.SibModel.Feed.{feed, feed_full}
use warptap.SibRound.{leaf_bits, target_bits, content_bits, moved, moved_content}
use warptap.SibRound.Capture.{
  capture-Sized, capture-NoRelay, size-capture, size-capture_content, matched-capture_arms,
}
use warptap.SibRound.Hidden.{update_hidden_content, update_unmatched_arms}

-- The bits for a network are as many as it has live flip-flops.
module _ (after : OpenMap) (target : Option String) (payload : ℕ) where
  pub length-leaf_bits :
      (name : String) (w : ℕ) → length (leaf_bits after target payload name w) ≡ w
  length-leaf_bits name w = go (is_target target name)
    where
      go : (b : Bool) → length (if b then bits_from_int payload w else replicate w 0) ≡ w
      go true = length-bits_from_int payload w
      go false = length-replicate w 0

  length-msb_first : (v w : ℕ) → length (msb_first v w) ≡ w
  length-msb_first v w = length-reverse (bits_from_int v w) ∙ length-bits_from_int v w

  length-part :
      (b : Bool) (c : Content) (xs : List ℕ)
      → (b ≡ true → length xs ≡ size_content c)
      → length (if b then xs else []) ≡ size_if b c
  length-part true c xs h = h refl
  length-part false c xs h = refl

  mutual
    unfolding target_bits size

    pub length-target_bits :
        (s : Slots) → NoRelay s → length (target_bits after target payload s) ≡ size s
    length-target_bits no_slots q = refl
    length-target_bits (sib_slot name ff po c rest) q =
        length-append (if truthy po then content_bits after target payload name c else [])
          (bit_of (is_open after name) ∷ target_bits after target payload rest)
        ∙ ap₂ (λ (x y : ℕ). x + suc y)
            (length-part (truthy po) c (content_bits after target payload name c)
              (λ e. length-content_bits name c (q.0 e)))
            (length-target_bits rest q.1)
    length-target_bits (mux_slot name w ff po arms rest) q =
        length-append (msb_first (get_or_0 (get after name)) w)
          (target_bits after target payload rest)
        ∙ ap₂ (λ (x y : ℕ). x + y) (length-msb_first (get_or_0 (get after name)) w)
            (length-target_bits rest q.1)
        ∙ sym (size-mux name w ff po arms rest q.0)

    pub length-content_bits :
        (name : String) (c : Content)
        → NoRelayContent c
        → length (content_bits after target payload name c) ≡ size_content c
    length-content_bits name (leaf l) q = length-leaf_bits name l.width
    length-content_bits name (children s) q = length-target_bits s q

  moved_leaf :
      (stays : Bool) (name : String) (l : Leaf) (more : List ℕ)
      → update_content true stays (
          load_content
            (capture_content true (leaf l))
            (content_bits after target payload name (leaf l) ++ more))
        ≡ moved_content after target payload stays name (leaf l)
  unfolding update_chain load capture_chain capture_leaf target_bits moved
  moved_leaf stays name l more =
      ap (λ bits. leaf (update_leaf stays (record l { inst_shift_ff = bits })))
        (ap (λ (n : ℕ). take n (leaf_bits after target payload name l.width ++ more))
            (sym (length-leaf_bits name l.width))
          ∙ take-append (leaf_bits after target payload name l.width) more)

  moved_part :
      (b : Bool) (name : String) (c : Content) (bit : ℕ) (inner tail : List ℕ)
      → length (if b then inner else []) ≡ size_if b (capture_content b c)
      → (b ≡ true
          → (stays : Bool)
          → update_content true stays
              (load_content (capture_content true c) (inner ++ (bit ∷ tail)))
            ≡ moved_content after target payload stays name c)
      → (h : ℕ) → h ≡ bit
      → update_content b
          (b && truthy h)
          (loaded_if b (capture_content b c) ((if b then inner else []) ++ (bit ∷ tail)))
        ≡ (if b
            then moved_content after target payload (truthy bit) name c
            else capture_content false c)
  moved_part true name c bit inner tail room m h e =
      ap
        (λ x.
          update_content true (truthy x)
            (load_content (capture_content true c) (inner ++ (bit ∷ tail))))
        e
      ∙ m refl (truthy bit)
  moved_part false name c bit inner tail room m h e =
      update_hidden_content (capture_content false c)

  drop_part :
      (b : Bool) (inner rest : List ℕ) (n : ℕ)
      → length (if b then inner else []) ≡ n
      → drop n ((if b then inner else []) ++ rest) ≡ rest
  drop_part b inner rest n h =
      ap (λ (k : ℕ). drop k ((if b then inner else []) ++ rest)) (sym h)
      ∙ drop-append (if b then inner else []) rest

  moved_sib :
      (name : String) (ff po : ℕ) (c : Content) (rest : Slots) (more : List ℕ)
      → (truthy po ≡ true → NoRelayContent c)
      → (truthy po ≡ true
          → (stays : Bool) (tail : List ℕ)
          → update_content true stays (
              load_content
                (capture_content true c)
                (content_bits after target payload name c ++ tail))
            ≡ moved_content after target payload stays name c)
      → update_chain true
          (load (capture_chain true rest) (target_bits after target payload rest ++ more))
        ≡ moved after target payload rest
      → update_chain true (
          load
            (capture_chain true (sib_slot name ff po c rest))
            (target_bits after target payload (sib_slot name ff po c rest) ++ more))
        ≡ moved after target payload (sib_slot name ff po c rest)
  unfolding update_chain load capture_chain target_bits moved
  moved_sib name ff po c rest more q inner others =
      let b = truthy po in
      let bit = bit_of (is_open after name) in
      let xs = content_bits after target payload name c in
      let tail = target_bits after target payload rest ++ more in
      let C = capture_content b c in
      let R = capture_chain true rest in
      let room : length (if b then xs else []) ≡ size_if b C =
        length-part b c xs (λ e. length-content_bits name c (q e)) ∙ size_part b c in
      let cut : drop (size_if b C) ((if b then xs else []) ++ (bit ∷ tail)) ≡ bit ∷ tail =
        drop_part b xs (bit ∷ tail) (size_if b C) room in
      let result : List ℕ → Slots = λ vs.
        let h = head_or_0 (drop (size_if b C) vs) in
        sib_slot name h h (update_content b (b && truthy h) (loaded_if b C vs))
          (update_chain true (load R (drop 1 (drop (size_if b C) vs)))) in
      ap result
        (append_assoc (if b then xs else []) (bit ∷ target_bits after target payload rest) more)
      ∙ (λ i.
          sib_slot name (head_or_0 (cut i)) (head_or_0 (cut i))
            (moved_part b name c bit xs tail room (λ e stays. inner e stays (bit ∷ tail))
              (head_or_0 (drop (size_if b C) ((if b then xs else []) ++ (bit ∷ tail))))
              (ap head_or_0 cut) i)
            ((ap (λ t. update_chain true (load R (drop 1 t))) cut ∙ others) i))
    where
      size_part : (b : Bool) (c : Content) → size_if b c ≡ size_if b (capture_content b c)
      size_part true c = sym (size-capture_content true c)
      size_part false c = refl

  moved_mux :
      (name : String) (w : ℕ) (ff po : List ℕ) (arms : ArmStates) (rest : Slots) (more : List ℕ)
      → arm_matched (value_of po) arms ≡ false
      → update_chain true
          (load (capture_chain true rest) (target_bits after target payload rest ++ more))
        ≡ moved after target payload rest
      → update_chain true (
          load
            (capture_chain true (mux_slot name w ff po arms rest))
            (target_bits after target payload (mux_slot name w ff po arms rest) ++ more))
        ≡ moved after target payload (mux_slot name w ff po arms rest)
  unfolding update_chain capture_chain target_bits moved
  moved_mux name w ff po arms rest more q others =
      let value = get_or_0 (get after name) in
      let xs = msb_first value w in
      let tail = target_bits after target payload rest ++ more in
      let A = capture_arms true (value_of po) arms in
      let R = capture_chain true rest in
      let free : arm_matched (value_of po) A ≡ false =
        matched-capture_arms true (value_of po) (value_of po) arms ∙ q in
      let taken : take w (xs ++ tail) ≡ xs =
        ap (λ (n : ℕ). take n (xs ++ tail)) (sym (length-msb_first value w))
        ∙ take-append xs tail in
      let left : drop w (xs ++ tail) ≡ tail =
        ap (λ (n : ℕ). drop n (xs ++ tail)) (sym (length-msb_first value w))
        ∙ drop-append xs tail in
      let own : reverse (take w (xs ++ tail)) ≡ bits_from_int value w =
        ap reverse taken ∙ reverse-reverse (bits_from_int value w) in
      ap (λ vs. update_chain true (load (mux_slot name w po po A R) vs))
        (append_assoc xs (target_bits after target payload rest) more)
      ∙ ap (update_chain true) (load-mux name w po po A R free (xs ++ tail))
      ∙ (λ i.
          mux_slot name w (own i) (own i)
            (update_unmatched_arms (value_of po) (value_of (own i)) A free i)
            ((ap (λ t. update_chain true (load R t)) left ∙ others) i))

  mutual
    unfolding update_chain load capture_chain target_bits moved

    pub update-load :
        (s : Slots) (more : List ℕ)
        → NoRelay s
        → update_chain true
            (load (capture_chain true s) (target_bits after target payload s ++ more))
          ≡ moved after target payload s
    update-load no_slots more q = refl
    update-load (sib_slot name ff po c rest) more q =
        moved_sib name ff po c rest more q.0
          (λ e stays tail. update-load_content c stays name tail (q.0 e))
          (update-load rest more q.1)
    update-load (mux_slot name w ff po arms rest) more q =
        moved_mux name w ff po arms rest more q.0 (update-load rest more q.1)

    pub update-load_content :
        (c : Content) (stays : Bool) (name : String) (more : List ℕ)
        → NoRelayContent c
        → update_content true stays (
            load_content
              (capture_content true c)
              (content_bits after target payload name c ++ more))
          ≡ moved_content after target payload stays name c
    update-load_content (leaf l) stays name more q = moved_leaf stays name l more
    update-load_content (children s) stays name more q = ap children (update-load s more q)

  -- For a network whose lists of flip-flops have their widths, of whose live muxes none has an arm
  -- matched, and which has a live flip-flop: capture, a scan of the target bits with the bit for TDO's
  -- end first, and update set every live SIB and mux to what the set of open slots says, give a live
  -- instrument its bits, commit them in a WRITE instrument whose SIB stays open, and change nothing
  -- that is not live but by the capture; at TDO comes out what was captured.
  pub update-feed-capture :
      (s : Slots)
      → Sized s
      → NoRelay s
      → 0 < size s
      → (update (feed (capture s) (reverse (target_bits after target payload s))).0
          ≡ moved after target payload s)
        × ((feed (capture s) (reverse (target_bits after target payload s))).1
            ≡ reverse (contents (capture s)))
  unfolding update capture
  update-feed-capture s h q some_cell =
      let bits = target_bits after target payload s in
      let long = length-target_bits s q in
      let scan =
        feed_full (capture s) (reverse bits) (capture-Sized true s h) (capture-NoRelay true s q)
          (omega (arith, length-reverse bits, long))
          (length-reverse bits ∙ long ∙ sym (size-capture true s)) in
      (
        ap (λ r. update r.0) scan
            ∙ ap (λ t. update (load (capture s) t)) (reverse-reverse bits ∙ sym (append-nil bits))
            ∙ update-load s [] q,
        ap (λ r. r.1) scan,
      )

-- ===== src/SibModel/Prefix.antt =====
-- A load takes as many bits of a list as the network has live cells, and these are what it then
-- holds (src/warptap/sib_model.py).
use warptap.Base.{
  ℕ, zero, suc, ◌+◌, ◌-◌, ◌≤◌, ◌<◌, truthy, if◌then◌else◌, Bool, true, false, List, [], ◌∷◌, ◌++◌,
  reverse, ◌≡◌, refl, sym, ap, ap₂, ◌∙◌, arith, length, take, drop, reverse-reverse, String,
  drop-take, take-take, take-plus,
}
use warptap.SibModel.State.{Slots, no_slots, sib_slot, mux_slot, Content, leaf, children}
use warptap.SibModel.Load.{size, size_content, head_or_0, load, load_content}
use warptap.SibModel.Contents.{NoRelay, NoRelayContent, contents, contents_of}
use warptap.SibModel.Reload.{
  size-mux, load-mux, loaded_if, size_if, room_inner, room_own, room_rest, room_mux,
}

head-take : (j : ℕ) (xs : List ℕ) → 0 < j → head_or_0 (take j xs) ≡ head_or_0 xs
head-take zero xs h = absurd (omega arith)
head-take (suc j) [] h = refl
head-take (suc j) (x ∷ xs) h = refl

sib_prefix :
    (name : String) (po : ℕ) (b : Bool) (c : Content) (m j : ℕ) (vs : List ℕ) (rest : Slots)
    → size_if b c + suc m ≤ j
    → (b ≡ true → load_content c (take j vs) ≡ load_content c vs)
    → ((i : ℕ) (us : List ℕ) → m ≤ i → load rest (take i us) ≡ load rest us)
    → sib_slot name
        (head_or_0 (drop (size_if b c) (take j vs)))
        po
        (loaded_if b c (take j vs))
        (load rest (drop 1 (drop (size_if b c) (take j vs))))
      ≡ sib_slot name
          (head_or_0 (drop (size_if b c) vs))
          po
          (loaded_if b c vs)
          (load rest (drop 1 (drop (size_if b c) vs)))
sib_prefix name po b c m j vs rest room inner others =
    let k = size_if b c in
    let cut : drop k (take j vs) ≡ take (j - k) (drop k vs) = drop-take k j vs in
    let tail : load rest (drop 1 (drop k (take j vs))) ≡ load rest (drop 1 (drop k vs)) =
      ap (λ us. load rest (drop 1 us)) cut
      ∙ ap (load rest) (drop-take 1 (j - k) (drop k vs))
      ∙ others (j - k - 1) (drop 1 (drop k vs)) (omega arith) in
    let head : head_or_0 (drop k (take j vs)) ≡ head_or_0 (drop k vs) =
      ap head_or_0 cut ∙ head-take (j - k) (drop k vs) (omega arith) in
    ap₂ (λ h r. sib_slot name h po (loaded_if b c (take j vs)) r) head tail
    ∙ ap (λ x. sib_slot name (head_or_0 (drop k vs)) po x (load rest (drop 1 (drop k vs))))
        (pick b inner)
  where
    pick :
        (x : Bool)
        → (x ≡ true → load_content c (take j vs) ≡ load_content c vs)
        → loaded_if x c (take j vs) ≡ loaded_if x c vs
    pick true h = h refl
    pick false h = refl

inner_room :
    (b : Bool) (c : Content) (m j : ℕ) → size_if b c + suc m ≤ j → b ≡ true → size_content c ≤ j
inner_room true c m j h e = omega arith
inner_room false c m j h e = cc

mutual
  unfolding load size

  -- Bits beyond the live cells do not matter.
  pub load-take :
      (s : Slots) (j : ℕ) (vs : List ℕ) → NoRelay s → size s ≤ j → load s (take j vs) ≡ load s vs
  load-take no_slots j vs q room = refl
  load-take (sib_slot name ff po c rest) j vs q room =
      sib_prefix name po (truthy po) c (size rest) j vs rest room
        (λ e. load-take_content c j vs (q.0 e) (inner_room (truthy po) c (size rest) j room e))
        (λ i us r. load-take rest i us q.1 r)
  load-take (mux_slot name w ff po arms rest) j vs q room =
      let room' : w + size rest ≤ j = rw (size-mux name w ff po arms rest q.0) at room in
      load-mux name w ff po arms rest q.0 (take j vs)
      ∙ ap₂ (λ bits r. mux_slot name w (reverse bits) po arms r) (take-take w j vs (omega arith))
          (ap (load rest) (drop-take w j vs) ∙ load-take rest (j - w) (drop w vs) q.1 (omega arith))
      ∙ sym (load-mux name w ff po arms rest q.0 vs)

  pub load-take_content :
      (c : Content) (j : ℕ) (vs : List ℕ)
      → NoRelayContent c
      → size_content c ≤ j
      → load_content c (take j vs) ≡ load_content c vs
  load-take_content (leaf l) j vs q room =
      ap (λ bits. leaf (record l { inst_shift_ff = bits })) (take-take l.width j vs room)
  load-take_content (children s) j vs q room = ap children (load-take s j vs q room)

take-suc :
    (m : ℕ) (xs : List ℕ) → 0 < length xs → take (suc m) xs ≡ head_or_0 xs ∷ take m (drop 1 xs)
take-suc m [] h = absurd (omega arith)
take-suc m (x ∷ xs) h = refl

sib_contents :
    (b : Bool) (c : Content) (m : ℕ) (vs others : List ℕ)
    → size_if b c + suc m ≤ length vs
    → (b ≡ true → contents_of (load_content c vs) ≡ take (size_content c) vs)
    → others ≡ take m (drop 1 (drop (size_if b c) vs))
    → (if b then contents_of (loaded_if b c vs) else [])
        ++ (head_or_0 (drop (size_if b c) vs) ∷ others)
      ≡ take (size_if b c + suc m) vs
sib_contents b c m vs others room inner h =
    ap₂ (λ xs ys. xs ++ (head_or_0 (drop (size_if b c) vs) ∷ ys)) (pick b inner) h
    ∙ ap (λ ys. take (size_if b c) vs ++ ys)
        (sym (take-suc m (drop (size_if b c) vs) (room_own b c m vs room)))
    ∙ sym (take-plus (size_if b c) (suc m) vs)
  where
    pick :
        (x : Bool)
        → (x ≡ true → contents_of (load_content c vs) ≡ take (size_content c) vs)
        → (if x then contents_of (loaded_if x c vs) else []) ≡ take (size_if x c) vs
    pick true h = h refl
    pick false h = refl

mutual
  unfolding load size contents

  -- What was loaded is what the live cells hold.
  pub contents-load :
      (s : Slots) (vs : List ℕ)
      → NoRelay s
      → size s ≤ length vs
      → contents (load s vs) ≡ take (size s) vs
  contents-load no_slots vs q room = refl
  contents-load (sib_slot name ff po c rest) vs q room =
      sib_contents (truthy po) c (size rest) vs
        (contents (load rest (drop 1 (drop (size_if (truthy po) c) vs)))) room
        (λ e. contents-load_content c vs (q.0 e) (room_inner (truthy po) c (size rest) vs room e))
        (contents-load rest (drop 1 (drop (size_if (truthy po) c) vs)) q.1
          (room_rest (truthy po) c (size rest) vs room))
  contents-load (mux_slot name w ff po arms rest) vs q room =
      let room' : w + size rest ≤ length vs = rw (size-mux name w ff po arms rest q.0) at room in
      ap contents (load-mux name w ff po arms rest q.0 vs)
      ∙ ap₂ (λ xs ys. xs ++ ys) (reverse-reverse (take w vs))
          (contents-load rest (drop w vs) q.1 (room_mux w (size rest) vs room'))
      ∙ sym (take-plus w (size rest) vs)
      ∙ ap (λ (n : ℕ). take n vs) (sym (size-mux name w ff po arms rest q.0))

  pub contents-load_content :
      (c : Content) (vs : List ℕ)
      → NoRelayContent c
      → size_content c ≤ length vs
      → contents_of (load_content c vs) ≡ take (size_content c) vs
  contents-load_content (leaf l) vs q room = refl
  contents-load_content (children s) vs q room = contents-load s vs q room

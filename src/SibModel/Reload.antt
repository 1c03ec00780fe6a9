-- ===== src/SibModel/Reload.antt =====
-- Loading a network and reading it back, while every live mux bypasses its arms
-- (src/warptap/sib_model.py).
use warptap.Base.{
  ℕ, suc, ◌+◌, ◌≤◌, ◌<◌, truthy, if◌then◌else◌, Bool, true, false, List, reverse, ◌≡◌, refl, sym,
  ap, ap₂, subst, ◌∙◌, arith, length, take, drop, length-take, length-drop, length-reverse, String,
}
use warptap.SibModel.State.{Slots, no_slots, sib_slot, mux_slot, ArmStates, Content, leaf, children}
use warptap.SibModel.Cells.{value_of}
use warptap.SibModel.Load.{size, size_content, head_or_0, load, load_content, Sized, SizedContent}
use warptap.SibModel.Contents.{arm_matched, NoRelay, NoRelayContent, unmatched_size, unmatched_load}

module _ (name : String) (w : ℕ) (ff po : List ℕ) (arms : ArmStates) (rest : Slots)
    (h : arm_matched (value_of po) arms ≡ false) where
  pub size-mux : size (mux_slot name w ff po arms rest) ≡ w + size rest
  unfolding size
  size-mux = rw (unmatched_size (value_of po) arms h) (omega arith)

  pub load-mux :
      (vs : List ℕ)
      → load (mux_slot name w ff po arms rest) vs
        ≡ mux_slot name w (reverse (take w vs)) po arms (load rest (drop w vs))
  unfolding load
  load-mux vs =
      rw (unmatched_load (value_of po) arms vs h, unmatched_size (value_of po) arms h) refl

-- What `load` makes of the content of a SIB, and how many bits that takes.
abbrev pub loaded_if : Bool → Content → List ℕ → Content
loaded_if b c vs = if b then load_content c vs else c

abbrev pub size_if : Bool → Content → ℕ
size_if b c = if b then size_content c else 0

size_if-loaded :
    (b : Bool) (c : Content) (vs : List ℕ)
    → (b ≡ true → size_content (load_content c vs) ≡ size_content c)
    → size_if b (loaded_if b c vs) ≡ size_if b c
size_if-loaded true c vs h = h refl
size_if-loaded false c vs h = refl

mutual
  unfolding size load

  pub size-load : (s : Slots) (vs : List ℕ) → NoRelay s → size (load s vs) ≡ size s
  size-load no_slots vs q = refl
  size-load (sib_slot name ff po c rest) vs q =
      ap₂ (λ (a b : ℕ). a + suc b)
        (size_if-loaded (truthy po) c vs (λ e. size-load_content c vs (q.0 e)))
        (size-load rest (drop 1 (drop (size_if (truthy po) c) vs)) q.1)
  size-load (mux_slot name w ff po arms rest) vs q =
      ap size (load-mux name w ff po arms rest q.0 vs)
      ∙ size-mux name w (reverse (take w vs)) po arms (load rest (drop w vs)) q.0
      ∙ ap (λ (n : ℕ). w + n) (size-load rest (drop w vs) q.1)
      ∙ sym (size-mux name w ff po arms rest q.0)

  pub size-load_content :
      (c : Content) (vs : List ℕ)
      → NoRelayContent c
      → size_content (load_content c vs) ≡ size_content c
  size-load_content (leaf l) vs q = refl
  size-load_content (children s) vs q = size-load s vs q

NoRelay_if-loaded :
    (b : Bool) (c : Content) (vs : List ℕ)
    → (b ≡ true → NoRelayContent (load_content c vs))
    → b ≡ true
    → NoRelayContent (loaded_if b c vs)
NoRelay_if-loaded true c vs h e = h e
NoRelay_if-loaded false c vs h e = cc

Sized_if-loaded :
    (b : Bool) (c : Content) (vs : List ℕ)
    → SizedContent c
    → (b ≡ true → SizedContent (load_content c vs))
    → SizedContent (loaded_if b c vs)
Sized_if-loaded true c vs s h = h refl
Sized_if-loaded false c vs s h = s

mutual
  unfolding load

  pub load-NoRelay : (s : Slots) (vs : List ℕ) → NoRelay s → NoRelay (load s vs)
  load-NoRelay no_slots vs q = tt
  load-NoRelay (sib_slot name ff po c rest) vs q = (
    NoRelay_if-loaded (truthy po) c vs (λ e. load_content-NoRelay c vs (q.0 e)),
    load-NoRelay rest (drop 1 (drop (size_if (truthy po) c) vs)) q.1,
  )
  load-NoRelay (mux_slot name w ff po arms rest) vs q =
      subst NoRelay (sym (load-mux name w ff po arms rest q.0 vs))
        (q.0, load-NoRelay rest (drop w vs) q.1)

  pub load_content-NoRelay :
      (c : Content) (vs : List ℕ) → NoRelayContent c → NoRelayContent (load_content c vs)
  load_content-NoRelay (leaf l) vs q = tt
  load_content-NoRelay (children s) vs q = load-NoRelay s vs q

-- The rooms that a list which fills a network leaves to its parts.
module _ (b : Bool) (c : Content) (m : ℕ) (vs : List ℕ)
    (room : size_if b c + suc m ≤ length vs) where
  pub room_inner : b ≡ true → size_content c ≤ length vs
  room_inner e = go b e room
    where
      go : (x : Bool) → x ≡ true → size_if x c + suc m ≤ length vs → size_content c ≤ length vs
      go true e r = omega arith
      go false e r = cc

  pub room_own : 0 < length (drop (size_if b c) vs)
  room_own = omega (arith, length-drop (size_if b c) vs)

  pub room_rest : m ≤ length (drop 1 (drop (size_if b c) vs))
  room_rest = omega (arith, length-drop (size_if b c) vs, length-drop 1 (drop (size_if b c) vs))

pub room_mux : (w m : ℕ) (vs : List ℕ) → w + m ≤ length vs → m ≤ length (drop w vs)
room_mux w m vs room = omega (arith, length-drop w vs)

mutual
  unfolding load size

  pub load-Sized :
      (s : Slots) (vs : List ℕ) → Sized s → NoRelay s → size s ≤ length vs → Sized (load s vs)
  load-Sized no_slots vs h q room = tt
  load-Sized (sib_slot name ff po c rest) vs h q room = (
    Sized_if-loaded (truthy po) c vs h.0
        (λ e. load_content-Sized c vs h.0 (q.0 e) (room_inner (truthy po) c (size rest) vs room e)),
    load-Sized rest (drop 1 (drop (size_if (truthy po) c) vs)) h.1 q.1
        (room_rest (truthy po) c (size rest) vs room),
  )
  load-Sized (mux_slot name w ff po arms rest) vs h q room =
      let room' : w + size rest ≤ length vs = rw (size-mux name w ff po arms rest q.0) at room in
      subst Sized (sym (load-mux name w ff po arms rest q.0 vs)) (
        length-reverse (take w vs) ∙ length-take w vs (omega arith),
        h.1,
        h.2,
        load-Sized rest (drop w vs) h.3 q.1 (room_mux w (size rest) vs room'),
      )

  pub load_content-Sized :
      (c : Content) (vs : List ℕ)
      → SizedContent c
      → NoRelayContent c
      → size_content c ≤ length vs
      → SizedContent (load_content c vs)
  load_content-Sized (leaf l) vs h q room = (length-take l.width vs room, h.1)
  load_content-Sized (children s) vs h q room = load-Sized s vs h q room

sib_again :
    (name : String) (a po : ℕ) (b : Bool) (c : Content) (r : Slots) (us vs : List ℕ) (again : Slots)
    → (b ≡ true → size_content (load_content c us) ≡ size_content c)
    → (b ≡ true → load_content (load_content c us) vs ≡ load_content c vs)
    → load r (drop 1 (drop (size_if b c) vs)) ≡ again
    → sib_slot name
        (head_or_0 (drop (size_if b (loaded_if b c us)) vs))
        po
        (loaded_if b (loaded_if b c us) vs)
        (load r (drop 1 (drop (size_if b (loaded_if b c us)) vs)))
      ≡ sib_slot name (head_or_0 (drop (size_if b c) vs)) po (loaded_if b c vs) again
sib_again name a po true c r us vs again h h' h'' = rw (h refl, h' refl, h'')
sib_again name a po false c r us vs again h h' h'' = rw h''

mutual
  unfolding load size

  -- A second load leaves nothing of the first.
  pub load-load : (s : Slots) (us vs : List ℕ) → NoRelay s → load (load s us) vs ≡ load s vs
  load-load no_slots us vs q = refl
  load-load (sib_slot name ff po c rest) us vs q =
      sib_again name 0 po (truthy po) c (load rest (drop 1 (drop (size_if (truthy po) c) us))) us vs
        (load rest (drop 1 (drop (size_if (truthy po) c) vs))) (λ e. size-load_content c us (q.0 e))
        (λ e. load-load_content c us vs (q.0 e))
        (load-load rest (drop 1 (drop (size_if (truthy po) c) us))
          (drop 1 (drop (size_if (truthy po) c) vs)) q.1)
  load-load (mux_slot name w ff po arms rest) us vs q =
      ap (λ s. load s vs) (load-mux name w ff po arms rest q.0 us)
      ∙ load-mux name w (reverse (take w us)) po arms (load rest (drop w us)) q.0 vs
      ∙ ap (mux_slot name w (reverse (take w vs)) po arms)
          (load-load rest (drop w us) (drop w vs) q.1)
      ∙ sym (load-mux name w ff po arms rest q.0 vs)

  pub load-load_content :
      (c : Content) (us vs : List ℕ)
      → NoRelayContent c
      → load_content (load_content c us) vs ≡ load_content c vs
  load-load_content (leaf l) us vs q = refl
  load-load_content (children s) us vs q = ap children (load-load s us vs q)

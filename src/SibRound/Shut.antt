-- ===== src/SibRound/Shut.antt =====
-- Networks in which nothing hidden is open (src/warptap/sib_model.py, src/warptap/sib_layout.py).
use warptap.Base.{ℕ, truthy, Bool, true, false, none, some, String, ◌≡◌, refl, ◌∙◌, ◌⊎◌}
use warptap.TapIr.{bits_from_int}
use warptap.SibLayout.{OpenMap, get, is_open, get_or_0, bit_of}
use warptap.SibModel.{capture_chain, capture_content}
use warptap.SibModel.State.{Slots, no_slots, sib_slot, mux_slot, Content, leaf, children}
use warptap.SibModel.Cells.{value_of}
use warptap.SibModel.Contents.{arm_matched, NoRelay, NoRelayContent}
use warptap.SibRound.Capture.{matched-capture_arms}

-- Every SIB is closed and every mux bypasses its arms.
abbrev mutual
  pub Shut : Slots → Type 0
  Shut no_slots = Unit
  Shut (sib_slot name ff po c rest) = (truthy po ≡ false) × ShutContent c × Shut rest
  Shut (mux_slot name w ff po arms rest) = (arm_matched (value_of po) arms ≡ false) × Shut rest

  pub ShutContent : Content → Type 0
  ShutContent (leaf l) = Unit
  ShutContent (children s) = Shut s

-- What a closed SIB gates is shut.
abbrev mutual
  pub Quiet : Slots → Type 0
  Quiet no_slots = Unit
  Quiet (sib_slot name ff po c rest) =
      (truthy po ≡ true → QuietContent c) × (truthy po ≡ false → ShutContent c) × Quiet rest
  Quiet (mux_slot name w ff po arms rest) = Quiet rest

  pub QuietContent : Content → Type 0
  QuietContent (leaf l) = Unit
  QuietContent (children s) = Quiet s

-- The value that a mux is taken to.
abbrev pub new_value : OpenMap → String → ℕ → ℕ
new_value after name w = value_of (bits_from_int (get_or_0 (get after name)) w)

-- The set of open slots names nothing of the network, whose muxes bypass their arms at 0.
abbrev mutual
  pub Unnamed : OpenMap → Slots → Type 0
  Unnamed after no_slots = Unit
  Unnamed after (sib_slot name ff po c rest) =
      (is_open after name ≡ false) × UnnamedContent after c × Unnamed after rest
  Unnamed after (mux_slot name w ff po arms rest) =
      (get after name ≡ none)
      × (arm_matched (new_value after name w) arms ≡ false)
      × Unnamed after rest

  pub UnnamedContent : OpenMap → Content → Type 0
  UnnamedContent after (leaf l) = Unit
  UnnamedContent after (children s) = Unnamed after s

-- The set of open slots is one level away: it names nothing below a SIB that is closed now or that it
-- does not name, and takes no live mux to an arm.
abbrev mutual
  pub Admits : OpenMap → Slots → Type 0
  Admits after no_slots = Unit
  Admits after (sib_slot name ff po c rest) =
      (truthy po ≡ true → is_open after name ≡ true → AdmitsContent after c)
      × (truthy po ≡ false → UnnamedContent after c)
      × (is_open after name ≡ false → UnnamedContent after c)
      × Admits after rest
  Admits after (mux_slot name w ff po arms rest) =
      ((get after name ≡ none) ⊎ (get after name ≡ some (new_value after name w)))
      × (arm_matched (new_value after name w) arms ≡ false)
      × Admits after rest

  pub AdmitsContent : OpenMap → Content → Type 0
  AdmitsContent after (leaf l) = Unit
  AdmitsContent after (children s) = Admits after s

pub truthy-bit_of : (b : Bool) → truthy (bit_of b) ≡ b
truthy-bit_of true = refl
truthy-bit_of false = refl

mutual
  pub Shut-Quiet : (s : Slots) → Shut s → Quiet s
  Shut-Quiet no_slots h = tt
  Shut-Quiet (sib_slot name ff po c rest) h =
      ((λ e. ShutContent-Quiet c h.1), (λ e. h.1), Shut-Quiet rest h.2)
  Shut-Quiet (mux_slot name w ff po arms rest) h = Shut-Quiet rest h.1

  pub ShutContent-Quiet : (c : Content) → ShutContent c → QuietContent c
  ShutContent-Quiet (leaf l) h = tt
  ShutContent-Quiet (children s) h = Shut-Quiet s h

mutual
  pub Shut-NoRelay : (s : Slots) → Shut s → NoRelay s
  Shut-NoRelay no_slots h = tt
  Shut-NoRelay (sib_slot name ff po c rest) h =
      ((λ e. ShutContent-NoRelay c h.1), Shut-NoRelay rest h.2)
  Shut-NoRelay (mux_slot name w ff po arms rest) h = (h.0, Shut-NoRelay rest h.1)

  pub ShutContent-NoRelay : (c : Content) → ShutContent c → NoRelayContent c
  ShutContent-NoRelay (leaf l) h = tt
  ShutContent-NoRelay (children s) h = Shut-NoRelay s h

mutual
  unfolding capture_chain

  capture-Shut : (b : Bool) (s : Slots) → Shut s → Shut (capture_chain b s)
  capture-Shut b no_slots h = tt
  capture-Shut b (sib_slot name ff po c rest) h =
      (h.0, capture_content-Shut (truthy po) c h.1, capture-Shut b rest h.2)
  capture-Shut b (mux_slot name w ff po arms rest) h =
      (matched-capture_arms b (value_of po) (value_of po) arms ∙ h.0, capture-Shut b rest h.1)

  pub capture_content-Shut :
      (b : Bool) (c : Content) → ShutContent c → ShutContent (capture_content b c)
  capture_content-Shut b (leaf l) h = tt
  capture_content-Shut b (children s) h = capture-Shut b s h

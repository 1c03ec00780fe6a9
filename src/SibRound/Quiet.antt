-- ===== src/SibRound/Quiet.antt =====
-- What is hidden in a network stays closed, so that a map of the open slots goes on saying what is
-- live (src/warptap/sib_model.py, src/warptap/sib_layout.py).
use warptap.Base.{
  not_both, ℕ, truthy, if◌then◌else◌, Bool, true, false, Option, String, ◌≡◌, refl, sym, ◌∙◌, inl,
}
use warptap.SibLayout.{OpenMap, is_open, bit_of}
use warptap.SibModel.{capture_chain, capture_content}
use warptap.SibModel.State.{Slots, no_slots, sib_slot, mux_slot, Content, leaf, children}
use warptap.SibModel.Cells.{value_of}
use warptap.SibModel.Contents.{NoRelay, NoRelayContent}
use warptap.SibRound.{moved, moved_content, Tracks, TracksContent}
use warptap.SibRound.Capture.{matched-capture_arms}
use warptap.SibRound.Shut.{
  Shut, ShutContent, Quiet, QuietContent, new_value, Unnamed, UnnamedContent, Admits, AdmitsContent,
  truthy-bit_of, ShutContent-Quiet, ShutContent-NoRelay, capture_content-Shut,
}

module _ (after : OpenMap) where
  mutual
    unfolding capture_chain

    Shut-Tracks :
        (b : Bool) (s : Slots) → Shut s → Unnamed after s → Tracks after (capture_chain b s)
    Shut-Tracks b no_slots h u = tt
    Shut-Tracks b (sib_slot name ff po c rest) h u =
        (u.0 ∙ sym h.0, (λ e. not_both (truthy po) h.0 e), Shut-Tracks b rest h.2 u.2)
    Shut-Tracks b (mux_slot name w ff po arms rest) h u = (inl u.0, Shut-Tracks b rest h.1 u.2)

    ShutContent-Tracks :
        (b : Bool) (c : Content)
        → ShutContent c
        → UnnamedContent after c
        → TracksContent after (capture_content b c)
    ShutContent-Tracks b (leaf l) h u = tt
    ShutContent-Tracks b (children s) h u = Shut-Tracks b s h u

module _ (after : OpenMap) (target : Option String) (payload : ℕ) where
  content_after : Bool → Bool → String → Content → Content
  content_after b stays name c =
      if b then moved_content after target payload stays name c else capture_content false c

  -- What a SIB gates after the round, by whether it is open before.
  pick_content :
      (P : Content → Type 0) (b stays : Bool) (name : String) (c : Content)
      → (b ≡ true → P (moved_content after target payload stays name c))
      → (b ≡ false → P (capture_content false c))
      → P (if b then moved_content after target payload stays name c else capture_content false c)
  pick_content P true stays name c h h' = h refl
  pick_content P false stays name c h h' = h' refl

  mutual
    unfolding moved

    moved-Shut : (s : Slots) → Quiet s → Unnamed after s → Shut (moved after target payload s)
    moved-Shut no_slots q u = tt
    moved-Shut (sib_slot name ff po c rest) q u = (
      truthy-bit_of (is_open after name) ∙ u.0,
      pick_content ShutContent (truthy po) (truthy (bit_of (is_open after name))) name c
          (λ e. moved_content-Shut (truthy (bit_of (is_open after name))) name c (q.0 e) u.1)
          (λ e. capture_content-Shut false c (q.1 e)),
      moved-Shut rest q.2 u.2,
    )
    moved-Shut (mux_slot name w ff po arms rest) q u = (
      matched-capture_arms true (value_of po) (new_value after name w) arms ∙ u.1,
      moved-Shut rest q u.2,
    )

    moved_content-Shut :
        (stays : Bool) (name : String) (c : Content)
        → QuietContent c
        → UnnamedContent after c
        → ShutContent (moved_content after target payload stays name c)
    moved_content-Shut stays name (leaf l) q u = tt
    moved_content-Shut stays name (children s) q u = moved-Shut s q u

  -- The three together, of a network and of what a slot gates.
  abbrev pub Calm : Slots → Type 0
  Calm s = Tracks after s × Quiet s × NoRelay s

  abbrev CalmContent : Content → Type 0
  CalmContent c = TracksContent after c × QuietContent c × NoRelayContent c

  ShutContent-Calm :
      (c : Content) → ShutContent c → UnnamedContent after c → CalmContent (capture_content false c)
  ShutContent-Calm c h u =
      let h' = capture_content-Shut false c h in
      (
        ShutContent-Tracks after false c h u,
        ShutContent-Quiet (capture_content false c) h',
        ShutContent-NoRelay (capture_content false c) h',
      )

  after_sib :
      (name : String) (ff po : ℕ) (c : Content) (rest : Slots)
      → Quiet (sib_slot name ff po c rest)
      → Admits after (sib_slot name ff po c rest)
      → (truthy po ≡ true
          → is_open after name ≡ true
          → CalmContent
              (moved_content after target payload (truthy (bit_of (is_open after name))) name c))
      → Calm (moved after target payload rest)
      → Calm (moved after target payload (sib_slot name ff po c rest))
  unfolding moved
  after_sib name ff po c rest q a inner others =
      let stays = truthy (bit_of (is_open after name)) in
      let same = truthy-bit_of (is_open after name) in
      let opened : stays ≡ true
          → CalmContent (
              if truthy po
              then moved_content after target payload stays name c
              else capture_content false c) =
        λ e.
          pick_content CalmContent (truthy po) stays name c (λ o. inner o (sym same ∙ e))
            (λ o. ShutContent-Calm c (q.1 o) (a.1 o)) in
      let closed : stays ≡ false
          → ShutContent (
              if truthy po
              then moved_content after target payload stays name c
              else capture_content false c) =
        λ e.
          pick_content ShutContent (truthy po) stays name c
            (λ o. moved_content-Shut stays name c (q.0 o) (a.2 (sym same ∙ e)))
            (λ o. capture_content-Shut false c (q.1 o)) in
      (
        (sym same, (λ e. (opened e).0), others.0),
        ((λ e. (opened e).1), closed, others.1),
        ((λ e. (opened e).2), others.2),
      )

  mutual
    unfolding moved

    pub moved-Calm : (s : Slots) → Quiet s → Admits after s → Calm (moved after target payload s)
    moved-Calm no_slots q a = (tt, tt, tt)
    moved-Calm (sib_slot name ff po c rest) q a =
        after_sib name ff po c rest q a
          (λ o e.
            moved_content-Calm (truthy (bit_of (is_open after name))) name c (q.0 o) (a.0 o e))
          (moved-Calm rest q.2 a.3)
    moved-Calm (mux_slot name w ff po arms rest) q a =
        let others = moved-Calm rest q a.2 in
        (
          (a.0, others.0),
          others.1,
          (matched-capture_arms true (value_of po) (new_value after name w) arms ∙ a.1, others.2),
        )

    moved_content-Calm :
        (stays : Bool) (name : String) (c : Content)
        → QuietContent c
        → AdmitsContent after c
        → CalmContent (moved_content after target payload stays name c)
    moved_content-Calm stays name (leaf l) q a = (tt, tt, tt)
    moved_content-Calm stays name (children s) q a = moved-Calm s q a

-- ===== src/SibRound/Start.antt =====
-- A new network fits its graph, and nothing of it is open (src/warptap/sib_model.py).
use warptap.Base.{
  Bool, true, false, if◌then◌else◌, [], Option, none, some, Result, ok, ◌>>=◌, >>=-eq-ok,
  ok-injective, length-replicate, ◌≡◌, refl, subst, inl,
}
use warptap.IclModel.{
  InstrumentNode, Chain, end, sib_node, scan_mux_node, Arms, no_arms, scan_arm, is_empty,
}
use warptap.SibModel.State.{
  Slots, ArmStates, Content, children, SibModelError, new_leaf, make_chain, make_arms, new_register,
}
use warptap.SibModel.Load.{Sized, SizedArms, SizedContent}
use warptap.SibRound.{Fits, FitsArms, FitsContent, Tracks}

abbrev Good : Chain → Slots → Type 0
Good chain s = Fits chain s × Sized s × Tracks [] s

abbrev GoodContent : Option InstrumentNode → Chain → Content → Type 0
GoodContent i nested c = FitsContent i nested c × SizedContent c

abbrev GoodArms : Arms → ArmStates → Type 0
GoodArms arms states = FitsArms arms states × SizedArms states

new_leaf-Good :
    (i : Option InstrumentNode) (nested : Chain) (c : Content)
    → is_empty nested ≡ true
    → new_leaf i ≡ ok c
    → GoodContent i nested c
unfolding new_leaf
new_leaf-Good none nested c e h = cc
new_leaf-Good (some i) nested c e h =
    subst (GoodContent (some i) nested) (ok-injective h)
      ((e, (i, refl, refl)), (length-replicate i.width 0, length-replicate i.width 0))

content-Good :
    (i : Option InstrumentNode) (nested : Chain) (c : Content) (made : Result SibModelError Slots)
    (b : Bool)
    → is_empty nested ≡ b
    → (if b then new_leaf i else (do s ← made; ok (children s))) ≡ ok c
    → ((s : Slots) → made ≡ ok s → Good nested s)
    → GoodContent i nested c
content-Good i nested c made true e h good = new_leaf-Good i nested c e h
content-Good i nested c made false e h good =
    let (s, inner, last) = >>=-eq-ok made (λ s. ok (children s)) h in
    let g = good s inner in subst (GoodContent i nested) (ok-injective last) ((e, g.0), g.1)

mutual
  unfolding make_chain

  pub make_chain-Good : (chain : Chain) (s : Slots) → make_chain chain ≡ ok s → Good chain s
  make_chain-Good end s h = subst (Good end) (ok-injective h) (tt, tt, tt)
  make_chain-Good (sib_node name i nested rest) s h =
      let (c, inner, later) = >>=-eq-ok _ _ h in
      let (there, second, last) = >>=-eq-ok (make_chain rest) _ later in
      let g =
        content-Good i nested c (make_chain nested) (is_empty nested) refl inner
          (λ t e. make_chain-Good nested t e) in
      let r = make_chain-Good rest there second in
      subst (Good (sib_node name i nested rest)) (ok-injective last)
        ((refl, g.0, r.0), (g.1, r.1), (refl, (λ e. cc), r.2))
  make_chain-Good (scan_mux_node name w arms rest) s h =
      let (states, first, later) = >>=-eq-ok (make_arms arms) _ h in
      let (there, second, last) = >>=-eq-ok (make_chain rest) _ later in
      let g = make_arms-Good arms states first in
      let r = make_chain-Good rest there second in
      subst (Good (scan_mux_node name w arms rest)) (ok-injective last) (
        (refl, refl, g.0, r.0),
        (length-replicate w 0, length-replicate w 0, g.1, r.1),
        (inl refl, r.2),
      )

  pub make_arms-Good :
      (arms : Arms) (states : ArmStates) → make_arms arms ≡ ok states → GoodArms arms states
  make_arms-Good no_arms states h = subst (GoodArms no_arms) (ok-injective h) (tt, tt)
  make_arms-Good (scan_arm values i nested arms) states h =
      let (c, inner, later) = >>=-eq-ok _ _ h in
      let (there, second, last) = >>=-eq-ok (make_arms arms) _ later in
      let g =
        content-Good i nested c (make_chain nested) (is_empty nested) refl inner
          (λ t e. make_chain-Good nested t e) in
      let r = make_arms-Good arms there second in
      subst (GoodArms (scan_arm values i nested arms)) (ok-injective last)
        ((refl, g.0, r.0), (g.1, r.1))

-- A network that the constructor returns for a graph fits the graph, its lists of flip-flops have
-- their widths, and the empty set of open slots says what is live in it.
pub new_register-Fits :
    (chain : Chain) (s : Slots) → new_register chain ≡ ok s → Fits chain s × Sized s × Tracks [] s
unfolding new_register
new_register-Fits chain s h = make_chain-Good chain s h

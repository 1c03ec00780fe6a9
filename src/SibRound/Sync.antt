-- ===== src/SibRound/Sync.antt =====
-- The map of the open slots and the network stay in step over any number of rounds
-- (src/warptap/sib_layout.py, src/warptap/sib_model.py).
use warptap.Base.{
  ℕ, ◌<◌, if◌then◌else◌, Bool, true, false, List, [], reverse, Option, none, some, String, ok,
  ◌>>=◌, >>=-eq-ok, ok-injective, replicate, zero, suc, ◌≡◌, refl, sym, ap, subst, ◌∙◌, arith,
}
use warptap.TapIr.{bits_to_int}
use warptap.TapIr.Packing.{bits_to_int-cons}
use warptap.IclModel.{
  InstrumentNode, Chain, end, sib_node, scan_mux_node, Arms, no_arms, scan_arm, is_empty, contains,
}
use warptap.SibLayout.{OpenSet, names, normalize_open, compose_bits}
use warptap.SibModel.{capture, update}
use warptap.SibModel.State.{
  Slots, sib_slot, mux_slot, ArmStates, no_arm_states, arm_state, Content, children, new_leaf,
  make_chain, make_arms, new_register,
}
use warptap.SibModel.Load.{size, Sized}
use warptap.SibModel.Contents.{arm_matched, NoRelay}
use warptap.SibModel.Feed.{feed}
use warptap.SibRound.{moved, Fits, FitsArms, Tracks}
use warptap.SibRound.Compose.{round-compose_bits}
use warptap.SibRound.Start.{new_register-Fits, make_arms-Good}
use warptap.SibRound.Keep.{moved-Fits, moved-Sized}
use warptap.SibRound.Shut.{Shut, ShutContent, Quiet, Admits, Shut-Quiet, Shut-NoRelay}
use warptap.SibRound.Quiet.{moved-Calm}

-- The network fits the graph, the set of open slots says what is live in it, what is hidden in it is
-- shut, and no mux relays an arm.
pub record Synced (chain : Chain) (now : OpenSet) (s : Slots) : Type 0 where
  pub fits : Fits chain s
  pub sized : Sized s
  pub tracks : Tracks (normalize_open now) s
  pub quiet : Quiet s
  pub no_relay : NoRelay s

pub moved-Synced :
    (chain : Chain) (s : Slots) (now after : OpenSet) (target : Option String) (payload : ℕ)
    → Synced chain now s
    → Admits (normalize_open after) s
    → Synced chain after (moved (normalize_open after) target payload s)
moved-Synced chain s now after target payload y a =
    let m = normalize_open after in
    let calm = moved-Calm m target payload s y.quiet a in
    record {
      fits = moved-Fits m target payload chain s y.fits;
      sized = moved-Sized m target payload s y.sized;
      tracks = calm.0;
      quiet = calm.1;
      no_relay = calm.2;
    }

-- If a set of open slots is in step with a network that has a live flip-flop, and a second set is one
-- level away and takes no mux to an arm, then `compose_bits` returns bits, and after capture, a scan
-- of them and update the second set is in step with the network: it names exactly the live SIBs that
-- are open, and the network still fits its graph.
pub round-Synced :
    (chain : Chain) (s : Slots) (now after : OpenSet) (target : Option String) (payload : ℕ)
    → Synced chain now s
    → 0 < size s
    → Admits (normalize_open after) s
    → (bits : List ℕ) × (compose_bits chain now after target payload ≡ ok bits)
      × Synced chain after (update (feed (capture s) (reverse bits)).0)
round-Synced chain s now after target payload y some_cell a =
    let (bits, composed, long, state, out) =
      round-compose_bits chain s now after target payload y.fits y.sized y.no_relay some_cell
        y.tracks in
    (
      bits,
      composed,
      subst (Synced chain after) (sym state) (moved-Synced chain s now after target payload y a),
    )

-- No arm claims the value.
abbrev arms_claim : ℕ → Arms → Bool
arms_claim v no_arms = false
arms_claim v (scan_arm values i nested arms) = if contains values v then true else arms_claim v arms

-- At 0 every mux bypasses its arms.
abbrev pub ZeroBypasses : Chain → Type 0
ZeroBypasses end = Unit
ZeroBypasses (sib_node name i nested rest) = ZeroBypasses nested × ZeroBypasses rest
ZeroBypasses (scan_mux_node name w arms rest) = (arms_claim 0 arms ≡ false) × ZeroBypasses rest

matched-arms_claim :
    (v : ℕ) (arms : Arms) (states : ArmStates)
    → FitsArms arms states
    → arm_matched v states ≡ arms_claim v arms
matched-arms_claim v no_arms no_arm_states f = refl
matched-arms_claim v no_arms (arm_state values c states) f = cc
matched-arms_claim v (scan_arm vs i nested arms) no_arm_states f = cc
matched-arms_claim v (scan_arm vs i nested arms) (arm_state values c states) f =
    rw (f.0, matched-arms_claim v arms states f.2) refl

bits_to_int-zeros : (w : ℕ) → bits_to_int (replicate w 0) ≡ 0
bits_to_int-zeros zero = unfold bits_to_int in refl
bits_to_int-zeros (suc w) = bits_to_int-cons 0 (replicate w 0) ∙ omega (arith, bits_to_int-zeros w)

new_leaf-Shut : (i : Option InstrumentNode) (c : Content) → new_leaf i ≡ ok c → ShutContent c
unfolding new_leaf
new_leaf-Shut none c h = cc
new_leaf-Shut (some i) c h = subst ShutContent (ok-injective h) tt

content-Shut :
    (i : Option InstrumentNode) (nested : Chain) (c : Content) (b : Bool)
    → (if b then new_leaf i else (do s ← make_chain nested; ok (children s))) ≡ ok c
    → ((s : Slots) → make_chain nested ≡ ok s → Shut s)
    → ShutContent c
content-Shut i nested c true h shut = new_leaf-Shut i c h
content-Shut i nested c false h shut =
    let (s, inner, last) = >>=-eq-ok (make_chain nested) (λ s. ok (children s)) h in
    subst ShutContent (ok-injective last) (shut s inner)

make_chain-Shut :
    (chain : Chain) (s : Slots) → ZeroBypasses chain → make_chain chain ≡ ok s → Shut s
unfolding make_chain
make_chain-Shut end s z h = subst Shut (ok-injective h) tt
make_chain-Shut (sib_node name i nested rest) s z h =
    let (c, inner, later) = >>=-eq-ok _ _ h in
    let (there, second, last) = >>=-eq-ok (make_chain rest) _ later in
    let made : Shut (sib_slot name 0 0 c there) = (
      refl,
      content-Shut i nested c (is_empty nested) inner (λ t e. make_chain-Shut nested t z.0 e),
      make_chain-Shut rest there z.1 second,
    ) in
    subst Shut (ok-injective last) made
make_chain-Shut (scan_mux_node name w arms rest) s z h =
    let (states, first, later) = >>=-eq-ok (make_arms arms) _ h in
    let (there, second, last) = >>=-eq-ok (make_chain rest) _ later in
    let fits = (make_arms-Good arms states first).0 in
    let made : Shut (mux_slot name w (replicate w 0) (replicate w 0) states there) = (
      ap (λ v. arm_matched v states) (bits_to_int-zeros w)
          ∙ matched-arms_claim 0 arms states fits
          ∙ z.0,
      make_chain-Shut rest there z.1 second,
    ) in
    subst Shut (ok-injective last) made

-- The empty set of open slots is in step with the network that the constructor returns for a graph
-- whose muxes outside of arms bypass their arms at 0.
pub new_register-Synced :
    (chain : Chain) (s : Slots)
    → ZeroBypasses chain
    → new_register chain ≡ ok s
    → Synced chain (names []) s
unfolding normalize_open new_register
new_register-Synced chain s z h =
    let (fits, sized, tracks) = new_register-Fits chain s h in
    let shut = make_chain-Shut chain s z h in
    record {
      fits = fits;
      sized = sized;
      tracks = tracks;
      quiet = Shut-Quiet s shut;
      no_relay = Shut-NoRelay s shut;
    }

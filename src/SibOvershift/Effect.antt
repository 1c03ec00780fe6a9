-- ===== src/SibOvershift/Effect.antt =====
-- What the probe of an over-shift test does to a network that is as it is said to be
-- (src/warptap/sib_overshift.py, src/warptap/sib_model.py).
use warptap.Base.{
  ℕ, true, ◌<◌, List, [], ◌++◌, reverse, none, ok, ◌≡◌, sym, subst, ap, ◌∙◌, arith, length-reverse,
  reverse-reverse, append-nil,
}
use warptap.IclModel.{Chain}
use warptap.SibLayout.{OpenSet, normalize_open, compose_bits}
use warptap.SibModel.{capture, update}
use warptap.SibModel.State.{Slots}
use warptap.SibModel.Load.{size, load}
use warptap.SibModel.Contents.{contents}
use warptap.SibModel.Feed.{feed}
use warptap.SibModel.LongFeed.{feed-append}
use warptap.SibRound.{target_bits, moved}
use warptap.SibRound.Capture.{capture-Sized, capture-NoRelay, size-capture}
use warptap.SibRound.Update.{length-target_bits, update-load}
use warptap.SibRound.Compose.{walk-target_bits}
use warptap.SibRound.Sync.{Synced, moved-Synced}
use warptap.SibRound.Shut.{Admits}

-- Let the set of open slots be in step with a network that has a live flip-flop, and take no mux to an
-- arm, nor name anything below a closed slot. Then `compose_bits` returns bits that take the network
-- from that set to that set, and capture, a scan of any sentinel bits and then of these with the last
-- one first, and update leave the set in step with the network: a live SIB is open exactly if the set
-- names it. At TDO comes out what the live flip-flops captured and then the sentinel, bit for bit.
pub probe-Synced :
    (chain : Chain) (s : Slots) (now : OpenSet) (sentinel : List ℕ)
    → Synced chain now s
    → 0 < size s
    → Admits (normalize_open now) s
    → (tail : List ℕ) × (compose_bits chain now now none 0 ≡ ok tail)
      × (update (feed (capture s) (sentinel ++ reverse tail)).0
          ≡ moved (normalize_open now) none 0 s)
      × Synced chain now (update (feed (capture s) (sentinel ++ reverse tail)).0)
      × ((feed (capture s) (sentinel ++ reverse tail)).1
          ≡ reverse (contents (capture s)) ++ sentinel)
unfolding compose_bits capture update
probe-Synced chain s now sentinel y some_cell admits =
    let m = normalize_open now in
    let tail = target_bits m none 0 s in
    let long = length-target_bits m none 0 s y.no_relay in
    let scan =
      feed-append (capture s) sentinel (reverse tail) (capture-Sized true s y.sized)
        (capture-NoRelay true s y.no_relay) (omega (arith, length-reverse tail, long))
        (length-reverse tail ∙ long ∙ sym (size-capture true s)) in
    let after : update (feed (capture s) (sentinel ++ reverse tail)).0 ≡ moved m none 0 s =
      ap (λ r. update r.0) scan
      ∙ ap (λ t. update (load (capture s) t)) (reverse-reverse tail ∙ sym (append-nil tail))
      ∙ update-load m none 0 s [] y.no_relay in
    (
      tail,
      walk-target_bits m m none 0 chain s y.fits y.no_relay y.tracks,
      after,
      subst (Synced chain now) (sym after) (moved-Synced chain s now now none 0 y admits),
      ap (λ r. r.1) scan,
    )

-- ===== src/TapIrPlay/Navigation.antt =====
-- What the navigation and shift sequences do to the state machine (src/warptap/tap_ir_play.py).
use warptap.Base.{ℕ, zero, suc, ◌-◌, List, [], ◌∷◌, ◌≡◌, refl, arith, ok, replicate}
use warptap.TapFsm.{TapState, next_state, walk}
use warptap.TapFsm.Walks.{walk-append}
use warptap.TapIrPlay.{navigation_tms, shift_tms}

-- A navigation that is offered leads to the state asked for.
pub walk-navigation_tms :
    (from to : TapState) {tms : List ℕ} → navigation_tms from to ≡ ok tms → walk from tms ≡ to
unfolding navigation_tms walk next_state
walk-navigation_tms from to h = ground arith

pub walk_zeros : (s : TapState) (n : ℕ) → next_state s 0 ≡ s → walk s (replicate n 0) ≡ s
unfolding walk
walk_zeros s zero h = refl
walk_zeros s (suc n) h = rw (h, walk) (walk_zeros s n h)

pub walk-shift_tms :
    (s : TapState) (bits : ℕ) → next_state s 0 ≡ s → walk s (shift_tms bits) ≡ next_state s 1
unfolding shift_tms
walk-shift_tms s bits h =
    rw (walk-append s (replicate (bits - 1) 0) (1 ∷ []))
      (rw (walk_zeros s (bits - 1) h) (unfold walk in refl))

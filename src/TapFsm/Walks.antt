-- ===== src/TapFsm/Walks.antt =====
-- What sequences of TMS values do to the 16 states (src/warptap/tap_fsm.py).
use warptap.Base.{ℕ, List, [], ◌∷◌, ◌++◌, ◌≡◌, refl, ◌≤◌, arith, length}
use warptap.TapFsm.{
  TapState, next_state, walk, test_logic_reset, run_test_idle, select_dr_scan, capture_dr, shift_dr,
  exit1_dr, pause_dr, exit2_dr, update_dr, select_ir_scan, capture_ir, shift_ir, exit1_ir, pause_ir,
  exit2_ir, update_ir,
}

pub walk-append : (s : TapState) (xs ys : List ℕ) → walk s (xs ++ ys) ≡ walk (walk s xs) ys
unfolding walk
walk-append s [] ys = refl
walk-append s (x ∷ xs) ys = walk-append (next_state s x) xs ys

-- Five edges with TMS = 1 lead from every state to Test-Logic-Reset, where any further such edge
-- stays.
pub five_ones_reset :
    (s : TapState)
    → (walk s (1 ∷ 1 ∷ 1 ∷ 1 ∷ 1 ∷ []) ≡ test_logic_reset)
      × (next_state test_logic_reset 1 ≡ test_logic_reset)
unfolding walk next_state
five_ones_reset test_logic_reset = (refl, refl)
five_ones_reset _ = (refl, refl)

-- A way from Run-Test/Idle to each state.
from_idle : TapState → List ℕ
from_idle test_logic_reset = 1 ∷ 1 ∷ 1 ∷ []
from_idle run_test_idle = []
from_idle select_dr_scan = 1 ∷ []
from_idle capture_dr = 1 ∷ 0 ∷ []
from_idle shift_dr = 1 ∷ 0 ∷ 0 ∷ []
from_idle exit1_dr = 1 ∷ 0 ∷ 1 ∷ []
from_idle pause_dr = 1 ∷ 0 ∷ 1 ∷ 0 ∷ []
from_idle exit2_dr = 1 ∷ 0 ∷ 1 ∷ 0 ∷ 1 ∷ []
from_idle update_dr = 1 ∷ 0 ∷ 1 ∷ 1 ∷ []
from_idle select_ir_scan = 1 ∷ 1 ∷ []
from_idle capture_ir = 1 ∷ 1 ∷ 0 ∷ []
from_idle shift_ir = 1 ∷ 1 ∷ 0 ∷ 0 ∷ []
from_idle exit1_ir = 1 ∷ 1 ∷ 0 ∷ 1 ∷ []
from_idle pause_ir = 1 ∷ 1 ∷ 0 ∷ 1 ∷ 0 ∷ []
from_idle exit2_ir = 1 ∷ 1 ∷ 0 ∷ 1 ∷ 0 ∷ 1 ∷ []
from_idle update_ir = 1 ∷ 1 ∷ 0 ∷ 1 ∷ 1 ∷ []

walk-from_idle : (t : TapState) → walk run_test_idle (from_idle t) ≡ t
unfolding walk next_state from_idle
walk-from_idle test_logic_reset = refl
walk-from_idle _ = refl

settle : (t : TapState) → walk test_logic_reset (0 ∷ from_idle t) ≡ t
unfolding walk next_state
settle t = walk-from_idle t

from_idle_short : (t : TapState) → length (from_idle t) ≤ 6
unfolding from_idle
from_idle_short t = ground arith

-- Every state can be reached from every state, in at most twelve edges.
pub connected : (s t : TapState) → (tms : List ℕ) × (walk s tms ≡ t) × (length tms ≤ 12)
connected s t = (1 ∷ 1 ∷ 1 ∷ 1 ∷ 1 ∷ 0 ∷ from_idle t, way, omega (arith, from_idle_short t))
  where
    way : walk s ((1 ∷ 1 ∷ 1 ∷ 1 ∷ 1 ∷ []) ++ (0 ∷ from_idle t)) ≡ t
    way =
        rw (walk-append s (1 ∷ 1 ∷ 1 ∷ 1 ∷ 1 ∷ []) (0 ∷ from_idle t))
          (rw ((five_ones_reset s).0) (settle t))

-- ===== src/TapFsm.antt =====
-- The TAP state-transition table (src/warptap/tap_fsm.py).
pub mod Walks
use warptap.Base.{ℕ, ◌%◌, ◌==◌, if◌then◌else◌, List, [], ◌∷◌}

-- `TapState`, in the order of its values.
pub data TapState : Type 0 where
  test_logic_reset run_test_idle select_dr_scan capture_dr shift_dr exit1_dr pause_dr exit2_dr
        update_dr select_ir_scan capture_ir shift_ir exit1_ir pause_ir exit2_ir update_ir :
      TapState

pub TapState-discrete : Discrete TapState
TapState-discrete = hlevel

-- `TRANSITIONS[state]`: the next state if TMS = 0, and if TMS = 1.
unfoldable pub transitions : TapState → TapState × TapState
transitions test_logic_reset = (run_test_idle, test_logic_reset)
transitions run_test_idle = (run_test_idle, select_dr_scan)
transitions select_dr_scan = (capture_dr, select_ir_scan)
transitions capture_dr = (shift_dr, exit1_dr)
transitions shift_dr = (shift_dr, exit1_dr)
transitions exit1_dr = (pause_dr, update_dr)
transitions pause_dr = (pause_dr, exit2_dr)
transitions exit2_dr = (shift_dr, update_dr)
transitions update_dr = (run_test_idle, select_dr_scan)
transitions select_ir_scan = (capture_ir, test_logic_reset)
transitions capture_ir = (shift_ir, exit1_ir)
transitions shift_ir = (shift_ir, exit1_ir)
transitions exit1_ir = (pause_ir, update_ir)
transitions pause_ir = (pause_ir, exit2_ir)
transitions exit2_ir = (shift_ir, update_ir)
transitions update_ir = (run_test_idle, select_dr_scan)

-- `tms & 1` picks the entry.
unfoldable pub next_state : TapState → ℕ → TapState
unfolding transitions
next_state state tms = if tms % 2 == 0 then (transitions state).0 else (transitions state).1

-- The state after a sequence of TMS values, one for each rising edge of TCK.
unfoldable pub walk : TapState → List ℕ → TapState
walk state [] = state
walk state (tms ∷ rest) = walk (next_state state tms) rest

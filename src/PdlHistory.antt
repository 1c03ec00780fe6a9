-- ===== src/PdlHistory.antt =====
-- The statements that an interpreter has carried out (src/warptap/pdl_history.py).
use warptap.Base.{ℕ, Option, String}

pub data PdlStatement : Type 0 where
  target_stmt : String → PdlStatement  -- dotted
  write_stmt : String → ℕ → PdlStatement  -- field, value
  read_stmt : String → ℕ → PdlStatement  -- field, expected
  run_loop_stmt : ℕ → Option String → PdlStatement  -- count, sck_port
  apply_stmt : PdlStatement

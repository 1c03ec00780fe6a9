-- ===== src/Lib.antt =====
-- warptap: the test access port and the SIB networks behind it.
--
-- warptap puts IEEE 1149.1 test logic and IEEE 1687 networks into netlists and retargets test
-- operations to them. This library models the Python code that decides which bits are sent to a chip
-- and what the chip does with them. The parts, with their files from the repository's root:
--
--   TapFsm       src/warptap/tap_fsm.py: the 16 states of the controller and its transition table.
--   TapIr        src/warptap/tap_ir.py: the scan operations, and the packing of bits in an integer
--                (`bits_to_int`, `bits_from_int`).
--   TapModel     src/warptap/tap_model.py: opcodes and their decoding (Opcodes), the data-register
--                protocol and the two built-in registers (Registers), and the model that moves by one
--                edge of TCK (`tick`). A data register that is plugged in is an object that others
--                hold too, so the model has a store of objects and handles into it.
--   TapIrPlay    src/warptap/tap_ir_play.py: `play` drives a model by scan operations, `to_cycles`
--                lists the cycles that do the same, `shift_op_ranges` says where in the trace of TDO
--                values each shift stands.
--   IclModel     src/warptap/icl_model.py: the scan network as data and `validate_physical_graph`;
--                register files and `validate_one_hot_data_group` (OneHot).
--   SibLayout    src/warptap/sib_layout.py: the length of the live chain (`layout_bit_length`) and
--                the bits that move it to another set of open slots (`compose_bits`).
--   SibModel     src/warptap/sib_model.py: the flip-flops of a network (State), the live ones as
--                references (Cells), and reset, capture, shift and update.
--   SibRetarget  src/warptap/sib_retarget.py: the slots that must be open to reach an instrument or a
--                slot, and the rounds in which they are opened (`stage_open_sequence`).
--   SibOvershift src/warptap/sib_overshift.py: the operations of an over-shift test, the value that a
--                fresh model gives for it, and the diagnosis.
--   StaplCrc16   src/warptap/stapl_crc16.py: the CRC of a STAPL file.
--   PdlHistory, PdlInterpreter
--                src/warptap/pdl_history.py and pdl_interpreter.py: the state (State) and the calls
--                iTarget, iWrite, iRead, iRunLoop and iApply; fields of instruments (Fields), the place
--                of the target in a scan and the values expected there (Layout), and the two phases of
--                iApply (Phases).
--   Netlist      src/warptap/netlist.py: a module of a Yosys netlist and the edits on it; the numbers
--                of its nets (Numbers), the modules that edits lead to (Reached), and a document
--                of several modules (Modules).
--   TapIrStil    src/warptap/tap_ir_stil.py: the declared pins, the cycles of a pattern, and its
--                statements before they become text (Pattern).
--   PdlVerify    src/warptap/pdl_verify.py: what was read against what the program expects.
--   BsrPlan, BsrModel
--                src/warptap/bsr_plan.py and bsr_model.py: the cells of a boundary-scan register, and
--                the register as a data register.
--   SibPlan      src/warptap/sib_plan.py: the network and the module tree for a list of instruments.
--   FaultflowRetarget, FaultflowCompression, FaultflowCompaction
--                src/warptap/faultflow_retarget.py, faultflow_compression.py and
--                faultflow_compaction.py: scan patterns as calls of the interpreter; the coefficient
--                rows of the shift register, the elimination that finds a seed, and the seed of a
--                pattern (Pattern); and the folding of chains into channels.
--   SibRound     a round of `capture`, a scan (`feed`: one `shift` for each bit) and `update` with the
--                bits of `compose_bits`: what it is to do is the function `moved`; Synced says that a
--                set of open slots and a network belong together.
--   Tests        runs on small inputs.
--
-- Numbers are natural numbers, as every integer here is a width, an index, a bit or a packed list of
-- bits; where a negative integer may come in (an opcode or IDCODE that is to be checked) the type says
-- so. A Python object with mutable fields is a record or a data type, and a method that changes it
-- returns the new one. A tuple of chain slots is a data type with a constructor for each kind of slot
-- that has the rest of the chain as its last field; references into it are paths. An exception is the
-- `err` of a `Result`; a method that may raise after it has changed its object is an action (`Exec` in
-- Base/Exec) that returns the object beside the result. A dict is an association list, looked up from the front. A frozenset of names
-- is a list of names. All loops are over lists or ranges, and no fuel is used.
-- A mux relays an arm when its value is one that the arm claims; the statements on scans are about
-- networks of whose live muxes none does so at the time.
--
-- Values written to and expected of an instrument are natural numbers. The keys of scan patterns are
-- chain numbers, for their decimals. The elimination of FaultflowCompression keeps the rows up to the
-- pivot row with their pivot columns in one list and the others in a second one.
--
-- Not modelled: the emitters and parsers of SVF, STAPL, ICL, BSDL and PDL, which handle text, and the
-- text of STIL; the insertion of test logic into Yosys netlists, of which only the edits of one module
-- are here; the command line; and the Verilog cells, which the Python models stand for. The messages
-- of exceptions are left out, their kinds kept.
pub mod Base
pub mod TapFsm
pub mod TapIr
pub mod TapModel
pub mod TapIrPlay
pub mod IclModel
pub mod SibLayout
pub mod SibModel
pub mod SibRound
pub mod SibRetarget
pub mod SibOvershift
pub mod StaplCrc16
pub mod BsrPlan
pub mod BsrModel
pub mod PdlHistory
pub mod PdlInterpreter
pub mod FaultflowRetarget
pub mod FaultflowCompression
pub mod FaultflowCompaction
pub mod SibPlan
pub mod PdlVerify
pub mod TapIrStil
pub mod Netlist
pub mod Tests

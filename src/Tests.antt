-- ===== src/Tests.antt =====
-- Runs of the models on small inputs.
pub mod Tap
pub mod Network
pub mod Sib
pub mod Retarget
pub mod Crc
pub mod Overshift
pub mod Graph
pub mod Pdl
pub mod Boundary
pub mod Faultflow
pub mod Stil
pub mod Yosys

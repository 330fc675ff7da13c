-- ===== src/Sim.antt =====
-- The parts of src/sim.
pub mod Handoff

-- ===== src/Tests.antt =====
-- The statements at concrete inputs: a region of 4096 m, and what its edge exchanges with it.
pub mod World
pub mod Places
pub mod Messages
pub mod Packets
pub mod Edge
pub mod Ghosts
pub mod Selections
pub mod Seam
pub mod Handoffs

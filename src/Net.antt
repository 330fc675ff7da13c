-- ===== src/Net.antt =====
-- net: the two links. What they share, and the region's link.
pub mod Error
pub mod Wire
pub mod Region
pub mod Edge

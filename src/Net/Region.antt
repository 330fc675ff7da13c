-- ===== src/Net/Region.antt =====
-- net/region: the link between a region and an edge.
pub mod Protocol
pub mod Edges

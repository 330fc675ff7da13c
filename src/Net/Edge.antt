-- ===== src/Net/Edge.antt =====
-- net/edge: the link between an edge and its game clients.
pub mod Protocol
pub mod Framer
pub mod Seam

-- ===== src/Gather.antt =====
-- gather.rs: what a gather found for one viewer.
use umwelt_rs.Base.{ℕ, ◌/◌, ◌%◌, ◌^◌, Bool, ◌==◌, List, [], ◌∷◌, ◌++◌, length}
use umwelt_rs.Entity.{EntityId}

-- `DistSq` is transparent over its raw `u64`.
pub record DiscoveredEntity : Type 0 where
  pub id : EntityId
  pub snapshot_index : ℕ
  pub dist_sq : ℕ

abbrev pub dist_shift : ℕ
dist_shift = 8

unfoldable pub packed_dist : ℕ → ℕ
packed_dist dist_sq = dist_sq / 2 ^ dist_shift % 2 ^ 32

pub record DiscoveredEntities : Type 0 where
  pub items : List DiscoveredEntity
  pub dists : List ℕ

abbrev pub discovered_new : DiscoveredEntities
discovered_new = record { items = []; dists = [] }

unfoldable pub push : DiscoveredEntity → DiscoveredEntities → DiscoveredEntities
push found out = record {
  items = out.items ++ found ∷ [];
  dists = out.dists ++ packed_dist found.dist_sq ∷ [];
}

unfoldable pub clear : DiscoveredEntities → DiscoveredEntities
clear out = discovered_new

unfoldable pub len : DiscoveredEntities → ℕ
len out = length out.items

unfoldable pub is_empty : DiscoveredEntities → Bool
is_empty out = length out.items == 0

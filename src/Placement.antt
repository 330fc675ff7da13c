-- ===== src/Placement.antt =====
-- map.rs: the squares of the world's grid.
use umwelt_rs.Base.Int.{ℤ, pos, ◌+ℤ◌, ◌-ℤ◌, wrap32}

-- Columns run east and rows run north; both are `i32`.
pub record Placement : Type 0 where
  pub col : ℤ
  pub row : ℤ

pub data Side : Type 0 where
  east west north south : Side

-- The square across one side; `wrapping_add` and `wrapping_sub`.
unfoldable pub beside : Placement → Side → Placement
beside p Side.east = record { col = wrap32 (p.col +ℤ pos 1); row = p.row }
beside p Side.west = record { col = wrap32 (p.col -ℤ pos 1); row = p.row }
beside p Side.north = record { col = p.col; row = wrap32 (p.row +ℤ pos 1) }
beside p Side.south = record { col = p.col; row = wrap32 (p.row -ℤ pos 1) }

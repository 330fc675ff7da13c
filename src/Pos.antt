-- ===== src/Pos.antt =====
-- pos.rs: positions of a region's own frame, and the cells of its grid.
pub mod World
use umwelt_rs.Base.{
  ℕ, ◌+◌, ◌-◌, ◌*◌, ◌%◌, ◌^◌, Bool, ◌&&◌, ltb, leb, if◌then◌else◌, Option, none, some, ◌||◌,
}
use umwelt_rs.Base.Int.{ℤ, pos, negsuc, ◌+ℤ◌, ◌-ℤ◌, ◌*ℤ◌, as_u64, ltb_ℤ, wrap64}
use umwelt_rs.Fixed.{Fixed, fixed_one, add, sub, from_meters, floor_meters}
use umwelt_rs.Placement.{Placement}

pub record Pos3 : Type 0 where
  pub x : Fixed
  pub y : Fixed
  pub z : Fixed

pub record Pos2 : Type 0 where
  pub x : Fixed
  pub y : Fixed

abbrev pub pos3_zero : Pos3
pos3_zero = record { x = pos 0; y = pos 0; z = pos 0 }

unfoldable pub pos3_from_meters : ℤ → ℤ → ℤ → Pos3
pos3_from_meters x y z = record { x = from_meters x; y = from_meters y; z = from_meters z }

unfoldable pub horizontal : Pos3 → Pos2
horizontal p = record { x = p.x; y = p.y }

-- The squares are taken in `i64`, and the sum is read as `u64`.
unfoldable pub dist_sq : Pos3 → Pos3 → ℕ
dist_sq p q =
    let dx = p.x -ℤ q.x in
    let dy = p.y -ℤ q.y in let dz = p.z -ℤ q.z in as_u64 (dx *ℤ dx +ℤ dy *ℤ dy +ℤ dz *ℤ dz)

unfoldable pub horizontal_dist_sq : Pos3 → Pos3 → ℕ
horizontal_dist_sq p q = let dx = p.x -ℤ q.x in let dy = p.y -ℤ q.y in as_u64 (dx *ℤ dx +ℤ dy *ℤ dy)

unfoldable pub pos3_add : Pos3 → Pos3 → Pos3
pos3_add p q = record { x = add p.x q.x; y = add p.y q.y; z = add p.z q.z }

unfoldable pub pos3_sub : Pos3 → Pos3 → Pos3
pos3_sub p q = record { x = sub p.x q.x; y = sub p.y q.y; z = sub p.z q.z }

-- A column and a row, each a `u16`.
pub record CellCoord : Type 0 where
  pub x : ℕ
  pub y : ℕ

abs_diff : ℕ → ℕ → ℕ
abs_diff a b = if ltb a b then b - a else a - b

unfoldable pub chebyshev : CellCoord → CellCoord → ℕ
unfolding abs_diff
chebyshev c d =
    let dx = abs_diff c.x d.x in let dy = abs_diff c.y d.y in if ltb dy dx then dx else dy

unfoldable pub is_adjacent_move : CellCoord → CellCoord → Bool
unfolding abs_diff
is_adjacent_move c d = leb (abs_diff c.x d.x) 1 && leb (abs_diff c.y d.y) 1

-- A position in the world frame; each axis is an `i64`.
pub record WorldPos : Type 0 where
  pub x : ℤ
  pub y : ℤ
  pub z : ℤ

-- The products and sums are of `i64`: an `i32` times an `i32`, plus an `i32`, stays in range.
unfoldable pub from_local : Pos3 → Placement → Fixed → WorldPos
from_local at square region_size = record {
  x = square.col *ℤ region_size +ℤ at.x;
  y = square.row *ℤ region_size +ℤ at.y;
  z = at.z;
}

-- A raw world coordinate as a region coordinate, if it is an `i32`.
unfoldable pub fits : ℤ → Option Fixed
fits raw =
    if ltb_ℤ raw (negsuc (2 ^ 31 - 1)) || ltb_ℤ (pos (2 ^ 31 - 1)) raw then none else some raw

unfoldable pub all_fit : Option Fixed → Option Fixed → Option Fixed → Option Pos3
all_fit (some x) (some y) (some z) = some (record { x = x; y = y; z = z })
all_fit _ _ _ = none

-- The differences are of `i64`, and wrap.
unfoldable pub to_local : WorldPos → Placement → Fixed → Option Pos3
unfolding all_fit fits
to_local w square region_size =
    all_fit (fits (wrap64 (w.x -ℤ square.col *ℤ region_size)))
      (fits (wrap64 (w.y -ℤ square.row *ℤ region_size))) (fits w.z)

unfoldable pub from_unplaced : Pos3 → WorldPos
from_unplaced at = record { x = at.x; y = at.y; z = at.z }

unfoldable pub to_unplaced : WorldPos → Option Pos3
unfolding all_fit fits
to_unplaced w = all_fit (fits w.x) (fits w.y) (fits w.z)

unfoldable pub pos2_from_meters : ℤ → ℤ → Pos2
pos2_from_meters x y = record { x = from_meters x; y = from_meters y }

-- `Pos2::dist_sq`.
unfoldable pub pos2_dist_sq : Pos2 → Pos2 → ℕ
pos2_dist_sq p q = let dx = p.x -ℤ q.x in let dy = p.y -ℤ q.y in as_u64 (dx *ℤ dx +ℤ dy *ℤ dy)

unfoldable pub at_height : Pos2 → Fixed → Pos3
at_height p z = record { x = p.x; y = p.y; z = z }

-- `x << FIXED_SHIFT` of an `i64`, which drops the bits past the 64th.
unfoldable pub world_from_meters : ℤ → ℤ → ℤ → WorldPos
world_from_meters x y z = record {
  x = wrap64 (x *ℤ fixed_one);
  y = wrap64 (y *ℤ fixed_one);
  z = wrap64 (z *ℤ fixed_one);
}

unfoldable pub world_floor_meters : WorldPos → ℤ × ℤ × ℤ
unfolding floor_meters
world_floor_meters w = (floor_meters w.x, floor_meters w.y, floor_meters w.z)

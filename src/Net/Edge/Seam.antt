-- ===== src/Net/Edge/Seam.antt =====
-- seam.rs: the squares that an observer sees into, and where its shadow stands in one of them.
pub mod Sides
pub mod View
pub mod Shadow
use umwelt_rs.Base.{ℕ, ◌+◌, ◌-◌, Bool, ◌&&◌, Option, none, some, List, [], ◌∷◌, ◌++◌, if◌then◌else◌}
use umwelt_rs.Base.Int.{ℤ, pos, negsuc, ◌+ℤ◌, ◌-ℤ◌, ltb_ℤ, wrap32}
use umwelt_rs.Placement.{Placement}
use umwelt_rs.Pos.{Pos3, WorldPos, horizontal, to_local}
use umwelt_rs.Config.{WorldConfig, cell_of, clamp}

-- Whether the box of an axis reaches past its far end, and past its near one.
unfoldable pub past_last : WorldConfig → ℕ → Bool
past_last cfg c = ltb_ℤ (pos cfg.cells_per_axis -ℤ pos 1) (pos c +ℤ pos cfg.cell_radius)

unfoldable pub before_first : WorldConfig → ℕ → Bool
before_first cfg c = ltb_ℤ (pos c -ℤ pos cfg.cell_radius) (pos 0)

-- One `if ... { out.push(...) }`; the sums are of `i32`, and wrap.
unfoldable pub push_if : Bool → ℤ → ℤ → List Placement → List Placement
push_if b col row out = if b then out ++ record { col = wrap32 col; row = wrap32 row } ∷ [] else out

unfoldable pub squares_in_view : WorldConfig → Placement → Pos3 → List Placement
unfolding past_last before_first push_if
squares_in_view cfg square local =
    let c = cell_of cfg (horizontal local) in
    let east = past_last cfg c.x in
    let west = before_first cfg c.x in
    let north = past_last cfg c.y in
    let south = before_first cfg c.y in
    let col = square.col in
    let row = square.row in
    let out1 = push_if east (col +ℤ pos 1) row [] in
    let out2 = push_if west (col -ℤ pos 1) row out1 in
    let out3 = push_if north col (row +ℤ pos 1) out2 in
    let out4 = push_if south col (row -ℤ pos 1) out3 in
    let out5 = push_if (east && north) (col +ℤ pos 1) (row +ℤ pos 1) out4 in
    let out6 = push_if (east && south) (col +ℤ pos 1) (row -ℤ pos 1) out5 in
    let out7 = push_if (west && north) (col -ℤ pos 1) (row +ℤ pos 1) out6 in
    push_if (west && south) (col -ℤ pos 1) (row -ℤ pos 1) out7

-- `Option::map`.
unfoldable pub clamped : WorldConfig → Option Pos3 → Option Pos3
clamped cfg none = none
clamped cfg (some at) = some (clamp cfg at)

unfoldable pub shadow_point : WorldConfig → WorldPos → Placement → Option Pos3
unfolding clamped
shadow_point cfg owner neighbor = clamped cfg (to_local owner neighbor cfg.region_size)

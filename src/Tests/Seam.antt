-- ===== src/Tests/Seam.antt =====
-- seam.rs: an observer near the east side of its square.
use mathlib.Core.List.{Mem}
use umwelt_rs.Base.{◌≡◌, ◌≢◌, refl, ap, arith, true, some, [], ◌∷◌}
use umwelt_rs.Base.Int.{pos, ◌+ℤ◌, ◌-ℤ◌, ◌*ℤ◌}
use umwelt_rs.Placement.{Placement}
use umwelt_rs.Pos.{Pos3, horizontal, WorldPos, from_local, to_local, fits, all_fit}
use umwelt_rs.Pos.World.{IsWorldPos, IsFrame}
use umwelt_rs.Map.Wf.{IsSquare}
use umwelt_rs.Config.{contains, contains_2d, cell_of, clamp}
use umwelt_rs.Net.Edge.Seam.{
  squares_in_view, past_last, before_first, push_if, shadow_point, clamped,
}
use umwelt_rs.Net.Edge.Seam.View.{squares_in_view-Mem}
use umwelt_rs.Net.Edge.Seam.Shadow.{Nearest, shadow_point-Nearest}
use umwelt_rs.Tests.World.{world, world-IsValid}

abbrev home : Placement
home = record { col = pos 3; row = pos 3 }

abbrev east : Placement
east = record { col = pos 4; row = pos 3 }

east-IsSquare : IsSquare east
east-IsSquare = record {
  col_i32 = (omega arith, omega arith);
  row_i32 = (omega arith, omega arith);
}

apart : home ≢ east
apart e = cc (ap (λ (p : Placement). p.col) e)

-- A hundred meters west of the seam, and one east of it.
abbrev observer : Pos3
observer = record { x = pos 4091904; y = pos 2097152; z = pos 3072 }

abbrev beyond : Pos3
beyond = record { x = pos 102400; y = pos 2097152; z = pos 0 }

observer_inside : contains_2d world (record { x = observer.x; y = observer.y }) ≡ true
unfolding contains_2d
observer_inside = refl

beyond_inside : contains_2d world (record { x = beyond.x; y = beyond.y }) ≡ true
unfolding contains_2d
beyond_inside = refl

squares_observer : squares_in_view world home observer ≡ east ∷ []
unfolding squares_in_view past_last before_first push_if cell_of ◌+ℤ◌ ◌-ℤ◌ horizontal
squares_observer = refl

squares_in_view-Mem_example : Mem east (squares_in_view world home observer)
unfolding from_local ◌*ℤ◌ ◌+ℤ◌ horizontal
squares_in_view-Mem_example =
    squares_in_view-Mem world home east observer beyond world-IsValid (omega arith) east-IsSquare
      apart observer_inside beyond_inside (omega arith, omega arith) (omega arith, omega arith)

abbrev owner : WorldPos
owner = record { x = pos 16674816; y = pos 14680064; z = pos 3072 }

abbrev shadow : Pos3
shadow = record { x = pos 0; y = pos 2097152; z = pos 3072 }

shadow_point-owner : shadow_point world owner east ≡ some shadow
unfolding shadow_point clamped to_local fits all_fit ◌*ℤ◌ ◌+ℤ◌ ◌-ℤ◌ clamp
shadow_point-owner = refl

owner-IsWorldPos : IsWorldPos owner
owner-IsWorldPos = record {
  x_i64 = (omega arith, omega arith);
  y_i64 = (omega arith, omega arith);
  z_i64 = (omega arith, omega arith);
}

east-IsFrame : IsFrame east world.region_size
east-IsFrame = record {
  col_i32 = (omega arith, omega arith);
  row_i32 = (omega arith, omega arith);
  size_i32 = (omega arith, omega arith);
  size_pos = omega arith;
}

shadow_point-Nearest_example :
    (contains world shadow ≡ true)
    × ((q : Pos3)
        → contains world q ≡ true
        → Nearest owner
            (from_local shadow east world.region_size)
            (from_local q east world.region_size))
shadow_point-Nearest_example =
    shadow_point-Nearest world owner east shadow world-IsValid owner-IsWorldPos east-IsFrame
      shadow_point-owner

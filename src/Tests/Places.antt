-- ===== src/Tests/Places.antt =====
-- fixed.rs, pos.rs, map.rs: numbers, positions in the world, and a map of two regions side by side.
use umwelt_rs.Base.{◌≡◌, ◌↔◌, refl, arith, some, [], ◌∷◌}
use umwelt_rs.Base.Int.{pos, negsuc, ◌+ℤ◌, ◌-ℤ◌, ◌*ℤ◌}
use umwelt_rs.Base.Result.{ok}
use umwelt_rs.Base.Assoc.{lookup, insert}
use umwelt_rs.Placement.{Placement, Side, beside}
use umwelt_rs.Pos.{Pos3, WorldPos, from_local, to_local, fits, all_fit}
use umwelt_rs.Pos.World.{IsPos3, IsWorldPos, IsFrame, to_local_iff}
use umwelt_rs.Map.{
  WorldMap, new, place, placement_of, region_at, neighbor, locate, encode, decode, div_euclid,
  placement_eq,
}
use umwelt_rs.Map.Wf.{Built, empty, add, IsSquare, Built-Consistent, neighbor-sym}
use umwelt_rs.Map.Locate.{locate_sound, locate_complete, IsInBox}
use umwelt_rs.Map.RoundTrip.{decode-encode}

abbrev home : Placement
home = record { col = pos 0; row = pos 0 }

abbrev east_of : Placement
east_of = record { col = pos 1; row = pos 0 }

home-IsSquare : IsSquare home
home-IsSquare = record {
  col_i32 = (omega arith, omega arith);
  row_i32 = (omega arith, omega arith);
}

east-IsSquare : IsSquare east_of
east-IsSquare = record {
  col_i32 = (omega arith, omega arith);
  row_i32 = (omega arith, omega arith);
}

abbrev one : WorldMap
one = record { placements = (7, home) ∷ []; by_region = (7, home) ∷ []; by_square = (home, 7) ∷ [] }

abbrev two : WorldMap
two = record {
  placements = (7, home) ∷ (9, east_of) ∷ [];
  by_region = (7, home) ∷ (9, east_of) ∷ [];
  by_square = (home, 7) ∷ (east_of, 9) ∷ [];
}

placed_one : place new 7 home ≡ ok one
unfolding place lookup insert
placed_one = refl

placed_two : place one 9 east_of ≡ ok two
unfolding place lookup insert
placed_two = refl

two_built : Built two
two_built =
    add 9 east_of (omega arith) east-IsSquare
      (add 7 home (omega arith) home-IsSquare (empty refl) placed_one) placed_two

Built-Consistent_example : (placement_of two 9 ≡ some east_of) ↔ (region_at two east_of ≡ some 9)
Built-Consistent_example = Built-Consistent two_built 9 east_of

home_east : neighbor two 7 Side.east ≡ some 9
unfolding neighbor placement_of region_at lookup beside ◌+ℤ◌
home_east = refl

neighbor-sym_example : neighbor two 9 Side.west ≡ some 7
neighbor-sym_example = neighbor-sym two_built 7 9 Side.east home_east

decode-encode_example : decode (encode two) ≡ ok two
decode-encode_example = decode-encode two_built

abbrev local : Pos3
local = record { x = pos 100; y = pos 200; z = negsuc 3 }

local_pos : IsPos3 local
local_pos = record {
  x_i32 = (omega arith, omega arith);
  y_i32 = (omega arith, omega arith);
  z_i32 = (omega arith, omega arith);
}

abbrev at : WorldPos
at = record { x = pos 4194404; y = pos 200; z = negsuc 3 }

at_pos : IsWorldPos at
at_pos = record {
  x_i64 = (omega arith, omega arith);
  y_i64 = (omega arith, omega arith);
  z_i64 = (omega arith, omega arith);
}

frame : IsFrame east_of (pos 4194304)
frame = record {
  col_i32 = east-IsSquare.col_i32;
  row_i32 = east-IsSquare.row_i32;
  size_i32 = (omega arith, omega arith);
  size_pos = omega arith;
}

to_local_iff_example :
    (to_local at east_of (pos 4194304) ≡ some local)
    ↔ (IsPos3 local × (from_local local east_of (pos 4194304) ≡ at))
to_local_iff_example = to_local_iff at east_of (pos 4194304) local at_pos frame

placed_9 : placement_of two 9 ≡ some east_of
unfolding placement_of lookup
placed_9 = refl

box : IsInBox local 4194304
box = record {
  x_low = omega arith;
  x_high = omega arith;
  y_low = omega arith;
  y_high = omega arith;
}

located : locate two at (pos 4194304) ≡ some (9, local)
unfolding locate div_euclid fits to_local region_at lookup all_fit ◌*ℤ◌ ◌-ℤ◌
located = refl

locate_sound_example :
    (s : Placement) × (placement_of two 9 ≡ some s)
    × (from_local local s (pos 4194304) ≡ at)
    × IsPos3 local
    × IsInBox local 4194304
locate_sound_example =
    locate_sound at 4194304 9 local two_built at_pos (omega arith, omega arith) (omega arith)
      located

locate_complete_example :
    locate two (from_local local east_of (pos 4194304)) (pos 4194304) ≡ some (9, local)
locate_complete_example =
    locate_complete east_of 4194304 9 local two_built (omega arith, omega arith) (omega arith)
      placed_9 local_pos box

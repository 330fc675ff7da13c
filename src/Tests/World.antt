-- ===== src/Tests/World.antt =====
-- config.rs, subscription.rs: a region of 4096 m, seen 256 m far, twenty times a second.
use umwelt_rs.Base.{none, ◌≤◌, ◌≡◌, ◌↔◌, true, refl, arith}
use umwelt_rs.Base.Int.{pos, negsuc, ◌+ℤ◌, ◌*ℤ◌}
use umwelt_rs.Base.Bits.{is_power_of_two, trailing_zeros, div_ceil}
use umwelt_rs.Base.Result.{ok}
use umwelt_rs.Fixed.{from_meters}
use umwelt_rs.Pos.{Pos2, Pos3, CellCoord, chebyshev, is_adjacent_move}
use umwelt_rs.Config.{
  default_config, est_entities_in_view, WorldConfig, build, config_of, positive, cell_raw_of,
  move_of, derive, region_size_m, vertical_extent_m, horizontal_view_radius_m,
  max_horizontal_speed_m_per_sec, set_tick_hz, cell_of, contains_2d,
}
use umwelt_rs.Config.Valid.{authored, build-IsValid, IsValid, cells_per_region_wraps}
use umwelt_rs.Config.Cells.{IsCell}
use umwelt_rs.Subscription.{at_center, len, cells}
use umwelt_rs.Subscription.Coverage.{contains-at_center, at_center_covers_view, cell_of_adjacent}

abbrev pub world : WorldConfig
world = record {
  region_size = pos 4194304;
  vertical_extent = pos 1048576;
  cell_size = pos 131072;
  horizontal_view_radius = pos 262144;
  max_horizontal_speed = pos 40960;
  tick_hz = 20;
  horizontal_bits = 22;
  vertical_bits = 20;
  tick_ms = 50;
  max_move_per_tick = pos 2048;
  grid = record {
    cell_shift = 17;
    cell_mask = 131071;
    cells_per_axis = 32;
    cells_per_region = 1024;
    cell_radius = 2;
    sub_grid_axis = 5;
    sub_grid_cells = 25;
  };
}

pub world_built : build (authored (pos 4096) (pos 1024) (pos 256) (pos 40) 20) ≡ ok world
unfolding build positive config_of from_meters derive cell_raw_of move_of region_size_m
    vertical_extent_m horizontal_view_radius_m max_horizontal_speed_m_per_sec set_tick_hz ◌*ℤ◌
    is_power_of_two trailing_zeros div_ceil
world_built = refl

pub world-IsValid : IsValid world
world-IsValid = build-IsValid (pos 4096) (pos 1024) (pos 256) (pos 40) 20 world_built

build-IsValid_example : IsValid world
build-IsValid_example = build-IsValid (pos 4096) (pos 1024) (pos 256) (pos 40) 20 world_built

-- The largest grid: 65536 m in cells of one meter.
abbrev huge : WorldConfig
huge = record {
  region_size = pos 67108864;
  vertical_extent = pos 1048576;
  cell_size = pos 1024;
  horizontal_view_radius = pos 2048;
  max_horizontal_speed = pos 1024;
  tick_hz = 20;
  horizontal_bits = 26;
  vertical_bits = 20;
  tick_ms = 50;
  max_move_per_tick = pos 51;
  grid = record {
    cell_shift = 10;
    cell_mask = 1023;
    cells_per_axis = 65536;
    cells_per_region = 0;
    cell_radius = 2;
    sub_grid_axis = 5;
    sub_grid_cells = 25;
  };
}

huge_built : build (authored (pos 65536) (pos 1024) (pos 2) (pos 1) 20) ≡ ok huge
unfolding build positive config_of from_meters derive cell_raw_of move_of region_size_m
    vertical_extent_m horizontal_view_radius_m max_horizontal_speed_m_per_sec set_tick_hz ◌*ℤ◌
    is_power_of_two trailing_zeros div_ceil
huge_built = refl

huge-IsValid : IsValid huge
huge-IsValid = build-IsValid (pos 65536) (pos 1024) (pos 2) (pos 1) 20 huge_built

cells_per_region_wraps_example :
    (huge.cells_per_region ≡ 0) × (est_entities_in_view huge 500 ≡ none)
cells_per_region_wraps_example = cells_per_region_wraps huge 500 huge-IsValid (omega arith)

abbrev corner : CellCoord
corner = record { x = 31; y = 3 }

corner-IsCell : IsCell world corner
corner-IsCell = record { x_lt = omega arith; y_lt = omega arith }

abbrev here : Pos2
here = record { x = pos 131071; y = pos 4000000 }

abbrev there : Pos2
there = record { x = pos 131072; y = pos 3900000 }

abbrev next : Pos2
next = record { x = pos 133000; y = pos 4001000 }

here_inside : contains_2d world here ≡ true
unfolding contains_2d
here_inside = refl

there_inside : contains_2d world there ≡ true
unfolding contains_2d
there_inside = refl

next_inside : contains_2d world next ≡ true
unfolding contains_2d
next_inside = refl

abbrev outside : Pos3
outside = record { x = negsuc 4; y = pos 9999999; z = pos 77 }

abbrev near_corner : CellCoord
near_corner = record { x = 29; y = 5 }

contains-at_center_example :
    (umwelt_rs.Subscription.contains (at_center world corner) near_corner ≡ true)
    ↔ ((chebyshev corner near_corner ≤ 2) × IsCell world near_corner)
contains-at_center_example = contains-at_center world corner near_corner corner-IsCell

at_center_covers_view_example :
    umwelt_rs.Subscription.contains (at_center world (cell_of world here)) (cell_of world there)
    ≡ true
at_center_covers_view_example =
    at_center_covers_view world here there world-IsValid (omega arith) here_inside there_inside
      (unfold ◌+ℤ◌ in (omega arith, omega arith)) (unfold ◌+ℤ◌ in (omega arith, omega arith))

cell_of_adjacent_example : is_adjacent_move (cell_of world here) (cell_of world next) ≡ true
cell_of_adjacent_example =
    cell_of_adjacent world here next world-IsValid (omega arith) here_inside next_inside
      (unfold ◌+ℤ◌ in (omega arith, omega arith)) (unfold ◌+ℤ◌ in (omega arith, omega arith))

-- The default configuration builds.
default_config_builds : default_config ≡ ok world
unfolding default_config
default_config_builds = world_built

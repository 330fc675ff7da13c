-- ===== src/Config.antt =====
-- config.rs: the configuration of a world, the builder that checks it, and the grid of cells.
pub mod Valid
pub mod Cells
use Prim.Native.String.{String}
use Prim.Native.Nat.{bit_and, bit_xor}
use umwelt_rs.Base.{
  ℕ, zero, suc, ◌+◌, ◌-◌, ◌*◌, ◌/◌, ◌%◌, ◌^◌, Bool, true, false, ◌&&◌, ◌||◌, not, ltb, leb, ◌==◌,
  if◌then◌else◌, Option, none, some, min, max,
}
use umwelt_rs.Base.Int.{ℤ, pos, negsuc, ◌-ℤ◌, ltb_ℤ, leb_ℤ, as_u32, as_i32, pos_part}
use umwelt_rs.Base.Result.{Result, ok, err, ◌>>=◌, ◌>>◌, fail_if, ok_or}
use umwelt_rs.Base.Bits.{ilog2, is_power_of_two, trailing_zeros, div_ceil}
use umwelt_rs.Fixed.{Fixed, from_meters, fixed_shift}
use umwelt_rs.Pos.{Pos2, Pos3, CellCoord, horizontal}

abbrev pub max_cell_radius : ℕ
max_cell_radius = 4

pub data Axis : Type 0 where
  horizontal_axis vertical_axis : Axis

pub data ConfigError : Type 0 where
  non_positive : String → ConfigError
  extent_not_power_of_two : Axis → Fixed → ConfigError
  radius_exceeds_region : Fixed → Fixed → ConfigError
  speed_exceeds_cell_per_tick : Fixed → Fixed → ConfigError
  tick_rate_indivisible : ℕ → ConfigError
  missing : String → ConfigError

-- Everything a cell size implies. All are `u32` but `cell_mask`, an `i32` that is never negative.
pub record Grid : Type 0 where
  pub cell_shift : ℕ
  pub cell_mask : ℕ
  pub cells_per_axis : ℕ
  pub cells_per_region : ℕ
  pub cell_radius : ℕ
  pub sub_grid_axis : ℕ
  pub sub_grid_cells : ℕ

-- The configuration holds the fields of `Grid` as its own.
pub record WorldConfig : Type 0 where
  pub region_size : Fixed
  pub vertical_extent : Fixed
  pub cell_size : Fixed
  pub horizontal_view_radius : Fixed
  pub max_horizontal_speed : Fixed
  pub tick_hz : ℕ
  pub horizontal_bits : ℕ
  pub vertical_bits : ℕ
  pub tick_ms : ℕ
  pub max_move_per_tick : Fixed
  pub grid : Grid
  pub open grid use *

-- `Grid::derive`; the products are of `u32`, and wrap.
unfoldable pub derive : ℕ → ℕ → Fixed → Grid
derive region_raw cell_raw view_radius =
    let cells_per_axis = region_raw / cell_raw in
    let cell_radius = div_ceil (as_u32 view_radius) cell_raw in
    let sub_grid_axis = 2 * cell_radius + 1 in
    record {
      cell_shift = trailing_zeros cell_raw;
      cell_mask = cell_raw - 1;
      cells_per_axis = cells_per_axis;
      cells_per_region = cells_per_axis * cells_per_axis % 2 ^ 32;
      cell_radius = cell_radius;
      sub_grid_axis = sub_grid_axis;
      sub_grid_cells = sub_grid_axis * sub_grid_axis % 2 ^ 32;
    }

pub record WorldConfigBuilder : Type 0 where
  pub region_size : Option Fixed
  pub vertical_extent : Option Fixed
  pub horizontal_view_radius : Option Fixed
  pub max_horizontal_speed : Option Fixed
  pub tick_hz : Option ℕ

abbrev pub builder : WorldConfigBuilder
builder = record {
  region_size = none;
  vertical_extent = none;
  horizontal_view_radius = none;
  max_horizontal_speed = none;
  tick_hz = none;
}

unfoldable pub region_size_m : ℤ → WorldConfigBuilder → WorldConfigBuilder
region_size_m m b = record b { region_size = some (from_meters m) }

unfoldable pub vertical_extent_m : ℤ → WorldConfigBuilder → WorldConfigBuilder
vertical_extent_m m b = record b { vertical_extent = some (from_meters m) }

unfoldable pub horizontal_view_radius_m : ℤ → WorldConfigBuilder → WorldConfigBuilder
horizontal_view_radius_m m b = record b { horizontal_view_radius = some (from_meters m) }

unfoldable pub max_horizontal_speed_m_per_sec : ℤ → WorldConfigBuilder → WorldConfigBuilder
max_horizontal_speed_m_per_sec m b = record b { max_horizontal_speed = some (from_meters m) }

unfoldable pub set_tick_hz : ℕ → WorldConfigBuilder → WorldConfigBuilder
set_tick_hz hz b = record b { tick_hz = some hz }

unfoldable pub positive : Fixed → String → Result ConfigError (Unit {0})
positive v name = fail_if (leb_ℤ v (pos 0)) (non_positive name)

-- The edge of a cell, from the radius of the view.
unfoldable pub cell_raw_of : Fixed → ℕ
cell_raw_of view_radius = 2 ^ ilog2 (max (as_u32 view_radius / 2) 1)

-- `raw() / tick_hz as i32`, of a positive speed.
unfoldable pub move_of : Fixed → ℕ → Fixed
move_of speed tick_hz = pos (pos_part speed / tick_hz)

-- The value that `build` returns, when nothing is wrong with the five numbers.
unfoldable pub config_of : Fixed → Fixed → Fixed → Fixed → ℕ → WorldConfig
config_of region_size vertical_extent view_radius speed tick_hz = record {
  region_size = region_size;
  vertical_extent = vertical_extent;
  cell_size = as_i32 (cell_raw_of view_radius);
  horizontal_view_radius = view_radius;
  max_horizontal_speed = speed;
  tick_hz = tick_hz;
  horizontal_bits = trailing_zeros (as_u32 region_size);
  vertical_bits = trailing_zeros (as_u32 vertical_extent);
  tick_ms = 1000 / tick_hz;
  max_move_per_tick = move_of speed tick_hz;
  grid = derive (as_u32 region_size) (cell_raw_of view_radius) view_radius;
}

unfoldable pub build : WorldConfigBuilder → Result ConfigError WorldConfig
unfolding positive
build b = do
  region_size ← ok_or b.region_size (missing "region_size")
  vertical_extent ← ok_or b.vertical_extent (missing "vertical_extent")
  view_radius ← ok_or b.horizontal_view_radius (missing "horizontal_view_radius")
  speed ← ok_or b.max_horizontal_speed (missing "max_horizontal_speed")
  tick_hz ← ok_or b.tick_hz (missing "tick_hz")
  positive region_size "region_size"
  positive vertical_extent "vertical_extent"
  positive view_radius "horizontal_view_radius"
  positive speed "max_horizontal_speed"
  let cell_raw = cell_raw_of view_radius
  fail_if (not (is_power_of_two (as_u32 region_size)))
      (extent_not_power_of_two horizontal_axis region_size)
  fail_if (not (is_power_of_two (as_u32 vertical_extent)))
      (extent_not_power_of_two vertical_axis vertical_extent)
  fail_if (ltb_ℤ region_size view_radius) (radius_exceeds_region view_radius region_size)
  fail_if ((tick_hz == 0) || not ((1000 % tick_hz) == 0)) (tick_rate_indivisible tick_hz)
  fail_if (leb cell_raw (as_u32 (move_of speed tick_hz)))
      (speed_exceeds_cell_per_tick (move_of speed tick_hz) (as_i32 cell_raw))
  ok (config_of region_size vertical_extent view_radius speed tick_hz)

-- The cell index of one axis: clamped into the grid, then truncated to `u16`.
unfoldable pub axis_to_cell : WorldConfig → Fixed → ℕ
axis_to_cell cfg v =
    let raw = pos_part v in min (raw / 2 ^ cfg.cell_shift) (cfg.cells_per_axis - 1) % 2 ^ 16

-- `raw & cell_mask`, of the 32 bits.
unfoldable pub offset_in_cell : WorldConfig → Fixed → Fixed
offset_in_cell cfg v = as_i32 (bit_and (as_u32 v) cfg.cell_mask)

-- Nothing where the division panics.
unfoldable pub est_entities_in_view : WorldConfig → ℕ → Option ℕ
est_entities_in_view cfg entities_per_region =
    if cfg.cells_per_region == 0
    then none
    else some (entities_per_region / cfg.cells_per_region * cfg.sub_grid_cells % 2 ^ 32)

unfoldable pub cell_of : WorldConfig → Pos2 → CellCoord
unfolding axis_to_cell
cell_of cfg p = record { x = axis_to_cell cfg p.x; y = axis_to_cell cfg p.y }

-- Row-major, in `u32`.
unfoldable pub cell_id : WorldConfig → CellCoord → ℕ
cell_id cfg c = (c.y * cfg.cells_per_axis + c.x) % 2 ^ 32

unfoldable pub cell_coord : WorldConfig → ℕ → CellCoord
cell_coord cfg raw = record {
  x = raw % cfg.cells_per_axis % 2 ^ 16;
  y = raw / cfg.cells_per_axis % 2 ^ 16;
}

unfoldable pub contains_2d : WorldConfig → Pos2 → Bool
contains_2d cfg p =
    leb_ℤ (pos 0) p.x && leb_ℤ (pos 0) p.y && ltb_ℤ p.x cfg.region_size && ltb_ℤ p.y cfg.region_size

unfoldable pub contains : WorldConfig → Pos3 → Bool
unfolding contains_2d
contains cfg p =
    contains_2d cfg (horizontal p) && leb_ℤ (pos 0) p.z && ltb_ℤ p.z cfg.vertical_extent

unfoldable pub clamp_raw : ℤ → ℤ → ℤ
clamp_raw raw last = if ltb_ℤ raw (pos 0) then pos 0 else if ltb_ℤ last raw then last else raw

unfoldable pub clamp : WorldConfig → Pos3 → Pos3
unfolding clamp_raw
clamp cfg p =
    let side = cfg.region_size -ℤ pos 1 in
    let top = cfg.vertical_extent -ℤ pos 1 in
    record { x = clamp_raw p.x side; y = clamp_raw p.y side; z = clamp_raw p.z top }

-- FNV-1a over the four bytes of `v`, lowest first.
fnv_bytes : ℕ → ℕ → ℕ → ℕ
fnv_bytes zero h v = h
fnv_bytes (suc k) h v = fnv_bytes k (bit_xor h (v % 256) * 0x0000_0100_0000_01b3 % 2 ^ 64) (v / 256)

unfoldable pub fnv : ℕ → ℕ → ℕ
unfolding fnv_bytes
fnv h v = fnv_bytes 4 h v

unfoldable pub protocol_hash : WorldConfig → ℕ
unfolding fnv
protocol_hash cfg =
    let h0 : ℕ = 0xcbf2_9ce4_8422_2325 in
    let h1 = fnv h0 fixed_shift in
    let h2 = fnv h1 (as_u32 cfg.region_size) in
    let h3 = fnv h2 (as_u32 cfg.vertical_extent) in
    let h4 = fnv h3 (as_u32 cfg.cell_size) in
    let h5 = fnv h4 (as_u32 cfg.horizontal_view_radius) in
    let h6 = fnv h5 cfg.horizontal_bits in fnv h6 cfg.vertical_bits

-- `Default for WorldConfig`, before its `expect`.
unfoldable pub default_config : Result ConfigError WorldConfig
unfolding build
default_config = build (
    set_tick_hz 20 (
      max_horizontal_speed_m_per_sec (pos 40) (
        horizontal_view_radius_m (pos 256)
          (vertical_extent_m (pos 1024) (region_size_m (pos 4096) builder)))))

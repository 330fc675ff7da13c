-- ===== src/Config/Valid.antt =====
-- config.rs: what `build` checks, and what a configuration that it returns satisfies.
use umwelt_rs.Base.{
  none, zero, suc, ℕ, ◌+◌, ◌-◌, ◌*◌, ◌/◌, ◌%◌, ◌^◌, ◌≤◌, ◌<◌, ◌≡◌, true, arith, some, refl, max, ap,
  sym, ◌∙◌,
}
use umwelt_rs.Base.Int.{ℤ, pos, negsuc, ◌≤ℤ◌, as_u32, as_i32, pos_part, IsI32, as_i32-IsI32, ◌*ℤ◌}
use umwelt_rs.Base.Result.{ok}
use umwelt_rs.Base.Bits.{
  ilog2, is_power_of_two, trailing_zeros, div_ceil, ilog2_lem, is_power_of_two-pow,
  trailing_zeros-pow, div_ceil_lem, pow2_pos, pow2_lt_inv, pow2_le_inv, pow2_div, pow2_split,
}
use umwelt_rs.Fixed.{Fixed, from_meters, fixed_one}
use umwelt_rs.Config.{
  est_entities_in_view, WorldConfig, WorldConfigBuilder, build, config_of, cell_raw_of, move_of,
  derive, region_size_m, vertical_extent_m, horizontal_view_radius_m,
  max_horizontal_speed_m_per_sec, set_tick_hz, builder,
}

-- The checks that the five numbers of a builder pass.
record Checked (region vertical radius speed : Fixed) (hz : ℕ) : Type 0 where
  pub region_pos : pos 1 ≤ℤ region
  pub vertical_pos : pos 1 ≤ℤ vertical
  pub radius_pos : pos 1 ≤ℤ radius
  pub speed_pos : pos 1 ≤ℤ speed
  pub region_pow : is_power_of_two (as_u32 region) ≡ true
  pub vertical_pow : is_power_of_two (as_u32 vertical) ≡ true
  pub radius_le : radius ≤ℤ region
  pub hz_pos : 0 < hz
  pub hz_divides : 1000 % hz ≡ 0
  pub slow : as_u32 (move_of speed hz) < cell_raw_of radius

build-Checked :
    (r v h s : Fixed) (hz : ℕ) (cfg : WorldConfig)
    → build (record {
      region_size = some r;
      vertical_extent = some v;
      horizontal_view_radius = some h;
      max_horizontal_speed = some s;
      tick_hz = some hz;
    })
      ≡ ok cfg
    → Checked r v h s hz × (cfg ≡ config_of r v h s hz)
unfolding build
build-Checked r v h s hz cfg e = ground arith

-- What holds of every configuration that the builder lets through.
pub record IsValid (cfg : WorldConfig) : Type 0 where
  pub region_pow : cfg.region_size ≡ pos (2 ^ cfg.horizontal_bits)
  pub region_bits : cfg.horizontal_bits < 31
  pub vertical_pow : cfg.vertical_extent ≡ pos (2 ^ cfg.vertical_bits)
  pub vertical_bits : cfg.vertical_bits < 31
  pub cell_pow : cfg.cell_size ≡ pos (2 ^ cfg.cell_shift)
  pub cell_mask : cfg.cell_mask + 1 ≡ 2 ^ cfg.cell_shift
  pub cell_fits : cfg.cell_shift ≤ cfg.horizontal_bits
  pub cells : cfg.cells_per_axis * 2 ^ cfg.cell_shift ≡ 2 ^ cfg.horizontal_bits
  pub region_cells : cfg.cells_per_region ≡ cfg.cells_per_axis * cfg.cells_per_axis % 2 ^ 32
  pub radius_pos : pos 1 ≤ℤ cfg.horizontal_view_radius
  pub radius_covers : cfg.horizontal_view_radius ≤ℤ pos (cfg.cell_radius * 2 ^ cfg.cell_shift)
  pub radius_region : cfg.horizontal_view_radius ≤ℤ cfg.region_size
  pub radius_le : cfg.cell_radius ≤ 4
  pub sub_axis : cfg.sub_grid_axis ≡ 2 * cfg.cell_radius + 1
  pub sub_cells : cfg.sub_grid_cells ≡ cfg.sub_grid_axis * cfg.sub_grid_axis
  pub sub_cells_le : cfg.sub_grid_cells ≤ 81
  pub move_nonneg : pos 0 ≤ℤ cfg.max_move_per_tick
  pub move_lt : pos_part cfg.max_move_per_tick < 2 ^ cfg.cell_shift
  pub ticks : cfg.tick_ms * cfg.tick_hz ≡ 1000

-- A power of two that is a positive `i32`, by its exponent.
extent_pow :
    (n : ℕ)
    → 0 < n
    → n < 2 ^ 31
    → is_power_of_two n ≡ true
    → (n ≡ 2 ^ trailing_zeros n) × (trailing_zeros n < 31)
extent_pow n p h e =
    let q : n ≡ 2 ^ ilog2 n = is_power_of_two-pow n e in
    let k : ilog2 n < 31 = pow2_lt_inv (ilog2 n) 31 (omega arith) in
    let t : trailing_zeros n ≡ ilog2 n =
      ap trailing_zeros q ∙ trailing_zeros-pow (ilog2 n) (omega arith) in
    rw t (q, k)

-- The edge of a cell is a power of two, at most the radius and at least a quarter of it.
cell_raw_bounds :
    (h : ℕ)
    → 0 < h
    → h < 2 ^ 31
    → (cell_raw_of (pos h) ≡ 2 ^ trailing_zeros (cell_raw_of (pos h)))
      × (cell_raw_of (pos h) ≤ h)
      × (h ≤ 4 * cell_raw_of (pos h))
      × (trailing_zeros (cell_raw_of (pos h)) < 31)
unfolding cell_raw_of
cell_raw_bounds h p b =
    let m : ℕ = max (h % 2 ^ 32 / 2) 1 in
    let l = ilog2_lem m (omega arith) (omega arith) in
    let k : ilog2 m < 31 = pow2_lt_inv (ilog2 m) 31 (omega arith) in
    let t : trailing_zeros (2 ^ ilog2 m) ≡ ilog2 m = trailing_zeros-pow (ilog2 m) (omega arith) in
    (ap (λ (n : ℕ). 2 ^ n) (sym t), omega (arith, l.0, l.1), omega (arith, l.0, l.1), rw t k)

square_le : (r n : ℕ) → r ≤ 4 → n ≡ 2 * r + 1 → n * n ≤ 81
square_le r n h e = grind arith

hz_bound : (hz : ℕ) → 0 < hz → 1000 % hz ≡ 0 → 1000 / hz * hz ≡ 1000
hz_bound hz p e = grind arith

as_i32_small : (n : ℕ) → n < 2 ^ 31 → as_i32 n ≡ pos n
as_i32_small n h = ground arith

div_small : (s hz m : ℕ) → s < m → s / hz < m
div_small s zero m h = omega arith
div_small s (suc hz) m h = grind arith

cells : (cell k n r : ℕ) → cell ≡ 2 ^ k → r ≡ 2 ^ n → k ≤ n → r / cell * 2 ^ k ≡ 2 ^ n
cells cell k n r c e h = rw (c, e) (pow2_div n k h)

-- The axis of the subscription's grid, and its square, which no `u32` is too narrow for.
sub_grid :
    (r : ℕ)
    → r ≤ 4
    → ((2 * r + 1) * (2 * r + 1) % 2 ^ 32 ≡ (2 * r + 1) * (2 * r + 1))
      × ((2 * r + 1) * (2 * r + 1) % 2 ^ 32 ≤ 81)
sub_grid r h = let sq = square_le r (2 * r + 1) h refl in (omega arith, omega arith)

config_of-IsValid :
    (r v h s hz : ℕ)
    → r < 2 ^ 31
    → v < 2 ^ 31
    → h < 2 ^ 31
    → s < 2 ^ 31
    → Checked (pos r) (pos v) (pos h) (pos s) hz
    → IsValid (config_of (pos r) (pos v) (pos h) (pos s) hz)
unfolding config_of derive move_of
config_of-IsValid r v h s hz hr hv hh hs c =
    let r_mod : r % 2 ^ 32 ≡ r = omega arith in
    let v_mod : v % 2 ^ 32 ≡ v = omega arith in
    let h_mod : h % 2 ^ 32 ≡ h = omega arith in
    let (rp, rb) = extent_pow r (omega arith) hr (rw r_mod at c.region_pow) in
    let (vp, vb) = extent_pow v (omega arith) hv (rw v_mod at c.vertical_pow) in
    let (cp, cl, cg, cb) = cell_raw_bounds h (omega arith) hh in
    let cell : ℕ = cell_raw_of (pos h) in
    let cell_pos : 0 < cell = omega (arith, cp, pow2_pos (trailing_zeros cell)) in
    let up = div_ceil_lem h cell cell_pos in
    let fit : trailing_zeros cell ≤ trailing_zeros r =
      pow2_le_inv _ _ (omega (arith, cl, cp, rp, c.radius_le)) in
    let le4 : div_ceil h cell ≤ 4 = up.1 4 cg in
    record {
      region_pow = rw r_mod (ap pos rp);
      region_bits = rw r_mod rb;
      vertical_pow = rw v_mod (ap pos vp);
      vertical_bits = rw v_mod vb;
      cell_pow = as_i32_small cell (omega (arith, cl, hh)) ∙ ap pos cp;
      cell_mask = omega (arith, cp, cell_pos);
      cell_fits = rw r_mod fit;
      cells = rw r_mod (cells cell (trailing_zeros cell) (trailing_zeros r) r cp rp fit);
      region_cells = refl;
      radius_pos = c.radius_pos;
      radius_covers = omega (
        arith,
        ap (λ (n : ℕ). div_ceil h cell * n) cp,
        up.0,
        ap (λ (n : ℕ). div_ceil n cell * 2 ^ trailing_zeros cell) h_mod,
      );
      radius_region = c.radius_le;
      radius_le = rw h_mod le4;
      sub_axis = refl;
      sub_cells = rw h_mod (sub_grid _ le4).0;
      sub_cells_le = rw h_mod (sub_grid _ le4).1;
      move_nonneg = omega arith;
      move_lt = omega (arith, c.slow, cp, div_small s hz (2 ^ 32) (omega arith));
      ticks = hz_bound hz c.hz_pos c.hz_divides;
    }

-- The builder as every caller in the library fills it: four lengths in meters, and a rate.
abbrev pub authored : ℤ → ℤ → ℤ → ℤ → ℕ → WorldConfigBuilder
authored region vertical radius speed hz = set_tick_hz hz (
    max_horizontal_speed_m_per_sec speed
      (horizontal_view_radius_m radius (vertical_extent_m vertical (region_size_m region builder))))

IsValid-of_Checked :
    (r v h s : Fixed) (hz : ℕ)
    → IsI32 r
    → IsI32 v
    → IsI32 h
    → IsI32 s
    → Checked r v h s hz
    → IsValid (config_of r v h s hz)
IsValid-of_Checked (pos r) (pos v) (pos h) (pos s) hz hr hv hh hs c =
    config_of-IsValid r v h s hz (omega arith) (omega arith) (omega arith) (omega arith) c
IsValid-of_Checked (negsuc r) v h s hz hr hv hh hs c = absurd (omega (arith, c.region_pos))
IsValid-of_Checked r (negsuc v) h s hz hr hv hh hs c = absurd (omega (arith, c.vertical_pos))
IsValid-of_Checked r v (negsuc h) s hz hr hv hh hs c = absurd (omega (arith, c.radius_pos))
IsValid-of_Checked r v h (negsuc s) hz hr hv hh hs c = absurd (omega (arith, c.speed_pos))

from_meters-IsI32 : (m : ℤ) → IsI32 (from_meters m)
unfolding from_meters
from_meters-IsI32 m = as_i32-IsI32 (as_u32 (m *ℤ fixed_one))

pub build-fields :
    (region vertical radius speed : ℤ) (hz : ℕ) (cfg : WorldConfig)
    → build (authored region vertical radius speed hz) ≡ ok cfg
    → cfg
      ≡ config_of
          (from_meters region)
          (from_meters vertical)
          (from_meters radius)
          (from_meters speed)
          hz
unfolding region_size_m vertical_extent_m horizontal_view_radius_m max_horizontal_speed_m_per_sec
    set_tick_hz
build-fields r v h s hz cfg e =
    (build-Checked (from_meters r) (from_meters v) (from_meters h) (from_meters s) hz cfg e).1

-- Whatever five numbers the builder is given, a configuration that build returns is valid: its
-- extents and cells are powers of two, the cells tile the region, the view takes at most four
-- cells each way, nothing moves a whole cell in a tick, the ticks fill the second.
pub build-IsValid :
    (region vertical radius speed : ℤ) (hz : ℕ) {cfg : WorldConfig}
    → build (authored region vertical radius speed hz) ≡ ok cfg
    → IsValid cfg
unfolding region_size_m vertical_extent_m horizontal_view_radius_m max_horizontal_speed_m_per_sec
    set_tick_hz
build-IsValid r v h s hz {cfg} e =
    let (c, q) =
      build-Checked (from_meters r) (from_meters v) (from_meters h) (from_meters s) hz cfg e in
    rw q (
      IsValid-of_Checked _ _ _ _ hz (from_meters-IsI32 r) (from_meters-IsI32 v)
        (from_meters-IsI32 h) (from_meters-IsI32 s) c)

cancel : (a b m : ℕ) → 0 < m → a * m ≡ b * m → a ≡ b
cancel a b m p e = grind arith

pub cells-pow :
    (cfg : WorldConfig)
    → IsValid cfg
    → cfg.cells_per_axis ≡ 2 ^ (cfg.horizontal_bits - cfg.cell_shift)
cells-pow cfg v =
    cancel _ _ (2 ^ cfg.cell_shift) (pow2_pos cfg.cell_shift)
      (v.cells ∙ pow2_split cfg.horizontal_bits cfg.cell_shift v.cell_fits)

square_wraps : (n x : ℕ) → n ≡ x * 2 ^ 16 → n * n % 2 ^ 32 ≡ 0
square_wraps n x e = rw e (omega arith)

-- In a valid configuration with 2^16 cells per axis or more, the number of cells of the region has
-- wrapped to 0, and the estimate of the entities in view divides by it.
pub cells_per_region_wraps :
    (cfg : WorldConfig) (entities : ℕ)
    → IsValid cfg
    → 2 ^ 16 ≤ cfg.cells_per_axis
    → (cfg.cells_per_region ≡ 0) × (est_entities_in_view cfg entities ≡ none)
unfolding est_entities_in_view
cells_per_region_wraps cfg n v h =
    let d : ℕ = cfg.horizontal_bits - cfg.cell_shift in
    let e : cfg.cells_per_axis ≡ 2 ^ d = cells-pow cfg v in
    let k : 16 ≤ d = pow2_le_inv 16 d (omega (arith, e)) in
    let zero_cells : cfg.cells_per_region ≡ 0 =
      v.region_cells ∙ square_wraps _ (2 ^ (d - 16)) (e ∙ pow2_split d 16 k) in
    (zero_cells, rw zero_cells refl)

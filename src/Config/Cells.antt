-- ===== src/Config/Cells.antt =====
-- config.rs: positions, cells and their numbers.
use umwelt_rs.Base.{
  ◌∙◌, ◌-◌, ℕ, ◌+◌, ◌*◌, ◌/◌, ◌%◌, ◌^◌, ◌≤◌, ◌<◌, ◌≡◌, ◌↔◌, Bool, true, ◌&&◌, arith, ap,
}
use umwelt_rs.Base.Int.{as_i32, ℤ, pos, negsuc, ◌≤ℤ◌, ◌<ℤ◌, ltb_ℤ, leb_ℤ, pos_part, neg_part, ◌-ℤ◌}
use umwelt_rs.Base.Masks.{bit_and-mask}
use Prim.Native.Nat.{bit_and}
use umwelt_rs.Base.Bits.{pow2_mono, pow2_pos}
use umwelt_rs.Pos.{Pos2, Pos3, CellCoord, horizontal}
use umwelt_rs.Config.{
  offset_in_cell, WorldConfig, axis_to_cell, cell_of, cell_id, cell_coord, contains_2d, contains,
  clamp, clamp_raw,
}
use umwelt_rs.Config.Valid.{IsValid}

-- A cell of the region's grid.
pub record IsCell (cfg : WorldConfig) (c : CellCoord) : Type 0 where
  pub x_lt : c.x < cfg.cells_per_axis
  pub y_lt : c.y < cfg.cells_per_axis

-- The number of cells on an axis that a `u16` can count.
abbrev pub FitsU16 : WorldConfig → Type 0
FitsU16 cfg = cfg.cells_per_axis ≤ 2 ^ 16

-- A horizontal position of the region.
pub record IsInside (cfg : WorldConfig) (p : Pos2) : Type 0 where
  pub x_low : pos 0 ≤ℤ p.x
  pub y_low : pos 0 ≤ℤ p.y
  pub x_high : p.x <ℤ cfg.region_size
  pub y_high : p.y <ℤ cfg.region_size

pub contains_2d-IsInside :
    (cfg : WorldConfig) (p : Pos2) → contains_2d cfg p ≡ true → IsInside cfg p
unfolding contains_2d
contains_2d-IsInside cfg p h = ground arith

pub id_div : (x y n : ℕ) → x < n → (y * n + x) / n ≡ y
id_div x y n h = grind arith

pub id_mod : (x y n : ℕ) → x < n → (y * n + x) % n ≡ x
id_mod x y n h = grind arith

id_lt : (x y n m : ℕ) → x < n → y < n → n ≤ m → y * n + x < m * m
id_lt x y n m h k l = grind arith

-- Where the cells per axis fit a u16, the number of a cell of the grid gives back the cell.
pub cell_coord-cell_id :
    (cfg : WorldConfig) (c : CellCoord)
    → FitsU16 cfg
    → IsCell cfg c
    → cell_coord cfg (cell_id cfg c) ≡ c
unfolding cell_coord cell_id
cell_coord-cell_id cfg c f h =
    let small = id_lt c.x c.y cfg.cells_per_axis (2 ^ 16) h.x_lt h.y_lt f in
    let whole : (c.y * cfg.cells_per_axis + c.x) % 2 ^ 32 ≡ c.y * cfg.cells_per_axis + c.x =
      omega (arith, small) in
    let x_mod : c.x % 2 ^ 16 ≡ c.x = omega (arith, h.x_lt) in
    let y_mod : c.y % 2 ^ 16 ≡ c.y = omega (arith, h.y_lt) in
    rw (whole, id_mod c.x c.y _ h.x_lt, id_div c.x c.y _ h.x_lt, x_mod, y_mod)

in_grid :
    (cfg : WorldConfig) (n : ℕ)
    → IsValid cfg
    → pos n <ℤ cfg.region_size
    → n < cfg.cells_per_axis * 2 ^ cfg.cell_shift
in_grid cfg n v h = omega (arith, v.cells, ap pos_part v.region_pow, ap neg_part v.region_pow)

-- The cell index of a coordinate `n` of the region.
axis_cell : (m k n : ℕ) → 0 < m → n < k * m → (n / m < k) × (n / m * m ≤ n) × (n < (n / m + 1) * m)
axis_cell m k n p h = (grind arith, grind arith, grind arith)

pub axis_to_cell_lem :
    (cfg : WorldConfig) (n : ℕ)
    → IsValid cfg
    → FitsU16 cfg
    → pos n <ℤ cfg.region_size
    → axis_to_cell cfg (pos n) ≡ n / 2 ^ cfg.cell_shift
unfolding axis_to_cell
axis_to_cell_lem cfg n v f h =
    let b =
      axis_cell (2 ^ cfg.cell_shift) cfg.cells_per_axis n (pow2_pos cfg.cell_shift)
        (in_grid cfg n v h) in
    omega (arith, b.0)

-- The cell of an axis holds the coordinate.
abbrev pub Holds : WorldConfig → ℕ → ℤ → Type 0
Holds cfg i a = (pos (i * 2 ^ cfg.cell_shift) ≤ℤ a) × (a <ℤ pos ((i + 1) * 2 ^ cfg.cell_shift))

axis-Holds :
    (cfg : WorldConfig) (a : ℤ)
    → IsValid cfg
    → FitsU16 cfg
    → pos 0 ≤ℤ a
    → a <ℤ cfg.region_size
    → (axis_to_cell cfg a < cfg.cells_per_axis) × Holds cfg (axis_to_cell cfg a) a
axis-Holds cfg (negsuc n) v f l h = absurd (omega arith)
axis-Holds cfg (pos n) v f l h =
    let b =
      axis_cell (2 ^ cfg.cell_shift) cfg.cells_per_axis n (pow2_pos cfg.cell_shift)
        (in_grid cfg n v h) in
    rw (axis_to_cell_lem cfg n v f h) (b.0, (omega (arith, b.1), omega (arith, b.2)))

-- In a valid configuration whose cells per axis fit a u16, cell_of puts a position of the region
-- in a cell of the grid whose extent holds the position.
pub cell_of-Holds :
    (cfg : WorldConfig) (p : Pos2)
    → IsValid cfg
    → FitsU16 cfg
    → contains_2d cfg p ≡ true
    → IsCell cfg (cell_of cfg p) × Holds cfg (cell_of cfg p).x p.x × Holds cfg (cell_of cfg p).y p.y
unfolding cell_of
cell_of-Holds cfg p v f h =
    let i = contains_2d-IsInside cfg p h in
    let (xl, xh) = axis-Holds cfg p.x v f i.x_low i.x_high in
    let (yl, yh) = axis-Holds cfg p.y v f i.y_low i.y_high in
    (record { x_lt = xl; y_lt = yl }, xh, yh)

pub all_true :
    (a b c d e f : Bool)
    → (((a && b && c && d) && e && f) ≡ true)
    → (a ≡ true) × (b ≡ true) × (c ≡ true) × (d ≡ true) × (e ≡ true) × (f ≡ true)
all_true a b c d e f h = ground arith

-- What `clamp_raw` does to one axis of extent `e`.
pub record Clamped (e a c : ℤ) : Type 0 where
  pub low : leb_ℤ (pos 0) c ≡ true
  pub high : ltb_ℤ c e ≡ true
  pub same : leb_ℤ (pos 0) a ≡ true → ltb_ℤ a e ≡ true → c ≡ a

clamp_raw-Clamped : (a e : ℤ) (m : ℕ) → e ≡ pos m → 0 < m → Clamped e a (clamp_raw a (e -ℤ pos 1))
unfolding clamp_raw ◌-ℤ◌
clamp_raw-Clamped a e m q p =
    rw q (record { low = ground arith; high = ground arith; same = ground arith })

contains_same :
    (cfg : WorldConfig) (p q : Pos3) → contains cfg p ≡ true → p ≡ q → contains cfg q ≡ true
contains_same cfg p q h e = rw e at h

-- In a valid configuration, clamp lands in the region, and leaves exactly the positions that are
-- in it.
pub clamp-contains :
    (cfg : WorldConfig) (p : Pos3)
    → IsValid cfg
    → (contains cfg (clamp cfg p) ≡ true) × ((contains cfg p ≡ true) ↔ (clamp cfg p ≡ p))
unfolding contains clamp horizontal
clamp-contains cfg p v = (inside, (stay, λ e. contains_same cfg _ p inside e))
  where
    x : Clamped cfg.region_size p.x (clamp_raw p.x (cfg.region_size -ℤ pos 1))
    x = clamp_raw-Clamped p.x _ _ v.region_pow (pow2_pos cfg.horizontal_bits)

    y : Clamped cfg.region_size p.y (clamp_raw p.y (cfg.region_size -ℤ pos 1))
    y = clamp_raw-Clamped p.y _ _ v.region_pow (pow2_pos cfg.horizontal_bits)

    z : Clamped cfg.vertical_extent p.z (clamp_raw p.z (cfg.vertical_extent -ℤ pos 1))
    z = clamp_raw-Clamped p.z _ _ v.vertical_pow (pow2_pos cfg.vertical_bits)

    inside : contains cfg (clamp cfg p) ≡ true
    inside = simp (x.low, x.high, y.low, y.high, z.low, z.high)

    stay : contains cfg p ≡ true → clamp cfg p ≡ p
    stay h =
        let (xl, yl, xh, yh, zl, zh) = all_true _ _ _ _ _ _ h in
        λ i. record { x = x.same xl xh i; y = y.same yl yh i; z = z.same zl zh i }

whole_of : (n m : ℕ) → n ≡ n / m * m + n % m
whole_of n m = grind arith

rest_lt : (n m : ℕ) → 0 < m → n % m < m
rest_lt n m h = grind arith

as_i32_small : (n : ℕ) → n < 2 ^ 31 → as_i32 n ≡ pos n
as_i32_small n h = ground arith

-- In a valid configuration whose cells per axis fit a u16, a coordinate of the region is the low
-- edge of its cell plus its offset in the cell, which is less than a cell.
pub axis_to_cell-offset_in_cell :
    (cfg : WorldConfig) (n : ℕ)
    → IsValid cfg
    → FitsU16 cfg
    → pos n <ℤ cfg.region_size
    → (axis_to_cell cfg (pos n) * 2 ^ cfg.cell_shift + pos_part (offset_in_cell cfg (pos n)) ≡ n)
      × (offset_in_cell cfg (pos n) <ℤ pos (2 ^ cfg.cell_shift))
      × (pos 0 ≤ℤ offset_in_cell cfg (pos n))
unfolding offset_in_cell
axis_to_cell-offset_in_cell cfg n v f h =
    let top : 2 ^ cfg.horizontal_bits ≤ 2 ^ 30 =
      pow2_mono cfg.horizontal_bits 30 (omega (arith, v.region_bits)) in
    let small : n < 2 ^ 31 =
      omega (arith, top, ap pos_part v.region_pow, ap neg_part v.region_pow) in
    let raw : n % 2 ^ 32 ≡ n = omega (arith, small) in
    let mask : cfg.cell_mask ≡ 2 ^ cfg.cell_shift - 1 = omega (arith, v.cell_mask) in
    let parts = whole_of n (2 ^ cfg.cell_shift) in
    let low = rest_lt n (2 ^ cfg.cell_shift) (pow2_pos cfg.cell_shift) in
    let offset : as_i32 (bit_and (n % 2 ^ 32) cfg.cell_mask) ≡ pos (n % 2 ^ cfg.cell_shift) =
      ap (λ (k : ℕ). as_i32 (bit_and k cfg.cell_mask)) raw
      ∙ ap (λ (k : ℕ). as_i32 (bit_and n k)) mask
      ∙ ap as_i32 (bit_and-mask n cfg.cell_shift)
      ∙ as_i32_small (n % 2 ^ cfg.cell_shift) (omega (arith, small, parts)) in
    rw (offset, axis_to_cell_lem cfg n v f h)
      (omega (arith, parts), omega (arith, low), omega arith)

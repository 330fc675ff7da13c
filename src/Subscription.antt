-- ===== src/Subscription.antt =====
-- subscription.rs: the box of cells that a viewer draws from.
pub mod Coverage
pub mod Cells
use umwelt_rs.Base.{
  ℕ, zero, suc, ◌+◌, ◌-◌, ◌%◌, ◌^◌, Bool, ◌&&◌, ◌||◌, if◌then◌else◌, List, [], ◌∷◌, ◌++◌, map,
}
use umwelt_rs.Base.Int.{ℤ, pos, ◌+ℤ◌, ◌-ℤ◌, ◌*ℤ◌, ltb_ℤ, leb_ℤ, wrap32, as_u64, as_u32, pos_part}
use umwelt_rs.Pos.{CellCoord}
use umwelt_rs.Config.{WorldConfig}

-- The edges in cells, inclusive; each is an `i32`.
pub record Subscription : Type 0 where
  pub x0 : ℤ
  pub x1 : ℤ
  pub y0 : ℤ
  pub y1 : ℤ

abbrev pub max_ℤ : ℤ → ℤ → ℤ
max_ℤ a b = if ltb_ℤ a b then b else a

abbrev pub min_ℤ : ℤ → ℤ → ℤ
min_ℤ a b = if ltb_ℤ b a then b else a

-- The product is of `i32`, and is read as `usize`.
unfoldable pub len : Subscription → ℕ
len s = as_u64 (wrap32 ((s.x1 -ℤ s.x0 +ℤ pos 1) *ℤ (s.y1 -ℤ s.y0 +ℤ pos 1)))

unfoldable pub is_empty : Subscription → Bool
is_empty s = ltb_ℤ s.x1 s.x0 || ltb_ℤ s.y1 s.y0

unfoldable pub contains : Subscription → CellCoord → Bool
contains s c =
    leb_ℤ s.x0 (pos c.x) && leb_ℤ (pos c.x) s.x1 && leb_ℤ s.y0 (pos c.y) && leb_ℤ (pos c.y) s.y1

-- `n` integers from `a` on.
unfoldable pub count_from : ℕ → ℤ → List ℤ
count_from zero a = []
count_from (suc n) a = a ∷ count_from n (a +ℤ pos 1)

-- The range `a..=b`.
unfoldable pub range_inclusive : ℤ → ℤ → List ℤ
unfolding count_from
range_inclusive a b = count_from (pos_part (b -ℤ a +ℤ pos 1)) a

-- The cells of one row, each index truncated to `u16`.
unfoldable pub row : List ℤ → ℤ → List CellCoord
row xs y = map (λ x. record { x = as_u32 x % 2 ^ 16; y = as_u32 y % 2 ^ 16 }) xs

unfoldable pub rows : List ℤ → List ℤ → List CellCoord
rows xs [] = []
rows xs (y ∷ ys) = row xs y ++ rows xs ys

unfoldable pub cells : Subscription → List CellCoord
unfolding rows row range_inclusive
cells s = rows (range_inclusive s.x0 s.x1) (range_inclusive s.y0 s.y1)

-- Without the casts of the radius and the cells to `i32`, which change nothing below 2 ^ 31.
unfoldable pub at_center : WorldConfig → CellCoord → Subscription
at_center cfg center =
    let radius = pos cfg.cell_radius in
    let last = pos cfg.cells_per_axis -ℤ pos 1 in
    record {
      x0 = max_ℤ (pos center.x -ℤ radius) (pos 0);
      x1 = min_ℤ (pos center.x +ℤ radius) last;
      y0 = max_ℤ (pos center.y -ℤ radius) (pos 0);
      y1 = min_ℤ (pos center.y +ℤ radius) last;
    }

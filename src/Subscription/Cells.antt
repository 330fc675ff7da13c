-- ===== src/Subscription/Cells.antt =====
-- subscription.rs: the list of cells and its length.
use umwelt_rs.Base.{
  ℕ, zero, suc, ◌+◌, ◌-◌, ◌*◌, ◌^◌, ◌≤◌, ◌<◌, min, ◌≡◌, List, [], ◌∷◌, length, length-append, arith,
  ap, ◌∙◌, refl, sym,
}
use native.Mathlib.Nat.{mul_comm}
use umwelt_rs.Base.Int.{ℤ, pos, ◌+ℤ◌, ◌-ℤ◌, ◌*ℤ◌, as_u64, wrap32, pos_part}
use umwelt_rs.Pos.{CellCoord}
use umwelt_rs.Config.{WorldConfig}
use umwelt_rs.Config.Valid.{IsValid}
use umwelt_rs.Config.Cells.{IsCell}
use umwelt_rs.Subscription.{
  Subscription, len, cells, rows, row, range_inclusive, count_from, at_center, max_ℤ, min_ℤ,
}

length-count_from : (n : ℕ) (a : ℤ) → length (count_from n a) ≡ n
unfolding count_from
length-count_from zero a = refl
length-count_from (suc n) a = ap suc (length-count_from n (a +ℤ pos 1))

length-row : (xs : List ℤ) (y : ℤ) → length (row xs y) ≡ length xs
unfolding row
length-row [] y = refl
length-row (x ∷ xs) y = ap suc (length-row xs y)

length-rows : (xs ys : List ℤ) → length (rows xs ys) ≡ length ys * length xs
unfolding rows
length-rows xs [] = omega arith
length-rows xs (y ∷ ys) =
    length-append (row xs y) (rows xs ys) ∙ omega (arith, length-row xs y, length-rows xs ys)

-- The width of one axis of the box.
abbrev width : ℤ → ℤ → ℕ
width a b = pos_part (b -ℤ a +ℤ pos 1)

product : (a b c d : ℕ) → a ≡ c → b ≡ d → a * b ≡ c * d
product a b c d p q = cc

length-cells : (s : Subscription) → length (cells s) ≡ width s.y0 s.y1 * width s.x0 s.x1
unfolding cells range_inclusive
length-cells s =
    length-rows (range_inclusive s.x0 s.x1) (range_inclusive s.y0 s.y1)
    ∙ product _ _ _ _ (length-count_from (width s.y0 s.y1) s.y0)
        (length-count_from (width s.x0 s.x1) s.x0)

-- One axis of the box around a cell of the grid: between one cell and the whole sub-grid.
clip_width :
    (c r n : ℕ)
    → c < n
    → r ≤ 4
    → (w : ℕ) × (min_ℤ (pos c +ℤ pos r) (pos n -ℤ pos 1) -ℤ max_ℤ (pos c -ℤ pos r) (pos 0) +ℤ pos 1
        ≡ pos w)
      × (1 ≤ w)
      × (w ≤ 2 * r + 1)
unfolding ◌+ℤ◌ ◌-ℤ◌
clip_width c r n h k = (min (c + r) (n - 1) + 1 - (c - r), ground arith, ground arith, ground arith)

*ℤ_pos : (a b : ℕ) → pos a *ℤ pos b ≡ pos (a * b)
unfolding ◌*ℤ◌
*ℤ_pos a b = ground arith

as_usize : (n : ℕ) → n < 2 ^ 31 → as_u64 (wrap32 (pos n)) ≡ n
as_usize n h = ground arith

mul_between : (x y g : ℕ) → 1 ≤ x → 1 ≤ y → x ≤ g → y ≤ g → (1 ≤ x * y) × (x * y ≤ g * g)
mul_between x y g hx hy gx gy = (grind arith, grind arith)

square_81 : (g : ℕ) → g ≤ 9 → g * g ≤ 81
square_81 g h = grind arith

len_of :
    (x y g : ℕ) (a b : ℤ)
    → a ≡ pos x
    → b ≡ pos y
    → 1 ≤ x
    → 1 ≤ y
    → x ≤ g
    → y ≤ g
    → g ≤ 9
    → (as_u64 (wrap32 (a *ℤ b)) ≡ x * y) × (1 ≤ x * y) × (x * y ≤ g * g)
len_of x y g a b p q hx hy gx gy g9 =
    let (lo, hi) = mul_between x y g hx hy gx gy in
    (rw (p, q, *ℤ_pos x y) (as_usize (x * y) (omega (arith, square_81 g g9, hi))), lo, hi)

-- In a valid configuration the box around a cell of the grid lists len cells, at least one and at
-- most sub_grid_cells.
pub len-at_center :
    (cfg : WorldConfig) (c : CellCoord)
    → IsValid cfg
    → IsCell cfg c
    → let s = at_center cfg c in
      (length (cells s) ≡ len s) × (1 ≤ len s) × (len s ≤ cfg.sub_grid_cells)
unfolding len at_center
len-at_center cfg c v h =
    let (x, px, lx, ux) = clip_width c.x cfg.cell_radius cfg.cells_per_axis h.x_lt v.radius_le in
    let (y, py, ly, uy) = clip_width c.y cfg.cell_radius cfg.cells_per_axis h.y_lt v.radius_le in
    let (e, lo, hi) =
      len_of x y (2 * cfg.cell_radius + 1) _ _ px py lx ly ux uy (omega (arith, v.radius_le)) in
    let n = length-cells (at_center cfg c) in
    (
      n ∙ product _ _ _ _ (ap pos_part py) (ap pos_part px) ∙ mul_comm y x ∙ sym e,
      rw e lo,
      rw (e, v.sub_cells, v.sub_axis) hi,
    )

-- ===== src/Subscription/Coverage.antt =====
-- subscription.rs: what the box covers.
use umwelt_rs.Base.{ℕ, ◌+◌, ◌*◌, ◌^◌, ◌≤◌, ◌<◌, ◌≡◌, Bool, true, ◌&&◌, ◌↔◌, arith}
use umwelt_rs.Base.Int.{ℤ, pos, negsuc, ◌+ℤ◌, ◌-ℤ◌, ◌≤ℤ◌, ◌<ℤ◌, leb_ℤ, pos_part, +ℤ_parts}
use native.Mathlib.Decide.{dec_lt}
use umwelt_rs.Pos.{CellCoord, Pos2, chebyshev, is_adjacent_move}
use umwelt_rs.Config.{WorldConfig, cell_of, contains_2d}
use umwelt_rs.Config.Valid.{IsValid}
use umwelt_rs.Config.Cells.{IsCell, FitsU16, Holds, cell_of-Holds}
use umwelt_rs.Subscription.{contains, at_center, max_ℤ, min_ℤ}

-- One axis of the box: clipping at 0 and at the last cell of `n`.
clip :
    (c r n d : ℕ)
    → 0 < n
    → ((d ≤ c + r) × (c ≤ d + r) × (d < n)) ↔ (
        (leb_ℤ (max_ℤ (pos c -ℤ pos r) (pos 0)) (pos d) ≡ true)
        × (leb_ℤ (pos d) (min_ℤ (pos c +ℤ pos r) (pos n -ℤ pos 1)) ≡ true))
unfolding ◌+ℤ◌ ◌-ℤ◌
clip c r n d h = ground arith

all_true :
    (a b c d : Bool)
    → ((a && b && c && d) ≡ true)
    → (a ≡ true) × (b ≡ true) × (c ≡ true) × (d ≡ true)
all_true a b c d h = ground arith

chebyshev_le :
    (c d : CellCoord) (r : ℕ)
    → (chebyshev c d ≤ r) ↔ ((d.x ≤ c.x + r) × (c.x ≤ d.x + r) × (d.y ≤ c.y + r) × (c.y ≤ d.y + r))
unfolding chebyshev
chebyshev_le c d r = ground arith

-- The box around a cell of the grid holds exactly the cells of the grid that are at most
-- cell_radius steps away.
pub contains-at_center :
    (cfg : WorldConfig) (c d : CellCoord)
    → IsCell cfg c
    → (contains (at_center cfg c) d ≡ true) ↔ ((chebyshev c d ≤ cfg.cell_radius) × IsCell cfg d)
unfolding contains at_center
contains-at_center cfg c d h =
    let x = clip c.x cfg.cell_radius cfg.cells_per_axis d.x (omega (arith, h.x_lt)) in
    let y = clip c.y cfg.cell_radius cfg.cells_per_axis d.y (omega (arith, h.y_lt)) in
    let near = chebyshev_le c d cfg.cell_radius in
    (
      λ e.
          let (x0, x1, y0, y1) = all_true _ _ _ _ e in
          let (a, b, l) = x.1 (x0, x1) in
          let (a', b', l') = y.1 (y0, y1) in
          (near.1 (a, b, a', b'), record { x_lt = l; y_lt = l' }),
      λ (q, i).
          let (a, b, a', b') = near.0 q in
          let (x0, x1) = x.0 (a, b, i.x_lt) in
          let (y0, y1) = y.0 (a', b', i.y_lt) in simp (x0, x1, y0, y1),
    )

pub mul_lt_cancel : (x y m : ℕ) → x * m < y * m → x < y
mul_lt_cancel x y m h = elim (dec_lt x y) [
  | yes p ↦ p
  | no p ↦ absurd (omega (arith, mul_mono y x m (omega arith)))
]
  where
    mul_mono : (a b m : ℕ) → a ≤ b → a * m ≤ b * m
    mul_mono a b m h = grind arith

-- One axis: coordinates at most `r` cells apart lie in cells at most `r` apart.
axis_apart :
    (m r i j : ℕ) (a b l : ℤ)
    → pos (i * m) ≤ℤ a
    → pos (j * m) ≤ℤ b
    → b <ℤ pos ((j + 1) * m)
    → pos 1 ≤ℤ l
    → l ≤ℤ pos (r * m)
    → a ≤ℤ b +ℤ l
    → i ≤ j + r
axis_apart m r i j (pos a) (pos b) (pos l) h k q p s n =
    omega (arith, mul_lt_cancel i (j + 1 + r) m (omega (arith, +ℤ_parts (pos b) (pos l))))
axis_apart m r i j (negsuc a) b l h k q p s n = absurd (omega arith)
axis_apart m r i j a (negsuc b) l h k q p s n = absurd (omega arith)
axis_apart m r i j a b (negsuc l) h k q p s n = absurd (omega arith)

view_apart :
    (cfg : WorldConfig) (a b : ℤ) (i j : ℕ)
    → IsValid cfg
    → Holds cfg i a
    → Holds cfg j b
    → a ≤ℤ b +ℤ cfg.horizontal_view_radius
    → i ≤ j + cfg.cell_radius
view_apart cfg a b i j v (l, _) (k, h) near =
    axis_apart (2 ^ cfg.cell_shift) cfg.cell_radius i j a b cfg.horizontal_view_radius l k h
      v.radius_pos v.radius_covers near

-- Two coordinates are within the view radius of each other.
abbrev pub Near : WorldConfig → ℤ → ℤ → Type 0
Near cfg a b = (a ≤ℤ b +ℤ cfg.horizontal_view_radius) × (b ≤ℤ a +ℤ cfg.horizontal_view_radius)

-- In a valid configuration whose cells per axis fit a u16, of two positions in the region that are
-- within the view radius on both axes, the cell of the second lies in the subscription centred on
-- the cell of the first.
pub at_center_covers_view :
    (cfg : WorldConfig) (p q : Pos2)
    → IsValid cfg
    → FitsU16 cfg
    → contains_2d cfg p ≡ true
    → contains_2d cfg q ≡ true
    → Near cfg p.x q.x
    → Near cfg p.y q.y
    → contains (at_center cfg (cell_of cfg p)) (cell_of cfg q) ≡ true
at_center_covers_view cfg p q v f hp hq nx ny =
    let (c, cx, cy) = cell_of-Holds cfg p v f hp in
    let (d, dx, dy) = cell_of-Holds cfg q v f hq in
    (contains-at_center cfg _ _ c).1 (
      (chebyshev_le _ _ cfg.cell_radius).1 (
        view_apart cfg _ _ _ _ v dx cx nx.1,
        view_apart cfg _ _ _ _ v cx dx nx.0,
        view_apart cfg _ _ _ _ v dy cy ny.1,
        view_apart cfg _ _ _ _ v cy dy ny.0,
      ),
      d,
    )

-- A step of one axis that stays below a cell.
abbrev pub Step : WorldConfig → ℤ → ℤ → Type 0
Step cfg a b = (a ≤ℤ b +ℤ cfg.max_move_per_tick) × (b ≤ℤ a +ℤ cfg.max_move_per_tick)

step_apart :
    (m i j : ℕ) (a b l : ℤ)
    → pos (i * m) ≤ℤ a
    → pos (j * m) ≤ℤ b
    → b <ℤ pos ((j + 1) * m)
    → pos 0 ≤ℤ l
    → pos_part l < m
    → a ≤ℤ b +ℤ l
    → i ≤ j + 1
step_apart m i j (pos a) (pos b) (pos l) h k q p s n =
    omega (arith, mul_lt_cancel i (j + 2) m (omega (arith, +ℤ_parts (pos b) (pos l))))
step_apart m i j (negsuc a) b l h k q p s n = absurd (omega arith)
step_apart m i j a (negsuc b) l h k q p s n = absurd (omega arith)
step_apart m i j a b (negsuc l) h k q p s n = absurd (omega arith)

move_apart :
    (cfg : WorldConfig) (a b : ℤ) (i j : ℕ)
    → IsValid cfg
    → Holds cfg i a
    → Holds cfg j b
    → a ≤ℤ b +ℤ cfg.max_move_per_tick
    → i ≤ j + 1
move_apart cfg a b i j v (l, _) (k, h) near =
    step_apart (2 ^ cfg.cell_shift) i j a b cfg.max_move_per_tick l k h v.move_nonneg v.move_lt near

adjacent_of :
    (c d : CellCoord)
    → d.x ≤ c.x + 1
    → c.x ≤ d.x + 1
    → d.y ≤ c.y + 1
    → c.y ≤ d.y + 1
    → is_adjacent_move c d ≡ true
unfolding is_adjacent_move
adjacent_of c d h k l m = ground arith

-- In a valid configuration whose cells per axis fit a u16, a move between two positions of the
-- region of at most the per-tick limit on each axis goes to the same cell or to an adjacent one.
pub cell_of_adjacent :
    (cfg : WorldConfig) (p q : Pos2)
    → IsValid cfg
    → FitsU16 cfg
    → contains_2d cfg p ≡ true
    → contains_2d cfg q ≡ true
    → Step cfg p.x q.x
    → Step cfg p.y q.y
    → is_adjacent_move (cell_of cfg p) (cell_of cfg q) ≡ true
cell_of_adjacent cfg p q v f hp hq nx ny =
    let (c, cx, cy) = cell_of-Holds cfg p v f hp in
    let (d, dx, dy) = cell_of-Holds cfg q v f hq in
    adjacent_of _ _ (move_apart cfg _ _ _ _ v dx cx nx.1) (move_apart cfg _ _ _ _ v cx dx nx.0)
      (move_apart cfg _ _ _ _ v dy cy ny.1) (move_apart cfg _ _ _ _ v cy dy ny.0)

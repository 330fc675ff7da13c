-- ===== src/Pos/World.antt =====
-- pos.rs: the translation between a region's own frame and the world's.
use umwelt_rs.Base.{
  ℕ, ◌+◌, ◌-◌, ◌*◌, ◌^◌, ◌≤◌, ◌≡◌, ◌↔◌, ◌∙◌, Option, none, some, arith, sym, ◌⊎◌, inl, inr,
}
use umwelt_rs.Base.Int.{
  ℤ, pos, negsuc, ◌+ℤ◌, ◌-ℤ◌, ◌*ℤ◌, ◌≤ℤ◌, wrap64, +ℤ_parts, IsI32, IsI64, int_laws,
}
use umwelt_rs.Fixed.{Fixed}
use umwelt_rs.Placement.{Placement}
use umwelt_rs.Pos.{Pos3, WorldPos, from_local, to_local, fits, all_fit}

-- Each axis of a position is an `i32`.
pub record IsPos3 (p : Pos3) : Type 0 where
  pub x_i32 : IsI32 p.x
  pub y_i32 : IsI32 p.y
  pub z_i32 : IsI32 p.z

fits_cases : (a : ℤ) → (IsI32 a × (fits a ≡ some a)) ⊎ ((¬ IsI32 a) × (fits a ≡ none))
unfolding fits
fits_cases a = ground arith

-- Below 2 ^ 62 in magnitude.
abbrev IsSmall : ℤ → Type 0
IsSmall a = (negsuc (2 ^ 62 - 1) ≤ℤ a) × (a ≤ℤ pos (2 ^ 62))

mul_bound : (a b m n : ℕ) → a ≤ m → b ≤ n → a * b ≤ m * n
mul_bound a b m n h k = grind arith

*ℤ-IsSmall : (a b : ℤ) → IsI32 a → IsI32 b → pos 0 ≤ℤ b → IsSmall (a *ℤ b)
unfolding ◌*ℤ◌
*ℤ-IsSmall (pos a) (pos b) h k p = ground (arith, mul_bound a b (2 ^ 31 - 1) (2 ^ 31 - 1))
*ℤ-IsSmall (negsuc a) (pos b) h k p = ground (arith, mul_bound (a + 1) b (2 ^ 31) (2 ^ 31 - 1))
*ℤ-IsSmall a (negsuc b) h k p = absurd (omega arith)

wrap64_id : (a : ℤ) → IsI64 a → wrap64 a ≡ a
wrap64_id (pos n) h = ground arith
wrap64_id (negsuc n) h = ground arith

-- A difference that leaves `i64` wraps to a number that is no `i32`.
wrap64_sub : (w s : ℤ) → IsI64 w → IsSmall s → IsI32 (wrap64 (w -ℤ s)) → wrap64 (w -ℤ s) ≡ w -ℤ s
unfolding ◌-ℤ◌
wrap64_sub (pos w) (pos s) h k f = ground arith
wrap64_sub (pos w) (negsuc s) h k f = ground arith
wrap64_sub (negsuc w) (pos s) h k f = ground arith
wrap64_sub (negsuc w) (negsuc s) h k f = ground arith

-- One axis: the region coordinate of `w` behind the offset `s`.
axis : ℤ → ℤ → Option Fixed
axis w s = fits (wrap64 (w -ℤ s))

pub fits-some : (a b : ℤ) → fits a ≡ some b → IsI32 a × (a ≡ b)
fits-some a b e = elim (fits_cases a) [ inl (f, g) ↦ (f, cc) | inr (f, g) ↦ absurd (cc) ]

sub-eq : (w s a : ℤ) → w -ℤ s ≡ a → s +ℤ a ≡ w
sub-eq w s a eq = rw (← eq) (omega int_laws)

add-eq : (w s a : ℤ) → s +ℤ a ≡ w → w -ℤ s ≡ a
add-eq w s a eq = rw (← eq) (omega int_laws)

pub fits_self : (a : ℤ) → IsI32 a → fits a ≡ some a
fits_self a h = elim (fits_cases a) [ inl (_, g) ↦ g | inr (f, _) ↦ absurd (f h) ]

axis_sound : (w s a : ℤ) → IsI64 w → IsSmall s → axis w s ≡ some a → IsI32 a × (s +ℤ a ≡ w)
unfolding axis
axis_sound w s a h k e =
    let (f, g) = fits-some (wrap64 (w -ℤ s)) a e in
    (rw g at f, sub-eq w s a (sym (wrap64_sub w s h k f) ∙ g))

axis_complete : (w s a : ℤ) → IsI64 w → IsI32 a → s +ℤ a ≡ w → axis w s ≡ some a
unfolding axis
axis_complete w s a h k e = rw (add-eq w s a e, wrap64_id a (omega arith)) (fits_self a k)

-- A position in the world frame: each axis is an `i64`.
pub record IsWorldPos (w : WorldPos) : Type 0 where
  pub x_i64 : IsI64 w.x
  pub y_i64 : IsI64 w.y
  pub z_i64 : IsI64 w.z

-- A placement, and the size of a region: what `RegionSize` and the map hold.
pub record IsFrame (square : Placement) (size : Fixed) : Type 0 where
  pub col_i32 : IsI32 square.col
  pub row_i32 : IsI32 square.row
  pub size_i32 : IsI32 size
  pub size_pos : pos 1 ≤ℤ size

all_fit-some :
    (a b c : Option Fixed) (p : Pos3)
    → all_fit a b c ≡ some p
    → (a ≡ some p.x) × (b ≡ some p.y) × (c ≡ some p.z)
unfolding all_fit
all_fit-some a b c p e = ground arith

-- For a world position of i64 axes, an i32 square and a positive i32 region size, to_local answers
-- exactly the i32 local position that from_local maps to the world position.
pub to_local_iff :
    (w : WorldPos) (square : Placement) (size : Fixed) (p : Pos3)
    → IsWorldPos w
    → IsFrame square size
    → (to_local w square size ≡ some p) ↔ (IsPos3 p × (from_local p square size ≡ w))
unfolding to_local from_local axis
to_local_iff w square size p hw hf = (forth, back)
  where
    sx : IsSmall (square.col *ℤ size)
    sx = *ℤ-IsSmall square.col size hf.col_i32 hf.size_i32 (omega arith)

    sy : IsSmall (square.row *ℤ size)
    sy = *ℤ-IsSmall square.row size hf.row_i32 hf.size_i32 (omega arith)

    forth : to_local w square size ≡ some p → IsPos3 p × (from_local p square size ≡ w)
    forth e =
        let (ex, ey, ez) = all_fit-some _ _ _ p e in
        let (hx, qx) = axis_sound w.x _ p.x hw.x_i64 sx ex in
        let (hy, qy) = axis_sound w.y _ p.y hw.y_i64 sy ey in
        let (hz, qz) = fits-some w.z p.z ez in
        (record { x_i32 = hx; y_i32 = hy; z_i32 = rw qz at hz }, cc (qx, qy, qz))

    back : IsPos3 p × (from_local p square size ≡ w) → to_local w square size ≡ some p
    back (hp, e) = ground (
      arith,
      axis_complete w.x (square.col *ℤ size) p.x hw.x_i64 hp.x_i32,
      axis_complete w.y (square.row *ℤ size) p.y hw.y_i64 hp.y_i32,
      fits_cases w.z,
    )

-- The world position of an i32 local position in an i32 square of a positive i32 region size fits
-- the i64 axes.
pub from_local-IsWorldPos :
    (p : Pos3) (square : Placement) (size : Fixed)
    → IsPos3 p
    → IsFrame square size
    → IsWorldPos (from_local p square size)
unfolding from_local
from_local-IsWorldPos p square size hp hf =
    let sx = *ℤ-IsSmall square.col size hf.col_i32 hf.size_i32 (omega (arith, hf.size_pos)) in
    let sy = *ℤ-IsSmall square.row size hf.row_i32 hf.size_i32 (omega (arith, hf.size_pos)) in
    record {
      x_i64 = sum_i64 _ p.x sx hp.x_i32;
      y_i64 = sum_i64 _ p.y sy hp.y_i32;
      z_i64 = omega (arith, hp.z_i32);
    }
  where
    sum_i64 : (a b : ℤ) → IsSmall a → IsI32 b → IsI64 (a +ℤ b)
    sum_i64 a b h k = omega (arith, +ℤ_parts a b)

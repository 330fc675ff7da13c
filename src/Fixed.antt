-- ===== src/Fixed.antt =====
-- fixed.rs: fixed-point numbers, an `i32` with 10 fractional bits. A plain operator wraps, as it
-- does in a release build.
pub mod Bounds
use umwelt_rs.Base.{ℕ, ◌+◌, ◌-◌, ◌*◌, ◌/◌, ◌^◌, Option, none, some, if◌then◌else◌, ◌||◌}
use umwelt_rs.Base.Int.{as_u64, ℤ, pos, negsuc, ◌+ℤ◌, ◌-ℤ◌, ◌*ℤ◌, ltb_ℤ, wrap32, saturate32}

-- `Fixed` is transparent over its raw `i32`.
abbrev pub Fixed : Type 0
Fixed = ℤ

abbrev pub fixed_shift : ℕ
fixed_shift = 10

abbrev pub fixed_one : ℤ
fixed_one = pos 1024

abbrev pub fixed_zero : Fixed
fixed_zero = pos 0

abbrev pub fixed_min : Fixed
fixed_min = negsuc (2 ^ 31 - 1)

abbrev pub fixed_max : Fixed
fixed_max = pos (2 ^ 31 - 1)

-- `a >> k`, which rounds toward negative infinity.
unfoldable pub shr_ℤ : ℤ → ℕ → ℤ
shr_ℤ (pos n) k = pos (n / 2 ^ k)
shr_ℤ (negsuc n) k = negsuc (n / 2 ^ k)

unfoldable pub from_meters : ℤ → Fixed
from_meters m = wrap32 (m *ℤ fixed_one)

unfoldable pub floor_meters : Fixed → ℤ
unfolding shr_ℤ
floor_meters a = shr_ℤ a fixed_shift

unfoldable pub abs : Fixed → Fixed
abs a = if ltb_ℤ a (pos 0) then saturate32 (pos 0 -ℤ a) else a

unfoldable pub min : Fixed → Fixed → Fixed
min a b = if ltb_ℤ a b then a else b

unfoldable pub max : Fixed → Fixed → Fixed
max a b = if ltb_ℤ b a then a else b

unfoldable pub clamp : Fixed → Fixed → Fixed → Fixed
unfolding min max
clamp a low high = min (max a low) high

-- `None` where the exact value leaves the range of `i32`.
pub checked : ℤ → Option Fixed
checked a = if ltb_ℤ a fixed_min || ltb_ℤ fixed_max a then none else some a

unfoldable pub checked_add : Fixed → Fixed → Option Fixed
unfolding checked
checked_add a b = checked (a +ℤ b)

unfoldable pub checked_sub : Fixed → Fixed → Option Fixed
unfolding checked
checked_sub a b = checked (a -ℤ b)

unfoldable pub checked_mul : Fixed → Fixed → Option Fixed
unfolding checked shr_ℤ
checked_mul a b = checked (shr_ℤ (a *ℤ b) fixed_shift)

unfoldable pub saturating_add : Fixed → Fixed → Fixed
saturating_add a b = saturate32 (a +ℤ b)

unfoldable pub saturating_sub : Fixed → Fixed → Fixed
saturating_sub a b = saturate32 (a -ℤ b)

unfoldable pub add : Fixed → Fixed → Fixed
add a b = wrap32 (a +ℤ b)

unfoldable pub sub : Fixed → Fixed → Fixed
sub a b = wrap32 (a -ℤ b)

unfoldable pub mul : Fixed → Fixed → Fixed
unfolding shr_ℤ
mul a b = wrap32 (shr_ℤ (a *ℤ b) fixed_shift)

unfoldable pub neg : Fixed → Fixed
neg a = wrap32 (pos 0 -ℤ a)

-- `Mul<i32>`: a scale, with no shift.
unfoldable pub scale : Fixed → ℤ → Fixed
scale a k = wrap32 (a *ℤ k)

-- `DistSq::from_radius`, the raw square.
unfoldable pub from_radius : Fixed → ℕ
from_radius r = as_u64 (r *ℤ r)

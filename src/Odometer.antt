-- ===== src/Odometer.antt =====
-- odometer.rs: how far each entity has moved, summed over the calls.
pub mod Entries
pub mod Accumulate
use umwelt_rs.Base.{
  ℕ, zero, suc, ◌+◌, ◌-◌, ◌%◌, ◌^◌, min, Bool, leb, ltb, ◌==◌, ◌&&◌, if◌then◌else◌, Option, none,
  some, List, [], ◌∷◌, ◌++◌, length, get_or, get_elem?, take, drop,
}
use umwelt_rs.Base.Arrays.{set, resize}
use umwelt_rs.Base.Int.{ℤ, pos, ◌-ℤ◌, pos_part, neg_part}
use umwelt_rs.Entity.{EntityId}
use umwelt_rs.Entity.Live.{LiveSet, id_space, ids}
use umwelt_rs.Fixed.{Fixed, fixed_zero}

pub record Odometer : Type 0 where
  pub total : List ℕ
  pub prev_x : List Fixed
  pub prev_y : List Fixed
  pub prev_z : List Fixed

abbrev pub odometer_new : Odometer
odometer_new = record { total = []; prev_x = []; prev_y = []; prev_z = [] }

unfoldable pub slots : Odometer → ℕ
slots o = length o.total

-- `none` where the index panics.
unfoldable pub reading : EntityId → Odometer → Option ℕ
reading id o = get_elem? o.total id

unfoldable pub bump : EntityId → ℕ → Odometer → Option Odometer
bump id amount o =
    if ltb id (length o.total)
    then some (record o { total = set o.total id ((get_or o.total id 0 + amount) % 2 ^ 32) })
    else none

-- `i32::abs_diff`.
unfoldable pub abs_diff : ℤ → ℤ → ℕ
abs_diff a b = let d = a -ℤ b in pos_part d + neg_part d

-- `u32::saturating_add`.
abbrev pub saturating_add_u32 : ℕ → ℕ → ℕ
saturating_add_u32 a b = min (a + b) (2 ^ 32 - 1)

abbrev pub axis_at : List Fixed → ℕ → Fixed
axis_at xs i = get_or xs i fixed_zero

unfoldable pub step : List Fixed → List Fixed → List Fixed → ℕ → Odometer → ℕ
step xs ys zs i o =
    saturating_add_u32
      (saturating_add_u32 (abs_diff (axis_at xs i) (axis_at o.prev_x i))
        (abs_diff (axis_at ys i) (axis_at o.prev_y i)))
      (abs_diff (axis_at zs i) (axis_at o.prev_z i))

unfoldable pub measure : List Fixed → List Fixed → List Fixed → ℕ → Odometer → Odometer
measure xs ys zs i o = record {
  total = set o.total i ((get_or o.total i 0 + step xs ys zs i o) % 2 ^ 32);
  prev_x = set o.prev_x i (axis_at xs i);
  prev_y = set o.prev_y i (axis_at ys i);
  prev_z = set o.prev_z i (axis_at zs i);
}

-- The loop over the live ids, and its `break`.
unfoldable pub measure_all :
    List Fixed → List Fixed → List Fixed → List EntityId → Odometer → Odometer
measure_all xs ys zs [] o = o
measure_all xs ys zs (i ∷ is) o =
    let rest = measure_all xs ys zs is (measure xs ys zs i o) in
    if leb (length xs) i then o else rest

-- `v.resize(slots, 0); v[old..].copy_from_slice(&xs[old..]);`.
abbrev copied : ℕ → List Fixed → List Fixed → List Fixed
copied old prev xs = take old (resize prev (length xs) fixed_zero) ++ drop old xs

unfoldable pub grow : List Fixed → List Fixed → List Fixed → Odometer → Odometer
grow xs ys zs o =
    let old = length o.total in
    if ltb old (length xs)
    then record {
      total = resize o.total (length xs) 0;
      prev_x = copied old o.prev_x xs;
      prev_y = copied old o.prev_y ys;
      prev_z = copied old o.prev_z zs;
    }
    else o

-- `none` where an assertion fails.
unfoldable pub accumulate :
    List Fixed → List Fixed → List Fixed → LiveSet → Odometer → Option Odometer
accumulate xs ys zs live o =
    if (length xs == length ys) && (length xs == length zs) && leb (length xs) (id_space live)
    then some (measure_all xs ys zs (ids live) (grow xs ys zs o))
    else none

unfoldable pub clear : Odometer → Odometer
clear o = odometer_new

-- ===== src/Net/Edge/Seam/Shadow.antt =====
-- seam.rs: where a shadow stands.
use umwelt_rs.Base.{ℕ, ◌<◌, ◌≡◌, refl, arith, ◌⊎◌, true, Option, none, some, some_inj}
use umwelt_rs.Base.Int.{ℤ, pos, ◌+ℤ◌, ◌-ℤ◌, ◌≤ℤ◌, ltb_ℤ, leb_ℤ, +ℤ_parts}
use umwelt_rs.Base.Bits.{pow2_pos}
use umwelt_rs.Placement.{Placement}
use umwelt_rs.Pos.{Pos3, horizontal, WorldPos, from_local, to_local}
use umwelt_rs.Pos.World.{IsWorldPos, IsFrame, to_local_iff}
use umwelt_rs.Config.{WorldConfig, contains, contains_2d, clamp, clamp_raw}
use umwelt_rs.Config.Valid.{IsValid}
use umwelt_rs.Config.Cells.{clamp-contains, all_true}
use umwelt_rs.Net.Edge.Seam.{clamped, shadow_point}

-- `c` is on the way from `a` to `q`.
abbrev pub Between : ℤ → ℤ → ℤ → Type 0
Between a c q = ((a ≤ℤ c) × (c ≤ℤ q)) ⊎ ((q ≤ℤ c) × (c ≤ℤ a))

clamp_raw-Between :
    (a q e : ℤ) (m : ℕ)
    → e ≡ pos m
    → 0 < m
    → leb_ℤ (pos 0) q ≡ true
    → ltb_ℤ q e ≡ true
    → Between a (clamp_raw a (e -ℤ pos 1)) q
unfolding clamp_raw ◌-ℤ◌
clamp_raw-Between a q e m s p l h = let h' = rw s at h in rw s (ground arith)

shift : (s a c q : ℤ) → Between a c q → Between (s +ℤ a) (s +ℤ c) (s +ℤ q)
shift s a c q h = ground (arith, +ℤ_parts s a, +ℤ_parts s c, +ℤ_parts s q)

clamped-some :
    (cfg : WorldConfig) (o : Option Pos3) (at : Pos3)
    → clamped cfg o ≡ some at
    → (p : Pos3) × (o ≡ some p) × (clamp cfg p ≡ at)
unfolding clamped
clamped-some cfg none at e = absurd (cc)
clamped-some cfg (some p) at e = (p, refl, some_inj e)

-- On the way to a position, on every axis.
pub record Nearest (owner shadow other : WorldPos) : Type 0 where
  pub x : Between owner.x shadow.x other.x
  pub y : Between owner.y shadow.y other.y
  pub z : Between owner.z shadow.z other.z

clamp-Nearest :
    (cfg : WorldConfig) (square : Placement) (p q : Pos3)
    → IsValid cfg
    → contains cfg q ≡ true
    → Nearest
        (from_local p square cfg.region_size)
        (from_local (clamp cfg p) square cfg.region_size)
        (from_local q square cfg.region_size)
unfolding from_local clamp contains contains_2d horizontal
clamp-Nearest cfg square p q v h =
    let (xl, yl, xh, yh, zl, zh) = all_true _ _ _ _ _ _ h in
    record {
      x =
          shift _ p.x _ q.x
            (clamp_raw-Between p.x q.x _ _ v.region_pow (pow2_pos cfg.horizontal_bits) xl xh);
      y =
          shift _ p.y _ q.y
            (clamp_raw-Between p.y q.y _ _ v.region_pow (pow2_pos cfg.horizontal_bits) yl yh);
      z = clamp_raw-Between p.z q.z _ _ v.vertical_pow (pow2_pos cfg.vertical_bits) zl zh;
    }

-- In a valid configuration, a shadow stands in the box of the neighbor, and of the positions of
-- that box it is the nearest to its owner on each axis: it is on the way to every other.
pub shadow_point-Nearest :
    (cfg : WorldConfig) (owner : WorldPos) (square : Placement) (at : Pos3)
    → IsValid cfg
    → IsWorldPos owner
    → IsFrame square cfg.region_size
    → shadow_point cfg owner square ≡ some at
    → (contains cfg at ≡ true)
      × ((q : Pos3)
          → contains cfg q ≡ true
          → Nearest owner
              (from_local at square cfg.region_size)
              (from_local q square cfg.region_size))
unfolding shadow_point
shadow_point-Nearest cfg owner square at v w f e =
    let (p, found, same) = clamped-some cfg (to_local owner square cfg.region_size) at e in
    let (_, back) = (to_local_iff owner square cfg.region_size p w f).0 found in
    rw (← same, ← back) ((clamp-contains cfg p v).0, λ q h. clamp-Nearest cfg square p q v h)

-- ===== src/Map/Locate.antt =====
-- map.rs: `locate` against the translation back to the world frame.
use umwelt_rs.Base.{
  ℕ, ◌+◌, ◌-◌, ◌*◌, ◌/◌, ◌≤◌, ◌<◌, ◌≡◌, Option, none, some, arith, refl, ◌∙◌, ap, some_inj,
}
use umwelt_rs.Base.Int.{ℤ, pos, negsuc, ◌+ℤ◌, ◌*ℤ◌, ◌≤ℤ◌, ◌<ℤ◌, IsI32, pos_part, neg_part, +ℤ_parts}
use umwelt_rs.Placement.{Placement}
use umwelt_rs.Pos.{Pos3, WorldPos, from_local, to_local, fits}
use umwelt_rs.Pos.World.{
  IsWorldPos, IsPos3, IsFrame, to_local_iff, fits-some, fits_self, from_local-IsWorldPos,
}
use umwelt_rs.Map.{WorldMap, and_then, locate, region_at, placement_of, div_euclid}
use umwelt_rs.Map.Wf.{Built, Built-Consistent, Built-IsSquare, and_then-some}

mul_pos_part :
    (a : ℤ) (b : ℕ)
    → 0 < b
    → (pos_part (a *ℤ pos b) ≡ pos_part a * b) × (neg_part (a *ℤ pos b) ≡ neg_part a * b)
unfolding ◌*ℤ◌
mul_pos_part (pos a) b h = (ground arith, ground arith)
mul_pos_part (negsuc a) b h = (grind arith, grind arith)

div_between : (n b : ℕ) → 0 < b → (n / b * b ≤ n) × (n < n / b * b + b)
div_between n b h = (grind arith, grind arith)

-- Euclidean division: the remainder lies in `0 .. b`.
div_euclid_lem :
    (a : ℤ) (b : ℕ)
    → 0 < b
    → (div_euclid a b *ℤ pos b ≤ℤ a) × (a <ℤ div_euclid a b *ℤ pos b +ℤ pos b)
unfolding div_euclid
div_euclid_lem (pos n) b h =
    let (p, q) = mul_pos_part (pos (n / b)) b h in
    let (lo, hi) = div_between n b h in
    (omega (arith, p, q, lo), omega (arith, p, q, hi, +ℤ_parts (pos (n / b) *ℤ pos b) (pos b)))
div_euclid_lem (negsuc n) b h =
    let (p, q) = mul_pos_part (negsuc (n / b)) b h in
    let (lo, hi) = div_between n b h in
    (omega (arith, p, q, hi), omega (arith, p, q, lo, +ℤ_parts (negsuc (n / b) *ℤ pos b) (pos b)))

div_unique : (n k r b : ℕ) → r < b → k * b + r ≡ n → n / b ≡ k
div_unique n k r b h e = grind arith

pub sum_parts :
    (q a : ℤ) (r b : ℕ)
    → r < b
    → q *ℤ pos b +ℤ pos r ≡ a
    → pos_part a + neg_part q * b ≡ neg_part a + pos_part q * b + r
sum_parts q a r b h e =
    let (x, y) = mul_pos_part q b (omega arith) in
    omega (arith, x, y, +ℤ_parts (q *ℤ pos b) (pos r), ap pos_part e, ap neg_part e)

-- And it is the only such quotient.
div_euclid_unique : (q a : ℤ) (r b : ℕ) → r < b → q *ℤ pos b +ℤ pos r ≡ a → div_euclid a b ≡ q
unfolding div_euclid
div_euclid_unique (pos k) (pos n) r b h e =
    ap pos (div_unique n k r b h (omega (arith, sum_parts (pos k) (pos n) r b h e)))
div_euclid_unique (negsuc k) (pos n) r b h e =
    absurd (omega (arith, sum_parts (negsuc k) (pos n) r b h e))
div_euclid_unique (pos k) (negsuc n) r b h e =
    absurd (omega (arith, sum_parts (pos k) (negsuc n) r b h e))
div_euclid_unique (negsuc k) (negsuc n) r b h e = ap negsuc (
    div_unique n k (b - 1 - r) b (omega arith)
      (omega (arith, sum_parts (negsuc k) (negsuc n) r b h e)))

-- A local position inside the region's square, horizontally.
pub record IsInBox (p : Pos3) (size : ℕ) : Type 0 where
  pub x_low : pos 0 ≤ℤ p.x
  pub y_low : pos 0 ≤ℤ p.y
  pub x_high : p.x <ℤ pos size
  pub y_high : p.y <ℤ pos size

axis_in_box :
    (w x : ℤ) (b : ℕ) → 0 < b → div_euclid w b *ℤ pos b +ℤ x ≡ w → (pos 0 ≤ℤ x) × (x <ℤ pos b)
axis_in_box w x b h e =
    let (lo, hi) = div_euclid_lem w b h in
    let s = div_euclid w b *ℤ pos b in
    (
      omega (arith, lo, +ℤ_parts s x, ap pos_part e, ap neg_part e),
      omega (arith, hi, +ℤ_parts s x, +ℤ_parts s (pos b), ap pos_part e, ap neg_part e),
    )

-- The parts of a successful search.
abbrev Found : Option ℤ → Option ℤ → (ℤ → ℤ → Option ℕ) → (ℤ → ℤ → Option Pos3) → ℕ → Pos3 → Type 0
Found o u g l r p =
    (col : ℤ) × (row : ℤ) × (o ≡ some col)
    × (u ≡ some row)
    × (g col row ≡ some r)
    × (l col row ≡ some p)

abbrev steps : Option ℤ → Option ℤ → (ℤ → ℤ → Option ℕ) → (ℤ → ℤ → Option Pos3) → Option (ℕ × Pos3)
steps o u g l =
    and_then o (λ c. and_then u (λ d. and_then (g c d) (λ q. and_then (l c d) (λ x. some (q, x)))))

search-Found :
    (o u : Option ℤ) (g : ℤ → ℤ → Option ℕ) (l : ℤ → ℤ → Option Pos3) (r : ℕ) (p : Pos3)
    → steps o u g l ≡ some (r, p)
    → Found o u g l r p
search-Found none u g l r p e = cc
search-Found (some c) none g l r p e = cc
search-Found (some c) (some d) g l r p e =
    let (q, eq, e') = and_then-some (g c d) (λ q. and_then (l c d) (λ x. some (q, x))) e in
    let (x, ex, pair) = and_then-some (l c d) (λ x. some (q, x)) e' in
    let q_r : q ≡ r = ap (λ (t : ℕ × Pos3). t.0) (some_inj pair) in
    let x_p : x ≡ p = ap (λ (t : ℕ × Pos3). t.1) (some_inj pair) in
    (c, d, refl, refl, eq ∙ ap some q_r, ex ∙ ap some x_p)

locate-some :
    (m : WorldMap) (w : WorldPos) (size r : ℕ) (p : Pos3)
    → locate m w (pos size) ≡ some (r, p)
    → Found
        (fits (div_euclid w.x size))
        (fits (div_euclid w.y size))
        (λ c d. region_at m (record { col = c; row = d }))
        (λ c d. to_local w (record { col = c; row = d }) (pos size))
        r
        p
unfolding locate
locate-some m w size r p e =
    search-Found (fits (div_euclid w.x size)) (fits (div_euclid w.y size))
      (λ c d. region_at m (record { col = c; row = d }))
      (λ c d. to_local w (record { col = c; row = d }) (pos size)) r p e

axes :
    (p : Pos3) (s : Placement) (w : WorldPos) (size : ℕ)
    → from_local p s (pos size) ≡ w
    → (s.col *ℤ pos size +ℤ p.x ≡ w.x) × (s.row *ℤ pos size +ℤ p.y ≡ w.y)
unfolding from_local
axes p s w size e = (ap (λ (v : WorldPos). v.x) e, ap (λ (v : WorldPos). v.y) e)

-- For a map built by placements, a world position of i64 axes and a positive i32 region size, what
-- locate answers is a placed region and a local position in its box whose world position is the
-- one asked for.
pub locate_sound :
    {m : WorldMap} (w : WorldPos) (size r : ℕ) (p : Pos3)
    → Built m
    → IsWorldPos w
    → IsI32 (pos size)
    → 0 < size
    → locate m w (pos size) ≡ some (r, p)
    → (s : Placement) × (placement_of m r ≡ some s)
      × (from_local p s (pos size) ≡ w)
      × IsPos3 p
      × IsInBox p size
locate_sound {m} w size r p b hw hs h e =
    let (col, row, ec, er, held, local) = locate-some m w size r p e in
    let s : Placement = record { col = col; row = row } in
    let (c32, cq) = fits-some (div_euclid w.x size) col ec in
    let (r32, rq) = fits-some (div_euclid w.y size) row er in
    let frame : IsFrame s (pos size) = record {
      col_i32 = rw cq at c32;
      row_i32 = rw rq at r32;
      size_i32 = hs;
      size_pos = omega arith;
    } in
    let (p32, home) = (to_local_iff w s (pos size) p hw frame).0 local in
    let (wx, wy) = axes p s w size home in
    let (xl, xh) = axis_in_box w.x p.x size h (rw (← cq) at wx) in
    let (yl, yh) = axis_in_box w.y p.y size h (rw (← rq) at wy) in
    (
      s,
      (Built-Consistent b r s).1 held,
      home,
      p32,
      record { x_low = xl; y_low = yl; x_high = xh; y_high = yh },
    )

axis_quotient :
    (q x w : ℤ) (size : ℕ)
    → pos 0 ≤ℤ x
    → x <ℤ pos size
    → q *ℤ pos size +ℤ x ≡ w
    → div_euclid w size ≡ q
axis_quotient q (pos n) w size l h e = div_euclid_unique q w n size (omega arith) e
axis_quotient q (negsuc n) w size l h e = absurd (omega arith)

-- For a map built by placements and a positive i32 region size, the world position of a local
-- position in the box of a placed region is located as that region and that local position.
pub locate_complete :
    {m : WorldMap} (s : Placement) (size r : ℕ) (p : Pos3)
    → Built m
    → IsI32 (pos size)
    → 0 < size
    → placement_of m r ≡ some s
    → IsPos3 p
    → IsInBox p size
    → locate m (from_local p s (pos size)) (pos size) ≡ some (r, p)
unfolding locate
locate_complete {m} s size r p b hs h at hp hb =
    let w = from_local p s (pos size) in
    let sq = Built-IsSquare b r s at in
    let frame : IsFrame s (pos size) = record {
      col_i32 = sq.col_i32;
      row_i32 = sq.row_i32;
      size_i32 = hs;
      size_pos = omega arith;
    } in
    let (wx, wy) = axes p s w size refl in
    let cx = axis_quotient s.col p.x w.x size hb.x_low hb.x_high wx in
    let cy = axis_quotient s.row p.y w.y size hb.y_low hb.y_high wy in
    let here =
      (to_local_iff w s (pos size) p (from_local-IsWorldPos p s (pos size) hp frame) frame).1
        (hp, refl) in
    rw (cx, cy, fits_self s.col sq.col_i32, fits_self s.row sq.row_i32)
      (rw ((Built-Consistent b r s).0 at, here))

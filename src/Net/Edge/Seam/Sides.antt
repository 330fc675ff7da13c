-- ===== src/Net/Edge/Seam/Sides.antt =====
-- seam.rs: the sides that a view reaches past, axis by axis.
use umwelt_rs.Base.{ℕ, ◌+◌, ◌*◌, ◌^◌, ◌≤◌, ◌<◌, ◌≡◌, refl, sym, ap, arith, ◌⊎◌, inl, inr, true}
use umwelt_rs.Base.Int.{
  ℤ, pos, negsuc, ◌+ℤ◌, ◌-ℤ◌, ◌*ℤ◌, ◌≤ℤ◌, ◌<ℤ◌, pos_part, neg_part, +ℤ_parts, int_laws,
}
use umwelt_rs.Map.Locate.{sum_parts}
use umwelt_rs.Config.{WorldConfig}
use umwelt_rs.Config.Valid.{IsValid}
use umwelt_rs.Config.Cells.{Holds}
use umwelt_rs.Subscription.Coverage.{Near, mul_lt_cancel}
use native.Mathlib.Decide.{dec_lt}
use umwelt_rs.Net.Edge.Seam.{past_last, before_first}

one_apart : (n r x y a b : ℕ) → b < n → r ≤ n → x * n + a ≤ y * n + b + r → x < y + 2
one_apart n r x y a b k l h = mul_lt_cancel x (y + 2) n (omega arith)

-- Two coordinates below `n`, in the intervals `p` and `q` of a row of intervals of length `n`, and
-- at most `r` apart: the intervals are the same, or next to each other.
nearby :
    (n r p q a b : ℕ)
    → a < n
    → b < n
    → r ≤ n
    → p * n + a ≤ q * n + b + r
    → q * n + b ≤ p * n + a + r
    → (p ≡ q) ⊎ (((q ≡ p + 1) × (n + b ≤ a + r)) ⊎ ((p ≡ q + 1) × (n + a ≤ b + r)))
nearby n r p q a b h k l x y =
    let u = one_apart n r p q a b k l x in
    let v = one_apart n r q p b a h l y in
    elim (dec_lt p q) [
      | yes w ↦ let e : q ≡ p + 1 = omega (arith, u, v, w) in inr (inl (e, step p q a b e y))
      | no w ↦ elim (dec_lt q p) [
        | yes z ↦ let e : p ≡ q + 1 = omega (arith, u, v, z) in inr (inr (e, step q p b a e x))
        | no z ↦ inl (omega (arith, w, z))
      ]
    ]
  where
    step : (p q a b : ℕ) → q ≡ p + 1 → q * n + b ≤ p * n + a + r → n + b ≤ a + r
    step p q a b e y = omega (arith, y, ap (λ (k : ℕ). k * n) e)

-- The sides of an axis that the box around cell `c` reaches past, and the squares across them.
abbrev pub Across : WorldConfig → ℕ → ℤ → ℤ → Type 0
Across cfg c here there =
    (there ≡ here)
    ⊎ (((there ≡ here +ℤ pos 1) × (past_last cfg c ≡ true))
        ⊎ ((there ≡ here -ℤ pos 1) × (before_first cfg c ≡ true)))

past_last_lem :
    (cfg : WorldConfig) (c n m a b r : ℕ)
    → n ≡ cfg.cells_per_axis * m
    → r ≤ cfg.cell_radius * m
    → a < (c + 1) * m
    → n + b ≤ a + r
    → past_last cfg c ≡ true
unfolding past_last ◌+ℤ◌ ◌-ℤ◌
past_last_lem cfg c n m a b r e l h k =
    let w = mul_lt_cancel cfg.cells_per_axis (c + 1 + cfg.cell_radius) m (omega arith) in
    ground arith

before_first_lem :
    (cfg : WorldConfig) (c n m a b r : ℕ)
    → b < n
    → r ≤ cfg.cell_radius * m
    → c * m ≤ a
    → n + a ≤ b + r
    → before_first cfg c ≡ true
unfolding before_first ◌+ℤ◌ ◌-ℤ◌
before_first_lem cfg c n m a b r e l h k =
    let w = mul_lt_cancel c cfg.cell_radius m (omega arith) in ground arith

parts_near :
    (here there : ℤ) (n r a b : ℕ)
    → a < n
    → b < n
    → (here *ℤ pos n +ℤ pos a) ≤ℤ (there *ℤ pos n +ℤ pos b) +ℤ pos r
    → (pos_part here + neg_part there) * n + a ≤ (pos_part there + neg_part here) * n + b + r
parts_near here there n r a b h k l = omega (
  arith,
  sum_parts here (here *ℤ pos n +ℤ pos a) a n h refl,
  sum_parts there (there *ℤ pos n +ℤ pos b) b n k refl,
  +ℤ_parts (there *ℤ pos n +ℤ pos b) (pos r),
)

Across-pos :
    (cfg : WorldConfig) (here there : ℤ) (c n m r a b : ℕ)
    → n ≡ cfg.cells_per_axis * m
    → r ≤ cfg.cell_radius * m
    → r ≤ n
    → a < n
    → b < n
    → c * m ≤ a
    → a < (c + 1) * m
    → (here *ℤ pos n +ℤ pos a) ≤ℤ (there *ℤ pos n +ℤ pos b) +ℤ pos r
    → (there *ℤ pos n +ℤ pos b) ≤ℤ (here *ℤ pos n +ℤ pos a) +ℤ pos r
    → Across cfg c here there
Across-pos cfg here there c n m r a b e l f h k low high x y =
    let x' = parts_near here there n r a b h k x in
    let y' = parts_near there here n r b a k h y in
    elim (nearby n r (pos_part here + neg_part there) (pos_part there + neg_part here) a b h k f x'
      y') [
        | inl w ↦ inl (omega (int_laws, w))
        | inr (inl (w, z)) ↦
            inr (inl (omega (int_laws, w), past_last_lem cfg c n m a b r e l high z))
        | inr (inr (w, z)) ↦
            inr (inr (omega (int_laws, w), before_first_lem cfg c n m a b r k l low z))
      ]

pos_of : (a : ℤ) → pos 1 ≤ℤ a → a ≡ pos (pos_part a)
pos_of (pos n) h = refl
pos_of (negsuc n) h = absurd (omega arith)

-- One axis of a valid configuration.
pub to_sides :
    (cfg : WorldConfig) (here there p q : ℤ) (c : ℕ)
    → IsValid cfg
    → Holds cfg c p
    → pos 0 ≤ℤ p
    → p <ℤ cfg.region_size
    → pos 0 ≤ℤ q
    → q <ℤ cfg.region_size
    → Near cfg (here *ℤ cfg.region_size +ℤ p) (there *ℤ cfg.region_size +ℤ q)
    → Across cfg c here there
to_sides cfg here there (negsuc p) q c v h pl ph ql qh near = absurd (omega (arith, pl))
to_sides cfg here there p (negsuc q) c v h pl ph ql qh near = absurd (omega (arith, ql))
to_sides cfg here there (pos p) (pos q) c v (low, high) pl ph ql qh near =
    let radius : cfg.horizontal_view_radius ≡ pos (pos_part cfg.horizontal_view_radius) =
      pos_of cfg.horizontal_view_radius v.radius_pos in
    let size = v.region_pow in
    Across-pos cfg here there c (2 ^ cfg.horizontal_bits) (2 ^ cfg.cell_shift)
      (pos_part cfg.horizontal_view_radius) p q (sym v.cells)
      (omega (arith, v.radius_covers, ap neg_part radius))
      (omega (arith, v.radius_region, ap neg_part radius, ap pos_part size, ap neg_part size))
      (omega (arith, ph, ap pos_part size, ap neg_part size))
      (omega (arith, qh, ap pos_part size, ap neg_part size)) (omega (arith, low))
      (omega (arith, high)) (rw (← size, ← radius) near.0) (rw (← size, ← radius) near.1)

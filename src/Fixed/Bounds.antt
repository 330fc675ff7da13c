-- ===== src/Fixed/Bounds.antt =====
-- fixed.rs: the checked and the saturating operations against exact arithmetic.
use umwelt_rs.Base.{◌≡◌, ◌⊎◌, inl, inr, ◌∙◌, Option, none, some, arith}
use umwelt_rs.Base.Int.{ℤ, ◌+ℤ◌, ◌-ℤ◌, ◌*ℤ◌, ◌≤ℤ◌, wrap32, saturate32, IsI32, as_i32-as_u32}
use umwelt_rs.Fixed.{
  Fixed, checked, checked_add, checked_sub, checked_mul, saturating_add, saturating_sub, add, sub,
  mul, clamp, min, max, shr_ℤ, fixed_shift,
}

-- What a checked operation answers about the exact value `a`.
abbrev pub Exact : ℤ → Option Fixed → Type 0
Exact a r = (IsI32 a × (r ≡ some a)) ⊎ ((¬ IsI32 a) × (r ≡ none))

checked-Exact : (a : ℤ) → Exact a (checked a)
unfolding checked
checked-Exact a = ground arith

-- The checked operations return the exact sum, difference and shifted product when it is an i32,
-- and nothing when it is not.
pub checked_ops-Exact :
    (a b : Fixed)
    → Exact (a +ℤ b) (checked_add a b)
      × Exact (a -ℤ b) (checked_sub a b)
      × Exact (shr_ℤ (a *ℤ b) fixed_shift) (checked_mul a b)
unfolding checked_add checked_sub checked_mul
checked_ops-Exact a b = (checked-Exact _, checked-Exact _, checked-Exact _)

pub wrap32_id : (a : ℤ) → IsI32 a → wrap32 a ≡ a
wrap32_id a h = as_i32-as_u32 a h

pub saturate32_id : (a : ℤ) → IsI32 a → saturate32 a ≡ a
saturate32_id a h = ground arith

Exact-some : (a : ℤ) (r : Option Fixed) (c : Fixed) → Exact a r → r ≡ some c → IsI32 a × (a ≡ c)
Exact-some a r c (inl (h, e)) f = (h, ground arith)
Exact-some a r c (inr (h, e)) f = cc

-- Where a checked operation answers, the plain operator and the saturating one give that answer.
pub checked_agree :
    (a b c : Fixed)
    → (checked_add a b ≡ some c → (add a b ≡ c) × (saturating_add a b ≡ c))
      × (checked_sub a b ≡ some c → (sub a b ≡ c) × (saturating_sub a b ≡ c))
      × (checked_mul a b ≡ some c → mul a b ≡ c)
unfolding add sub mul saturating_add saturating_sub
checked_agree a b c =
    let (p, q, r) = checked_ops-Exact a b in
    (
      λ e. let (h, s) = Exact-some _ _ c p e in (wrap32_id _ h ∙ s, saturate32_id _ h ∙ s),
      λ e. let (h, s) = Exact-some _ _ c q e in (wrap32_id _ h ∙ s, saturate32_id _ h ∙ s),
      λ e. let (h, s) = Exact-some _ _ c r e in wrap32_id _ h ∙ s,
    )

-- The saturated value is an `i32`, and no `i32` lies strictly between it and the exact value.
pub saturate32_nearest :
    (a b : ℤ)
    → IsI32 b
    → IsI32 (saturate32 a) × (a ≤ℤ b → saturate32 a ≤ℤ b) × (b ≤ℤ a → b ≤ℤ saturate32 a)
saturate32_nearest a b h = ground arith

-- `clamp` lands in the range, and leaves what is in it.
pub clamp_range :
    (a low high : Fixed)
    → low ≤ℤ high
    → (low ≤ℤ clamp a low high)
      × (clamp a low high ≤ℤ high)
      × (low ≤ℤ a → a ≤ℤ high → clamp a low high ≡ a)
unfolding clamp min max
clamp_range a low high h = ground arith

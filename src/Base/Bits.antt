-- ===== src/Base/Bits.antt =====
-- `ilog2`, `is_power_of_two`, `trailing_zeros` and `div_ceil` of `u32`, and the laws of masks.
use mathlib.Core.Bool.{Bool, true}
use mathlib.Core.Path.{◌≡◌, refl, ap, ◌∙◌}
use native.Mathlib.Omega.{arith}
use native.Mathlib.Nat.{pow-suc}
use native.Mathlib.Decide.{dec_le}
use Prim.Native.Nat.{ℕ, zero, suc, ◌+◌, ◌-◌, ◌*◌, ◌/◌, ◌%◌, ◌^◌, ◌≤◌, ◌<◌}
use umwelt_rs.Base.Tests.{ltb, ◌==◌, ==_iff, Bool-cases, if◌then◌else◌}
use mathlib.Core.Logic.{inl, inr}

-- The position of the highest set bit among the lowest `f`; 0 for 0.
unfoldable pub log2_below : ℕ → ℕ → ℕ
log2_below zero n = 0
log2_below (suc f) n = let rest = suc (log2_below f (n / 2)) in if ltb n 2 then 0 else rest

unfoldable pub ilog2 : ℕ → ℕ
unfolding log2_below
ilog2 n = log2_below 32 n

unfoldable pub is_power_of_two : ℕ → Bool
unfolding ilog2
is_power_of_two n = n == (2 ^ ilog2 n)

-- The number of zeros below the lowest set bit, of `f` bits.
unfoldable pub zeros_below : ℕ → ℕ → ℕ
zeros_below zero n = 0
zeros_below (suc f) n = let rest = suc (zeros_below f (n / 2)) in if (n % 2) == 1 then 0 else rest

unfoldable pub trailing_zeros : ℕ → ℕ
unfolding zeros_below
trailing_zeros n = zeros_below 32 n

unfoldable pub div_ceil : ℕ → ℕ → ℕ
div_ceil a b = (a + b - 1) / b

pub pow2_suc : (k : ℕ) → 2 ^ suc k ≡ 2 * 2 ^ k
pow2_suc k = grind (arith, pow-suc)

pub pow2_pos : (k : ℕ) → 0 < 2 ^ k
pow2_pos zero = omega arith
pow2_pos (suc k) = omega (arith, pow2_suc k, pow2_pos k)

log2_below_lem :
    (f n : ℕ) → 0 < n → n < 2 ^ f → (2 ^ log2_below f n ≤ n) × (n < 2 * 2 ^ log2_below f n)
unfolding log2_below
log2_below_lem zero n p h = absurd (omega arith)
log2_below_lem (suc f) n p h = elim (Bool-cases (ltb n 2)) [
  | inl e ↦ rw e (ground arith, ground arith)
  | inr e ↦
      let ih = log2_below_lem f (n / 2) (ground arith) (omega (arith, pow2_suc f)) in
      rw e (
        omega (arith, pow2_suc (log2_below f (n / 2)), ih.0, ih.1),
        omega (arith, pow2_suc (log2_below f (n / 2)), ih.0, ih.1),
      )
]

pub ilog2_lem : (n : ℕ) → 0 < n → n < 2 ^ 32 → (2 ^ ilog2 n ≤ n) × (n < 2 * 2 ^ ilog2 n)
unfolding ilog2
ilog2_lem n p h = log2_below_lem 32 n p h

pub is_power_of_two-pow : (n : ℕ) → is_power_of_two n ≡ true → n ≡ 2 ^ ilog2 n
unfolding is_power_of_two
is_power_of_two-pow n h = (==_iff _ _).0 h

zeros_below-pow : (f k : ℕ) → k < f → zeros_below f (2 ^ k) ≡ k
unfolding zeros_below
zeros_below-pow zero k h = absurd (omega arith)
zeros_below-pow (suc f) zero h = refl
zeros_below-pow (suc f) (suc k) h =
    ground (arith, pow2_suc k, half, zeros_below-pow f k (omega arith))
  where
    half : 2 ^ suc k / 2 ≡ 2 ^ k
    half = omega (arith, pow2_suc k)

pub trailing_zeros-pow : (k : ℕ) → k < 32 → trailing_zeros (2 ^ k) ≡ k
unfolding trailing_zeros
trailing_zeros-pow k h = zeros_below-pow 32 k h

pub div_ceil_lem :
    (a b : ℕ) → 0 < b → (a ≤ div_ceil a b * b) × ((k : ℕ) → a ≤ k * b → div_ceil a b ≤ k)
unfolding div_ceil
div_ceil_lem a b p = (grind arith, λ k h. grind arith)

pub pow2_add : (d c : ℕ) → 2 ^ (d + c) ≡ 2 ^ d * 2 ^ c
pow2_add zero c = ground arith
pow2_add (suc d) c = grind (arith, pow2_suc d, pow2_suc (d + c), pow2_add d c)

pub pow2_split : (a c : ℕ) → c ≤ a → 2 ^ a ≡ 2 ^ (a - c) * 2 ^ c
pow2_split a c h = ap (λ (n : ℕ). 2 ^ n) (omega arith) ∙ pow2_add (a - c) c

pub pow2_mono : (a b : ℕ) → a ≤ b → 2 ^ a ≤ 2 ^ b
pow2_mono a b h = grind (arith, pow2_split b a h, pow2_pos (b - a))

pub pow2_lt_inv : (a b : ℕ) → 2 ^ a < 2 ^ b → a < b
pow2_lt_inv a b h = ground (arith, pow2_mono b a)

pub pow2_le_inv : (a b : ℕ) → 2 ^ a ≤ 2 ^ b → a ≤ b
pow2_le_inv a b h = elim (dec_le a b) [
  | yes p ↦ p
  | no p ↦ absurd (omega (arith, pow2_suc b, pow2_pos b, pow2_mono (suc b) a (omega arith)))
]

pub pow2_div : (a c : ℕ) → c ≤ a → (2 ^ a / 2 ^ c) * 2 ^ c ≡ 2 ^ a
pow2_div a c h = exact (2 ^ (a - c)) (2 ^ c) (2 ^ a) (pow2_pos c) (pow2_split a c h)
  where
    exact : (d m n : ℕ) → 0 < m → n ≡ d * m → n / m * m ≡ n
    exact d m n p e = grind arith

-- ===== src/Base/Masks.antt =====
-- `|` of numbers whose digits do not meet, and `&` with a mask of low digits.
use Prim.Native.Nat.{
  ℕ, zero, suc, ◌+◌, ◌-◌, ◌*◌, ◌/◌, ◌%◌, ◌^◌, ◌≤◌, ◌<◌, min, max, bit_or, bit_and, digits,
  bit_or-bitwise, bit_and-bitwise,
}
use mathlib.Core.Path.{◌≡◌, refl, sym, ap, ◌∙◌}
use native.Mathlib.Omega.{arith}
use umwelt_rs.Base.Bits.{pow2_suc, pow2_pos}

max_zero : (n : ℕ) → max n 0 ≡ n
max_zero n = omega arith

times_double : (b m r : ℕ) → r ≡ 2 * m → b * r ≡ 2 * (b * m)
times_double b m r e = grind arith

-- The digits of `a` below those of `b * 2 ^ k`.
or_digits : (n a b k : ℕ) → a ≤ n → a < 2 ^ k → digits (λ b. b) max n a (b * 2 ^ k) ≡ a + b * 2 ^ k
or_digits zero a b k l h = omega arith
or_digits (suc n) zero b k l h = omega arith
or_digits (suc n) (suc a) b zero l h = absurd (omega arith)
or_digits (suc n) (suc a) b (suc k) l h =
    let double : b * 2 ^ suc k ≡ 2 * (b * 2 ^ k) =
      times_double b (2 ^ k) (2 ^ suc k) (pow2_suc k) in
    let half : b * 2 ^ suc k / 2 ≡ b * 2 ^ k = omega (arith, double) in
    let even : b * 2 ^ suc k % 2 ≡ 0 = omega (arith, double) in
    let ih : digits (λ b. b) max n (suc a / 2) (b * 2 ^ k) ≡ suc a / 2 + b * 2 ^ k =
      or_digits n (suc a / 2) b k (omega arith) (omega (arith, pow2_suc k)) in
    rw (half, even, max_zero (suc a % 2), ih) (omega (arith, double))

pub bit_or-shifted : (a b k : ℕ) → a < 2 ^ k → bit_or a (b * 2 ^ k) ≡ a + b * 2 ^ k
bit_or-shifted a b k h = bit_or-bitwise a (b * 2 ^ k) ∙ or_digits a a b k (omega arith) h

min_zero : (n : ℕ) → min n 0 ≡ 0
min_zero n = omega arith

mod_add : (q m s : ℕ) → s < m → (s + q * m) % m ≡ s
mod_add q m s h = grind arith

mod_double : (a m r : ℕ) → 0 < m → r ≡ 2 * m → a / 2 % m * 2 + a % 2 ≡ a % r
mod_double a m r p e =
    let q : ℕ = a / 2 / m in
    let s : ℕ = a / 2 % m * 2 + a % 2 in
    let low : a / 2 % m < m = grind arith in
    let parts : a / 2 ≡ a / 2 % m + q * m = grind arith in
    let whole : a ≡ s + q * r = rw e (omega (arith, parts, times_double q m (2 * m) refl)) in
    sym (ap (λ (n : ℕ). n % r) whole ∙ mod_add q r s (omega arith))

and_digits : (n a k : ℕ) → a ≤ n → digits (λ b. 0) min n a (2 ^ k - 1) ≡ a % 2 ^ k
and_digits zero a k l = grind (arith, pow2_pos k)
and_digits (suc n) zero k l = grind (arith, pow2_pos k)
and_digits (suc n) (suc a) zero l =
    rw (and_digits n (suc a / 2) 0 (omega arith), min_zero (suc a % 2)) (omega arith)
and_digits (suc n) (suc a) (suc k) l =
    let half : (2 ^ suc k - 1) / 2 ≡ 2 ^ k - 1 = omega (arith, pow2_suc k, pow2_pos k) in
    let odd : (2 ^ suc k - 1) % 2 ≡ 1 = omega (arith, pow2_suc k, pow2_pos k) in
    let one : min (suc a % 2) 1 ≡ suc a % 2 = omega arith in
    rw (half, odd, one, and_digits n (suc a / 2) k (omega arith))
      (mod_double (suc a) (2 ^ k) (2 ^ suc k) (pow2_pos k) (pow2_suc k))

pub bit_and-mask : (a k : ℕ) → bit_and a (2 ^ k - 1) ≡ a % 2 ^ k
bit_and-mask a k = bit_and-bitwise a (2 ^ k - 1) ∙ and_digits a a k (omega arith)

-- The same, the high digits first.
high_digits :
    (n x a b k : ℕ) → x ≡ b * 2 ^ k → x ≤ n → a < 2 ^ k → digits (λ b. b) max n x a ≡ x + a
high_digits zero x a b k e l h = omega arith
high_digits (suc n) zero a b k e l h = omega arith
high_digits (suc n) (suc x) a b zero e l h =
    let none : a / 2 ≡ 0 = omega arith in
    let none' : a % 2 ≡ 0 = omega arith in
    let ih : digits (λ b. b) max n (suc x / 2) 0 ≡ suc x / 2 + 0 =
      high_digits n (suc x / 2) 0 (suc x / 2) zero (omega arith) (omega arith) (omega arith) in
    rw (none, none', max_zero (suc x % 2), ih) (omega arith)
high_digits (suc n) (suc x) a b (suc k) e l h =
    let double : b * 2 ^ suc k ≡ 2 * (b * 2 ^ k) =
      times_double b (2 ^ k) (2 ^ suc k) (pow2_suc k) in
    let even : suc x % 2 ≡ 0 = omega (arith, double) in
    let ih : digits (λ b. b) max n (suc x / 2) (a / 2) ≡ suc x / 2 + a / 2 =
      high_digits n (suc x / 2) (a / 2) b k (omega (arith, double)) (omega arith)
        (omega (arith, pow2_suc k)) in
    rw (even, ih) (omega arith)

pub bit_or-above : (a b k : ℕ) → a < 2 ^ k → bit_or (b * 2 ^ k) a ≡ b * 2 ^ k + a
bit_or-above a b k h =
    bit_or-bitwise (b * 2 ^ k) a ∙ high_digits (b * 2 ^ k) (b * 2 ^ k) a b k refl (omega arith) h

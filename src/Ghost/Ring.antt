-- ===== src/Ghost/Ring.antt =====
-- ghost.rs: distances round the ring of slots.
use umwelt_rs.Base.{
  ℕ, suc, ◌+◌, ◌-◌, ◌*◌, ◌/◌, ◌%◌, ◌^◌, ◌<◌, ◌≡◌, sym, ap, ◌∙◌, arith, leb, Bool-cases, inl, inr,
  ◌⊎◌, ◌==◌, if◌then◌else◌, List, length,
}
use umwelt_rs.Base.Masks.{bit_and-mask}
use umwelt_rs.Base.Bits.{pow2_add, pow2_pos, pow2_mono, trailing_zeros-pow}
use umwelt_rs.Ghost.{Ghost, after, steps_from, home, home_in}

-- The steps from `a` forward to `b`, round a ring of `n`.
abbrev pub dist : ℕ → ℕ → ℕ → ℕ
dist n a b = if leb a b then b - a else b + n - a

abbrev pub step : ℕ → ℕ → ℕ
step n i = if i + 1 == n then 0 else i + 1

mod_step : (n i : ℕ) → i < n → (i + 1) % n ≡ step n i
mod_step n i h = grind arith

pub after-step :
    (k : ℕ) (slots : List Ghost) (i : ℕ)
    → length slots ≡ 2 ^ k
    → i < 2 ^ k
    → after slots i ≡ step (2 ^ k) i
unfolding after
after-step k slots i e h = rw e (bit_and-mask (i + 1) k ∙ mod_step (2 ^ k) i h)

pub dist-step :
    (n h i : ℕ) → h < n → i < n → dist n h i + 1 < n → dist n h (step n i) ≡ dist n h i + 1
dist-step n h i a b c = grind arith

pub dist_full : (n h i : ℕ) → h < n → i < n → dist n h i < n
dist_full n h i a b = grind arith

pub dist_inj : (n h i j : ℕ) → h < n → i < n → j < n → dist n h i ≡ dist n h j → i ≡ j
dist_inj n h i j a b c e = grind arith

pub step-lt : (n i : ℕ) → i < n → step n i < n
step-lt n i h = grind arith

-- What lies before the next slot lies before this one, or is it.
pub dist_near :
    (n h i q : ℕ)
    → h < n
    → i < n
    → q < n
    → dist n h i + 1 < n
    → dist n h q < dist n h (step n i)
    → (dist n h q < dist n h i) ⊎ (q ≡ i)
dist_near n h i q a b c s l = grind arith

mod_back : (m q d : ℕ) → 0 < d → d < m → (m * q + (m - d)) % m ≡ m - d
mod_back m q d h l = grind arith

back_eq : (m q d : ℕ) → 0 < d → d < m → m * suc q ≡ 2 ^ 64 → 2 ^ 64 - d ≡ m * q + (m - d)
back_eq m q d h l e = grind arith

pow_pred : (k : ℕ) → k < 32 → (q : ℕ) × (2 ^ k * suc q ≡ 2 ^ 64)
pow_pred k h =
    let whole : 2 ^ k * 2 ^ (64 - k) ≡ 2 ^ 64 =
      sym (pow2_add k (64 - k)) ∙ ap (λ (n : ℕ). 2 ^ n) exponents in
    (2 ^ (64 - k) - 1, ap (λ (n : ℕ). 2 ^ k * n) back ∙ whole)
  where
    exponents : k + (64 - k) ≡ 64
    exponents = omega arith

    back : suc (2 ^ (64 - k) - 1) ≡ 2 ^ (64 - k)
    back = omega (arith, pow2_pos (64 - k))

back_mod : (k d : ℕ) → k < 32 → 0 < d → d < 2 ^ k → (2 ^ 64 - d) % 2 ^ k ≡ 2 ^ k - d
back_mod k d h p l =
    let (q, e) = pow_pred k h in
    ap (λ (n : ℕ). n % 2 ^ k) (back_eq (2 ^ k) q d p l e) ∙ mod_back (2 ^ k) q d p l

mod_small : (a m : ℕ) → a < m → a % m ≡ a
mod_small a m h = grind arith

div_small : (x a b : ℕ) → x < a * b → x / b < a
div_small x a b h = grind arith

pub steps_from-dist :
    (k : ℕ) (slots : List Ghost) (h j : ℕ)
    → length slots ≡ 2 ^ k
    → k < 32
    → h < 2 ^ k
    → j < 2 ^ k
    → steps_from slots h j ≡ dist (2 ^ k) h j
unfolding steps_from
steps_from-dist k slots h j e s a b = rw e (bit_and-mask ((j + 2 ^ 64 - h) % 2 ^ 64) k ∙ round)
  where
    round : ((j + 2 ^ 64 - h) % 2 ^ 64) % 2 ^ k ≡ dist (2 ^ k) h j
    round = elim (Bool-cases (leb h j)) [
      | inl t ↦
          let low : (j + 2 ^ 64 - h) % 2 ^ 64 ≡ j - h = grind (arith, pow2_mono k 32) in
          rw (t, low) (mod_small (j - h) (2 ^ k) (omega arith))
      | inr t ↦
          let low : (j + 2 ^ 64 - h) % 2 ^ 64 ≡ 2 ^ 64 - (h - j) = grind (arith, pow2_mono k 32) in
          rw (t, low) (back_mod k (h - j) s (grind arith) (omega arith) ∙ grind arith)
    ]

pub home-lt : (k id : ℕ) → k < 32 → home id k < 2 ^ k
unfolding home
home-lt k id h =
    let whole : 2 ^ k * 2 ^ (32 - k) ≡ 2 ^ 32 =
      sym (pow2_add k (32 - k)) ∙ ap (λ (n : ℕ). 2 ^ n) exponents in
    div_small (id * 0x9E37_79B1 % 2 ^ 32) (2 ^ k) (2 ^ (32 - k)) (omega (arith, whole))
  where
    exponents : k + (32 - k) ≡ 32
    exponents = omega arith

pub home_in-lt :
    (k : ℕ) (slots : List Ghost) (id : ℕ) → length slots ≡ 2 ^ k → k < 32 → home_in slots id < 2 ^ k
unfolding home_in
home_in-lt k slots id e h = rw (e, trailing_zeros-pow k h) (home-lt k id h)

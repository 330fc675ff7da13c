-- ===== src/Base/Words.antt =====
-- The bits of a `u64` one by one: `w & (1 << b) != 0`, `w |= 1 << b`, `w &= !(1 << b)`, and the
-- positions of the bits that are set.
use mathlib.Core.Bool.{Bool, true, false, ◌&&◌, ◌||◌, not}
use mathlib.Core.Path.{◌≡◌, refl, ap, ◌∙◌}
use mathlib.Core.Logic.{◌≢◌, inl, inr}
use mathlib.Core.List.{List, [], ◌∷◌}
use native.Mathlib.Omega.{arith}
use Prim.Native.Nat.{ℕ, zero, suc, ◌+◌, ◌-◌, ◌*◌, ◌/◌, ◌%◌, ◌^◌, ◌≤◌, ◌<◌}
use umwelt_rs.Base.Tests.{ltb, ◌==◌, Bool-cases, if◌then◌else◌}
use umwelt_rs.Base.Lists.{length}
use umwelt_rs.Base.Sets.{member}
use umwelt_rs.Base.Bits.{zeros_below, pow2_suc}

unfoldable pub test_bit : ℕ → ℕ → Bool
test_bit n zero = (n % 2) == 1
test_bit n (suc b) = test_bit (n / 2) b

unfoldable pub set_bit : ℕ → ℕ → ℕ
set_bit n zero = n / 2 * 2 + 1
set_bit n (suc b) = set_bit (n / 2) b * 2 + n % 2

unfoldable pub clear_bit : ℕ → ℕ → ℕ
clear_bit n zero = n / 2 * 2
clear_bit n (suc b) = clear_bit (n / 2) b * 2 + n % 2

-- `base` and up: the positions of the bits that are set, of the lowest `f`.
unfoldable pub ones : ℕ → ℕ → ℕ → List ℕ
ones zero base n = []
ones (suc f) base n =
    let rest = ones f (base + 1) (n / 2) in if (n % 2) == 1 then base ∷ rest else rest

pub halves : (s r : ℕ) → r < 2 → ((s * 2 + r) / 2 ≡ s) × ((s * 2 + r) % 2 ≡ r)
halves s r h = (omega arith, omega arith)

pub twice : (s : ℕ) → (s * 2 / 2 ≡ s) × (s * 2 % 2 ≡ 0)
twice s = (omega arith, omega arith)

pub test_bit-set_bit : (n b c : ℕ) → test_bit (set_bit n b) c ≡ ((b == c) || test_bit n c)
unfolding test_bit set_bit
test_bit-set_bit n zero zero = ground arith
test_bit-set_bit n zero (suc c) = rw (halves (n / 2) 1 (omega arith)).0 (ground arith)
test_bit-set_bit n (suc b) zero =
    rw (halves (set_bit (n / 2) b) (n % 2) (omega arith)).1 (ground arith)
test_bit-set_bit n (suc b) (suc c) =
    rw (halves (set_bit (n / 2) b) (n % 2) (omega arith)).0
      (ground (arith, test_bit-set_bit (n / 2) b c))

pub test_bit-clear_bit : (n b c : ℕ) → test_bit (clear_bit n b) c ≡ (not (b == c) && test_bit n c)
unfolding test_bit clear_bit
test_bit-clear_bit n zero zero = ground arith
test_bit-clear_bit n zero (suc c) = rw (twice (n / 2)).0 (ground arith)
test_bit-clear_bit n (suc b) zero =
    rw (halves (clear_bit (n / 2) b) (n % 2) (omega arith)).1 (ground arith)
test_bit-clear_bit n (suc b) (suc c) =
    rw (halves (clear_bit (n / 2) b) (n % 2) (omega arith)).0
      (ground (arith, test_bit-clear_bit (n / 2) b c))

pub set_bit-lt : (f n b : ℕ) → b < f → n < 2 ^ f → set_bit n b < 2 ^ f
unfolding set_bit
set_bit-lt zero n b h l = absurd (omega arith)
set_bit-lt (suc f) n zero h l = omega (arith, pow2_suc f)
set_bit-lt (suc f) n (suc b) h l =
    omega (arith, pow2_suc f, set_bit-lt f (n / 2) b (omega arith) (omega (arith, pow2_suc f)))

pub clear_bit-le : (n b : ℕ) → clear_bit n b ≤ n
unfolding clear_bit
clear_bit-le n zero = omega arith
clear_bit-le n (suc b) = omega (arith, clear_bit-le (n / 2) b)

pub length-ones-set_bit :
    (f base n b : ℕ)
    → b < f
    → length (ones f base (set_bit n b))
      ≡ (if test_bit n b then length (ones f base n) else suc (length (ones f base n)))
unfolding ones set_bit test_bit
length-ones-set_bit zero base n b h = absurd (omega arith)
length-ones-set_bit (suc f) base n zero h =
    rw ((halves (n / 2) 1 (omega arith)).0, (halves (n / 2) 1 (omega arith)).1) (ground arith)
length-ones-set_bit (suc f) base n (suc b) h =
    rw
      (
        (halves (set_bit (n / 2) b) (n % 2) (omega arith)).0,
        (halves (set_bit (n / 2) b) (n % 2) (omega arith)).1,
      )
      (ground (arith, length-ones-set_bit f (base + 1) (n / 2) b (omega arith)))

length_pos : (f base n b : ℕ) → b < f → test_bit n b ≡ true → 0 < length (ones f base n)
unfolding ones test_bit
length_pos zero base n b h t = absurd (omega arith)
length_pos (suc f) base n zero h t = ground arith
length_pos (suc f) base n (suc b) h t =
    ground (arith, length_pos f (base + 1) (n / 2) b (omega arith) t)

pub length-ones-clear_bit :
    (f base n b : ℕ)
    → b < f
    → length (ones f base (clear_bit n b))
      ≡ (if test_bit n b then length (ones f base n) - 1 else length (ones f base n))
unfolding ones clear_bit test_bit
length-ones-clear_bit zero base n b h = absurd (omega arith)
length-ones-clear_bit (suc f) base n zero h =
    rw ((twice (n / 2)).0, (twice (n / 2)).1) (ground arith)
length-ones-clear_bit (suc f) base n (suc b) h =
    rw
      (
        (halves (clear_bit (n / 2) b) (n % 2) (omega arith)).0,
        (halves (clear_bit (n / 2) b) (n % 2) (omega arith)).1,
      )
      (ground (
        arith,
        length-ones-clear_bit f (base + 1) (n / 2) b (omega arith),
        length_pos f (base + 1) (n / 2) b (omega arith),
      ))

pub member-ones_below : (f base n x : ℕ) → x < base → member x (ones f base n) ≡ false
unfolding ones member
member-ones_below zero base n x h = refl
member-ones_below (suc f) base n x h =
    ground (arith, member-ones_below f (base + 1) (n / 2) x (omega arith))

pub member-ones : (f base n d : ℕ) → member (base + d) (ones f base n) ≡ (ltb d f && test_bit n d)
unfolding ones member test_bit
member-ones zero base n d = ground arith
member-ones (suc f) base n zero =
    ground (arith, member-ones_below f (base + 1) (n / 2) (base + 0) (omega arith))
member-ones (suc f) base n (suc d) =
    let there : base + 1 + d ≡ base + suc d = omega arith in
    ground (arith, rw there at (member-ones f (base + 1) (n / 2) d))

-- The lowest bit that is set comes first.
pub ones_lowest :
    (f base n : ℕ)
    → n ≢ 0
    → n < 2 ^ f
    → ones f base n ≡ (base + zeros_below f n) ∷ ones f base (clear_bit n (zeros_below f n))
unfolding ones zeros_below clear_bit
ones_lowest zero base n h l = absurd (omega arith)
ones_lowest (suc f) base n h l = elim (Bool-cases ((n % 2) == 1)) [
  | inl t ↦ ground arith
  | inr t ↦
      let z = zeros_below f (n / 2) in
      let low = halves (clear_bit (n / 2) z) (n % 2) (omega arith) in
      let ih = ones_lowest f (base + 1) (n / 2) (ground arith) (omega (arith, pow2_suc f)) in
      let even : n % 2 ≡ 0 = ground arith in
      rw (t, low.0, low.1, t)
        (ih ∙ ap (λ (b : ℕ). b ∷ ones f (base + 1) (clear_bit (n / 2) z)) (omega arith))
]

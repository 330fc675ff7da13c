-- ===== src/Base/Bytes.antt =====
-- `to_le_bytes` and `from_le_bytes` of the unsigned types.
use Prim.Native.Nat.{ℕ, zero, suc, ◌+◌, ◌*◌, ◌/◌, ◌%◌, ◌^◌, ◌≤◌, ◌<◌}
use mathlib.Core.Path.{◌≡◌, refl, ap, ◌∙◌}
use mathlib.Core.List.{List, [], ◌∷◌}
use native.Mathlib.Omega.{arith}
use native.Mathlib.Nat.{pow-suc}
use umwelt_rs.Base.Bits.{pow2_add, pow2_mono}
use umwelt_rs.Base.Lists.{All, length, take}

abbrev pub IsByte : ℕ → Type 0
IsByte b = b < 256

-- `v` in `k` bytes, the lowest first.
unfoldable pub le_bytes : ℕ → ℕ → List ℕ
le_bytes zero v = []
le_bytes (suc k) v = (v % 256) ∷ le_bytes k (v / 256)

unfoldable pub from_le : List ℕ → ℕ
from_le [] = 0
from_le (b ∷ bs) = b + 256 * from_le bs

pub length-le_bytes : (k v : ℕ) → length (le_bytes k v) ≡ k
unfolding le_bytes
length-le_bytes zero v = refl
length-le_bytes (suc k) v = ap suc (length-le_bytes k (v / 256))

pub le_bytes-IsByte : (k v : ℕ) → All IsByte (le_bytes k v)
unfolding le_bytes
le_bytes-IsByte zero v = tt
le_bytes-IsByte (suc k) v = (omega arith, le_bytes-IsByte k (v / 256))

pow256_suc : (k : ℕ) → 256 ^ suc k ≡ 256 * 256 ^ k
pow256_suc k = grind (arith, pow-suc)

pub from_le-le_bytes : (k v : ℕ) → v < 256 ^ k → from_le (le_bytes k v) ≡ v
unfolding le_bytes from_le
from_le-le_bytes zero v h = omega arith
from_le-le_bytes (suc k) v h =
    omega (arith, from_le-le_bytes k (v / 256) (omega (arith, pow256_suc k)))

pub le_bytes-from_le : (bs : List ℕ) → All IsByte bs → le_bytes (length bs) (from_le bs) ≡ bs
unfolding le_bytes from_le
le_bytes-from_le [] h = refl
le_bytes-from_le (b ∷ bs) h =
    let lo : (b + 256 * from_le bs) % 256 ≡ b = omega arith in
    let hi : (b + 256 * from_le bs) / 256 ≡ from_le bs = omega arith in
    rw (lo, hi, le_bytes-from_le bs h.1)

pub from_le-lt : (bs : List ℕ) → All IsByte bs → from_le bs < 256 ^ length bs
unfolding from_le
from_le-lt [] h = omega arith
from_le-lt (b ∷ bs) h = omega (arith, from_le-lt bs h.1, pow256_suc (length bs))

pub take-le_bytes : (k m v : ℕ) → k ≤ m → take k (le_bytes m v) ≡ le_bytes k v
unfolding le_bytes
take-le_bytes zero m v h = refl
take-le_bytes (suc k) zero v h = absurd (omega arith)
take-le_bytes (suc k) (suc m) v h = ap (◌∷◌ (v % 256)) (take-le_bytes k m (v / 256) (omega arith))

pow256_pow2 : (k : ℕ) → 256 ^ k ≡ 2 ^ (8 * k)
pow256_pow2 zero = refl
pow256_pow2 (suc k) =
    pow256_suc k ∙ omega (arith, pow256_pow2 k, ap (λ (n : ℕ). 2 ^ n) eight, pow2_add 8 (8 * k))
  where
    eight : 8 * suc k ≡ 8 + 8 * k
    eight = omega arith

-- A number of `b` bits is read back from as many bytes as cover the bits.
pub from_le-le_bytes_bits : (k b v : ℕ) → b ≤ 8 * k → v < 2 ^ b → from_le (le_bytes k v) ≡ v
from_le-le_bytes_bits k b v h l =
    from_le-le_bytes k v (omega (arith, pow256_pow2 k, pow2_mono b (8 * k) h))

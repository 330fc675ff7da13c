-- ===== src/Codec/RoundTrip.antt =====
-- codec.rs: a record is decoded as it was encoded, and its layout follows from the two extents.
use Prim.Native.Nat.{bit_and}
use umwelt_rs.Base.{ℕ, ◌+◌, ◌-◌, ◌*◌, ◌/◌, ◌%◌, ◌^◌, ◌≤◌, ◌<◌, ◌≡◌, refl, sym, ap, ◌∙◌, arith}
use umwelt_rs.Base.Int.{pos, as_u32, as_i32}
use umwelt_rs.Base.Bits.{pow2_pos, pow2_add, pow2_mono}
use umwelt_rs.Base.Masks.{bit_or-shifted, bit_and-mask}
use umwelt_rs.Pos.{Pos3}
use umwelt_rs.Config.Cells.{id_div, id_mod}
use umwelt_rs.Codec.{RecordCodec, shl_u128, packed, unpacked}

-- A position of the region by its three numbers.
pub record InBits (c : RecordCodec) (p : Pos3) (x y z : ℕ) : Type 0 where
  pub x_eq : p.x ≡ pos x
  pub y_eq : p.y ≡ pos y
  pub z_eq : p.z ≡ pos z
  pub x_lt : x < 2 ^ c.h_bits
  pub y_lt : y < 2 ^ c.h_bits
  pub z_lt : z < 2 ^ c.v_bits

pub record IsLayout (c : RecordCodec) : Type 0 where
  pub h_small : c.h_bits < 31
  pub v_small : c.v_bits < 31
  pub covers : 2 * c.h_bits + c.v_bits ≤ 8 * c.pos_bytes
  pub fits : c.pos_bytes ≤ 16

pair_lt : (x y m : ℕ) → x < m → y < m → x + y * m < m * m
pair_lt x y m h k = grind arith

third_lt : (n z m v : ℕ) → n < m → z < v → n + z * m < v * m
third_lt n z m v h k = grind arith

times_lt : (y m v b : ℕ) → y < v → 0 < m → v * m ≤ b → y * m < b
times_lt y m v b h p l = grind arith

square : (k : ℕ) → 2 ^ (2 * k) ≡ 2 ^ k * 2 ^ k
square k = ap (λ (n : ℕ). 2 ^ n) (omega arith) ∙ pow2_add k k

shl_small : (y k b : ℕ) → y < 2 ^ b → b + k ≤ 128 → shl_u128 y k ≡ y * 2 ^ k
shl_small y k b h l =
    let lt : y * 2 ^ k < 2 ^ 128 =
      times_lt y (2 ^ k) (2 ^ b) (2 ^ 128) h (pow2_pos k)
        (omega (arith, pow2_add b k, pow2_mono (b + k) 128 l)) in
    omega (arith, lt)

as_u32_small : (n : ℕ) → n < 2 ^ 31 → (as_u32 (pos n) ≡ n) × (as_i32 n ≡ pos n)
as_u32_small n h = (omega arith, ground arith)

-- The packed number, written with sums.
packed-sum :
    (c : RecordCodec) (p : Pos3) (x y z : ℕ)
    → IsLayout c
    → InBits c p x y z
    → packed c p ≡ (x + y * 2 ^ c.h_bits) + z * 2 ^ (2 * c.h_bits)
unfolding packed
packed-sum c p x y z l b =
    let h31 = pow2_mono c.h_bits 31 (omega (arith, l.h_small)) in
    let v31 = pow2_mono c.v_bits 31 (omega (arith, l.v_small)) in
    let xs = (as_u32_small x (omega (arith, b.x_lt))).0 in
    let ys = (as_u32_small y (omega (arith, b.y_lt))).0 in
    let zs = (as_u32_small z (omega (arith, b.z_lt))).0 in
    let sy = shl_small y c.h_bits c.h_bits b.y_lt (omega (arith, l.h_small)) in
    let sz = shl_small z (2 * c.h_bits) c.v_bits b.z_lt (omega (arith, l.h_small, l.v_small)) in
    let low : x + y * 2 ^ c.h_bits < 2 ^ (2 * c.h_bits) =
      omega (arith, square c.h_bits, pair_lt x y (2 ^ c.h_bits) b.x_lt b.y_lt) in
    let ux : as_u32 p.x ≡ x = ap as_u32 b.x_eq ∙ xs in
    let uy : as_u32 p.y ≡ y = ap as_u32 b.y_eq ∙ ys in
    let uz : as_u32 p.z ≡ z = ap as_u32 b.z_eq ∙ zs in
    rw
      (
        ux,
        uy,
        uz,
        sy,
        sz,
        bit_or-shifted x y c.h_bits b.x_lt,
        bit_or-shifted (x + y * 2 ^ c.h_bits) z (2 * c.h_bits) low,
      )
      refl

sum_order : (x y z m : ℕ) → (x + y * m) + z * (m * m) ≡ (y + z * m) * m + x
sum_order x y z m = grind arith

pub unpacked-packed :
    (c : RecordCodec) (p : Pos3) (x y z : ℕ)
    → IsLayout c
    → InBits c p x y z
    → unpacked c (packed c p) ≡ p
unfolding unpacked
unpacked-packed c p x y z l b =
    let m : ℕ = 2 ^ c.h_bits in
    let h31 = pow2_mono c.h_bits 31 (omega (arith, l.h_small)) in
    let v31 = pow2_mono c.v_bits 31 (omega (arith, l.v_small)) in
    let total : packed c p ≡ (y + z * m) * m + x =
      packed-sum c p x y z l b
      ∙ ap (λ (n : ℕ). (x + y * m) + z * n) (square c.h_bits)
      ∙ sum_order x y z m in
    let total' : packed c p ≡ z * 2 ^ (2 * c.h_bits) + (x + y * m) =
      omega (arith, packed-sum c p x y z l b) in
    let low : x + y * m < 2 ^ (2 * c.h_bits) =
      omega (arith, square c.h_bits, pair_lt x y m b.x_lt b.y_lt) in
    let qx : bit_and (packed c p) (m - 1) ≡ x =
      bit_and-mask (packed c p) c.h_bits
      ∙ ap (λ (n : ℕ). n % m) total
      ∙ id_mod x (y + z * m) m b.x_lt in
    let qy : bit_and (packed c p / m) (m - 1) ≡ y =
      bit_and-mask (packed c p / m) c.h_bits
      ∙ ap (λ (n : ℕ). n / m % m) total
      ∙ ap (λ (n : ℕ). n % m) (id_div x (y + z * m) m b.x_lt ∙ omega arith)
      ∙ id_mod y z m b.y_lt in
    let qz : bit_and (packed c p / 2 ^ (2 * c.h_bits)) (2 ^ c.v_bits - 1) ≡ z =
      bit_and-mask (packed c p / 2 ^ (2 * c.h_bits)) c.v_bits
      ∙ ap (λ (n : ℕ). n / 2 ^ (2 * c.h_bits) % 2 ^ c.v_bits) total'
      ∙ ap (λ (n : ℕ). n % 2 ^ c.v_bits) (id_div (x + y * m) z (2 ^ (2 * c.h_bits)) low)
      ∙ small z (2 ^ c.v_bits) b.z_lt in
    λ i. record {
      x = (ap as_i32 qx ∙ (as_u32_small x (omega (arith, b.x_lt))).1 ∙ sym b.x_eq) i;
      y = (ap as_i32 qy ∙ (as_u32_small y (omega (arith, b.y_lt))).1 ∙ sym b.y_eq) i;
      z = (ap as_i32 qz ∙ (as_u32_small z (omega (arith, b.z_lt))).1 ∙ sym b.z_eq) i;
    }
  where
    small : (n k : ℕ) → n < k → n % k ≡ n
    small n k h = grind arith

pub packed_lt :
    (c : RecordCodec) (p : Pos3) (x y z : ℕ)
    → IsLayout c
    → InBits c p x y z
    → packed c p < 2 ^ (2 * c.h_bits + c.v_bits)
packed_lt c p x y z l b = omega (
  arith,
  packed-sum c p x y z l b,
  pow2_add c.v_bits (2 * c.h_bits),
  ap (λ (n : ℕ). 2 ^ n) (swap (2 * c.h_bits) c.v_bits),
  third_lt (x + y * 2 ^ c.h_bits) z (2 ^ (2 * c.h_bits)) (2 ^ c.v_bits)
      (omega (arith, square c.h_bits, pair_lt x y (2 ^ c.h_bits) b.x_lt b.y_lt)) b.z_lt,
)
  where
    swap : (a b : ℕ) → a + b ≡ b + a
    swap a b = omega arith

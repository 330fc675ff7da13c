-- ===== src/Codec.antt =====
-- codec.rs: the record of one entity in a packet. A `u128` shift drops the bits past the 128th; the
-- sums of `usize` cannot overflow.
pub mod RoundTrip
pub mod Record
use Prim.Native.Nat.{bit_or, bit_and}
use umwelt_rs.Base.{
  ℕ, ◌+◌, ◌-◌, ◌*◌, ◌/◌, ◌%◌, ◌^◌, ltb, max, if◌then◌else◌, Option, none, some, List, ◌++◌, length,
  take, drop,
}
use umwelt_rs.Base.Int.{as_u32, as_i32, pos, pos_part}
use umwelt_rs.Base.Result.{Result, ok, ◌>>=◌}
use umwelt_rs.Base.Bits.{div_ceil}
use umwelt_rs.Base.Bytes.{le_bytes, from_le}
use umwelt_rs.Base.Int.{ℤ}
use umwelt_rs.Pos.{Pos3}
use umwelt_rs.Config.{
  WorldConfig, ConfigError, builder, build, region_size_m, vertical_extent_m,
  horizontal_view_radius_m, max_horizontal_speed_m_per_sec, set_tick_hz,
}

pub record RecordCodec : Type 0 where
  pub h_bits : ℕ
  pub v_bits : ℕ
  pub pos_bytes : ℕ

-- `RecordCodec::new`; nothing where the assertion of at most 128 bits panics.
unfoldable pub codec_of : WorldConfig → Option RecordCodec
codec_of cfg =
    let total = 2 * cfg.horizontal_bits + cfg.vertical_bits in
    if ltb 128 total
    then none
    else some (record {
      h_bits = cfg.horizontal_bits;
      v_bits = cfg.vertical_bits;
      pos_bytes = div_ceil total 8;
    })

unfoldable pub record_bytes : RecordCodec → ℕ
record_bytes c = 8 + c.pos_bytes + 2

-- `v << k` of a `u128`.
abbrev pub shl_u128 : ℕ → ℕ → ℕ
shl_u128 v k = v * 2 ^ k % 2 ^ 128

-- The three axes in one `u128`, the first lowest.
unfoldable pub packed : RecordCodec → Pos3 → ℕ
packed c p =
    bit_or (bit_or (as_u32 p.x) (shl_u128 (as_u32 p.y) c.h_bits))
      (shl_u128 (as_u32 p.z) (2 * c.h_bits))

-- What is appended to the output buffer.
unfoldable pub encode : RecordCodec → ℕ → Pos3 → ℕ → List ℕ → List ℕ
encode c name p tag out =
    ((out ++ le_bytes 8 name) ++ take c.pos_bytes (le_bytes 16 (packed c p))) ++ le_bytes 2 tag

unfoldable pub unpacked : RecordCodec → ℕ → Pos3
unpacked c n =
    let hmask = 2 ^ c.h_bits - 1 in
    let vmask = 2 ^ c.v_bits - 1 in
    record {
      x = as_i32 (bit_and n hmask);
      y = as_i32 (bit_and (n / 2 ^ c.h_bits) hmask);
      z = as_i32 (bit_and (n / 2 ^ (2 * c.h_bits)) vmask);
    }

-- The array that the position is copied into is zero past it, which adds nothing to the number.
unfoldable pub decode : RecordCodec → List ℕ → Option (ℕ × Pos3 × ℕ)
decode c buf =
    if ltb (length buf) (record_bytes c)
    then none
    else some (
      from_le (take 8 buf),
      unpacked c (from_le (take c.pos_bytes (drop 8 buf))),
      from_le (take 2 (drop (8 + c.pos_bytes) buf)),
    )

-- `(region_size_m / 16).max(1)`; the quotient of a negative size is not positive.
unfoldable pub thin_radius : ℤ → ℤ
thin_radius region = pos (max (pos_part region / 16) 1)

-- `RecordCodec::for_extents`.
unfoldable pub for_extents : ℤ → ℤ → Result ConfigError (Option RecordCodec)
for_extents region vertical =
    build (
      set_tick_hz 20 (
        max_horizontal_speed_m_per_sec (pos 1) (
          horizontal_view_radius_m (thin_radius region)
            (vertical_extent_m vertical (region_size_m region builder)))))
    >>= λ cfg. ok (codec_of cfg)

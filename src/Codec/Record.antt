-- ===== src/Codec/Record.antt =====
-- codec.rs: every record of a position of the region is decoded as it was encoded.
use umwelt_rs.Base.{
  ℕ, ◌+◌, ◌*◌, ◌≤◌, ◌<◌, ◌≡◌, refl, sym, ap, ◌∙◌, arith, true, false, ltb, some, List, ◌++◌, length,
  take, drop, length-append, take_run, drop_run, append_assoc,
}
use umwelt_rs.Base.Int.{ℤ, pos, pos_part, ltb_ℤ, leb_ℤ, IsU16, IsU64}
use umwelt_rs.Base.Bits.{div_ceil, div_ceil_lem}
use umwelt_rs.Base.Bytes.{
  le_bytes, from_le, from_le-le_bytes, from_le-le_bytes_bits, take-le_bytes, length-le_bytes,
}
use umwelt_rs.Pos.{Pos3, horizontal}
use umwelt_rs.Config.{WorldConfig, contains, contains_2d}
use umwelt_rs.Config.Valid.{IsValid}
use umwelt_rs.Config.Cells.{all_true}
use umwelt_rs.Codec.{RecordCodec, codec_of, record_bytes, packed, encode, unpacked, decode}
use umwelt_rs.Codec.RoundTrip.{InBits, IsLayout, unpacked-packed, packed_lt}

axis_of :
    (a e : ℤ) (m : ℕ)
    → e ≡ pos m
    → leb_ℤ (pos 0) a ≡ true
    → ltb_ℤ a e ≡ true
    → (a ≡ pos (pos_part a)) × (pos_part a < m)
axis_of a e m q l h = ground arith

-- The layout that a world implies.
abbrev pub layout_of : WorldConfig → RecordCodec
layout_of cfg = record {
  h_bits = cfg.horizontal_bits;
  v_bits = cfg.vertical_bits;
  pos_bytes = div_ceil (2 * cfg.horizontal_bits + cfg.vertical_bits) 8;
}

contains-InBits :
    (cfg : WorldConfig) (p : Pos3)
    → IsValid cfg
    → contains cfg p ≡ true
    → InBits (layout_of cfg) p (pos_part p.x) (pos_part p.y) (pos_part p.z)
unfolding contains contains_2d horizontal
contains-InBits cfg p v h =
    let (xl, yl, xh, yh, zl, zh) = all_true _ _ _ _ _ _ h in
    let (xe, xb) = axis_of p.x _ _ v.region_pow xl xh in
    let (ye, yb) = axis_of p.y _ _ v.region_pow yl yh in
    let (ze, zb) = axis_of p.z _ _ v.vertical_pow zl zh in
    record { x_eq = xe; y_eq = ye; z_eq = ze; x_lt = xb; y_lt = yb; z_lt = zb }

codec_of-IsLayout :
    (cfg : WorldConfig)
    → IsValid cfg
    → (codec_of cfg ≡ some (layout_of cfg)) × IsLayout (layout_of cfg)
unfolding codec_of
codec_of-IsLayout cfg v =
    let total : ℕ = 2 * cfg.horizontal_bits + cfg.vertical_bits in
    let cover = div_ceil_lem total 8 (omega arith) in
    let small : total ≤ 90 = omega (arith, v.region_bits, v.vertical_bits) in
    (
      ground arith,
      record {
        h_small = v.region_bits;
        v_small = v.vertical_bits;
        covers = omega (arith, cover.0);
        fits = omega (arith, cover.1 16 (omega (arith, small)));
      },
    )

-- What one record is, in three runs of bytes.
abbrev body : RecordCodec → ℕ → Pos3 → ℕ → List ℕ
body c name p tag = le_bytes 8 name ++ (le_bytes c.pos_bytes (packed c p) ++ le_bytes 2 tag)

three : (o a b c : List ℕ) → ((o ++ a) ++ b) ++ c ≡ o ++ (a ++ (b ++ c))
three o a b c = simp append_assoc

four : (a b c d : List ℕ) → (a ++ (b ++ c)) ++ d ≡ a ++ (b ++ (c ++ d))
four a b c d = simp append_assoc

encode-body :
    (c : RecordCodec) (name : ℕ) (p : Pos3) (tag : ℕ) (out : List ℕ)
    → c.pos_bytes ≤ 16
    → encode c name p tag out ≡ out ++ body c name p tag
unfolding encode
encode-body c name p tag out h =
    rw (take-le_bytes c.pos_bytes 16 (packed c p) h)
      (three out (le_bytes 8 name) (le_bytes c.pos_bytes (packed c p)) (le_bytes 2 tag))

length-body :
    (c : RecordCodec) (name : ℕ) (p : Pos3) (tag : ℕ) → length (body c name p tag) ≡ record_bytes c
unfolding record_bytes
length-body c name p tag = omega (
  arith,
  length-append (le_bytes 8 name) (le_bytes c.pos_bytes (packed c p) ++ le_bytes 2 tag),
  length-append (le_bytes c.pos_bytes (packed c p)) (le_bytes 2 tag),
  length-le_bytes 8 name,
  length-le_bytes c.pos_bytes (packed c p),
  length-le_bytes 2 tag,
)

-- The three reads of `decode` find the three runs.
decode_runs :
    (c : RecordCodec) (a b t rest : List ℕ)
    → length a ≡ 8
    → length b ≡ c.pos_bytes
    → length t ≡ 2
    → decode c (a ++ (b ++ (t ++ rest))) ≡ some (from_le a, unpacked c (from_le b), from_le t)
unfolding decode record_bytes
decode_runs c a b t rest ha hb ht =
    let long : ltb (length (a ++ (b ++ (t ++ rest)))) (8 + c.pos_bytes + 2) ≡ false = ground (
      arith,
      length-append a (b ++ (t ++ rest)),
      length-append b (t ++ rest),
      length-append t rest,
    ) in
    let name : take 8 (a ++ (b ++ (t ++ rest))) ≡ a = take_run 8 a _ ha in
    let after : drop 8 (a ++ (b ++ (t ++ rest))) ≡ b ++ (t ++ rest) = drop_run 8 a _ ha in
    let bits : take c.pos_bytes (b ++ (t ++ rest)) ≡ b = take_run c.pos_bytes b _ hb in
    let last : drop (8 + c.pos_bytes) (a ++ (b ++ (t ++ rest))) ≡ t ++ rest =
      ap (drop (8 + c.pos_bytes)) (sym (append_assoc a b (t ++ rest)))
      ∙ drop_run (8 + c.pos_bytes) (a ++ b) (t ++ rest) (omega (arith, length-append a b)) in
    let tag : take 2 (t ++ rest) ≡ t = take_run 2 t rest ht in
    rw (long, name, after, bits, last, tag) refl

decode-body :
    (c : RecordCodec) (name tag x y z : ℕ) (p : Pos3) (rest : List ℕ)
    → IsU64 name
    → IsU16 tag
    → IsLayout c
    → InBits c p x y z
    → decode c (body c name p tag ++ rest) ≡ some (name, p, tag)
decode-body c name tag x y z p rest hn ht l b =
    let bits = packed_lt c p x y z l b in
    ap (decode c) (four (le_bytes 8 name) (le_bytes c.pos_bytes (packed c p)) (le_bytes 2 tag) rest)
    ∙ decode_runs c (le_bytes 8 name) (le_bytes c.pos_bytes (packed c p)) (le_bytes 2 tag) rest
        (length-le_bytes 8 name) (length-le_bytes c.pos_bytes (packed c p)) (length-le_bytes 2 tag)
    ∙ rw
        (
          from_le-le_bytes 8 name (omega arith),
          from_le-le_bytes_bits c.pos_bytes _ (packed c p) l.covers bits,
          from_le-le_bytes 2 tag (omega arith),
          unpacked-packed c p x y z l b,
        )
        refl

-- A codec that reads back what it appends for one entity.
pub record Recorded (c : RecordCodec) (name : ℕ) (p : Pos3) (tag : ℕ) : Type 0 where
  pub bytes : List ℕ
  pub written : (out : List ℕ) → encode c name p tag out ≡ out ++ bytes
  pub size : length bytes ≡ record_bytes c
  pub read : (rest : List ℕ) → decode c (bytes ++ rest) ≡ some (name, p, tag)

-- A valid world has a codec, and for every position in the region, 64-bit name and 16-bit tag that
-- codec appends one record of record_bytes bytes, which it decodes to the three from the front of
-- any buffer.
pub codec_of-Recorded :
    (cfg : WorldConfig) (name tag : ℕ) (p : Pos3)
    → IsValid cfg
    → contains cfg p ≡ true
    → IsU64 name
    → IsU16 tag
    → (c : RecordCodec) × (codec_of cfg ≡ some c) × Recorded c name p tag
codec_of-Recorded cfg name tag p v h hn ht =
    let (e, l) = codec_of-IsLayout cfg v in
    let c = layout_of cfg in
    (
      c,
      e,
      record {
        bytes = body c name p tag;
        written = λ out. encode-body c name p tag out l.fits;
        size = length-body c name p tag;
        read = λ rest. decode-body c name tag _ _ _ p rest hn ht l (contains-InBits cfg p v h);
      },
    )

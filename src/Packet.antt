-- ===== src/Packet.antt =====
-- packet.rs: a client's payload. Where the source panics, by an index or by `expect`, the model
-- answers `none`.
pub mod Chunks
pub mod Read
pub mod RoundTrip
pub mod Payload
pub mod Delivery
use umwelt_rs.Base.{
  ℕ, zero, suc, ◌+◌, ◌*◌, ◌^◌, Bool, true, false, ltb, leb, if◌then◌else◌, Option, none, some, List,
  [], ◌∷◌, ◌++◌, length, take, drop, get_elem?,
}
use umwelt_rs.Base.Bytes.{le_bytes, from_le}
use umwelt_rs.Fixed.{Fixed, fixed_zero}
use umwelt_rs.Placement.{Placement}
use umwelt_rs.Pos.{Pos3, WorldPos, from_local, from_unplaced}
use umwelt_rs.Map.{and_then}
use umwelt_rs.Codec.{RecordCodec, record_bytes, encode, decode}

abbrev pub despawn_bytes : ℕ
despawn_bytes = 8

pub record PacketHeader : Type 0 where
  pub tick : ℕ
  pub sequence : ℕ
  pub ack : ℕ
  pub ack_bits : ℕ
  pub despawns : ℕ
  pub updates : ℕ

abbrev pub header_bytes : ℕ
header_bytes = 16

abbrev pub default_header : PacketHeader
default_header = record { tick = 0; sequence = 0; ack = 0; ack_bits = 0; despawns = 0; updates = 0 }

unfoldable pub to_bytes : PacketHeader → List ℕ
to_bytes h =
    le_bytes 4 h.tick
    ++ (le_bytes 2 h.sequence
        ++ (le_bytes 2 h.ack
            ++ (le_bytes 4 h.ack_bits ++ (le_bytes 2 h.despawns ++ le_bytes 2 h.updates))))

unfoldable pub header_of : List ℕ → PacketHeader
header_of buf = record {
  tick = from_le (take 4 buf);
  sequence = from_le (take 2 (drop 4 buf));
  ack = from_le (take 2 (drop 6 buf));
  ack_bits = from_le (take 4 (drop 8 buf));
  despawns = from_le (take 2 (drop 12 buf));
  updates = from_le (take 2 (drop 14 buf));
}

unfoldable pub decode_header : List ℕ → Option PacketHeader
decode_header buf = if ltb (length buf) header_bytes then none else some (header_of buf)

-- A name, a position and a tag.
abbrev pub Update : Type 0
Update = ℕ × Pos3 × ℕ

unfoldable pub write_despawns : List ℕ → List ℕ → List ℕ
write_despawns [] buf = buf
write_despawns (name ∷ names) buf = write_despawns names (buf ++ le_bytes 8 name)

unfoldable pub write_updates : RecordCodec → List Update → List ℕ → List ℕ
write_updates c [] buf = buf
write_updates c ((name, at, tag) ∷ us) buf = write_updates c us (encode c name at tag buf)

-- `u16::try_from(n).expect(…)`.
unfoldable pub expect_u16 : ℕ → Option ℕ
expect_u16 n = if ltb n (2 ^ 16) then some n else none

-- `PacketWriter::build`: a header is reserved, and rewritten once the counts are known.
unfoldable pub build : RecordCodec → ℕ → ℕ → List ℕ → List Update → Option (List ℕ)
build c tick sequence despawns updates =
    let buf = write_updates c updates (write_despawns despawns (to_bytes default_header)) in
    and_then (expect_u16 (length despawns)) λ n. and_then (expect_u16 (length updates)) λ m.
      let header : PacketHeader = record {
        tick = tick;
        sequence = sequence;
        ack = 0;
        ack_bits = 0;
        despawns = n;
        updates = m;
      } in
      some (to_bytes header ++ drop header_bytes buf)

pub record TickObservation : Type 0 where
  pub codec : RecordCodec
  pub header : PacketHeader
  pub body : List ℕ
  pub placement : Option Placement
  pub region_size : Fixed
  pub keep : Option (List Bool)

-- The bytes that the counts of a header claim.
unfoldable pub claimed : RecordCodec → PacketHeader → ℕ
claimed c h = header_bytes + h.despawns * despawn_bytes + h.updates * record_bytes c

unfoldable pub in_frame : RecordCodec → List ℕ → Option Placement → Fixed → Option TickObservation
in_frame c buf placement region_size = and_then (decode_header buf) λ h.
    if ltb (length buf) (claimed c h)
    then none
    else some (record {
      codec = c;
      header = h;
      body = drop header_bytes (take (claimed c h) buf);
      placement = placement;
      region_size = region_size;
      keep = none;
    })

unfoldable pub mask_despawns : List Bool → TickObservation → TickObservation
mask_despawns keep o = record o { keep = some keep }

-- `n` values, the `k`-th read at `base + k * stride`, from the `k`-th on.
unfoldable pub collect :
    {A : Type 0} → (List ℕ → Option A) → ℕ → ℕ → ℕ → ℕ → List ℕ → Option (List A)
collect read base stride k zero body = some []
collect read base stride k (suc n) body =
    and_then (read (drop (base + k * stride) body))
      λ a. and_then (collect read base stride (suc k) n body) λ as'. some (a ∷ as')

unfoldable pub read_name : List ℕ → Option ℕ
read_name b = if ltb (length b) despawn_bytes then none else some (from_le (take 8 b))

unfoldable pub all_despawns : TickObservation → Option (List ℕ)
all_despawns o = collect read_name 0 despawn_bytes 0 o.header.despawns o.body

unfoldable pub world : TickObservation → Pos3 → WorldPos
world o at = elim o.placement [
  | some square ↦ from_local at square o.region_size
  | none ↦ from_unplaced at
]

-- The names whose index is kept, from the `k`-th on.
unfoldable pub kept : Option (List Bool) → ℕ → List ℕ → Option (List ℕ)
kept keep k [] = some []
kept none k (name ∷ names) = and_then (kept none (suc k) names) λ rest. some (name ∷ rest)
kept (some keep) k (name ∷ names) =
    and_then (get_elem? keep k)
      λ b. and_then (kept (some keep) (suc k) names) λ rest. some (if b then name ∷ rest else rest)

unfoldable pub despawns_of : TickObservation → Option (List ℕ)
despawns_of o = and_then (all_despawns o) (kept o.keep 0)

unfoldable pub read_update : TickObservation → List ℕ → Option (ℕ × WorldPos × ℕ)
read_update o b = and_then (decode o.codec b) λ (name, at, tag). some (name, world o at, tag)

unfoldable pub updates_of : TickObservation → Option (List (ℕ × WorldPos × ℕ))
updates_of o =
    collect (read_update o) (o.header.despawns * despawn_bytes) (record_bytes o.codec) 0
      o.header.updates o.body

-- `TickObservation::new`: a region off the map.
unfoldable pub observe : RecordCodec → List ℕ → Option TickObservation
unfolding in_frame
observe c buf = in_frame c buf none fixed_zero

-- `PacketHeader::encode`.
unfoldable pub encode_header : PacketHeader → List ℕ → List ℕ
unfolding to_bytes
encode_header h out = out ++ to_bytes h

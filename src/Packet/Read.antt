-- ===== src/Packet/Read.antt =====
-- packet.rs: reading a payload never panics, whatever its bytes.
use umwelt_rs.Base.{
  ℕ, suc, ◌+◌, ◌*◌, ◌≤◌, ◌≡◌, refl, ap, arith, Option, some, none, List, [], ◌∷◌, length, take,
  drop, length-drop, length-take, le→ltb,
}
use umwelt_rs.Fixed.{Fixed}
use umwelt_rs.Placement.{Placement}
use umwelt_rs.Base.Bytes.{from_le}
use umwelt_rs.Pos.{Pos3, WorldPos}
use umwelt_rs.Map.Wf.{and_then-some}
use umwelt_rs.Codec.{RecordCodec, record_bytes, decode, unpacked}
use umwelt_rs.Packet.{
  TickObservation, decode_header, claimed, header_bytes, in_frame, read_name, all_despawns,
  read_update, updates_of, kept, despawns_of, world,
}
use umwelt_rs.Packet.Chunks.{ReadsFrom, collect_total}

in_frame-some :
    (c : RecordCodec) (buf : List ℕ) (placement : Option Placement) (size : Fixed)
    (o : TickObservation)
    → in_frame c buf placement size ≡ some o
    → (claimed o.codec o.header ≤ length buf)
      × (o.body ≡ drop header_bytes (take (claimed o.codec o.header) buf))
      × (o.keep ≡ none)
unfolding in_frame
in_frame-some c buf placement size o e =
    let (h, eh, rest) = and_then-some (decode_header buf) _ e in ground arith

name_reads : ReadsFrom 8 read_name
unfolding read_name
name_reads b l = (from_le (take 8 b), ground arith)

record_reads :
    (c : RecordCodec) (b : List ℕ)
    → record_bytes c ≤ length b
    → (name : ℕ) × (at : Pos3) × (tag : ℕ) × (decode c b ≡ some (name, at, tag))
unfolding decode
record_reads c b l = (
  from_le (take 8 b),
  unpacked c (from_le (take c.pos_bytes (drop 8 b))),
  from_le (take 2 (drop (8 + c.pos_bytes) b)),
  rw (le→ltb (length b) (record_bytes c) l) refl,
)

update_reads : (o : TickObservation) → ReadsFrom (record_bytes o.codec) (read_update o)
unfolding read_update
update_reads o b l =
    let (name, at, tag, e) = record_reads o.codec b l in ((name, world o at, tag), rw e refl)

kept_all : (k : ℕ) (names : List ℕ) → kept none k names ≡ some names
unfolding kept
kept_all k [] = refl
kept_all k (name ∷ names) = rw (kept_all (suc k) names) refl

length-body :
    (o : TickObservation) (buf : List ℕ)
    → claimed o.codec o.header ≤ length buf
    → o.body ≡ drop header_bytes (take (claimed o.codec o.header) buf)
    → length o.body ≡ o.header.despawns * 8 + o.header.updates * record_bytes o.codec
unfolding claimed
length-body o buf l e = omega (
  arith,
  ap length e,
  length-drop header_bytes (take (claimed o.codec o.header) buf),
  length-take (claimed o.codec o.header) buf l,
)

pub despawns_all :
    (o : TickObservation) (names : List ℕ)
    → o.keep ≡ none
    → all_despawns o ≡ some names
    → despawns_of o ≡ some names
unfolding despawns_of
despawns_all o names k e = rw (e, k) (kept_all 0 names)

-- Whatever the bytes, once in_frame accepts them every despawn and every update that the header
-- counts is read, and no read leaves the buffer.
pub in_frame-total :
    (c : RecordCodec) (buf : List ℕ) (placement : Option Placement) (size : Fixed)
    (o : TickObservation)
    → in_frame c buf placement size ≡ some o
    → ((names : List ℕ) × (all_despawns o ≡ some names)
        × (despawns_of o ≡ some names)
        × (length names ≡ o.header.despawns))
      × ((us : List (ℕ × WorldPos × ℕ)) × (updates_of o ≡ some us) × (length us ≡ o.header.updates))
unfolding all_despawns updates_of
in_frame-total c buf placement size o e =
    let (l, eb, ek) = in_frame-some c buf placement size o e in
    let width : length o.body ≡ o.header.despawns * 8 + o.header.updates * record_bytes o.codec =
      length-body o buf l eb in
    let (names, en, nn) =
      collect_total read_name 0 8 0 o.header.despawns o.body name_reads (omega (arith, width)) in
    let (us, eu, nu) =
      collect_total (read_update o) (o.header.despawns * 8) (record_bytes o.codec) 0
        o.header.updates o.body (update_reads o) (omega (arith, width)) in
    ((names, en, despawns_all o names ek en, nn), (us, eu, nu))

-- ===== src/Packet/RoundTrip.antt =====
-- packet.rs: what a region writes for a client is what the client reads.
use umwelt_rs.Base.{
  ℕ, ◌≡◌, refl, sym, ap, ◌∙◌, arith, false, ltb, some, List, [], ◌∷◌, ◌++◌, length, All,
  length-append, take_run, append-nil, append_assoc,
}
use umwelt_rs.Base.Int.{IsU16, IsU32, IsU64}
use umwelt_rs.Base.Bytes.{le_bytes, from_le-le_bytes, length-le_bytes}
use umwelt_rs.Codec.{RecordCodec, encode}
use umwelt_rs.Codec.Record.{Recorded}
use umwelt_rs.Packet.{
  PacketHeader, to_bytes, decode_header, header_of, Update, write_despawns, write_updates,
  read_name,
}
use umwelt_rs.Packet.Chunks.{flat, ReadBack}

-- A header whose numbers are those of its Rust types.
pub record IsHeader (h : PacketHeader) : Type 0 where
  pub tick : IsU32 h.tick
  pub sequence : IsU16 h.sequence
  pub ack : IsU16 h.ack
  pub ack_bits : IsU32 h.ack_bits
  pub despawns : IsU16 h.despawns
  pub updates : IsU16 h.updates

pub length-to_bytes : (h : PacketHeader) → length (to_bytes h) ≡ 16
unfolding to_bytes le_bytes
length-to_bytes h = refl

header_of-to_bytes :
    (h : PacketHeader) (rest : List ℕ) → IsHeader h → header_of (to_bytes h ++ rest) ≡ h
unfolding header_of to_bytes le_bytes
header_of-to_bytes h rest i = λ j. record {
  tick = from_le-le_bytes 4 h.tick i.tick j;
  sequence = from_le-le_bytes 2 h.sequence i.sequence j;
  ack = from_le-le_bytes 2 h.ack i.ack j;
  ack_bits = from_le-le_bytes 4 h.ack_bits i.ack_bits j;
  despawns = from_le-le_bytes 2 h.despawns i.despawns j;
  updates = from_le-le_bytes 2 h.updates i.updates j;
}

-- A header of numbers in range is decoded as it was written, from the front of any buffer.
pub decode_header-to_bytes :
    (h : PacketHeader) (rest : List ℕ) → IsHeader h → decode_header (to_bytes h ++ rest) ≡ some h
unfolding decode_header
decode_header-to_bytes h rest i =
    let long : ltb (length (to_bytes h ++ rest)) 16 ≡ false =
      ground (arith, length-append (to_bytes h) rest, length-to_bytes h) in
    rw (long, header_of-to_bytes h rest i) refl

pub name_back : (name : ℕ) → IsU64 name → ReadBack 8 (le_bytes 8) read_name (λ n. n) name
name_back name h = (length-le_bytes 8 name, λ rest. back rest)
  where
    back : (rest : List ℕ) → read_name (le_bytes 8 name ++ rest) ≡ some name
    back rest =
        unfold read_name in
        let long : ltb (length (le_bytes 8 name ++ rest)) 8 ≡ false =
          ground (arith, length-append (le_bytes 8 name) rest, length-le_bytes 8 name) in
        rw
          (
            long,
            take_run 8 (le_bytes 8 name) rest (length-le_bytes 8 name),
            from_le-le_bytes 8 name (omega arith),
          )
          refl

pub write_despawns-flat :
    (names buf : List ℕ) → write_despawns names buf ≡ buf ++ flat (le_bytes 8) names
unfolding write_despawns flat
write_despawns-flat [] buf = sym (append-nil buf)
write_despawns-flat (name ∷ names) buf =
    write_despawns-flat names (buf ++ le_bytes 8 name)
    ∙ append_assoc buf (le_bytes 8 name) (flat (le_bytes 8) names)

-- An update that the codec of the region reads back.
abbrev pub bytes_of : RecordCodec → Update → List ℕ
bytes_of c (name, at, tag) = encode c name at tag []

abbrev pub IsRecorded : RecordCodec → Update → Type 0
IsRecorded c (name, at, tag) = Recorded c name at tag

pub encode_nil :
    (c : RecordCodec) (u : Update) (out : List ℕ)
    → IsRecorded c u
    → encode c u.0 u.1 u.2 out ≡ out ++ bytes_of c u
encode_nil c (name, at, tag) out r = r.written out ∙ ap (◌++◌ out) (sym (r.written []))

pub write_updates-flat :
    (c : RecordCodec) (us : List Update) (buf : List ℕ)
    → All (IsRecorded c) us
    → write_updates c us buf ≡ buf ++ flat (bytes_of c) us
unfolding write_updates flat
write_updates-flat c [] buf h = sym (append-nil buf)
write_updates-flat c ((name, at, tag) ∷ us) buf h =
    ap (write_updates c us) (encode_nil c (name, at, tag) buf h.0)
    ∙ write_updates-flat c us (buf ++ bytes_of c (name, at, tag)) h.1
    ∙ append_assoc buf (bytes_of c (name, at, tag)) (flat (bytes_of c) us)

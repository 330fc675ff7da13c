-- ===== src/Packet/Payload.antt =====
-- packet.rs: a payload, from the region's writer to the client's reader.
use umwelt_rs.Base.{
  ℕ, ◌+◌, ◌*◌, ◌^◌, ◌<◌, ◌≡◌, refl, sym, ap, ◌∙◌, arith, true, false, ltb, Option, some, none, List,
  [], ◌∷◌, ◌++◌, length, take, drop, map, All, length-append, take_run, drop_run, append-nil,
  append_assoc, Option-cases, inl, inr,
}
use umwelt_rs.Base.Int.{◌+ℤ◌, ◌*ℤ◌, IsU16, IsU64}
use umwelt_rs.Base.Bytes.{le_bytes, length-le_bytes}
use umwelt_rs.Fixed.{Fixed}
use umwelt_rs.Placement.{Placement}
use umwelt_rs.Pos.{Pos3, WorldPos, from_local, from_unplaced}
use umwelt_rs.Config.{WorldConfig, contains}
use umwelt_rs.Codec.{RecordCodec, record_bytes, encode}
use umwelt_rs.Packet.{
  PacketHeader, TickObservation, default_header, to_bytes, decode_header, Update, write_despawns,
  write_updates, build, expect_u16, claimed, in_frame, read_name, all_despawns, despawns_of,
  read_update, updates_of, collect, world,
}
use umwelt_rs.Packet.Chunks.{flat, collect-flat, length-flat, ReadBack}
use umwelt_rs.Packet.Read.{despawns_all}
use umwelt_rs.Packet.RoundTrip.{
  IsHeader, decode_header-to_bytes, length-to_bytes, name_back, write_despawns-flat,
  write_updates-flat, bytes_of, IsRecorded,
}

-- What a client makes of one update.
abbrev pub seen : TickObservation → Update → ℕ × WorldPos × ℕ
seen o (name, at, tag) = (name, world o at, tag)

update_back :
    (o : TickObservation) (u : Update)
    → IsRecorded o.codec u
    → ReadBack (record_bytes o.codec) (bytes_of o.codec) (read_update o) (seen o) u
update_back o (name, at, tag) r = (ap length (r.written []) ∙ r.size, λ rest. back rest)
  where
    back :
        (rest : List ℕ)
        → read_update o (encode o.codec name at tag [] ++ rest) ≡ some (name, world o at, tag)
    back rest = unfold read_update in rw (r.written [], r.read rest) refl

-- The payload by its parts.
pub parts : RecordCodec → PacketHeader → List ℕ → List Update → List ℕ
parts c h names us = to_bytes h ++ (flat (le_bytes 8) names ++ flat (bytes_of c) us)

abbrev pub header : ℕ → ℕ → List ℕ → List Update → PacketHeader
header tick sequence names us = record {
  tick = tick;
  sequence = sequence;
  ack = 0;
  ack_bits = 0;
  despawns = length names;
  updates = length us;
}

pub build-parts :
    (c : RecordCodec) (tick sequence : ℕ) (names : List ℕ) (us : List Update)
    → All (IsRecorded c) us
    → length names < 2 ^ 16
    → length us < 2 ^ 16
    → build c tick sequence names us ≡ some (parts c (header tick sequence names us) names us)
unfolding build expect_u16 parts
build-parts c tick sequence names us h n m =
    let few : ltb (length names) (2 ^ 16) ≡ true = ground arith in
    let few' : ltb (length us) (2 ^ 16) ≡ true = ground arith in
    let buf : write_updates c us (write_despawns names (to_bytes default_header))
        ≡ to_bytes default_header ++ (flat (le_bytes 8) names ++ flat (bytes_of c) us) =
      write_updates-flat c us (write_despawns names (to_bytes default_header)) h
      ∙ ap (λ b. b ++ flat (bytes_of c) us) (write_despawns-flat names (to_bytes default_header))
      ∙ append_assoc (to_bytes default_header) (flat (le_bytes 8) names) (flat (bytes_of c) us) in
    rw
      (
        few,
        few',
        buf,
        drop_run 16 (to_bytes default_header) (flat (le_bytes 8) names ++ flat (bytes_of c) us)
            (length-to_bytes default_header),
      )
      refl

-- What `in_frame` makes of a payload.
abbrev pub observation :
    RecordCodec → PacketHeader → List ℕ → List Update → Option Placement → Fixed → TickObservation
observation c h names us placement size = record {
  codec = c;
  header = h;
  body = flat (le_bytes 8) names ++ flat (bytes_of c) us;
  placement = placement;
  region_size = size;
  keep = none;
}

names_size : (names : List ℕ) → All (λ n. length (le_bytes 8 n) ≡ 8) names
names_size [] = tt
names_size (n ∷ names) = (length-le_bytes 8 n, names_size names)

updates_size :
    (c : RecordCodec) (us : List Update)
    → All (IsRecorded c) us
    → All (λ u. length (bytes_of c u) ≡ record_bytes c) us
updates_size c [] h = tt
updates_size c ((name, at, tag) ∷ us) h =
    (ap length (h.0.written []) ∙ h.0.size, updates_size c us h.1)

pub length-parts :
    (c : RecordCodec) (h : PacketHeader) (names : List ℕ) (us : List Update)
    → All (IsRecorded c) us
    → length (parts c h names us) ≡ 16 + length names * 8 + length us * record_bytes c
unfolding parts
length-parts c h names us r = omega (
  arith,
  length-append (to_bytes h) (flat (le_bytes 8) names ++ flat (bytes_of c) us),
  length-append (flat (le_bytes 8) names) (flat (bytes_of c) us),
  length-to_bytes h,
  length-flat (le_bytes 8) 8 names (names_size names),
  length-flat (bytes_of c) (record_bytes c) us (updates_size c us r),
)

take_all : (n : ℕ) (xs : List ℕ) → length xs ≡ n → take n xs ≡ xs
take_all n xs h = ap (take n) (sym (append-nil xs)) ∙ take_run n xs [] h

claimed-parts :
    (c : RecordCodec) (h : PacketHeader) (names : List ℕ) (us : List Update)
    → All (IsRecorded c) us
    → h.despawns ≡ length names
    → h.updates ≡ length us
    → length (parts c h names us) ≡ claimed c h
unfolding claimed
claimed-parts c h names us r en em =
    omega (arith, length-parts c h names us r, en, ap (λ (n : ℕ). n * record_bytes c) em)

not_below : (m n : ℕ) → m ≡ n → ltb m n ≡ false
not_below m n e = ground arith

pub in_frame-parts :
    (c : RecordCodec) (h : PacketHeader) (names : List ℕ) (us : List Update)
    (placement : Option Placement) (size : Fixed)
    → All (IsRecorded c) us
    → IsHeader h
    → h.despawns ≡ length names
    → h.updates ≡ length us
    → in_frame c (parts c h names us) placement size
      ≡ some (observation c h names us placement size)
unfolding in_frame
in_frame-parts c h names us placement size r i en em =
    let width = claimed-parts c h names us r en em in
    rw (decode_header-parts, not_below _ _ width, take_all _ (parts c h names us) width, body) refl
  where
    decode_header-parts : decode_header (parts c h names us) ≡ some h
    decode_header-parts = unfold parts in decode_header-to_bytes h _ i

    body : drop 16 (parts c h names us) ≡ flat (le_bytes 8) names ++ flat (bytes_of c) us
    body = unfold parts in drop_run 16 (to_bytes h) _ (length-to_bytes h)

-- A position in the frame of the world: off the map as it stands, and in a square moved by the
-- square's columns and rows of the region's size.
abbrev pub framed : Option Placement → Fixed → Pos3 → WorldPos
framed none size at = record { x = at.x; y = at.y; z = at.z }
framed (some square) size at = record {
  x = square.col *ℤ size +ℤ at.x;
  y = square.row *ℤ size +ℤ at.y;
  z = at.z;
}

-- One update in that frame.
abbrev pub placed : Option Placement → Fixed → Update → ℕ × WorldPos × ℕ
placed placement size (name, at, tag) = (name, framed placement size at, tag)

-- What a payload tells the client it was made for, of a region in a square or off the map.
pub record Delivers (tick : ℕ) (names : List ℕ) (us : List Update) (placement : Option Placement)
    (size : Fixed) (o : TickObservation) : Type 0 where
  pub at_tick : o.header.tick ≡ tick
  pub to_forget : despawns_of o ≡ some names
  pub to_adopt : updates_of o ≡ some (map (placed placement size) us)

world-framed : (o : TickObservation) (at : Pos3) → world o at ≡ framed o.placement o.region_size at
unfolding world from_local from_unplaced
world-framed o at = elim (Option-cases o.placement) [
  | inl q ↦ rw (q, world) refl
  | inr (square, q) ↦ rw (q, world) refl
]

seen-placed :
    (o : TickObservation) (us : List Update)
    → map (seen o) us ≡ map (placed o.placement o.region_size) us
seen-placed o [] = refl
seen-placed o (u ∷ us) =
    ap (λ (v : ℕ × WorldPos × ℕ). v ∷ map (seen o) us) (one o u)
    ∙ ap (λ (vs : List (ℕ × WorldPos × ℕ)). placed o.placement o.region_size u ∷ vs)
        (seen-placed o us)
  where
    one : (o : TickObservation) (u : Update) → seen o u ≡ placed o.placement o.region_size u
    one o (name, at, tag) = ap (λ (w : WorldPos). (name, w, tag)) (world-framed o at)

names_back :
    (names : List ℕ) → All IsU64 names → All (ReadBack 8 (le_bytes 8) read_name (λ n. n)) names
names_back [] h = tt
names_back (n ∷ names) h = (name_back n h.0, names_back names h.1)

updates_back :
    (o : TickObservation) (us : List Update)
    → All (IsRecorded o.codec) us
    → All (ReadBack (record_bytes o.codec) (bytes_of o.codec) (read_update o) (seen o)) us
updates_back o [] h = tt
updates_back o (u ∷ us) h = (update_back o u h.0, updates_back o us h.1)

map_same : (xs : List ℕ) → map (λ n. n) xs ≡ xs
map_same [] = refl
map_same (x ∷ xs) = ap (◌∷◌ x) (map_same xs)

pub observation-Delivers :
    (c : RecordCodec) (tick sequence : ℕ) (names : List ℕ) (us : List Update)
    (placement : Option Placement) (size : Fixed)
    → All IsU64 names
    → All (IsRecorded c) us
    → Delivers tick names us placement size
        (observation c (header tick sequence names us) names us placement size)
unfolding all_despawns updates_of
observation-Delivers c tick sequence names us placement size hn r =
    let o = observation c (header tick sequence names us) names us placement size in
    let all : all_despawns o ≡ some names =
      collect-flat (le_bytes 8) read_name (λ n. n) 0 8 0 [] (flat (bytes_of c) us) names
        (names_back names hn) refl
      ∙ ap some (map_same names) in
    let adopted : updates_of o ≡ some (map (seen o) us) =
      ap
        (λ b.
          collect (read_update o) (length names * 8) (record_bytes c) 0 (length us)
            (flat (le_bytes 8) names ++ b))
        (sym (append-nil (flat (bytes_of c) us)))
      ∙ collect-flat (bytes_of c) (read_update o) (seen o) (length names * 8) (record_bytes c) 0
          (flat (le_bytes 8) names) [] us (updates_back o us r)
          (length-flat (le_bytes 8) 8 names (names_size names) ∙ omega arith) in
    record {
      at_tick = refl;
      to_forget = despawns_all o names refl all;
      to_adopt = adopted ∙ ap some (seen-placed o us);
    }

-- An update that a region sends of one of its entities.
pub record IsUpdate (cfg : WorldConfig) (u : Update) : Type 0 where
  pub name : IsU64 u.0
  pub inside : contains cfg u.1 ≡ true
  pub tag : IsU16 u.2

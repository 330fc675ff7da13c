-- ===== src/Packet/Delivery.antt =====
-- packet.rs, codec.rs: the payload of a valid world, from a tick to the client's observation of it.
use umwelt_rs.Base.{
  ℕ, ◌+◌, ◌*◌, ◌^◌, ◌<◌, ◌≡◌, refl, arith, Option, some, List, [], ◌∷◌, length, All, some_inj, sym,
  ◌∙◌,
}
use umwelt_rs.Base.Int.{IsU16, IsU32, IsU64}
use umwelt_rs.Fixed.{Fixed}
use umwelt_rs.Placement.{Placement}
use umwelt_rs.Config.{WorldConfig}
use umwelt_rs.Config.Valid.{IsValid}
use umwelt_rs.Codec.{RecordCodec, codec_of, record_bytes}
use umwelt_rs.Codec.Record.{Recorded, codec_of-Recorded}
use mathlib.Core.Path.{subst}
use umwelt_rs.Packet.{TickObservation, Update, build, in_frame}
use umwelt_rs.Packet.RoundTrip.{IsHeader, IsRecorded}
use umwelt_rs.Packet.Payload.{
  IsUpdate, Delivers, observation, observation-Delivers, parts, build-parts, in_frame-parts,
  length-parts, header,
}

recorded :
    (cfg : WorldConfig) (c : RecordCodec) (us : List Update)
    → IsValid cfg
    → codec_of cfg ≡ some c
    → All (IsUpdate cfg) us
    → All (IsRecorded c) us
recorded cfg c [] v e h = tt
recorded cfg c ((name, at, tag) ∷ us) v e (h, hs) =
    let (d, e', r) = codec_of-Recorded cfg name tag at v h.inside h.name h.tag in
    (subst (λ k. Recorded k name at tag) (some_inj (sym e' ∙ e)) r, recorded cfg c us v e hs)

-- In a valid world, the payload built of any despawns and any updates of positions of the region,
-- up to 65535 of each, has the size its counts give, is accepted, and is observed as the tick, the
-- despawns and the updates, each position in the frame of the world: moved by the columns and rows
-- of the square that the reader is given, or as it stands without one.
pub build-Delivers :
    (cfg : WorldConfig) (c : RecordCodec) (tick sequence : ℕ) (names : List ℕ) (us : List Update)
    (placement : Option Placement) (size : Fixed)
    → IsValid cfg
    → codec_of cfg ≡ some c
    → IsU32 tick
    → IsU16 sequence
    → All IsU64 names
    → All (IsUpdate cfg) us
    → length names < 2 ^ 16
    → length us < 2 ^ 16
    → (payload : List ℕ) × (o : TickObservation) × (build c tick sequence names us ≡ some payload)
      × (length payload ≡ 16 + length names * 8 + length us * record_bytes c)
      × (in_frame c payload placement size ≡ some o)
      × Delivers tick names us placement size o
build-Delivers cfg c tick sequence names us placement size v e ht hs hn hu n m =
    let r = recorded cfg c us v e hu in
    let h = header tick sequence names us in
    let is_header : IsHeader h = record {
      tick = ht;
      sequence = hs;
      ack = omega arith;
      ack_bits = omega arith;
      despawns = n;
      updates = m;
    } in
    (
      parts c h names us,
      observation c h names us placement size,
      build-parts c tick sequence names us r n m,
      length-parts c h names us r,
      in_frame-parts c h names us placement size r is_header refl refl,
      observation-Delivers c tick sequence names us placement size hn r,
    )

-- ===== src/Tests/Packets.antt =====
-- codec.rs, packet.rs, budget.rs, id.rs: a payload of one despawn and two updates, and names.
use umwelt_rs.Base.{
  ℕ, ◌+◌, ◌*◌, ◌/◌, ◌%◌, ◌^◌, ◌≤◌, ◌<◌, ◌≡◌, ◌≢◌, refl, arith, true, false, Option, some, none,
  List, [], ◌∷◌, ◌++◌, length,
}
use umwelt_rs.Base.Int.{pos}
use umwelt_rs.Placement.{Placement}
use umwelt_rs.Pos.{Pos3, WorldPos, horizontal}
use umwelt_rs.Config.{contains, contains_2d}
use umwelt_rs.Codec.{RecordCodec, codec_of, record_bytes}
use umwelt_rs.Codec.Record.{Recorded, codec_of-Recorded}
use umwelt_rs.Packet.{
  PacketHeader, TickObservation, Update, decode_header, build, in_frame, all_despawns, despawns_of,
  updates_of, header_of, claimed,
}
use umwelt_rs.Packet.RoundTrip.{IsHeader}
use umwelt_rs.Packet.Read.{in_frame-total}
use umwelt_rs.Packet.Payload.{IsUpdate, Delivers}
use umwelt_rs.Packet.Delivery.{build-Delivers}
use umwelt_rs.Budget.{
  PacketBudget, with_overhead, budget_of, state_bytes_available, slots, max_slots,
}
use umwelt_rs.Budget.Fits.{budget_fits}
use umwelt_rs.Id.{seeded, nth_id, of_region, minted_by_an_edge}
use umwelt_rs.Id.Disjoint.{names_apart}
use umwelt_rs.Tests.World.{world, world-IsValid}

abbrev thin : RecordCodec
thin = record { h_bits = 22; v_bits = 20; pos_bytes = 8 }

thin_codec : codec_of world ≡ some thin
unfolding codec_of umwelt_rs.Base.Bits.div_ceil
thin_codec = refl

abbrev stand : Pos3
stand = record { x = pos 131071; y = pos 4000000; z = pos 77 }

stand_inside : contains world stand ≡ true
unfolding contains contains_2d horizontal
stand_inside = refl

codec_of-Recorded_example : (c : RecordCodec) × (codec_of world ≡ some c) × Recorded c 11 stand 7
codec_of-Recorded_example =
    codec_of-Recorded world 11 7 stand world-IsValid stand_inside (omega arith) (omega arith)

abbrev head : PacketHeader
head = record { tick = 900; sequence = 12; ack = 0; ack_bits = 0; despawns = 1; updates = 2 }

head-IsHeader : IsHeader head
head-IsHeader = record {
  tick = omega arith;
  sequence = omega arith;
  ack = omega arith;
  ack_bits = omega arith;
  despawns = omega arith;
  updates = omega arith;
}

abbrev update : Update
update = (11, stand, 7)

update-IsUpdate : IsUpdate world update
update-IsUpdate = record { name = omega arith; inside = stand_inside; tag = omega arith }

abbrev square : Option Placement
square = some (record { col = pos 1; row = pos 0 })

build-Delivers_example :
    (payload : List ℕ) × (o : TickObservation) × (build thin 900 12 (5 ∷ []) (update ∷ update ∷ [])
      ≡ some payload)
    × (length payload ≡ 16 + 1 * 8 + 2 * record_bytes thin)
    × (in_frame thin payload square (pos 4194304) ≡ some o)
    × Delivers 900 (5 ∷ []) (update ∷ update ∷ []) square (pos 4194304) o
build-Delivers_example =
    build-Delivers world thin 900 12 (5 ∷ []) (update ∷ update ∷ []) square (pos 4194304)
      world-IsValid thin_codec (omega arith) (omega arith) (omega arith, tt)
      (update-IsUpdate, (update-IsUpdate, tt)) (omega arith) (omega arith)

abbrev hostile : List ℕ
hostile =
    0 ∷ 0 ∷ 0 ∷ 0 ∷ 0 ∷ 0 ∷ 0 ∷ 0 ∷ 0 ∷ 0 ∷ 0 ∷ 0 ∷ 1 ∷ 0 ∷ 0 ∷ 0 ∷ 9 ∷ 9 ∷ 9 ∷ 9 ∷ 9 ∷ 9 ∷ 9 ∷ 9
    ∷ 1 ∷ []

abbrev glimpse : TickObservation
glimpse = record {
  codec = thin;
  header = record { tick = 0; sequence = 0; ack = 0; ack_bits = 0; despawns = 1; updates = 0 };
  body = 9 ∷ 9 ∷ 9 ∷ 9 ∷ 9 ∷ 9 ∷ 9 ∷ 9 ∷ [];
  placement = none;
  region_size = pos 0;
  keep = none;
}

accepted : in_frame thin hostile none (pos 0) ≡ some glimpse
unfolding in_frame decode_header header_of claimed record_bytes umwelt_rs.Base.Bytes.from_le
accepted = refl

in_frame-total_example :
    ((names : List ℕ) × (all_despawns glimpse ≡ some names)
      × (despawns_of glimpse ≡ some names)
      × (length names ≡ 1))
    × ((us : List (ℕ × WorldPos × ℕ)) × (updates_of glimpse ≡ some us) × (length us ≡ 0))
in_frame-total_example = in_frame-total thin hostile none (pos 0) glimpse accepted

abbrev budget : PacketBudget
budget = record {
  payload_bytes = 1200;
  header_bytes = 16;
  event_reserve_bytes = 256;
  record_bytes = 18;
}

budgeted : with_overhead thin 1200 16 256 ≡ some budget
unfolding with_overhead record_bytes
budgeted = refl

budgeted_default : budget_of thin 1200 ≡ some budget
unfolding budget_of
budgeted_default = budgeted

-- 1200 - 16 is 1184, and 1184 / 18 is 65.
idle : max_slots budget ≡ 65
unfolding max_slots slots state_bytes_available
idle = refl

few_enough : 60 ≤ slots budget (5 * 8)
unfolding slots state_bytes_available
few_enough = omega arith

budget_fits_example : 16 + 5 * 8 + 60 * record_bytes thin ≤ 1200
budget_fits_example =
    budget_fits thin 1200 5 60 budget (omega arith) budgeted_default (omega arith) (omega arith)
      few_enough

abbrev third : ℕ
third = 3

names_apart_example :
    (minted_by_an_edge (nth_id (seeded 7) 5) ≡ true)
    × (minted_by_an_edge (of_region 7 3) ≡ false)
    × (nth_id (seeded 7) 5 ≢ of_region 7 3)
    × (of_region 7 3 / 2 ^ 32 ≡ 7)
    × (of_region 7 3 % 2 ^ 32 ≡ 3)
names_apart_example = names_apart 7 5 7 3 (omega arith) (omega arith) (omega arith)

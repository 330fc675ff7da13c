-- ===== src/Budget.antt =====
-- budget.rs: how many records fit a packet.
pub mod Fits
use umwelt_rs.Base.{
  ℕ, ◌+◌, ◌-◌, ◌*◌, ◌/◌, ◌%◌, ◌^◌, ◌≤◌, ◌<◌, ◌≡◌, refl, arith, min, ltb, leb, true, false, ltb→lt,
  if◌then◌else◌, Option, none, some, List, length,
}
use umwelt_rs.Base.Int.{IsU16}
use umwelt_rs.Codec.{RecordCodec}

abbrev pub default_payload_bytes : ℕ
default_payload_bytes = 1200

abbrev pub default_header_bytes : ℕ
default_header_bytes = 16

abbrev pub default_event_reserve_bytes : ℕ
default_event_reserve_bytes = 256

-- Each is a `u16`.
pub record PacketBudget : Type 0 where
  pub payload_bytes : ℕ
  pub header_bytes : ℕ
  pub event_reserve_bytes : ℕ
  pub record_bytes : ℕ

-- Nothing where an assertion panics.
unfoldable pub with_overhead : RecordCodec → ℕ → ℕ → ℕ → Option PacketBudget
with_overhead codec payload_bytes header_bytes event_reserve_bytes =
    if leb payload_bytes header_bytes
    then none
    else if ltb payload_bytes (umwelt_rs.Codec.record_bytes codec)
    then none
    else some (record {
      payload_bytes = payload_bytes;
      header_bytes = header_bytes;
      event_reserve_bytes = event_reserve_bytes;
      record_bytes = umwelt_rs.Codec.record_bytes codec % 2 ^ 16;
    })

-- `PacketBudget::new`.
unfoldable pub budget_of : RecordCodec → ℕ → Option PacketBudget
budget_of codec payload_bytes =
    with_overhead codec payload_bytes default_header_bytes default_event_reserve_bytes

-- The subtraction saturates.
unfoldable pub state_bytes_available : PacketBudget → ℕ → ℕ
state_bytes_available b pending_event_bytes =
    let held = min pending_event_bytes b.event_reserve_bytes in
    b.payload_bytes - (b.header_bytes + held)

unfoldable pub slots : PacketBudget → ℕ → ℕ
unfolding state_bytes_available
slots b pending_event_bytes = state_bytes_available b pending_event_bytes / b.record_bytes

unfoldable pub max_slots : PacketBudget → ℕ
unfolding slots
max_slots b = slots b 0

unfoldable pub min_slots : PacketBudget → ℕ
unfolding slots
min_slots b = slots b b.event_reserve_bytes

-- ===== src/Budget/Fits.antt =====
-- budget.rs: a packet filled to its slots fits its payload, and no slot is wasted.
use umwelt_rs.Base.{ℕ, zero, suc, ◌+◌, ◌-◌, ◌*◌, ◌/◌, ◌≤◌, ◌<◌, ◌≡◌, arith, some}
use umwelt_rs.Base.Int.{IsU16}
use umwelt_rs.Codec.{RecordCodec, record_bytes}
use umwelt_rs.Budget.{
  PacketBudget, with_overhead, budget_of, state_bytes_available, slots, max_slots, min_slots,
}

filled : (a r : ℕ) → 0 < r → (a / r * r ≤ a) × (a < (a / r + 1) * r)
filled a r h = (grind arith, grind arith)

with_overhead-some :
    (c : RecordCodec) (payload header reserve : ℕ) (b : PacketBudget)
    → IsU16 payload
    → with_overhead c payload header reserve ≡ some b
    → (b.payload_bytes ≡ payload)
      × (b.header_bytes ≡ header)
      × (b.event_reserve_bytes ≡ reserve)
      × (b.record_bytes ≡ record_bytes c)
      × (header < payload)
      × (0 < record_bytes c)
      × (record_bytes c ≤ payload)
unfolding with_overhead record_bytes
with_overhead-some c payload header reserve b h e = ground arith

quotient_mono : (a a' r : ℕ) → a ≤ a' → a / r ≤ a' / r
quotient_mono a a' zero h = omega arith
quotient_mono a a' (suc r) h = grind arith

-- A budget takes as many records as fit: its slots fit the bytes available, one more would not,
-- and pending events leave between the slots of a full reserve and those of none.
pub slots_fill :
    (c : RecordCodec) (payload header reserve pending : ℕ) (b : PacketBudget)
    → IsU16 payload
    → with_overhead c payload header reserve ≡ some b
    → (slots b pending * record_bytes c ≤ state_bytes_available b pending)
      × (state_bytes_available b pending < (slots b pending + 1) * record_bytes c)
      × (slots b pending ≤ max_slots b)
      × (min_slots b ≤ slots b pending)
unfolding slots state_bytes_available max_slots min_slots
slots_fill c payload header reserve pending b h e =
    let (p, hd, rs, rb, lt, pos', le) = with_overhead-some c payload header reserve b h e in
    let (fits, full) =
      filled (state_bytes_available b pending) b.record_bytes (omega (arith, rb, pos')) in
    (
      rw (← rb) fits,
      rw (← rb) full,
      quotient_mono _ _ b.record_bytes (omega arith),
      quotient_mono _ _ b.record_bytes (omega arith),
    )

more_fit : (m s r a : ℕ) → m ≤ s → s * r ≤ a → m * r ≤ a
more_fit m s r a h k = grind arith

-- With a default budget, the header, n despawns within the reserve and the payload, and as many
-- updates as the slots left for them are no longer than the payload.
pub budget_fits :
    (c : RecordCodec) (payload n m : ℕ) (b : PacketBudget)
    → IsU16 payload
    → budget_of c payload ≡ some b
    → n * 8 ≤ 256
    → 16 + n * 8 ≤ payload
    → m ≤ slots b (n * 8)
    → 16 + n * 8 + m * record_bytes c ≤ payload
unfolding budget_of
budget_fits c payload n m b h e r l k =
    let (p, hd, rs, rb, lt, pos', le) = with_overhead-some c payload 16 256 b h e in
    let (fits, _, _, _) = slots_fill c payload 16 256 (n * 8) b h e in
    let room : state_bytes_available b (n * 8) ≡ payload - (16 + n * 8) =
      unfold state_bytes_available in omega (arith, p, hd, rs) in
    omega (
      arith,
      room,
      more_fit m (slots b (n * 8)) (record_bytes c) (state_bytes_available b (n * 8)) k fits,
    )

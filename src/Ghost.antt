-- ===== src/Ghost.antt =====
-- ghost.rs: what one client has been told about each entity, in a table of open addressing.
pub mod Ring
pub mod Probe
pub mod Shift
pub mod Moved
pub mod Removal
pub mod Table
pub mod Remove
pub mod Insert
pub mod Grow
pub mod Room
pub mod Sent
pub mod Seen
pub mod Order
pub mod Evict
pub mod Eviction
use Prim.Native.Nat.{bit_and, max}
use mathlib.Core.Option
use umwelt_rs.Base.{
  ℕ, zero, suc, ◌+◌, ◌-◌, ◌*◌, ◌/◌, ◌%◌, ◌^◌, Bool, ltb, leb, ◌==◌, not, ◌&&◌, if◌then◌else◌,
  Option, none, some, List, [], ◌∷◌, ◌++◌, length, get_or,
}
use umwelt_rs.Base.Arrays.{set, replicate}
use umwelt_rs.Base.Bits.{trailing_zeros}
use umwelt_rs.Base.Result.{Result, ok, err}
use umwelt_rs.Entity.{EntityId}

-- Reserved as the mark of an empty slot.
abbrev pub empty : ℕ
empty = 2 ^ 32 - 1

abbrev pub min_slots : ℕ
min_slots = 16

pub record Ghost : Type 0 where
  pub id : ℕ
  pub mark : ℕ
  pub last_seen : ℕ
  pub last_sent : ℕ

abbrev pub vacant : Ghost
vacant = record { id = empty; mark = 0; last_seen = 0; last_sent = 0 }

pub record Held : Type 0 where
  pub mark : ℕ
  pub last_sent : ℕ

pub record GhostTable : Type 0 where
  pub slots : List Ghost
  pub len : ℕ

abbrev pub table_new : GhostTable
table_new = record { slots = []; len = 0 }

-- The high bits of a multiplicative hash.
unfoldable pub home : ℕ → ℕ → ℕ
home id bits = (id * 0x9E37_79B1 % 2 ^ 32) / 2 ^ (32 - bits)

abbrev pub slot_at : List Ghost → ℕ → Ghost
slot_at slots i = get_or slots i vacant

-- `(i + 1) & mask`.
unfoldable pub after : List Ghost → ℕ → ℕ
after slots i = bit_and (i + 1) (length slots - 1)

-- `j.wrapping_sub(h) & mask`.
unfoldable pub steps_from : List Ghost → ℕ → ℕ → ℕ
steps_from slots h j = bit_and ((j + 2 ^ 64 - h) % 2 ^ 64) (length slots - 1)

unfoldable pub home_in : List Ghost → ℕ → ℕ
home_in slots id = home id (trailing_zeros (length slots))

-- The probe: `ok` at the entry, `err` at the empty slot that it would take.
unfoldable pub find_from : ℕ → List Ghost → ℕ → ℕ → Option (Result ℕ ℕ)
find_from zero slots id i = none
find_from (suc fuel) slots id i =
    let rest = find_from fuel slots id (after slots i) in
    let e = (slot_at slots i).id in
    if e == id then some (ok i) else if e == empty then some (err i) else rest

-- A probe visits a slot at most once, so as many rounds as there are slots are enough.
unfoldable pub find : List Ghost → ℕ → Option (Result ℕ ℕ)
find slots id = find_from (length slots) slots id (home_in slots id)

-- The backward shift: the slots, once the cursor `j` has come to an empty one.
unfoldable pub shift_from : ℕ → List Ghost → ℕ → ℕ → Option (List Ghost)
shift_from zero slots hole j = none
shift_from (suc fuel) slots hole j =
    let id = (slot_at slots j).id in
    let moved =
      shift_from fuel (set (set slots hole (slot_at slots j)) j vacant) j (after slots j) in
    let kept = shift_from fuel slots hole (after slots j) in
    if id == empty
    then some slots
    else if leb (steps_from slots hole j) (steps_from slots (home_in slots id) j)
    then moved
    else kept

unfoldable pub remove_at : ℕ → GhostTable → Option GhostTable
remove_at at t =
    let slots = set t.slots at vacant in
    Option.map (λ s. record { slots = s; len = t.len - 1 })
      (shift_from (length slots) slots at (after slots at))

abbrev held_at : List Ghost → Result ℕ ℕ → Option Held
held_at slots (ok i) =
    some (record { mark = (slot_at slots i).mark; last_sent = (slot_at slots i).last_sent })
held_at slots (err i) = none

-- What the client is believed to hold; the outer `Option` is the fuel's.
unfoldable pub held : EntityId → GhostTable → Option (Option Held)
held id t =
    if length t.slots == 0 then some none else Option.map (held_at t.slots) (find t.slots id)

unfoldable pub mark : EntityId → GhostTable → Option (Option ℕ)
mark id t = Option.map (Option.map (λ (h : Held). h.mark)) (held id t)

abbrev seen_at : ℕ → GhostTable → Result ℕ ℕ → Option ℕ × GhostTable
seen_at tick t (ok i) =
    let g = slot_at t.slots i in
    (some g.mark, record t { slots = set t.slots i (record g { last_seen = tick }) })
seen_at tick t (err i) = (none, t)

unfoldable pub seen : EntityId → ℕ → GhostTable → Option (Option ℕ × GhostTable)
seen id tick t =
    if length t.slots == 0 then some (none, t) else Option.map (seen_at tick t) (find t.slots id)

-- `while self.slots[i].id != EMPTY { i = (i + 1) & mask; }`.
unfoldable pub free_from : ℕ → List Ghost → ℕ → Option ℕ
free_from zero slots i = none
free_from (suc fuel) slots i =
    let rest = free_from fuel slots (after slots i) in
    if (slot_at slots i).id == empty then some i else rest

unfoldable pub reinsert : Ghost → List Ghost → Option (List Ghost)
reinsert g slots =
    Option.map (λ i. set slots i g) (free_from (length slots) slots (home_in slots g.id))

-- The entries of the old slots, in their order.
unfoldable pub reinsert_all : List Ghost → List Ghost → Option (List Ghost)
reinsert_all [] slots = some slots
reinsert_all (g ∷ old) slots =
    if g.id == empty
    then reinsert_all old slots
    else elim (reinsert g slots) [ none ↦ none | some s ↦ reinsert_all old s ]

unfoldable pub rehash : ℕ → GhostTable → Option GhostTable
rehash cap t =
    Option.map (λ s. record t { slots = s }) (reinsert_all t.slots (replicate cap vacant))

-- `while cap < needed { cap *= 2; }`: 64 rounds would leave `usize`.
unfoldable pub doubled : ℕ → ℕ → ℕ → ℕ
doubled zero cap needed = cap
doubled (suc fuel) cap needed =
    let rest = doubled fuel (cap * 2) needed in if ltb cap needed then rest else cap

-- `next_power_of_two` doubles from 1.
unfoldable pub with_capacity : ℕ → Option GhostTable
with_capacity ghosts =
    if ghosts == 0
    then some table_new
    else rehash (max (doubled 64 1 (ghosts * 2)) min_slots) table_new

unfoldable pub reserve_one : GhostTable → Option GhostTable
reserve_one t =
    let needed = (t.len + 1) * 2 in
    if leb needed (length t.slots)
    then some t
    else rehash (doubled 64 (max (length t.slots) min_slots) needed) t

abbrev sent_at : EntityId → ℕ → ℕ → GhostTable → Result ℕ ℕ → GhostTable
sent_at id mark tick t (ok i) = record t {
  slots =
      set t.slots i
        (record (slot_at t.slots i) { mark = mark; last_seen = tick; last_sent = tick });
}
sent_at id mark tick t (err i) = record {
  slots = set t.slots i (record { id = id; mark = mark; last_seen = tick; last_sent = tick });
  len = t.len + 1;
}

-- The assertion that the id is not the reserved one is a `none`, as is the end of the fuel.
unfoldable pub sent : EntityId → ℕ → ℕ → GhostTable → Option GhostTable
sent id mark tick t = if id == empty then none else elim (reserve_one t) [
  | none ↦ none
  | some u ↦ Option.map (sent_at id mark tick u) (find u.slots id)
]

-- `tick.wrapping_sub(g.last_seen) > grace`.
abbrev pub is_gone : ℕ → ℕ → Ghost → Bool
is_gone tick grace g = not (g.id == empty) && ltb grace ((tick + 2 ^ 32 - g.last_seen) % 2 ^ 32)

-- A removal leaves the cursor where it is.
unfoldable pub evict_from :
    ℕ → ℕ → ℕ → ℕ → GhostTable → List EntityId → Option (GhostTable × List EntityId)
evict_from zero i tick grace t departed = none
evict_from (suc fuel) i tick grace t departed =
    let g = slot_at t.slots i in
    if leb (length t.slots) i
    then some (t, departed)
    else if is_gone tick grace g
    then elim (remove_at i t) [
      | none ↦ none
      | some u ↦ evict_from fuel i tick grace u (departed ++ g.id ∷ [])
    ]
    else evict_from fuel (i + 1) tick grace t departed

-- Every round leaves a slot behind or a ghost out, and there are at most as many ghosts as slots.
unfoldable pub evict : ℕ → ℕ → GhostTable → List EntityId → Option (GhostTable × List EntityId)
evict tick grace t departed = evict_from (2 * length t.slots + 1) 0 tick grace t departed

unfoldable pub clear : GhostTable → GhostTable
clear t = record { slots = replicate (length t.slots) vacant; len = 0 }

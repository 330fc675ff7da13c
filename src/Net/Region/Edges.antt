-- ===== src/Net/Region/Edges.antt =====
-- net/region/edges.rs: the edges relaying for one region, and the entities that each one manages.
-- An operation is one call under the lock of the slots, but for three: a lookup takes the lock of
-- the owners, take_detached that of the detached, and expire the lock of the slots for its scan and
-- again for each detach, with the calls of other tasks in between.
use umwelt_rs.Base.{
  ℕ, zero, suc, ◌+◌, ◌-◌, ◌%◌, ◌^◌, Bool, true, false, ◌&&◌, ◌||◌, not, ltb, leb, ◌==◌,
  if◌then◌else◌, Option, none, some, List, [], ◌∷◌, ◌++◌, length, get_elem?, get_or,
}
pub mod Owners
pub mod Reach
pub mod Outcomes
pub mod Slots
pub mod Expiry
use mathlib.Core.Option
use umwelt_rs.Base.Arrays.{set, resize, position}
use umwelt_rs.Base.Sets.{Set, set_insert, set_remove}
use umwelt_rs.Base.Result.{Result, ok, err}
use umwelt_rs.Entity.{EntityId}
use umwelt_rs.Net.Error.{NetError, bad_edge_name}

-- No edge manages this entity.
abbrev pub unowned : ℕ
unowned = 2 ^ 32 - 1

-- The bytes of a name.
abbrev pub EdgeName : Type 0
EdgeName = List ℕ

abbrev pub EdgeId : Type 0
EdgeId = ℕ

-- A letter, a digit, a dash or an underscore.
abbrev pub is_name_byte : ℕ → Bool
is_name_byte b =
    (leb 48 b && leb b 57)
    || (leb 65 b && leb b 90)
    || (leb 97 b && leb b 122)
    || (b == 45)
    || (b == 95)

all_bytes : (ℕ → Bool) → List ℕ → Bool
all_bytes test [] = true
all_bytes test (b ∷ bs) = test b && all_bytes test bs

unfoldable pub edge_name_new : List ℕ → Result NetError EdgeName
unfolding all_bytes
edge_name_new name =
    if (length name == 0) || ltb 64 (length name)
    then err (bad_edge_name "length must be 1 to 64 bytes")
    else if not (all_bytes is_name_byte name)
    then err (bad_edge_name "only letters, digits, dash and underscore")
    else ok name

pub data ClaimError : Type 0 where
  already_claimed : EntityId → EdgeId → ClaimError
  no_such_edge : EdgeId → ClaimError

pub record EdgeRecord : Type 0 where
  pub name : EdgeName
  pub since : ℕ
  pub heard : ℕ
  pub entities : Set

pub record Edges : Type 0 where
  pub slots : List (Option EdgeRecord)
  pub owners : List ℕ
  pub detached : List EntityId
  pub live : ℕ
  pub accepted : ℕ
  pub generation : ℕ

abbrev pub edges_new : Edges
edges_new = record {
  slots = [];
  owners = [];
  detached = [];
  live = 0;
  accepted = 0;
  generation = 0;
}

-- The `fetch_add` and the `fetch_sub` of the counters.
abbrev pub up : ℕ → ℕ
up n = (n + 1) % 2 ^ 64

abbrev pub down : ℕ → ℕ
down n = (n + (2 ^ 64 - 1)) % 2 ^ 64

abbrev pub record_at : List (Option EdgeRecord) → ℕ → Option EdgeRecord
record_at slots i = get_or slots i none

same_bytes : List ℕ → List ℕ → Bool
same_bytes [] [] = true
same_bytes (a ∷ xs) (b ∷ ys) = (a == b) && same_bytes xs ys
same_bytes xs ys = false

unfoldable pub is_named : EdgeName → Option EdgeRecord → Bool
unfolding same_bytes
is_named name none = false
is_named name (some r) = same_bytes r.name name

unfoldable pub is_free : Option EdgeRecord → Bool
is_free none = true
is_free (some r) = false

unfoldable pub heard_at : ℕ → Option EdgeRecord → Option EdgeRecord
heard_at now none = none
heard_at now (some r) = some (record r { heard = now })

-- The first free slot, or one more.
unfoldable pub free_slot : List (Option EdgeRecord) → ℕ × List (Option EdgeRecord)
free_slot slots = elim (position is_free slots) [
  | some free ↦ (free, slots)
  | none ↦ (length slots, slots ++ none ∷ [])
]

unfoldable pub admit_new : EdgeName → ℕ → Edges → EdgeId × Edges
admit_new name now e =
    let fresh : EdgeRecord = record { name = name; since = now; heard = now; entities = [] } in
    let (at, slots) = free_slot e.slots in
    (
      at % 2 ^ 32,
      record e {
        slots = set slots at (some fresh);
        live = up e.live;
        accepted = up e.accepted;
        generation = up e.generation;
      },
    )

-- `now` is the time at which the call runs.
unfoldable pub admit : EdgeName → ℕ → Edges → EdgeId × Edges
unfolding heard_at
admit name now e = elim (position (is_named name) e.slots) [
  | some at ↦
      (at % 2 ^ 32, record e { slots = set e.slots at (heard_at now (record_at e.slots at)) })
  | none ↦ admit_new name now e
]

unfoldable pub entity_sets :
    EdgeId → (Set → Set) → List (Option EdgeRecord) → List (Option EdgeRecord)
entity_sets id f slots = elim (record_at slots id) [
  | none ↦ slots
  | some r ↦ set slots id (some (record r { entities = f r.entities }))
]

unfoldable pub claim : EdgeId → EntityId → Edges → Result ClaimError Unit × Edges
claim edge entity e = elim (record_at e.slots edge) [
  | none ↦ (err (no_such_edge edge), e)
  | some r ↦
      let owners = resize e.owners (entity + 1) unowned in
      let held_by = get_or owners entity unowned in
      if held_by == edge
      then (ok tt, record e { owners = owners })
      else if not (held_by == unowned)
      then (err (already_claimed entity held_by), record e { owners = owners })
      else (
        ok tt,
        record e {
          owners = set owners entity edge;
          slots = entity_sets edge (set_insert entity) e.slots;
        },
      )
]

unfoldable pub release : EntityId → Edges → Option EdgeId × Edges
release entity e =
    if leb (length e.owners) entity
    then (none, e)
    else let held_by = get_or e.owners entity unowned in
      let owners = set e.owners entity unowned in
      if held_by == unowned then (none, record e { owners = owners }) else (
        some held_by,
        record e { owners = owners; slots = entity_sets held_by (set_remove entity) e.slots },
      )

unfoldable pub edge_for : EntityId → Edges → Option EdgeId
edge_for entity e = elim (get_elem? e.owners entity) [
  | none ↦ none
  | some held_by ↦ if held_by == unowned then none else some held_by
]

abbrev pub entities_of : Option EdgeRecord → Set
entities_of none = []
entities_of (some r) = r.entities

unfoldable pub entity_count : EdgeId → Edges → ℕ
entity_count edge e = length (entities_of (record_at e.slots edge))

unfoldable pub name_of : EdgeId → Edges → Option EdgeName
name_of id e = Option.map (λ r. r.name) (record_at e.slots id)

unfoldable pub take_detached : Edges → List EntityId × Edges
take_detached e = (e.detached, record e { detached = [] })

-- Only what the edge still held is cleared.
unfoldable pub disown : EdgeId → Set → List ℕ → List ℕ
disown id [] owners = owners
disown id (x ∷ s) owners =
    disown id s (if get_or owners x unowned == id then set owners x unowned else owners)

unfoldable pub detach : EdgeId → Edges → Edges
detach id e = elim (record_at e.slots id) [
  | none ↦ e
  | some r ↦ record e {
    slots = set e.slots id none;
    owners = disown id r.entities e.owners;
    detached = e.detached ++ r.entities;
    live = down e.live;
    generation = up e.generation;
  }
]

abbrev pub is_stale : ℕ → ℕ → Option EdgeRecord → Bool
is_stale now after none = false
is_stale now after (some r) = ltb after (now - r.heard)

-- The ids of the slots that have been silent for too long, from the `i`-th on.
unfoldable pub stale_from : ℕ → ℕ → ℕ → List (Option EdgeRecord) → List EdgeId
stale_from now after i [] = []
stale_from now after i (slot ∷ slots) =
    let rest = stale_from now after (i + 1) slots in
    if is_stale now after slot then (i % 2 ^ 32) ∷ rest else rest

-- The scan of `expire`, which returns how many it found; what it does to the edges is a detach of
-- each, and other calls may come in between (Expiry).
unfoldable pub stale_edges : ℕ → ℕ → Edges → List EdgeId
stale_edges now after e = stale_from now after 0 e.slots

-- ===== src/Net/Region/Edges/Slots.antt =====
-- net/region/edges.rs: what a call other than a detach does to one slot.
use umwelt_rs.Base.{
  ℕ, ◌≤◌, ◌<◌, ◌≡◌, refl, ◌∙◌, arith, ◌==◌, Option, none, some, List, [], length, Option-cases, inl,
  inr, Bool-cases, leb, get_or,
}
use umwelt_rs.Base.Arrays.{set, position, get_or-set, position_found}
use umwelt_rs.Base.Sets.{Set, set_insert, set_remove}
use umwelt_rs.Entity.{EntityId}
use umwelt_rs.Net.Region.Edges.{
  Edges, EdgeRecord, EdgeId, EdgeName, unowned, record_at, entity_sets, claim, release, admit,
  admit_new, free_slot, is_named, heard_at, take_detached,
}
use umwelt_rs.Net.Region.Edges.Owners.{
  record_at-lt, claim_cases, detached_edge, kept, refused, taken,
}
use umwelt_rs.Net.Region.Edges.Reach.{free_slot_lem, Step, admits, claims, releases, takes}

-- A call of another task, at the time `t` or later.
pub data Other (t : ℕ) : Edges → Edges → Type 0 where
  other_admits :
      (name : EdgeName) (now : ℕ) (e : Edges)
      → t ≤ now
      → length e.slots < unowned
      → Other t e (admit name now e).1
  other_claims : (edge : EdgeId) (x : EntityId) (e : Edges) → Other t e (claim edge x e).1
  other_releases : (x : EntityId) (e : Edges) → Other t e (release x e).1
  other_takes : (e : Edges) → Other t e (take_detached e).1

pub Other-Step : {t : ℕ} {e f : Edges} → Other t e f → Step e f
Other-Step (other_admits name now e late room) = admits name now e room
Other-Step (other_claims edge x e) = claims edge x e
Other-Step (other_releases x e) = releases x e
Other-Step (other_takes e) = takes e

-- One slot, before and behind: as it was, still with the edge that it had, or given to an edge that
-- came at the time `t` or later.
pub data Slotted (t : ℕ) (old new : Option EdgeRecord) : Type 0 where
  as_was : new ≡ old → Slotted t old new
  same_edge :
      (r q : EdgeRecord)
      → old ≡ some r
      → new ≡ some q
      → q.name ≡ r.name
      → q.since ≡ r.since
      → Slotted t old new
  came : (q : EdgeRecord) → old ≡ none → new ≡ some q → t ≤ q.since → Slotted t old new

-- A write to the slot, or to another.
written :
    (t at i : ℕ) (slots : List (Option EdgeRecord)) (v : Option EdgeRecord)
    → at < length slots
    → Slotted t (record_at slots at) v
    → Slotted t (record_at slots i) (record_at (set slots at v) i)
written t at i slots v h m = elim (Bool-cases (at == i)) [
  | inl k ↦
      let same : at ≡ i = ground arith in
      let now_v : record_at (set slots at v) i ≡ v = get_or-set slots at i v none h ∙ rw k refl in
      rw (now_v, ← same) m
  | inr k ↦ as_was (get_or-set slots at i v none h ∙ rw k refl)
]

heard_at-Slotted : (t now : ℕ) (o : Option EdgeRecord) → Slotted t o (heard_at now o)
unfolding heard_at
heard_at-Slotted t now none = as_was refl
heard_at-Slotted t now (some r) = same_edge r (record r { heard = now }) refl refl refl refl

entity_sets-Slotted :
    (t id i : ℕ) (f : Set → Set) (slots : List (Option EdgeRecord))
    → Slotted t (record_at slots i) (record_at (entity_sets id f slots) i)
unfolding entity_sets
entity_sets-Slotted t id i f slots = elim (Option-cases (record_at slots id)) [
  | inl q ↦ rw (q, entity_sets) (as_was refl)
  | inr (r, q) ↦
      rw (q, entity_sets)
        (written t id i slots _ (record_at-lt slots id r q) (same_edge r _ q refl refl refl))
]

admit_new-Slotted :
    (t : ℕ) (name : EdgeName) (now i : ℕ) (e : Edges)
    → t ≤ now
    → Slotted t (record_at e.slots i) (record_at (admit_new name now e).1.slots i)
unfolding admit_new
admit_new-Slotted t name now i e late =
    let (h, n, s) = free_slot_lem e.slots i in
    let fresh : EdgeRecord = record { name = name; since = now; heard = now; entities = [] } in
    rw (← s) (
      written t (free_slot e.slots).0 i (free_slot e.slots).1 (some fresh) h
        (came fresh n refl late))

admit-Slotted :
    (t : ℕ) (name : EdgeName) (now i : ℕ) (e : Edges)
    → t ≤ now
    → Slotted t (record_at e.slots i) (record_at (admit name now e).1.slots i)
unfolding admit
admit-Slotted t name now i e late = elim (Option-cases (position (is_named name) e.slots)) [
  | inl q ↦ rw (q, admit) (admit_new-Slotted t name now i e late)
  | inr (at, q) ↦
      let (h, told) = position_found (is_named name) e.slots at none q in
      rw (q, admit) (written t at i e.slots _ h (heard_at-Slotted t now (record_at e.slots at)))
]

claim-Slotted :
    (t : ℕ) (edge : EdgeId) (x : EntityId) (i : ℕ) (e : Edges)
    → Slotted t (record_at e.slots i) (record_at (claim edge x e).1.slots i)
claim-Slotted t edge x i e = elim (claim_cases edge x e) [
  | detached_edge q f ↦ rw f (as_was refl)
  | kept r q o f ↦ rw f (as_was refl)
  | refused r q o p f ↦ rw f (as_was refl)
  | taken r q o f ↦ rw f (entity_sets-Slotted t edge i (set_insert x) e.slots)
]

release-Slotted :
    (t : ℕ) (x : EntityId) (i : ℕ) (e : Edges)
    → Slotted t (record_at e.slots i) (record_at (release x e).1.slots i)
unfolding release
release-Slotted t x i e = elim (Bool-cases (leb (length e.owners) x)) [
  | inl k ↦ rw (k, release) (as_was refl)
  | inr k ↦ elim (Bool-cases (get_or e.owners x unowned == unowned)) [
    | inl u ↦ rw (k, u, release) (as_was refl)
    | inr u ↦
        rw (k, u, release)
          (entity_sets-Slotted t (get_or e.owners x unowned) i (set_remove x) e.slots)
  ]
]

pub Other-Slotted :
    {t : ℕ} {e f : Edges}
    → Other t e f
    → (i : ℕ) → Slotted t (record_at e.slots i) (record_at f.slots i)
unfolding take_detached
Other-Slotted {t} (other_admits name now e late room) i = admit-Slotted t name now i e late
Other-Slotted {t} (other_claims edge x e) i = claim-Slotted t edge x i e
Other-Slotted {t} (other_releases x e) i = release-Slotted t x i e
Other-Slotted (other_takes e) i = as_was refl

-- ===== src/Net/Region/Edges/Reach.antt =====
-- net/region/edges.rs: what the table and the sets tell stays the same through every operation.
use umwelt_rs.Base.{
  ℕ, ◌+◌, ◌≤◌, ◌<◌, ◌≡◌, refl, sym, ap, ◌∙◌, arith, true, ◌&&◌, ◌==◌, if◌then◌else◌, Option, none,
  some, List, [], ◌∷◌, length, get_or, length-append, Option-cases, inl, inr, Bool-cases,
}
use umwelt_rs.Base.Arrays.{
  set, position, length-set, get_or-set, get_or-filled, position_found, get_or-lt, get_or_end,
}
use umwelt_rs.Base.Sets.{Set, member, member_nil}
use umwelt_rs.Entity.{EntityId}
use umwelt_rs.Net.Region.Edges.{
  Edges, EdgeRecord, EdgeId, EdgeName, unowned, record_at, entities_of, claim, release, detach,
  disown, admit, admit_new, free_slot, is_free, is_named, take_detached, heard_at, edges_new,
}
use umwelt_rs.Net.Region.Edges.Owners.{
  owner, IsConsistent, record_at-lt, entities-set, held_of, claim-IsConsistent,
  release-IsConsistent,
}

-- What an edge that detaches leaves of the table.
pub owner_disown :
    (id y : ℕ) (s : Set) (owners : List ℕ)
    → id < unowned
    → get_or (disown id s owners) y unowned
      ≡ (if member y s && (get_or owners y unowned == id) then unowned else get_or owners y unowned)
unfolding disown member
owner_disown id y [] owners h = refl
owner_disown id y (x ∷ s) owners h = elim (Bool-cases (get_or owners x unowned == id)) [
  | inl k ↦
      let inside : x < length owners = grind (arith, get_or-lt owners x unowned) in
      rw k (
        owner_disown id y s (set owners x unowned) h
        ∙ ground (arith, get_or-set owners x y unowned unowned inside))
  | inr k ↦ rw k (owner_disown id y s owners h ∙ ground arith)
]

-- The sets are the same, and the table is.
same_sets :
    (e f : Edges)
    → IsConsistent e
    → length f.slots ≤ unowned
    → f.owners ≡ e.owners
    → ((i : ℕ) → entities_of (record_at f.slots i) ≡ entities_of (record_at e.slots i))
    → IsConsistent f
same_sets e f c few o same = record {
  few = few;
  bound = λ x. rw o (c.bound x);
  agree = λ i x h. rw (same i, o) (c.agree i x h);
}

-- The set of an edge that is gone, and the table without it.
detach_agree :
    (y id i o : ℕ) (s held : Set)
    → i < unowned
    → (id ≡ i → held ≡ s)
    → member y s ≡ (o == id)
    → member y held ≡ (o == i)
    → member y (if id == i then [] else held)
      ≡ ((if member y s && (o == id) then unowned else o) == i)
detach_agree y id i o s held h same own agree = ground (arith, member_nil y)

pub detach-IsConsistent : (id : EdgeId) (e : Edges) → IsConsistent e → IsConsistent (detach id e)
unfolding detach
detach-IsConsistent id e c = elim (Option-cases (record_at e.slots id)) [
  | inl q ↦ rw (q, detach) c
  | inr (r, q) ↦
      let here = record_at-lt e.slots id r q in
      let told = λ (y : ℕ). owner_disown id y r.entities e.owners (omega (arith, c.few)) in
      rw (q, detach)
        (record {
          few = omega (arith, c.few, length-set e.slots id none);
          bound = λ y. grind (arith, told y, c.bound y);
          agree = λ i y h.
              ap (member y) (entities-set e.slots id i none here)
              ∙ detach_agree y id i (owner e y) r.entities _ h (held_of e.slots id i r q)
                  (ap (λ o. member y (entities_of o)) (sym q) ∙ c.agree id y (omega (arith, c.few)))
                  (c.agree i y h)
              ∙ ap (λ (n : ℕ). n == i) (sym (told y));
        })
]

free_none : (o : Option EdgeRecord) → is_free o ≡ true → o ≡ none
unfolding is_free
free_none none h = refl
free_none (some r) h = cc

pub free_slot_lem :
    (slots : List (Option EdgeRecord)) (i : ℕ)
    → ((free_slot slots).0 < length (free_slot slots).1)
      × (record_at (free_slot slots).1 (free_slot slots).0 ≡ none)
      × (record_at (free_slot slots).1 i ≡ record_at slots i)
unfolding free_slot
free_slot_lem slots i = elim (Option-cases (position is_free slots)) [
  | inl q ↦
      rw (q, free_slot)
        (
          omega (arith, length-append slots (none ∷ [])),
          get_or-filled slots 1 (length slots) none ∙ get_or_end slots none,
          get_or-filled slots 1 i none,
        )
  | inr (at, q) ↦
      rw (q, free_slot)
        (let (h, t) = position_found is_free slots at none q in (h, free_none _ t, refl))
]

length-free_slot :
    (slots : List (Option EdgeRecord)) → length (free_slot slots).1 ≤ length slots + 1
unfolding free_slot
length-free_slot slots = elim (Option-cases (position is_free slots)) [
  | inl q ↦ rw (q, free_slot) (omega (arith, length-append slots (none ∷ [])))
  | inr (at, q) ↦ rw (q, free_slot) (omega arith)
]

-- A record replaced by one with the same set.
same_record :
    (slots : List (Option EdgeRecord)) (at i : ℕ) (v : Option EdgeRecord)
    → at < length slots
    → entities_of v ≡ entities_of (record_at slots at)
    → entities_of (record_at (set slots at v) i) ≡ entities_of (record_at slots i)
same_record slots at i v h same = entities-set slots at i v h ∙ elim (Bool-cases (at == i)) [
  | inl k ↦
      let e : at ≡ i = ground arith in
      rw k (same ∙ ap (λ (n : ℕ). entities_of (record_at slots n)) e)
  | inr k ↦ rw k
]

heard_same : (now : ℕ) (o : Option EdgeRecord) → entities_of (heard_at now o) ≡ entities_of o
unfolding heard_at
heard_same now none = refl
heard_same now (some r) = refl

admit_new-IsConsistent :
    (name : EdgeName) (now : ℕ) (e : Edges)
    → IsConsistent e
    → length e.slots < unowned
    → IsConsistent (admit_new name now e).1
unfolding admit_new
admit_new-IsConsistent name now e c room =
    same_sets e (admit_new name now e).1 c
      (omega (
        arith,
        length-free_slot e.slots,
        length-set (free_slot e.slots).1 (free_slot e.slots).0
            (some (record { name = name; since = now; heard = now; entities = [] })),
      ))
      refl
      (λ i.
        let (h, n, s) = free_slot_lem e.slots i in
        same_record (free_slot e.slots).1 (free_slot e.slots).0 i _ h (sym (ap entities_of n))
        ∙ ap entities_of s)

admit-IsConsistent :
    (name : EdgeName) (now : ℕ) (e : Edges)
    → IsConsistent e
    → length e.slots < unowned
    → IsConsistent (admit name now e).1
unfolding admit
admit-IsConsistent name now e c room = elim (Option-cases (position (is_named name) e.slots)) [
  | inl q ↦ rw (q, admit) (admit_new-IsConsistent name now e c room)
  | inr (at, q) ↦
      let (h, t) = position_found (is_named name) e.slots at none q in
      rw (q, admit)
        (same_sets e (record e { slots = set e.slots at (heard_at now (record_at e.slots at)) }) c
          (omega (arith, c.few, length-set e.slots at (heard_at now (record_at e.slots at)))) refl
          (λ i. same_record e.slots at i _ h (heard_same now (record_at e.slots at))))
]

-- One call on the edges of a region, at whatever time it runs; expire makes as many as it detaches. A table of fewer than 2 ^ 32 - 1
-- slots takes another edge.
pub data Step : Edges → Edges → Type 0 where
  admits :
      (name : EdgeName) (now : ℕ) (e : Edges)
      → length e.slots < unowned
      → Step e (admit name now e).1
  claims : (edge : EdgeId) (x : EntityId) (e : Edges) → Step e (claim edge x e).1
  releases : (x : EntityId) (e : Edges) → Step e (release x e).1
  detaches : (id : EdgeId) (e : Edges) → Step e (detach id e)
  takes : (e : Edges) → Step e (take_detached e).1

pub data Reach (s : Edges) : Edges → Type 0 where
  start : Reach s s
  next : {e f : Edges} → Reach s e → Step e f → Reach s f

pub Step-IsConsistent : {e f : Edges} → Step e f → IsConsistent e → IsConsistent f
unfolding take_detached
Step-IsConsistent (admits name now e room) c = admit-IsConsistent name now e c room
Step-IsConsistent (claims edge x e) c = claim-IsConsistent edge x e c
Step-IsConsistent (releases x e) c = release-IsConsistent x e c
Step-IsConsistent (detaches id e) c = detach-IsConsistent id e c
Step-IsConsistent (takes e) c = record {
  few = c.few;
  bound = λ x. c.bound x;
  agree = λ i x h. c.agree i x h;
}

new-IsConsistent : IsConsistent edges_new
new-IsConsistent = record {
  few = omega arith;
  bound = λ x. omega arith;
  agree = λ i x h. member_nil x ∙ ground arith;
}

-- Whatever calls have run on the edges of a region, in whatever order, the set of every edge has
-- exactly the entities that the table of owners gives it.
pub Reach-IsConsistent : {e : Edges} → Reach edges_new e → IsConsistent e
Reach-IsConsistent start = new-IsConsistent
Reach-IsConsistent (next r s) = Step-IsConsistent s (Reach-IsConsistent r)

-- ===== src/Net/Region/Edges/Owners.antt =====
-- net/region/edges.rs: the table of owners and the sets of the edges tell the same.
use umwelt_rs.Base.{
  ℕ, zero, suc, ◌+◌, ◌-◌, ◌≤◌, ◌<◌, ◌≡◌, refl, sym, ap, ◌∙◌, arith, Bool, leb, ◌==◌, if◌then◌else◌,
  Option, none, some, List, [], ◌∷◌, length, get_or, Option-cases, inl, inr, ◌≢◌, Bool-cases,
}
use umwelt_rs.Base.Arrays.{set, resize, length-set, get_or-set, get_or-filled, length-resize}
use umwelt_rs.Base.Sets.{
  Set, member, set_insert, set_remove, member-set_insert, member-set_remove, member_nil,
}
use umwelt_rs.Base.Result.{ok, err}
use umwelt_rs.Entity.{EntityId}
use umwelt_rs.Net.Region.Edges.{
  Edges, EdgeRecord, EdgeId, unowned, record_at, entities_of, entity_sets, claim, release,
  no_such_edge, already_claimed,
}

-- Whether an edge's set has an entity.
abbrev pub holds : Edges → EdgeId → EntityId → Bool
holds e i x = member x (entities_of (record_at e.slots i))

abbrev pub owner : Edges → EntityId → EdgeId
owner e x = get_or e.owners x unowned

-- Every edge's set has the entities that the table says are its own, and no others.
pub record IsConsistent (e : Edges) : Type 0 where
  pub few : length e.slots ≤ unowned
  pub bound : (x : EntityId) → owner e x ≤ unowned
  pub agree : (i : EdgeId) (x : EntityId) → i < unowned → holds e i x ≡ (owner e x == i)

pub record_at-lt :
    (slots : List (Option EdgeRecord)) (i : ℕ) (r : EdgeRecord)
    → record_at slots i ≡ some r
    → i < length slots
record_at-lt [] i r q = cc
record_at-lt (s ∷ slots) zero r q = omega arith
record_at-lt (s ∷ slots) (suc i) r q = omega (arith, record_at-lt slots i r q)

entity_sets-none :
    (id : ℕ) (f : Set → Set) (slots : List (Option EdgeRecord))
    → record_at slots id ≡ none
    → entity_sets id f slots ≡ slots
unfolding entity_sets
entity_sets-none id f slots q = rw (q, entity_sets)

entity_sets-some :
    (id : ℕ) (f : Set → Set) (slots : List (Option EdgeRecord)) (r : EdgeRecord)
    → record_at slots id ≡ some r
    → entity_sets id f slots ≡ set slots id (some (record r { entities = f r.entities }))
unfolding entity_sets
entity_sets-some id f slots r q = rw (q, entity_sets)

length-entity_sets :
    (id : ℕ) (f : Set → Set) (slots : List (Option EdgeRecord))
    → length (entity_sets id f slots) ≡ length slots
length-entity_sets id f slots = elim (Option-cases (record_at slots id)) [
  | inl q ↦ ap length (entity_sets-none id f slots q)
  | inr (r, q) ↦ ap length (entity_sets-some id f slots r q) ∙ length-set slots id _
]

pub entities-set :
    (slots : List (Option EdgeRecord)) (i j : ℕ) (v : Option EdgeRecord)
    → i < length slots
    → entities_of (record_at (set slots i v) j)
      ≡ (if i == j then entities_of v else entities_of (record_at slots j))
entities-set slots i j v h = ground (arith, get_or-set slots i j v none h)

entities-entity_sets :
    (id j : ℕ) (f : Set → Set) (slots : List (Option EdgeRecord)) (r : EdgeRecord)
    → record_at slots id ≡ some r
    → entities_of (record_at (entity_sets id f slots) j)
      ≡ (if id == j then f r.entities else entities_of (record_at slots j))
entities-entity_sets id j f slots r q =
    ap (λ (s : List (Option EdgeRecord)). entities_of (record_at s j))
      (entity_sets-some id f slots r q)
    ∙ entities-set slots id j _ (record_at-lt slots id r q)

-- The table, grown to hold an entity.
abbrev pub grown : EntityId → Edges → List ℕ
grown x e = resize e.owners (x + 1) unowned

-- What a claim does: nothing, grow the table, or take the entity.
pub data Claimed (edge : EdgeId) (x : EntityId) (e : Edges) : Type 0 where
  detached_edge :
      record_at e.slots edge ≡ none
      → claim edge x e ≡ (err (no_such_edge edge), e)
      → Claimed edge x e
  kept :
      (r : EdgeRecord)
      → record_at e.slots edge ≡ some r
      → owner e x ≡ edge
      → claim edge x e ≡ (ok tt, record e { owners = grown x e })
      → Claimed edge x e
  refused :
      (r : EdgeRecord)
      → record_at e.slots edge ≡ some r
      → owner e x ≢ edge
      → owner e x ≢ unowned
      → claim edge x e ≡ (err (already_claimed x (owner e x)), record e { owners = grown x e })
      → Claimed edge x e
  taken :
      (r : EdgeRecord)
      → record_at e.slots edge ≡ some r
      → owner e x ≡ unowned
      → claim edge x e ≡ (
        ok tt,
        record e {
          owners = set (grown x e) x edge;
          slots = entity_sets edge (set_insert x) e.slots;
        },
      )
      → Claimed edge x e

pub claim_cases : (edge : EdgeId) (x : EntityId) (e : Edges) → Claimed edge x e
unfolding claim
claim_cases edge x e = elim (Option-cases (record_at e.slots edge)) [
  | inl q ↦ detached_edge q (rw (q, claim))
  | inr (r, q) ↦
      let seen : get_or (grown x e) x unowned ≡ owner e x = get_or-filled e.owners _ x unowned in
      elim (Bool-cases (owner e x == edge)) [
        | inl h ↦ kept r q (ground arith) (rw (q, seen, h, claim) refl)
        | inr h ↦ elim (Bool-cases (owner e x == unowned)) [
          | inl k ↦ taken r q (ground arith) (rw (q, seen, h, k, claim) refl)
          | inr k ↦ refused r q (ground arith) (ground arith) (rw (q, seen, h, k, claim) refl)
        ]
      ]
]

-- A table grown in place of the old says the same.
grown-IsConsistent :
    (x : EntityId) (e : Edges) → IsConsistent e → IsConsistent (record e { owners = grown x e })
grown-IsConsistent x e c = record {
  few = c.few;
  bound = λ y. rw (get_or-filled e.owners (x + 1 - length e.owners) y unowned) (c.bound y);
  agree =
      λ i y h. c.agree i y h ∙ ap (λ (n : ℕ). n == i) (sym (get_or-filled e.owners _ y unowned));
}

pub owner_taken :
    (x y edge : ℕ) (e : Edges)
    → get_or (set (grown x e) x edge) y unowned ≡ (if x == y then edge else owner e y)
owner_taken x y edge e =
    get_or-set (grown x e) x y edge unowned (omega (arith, length-resize e.owners (x + 1) unowned))
    ∙ ap (λ (n : ℕ). if x == y then edge else n) (get_or-filled e.owners _ y unowned)

-- A set that gains an entity nobody had, and the table that says so.
taken_agree :
    (x y edge i o : ℕ) (s held : Set)
    → i < unowned
    → (edge ≡ i → held ≡ s)
    → (x ≡ y → o ≡ unowned)
    → member y held ≡ (o == i)
    → member y (if edge == i then set_insert x s else held) ≡ ((if x == y then edge else o) == i)
taken_agree x y edge i o s held h same free agree = ground (arith, member-set_insert x y s)

-- A set that loses an entity, and the table that forgets its owner.
given_agree :
    (x y edge i o : ℕ) (s held : Set)
    → i < unowned
    → (edge ≡ i → held ≡ s)
    → (x ≡ y → o ≡ edge)
    → member y held ≡ (o == i)
    → member y (if edge == i then set_remove x s else held) ≡ ((if x == y then unowned else o) == i)
given_agree x y edge i o s held h same own agree = ground (arith, member-set_remove x y s)

pub held_of :
    (slots : List (Option EdgeRecord)) (edge i : ℕ) (r : EdgeRecord)
    → record_at slots edge ≡ some r
    → edge ≡ i
    → entities_of (record_at slots i) ≡ r.entities
held_of slots edge i r q e =
    ap (λ (n : ℕ). entities_of (record_at slots n)) (sym e) ∙ ap entities_of q

pub claim-IsConsistent :
    (edge : EdgeId) (x : EntityId) (e : Edges) → IsConsistent e → IsConsistent (claim edge x e).1
claim-IsConsistent edge x e c = elim (claim_cases edge x e) [
  | detached_edge q p ↦ rw p c
  | kept r q o p ↦ rw p (grown-IsConsistent x e c)
  | refused r q o u p ↦ rw p (grown-IsConsistent x e c)
  | taken r q o p ↦ rw p (record {
    few = rw (length-entity_sets edge (set_insert x) e.slots) c.few;
    bound =
        λ y. grind (arith, owner_taken x y edge e, c.bound y, c.few, record_at-lt e.slots edge r q);
    agree = λ i y h.
        ap (member y) (entities-entity_sets edge i (set_insert x) e.slots r q)
        ∙ taken_agree x y edge i (owner e y) r.entities _ h (held_of e.slots edge i r q)
            (λ s. ap (owner e) (sym s) ∙ o) (c.agree i y h)
        ∙ ap (λ (n : ℕ). n == i) (sym (owner_taken x y edge e));
  })
]

-- What a release does.
pub data Released (x : EntityId) (e : Edges) : Type 0 where
  absent : length e.owners ≤ x → release x e ≡ (none, e) → Released x e
  unclaimed :
      x < length e.owners
      → owner e x ≡ unowned
      → release x e ≡ (none, record e { owners = set e.owners x unowned })
      → Released x e
  given :
      x < length e.owners
      → owner e x ≢ unowned
      → release x e ≡ (
        some (owner e x),
        record e {
          owners = set e.owners x unowned;
          slots = entity_sets (owner e x) (set_remove x) e.slots;
        },
      )
      → Released x e

pub release_cases : (x : EntityId) (e : Edges) → Released x e
unfolding release
release_cases x e = elim (Bool-cases (leb (length e.owners) x)) [
  | inl h ↦ absent (ground arith) (rw (h, release) refl)
  | inr h ↦ elim (Bool-cases (owner e x == unowned)) [
    | inl k ↦ unclaimed (ground arith) (ground arith) (rw (h, k, release) refl)
    | inr k ↦ given (ground arith) (ground arith) (rw (h, k, release) refl)
  ]
]

-- The slot of an owner is taken.
pub owner_record :
    (x : EntityId) (e : Edges)
    → IsConsistent e
    → owner e x ≢ unowned
    → (r : EdgeRecord) × (record_at e.slots (owner e x) ≡ some r)
owner_record x e c n = elim (Option-cases (record_at e.slots (owner e x))) [
  | inl q ↦
      let mine = c.agree (owner e x) x (grind (arith, c.bound x)) in
      absurd (ground (arith, mine, ap (λ o. member x (entities_of o)) q, member_nil x))
  | inr found ↦ found
]

pub release-IsConsistent :
    (x : EntityId) (e : Edges) → IsConsistent e → IsConsistent (release x e).1
release-IsConsistent x e c = elim (release_cases x e) [
  | absent h p ↦ rw p c
  | unclaimed h o p ↦ rw p (record {
    few = c.few;
    bound = λ y. grind (arith, get_or-set e.owners x y unowned unowned h, c.bound y);
    agree = λ i y k.
        c.agree i y k
        ∙ ap (λ (n : ℕ). n == i) (ground (arith, get_or-set e.owners x y unowned unowned h));
  })
  | given h n p ↦
      let (r, q) = owner_record x e c n in
      rw p (record {
        few = rw (length-entity_sets (owner e x) (set_remove x) e.slots) c.few;
        bound = λ y. grind (arith, get_or-set e.owners x y unowned unowned h, c.bound y);
        agree = λ i y k.
            ap (member y) (entities-entity_sets (owner e x) i (set_remove x) e.slots r q)
            ∙ given_agree x y (owner e x) i (owner e y) r.entities _ k
                (held_of e.slots (owner e x) i r q) (λ s. ap (owner e) (sym s)) (c.agree i y k)
            ∙ ap (λ (n : ℕ). n == i) (sym (get_or-set e.owners x y unowned unowned h));
      })
]

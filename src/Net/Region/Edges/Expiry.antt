-- ===== src/Net/Region/Edges/Expiry.antt =====
-- net/region/edges.rs: what is left when an edge goes, or has been silent for too long.
use umwelt_rs.Base.{
  ℕ, suc, ◌+◌, ◌-◌, ◌^◌, ◌≤◌, ◌<◌, ◌≡◌, refl, sym, ap, ◌∙◌, arith, true, false, ◌&&◌, leb, ltb,
  ◌==◌, if◌then◌else◌, Option, none, some, some_inj, List, [], ◌∷◌, ◌++◌, length, Option-cases, inl,
  inr, ◌⊎◌, ◌↔◌, Bool-cases,
}
use umwelt_rs.Base.Arrays.{get_or-set}
use umwelt_rs.Base.Sets.{member}
use umwelt_rs.Entity.{EntityId}
use umwelt_rs.Net.Region.Edges.{
  Edges, EdgeRecord, EdgeId, unowned, record_at, entities_of, detach, edge_for, stale_edges,
  stale_from, is_stale,
}
use umwelt_rs.Net.Region.Edges.Owners.{owner, IsConsistent, record_at-lt, owner_record}
use umwelt_rs.Net.Region.Edges.Reach.{owner_disown, detach-IsConsistent, Step-IsConsistent}
use umwelt_rs.Net.Region.Edges.Outcomes.{edge_for-owner}
use umwelt_rs.Net.Region.Edges.Slots.{
  Other, Other-Step, Slotted, as_was, same_edge, came, Other-Slotted,
}

none-some : (r : EdgeRecord) → ¬ (none ≡ some r)
none-some r h = cc

-- A free slot owns nothing.
not_owned :
    (id : EdgeId) (y : EntityId) (e : Edges)
    → IsConsistent e
    → record_at e.slots id ≡ none
    → owner e y ≡ (if owner e y == id then unowned else owner e y)
not_owned id y e c q = elim (Bool-cases (owner e y == id)) [
  | inl k ↦ rw k (elim (Bool-cases (owner e y == unowned)) [
    | inl u ↦ ground arith
    | inr u ↦
        let (r, at_owner) = owner_record y e c (ground arith) in
        absurd (none-some r (sym q ∙ ap (record_at e.slots) (ground arith) ∙ at_owner))
  ])
  | inr k ↦ rw k
]

-- The owner of an entity behind a detach.
owner-detach :
    (id : EdgeId) (y : EntityId) (e : Edges)
    → IsConsistent e
    → owner (detach id e) y ≡ (if owner e y == id then unowned else owner e y)
unfolding detach
owner-detach id y e c = elim (Option-cases (record_at e.slots id)) [
  | inl q ↦ rw (q, detach) (not_owned id y e c q)
  | inr (r, q) ↦
      rw (q, detach)
        (owner_disown id y r.entities e.owners (omega (arith, c.few, record_at-lt e.slots id r q))
          ∙ (let told : member y r.entities ≡ (owner e y == id) =
                ap (λ o. member y (entities_of o)) (sym q)
                ∙ c.agree id y (omega (arith, c.few, record_at-lt e.slots id r q)) in
              ground arith))
]

record-detach :
    (id i : EdgeId) (e : Edges)
    → record_at (detach id e).slots i ≡ (if id == i then none else record_at e.slots i)
unfolding detach
record-detach id i e = elim (Option-cases (record_at e.slots id)) [
  | inl q ↦
      rw (q, detach)
        (elim (Bool-cases (id == i)) [
          | inl k ↦ rw k (ap (record_at e.slots) (ground arith) ∙ q)
          | inr k ↦ rw k
        ])
  | inr (r, q) ↦ rw (q, detach) (get_or-set e.slots id i none none (record_at-lt e.slots id r q))
]

Nat_cases : (j k : ℕ) → (j < k) ⊎ ((j ≡ k) ⊎ (k < j))
Nat_cases j k = ground arith

member-stale_from :
    (now after k j : ℕ) (slots : List (Option EdgeRecord))
    → k + length slots ≤ 2 ^ 32
    → member j (stale_from now after k slots)
      ≡ (leb k j && is_stale now after (record_at slots (j - k)))
unfolding stale_from member
member-stale_from now after k j [] h = ground arith
member-stale_from now after k j (s ∷ slots) h =
    let rest = member-stale_from now after (k + 1) j slots (omega arith) in
    elim (Nat_cases j k) [
      | inl below ↦ ground (arith, rest)
      | inr (inl e) ↦
          let at : j - k ≡ 0 = omega arith in
          let first : record_at (s ∷ slots) (j - k) ≡ s = ap (record_at (s ∷ slots)) at in
          rw first (ground (arith, rest))
      | inr (inr above) ↦
          let at : j - k ≡ suc (j - (k + 1)) = omega arith in
          let later : record_at (s ∷ slots) (j - k) ≡ record_at slots (j - (k + 1)) =
            ap (record_at (s ∷ slots)) at in
          rw later (ground (arith, rest))
    ]

stale_ids :
    (now after i : ℕ) (e : Edges)
    → IsConsistent e
    → member i (stale_edges now after e) ≡ is_stale now after (record_at e.slots i)
unfolding stale_edges
stale_ids now after i e c =
    member-stale_from now after 0 i e.slots (omega (arith, c.few)) ∙ ground arith

-- What `expire` does behind its scan, at the time `t`: a detach of each edge, and calls of other
-- tasks in between.
pub data Expiring (t : ℕ) : List EdgeId → Edges → Edges → Type 0 where
  done : {e : Edges} → Expiring t [] e e
  detaching :
      (id : EdgeId) {ids : List EdgeId} {e g : Edges}
      → Expiring t ids (detach id e) g
      → Expiring t (id ∷ ids) e g
  meanwhile :
      {ids : List EdgeId} {e f g : Edges} → Other t e f → Expiring t ids f g → Expiring t ids e g

Expiring-IsConsistent :
    {t : ℕ} {ids : List EdgeId} {e g : Edges} → Expiring t ids e g → IsConsistent e → IsConsistent g
Expiring-IsConsistent done c = c
Expiring-IsConsistent (detaching id {ids} {e} x) c =
    Expiring-IsConsistent x (detach-IsConsistent id e c)
Expiring-IsConsistent (meanwhile o x) c =
    Expiring-IsConsistent x (Step-IsConsistent (Other-Step o) c)

-- The slot has still the edge of a record.
abbrev Stays : EdgeRecord → Option EdgeRecord → Type 0
Stays r o = (q : EdgeRecord) × (o ≡ some q) × (q.name ≡ r.name) × (q.since ≡ r.since)

Slotted-Stays :
    (t : ℕ) (r : EdgeRecord) (o n : Option EdgeRecord) → Slotted t o n → Stays r o → Stays r n
Slotted-Stays t r o n (as_was e) (q, f, name, since) = (q, e ∙ f, name, since)
Slotted-Stays t r o n (same_edge p p' e f name' since') (q, g, name, since) =
    let same : p ≡ q = some_inj (sym e ∙ g) in
    (
      p',
      f,
      name' ∙ ap (λ (x : EdgeRecord). x.name) same ∙ name,
      since' ∙ ap (λ (x : EdgeRecord). x.since) same ∙ since,
    )
Slotted-Stays t r o n (came p e f late) (q, g, name, since) = absurd (none-some q (sym e ∙ g))

-- An edge that is not to be detached stays.
not_listed :
    {t : ℕ} {ids : List EdgeId} {e g : Edges}
    → Expiring t ids e g
    → (i : EdgeId) (r : EdgeRecord) → member i ids ≡ false
    → Stays r (record_at e.slots i)
    → Stays r (record_at g.slots i)
unfolding member
not_listed done i r m h = h
not_listed (detaching id {ids} {e} x) i r m h =
    let apart : (id == i) ≡ false = ground arith in
    not_listed x i r (ground arith) (rw (record-detach id i e, apart) h)
not_listed {t} (meanwhile {ids} {e} {f} o x) i r m h =
    not_listed x i r m
      (Slotted-Stays t r (record_at e.slots i) (record_at f.slots i) (Other-Slotted o i) h)

-- Whatever edge is in the slot came at the time `t` or later.
abbrev Fresh : ℕ → Option EdgeRecord → Type 0
Fresh t o = (q : EdgeRecord) → o ≡ some q → t ≤ q.since

Slotted-Fresh : (t : ℕ) (o n : Option EdgeRecord) → Slotted t o n → Fresh t o → Fresh t n
Slotted-Fresh t o n (as_was e) h q f = h q (sym e ∙ f)
Slotted-Fresh t o n (same_edge p p' e f name since) h q g =
    let same : p' ≡ q = some_inj (sym f ∙ g) in
    omega (arith, h p e, since, ap (λ (x : EdgeRecord). x.since) same)
Slotted-Fresh t o n (came p e f late) h q g =
    omega (arith, late, ap (λ (x : EdgeRecord). x.since) (some_inj (sym f ∙ g)))

-- An edge that is to be detached goes.
listed :
    {t : ℕ} {ids : List EdgeId} {e g : Edges}
    → Expiring t ids e g
    → (i : EdgeId) → (member i ids ≡ true) ⊎ Fresh t (record_at e.slots i)
    → Fresh t (record_at g.slots i)
unfolding member
listed done i (inl m) = cc
listed done i (inr h) = h
listed {t} (detaching id {ids} {e} x) i h = listed x i (elim (Bool-cases (id == i)) [
  | inl k ↦ inr (λ q f. absurd (none-some q (sym (record-detach id i e ∙ rw k refl) ∙ f)))
  | inr k ↦ elim h [
    | inl m ↦ inl (ground arith)
    | inr fresh ↦ inr (rw (record-detach id i e, k) fresh)
  ]
])
listed {t} (meanwhile {ids} {e} {f} o x) i h = listed x i (elim h [
  | inl m ↦ inl m
  | inr fresh ↦
      inr (Slotted-Fresh t (record_at e.slots i) (record_at f.slots i) (Other-Slotted o i) fresh)
])

-- On consistent edges, when expire has scanned the slots and detached one after another the edges
-- that it found, with calls of other tasks in between, the slot of every edge that was silent for
-- longer than allowed at the scan is free or has an edge that came since; every other edge that
-- was attached at the scan is attached still; and the edges are consistent.
pub expire_lem :
    (now after : ℕ) (i : EdgeId) (r : EdgeRecord) (e g : Edges)
    → IsConsistent e
    → record_at e.slots i ≡ some r
    → Expiring now (stale_edges now after e) e g
    → (after < now - r.heard → (q : EdgeRecord) → record_at g.slots i ≡ some q → now ≤ q.since)
      × (now - r.heard ≤ after
          → (q : EdgeRecord) × (record_at g.slots i ≡ some q)
            × (q.name ≡ r.name)
            × (q.since ≡ r.since))
      × IsConsistent g
expire_lem now after i r e g c q x =
    let told : member i (stale_edges now after e) ≡ ltb after (now - r.heard) =
      stale_ids now after i e c ∙ ap (is_stale now after) q in
    (
      λ long. listed x i (inl (told ∙ ground arith)),
      λ short. not_listed x i r (told ∙ ground arith) (r, q, refl, refl),
      Expiring-IsConsistent x c,
    )

-- On consistent edges, a detach orphans exactly the entities that were found to be the edge's, in
-- the order of their set, and they and no others are no longer found.
pub detach_lem :
    (id : EdgeId) (y : EntityId) (r : EdgeRecord) (e : Edges)
    → IsConsistent e
    → record_at e.slots id ≡ some r
    → ((detach id e).detached ≡ e.detached ++ r.entities)
      × ((member y r.entities ≡ true) ↔ (edge_for y e ≡ some id))
      × (edge_for y (detach id e) ≡ (if member y r.entities then none else edge_for y e))
unfolding detach
detach_lem id y r e c q =
    let low : id < unowned = omega (arith, c.few, record_at-lt e.slots id r q) in
    let told : member y r.entities ≡ (owner e y == id) =
      ap (λ o. member y (entities_of o)) (sym q) ∙ c.agree id y low in
    let before = edge_for-owner y e in
    let behind = edge_for-owner y (detach id e) in
    (
      rw (q, detach) refl,
      ground (arith, told, before),
      ground (arith, told, before, behind, owner-detach id y e c),
    )

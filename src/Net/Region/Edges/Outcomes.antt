-- ===== src/Net/Region/Edges/Outcomes.antt =====
-- net/region/edges.rs: what the operations say, and what a lookup finds behind them.
use mathlib.Core.Option
use umwelt_rs.Base.{
  ℕ, zero, suc, ◌<◌, ◌≡◌, refl, sym, ap, ◌∙◌, arith, ◌==◌, if◌then◌else◌, Option, none, some, List,
  [], ◌∷◌, get_elem?, get_or, inl, inr, ◌⊎◌, ◌≢◌, Bool-cases,
}
use umwelt_rs.Base.Arrays.{get_or-set, get_or-filled, get_or-lt}
use umwelt_rs.Base.Result.{Result, ok, err}
use umwelt_rs.Entity.{EntityId}
use umwelt_rs.Net.Region.Edges.{
  Edges, EdgeRecord, EdgeId, unowned, claim, release, edge_for, ClaimError, name_of, no_such_edge,
  already_claimed,
}
use umwelt_rs.Net.Region.Edges.Owners.{
  owner, IsConsistent, record_at-lt, claim_cases, detached_edge, kept, refused, taken, owner_taken,
  release_cases, absent, unclaimed, given,
}

pub edge_for-owner :
    (x : EntityId) (e : Edges)
    → edge_for x e ≡ (if owner e x == unowned then none else some (owner e x))
unfolding edge_for
edge_for-owner x e = look e.owners x
  where
    look :
        (owners : List ℕ) (i : ℕ)
        → ◌≡◌ {A = Option EdgeId}
            (elim (get_elem? owners i) [
              | none ↦ none
              | some held_by ↦ if held_by == unowned then none else some held_by
            ])
            (if get_or owners i unowned == unowned then none else some (get_or owners i unowned))
    look [] i = ground arith
    look (o ∷ owners) zero = refl
    look (o ∷ owners) (suc i) = look owners i

-- What a claim may say, and what it does to the lookups.
pub data Claims (edge : EdgeId) (x : EntityId) (e : Edges) (said : Result ClaimError Unit)
    (f : Edges) : Type 0 where
  no_edge : name_of edge e ≡ none → said ≡ err (no_such_edge edge) → f ≡ e → Claims edge x e said f
  others :
      (other : EdgeId)
      → edge_for x e ≡ some other
      → other ≢ edge
      → said ≡ err (already_claimed x other)
      → ((y : EntityId) → edge_for y f ≡ edge_for y e)
      → Claims edge x e said f
  mine :
      (edge_for x e ≡ none) ⊎ (edge_for x e ≡ some edge)
      → said ≡ ok tt
      → ((y : EntityId) → edge_for y f ≡ (if x == y then some edge else edge_for y e))
      → Claims edge x e said f

pub found_none : (x : EntityId) (e : Edges) → owner e x ≡ unowned → edge_for x e ≡ none
found_none x e h = edge_for-owner x e ∙ ground arith

pub found_some :
    (x edge : EntityId) (e : Edges) → owner e x ≡ edge → edge < unowned → edge_for x e ≡ some edge
found_some x edge e h k = edge_for-owner x e ∙ ground arith

-- One entry of the table has changed.
found_changed :
    (x y edge : EntityId) (e f : Edges)
    → owner f y ≡ (if x == y then edge else owner e y)
    → edge < unowned
    → edge_for y f ≡ (if x == y then some edge else edge_for y e)
found_changed x y edge e f h k = ground (arith, edge_for-owner y e, edge_for-owner y f)

-- Equal owners are found alike.
found_alike : (x : EntityId) (e f : Edges) → owner f x ≡ owner e x → edge_for x f ≡ edge_for x e
found_alike x e f h = edge_for-owner x f ∙ rw h (sym (edge_for-owner x e))

kept_owner :
    (x y edge : ℕ) (e : Edges) → owner e x ≡ edge → owner e y ≡ (if x == y then edge else owner e y)
kept_owner x y edge e o = elim (Bool-cases (x == y)) [
  | inl k ↦ rw k (ap (owner e) (ground arith) ∙ o)
  | inr k ↦ rw k
]

-- On consistent edges, a claim is refused where the edge is not attached or another edge has the
-- entity, and changes no lookup then; otherwise the entity, and no other, is found to be the
-- edge's.
pub claim-Claims :
    (edge : EdgeId) (x : EntityId) (e : Edges)
    → IsConsistent e
    → Claims edge x e (claim edge x e).0 (claim edge x e).1
unfolding name_of
claim-Claims edge x e c = elim (claim_cases edge x e) [
  | detached_edge q p ↦ rw p (no_edge (ap (Option.map (λ (r : EdgeRecord). r.name)) q) refl refl)
  | kept r q o p ↦
      let low : edge < unowned = omega (arith, record_at-lt e.slots edge r q, c.few) in
      rw p (
        mine (inr (found_some x edge e o low)) refl (λ y.
          found_changed x y edge e _ (get_or-filled e.owners _ y unowned ∙ kept_owner x y edge e o)
            low))
  | refused r q o u p ↦ rw p (
      others (owner e x) (edge_for-owner x e ∙ ground arith) o refl
        (λ y. found_alike y e _ (get_or-filled e.owners _ y unowned)))
  | taken r q o p ↦
      let low : edge < unowned = omega (arith, record_at-lt e.slots edge r q, c.few) in
      rw p (
        mine (inl (found_none x e o)) refl
          (λ y. found_changed x y edge e _ (owner_taken x y edge e) low))
]

-- One entry of the table is cleared.
found_cleared :
    (x y : EntityId) (e f : Edges)
    → owner f y ≡ (if x == y then unowned else owner e y)
    → edge_for y f ≡ (if x == y then none else edge_for y e)
found_cleared x y e f h = ground (arith, edge_for-owner y e, edge_for-owner y f)

-- A release hands back the edge that a lookup finds, and then the lookup of the entity finds none;
-- no other lookup changes.
pub release_lem :
    (x y : EntityId) (e : Edges)
    → ((release x e).0 ≡ edge_for x e)
      × (edge_for y (release x e).1 ≡ (if x == y then none else edge_for y e))
release_lem x y e = elim (release_cases x e) [
  | absent h p ↦
      let o : owner e x ≡ unowned = get_or-lt e.owners x unowned h in
      rw p (sym (found_none x e o), found_cleared x y e e (kept_owner x y unowned e o))
  | unclaimed h o p ↦
      rw p
        (sym (found_none x e o), found_cleared x y e _ (get_or-set e.owners x y unowned unowned h))
  | given h n p ↦ rw p (
    sym (edge_for-owner x e ∙ ground arith),
    found_cleared x y e _ (get_or-set e.owners x y unowned unowned h),
  )
]

-- ===== src/Select/Ties.antt =====
-- select.rs: the order of the ranking, told without the top bit of `at`.
use umwelt_rs.Base.{
  ℕ, ◌^◌, ◌≤◌, ◌≡◌, arith, Bool, true, false, leb, ltb, ◌==◌, ◌&&◌, ◌||◌, not, Option, none, some,
  List, [], ◌∷◌, length, All, Option-cases, inl, inr,
}
use umwelt_rs.Base.Sort.{IsSorted}
use umwelt_rs.Gather.{DiscoveredEntity}
use umwelt_rs.Ghost.{Ghost, GhostTable}
use umwelt_rs.Ghost.Table.{ghost_of}
use umwelt_rs.Odometer.{Odometer}
use umwelt_rs.Select.{Ranked, Policy, index, before}
use umwelt_rs.Select.Commit.{entity_of}
use umwelt_rs.Select.Ranking.{IsScored}

abbrev pub is_held : Option Ghost → Bool
is_held none = false
is_held (some g) = true

-- At equal scores, a candidate that the client holds goes before one that it does not, and of two
-- alike the one of the lower index.
abbrev pub wins_tie : Bool → Bool → ℕ → ℕ → Bool
wins_tie true held j k = not held || leb j k
wins_tie false held j k = not held && leb j k

module _ (tick : ℕ) (cands : List DiscoveredEntity) (o : Odometer) (policy : Policy)
    (t : GhostTable) where
  -- The higher score first.
  abbrev pub precedes : Ranked → Ranked → Bool
  precedes a b =
      ltb b.score a.score
      || ((a.score == b.score)
          && wins_tie (is_held (ghost_of (entity_of cands a).id t.slots))
              (is_held (ghost_of (entity_of cands b).id t.slots)) (index a) (index b))

  before-precedes :
      (a b : Ranked)
      → length cands ≤ 2 ^ 31
      → IsScored tick cands o policy t a
      → IsScored tick cands o policy t b
      → before a b ≡ true
      → precedes a b ≡ true
  unfolding before
  before-precedes a b few p q h =
      let low = p.inside in
      let low' = q.inside in
      elim (Option-cases (ghost_of (entity_of cands a).id t.slots)) [
        | inl u ↦ elim (Option-cases (ghost_of (entity_of cands b).id t.slots)) [
          | inl v ↦ rw (u, v) (ground (arith, rw u at p.place, rw v at q.place, h))
          | inr (g, v) ↦
              rw (u, v) (ground (arith, rw u at p.place, rw v at q.place, h, low, low', few))
        ]
        | inr (g, u) ↦ elim (Option-cases (ghost_of (entity_of cands b).id t.slots)) [
          | inl v ↦ rw (u, v) (ground (arith, rw u at p.place, rw v at q.place, h))
          | inr (f, v) ↦ rw (u, v) (ground (arith, rw u at p.place, rw v at q.place, h))
        ]
      ]

  below :
      (a : Ranked) (rs : List Ranked)
      → length cands ≤ 2 ^ 31
      → IsScored tick cands o policy t a
      → All (IsScored tick cands o policy t) rs
      → All (λ b. before a b ≡ true) rs
      → All (λ b. precedes a b ≡ true) rs
  below a [] few p q h = record {}
  below a (b ∷ rs) few p (q, qs) (h, hs) = (before-precedes a b few p q h, below a rs few p qs hs)

  pub before-IsSorted :
      (rs : List Ranked)
      → length cands ≤ 2 ^ 31
      → All (IsScored tick cands o policy t) rs
      → IsSorted before rs
      → IsSorted precedes rs
  before-IsSorted [] few q h = h
  before-IsSorted (r ∷ rs) few (p, q) (b, h) = (below r rs few p q b, before-IsSorted rs few q h)

-- ===== src/Select/Selected.antt =====
-- select.rs: a whole selection.
use mathlib.Core.Option
use umwelt_rs.Base.{
  ℕ, zero, suc, ◌+◌, ◌^◌, ◌≤◌, ◌<◌, ◌≡◌, ◌≢◌, refl, sym, ap, ◌∙◌, arith, min, Bool, true, ltb, ◌==◌,
  ==_iff, ◌&&◌, if◌then◌else◌, Option, some, List, [], ◌∷◌, length, take, drop, All,
}
use umwelt_rs.Base.Sets.{member}
use umwelt_rs.Base.Sort.{
  sort_by, count_of, IsSorted, sort_by-IsSorted, count_of-sort_by, length-sort_by, All-sort_by,
  All-map,
}
use umwelt_rs.Gather.{DiscoveredEntities}
use umwelt_rs.Ghost.{Ghost, GhostTable, empty, evict, evict_from}
use umwelt_rs.Ghost.Table.{ghost_of}
use umwelt_rs.Ghost.Seen.{stamped}
use umwelt_rs.Ghost.Room.{IsGhostTable, unused, used}
use umwelt_rs.Ghost.Eviction.{survivor, departs, evict_lem}
use umwelt_rs.Odometer.{Odometer, slots}
use umwelt_rs.Select.{Policy, Selection, index, before, leading, records, chosen, commit, select}
use umwelt_rs.Select.Nearest.{rank, nearest-IsNearest}
use umwelt_rs.Select.Commit.{ids_of, IsKnown, told, sighted, send_all_lem, see_all_lem}
use umwelt_rs.Select.Ranking.{entity_at, IsScored, rank_all_lem, before-IsOrder}
use umwelt_rs.Select.Ties.{precedes, before-IsSorted}
use umwelt_rs.Select.Prefix.{leading-take, leading-positive, leading-zero}

member_all : (xs : List ℕ) (n : ℕ) → ((j : ℕ) → member j xs ≡ true → j < n) → All (λ k. k < n) xs
unfolding member
member_all [] n h = record {}
member_all (x ∷ xs) n h =
    let here : (x == x) ≡ true = (==_iff x x).1 refl in
    (h x (rw here refl), member_all xs n (λ j m. h j (rw m (ground arith))))

module _ {ℓ κ} {A : Type ℓ} (P : A → Type κ) where
  All-take : (n : ℕ) (xs : List A) → All P xs → All P (take n xs)
  All-take zero xs h = record {}
  All-take (suc n) [] h = record {}
  All-take (suc n) (x ∷ xs) (p, h) = (p, All-take n xs h)

  All-drop : (n : ℕ) (xs : List A) → All P xs → All P (drop n xs)
  All-drop zero xs h = h
  All-drop (suc n) [] h = record {}
  All-drop (suc n) (x ∷ xs) (p, h) = All-drop n xs h

length-take_len {ℓ} : {A : Type ℓ} (n : ℕ) (xs : List A) → length (take n xs) ≤ length xs
length-take_len zero xs = omega arith
length-take_len (suc n) [] = omega arith
length-take_len (suc n) (x ∷ xs) = omega (arith, length-take_len n xs)

-- The eviction of a table in order or not used yet.
evict_any :
    (tick grace : ℕ) (t : GhostTable)
    → IsGhostTable t
    → (u : GhostTable) × (out : List ℕ) × (evict tick grace t [] ≡ some (u, out))
      × IsGhostTable u
      × ((x : ℕ)
          → x ≢ empty
          → (ghost_of x u.slots ≡ survivor tick grace (ghost_of x t.slots))
            × (member x out ≡ departs tick grace (ghost_of x t.slots)))
unfolding evict evict_from ghost_of member
evict_any tick grace t (unused e z) =
    (t, [], rw (e, evict, evict_from) refl, unused e z, λ x r. rw (e, ghost_of) (refl, refl))
evict_any tick grace t (used h) =
    let (u, out, ends, table, size, total, ghosts) = evict_lem tick grace t [] h in
    (u, out, ends, used table, ghosts)

inside_of : (n k : ℕ) (b : Bool) → (ltb k n && b) ≡ true → k < n
inside_of n k b e = grind arith

-- What a selection is: the ghost set, scored and in order, and the prefix of it that is sent.
pub record Chosen (tick : ℕ) (c : DiscoveredEntities) (o : Odometer) (policy : Policy) (slots : ℕ)
    (t : GhostTable) (s : Selection) : Type 0 where
  pub ghost_set :
      (k : ℕ) → member k s.keep ≡ (ltb k (length c.items) && ltb (rank c.dists k) policy.ghost_cap)
  pub ranked_set : (k : ℕ) → count_of (λ r. index r == k) s.ranked ≡ count_of (λ j. j == k) s.keep
  pub size : length s.ranked ≡ min policy.ghost_cap (length c.items)
  pub scored : All (IsScored tick c.items o policy t) s.ranked
  pub sorted : IsSorted (precedes tick c.items o policy t) s.ranked
  pub fits : s.sent ≤ slots
  pub positive : All (λ r. 0 < r.score) (records s)
  pub rest : s.sent < min (length s.ranked) slots → All (λ r. r.score ≡ 0) (drop s.sent s.ranked)

module _ (tick : ℕ) (c : DiscoveredEntities) (o : Odometer) (policy : Policy) (room : ℕ)
    (t : GhostTable) where
  -- The map of ghosts, once the records are sent and the others of the ghost set seen.
  abbrev pub marked : Selection → ℕ → Option Ghost
  marked s =
      sighted tick c.items o (drop s.sent s.ranked)
        (told tick c.items o (records s) (λ x. ghost_of x t.slots))

  module _ (parallel : length c.dists ≡ length c.items) (few : length c.items ≤ 2 ^ 31)
      (cap : 0 < policy.ghost_cap) (h : IsGhostTable t)
      (known : (k : ℕ)
        → k < length c.items
        → ((entity_at tick c.items o policy t k).id ≢ empty)
          × ((entity_at tick c.items o policy t k).id < slots o)) where
    chosen-Chosen :
        (s : Selection) × (chosen tick c o policy room t ≡ some s)
        × (s.departed ≡ [])
        × Chosen tick c o policy room t s
    unfolding chosen records
    chosen-Chosen =
        let near = nearest-IsNearest c.dists policy.ghost_cap cap in
        let below : (k : ℕ)
            → member k near.keep
              ≡ (ltb k (length c.items) && ltb (rank c.dists k) policy.ghost_cap) =
          λ k.
            near.ranks k
            ∙ ap (λ (n : ℕ). ltb k n && ltb (rank c.dists k) policy.ghost_cap) parallel in
        let inside = member_all near.keep (length c.items) (λ k m.
          inside_of (length c.items) k (ltb (rank c.dists k) policy.ghost_cap)
            (sym (below k) ∙ m)) in
        let (rs, e, scored, n, counts) =
          rank_all_lem tick c.items o policy t few h known near.keep inside in
        let ranked = sort_by before rs in
        let sorted = sort_by-IsSorted before before-IsOrder rs in
        let all = All-sort_by before (IsScored tick c.items o policy t) rs scored in
        (
          record {
            ranked = ranked;
            departed = [];
            keep = near.keep;
            sent = leading (take (min (length ranked) room) ranked);
          },
          rw (near.ends, e, chosen) refl,
          refl,
          record {
            ghost_set = below;
            ranked_set = λ k. count_of-sort_by before (λ r. index r == k) rs ∙ counts k;
            size = omega (arith, length-sort_by before rs, n, near.size, parallel);
            scored = all;
            sorted = before-IsSorted tick c.items o policy t ranked few all sorted;
            fits = omega (arith, leading-take (min (length ranked) room) ranked);
            positive = leading-positive (min (length ranked) room) ranked;
            rest = λ l. leading-zero (min (length ranked) room) ranked sorted l;
          },
        )

    commit_lem :
        (s : Selection)
        → s.departed ≡ []
        → Chosen tick c o policy room t s
        → t.len + length c.items ≤ 2 ^ 30
        → (u : GhostTable) × (out : List ℕ) × (commit tick c o policy s t
            ≡ some (u, record s { departed = out }))
          × IsGhostTable u
          × ((x : ℕ)
              → x ≢ empty
              → (ghost_of x u.slots ≡ survivor tick policy.grace (marked s x))
                × (member x out ≡ departs tick policy.grace (marked s x)))
    unfolding commit records
    commit_lem s e k space =
        let all =
          All-map (IsScored tick c.items o policy t) (IsKnown c.items o) s.ranked
            (λ r q. record {
              inside = q.inside;
              real = (known (index r) q.inside).0;
              covered = (known (index r) q.inside).1;
            })
            k.scored in
        let (a, send, a_table, a_at) =
          send_all_lem tick c.items o (take s.sent s.ranked) t
            (All-take (IsKnown c.items o) s.sent s.ranked all) h
            (omega (arith, space, k.size, length-take_len s.sent s.ranked)) in
        let (b, see, b_table, b_at) =
          see_all_lem tick c.items o (drop s.sent s.ranked) a
            (All-drop (IsKnown c.items o) s.sent s.ranked all) a_table in
        let (u, out, ends, table, at) = evict_any tick policy.grace b b_table in
        let after : (x : ℕ) → x ≢ empty → ghost_of x b.slots ≡ marked s x = λ x real.
          b_at x real
          ∙ ap
              (λ (g : Option Ghost).
                if member x (ids_of c.items (drop s.sent s.ranked))
                then Option.map (stamped tick) g
                else g)
              (a_at x real) in
        (
          u,
          out,
          rw (send, see, e, ends, commit) refl,
          table,
          λ x real. (
            (at x real).0 ∙ ap (survivor tick policy.grace) (after x real),
            (at x real).1 ∙ ap (departs tick policy.grace) (after x real),
          ),
        )

    -- For candidates of known entities, a positive cap and a table of ghosts in order or not used
    -- yet, with room for them, a selection ends: it keeps the candidates of rank below the cap,
    -- each scored by how far its ghost has drifted, in order of the scores, and at equal scores
    -- those that the client holds before those that it does not, and of two alike the one of the
    -- lower index; the records are the prefix that scored, within the slots; and the map of ghosts
    -- has then the records as sent, the others of the ghost set as seen, and no ghost past the
    -- grace, those and no others being departed.
    pub select_lem :
        t.len + length c.items ≤ 2 ^ 30
        → (u : GhostTable) × (s : Selection) × (select tick c o policy room t ≡ some (u, s))
          × Chosen tick c o policy room t s
          × IsGhostTable u
          × ((x : ℕ)
              → x ≢ empty
              → (ghost_of x u.slots ≡ survivor tick policy.grace (marked s x))
                × (member x s.departed ≡ departs tick policy.grace (marked s x)))
    unfolding select records
    select_lem space =
        let (s, e, none_yet, k) = chosen-Chosen in
        let (u, out, f, table, at) = commit_lem s none_yet k space in
        (
          u,
          record s { departed = out },
          rw (e, select) f,
          record {
            ghost_set = k.ghost_set;
            ranked_set = k.ranked_set;
            size = k.size;
            scored = k.scored;
            sorted = k.sorted;
            fits = k.fits;
            positive = k.positive;
            rest = k.rest;
          },
          table,
          λ x real. at x real,
        )

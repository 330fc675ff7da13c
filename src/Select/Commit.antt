-- ===== src/Select/Commit.antt =====
-- select.rs: what the writes of a selection make of the ghosts.
use mathlib.Core.Option
use umwelt_rs.Base.{
  ℕ, ◌+◌, ◌^◌, ◌≤◌, ◌<◌, ◌≡◌, ◌≢◌, refl, ap, ◌∙◌, arith, Bool, true, false, ◌==◌, ==_iff, ◌||◌,
  if◌then◌else◌, Option, none, some, List, [], ◌∷◌, length, get_or, All, Bool-cases, inl, inr,
}
use umwelt_rs.Base.Arrays.{get_elem?-get_or}
use umwelt_rs.Base.Sets.{member}
use umwelt_rs.Gather.{DiscoveredEntity}
use umwelt_rs.Ghost.{Ghost, GhostTable, empty}
use umwelt_rs.Ghost.Table.{ghost_of}
use umwelt_rs.Ghost.Room.{IsGhostTable, used}
use umwelt_rs.Ghost.Sent.{ghost_sent, sent_lem}
use umwelt_rs.Ghost.Seen.{stamped, seen_lem}
use umwelt_rs.Odometer.{Odometer, slots, reading}
use umwelt_rs.Select.{Ranked, index, send_all, see_all}

abbrev pub nobody : DiscoveredEntity
nobody = record { id = empty; snapshot_index = 0; dist_sq = 0 }

abbrev pub entity_of : List DiscoveredEntity → Ranked → DiscoveredEntity
entity_of cands r = get_or cands (index r) nobody

unfoldable pub ids_of : List DiscoveredEntity → List Ranked → List ℕ
ids_of cands [] = []
ids_of cands (r ∷ rs) = (entity_of cands r).id ∷ ids_of cands rs

abbrev pub read_at : Odometer → ℕ → ℕ
read_at o i = get_or o.total i 0

-- An index of the candidates, of an entity that the odometer covers.
pub record IsKnown (cands : List DiscoveredEntity) (o : Odometer) (r : Ranked) : Type 0 where
  pub inside : index r < length cands
  pub real : (entity_of cands r).id ≢ empty
  pub covered : (entity_of cands r).id < slots o

module _ (tick : ℕ) (cands : List DiscoveredEntity) (o : Odometer) where
  abbrev pub told : List Ranked → (ℕ → Option Ghost) → ℕ → Option Ghost
  told rs held x =
      if member x (ids_of cands rs) then some (ghost_sent x (read_at o x) tick) else held x

  abbrev pub sighted : List Ranked → (ℕ → Option Ghost) → ℕ → Option Ghost
  sighted rs held x =
      if member x (ids_of cands rs) then Option.map (stamped tick) (held x) else held x

  send_again :
      (x y : ℕ) (m : Bool) (g : Option Ghost)
      → (if m
          then some (ghost_sent x (read_at o x) tick)
          else (if y == x then some (ghost_sent y (read_at o y) tick) else g))
        ≡ (if (y == x) || m then some (ghost_sent x (read_at o x) tick) else g)
  send_again x y m g = elim (Bool-cases (y == x)) [
    | inl t ↦ let same : y ≡ x = (==_iff y x).0 t in rw (t, same) (ground arith)
    | inr t ↦ rw t refl
  ]

  see_again :
      (m : Bool) (b : Bool) (g : Option Ghost)
      → (if m
          then Option.map (stamped tick) (if b then Option.map (stamped tick) g else g)
          else (if b then Option.map (stamped tick) g else g))
        ≡ (if b || m then Option.map (stamped tick) g else g)
  see_again true true none = refl
  see_again true true (some g) = refl
  see_again true false g = refl
  see_again false true g = refl
  see_again false false g = refl

  pub send_all_lem :
      (rs : List Ranked) (t : GhostTable)
      → All (IsKnown cands o) rs
      → IsGhostTable t
      → t.len + length rs ≤ 2 ^ 30
      → (u : GhostTable) × (send_all tick cands o rs t ≡ some u)
        × IsGhostTable u
        × ((x : ℕ) → x ≢ empty → ghost_of x u.slots ≡ told rs (λ y. ghost_of y t.slots) x)
  unfolding send_all ids_of member reading slots
  send_all_lem [] t k h room = (t, refl, h, λ x r. refl)
  send_all_lem (r ∷ rs) t (k, ks) h room =
      let e = entity_of cands r in
      let at_r = get_elem?-get_or cands (index r) nobody k.inside in
      let read = get_elem?-get_or o.total e.id 0 k.covered in
      let (u, ends, table, len, ghosts) =
        sent_lem e.id (read_at o e.id) tick t h (omega (arith, room)) k.real in
      let (v, more, table', ghosts') =
        send_all_lem rs u ks (used table) (omega (arith, len, room)) in
      (
        v,
        rw (at_r, read, ends, send_all) more,
        table',
        λ x real.
            ghosts' x real
            ∙ ap
                (λ (g : Option Ghost).
                  if member x (ids_of cands rs) then some (ghost_sent x (read_at o x) tick) else g)
                (ghosts x real)
            ∙ send_again x e.id (member x (ids_of cands rs)) (ghost_of x t.slots),
      )

  pub see_all_lem :
      (rs : List Ranked) (t : GhostTable)
      → All (IsKnown cands o) rs
      → IsGhostTable t
      → (u : GhostTable) × (see_all tick cands rs t ≡ some u)
        × IsGhostTable u
        × ((x : ℕ) → x ≢ empty → ghost_of x u.slots ≡ sighted rs (λ y. ghost_of y t.slots) x)
  unfolding see_all ids_of member
  see_all_lem [] t k h = (t, refl, h, λ x r. refl)
  see_all_lem (r ∷ rs) t (k, ks) h =
      let e = entity_of cands r in
      let at_r = get_elem?-get_or cands (index r) nobody k.inside in
      let (u, ends, s) = seen_lem e.id tick t h k.real in
      let (v, more, table', ghosts') = see_all_lem rs u ks s.table in
      (
        v,
        rw (at_r, ends, see_all) more,
        table',
        λ x real.
            ghosts' x real
            ∙ ap
                (λ (g : Option Ghost).
                  if member x (ids_of cands rs) then Option.map (stamped tick) g else g)
                (s.ghosts x real)
            ∙ see_again (member x (ids_of cands rs)) (e.id == x) (ghost_of x t.slots),
      )

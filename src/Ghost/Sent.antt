-- ===== src/Ghost/Sent.antt =====
-- ghost.rs: what is sent becomes a ghost.
use mathlib.Core.Path.{subst}
use umwelt_rs.Base.{
  ℕ, ◌+◌, ◌^◌, ◌≤◌, ◌<◌, ◌≡◌, refl, sym, ap, ◌∙◌, arith, false, ◌==◌, if◌then◌else◌, some, List,
  length, ◌≢◌, inr,
}
use umwelt_rs.Base.Arrays.{set, length-set}
use umwelt_rs.Ghost.{Ghost, empty, home_in}
use umwelt_rs.Ghost.Ring.{dist}
use umwelt_rs.Ghost.Probe.{id_at}
use umwelt_rs.Ghost.{GhostTable}
use umwelt_rs.Ghost.Probe.{found, absent}
use umwelt_rs.Ghost.Removal.{home_of}
use umwelt_rs.Ghost.Probe.{Passed}
use umwelt_rs.Ghost.Table.{ghost_of, IsOrdered, located, home_in-home_of}
use umwelt_rs.Ghost.Insert.{put-IsOrdered, put_ghosts, occupied, occupied-set, vacancy}
use umwelt_rs.Ghost.{GhostTable, sent}
use umwelt_rs.Ghost.Grow.{put-Inserted}
use umwelt_rs.Ghost.Room.{IsTable, IsGhostTable, reserve_one-Reserved}

-- The ghost that a send makes.
abbrev pub ghost_sent : ℕ → ℕ → ℕ → Ghost
ghost_sent id mark tick = record { id = id; mark = mark; last_seen = tick; last_sent = tick }

-- What a write to one slot leaves.
pub record Written (g : Ghost) (slots s : List Ghost) (len : ℕ) : Type 0 where
  pub ordered : IsOrdered s
  pub size : length s ≡ length slots
  pub count : len ≡ occupied s
  pub ghosts : (x : ℕ) → x ≢ empty → ghost_of x s ≡ (if g.id == x then some g else ghost_of x slots)

pub renewed :
    (slots : List Ghost) (o : IsOrdered slots) (p : ℕ) (g : Ghost)
    → p < length slots
    → id_at slots p ≡ g.id
    → g.id ≢ empty
    → Written g slots (set slots p g) (occupied slots)
renewed slots o p g l at_p real =
    let full : id_at slots p ≢ empty = λ w. real (sym at_p ∙ w) in
    record {
      ordered = put-IsOrdered slots o p g l real (reached full) (only full);
      size = length-set slots p g;
      count = sym (occupied-set slots p g l real ∙ ground arith);
      ghosts = λ x r. put_ghosts slots o p g l real (reached full) (only full) x r (inr at_p);
    }
  where
    reached :
        id_at slots p ≢ empty
        → (q : ℕ) → q < 2 ^ o.bits
        → dist (2 ^ o.bits) (home_of (2 ^ o.bits) g.id) q
          < dist (2 ^ o.bits) (home_of (2 ^ o.bits) g.id) p
        → id_at slots q ≢ empty
    reached full q m d = o.chained.path p q (omega (arith, l, o.size)) m full (
        subst
          (λ (x : ℕ).
            dist (2 ^ o.bits) (home_of (2 ^ o.bits) x) q
            < dist (2 ^ o.bits) (home_of (2 ^ o.bits) x) p)
          (sym at_p) d)

    only : id_at slots p ≢ empty → (q : ℕ) → q < length slots → q ≢ p → id_at slots q ≢ g.id
    only full q m d w = d (
        sym (
          o.chained.uniq p q (omega (arith, l, o.size)) (omega (arith, m, o.size)) full
            (at_p ∙ sym w)))

added :
    (slots : List Ghost) (o : IsOrdered slots) (p id mark tick : ℕ)
    → p < length slots
    → id_at slots p ≡ empty
    → Passed (length slots) slots id (home_in slots id) p
    → ((q : ℕ) → q < length slots → id_at slots q ≢ id)
    → id ≢ empty
    → Written
        (ghost_sent id mark tick)
        slots
        (set slots p (ghost_sent id mark tick))
        (occupied slots + 1)
added slots o p id mark tick l v before only real =
    let n = 2 ^ o.bits in
    let same_home = home_in-home_of slots n id o.size in
    let i =
      put-Inserted slots o p (ghost_sent id mark tick) l real v
        (λ q m d.
          (before q (omega (arith, o.size)) (
            subst (λ k. dist k (home_in slots id) q < dist k (home_in slots id) p) (sym o.size)
              (subst (λ h. dist n h q < dist n h p) (sym same_home) d))).0)
        only in
    record {
      ordered = i.ordered;
      size = i.size;
      count = omega (arith, i.more);
      ghosts = λ x r. i.ghosts x r;
    }

-- To a table of fewer than 2^30 ghosts, in order or not used yet, a send ends, leaves a table in
-- order and at most half full, and makes the ghost of its entity the one that it sends, and
-- changes no other.
pub sent_lem :
    (id mark tick : ℕ) (t : GhostTable)
    → IsGhostTable t
    → t.len < 2 ^ 30
    → id ≢ empty
    → (u : GhostTable) × (sent id mark tick t ≡ some u)
      × IsTable u
      × (u.len ≤ t.len + 1)
      × ((x : ℕ)
          → x ≢ empty
          → ghost_of x u.slots
            ≡ (if id == x then some (ghost_sent id mark tick) else ghost_of x t.slots))
unfolding sent
sent_lem id mark tick t h few real =
    let (r, e, res) = reserve_one-Reserved t h few in
    let (v, v_in, v_at) = vacancy r.slots (omega (arith, res.room, res.count, res.len)) in
    let test : (id == empty) ≡ false = ground arith in
    elim (located r.slots res.ordered id v v_in v_at real) [
      | found p l at_p f ↦
          let w = renewed r.slots res.ordered p (ghost_sent id mark tick) l at_p real in
          (
            record { slots = set r.slots p (ghost_sent id mark tick); len = r.len },
            rw (test, e, f, sent)
                (λ i.
                  some (record {
                    slots = set r.slots p (ghost_sent (at_p i) mark tick);
                    len = r.len;
                  })),
            record {
              ordered = w.ordered;
              len = omega (arith, w.count, res.count);
              half = omega (arith, w.size, res.len, res.room);
            },
            omega (arith, res.len),
            λ x k.
                w.ghosts x k
                ∙ ap (λ o. if id == x then some (ghost_sent id mark tick) else o) (res.ghosts x k),
          )
      | absent p l at_p before only f ↦
          let w = added r.slots res.ordered p id mark tick l at_p before only real in
          (
            record { slots = set r.slots p (ghost_sent id mark tick); len = r.len + 1 },
            rw (test, e, f, sent) refl,
            record {
              ordered = w.ordered;
              len = omega (arith, w.count, res.count);
              half = omega (arith, w.size, res.len, res.room);
            },
            omega (arith, res.len),
            λ x k.
                w.ghosts x k
                ∙ ap (λ o. if id == x then some (ghost_sent id mark tick) else o) (res.ghosts x k),
          )
    ]

-- ===== src/Ghost/Seen.antt =====
-- ghost.rs: a ghost that is seen is stamped with the tick.
use mathlib.Core.Option
use umwelt_rs.Base.{
  ℕ, ◌<◌, ◌≡◌, ◌≢◌, refl, sym, ap, ◌∙◌, arith, false, ◌==◌, ==_iff, if◌then◌else◌, none, some,
  length, Bool-cases, inl, inr,
}
use umwelt_rs.Base.Arrays.{set}
use umwelt_rs.Base.Bits.{pow2_pos}
use umwelt_rs.Ghost.{Ghost, GhostTable, empty, slot_at, seen}
use umwelt_rs.Ghost.Probe.{found, absent}
use umwelt_rs.Ghost.Insert.{vacancy}
use umwelt_rs.Ghost.Table.{ghost_of, ghost_of-none, ghost_of-at, located}
use umwelt_rs.Ghost.Room.{IsGhostTable, unused, used}
use umwelt_rs.Ghost.Sent.{renewed}

abbrev pub stamped : ℕ → Ghost → Ghost
stamped tick g = record g { last_seen = tick }

-- What a sighting makes of a table.
pub record Seen (id tick : ℕ) (t u : GhostTable) : Type 0 where
  pub table : IsGhostTable u
  pub len : u.len ≡ t.len
  pub ghosts :
      (x : ℕ)
      → x ≢ empty
      → ghost_of x u.slots
        ≡ (if id == x then Option.map (stamped tick) (ghost_of x t.slots) else ghost_of x t.slots)

pub seen_lem :
    (id tick : ℕ) (t : GhostTable)
    → IsGhostTable t
    → id ≢ empty
    → (u : GhostTable) × (seen id tick t
        ≡ some (Option.map (λ (g : Ghost). g.mark) (ghost_of id t.slots), u))
      × Seen id tick t u
unfolding seen ghost_of
seen_lem id tick t (unused e z) real = (
  t,
  rw (e, seen, ghost_of) refl,
  record { table = unused e z; len = refl; ghosts = λ x r. rw (e, ghost_of) (ground arith) },
)
seen_lem id tick t (used h) real =
    let some_slot : 0 < length t.slots = omega (arith, h.ordered.size, pow2_pos h.ordered.bits) in
    let (e, e_in, v) = vacancy t.slots (omega (arith, h.len, h.half, some_slot)) in
    let full : (length t.slots == 0) ≡ false = ground arith in
    elim (located t.slots h.ordered id e e_in v real) [
      | found p a at_p f ↦
          let g = stamped tick (slot_at t.slots p) in
          let here = ghost_of-at t.slots h.ordered id p a at_p real in
          let w = renewed t.slots h.ordered p g a refl (λ z. real (sym at_p ∙ z)) in
          (
            record t { slots = set t.slots p g },
            rw (full, f, here, seen) refl,
            record {
              table = used (record {
                ordered = w.ordered;
                len = h.len ∙ w.count;
                half = omega (arith, w.size, h.half);
              });
              len = refl;
              ghosts = λ x r. w.ghosts x r ∙ at_one x p here at_p;
            },
          )
      | absent p a none_here before none_at f ↦
          let gone = ghost_of-none id t.slots none_at in
          (
            t,
            rw (full, f, gone, seen) refl,
            record { table = used h; len = refl; ghosts = λ x r. at_none x gone },
          )
    ]
  where
    at_one :
        (x p : ℕ)
        → ghost_of id t.slots ≡ some (slot_at t.slots p)
        → (slot_at t.slots p).id ≡ id
        → (if (slot_at t.slots p).id == x
            then some (stamped tick (slot_at t.slots p))
            else ghost_of x t.slots)
          ≡ (if id == x then Option.map (stamped tick) (ghost_of x t.slots) else ghost_of x t.slots)
    at_one x p here at_p = elim (Bool-cases (id == x)) [
      | inl q ↦
          let there : ghost_of x t.slots ≡ some (slot_at t.slots p) =
            ap (λ (y : ℕ). ghost_of y t.slots) (sym ((==_iff id x).0 q)) ∙ here in
          rw (ap (λ (n : ℕ). n == x) at_p, q, there) refl
      | inr q ↦ rw (ap (λ (n : ℕ). n == x) at_p, q) refl
    ]

    at_none :
        (x : ℕ)
        → ghost_of id t.slots ≡ none
        → ghost_of x t.slots
          ≡ (if id == x then Option.map (stamped tick) (ghost_of x t.slots) else ghost_of x t.slots)
    at_none x gone = elim (Bool-cases (id == x)) [
      | inl q ↦
          let there : ghost_of x t.slots ≡ none =
            ap (λ (y : ℕ). ghost_of y t.slots) (sym ((==_iff id x).0 q)) ∙ gone in
          rw (q, there) refl
      | inr q ↦ rw q refl
    ]

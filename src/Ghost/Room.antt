-- ===== src/Ghost/Room.antt =====
-- ghost.rs: a table grows ahead of what is sent.
use umwelt_rs.Base.{
  ℕ, zero, suc, ◌+◌, ◌^◌, ◌≤◌, ◌<◌, ◌≡◌, refl, sym, ap, ◌∙◌, arith, true, leb, Option, none, some,
  [], length, ◌≢◌, Bool-cases, inl, inr, ◌⊎◌,
}
use umwelt_rs.Ghost.{Ghost, vacant, empty, slot_at}
use umwelt_rs.Ghost.{GhostTable}
use umwelt_rs.Ghost.Table.{ghost_of, ghost_of-none, IsOrdered}
use umwelt_rs.Ghost.Insert.{occupied}
use umwelt_rs.Base.{max, ◌*◌, ltb}
use umwelt_rs.Base.Arrays.{replicate, get_or-replicate, length-replicate}
use umwelt_rs.Base.Bits.{pow2_suc, pow2_mono}
use umwelt_rs.Ghost.{GhostTable, min_slots, doubled, rehash, reserve_one}
use umwelt_rs.Ghost.Grow.{IsDistinct, first_of, reinsert_all-Laid}

-- A table in order, at most half full, that counts its ghosts.
pub record IsTable (t : GhostTable) : Type 0 where
  pub ordered : IsOrdered t.slots
  pub len : t.len ≡ occupied t.slots
  pub half : 2 * t.len ≤ length t.slots

-- What `new` makes, and what the operations make of it.
pub data IsGhostTable (t : GhostTable) : Type 0 where
  unused : t.slots ≡ [] → t.len ≡ 0 → IsGhostTable t
  used : IsTable t → IsGhostTable t

doubled_lem :
    (fuel b needed : ℕ)
    → needed ≤ 2 ^ 31
    → b ≤ 31
    → 31 < b + fuel
    → (c : ℕ) × (doubled fuel (2 ^ b) needed ≡ 2 ^ c) × (c ≤ 31) × (needed ≤ 2 ^ c)
unfolding doubled
doubled_lem zero b needed h l f = absurd (omega arith)
doubled_lem (suc fuel) b needed h l f = elim (Bool-cases (ltb (2 ^ b) needed)) [
  | inl t ↦
      let small : b < 31 = grind (arith, pow2_mono 31 b) in
      let (c, e, k, m) = doubled_lem fuel (suc b) needed h (omega arith) (omega arith) in
      (c, rw (t, double b) e, k, m)
  | inr t ↦ (b, rw t, l, ground arith)
]
  where
    double : (b : ℕ) → 2 ^ b * 2 ≡ 2 ^ suc b
    double b = omega (arith, pow2_suc b)

vacant_at : (n q : ℕ) → slot_at (replicate n vacant) q ≡ vacant
vacant_at n q = get_or-replicate n q vacant

vacant-IsOrdered : (c : ℕ) → c < 32 → IsOrdered (replicate (2 ^ c) vacant)
vacant-IsOrdered c h =
    let none_at = λ (q : ℕ). ap (λ (g : Ghost). g.id) (vacant_at (2 ^ c) q) in
    record {
      bits = c;
      size = length-replicate (2 ^ c) vacant;
      small = h;
      chained = record {
        path = λ p q a b r l. absurd (r (none_at p));
        uniq = λ p q a b r e. absurd (r (none_at p));
      };
    }

occupied-vacant : (n : ℕ) → occupied (replicate n vacant) ≡ 0
unfolding occupied
occupied-vacant zero = refl
occupied-vacant (suc n) = occupied-vacant n

ghost_of-vacant : (n x : ℕ) → x ≢ empty → ghost_of x (replicate n vacant) ≡ none
ghost_of-vacant n x r =
    ghost_of-none x _ (λ q l e. r (sym e ∙ ap (λ (g : Ghost). g.id) (vacant_at n q)))

-- What room for one more leaves: the same ghosts.
pub record Reserved (t u : GhostTable) : Type 0 where
  pub ordered : IsOrdered u.slots
  pub len : u.len ≡ t.len
  pub count : u.len ≡ occupied u.slots
  pub room : (t.len + 1) * 2 ≤ length u.slots
  pub ghosts : (x : ℕ) → x ≢ empty → ghost_of x u.slots ≡ ghost_of x t.slots

first_of-right : (o : Option Ghost) → first_of o none ≡ o
first_of-right none = refl
first_of-right (some g) = refl

start_of :
    (t : GhostTable)
    → IsGhostTable t
    → (b : ℕ) × (max (length t.slots) min_slots ≡ 2 ^ b) × (b ≤ 31)
start_of t (unused e l) = (4, rw e, omega arith)
start_of t (used h) = elim (same_or_larger h.ordered.bits) [
  | inl less ↦
      (4, omega (arith, h.ordered.size, pow2_mono h.ordered.bits 4 (omega arith)), omega arith)
  | inr more ↦ (
    h.ordered.bits,
    omega (arith, h.ordered.size, pow2_mono 4 h.ordered.bits more),
    omega (arith, h.ordered.small),
  )
]
  where
    same_or_larger : (k : ℕ) → (k < 4) ⊎ (4 ≤ k)
    same_or_larger k = ground arith

old_of : (t : GhostTable) → IsGhostTable t → IsDistinct t.slots × (occupied t.slots ≡ t.len)
unfolding occupied
old_of t (unused e l) =
    (λ p q a b r w. absurd (omega (arith, a, ap length e)), ap occupied e ∙ sym l)
old_of t (used h) = (
  λ p q a b r w.
      h.ordered.chained.uniq p q (omega (arith, a, h.ordered.size))
        (omega (arith, b, h.ordered.size)) r w,
  sym h.len,
)

grown :
    (t : GhostTable) (c : ℕ)
    → IsGhostTable t
    → c < 32
    → (t.len + 1) * 2 ≤ 2 ^ c
    → (u : GhostTable) × (rehash (2 ^ c) t ≡ some u) × Reserved t u
unfolding rehash
grown t c h small room =
    let (distinct, count) = old_of t h in
    let new = replicate (2 ^ c) vacant in
    let n = length-replicate (2 ^ c) vacant in
    let (s, e, laid) =
      reinsert_all-Laid t.slots new (vacant-IsOrdered c small) distinct
        (λ x r. inr (ghost_of-vacant (2 ^ c) x r))
        (omega (arith, occupied-vacant (2 ^ c), count, n, room)) in
    (
      record { slots = s; len = t.len },
      rw (e, rehash) refl,
      record {
        ordered = laid.ordered;
        len = refl;
        count = omega (arith, laid.more, occupied-vacant (2 ^ c), count);
        room = omega (arith, laid.size, n, room);
        ghosts = λ x r.
            laid.ghosts x r
            ∙ ap (first_of (ghost_of x t.slots)) (ghost_of-vacant (2 ^ c) x r)
            ∙ first_of-right (ghost_of x t.slots);
      },
    )

too_few : (t : GhostTable) → t.slots ≡ [] → leb ((t.len + 1) * 2) (length t.slots) ≢ true
too_few t z e = ground (arith, ap length z)

pub reserve_one-Reserved :
    (t : GhostTable)
    → IsGhostTable t
    → t.len < 2 ^ 30
    → (u : GhostTable) × (reserve_one t ≡ some u) × Reserved t u
unfolding reserve_one
reserve_one-Reserved t h few = elim (Bool-cases (leb ((t.len + 1) * 2) (length t.slots))) [
  | inl e ↦ elim h [
    | unused z l ↦ absurd (too_few t z e)
    | used w ↦ (
      t,
      rw (e, reserve_one) refl,
      record {
        ordered = w.ordered;
        len = refl;
        count = w.len;
        room = ground arith;
        ghosts = λ x r. refl;
      },
    )
  ]
  | inr e ↦
      let (b, start, low) = start_of t h in
      let (c, cap, k, m) = doubled_lem 64 b ((t.len + 1) * 2) (omega arith) low (omega arith) in
      let (u, f, r) = grown t c h (omega arith) m in (u, rw (e, start, cap, reserve_one) f, r)
]

-- ===== src/Ghost/Evict.antt =====
-- ghost.rs: what a removal keeps of an eviction's work, and the ghosts that an eviction ends.
use umwelt_rs.Base.{
  ℕ, suc, ◌^◌, ◌≤◌, ◌<◌, ◌≡◌, sym, ap, ◌∙◌, arith, Bool, false, ◌==◌, some, List, length, ◌≢◌, inl,
  inr, Bool-cases, Option-cases, some_inj,
}
use umwelt_rs.Base.Arrays.{set, length-set}
use umwelt_rs.Ghost.{
  Ghost, GhostTable, vacant, empty, slot_at, after, shift_from, remove_at, is_gone,
}
use umwelt_rs.Ghost.Ring.{dist, step, after-step, dist_full, step-lt}
use umwelt_rs.Ghost.Probe.{id_at, dist_self}
use umwelt_rs.Ghost.Insert.{occupied}
use umwelt_rs.Ghost.Table.{IsOrdered}
use umwelt_rs.Ghost.Remove.{Removed, remove_at-Removed, vacated_entry, Shifting-start}
use umwelt_rs.Ghost.Order.{Kept, shift-Kept, occupied-vacate}

shift_of :
    (at : ℕ) (t u : GhostTable)
    → remove_at at t ≡ some u
    → shift_from
        (length (set t.slots at vacant))
        (set t.slots at vacant)
        at
        (after (set t.slots at vacant) at)
      ≡ some u.slots
unfolding remove_at
shift_of at t u e =
    elim (Option-cases (
      shift_from (length (set t.slots at vacant)) (set t.slots at vacant) at
        (after (set t.slots at vacant) at))) [
          | inl w ↦ let q = rw w at e in cc
          | inr (s, w) ↦ w ∙ ap some (ap (λ (v : GhostTable). v.slots) (some_inj (rw w at e)))
        ]

-- Where an entry of the slots before a slot stood.
dist_before : (n i p q : ℕ) → q < i → i < n → p < n → dist n i q ≤ dist n i p → p < i
dist_before n i p q a b c d = grind arith

abbrev pub is_late : ℕ → ℕ → List Ghost → ℕ → Bool
is_late tick grace slots q = is_gone tick grace (slot_at slots q)

-- What a removal does for an eviction that has come to its slot.
pub record Cut (tick grace at e : ℕ) (t : GhostTable) : Type 0 where
  pub removed : Removed at t (remove_at at t)
  pub size : length removed.left.slots ≡ length t.slots
  pub still_empty : id_at removed.left.slots e ≡ empty
  pub count : suc (occupied removed.left.slots) ≡ occupied t.slots
  pub fresh : (q : ℕ) → q < at → is_late tick grace removed.left.slots q ≡ false

late_empty : (tick grace : ℕ) (g : Ghost) → g.id ≡ empty → is_gone tick grace g ≡ false
late_empty tick grace g e = ground arith

module _ (tick grace at e : ℕ) (t : GhostTable) (o : IsOrdered t.slots)
    (at_in : at < length t.slots) (taken : id_at t.slots at ≢ empty) (e_in : e < length t.slots)
    (v : id_at t.slots e ≡ empty) where
  remove_at-Kept :
      (u : GhostTable)
      → remove_at at t ≡ some u
      → Kept (2 ^ o.bits) at e (set t.slots at vacant) u.slots
  remove_at-Kept u h =
      let n = 2 ^ o.bits in
      let size = length-set t.slots at vacant ∙ o.size in
      let at_n : at < n = omega (arith, o.size) in
      let e_n : e < n = omega (arith, o.size) in
      let self = dist_self n at in
      shift-Kept o.bits o.small at at_n (length (set t.slots at vacant)) (set t.slots at vacant)
        u.slots at (step n at) e size (Shifting-start t.slots o at e at_in taken e_in v)
        (omega (arith, self)) (omega (arith, self))
        (omega (arith, size, dist_full n (step n at) e (step-lt n at at_n) e_n))
        (ap (λ (j : ℕ). shift_from (length (set t.slots at vacant)) (set t.slots at vacant) at j)
            (sym (after-step o.bits (set t.slots at vacant) at size at_n))
          ∙ shift_of at t u h)

  pub remove_at-Cut :
      ((q : ℕ) → q < at → is_late tick grace t.slots q ≡ false) → Cut tick grace at e t
  remove_at-Cut fresh =
      let r = remove_at-Removed at e t o at_in taken e_in v in
      let k = remove_at-Kept r.left r.ends in
      let at_n : at < 2 ^ o.bits = omega (arith, o.size) in
      record {
        removed = r;
        size = k.whole ∙ length-set t.slots at vacant;
        still_empty = k.still_empty;
        count = ap suc k.count ∙ occupied-vacate t.slots at at_in taken;
        fresh = λ q l. elim (Bool-cases (id_at r.left.slots q == empty)) [
          | inl w ↦ late_empty tick grace (slot_at r.left.slots q) (ground arith)
          | inr w ↦
              let full : id_at r.left.slots q ≢ empty = ground arith in
              let (p, a, eq, d) = k.behind q (omega arith) full in
              let before = dist_before (2 ^ o.bits) at p q l at_n a d in
              let (x, same) =
                vacated_entry t.slots o at e at_in taken e_in v p
                  (λ z. full (sym (ap (λ (g : Ghost). g.id) eq) ∙ z)) in
              ap (is_gone tick grace) (sym (sym same ∙ eq)) ∙ fresh p before
        ];
      }

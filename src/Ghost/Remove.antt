-- ===== src/Ghost/Remove.antt =====
-- ghost.rs: a removal, as the map sees it.
use mathlib.Core.Path.{subst}
use umwelt_rs.Base.{
  ℕ, ◌-◌, ◌^◌, ◌<◌, ◌≡◌, refl, sym, ap, ◌∙◌, arith, ◌==◌, if◌then◌else◌, Option, none, some, List,
  length, ◌≢◌, inl, inr, Option-cases, ==_iff,
}
use umwelt_rs.Base.Arrays.{set, length-set, get_or-set}
use umwelt_rs.Ghost.{Ghost, vacant, empty, slot_at}
use umwelt_rs.Ghost.Ring.{dist, step, after-step, dist_full, step-lt}
use umwelt_rs.Ghost.Probe.{id_at}
use umwelt_rs.Ghost.Shift.{Shifting}
use umwelt_rs.Ghost.{GhostTable, remove_at}
use umwelt_rs.Ghost.Shift.{Shifting, dist_next, dist_pos}
use umwelt_rs.Ghost.Removal.{Same, home_of, shift_ends, same_or_not}
use umwelt_rs.Ghost.Table.{
  ghost_of, ghost_of-none, ghost_of-some, ghost_of-hit, IsOrdered, ghost_of-at,
}

-- The slots with one of them vacated.
module _ (slots : List Ghost) (o : IsOrdered slots) (at e : ℕ) (at_in : at < length slots)
    (taken : id_at slots at ≢ empty) (e_in : e < length slots) (v : id_at slots e ≡ empty) where
  abbrev n : ℕ
  n = 2 ^ o.bits

  abbrev pub vacated : List Ghost
  vacated = set slots at vacant

  vacated_at : (q : ℕ) → slot_at vacated q ≡ (if at == q then vacant else slot_at slots q)
  vacated_at q = get_or-set slots at q vacant vacant at_in

  vacated_here : id_at vacated at ≡ empty
  vacated_here =
      let gone : slot_at vacated at ≡ vacant = vacated_at at ∙ rw ((==_iff at at).1 refl) in
      ap (λ (g : Ghost). g.id) gone

  vacated_aside : (q : ℕ) → q ≢ at → slot_at vacated q ≡ slot_at slots q
  vacated_aside q d = vacated_at q ∙ ground arith

  pub vacated_entry :
      (p : ℕ) → id_at vacated p ≢ empty → (p ≢ at) × (slot_at vacated p ≡ slot_at slots p)
  vacated_entry p r =
      let d : p ≢ at = λ w. r (ap (id_at vacated) w ∙ vacated_here) in (d, vacated_aside p d)

  e_apart : at ≢ e
  e_apart = λ w. taken (ap (id_at slots) w ∙ v)

  -- A hole that the shift can start from.
  pub Shifting-start : Shifting n (home_of n) vacated at (step n at) e
  Shifting-start =
      let at_n : at < n = omega (arith, o.size) in
      let e_n : e < n = omega (arith, o.size) in
      let one = dist_next n at e at_n e_n e_apart in
      record {
        hole_in = at_n;
        j_in = step-lt n at at_n;
        e_in = e_n;
        hole_empty = vacated_here;
        e_empty = ap (λ (g : Ghost). g.id) (vacated_aside e (λ w. e_apart (sym w))) ∙ v;
        apart = e_apart;
        started = omega (arith, one);
        ahead = omega (arith, one, dist_pos n at e at_n e_n e_apart);
        path = λ p q a b real l.
            let (d, same) = vacated_entry p real in
            let id = ap (λ (g : Ghost). g.id) same in
            let full =
              o.chained.path p q a b (λ w. real (id ∙ w))
                (subst (λ x. dist n (home_of n x) q < dist n (home_of n x) p) id l) in
            elim (same_or_not q at) [
              | inl w ↦ inr (w, omega (arith, one, dist_pos n at p at_n a (λ w. d (sym w))))
              | inr w ↦ inl (λ z. full (sym (ap (λ (g : Ghost). g.id) (vacated_aside q w)) ∙ z))
            ];
        uniq = λ p q a b real same_id.
            let (d, same) = vacated_entry p real in
            let (f, other) = vacated_entry q (λ w. real (same_id ∙ w)) in
            o.chained.uniq p q a b (λ w. real (ap (λ (g : Ghost). g.id) same ∙ w))
              (sym (ap (λ (g : Ghost). g.id) same) ∙ same_id ∙ ap (λ (g : Ghost). g.id) other);
      }

  module _ (left : List Ghost) (lo : IsOrdered left) (size : length left ≡ n)
      (same : Same n vacated left) where
    -- What is left was there, aside from the slot.
    was_there :
        (x q : ℕ)
        → x ≢ empty
        → q < n
        → id_at left q ≡ x
        → (p : ℕ) × (p < n) × (p ≢ at) × (slot_at slots p ≡ slot_at left q)
    was_there x q real b id =
        let (p, a, eq) = same.back q b (λ w. real (sym id ∙ w)) in
        let (d, kept) =
          vacated_entry p (λ w. real (sym id ∙ ap (λ (g : Ghost). g.id) (sym eq) ∙ w)) in
        (p, a, d, sym kept ∙ eq)

    gone : (x : ℕ) → x ≢ empty → id_at slots at ≡ x → ghost_of x left ≡ none
    gone x real id = ghost_of-none x left (λ q l at_q.
        let (p, a, d, eq) = was_there x q real (omega (arith, size)) at_q in
        d (
          o.chained.uniq p at a (omega (arith, o.size))
            (λ w. real (sym at_q ∙ ap (λ (g : Ghost). g.id) (sym eq) ∙ w))
            (ap (λ (g : Ghost). g.id) eq ∙ at_q ∙ sym id)))

    stays : (x : ℕ) → x ≢ empty → id_at slots at ≢ x → ghost_of x left ≡ ghost_of x slots
    stays x real other = elim (Option-cases (ghost_of x slots)) [
      | inl w ↦
          ghost_of-none x left (λ q l at_q.
            let (p, a, d, eq) = was_there x q real (omega (arith, size)) at_q in
            ghost_of-hit x p slots (omega (arith, o.size)) (ap (λ (g : Ghost). g.id) eq ∙ at_q) w)
          ∙ sym w
      | inr (g, w) ↦
          let (p, l, at_p, id) = ghost_of-some x slots g w in
          let id_p : id_at slots p ≡ x = ap (λ (h : Ghost). h.id) at_p ∙ id in
          let d : p ≢ at = λ z. other (ap (id_at slots) (sym z) ∙ id_p) in
          let kept = vacated_aside p d in
          let (q, b, eq) =
            same.into p (omega (arith, o.size))
              (λ z. real (sym id_p ∙ ap (λ (h : Ghost). h.id) (sym kept) ∙ z)) in
          ghost_of-at left lo x q (omega (arith, size))
            (ap (λ (h : Ghost). h.id) (eq ∙ kept) ∙ id_p) real
          ∙ ap some (eq ∙ kept ∙ at_p)
          ∙ sym w
    ]

    ghosts_left :
        (x : ℕ)
        → x ≢ empty
        → ghost_of x left ≡ (if id_at slots at == x then none else ghost_of x slots)
    ghosts_left x real = elim (same_or_not (id_at slots at) x) [
      | inl w ↦ gone x real w ∙ ground arith
      | inr w ↦ stays x real w ∙ ground arith
    ]

-- What a removal leaves: a table in order, one ghost fewer.
pub record Removed (at : ℕ) (t : GhostTable) (o : Option GhostTable) : Type 0 where
  pub left : GhostTable
  pub ends : o ≡ some left
  pub ordered : IsOrdered left.slots
  pub len : left.len ≡ t.len - 1
  pub ghosts :
      (x : ℕ)
      → x ≢ empty
      → ghost_of x left.slots ≡ (if id_at t.slots at == x then none else ghost_of x t.slots)

-- In a table in order with an empty slot, removing the entry of a slot ends, leaves the table in
-- order, and takes the ghost of that entry and no other from the map that the slots stand for.
pub remove_at-Removed :
    (at e : ℕ) (t : GhostTable)
    → IsOrdered t.slots
    → at < length t.slots
    → id_at t.slots at ≢ empty
    → e < length t.slots
    → id_at t.slots e ≡ empty
    → Removed at t (remove_at at t)
unfolding remove_at
remove_at-Removed at e t o at_in taken e_in v =
    let n = 2 ^ o.bits in
    let empty_at = set t.slots at vacant in
    let size = length-set t.slots at vacant ∙ o.size in
    let at_n : at < n = omega (arith, o.size) in
    let e_n : e < n = omega (arith, o.size) in
    let shifted =
      shift_ends o.bits o.small (length empty_at) empty_at at (step n at) e size
        (Shifting-start t.slots o at e at_in taken e_in v)
        (omega (arith, size, dist_full n (step n at) e (step-lt n at at_n) e_n)) in
    let ordered : IsOrdered shifted.result = record {
      bits = o.bits;
      size = shifted.size;
      small = o.small;
      chained = shifted.chained;
    } in
    record {
      left = record { slots = shifted.result; len = t.len - 1 };
      ends = rw (after-step o.bits empty_at at size at_n, shifted.ends, remove_at) refl;
      ordered = ordered;
      len = refl;
      ghosts =
          ghosts_left t.slots o at e at_in taken e_in v shifted.result ordered shifted.size
            shifted.same;
    }

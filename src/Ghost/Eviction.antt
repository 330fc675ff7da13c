-- ===== src/Ghost/Eviction.antt =====
-- ghost.rs: the eviction's pass over the slots.
use umwelt_rs.Base.{
  ℕ, zero, suc, ◌+◌, ◌-◌, ◌*◌, ◌<◌, ◌≡◌, refl, sym, ap, ◌∙◌, arith, Bool, true, false, leb, ◌||◌,
  ◌==◌, if◌then◌else◌, Option, none, some, List, [], ◌∷◌, ◌++◌, append-nil, append_assoc, length,
  ◌≢◌, inl, inr, ◌⊎◌, Bool-cases, Option-cases,
}
use umwelt_rs.Base.Sets.{member}
use umwelt_rs.Base.Bits.{pow2_pos}
use umwelt_rs.Entity.{EntityId}
use umwelt_rs.Ghost.{Ghost, GhostTable, empty, slot_at, is_gone, evict_from, evict}
use umwelt_rs.Ghost.Probe.{id_at}
use umwelt_rs.Ghost.Insert.{occupied, vacancy}
use umwelt_rs.Ghost.Table.{IsOrdered, ghost_of, ghost_of-some, ghost_of-at}
use umwelt_rs.Ghost.Evict.{is_late, Cut, remove_at-Cut}
use umwelt_rs.Ghost.Room.{IsTable}

-- The ghost that an eviction lets stand, and whether it ends one.
abbrev pub survivor : ℕ → ℕ → Option Ghost → Option Ghost
survivor tick grace none = none
survivor tick grace (some g) = if is_gone tick grace g then none else some g

abbrev pub departs : ℕ → ℕ → Option Ghost → Bool
departs tick grace none = false
departs tick grace (some g) = is_gone tick grace g

-- What an eviction makes of a table, besides what it adds to the departed.
pub record Evicted (tick grace : ℕ) (t : GhostTable) (departed : List EntityId)
    (o : Option (GhostTable × List EntityId)) : Type 0 where
  pub left : GhostTable
  pub out : List EntityId
  pub ends : o ≡ some (left, departed ++ out)
  pub ordered : IsOrdered left.slots
  pub size : length left.slots ≡ length t.slots
  pub len : left.len ≡ occupied left.slots
  pub total : left.len + length out ≡ t.len
  pub ghosts :
      (x : ℕ) → x ≢ empty → ghost_of x left.slots ≡ survivor tick grace (ghost_of x t.slots)
  pub reported : (x : ℕ) → x ≢ empty → member x out ≡ departs tick grace (ghost_of x t.slots)

before_or_at : (q i : ℕ) → q < i + 1 → (q < i) ⊎ (q ≡ i)
before_or_at q i l = ground arith

module _ (tick grace : ℕ) where
  all_stay :
      (slots : List Ghost) (x : ℕ)
      → ((q : ℕ) → q < length slots → is_late tick grace slots q ≡ false)
      → (ghost_of x slots ≡ survivor tick grace (ghost_of x slots))
        × (departs tick grace (ghost_of x slots) ≡ false)
  all_stay slots x fresh = elim (Option-cases (ghost_of x slots)) [
    | inl w ↦ rw w (refl, refl)
    | inr (g, w) ↦
        let (p, l, at_p, id) = ghost_of-some x slots g w in
        let stays : is_gone tick grace g ≡ false = ap (is_gone tick grace) (sym at_p) ∙ fresh p l in
        rw (w, stays) (refl, refl)
  ]

  late_taken : (g : Ghost) → is_gone tick grace g ≡ true → g.id ≢ empty
  late_taken g h = ground arith

  -- The ghost of a slot that is late, taken out, leaves the same survivors.
  one_ends :
      (slots : List Ghost) (i x : ℕ)
      → IsOrdered slots
      → i < length slots
      → is_late tick grace slots i ≡ true
      → x ≢ empty
      → (survivor tick grace (if id_at slots i == x then none else ghost_of x slots)
          ≡ survivor tick grace (ghost_of x slots))
        × (((id_at slots i == x)
              || departs tick grace (if id_at slots i == x then none else ghost_of x slots))
            ≡ departs tick grace (ghost_of x slots))
  one_ends slots i x o l late real = elim (Bool-cases (id_at slots i == x)) [
    | inl w ↦
        let here = ghost_of-at slots o x i l (ground arith) real in rw (w, here, late) (refl, refl)
    | inr w ↦ rw w (refl, refl)
  ]

  late_before :
      (slots : List Ghost) (i : ℕ)
      → ((q : ℕ) → q < i → is_late tick grace slots q ≡ false)
      → is_late tick grace slots i ≡ false
      → (q : ℕ) → q < i + 1
      → is_late tick grace slots q ≡ false
  late_before slots i fresh on q l = elim (before_or_at q i l) [
    | inl w ↦ fresh q w
    | inr w ↦ ap (is_late tick grace slots) w ∙ on
  ]

  module _ (t : GhostTable) (i e : ℕ) (o : IsOrdered t.slots) (n : t.len ≡ occupied t.slots)
      (i_in : i < length t.slots) (late : is_late tick grace t.slots i ≡ true)
      (cut : Cut tick grace i e t) where
    and_one :
        (departed : List EntityId) (res : Option (GhostTable × List EntityId))
        → Evicted tick grace cut.removed.left (departed ++ id_at t.slots i ∷ []) res
        → Evicted tick grace t departed res
    unfolding member
    and_one departed res r = record {
      left = r.left;
      out = id_at t.slots i ∷ r.out;
      ends =
          r.ends
          ∙ ap (λ (out : List EntityId). some (r.left, out))
              (append_assoc departed (id_at t.slots i ∷ []) r.out);
      ordered = r.ordered;
      size = r.size ∙ cut.size;
      len = r.len;
      total = omega (arith, r.total, cut.removed.len, cut.count, n);
      ghosts = λ x real.
          r.ghosts x real
          ∙ ap (survivor tick grace) (cut.removed.ghosts x real)
          ∙ (one_ends t.slots i x o i_in late real).0;
      reported = λ x real.
          ap (λ (b : Bool). (id_at t.slots i == x) || b)
            (r.reported x real ∙ ap (departs tick grace) (cut.removed.ghosts x real))
          ∙ (one_ends t.slots i x o i_in late real).1;
    }

  none_left :
      (t : GhostTable) (departed : List EntityId)
      → IsOrdered t.slots
      → t.len ≡ occupied t.slots
      → ((q : ℕ) → q < length t.slots → is_late tick grace t.slots q ≡ false)
      → Evicted tick grace t departed (some (t, departed))
  unfolding member
  none_left t departed o n fresh = record {
    left = t;
    out = [];
    ends = ap (λ out. some (t, out)) (sym (append-nil departed));
    ordered = o;
    size = refl;
    len = n;
    total = omega arith;
    ghosts = λ x r. (all_stay t.slots x fresh).0;
    reported = λ x r. sym (all_stay t.slots x fresh).1;
  }

  evict_from-Evicted :
      (fuel i e : ℕ) (t : GhostTable) (departed : List EntityId)
      → IsOrdered t.slots
      → t.len ≡ occupied t.slots
      → e < length t.slots
      → id_at t.slots e ≡ empty
      → ((q : ℕ) → q < i → is_late tick grace t.slots q ≡ false)
      → (length t.slots - i) + occupied t.slots < fuel
      → Evicted tick grace t departed (evict_from fuel i tick grace t departed)
  unfolding evict_from
  evict_from-Evicted zero i e t departed o n e_in v fresh enough = absurd (omega arith)
  evict_from-Evicted (suc fuel) i e t departed o n e_in v fresh enough =
      elim (Bool-cases (leb (length t.slots) i)) [
        | inl past ↦ rw past (none_left t departed o n (λ q l. fresh q (grind arith)))
        | inr more ↦
            let i_in : i < length t.slots = grind arith in
            elim (Bool-cases (is_late tick grace t.slots i)) [
              | inl late ↦
                  let cut =
                    remove_at-Cut tick grace i e t o i_in (late_taken (slot_at t.slots i) late) e_in
                      v fresh in
                  let u = cut.removed.left in
                  let rest =
                    evict_from-Evicted fuel i e u (departed ++ id_at t.slots i ∷ [])
                      cut.removed.ordered (omega (arith, cut.removed.len, cut.count, n))
                      (omega (arith, cut.size, e_in)) cut.still_empty cut.fresh
                      (omega (arith, cut.size, cut.count, enough)) in
                  rw (more, late, cut.removed.ends)
                    (and_one t i e o n i_in late cut departed _ rest)
              | inr on ↦
                  rw (more, on)
                    (evict_from-Evicted fuel (i + 1) e t departed o n e_in v
                      (late_before t.slots i fresh on) (omega arith))
            ]
      ]

-- On a table in order and at most half full, one pass of the eviction ends and leaves such a
-- table, with as many slots; the map that the slots stand for has lost the ghosts not seen for
-- more than the grace, and no other; their ids, and no other, are added to the departed; and the
-- ghosts left and the ids added are together as many as the ghosts were.
pub evict_lem :
    (tick grace : ℕ) (t : GhostTable) (departed : List EntityId)
    → IsTable t
    → (u : GhostTable) × (out : List EntityId) × (evict tick grace t departed
        ≡ some (u, departed ++ out))
      × IsTable u
      × (length u.slots ≡ length t.slots)
      × (u.len + length out ≡ t.len)
      × ((x : ℕ)
          → x ≢ empty
          → (ghost_of x u.slots ≡ survivor tick grace (ghost_of x t.slots))
            × (member x out ≡ departs tick grace (ghost_of x t.slots)))
unfolding evict
evict_lem tick grace t departed h =
    let some_slot : 0 < length t.slots = omega (arith, h.ordered.size, pow2_pos h.ordered.bits) in
    let (e, e_in, v) = vacancy t.slots (omega (arith, h.len, h.half, some_slot)) in
    let r =
      evict_from-Evicted tick grace (2 * length t.slots + 1) 0 e t departed h.ordered h.len e_in v
        (λ q l. absurd (omega arith)) (omega (arith, h.len, h.half)) in
    (
      r.left,
      r.out,
      r.ends,
      record { ordered = r.ordered; len = r.len; half = omega (arith, r.total, r.size, h.half) },
      r.size,
      r.total,
      λ x real. (r.ghosts x real, r.reported x real),
    )

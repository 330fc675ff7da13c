-- ===== src/Ghost/Removal.antt =====
-- ghost.rs: the backward shift ends, and takes nothing but the entry removed.
use umwelt_rs.Base.{
  ℕ, zero, suc, ◌^◌, ◌≤◌, ◌<◌, ◌≡◌, refl, sym, ap, ◌∙◌, arith, Option, some, List, length, ◌≢◌, inl,
  inr, ◌⊎◌,
}
use umwelt_rs.Base.Arrays.{set, length-set}
use umwelt_rs.Ghost.{Ghost, vacant, empty, slot_at, after, steps_from, shift_from, home_in}
use umwelt_rs.Ghost.Ring.{dist, step, after-step, home-lt, steps_from-dist}
use umwelt_rs.Base.Bits.{trailing_zeros, trailing_zeros-pow}
use umwelt_rs.Ghost.{home}
use umwelt_rs.Ghost.Probe.{id_at, Chained}
use umwelt_rs.Ghost.Shift.{Shifting, Chained-done, Shifting-kept}
use umwelt_rs.Ghost.Moved.{Shifting-moved, Filled, at_cursor, at_hole, aside, Filled-cases}

pub same_or_not : (a b : ℕ) → (a ≡ b) ⊎ (a ≢ b)
same_or_not a b = ground arith

pub far_or_near : (a b : ℕ) → (a ≤ b) ⊎ (b < a)
far_or_near a b = ground arith

pub dist_closer : (n j e : ℕ) → j < n → e < n → j ≢ e → dist n (step n j) e < dist n j e
dist_closer n j e a b d = grind arith

-- Two tables of `n` slots hold the same entries.
pub record Same (n : ℕ) (slots others : List Ghost) : Type 0 where
  pub into :
      (p : ℕ)
      → p < n
      → id_at slots p ≢ empty
      → (q : ℕ) × (q < n) × (slot_at others q ≡ slot_at slots p)
  pub back :
      (p : ℕ)
      → p < n
      → id_at others p ≢ empty
      → (q : ℕ) × (q < n) × (slot_at slots q ≡ slot_at others p)

Same-refl : (n : ℕ) (slots : List Ghost) → Same n slots slots
Same-refl n slots = record { into = λ p a r. (p, a, refl); back = λ p a r. (p, a, refl) }

pub id_same :
    (xs ys : List Ghost) (p q : ℕ)
    → slot_at xs q ≡ slot_at ys p
    → id_at ys p ≢ empty
    → id_at xs q ≢ empty
id_same xs ys p q e r = λ w. r (sym (ap (λ (g : Ghost). g.id) e) ∙ w)

Same-trans : (n : ℕ) (xs ys zs : List Ghost) → Same n xs ys → Same n ys zs → Same n xs zs
Same-trans n xs ys zs s t = record {
  into = λ p a r.
      let (q, b, e) = s.into p a r in
      let (o, c, f) = t.into q b (id_same ys xs p q e r) in (o, c, f ∙ e);
  back = λ p a r.
      let (q, b, e) = t.back p a r in
      let (o, c, f) = s.back q b (id_same ys zs p q e r) in (o, c, f ∙ e);
}

-- The home of an id in a table of `n` slots.
abbrev pub home_of : ℕ → ℕ → ℕ
home_of n x = home x (trailing_zeros n)

module _ (k : ℕ) (small : k < 32) where
  pub homes : (x : ℕ) → home_of (2 ^ k) x < 2 ^ k
  homes x = rw (trailing_zeros-pow k small) (home-lt k x small)

  abbrev pub refilled : List Ghost → ℕ → ℕ → List Ghost
  refilled slots hole j = set (set slots hole (slot_at slots j)) j vacant

  module _ (slots : List Ghost) (hole j e : ℕ) (size : length slots ≡ 2 ^ k)
      (s : Shifting (2 ^ k) (home_of (2 ^ k)) slots hole j e) where
    pub look : (q : ℕ) → Filled (2 ^ k) (home_of (2 ^ k)) homes slots hole j q
    look q = Filled-cases (2 ^ k) (home_of (2 ^ k)) homes slots hole j q size s.hole_in s.j_in

    pub Same-filled : Same (2 ^ k) slots (refilled slots hole j)
    Same-filled = record {
      into = λ p a r. elim (look p) [
        | at_cursor w g ↦ (
          hole,
          s.hole_in,
          elim (look hole) [
            | at_cursor v h ↦ absurd (r (ap (id_at slots) (w ∙ sym v) ∙ s.hole_empty))
            | at_hole v u h ↦ h ∙ ap (slot_at slots) (sym w)
            | aside u v h ↦ absurd (u refl)
          ],
        )
        | at_hole w o g ↦ absurd (r (ap (id_at slots) w ∙ s.hole_empty))
        | aside o u g ↦ (p, a, g)
      ];
      back = λ p a r. elim (look p) [
        | at_cursor w g ↦ absurd (r (ap (λ (h : Ghost). h.id) g))
        | at_hole w o g ↦ (j, s.j_in, sym g)
        | aside o u g ↦ (p, a, sym g)
      ];
    }

    pub home_lem : (x : ℕ) → home_in slots x ≡ home_of (2 ^ k) x
    unfolding home_in
    home_lem x = ap (λ (n : ℕ). home x (trailing_zeros n)) size

    after_lem : after slots j ≡ step (2 ^ k) j
    after_lem = after-step k slots j size s.j_in

    from_hole : steps_from slots hole j ≡ dist (2 ^ k) hole j
    from_hole = steps_from-dist k slots hole j size small s.hole_in s.j_in

    from_home :
        steps_from slots (home_in slots (id_at slots j)) j
        ≡ dist (2 ^ k) (home_of (2 ^ k) (id_at slots j)) j
    from_home =
        ap (λ (h : ℕ). steps_from slots h j) (home_lem (id_at slots j))
        ∙ steps_from-dist k slots (home_of (2 ^ k) (id_at slots j)) j size small
            (homes (id_at slots j)) s.j_in

    pub shift_done :
        (fuel : ℕ) → id_at slots j ≡ empty → shift_from (suc fuel) slots hole j ≡ some slots
    unfolding shift_from
    shift_done fuel v = ground arith

    pub shift_moved :
        (fuel : ℕ)
        → id_at slots j ≢ empty
        → dist (2 ^ k) hole j ≤ dist (2 ^ k) (home_of (2 ^ k) (id_at slots j)) j
        → shift_from (suc fuel) slots hole j
          ≡ shift_from fuel (refilled slots hole j) j (step (2 ^ k) j)
    unfolding shift_from
    shift_moved fuel full l = rw (← after_lem) (ground (arith, from_hole, from_home))

    pub shift_kept :
        (fuel : ℕ)
        → id_at slots j ≢ empty
        → dist (2 ^ k) (home_of (2 ^ k) (id_at slots j)) j < dist (2 ^ k) hole j
        → shift_from (suc fuel) slots hole j ≡ shift_from fuel slots hole (step (2 ^ k) j)
    unfolding shift_from
    shift_kept fuel full l = rw (← after_lem) (ground (arith, from_hole, from_home))

  -- What the shift leaves.
  pub record Shifted (slots : List Ghost) (o : Option (List Ghost)) : Type 0 where
    pub result : List Ghost
    pub ends : o ≡ some result
    pub size : length result ≡ 2 ^ k
    pub chained : Chained (2 ^ k) (home_of (2 ^ k)) result
    pub same : Same (2 ^ k) slots result

  pub shift_ends :
      (fuel : ℕ) (slots : List Ghost) (hole j e : ℕ)
      → length slots ≡ 2 ^ k
      → Shifting (2 ^ k) (home_of (2 ^ k)) slots hole j e
      → dist (2 ^ k) j e < fuel
      → Shifted slots (shift_from fuel slots hole j)
  shift_ends zero slots hole j e size s enough = absurd (omega arith)
  shift_ends (suc fuel) slots hole j e size s enough = elim (same_or_not (id_at slots j) empty) [
    | inl v ↦ record {
      result = slots;
      ends = shift_done slots hole j e size s fuel v;
      size = size;
      chained = Chained-done (2 ^ k) (home_of (2 ^ k)) homes slots hole j e s v;
      same = Same-refl (2 ^ k) slots;
    }
    | inr full ↦
        let closer =
          dist_closer (2 ^ k) j e s.j_in s.e_in (λ w. full (ap (id_at slots) w ∙ s.e_empty)) in
        elim (far_or_near (dist (2 ^ k) hole j)
          (dist (2 ^ k) (home_of (2 ^ k) (id_at slots j)) j)) [
            | inl l ↦
                let rest =
                  shift_ends fuel (refilled slots hole j) j (step (2 ^ k) j) e
                    (length-set _ j vacant ∙ length-set slots hole (slot_at slots j) ∙ size)
                    (Shifting-moved (2 ^ k) (home_of (2 ^ k)) homes slots hole j e size s full l)
                    (omega (arith, closer)) in
                record {
                  result = rest.result;
                  ends = shift_moved slots hole j e size s fuel full l ∙ rest.ends;
                  size = rest.size;
                  chained = rest.chained;
                  same = Same-trans (2 ^ k) slots _ _ (Same-filled slots hole j e size s) rest.same;
                }
            | inr less ↦
                let rest =
                  shift_ends fuel slots hole (step (2 ^ k) j) e size
                    (Shifting-kept (2 ^ k) (home_of (2 ^ k)) homes slots hole j e s full less)
                    (omega (arith, closer)) in
                record {
                  result = rest.result;
                  ends = shift_kept slots hole j e size s fuel full less ∙ rest.ends;
                  size = rest.size;
                  chained = rest.chained;
                  same = rest.same;
                }
          ]
  ]

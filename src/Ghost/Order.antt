-- ===== src/Ghost/Order.antt =====
-- ghost.rs: a backward shift moves entries toward the slot it started from, and never past it.
use umwelt_rs.Base.{
  ℕ, zero, suc, ◌^◌, ◌≤◌, ◌<◌, ◌≡◌, refl, sym, ap, ◌∙◌, arith, some, List, length, ◌≢◌, inl, inr,
}
use umwelt_rs.Base.Arrays.{set, length-set}
use umwelt_rs.Ghost.{Ghost, vacant, empty, slot_at, shift_from}
use umwelt_rs.Ghost.Ring.{dist, step}
use umwelt_rs.Ghost.Probe.{id_at, dist_self}
use umwelt_rs.Ghost.Shift.{short_of, Shifting, Shifting-kept}
use umwelt_rs.Ghost.Moved.{Shifting-moved, at_cursor, at_hole, aside}
use umwelt_rs.Base.{some_inj, ◌+◌, ◌∷◌, [], ==_iff}
use umwelt_rs.Ghost.Ring.{dist-step, dist_full}
use umwelt_rs.Base.Arrays.{get_or-set}
use umwelt_rs.Ghost.Insert.{occupied, occupied-set}
use umwelt_rs.Ghost.Removal.{
  home_of, homes, refilled, look, shift_done, shift_moved, shift_kept, same_or_not, far_or_near,
  dist_closer,
}
use mathlib.Core.Path.{subst}

-- What a shift that started at `at` keeps.
pub record Kept (n at e : ℕ) (slots s : List Ghost) : Type 0 where
  pub still_empty : id_at s e ≡ empty
  pub count : occupied s ≡ occupied slots
  pub whole : length s ≡ length slots
  pub behind :
      (q : ℕ)
      → q < n
      → id_at s q ≢ empty
      → (p : ℕ) × (p < n) × (slot_at slots p ≡ slot_at s q) × (dist n at q ≤ dist n at p)

dist_between :
    (n a b c : ℕ)
    → a < n
    → b < n
    → c < n
    → dist n a b < dist n a c
    → dist n a b + dist n b c ≡ dist n a c
dist_between n a b c k l m o = grind arith

dist_on_by :
    (n at hole j e : ℕ)
    → at < n
    → hole < n
    → j < n
    → e < n
    → dist n at hole + dist n hole j ≡ dist n at j
    → dist n at hole + dist n hole e ≡ dist n at e
    → dist n hole j < dist n hole e
    → dist n at hole + dist n hole (step n j) ≡ dist n at (step n j)
dist_on_by n at hole j e a b c d k l m =
    let p = dist-step n at j a c (omega (arith, k, l, m, dist_full n at e a d)) in
    let q = dist-step n hole j b c (omega (arith, m, dist_full n hole e b d)) in
    omega (arith, p, q, k)

dist_one :
    (n at j e : ℕ)
    → at < n
    → j < n
    → e < n
    → dist n at j < dist n at e
    → dist n at j + dist n j (step n j) ≡ dist n at (step n j)
dist_one n at j e a c d m =
    let p = dist-step n at j a c (omega (arith, m, dist_full n at e a d)) in
    let q = dist-step n j j c c (omega (arith, dist_self n j, m, dist_full n at e a d)) in
    omega (arith, p, q, dist_self n j)

pub occupied-vacate :
    (slots : List Ghost) (p : ℕ)
    → p < length slots
    → id_at slots p ≢ empty
    → suc (occupied (set slots p vacant)) ≡ occupied slots
unfolding occupied
occupied-vacate [] p l r = absurd (omega arith)
occupied-vacate (h ∷ hs) zero l r = ground arith
occupied-vacate (h ∷ hs) (suc p) l r = ground (arith, occupied-vacate hs p)

module _ (k : ℕ) (small : k < 32) (at : ℕ) (at_in : at < 2 ^ k) where
  occupied-refilled :
      (slots : List Ghost) (hole j e : ℕ)
      → length slots ≡ 2 ^ k
      → Shifting (2 ^ k) (home_of (2 ^ k)) slots hole j e
      → id_at slots j ≢ empty
      → occupied (refilled k small slots hole j) ≡ occupied slots
  occupied-refilled slots hole j e size s full =
      let g = slot_at slots j in
      let moved = set slots hole g in
      let in_slots : hole < length slots = omega (arith, s.hole_in, size) in
      let in_moved : j < length moved = omega (arith, s.j_in, size, length-set slots hole g) in
      let same : slot_at moved j ≡ g = get_or-set slots hole j g vacant in_slots ∙ ground arith in
      let more : occupied moved ≡ suc (occupied slots) =
        occupied-set slots hole g in_slots full ∙ rw ((==_iff _ _).1 s.hole_empty) in
      omega (
        arith,
        more,
        occupied-vacate moved j in_moved (λ w. full (sym (ap (λ (h : Ghost). h.id) same) ∙ w)),
      )

  pub shift-Kept :
      (fuel : ℕ) (slots r : List Ghost) (hole j e : ℕ)
      → length slots ≡ 2 ^ k
      → Shifting (2 ^ k) (home_of (2 ^ k)) slots hole j e
      → dist (2 ^ k) at hole + dist (2 ^ k) hole j ≡ dist (2 ^ k) at j
      → dist (2 ^ k) at hole + dist (2 ^ k) hole e ≡ dist (2 ^ k) at e
      → dist (2 ^ k) j e < fuel
      → shift_from fuel slots hole j ≡ some r
      → Kept (2 ^ k) at e slots r
  shift-Kept zero slots r hole j e size s x y enough h = absurd (omega arith)
  shift-Kept (suc fuel) slots r hole j e size s x y enough h =
      elim (same_or_not (id_at slots j) empty) [
        | inl v ↦
            let same : slots ≡ r =
              some_inj (sym (shift_done k small slots hole j e size s fuel v) ∙ h) in
            subst (Kept (2 ^ k) at e slots) same (record {
              still_empty = s.e_empty;
              count = refl;
              whole = refl;
              behind = λ q a z. (q, a, refl, omega arith);
            })
        | inr full ↦
            let n = 2 ^ k in
            let short = short_of n (home_of n) (homes k small) slots hole j e s full in
            let apart : j ≢ e = λ w. full (ap (id_at slots) w ∙ s.e_empty) in
            let closer = dist_closer n j e s.j_in s.e_in apart in
            elim (far_or_near (dist n hole j) (dist n (home_of n (id_at slots j)) j)) [
              | inl l ↦
                  let before : dist n at j < dist n at e = omega (arith, short, x, y) in
                  let a = dist_one n at j e at_in s.j_in s.e_in before in
                  let b = dist_between n at j e at_in s.j_in s.e_in before in
                  let rest =
                    shift-Kept fuel (refilled k small slots hole j) r j (step n j) e
                      (length-set _ j vacant ∙ length-set slots hole (slot_at slots j) ∙ size)
                      (Shifting-moved n (home_of n) (homes k small) slots hole j e size s full l) a
                      b (omega (arith, closer, enough))
                      (sym (shift_moved k small slots hole j e size s fuel full l) ∙ h) in
                  record {
                    still_empty = rest.still_empty;
                    count = rest.count ∙ occupied-refilled slots hole j e size s full;
                    whole =
                        rest.whole
                        ∙ length-set _ j vacant
                        ∙ length-set slots hole (slot_at slots j);
                    behind = λ q c z.
                        let (p, d, eq, f) = rest.behind q c z in
                        elim (look k small slots hole j e size s p) [
                          | at_cursor w g ↦
                              absurd
                                (z (sym (ap (λ (i : Ghost). i.id) eq) ∙ ap (λ (i : Ghost). i.id) g))
                          | at_hole w o g ↦
                              (j, s.j_in, sym g ∙ eq, omega (arith, f, ap (dist n at) w, x))
                          | aside o v g ↦ (p, d, sym g ∙ eq, f)
                        ];
                  }
              | inr less ↦
                  let on =
                    dist-step n hole j s.hole_in s.j_in
                      (omega (arith, short, dist_full n hole e s.hole_in s.e_in)) in
                  let rest =
                    shift-Kept fuel slots r hole (step n j) e size
                      (Shifting-kept n (home_of n) (homes k small) slots hole j e s full less)
                      (dist_on_by n at hole j e at_in s.hole_in s.j_in s.e_in x y short) y
                      (omega (arith, closer, enough))
                      (sym (shift_kept k small slots hole j e size s fuel full less) ∙ h) in
                  record {
                    still_empty = rest.still_empty;
                    count = rest.count;
                    whole = rest.whole;
                    behind = λ q c z. rest.behind q c z;
                  }
            ]
      ]

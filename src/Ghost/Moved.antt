-- ===== src/Ghost/Moved.antt =====
-- ghost.rs: the slots once an entry has been shifted back into the hole.
use mathlib.Core.Path.{subst}
use umwelt_rs.Base.{
  ℕ, ◌≤◌, ◌<◌, ◌≡◌, refl, sym, ap, ◌∙◌, arith, ◌==◌, if◌then◌else◌, List, length, ◌≢◌, Bool-cases,
  inl, inr, ◌⊎◌,
}
use umwelt_rs.Base.Arrays.{set, length-set, get_or-set}
use umwelt_rs.Ghost.{Ghost, vacant, empty, slot_at}
use umwelt_rs.Ghost.Ring.{dist, step, step-lt}
use umwelt_rs.Ghost.Probe.{id_at}
use umwelt_rs.Ghost.Shift.{Shifting, dist_on, dist_pos, dist_next, lt_irrefl_of}

module _ (n : ℕ) (hm : ℕ → ℕ) (hm_in : (x : ℕ) → hm x < n) where
  -- The slots once the entry at the cursor has filled the hole.
  abbrev pub filled : List Ghost → ℕ → ℕ → List Ghost
  filled slots hole j = set (set slots hole (slot_at slots j)) j vacant

  slot_filled :
      (slots : List Ghost) (hole j q : ℕ)
      → length slots ≡ n
      → hole < n
      → j < n
      → slot_at (filled slots hole j) q
        ≡ (if j == q then vacant else if hole == q then slot_at slots j else slot_at slots q)
  slot_filled slots hole j q size a b =
      get_or-set (set slots hole (slot_at slots j)) j q vacant vacant
        (omega (arith, length-set slots hole (slot_at slots j), size))
      ∙ ap (λ (g : Ghost). if j == q then vacant else g)
          (get_or-set slots hole q (slot_at slots j) vacant (omega (arith, size)))

  -- What a slot holds then: nothing at the cursor, its entry at the hole, the rest as it was.
  pub data Filled (slots : List Ghost) (hole j q : ℕ) : Type 0 where
    at_cursor : q ≡ j → slot_at (filled slots hole j) q ≡ vacant → Filled slots hole j q
    at_hole :
        q ≡ hole → q ≢ j → slot_at (filled slots hole j) q ≡ slot_at slots j → Filled slots hole j q
    aside :
        q ≢ hole → q ≢ j → slot_at (filled slots hole j) q ≡ slot_at slots q → Filled slots hole j q

  pub Filled-cases :
      (slots : List Ghost) (hole j q : ℕ)
      → length slots ≡ n
      → hole < n
      → j < n
      → Filled slots hole j q
  Filled-cases slots hole j q size a b = elim (Bool-cases (j == q)) [
    | inl t ↦ at_cursor (ground arith) (slot_filled slots hole j q size a b ∙ rw t)
    | inr t ↦ elim (Bool-cases (hole == q)) [
      | inl u ↦
          at_hole (ground arith) (ground arith) (slot_filled slots hole j q size a b ∙ rw (t, u))
      | inr u ↦
          aside (ground arith) (ground arith) (slot_filled slots hole j q size a b ∙ rw (t, u))
    ]
  ]

  module _ (slots : List Ghost) (hole j e : ℕ) (size : length slots ≡ n)
      (s : Shifting n hm slots hole j e) (full : id_at slots j ≢ empty)
      (l : dist n hole j ≤ dist n (hm (id_at slots j)) j) where
    abbrev fresh : List Ghost
    fresh = filled slots hole j

    look : (q : ℕ) → Filled slots hole j q
    look q = Filled-cases slots hole j q size s.hole_in s.j_in

    id_of : (q : ℕ) (g : Ghost) → slot_at fresh q ≡ g → id_at fresh q ≡ g.id
    id_of q g eq = ap (λ (h : Ghost). h.id) eq

    stays_full : (q : ℕ) (g : Ghost) → slot_at fresh q ≡ g → g.id ≢ empty → id_at fresh q ≢ empty
    stays_full q g eq k = λ w. k (sym (id_of q g eq) ∙ w)

    j_apart : j ≢ e
    j_apart = λ w. full (ap (id_at slots) w ∙ s.e_empty)

    one_step : (p : ℕ) → p < n → j ≢ p → dist n j (step n j) ≤ dist n j p
    one_step p a o = omega (arith, dist_next n j e s.j_in s.e_in j_apart, dist_pos n j p s.j_in a o)

    moved_path :
        (p q : ℕ)
        → p < n
        → q < n
        → id_at fresh p ≢ empty
        → dist n (hm (id_at fresh p)) q < dist n (hm (id_at fresh p)) p
        → (id_at fresh q ≢ empty) ⊎ ((q ≡ j) × (dist n j (step n j) ≤ dist n j p))
    moved_path p q a b real m = elim (look p) [
      | at_cursor w g ↦ absurd (real (id_of p vacant g))
      | at_hole w o g ↦
          let h = hm (id_at slots j) in
          let id = id_of p (slot_at slots j) g in
          let at_h : dist n h q < dist n h p =
            subst (λ x. dist n (hm x) q < dist n (hm x) p) id m in
          let nearer : dist n h q < dist n h hole = subst (λ r. dist n h q < dist n h r) w at_h in
          let on = dist_on n h hole j (hm_in (id_at slots j)) s.hole_in s.j_in l in
          let inside : dist n h q < dist n h j = omega (arith, nearer, on) in
          elim (look q) [
            | at_cursor v k ↦ absurd (lt_irrefl_of n h q j v inside)
            | at_hole v u k ↦ absurd (lt_irrefl_of n h q hole v nearer)
            | aside u v k ↦ elim (s.path j q s.j_in b full inside) [
              | inl there ↦ inl (stays_full q (slot_at slots q) k there)
              | inr (eq, far) ↦ absurd (u eq)
            ]
          ]
      | aside o r g ↦
          let id = id_of p (slot_at slots p) g in
          let real_p : id_at slots p ≢ empty = λ w. real (id ∙ w) in
          let at_p : dist n (hm (id_at slots p)) q < dist n (hm (id_at slots p)) p =
            subst (λ x. dist n (hm x) q < dist n (hm x) p) id m in
          elim (look q) [
            | at_cursor v k ↦ inr (v, one_step p a (λ w. r (sym w)))
            | at_hole v u k ↦ inl (stays_full q (slot_at slots j) k full)
            | aside u v k ↦ elim (s.path p q a b real_p at_p) [
              | inl there ↦ inl (stays_full q (slot_at slots q) k there)
              | inr (eq, far) ↦ absurd (u eq)
            ]
          ]
    ]

    moved_uniq :
        (p q : ℕ) → p < n → q < n → id_at fresh p ≢ empty → id_at fresh p ≡ id_at fresh q → p ≡ q
    moved_uniq p q a b real eq = elim (look p) [
      | at_cursor w g ↦ absurd (real (id_of p vacant g))
      | at_hole w o g ↦
          let id = id_of p (slot_at slots j) g in
          elim (look q) [
            | at_cursor v k ↦ absurd (real (eq ∙ id_of q vacant k))
            | at_hole v u k ↦ w ∙ sym v
            | aside u v k ↦
                absurd
                  (v (sym (s.uniq j q s.j_in b full (sym id ∙ eq ∙ id_of q (slot_at slots q) k))))
          ]
      | aside o r g ↦
          let id = id_of p (slot_at slots p) g in
          let real_p : id_at slots p ≢ empty = λ w. real (id ∙ w) in
          elim (look q) [
            | at_cursor v k ↦ absurd (real (eq ∙ id_of q vacant k))
            | at_hole v u k ↦
                absurd (r (s.uniq p j a s.j_in real_p (sym id ∙ eq ∙ id_of q (slot_at slots j) k)))
            | aside u v k ↦ s.uniq p q a b real_p (sym id ∙ eq ∙ id_of q (slot_at slots q) k)
          ]
    ]

    -- The entry at the cursor fills the hole.
    pub Shifting-moved : Shifting n hm fresh j (step n j) e
    Shifting-moved = record {
      hole_in = s.j_in;
      j_in = step-lt n j s.j_in;
      e_in = s.e_in;
      hole_empty = elim (look j) [
        | at_cursor w g ↦ id_of j vacant g
        | at_hole w o g ↦ absurd (o refl)
        | aside o r g ↦ absurd (r refl)
      ];
      e_empty = elim (look e) [
        | at_cursor w g ↦ id_of e vacant g
        | at_hole w o g ↦ absurd (s.apart (sym w))
        | aside o r g ↦ id_of e (slot_at slots e) g ∙ s.e_empty
      ];
      apart = j_apart;
      started = omega (arith, dist_next n j e s.j_in s.e_in j_apart);
      ahead = one_step e s.e_in j_apart;
      path = moved_path;
      uniq = moved_uniq;
    }

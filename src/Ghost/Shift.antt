-- ===== src/Ghost/Shift.antt =====
-- ghost.rs: the backward shift fills a hole and leaves every entry within reach of its home.
use mathlib.Core.Path.{subst}
use umwelt_rs.Base.{ℕ, ◌≤◌, ◌<◌, ◌≡◌, sym, ap, ◌∙◌, arith, List, ◌≢◌, inl, inr, ◌⊎◌}
use umwelt_rs.Ghost.{Ghost, empty}
use umwelt_rs.Ghost.Ring.{dist, step, dist-step, dist_full, step-lt}
use umwelt_rs.Ghost.Probe.{id_at, Chained}

-- A path from `h` through `a` to `p` passes what stands between `a` and `p`.
dist_between :
    (n h a j p : ℕ)
    → h < n
    → a < n
    → j < n
    → p < n
    → dist n h a < dist n h p
    → dist n a j < dist n a p
    → dist n h j < dist n h p
dist_between n h a j p b c d e l m = grind arith

dist_behind :
    (n h a p : ℕ) → h < n → a < n → p < n → dist n h a < dist n h p → dist n a p ≤ dist n h p
dist_behind n h a p b c d l = grind arith

pub dist_on :
    (n h a p : ℕ) → h < n → a < n → p < n → dist n a p ≤ dist n h p → dist n h a ≤ dist n h p
dist_on n h a p b c d l = grind arith

pub dist_pos : (n a p : ℕ) → a < n → p < n → a ≢ p → 1 ≤ dist n a p
dist_pos n a p b c d = grind arith

pub dist_next : (n a e : ℕ) → a < n → e < n → a ≢ e → dist n a (step n a) ≡ 1
dist_next n a e b c d = grind arith

-- The slots while an entry may have to fill the hole: what has its path through the hole lies at
-- the cursor or behind it.
pub record Shifting (n : ℕ) (hm : ℕ → ℕ) (slots : List Ghost) (hole j e : ℕ) : Type 0 where
  pub hole_in : hole < n
  pub j_in : j < n
  pub e_in : e < n
  pub hole_empty : id_at slots hole ≡ empty
  pub e_empty : id_at slots e ≡ empty
  pub apart : hole ≢ e
  pub started : 1 ≤ dist n hole j
  pub ahead : dist n hole j ≤ dist n hole e
  pub path :
      (p q : ℕ)
      → p < n
      → q < n
      → id_at slots p ≢ empty
      → dist n (hm (id_at slots p)) q < dist n (hm (id_at slots p)) p
      → (id_at slots q ≢ empty) ⊎ ((q ≡ hole) × (dist n hole j ≤ dist n hole p))
  pub uniq :
      (p q : ℕ) → p < n → q < n → id_at slots p ≢ empty → id_at slots p ≡ id_at slots q → p ≡ q

not_started : (n a j : ℕ) → a < n → 1 ≤ dist n a j → j ≢ a
not_started n a j b h e = grind arith

-- The same distance is the same slot.
dist_lt :
    (n a j p : ℕ)
    → a < n
    → j < n
    → p < n
    → j ≢ p
    → dist n a j ≤ dist n a p
    → dist n a j < dist n a p
dist_lt n a j p b c d e h = grind arith

pub lt_irrefl_of : (n h q r : ℕ) → q ≡ r → dist n h q < dist n h r → ⊥
lt_irrefl_of n h q r e l = omega (arith, ap (dist n h) e)

module _ (n : ℕ) (hm : ℕ → ℕ) (hm_in : (x : ℕ) → hm x < n) where
  -- The cursor has come to an empty slot.
  pub Chained-done :
      (slots : List Ghost) (hole j e : ℕ)
      → Shifting n hm slots hole j e
      → id_at slots j ≡ empty
      → Chained n hm slots
  Chained-done slots hole j e s v = record {
    path = λ p q a b real l. elim (s.path p q a b real l) [
      | inl full ↦ full
      | inr (eq, far) ↦
          let h = hm (id_at slots p) in
          let through : dist n h hole < dist n h p = subst (λ r. dist n h r < dist n h p) eq l in
          let other : j ≢ p = λ w. real (ap (id_at slots) (sym w) ∙ v) in
          let on_path =
            dist_between n h hole j p (hm_in (id_at slots p)) s.hole_in s.j_in a through
              (dist_lt n hole j p s.hole_in s.j_in a other far) in
          elim (s.path p j a s.j_in real on_path) [
            | inl full ↦ absurd (full v)
            | inr (w, k) ↦ absurd (not_started n hole j s.hole_in s.started w)
          ]
    ];
    uniq = s.uniq;
  }

  -- The cursor is short of the empty slot ahead.
  pub short_of :
      (slots : List Ghost) (hole j e : ℕ)
      → Shifting n hm slots hole j e
      → id_at slots j ≢ empty
      → dist n hole j < dist n hole e
  short_of slots hole j e s full =
      dist_lt n hole j e s.hole_in s.j_in s.e_in (λ w. full (ap (id_at slots) w ∙ s.e_empty))
        s.ahead

  -- The entry at the cursor stays.
  pub Shifting-kept :
      (slots : List Ghost) (hole j e : ℕ)
      → Shifting n hm slots hole j e
      → id_at slots j ≢ empty
      → dist n (hm (id_at slots j)) j < dist n hole j
      → Shifting n hm slots hole (step n j) e
  Shifting-kept slots hole j e s full l =
      let short = short_of slots hole j e s full in
      let end = dist_full n hole e s.hole_in s.e_in in
      let on = dist-step n hole j s.hole_in s.j_in (omega (arith, short, end)) in
      record {
        hole_in = s.hole_in;
        j_in = step-lt n j s.j_in;
        e_in = s.e_in;
        hole_empty = s.hole_empty;
        e_empty = s.e_empty;
        apart = s.apart;
        started = omega (arith, on);
        ahead = omega (arith, on, short);
        path = λ p q a b real m. elim (s.path p q a b real m) [
          | inl there ↦ inl there
          | inr (eq, far) ↦
              let h = hm (id_at slots p) in
              let through : dist n h hole < dist n h p =
                subst (λ r. dist n h r < dist n h p) eq m in
              let other : j ≢ p = λ w.
                let behind = dist_behind n h hole p (hm_in (id_at slots p)) s.hole_in a through in
                let same : dist n (hm (id_at slots p)) p < dist n hole p =
                  subst (λ r. dist n (hm (id_at slots r)) r < dist n hole r) w l in
                omega (arith, behind, same) in
              inr (eq, omega (arith, on, dist_lt n hole j p s.hole_in s.j_in a other far))
        ];
        uniq = s.uniq;
      }

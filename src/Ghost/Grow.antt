-- ===== src/Ghost/Grow.antt =====
-- ghost.rs: a table laid out anew holds the same ghosts.
use mathlib.Core.Path.{subst}
use umwelt_rs.Base.{
  ℕ, suc, ◌+◌, ◌^◌, ◌<◌, ◌≡◌, refl, sym, ap, ◌∙◌, arith, false, ◌==◌, if◌then◌else◌, Option, none,
  some, List, [], ◌∷◌, length, ◌≢◌, inl, inr, ◌⊎◌,
}
use umwelt_rs.Base.Arrays.{set, length-set}
use umwelt_rs.Ghost.{Ghost, empty, home_in}
use umwelt_rs.Ghost.Ring.{dist, home_in-lt}
use umwelt_rs.Ghost.Probe.{id_at}
use umwelt_rs.Ghost.Removal.{home_of, same_or_not}
use mathlib.Core.Option
use umwelt_rs.Base.Result.{Result, ok, err}
use umwelt_rs.Ghost.Probe.{probe, hit, miss, nothing_passed}
use umwelt_rs.Ghost.Table.{ghost_of, ghost_of-none, ghost_of-hit, IsOrdered, home_in-home_of}
use umwelt_rs.Ghost.Insert.{
  put-IsOrdered, put_ghosts, occupied, occupied-set, vacancy, find_from-free_from,
}
use umwelt_rs.Ghost.{reinsert, reinsert_all}

-- What an insertion of a new id leaves.
pub record Inserted (g : Ghost) (slots s : List Ghost) : Type 0 where
  pub ordered : IsOrdered s
  pub size : length s ≡ length slots
  pub more : occupied s ≡ suc (occupied slots)
  pub ghosts : (x : ℕ) → x ≢ empty → ghost_of x s ≡ (if g.id == x then some g else ghost_of x slots)

-- Into a free slot within reach.
pub put-Inserted :
    (slots : List Ghost) (o : IsOrdered slots) (p : ℕ) (g : Ghost)
    → p < length slots
    → g.id ≢ empty
    → id_at slots p ≡ empty
    → ((q : ℕ)
        → q < 2 ^ o.bits
        → dist (2 ^ o.bits) (home_of (2 ^ o.bits) g.id) q
          < dist (2 ^ o.bits) (home_of (2 ^ o.bits) g.id) p
        → id_at slots q ≢ empty)
    → ((q : ℕ) → q < length slots → id_at slots q ≢ g.id)
    → Inserted g slots (set slots p g)
put-Inserted slots o p g l real v reached only = record {
  ordered = put-IsOrdered slots o p g l real reached (λ q m d. only q m);
  size = length-set slots p g;
  more = occupied-set slots p g l real ∙ ground arith;
  ghosts = λ x r. put_ghosts slots o p g l real reached (λ q m d. only q m) x r (inl v);
}

free_of : (o : Option ℕ) (p : ℕ) → Option.map {B = Result ℕ ℕ} ok o ≡ some (ok p) → o ≡ some p
free_of none p e = cc
free_of (some q) p e = cc

not_missed : (o : Option ℕ) (p : ℕ) → Option.map {B = Result ℕ ℕ} ok o ≡ some (err p) → ⊥
not_missed none p e = cc
not_missed (some q) p e = cc

reinsert-Inserted :
    (slots : List Ghost) (g : Ghost)
    → IsOrdered slots
    → occupied slots < length slots
    → g.id ≢ empty
    → ghost_of g.id slots ≡ none
    → (s : List Ghost) × (reinsert g slots ≡ some s) × Inserted g slots s
unfolding reinsert
reinsert-Inserted slots g o room real new =
    let k = o.bits in
    let (e, l, v) = vacancy slots room in
    let h = home_in slots g.id in
    let low : h < 2 ^ k = home_in-lt k slots g.id o.size o.small in
    let same_home : h ≡ home_of (2 ^ k) g.id = home_in-home_of slots (2 ^ k) g.id o.size in
    elim (probe (length slots) k slots empty h h e o.size low low (omega (arith, l, o.size)) v
      (λ q a d. absurd (nothing_passed (2 ^ k) h q d)) (omega (arith, o.size))) [
        | hit p a at_p before f ↦
            let free = free_of _ p (sym (find_from-free_from (length slots) slots h) ∙ f) in
            (
              set slots p g,
              rw (free, reinsert) refl,
              put-Inserted slots o p g (omega (arith, a, o.size)) real at_p
                  (λ q m d.
                    (before q m
                      (subst (λ r. dist (2 ^ k) r q < dist (2 ^ k) r p) (sym same_home) d)).0)
                  (λ q m w. ghost_of-hit g.id q slots m w new),
            )
        | miss p a at_p before f ↦
            absurd (not_missed _ p (sym (find_from-free_from (length slots) slots h) ∙ f))
      ]

-- No two slots of a list hold one id.
abbrev pub IsDistinct : List Ghost → Type 0
IsDistinct slots =
    (p q : ℕ)
    → p < length slots
    → q < length slots
    → id_at slots p ≢ empty
    → id_at slots p ≡ id_at slots q
    → p ≡ q

abbrev pub first_of : Option Ghost → Option Ghost → Option Ghost
first_of none o = o
first_of (some g) o = some g

-- What laying entries out anew leaves.
pub record Laid (old slots s : List Ghost) : Type 0 where
  pub ordered : IsOrdered s
  pub size : length s ≡ length slots
  pub more : occupied s ≡ occupied slots + occupied old
  pub ghosts : (x : ℕ) → x ≢ empty → ghost_of x s ≡ first_of (ghost_of x old) (ghost_of x slots)

IsDistinct-tail : (g : Ghost) (gs : List Ghost) → IsDistinct (g ∷ gs) → IsDistinct gs
IsDistinct-tail g gs d p q l m r e = suc_inj (d (suc p) (suc q) (omega arith) (omega arith) r e)
  where
    suc_inj : {a b : ℕ} → suc a ≡ suc b → a ≡ b
    suc_inj h = omega arith

IsDistinct-head :
    (g : Ghost) (gs : List Ghost) → IsDistinct (g ∷ gs) → g.id ≢ empty → ghost_of g.id gs ≡ none
IsDistinct-head g gs d r =
    ghost_of-none g.id gs (λ q l e. zero_suc q (d 0 (suc q) (omega arith) (omega arith) r (sym e)))
  where
    zero_suc : (q : ℕ) → 0 ≢ suc q
    zero_suc q h = omega arith

occupied_skip : (g : Ghost) (gs : List Ghost) → g.id ≡ empty → occupied (g ∷ gs) ≡ occupied gs
unfolding occupied
occupied_skip g gs e = ground arith

occupied_count :
    (g : Ghost) (gs : List Ghost) → g.id ≢ empty → occupied (g ∷ gs) ≡ suc (occupied gs)
unfolding occupied
occupied_count g gs e = ground arith

ghost_of-cons :
    (x : ℕ) (g : Ghost) (gs : List Ghost)
    → ghost_of x (g ∷ gs) ≡ (if g.id == x then some g else ghost_of x gs)
unfolding ghost_of
ghost_of-cons x g gs = refl

ghost_of-first : (x : ℕ) (g : Ghost) (gs : List Ghost) → g.id ≡ x → ghost_of x (g ∷ gs) ≡ some g
ghost_of-first x g gs e = ghost_of-cons x g gs ∙ ground arith

ghost_of-later :
    (x : ℕ) (g : Ghost) (gs : List Ghost) → g.id ≢ x → ghost_of x (g ∷ gs) ≡ ghost_of x gs
ghost_of-later x g gs e = ghost_of-cons x g gs ∙ ground arith

some-none : (g : Ghost) → ¬ (some g ≡ none)
some-none g e = cc

first_of-none : (o : Option Ghost) → first_of none o ≡ o
first_of-none o = refl

Laid-nil : (slots : List Ghost) → IsOrdered slots → Laid [] slots slots
unfolding ghost_of occupied
Laid-nil slots o = record { ordered = o; size = refl; more = omega arith; ghosts = λ x r. refl }

Laid-skip :
    (g : Ghost) (gs slots s : List Ghost) → g.id ≡ empty → Laid gs slots s → Laid (g ∷ gs) slots s
Laid-skip g gs slots s w h = record {
  ordered = h.ordered;
  size = h.size;
  more = omega (arith, h.more, occupied_skip g gs w);
  ghosts = λ x r.
      h.ghosts x r
      ∙ ap (λ o. first_of o (ghost_of x slots)) (sym (ghost_of-later x g gs (λ e. r (sym e ∙ w))));
}

Laid-put :
    (g : Ghost) (gs slots t s : List Ghost)
    → g.id ≢ empty
    → ghost_of g.id gs ≡ none
    → Inserted g slots t
    → Laid gs t s
    → Laid (g ∷ gs) slots s
Laid-put g gs slots t s w alone i h = record {
  ordered = h.ordered;
  size = h.size ∙ i.size;
  more = omega (arith, h.more, i.more, occupied_count g gs w);
  ghosts = λ x r. elim (same_or_not g.id x) [
    | inl e ↦
        let gone : ghost_of x gs ≡ none = ap (λ (y : ℕ). ghost_of y gs) (sym e) ∙ alone in
        let there : ghost_of x t ≡ some g = i.ghosts x r ∙ ground arith in
        h.ghosts x r ∙ rw (gone, there, ghost_of-first x g gs e) refl
    | inr e ↦
        let there : ghost_of x t ≡ ghost_of x slots = i.ghosts x r ∙ ground arith in
        h.ghosts x r ∙ rw (there, ghost_of-later x g gs e) refl
  ];
}

pub reinsert_all-Laid :
    (old slots : List Ghost)
    → IsOrdered slots
    → IsDistinct old
    → ((x : ℕ) → x ≢ empty → (ghost_of x old ≡ none) ⊎ (ghost_of x slots ≡ none))
    → occupied slots + occupied old < length slots
    → (s : List Ghost) × (reinsert_all old slots ≡ some s) × Laid old slots s
unfolding reinsert_all
reinsert_all-Laid [] slots o d apart room = (slots, refl, Laid-nil slots o)
reinsert_all-Laid (g ∷ gs) slots o d apart room = elim (same_or_not g.id empty) [
  | inl w ↦
      let (s, e, h) =
        reinsert_all-Laid gs slots o (IsDistinct-tail g gs d)
          (λ x r. elim (apart x r) [
            | inl a ↦ inl (sym (ghost_of-later x g gs (λ z. r (sym z ∙ w))) ∙ a)
            | inr a ↦ inr a
          ])
          (omega (arith, room, occupied_skip g gs w)) in
      (s, ground (arith, e), Laid-skip g gs slots s w h)
  | inr w ↦
      let new : ghost_of g.id slots ≡ none = elim (apart g.id w) [
        | inl a ↦ absurd (some-none g (sym (ghost_of-first g.id g gs refl) ∙ a))
        | inr a ↦ a
      ] in
      let alone = IsDistinct-head g gs d w in
      let (t, f, i) = reinsert-Inserted slots g o (omega (arith, room)) w new in
      let (s, e, h) =
        reinsert_all-Laid gs t i.ordered (IsDistinct-tail g gs d)
          (λ x r. elim (same_or_not g.id x) [
            | inl z ↦ inl (ap (λ (y : ℕ). ghost_of y gs) (sym z) ∙ alone)
            | inr z ↦ elim (apart x r) [
              | inl a ↦ inl (sym (ghost_of-later x g gs z) ∙ a)
              | inr a ↦ inr (i.ghosts x r ∙ ground arith)
            ]
          ])
          (omega (arith, room, i.more, i.size, occupied_count g gs w)) in
      let test : (g.id == empty) ≡ false = ground arith in
      (s, rw (test, f) e, Laid-put g gs slots t s w alone i h)
]

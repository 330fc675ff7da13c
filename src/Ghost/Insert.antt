-- ===== src/Ghost/Insert.antt =====
-- ghost.rs: an entry put into a free slot, as the map sees it.
use mathlib.Core.Path.{subst}
use umwelt_rs.Base.{
  ℕ, zero, suc, ◌^◌, ◌<◌, ◌≡◌, refl, sym, ap, ◌∙◌, arith, ◌==◌, if◌then◌else◌, some, List, [], ◌∷◌,
  length, ◌≢◌, Bool-cases, inl, inr, ◌⊎◌, Option-cases, ==_iff,
}
use umwelt_rs.Base.Arrays.{set, length-set, get_or-set}
use umwelt_rs.Ghost.{Ghost, vacant, empty, slot_at, after}
use umwelt_rs.Ghost.Ring.{dist}
use umwelt_rs.Ghost.Probe.{id_at}
use umwelt_rs.Ghost.Removal.{home_of, same_or_not}
use mathlib.Core.Option
use umwelt_rs.Base.Result.{ok}
use umwelt_rs.Ghost.{free_from, find_from}
use umwelt_rs.Ghost.Table.{
  ghost_of, ghost_of-none, ghost_of-some, ghost_of-hit, IsOrdered, ghost_of-at,
}

module _ (slots : List Ghost) (o : IsOrdered slots) (p : ℕ) (g : Ghost) (p_in : p < length slots)
    (real : g.id ≢ empty) where
  abbrev n : ℕ
  n = 2 ^ o.bits

  abbrev pub put : List Ghost
  put = set slots p g

  put_at : (q : ℕ) → slot_at put q ≡ (if p == q then g else slot_at slots q)
  put_at q = get_or-set slots p q g vacant p_in

  -- What a slot holds then.
  put_cases :
      (q : ℕ) → ((q ≡ p) × (slot_at put q ≡ g)) ⊎ ((q ≢ p) × (slot_at put q ≡ slot_at slots q))
  put_cases q = elim (Bool-cases (p == q)) [
    | inl t ↦ inl (ground arith, put_at q ∙ rw t)
    | inr t ↦ inr (ground arith, put_at q ∙ rw t)
  ]

  id_put : (q : ℕ) (h : Ghost) → slot_at put q ≡ h → id_at put q ≡ h.id
  id_put q h e = ap (λ (k : Ghost). k.id) e

  -- An entry stays an entry.
  put_full : (q : ℕ) → id_at slots q ≢ empty → id_at put q ≢ empty
  put_full q full = elim (put_cases q) [
    | inl (w, e) ↦ λ z. real (sym (id_put q g e) ∙ z)
    | inr (w, e) ↦ λ z. full (sym (id_put q (slot_at slots q) e) ∙ z)
  ]

  module _
      (reached : (q : ℕ)
        → q < n
        → dist n (home_of n g.id) q < dist n (home_of n g.id) p
        → id_at slots q ≢ empty)
      (only : (q : ℕ) → q < length slots → q ≢ p → id_at slots q ≢ g.id) where
    put_path :
        (a b : ℕ)
        → a < n
        → b < n
        → id_at put a ≢ empty
        → dist n (home_of n (id_at put a)) b < dist n (home_of n (id_at put a)) a
        → id_at put b ≢ empty
    put_path a b c d full l = elim (put_cases a) [
      | inl (w, e) ↦ put_full b (
          reached b d (
            subst (λ r. dist n (home_of n g.id) b < dist n (home_of n g.id) r) w
              (subst (λ x. dist n (home_of n x) b < dist n (home_of n x) a) (id_put a g e) l)))
      | inr (w, e) ↦
          let id = id_put a (slot_at slots a) e in
          put_full b (
            o.chained.path a b c d (λ z. full (id ∙ z))
              (subst (λ x. dist n (home_of n x) b < dist n (home_of n x) a) id l))
    ]

    put_uniq : (a b : ℕ) → a < n → b < n → id_at put a ≢ empty → id_at put a ≡ id_at put b → a ≡ b
    put_uniq a b c d full same = elim (put_cases a) [
      | inl (w, e) ↦ elim (put_cases b) [
        | inl (v, f) ↦ w ∙ sym v
        | inr (v, f) ↦ absurd (
            only b (omega (arith, o.size)) v
              (sym (id_put b (slot_at slots b) f) ∙ sym same ∙ id_put a g e))
      ]
      | inr (w, e) ↦
          let id = id_put a (slot_at slots a) e in
          elim (put_cases b) [
            | inl (v, f) ↦ absurd (only a (omega (arith, o.size)) w (sym id ∙ same ∙ id_put b g f))
            | inr (v, f) ↦
                o.chained.uniq a b c d (λ z. full (id ∙ z))
                  (sym id ∙ same ∙ id_put b (slot_at slots b) f)
          ]
    ]

    pub put-IsOrdered : IsOrdered put
    put-IsOrdered = record {
      bits = o.bits;
      size = length-set slots p g ∙ o.size;
      small = o.small;
      chained = record { path = put_path; uniq = put_uniq };
    }

    put_here : slot_at put p ≡ g
    put_here = put_at p ∙ rw ((==_iff p p).1 refl)

    gains : (x : ℕ) → x ≢ empty → g.id ≡ x → ghost_of x put ≡ some g
    gains x other w =
        ghost_of-at put put-IsOrdered x p (omega (arith, length-set slots p g))
          (id_put p g put_here ∙ w) other
        ∙ ap some put_here

    keeps :
        (x : ℕ)
        → x ≢ empty
        → ((id_at slots p ≡ empty) ⊎ (id_at slots p ≡ g.id))
        → g.id ≢ x
        → ghost_of x put ≡ ghost_of x slots
    keeps x other before w = elim (Option-cases (ghost_of x slots)) [
      | inl z ↦
          ghost_of-none x put (λ q l at_q. elim (put_cases q) [
            | inl (v, e) ↦ w (sym (id_put q g e) ∙ at_q)
            | inr (v, e) ↦
                ghost_of-hit x q slots (omega (arith, length-set slots p g))
                  (sym (id_put q (slot_at slots q) e) ∙ at_q) z
          ])
          ∙ sym z
      | inr (h, z) ↦
          let (q, l, at_q, id) = ghost_of-some x slots h z in
          let id_q : id_at slots q ≡ x = ap (λ (k : Ghost). k.id) at_q ∙ id in
          let apart : q ≢ p = λ v. elim before [
            | inl b ↦ other (sym id_q ∙ ap (id_at slots) v ∙ b)
            | inr b ↦ w (sym b ∙ ap (id_at slots) (sym v) ∙ id_q)
          ] in
          elim (put_cases q) [
            | inl (v, e) ↦ absurd (apart v)
            | inr (v, e) ↦
                ghost_of-at put put-IsOrdered x q (omega (arith, length-set slots p g))
                  (id_put q (slot_at slots q) e ∙ id_q) other
                ∙ ap some (e ∙ at_q)
                ∙ sym z
          ]
    ]

    -- The map gains the entry, in place of what it said of the id.
    pub put_ghosts :
        (x : ℕ)
        → x ≢ empty
        → ((id_at slots p ≡ empty) ⊎ (id_at slots p ≡ g.id))
        → ghost_of x put ≡ (if g.id == x then some g else ghost_of x slots)
    put_ghosts x other before = elim (same_or_not g.id x) [
      | inl w ↦ gains x other w ∙ ground arith
      | inr w ↦ keeps x other before w ∙ ground arith
    ]

-- The ghosts that a list of slots holds.
unfoldable pub occupied : List Ghost → ℕ
occupied [] = 0
occupied (g ∷ gs) = let rest = occupied gs in if g.id == empty then rest else suc rest

pub occupied-set :
    (slots : List Ghost) (p : ℕ) (g : Ghost)
    → p < length slots
    → g.id ≢ empty
    → occupied (set slots p g)
      ≡ (if id_at slots p == empty then suc (occupied slots) else occupied slots)
unfolding occupied
occupied-set [] p g l r = absurd (omega arith)
occupied-set (h ∷ hs) zero g l r = ground arith
occupied-set (h ∷ hs) (suc p) g l r = ground (arith, occupied-set hs p g)

fewer :
    (gs : List Ghost) (g : Ghost)
    → occupied (g ∷ gs) < suc (length gs)
    → g.id ≢ empty
    → occupied gs < length gs
unfolding occupied
fewer gs g h w = ground arith

-- Fewer ghosts than slots leave one empty.
pub vacancy :
    (slots : List Ghost)
    → occupied slots < length slots
    → (e : ℕ) × (e < length slots) × (id_at slots e ≡ empty)
unfolding occupied
vacancy [] h = absurd (omega arith)
vacancy (g ∷ gs) h = elim (same_or_not g.id empty) [
  | inl w ↦ (0, omega arith, w)
  | inr w ↦ let (e, l, v) = vacancy gs (fewer gs g h w) in (suc e, omega arith, v)
]

pub find_from-free_from :
    (fuel : ℕ) (slots : List Ghost) (i : ℕ)
    → find_from fuel slots empty i ≡ Option.map ok (free_from fuel slots i)
unfolding find_from free_from
find_from-free_from zero slots i = refl
find_from-free_from (suc fuel) slots i =
    ground (arith, find_from-free_from fuel slots (after slots i))

-- ===== src/Ghost/Table.antt =====
-- ghost.rs: the table as a map from ids to ghosts.
use mathlib.Core.Path.{subst}
use umwelt_rs.Base.{
  ℕ, zero, suc, ◌^◌, ◌<◌, ◌≡◌, refl, sym, ap, ◌∙◌, arith, false, ◌==◌, if◌then◌else◌, Option, none,
  some, List, [], ◌∷◌, length, ◌≢◌, Bool-cases, inl, inr, Option-cases, some_inj,
}
use umwelt_rs.Ghost.{Ghost, empty, slot_at, home_in}
use umwelt_rs.Base.Bits.{trailing_zeros}
use umwelt_rs.Ghost.{home}
use umwelt_rs.Ghost.Probe.{id_at, Chained}
use umwelt_rs.Ghost.{GhostTable, Held, held}
use umwelt_rs.Ghost.Probe.{Located, found, absent, find-Located}
use umwelt_rs.Ghost.Removal.{home_of}
use mathlib.Core.Option

-- The ghost of an id, if a slot holds it.
unfoldable pub ghost_of : ℕ → List Ghost → Option Ghost
ghost_of x [] = none
ghost_of x (g ∷ gs) = let rest = ghost_of x gs in if g.id == x then some g else rest

pub ghost_of-none :
    (x : ℕ) (slots : List Ghost)
    → ((q : ℕ) → q < length slots → id_at slots q ≢ x)
    → ghost_of x slots ≡ none
unfolding ghost_of
ghost_of-none x [] h = refl
ghost_of-none x (g ∷ gs) h =
    let rest = ghost_of-none x gs (λ q l. h (suc q) (omega arith)) in
    let first = h 0 (omega arith) in ground arith

-- A slot that holds a ghost of an id.
pub ghost_of-some :
    (x : ℕ) (slots : List Ghost) (g : Ghost)
    → ghost_of x slots ≡ some g
    → (p : ℕ) × (p < length slots) × (slot_at slots p ≡ g) × (g.id ≡ x)
unfolding ghost_of
ghost_of-some x [] g e = cc
ghost_of-some x (h ∷ gs) g e = elim (Bool-cases (h.id == x)) [
  | inl t ↦
      let same : h ≡ g = some_inj (rw t at e) in
      (0, omega arith, same, ap (λ (k : Ghost). k.id) (sym same) ∙ ground arith)
  | inr t ↦
      let (p, l, at_p, id) = ghost_of-some x gs g (rw t at e) in (suc p, omega arith, at_p, id)
]

pub ghost_of-hit :
    (x p : ℕ) (slots : List Ghost) → p < length slots → id_at slots p ≡ x → ghost_of x slots ≢ none
unfolding ghost_of
ghost_of-hit x p [] l e = absurd (omega arith)
ghost_of-hit x zero (g ∷ gs) l e = ground arith
ghost_of-hit x (suc p) (g ∷ gs) l e =
    let later = ghost_of-hit x p gs (omega arith) e in ground arith

-- The slots of a table in order: a power of two of them, every entry within reach of its home.
pub record IsOrdered (slots : List Ghost) : Type 0 where
  pub bits : ℕ
  pub size : length slots ≡ 2 ^ bits
  pub small : bits < 32
  pub chained : Chained (2 ^ bits) (home_of (2 ^ bits)) slots

pub home_in-home_of :
    (slots : List Ghost) (n x : ℕ) → length slots ≡ n → home_in slots x ≡ home_of n x
unfolding home_in
home_in-home_of slots n x e = ap (λ (m : ℕ). home x (trailing_zeros m)) e

module _ (slots : List Ghost) (o : IsOrdered slots) where
  pub ghost_of-at :
      (x p : ℕ)
      → p < length slots
      → id_at slots p ≡ x
      → x ≢ empty
      → ghost_of x slots ≡ some (slot_at slots p)
  ghost_of-at x p l id real = elim (Option-cases (ghost_of x slots)) [
    | inl w ↦ absurd (ghost_of-hit x p slots l id w)
    | inr (g, e) ↦
        let (q, m, at_q, id_g) = ghost_of-some x slots g e in
        let same : p ≡ q =
          o.chained.uniq p q (omega (arith, o.size)) (omega (arith, o.size))
            (λ w. real (sym id ∙ w)) (id ∙ sym id_g ∙ ap (λ (k : Ghost). k.id) (sym at_q)) in
        e ∙ ap some (sym at_q ∙ ap (slot_at slots) (sym same))
  ]

  pub Chained-here : Chained (length slots) (home_in slots) slots
  unfolding home_in
  Chained-here = subst (λ n. Chained n (home_of n) slots) (sym o.size) o.chained

  pub located : (x e : ℕ) → e < length slots → id_at slots e ≡ empty → x ≢ empty → Located slots x
  located x e l v real =
      find-Located slots x e (record { bits = o.bits; size = o.size; small = o.small }) Chained-here
        l v real

abbrev pub held_of : Ghost → Held
held_of g = record { mark = g.mark; last_sent = g.last_sent }

nonempty : (n p : ℕ) → p < n → (n == 0) ≡ false
nonempty n p l = ground arith

-- In a table in order with an empty slot, the probe for what the client holds of an entity ends
-- within as many rounds as there are slots, and answers what the slots say of it.
pub held_lem :
    (x e : ℕ) (t : GhostTable)
    → IsOrdered t.slots
    → e < length t.slots
    → id_at t.slots e ≡ empty
    → x ≢ empty
    → held x t ≡ some (Option.map held_of (ghost_of x t.slots))
unfolding held
held_lem x e t o l v real = elim (located t.slots o x e l v real) [
  | found p a id f ↦
      rw (nonempty (length t.slots) p a, f, ghost_of-at t.slots o x p a id real, held) refl
  | absent p a id before none_at f ↦
      rw (nonempty (length t.slots) p a, f, ghost_of-none x t.slots none_at, held) refl
]

-- ===== src/Entity/Live/Iter.antt =====
-- entity.rs: the iterator yields the ids in ascending order.
use umwelt_rs.Base.{
  ℕ, zero, suc, ◌+◌, ◌*◌, ◌/◌, ◌^◌, ◌≤◌, ◌<◌, ◌≡◌, refl, sym, ap, ◌∙◌, arith, false, ◌==◌, Option,
  none, some, List, [], ◌∷◌, ◌++◌, length, length-append, Bool-cases, ==_iff, inl, inr,
}
use umwelt_rs.Base.Bits.{zeros_below}
use umwelt_rs.Base.Words.{ones, ones_lowest, clear_bit, clear_bit-le}
use umwelt_rs.Entity.Live.{
  LiveIter, LiveSet, word_at, iter, next_from, next, visited, ids, first_of,
}
use umwelt_rs.Entity.Live.Words.{listed, ones_zero}

abbrev left_of : LiveIter → List ℕ
left_of it = ones 64 (it.at * 64) it.current ++ listed (it.at + 1) it.later

-- The words of an iterator are `u64`.
pub record IsWide (it : LiveIter) : Type 0 where
  pub current : it.current < 2 ^ 64
  pub later : (i : ℕ) → word_at it.later i < 2 ^ 64

-- What a call of `next` does.
data Turn (it : LiveIter) (o : Option (ℕ × LiveIter)) : Type 0 where
  over : left_of it ≡ [] → o ≡ none → Turn it o
  yields :
      (id : ℕ) (rest : LiveIter)
      → left_of it ≡ id ∷ left_of rest
      → IsWide rest
      → o ≡ some (id, rest)
      → Turn it o

abbrev dropped : ℕ → ℕ → List ℕ → LiveIter
dropped at current later = record {
  at = at;
  current = clear_bit current (zeros_below 64 current);
  later = later;
}

lowest-Turn :
    (at current : ℕ) (later : List ℕ)
    → (current == 0) ≡ false
    → IsWide (record { at = at; current = current; later = later })
    → Turn
        (record { at = at; current = current; later = later })
        (some (at * 64 + zeros_below 64 current, dropped at current later))
lowest-Turn at current later e w =
    yields (at * 64 + zeros_below 64 current) (dropped at current later)
      (ap (λ (l : List ℕ). l ++ listed (at + 1) later)
        (ones_lowest 64 (at * 64) current (ground arith) w.current))
      (record {
        current = omega (arith, w.current, clear_bit-le current (zeros_below 64 current));
        later = w.later;
      })
      refl

next_from-Turn :
    (at current : ℕ) (later : List ℕ)
    → IsWide (record { at = at; current = current; later = later })
    → Turn (record { at = at; current = current; later = later }) (next_from at current later)
unfolding next_from listed
next_from-Turn at current [] w = elim (Bool-cases (current == 0)) [
  | inl t ↦ over (rw ((==_iff current 0).0 t, ones_zero 64 (at * 64)) refl) (rw t refl)
  | inr t ↦ rw t (lowest-Turn at current [] t w)
]
next_from-Turn at current (x ∷ xs) w = elim (Bool-cases (current == 0)) [
  | inl t ↦
      let none_here : left_of (record { at = at; current = current; later = x ∷ xs })
          ≡ left_of (record { at = at + 1; current = x; later = xs }) =
        rw ((==_iff current 0).0 t, ones_zero 64 (at * 64)) refl in
      elim (next_from-Turn (at + 1) x xs
        (record { current = w.later 0; later = λ i. w.later (suc i) })) [
          | over e o ↦ over (none_here ∙ e) (rw t o)
          | yields id rest e v o ↦ yields id rest (none_here ∙ e) v (rw t o)
        ]
  | inr t ↦ rw t (lowest-Turn at current (x ∷ xs) t w)
]

no_length : (xs : List ℕ) → length xs ≤ 0 → [] ≡ xs
no_length [] h = refl
no_length (x ∷ xs) h = absurd (omega arith)

-- With enough rounds the loop visits what is left, in its order.
pub visited_lem :
    (fuel : ℕ) (it : LiveIter)
    → IsWide it
    → length (left_of it) ≤ fuel
    → visited fuel it ≡ left_of it
unfolding visited next
visited_lem zero it w h = no_length (left_of it) h
visited_lem (suc fuel) it w h = elim (next_from-Turn it.at it.current it.later w) [
  | over e o ↦ rw (o, visited) (sym e)
  | yields id rest e v o ↦
      let fits : length (left_of rest) ≤ fuel = omega (arith, h, ap (λ (l : List ℕ). length l) e) in
      rw (o, visited) (ap (λ (l : List ℕ). id ∷ l) (visited_lem fuel rest v fits) ∙ sym e)
]

length-ones : (f base n : ℕ) → length (ones f base n) ≤ f
unfolding ones
length-ones zero base n = omega arith
length-ones (suc f) base n = ground (arith, length-ones f (base + 1) (n / 2))

length-listed : (k : ℕ) (ws : List ℕ) → length (listed k ws) ≤ 64 * length ws
unfolding listed
length-listed k [] = omega arith
length-listed k (w ∷ ws) = omega (
  arith,
  length-append (ones 64 (k * 64) w) (listed (k + 1) ws),
  length-ones 64 (k * 64) w,
  length-listed (k + 1) ws,
)

iter-listed : (words : List ℕ) → left_of (first_of words) ≡ listed 0 words
unfolding listed
iter-listed [] = ap (λ (l : List ℕ). l ++ []) (ones_zero 64 0)
iter-listed (w ∷ ws) = refl

first_of-IsWide : (words : List ℕ) → ((i : ℕ) → word_at words i < 2 ^ 64) → IsWide (first_of words)
first_of-IsWide [] h = record { current = omega arith; later = λ i. h i }
first_of-IsWide (w ∷ ws) h = record { current = h 0; later = λ i. h (suc i) }

-- The loop over the ids visits all that the words stand for.
pub ids_lem : (t : LiveSet) → ((i : ℕ) → word_at t.words i < 2 ^ 64) → ids t ≡ listed 0 t.words
unfolding ids iter
ids_lem t wide =
    visited_lem (64 * length t.words) (first_of t.words) (first_of-IsWide t.words wide)
      (omega (arith, ap (λ (l : List ℕ). length l) (iter-listed t.words), length-listed 0 t.words))
    ∙ iter-listed t.words

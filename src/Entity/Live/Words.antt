-- ===== src/Entity/Live/Words.antt =====
-- entity.rs: the ids that the words of a live set stand for.
use umwelt_rs.Base.{
  ℕ, zero, suc, ◌+◌, ◌-◌, ◌*◌, ◌/◌, ◌%◌, ◌<◌, ◌≡◌, refl, sym, ap, ◌∙◌, arith, true, false,
  if◌then◌else◌, List, [], ◌∷◌, ◌++◌, length, length-append,
}
use native.Mathlib.Decide.{dec_lt}
use umwelt_rs.Base.Arrays.{set, replicate}
use umwelt_rs.Base.Sets.{member, member-append}
use umwelt_rs.Base.Words.{
  test_bit, set_bit, clear_bit, ones, member-ones, member-ones_below, length-ones-set_bit,
  length-ones-clear_bit,
}
use umwelt_rs.Entity.Live.{word_at}

-- Of the words from the `k`-th on.
unfoldable pub listed : ℕ → List ℕ → List ℕ
listed k [] = []
listed k (w ∷ ws) = ones 64 (k * 64) w ++ listed (k + 1) ws

pub test_bit-zero : (b : ℕ) → test_bit 0 b ≡ false
unfolding test_bit
test_bit-zero zero = refl
test_bit-zero (suc b) = test_bit-zero b

pub member-listed_below : (k x : ℕ) (ws : List ℕ) → x < k * 64 → member x (listed k ws) ≡ false
unfolding listed member
member-listed_below k x [] h = refl
member-listed_below k x (w ∷ ws) h = rw (member-append x (ones 64 (k * 64) w) (listed (k + 1) ws)) (
    ground
      (arith, member-ones_below 64 (k * 64) w x h, member-listed_below (k + 1) x ws (omega arith)))

pub member-listed :
    (k d : ℕ) (ws : List ℕ)
    → member (k * 64 + d) (listed k ws) ≡ test_bit (word_at ws (d / 64)) (d % 64)
unfolding listed member
member-listed k d [] = sym (test_bit-zero (d % 64))
member-listed k d (w ∷ ws) =
    member-append (k * 64 + d) (ones 64 (k * 64) w) (listed (k + 1) ws) ∙ elim (dec_lt d 64) [
      | yes h ↦
          let here : d / 64 ≡ 0 = omega arith in
          let low : d % 64 ≡ d = omega arith in
          rw (here, low)
            (ground (
              arith,
              member-ones 64 (k * 64) w d,
              member-listed_below (k + 1) (k * 64 + d) ws (omega arith),
            ))
      | no h ↦
          let above : d / 64 ≡ suc ((d - 64) / 64) = omega arith in
          let same : d % 64 ≡ (d - 64) % 64 = omega arith in
          let there : (k + 1) * 64 + (d - 64) ≡ k * 64 + d = omega arith in
          rw (above, same)
            (ground
              (arith, member-ones 64 (k * 64) w d, rw there at (member-listed (k + 1) (d - 64) ws)))
    ]

-- How many ids one word adds, when its bit is set or cleared.
pub length-listed-set_bit :
    (k i b : ℕ) (ws : List ℕ)
    → i < length ws
    → b < 64
    → length (listed k (set ws i (set_bit (word_at ws i) b)))
      ≡ (if test_bit (word_at ws i) b then length (listed k ws) else suc (length (listed k ws)))
unfolding listed
length-listed-set_bit k i b [] h l = absurd (omega arith)
length-listed-set_bit k zero b (w ∷ ws) h l =
    rw (length-append, length-ones-set_bit 64 (k * 64) w b l, length-append) (ground arith)
length-listed-set_bit k (suc i) b (w ∷ ws) h l =
    rw (length-append, length-listed-set_bit (k + 1) i b ws (omega arith) l, length-append)
      (ground arith)

length-ones_pos : (x : ℕ) (xs : List ℕ) → member x xs ≡ true → 0 < length xs
unfolding member
length-ones_pos x [] h = cc
length-ones_pos x (y ∷ xs) h = omega arith

pub length-listed-clear_bit :
    (k i b : ℕ) (ws : List ℕ)
    → i < length ws
    → b < 64
    → test_bit (word_at ws i) b ≡ true
    → suc (length (listed k (set ws i (clear_bit (word_at ws i) b)))) ≡ length (listed k ws)
unfolding listed
length-listed-clear_bit k i b [] h l t = absurd (omega arith)
length-listed-clear_bit k zero b (w ∷ ws) h l t =
    let some_id =
      length-ones_pos (k * 64 + b) (ones 64 (k * 64) w)
        (member-ones 64 (k * 64) w b ∙ ground arith) in
    rw (length-append, length-ones-clear_bit 64 (k * 64) w b l, length-append) (ground arith)
length-listed-clear_bit k (suc i) b (w ∷ ws) h l t =
    let ih = length-listed-clear_bit (k + 1) i b ws (omega arith) l t in
    rw (length-append, length-append) (omega (arith, ih))

pub ones_zero : (f base : ℕ) → ones f base 0 ≡ []
unfolding ones
ones_zero zero base = refl
ones_zero (suc f) base = ones_zero f (base + 1)

-- Words of dead ids add none.
pub listed-filled : (k n : ℕ) (ws : List ℕ) → listed k (ws ++ replicate n 0) ≡ listed k ws
unfolding listed
listed-filled k zero [] = refl
listed-filled k (suc n) [] = rw (ones_zero 64 (k * 64)) (listed-filled (k + 1) n [])
listed-filled k n (w ∷ ws) =
    ap (λ (l : List ℕ). ones 64 (k * 64) w ++ l) (listed-filled (k + 1) n ws)

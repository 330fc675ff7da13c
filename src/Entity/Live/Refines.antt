-- ===== src/Entity/Live/Refines.antt =====
-- entity.rs: a live set against the set of ids that it stands for.
use umwelt_rs.Base.{
  ℕ, ◌+◌, ◌-◌, ◌*◌, ◌/◌, ◌%◌, ◌^◌, ◌≤◌, ◌<◌, ◌≡◌, refl, sym, ap, ◌∙◌, arith, Bool, true, false, leb,
  ltb, ◌==◌, ◌&&◌, ◌||◌, not, if◌then◌else◌, List, length, length-append, append-nil, Bool-cases,
  ==_iff, inl, inr,
}
use umwelt_rs.Base.Arrays.{
  set, resize, replicate, get_or-set, length-set, length-replicate, get_or-filled,
}
use umwelt_rs.Base.Bits.{div_ceil, div_ceil_lem}
use umwelt_rs.Base.Sets.{member}
use umwelt_rs.Base.Words.{
  test_bit, set_bit, clear_bit, test_bit-set_bit, test_bit-clear_bit, set_bit-lt, clear_bit-le,
}
use umwelt_rs.Entity.Live.{live_new, LiveSet, word_at, contains, cover, insert, remove, ids}
use umwelt_rs.Entity.Live.Words.{
  test_bit-zero, listed, member-listed, length-listed-set_bit, length-listed-clear_bit,
  listed-filled,
}
use umwelt_rs.Entity.Live.Iter.{ids_lem}

-- The bit of an id.
abbrev pub bit_at : List ℕ → ℕ → Bool
bit_at words i = test_bit (word_at words (i / 64)) (i % 64)

-- Words of 64 bits for every id allocated, no bit past them, and the bits counted.
pub record IsLive (t : LiveSet) : Type 0 where
  pub wide : (i : ℕ) → word_at t.words i < 2 ^ 64
  pub room : t.slots ≤ 64 * length t.words
  pub within : (i : ℕ) → t.slots ≤ i → bit_at t.words i ≡ false
  pub count : t.live ≡ length (listed 0 t.words)

-- The loop over the ids visits those whose bits are set.
pub member-ids : (i : ℕ) (t : LiveSet) → IsLive t → member i (ids t) ≡ bit_at t.words i
member-ids i t h =
    let here : i ≡ 0 * 64 + i = omega arith in
    ap (member i) (ids_lem t h.wide)
    ∙ ap (λ (n : ℕ). member n (listed 0 t.words)) here
    ∙ member-listed 0 i t.words

pub contains-member : (i : ℕ) (t : LiveSet) → IsLive t → contains i t ≡ member i (ids t)
unfolding contains
contains-member i t h = elim (Bool-cases (leb t.slots i)) [
  | inl out ↦ rw out (sym (h.within i (grind arith)) ∙ sym (member-ids i t h))
  | inr in_it ↦ rw in_it (sym (member-ids i t h))
]

-- What `cover` makes room for.
pub record Covered (i : ℕ) (t u : LiveSet) : Type 0 where
  pub is_live : IsLive u
  pub inside : i < u.slots
  pub same : listed 0 u.words ≡ listed 0 t.words
  pub bits : (j : ℕ) → bit_at u.words j ≡ bit_at t.words j

grown :
    (words : List ℕ) (needed : ℕ)
    → (if ltb (length words) needed then resize words needed 0 else words) ≡ resize words needed 0
grown words needed = elim (Bool-cases (ltb (length words) needed)) [
  | inl short ↦ rw short refl
  | inr enough ↦
      let none : needed - length words ≡ 0 = grind arith in
      rw (enough, none) (sym (append-nil words))
]

resized-Covered :
    (i needed : ℕ) (t : LiveSet)
    → IsLive t
    → t.slots ≤ i
    → i + 1 ≤ needed * 64
    → Covered i t (record { words = resize t.words needed 0; slots = i + 1; live = t.live })
resized-Covered i needed t h out enough =
    let more = needed - length t.words in
    let filled : (j : ℕ) → word_at (resize t.words needed 0) j ≡ word_at t.words j =
      λ j. get_or-filled t.words more j 0 in
    let same = listed-filled 0 more t.words in
    let bits : (j : ℕ) → bit_at (resize t.words needed 0) j ≡ bit_at t.words j =
      λ j. ap (λ (w : ℕ). test_bit w (j % 64)) (filled (j / 64)) in
    record {
      is_live = record {
        wide = λ j. rw (filled j) (h.wide j);
        room = omega (
          arith,
          enough,
          length-append t.words (replicate more 0),
          length-replicate {A = ℕ} more 0,
        );
        within = λ j l. bits j ∙ h.within j (omega arith);
        count = h.count ∙ sym (ap (λ (l : List ℕ). length l) same);
      };
      inside = omega arith;
      same = same;
      bits = bits;
    }

pub cover-Covered : (i : ℕ) (t : LiveSet) → IsLive t → Covered i t (cover i t)
unfolding cover
cover-Covered i t h = elim (Bool-cases (leb t.slots i)) [
  | inl out ↦
      rw (out, grown t.words (div_ceil (i + 1) 64))
        (resized-Covered i (div_ceil (i + 1) 64) t h (grind arith)
          (div_ceil_lem (i + 1) 64 (omega arith)).0)
  | inr in_it ↦
      rw in_it (record { is_live = h; inside = ground arith; same = refl; bits = λ j. refl })
]

-- Whether two ids are one, by their words and bits.
same_place : (i j : ℕ) → ((i / 64 == j / 64) && (i % 64 == j % 64)) ≡ (i == j)
same_place i j = grind arith

set_at :
    (i j w : ℕ) (words : List ℕ)
    → i / 64 < length words
    → bit_at (set words (i / 64) w) j
      ≡ (if (i / 64) == (j / 64) then test_bit w (j % 64) else bit_at words j)
set_at i j w words h = rw (get_or-set words (i / 64) (j / 64) w 0 h) (ground arith)

bits_of_set :
    (i j : ℕ) (words : List ℕ)
    → i / 64 < length words
    → bit_at (set words (i / 64) (set_bit (word_at words (i / 64)) (i % 64))) j
      ≡ ((i == j) || bit_at words j)
bits_of_set i j words h =
    set_at i j (set_bit (word_at words (i / 64)) (i % 64)) words h
    ∙ elim (Bool-cases ((i / 64) == (j / 64))) [
      | inl t ↦
          let one : i / 64 ≡ j / 64 = (==_iff _ _).0 t in
          rw t (
            test_bit-set_bit (word_at words (i / 64)) (i % 64) (j % 64)
            ∙ ground
                (arith, same_place i j, ap (λ (k : ℕ). test_bit (word_at words k) (j % 64)) one))
      | inr t ↦ rw t (ground (arith, same_place i j))
    ]

bits_of_clear :
    (i j : ℕ) (words : List ℕ)
    → i / 64 < length words
    → bit_at (set words (i / 64) (clear_bit (word_at words (i / 64)) (i % 64))) j
      ≡ (not (i == j) && bit_at words j)
bits_of_clear i j words h =
    set_at i j (clear_bit (word_at words (i / 64)) (i % 64)) words h
    ∙ elim (Bool-cases ((i / 64) == (j / 64))) [
      | inl t ↦
          let one : i / 64 ≡ j / 64 = (==_iff _ _).0 t in
          rw t (
            test_bit-clear_bit (word_at words (i / 64)) (i % 64) (j % 64)
            ∙ ground
                (arith, same_place i j, ap (λ (k : ℕ). test_bit (word_at words k) (j % 64)) one))
      | inr t ↦ rw t (ground (arith, same_place i j))
    ]

wide_of_set :
    (i w : ℕ) (words : List ℕ)
    → i < length words
    → w < 2 ^ 64
    → ((j : ℕ) → word_at words j < 2 ^ 64)
    → (j : ℕ) → word_at (set words i w) j < 2 ^ 64
wide_of_set i w words l h wide j = rw (get_or-set words i j w 0 l) (ground (arith, wide j))

absorbed : (f : ℕ → Bool) (i j : ℕ) → f i ≡ true → f j ≡ ((i == j) || f j)
absorbed f i j e = elim (Bool-cases (i == j)) [
  | inl t ↦ rw t (ap f (sym ((==_iff i j).0 t)) ∙ e)
  | inr t ↦ rw t refl
]

kept_out : (f : ℕ → Bool) (i j : ℕ) → f i ≡ false → f j ≡ (not (i == j) && f j)
kept_out f i j e = elim (Bool-cases (i == j)) [
  | inl t ↦ rw t (ap f (sym ((==_iff i j).0 t)) ∙ e)
  | inr t ↦ rw t refl
]

-- What an operation leaves: a live set, whose ids are those that pass.
pub record Refined (t u : LiveSet) (passes : ℕ → Bool) : Type 0 where
  pub is_live : IsLive u
  pub ids : (j : ℕ) → member j (ids u) ≡ passes j

pub insert-Refined :
    (i : ℕ) (t : LiveSet) → IsLive t → Refined t (insert i t) (λ j. (i == j) || member j (ids t))
unfolding insert
insert-Refined i t h =
    let c = cover-Covered i t h in
    let u = cover i t in
    let w = word_at u.words (i / 64) in
    let v = c.is_live in
    let in_words : i / 64 < length u.words = omega (arith, c.inside, v.room) in
    let old : (j : ℕ) → member j (ids u) ≡ member j (ids t) =
      λ j. member-ids j u v ∙ c.bits j ∙ sym (member-ids j t h) in
    let more = length-listed-set_bit 0 (i / 64) (i % 64) u.words in_words (omega arith) in
    let counted : bit_at u.words i ≡ false
        → u.live + 1 ≡ length (listed 0 (set u.words (i / 64) (set_bit w (i % 64)))) =
      λ off. let less = rw off at more in omega (arith, less, v.count) in
    elim (Bool-cases (bit_at u.words i)) [
      | inl on ↦ rw on (record {
        is_live = v;
        ids =
            λ j. old j ∙ absorbed (λ k. member k (ids t)) i j (sym (old i) ∙ member-ids i u v ∙ on);
      })
      | inr off ↦
          let bits = λ (j : ℕ). bits_of_set i j u.words in_words in
          let left : IsLive (record {
            words = set u.words (i / 64) (set_bit w (i % 64));
            slots = u.slots;
            live = u.live + 1;
          }) =
            record {
              wide =
                  wide_of_set (i / 64) (set_bit w (i % 64)) u.words in_words
                    (set_bit-lt 64 w (i % 64) (omega arith) (v.wide (i / 64))) v.wide;
              room = omega (arith, v.room, length-set u.words (i / 64) (set_bit w (i % 64)));
              within = λ j l. bits j ∙ ground (arith, v.within j l, c.inside);
              count = counted off;
            } in
          rw off (record {
            is_live = left;
            ids = λ j.
                member-ids j _ left
                ∙ bits j
                ∙ ap (λ (b : Bool). (i == j) || b) (sym (member-ids j u v) ∙ old j);
          })
    ]

pub remove-Refined :
    (i : ℕ) (t : LiveSet)
    → IsLive t
    → Refined t (remove i t) (λ j. not (i == j) && member j (ids t))
unfolding remove
remove-Refined i t h = elim (Bool-cases (leb t.slots i)) [
  | inl out ↦ rw out (unchanged (h.within i (grind arith)))
  | inr in_it ↦ elim (Bool-cases (bit_at t.words i)) [
    | inr off ↦ rw (in_it, off) (unchanged off)
    | inl on ↦
        let w = word_at t.words (i / 64) in
        let in_words : i / 64 < length t.words = grind (arith, h.room) in
        let bits = λ (j : ℕ). bits_of_clear i j t.words in_words in
        let less = length-listed-clear_bit 0 (i / 64) (i % 64) t.words in_words (omega arith) on in
        let left : IsLive (record {
          words = set t.words (i / 64) (clear_bit w (i % 64));
          slots = t.slots;
          live = t.live - 1;
        }) =
          record {
            wide =
                wide_of_set (i / 64) (clear_bit w (i % 64)) t.words in_words
                  (omega (arith, clear_bit-le w (i % 64), h.wide (i / 64))) h.wide;
            room = omega (arith, h.room, length-set t.words (i / 64) (clear_bit w (i % 64)));
            within = λ j l. bits j ∙ ground (arith, h.within j l);
            count = omega (arith, less, h.count);
          } in
        rw (in_it, on)
          (record {
            is_live = left;
            ids = λ j.
                member-ids j _ left
                ∙ bits j
                ∙ ap (λ (b : Bool). not (i == j) && b) (sym (member-ids j t h));
          })
  ]
]
  where
    unchanged : bit_at t.words i ≡ false → Refined t t (λ j. not (i == j) && member j (ids t))
    unchanged off = record {
      is_live = h;
      ids = λ j. kept_out (λ k. member k (ids t)) i j (member-ids i t h ∙ off);
    }

pub live_new-IsLive : IsLive live_new
unfolding listed
live_new-IsLive = record {
  wide = λ i. omega arith;
  room = omega arith;
  within = λ i l. test_bit-zero (i % 64);
  count = refl;
}

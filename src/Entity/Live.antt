-- ===== src/Entity/Live.antt =====
-- entity.rs: which entities are alive, one bit per id.
pub mod Words
pub mod Iter
pub mod Refines
pub mod Reach
use mathlib.Core.Option
use umwelt_rs.Base.{
  ℕ, zero, suc, ◌+◌, ◌-◌, ◌*◌, ◌/◌, ◌%◌, Bool, true, false, leb, ltb, ◌==◌, not, if◌then◌else◌,
  Option, none, some, List, [], ◌∷◌, length, get_or,
}
use umwelt_rs.Base.Arrays.{set, resize}
use umwelt_rs.Base.Bits.{zeros_below, div_ceil}
use umwelt_rs.Base.Words.{test_bit, set_bit, clear_bit}
use umwelt_rs.Entity.{EntityId}

-- `words` of 64 bits, the ids allocated, and how many of them are alive.
pub record LiveSet : Type 0 where
  pub words : List ℕ
  pub slots : ℕ
  pub live : ℕ

abbrev pub live_new : LiveSet
live_new = record { words = []; slots = 0; live = 0 }

unfoldable pub id_space : LiveSet → ℕ
id_space t = t.slots

unfoldable pub is_empty : LiveSet → Bool
is_empty t = t.live == 0

abbrev pub word_at : List ℕ → ℕ → ℕ
word_at words i = get_or words i 0

unfoldable pub contains : EntityId → LiveSet → Bool
contains i t = if leb t.slots i then false else test_bit (word_at t.words (i / 64)) (i % 64)

-- Grows to cover an id, and leaves it as it is.
unfoldable pub cover : EntityId → LiveSet → LiveSet
unfolding div_ceil
cover i t =
    if leb t.slots i
    then (let needed = div_ceil (i + 1) 64 in
        record {
          words = if ltb (length t.words) needed then resize t.words needed 0 else t.words;
          slots = i + 1;
          live = t.live;
        })
    else t

unfoldable pub insert : EntityId → LiveSet → LiveSet
insert i t =
    let u = cover i t in
    let w = word_at u.words (i / 64) in
    if test_bit w (i % 64) then u else record {
      words = set u.words (i / 64) (set_bit w (i % 64));
      slots = u.slots;
      live = u.live + 1;
    }

unfoldable pub remove : EntityId → LiveSet → LiveSet
remove i t =
    let w = word_at t.words (i / 64) in
    if leb t.slots i
    then t
    else if test_bit w (i % 64)
    then record {
      words = set t.words (i / 64) (clear_bit w (i % 64));
      slots = t.slots;
      live = t.live - 1;
    }
    else t

unfoldable pub clear : LiveSet → LiveSet
clear t = live_new

-- `words` from the one behind `at` on, and the bits of the word at `at` that are not yielded.
pub record LiveIter : Type 0 where
  pub at : ℕ
  pub current : ℕ
  pub later : List ℕ

abbrev first_of : List ℕ → LiveIter
first_of [] = record { at = 0; current = 0; later = [] }
first_of (w ∷ ws) = record { at = 0; current = w; later = ws }

unfoldable pub iter : LiveSet → LiveIter
iter t = first_of t.words

-- The lowest bit is taken out: `current &= current - 1`.
unfoldable pub next_from : ℕ → ℕ → List ℕ → Option (EntityId × LiveIter)
unfolding zeros_below
next_from at current [] =
    if current == 0
    then none
    else (let bit = zeros_below 64 current in
        some (at * 64 + bit, record { at = at; current = clear_bit current bit; later = [] }))
next_from at current (w ∷ ws) =
    let further = next_from (at + 1) w ws in
    if current == 0
    then further
    else (let bit = zeros_below 64 current in
        some (at * 64 + bit, record { at = at; current = clear_bit current bit; later = w ∷ ws }))

unfoldable pub next : LiveIter → Option (EntityId × LiveIter)
next it = next_from it.at it.current it.later

-- What `for id in live.iter()` visits, of at most `fuel` ids.
unfoldable pub visited : ℕ → LiveIter → List EntityId
visited zero it = []
visited (suc fuel) it = elim (next it) [ none ↦ [] | some (id, rest) ↦ id ∷ visited fuel rest ]

-- A word has at most 64 ids.
unfoldable pub ids : LiveSet → List EntityId
ids t = visited (64 * length t.words) (iter t)

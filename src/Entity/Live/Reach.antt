-- ===== src/Entity/Live/Reach.antt =====
-- entity.rs: the live sets that the calls make.
use umwelt_rs.Base.{
  ℕ, zero, suc, ◌+◌, ◌*◌, ◌/◌, ◌%◌, ◌≡◌, sym, ap, ◌∙◌, arith, ◌==◌, ◌&&◌, ◌||◌, not, List, [], ◌∷◌,
  ◌++◌, length, Bool-cases, inl, inr,
}
use mathlib.Core.Path.{subst}
use umwelt_rs.Base.Sets.{member, IsAscending, lower}
use umwelt_rs.Base.Words.{ones}
use umwelt_rs.Entity.Live.{LiveSet, live_new, contains, cover, insert, remove, clear, ids}
use umwelt_rs.Entity.Live.Words.{listed}
use umwelt_rs.Entity.Live.Iter.{ids_lem}
use umwelt_rs.Entity.Live.Refines.{
  IsLive, cover-Covered, insert-Refined, remove-Refined, live_new-IsLive, contains-member,
}

-- What calls make of a new set.
pub data IsBuilt : LiveSet → Type 0 where
  made : IsBuilt live_new
  covered : {t : LiveSet} (i : ℕ) → IsBuilt t → IsBuilt (cover i t)
  inserted : {t : LiveSet} (i : ℕ) → IsBuilt t → IsBuilt (insert i t)
  removed : {t : LiveSet} (i : ℕ) → IsBuilt t → IsBuilt (remove i t)
  cleared : {t : LiveSet} → IsBuilt t → IsBuilt (clear t)

pub IsBuilt-IsLive : {t : LiveSet} → IsBuilt t → IsLive t
unfolding clear
IsBuilt-IsLive made = live_new-IsLive
IsBuilt-IsLive (covered {t} i b) = (cover-Covered i t (IsBuilt-IsLive b)).is_live
IsBuilt-IsLive (inserted {t} i b) = (insert-Refined i t (IsBuilt-IsLive b)).is_live
IsBuilt-IsLive (removed {t} i b) = (remove-Refined i t (IsBuilt-IsLive b)).is_live
IsBuilt-IsLive (cleared b) = live_new-IsLive

ones-IsAscending :
    (f base n : ℕ) (xs : List ℕ)
    → IsAscending (base + f) xs
    → IsAscending base (ones f base n ++ xs)
unfolding ones
ones-IsAscending zero base n xs h = lower base (base + 0) xs (omega arith) h
ones-IsAscending (suc f) base n xs h =
    let there : base + suc f ≡ base + 1 + f = omega arith in
    let ih =
      ones-IsAscending f (base + 1) (n / 2) xs (subst (λ (k : ℕ). IsAscending k xs) there h) in
    elim (Bool-cases ((n % 2) == 1)) [
      | inl t ↦ rw t (omega arith, ih)
      | inr t ↦ rw t (lower base (base + 1) _ (omega arith) ih)
    ]

listed-IsAscending : (k : ℕ) (ws : List ℕ) → IsAscending (k * 64) (listed k ws)
unfolding listed
listed-IsAscending k [] = record {}
listed-IsAscending k (w ∷ ws) =
    ones-IsAscending 64 (k * 64) w (listed (k + 1) ws)
      (lower (k * 64 + 64) ((k + 1) * 64) _ (omega arith) (listed-IsAscending (k + 1) ws))

-- Whatever calls made a live set, its iterator yields in ascending order, and as many as it
-- counts, the ids that it contains; an insertion adds its id, and a removal takes its id, and no
-- other.
pub live_lem :
    (t : LiveSet)
    → IsBuilt t
    → (i : ℕ)
    → IsAscending 0 (ids t)
      × (t.live ≡ length (ids t))
      × (contains i t ≡ member i (ids t))
      × ((j : ℕ) → member j (ids (insert i t)) ≡ ((i == j) || member j (ids t)))
      × ((j : ℕ) → member j (ids (remove i t)) ≡ (not (i == j) && member j (ids t)))
live_lem t b i =
    let h = IsBuilt-IsLive b in
    let all = ids_lem t h.wide in
    (
      subst (λ (l : List ℕ). IsAscending 0 l) (sym all) (listed-IsAscending 0 t.words),
      h.count ∙ sym (ap (λ (l : List ℕ). length l) all),
      contains-member i t h,
      (insert-Refined i t h).ids,
      (remove-Refined i t h).ids,
    )

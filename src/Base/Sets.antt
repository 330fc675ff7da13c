-- ===== src/Base/Sets.antt =====
-- A `BTreeSet` of numbers, as the list of its members in ascending order.
use mathlib.Core.Path.{◌≡◌, refl}
use mathlib.Core.Bool.{Bool, false, ◌&&◌, ◌||◌, not}
use mathlib.Core.List.{List, [], ◌∷◌, ◌++◌}
use native.Mathlib.Omega.{arith}
use Prim.Native.Nat.{ℕ, ◌+◌, ◌≤◌}
use umwelt_rs.Base.Tests.{ltb, ◌==◌, if◌then◌else◌}

abbrev pub Set : Type 0
Set = List ℕ

unfoldable pub member : ℕ → Set → Bool
member x [] = false
member x (y ∷ s) = (y == x) || member x s

unfoldable pub set_insert : ℕ → Set → Set
set_insert x [] = x ∷ []
set_insert x (y ∷ s) =
    let rest = set_insert x s in if ltb x y then x ∷ y ∷ s else if x == y then y ∷ s else y ∷ rest

unfoldable pub set_remove : ℕ → Set → Set
set_remove x [] = []
set_remove x (y ∷ s) = let rest = set_remove x s in if y == x then rest else y ∷ rest

pub member-set_insert : (x z : ℕ) (s : Set) → member z (set_insert x s) ≡ ((x == z) || member z s)
unfolding member set_insert
member-set_insert x z [] = ground arith
member-set_insert x z (y ∷ s) = ground (arith, member-set_insert x z s)

pub member-set_remove :
    (x z : ℕ) (s : Set) → member z (set_remove x s) ≡ (not (x == z) && member z s)
unfolding member set_remove
member-set_remove x z [] = ground arith
member-set_remove x z (y ∷ s) = ground (arith, member-set_remove x z s)

pub member_nil : (z : ℕ) → member z [] ≡ false
unfolding member
member_nil z = refl

-- Each above the one before it, the first no lower than the number given.
abbrev pub IsAscending : ℕ → List ℕ → Type 0
IsAscending low [] = Unit
IsAscending low (x ∷ xs) = (low ≤ x) × IsAscending (x + 1) xs

pub lower : (a b : ℕ) (xs : List ℕ) → a ≤ b → IsAscending b xs → IsAscending a xs
lower a b [] l h = h
lower a b (x ∷ xs) l (p, h) = (omega arith, h)

pub member-append : (x : ℕ) (xs ys : List ℕ) → member x (xs ++ ys) ≡ (member x xs || member x ys)
unfolding member
member-append x [] ys = refl
member-append x (y ∷ xs) ys = ground (arith, member-append x xs ys)

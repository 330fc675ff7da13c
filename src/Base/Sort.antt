-- ===== src/Base/Sort.antt =====
-- `sort_unstable_by` of a total order, and the counts that a sorted list has.
use mathlib.Core.Bool.{Bool, true, false}
use mathlib.Core.Path.{◌≡◌, refl, ap, ◌∙◌}
use mathlib.Core.List.{List, [], ◌∷◌}
use native.Mathlib.Omega.{arith}
use Prim.Native.Nat.{ℕ, suc}
use mathlib.Core.Logic.{inl, inr}
use umwelt_rs.Base.Tests.{Bool-cases, if◌then◌else◌}
use umwelt_rs.Base.Lists.{All, length}

module _ {ℓ} {A : Type ℓ} where
  -- Before the first entry that it may stand before.
  unfoldable pub insert_by : (A → A → Bool) → A → List A → List A
  insert_by le x [] = x ∷ []
  insert_by le x (y ∷ ys) = let rest = insert_by le x ys in if le x y then x ∷ y ∷ ys else y ∷ rest

  unfoldable pub sort_by : (A → A → Bool) → List A → List A
  sort_by le [] = []
  sort_by le (x ∷ xs) = insert_by le x (sort_by le xs)

  unfoldable pub count_of : (A → Bool) → List A → ℕ
  count_of test [] = 0
  count_of test (x ∷ xs) = let rest = count_of test xs in if test x then suc rest else rest

  -- Every entry stands before all behind it.
  abbrev pub IsSorted : (A → A → Bool) → List A → Type ℓ
  IsSorted le [] = Unit
  IsSorted le (x ∷ xs) = All (λ y. le x y ≡ true) xs × IsSorted le xs

  count_of-insert_by :
      (le : A → A → Bool) (test : A → Bool) (x : A) (xs : List A)
      → count_of test (insert_by le x xs) ≡ count_of test (x ∷ xs)
  unfolding insert_by count_of
  count_of-insert_by le test x [] = refl
  count_of-insert_by le test x (y ∷ ys) = ground (arith, count_of-insert_by le test x ys)

  pub count_of-sort_by :
      (le : A → A → Bool) (test : A → Bool) (xs : List A)
      → count_of test (sort_by le xs) ≡ count_of test xs
  unfolding sort_by count_of
  count_of-sort_by le test [] = refl
  count_of-sort_by le test (x ∷ xs) =
      count_of-insert_by le test x (sort_by le xs) ∙ ground (arith, count_of-sort_by le test xs)

  pub length-insert_by :
      (le : A → A → Bool) (x : A) (xs : List A) → length (insert_by le x xs) ≡ suc (length xs)
  unfolding insert_by
  length-insert_by le x [] = refl
  length-insert_by le x (y ∷ ys) = ground (arith, length-insert_by le x ys)

  pub length-sort_by : (le : A → A → Bool) (xs : List A) → length (sort_by le xs) ≡ length xs
  unfolding sort_by
  length-sort_by le [] = refl
  length-sort_by le (x ∷ xs) = length-insert_by le x (sort_by le xs) ∙ ap suc (length-sort_by le xs)

  All-insert_by {κ} :
      (le : A → A → Bool) (P : A → Type κ) (x : A) (xs : List A)
      → P x
      → All P xs
      → All P (insert_by le x xs)
  unfolding insert_by
  All-insert_by le P x [] p h = (p, h)
  All-insert_by le P x (y ∷ ys) p (q, h) = elim (Bool-cases (le x y)) [
    | inl t ↦ rw t (p, (q, h))
    | inr t ↦ rw t (q, All-insert_by le P x ys p h)
  ]

  pub All-sort_by {κ} :
      (le : A → A → Bool) (P : A → Type κ) (xs : List A) → All P xs → All P (sort_by le xs)
  unfolding sort_by
  All-sort_by le P [] h = h
  All-sort_by le P (x ∷ xs) (p, h) = All-insert_by le P x (sort_by le xs) p (All-sort_by le P xs h)

  pub All-map {κ μ} :
      (P : A → Type κ) (Q : A → Type μ) (xs : List A) → ((x : A) → P x → Q x) → All P xs → All Q xs
  All-map P Q [] f h = record {}
  All-map P Q (x ∷ xs) f (p, h) = (f x p, All-map P Q xs f h)

  -- What makes a Boolean test an order to sort by.
  pub record IsOrder (le : A → A → Bool) : Type ℓ where
    pub total : (x y : A) → le x y ≡ false → le y x ≡ true
    pub trans : (x y z : A) → le x y ≡ true → le y z ≡ true → le x z ≡ true

  insert_by-IsSorted :
      (le : A → A → Bool)
      → IsOrder le
      → (x : A) (xs : List A) → IsSorted le xs
      → IsSorted le (insert_by le x xs)
  unfolding insert_by
  insert_by-IsSorted le o x [] h = (record {}, h)
  insert_by-IsSorted le o x (y ∷ ys) (below, h) = elim (Bool-cases (le x y)) [
    | inl t ↦ rw t (
      (t, All-map (λ z. le y z ≡ true) (λ z. le x z ≡ true) ys (λ z q. o.trans x y z t q) below),
      (below, h),
    )
    | inr t ↦ rw t (
      All-insert_by le (λ z. le y z ≡ true) x ys (o.total x y t) below,
      insert_by-IsSorted le o x ys h,
    )
  ]

  pub sort_by-IsSorted :
      (le : A → A → Bool) → IsOrder le → (xs : List A) → IsSorted le (sort_by le xs)
  unfolding sort_by
  sort_by-IsSorted le o [] = record {}
  sort_by-IsSorted le o (x ∷ xs) =
      insert_by-IsSorted le o x (sort_by le xs) (sort_by-IsSorted le o xs)

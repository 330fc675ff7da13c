-- ===== src/Base/Arrays.antt =====
-- Lists written at an index: `v[i] = x`, `Vec::resize`, and `Iterator::position`.
use Prim.Native.Nat.{ℕ, zero, suc, ◌-◌, ◌≤◌, ◌<◌}
use mathlib.Core.Path.{◌≡◌, refl, ap}
use mathlib.Core.Bool.{Bool, true}
use mathlib.Core.List.{List, [], ◌∷◌, ◌++◌}
use mathlib.Core.Option.{Option, none, some}
use mathlib.Core.Option
use native.Mathlib.Omega.{arith}
use umwelt_rs.Base.Tests.{◌==◌, if◌then◌else◌}
use umwelt_rs.Base.Lists.{length, get_elem?, get_or, length-append}

module _ {ℓ} {A : Type ℓ} where
  abbrev pub set : List A → ℕ → A → List A
  set [] i v = []
  set (x ∷ xs) zero v = v ∷ xs
  set (x ∷ xs) (suc i) v = x ∷ set xs i v

  abbrev pub replicate : ℕ → A → List A
  replicate zero v = []
  replicate (suc n) v = v ∷ replicate n v

  -- To `n` entries, where the list has fewer.
  abbrev pub resize : List A → ℕ → A → List A
  resize xs n v = xs ++ replicate (n - length xs) v

  abbrev pub position : (A → Bool) → List A → Option ℕ
  position test [] = none
  position test (x ∷ xs) =
      let rest = position test xs in if test x then some 0 else Option.map suc rest

  pub length-set : (xs : List A) (i : ℕ) (v : A) → length (set xs i v) ≡ length xs
  length-set [] i v = refl
  length-set (x ∷ xs) zero v = refl
  length-set (x ∷ xs) (suc i) v = ap suc (length-set xs i v)

  pub length-replicate : (n : ℕ) (v : A) → length (replicate n v) ≡ n
  length-replicate zero v = refl
  length-replicate (suc n) v = ap suc (length-replicate n v)

  pub length-resize : (xs : List A) (n : ℕ) (v : A) → n ≤ length (resize xs n v)
  length-resize xs n v =
      omega
        (arith, length-append xs (replicate (n - length xs) v), length-replicate (n - length xs) v)

  pub get_elem?-set :
      (xs : List A) (i j : ℕ) (v : A)
      → i < length xs
      → get_elem? (set xs i v) j ≡ (if i == j then some v else get_elem? xs j)
  get_elem?-set [] i j v h = absurd (omega arith)
  get_elem?-set (x ∷ xs) zero zero v h = refl
  get_elem?-set (x ∷ xs) (suc i) (suc j) v h = ground (arith, get_elem?-set xs i j v)
  get_elem?-set (x ∷ xs) i j v h = ground arith

  pub get_or-set :
      (xs : List A) (i j : ℕ) (v d : A)
      → i < length xs
      → get_or (set xs i v) j d ≡ (if i == j then v else get_or xs j d)
  get_or-set [] i j v d h = absurd (omega arith)
  get_or-set (x ∷ xs) zero zero v d h = refl
  get_or-set (x ∷ xs) (suc i) (suc j) v d h = ground (arith, get_or-set xs i j v d)
  get_or-set (x ∷ xs) i j v d h = ground arith

  pub get_or-replicate : (n i : ℕ) (v : A) → get_or (replicate n v) i v ≡ v
  get_or-replicate zero i v = refl
  get_or-replicate (suc n) zero v = refl
  get_or-replicate (suc n) (suc i) v = get_or-replicate n i v

  -- Reading past the end gives what the list is filled with.
  pub get_or-filled :
      (xs : List A) (n i : ℕ) (v : A) → get_or (xs ++ replicate n v) i v ≡ get_or xs i v
  get_or-filled [] n i v = get_or-replicate n i v
  get_or-filled (x ∷ xs) n zero v = refl
  get_or-filled (x ∷ xs) n (suc i) v = get_or-filled xs n i v

  pub get_elem?-append_last :
      (xs : List A) (v : A) (j : ℕ)
      → get_elem? (xs ++ v ∷ []) j ≡ (if j == length xs then some v else get_elem? xs j)
  get_elem?-append_last [] v zero = refl
  get_elem?-append_last [] v (suc j) = ground arith
  get_elem?-append_last (x ∷ xs) v zero = ground arith
  get_elem?-append_last (x ∷ xs) v (suc j) = ground (arith, get_elem?-append_last xs v j)

  -- Where the test first holds.
  pub position_found :
      (test : A → Bool) (xs : List A) (i : ℕ) (d : A)
      → position test xs ≡ some i
      → (i < length xs) × (test (get_or xs i d) ≡ true)
  position_found test [] i d q = cc
  position_found test (x ∷ xs) zero d q = ground arith
  position_found test (x ∷ xs) (suc i) d q = ground (arith, position_found test xs i d)

  pub get_or_end : (xs : List A) (d : A) → get_or xs (length xs) d ≡ d
  get_or_end [] d = refl
  get_or_end (x ∷ xs) d = get_or_end xs d

  -- What is read past the end is no entry.
  pub get_or-lt : (xs : List A) (i : ℕ) (d : A) → length xs ≤ i → get_or xs i d ≡ d
  get_or-lt [] i d h = refl
  get_or-lt (x ∷ xs) zero d h = absurd (omega arith)
  get_or-lt (x ∷ xs) (suc i) d h = get_or-lt xs i d (omega arith)

  pub get_elem?-get_or :
      (xs : List A) (j : ℕ) (d : A) → j < length xs → get_elem? xs j ≡ some (get_or xs j d)
  get_elem?-get_or [] j d l = absurd (omega arith)
  get_elem?-get_or (x ∷ xs) zero d l = refl
  get_elem?-get_or (x ∷ xs) (suc j) d l = get_elem?-get_or xs j d (omega arith)

-- ===== src/Packet/Chunks.antt =====
-- packet.rs: reading values of one width, one after another.
use umwelt_rs.Base.{
  ℕ, zero, suc, ◌+◌, ◌*◌, ◌≤◌, ◌≡◌, refl, sym, ap, ◌∙◌, arith, Option, some, List, [], ◌∷◌, ◌++◌,
  length, drop, map, All, length-append, drop_run, length-drop, append_assoc,
}
use umwelt_rs.Packet.{collect}

-- A read that succeeds on `s` bytes or more.
abbrev pub ReadsFrom : {A : Type 0} → ℕ → (List ℕ → Option A) → Type 0
ReadsFrom {A} s read = (b : List ℕ) → s ≤ length b → (a : A) × (read b ≡ some a)

next_at :
    (base s k n m : ℕ)
    → base + (k + suc n) * s ≤ m
    → (base + k * s + s ≤ m) × (base + (suc k + n) * s ≤ m)
next_at base s k n m h = (grind arith, grind arith)

-- Where the buffer holds all the values, none of the reads fails.
pub collect_total :
    {A : Type 0} (read : List ℕ → Option A) (base s k n : ℕ) (body : List ℕ)
    → ReadsFrom s read
    → base + (k + n) * s ≤ length body
    → (as' : List A) × (collect read base s k n body ≡ some as') × (length as' ≡ n)
unfolding collect
collect_total read base s k zero body h l = ([], refl, refl)
collect_total read base s k (suc n) body h l =
    let (here, there) = next_at base s k n (length body) l in
    let (a, e) = h (drop (base + k * s) body) (omega (arith, length-drop (base + k * s) body)) in
    let (as', e', n') = collect_total read base s (suc k) n body h there in
    (a ∷ as', rw (e, e') refl, ap suc n')

-- The bytes of a list of values, one after another.
unfoldable pub flat : {X : Type 0} → (X → List ℕ) → List X → List ℕ
flat f [] = []
flat f (x ∷ xs) = f x ++ flat f xs

pub length-flat :
    {X : Type 0} (f : X → List ℕ) (s : ℕ) (xs : List X)
    → All (λ x. length (f x) ≡ s) xs
    → length (flat f xs) ≡ length xs * s
unfolding flat
length-flat f s [] h = omega arith
length-flat f s (x ∷ xs) h =
    length-append (f x) (flat f xs) ∙ omega (arith, h.0, length-flat f s xs h.1)

-- A value that is read back from the front of its bytes.
abbrev pub ReadBack : {X A : Type 0} → ℕ → (X → List ℕ) → (List ℕ → Option A) → (X → A) → X → Type 0
ReadBack s f read h x = (length (f x) ≡ s) × ((rest : List ℕ) → read (f x ++ rest) ≡ some (h x))

pub collect-flat :
    {X A : Type 0} (f : X → List ℕ) (read : List ℕ → Option A) (h : X → A) (base s k : ℕ)
    (before rest : List ℕ) (xs : List X)
    → All (ReadBack s f read h) xs
    → length before ≡ base + k * s
    → collect read base s k (length xs) (before ++ (flat f xs ++ rest)) ≡ some (map h xs)
unfolding collect flat
collect-flat f read h base s k before rest [] each l = refl
collect-flat f read h base s k before rest (x ∷ xs) each l =
    let split : (f x ++ flat f xs) ++ rest ≡ f x ++ (flat f xs ++ rest) =
      append_assoc (f x) (flat f xs) rest in
    let here : drop (base + k * s) (before ++ ((f x ++ flat f xs) ++ rest))
        ≡ f x ++ (flat f xs ++ rest) =
      drop_run _ before _ l ∙ split in
    let shifted : before ++ ((f x ++ flat f xs) ++ rest) ≡ (before ++ f x) ++ (flat f xs ++ rest) =
      ap (◌++◌ before) split ∙ sym (append_assoc before (f x) (flat f xs ++ rest)) in
    let ih : collect read base s (suc k) (length xs) (before ++ ((f x ++ flat f xs) ++ rest))
        ≡ some (map h xs) =
      ap (collect read base s (suc k) (length xs)) shifted
      ∙ collect-flat f read h base s (suc k) (before ++ f x) rest xs each.1
          (length-append before (f x) ∙ omega (arith, each.0.0, l)) in
    rw (here, each.0.1 (flat f xs ++ rest), ih) refl

-- ===== src/Select/Nearest.antt =====
-- select.rs: the ghost set has the candidates of the lowest ranks.
use umwelt_rs.Base.{
  ℕ, zero, suc, ◌+◌, ◌-◌, ◌≤◌, ◌<◌, ◌≡◌, refl, ap, ◌∙◌, ◌⊎◌, arith, min, Bool, true, false, leb,
  ltb, ◌==◌, ◌&&◌, ◌||◌, Option, some, List, [], ◌∷◌, length, get_or, take, All, Bool-cases, inl,
  inr,
}
use umwelt_rs.Base.Sets.{member, IsAscending, lower}
use umwelt_rs.Base.Sort.{
  sort_by, count_of, IsSorted, IsOrder, sort_by-IsSorted, count_of-sort_by, length-sort_by,
}
use umwelt_rs.Select.{keep_from, indices, nearest}

-- How many candidates come before one: the nearer, and the equally near found earlier.
abbrev pub rank : List ℕ → ℕ → ℕ
rank dists j =
    let d = get_or dists j 0 in
    count_of (λ e. ltb e d) dists + count_of (λ e. e == d) (take j dists)

count_of_mono :
    (p q : ℕ → Bool) (xs : List ℕ)
    → ((x : ℕ) → p x ≡ true → q x ≡ true)
    → count_of p xs ≤ count_of q xs
unfolding count_of
count_of_mono p q [] h = omega arith
count_of_mono p q (x ∷ xs) h = ground (arith, count_of_mono p q xs h, h x)

count_of-take : (p : ℕ → Bool) (j : ℕ) (xs : List ℕ) → count_of p (take j xs) ≤ count_of p xs
unfolding count_of
count_of-take p zero xs = omega arith
count_of-take p (suc j) [] = omega arith
count_of-take p (suc j) (x ∷ xs) = ground (arith, count_of-take p j xs)

below_or_at :
    (d : ℕ) (xs : List ℕ)
    → count_of (λ e. ltb e d) xs + count_of (λ e. e == d) xs ≡ count_of (λ e. leb e d) xs
unfolding count_of
below_or_at d [] = refl
below_or_at d (x ∷ xs) = ground (arith, below_or_at d xs)

none_below : (d : ℕ) (xs : List ℕ) → All (λ y. leb d y ≡ true) xs → count_of (λ e. ltb e d) xs ≡ 0
unfolding count_of
none_below d [] h = refl
none_below d (x ∷ xs) (p, h) = ground (arith, none_below d xs h)

All-at : (d m : ℕ) (xs : List ℕ) → All (λ y. leb d y ≡ true) xs → m < length xs → d ≤ get_or xs m 0
All-at d m [] h l = absurd (omega arith)
All-at d zero (x ∷ xs) (p, h) l = ground arith
All-at d (suc m) (x ∷ xs) (p, h) l = All-at d m xs h (omega arith)

-- The entry of a sorted list at `m`: all that is less stands before it, and `m + 1` are not more.
cut_at :
    (m : ℕ) (s : List ℕ)
    → IsSorted leb s
    → m < length s
    → (count_of (λ e. ltb e (get_or s m 0)) (take m s) ≡ count_of (λ e. ltb e (get_or s m 0)) s)
      × (m < count_of (λ e. leb e (get_or s m 0)) s)
unfolding count_of
cut_at m [] h l = absurd (omega arith)
cut_at zero (x ∷ xs) (below, h) l = (ground (arith, none_below x xs below), ground arith)
cut_at (suc m) (x ∷ xs) (below, h) l =
    let (same, more) = cut_at m xs h (omega arith) in
    let first = All-at x m xs below (omega arith) in
    (ground (arith, same), ground (arith, more, first))

leb-IsOrder : IsOrder leb
leb-IsOrder = record { total = λ x y e. grind arith; trans = λ x y z p q. grind arith }

keep_from_below :
    (i cut ties x : ℕ) (ds : List ℕ) → x < i → member x (keep_from i cut ties ds) ≡ false
unfolding keep_from member
keep_from_below i cut ties x [] h = refl
keep_from_below i cut ties x (d ∷ ds) h = ground (
  arith,
  keep_from_below (i + 1) cut ties x ds (omega arith),
  keep_from_below (i + 1) cut (ties - 1) x ds (omega arith),
)

abbrev passes : ℕ → ℕ → List ℕ → ℕ → Bool
passes cut ties ds j =
    ltb j (length ds)
    && (ltb (get_or ds j 0) cut
        || ((get_or ds j 0 == cut) && ltb (count_of (λ e. e == cut) (take j ds)) ties))

member-keep_from :
    (i cut ties j : ℕ) (ds : List ℕ)
    → member (i + j) (keep_from i cut ties ds) ≡ passes cut ties ds j
unfolding keep_from member count_of
member-keep_from i cut ties j [] = ground arith
member-keep_from i cut ties zero (d ∷ ds) = ground (
  arith,
  keep_from_below (i + 1) cut ties (i + 0) ds (omega arith),
  keep_from_below (i + 1) cut (ties - 1) (i + 0) ds (omega arith),
)
member-keep_from i cut ties (suc j) (d ∷ ds) =
    let there : i + 1 + j ≡ i + suc j = omega arith in
    let near = rw there at (member-keep_from (i + 1) cut ties j ds) in
    let tied = rw there at (member-keep_from (i + 1) cut (ties - 1) j ds) in
    ground (arith, near, tied)

length-keep_from :
    (i cut ties : ℕ) (ds : List ℕ)
    → length (keep_from i cut ties ds)
      ≡ count_of (λ e. ltb e cut) ds + min ties (count_of (λ e. e == cut) ds)
unfolding keep_from count_of
length-keep_from i cut ties [] = omega arith
length-keep_from i cut ties (d ∷ ds) =
    ground (arith, length-keep_from (i + 1) cut ties ds, length-keep_from (i + 1) cut (ties - 1) ds)

keep_from-IsAscending : (i cut ties : ℕ) (ds : List ℕ) → IsAscending i (keep_from i cut ties ds)
unfolding keep_from
keep_from-IsAscending i cut ties [] = record {}
keep_from-IsAscending i cut ties (d ∷ ds) =
    let near = keep_from-IsAscending (i + 1) cut ties ds in
    let tied = keep_from-IsAscending (i + 1) cut (ties - 1) ds in
    elim (Bool-cases (ltb d cut)) [
      | inl t ↦ rw t (omega arith, near)
      | inr t ↦ elim (Bool-cases ((d == cut) && ltb 0 ties)) [
        | inl u ↦ rw (t, u) (omega arith, tied)
        | inr u ↦ rw (t, u) (lower i (i + 1) _ (omega arith) near)
      ]
    ]

-- A candidate is not before itself.
take_itself :
    (j : ℕ) (ds : List ℕ)
    → j < length ds
    → count_of (λ e. e == get_or ds j 0) (take j ds) < count_of (λ e. e == get_or ds j 0) ds
unfolding count_of
take_itself j [] l = absurd (omega arith)
take_itself zero (d ∷ ds) l = ground arith
take_itself (suc j) (d ∷ ds) l = ground (arith, take_itself j ds (omega arith))

count_of-length : (p : ℕ → Bool) (xs : List ℕ) → count_of p xs ≤ length xs
unfolding count_of
count_of-length p [] = omega arith
count_of-length p (x ∷ xs) = ground (arith, count_of-length p xs)

rank-length : (ds : List ℕ) (j : ℕ) → j < length ds → rank ds j < length ds
rank-length ds j l = omega (
  arith,
  take_itself j ds l,
  below_or_at (get_or ds j 0) ds,
  count_of-length (λ e. leb e (get_or ds j 0)) ds,
)

member-indices_below : (i n x : ℕ) → x < i → member x (indices i n) ≡ false
unfolding indices member
member-indices_below i zero x l = refl
member-indices_below i (suc n) x l = ground (arith, member-indices_below (i + 1) n x (omega arith))

member-indices : (i n j : ℕ) → member (i + j) (indices i n) ≡ ltb j n
unfolding indices member
member-indices i zero j = ground arith
member-indices i (suc n) zero = ground (arith, member-indices_below (i + 1) n (i + 0) (omega arith))
member-indices i (suc n) (suc j) =
    let there : i + 1 + j ≡ i + suc j = omega arith in
    ground (arith, rw there at (member-indices (i + 1) n j))

indices-IsAscending : (i n : ℕ) → IsAscending i (indices i n)
unfolding indices
indices-IsAscending i zero = record {}
indices-IsAscending i (suc n) = (omega arith, indices-IsAscending (i + 1) n)

length-indices : (i n : ℕ) → length (indices i n) ≡ n
unfolding indices
length-indices i zero = refl
length-indices i (suc n) = ap suc (length-indices (i + 1) n)

-- The entries of the cut against the ranks.
passes-rank :
    (ds : List ℕ) (cap cut : ℕ)
    → count_of (λ e. ltb e cut) ds < cap
    → cap ≤ count_of (λ e. leb e cut) ds
    → (j : ℕ)
    → passes cut (cap - count_of (λ e. ltb e cut) ds) ds j
      ≡ (ltb j (length ds) && ltb (rank ds j) cap)
passes-rank ds cap cut few enough j = elim (order (get_or ds j 0) cut) [
  | inl l ↦
      let d = get_or ds j 0 in
      let most = count_of_mono (λ e. leb e d) (λ e. ltb e cut) ds (λ x q. grind arith) in
      let first : rank ds j < cap =
        omega (arith, most, below_or_at d ds, count_of-take (λ e. e == d) j ds) in
      ground (arith, l, first)
  | inr (inl e) ↦ rw e (ground arith)
  | inr (inr l) ↦
      let d = get_or ds j 0 in
      let most = count_of_mono (λ e. leb e cut) (λ e. ltb e d) ds (λ x q. grind arith) in
      let last : cap ≤ rank ds j = omega (arith, most, enough) in ground (arith, l, last)
]
  where
    order : (a b : ℕ) → (a < b) ⊎ ((a ≡ b) ⊎ (b < a))
    order a b = ground arith

count_prefix : (p : ℕ → Bool) (n : ℕ) (xs : List ℕ) → count_of p (take n xs) ≤ n
unfolding count_of
count_prefix p zero xs = omega arith
count_prefix p (suc n) [] = omega arith
count_prefix p (suc n) (x ∷ xs) = ground (arith, count_prefix p n xs)

-- What a ghost set of at most `cap` is, of candidates at these distances.
pub record IsNearest (dists : List ℕ) (cap : ℕ) (o : Option (List ℕ)) : Type 0 where
  pub keep : List ℕ
  pub ends : o ≡ some keep
  pub ascending : IsAscending 0 keep
  pub size : length keep ≡ min cap (length dists)
  pub ranks : (j : ℕ) → member j keep ≡ (ltb j (length dists) && ltb (rank dists j) cap)

all_fit :
    (dists : List ℕ) (cap : ℕ)
    → length dists ≤ cap
    → IsNearest dists cap (some (indices 0 (length dists)))
all_fit dists cap l = record {
  keep = indices 0 (length dists);
  ends = refl;
  ascending = indices-IsAscending 0 (length dists);
  size = omega (arith, length-indices 0 (length dists), l);
  ranks = λ j.
      ap (λ (i : ℕ). member i (indices 0 (length dists))) (omega arith)
      ∙ member-indices 0 (length dists) j
      ∙ ground (arith, rank-length dists j);
}

cut_fits :
    (dists : List ℕ) (cap cut ties : ℕ)
    → count_of (λ e. ltb e cut) dists < cap
    → cap ≤ count_of (λ e. leb e cut) dists
    → ties ≡ cap - count_of (λ e. ltb e cut) dists
    → IsNearest dists cap (some (keep_from 0 cut ties dists))
cut_fits dists cap cut ties few enough e = record {
  keep = keep_from 0 cut ties dists;
  ends = refl;
  ascending = keep_from-IsAscending 0 cut ties dists;
  size = omega (
    arith,
    length-keep_from 0 cut ties dists,
    below_or_at cut dists,
    count_of-length (λ x. leb x cut) dists,
    few,
    enough,
    e,
  );
  ranks = λ j.
      ap (λ (i : ℕ). member i (keep_from 0 cut ties dists)) (omega arith)
      ∙ member-keep_from 0 cut ties j dists
      ∙ ap (λ (n : ℕ). passes cut n dists j) e
      ∙ passes-rank dists cap cut few enough j;
}

-- For a positive cap, nearest keeps, in the order of their indices, exactly the candidates that
-- fewer than cap others come before, by distance and then by index, and as many as the cap or all
-- of them.
pub nearest-IsNearest :
    (dists : List ℕ) (cap : ℕ) → 0 < cap → IsNearest dists cap (nearest dists cap)
unfolding nearest
nearest-IsNearest dists cap some_room = elim (Bool-cases (leb (length dists) cap)) [
  | inl t ↦ rw t (all_fit dists cap (ground arith))
  | inr t ↦
      let edge = sort_by leb dists in
      let cut = get_or edge (cap - 1) 0 in
      let size = length-sort_by leb dists in
      let at =
        cut_at (cap - 1) edge (sort_by-IsSorted leb leb-IsOrder dists) (grind (arith, size)) in
      let less = count_of-sort_by leb (λ e. ltb e cut) dists in
      let most = count_of-sort_by leb (λ e. leb e cut) dists in
      let prefix : count_of (λ e. ltb e cut) (take (cap - 1) edge) ≤ cap - 1 =
        count_prefix (λ e. ltb e cut) (cap - 1) edge in
      let nonzero : (cap == 0) ≡ false = ground arith in
      rw (t, nonzero)
        (cut_fits dists cap cut (cap - count_of (λ e. ltb e cut) (take (cap - 1) edge))
          (omega (arith, at.0, less, prefix, some_room)) (omega (arith, at.1, most, some_room))
          (omega (arith, at.0, less)))
]

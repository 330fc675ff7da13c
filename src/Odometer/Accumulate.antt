-- ===== src/Odometer/Accumulate.antt =====
-- odometer.rs: a call of accumulate, and a second one.
use mathlib.Core.Path.{subst}
use umwelt_rs.Base.{
  ℕ, zero, suc, ◌+◌, ◌-◌, ◌%◌, ◌^◌, ◌≤◌, ◌<◌, ◌≡◌, refl, sym, ap, ◌∙◌, arith, max, Bool, true,
  false, leb, ltb, ◌==◌, ==_iff, ◌&&◌, if◌then◌else◌, some, some_inj, List, [], ◌∷◌, ◌++◌, length,
  length-append, length-drop, take_run, drop_nil, get_or, drop, Bool-cases, inl, inr,
}
use umwelt_rs.Base.Arrays.{
  get_elem?-get_or, resize, length-replicate, replicate, get_or-filled, get_or-lt,
}
use umwelt_rs.Base.Int.{ℤ, int_laws}
use umwelt_rs.Fixed.{Fixed, fixed_zero}
use umwelt_rs.Entity.Live.{LiveSet, contains, id_space, ids}
use umwelt_rs.Entity.Live.Reach.{IsBuilt, live_lem}
use umwelt_rs.Odometer.{
  Odometer, slots, abs_diff, axis_at, reading, measure_all, grow, copied, accumulate,
}
use umwelt_rs.Odometer.Entries.{Entry, entry_at, IsEven, moved, advance, path, entry_at-measure_all}

get_or-drop :
    (prev xs : List Fixed) (j : ℕ)
    → get_or (prev ++ drop (length prev) xs) j fixed_zero
      ≡ (if ltb j (length prev) then axis_at prev j else axis_at xs j)
get_or-drop [] xs j = ground arith
get_or-drop (p ∷ ps) [] zero = ground arith
get_or-drop (p ∷ ps) [] (suc j) =
    let ih = rw (drop_nil {A = Fixed} (length ps)) at (get_or-drop ps [] j) in ground (arith, ih)
get_or-drop (p ∷ ps) (x ∷ xs) zero = ground arith
get_or-drop (p ∷ ps) (x ∷ xs) (suc j) = ground (arith, get_or-drop ps xs j)

copied_lem :
    (n : ℕ) (prev xs : List Fixed)
    → length prev ≡ n
    → n < length xs
    → (length (copied n prev xs) ≡ length xs)
      × ((j : ℕ)
          → axis_at (copied n prev xs) j ≡ (if ltb j n then axis_at prev j else axis_at xs j))
copied_lem n prev xs e l =
    let front = take_run n prev (replicate (length xs - length prev) fixed_zero) e in
    let whole : copied n prev xs ≡ prev ++ drop (length prev) xs = rw (front, e) refl in
    (
      ap (λ (v : List Fixed). length v) whole
          ∙ omega (
            arith,
            length-append prev (drop (length prev) xs),
            length-drop (length prev) xs,
            e,
            l,
          ),
      λ j.
          ap (λ (v : List Fixed). axis_at v j) whole
          ∙ get_or-drop prev xs j
          ∙ ap (λ (k : ℕ). if ltb j k then axis_at prev j else axis_at xs j) e,
    )

total_at :
    (total : List ℕ) (n j : ℕ)
    → get_or (resize total n 0) j 0 ≡ (if ltb j (length total) then get_or total j 0 else 0)
total_at total n j =
    get_or-filled total (n - length total) j 0 ∙ elim (Bool-cases (ltb j (length total))) [
      | inl t ↦ rw t refl
      | inr t ↦ rw t (get_or-lt total j 0 (grind arith))
    ]

reading_lem : (u : Odometer) (j : ℕ) → j < slots u → reading j u ≡ some (entry_at u j).total
unfolding reading slots
reading_lem u j l = get_elem?-get_or u.total j 0 l

abs_diff_self : (a : ℤ) → abs_diff a a ≡ 0
unfolding abs_diff
abs_diff_self a = grind int_laws

module _ (xs ys zs : List Fixed) where
  -- What an entity stands at when it is first seen: nothing moved.
  abbrev pub first_seen : ℕ → Entry
  first_seen j = record { total = 0; x = axis_at xs j; y = axis_at ys j; z = axis_at zs j }

  abbrev pub start : Odometer → ℕ → Entry
  start o j = if ltb j (length o.total) then entry_at o j else first_seen j

  module _ (o : Odometer) (h : IsEven (length o.total) o) (y_even : length xs ≡ length ys)
      (z_even : length xs ≡ length zs) where
    enough_lem : (j : ℕ) → length xs ≤ length o.total → entry_at o j ≡ start o j
    enough_lem j l = elim (Bool-cases (ltb j (length o.total))) [
      | inl t ↦ rw t refl
      | inr t ↦
          rw
            (
              t,
              get_or-lt o.total j 0 (grind arith),
              get_or-lt o.prev_x j fixed_zero (grind (arith, h.x)),
              get_or-lt o.prev_y j fixed_zero (grind (arith, h.y)),
              get_or-lt o.prev_z j fixed_zero (grind (arith, h.z)),
              get_or-lt xs j fixed_zero (grind arith),
              get_or-lt ys j fixed_zero (grind (arith, y_even)),
              get_or-lt zs j fixed_zero (grind (arith, z_even)),
            )
            refl
    ]

    grow_lem :
        IsEven (max (length o.total) (length xs)) (grow xs ys zs o)
        × ((j : ℕ) → entry_at (grow xs ys zs o) j ≡ start o j)
    unfolding grow
    grow_lem = elim (Bool-cases (ltb (length o.total) (length xs))) [
      | inl more ↦
          let l : length o.total < length xs = ground arith in
          let x = copied_lem (length o.total) o.prev_x xs h.x l in
          let y = copied_lem (length o.total) o.prev_y ys h.y (omega (arith, l, y_even)) in
          let z = copied_lem (length o.total) o.prev_z zs h.z (omega (arith, l, z_even)) in
          let filled = length-replicate {A = ℕ} (length xs - length o.total) 0 in
          rw more (
            record {
              total = omega (
                arith,
                l,
                filled,
                length-append o.total (replicate (length xs - length o.total) 0),
              );
              x = omega (arith, l, x.0);
              y = omega (arith, l, y.0, y_even);
              z = omega (arith, l, z.0, z_even);
            },
            λ j. rw (total_at o.total (length xs) j, x.1 j, y.1 j, z.1 j) (ground arith),
          )
      | inr enough ↦
          let l : length xs ≤ length o.total = grind arith in
          let same : length o.total ≡ max (length o.total) (length xs) = omega arith in
          rw enough (subst (λ (n : ℕ). IsEven n o) same h, λ j. enough_lem j l)
    ]

    -- For an odometer of even columns and parallel positions that the live set covers, a call
    -- ends, adds to the reading of every live entity the Manhattan length of its step, saturated
    -- and modulo 2^32, counting a first sight as no step, records where it stands, and leaves the
    -- others as they are.
    pub accumulate_lem :
        (live : LiveSet)
        → IsBuilt live
        → length xs ≤ id_space live
        → (u : Odometer) × (accumulate xs ys zs live o ≡ some u)
          × IsEven (max (length o.total) (length xs)) u
          × ((j : ℕ)
              → entry_at u j ≡ (
                  if contains j live && ltb j (length xs)
                  then moved xs ys zs j (start o j)
                  else start o j))
          × ((j : ℕ) → j < slots u → reading j u ≡ some (entry_at u j).total)
    unfolding accumulate
    accumulate_lem live b covered =
        let (ascending, n, c, i, r) = live_lem live b 0 in
        let (even, first) = grow_lem in
        let all = λ (j : ℕ).
          entry_at-measure_all xs ys zs (max (length o.total) (length xs)) 0 j (ids live)
            (grow xs ys zs o) even (omega arith) ascending in
        let a : (length xs == length ys) ≡ true = (==_iff _ _).1 y_even in
        let d : (length xs == length zs) ≡ true = (==_iff _ _).1 z_even in
        let f : leb (length xs) (id_space live) ≡ true = ground arith in
        (
          measure_all xs ys zs (ids live) (grow xs ys zs o),
          rw (a, d, f) refl,
          (all 0).0,
          λ j. (all j).1 ∙ rw (first j, (live_lem live b j).2) refl,
          reading_lem (measure_all xs ys zs (ids live) (grow xs ys zs o)),
        )

still : (x y z : Fixed) (e : Entry) → advance x y z (advance x y z e) ≡ advance x y z e
unfolding advance path
still x y z e =
    rw (abs_diff_self x, abs_diff_self y, abs_diff_self z)
      (ap (λ (n : ℕ). record { total = n; x = x; y = y; z = z }) (no_more (e.total + path x y z e)))
  where
    no_more : (n : ℕ) → (n % 2 ^ 32 + 0) % 2 ^ 32 ≡ n % 2 ^ 32
    no_more n = omega arith

-- A second call with the same positions and live set ends and changes no entry.
pub accumulate_again :
    (xs ys zs : List Fixed) (o u : Odometer) (live : LiveSet)
    → IsEven (length o.total) o
    → length xs ≡ length ys
    → length xs ≡ length zs
    → IsBuilt live
    → length xs ≤ id_space live
    → accumulate xs ys zs live o ≡ some u
    → (v : Odometer) × (accumulate xs ys zs live u ≡ some v)
      × ((j : ℕ) → entry_at v j ≡ entry_at u j)
accumulate_again xs ys zs o u live h y_even z_even b covered e =
    let (u', e', even', at', r') = accumulate_lem xs ys zs o h y_even z_even live b covered in
    let same : u' ≡ u = some_inj (sym e' ∙ e) in
    let even : IsEven (max (length o.total) (length xs)) u =
      subst (λ (w : Odometer). IsEven (max (length o.total) (length xs)) w) same even' in
    let own : IsEven (length u.total) u = subst (λ n. IsEven n u) (sym even.total) even in
    let (v, ev, even_v, at_v, r) = accumulate_lem xs ys zs u own y_even z_even live b covered in
    let room : length xs ≤ length u.total = omega (arith, even.total) in
    (
      v,
      ev,
      λ j.
          let at_u : entry_at u j ≡ (
              if contains j live && ltb j (length xs)
              then moved xs ys zs j (start xs ys zs o j)
              else start xs ys zs o j) =
            ap (λ (w : Odometer). entry_at w j) (sym same) ∙ at' j in
          let began = enough_lem xs ys zs u own y_even z_even j room in
          at_v j
          ∙ rw (sym began) (settled (contains j live && ltb j (length xs)) xs ys zs j _ _ at_u),
    )
  where
    settled :
        (c : Bool) (xs ys zs : List Fixed) (j : ℕ) (e s : Entry)
        → e ≡ (if c then moved xs ys zs j s else s)
        → (if c then moved xs ys zs j e else e) ≡ e
    settled true xs ys zs j e s q = rw q (still (axis_at xs j) (axis_at ys j) (axis_at zs j) s)
    settled false xs ys zs j e s q = refl

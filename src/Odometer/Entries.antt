-- ===== src/Odometer/Entries.antt =====
-- odometer.rs: one entry through a call.
use umwelt_rs.Base.{
  ℕ, ◌+◌, ◌%◌, ◌^◌, ◌≤◌, ◌<◌, ◌≡◌, refl, ap, ◌∙◌, arith, true, false, leb, ltb, ◌==◌, ==_iff, ◌&&◌,
  if◌then◌else◌, List, [], ◌∷◌, length, get_or, Bool-cases, inl, inr,
}
use umwelt_rs.Base.Arrays.{get_or-set, length-set}
use umwelt_rs.Base.Sets.{member, IsAscending}
use umwelt_rs.Fixed.{Fixed, fixed_zero}
use umwelt_rs.Odometer.{Odometer, abs_diff, saturating_add_u32, axis_at, step, measure, measure_all}

-- What an odometer holds of one entity.
pub record Entry : Type 0 where
  pub total : ℕ
  pub x : Fixed
  pub y : Fixed
  pub z : Fixed

abbrev pub entry_at : Odometer → ℕ → Entry
entry_at o i = record {
  total = get_or o.total i 0;
  x = axis_at o.prev_x i;
  y = axis_at o.prev_y i;
  z = axis_at o.prev_z i;
}

-- The Manhattan length of a step, which saturates.
unfoldable pub path : Fixed → Fixed → Fixed → Entry → ℕ
path x y z e =
    saturating_add_u32 (saturating_add_u32 (abs_diff x e.x) (abs_diff y e.y)) (abs_diff z e.z)

unfoldable pub advance : Fixed → Fixed → Fixed → Entry → Entry
advance x y z e = record { total = (e.total + path x y z e) % 2 ^ 32; x = x; y = y; z = z }

-- Columns of one length.
pub record IsEven (n : ℕ) (o : Odometer) : Type 0 where
  pub total : length o.total ≡ n
  pub x : length o.prev_x ≡ n
  pub y : length o.prev_y ≡ n
  pub z : length o.prev_z ≡ n

module _ (xs ys zs : List Fixed) where
  abbrev pub moved : ℕ → Entry → Entry
  moved i e = advance (axis_at xs i) (axis_at ys i) (axis_at zs i) e

  measure-IsEven : (n i : ℕ) (o : Odometer) → IsEven n o → IsEven n (measure xs ys zs i o)
  unfolding measure
  measure-IsEven n i o h = record {
    total = length-set o.total i _ ∙ h.total;
    x = length-set o.prev_x i _ ∙ h.x;
    y = length-set o.prev_y i _ ∙ h.y;
    z = length-set o.prev_z i _ ∙ h.z;
  }

  entry_at-measure :
      (n i j : ℕ) (o : Odometer)
      → IsEven n o
      → i < n
      → entry_at (measure xs ys zs i o) j
        ≡ (if i == j then moved i (entry_at o i) else entry_at o j)
  unfolding measure advance path step
  entry_at-measure n i j o h l =
      rw
        (
          get_or-set o.total i j ((get_or o.total i 0 + step xs ys zs i o) % 2 ^ 32) 0
              (omega (arith, h.total)),
          get_or-set o.prev_x i j (axis_at xs i) fixed_zero (omega (arith, h.x)),
          get_or-set o.prev_y i j (axis_at ys i) fixed_zero (omega (arith, h.y)),
          get_or-set o.prev_z i j (axis_at zs i) fixed_zero (omega (arith, h.z)),
        )
        (ground arith)

  not_below : (low j : ℕ) (is : List ℕ) → IsAscending low is → j < low → member j is ≡ false
  unfolding member
  not_below low j [] h l = refl
  not_below low j (i ∷ is) (p, h) l = ground (arith, not_below (i + 1) j is h (omega arith))

  choose : ℕ → List ℕ → (ℕ → Entry) → Entry
  choose j is e = if member j is && ltb j (length xs) then moved j (e j) else e j

  break_lem :
      (e : ℕ → Entry) (i j : ℕ) (is : List ℕ)
      → IsAscending (i + 1) is
      → leb (length xs) i ≡ true
      → e j ≡ choose j (i ∷ is) e
  unfolding choose member
  break_lem e i j is a out = elim (Bool-cases (ltb j (length xs))) [
    | inl t ↦
        let none : member j is ≡ false = not_below (i + 1) j is a (grind arith) in
        let apart : (i == j) ≡ false = grind arith in rw (t, none, apart) refl
    | inr t ↦ rw t (ground arith)
  ]

  turn_lem :
      (o : Odometer) (i j : ℕ) (is : List ℕ)
      → IsAscending (i + 1) is
      → entry_at (measure xs ys zs i o) j
        ≡ (if i == j then moved i (entry_at o i) else entry_at o j)
      → leb (length xs) i ≡ false
      → choose j is (entry_at (measure xs ys zs i o)) ≡ choose j (i ∷ is) (entry_at o)
  unfolding choose member
  turn_lem o i j is a here in_it = elim (Bool-cases (i == j)) [
    | inl t ↦
        let same : i ≡ j = (==_iff i j).0 t in
        let none : member j is ≡ false = not_below (i + 1) j is a (omega (arith, same)) in
        let inside : ltb j (length xs) ≡ true = grind (arith, same) in
        let now : entry_at (measure xs ys zs i o) j ≡ moved i (entry_at o i) = here ∙ rw t refl in
        rw (none, t, inside) (now ∙ ap (λ (k : ℕ). moved k (entry_at o k)) same)
    | inr t ↦
        let now : entry_at (measure xs ys zs i o) j ≡ entry_at o j = here ∙ rw t refl in
        rw t (ap (λ (e : Entry). if member j is && ltb j (length xs) then moved j e else e) now)
  ]

  pub entry_at-measure_all :
      (n low j : ℕ) (is : List ℕ) (o : Odometer)
      → IsEven n o
      → length xs ≤ n
      → IsAscending low is
      → IsEven n (measure_all xs ys zs is o)
        × (entry_at (measure_all xs ys zs is o) j
            ≡ (if member j is && ltb j (length xs) then moved j (entry_at o j) else entry_at o j))
  unfolding measure_all member choose
  entry_at-measure_all n low j [] o h l a = (h, refl)
  entry_at-measure_all n low j (i ∷ is) o h l (p, a) = elim (Bool-cases (leb (length xs) i)) [
    | inl out ↦ rw out (h, break_lem (entry_at o) i j is a out)
    | inr in_it ↦
        let one = measure-IsEven n i o h in
        let (even, rest) = entry_at-measure_all n (i + 1) j is (measure xs ys zs i o) one l a in
        let here = entry_at-measure n i j o h (grind arith) in
        rw in_it (even, rest ∙ turn_lem o i j is a here in_it)
  ]

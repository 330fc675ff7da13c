-- ===== src/Map/Wf.antt =====
-- map.rs: the two tables of a map are one injection, and what follows for neighbors.
use umwelt_rs.Base.{
  ℕ, ◌/◌, ◌^◌, ◌<◌, ◌≡◌, ◌↔◌, inl, inr, Option, none, some, [], ◌∷◌, ◌++◌, arith, refl, ◌==◌, sym,
  ◌∙◌, Bool-cases, some_inj,
}
use mathlib.Core.Path.{subst}
use umwelt_rs.Base.Int.{ℤ, pos, negsuc, ◌+ℤ◌, ◌-ℤ◌, IsI32, wrap32}
use umwelt_rs.Base.Result.{ok}
use umwelt_rs.Base.Assoc.{lookup, insert, lookup-insert, nat_eq}
use umwelt_rs.Placement.{Placement, Side, beside}
use umwelt_rs.Map.{
  WorldMap, new, place, placement_of, region_at, neighbor, and_then, placement_beq_iff,
  placement_eq,
}

-- The state after a successful `place`.
abbrev pub placed : WorldMap → ℕ → Placement → WorldMap
placed m region at = record {
  placements = m.placements ++ ((region, at) ∷ []);
  by_region = insert region at m.by_region;
  by_square = insert at region m.by_square;
}

pub place-ok :
    (m m' : WorldMap) (r : ℕ) (s : Placement)
    → place m r s ≡ ok m'
    → (r / 2 ^ 31 ≡ 0)
      × (lookup r m.by_region ≡ none)
      × (lookup s m.by_square ≡ none)
      × (m' ≡ placed m r s)
unfolding place
place-ok m m' r s e = ground arith

-- A square of the grid: its column and row are `i32`.
pub record IsSquare (s : Placement) : Type 0 where
  pub col_i32 : IsI32 s.col
  pub row_i32 : IsI32 s.row

-- The maps that `new` and `place` make; nothing else makes one.
pub data Built : WorldMap → Type 0 where
  empty : {m : WorldMap} → m ≡ new → Built m
  add :
      {m m' : WorldMap} (r : ℕ) (s : Placement)
      → r < 2 ^ 32
      → IsSquare s
      → Built m
      → place m r s ≡ ok m'
      → Built m'

-- A region sits in a square by the one table exactly when the square holds it by the other.
abbrev pub Consistent : WorldMap → Type 0
Consistent m = (r : ℕ) (s : Placement) → (placement_of m r ≡ some s) ↔ (region_at m s ≡ some r)

new-Consistent : Consistent new
unfolding placement_of region_at lookup
new-Consistent r s = (λ e. cc, λ e. cc)

placed-Consistent :
    (m : WorldMap) (r : ℕ) (s : Placement)
    → lookup r m.by_region ≡ none
    → lookup s m.by_square ≡ none
    → Consistent m
    → Consistent (placed m r s)
unfolding placement_of region_at
placed-Consistent m r s fr fs c j t = ground (
  arith,
  lookup-insert r j s m.by_region,
  lookup-insert s t r m.by_square,
  placement_beq_iff s t,
  c j t,
  c r t,
  c j s,
)

consistent : {m : WorldMap} → Built m → Consistent m
consistent (empty e) = rw e new-Consistent
consistent (add {m = m} {m' = m'} r s _ _ b e) =
    let (_, fr, fs, q) = place-ok m m' r s e in rw q (placed-Consistent m r s fr fs (consistent b))

-- In a map built by placements, a region is placed in a square exactly when the square holds the
-- region.
pub Built-Consistent :
    {m : WorldMap}
    → Built m
    → (r : ℕ) (s : Placement) → (placement_of m r ≡ some s) ↔ (region_at m s ≡ some r)
Built-Consistent b r s = consistent b r s

abbrev pub opposite : Side → Side
opposite Side.east = Side.west
opposite Side.west = Side.east
opposite Side.north = Side.south
opposite Side.south = Side.north

step_back :
    (a : ℤ)
    → IsI32 a
    → (wrap32 (wrap32 (a +ℤ pos 1) -ℤ pos 1) ≡ a) × (wrap32 (wrap32 (a -ℤ pos 1) +ℤ pos 1) ≡ a)
unfolding ◌+ℤ◌ ◌-ℤ◌
step_back (pos n) h = (ground arith, ground arith)
step_back (negsuc n) h = (ground arith, ground arith)

-- The square across a side, and back, is the same square, at the edges of `i32` too.
beside-opposite : (s : Placement) (d : Side) → IsSquare s → beside (beside s d) (opposite d) ≡ s
unfolding beside
beside-opposite s Side.east h = λ i. record { col = (step_back s.col h.col_i32).0 i; row = s.row }
beside-opposite s Side.west h = λ i. record { col = (step_back s.col h.col_i32).1 i; row = s.row }
beside-opposite s Side.north h = λ i. record { col = s.col; row = (step_back s.row h.row_i32).0 i }
beside-opposite s Side.south h = λ i. record { col = s.col; row = (step_back s.row h.row_i32).1 i }

new-empty : (r : ℕ) (s : Placement) → ¬ (placement_of new r ≡ some s)
unfolding placement_of lookup
new-empty r s e = cc

placed-IsSquare :
    (m : WorldMap) (k : ℕ) (t : Placement) (r : ℕ) (s : Placement)
    → IsSquare t
    → (placement_of m r ≡ some s → IsSquare s)
    → placement_of (placed m k t) r ≡ some s
    → IsSquare s
unfolding placement_of
placed-IsSquare m k t r s h old e = elim (Bool-cases (k == r)) [
  | inl q ↦
      let f : some t ≡ some s = rw q at (sym (lookup-insert k r t m.by_region) ∙ e) in
      subst IsSquare (some_inj f) h
  | inr q ↦ old (rw q at (sym (lookup-insert k r t m.by_region) ∙ e))
]

pub and_then-some {ℓ} :
    {A B : Type ℓ} (o : Option A) (f : A → Option B) {b : B}
    → and_then o f ≡ some b
    → (a : A) × (o ≡ some a) × (f a ≡ some b)
and_then-some none f e = cc
and_then-some (some a) f e = (a, refl, e)

-- Where every placed region stands is a square.
pub Built-IsSquare :
    {m : WorldMap} → Built m → (r : ℕ) (s : Placement) → placement_of m r ≡ some s → IsSquare s
unfolding placement_of
Built-IsSquare (empty q) r s e = absurd (new-empty r s (rw q at e))
Built-IsSquare (add {m = m} {m' = m'} k t _ h b p) r s e =
    let (_, _, _, q) = place-ok m m' k t p in
    placed-IsSquare m k t r s h (Built-IsSquare b r s) (rw q at e)

-- In a map built by placements, if q is the neighbor of r across a side, r is the neighbor of q
-- across the opposite side.
pub neighbor-sym :
    {m : WorldMap}
    → Built m
    → (r q : ℕ) (d : Side) → neighbor m r d ≡ some q
    → neighbor m q (opposite d) ≡ some r
unfolding neighbor
neighbor-sym {m} b r q d e =
    let (s, at_s, at_q) = and_then-some (placement_of m r) (λ s. region_at m (beside s d)) e in
    let home = beside-opposite s d (Built-IsSquare b r s at_s) in
    let of_q : placement_of m q ≡ some (beside s d) = (Built-Consistent b q (beside s d)).1 at_q in
    rw (of_q, and_then, home) ((Built-Consistent b r s).0 at_s)

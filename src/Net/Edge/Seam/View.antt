-- ===== src/Net/Edge/Seam/View.antt =====
-- seam.rs: an observer is shown in every square that its view reaches into.
use umwelt_rs.Base.{
  ◌≡◌, ◌≢◌, refl, sym, ap, ◌∙◌, arith, ◌⊎◌, inl, inr, Bool, true, false, ◌&&◌, List, [], ◌∷◌, ◌++◌,
}
use mathlib.Core.Path.{subst}
use mathlib.Core.List.{Mem, mem-append_left, mem-append_right, mem-cons_self}
use umwelt_rs.Base.Int.{ℤ, pos, negsuc, ◌+ℤ◌, ◌-ℤ◌, wrap32, IsI32}
use umwelt_rs.Placement.{Placement}
use umwelt_rs.Pos.{Pos3, horizontal, from_local}
use umwelt_rs.Map.Wf.{IsSquare}
use umwelt_rs.Config.{WorldConfig, cell_of, contains_2d}
use umwelt_rs.Config.Valid.{IsValid}
use umwelt_rs.Config.Cells.{FitsU16, cell_of-Holds, contains_2d-IsInside}
use umwelt_rs.Subscription.Coverage.{Near}
use umwelt_rs.Net.Edge.Seam.{past_last, before_first, push_if, squares_in_view}
use umwelt_rs.Net.Edge.Seam.Sides.{Across, to_sides}

wrap32_id : (a : ℤ) → IsI32 a → wrap32 a ≡ a
wrap32_id (pos n) h = ground arith
wrap32_id (negsuc n) h = ground arith

abbrev Push : Type 0
Push = Bool × ℤ × ℤ

-- A run of conditional pushes.
push_all : List Push → List Placement → List Placement
push_all [] out = out
push_all ((b, col, row) ∷ es) out = push_all es (push_if b col row out)

-- One of the pushes is taken, and pushes the square.
abbrev Pushes : Placement → List Push → Type 0
Pushes t [] = ⊥
Pushes t ((b, col, row) ∷ es) = ((b ≡ true) × (t.col ≡ col) × (t.row ≡ row)) ⊎ Pushes t es

module _ (t : Placement) (k : IsI32 t.col) (l : IsI32 t.row) where
  push_keeps :
      (b : Bool) (col row : ℤ) (out : List Placement) → Mem t out → Mem t (push_if b col row out)
  unfolding push_if
  push_keeps true col row out h = mem-append_left _ h
  push_keeps false col row out h = h

  pushed :
      (b : Bool) (col row : ℤ) (out : List Placement)
      → b ≡ true
      → t.col ≡ col
      → t.row ≡ row
      → Mem t (push_if b col row out)
  unfolding push_if
  pushed b col row out h e f =
      let same : record { col = wrap32 col; row = wrap32 row } ≡ t = λ i. record {
        col = (ap wrap32 (sym e) ∙ wrap32_id t.col k) i;
        row = (ap wrap32 (sym f) ∙ wrap32_id t.row l) i;
      } in
      rw h (
        subst (λ (s : Placement). Mem t (out ++ s ∷ [])) (sym same)
          (mem-append_right out mem-cons_self))

  keep_all : (es : List Push) (out : List Placement) → Mem t out → Mem t (push_all es out)
  unfolding push_all
  keep_all [] out h = h
  keep_all ((b, col, row) ∷ es) out h =
      keep_all es (push_if b col row out) (push_keeps b col row out h)

  push_all-Mem : (es : List Push) (out : List Placement) → Pushes t es → Mem t (push_all es out)
  unfolding push_all
  push_all-Mem [] out h = absurd h
  push_all-Mem ((b, col, row) ∷ es) out (inl (h, e, f)) =
      keep_all es (push_if b col row out) (pushed b col row out h e f)
  push_all-Mem ((b, col, row) ∷ es) out (inr h) = push_all-Mem es (push_if b col row out) h

both : {a b : Bool} → a ≡ true → b ≡ true → (a && b) ≡ true
both e f = rw (e, f) refl

module _ (cfg : WorldConfig) (square : Placement) (local : Pos3) where
  abbrev pushes : List Push
  pushes =
      let c = cell_of cfg (horizontal local) in
      let east = past_last cfg c.x in
      let west = before_first cfg c.x in
      let north = past_last cfg c.y in
      let south = before_first cfg c.y in
      let right = square.col +ℤ pos 1 in
      let left = square.col -ℤ pos 1 in
      let up = square.row +ℤ pos 1 in
      let down = square.row -ℤ pos 1 in
      (east, right, square.row)
      ∷ (west, left, square.row)
      ∷ (north, square.col, up)
      ∷ (south, square.col, down)
      ∷ (east && north, right, up)
      ∷ (east && south, right, down)
      ∷ (west && north, left, up)
      ∷ (west && south, left, down)
      ∷ []

  squares_in_view-pushes : squares_in_view cfg square local ≡ push_all pushes []
  unfolding squares_in_view push_all
  squares_in_view-pushes = refl

  -- The squares of two positions that see each other, in one of the eight ways.
  shown :
      (t : Placement)
      → square ≢ t
      → Across cfg (cell_of cfg (horizontal local)).x square.col t.col
      → Across cfg (cell_of cfg (horizontal local)).y square.row t.row
      → Pushes t pushes
  shown t apart (inl x) (inl y) = absurd (apart (λ i. record { col = sym x i; row = sym y i }))
  shown t apart (inr (inl (x, e))) (inl y) = inl (e, x, y)
  shown t apart (inr (inr (x, e))) (inl y) = inr (inl (e, x, y))
  shown t apart (inl x) (inr (inl (y, e))) = inr (inr (inl (e, x, y)))
  shown t apart (inl x) (inr (inr (y, e))) = inr (inr (inr (inl (e, x, y))))
  shown t apart (inr (inl (x, e))) (inr (inl (y, f))) = inr (inr (inr (inr (inl (both e f, x, y)))))
  shown t apart (inr (inl (x, e))) (inr (inr (y, f))) =
      inr (inr (inr (inr (inr (inl (both e f, x, y))))))
  shown t apart (inr (inr (x, e))) (inr (inl (y, f))) =
      inr (inr (inr (inr (inr (inr (inl (both e f, x, y)))))))
  shown t apart (inr (inr (x, e))) (inr (inr (y, f))) =
      inr (inr (inr (inr (inr (inr (inr (inl (both e f, x, y))))))))

-- In a valid configuration whose cells per axis fit a u16, an observer in a region sees into every
-- other square that has a position within the view radius of it on both axes.
pub squares_in_view-Mem :
    (cfg : WorldConfig) (square t : Placement) (p q : Pos3)
    → IsValid cfg
    → FitsU16 cfg
    → IsSquare t
    → square ≢ t
    → contains_2d cfg (horizontal p) ≡ true
    → contains_2d cfg (horizontal q) ≡ true
    → Near cfg (from_local p square cfg.region_size).x (from_local q t cfg.region_size).x
    → Near cfg (from_local p square cfg.region_size).y (from_local q t cfg.region_size).y
    → Mem t (squares_in_view cfg square p)
unfolding from_local horizontal
squares_in_view-Mem cfg square t p q v f s apart hp hq nx ny =
    let (c, cx, cy) = cell_of-Holds cfg (horizontal p) v f hp in
    let i = contains_2d-IsInside cfg (horizontal p) hp in
    let j = contains_2d-IsInside cfg (horizontal q) hq in
    let x = to_sides cfg square.col t.col p.x q.x _ v cx i.x_low i.x_high j.x_low j.x_high nx in
    let y = to_sides cfg square.row t.row p.y q.y _ v cy i.y_low i.y_high j.y_low j.y_high ny in
    rw (squares_in_view-pushes cfg square p)
      (push_all-Mem t s.col_i32 s.row_i32 (pushes cfg square p) [] (shown cfg square p t apart x y))

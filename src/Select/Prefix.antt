-- ===== src/Select/Prefix.antt =====
-- select.rs: the records are the prefix that scored, as far as it fits.
use umwelt_rs.Base.{
  ℕ, zero, suc, ◌≤◌, ◌<◌, ◌≡◌, arith, true, ltb, List, [], ◌∷◌, take, drop, All, Bool-cases, inl,
  inr,
}
use umwelt_rs.Base.Sort.{IsSorted}
use umwelt_rs.Select.{Ranked, before, leading}

pub leading-take : (c : ℕ) (rs : List Ranked) → leading (take c rs) ≤ c
unfolding leading
leading-take zero rs = omega arith
leading-take (suc c) [] = omega arith
leading-take (suc c) (r ∷ rs) = ground (arith, leading-take c rs)

pub leading-positive :
    (c : ℕ) (rs : List Ranked) → All (λ r. 0 < r.score) (take (leading (take c rs)) rs)
unfolding leading
leading-positive zero rs = record {}
leading-positive (suc c) [] = record {}
leading-positive (suc c) (r ∷ rs) = elim (Bool-cases (ltb 0 r.score)) [
  | inl t ↦ rw t (ground arith, leading-positive c rs)
  | inr t ↦ rw t (record {})
]

no_more :
    (r : Ranked) (rs : List Ranked)
    → r.score ≡ 0
    → All (λ s. before r s ≡ true) rs
    → All (λ s. s.score ≡ 0) rs
unfolding before
no_more r [] z h = record {}
no_more r (s ∷ rs) z (p, h) = (grind arith, no_more r rs z h)

pub leading-zero :
    (c : ℕ) (rs : List Ranked)
    → IsSorted before rs
    → leading (take c rs) < c
    → All (λ r. r.score ≡ 0) (drop (leading (take c rs)) rs)
unfolding leading
leading-zero zero rs h l = absurd (omega arith)
leading-zero (suc c) [] h l = record {}
leading-zero (suc c) (r ∷ rs) (below, h) l = elim (Bool-cases (ltb 0 r.score)) [
  | inl t ↦ rw t (leading-zero c rs h (omega (arith, rw t at l)))
  | inr t ↦ let z : r.score ≡ 0 = grind arith in rw t (z, no_more r rs z below)
]

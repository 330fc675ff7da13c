-- ===== src/Ghost/Probe.antt =====
-- ghost.rs: a probe ends, at the entry or at the first empty slot.
use umwelt_rs.Base.{
  ℕ, zero, suc, ◌+◌, ◌^◌, ◌≤◌, ◌<◌, ◌≡◌, refl, sym, ap, ◌∙◌, arith, ◌==◌, Option, some, List,
  length, ◌≢◌, Bool-cases, inl, inr, ◌⊎◌,
}
use mathlib.Core.Path.{subst}
use umwelt_rs.Base.Result.{Result, ok, err}
use umwelt_rs.Ghost.{Ghost, empty, slot_at, find_from, find, home_in}
use umwelt_rs.Ghost.Ring.{
  dist, step, after-step, dist-step, dist_full, dist_inj, dist_near, step-lt, home_in-lt,
}

abbrev pub id_at : List Ghost → ℕ → ℕ
id_at slots i = (slot_at slots i).id

-- Slots of a power of two.
pub record IsSized (slots : List Ghost) : Type 0 where
  pub bits : ℕ
  pub size : length slots ≡ 2 ^ bits
  pub small : bits < 32

-- No slot before `i`, on the way from `h`, is empty or holds `x`.
abbrev pub Passed : ℕ → List Ghost → ℕ → ℕ → ℕ → Type 0
Passed n slots x h i =
    (q : ℕ) → q < n → dist n h q < dist n h i → (id_at slots q ≢ empty) × (id_at slots q ≢ x)

-- What a probe for `x` from `h` answers.
pub data Probed (n : ℕ) (slots : List Ghost) (x h : ℕ) (o : Option (Result ℕ ℕ)) : Type 0 where
  hit :
      (p : ℕ)
      → p < n
      → id_at slots p ≡ x
      → Passed n slots x h p
      → o ≡ some (ok p)
      → Probed n slots x h o
  miss :
      (p : ℕ)
      → p < n
      → id_at slots p ≡ empty
      → Passed n slots x h p
      → o ≡ some (err p)
      → Probed n slots x h o

-- Every entry can be reached from its home, and no two entries have one id.
pub record Chained (n : ℕ) (hm : ℕ → ℕ) (slots : List Ghost) : Type 0 where
  pub path :
      (p q : ℕ)
      → p < n
      → q < n
      → id_at slots p ≢ empty
      → dist n (hm (id_at slots p)) q < dist n (hm (id_at slots p)) p
      → id_at slots q ≢ empty
  pub uniq :
      (p q : ℕ) → p < n → q < n → id_at slots p ≢ empty → id_at slots p ≡ id_at slots q → p ≡ q

Passed-step :
    (n : ℕ) (slots : List Ghost) (x h i e : ℕ)
    → h < n
    → i < n
    → e < n
    → id_at slots e ≡ empty
    → id_at slots i ≢ empty
    → id_at slots i ≢ x
    → Passed n slots x h i
    → (dist n h i + 1 < n) × Passed n slots x h (step n i)
Passed-step n slots x h i e a b c v full other before =
    let apart : e ≢ i = λ q. full (ap (id_at slots) (sym q) ∙ v) in
    let same = λ (q : dist n h e ≡ dist n h i). apart (dist_inj n h e i a c b q) in
    let short : dist n h i + 1 < n = grind (
      arith,
      dist_full n h e a c,
      dist_full n h i a b,
      λ (l : dist n h e < dist n h i). (before e c l).0 v,
      same,
    ) in
    (
      short,
      λ q l d. elim (dist_near n h i q a b l short d) [
        | inl near ↦ before q l near
        | inr eq ↦
            (λ w. full (ap (id_at slots) (sym eq) ∙ w), λ w. other (ap (id_at slots) (sym eq) ∙ w))
      ],
    )

pub probe :
    (fuel k : ℕ) (slots : List Ghost) (x h i e : ℕ)
    → length slots ≡ 2 ^ k
    → h < 2 ^ k
    → i < 2 ^ k
    → e < 2 ^ k
    → id_at slots e ≡ empty
    → Passed (2 ^ k) slots x h i
    → 2 ^ k ≤ dist (2 ^ k) h i + fuel
    → Probed (2 ^ k) slots x h (find_from fuel slots x i)
unfolding find_from
probe zero k slots x h i e l a b c v before enough =
    absurd (omega (arith, dist_full (2 ^ k) h i a b))
probe (suc fuel) k slots x h i e l a b c v before enough = elim (Bool-cases (id_at slots i == x)) [
  | inl t ↦ hit i b (ground arith) before (rw (t, find_from) refl)
  | inr t ↦ elim (Bool-cases (id_at slots i == empty)) [
    | inl u ↦ miss i b (ground arith) before (rw (t, u, find_from) refl)
    | inr u ↦
        let (short, behind) =
          Passed-step (2 ^ k) slots x h i e a b c v (ground arith) (ground arith) before in
        let s = after-step k slots i l b in
        rw (t, u, find_from, s)
          (probe fuel k slots x h (step (2 ^ k) i) e l a (step-lt (2 ^ k) i b) c v behind
            (omega (arith, dist-step (2 ^ k) h i a b short)))
  ]
]

-- Where an id stands, or would.
pub data Located (slots : List Ghost) (x : ℕ) : Type 0 where
  found :
      (p : ℕ) → p < length slots → id_at slots p ≡ x → find slots x ≡ some (ok p) → Located slots x
  absent :
      (p : ℕ)
      → p < length slots
      → id_at slots p ≡ empty
      → Passed (length slots) slots x (home_in slots x) p
      → ((q : ℕ) → q < length slots → id_at slots q ≢ x)
      → find slots x ≡ some (err p)
      → Located slots x

pub dist_self : (n h : ℕ) → dist n h h ≡ 0
dist_self n h = grind arith

pub nothing_passed : (n h q : ℕ) → dist n h q < dist n h h → ⊥
nothing_passed n h q l = omega (arith, dist_self n h)

-- The id of a probe that ended at an empty slot is nowhere.
pub order : (a b : ℕ) → (a < b) ⊎ ((a ≡ b) ⊎ (b < a))
order a b = ground arith

nowhere :
    (n : ℕ) (hm : ℕ → ℕ) (slots : List Ghost) (x p : ℕ)
    → Chained n hm slots
    → x ≢ empty
    → hm x < n
    → p < n
    → id_at slots p ≡ empty
    → Passed n slots x (hm x) p
    → (q : ℕ) → q < n
    → id_at slots q ≢ x
nowhere n hm slots x p c real a b v before q l at_q =
    let there : id_at slots q ≢ empty = λ w. real (sym at_q ∙ w) in
    let h : hm (id_at slots q) ≡ hm x = ap hm at_q in
    elim (order (dist n (hm x) p) (dist n (hm x) q)) [
      | inl less ↦ c.path q p l b there (subst (λ m. dist n m p < dist n m q) (sym h) less) v
      | inr (inl same) ↦ there (ap (id_at slots) (sym (dist_inj n (hm x) p q a b l same)) ∙ v)
      | inr (inr more) ↦ (before q l more).1 at_q
    ]

-- A probe of a table with an empty slot ends, at the entry of the id, or where there is none.
pub find-Located :
    (slots : List Ghost) (x e : ℕ)
    → IsSized slots
    → Chained (length slots) (home_in slots) slots
    → e < length slots
    → id_at slots e ≡ empty
    → x ≢ empty
    → Located slots x
unfolding find
find-Located slots x e z c l v real =
    let k = z.bits in
    let h = home_in slots x in
    let low : h < length slots = rw z.size (home_in-lt k slots x z.size z.small) in
    let low_k : h < 2 ^ k = home_in-lt k slots x z.size z.small in
    let ended : Probed (length slots) slots x h (find_from (length slots) slots x h) =
      subst (λ n. Probed n slots x h (find_from (length slots) slots x h)) (sym z.size)
        (probe (length slots) k slots x h h e z.size low_k low_k (omega (arith, z.size)) v
          (λ q a d. absurd (nothing_passed (2 ^ k) h q d)) (omega (arith, z.size))) in
    elim ended [
      | hit p a at_p before o ↦ found p a at_p o
      | miss p a at_p before o ↦
          absent p a at_p before
            (nowhere (length slots) (home_in slots) slots x p c real low a at_p before) o
    ]

-- ===== src/Sim/Handoff/Kept.antt =====
-- handoff.rs: a slot against its mark and what will come to it.
use mathlib.Core.Path.{subst}
use umwelt_rs.Base.{
  ℕ, zero, suc, ◌-◌, ◌≤◌, ◌≡◌, ◌≢◌, refl, sym, ap, ◌∙◌, ◌⊎◌, arith, Bool, true, false, leb, ltb,
  ◌==◌, ==_iff, ◌&&◌, ◌||◌, not, if◌then◌else◌, List, [], ◌∷◌, length, get_or, Bool-cases, inl, inr,
}
use umwelt_rs.Base.Arrays.{set, resize, get_or-set, get_or-lt, get_or-filled}
use umwelt_rs.Base.Sets.{member}
use umwelt_rs.Sim.Handoff.{
  Payload, Slot, slot_default, Holder, by_tick, Io, parked, scanning, draining, holding, sending,
  stopped, Shared, is_nil, slot_of,
}

set_past {ℓ} : {A : Type ℓ} (xs : List A) (i : ℕ) (v : A) → length xs ≤ i → set xs i v ≡ xs
set_past [] i v h = refl
set_past (x ∷ xs) zero v h = absurd (omega arith)
set_past (x ∷ xs) (suc i) v h = ap (λ (l : List _). x ∷ l) (set_past xs i v (omega arith))

-- A write to one slot.
pub slot_of-set :
    (i j : ℕ) (v : Slot) (slots : List Slot)
    → get_or (set slots i v) j slot_default
      ≡ (if (i == j) && ltb i (length slots) then v else get_or slots j slot_default)
slot_of-set i j v slots = elim (Bool-cases (ltb i (length slots))) [
  | inl t ↦ rw t (get_or-set slots i j v slot_default (grind arith) ∙ ground arith)
  | inr t ↦ rw (t, set_past slots i v (grind arith)) (ground arith)
]

pub differ : false ≢ true
differ e = cc

abbrev pub is_tick : Holder → Bool
is_tick by_tick = true
is_tick _ = false

-- Whether the pass that runs will come to a slot, if its thread lives on.
abbrev pub covers : Io → ℕ → Bool
covers parked j = false
covers (scanning i found) j = leb i j || member j found
covers (draining rest) j = member j rest
covers (holding i rest) j = (i == j) || member j rest
covers (sending i p rest) j = member j rest
covers stopped j = false

abbrev pub noticed : Bool → Io → ℕ → Slot → Bool
noticed has_work io j v = has_work || (is_tick v.lock || covers io j)

-- A slot is marked when its buffer is not empty, and then it is noticed.
pub record IsKept (has_work : Bool) (io : Io) (j : ℕ) (v : Slot) : Type 0 where
  pub marked : v.ready ≡ not (is_nil v.buf)
  pub awaited : v.ready ≡ true → noticed has_work io j v ≡ true

-- Where the I/O thread is gone, nothing notices a slot any more.
abbrev pub excused : Shared → Bool
excused s = s.has_work || not s.alive

abbrev pub in_call : Io → Bool
in_call (sending i p rest) = true
in_call io = false

-- How the I/O thread came to be gone: the wrapped sink panicked in a call, or the handoff was closed.
abbrev pub Gone : Shared → Type 0
Gone s = (in_call s.io ≡ true) ⊎ ((s.io ≡ stopped) × (s.running ≡ false))

pub record IsSound (s : Shared) : Type 0 where
  pub slots : (j : ℕ) → IsKept (excused s) s.io j (slot_of s j)
  pub count : s.delivered ≡ length s.sent
  pub gone : s.alive ≡ false → Gone s
  pub over : s.io ≡ stopped → s.alive ≡ false
  pub last : s.closing ≡ true → s.running ≡ false

-- A thread between two calls of the sink, and not at its end, is alive.
pub alive_at :
    (s : Shared) (io : Io)
    → IsSound s
    → s.io ≡ io
    → in_call io ≡ false
    → io ≢ stopped
    → s.alive ≡ true
alive_at s io h e quiet on = elim (Bool-cases s.alive) [
  | inl t ↦ t
  | inr t ↦ elim (h.gone t) [
    | inl c ↦ absurd (differ (sym quiet ∙ ap in_call (sym e) ∙ c))
    | inr (c, _) ↦ absurd (on (sym e ∙ c))
  ]
]

pub not_nil : (p : Payload) → p ≢ [] → is_nil p ≡ false
not_nil [] h = absurd (h refl)
not_nil (b ∷ p) h = refl

pub write :
    (has_work : Bool) (io : Io) (i : ℕ) (v : Slot) (slots : List Slot)
    → IsKept has_work io i v
    → ((j : ℕ)
        → ((i == j) && ltb i (length slots)) ≡ false
        → IsKept has_work io j (get_or slots j slot_default))
    → (j : ℕ) → IsKept has_work io j (get_or (set slots i v) j slot_default)
write has_work io i v slots new old j = elim (Bool-cases ((i == j) && ltb i (length slots))) [
  | inl t ↦
      let same : i ≡ j = (==_iff i j).0 (grind arith) in
      rw (slot_of-set i j v slots, t) (subst (λ (k : ℕ). IsKept has_work io k v) same new)
  | inr t ↦ rw (slot_of-set i j v slots, t) (old j t)
]

-- A slot stays kept where it is noticed still.
pub still :
    (a b : Bool) (io k : Io) (j : ℕ) (v : Slot)
    → IsKept a io j v
    → (v.ready ≡ true → noticed a io j v ≡ true → noticed b k j v ≡ true)
    → IsKept b k j v
still a b io k j v h f = record { marked = h.marked; awaited = λ r. f r (h.awaited r) }

pub default_of :
    (slots : List Slot) (n j : ℕ)
    → get_or (resize slots n slot_default) j slot_default ≡ get_or slots j slot_default
default_of slots n j = get_or-filled slots (n - length slots) j slot_default

pub past_end :
    (i j : ℕ) (slots : List Slot)
    → (i == j) ≡ true
    → ((i == j) && ltb i (length slots)) ≡ false
    → (get_or slots j slot_default).ready ≡ false
past_end i j slots w t = ap (λ (v : Slot). v.ready) (get_or-lt slots j slot_default (grind arith))

-- ===== src/Sim/Handoff/Line.antt =====
-- handoff.rs: the payloads of one viewer in a row, those handed over first.
use mathlib.Core.Path.{subst}
use mathlib.Core.List.{Sublist, sublist-append_left}
use mathlib.Core.List.Sublist
use umwelt_rs.Base.{
  ℕ, ◌+◌, ◌<◌, ◌≡◌, ◌≢◌, refl, sym, ap, ◌∙◌, arith, true, false, ltb, ◌==◌, ==_iff, ◌&&◌,
  if◌then◌else◌, Option, none, some, List, [], ◌∷◌, ◌++◌, append-nil, append_assoc, length, get_or,
  Bool-cases, inl, inr,
}
use umwelt_rs.Base.Arrays.{set, get_or-lt}
use umwelt_rs.Sim.Handoff.{
  Payload, Slot, slot_default, free, by_tick, by_io, Io, draining, holding, sending, Shared, is_nil,
  slot_of, stash, signal, grow, lock, take, deliver, end_pass,
}
use umwelt_rs.Sim.Handoff.Kept.{slot_of-set, default_of, differ, not_nil}

-- Those of one viewer, in order.
unfoldable pub for_viewer : ℕ → List (ℕ × Payload) → List Payload
for_viewer j [] = []
for_viewer j (x ∷ xs) = let rest = for_viewer j xs in if x.0 == j then x.1 ∷ rest else rest

pub for_viewer-append :
    (j : ℕ) (xs ys : List (ℕ × Payload))
    → for_viewer j (xs ++ ys) ≡ for_viewer j xs ++ for_viewer j ys
unfolding for_viewer
for_viewer-append j [] ys = refl
for_viewer-append j (x ∷ xs) ys = ground (arith, for_viewer-append j xs ys)

unfoldable pub last_of {ℓ} : {A : Type ℓ} → List A → Option A
last_of [] = none
last_of (x ∷ xs) = elim (last_of xs) [ none ↦ some x | some y ↦ some y ]

last_of-append {ℓ} : {A : Type ℓ} (xs : List A) (x : A) → last_of (xs ++ x ∷ []) ≡ some x
unfolding last_of
last_of-append [] x = refl
last_of-append (y ∷ xs) x = rw (last_of-append xs x) refl

-- In a buffer, and in a call of the wrapped sink.
abbrev pub waiting : Slot → List Payload
waiting v = if is_nil v.buf then [] else v.buf ∷ []

abbrev pub in_flight : Io → ℕ → List Payload
in_flight (sending i p rest) j = if i == j then p ∷ [] else []
in_flight io j = []

-- What the sink was handed for a viewer, what is on its way, and what waits.
abbrev pub line : Shared → ℕ → List Payload
line s j = for_viewer j s.sent ++ (in_flight s.io j ++ waiting (slot_of s j))

-- Nothing but payloads that were stashed, in their order, and the last of them at the end.
pub record IsLatest (line stashed : List Payload) : Type 0 where
  pub among : Sublist line stashed
  pub newest : last_of line ≡ last_of stashed

-- A step that is no stash moves a payload along its line, or leaves it.
abbrev SameLine : Shared → Shared → Type 0
SameLine s t = (j : ℕ) → line t j ≡ line s j

waiting-set :
    (i j : ℕ) (v : Slot) (slots : List Slot)
    → waiting v ≡ waiting (get_or slots i slot_default)
    → waiting (get_or (set slots i v) j slot_default) ≡ waiting (get_or slots j slot_default)
waiting-set i j v slots e =
    ap waiting (slot_of-set i j v slots) ∙ elim (Bool-cases ((i == j) && ltb i (length slots))) [
      | inl t ↦
          rw t (
            e
            ∙ ap (λ (k : ℕ). waiting (get_or slots k slot_default)) ((==_iff i j).0 (grind arith)))
      | inr t ↦ rw t refl
    ]

module _ (s : Shared) where
  pub line-signal : (i : ℕ) → SameLine s (signal i s)
  unfolding signal
  line-signal i j =
      ap (λ (w : List Payload). for_viewer j s.sent ++ (in_flight s.io j ++ w))
        (waiting-set i j (record (slot_of s i) { lock = free }) s.slots refl)

  pub line-grow : (i : ℕ) → SameLine s (grow i s)
  unfolding grow
  line-grow i j =
      ap (λ (v : Slot). for_viewer j s.sent ++ (in_flight s.io j ++ waiting v))
        (default_of s.slots (i + 1) j)

  -- Where nothing is in flight before or after, and no buffer changes.
  pub idle_line :
      (io : Io)
      → s.io ≡ io
      → (j : ℕ) → in_flight io j ≡ []
      → for_viewer j s.sent ++ waiting (slot_of s j) ≡ line s j
  idle_line io e j empty =
      ap (λ (f : List Payload). for_viewer j s.sent ++ (f ++ waiting (slot_of s j)))
        (sym (ap (λ (i : Io). in_flight i j) e ∙ empty))

  pub line-lock : (i : ℕ) (rest : List ℕ) → s.io ≡ draining (i ∷ rest) → SameLine s (lock i rest s)
  unfolding lock
  line-lock i rest e j =
      ap (λ (w : List Payload). for_viewer j s.sent ++ w)
        (waiting-set i j (record (slot_of s i) { lock = by_io }) s.slots refl)
      ∙ idle_line (draining (i ∷ rest)) e j refl

  pub line-take : (i : ℕ) (rest : List ℕ) → s.io ≡ holding i rest → SameLine s (take i rest s)
  unfolding take
  line-take i rest e j =
      let v : Slot = record { buf = []; ready = false; lock = free } in
      elim (Bool-cases (is_nil (slot_of s i).buf)) [
        | inl t ↦
            let none : waiting v ≡ waiting (slot_of s i) = rw t refl in
            rw t
              (ap (λ (w : List Payload). for_viewer j s.sent ++ w) (waiting-set i j v s.slots none))
            ∙ idle_line (holding i rest) e j refl
        | inr t ↦
            rw t (ap (λ (w : List Payload). for_viewer j s.sent ++ w) (taken i j t))
            ∙ idle_line (holding i rest) e j refl
      ]
    where
      taken :
          (i j : ℕ)
          → is_nil (slot_of s i).buf ≡ false
          → (if i == j then (slot_of s i).buf ∷ [] else [])
              ++ waiting (
                  get_or
                    (set s.slots i (record { buf = []; ready = false; lock = free }))
                    j
                    slot_default)
            ≡ waiting (slot_of s j)
      taken i j t = elim (Bool-cases (i == j)) [
        | inl w ↦
            let same : i ≡ j = (==_iff i j).0 w in
            let inside : ltb i (length s.slots) ≡ true =
              elim (Bool-cases (ltb i (length s.slots))) [
                | inl u ↦ u
                | inr u ↦ absurd (
                    differ (
                      sym t
                      ∙ ap (λ (v : Slot). is_nil v.buf)
                          (get_or-lt s.slots i slot_default (grind arith))))
              ] in
            let here : waiting (slot_of s i) ≡ (slot_of s i).buf ∷ [] = rw t refl in
            rw
              (slot_of-set i j (record { buf = []; ready = false; lock = free }) s.slots, w, inside)
              (sym here ∙ ap (λ (k : ℕ). waiting (slot_of s k)) same)
        | inr w ↦
            rw (slot_of-set i j (record { buf = []; ready = false; lock = free }) s.slots, w) refl
      ]

  pub line-deliver :
      (i : ℕ) (p : Payload) (rest : List ℕ)
      → s.io ≡ sending i p rest
      → SameLine s (deliver i p rest s)
  unfolding deliver for_viewer
  line-deliver i p rest e j =
      ap (λ (l : List Payload). l ++ waiting (slot_of s j))
        (for_viewer-append j s.sent ((i, p) ∷ []))
      ∙ append_assoc (for_viewer j s.sent) (if i == j then p ∷ [] else []) (waiting (slot_of s j))
      ∙ ap (λ (io : Io). for_viewer j s.sent ++ (in_flight io j ++ waiting (slot_of s j))) (sym e)

  pub line-end_pass : s.io ≡ draining [] → SameLine s (end_pass s)
  unfolding end_pass
  line-end_pass e j = elim (Bool-cases s.closing) [
    | inl t ↦ rw t (idle_line (draining []) e j refl)
    | inr t ↦ rw t (idle_line (draining []) e j refl)
  ]

  line-stash :
      (i j : ℕ) (p : Payload)
      → i < length s.slots
      → p ≢ []
      → line (stash i p s) j
        ≡ (if i == j then (for_viewer j s.sent ++ in_flight s.io j) ++ p ∷ [] else line s j)
  unfolding stash
  line-stash i j p l full = elim (Bool-cases (i == j)) [
    | inl w ↦
        let inside : ltb i (length s.slots) ≡ true = ground arith in
        rw
          (
            slot_of-set i j (record { buf = p; ready = true; lock = by_tick }) s.slots,
            w,
            inside,
            not_nil p full,
          )
          (sym (append_assoc (for_viewer j s.sent) (in_flight s.io j) (p ∷ [])))
    | inr w ↦
        rw (slot_of-set i j (record { buf = p; ready = true; lock = by_tick }) s.slots, w) refl
  ]

  pub stash-IsLatest :
      (i j : ℕ) (p : Payload) (stashed : List (ℕ × Payload))
      → i < length s.slots
      → p ≢ []
      → IsLatest (line s j) (for_viewer j stashed)
      → IsLatest (line (stash i p s) j) (for_viewer j (stashed ++ (i, p) ∷ []))
  unfolding for_viewer
  stash-IsLatest i j p stashed l full h =
      rw (line-stash i j p l full, for_viewer-append j stashed ((i, p) ∷ []))
        (elim (Bool-cases (i == j)) [
          | inl w ↦
              let front = for_viewer j s.sent ++ in_flight s.io j in
              let whole : front ++ waiting (slot_of s j) ≡ line s j =
                append_assoc (for_viewer j s.sent) (in_flight s.io j) (waiting (slot_of s j)) in
              let before : Sublist front (line s j) =
                subst (λ (k : List Payload). Sublist front k) whole
                  (sublist-append_left front (waiting (slot_of s j))) in
              rw w (record {
                among = Sublist.append (Sublist.trans before h.among) (Sublist.refl (p ∷ []));
                newest = last_of-append front p ∙ sym (last_of-append (for_viewer j stashed) p);
              })
          | inr w ↦ rw (w, append-nil (for_viewer j stashed)) h
        ])

pub kept_line :
    (s t : Shared) (j : ℕ) (stashed : List (ℕ × Payload))
    → SameLine s t
    → IsLatest (line s j) (for_viewer j stashed)
    → IsLatest (line t j) (for_viewer j (stashed ++ []))
kept_line s t j stashed same h = rw (same j, append-nil stashed) h

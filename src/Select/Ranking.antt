-- ===== src/Select/Ranking.antt =====
-- select.rs: the ghost set, scored and sorted.
use Prim.Native.Nat.{bit_and, bit_or, max}
use mathlib.Core.Option
use umwelt_rs.Base.{
  ℕ, suc, ◌+◌, ◌-◌, ◌*◌, ◌%◌, ◌^◌, ◌≤◌, ◌<◌, ◌≡◌, ◌≢◌, refl, sym, ap, ◌∙◌, arith, leb, ◌==◌, ◌&&◌,
  not, if◌then◌else◌, Option, none, some, List, [], ◌∷◌, length, get_or, All, Option-cases, inl,
  inr,
}
use umwelt_rs.Base.Bits.{pow2_pos}
use umwelt_rs.Base.Masks.{bit_or-shifted, bit_and-mask}
use umwelt_rs.Base.Sort.{count_of, IsOrder}
use umwelt_rs.Gather.{DiscoveredEntity}
use umwelt_rs.Ghost.{Ghost, GhostTable, empty, held}
use umwelt_rs.Ghost.Insert.{vacancy}
use umwelt_rs.Ghost.Table.{ghost_of, held_of, held_lem}
use umwelt_rs.Ghost.Room.{IsGhostTable, unused, used}
use umwelt_rs.Odometer.{Odometer, slots, reading}
use umwelt_rs.Select.{
  Ranked, Policy, index, new_bit, score_of, drift_of, rank_one, rank_all, before,
}
use umwelt_rs.Select.Commit.{nobody, entity_of, read_at}
use umwelt_rs.Base.Arrays.{get_elem?-get_or}

pub held_known :
    (id : ℕ) (t : GhostTable)
    → IsGhostTable t
    → id ≢ empty
    → held id t ≡ some (Option.map held_of (ghost_of id t.slots))
unfolding held ghost_of
held_known id t (unused e z) real = rw (e, held, ghost_of) refl
held_known id t (used h) real =
    let some_slot : 0 < length t.slots = omega (arith, h.ordered.size, pow2_pos h.ordered.bits) in
    let (e, e_in, v) = vacancy t.slots (omega (arith, h.len, h.half, some_slot)) in
    held_lem id e t h.ordered e_in v real

-- How far a ghost has drifted by a reading; what has none is taken to have drifted `unseen_drift`.
unfoldable pub drift : ℕ → Policy → ℕ → Option Ghost → ℕ
drift tick policy r none = policy.unseen_drift
drift tick policy r (some g) =
    let moved = (r + 2 ^ 32 - g.mark) % 2 ^ 32 in
    if not (policy.refresh == 0) && leb policy.refresh ((tick + 2 ^ 32 - g.last_sent) % 2 ^ 32)
    then max moved policy.unseen_drift
    else moved

abbrev pub flag : Option Ghost → ℕ
flag none = new_bit
flag (some g) = 0

index_of : (k : ℕ) (g : Option Ghost) → k < 2 ^ 31 → bit_and (bit_or k (flag g)) (2 ^ 31 - 1) ≡ k
index_of k none l =
    ap (λ (n : ℕ). bit_and n (2 ^ 31 - 1)) (bit_or-shifted k 1 31 l)
    ∙ bit_and-mask (k + 1 * 2 ^ 31) 31
    ∙ omega arith
index_of k (some g) l =
    ap (λ (n : ℕ). bit_and n (2 ^ 31 - 1)) (bit_or-shifted k 0 31 l)
    ∙ bit_and-mask (k + 0 * 2 ^ 31) 31
    ∙ omega arith

place_of : (k : ℕ) (g : Option Ghost) → k < 2 ^ 31 → bit_or k (flag g) ≡ k + flag g
place_of k none l = bit_or-shifted k 1 31 l ∙ omega arith
place_of k (some g) l = bit_or-shifted k 0 31 l ∙ omega arith

pub before-IsOrder : IsOrder before
unfolding before
before-IsOrder = record { total = λ x y e. grind arith; trans = λ x y z p q. grind arith }

module _ (tick : ℕ) (cands : List DiscoveredEntity) (o : Odometer) (policy : Policy)
    (t : GhostTable) where
  abbrev pub entity_at : ℕ → DiscoveredEntity
  entity_at k = get_or cands k nobody

  -- A candidate that is known can be scored.
  pub record IsScored (r : Ranked) : Type 0 where
    pub inside : index r < length cands
    pub score :
        r.score
        ≡ score_of
            (drift tick policy
              (read_at o (entity_of cands r).id)
              (ghost_of (entity_of cands r).id t.slots))
            (entity_of cands r).dist_sq
            policy.weights
    pub place : r.at ≡ index r + flag (ghost_of (entity_of cands r).id t.slots)

  module _ (few : length cands ≤ 2 ^ 31) (h : IsGhostTable t)
      (known : (k : ℕ)
        → k < length cands
        → ((entity_at k).id ≢ empty) × ((entity_at k).id < slots o)) where
    drift_of-drift :
        (k : ℕ)
        → k < length cands
        → drift_of tick o policy t (entity_at k)
          ≡ some (
            drift tick policy (read_at o (entity_at k).id) (ghost_of (entity_at k).id t.slots),
            flag (ghost_of (entity_at k).id t.slots),
          )
    unfolding drift_of drift reading slots
    drift_of-drift k l =
        let (real, covered) = known k l in
        let read = get_elem?-get_or o.total (entity_at k).id 0 covered in
        let known_held = held_known (entity_at k).id t h real in
        elim (Option-cases (ghost_of (entity_at k).id t.slots)) [
          | inl w ↦ let at_none = rw w at known_held in rw (at_none, w, drift_of) refl
          | inr (g, w) ↦ let at_some = rw w at known_held in rw (at_some, w, read, drift_of) refl
        ]

    rank_one-IsScored :
        (k : ℕ)
        → k < length cands
        → (r : Ranked) × (rank_one tick cands o policy t k ≡ some r) × (index r ≡ k) × IsScored r
    unfolding rank_one index
    rank_one-IsScored k l =
        let e = entity_at k in
        let g = ghost_of e.id t.slots in
        let r : Ranked = record {
          score = score_of (drift tick policy (read_at o e.id) g) e.dist_sq policy.weights;
          at = bit_or k (flag g);
        } in
        let at_k = index_of k g (omega (arith, l, few)) in
        (
          r,
          rw (get_elem?-get_or cands k nobody l, drift_of-drift k l, rank_one) refl,
          at_k,
          record {
            inside = omega (arith, at_k, l);
            score =
                ap
                  (λ (j : ℕ).
                    score_of
                      (drift tick policy (read_at o (entity_at j).id)
                        (ghost_of (entity_at j).id t.slots))
                      (entity_at j).dist_sq policy.weights)
                  (sym at_k);
            place =
                place_of k g (omega (arith, l, few))
                ∙ ap (λ (j : ℕ). j + flag (ghost_of (entity_at j).id t.slots)) (sym at_k);
          },
        )

    pub rank_all_lem :
        (ks : List ℕ)
        → All (λ k. k < length cands) ks
        → (rs : List Ranked) × (rank_all tick cands o policy t ks ≡ some rs)
          × All IsScored rs
          × (length rs ≡ length ks)
          × ((k : ℕ) → count_of (λ r. index r == k) rs ≡ count_of (λ j. j == k) ks)
    unfolding rank_all count_of
    rank_all_lem [] h = ([], refl, record {}, refl, λ k. refl)
    rank_all_lem (k ∷ ks) (l, h) =
        let (r, e, at_k, s) = rank_one-IsScored k l in
        let (rs, f, ss, n, counts) = rank_all_lem ks h in
        (r ∷ rs, rw (e, f, rank_all) refl, (s, ss), ap suc n, λ j. rw (at_k, counts j) refl)

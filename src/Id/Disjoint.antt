-- ===== src/Id/Disjoint.antt =====
-- id.rs: no two sources of names hand out the same one.
use Prim.Native.Nat.{bit_or, bit_and}
use umwelt_rs.Base.{
  ℕ, zero, suc, ◌+◌, ◌-◌, ◌*◌, ◌/◌, ◌%◌, ◌^◌, ◌<◌, ◌≡◌, ◌≢◌, ap, ◌∙◌, arith, true, false,
}
use umwelt_rs.Base.Int.{IsU32}
use umwelt_rs.Base.Masks.{bit_or-above, bit_and-mask}
use umwelt_rs.Id.{of_region, minted_by_an_edge, Mint, top, seeded, mint_next, nth_id}

of_region-sum :
    (region id : ℕ) → region < 2 ^ 31 → IsU32 id → of_region region id ≡ region * 2 ^ 32 + id
unfolding of_region
of_region-sum region id h k =
    let whole : region * 2 ^ 32 % 2 ^ 64 ≡ region * 2 ^ 32 = omega arith in
    ap (λ n. bit_or n id) whole ∙ bit_or-above id region 32 (omega arith)

-- The prefix that a mint keeps.
abbrev pub prefix_of : ℕ → ℕ
prefix_of prefix = prefix % 2 ^ 31

seeded-sum : (prefix : ℕ) → seeded prefix ≡ 2 ^ 63 + prefix_of prefix * 2 ^ 32 + 1
unfolding seeded
seeded-sum prefix =
    let p : ℕ = prefix_of prefix in
    let masked : bit_and prefix 0x7fff_ffff ≡ p = bit_and-mask prefix 31 in
    let whole : p * 2 ^ 32 % 2 ^ 64 ≡ p * 2 ^ 32 = omega arith in
    let joined : bit_or top (p * 2 ^ 32) ≡ 2 ^ 63 + p * 2 ^ 32 =
      bit_or-above (p * 2 ^ 32) 1 63 (omega arith) in
    let even : 2 ^ 63 + p * 2 ^ 32 ≡ (2 ^ 31 + p) * 2 ^ 32 = omega arith in
    ap (λ n. bit_or (bit_or top (n * 2 ^ 32 % 2 ^ 64)) 1) masked
    ∙ ap (λ n. bit_or (bit_or top n) 1) whole
    ∙ ap (λ n. bit_or n 1) (joined ∙ even)
    ∙ bit_or-above 1 (2 ^ 31 + p) 32 (omega arith)
    ∙ omega arith

nth_id-sum : (m : Mint) (k : ℕ) → m + k < 2 ^ 64 → nth_id m k ≡ m + k
unfolding nth_id mint_next
nth_id-sum m zero h = omega arith
nth_id-sum m (suc k) h =
    let next : (m + 1) % 2 ^ 64 ≡ m + 1 = omega arith in
    ap (λ n. nth_id n k) next ∙ nth_id-sum (m + 1) k (omega arith) ∙ omega arith

pub nth_id-seeded :
    (prefix k : ℕ)
    → k < 2 ^ 32 - 1
    → nth_id (seeded prefix) k ≡ 2 ^ 63 + prefix_of prefix * 2 ^ 32 + 1 + k
nth_id-seeded prefix k h =
    let s = seeded-sum prefix in nth_id-sum (seeded prefix) k (omega (arith, s)) ∙ omega (arith, s)

-- Of the first 2^32 - 1 ids of two seeded mints, two are equal only if the prefixes agree in their
-- low 31 bits and the ids are the same in order.
pub nth_id-inj :
    (p q j k : ℕ)
    → j < 2 ^ 32 - 1
    → k < 2 ^ 32 - 1
    → nth_id (seeded p) j ≡ nth_id (seeded q) k
    → (prefix_of p ≡ prefix_of q) × (j ≡ k)
nth_id-inj p q j k hj hk e =
    let a = nth_id-seeded p j hj in
    let b = nth_id-seeded q k hk in (omega (arith, a, b, e), omega (arith, a, b, e))

-- One of the first 2^32 - 1 keys of a mint is told from a name composed for a region of a 31-bit
-- number, which gives back its region and its entity.
pub names_apart :
    (prefix k region id : ℕ)
    → k < 2 ^ 32 - 1
    → region < 2 ^ 31
    → IsU32 id
    → (minted_by_an_edge (nth_id (seeded prefix) k) ≡ true)
      × (minted_by_an_edge (of_region region id) ≡ false)
      × (nth_id (seeded prefix) k ≢ of_region region id)
      × (of_region region id / 2 ^ 32 ≡ region)
      × (of_region region id % 2 ^ 32 ≡ id)
unfolding minted_by_an_edge
names_apart prefix k region id hk hr hi =
    let a = nth_id-seeded prefix k hk in
    let b = of_region-sum region id hr hi in
    (
      ground (arith, a),
      ground (arith, b),
      (λ e. omega (arith, a, b, e)),
      omega (arith, b),
      omega (arith, b),
    )

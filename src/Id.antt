-- ===== src/Id.antt =====
-- id.rs: the names that edges mint and that regions compose; each is a `u64`.
pub mod Disjoint
use Prim.Native.Nat.{bit_or, bit_and}
use umwelt_rs.Base.{ℕ, zero, suc, ◌+◌, ◌-◌, ◌*◌, ◌/◌, ◌%◌, ◌^◌, Bool, ◌==◌}

-- `EntityKey::of_region`, in a release build.
unfoldable pub of_region : ℕ → ℕ → ℕ
of_region region id = bit_or (region * 2 ^ 32 % 2 ^ 64) id

unfoldable pub minted_by_an_edge : ℕ → Bool
minted_by_an_edge key = (key / 2 ^ 63) == 1

-- The counter of a `Mint`.
abbrev pub Mint : Type 0
Mint = ℕ

abbrev pub top : ℕ
top = 2 ^ 63

abbrev pub mint_new : Mint
mint_new = 1

unfoldable pub seeded : ℕ → Mint
seeded prefix = bit_or (bit_or top (bit_and prefix 0x7fff_ffff * 2 ^ 32 % 2 ^ 64)) 1

-- `fetch_add`: the id that is handed out, and the counter after it.
unfoldable pub mint_next : Mint → ℕ × Mint
mint_next m = (m, (m + 1) % 2 ^ 64)

-- The `k`-th id that a mint hands out, from the 0th.
unfoldable pub nth_id : Mint → ℕ → ℕ
unfolding mint_next
nth_id m zero = (mint_next m).0
nth_id m (suc k) = nth_id (mint_next m).1 k

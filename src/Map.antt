-- ===== src/Map.antt =====
-- map.rs: the world map.
pub mod Wf
pub mod Locate
pub mod RoundTrip
use umwelt_rs.Base.{
  ℕ, zero, suc, ◌+◌, ◌-◌, ◌*◌, ◌/◌, ◌%◌, ◌^◌, Bool, true, false, ◌&&◌, ◌||◌, not, ltb, leb, ◌==◌,
  ◌≡◌, ◌↔◌, if◌then◌else◌, Option, none, some, List, [], ◌∷◌, ◌++◌, length, take, drop, arith,
}
use umwelt_rs.Base.Int.{ℤ, pos, negsuc, as_u32, as_i32, pos_part, eqb_ℤ}
use umwelt_rs.Base.Result.{Result, ok, err, ◌>>=◌, ◌>>◌, fail_if}
use umwelt_rs.Base.Bytes.{le_bytes, from_le}
use umwelt_rs.Base.Assoc.{Eq, nat_eq, lookup, insert}
use umwelt_rs.Fixed.{Fixed}
use umwelt_rs.Placement.{Placement, Side, beside}
use umwelt_rs.Pos.{Pos3, WorldPos, fits, to_local}

-- The broker's error is not a case here: `encode`, `decode` and `place` do not talk to it.
pub data MapError : Type 0 where
  bad_length : ℕ → MapError
  unknown_version : ℕ → MapError
  duplicate_region : ℕ → MapError
  duplicate_square : Placement → MapError
  region_id_too_wide : ℕ → MapError

abbrev pub placement_beq : Placement → Placement → Bool
placement_beq p q = eqb_ℤ p.col q.col && eqb_ℤ p.row q.row

pub placement_beq_iff : (p q : Placement) → (placement_beq p q ≡ true) ↔ (p ≡ q)
placement_beq_iff p q = ground arith

instance abbrev pub placement_eq : Eq Placement
placement_eq = record { beq = placement_beq; beq_iff = placement_beq_iff }

-- A region is the number of its `RegionId`.
pub record WorldMap : Type 0 where
  pub placements : List (ℕ × Placement)
  pub by_region : List (ℕ × Placement)
  pub by_square : List (Placement × ℕ)

abbrev pub version : ℕ
version = 1

abbrev pub record_bytes : ℕ
record_bytes = 12

abbrev pub new : WorldMap
new = record { placements = []; by_region = []; by_square = [] }

abbrev pub is_some {ℓ} : {A : Type ℓ} → Option A → Bool
is_some none = false
is_some (some a) = true

unfoldable pub place : WorldMap → ℕ → Placement → Result MapError WorldMap
place m region at = do
  fail_if (not ((region / 2 ^ 31) == 0)) (region_id_too_wide region)
  fail_if (is_some (lookup region m.by_region)) (duplicate_region region)
  fail_if (is_some (lookup at m.by_square)) (duplicate_square at)
  ok (record {
    placements = m.placements ++ ((region, at) ∷ []);
    by_region = insert region at m.by_region;
    by_square = insert at region m.by_square;
  })

unfoldable pub placement_of : WorldMap → ℕ → Option Placement
placement_of m region = lookup region m.by_region

unfoldable pub region_at : WorldMap → Placement → Option ℕ
region_at m square = lookup square m.by_square

-- The `?` of an `Option`.
abbrev pub and_then {ℓ} : {A B : Type ℓ} → Option A → (A → Option B) → Option B
and_then none f = none
and_then (some a) f = f a

unfoldable pub neighbor : WorldMap → ℕ → Side → Option ℕ
unfolding placement_of region_at
neighbor m region side = and_then (placement_of m region) (λ s. region_at m (beside s side))

-- `a.div_euclid(b)` for a positive `b`.
unfoldable pub div_euclid : ℤ → ℕ → ℤ
div_euclid (pos n) b = pos (n / b)
div_euclid (negsuc n) b = negsuc (n / b)

-- `size` is the region size, which is positive.
unfoldable pub locate : WorldMap → WorldPos → Fixed → Option (ℕ × Pos3)
locate m at size = and_then (fits (div_euclid at.x (pos_part size))) λ col.
    and_then (fits (div_euclid at.y (pos_part size))) λ row.
      let square : Placement = record { col = col; row = row } in
      and_then (region_at m square)
        λ region. and_then (to_local at square size) λ local. some (region, local)

-- One placement in twelve bytes.
unfoldable pub encode_record : ℕ × Placement → List ℕ
encode_record (region, at) =
    le_bytes 4 region ++ (le_bytes 4 (as_u32 at.col) ++ le_bytes 4 (as_u32 at.row))

unfoldable pub encode_records : List (ℕ × Placement) → List ℕ
encode_records [] = []
encode_records (r ∷ rs) = encode_record r ++ encode_records rs

unfoldable pub encode : WorldMap → List ℕ
encode m = le_bytes 4 version ++ encode_records m.placements

-- The `u32` of four bytes at `at`.
abbrev u32_at : List ℕ → ℕ → ℕ
u32_at bytes at = from_le (take 4 (drop at bytes))

unfoldable pub decode_record : List ℕ → ℕ × Placement
decode_record bytes =
    (u32_at bytes 0, record { col = as_i32 (u32_at bytes 4); row = as_i32 (u32_at bytes 8) })

-- The loop over `n` chunks of `record_bytes` bytes.
unfoldable pub decode_records : ℕ → List ℕ → WorldMap → Result MapError WorldMap
decode_records zero bytes m = ok m
decode_records (suc n) bytes m =
    let (region, at) = decode_record bytes in
    place m region at >>= λ m'. decode_records n (drop record_bytes bytes) m'

unfoldable pub decode : List ℕ → Result MapError WorldMap
decode bytes = do
  fail_if (ltb (length bytes) 4 || not (((length bytes - 4) % record_bytes) == 0))
      (bad_length (length bytes))
  fail_if (not (u32_at bytes 0 == version)) (unknown_version (u32_at bytes 0))
  decode_records ((length bytes - 4) / record_bytes) (drop 4 bytes) new

-- ===== src/Map/RoundTrip.antt =====
-- map.rs: the bytes of a map, there and back.
use umwelt_rs.Base.{
  ℕ, suc, ◌+◌, ◌-◌, ◌*◌, ◌/◌, ◌%◌, ◌^◌, ◌<◌, ◌≡◌, List, [], ◌∷◌, ◌++◌, length, length-append, take,
  drop, arith, refl, ◌∙◌, ap, All, ltb, ◌==◌, false, true,
}
use mathlib.Core.Path.{fun_ext}
use umwelt_rs.Base.Int.{ℤ, IsI32, as_u32, as_i32, as_i32-as_u32, as_u32-IsU32}
use umwelt_rs.Base.Result.{Result, ok_inj, went_on, ok, ◌>>=◌}
use umwelt_rs.Base.Bytes.{le_bytes, from_le, from_le-le_bytes}
use umwelt_rs.Placement.{Placement}
use umwelt_rs.Map.{
  WorldMap, MapError, new, place, encode, encode_record, encode_records, decode, decode_record,
  decode_records, version,
}
use umwelt_rs.Map.Wf.{Built, empty, add, IsSquare, place-ok}

-- Places the pairs of a list, in order.
place_all : List (ℕ × Placement) → WorldMap → Result MapError WorldMap
place_all [] m = ok m
place_all ((r, s) ∷ rs) m = place m r s >>= place_all rs

place_all-append :
    (xs : List (ℕ × Placement)) (r : ℕ) (s : Placement) (m m' m'' : WorldMap)
    → place_all xs m ≡ ok m'
    → place m' r s ≡ ok m''
    → place_all (xs ++ ((r, s) ∷ [])) m ≡ ok m''
unfolding place_all
place_all-append [] r s m m' m'' e f = rw (ok_inj e, f)
place_all-append ((k, t) ∷ xs) r s m m' m'' e f =
    let (m1, e1, e2) = went_on (place m k t) (place_all xs) e in
    rw e1 (place_all-append xs r s m1 m' m'' e2 f)

-- The placements of a map, placed again, make the map.
rebuild : {m : WorldMap} → Built m → place_all m.placements new ≡ ok m
rebuild (empty e) = rw e (unfold place_all in refl)
rebuild (add {m = m} {m' = m'} r s _ _ b e) =
    let (_, _, _, q) = place-ok m m' r s e in
    ap (λ (w : WorldMap). place_all w.placements new) q
    ∙ place_all-append m.placements r s new m m' (rebuild b) e

-- A placement that fits its twelve bytes.
abbrev Fits : ℕ × Placement → Type 0
Fits (r, s) = (r < 2 ^ 32) × IsSquare s

All-snoc :
    (xs : List (ℕ × Placement)) (x : ℕ × Placement)
    → All Fits xs
    → Fits x
    → All Fits (xs ++ (x ∷ []))
All-snoc [] x h k = (k, tt)
All-snoc (y ∷ ys) x h k = (h.0, All-snoc ys x h.1 k)

Built-Fits : {m : WorldMap} → Built m → All Fits m.placements
Built-Fits (empty e) = rw e tt
Built-Fits (add {m = m} {m' = m'} r s h k b e) =
    let (_, _, _, q) = place-ok m m' r s e in
    rw (ap (λ (w : WorldMap). w.placements) q) (All-snoc m.placements (r, s) (Built-Fits b) (h, k))

i32_bytes : (a : ℤ) → IsI32 a → as_i32 (from_le (le_bytes 4 (as_u32 a))) ≡ a
i32_bytes a h = rw (from_le-le_bytes 4 (as_u32 a) (as_u32-IsU32 a)) (as_i32-as_u32 a h)

decode_record-encode_record :
    (r : ℕ) (s : Placement) (rest : List ℕ)
    → Fits (r, s)
    → decode_record (encode_record (r, s) ++ rest) ≡ (r, s)
unfolding decode_record le_bytes encode_record
decode_record-encode_record r s rest (h, k) = λ i. (
  from_le-le_bytes 4 r h i,
  record { col = i32_bytes s.col k.col_i32 i; row = i32_bytes s.row k.row_i32 i },
)

record_step :
    (n r : ℕ) (s : Placement) (rest : List ℕ) (m : WorldMap)
    → Fits (r, s)
    → decode_records (suc n) (encode_record (r, s) ++ rest) m
      ≡ (place m r s >>= λ m'. decode_records n rest m')
unfolding decode_records encode_record le_bytes
record_step n r s rest m f = λ i.
    let p = decode_record-encode_record r s rest f i in
    place m p.0 p.1 >>= λ m'. decode_records n rest m'

decode_records-encode_records :
    (rs : List (ℕ × Placement)) (m : WorldMap)
    → All Fits rs
    → decode_records (length rs) (encode_records rs) m ≡ place_all rs m
unfolding encode_records place_all
decode_records-encode_records [] m h = unfold decode_records in refl
decode_records-encode_records ((r, s) ∷ rs) m (h, hs) =
    record_step (length rs) r s (encode_records rs) m h
    ∙ ap (◌>>=◌ (place m r s)) (fun_ext (λ m'. decode_records-encode_records rs m' hs))

length-encode_records : (rs : List (ℕ × Placement)) → length (encode_records rs) ≡ 12 * length rs
unfolding encode_records
length-encode_records [] = omega arith
length-encode_records ((r, s) ∷ rs) =
    length-append (encode_record (r, s)) (encode_records rs)
    ∙ omega (arith, length-encode_record r s, length-encode_records rs)
  where
    length-encode_record : (r : ℕ) (s : Placement) → length (encode_record (r, s)) ≡ 12
    length-encode_record r s = unfold encode_record le_bytes in refl

decode_body :
    (bytes : List ℕ) (n : ℕ)
    → length bytes ≡ 4 + 12 * n
    → from_le (take 4 bytes) ≡ version
    → decode bytes ≡ decode_records n (drop 4 bytes) new
unfolding decode
decode_body bytes n h v =
    let short : ltb (length bytes) 4 ≡ false = ground arith in
    let whole : ((length bytes - 4) % 12 == 0) ≡ true = ground arith in
    let count : (length bytes - 4) / 12 ≡ n = omega arith in
    let known : (from_le (take 4 bytes) == version) ≡ true = ground arith in
    rw (short, whole, count, known)

-- A map built by placements is decoded from its encoding, all three of its tables.
pub decode-encode : {m : WorldMap} → Built m → decode (encode m) ≡ ok m
unfolding encode le_bytes
decode-encode {m} b =
    let n = length m.placements in
    decode_body (encode m) n (omega (arith, length-encode_records m.placements))
      (from_le-le_bytes 4 1 (omega arith))
    ∙ decode_records-encode_records m.placements new (Built-Fits b)
    ∙ rebuild b

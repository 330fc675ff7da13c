-- ===== src/Net/Edge/Protocol/Answers.antt =====
-- net/edge/protocol.rs: every message of an edge is read back as it was written.
use umwelt_rs.Base.{
  ℕ, suc, ◌+◌, ◌<◌, ◌≡◌, refl, sym, ap, ◌∙◌, arith, List, [], ◌++◌, length, true, le→ltb, Option,
  none, some, append_assoc, take_run, drop_run, length-append, drop,
}
use umwelt_rs.Base.Int.{IsU32, IsU64, IsI32}
use umwelt_rs.Base.Result.{ok}
use umwelt_rs.Base.Bytes.{le_bytes, length-le_bytes, from_le-le_bytes}
use umwelt_rs.Placement.{Placement}
use umwelt_rs.Net.Wire.{◌>>=◌, ◌>>◌, put_le, put_bytes, finish}
use umwelt_rs.Net.Wire.RoundTrip.{
  Reads, RoundTrips, round_trip, pair_le, pair_i32, pair_seq, pair_then, Reads-return_last,
  Reads-finish, Reads-bind_of,
}
use umwelt_rs.Net.Region.Protocol.RoundTrip.{Whole}
use umwelt_rs.Net.Edge.Protocol.{EdgeInfo}
use umwelt_rs.Net.Edge.Protocol.ToClient.{
  ToClient, region_info, spawned, removed, state, message, teleported, teleport_failed, encode_onto,
  encode, decode, decode_body, state_of, placed, flag_of, square_of, get_region, get_spawned,
  info_of,
}
use umwelt_rs.Net.Edge.Protocol.RoundTrip.{isize_max, kind_then, verbatim}

pub record IsPlacement (at : Placement) : Type 0 where
  pub col_i32 : IsI32 at.col
  pub row_i32 : IsI32 at.row

pub record IsInfo (i : EdgeInfo) : Type 0 where
  pub region : IsU32 i.region
  pub size : IsI32 i.region_size_m
  pub extent : IsI32 i.vertical_extent_m
  pub square : IsPlacement (square_of i.placement)

-- A message whose numbers fit their types.
pub data IsToClient : ToClient → Type 0 where
  is_region : (i : EdgeInfo) → IsInfo i → IsToClient (region_info i)
  is_spawned : (h r n : ℕ) → IsU32 h → IsU32 r → IsU64 n → IsToClient (spawned h r n)
  is_removed : (h : ℕ) → IsU32 h → IsToClient (removed h)
  is_state :
      (h r : ℕ) (b : List ℕ) → IsU32 h → IsU32 r → length b < isize_max → IsToClient (state h r b)
  is_message : (b : List ℕ) → length b < isize_max → IsToClient (message b)
  is_teleported : (h r : ℕ) → IsU32 h → IsU32 r → IsToClient (teleported h r)
  is_teleport_failed : (h r : ℕ) → IsU32 h → IsU32 r → IsToClient (teleport_failed h r)

-- The width of each message, its kind byte included.
abbrev pub to_client_size : ToClient → ℕ
to_client_size (region_info i) = 22
to_client_size (spawned h r n) = 17
to_client_size (removed h) = 5
to_client_size (state h r b) = suc (8 + length b)
to_client_size (message b) = suc (length b)
to_client_size (teleported h r) = 9
to_client_size (teleport_failed h r) = 9

placed_lem : (o : Option Placement) → placed (flag_of o) (square_of o) ≡ ok o
unfolding placed
placed_lem none = refl
placed_lem (some at) = refl

flag_of-lt : (o : Option Placement) → flag_of o < 256
flag_of-lt none = omega arith
flag_of-lt (some at) = omega arith

abbrev bare : EdgeInfo → EdgeInfo
bare i = record i { placement = none }

Reads-info :
    (i : EdgeInfo)
    → Reads true
        (finish (square_of i.placement) >>= info_of (flag_of i.placement) (bare i))
        []
        (region_info i)
unfolding info_of
Reads-info i =
    Reads-bind_of _ (λ q. (refl, refl)) (Reads-finish _)
      (rw (placed_lem i.placement, info_of) (Reads-return_last (region_info i)))

-- A state's body is two numbers and a packet, at fixed places.
state-RoundTrips :
    (h r : ℕ) (b : List ℕ)
    → IsU32 h
    → IsU32 r
    → RoundTrips (8 + length b) (put_le 4 h >> (put_le 4 r >> put_bytes b)) state_of (state h r b)
unfolding put_le put_bytes state_of ◌>>◌
state-RoundTrips h r b eh er =
    let hs = le_bytes 4 h in
    let rs = le_bytes 4 r in
    let n : length (hs ++ (rs ++ b)) ≡ 8 + length b = omega (
      arith,
      length-append hs (rs ++ b),
      length-append rs b,
      length-le_bytes 4 h,
      length-le_bytes 4 r,
    ) in
    let drop_both : drop 8 (hs ++ (rs ++ b)) ≡ b =
      ap (drop 8) (sym (append_assoc hs rs b))
      ∙ drop_run 8 (hs ++ rs) b
          (omega (arith, length-append hs rs, length-le_bytes 4 h, length-le_bytes 4 r)) in
    record {
      body = hs ++ (rs ++ b);
      size = n;
      written = λ out. append_assoc (out ++ hs) rs b ∙ append_assoc out hs (rs ++ b);
      read =
          rw
            (
              le→ltb (length (hs ++ (rs ++ b))) 8 (omega (arith, n)),
              take_run 4 hs (rs ++ b) (length-le_bytes 4 h),
              drop_run 4 hs (rs ++ b) (length-le_bytes 4 h),
              take_run 4 rs b (length-le_bytes 4 r),
              drop_both,
              from_le-le_bytes 4 h eh,
              from_le-le_bytes 4 r er,
            )
            refl;
    }

-- Every message of an edge whose numbers fit their types is encoded, whatever stood in the buffer,
-- as bytes that decode to it.
pub answer-Whole : (m : ToClient) → IsToClient m → Whole (to_client_size m) encode decode m
unfolding encode encode_onto decode decode_body get_region get_spawned
answer-Whole m (is_region i h) =
    kind_then 8 encode decode (omega arith) refl (λ b. refl)
      (round_trip "region info"
        (pair_seq _ (pair_le 4 i.region h.region) (
          pair_seq _ (pair_i32 _ h.size) (
            pair_seq _ (pair_i32 _ h.extent) (
              pair_seq _ (pair_le 1 (flag_of i.placement) (flag_of-lt i.placement)) (
                pair_seq _ (pair_i32 _ h.square.col_i32)
                  (pair_then _ (pair_i32 _ h.square.row_i32) (Reads-info i)))))))
        (omega arith))
answer-Whole m (is_spawned h r n eh er en) =
    kind_then 4 encode decode (omega arith) refl (λ b. refl)
      (round_trip "spawned"
        (pair_seq _ (pair_le 4 h eh)
          (pair_seq _ (pair_le 4 r er) (pair_then _ (pair_le 8 n en) (Reads-finish _))))
        (omega arith))
answer-Whole m (is_removed h eh) =
    kind_then 5 encode decode (omega arith) refl (λ b. refl)
      (round_trip "removed" (pair_then _ (pair_le 4 h eh) (Reads-finish _)) (omega arith))
answer-Whole m (is_state h r b eh er small) =
    kind_then 6 encode decode (omega arith) refl (λ b. refl) (state-RoundTrips h r b eh er)
answer-Whole m (is_message b small) =
    kind_then 7 encode decode (omega arith) refl (λ b. refl) (verbatim message b)
answer-Whole m (is_teleported h r eh er) =
    kind_then 11 encode decode (omega arith) refl (λ b. refl)
      (round_trip "teleported"
        (pair_seq _ (pair_le 4 h eh) (pair_then _ (pair_le 4 r er) (Reads-finish _))) (omega arith))
answer-Whole m (is_teleport_failed h r eh er) =
    kind_then 12 encode decode (omega arith) refl (λ b. refl)
      (round_trip "teleport failed"
        (pair_seq _ (pair_le 4 h eh) (pair_then _ (pair_le 4 r er) (Reads-finish _))) (omega arith))

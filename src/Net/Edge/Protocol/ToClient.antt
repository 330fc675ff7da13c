-- ===== src/Net/Edge/Protocol/ToClient.antt =====
-- net/edge/protocol.rs: what an edge says to its game clients.
use umwelt_rs.Base.{
  ℕ, ltb, ◌==◌, if◌then◌else◌, Bool, true, false, Option, none, some, List, [], ◌∷◌, length, take,
  drop,
}
use umwelt_rs.Base.Int.{pos}
use umwelt_rs.Base.Result.{Result, ok, err}
use umwelt_rs.Base.Bytes.{from_le}
use umwelt_rs.Placement.{Placement}
use umwelt_rs.Net.Error.{NetError, malformed, unexpected}
use umwelt_rs.Net.Wire.{
  Reader, Writer, ◌>>=◌, ◌>>◌, return, fail, get_u8, get_u32, get_u64, get_i32, finish, decode_with,
  put_u8, put_u32, put_u64, put_i32, put_bytes, clear,
}
use umwelt_rs.Net.Edge.Protocol.{
  EdgeInfo, kind_region, kind_spawned, kind_removed, kind_state, kind_message, kind_teleported,
  kind_teleport_failed, kind_name,
}

pub data ToClient : Type 0 where
  region_info : EdgeInfo → ToClient
  spawned : ℕ → ℕ → ℕ → ToClient
  removed : ℕ → ToClient
  state : ℕ → ℕ → List ℕ → ToClient
  message : List ℕ → ToClient
  teleported : ℕ → ℕ → ToClient
  teleport_failed : ℕ → ℕ → ToClient

unfoldable pub is_latest_only : ToClient → Bool
is_latest_only (state handle region packet) = true
is_latest_only m = false

-- `is_some() as u8`, and what `unwrap_or(Placement::new(0, 0))` leaves.
abbrev pub flag_of : Option Placement → ℕ
flag_of none = 0
flag_of (some at) = 1

abbrev pub square_of : Option Placement → Placement
square_of none = record { col = pos 0; row = pos 0 }
square_of (some at) = at

unfoldable pub encode_onto : ToClient → Writer
encode_onto (region_info info) = do
  put_u8 kind_region
  put_u32 info.region
  put_i32 info.region_size_m
  put_i32 info.vertical_extent_m
  put_u8 (flag_of info.placement)
  put_i32 (square_of info.placement).col
  put_i32 (square_of info.placement).row
encode_onto (spawned handle region name) = do
  put_u8 kind_spawned
  put_u32 handle
  put_u32 region
  put_u64 name
encode_onto (removed handle) = do put_u8 kind_removed; put_u32 handle
encode_onto (state handle region packet) = do
  put_u8 kind_state
  put_u32 handle
  put_u32 region
  put_bytes packet
encode_onto (message body) = do put_u8 kind_message; put_bytes body
encode_onto (teleported handle region) = do put_u8 kind_teleported; put_u32 handle; put_u32 region
encode_onto (teleport_failed handle region) = do
  put_u8 kind_teleport_failed
  put_u32 handle
  put_u32 region

unfoldable pub encode : ToClient → Writer
encode m = do clear; encode_onto m

-- The placement that a flag and a square stand for.
unfoldable pub placed : ℕ → Placement → Result NetError (Option Placement)
placed flag at =
    if flag == 0
    then ok none
    else if flag == 1
    then ok (some at)
    else err (malformed "region placement flag")

-- The flag is judged after the body has been read to its end.
unfoldable pub info_of : ℕ → EdgeInfo → Placement → Reader ToClient
info_of flag info at = elim (placed flag at) [
  | ok placement ↦ return (region_info (record info { placement = placement }))
  | err e ↦ fail e
]

unfoldable pub get_region : Reader ToClient
get_region = do
  region ← get_u32
  region_size_m ← get_i32
  vertical_extent_m ← get_i32
  flag ← get_u8
  col ← get_i32
  row ← get_i32
  whole ← finish (record { col = col; row = row })
  info_of flag
      (record {
        region = region;
        region_size_m = region_size_m;
        vertical_extent_m = vertical_extent_m;
        placement = none;
      })
      whole

unfoldable pub get_spawned : Reader ToClient
get_spawned = do
  handle ← get_u32
  region ← get_u32
  name ← get_u64
  finish (spawned handle region name)

-- The fields of a state are read by their places, without a cursor.
unfoldable pub state_of : List ℕ → Result NetError ToClient
state_of body =
    if ltb (length body) 8
    then err (malformed "state")
    else ok (state (from_le (take 4 body)) (from_le (take 4 (drop 4 body))) (drop 8 body))

unfoldable pub decode_body : ℕ → List ℕ → Result NetError ToClient
unfolding get_region get_spawned info_of
decode_body kind body =
    if kind == kind_region
    then decode_with get_region "region info" body
    else if kind == kind_spawned
    then decode_with get_spawned "spawned" body
    else if kind == kind_removed
    then decode_with (get_u32 >>= λ handle. finish (removed handle)) "removed" body
    else if kind == kind_state
    then state_of body
    else if kind == kind_message
    then ok (message body)
    else if kind == kind_teleported
    then decode_with (get_u32 >>= λ handle. get_u32 >>= λ region. finish (teleported handle region))
        "teleported" body
    else if kind == kind_teleport_failed
    then decode_with
        (get_u32 >>= λ handle. get_u32 >>= λ region. finish (teleport_failed handle region))
        "teleport failed" body
    else err (unexpected "an edge message" kind (kind_name kind))

unfoldable pub decode : List ℕ → Result NetError ToClient
decode [] = err (malformed "edge message")
decode (kind ∷ body) = decode_body kind body

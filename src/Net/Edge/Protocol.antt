-- ===== src/Net/Edge/Protocol.antt =====
-- net/edge/protocol.rs: what a game client and its edge say to each other.
pub mod ToClient
pub mod RoundTrip
pub mod Answers
use Prim.Native.String.{String}
use umwelt_rs.Base.{
  ℕ, ◌+◌, ◌-◌, ◌*◌, ◌/◌, ltb, ◌==◌, if◌then◌else◌, Bool, true, false, Option, none, some, List, [],
  ◌∷◌, length, take, drop,
}
use umwelt_rs.Base.Int.{ℤ, pos}
use umwelt_rs.Base.Result.{Result, ok, err}
use umwelt_rs.Base.Bytes.{from_le}
use umwelt_rs.Entity.{EntityKind}
use umwelt_rs.Placement.{Placement}
use umwelt_rs.Pos.{WorldPos}
use umwelt_rs.Net.Error.{NetError, malformed, unexpected}
use umwelt_rs.Net.Wire.{
  Reader, Writer, ◌>>=◌, ◌>>◌, return, fail, get_u8, get_u32, get_u64, get_i32, get_i64, get_many,
  rest, finish, decode_with, put_u8, put_u32, put_u64, put_i32, put_i64, put_bytes, put_many, clear,
}
use umwelt_rs.Net.Region.Protocol.Messages.{put_kind, get_kind}

abbrev pub kind_spawn : ℕ
kind_spawn = 1

abbrev pub kind_move : ℕ
kind_move = 2

abbrev pub kind_despawn : ℕ
kind_despawn = 3

abbrev pub kind_spawned : ℕ
kind_spawned = 4

abbrev pub kind_removed : ℕ
kind_removed = 5

abbrev pub kind_state : ℕ
kind_state = 6

abbrev pub kind_message : ℕ
kind_message = 7

abbrev pub kind_region : ℕ
kind_region = 8

abbrev pub kind_moves : ℕ
kind_moves = 9

abbrev pub kind_teleport : ℕ
kind_teleport = 10

abbrev pub kind_teleported : ℕ
kind_teleported = 11

abbrev pub kind_teleport_failed : ℕ
kind_teleport_failed = 12

abbrev pub kind_entity_message : ℕ
kind_entity_message = 13

abbrev pub kind_teleport_into : ℕ
kind_teleport_into = 14

abbrev pub kind_spawn_into : ℕ
kind_spawn_into = 15

unfoldable pub kind_name : ℕ → String
kind_name kind =
    if kind == kind_spawn
    then "spawn"
    else if kind == kind_move
    then "move"
    else if kind == kind_despawn
    then "despawn"
    else if kind == kind_spawned
    then "spawned"
    else if kind == kind_removed
    then "removed"
    else if kind == kind_state
    then "state"
    else if kind == kind_message
    then "message"
    else if kind == kind_region
    then "region"
    else if kind == kind_moves
    then "moves"
    else if kind == kind_teleport
    then "teleport"
    else if kind == kind_teleported
    then "teleported"
    else if kind == kind_teleport_failed
    then "teleport failed"
    else if kind == kind_entity_message
    then "entity message"
    else if kind == kind_teleport_into
    then "teleport into"
    else if kind == kind_spawn_into
    then "spawn into"
    else "unknown"

abbrev pub max_message_bytes : ℕ
max_message_bytes = 64 * 1024

abbrev pub world_bytes : ℕ
world_bytes = 24

abbrev pub move_bytes : ℕ
move_bytes = 4 + world_bytes

abbrev pub moves_header_bytes : ℕ
moves_header_bytes = 5

abbrev pub max_moves_per_datagram : ℕ
max_moves_per_datagram = (1200 - moves_header_bytes) / move_bytes

pub record EdgeInfo : Type 0 where
  pub region : ℕ
  pub region_size_m : ℤ
  pub vertical_extent_m : ℤ
  pub placement : Option Placement

-- A handle and a region are `u32`s.
pub data FromClient : Type 0 where
  spawn : ℕ → WorldPos → EntityKind → FromClient
  spawn_into : ℕ → ℕ → WorldPos → EntityKind → FromClient
  move : ℕ → WorldPos → FromClient
  moves : List (ℕ × WorldPos) → FromClient
  despawn : ℕ → FromClient
  message : List ℕ → FromClient
  entity_message : ℕ → List ℕ → FromClient
  teleport : ℕ → WorldPos → FromClient
  teleport_into : ℕ → ℕ → WorldPos → FromClient

unfoldable pub put_world : WorldPos → Writer
put_world at = do put_i64 at.x; put_i64 at.y; put_i64 at.z

unfoldable pub get_world : Reader WorldPos
get_world = do x ← get_i64; y ← get_i64; z ← get_i64; return (record { x = x; y = y; z = z })

-- One entry of a batch of moves.
unfoldable pub put_move : ℕ × WorldPos → Writer
put_move m = do put_u32 m.0; put_world m.1

unfoldable pub get_move : Reader (ℕ × WorldPos)
get_move = do handle ← get_u32; position ← get_world; return (handle, position)

unfoldable pub is_latest_only : FromClient → Bool
is_latest_only (move handle position) = true
is_latest_only (moves batch) = true
is_latest_only m = false

unfoldable pub encode : FromClient → Writer
encode (spawn handle position kind) = do
  clear
  put_u8 kind_spawn
  put_u32 handle
  put_world position
  put_kind kind
encode (spawn_into handle region position kind) = do
  clear
  put_u8 kind_spawn_into
  put_u32 handle
  put_u32 region
  put_world position
  put_kind kind
encode (move handle position) = do clear; put_u8 kind_move; put_u32 handle; put_world position
encode (moves batch) = do clear; put_u8 kind_moves; put_u32 (length batch); put_many put_move batch
encode (despawn handle) = do clear; put_u8 kind_despawn; put_u32 handle
encode (message body) = do clear; put_u8 kind_message; put_bytes body
encode (entity_message handle body) = do
  clear
  put_u8 kind_entity_message
  put_u32 handle
  put_bytes body
encode (teleport handle at) = do clear; put_u8 kind_teleport; put_u32 handle; put_world at
encode (teleport_into handle region at) = do
  clear
  put_u8 kind_teleport_into
  put_u32 handle
  put_u32 region
  put_world at

get_spawn : Reader FromClient
get_spawn = do
  handle ← get_u32
  position ← get_world
  kind ← get_kind
  finish (spawn handle position kind)

get_spawn_into : Reader FromClient
get_spawn_into = do
  handle ← get_u32
  region ← get_u32
  position ← get_world
  kind ← get_kind
  finish (spawn_into handle region position kind)

get_moves : Reader FromClient
get_moves = do
  count ← get_u32
  batch ←
      if ltb max_moves_per_datagram count
      then fail (malformed "client moves count")
      else get_many get_move count
  finish (moves batch)

get_teleport_into : Reader FromClient
get_teleport_into = do
  handle ← get_u32
  region ← get_u32
  at ← get_world
  finish (teleport_into handle region at)

unfoldable pub decode_body : ℕ → List ℕ → Result NetError FromClient
unfolding get_spawn get_spawn_into get_moves get_teleport_into
decode_body kind body =
    if kind == kind_spawn
    then decode_with get_spawn "client spawn" body
    else if kind == kind_spawn_into
    then decode_with get_spawn_into "client spawn into" body
    else if kind == kind_move
    then decode_with (get_u32 >>= λ handle. get_world >>= λ position. finish (move handle position))
        "client move" body
    else if kind == kind_moves
    then decode_with get_moves "client moves" body
    else if kind == kind_despawn
    then decode_with (get_u32 >>= λ handle. finish (despawn handle)) "client despawn" body
    else if kind == kind_message
    then ok (message body)
    else if kind == kind_entity_message
    then decode_with (get_u32 >>= λ handle. rest >>= λ body. return (entity_message handle body))
        "client entity message" body
    else if kind == kind_teleport
    then decode_with (get_u32 >>= λ handle. get_world >>= λ at. finish (teleport handle at))
        "client teleport" body
    else if kind == kind_teleport_into
    then decode_with get_teleport_into "client teleport into" body
    else err (unexpected "a client command" kind (kind_name kind))

unfoldable pub decode : List ℕ → Result NetError FromClient
decode [] = err (malformed "client message")
decode (kind ∷ body) = decode_body kind body

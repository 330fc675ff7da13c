-- ===== src/Net/Region/Protocol.antt =====
-- net/region/protocol.rs: the messages between a region and an edge, and their bytes.
pub mod Pairs
pub mod Sizes
pub mod RoundTrip
pub mod Params
pub mod Messages
pub mod Crowd
use Prim.Native.String.{String}
use umwelt_rs.Base.{
  ℕ, zero, suc, ◌-◌, ◌/◌, ltb, ◌==◌, if◌then◌else◌, List, [], ◌∷◌, ◌++◌, length, not,
}
use umwelt_rs.Base.Int.{ℤ}
use umwelt_rs.Base.Result.{Result, ok, err}
use umwelt_rs.Entity.{EntityId, EntityKind, unattended, observer, shadow}
use umwelt_rs.Fixed.{floor_meters}
use umwelt_rs.Pos.{Pos3}
use umwelt_rs.Config.{
  WorldConfig, builder, build, region_size_m, vertical_extent_m, horizontal_view_radius_m,
  max_horizontal_speed_m_per_sec, set_tick_hz, protocol_hash,
}
use umwelt_rs.Net.Error.{NetError, malformed, config_mismatch, from_config}
use umwelt_rs.Net.Wire.{
  Reader, Writer, ◌>>=◌, ◌>>◌, return, fail, get_u8, get_u16, get_u32, get_u64, get_i32, get_many,
  rest, finish, decode_with, put_u8, put_u16, put_u32, put_u64, put_i32, put_bytes, put_many, clear,
}

abbrev pub kind_spawn_entities : ℕ
kind_spawn_entities = 1

abbrev pub kind_move_entities : ℕ
kind_move_entities = 2

abbrev pub kind_despawn_entities : ℕ
kind_despawn_entities = 3

abbrev pub kind_keepalive : ℕ
kind_keepalive = 4

abbrev pub kind_game_message : ℕ
kind_game_message = 5

unfoldable pub kind_name : ℕ → String
kind_name kind =
    if kind == kind_spawn_entities
    then "spawn entities"
    else if kind == kind_move_entities
    then "move entities"
    else if kind == kind_despawn_entities
    then "despawn entities"
    else if kind == kind_keepalive
    then "keepalive"
    else if kind == kind_game_message
    then "game message"
    else "unknown"

abbrev pub max_message_bytes : ℕ
max_message_bytes = 4096

abbrev pub spawn_bytes : ℕ
spawn_bytes = 31

abbrev pub move_bytes : ℕ
move_bytes = 16

abbrev pub max_game_message_body : ℕ
max_game_message_body = max_message_bytes - 5

abbrev pub max_spawn_per_message : ℕ
max_spawn_per_message = (max_message_bytes - 5) / spawn_bytes

abbrev pub max_moves_per_message : ℕ
max_moves_per_message = (max_message_bytes - 5) / move_bytes

abbrev pub max_despawn_per_message : ℕ
max_despawn_per_message = (max_message_bytes - 5) / 4

-- A configuration reduced to the numbers that its builder takes, with its digest.
pub record WorldParams : Type 0 where
  pub region_size_m : ℤ
  pub vertical_extent_m : ℤ
  pub horizontal_view_radius_m : ℤ
  pub max_horizontal_speed_m_per_sec : ℤ
  pub tick_hz : ℕ
  pub protocol_hash : ℕ

unfoldable pub from_config_params : WorldConfig → WorldParams
unfolding floor_meters
from_config_params cfg = record {
  region_size_m = floor_meters cfg.region_size;
  vertical_extent_m = floor_meters cfg.vertical_extent;
  horizontal_view_radius_m = floor_meters cfg.horizontal_view_radius;
  max_horizontal_speed_m_per_sec = floor_meters cfg.max_horizontal_speed;
  tick_hz = cfg.tick_hz;
  protocol_hash = protocol_hash cfg;
}

-- The configuration that a region's numbers describe, if its digest is the region's.
unfoldable pub to_config : WorldParams → Result NetError WorldConfig
to_config p =
    let built = build (
      set_tick_hz p.tick_hz (
        max_horizontal_speed_m_per_sec p.max_horizontal_speed_m_per_sec (
          horizontal_view_radius_m p.horizontal_view_radius_m
            (vertical_extent_m p.vertical_extent_m (region_size_m p.region_size_m builder))))) in
    elim (from_config built) [
      | err e ↦ err e
      | ok cfg ↦
          if protocol_hash cfg == p.protocol_hash
          then ok cfg
          else err (config_mismatch (protocol_hash cfg) p.protocol_hash)
    ]

unfoldable pub put_params : WorldParams → Writer
put_params p = do
  put_i32 p.region_size_m
  put_i32 p.vertical_extent_m
  put_i32 p.horizontal_view_radius_m
  put_i32 p.max_horizontal_speed_m_per_sec
  put_u32 p.tick_hz
  put_u64 p.protocol_hash

unfoldable pub get_params : Reader WorldParams
get_params = do
  region_size_m ← get_i32
  vertical_extent_m ← get_i32
  horizontal_view_radius_m ← get_i32
  max_horizontal_speed_m_per_sec ← get_i32
  tick_hz ← get_u32
  protocol_hash ← get_u64
  return (record {
    region_size_m = region_size_m;
    vertical_extent_m = vertical_extent_m;
    horizontal_view_radius_m = horizontal_view_radius_m;
    max_horizontal_speed_m_per_sec = max_horizontal_speed_m_per_sec;
    tick_hz = tick_hz;
    protocol_hash = protocol_hash;
  })

pub record ServerVersion : Type 0 where
  pub major : ℕ
  pub minor : ℕ
  pub patch : ℕ

pub record ServerInfo : Type 0 where
  pub protocol : ℕ
  pub server : ServerVersion
  pub region : ℕ
  pub params : WorldParams

-- `out.clear()` first.
unfoldable pub encode_server_info : ServerInfo → Writer
encode_server_info i = do
  clear
  put_u16 i.protocol
  put_u16 i.server.major
  put_u16 i.server.minor
  put_u16 i.server.patch
  put_u32 i.region
  put_params i.params

get_server_info : Reader ServerInfo
get_server_info = do
  protocol ← get_u16
  major ← get_u16
  minor ← get_u16
  patch ← get_u16
  region ← get_u32
  params ← get_params
  finish (record {
    protocol = protocol;
    server = record { major = major; minor = minor; patch = patch };
    region = region;
    params = params;
  })

unfoldable pub decode_server_info : List ℕ → Result NetError ServerInfo
unfolding get_server_info
decode_server_info body = decode_with get_server_info "server info" body

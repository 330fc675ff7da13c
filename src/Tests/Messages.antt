-- ===== src/Tests/Messages.antt =====
-- net/region/protocol.rs: messages between an edge and a region.
use umwelt_rs.Base.{◌+◌, ◌*◌, ◌≤◌, ◌≡◌, refl, arith, List, [], ◌∷◌, length}
use umwelt_rs.Base.Int.{pos, negsuc}
use umwelt_rs.Base.Result.{ok}
use umwelt_rs.Entity.{observer}
use umwelt_rs.Pos.{Pos3}
use umwelt_rs.Pos.World.{IsPos3}
use umwelt_rs.Config.{protocol_hash}
use umwelt_rs.Config.Valid.{IsValid}
use umwelt_rs.Base.Bytes.{from_le}
use umwelt_rs.Net.Wire.{decode_with, ◌>>=◌, get_le, get_many, finish, get_i32}
use umwelt_rs.Net.Region.Protocol.{
  kind_spawn_entities, from_config_params, to_config, ServerInfo, max_spawn_per_message,
  max_moves_per_message, max_despawn_per_message,
}
use umwelt_rs.Net.Region.Protocol.Messages.{
  Spawn, Move, GameMessage, encode_spawn_entities, decode_spawn_entities, decode_move_entities,
  decode_despawn_entities, get_counted, get_move, get_pos3,
}
use umwelt_rs.Net.Region.Protocol.Pairs.{IsServerInfo, is_observer, IsSpawn, IsMove}
use umwelt_rs.Net.Region.Protocol.RoundTrip.{Message, spawn_entities-Message}
use umwelt_rs.Net.Region.Protocol.Params.{to_config-IsValid, to_config-from_config}
use umwelt_rs.Net.Region.Protocol.Sizes.{commands_exact}
use umwelt_rs.Tests.World.{world, world_built}

abbrev at : Pos3
at = record { x = pos 100; y = pos 200; z = negsuc 3 }

at_pos : IsPos3 at
at_pos = record {
  x_i32 = (omega arith, omega arith);
  y_i32 = (omega arith, omega arith);
  z_i32 = (omega arith, omega arith);
}

abbrev spawn : Spawn
unfolding observer
spawn = record { position = at; kind = record { role = 1; tag = 3 }; token = 11; name = 12 }

spawn_fits : IsSpawn spawn
unfolding observer
spawn_fits = record {
  position = at_pos;
  kind = is_observer 3 (omega arith) refl;
  token = omega arith;
  name = omega arith;
}

spawn_entities-Message_example :
    Message kind_spawn_entities
      (4 + 2 * 31)
      encode_spawn_entities
      decode_spawn_entities
      (spawn ∷ spawn ∷ [])
spawn_entities-Message_example =
    spawn_entities-Message (spawn ∷ spawn ∷ []) (spawn_fits, (spawn_fits, tt)) (omega arith)

abbrev move : Move
move = record { entity = 5; position = at }

move_fits : IsMove move
move_fits = record { entity = omega arith; position = at_pos }

abbrev chat : GameMessage
chat = record { entity = 5; body = 104 ∷ 105 ∷ [] }

abbrev info : ServerInfo
info = record {
  protocol = 3;
  server = record { major = 0; minor = 4; patch = 1 };
  region = 7;
  params = record {
    region_size_m = pos 4096;
    vertical_extent_m = pos 1024;
    horizontal_view_radius_m = pos 256;
    max_horizontal_speed_m_per_sec = pos 40;
    tick_hz = 20;
    protocol_hash = 99;
  };
}

info_fits : IsServerInfo info
info_fits = record {
  protocol = omega arith;
  major = omega arith;
  minor = omega arith;
  patch = omega arith;
  region = omega arith;
  params = record {
    region_size = (omega arith, omega arith);
    vertical_extent = (omega arith, omega arith);
    view_radius = (omega arith, omega arith);
    speed = (omega arith, omega arith);
    tick_hz = omega arith;
    protocol_hash = omega arith;
  };
}

to_config-from_config_example : to_config (from_config_params world) ≡ ok world
to_config-from_config_example =
    to_config-from_config (pos 4096) (pos 1024) (pos 256) (pos 40) 20 world world_built

to_config-IsValid_example :
    IsValid world × (protocol_hash world ≡ (from_config_params world).protocol_hash)
to_config-IsValid_example =
    to_config-IsValid (from_config_params world) world
      (to_config-from_config (pos 4096) (pos 1024) (pos 256) (pos 40) 20 world world_built)

abbrev no_spawns : List Spawn
no_spawns = []

commands_exact_example :
    ((4 ≡ 4 + length no_spawns * 31) × (length no_spawns ≤ max_spawn_per_message))
    × ((20 ≡ 4 + 1 * 16) × (1 ≤ max_moves_per_message))
    × ((12 ≡ 4 + 2 * 4) × (2 ≤ max_despawn_per_message))
unfolding decode_spawn_entities decode_with ◌>>=◌ get_counted get_le from_le get_many finish
    decode_move_entities get_move get_pos3 get_i32 decode_despawn_entities
commands_exact_example =
    commands_exact (0 ∷ 0 ∷ 0 ∷ 0 ∷ [])
      (1 ∷ 0 ∷ 0 ∷ 0 ∷ 5 ∷ 0 ∷ 0 ∷ 0 ∷ 100 ∷ 0 ∷ 0 ∷ 0 ∷ 200 ∷ 0 ∷ 0 ∷ 0 ∷ 252 ∷ 255 ∷ 255 ∷ 255
        ∷ [])
      (2 ∷ 0 ∷ 0 ∷ 0 ∷ 5 ∷ 0 ∷ 0 ∷ 0 ∷ 6 ∷ 0 ∷ 0 ∷ 0 ∷ []) no_spawns (move ∷ []) (5 ∷ 6 ∷ []) refl
      refl refl

-- ===== src/Net/Region/Protocol/Messages.antt =====
-- net/region/protocol.rs: the commands of an edge and the reports of a region. A kind byte leads
-- each command; the decoder is given what follows it.
use Prim.Native.String.{String}
use umwelt_rs.Base.{ℕ, ltb, ◌==◌, if◌then◌else◌, List, length}
use umwelt_rs.Base.Result.{Result}
use umwelt_rs.Entity.{EntityId, EntityKind, unattended, observer, shadow}
use umwelt_rs.Pos.{Pos3}
use umwelt_rs.Net.Error.{NetError, malformed}
use umwelt_rs.Net.Wire.{
  Reader, Writer, ◌>>=◌, ◌>>◌, return, fail, get_u8, get_u16, get_u32, get_u64, get_i32, get_many,
  rest, finish, decode_with, put_u8, put_u16, put_u32, put_u64, put_i32, put_bytes, put_many, clear,
}
use umwelt_rs.Net.Region.Protocol.{
  kind_spawn_entities, kind_move_entities, kind_despawn_entities, kind_game_message,
  max_spawn_per_message, max_moves_per_message, max_despawn_per_message, max_game_message_body,
}

unfoldable pub put_kind : EntityKind → Writer
put_kind k = do put_u8 k.role; put_u16 k.tag

unfoldable pub kind_of : ℕ → ℕ → Reader EntityKind
kind_of role tag =
    if role == 0
    then return (unattended tag)
    else if role == 1
    then return (observer tag)
    else if role == 2
    then return shadow
    else fail (malformed "entity kind role")

unfoldable pub get_kind : Reader EntityKind
get_kind = do role ← get_u8; tag ← get_u16; kind_of role tag

unfoldable pub put_pos3 : Pos3 → Writer
put_pos3 p = do put_i32 p.x; put_i32 p.y; put_i32 p.z

unfoldable pub get_pos3 : Reader Pos3
get_pos3 = do x ← get_i32; y ← get_i32; z ← get_i32; return (record { x = x; y = y; z = z })

pub record Spawn : Type 0 where
  pub position : Pos3
  pub kind : EntityKind
  pub token : ℕ
  pub name : ℕ

-- The three axes, the kind, the token and the name, of one entity.
unfoldable pub put_spawn : Spawn → Writer
put_spawn s = do put_pos3 s.position; put_kind s.kind; put_u64 s.token; put_u64 s.name

unfoldable pub get_spawn : Reader Spawn
get_spawn = do
  position ← get_pos3
  kind ← get_kind
  token ← get_u64
  name ← get_u64
  return (record { position = position; kind = kind; token = token; name = name })

-- A count, refused past `cap`, and that many values.
unfoldable pub get_counted : {A : Type 0} → ℕ → String → Reader A → Reader (List A)
get_counted cap what p = do
  len ← get_u32
  if ltb cap len then fail (malformed what) else get_many p len

unfoldable pub put_counted : {A : Type 0} → (A → Writer) → List A → Writer
put_counted w vs = do put_u32 (length vs); put_many w vs

unfoldable pub encode_spawn_entities : List Spawn → Writer
encode_spawn_entities spawns = do clear; put_u8 kind_spawn_entities; put_counted put_spawn spawns

unfoldable pub decode_spawn_entities : List ℕ → Result NetError (List Spawn)
decode_spawn_entities body =
    decode_with (get_counted max_spawn_per_message "spawn entities count" get_spawn >>= finish)
      "spawn entities" body

pub record Move : Type 0 where
  pub entity : EntityId
  pub position : Pos3

unfoldable pub put_move : Move → Writer
put_move m = do put_u32 m.entity; put_pos3 m.position

unfoldable pub get_move : Reader Move
get_move = do
  entity ← get_u32
  position ← get_pos3
  return (record { entity = entity; position = position })

unfoldable pub encode_move_entities : List Move → Writer
encode_move_entities moves = do clear; put_u8 kind_move_entities; put_counted put_move moves

unfoldable pub decode_move_entities : List ℕ → Result NetError (List Move)
decode_move_entities body =
    decode_with (get_counted max_moves_per_message "move entities count" get_move >>= finish)
      "move entities" body

unfoldable pub encode_despawn_entities : List EntityId → Writer
encode_despawn_entities ids = do clear; put_u8 kind_despawn_entities; put_counted put_u32 ids

unfoldable pub decode_despawn_entities : List ℕ → Result NetError (List EntityId)
decode_despawn_entities body =
    decode_with (get_counted max_despawn_per_message "despawn entities count" get_u32 >>= finish)
      "despawn entities" body

pub record GameMessage : Type 0 where
  pub entity : EntityId
  pub body : List ℕ

unfoldable pub encode_game_message : GameMessage → Writer
encode_game_message m = do clear; put_u8 kind_game_message; put_u32 m.entity; put_bytes m.body

unfoldable pub game_message_of : EntityId → List ℕ → Reader GameMessage
game_message_of entity body =
    if ltb max_game_message_body (length body)
    then fail (malformed "game message body too large")
    else return (record { entity = entity; body = body })

unfoldable pub decode_game_message : List ℕ → Result NetError GameMessage
decode_game_message body =
    decode_with (get_u32 >>= λ entity. rest >>= game_message_of entity) "game message" body

pub data Presence : Type 0 where
  added : EntityId → ℕ → Presence
  removed : EntityId → Presence
  boundary_collision : EntityId → Pos3 → Presence
  view_collision : EntityId → Pos3 → Presence
  view_cleared : EntityId → Presence

-- A kind, an entity, and what the kind carries.
unfoldable pub put_presence : Presence → Writer
put_presence (added entity token) = do put_u8 1; put_u32 entity; put_u64 token
put_presence (removed entity) = do put_u8 2; put_u32 entity
put_presence (boundary_collision entity target) = do put_u8 3; put_u32 entity; put_pos3 target
put_presence (view_collision entity position) = do put_u8 4; put_u32 entity; put_pos3 position
put_presence (view_cleared entity) = do put_u8 5; put_u32 entity

unfoldable pub encode_presence : Presence → Writer
encode_presence p = do clear; put_presence p

unfoldable pub presence_of : ℕ → EntityId → Reader Presence
presence_of what entity =
    if what == 1
    then (get_u64 >>= λ token. finish (added entity token))
    else if what == 2
    then finish (removed entity)
    else if what == 3
    then (get_pos3 >>= λ target. finish (boundary_collision entity target))
    else if what == 4
    then (get_pos3 >>= λ position. finish (view_collision entity position))
    else if what == 5
    then finish (view_cleared entity)
    else fail (malformed "presence kind")

unfoldable pub decode_presence : List ℕ → Result NetError Presence
decode_presence body =
    decode_with (get_u8 >>= λ what. get_u32 >>= λ entity. presence_of what entity) "presence" body

-- ===== src/Net/Region/Protocol/RoundTrip.antt =====
-- net/region/protocol.rs: every message is read back as it was written.
use umwelt_rs.Base.{
  ℕ, suc, ◌%◌, ◌+◌, ◌*◌, ◌≤◌, ◌<◌, ◌≡◌, refl, ap, ◌∙◌, arith, List, [], ◌∷◌, ◌++◌, length, All,
  le→ltb, false, true,
}
use umwelt_rs.Base.Int.{IsU32, IsU64}
use umwelt_rs.Base.Result.{Result, ok}
use umwelt_rs.Base.Bytes.{le_bytes}
use umwelt_rs.Entity.{EntityId}
use umwelt_rs.Pos.{Pos3}
use umwelt_rs.Pos.World.{IsPos3}
use umwelt_rs.Net.Error.{NetError}
use umwelt_rs.Net.Wire.{Reader, Writer, ◌>>=◌, ◌>>◌, clear, put_le, finish, get_le}
use umwelt_rs.Net.Wire.RoundTrip.{
  Pairs, RoundTrips, round_trip, pair_le, pair_seq, pair_then, pair_last, pair_rest, Reads-finish,
  Reads-return_last,
}
use umwelt_rs.Net.Region.Protocol.{
  ServerInfo, encode_server_info, decode_server_info, kind_spawn_entities, kind_move_entities,
  kind_despawn_entities, kind_game_message, max_spawn_per_message, max_moves_per_message,
  max_despawn_per_message, max_game_message_body, max_message_bytes, spawn_bytes, move_bytes,
}
use umwelt_rs.Net.Region.Protocol.Messages.{
  Spawn, put_spawn, get_spawn, encode_spawn_entities, decode_spawn_entities, Move, put_move,
  get_move, encode_move_entities, decode_move_entities, encode_despawn_entities,
  decode_despawn_entities, GameMessage, encode_game_message, decode_game_message, game_message_of,
  Presence, added, removed, boundary_collision, view_collision, view_cleared, put_presence,
  encode_presence, presence_of, decode_presence,
}
use umwelt_rs.Net.Region.Protocol.Pairs.{
  IsServerInfo, IsSpawn, IsMove, pair_params, pair_pos3, pair_spawn, pair_move, pair_counted,
}

-- A message of kind `kind`: what the encoder leaves, whatever stood in the buffer, and what the
-- decoder makes of the bytes behind the kind.
pub record Message {A : Type 0} (kind size : ℕ) (encode : A → Writer)
    (decode : List ℕ → Result NetError A) (v : A) : Type 0 where
  pub body : List ℕ
  pub written : (out : List ℕ) → encode v out ≡ kind ∷ body
  pub read : decode body ≡ ok v
  pub length_body : length body ≡ size
  pub within_cap : suc (length body) ≤ max_message_bytes

pub framed :
    (kind : ℕ) (w : Writer) (body out : List ℕ)
    → kind < 256
    → ((o : List ℕ) → w o ≡ o ++ body)
    → (clear >> (put_le 1 kind >> w)) out ≡ kind ∷ body
unfolding clear put_le ◌>>◌ le_bytes
framed kind w body out h run = run ((kind % 256) ∷ []) ∙ ap (λ (k : ℕ). k ∷ body) (omega arith)

message :
    {A : Type 0} {n : ℕ} {w : Writer} {decode : List ℕ → Result NetError A} {v : A} (kind : ℕ)
    (encode : A → Writer)
    → kind < 256
    → encode v ≡ (clear >> (put_le 1 kind >> w))
    → n < max_message_bytes
    → RoundTrips n w decode v
    → Message kind n encode decode v
message kind encode h e small r = record {
  body = r.body;
  written = λ out. ap (λ (f : Writer). f out) e ∙ framed kind _ r.body out h r.written;
  read = r.read;
  length_body = r.size;
  within_cap = omega (arith, r.size);
}

pub counted_then :
    {A : Type 0} {n : ℕ} {w : Writer} {p : Reader A} {v : A}
    → Pairs false n w p v
    → Pairs true n w (p >>= finish) v
counted_then {v = v} x = pair_then finish x (Reads-finish v)

pub All-map :
    {A : Type 0} {P Q : A → Type 0} (xs : List A) → ((a : A) → P a → Q a) → All P xs → All Q xs
All-map [] f h = tt
All-map (x ∷ xs) f h = (f x h.0, All-map xs f h.1)

-- A list of spawns within the cap and of values in range is encoded, whatever stood in the buffer,
-- as its kind and a body that decodes to the list, of 31 bytes a spawn and within the message
-- limit.
pub spawn_entities-Message :
    (spawns : List Spawn)
    → All IsSpawn spawns
    → length spawns ≤ max_spawn_per_message
    → Message kind_spawn_entities
        (4 + length spawns * spawn_bytes)
        encode_spawn_entities
        decode_spawn_entities
        spawns
unfolding encode_spawn_entities decode_spawn_entities
spawn_entities-Message spawns h cap =
    message kind_spawn_entities encode_spawn_entities (omega arith) refl (omega arith) (
      round_trip "spawn entities"
        (counted_then (
          pair_counted max_spawn_per_message spawn_bytes "spawn entities count" put_spawn get_spawn
            spawns (omega arith) cap (All-map spawns pair_spawn h)))
        (omega arith))

-- A list of moves within the cap and of values in range is encoded as its kind and a body that
-- decodes to the list, of 16 bytes a move and within the message limit.
pub move_entities-Message :
    (moves : List Move)
    → All IsMove moves
    → length moves ≤ max_moves_per_message
    → Message kind_move_entities
        (4 + length moves * move_bytes)
        encode_move_entities
        decode_move_entities
        moves
unfolding encode_move_entities decode_move_entities
move_entities-Message moves h cap =
    message kind_move_entities encode_move_entities (omega arith) refl (omega arith) (
      round_trip "move entities"
        (counted_then (
          pair_counted max_moves_per_message move_bytes "move entities count" put_move get_move
            moves (omega arith) cap (All-map moves pair_move h)))
        (omega arith))

-- A list of entity ids within the cap is encoded as its kind and a body that decodes to the list,
-- of 4 bytes an id and within the message limit.
pub despawn_entities-Message :
    (ids : List EntityId)
    → All IsU32 ids
    → length ids ≤ max_despawn_per_message
    → Message kind_despawn_entities
        (4 + length ids * 4)
        encode_despawn_entities
        decode_despawn_entities
        ids
unfolding encode_despawn_entities decode_despawn_entities
despawn_entities-Message ids h cap =
    message kind_despawn_entities encode_despawn_entities (omega arith) refl (omega arith) (
      round_trip "despawn entities"
        (counted_then (
          pair_counted max_despawn_per_message 4 "despawn entities count" (put_le 4) (get_le 4) ids
            (omega arith) cap (All-map ids (λ v h. pair_le 4 v h) h)))
        (omega arith))

-- A game message whose body is within the limit is encoded as its kind and a body that decodes to
-- the message.
pub game_message-Message :
    (m : GameMessage)
    → IsU32 m.entity
    → length m.body ≤ max_game_message_body
    → Message kind_game_message (4 + length m.body) encode_game_message decode_game_message m
unfolding encode_game_message decode_game_message game_message_of
game_message-Message m h cap =
    message kind_game_message encode_game_message (omega arith) refl (omega arith) (
      round_trip "game message"
        (pair_seq _ (pair_le 4 m.entity h) (
          pair_last _ (pair_rest m.body)
            (rw (le→ltb max_game_message_body (length m.body) cap) (Reads-return_last m))))
        (omega arith))

-- A list of moves and a list of entity ids within their caps, and a game message whose body is
-- within its limit, of values in range, are each encoded as their kind and a body that decodes to
-- them.
pub commands-Message :
    (moves : List Move) (ids : List EntityId) (m : GameMessage)
    → All IsMove moves
    → length moves ≤ max_moves_per_message
    → All IsU32 ids
    → length ids ≤ max_despawn_per_message
    → IsU32 m.entity
    → length m.body ≤ max_game_message_body
    → Message kind_move_entities
        (4 + length moves * move_bytes)
        encode_move_entities
        decode_move_entities
        moves
      × Message kind_despawn_entities
          (4 + length ids * 4)
          encode_despawn_entities
          decode_despawn_entities
          ids
      × Message kind_game_message (4 + length m.body) encode_game_message decode_game_message m
commands-Message moves ids m hm cm hi ci e cb = (
  move_entities-Message moves hm cm,
  despawn_entities-Message ids hi ci,
  game_message-Message m e cb,
)

-- A report of a region that its edge can be sent.
pub data IsPresence : Presence → Type 0 where
  is_added : (entity token : ℕ) → IsU32 entity → IsU64 token → IsPresence (added entity token)
  is_removed : (entity : ℕ) → IsU32 entity → IsPresence (removed entity)
  is_boundary :
      (entity : ℕ) (at : Pos3)
      → IsU32 entity
      → IsPos3 at
      → IsPresence (boundary_collision entity at)
  is_view :
      (entity : ℕ) (at : Pos3) → IsU32 entity → IsPos3 at → IsPresence (view_collision entity at)
  is_cleared : (entity : ℕ) → IsU32 entity → IsPresence (view_cleared entity)

-- The width of each report.
abbrev pub presence_size : Presence → ℕ
presence_size (added entity token) = 13
presence_size (removed entity) = 5
presence_size (boundary_collision entity at) = 17
presence_size (view_collision entity at) = 17
presence_size (view_cleared entity) = 5

pair_presence :
    (p : Presence)
    → IsPresence p
    → Pairs true
        (presence_size p)
        (put_presence p)
        (get_le 1 >>= λ what. get_le 4 >>= λ entity. presence_of what entity)
        p
unfolding put_presence presence_of
pair_presence p (is_added e t h k) =
    pair_seq _ (pair_le 1 1 (omega arith))
      (pair_seq _ (pair_le 4 e h) (pair_then _ (pair_le 8 t k) (Reads-finish p)))
pair_presence p (is_removed e h) =
    pair_seq _ (pair_le 1 2 (omega arith)) (pair_then _ (pair_le 4 e h) (Reads-finish p))
pair_presence p (is_boundary e at h k) =
    pair_seq _ (pair_le 1 3 (omega arith))
      (pair_seq _ (pair_le 4 e h) (pair_then _ (pair_pos3 at k) (Reads-finish p)))
pair_presence p (is_view e at h k) =
    pair_seq _ (pair_le 1 4 (omega arith))
      (pair_seq _ (pair_le 4 e h) (pair_then _ (pair_pos3 at k) (Reads-finish p)))
pair_presence p (is_cleared e h) =
    pair_seq _ (pair_le 1 5 (omega arith)) (pair_then _ (pair_le 4 e h) (Reads-finish p))

presence_size-le : (p : Presence) → presence_size p ≤ 17
presence_size-le (added e t) = omega arith
presence_size-le (removed e) = omega arith
presence_size-le (boundary_collision e p) = omega arith
presence_size-le (view_collision e p) = omega arith
presence_size-le (view_cleared e) = omega arith

-- A whole body that its decoder reads back, whatever stood in the encoder's buffer.
pub record Whole {A : Type 0} (limit : ℕ) (encode : A → Writer)
    (decode : List ℕ → Result NetError A) (v : A) : Type 0 where
  pub body : List ℕ
  pub written : (out : List ℕ) → encode v out ≡ body
  pub read : decode body ≡ ok v
  pub within : length body ≤ limit

whole :
    {A : Type 0} {n limit : ℕ} {w : Writer} {decode : List ℕ → Result NetError A} {v : A}
    (encode : A → Writer)
    → encode v ≡ (clear >> w)
    → n ≤ limit
    → RoundTrips n w decode v
    → Whole limit encode decode v
unfolding clear ◌>>◌
whole encode e small r = record {
  body = r.body;
  written = λ out. ap (λ (f : Writer). f out) e ∙ r.written [];
  read = r.read;
  within = omega (arith, r.size);
}

-- Every report of a region, of values in range, decodes as it was encoded, in at most 17 bytes.
pub presence-Whole : (p : Presence) → IsPresence p → Whole 17 encode_presence decode_presence p
unfolding encode_presence decode_presence
presence-Whole p h =
    whole encode_presence refl (presence_size-le p)
      (round_trip "presence" (pair_presence p h) (omega (arith, presence_size-le p)))

-- A region's description of itself, of values in range, decodes as it was encoded, in at most 40
-- bytes.
pub server_info-Whole :
    (i : ServerInfo) → IsServerInfo i → Whole 40 encode_server_info decode_server_info i
unfolding encode_server_info decode_server_info
server_info-Whole i h = whole encode_server_info refl (omega arith) (
    round_trip "server info"
      (pair_seq _ (pair_le 2 _ h.protocol) (
        pair_seq _ (pair_le 2 _ h.major) (
          pair_seq _ (pair_le 2 _ h.minor) (
            pair_seq _ (pair_le 2 _ h.patch) (
              pair_seq _ (pair_le 4 _ h.region)
                (pair_then _ (pair_params i.params h.params) (Reads-finish i)))))))
      (omega arith))

-- Every report of a region and its description of itself, of values in range, decode as they were
-- encoded, in at most 17 and 40 bytes.
pub reports-Whole :
    (p : Presence) (i : ServerInfo)
    → IsPresence p
    → IsServerInfo i
    → Whole 17 encode_presence decode_presence p × Whole 40 encode_server_info decode_server_info i
reports-Whole p i h k = (presence-Whole p h, server_info-Whole i k)

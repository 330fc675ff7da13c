-- ===== src/Net/Edge/Protocol/RoundTrip.antt =====
-- net/edge/protocol.rs: every message of a client is read back as it was written.
use umwelt_rs.Base.{
  ℕ, suc, ◌+◌, ◌*◌, ◌^◌, ◌≤◌, ◌<◌, ◌≡◌, refl, ap, ◌∙◌, arith, List, ◌∷◌, length, All, false, le→ltb,
}
use umwelt_rs.Base.Int.{IsU32}
use umwelt_rs.Base.Result.{Result, ok}
use umwelt_rs.Entity.{EntityKind}
use umwelt_rs.Pos.{WorldPos}
use umwelt_rs.Pos.World.{IsWorldPos}
use umwelt_rs.Net.Error.{NetError}
use umwelt_rs.Net.Wire.{Writer, ◌>>◌, clear, put_le, put_bytes}
use umwelt_rs.Net.Wire.RoundTrip.{
  Pairs, RoundTrips, round_trip, pair_le, pair_i64, pair_seq, pair_then, pair_last, pair_rest,
  pair_many, Reads-return, Reads-return_last, Reads-finish,
}
use umwelt_rs.Net.Region.Protocol.Pairs.{IsKind, pair_kind}
use umwelt_rs.Net.Region.Protocol.RoundTrip.{Whole, framed, All-map}
use umwelt_rs.Net.Edge.Protocol.{
  FromClient, spawn, spawn_into, move, moves, despawn, message, entity_message, teleport,
  teleport_into, put_world, get_world, put_move, get_move, encode, decode, decode_body,
  max_moves_per_datagram, move_bytes, world_bytes,
}

-- The longest sequence of bytes that a `Vec` holds.
abbrev pub isize_max : ℕ
isize_max = 2 ^ 63

abbrev pub IsMove : ℕ × WorldPos → Type 0
IsMove m = IsU32 m.0 × IsWorldPos m.1

-- A message whose numbers fit their types, with a batch within the cap.
pub data IsFromClient : FromClient → Type 0 where
  is_spawn :
      (h : ℕ) (p : WorldPos) (k : EntityKind)
      → IsU32 h
      → IsWorldPos p
      → IsKind k
      → IsFromClient (spawn h p k)
  is_spawn_into :
      (h r : ℕ) (p : WorldPos) (k : EntityKind)
      → IsU32 h
      → IsU32 r
      → IsWorldPos p
      → IsKind k
      → IsFromClient (spawn_into h r p k)
  is_move : (h : ℕ) (p : WorldPos) → IsU32 h → IsWorldPos p → IsFromClient (move h p)
  is_moves :
      (ms : List (ℕ × WorldPos))
      → All IsMove ms
      → length ms ≤ max_moves_per_datagram
      → IsFromClient (moves ms)
  is_despawn : (h : ℕ) → IsU32 h → IsFromClient (despawn h)
  is_message : (b : List ℕ) → length b < isize_max → IsFromClient (message b)
  is_entity_message :
      (h : ℕ) (b : List ℕ) → IsU32 h → length b < isize_max → IsFromClient (entity_message h b)
  is_teleport : (h : ℕ) (p : WorldPos) → IsU32 h → IsWorldPos p → IsFromClient (teleport h p)
  is_teleport_into :
      (h r : ℕ) (p : WorldPos)
      → IsU32 h
      → IsU32 r
      → IsWorldPos p
      → IsFromClient (teleport_into h r p)

-- The width of each message, its kind byte included.
abbrev pub from_client_size : FromClient → ℕ
from_client_size (spawn h p k) = 32
from_client_size (spawn_into h r p k) = 36
from_client_size (move h p) = 29
from_client_size (moves ms) = suc (4 + length ms * move_bytes)
from_client_size (despawn h) = 5
from_client_size (message b) = suc (length b)
from_client_size (entity_message h b) = suc (4 + length b)
from_client_size (teleport h p) = 29
from_client_size (teleport_into h r p) = 33

pub pair_world : (p : WorldPos) → IsWorldPos p → Pairs false world_bytes (put_world p) get_world p
unfolding put_world get_world
pair_world p h =
    pair_seq _ (pair_i64 _ h.x_i64)
      (pair_seq _ (pair_i64 _ h.y_i64) (pair_then _ (pair_i64 _ h.z_i64) (Reads-return p)))

pair_move : (m : ℕ × WorldPos) → IsMove m → Pairs false move_bytes (put_move m) get_move m
unfolding put_move get_move
pair_move m h = pair_seq _ (pair_le 4 m.0 h.0) (pair_then _ (pair_world m.1 h.1) (Reads-return m))

-- A kind byte, and a body that the decoder of that kind reads back.
pub kind_then :
    {A : Type 0} {n : ℕ} {w : Writer} {decode_body : List ℕ → Result NetError A} {v : A} (kind : ℕ)
    (encode : A → Writer) (decode : List ℕ → Result NetError A)
    → kind < 256
    → encode v ≡ (clear >> (put_le 1 kind >> w))
    → ((b : List ℕ) → decode (kind ∷ b) ≡ decode_body b)
    → RoundTrips n w decode_body v
    → Whole (suc n) encode decode v
kind_then kind encode decode h e d r = record {
  body = kind ∷ r.body;
  written = λ out. ap (λ (f : Writer). f out) e ∙ framed kind _ r.body out h r.written;
  read = d r.body ∙ r.read;
  within = omega (arith, r.size);
}

-- Bytes that are the message themselves.
pub verbatim :
    {A : Type 0} (make : List ℕ → A) (b : List ℕ)
    → RoundTrips (length b) (put_bytes b) (λ body. ok (make body)) (make b)
unfolding put_bytes
verbatim make b = record { body = b; size = refl; written = λ out. refl; read = refl }

pub encode-Whole : (m : FromClient) → IsFromClient m → Whole (from_client_size m) encode decode m
unfolding encode decode decode_body
encode-Whole m (is_spawn h p k eh ep ek) =
    kind_then 1 encode decode (omega arith) refl (λ b. refl)
      (round_trip "client spawn"
        (pair_seq _ (pair_le 4 h eh)
          (pair_seq _ (pair_world p ep) (pair_then _ (pair_kind k ek) (Reads-finish _))))
        (omega arith))
encode-Whole m (is_spawn_into h r p k eh er ep ek) =
    kind_then 15 encode decode (omega arith) refl (λ b. refl)
      (round_trip "client spawn into"
        (pair_seq _ (pair_le 4 h eh) (
          pair_seq _ (pair_le 4 r er)
            (pair_seq _ (pair_world p ep) (pair_then _ (pair_kind k ek) (Reads-finish _)))))
        (omega arith))
encode-Whole m (is_move h p eh ep) =
    kind_then 2 encode decode (omega arith) refl (λ b. refl)
      (round_trip "client move"
        (pair_seq _ (pair_le 4 h eh) (pair_then _ (pair_world p ep) (Reads-finish _)))
        (omega arith))
encode-Whole m (is_moves ms ems few) =
    kind_then 9 encode decode (omega arith) refl (λ b. refl)
      (round_trip "client moves"
        (pair_seq _ (pair_le 4 (length ms) (omega arith)) (
          rw (le→ltb max_moves_per_datagram (length ms) few) (
            pair_then _ (pair_many move_bytes put_move get_move ms (All-map ms pair_move ems))
              (Reads-finish _))))
        (omega arith))
encode-Whole m (is_despawn h eh) =
    kind_then 3 encode decode (omega arith) refl (λ b. refl)
      (round_trip "client despawn" (pair_then _ (pair_le 4 h eh) (Reads-finish _)) (omega arith))
encode-Whole m (is_message b small) =
    kind_then 7 encode decode (omega arith) refl (λ b. refl) (verbatim message b)
encode-Whole m (is_entity_message h b eh small) =
    kind_then 13 encode decode (omega arith) refl (λ b. refl)
      (round_trip "client entity message"
        (pair_seq _ (pair_le 4 h eh) (pair_last _ (pair_rest b) (Reads-return_last _)))
        (omega arith))
encode-Whole m (is_teleport h p eh ep) =
    kind_then 10 encode decode (omega arith) refl (λ b. refl)
      (round_trip "client teleport"
        (pair_seq _ (pair_le 4 h eh) (pair_then _ (pair_world p ep) (Reads-finish _)))
        (omega arith))
encode-Whole m (is_teleport_into h r p eh er ep) =
    kind_then 14 encode decode (omega arith) refl (λ b. refl)
      (round_trip "client teleport into"
        (pair_seq _ (pair_le 4 h eh)
          (pair_seq _ (pair_le 4 r er) (pair_then _ (pair_world p ep) (Reads-finish _))))
        (omega arith))

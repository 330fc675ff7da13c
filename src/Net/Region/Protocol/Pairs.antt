-- ===== src/Net/Region/Protocol/Pairs.antt =====
-- net/region/protocol.rs: the parts of a message, each read back as it was written.
use Prim.Native.String.{String}
use umwelt_rs.Base.{ℕ, ◌+◌, ◌*◌, ◌^◌, ◌≤◌, ◌<◌, ◌≡◌, arith, List, length, All, le→ltb, false}
use umwelt_rs.Base.Int.{IsI32, IsU16, IsU32, IsU64}
use umwelt_rs.Entity.{EntityKind, unattended, observer, shadow}
use umwelt_rs.Pos.{Pos3}
use umwelt_rs.Pos.World.{IsPos3}
use umwelt_rs.Net.Wire.{Reader, Writer}
use umwelt_rs.Net.Wire.RoundTrip.{
  Pairs, pair_le, pair_i32, pair_seq, pair_then, pair_many, Reads-return,
}
use umwelt_rs.Net.Region.Protocol.{
  WorldParams, ServerInfo, put_params, get_params, spawn_bytes, move_bytes,
}
use umwelt_rs.Net.Region.Protocol.Messages.{
  put_kind, get_kind, kind_of, put_pos3, get_pos3, Spawn, put_spawn, get_spawn, get_counted,
  put_counted, Move, put_move, get_move,
}

-- The numbers of a value are those that its Rust type holds.
pub record IsParams (p : WorldParams) : Type 0 where
  pub region_size : IsI32 p.region_size_m
  pub vertical_extent : IsI32 p.vertical_extent_m
  pub view_radius : IsI32 p.horizontal_view_radius_m
  pub speed : IsI32 p.max_horizontal_speed_m_per_sec
  pub tick_hz : IsU32 p.tick_hz
  pub protocol_hash : IsU64 p.protocol_hash

pub record IsServerInfo (i : ServerInfo) : Type 0 where
  pub protocol : IsU16 i.protocol
  pub major : IsU16 i.server.major
  pub minor : IsU16 i.server.minor
  pub patch : IsU16 i.server.patch
  pub region : IsU32 i.region
  pub params : IsParams i.params

-- A kind that one of the three constructors of the source makes.
pub data IsKind : EntityKind → Type 0 where
  is_unattended : {k : EntityKind} (tag : ℕ) → IsU16 tag → k ≡ unattended tag → IsKind k
  is_observer : {k : EntityKind} (tag : ℕ) → IsU16 tag → k ≡ observer tag → IsKind k
  is_shadow : {k : EntityKind} → k ≡ shadow → IsKind k

pub record IsSpawn (s : Spawn) : Type 0 where
  pub position : IsPos3 s.position
  pub kind : IsKind s.kind
  pub token : IsU64 s.token
  pub name : IsU64 s.name

pub record IsMove (m : Move) : Type 0 where
  pub entity : IsU32 m.entity
  pub position : IsPos3 m.position

pub pair_params : (p : WorldParams) → IsParams p → Pairs false 28 (put_params p) get_params p
unfolding put_params get_params
pair_params p h = pair_seq _ (pair_i32 _ h.region_size) (
    pair_seq _ (pair_i32 _ h.vertical_extent) (
      pair_seq _ (pair_i32 _ h.view_radius) (
        pair_seq _ (pair_i32 _ h.speed) (
          pair_seq _ (pair_le 4 _ h.tick_hz)
            (pair_then _ (pair_le 8 _ h.protocol_hash) (Reads-return p))))))

pub pair_pos3 : (p : Pos3) → IsPos3 p → Pairs false 12 (put_pos3 p) get_pos3 p
unfolding put_pos3 get_pos3
pair_pos3 p h =
    pair_seq _ (pair_i32 _ h.x_i32)
      (pair_seq _ (pair_i32 _ h.y_i32) (pair_then _ (pair_i32 _ h.z_i32) (Reads-return p)))

pub pair_kind : (k : EntityKind) → IsKind k → Pairs false 3 (put_kind k) get_kind k
unfolding put_kind get_kind
pair_kind k (is_unattended tag h e) = rw e (
    unfold kind_of unattended in
    pair_seq _ (pair_le 1 0 (omega arith)) (pair_then _ (pair_le 2 tag h) (Reads-return _)))
pair_kind k (is_observer tag h e) = rw e (
    unfold kind_of observer in
    pair_seq _ (pair_le 1 1 (omega arith)) (pair_then _ (pair_le 2 tag h) (Reads-return _)))
pair_kind k (is_shadow e) = rw e (
    unfold kind_of shadow in
    pair_seq _ (pair_le 1 2 (omega arith))
      (pair_then _ (pair_le 2 0 (omega arith)) (Reads-return _)))

pub pair_spawn : (s : Spawn) → IsSpawn s → Pairs false spawn_bytes (put_spawn s) get_spawn s
unfolding put_spawn get_spawn
pair_spawn s h = pair_seq _ (pair_pos3 _ h.position) (
    pair_seq _ (pair_kind _ h.kind)
      (pair_seq _ (pair_le 8 _ h.token) (pair_then _ (pair_le 8 _ h.name) (Reads-return s))))

pub pair_move : (m : Move) → IsMove m → Pairs false move_bytes (put_move m) get_move m
unfolding put_move get_move
pair_move m h =
    pair_seq _ (pair_le 4 _ h.entity) (pair_then _ (pair_pos3 _ h.position) (Reads-return m))

pub pair_counted :
    {A : Type 0} (cap n : ℕ) (what : String) (w : A → Writer) (p : Reader A) (vs : List A)
    → cap < 2 ^ 32
    → length vs ≤ cap
    → All (λ v. Pairs false n (w v) p v) vs
    → Pairs false (4 + length vs * n) (put_counted w vs) (get_counted cap what p) vs
unfolding put_counted get_counted
pair_counted cap n what w p vs small h each =
    pair_seq _ (pair_le 4 (length vs) (omega arith))
      (rw (le→ltb cap (length vs) h) (pair_many n w p vs each))

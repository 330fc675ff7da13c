-- ===== src/Net/Region/Protocol/Crowd.antt =====
-- net/region/protocol.rs: the spawns of a crowd, from its positions alone.
use umwelt_rs.Base.{
  ℕ, suc, ◌+◌, ◌*◌, ◌^◌, ◌≤◌, ◌<◌, ◌≡◌, refl, ap, arith, List, [], ◌∷◌, length, All,
}
use umwelt_rs.Entity.{EntityKind, unattended, observer}
use umwelt_rs.Pos.{Pos3}
use umwelt_rs.Pos.World.{IsPos3}
use umwelt_rs.Net.Region.Protocol.{kind_spawn_entities, max_spawn_per_message, spawn_bytes}
use umwelt_rs.Net.Region.Protocol.Messages.{Spawn, encode_spawn_entities, decode_spawn_entities}
use umwelt_rs.Net.Region.Protocol.Pairs.{IsKind, IsSpawn, is_unattended, is_observer}
use umwelt_rs.Net.Region.Protocol.RoundTrip.{Message, spawn_entities-Message}

-- `positions.iter().enumerate()`, each a spawn of one kind with its index for token and name.
unfoldable pub enumerated : EntityKind → ℕ → List Pos3 → List Spawn
enumerated kind n [] = []
enumerated kind n (p ∷ ps) =
    record { position = p; kind = kind; token = n; name = n } ∷ enumerated kind (suc n) ps

-- `SpawnEntities::observers`.
unfoldable pub observers : List Pos3 → List Spawn
unfolding enumerated
observers positions = enumerated (observer 0) 0 positions

-- `SpawnEntities::unattended`.
unfoldable pub unattended_crowd : List Pos3 → List Spawn
unfolding enumerated
unattended_crowd positions = enumerated (unattended 0) 0 positions

length-enumerated :
    (kind : EntityKind) (n : ℕ) (ps : List Pos3) → length (enumerated kind n ps) ≡ length ps
unfolding enumerated
length-enumerated kind n [] = refl
length-enumerated kind n (p ∷ ps) = ap suc (length-enumerated kind (suc n) ps)

enumerated-IsSpawn :
    (kind : EntityKind) (n : ℕ) (ps : List Pos3)
    → IsKind kind
    → All IsPos3 ps
    → n + length ps < 2 ^ 64
    → All IsSpawn (enumerated kind n ps)
unfolding enumerated
enumerated-IsSpawn kind n [] k h l = tt
enumerated-IsSpawn kind n (p ∷ ps) k h l = (
  record { position = h.0; kind = k; token = omega arith; name = omega arith },
  enumerated-IsSpawn kind (suc n) ps k h.1 (omega arith),
)

-- A crowd of observers or of unattended entities, of no more positions than one message takes, is
-- sent as one message that a region decodes to the same spawns.
pub crowd-Message :
    (ps : List Pos3)
    → All IsPos3 ps
    → length ps ≤ max_spawn_per_message
    → Message kind_spawn_entities
        (4 + length (observers ps) * spawn_bytes)
        encode_spawn_entities
        decode_spawn_entities
        (observers ps)
      × Message kind_spawn_entities
          (4 + length (unattended_crowd ps) * spawn_bytes)
          encode_spawn_entities
          decode_spawn_entities
          (unattended_crowd ps)
unfolding observers unattended_crowd
crowd-Message ps h l = (
  spawn_entities-Message (observers ps)
      (enumerated-IsSpawn (observer 0) 0 ps (is_observer 0 (omega arith) refl) h (omega arith))
      (omega (arith, length-enumerated (observer 0) 0 ps)),
  spawn_entities-Message (unattended_crowd ps)
      (enumerated-IsSpawn (unattended 0) 0 ps (is_unattended 0 (omega arith) refl) h (omega arith))
      (omega (arith, length-enumerated (unattended 0) 0 ps)),
)

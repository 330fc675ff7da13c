-- ===== src/Net/Region/Protocol/Sizes.antt =====
-- net/region/protocol.rs: what a decoder accepts, whatever bytes it is given.
use Prim.Native.String.{String}
use umwelt_rs.Base.{
  ℕ, ◌+◌, ◌*◌, ◌≤◌, ◌≡◌, ap, ltb→le, arith, List, length, ltb, ◌==◌, if◌then◌else◌, false,
}
use umwelt_rs.Base.Result.{ok}
use umwelt_rs.Entity.{EntityId, EntityKind, unattended, observer, shadow}
use umwelt_rs.Net.Error.{malformed}
use umwelt_rs.Net.Wire.{Reader, return, fail, get_le, get_many}
use umwelt_rs.Net.Wire.Total.{
  Takes, Takes-return, Takes-fail, Takes-bind, Takes-le, Takes-i32, Takes-many, Takes-weaken,
  Takes-whole, Takes-if,
}
use umwelt_rs.Net.Region.Protocol.{
  max_spawn_per_message, max_moves_per_message, max_despawn_per_message,
}
use umwelt_rs.Net.Region.Protocol.Messages.{
  get_kind, kind_of, get_pos3, get_spawn, get_move, get_counted, Spawn, Move, decode_spawn_entities,
  decode_move_entities, decode_despawn_entities,
}

Takes-pos3 : Takes (λ v n. n ≡ 12) get_pos3
unfolding get_pos3
Takes-pos3 = Takes-bind _ _ _ _ Takes-i32 λ x a p.
    Takes-bind _ _ _ _ Takes-i32
      λ y b q. Takes-bind _ _ _ _ Takes-i32 (λ z c r. Takes-return _ _ (omega arith))

Takes-kind_of : (role tag j : ℕ) → j ≡ 3 → Takes (λ v m. j + m ≡ 3) (kind_of role tag)
unfolding kind_of
Takes-kind_of role tag j h =
    Takes-if P (role == 0) (return (unattended tag))
      (if role == 1 then return (observer tag) else other)
      (λ _. Takes-return P (unattended tag) at_3)
      λ _.
        Takes-if P (role == 1) (return (observer tag)) other
          (λ _. Takes-return P (observer tag) at_3)
          λ _.
            Takes-if P (role == 2) (return shadow) (fail (malformed "entity kind role"))
              (λ _. Takes-return P shadow at_3) (λ _. Takes-fail P (malformed "entity kind role"))
  where
    P : EntityKind → ℕ → Type 0
    P v m = j + m ≡ 3

    at_3 : j + 0 ≡ 3
    at_3 = omega (arith, h)

    other : Reader EntityKind
    other = if role == 2 then return shadow else fail (malformed "entity kind role")

Takes-kind : Takes (λ v n. n ≡ 3) get_kind
unfolding get_kind
Takes-kind = Takes-bind _ _ _ _ (Takes-le 1) λ role a p.
    Takes-bind (λ v n. n ≡ 2) _ _ _ (Takes-le 2)
      λ tag b q.
        Takes-weaken _ _ _ (Takes-kind_of role tag (a + b) (omega (arith, p, q)))
          (λ v m e. omega (arith, e))

Takes-move : Takes (λ v n. n ≡ 16) get_move
unfolding get_move
Takes-move =
    Takes-bind _ _ _ _ (Takes-le 4)
      λ e a p. Takes-bind _ _ _ _ Takes-pos3 (λ at b q. Takes-return _ _ (omega arith))

-- A counted list: its values, and four bytes for the count.
abbrev Counted : {A : Type 0} (limit k : ℕ) → List A → ℕ → Type 0
Counted limit k vs n = (n ≡ 4 + length vs * k) × (length vs ≤ limit)

Takes-Counted :
    {A : Type 0} (limit k : ℕ) (what : String) (p : Reader A)
    → Takes (λ v n. n ≡ k) p
    → Takes (Counted limit k) (get_counted limit what p)
unfolding get_counted
Takes-Counted limit k what p h = Takes-bind _ _ _ _ (Takes-le 4) λ len n e.
    Takes-if (λ vs m. Counted limit k vs (n + m)) (ltb limit len) (fail (malformed what))
      (get_many p len) (λ _. Takes-fail (λ vs m. Counted limit k vs (n + m)) (malformed what))
      λ (fits : ltb limit len ≡ false). Takes-weaken _ _ _ (Takes-many k p len h) λ vs m r. (
        omega (arith, e, r.0, ap (λ (j : ℕ). j * k) r.1),
        omega (arith, r.1, ltb→le limit len fits),
      )

Takes-spawn : Takes (λ v n. n ≡ 31) get_spawn
unfolding get_spawn
Takes-spawn = Takes-bind _ _ _ _ Takes-pos3 λ at a p. Takes-bind _ _ _ _ Takes-kind λ kind b q.
    Takes-bind _ _ _ _ (Takes-le 8)
      λ token c r. Takes-bind _ _ _ _ (Takes-le 8) (λ name d s. Takes-return _ _ (omega arith))

-- Whatever the bytes, a list of spawns, moves or despawns that a region accepts is within its cap
-- and accounts for every byte of the body.
pub commands_exact :
    (a b c : List ℕ) (spawns : List Spawn) (moves : List Move) (ids : List EntityId)
    → decode_spawn_entities a ≡ ok spawns
    → decode_move_entities b ≡ ok moves
    → decode_despawn_entities c ≡ ok ids
    → ((length a ≡ 4 + length spawns * 31) × (length spawns ≤ max_spawn_per_message))
      × ((length b ≡ 4 + length moves * 16) × (length moves ≤ max_moves_per_message))
      × ((length c ≡ 4 + length ids * 4) × (length ids ≤ max_despawn_per_message))
unfolding decode_spawn_entities decode_move_entities decode_despawn_entities
commands_exact a b c spawns moves ids e f g = (
  Takes-whole (Counted max_spawn_per_message 31) _ _ a spawns
      (Takes-Counted max_spawn_per_message 31 _ get_spawn Takes-spawn) e,
  Takes-whole (Counted max_moves_per_message 16) _ _ b moves
      (Takes-Counted max_moves_per_message 16 _ get_move Takes-move) f,
  Takes-whole (Counted max_despawn_per_message 4) _ _ c ids
      (Takes-Counted max_despawn_per_message 4 _ (get_le 4) (Takes-le 4)) g,
)

-- ===== src/Tests/Edge.antt =====
-- net/edge, net/region/edges.rs: a client's stream, and two edges of a region.
use umwelt_rs.Base.{
  ℕ, ◌≡◌, ◌<◌, ◌≤◌, ◌-◌, refl, arith, List, [], ◌∷◌, ◌++◌, map, some, none, concat, All,
}
use umwelt_rs.Base.Int.{pos}
use umwelt_rs.Base.Result.{ok, err}
use umwelt_rs.Base.Bytes.{le_bytes}
use umwelt_rs.Base.Sets.{set_insert}
use umwelt_rs.Pos.{WorldPos}
use umwelt_rs.Net.Error.{malformed}
use umwelt_rs.Net.Wire.{◌>>◌, put_le, put_bytes, clear}
use umwelt_rs.Net.Region.Protocol.RoundTrip.{Whole}
use umwelt_rs.Net.Edge.Protocol.{FromClient, message, encode, decode, EdgeInfo}
use umwelt_rs.Net.Edge.Protocol.RoundTrip.{is_message}
use umwelt_rs.Net.Edge.Protocol.ToClient
use umwelt_rs.Net.Edge.Protocol.ToClient.{region_info}
use umwelt_rs.Net.Edge.Protocol.Answers.{answer-Whole, is_region, IsInfo}
use umwelt_rs.Net.Edge.Framer.{framer_new, frame, read_bodies, read_stream}
use umwelt_rs.Net.Edge.Framer.Delivery.{read_stream-sent, read_bodies-oversized, sent, IsSent}
use umwelt_rs.Net.Region.Edges.{
  Edges, EdgeRecord, edges_new, admit, claim, stale_edges, stale_from, detach, disown, heard_at,
  record_at, admit_new, free_slot, is_named, is_free, entity_sets,
}
use umwelt_rs.Net.Region.Edges.Owners.{IsConsistent}
use umwelt_rs.Net.Region.Edges.Reach.{Reach, start, next, admits, claims, Reach-IsConsistent}
use umwelt_rs.Net.Region.Edges.Outcomes.{Claims, claim-Claims}
use umwelt_rs.Net.Region.Edges.Slots.{other_admits}
use umwelt_rs.Net.Region.Edges.Expiry.{Expiring, done, detaching, meanwhile, expire_lem}

abbrev there : WorldPos
there = record { x = pos 5; y = pos 6; z = pos 7 }

abbrev info : EdgeInfo
info = record {
  region = 7;
  region_size_m = pos 4096;
  vertical_extent_m = pos 1024;
  placement = some (record { col = pos 1; row = pos 2 });
}

info-IsInfo : IsInfo info
info-IsInfo = record {
  region = omega arith;
  size = (omega arith, omega arith);
  extent = (omega arith, omega arith);
  square = record { col_i32 = (omega arith, omega arith); row_i32 = (omega arith, omega arith) };
}

answer-Whole_example : Whole 22 ToClient.encode ToClient.decode (region_info info)
answer-Whole_example = answer-Whole (region_info info) (is_region info info-IsInfo)

-- Two messages of two bytes and of one, cut in the middle of the first.
abbrev said : List FromClient
said = message (104 ∷ 105 ∷ []) ∷ message (33 ∷ []) ∷ []

abbrev pieces : List (List ℕ)
pieces = (3 ∷ 0 ∷ 0 ∷ 0 ∷ 7 ∷ []) ∷ (104 ∷ 105 ∷ 2 ∷ []) ∷ (0 ∷ 0 ∷ 0 ∷ 7 ∷ 33 ∷ []) ∷ []

said-IsSent : All IsSent said
said-IsSent = (
  (is_message (104 ∷ 105 ∷ []) (omega arith), omega arith),
  ((is_message (33 ∷ []) (omega arith), omega arith), tt),
)

said_bytes : concat pieces ≡ sent (map (λ m. encode m []) said)
unfolding encode frame ◌>>◌ put_le put_bytes clear le_bytes
said_bytes = refl

read_stream-sent_example : read_stream pieces ≡ map ok said
read_stream-sent_example = read_stream-sent said pieces said-IsSent said_bytes

-- A body of one byte, and then a length of 2 ^ 24.
abbrev flood : List (List ℕ)
flood = (1 ∷ 0 ∷ 0 ∷ 0 ∷ 7 ∷ 0 ∷ []) ∷ (0 ∷ 0 ∷ 1 ∷ 9 ∷ []) ∷ []

flood_bytes : concat flood ≡ sent ((7 ∷ []) ∷ []) ++ (le_bytes 4 16777216 ++ 9 ∷ [])
unfolding frame ◌>>◌ put_le put_bytes clear le_bytes
flood_bytes = refl

read_bodies-oversized_example :
    read_bodies framer_new flood ≡ ((7 ∷ []) ∷ [], err (malformed "client frame length"))
read_bodies-oversized_example =
    read_bodies-oversized ((7 ∷ []) ∷ []) flood 16777216 (9 ∷ []) (omega arith, tt) (omega arith)
      (omega arith) flood_bytes

-- Two edges, `a` and `b`, the first of which has the entity 2.
abbrev one_edge : Edges
one_edge = (admit (97 ∷ []) 10 edges_new).1

abbrev two_edges : Edges
two_edges = (admit (98 ∷ []) 20 one_edge).1

abbrev owned : Edges
owned = (claim 0 2 two_edges).1

owned-Reach : Reach edges_new owned
unfolding admit admit_new free_slot is_named is_free
owned-Reach =
    next
      (next (next start (admits (97 ∷ []) 10 edges_new (omega arith)))
        (admits (98 ∷ []) 20 one_edge (omega arith)))
      (claims 0 2 two_edges)

Reach-IsConsistent_example : IsConsistent owned
Reach-IsConsistent_example = Reach-IsConsistent owned-Reach

owned-IsConsistent : IsConsistent owned
owned-IsConsistent = Reach-IsConsistent owned-Reach

claim-Claims_example : Claims 1 2 owned (claim 1 2 owned).0 (claim 1 2 owned).1
claim-Claims_example = claim-Claims 1 2 owned owned-IsConsistent

abbrev silent : EdgeRecord
silent = record { name = 97 ∷ []; since = 10; heard = 10; entities = 2 ∷ [] }

owned-silent : record_at owned.slots 0 ≡ some silent
unfolding claim admit admit_new free_slot is_named is_free entity_sets set_insert
owned-silent = refl

stale-owned : stale_edges 25 10 owned ≡ 0 ∷ []
unfolding stale_edges stale_from claim admit admit_new free_slot is_named is_free entity_sets
    set_insert
stale-owned = refl

-- The silent edge is heard behind the scan, and then detached.
abbrev heard_again : Edges
heard_again = (admit (97 ∷ []) 25 owned).1

expiring : Expiring 25 (stale_edges 25 10 owned) owned (detach 0 heard_again)
unfolding claim admit admit_new free_slot is_named is_free entity_sets set_insert
expiring =
    rw stale-owned
      (meanwhile (other_admits (97 ∷ []) 25 owned (omega arith) (omega arith)) (detaching 0 done))

-- It was not silent when it was detached, and is gone.
detach-heard_again :
    (record_at heard_again.slots 0 ≡ some (record silent { heard = 25 }))
    × (record_at (detach 0 heard_again).slots 0 ≡ none)
unfolding claim admit admit_new free_slot is_named is_free entity_sets set_insert heard_at detach
    disown
detach-heard_again = (refl, refl)

expire_lem_example :
    (10 < 25 - 10
      → (q : EdgeRecord) → record_at (detach 0 heard_again).slots 0 ≡ some q
      → 25 ≤ q.since)
    × (25 - 10 ≤ 10
        → (q : EdgeRecord) × (record_at (detach 0 heard_again).slots 0 ≡ some q)
          × (q.name ≡ silent.name)
          × (q.since ≡ silent.since))
    × IsConsistent (detach 0 heard_again)
expire_lem_example =
    expire_lem 25 10 0 silent owned (detach 0 heard_again) owned-IsConsistent owned-silent expiring

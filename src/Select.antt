-- ===== src/Select.antt =====
-- select.rs: which candidates a viewer's client is told about, and in which order.
pub mod Nearest
pub mod Commit
pub mod Ranking
pub mod Ties
pub mod Prefix
pub mod Selected
use Prim.Native.Nat.{bit_and, bit_or, max}
use umwelt_rs.Base.{
  ℕ, zero, suc, ◌+◌, ◌-◌, ◌*◌, ◌/◌, ◌%◌, ◌^◌, min, Bool, true, false, leb, ltb, ◌==◌, ◌&&◌, ◌||◌,
  not, if◌then◌else◌, Option, none, some, List, [], ◌∷◌, ◌++◌, length, get_or, get_elem?, take,
  drop, map,
}
use umwelt_rs.Base.Arrays.{set, resize}
use umwelt_rs.Base.Bits.{log2_below}
use umwelt_rs.Base.Sort.{sort_by, count_of}
use umwelt_rs.Entity.{EntityId}
use umwelt_rs.Gather.{DiscoveredEntity, DiscoveredEntities}
use umwelt_rs.Ghost.{GhostTable, Held, held, sent, seen, evict}
use umwelt_rs.Odometer.{Odometer, reading}

abbrev pub bands : ℕ
bands = 64

abbrev pub default_unseen_drift : ℕ
default_unseen_drift = 262144

abbrev pub near_band : ℕ
near_band = 20

abbrev pub new_bit : ℕ
new_bit = 2 ^ 31

-- A table of `bands` weights, each a `u16`.
abbrev pub Weights : Type 0
Weights = List ℕ

unfoldable pub all_nonzero : List ℕ → Bool
all_nonzero [] = true
all_nonzero (w ∷ ws) = not (w == 0) && all_nonzero ws

-- `none` where the assertion fails.
unfoldable pub weights_new : List ℕ → Option Weights
weights_new table = if all_nonzero table then some table else none

abbrev band_weight : ℕ → ℕ → ℕ
band_weight k_halves b = 2 ^ (12 - (b - near_band) * k_halves % 2 ^ 32 / 4)

unfoldable pub weights_from : ℕ → ℕ → ℕ → List ℕ
weights_from zero b k_halves = []
weights_from (suc n) b k_halves = band_weight k_halves b ∷ weights_from n (b + 1) k_halves

unfoldable pub inverse_power : ℕ → Option Weights
inverse_power k_halves = weights_new (weights_from bands 0 k_halves)

unfoldable pub inverse_distance : Option Weights
inverse_distance = inverse_power 2

unfoldable pub weight_at : ℕ → Weights → ℕ
weight_at band w = get_or w band 0

pub record Policy : Type 0 where
  pub ghost_cap : ℕ
  pub grace : ℕ
  pub unseen_drift : ℕ
  pub weights : Weights
  pub refresh : ℕ

-- `at` is an index of the candidates, with the top bit for one that is new.
pub record Ranked : Type 0 where
  pub score : ℕ
  pub at : ℕ

unfoldable pub index : Ranked → ℕ
index r = bit_and r.at (2 ^ 31 - 1)

unfoldable pub is_new : Ranked → Bool
is_new r = not (bit_and r.at new_bit == 0)

-- Without `edge`, which is scratch of the partition.
pub record Selection : Type 0 where
  pub ranked : List Ranked
  pub departed : List EntityId
  pub keep : List ℕ
  pub sent : ℕ

abbrev pub selection_new : Selection
selection_new = record { ranked = []; departed = []; keep = []; sent = 0 }

unfoldable pub records : Selection → List Ranked
records s = take s.sent s.ranked

unfoldable pub clear : Selection → Selection
clear s = selection_new

-- `(dist_sq.raw() | 1).ilog2()` of a `u64`.
unfoldable pub band_of : ℕ → ℕ
unfolding log2_below
band_of dist_sq = log2_below 64 (bit_or dist_sq 1)

unfoldable pub score_of : ℕ → ℕ → Weights → ℕ
score_of drift dist_sq w = min (drift * weight_at (band_of dist_sq) w) (2 ^ 32 - 1)

-- The second pass: what is nearer than the cut, and as many at the cut as there are ties left.
unfoldable pub keep_from : ℕ → ℕ → ℕ → List ℕ → List ℕ
keep_from i cut ties [] = []
keep_from i cut ties (d ∷ ds) =
    let nearer = keep_from (i + 1) cut ties ds in
    let tied = keep_from (i + 1) cut (ties - 1) ds in
    if ltb d cut then i ∷ nearer else if (d == cut) && ltb 0 ties then i ∷ tied else nearer

unfoldable pub indices : ℕ → ℕ → List ℕ
indices i zero = []
indices i (suc n) = i ∷ indices (i + 1) n

-- `select_nth_unstable(cap - 1)` puts what a sort puts there; a cap of 0 panics.
unfoldable pub nearest : List ℕ → ℕ → Option (List ℕ)
nearest dists cap =
    if leb (length dists) cap
    then some (indices 0 (length dists))
    else if cap == 0
    then none
    else (let edge = sort_by leb dists in
        let cut = get_or edge (cap - 1) 0 in
        let ties = cap - count_of (λ d. ltb d cut) (take (cap - 1) edge) in
        some (keep_from 0 cut ties dists))

-- How far a client's copy has drifted, and the flag of one that it holds no ghost of.
unfoldable pub drift_of : ℕ → Odometer → Policy → GhostTable → DiscoveredEntity → Option (ℕ × ℕ)
drift_of tick odometer policy ghosts e = elim (held e.id ghosts) [
  | none ↦ none
  | some none ↦ some (policy.unseen_drift, new_bit)
  | some (some h) ↦ elim (reading e.id odometer) [
    | none ↦ none
    | some r ↦
        let moved = (r + 2 ^ 32 - h.mark) % 2 ^ 32 in
        let stale =
          not (policy.refresh == 0)
          && leb policy.refresh ((tick + 2 ^ 32 - h.last_sent) % 2 ^ 32) in
        some (if stale then max moved policy.unseen_drift else moved, 0)
  ]
]

unfoldable pub rank_one :
    ℕ → List DiscoveredEntity → Odometer → Policy → GhostTable → ℕ → Option Ranked
rank_one tick cands odometer policy ghosts k = elim (get_elem? cands k) [
  | none ↦ none
  | some e ↦ elim (drift_of tick odometer policy ghosts e) [
    | none ↦ none
    | some (drift, flag) ↦
        some (record { score = score_of drift e.dist_sq policy.weights; at = bit_or k flag })
  ]
]

unfoldable pub rank_all :
    ℕ → List DiscoveredEntity → Odometer → Policy → GhostTable → List ℕ → Option (List Ranked)
rank_all tick cands odometer policy ghosts [] = some []
rank_all tick cands odometer policy ghosts (k ∷ ks) =
    elim (rank_one tick cands odometer policy ghosts k) [
      | none ↦ none
      | some r ↦ elim (rank_all tick cands odometer policy ghosts ks) [
        | none ↦ none
        | some rs ↦ some (r ∷ rs)
      ]
    ]

-- Scores descend; equal ones ascend by `at`, whose top bit puts what is new behind what is held.
unfoldable pub before : Ranked → Ranked → Bool
before a b = ltb b.score a.score || ((a.score == b.score) && leb a.at b.at)

-- `partition_point(|r| r.score > 0)`, of scores that descend.
unfoldable pub leading : List Ranked → ℕ
leading [] = 0
leading (r ∷ rs) = let rest = leading rs in if ltb 0 r.score then suc rest else 0

unfoldable pub send_all :
    ℕ → List DiscoveredEntity → Odometer → List Ranked → GhostTable → Option GhostTable
send_all tick cands odometer [] ghosts = some ghosts
send_all tick cands odometer (r ∷ rs) ghosts = elim (get_elem? cands (index r)) [
  | none ↦ none
  | some e ↦ elim (reading e.id odometer) [
    | none ↦ none
    | some mark ↦ elim (sent e.id mark tick ghosts) [
      | none ↦ none
      | some left ↦ send_all tick cands odometer rs left
    ]
  ]
]

unfoldable pub see_all : ℕ → List DiscoveredEntity → List Ranked → GhostTable → Option GhostTable
see_all tick cands [] ghosts = some ghosts
see_all tick cands (r ∷ rs) ghosts = elim (get_elem? cands (index r)) [
  | none ↦ none
  | some e ↦ elim (seen e.id tick ghosts) [
    | none ↦ none
    | some (mark, left) ↦ see_all tick cands rs left
  ]
]

-- What is chosen, as far as the ghosts are only read.
unfoldable pub chosen :
    ℕ → DiscoveredEntities → Odometer → Policy → ℕ → GhostTable → Option Selection
chosen tick candidates odometer policy slots ghosts =
    elim (nearest candidates.dists policy.ghost_cap) [
      | none ↦ none
      | some keep ↦ elim (rank_all tick candidates.items odometer policy ghosts keep) [
        | none ↦ none
        | some scored ↦
            let ranked = sort_by before scored in
            let ceiling = min (length ranked) slots in
            some (record {
              ranked = ranked;
              departed = [];
              keep = keep;
              sent = leading (take ceiling ranked);
            })
      ]
    ]

-- The writes to the ghosts: what is sent, what is only seen, and what departs.
unfoldable pub commit :
    ℕ
    → DiscoveredEntities
    → Odometer
    → Policy
    → Selection
    → GhostTable
    → Option (GhostTable × Selection)
commit tick candidates odometer policy s ghosts =
    elim (send_all tick candidates.items odometer (take s.sent s.ranked) ghosts) [
      | none ↦ none
      | some told ↦ elim (see_all tick candidates.items (drop s.sent s.ranked) told) [
        | none ↦ none
        | some stamped ↦ elim (evict tick policy.grace stamped s.departed) [
          | none ↦ none
          | some (left, departed) ↦ some (left, record s { departed = departed })
        ]
      ]
    ]

-- `none` where an index, an assertion or a cap of 0 panics.
unfoldable pub select :
    ℕ → DiscoveredEntities → Odometer → Policy → ℕ → GhostTable → Option (GhostTable × Selection)
select tick candidates odometer policy slots ghosts =
    elim (chosen tick candidates odometer policy slots ghosts) [
      | none ↦ none
      | some s ↦ commit tick candidates odometer policy s ghosts
    ]

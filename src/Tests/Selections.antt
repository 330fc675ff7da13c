-- ===== src/Tests/Selections.antt =====
-- select.rs, odometer.rs and entity.rs: two entities near a viewer.
use umwelt_rs.Base.{
  ℕ, zero, suc, ◌<◌, ◌≡◌, ◌≢◌, refl, arith, ltb, ◌==◌, ◌&&◌, ◌||◌, not, ◌^◌, if◌then◌else◌, some,
  List, [], ◌∷◌, length,
}
use umwelt_rs.Base.Int.{pos, ◌-ℤ◌}
use umwelt_rs.Base.Sets.{member, IsAscending}
use umwelt_rs.Entity.Live.{
  LiveSet, live_new, contains, cover, insert, remove, id_space, ids, visited, next, next_from, iter,
}
use umwelt_rs.Entity.Live.Reach.{IsBuilt, made, inserted, live_lem}
use umwelt_rs.Fixed.{Fixed}
use umwelt_rs.Ghost.{GhostTable, empty, held, find, find_from, home_in, home, after}
use umwelt_rs.Ghost.Table.{ghost_of}
use umwelt_rs.Ghost.Room.{IsGhostTable, used}
use umwelt_rs.Tests.Ghosts.{one, one-IsTable}
use umwelt_rs.Base.Arrays.{replicate}
use umwelt_rs.Base.Sort.{sort_by, insert_by, count_of}
use umwelt_rs.Base.Bits.{trailing_zeros}
use umwelt_rs.Ghost.Eviction.{survivor, departs}
use umwelt_rs.Gather.{DiscoveredEntities}
use umwelt_rs.Odometer.{
  Odometer, slots, reading, accumulate, measure_all, measure, grow, step, abs_diff,
}
use umwelt_rs.Odometer.Entries.{IsEven, entry_at, moved}
use umwelt_rs.Odometer.Accumulate.{start, accumulate_lem, accumulate_again}
use umwelt_rs.Select.{
  Policy, Selection, nearest, select, chosen, keep_from, rank_all, rank_one, drift_of, score_of,
  weight_at, band_of, before, leading,
}
use umwelt_rs.Select.Nearest.{IsNearest, nearest-IsNearest}
use umwelt_rs.Select.Ranking.{entity_at}
use umwelt_rs.Base.Bits.{zeros_below, div_ceil}
use umwelt_rs.Base.Words.{set_bit, clear_bit, test_bit}
use umwelt_rs.Select.Selected.{Chosen, marked, select_lem}

abbrev two : LiveSet
two = insert 1 (insert 0 live_new)

two-IsBuilt : IsBuilt two
two-IsBuilt = inserted 1 (inserted 0 made)

live_lem_example :
    IsAscending 0 (ids two)
    × (two.live ≡ length (ids two))
    × (contains 1 two ≡ member 1 (ids two))
    × ((j : ℕ) → member j (ids (insert 1 two)) ≡ ((1 == j) || member j (ids two)))
    × ((j : ℕ) → member j (ids (remove 1 two)) ≡ (not (1 == j) && member j (ids two)))
live_lem_example = live_lem two two-IsBuilt 1

nearest-IsNearest_example : IsNearest (9 ∷ 4 ∷ 4 ∷ 7 ∷ []) 2 (nearest (9 ∷ 4 ∷ 4 ∷ 7 ∷ []) 2)
nearest-IsNearest_example = nearest-IsNearest (9 ∷ 4 ∷ 4 ∷ 7 ∷ []) 2 (omega arith)

-- One axis of two entities, before and after a step of the first.
abbrev before_step : List Fixed
before_step = pos 5 ∷ pos 8 ∷ []

abbrev after_step : List Fixed
after_step = pos 12 ∷ pos 8 ∷ []

abbrev standing : Odometer
standing = record {
  total = 0 ∷ 3 ∷ [];
  prev_x = before_step;
  prev_y = before_step;
  prev_z = before_step;
}

standing-IsEven : IsEven 2 standing
standing-IsEven = record { total = refl; x = refl; y = refl; z = refl }

two-id_space : id_space two ≡ 2
unfolding id_space insert cover test_bit set_bit
two-id_space = refl

accumulate_lem_example :
    (u : Odometer) × (accumulate after_step before_step before_step two standing ≡ some u)
    × IsEven 2 u
    × ((j : ℕ)
        → entry_at u j ≡ (
            if contains j two && ltb j 2
            then moved after_step before_step before_step j
                (start after_step before_step before_step standing j)
            else start after_step before_step before_step standing j))
    × ((j : ℕ) → j < slots u → reading j u ≡ some (entry_at u j).total)
accumulate_lem_example =
    accumulate_lem after_step before_step before_step standing standing-IsEven refl refl two
      two-IsBuilt (omega (arith, two-id_space))

abbrev walked : Odometer
walked = record {
  total = 7 ∷ 3 ∷ [];
  prev_x = after_step;
  prev_y = before_step;
  prev_z = before_step;
}

accumulate-walked : accumulate after_step before_step before_step two standing ≡ some walked
unfolding accumulate measure_all measure grow step abs_diff ids visited next next_from iter insert
    cover id_space zeros_below set_bit clear_bit test_bit div_ceil ◌-ℤ◌
accumulate-walked = refl

accumulate_again_example :
    (v : Odometer) × (accumulate after_step before_step before_step two walked ≡ some v)
    × ((j : ℕ) → entry_at v j ≡ entry_at walked j)
accumulate_again_example =
    accumulate_again after_step before_step before_step standing walked two standing-IsEven refl
      refl two-IsBuilt (omega (arith, two-id_space)) accumulate-walked

-- The entity 0 is new to the client, the entity 5 is held, and the entity 2 is past the cap.
abbrev nearby : DiscoveredEntities
nearby = record {
  items =
      record { id = 0; snapshot_index = 0; dist_sq = 1024 }
      ∷ record { id = 5; snapshot_index = 1; dist_sq = 512 }
      ∷ record { id = 2; snapshot_index = 2; dist_sq = 4096 }
      ∷ [];
  dists = 4 ∷ 2 ∷ 9 ∷ [];
}

abbrev tracked : Odometer
tracked = record { total = replicate 6 3; prev_x = []; prev_y = []; prev_z = [] }

abbrev policy : Policy
policy = record {
  ghost_cap = 2;
  grace = 5;
  unseen_drift = 9;
  weights = replicate 64 1;
  refresh = 1;
}

nearby_known :
    (k : ℕ)
    → k < 3
    → ((entity_at 9 nearby.items tracked policy one k).id ≢ empty)
      × ((entity_at 9 nearby.items tracked policy one k).id < slots tracked)
unfolding slots
nearby_known zero l = (omega arith, omega arith)
nearby_known (suc zero) l = (omega arith, omega arith)
nearby_known (suc (suc zero)) l = (omega arith, omega arith)
nearby_known (suc (suc (suc k))) l = absurd (omega arith)

-- The scores are equal, and the one that is held goes first, for all its higher index.
chosen-nearby :
    chosen 9 nearby tracked policy 3 one
    ≡ some (record {
      ranked = record { score = 9; at = 1 } ∷ record { score = 9; at = 2 ^ 31 } ∷ [];
      departed = [];
      keep = 0 ∷ 1 ∷ [];
      sent = 2;
    })
unfolding chosen nearest keep_from sort_by insert_by count_of rank_all rank_one drift_of held find
    find_from home_in home after reading score_of weight_at band_of before leading trailing_zeros
chosen-nearby = refl

select_lem_example :
    (u : GhostTable) × (s : Selection) × (select 9 nearby tracked policy 3 one ≡ some (u, s))
    × Chosen 9 nearby tracked policy 3 one s
    × IsGhostTable u
    × ((x : ℕ)
        → x ≢ empty
        → (ghost_of x u.slots ≡ survivor 9 5 (marked 9 nearby tracked policy 3 one s x))
          × (member x s.departed ≡ departs 9 5 (marked 9 nearby tracked policy 3 one s x)))
select_lem_example =
    select_lem 9 nearby tracked policy 3 one refl (omega arith) (omega arith) (used one-IsTable)
      nearby_known (omega arith)

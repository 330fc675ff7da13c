-- ===== src/Tests/Ghosts.antt =====
-- ghost.rs: a table of one ghost.
use mathlib.Core.Path.{subst}
use mathlib.Core.Option
use umwelt_rs.Base.{
  ℕ, ◌≤◌, ◌≡◌, ◌≢◌, refl, sym, ◌∙◌, arith, ◌==◌, if◌then◌else◌, some, [], ◌∷◌, some_inj, List, ◌+◌,
  ◌++◌, length,
}
use umwelt_rs.Base.Arrays.{set, replicate}
use umwelt_rs.Base.Bits.{trailing_zeros}
use umwelt_rs.Ghost.{
  GhostTable, table_new, vacant, empty, held, remove_at, sent, home, home_in, after, find_from,
  find, free_from, reinsert, reinsert_all, rehash, reserve_one, doubled, evict, evict_from,
  shift_from,
}
use umwelt_rs.Ghost.Table.{ghost_of, held_of, held_lem}
use umwelt_rs.Ghost.Eviction.{survivor, departs, evict_lem}
use umwelt_rs.Base.Sets.{member}
use umwelt_rs.Ghost.Remove.{Removed, remove_at-Removed}
use umwelt_rs.Ghost.Room.{IsTable, unused}
use umwelt_rs.Ghost.Sent.{ghost_sent, sent_lem}

-- The home of the entity 5 in sixteen slots is the second of them.
abbrev pub one : GhostTable
one = record { slots = set (replicate 16 vacant) 1 (ghost_sent 5 3 7); len = 1 }

sent-one : sent 5 3 7 table_new ≡ some one
unfolding sent reserve_one rehash reinsert_all reinsert free_from find find_from home_in home after
    doubled trailing_zeros
sent-one = refl

sent_lem_example :
    (u : GhostTable) × (sent 5 3 7 table_new ≡ some u)
    × IsTable u
    × (u.len ≤ 1)
    × ((x : ℕ)
        → x ≢ empty
        → ghost_of x u.slots ≡ (if 5 == x then some (ghost_sent 5 3 7) else ghost_of x []))
sent_lem_example = sent_lem 5 3 7 table_new (unused refl refl) (omega arith) (omega arith)

pub one-IsTable : IsTable one
one-IsTable =
    let (u, e, h, n, g) = sent_lem 5 3 7 table_new (unused refl refl) (omega arith) (omega arith) in
    subst IsTable (some_inj (sym e ∙ sent-one)) h

held_lem_example : held 5 one ≡ some (Option.map held_of (ghost_of 5 one.slots))
held_lem_example = held_lem 5 0 one one-IsTable.ordered (omega arith) refl (omega arith)

remove_at-Removed_example : Removed 1 one (remove_at 1 one)
remove_at-Removed_example =
    remove_at-Removed 1 0 one one-IsTable.ordered (omega arith) (omega arith) (omega arith) refl

evict_lem_example :
    (u : GhostTable) × (out : List ℕ) × (evict 20 5 one [] ≡ some (u, [] ++ out))
    × IsTable u
    × (length u.slots ≡ length one.slots)
    × (u.len + length out ≡ one.len)
    × ((x : ℕ)
        → x ≢ empty
        → (ghost_of x u.slots ≡ survivor 20 5 (ghost_of x one.slots))
          × (member x out ≡ departs 20 5 (ghost_of x one.slots)))
evict_lem_example = evict_lem 20 5 one [] one-IsTable

-- The ghost seen at 7 is ended at 20, past a grace of 5.
evict-one : evict 20 5 one [] ≡ some (record { slots = replicate 16 vacant; len = 0 }, 5 ∷ [])
unfolding evict evict_from remove_at shift_from after
evict-one = refl

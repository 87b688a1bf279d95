-- ===== src/Tests/Locks.antt =====
-- engine/concurrency: two transactions that lock two rows in opposite order, and snapshots.
use chen_db.Prelude.{
  ℕ, ◌+◌, ◌≤◌, ◌<◌, ◌≡◌, ◌≢◌, refl, inl, inr, Bool, true, false, not, ◌&&◌, ◌||◌, Option, none,
  some, List, [], ◌∷◌, arith, ltb, ◌==◌,
}
use chen_db.Prelude.Dict
use chen_db.Prelude.Dict.{Dict}
use chen_db.Prelude.Sets.{elem}
use chen_db.Prelude.Result.{ok}
use chen_db.Concurrency.Locks.Table.{
  shared, exclusive, LockMode, ResourceId, LockRequest, LockManager, LockTableEntry, new_manager,
  returned, waiting, deadlock,
}
use chen_db.Concurrency.Locks.Graph.{build_graph, find_cycle}
use chen_db.Concurrency.Locks.Acquire.{start_acquire, release_all}
use chen_db.Concurrency.Locks.Deadlock.{
  WaitChain, EmptyOrDeadlock, Unrepeated, find_cycle-EmptyOrDeadlock, find_cycle-Unrepeated,
}
use chen_db.Concurrency.Locks.Fuel.{find_cycle_total}
use chen_db.Concurrency.Locks.Safety.{IsSound, holder_in}
use chen_db.Concurrency.Locks.Release.{release_all-IsSound}
use chen_db.Concurrency.Locks.History.{IsLockState, fresh, asked, IsLockState-IsSound}
use chen_db.Concurrency.Snapshot.{TupleHeader, VisibilityStats, take, sees}
use chen_db.Concurrency.Snapshot.Sees.{Within, has_finished, sees-take}

abbrev wants_exclusive : ℕ → LockRequest
wants_exclusive t = record { transaction_id = t; mode = exclusive; waiting_since_ns = 0 }

-- Transaction 1 holds row a and waits for row b; transaction 2 holds row b and waits for row a.
abbrev crossed : LockManager
crossed = record new_manager {
  table =
      ("a", record { holders = (1, exclusive) ∷ []; waiters = wants_exclusive 2 ∷ [] })
      ∷ ("b", record { holders = (2, exclusive) ∷ []; waiters = wants_exclusive 1 ∷ [] })
      ∷ [];
  held_by = (1, ("a", exclusive) ∷ []) ∷ (2, ("b", exclusive) ∷ []) ∷ [];
}

-- The search finds both, and the younger is the victim.
crossed-find_cycle : find_cycle 2 crossed ≡ some (2 ∷ 1 ∷ [])
unfolding find_cycle elem chen_db.Prelude.Sets.sorted Dict.get build_graph
    chen_db.Concurrency.Locks.Table.conflicting chen_db.Concurrency.Locks.Table.compatible Dict.put
    chen_db.Prelude.Sets.union
crossed-find_cycle = refl

find_cycle-EmptyOrDeadlock_example : EmptyOrDeadlock crossed (2 ∷ 1 ∷ [])
find_cycle-EmptyOrDeadlock_example =
    find_cycle-EmptyOrDeadlock crossed 2 (2 ∷ 1 ∷ []) crossed-find_cycle

-- One transaction waits for another that waits for nothing.
abbrev queued : LockManager
queued = record new_manager {
  table = ("a", record { holders = (1, exclusive) ∷ []; waiters = wants_exclusive 2 ∷ [] }) ∷ [];
  held_by = (1, ("a", exclusive) ∷ []) ∷ [];
}

queued-find_cycle : find_cycle 2 queued ≡ some []
unfolding find_cycle elem chen_db.Prelude.Sets.sorted Dict.get build_graph
    chen_db.Concurrency.Locks.Table.conflicting chen_db.Concurrency.Locks.Table.compatible Dict.put
    chen_db.Prelude.Sets.union
queued-find_cycle = refl

queued-WaitChain : WaitChain queued (2 ∷ 1 ∷ [])
queued-WaitChain = (inl (inl (refl, (λ h. absurd (omega (arith, h))), inl (refl, tt))), tt)

find_cycle-Unrepeated_example : Unrepeated (2 ∷ 1 ∷ [])
find_cycle-Unrepeated_example =
    find_cycle-Unrepeated queued 2 (1 ∷ []) queued-find_cycle queued-WaitChain

find_cycle_total_example : (found : List ℕ) × (find_cycle 2 crossed ≡ some found)
find_cycle_total_example = find_cycle_total 2 crossed

five_on_cycle : elem 5 (3 ∷ 9 ∷ 5 ∷ []) ≡ true
unfolding elem
five_on_cycle = refl

-- After transaction 1 has taken row a.
abbrev one_holds : LockManager
one_holds = record new_manager {
  table = ("a", record { holders = (1, exclusive) ∷ []; waiters = [] }) ∷ [];
  held_by = (1, ("a", exclusive) ∷ []) ∷ [];
  stats = record (new_manager.stats) { granted = 1 };
}

one_holds-start :
    start_acquire false "a" (wants_exclusive 1) new_manager ≡ some (ok returned, one_holds)
unfolding start_acquire chen_db.Concurrency.Locks.Table.already_holds Dict.get elem
    chen_db.Concurrency.Locks.Table.conflicting Dict.put chen_db.Concurrency.Locks.Table.grant
one_holds-start = refl

one_holds-IsLockState : IsLockState one_holds
one_holds-IsLockState = asked false "a" (wants_exclusive 1) fresh one_holds-start

IsLockState-IsSound_example : IsSound one_holds
IsLockState-IsSound_example = IsLockState-IsSound one_holds one_holds-IsLockState

release_all-IsSound_example :
    IsSound (release_all 1 one_holds).1 × (holder_in "a" 1 (release_all 1 one_holds).1.table ≡ none)
release_all-IsSound_example =
    release_all-IsSound 1 "a" one_holds (IsLockState-IsSound one_holds one_holds-IsLockState)

-- Transactions 5 and 8 run; 9 ids are given out, and those below 3 are frozen.
running-Within : Within 3 10 (5 ∷ 8 ∷ [])
unfolding elem
running-Within x h = ground (arith, h)

fewer-Within : Within 3 12 (8 ∷ 11 ∷ [])
unfolding elem
fewer-Within x h = ground (arith, h)

sees-take_example :
    sees (take 10 (5 ∷ 8 ∷ []) 3 8) 7
    ≡ (not (7 == 0) && ((7 == 8) || has_finished 10 (5 ∷ 8 ∷ []) 7))
sees-take_example = sees-take 10 3 8 7 (5 ∷ 8 ∷ []) running-Within (omega arith)

below_xmin : 4 < (take 10 (5 ∷ 8 ∷ []) 3 8).xmin
unfolding take
below_xmin = omega arith

no_revival : (x : ℕ) → x < 10 → elem x (8 ∷ 11 ∷ []) ≡ true → elem x (5 ∷ 8 ∷ []) ≡ true
unfolding elem
no_revival x h k = ground (arith, h, k)

sees_four : sees (take 10 (5 ∷ 8 ∷ []) 3 8) 4 ≡ true
unfolding sees take elem
sees_four = refl

abbrev some_stats : VisibilityStats
some_stats = record { checked = 6; returned = 3; skipped_invisible = 2; skipped_deleted = 1 }

abbrev deleted_row : TupleHeader
deleted_row = record { xmin = 4; xmax = 7 }

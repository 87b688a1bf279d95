-- ===== src/Tests/Transactions.antt =====
-- engine/transaction: a transaction that writes pages, is committed or rolled back, and its snapshots.
use chen_db.Prelude.{
  ℕ, ◌+◌, ◌≤◌, ◌≡◌, refl, inl, inr, ◌⊎◌, Bool, true, false, not, ◌&&◌, ◌||◌, Option, none, some,
  List, [], ◌∷◌, arith, ◌==◌, nat_eq,
}
use chen_db.Prelude.Dict
use chen_db.Prelude.Dict.{Dict}
use chen_db.Prelude.Sets.{elem}
use chen_db.Prelude.Result.{ok}
use chen_db.Concurrency.Snapshot.{Snapshot, repeatable_read, sees}
use chen_db.Concurrency.Snapshot.Sees.{has_finished}
use chen_db.Transaction.Undo.{empty_log, capture, rewind}
use chen_db.Transaction.Undo.Rollback.{PageMap, apply_records, write_pages, rewind-start}
use chen_db.Transaction.Undo.Ceiling.{IsWithinCeiling, total_size}
use chen_db.Transaction.Manager.{
  Transaction, TransactionManager, new_manager, new_transaction, begin, snapshot_for, is_dead,
  oldest_snapshot_xmin,
}
use chen_db.Transaction.Manager.Sound.{IsSound}
use chen_db.Transaction.Manager.Reads.{
  IsReachable, opened, begun, IsReachable-IsSound, snapshot_for-finished, is_dead-running,
}

abbrev blank : PageMap
blank p = p ∷ []

-- Page 4 is written twice, and page 6 once.
abbrev writes : List (ℕ × List ℕ)
writes = (4, 10 ∷ []) ∷ (6, 11 ∷ []) ∷ (4, 12 ∷ []) ∷ []

writes_fit : (write_pages writes (blank, empty_log)).1.overflowed ≡ false
unfolding write_pages capture elem chen_db.Prelude.Sets.add
writes_fit = refl

rewind-start_example :
    apply_records
      (rewind (write_pages writes (blank, empty_log)).1)
      (write_pages writes (blank, empty_log)).0
      4
    ≡ blank 4
rewind-start_example = rewind-start blank writes 4 writes_fit

empty_log-IsWithinCeiling : IsWithinCeiling empty_log
unfolding total_size
empty_log-IsWithinCeiling = (refl, omega arith)

-- The manager after one session has begun a transaction.
abbrev first : Transaction
first = new_transaction 5 false "main" repeatable_read

abbrev one_open : TransactionManager
one_open = record (new_manager 5) {
  objects = (5, first) ∷ [];
  by_session = ("main", 5) ∷ [];
  running = 5 ∷ [];
  next_id = 6;
}

one_open-begin : begin false "main" repeatable_read (new_manager 5) ≡ ok (first, one_open)
unfolding begin Dict.get Dict.put
one_open-begin = refl

one_open-IsReachable : IsReachable 5 one_open
one_open-IsReachable = begun false "main" repeatable_read opened one_open-begin

IsReachable-IsSound_example : IsSound one_open
IsReachable-IsSound_example = IsReachable-IsSound 5 one_open one_open-IsReachable

snapshot_for-finished_example :
    sees (snapshot_for first one_open).0 3
    ≡ (not (3 == 0) && ((3 == 5) || has_finished 6 (5 ∷ []) 3))
snapshot_for-finished_example =
    snapshot_for-finished one_open first 3 (IsReachable-IsSound 5 one_open one_open-IsReachable)
      refl

abbrev view : Snapshot
view = record { xmin = 5; xmax = 6; active = 5 ∷ []; frozen_xid = 5; owner = 5 }

abbrev reader : Transaction
reader = record first { snapshot = some view; snapshots_taken = 1 }

none_looked :
    (u : ℕ) (tx : Transaction)
    → elem u one_open.running ≡ true
    → Dict.get u one_open.objects ≡ some tx
    → tx.snapshot ≡ none
unfolding elem Dict.get
none_looked u tx runs at = ground (arith, runs, at)

five_runs : elem 5 one_open.running ≡ true
unfolding elem
five_runs = refl

is_dead-running_example :
    is_dead (record { xmin = 2; xmax = 5 }) (oldest_snapshot_xmin one_open) ≡ true
is_dead-running_example =
    is_dead-running one_open 5 2 (IsReachable-IsSound 5 one_open one_open-IsReachable) five_runs
      none_looked

-- ===== src/Concurrency/Locks/Acquire.antt =====
-- engine/concurrency/locks.py: `acquire` in its steps, the deadlock detector, and `release_all`.
use chen_db.Prelude.{
  ℕ, ◌+◌, Bool, true, false, ◌&&◌, Option, none, some, List, [], ◌∷◌, ◌++◌, ◌==◌, if◌then◌else◌,
  length, nat_eq, string_eq,
}
use chen_db.Prelude.Dict
use chen_db.Prelude.Dict.{Dict}
use chen_db.Prelude.Sets.{elem, add, discard}
use chen_db.Prelude.Result.{ok, err}
use chen_db.Concurrency.Locks.Table.{
  LockMode, ResourceId, LockRequest, same_request, is_nil, LockTableEntry, conflicts_with,
  LockManager, deadlock, lock_timeout, returned, waiting, Step, entry_at, held_of, with_entry,
  set_entry, already_holds, grant,
}
use chen_db.Concurrency.Locks.Graph.{find_cycle, choose_victim}

abbrev pub is_victim : ℕ → LockManager → Bool
is_victim transaction_id m = elem transaction_id m.victims

-- The exception of a victim clears its mark.
abbrev pub pardoned : ℕ → LockManager → LockManager
pardoned transaction_id m = record m { victims = discard transaction_id m.victims }

-- Mark the youngest of a cycle, unless it is marked already.
abbrev pub mark : List ℕ → LockManager → LockManager × Option ℕ
mark [] m = (m, none)
mark (c ∷ cs) m =
    let victim = choose_victim c cs in
    if elem victim m.victims then (m, none) else (
      record m {
        victims = add victim m.victims;
        stats = record (m.stats) { deadlocks = m.stats.deadlocks + 1 };
      },
      some victim,
    )

-- The end of `_detect`: true if the caller is the victim, and has to raise.
unfoldable pub check_victim : ℕ → LockManager → Option ℕ → Bool × LockManager
check_victim transaction_id m none = (false, m)
check_victim transaction_id m (some v) =
    if v == transaction_id then (true, pardoned transaction_id m) else (false, m)

-- What `_detect` does with what the search returns.
unfoldable pub act_on_cycle : ℕ → LockManager → Option (List ℕ) → Option (Bool × LockManager)
unfolding check_victim
act_on_cycle transaction_id m none = none
act_on_cycle transaction_id m (some cycle) =
    let (m', victim) = mark cycle m in some (check_victim transaction_id m' victim)

unfoldable pub detect : ℕ → LockManager → Option (Bool × LockManager)
unfolding act_on_cycle
detect transaction_id m = act_on_cycle transaction_id m (find_cycle transaction_id m)

-- `entry.waiters.remove(request)`, if it is there.
unfoldable pub remove_request : LockRequest → List LockRequest → List LockRequest
remove_request r [] = []
remove_request r (w ∷ ws) = if same_request w r then ws else w ∷ remove_request r ws

-- The `finally` of `acquire`.
abbrev pub stop_waiting : ResourceId → LockRequest → LockManager → LockManager
stop_waiting resource request m =
    let entry = entry_at resource m in
    set_entry resource (record entry { waiters = remove_request request entry.waiters }) m

-- The head of the loop, by the transactions in the way: wait on, give up, or leave the loop
-- and take the lock.
unfoldable pub blocked_by : Bool → ResourceId → LockRequest → LockManager → List ℕ → Step
blocked_by expired resource request m [] = grant resource request (stop_waiting resource request m)
blocked_by expired resource request m (_ ∷ _) =
    if expired
    then (
      err lock_timeout,
      stop_waiting resource request
          (record m { stats = record (m.stats) { timeouts = m.stats.timeouts + 1 } }),
    )
    else (ok waiting, m)

unfoldable pub wait_or_grant : Bool → ResourceId → LockRequest → LockManager → Step
unfolding blocked_by
wait_or_grant expired resource request m =
    blocked_by expired resource request m
      (conflicts_with (entry_at resource m) request.transaction_id request.mode)

-- After `_detect`: raise, or go to the head of the loop.
unfoldable pub after_detect :
    Bool → ResourceId → LockRequest → Option (Bool × LockManager) → Option Step
unfolding wait_or_grant
after_detect expired resource request none = none
after_detect expired resource request (some (true, m)) =
    some (err deadlock, stop_waiting resource request m)
after_detect expired resource request (some (false, m)) =
    some (wait_or_grant expired resource request m)

-- The transaction is put in the queue.
abbrev pub enqueue : ResourceId → LockRequest → LockManager → LockManager
enqueue resource request m =
    let entry = entry_at resource m in
    record m {
      table = Dict.put resource (record entry { waiters = entry.waiters ++ request ∷ [] }) m.table;
      stats = record (m.stats) { waits = m.stats.waits + 1 };
    }

-- No one in the way: the lock is taken at once. Otherwise the transaction queues.
unfoldable pub grant_or_queue : Bool → ResourceId → LockRequest → LockManager → List ℕ → Option Step
unfolding after_detect
grant_or_queue expired resource request m [] = some (grant resource request m)
grant_or_queue expired resource request m (_ ∷ _) =
    after_detect expired resource request
      (detect request.transaction_id (enqueue resource request m))

-- `acquire`, up to its return, its exception or its first wait.
unfoldable pub start_acquire : Bool → ResourceId → LockRequest → LockManager → Option Step
unfolding grant_or_queue
start_acquire expired resource request m =
    let t = request.transaction_id in
    let m₁ = with_entry resource m in
    if already_holds t resource request.mode m₁
    then some (ok returned, m₁)
    else if is_victim t m₁
    then some (err deadlock, pardoned t m₁)
    else grant_or_queue expired resource request m₁
        (conflicts_with (entry_at resource m₁) t request.mode)

-- A waiter that was woken, up to its return, its exception or its next wait.
unfoldable pub resume : Bool → ResourceId → LockRequest → LockManager → Option Step
unfolding after_detect
resume expired resource request m =
    let t = request.transaction_id in
    if is_victim t m
    then some (err deadlock, stop_waiting resource request (pardoned t m))
    else after_detect expired resource request (detect t m)

-- What `release_all` does to the entry of one resource of the transaction, if there is one.
unfoldable pub release_entry :
    ℕ
    → ResourceId
    → Dict ResourceId LockTableEntry
    → Option LockTableEntry
    → Dict ResourceId LockTableEntry
release_entry transaction_id resource table none = table
release_entry transaction_id resource table (some entry) =
    let holders = Dict.remove transaction_id entry.holders in
    if is_nil holders && is_nil entry.waiters
    then Dict.remove resource table
    else Dict.put resource (record entry { holders = holders }) table

unfoldable pub release_one :
    ℕ → ResourceId → Dict ResourceId LockTableEntry → Dict ResourceId LockTableEntry
unfolding release_entry
release_one transaction_id resource table =
    release_entry transaction_id resource table (Dict.get resource table)

unfoldable pub release_each :
    ℕ → Dict ResourceId LockMode → Dict ResourceId LockTableEntry → Dict ResourceId LockTableEntry
release_each transaction_id [] table = table
release_each transaction_id ((resource, _) ∷ rest) table =
    release_each transaction_id rest (release_one transaction_id resource table)

unfoldable pub release_all : ℕ → LockManager → ℕ × LockManager
unfolding release_each
release_all transaction_id m =
    let held = held_of transaction_id m in
    (
      length held,
      record m {
        table = release_each transaction_id held m.table;
        held_by = Dict.remove transaction_id m.held_by;
        victims = discard transaction_id m.victims;
        stats = record (m.stats) { released = m.stats.released + length held };
      },
    )

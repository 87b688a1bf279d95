-- ===== src/Concurrency/Locks/History.antt =====
-- The life of a lock manager, as a sequence of steps of any threads in any order.
use chen_db.Prelude.{ℕ, ◌≡◌, ◌≢◌, refl, Bool, Option, none, some, List, []}
use chen_db.Prelude.Result.{Result}
use chen_db.Concurrency.Locks.Table.{
  ResourceId, LockRequest, LockManager, new_manager, LockError, Progress,
}
use chen_db.Concurrency.Locks.Acquire.{start_acquire, resume, release_all}
use chen_db.Concurrency.Locks.Safety.{IsSound}
use chen_db.Concurrency.Locks.Sound.{start_acquire-IsSound, resume-IsSound}
use chen_db.Concurrency.Locks.Release.{release_all-IsSound}

-- What the steps lead to from an empty table.
pub data IsLockState : LockManager → Type 0 where
  fresh : IsLockState new_manager
  asked :
      {m m' : LockManager} {result : Result LockError Progress} (expired : Bool) (r : ResourceId)
      (request : LockRequest)
      → IsLockState m
      → start_acquire expired r request m ≡ some (result, m')
      → IsLockState m'
  woken :
      {m m' : LockManager} {result : Result LockError Progress} (expired : Bool) (r : ResourceId)
      (request : LockRequest)
      → IsLockState m
      → resume expired r request m ≡ some (result, m')
      → IsLockState m'
  ended : {m : LockManager} (t : ℕ) → IsLockState m → IsLockState (release_all t m).1

-- In every state that any interleaving of requests, wake-ups and ends of transactions
-- leads to, the table and the transactions' own dictionaries agree, and no two transactions
-- hold locks on one resource that exclude each other.
pub IsLockState-IsSound : (m : LockManager) → IsLockState m → IsSound m
unfolding chen_db.Prelude.Dict.get
IsLockState-IsSound _ fresh = ((λ r t. refl), (λ r t u a b ha hb other. cc))
IsLockState-IsSound m' (asked {m = m} {result = result} expired r request before e) =
    start_acquire-IsSound expired r request m m' result e (IsLockState-IsSound m before)
IsLockState-IsSound m' (woken {m = m} {result = result} expired r request before e) =
    resume-IsSound expired r request m m' result e (IsLockState-IsSound m before)
IsLockState-IsSound _ (ended {m = m} t before) =
    (release_all-IsSound t "" m (IsLockState-IsSound m before)).0

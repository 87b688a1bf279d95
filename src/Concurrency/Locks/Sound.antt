-- ===== src/Concurrency/Locks/Sound.antt =====
-- Every step of the lock manager keeps the locks sound, and the end of a transaction frees its locks.
use chen_db.Prelude.{
  ℕ, ◌≡◌, refl, ap, ◌∙◌, Bool, true, false, Option, none, some, List, [], ◌∷◌, ◌==◌, nat_eq,
  string_eq, if-both,
}
use mathlib.Core.Path.{subst}
use chen_db.Prelude.Dict
use chen_db.Prelude.Dict.{Dict}
use chen_db.Prelude.Sets.{elem}
use chen_db.Prelude.Result.{Result}
use chen_db.Concurrency.Locks.Table.{
  conflicting, ResourceId, LockRequest, LockTableEntry, conflicts_with, LockManager, entry_at,
  with_entry, set_entry, already_holds, LockError, Progress, Step,
}
use chen_db.Concurrency.Locks.Graph.{find_cycle, choose_victim}
use chen_db.Concurrency.Locks.Acquire.{
  is_victim, pardoned, mark, detect, remove_request, stop_waiting, wait_or_grant, check_victim,
  act_on_cycle, blocked_by, after_detect, enqueue, grant_or_queue, start_acquire, resume,
}
use chen_db.Concurrency.Locks.Safety.{
  IsSound, SameLocks, SameLocks-IsSound, holder_in-keeps, grant-IsSound,
}

-- Writing an entry with the same holders is no change of the locks.
set_entry-SameLocks :
    (r : ResourceId) (entry : LockTableEntry) (m : LockManager)
    → entry.holders ≡ (entry_at r m).holders
    → SameLocks m (set_entry r entry m)
set_entry-SameLocks r entry m h = ((λ s u. holder_in-keeps r s u entry m.table h), (λ s u. refl))

stop_waiting-IsSound :
    (r : ResourceId) (request : LockRequest) (m : LockManager)
    → IsSound m
    → IsSound (stop_waiting r request m)
stop_waiting-IsSound r request m =
    SameLocks-IsSound m (stop_waiting r request m) (set_entry-SameLocks r _ m refl)

mark-IsSound : (cycle : List ℕ) (m : LockManager) → IsSound m → IsSound (mark cycle m).0
mark-IsSound [] m s = s
mark-IsSound (c ∷ cs) m s =
    if-both (λ (x : LockManager × Option ℕ). IsSound x.0) (elem (choose_victim c cs) m.victims) _ _
      (λ _. s) (λ _. s)

check_victim-IsSound :
    (t : ℕ) (m : LockManager) (victim : Option ℕ) → IsSound m → IsSound (check_victim t m victim).1
unfolding check_victim
check_victim-IsSound t m none s = s
check_victim-IsSound t m (some v) s =
    if-both (λ (x : Bool × LockManager). IsSound x.1) (v == t) _ _ (λ _. s) (λ _. s)

-- What a step returns is sound, if it returns.
IsSoundStep : Option Step → Type 0
IsSoundStep none = Unit
IsSoundStep (some s) = IsSound s.1

stop_waiting-free :
    (r : ResourceId) (request : LockRequest) (m : LockManager)
    → (entry_at r (stop_waiting r request m)).holders ≡ (entry_at r m).holders
stop_waiting-free r request m = simp (
  Dict.get-put r r
      (record (entry_at r m) { waiters = remove_request request (entry_at r m).waiters }) m.table,
  (string_eq.beq_iff r r).1 refl,
)

blocked_by-IsSound :
    (expired : Bool) (r : ResourceId) (request : LockRequest) (m : LockManager) (others : List ℕ)
    → conflicts_with (entry_at r m) request.transaction_id request.mode ≡ others
    → IsSound m
    → IsSound (blocked_by expired r request m others).1
unfolding blocked_by
blocked_by-IsSound expired r request m [] free s =
    grant-IsSound r request (stop_waiting r request m)
      (ap (conflicting request.transaction_id request.mode) (stop_waiting-free r request m) ∙ free)
      (stop_waiting-IsSound r request m s)
blocked_by-IsSound expired r request m (x ∷ xs) blocked s =
    if-both (λ (x : Step). IsSound x.1) expired _ _ (λ _. stop_waiting-IsSound r request m s)
      (λ _. s)

after_detect-IsSoundStep :
    (expired : Bool) (r : ResourceId) (request : LockRequest) (checked : Bool × LockManager)
    → IsSound checked.1
    → IsSoundStep (after_detect expired r request (some checked))
unfolding after_detect IsSoundStep wait_or_grant
after_detect-IsSoundStep expired r request (true, m) s = stop_waiting-IsSound r request m s
after_detect-IsSoundStep expired r request (false, m) s =
    blocked_by-IsSound expired r request m _ refl s

act_on_cycle-IsSoundStep :
    (expired : Bool) (r : ResourceId) (request : LockRequest) (m : LockManager)
    (found : Option (List ℕ))
    → IsSound m
    → IsSoundStep (after_detect expired r request (act_on_cycle request.transaction_id m found))
unfolding act_on_cycle IsSoundStep after_detect
act_on_cycle-IsSoundStep expired r request m none s = tt
act_on_cycle-IsSoundStep expired r request m (some cycle) s =
    after_detect-IsSoundStep expired r request
      (check_victim request.transaction_id (mark cycle m).0 (mark cycle m).1)
      (check_victim-IsSound request.transaction_id (mark cycle m).0 (mark cycle m).1
        (mark-IsSound cycle m s))

detect-IsSoundStep :
    (expired : Bool) (r : ResourceId) (request : LockRequest) (m : LockManager)
    → IsSound m
    → IsSoundStep (after_detect expired r request (detect request.transaction_id m))
unfolding detect
detect-IsSoundStep expired r request m =
    act_on_cycle-IsSoundStep expired r request m (find_cycle request.transaction_id m)

grant_or_queue-IsSoundStep :
    (expired : Bool) (r : ResourceId) (request : LockRequest) (m : LockManager) (others : List ℕ)
    → conflicts_with (entry_at r m) request.transaction_id request.mode ≡ others
    → IsSound m
    → IsSoundStep (grant_or_queue expired r request m others)
unfolding grant_or_queue IsSoundStep
grant_or_queue-IsSoundStep expired r request m [] free s = grant-IsSound r request m free s
grant_or_queue-IsSoundStep expired r request m (x ∷ xs) blocked s =
    detect-IsSoundStep expired r request (enqueue r request m)
      (SameLocks-IsSound m (enqueue r request m) (set_entry-SameLocks r _ m refl) s)

start_acquire-IsSoundStep :
    (expired : Bool) (r : ResourceId) (request : LockRequest) (m : LockManager)
    → IsSound m
    → IsSoundStep (start_acquire expired r request m)
unfolding start_acquire IsSoundStep
start_acquire-IsSoundStep expired r request m s =
    let m₁ = with_entry r m in
    let s₁ = SameLocks-IsSound m m₁ (set_entry-SameLocks r (entry_at r m) m refl) s in
    if-both IsSoundStep (already_holds request.transaction_id r request.mode m₁) _ _ (λ _. s₁)
      (λ _.
        if-both IsSoundStep (is_victim request.transaction_id m₁) _ _ (λ _. s₁)
          (λ _. grant_or_queue-IsSoundStep expired r request m₁ _ refl s₁))

resume-IsSoundStep :
    (expired : Bool) (r : ResourceId) (request : LockRequest) (m : LockManager)
    → IsSound m
    → IsSoundStep (resume expired r request m)
unfolding resume IsSoundStep
resume-IsSoundStep expired r request m s =
    if-both IsSoundStep (is_victim request.transaction_id m) _ _
      (λ _. stop_waiting-IsSound r request (pardoned request.transaction_id m) s)
      (λ _. detect-IsSoundStep expired r request m s)

IsSoundStep-some :
    (o : Option Step) (result : Result LockError Progress) (m : LockManager)
    → o ≡ some (result, m)
    → IsSoundStep o
    → IsSound m
unfolding IsSoundStep
IsSoundStep-some o result m e s = subst IsSoundStep e s

-- A request keeps the locks sound, whether it returns, raises or waits: where the table and the
-- transactions' own dictionaries agreed and no two transactions held locks on one resource that
-- exclude each other, they still do.
pub start_acquire-IsSound :
    (expired : Bool) (r : ResourceId) (request : LockRequest) (m m' : LockManager)
    (result : Result LockError Progress)
    → start_acquire expired r request m ≡ some (result, m')
    → IsSound m
    → IsSound m'
start_acquire-IsSound expired r request m m' result e s =
    IsSoundStep-some (start_acquire expired r request m) result m' e
      (start_acquire-IsSoundStep expired r request m s)

-- So does a waiter that is woken, whether it returns, raises or waits on.
pub resume-IsSound :
    (expired : Bool) (r : ResourceId) (request : LockRequest) (m m' : LockManager)
    (result : Result LockError Progress)
    → resume expired r request m ≡ some (result, m')
    → IsSound m
    → IsSound m'
resume-IsSound expired r request m m' result e s =
    IsSoundStep-some (resume expired r request m) result m' e
      (resume-IsSoundStep expired r request m s)

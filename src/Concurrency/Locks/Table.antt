-- ===== src/Concurrency/Locks/Table.antt =====
-- engine/concurrency/locks.py: the lock table, and taking a lock that nothing stands in the way of.
use Prim.Native.String.{String}
use chen_db.Prelude.{
  ℕ, ◌+◌, Bool, true, false, not, ◌&&◌, Option, none, some, List, [], ◌∷◌, leb, ◌==◌, if◌then◌else◌,
  length, nat_eq, string_eq,
}
use chen_db.Prelude.Dict
use chen_db.Prelude.Dict.{Dict}
use chen_db.Prelude.Result.{Result, ok, err}

pub data LockMode : Type 0 where
  shared exclusive : LockMode

unfoldable pub compatible : LockMode → LockMode → Bool
compatible shared shared = true
compatible shared exclusive = false
compatible exclusive wanted = false

abbrev pub same_mode : LockMode → LockMode → Bool
same_mode shared shared = true
same_mode exclusive exclusive = true
same_mode _ _ = false

abbrev pub ResourceId : Type 0
ResourceId = String

abbrev pub max_locks_per_transaction : ℕ
max_locks_per_transaction = 100_000

pub record LockRequest : Type 0 where
  pub transaction_id : ℕ
  pub mode : LockMode
  pub waiting_since_ns : ℕ

-- `not items`
abbrev pub is_nil {ℓ} : {A : Type ℓ} → List A → Bool
is_nil [] = true
is_nil (x ∷ xs) = false

abbrev pub same_request : LockRequest → LockRequest → Bool
same_request a b =
    a.transaction_id == b.transaction_id
    && same_mode a.mode b.mode
    && a.waiting_since_ns == b.waiting_since_ns

pub record LockTableEntry : Type 0 where
  pub holders : Dict ℕ LockMode
  pub waiters : List LockRequest

abbrev pub empty_entry : LockTableEntry
empty_entry = record { holders = []; waiters = [] }

-- The holders that stand in the way.
unfoldable pub conflicting : ℕ → LockMode → Dict ℕ LockMode → List ℕ
conflicting transaction_id mode [] = []
conflicting transaction_id mode ((holder, held) ∷ rest) =
    let others = conflicting transaction_id mode rest in
    if not (holder == transaction_id) && not (compatible held mode) then holder ∷ others else others

abbrev pub conflicts_with : LockTableEntry → ℕ → LockMode → List ℕ
conflicts_with entry transaction_id mode = conflicting transaction_id mode entry.holders

pub record LockStats : Type 0 where
  pub granted : ℕ
  pub released : ℕ
  pub waits : ℕ
  pub timeouts : ℕ
  pub deadlocks : ℕ

pub record LockManager : Type 0 where
  pub table : Dict ResourceId LockTableEntry
  pub held_by : Dict ℕ (Dict ResourceId LockMode)
  pub victims : List ℕ
  pub stats : LockStats

abbrev pub new_manager : LockManager
new_manager = record {
  table = [];
  held_by = [];
  victims = [];
  stats = record { granted = 0; released = 0; waits = 0; timeouts = 0; deadlocks = 0 };
}

pub data LockError : Type 0 where
  deadlock lock_timeout : LockError

pub data Progress : Type 0 where
  returned waiting : Progress

-- What a step returns or raises, and the manager that it leaves.
abbrev pub Step : Type 0
Step = Result LockError Progress × LockManager

abbrev pub entry_or_empty : Option LockTableEntry → LockTableEntry
entry_or_empty none = empty_entry
entry_or_empty (some entry) = entry

abbrev pub locks_or_none : Option (Dict ResourceId LockMode) → Dict ResourceId LockMode
locks_or_none none = []
locks_or_none (some held) = held

abbrev pub entry_at : ResourceId → LockManager → LockTableEntry
entry_at resource m = entry_or_empty (Dict.get resource m.table)

abbrev pub held_of : ℕ → LockManager → Dict ResourceId LockMode
held_of transaction_id m = locks_or_none (Dict.get transaction_id m.held_by)

-- `self._table.setdefault(resource, LockTableEntry(resource))`
abbrev pub with_entry : ResourceId → LockManager → LockManager
with_entry resource m = record m { table = Dict.put resource (entry_at resource m) m.table }

abbrev pub set_entry : ResourceId → LockTableEntry → LockManager → LockManager
set_entry resource entry m = record m { table = Dict.put resource entry m.table }

abbrev covers : LockMode → Option LockMode → Bool
covers mode none = false
covers mode (some exclusive) = true
covers mode (some shared) = same_mode shared mode

unfoldable pub already_holds : ℕ → ResourceId → LockMode → LockManager → Bool
already_holds transaction_id resource mode m =
    covers mode (Dict.get resource (held_of transaction_id m))

unfoldable pub grant : ResourceId → LockRequest → LockManager → Step
grant resource request m =
    let t = request.transaction_id in
    let held = held_of t m in
    let entry = entry_at resource m in
    if leb max_locks_per_transaction (length held)
    then (err lock_timeout, record m { held_by = Dict.put t held m.held_by })
    else (
      ok returned,
      record m {
        table =
            Dict.put resource (record entry { holders = Dict.put t request.mode entry.holders })
              m.table;
        held_by = Dict.put t (Dict.put resource request.mode held) m.held_by;
        stats = record (m.stats) { granted = m.stats.granted + 1 };
      },
    )

-- ===== src/Transaction/Manager.antt =====
-- engine/transaction/manager.py. A transaction is an object that both dictionaries refer to: it is
-- kept in `objects`, and a reference to it is its id. Clocks, trace events and the counters of rows
-- and locks, which other modules write, are left out. What a method raises is an error value.
pub mod Sound
pub mod Steps
pub mod Reads
use Prim.Native.String.{String}
use chen_db.Prelude.{
  ℕ, ◌+◌, ◌-◌, Bool, true, false, not, ◌&&◌, Option, none, some, List, [], ◌∷◌, ◌++◌, ltb, leb,
  ◌==◌, if◌then◌else◌, length, drop, max, nat_eq, string_eq,
}
use chen_db.Prelude.Dict
use chen_db.Prelude.Dict.{Dict}
use chen_db.Prelude.Sets.{elem, add, discard}
use chen_db.Prelude.Result.{Result, ok, err}
use chen_db.Concurrency.Snapshot.{Snapshot, IsolationLevel, per_statement, min_or, TupleHeader}
use chen_db.Concurrency.Snapshot.{take as take_snapshot}
use chen_db.Transaction.Undo.{UndoLog, UndoRecord, empty_log, capture, rewind, clear, has}
use chen_db.Transaction.Undo.Rollback.{PageMap, with_page, apply_records}

pub data TransactionState : Type 0 where
  active failed committed aborted : TransactionState

abbrev pub is_open : TransactionState → Bool
is_open active = true
is_open failed = true
is_open committed = false
is_open aborted = false

abbrev pub is_failed : TransactionState → Bool
is_failed failed = true
is_failed _ = false

abbrev pub is_active : TransactionState → Bool
is_active active = true
is_active _ = false

pub record Transaction : Type 0 where
  pub transaction_id : ℕ
  pub implicit : Bool
  pub session : String
  pub isolation : IsolationLevel
  pub snapshot : Option Snapshot
  pub snapshots_taken : ℕ
  pub undo : UndoLog
  pub state : TransactionState
  pub statements : ℕ
  pub pages_written : ℕ
  pub pages_restored : ℕ

pub record TransactionManager : Type 0 where
  pub objects : Dict ℕ Transaction
  pub by_session : Dict String ℕ
  pub running : List ℕ
  pub history : List ℕ
  pub next_id : ℕ
  pub frozen_xid : ℕ

pub data TransactionError : Type 0 where
  already_open nothing_open only_rollback still_open : TransactionError

abbrev pub history_limit : ℕ
history_limit = 50

abbrev pub new_manager : ℕ → TransactionManager
new_manager frozen_xid = record {
  objects = [];
  by_session = [];
  running = [];
  history = [];
  next_id = max frozen_xid 1;
  frozen_xid = frozen_xid;
}

-- The object that a reference stands for.
abbrev pub deref : Dict ℕ Transaction → Option ℕ → Option Transaction
deref objects none = none
deref objects (some t) = Dict.get t objects

abbrev pub active_in : String → TransactionManager → Option Transaction
active_in session m = deref m.objects (Dict.get session m.by_session)

-- The object is changed in place.
abbrev pub store : Transaction → TransactionManager → TransactionManager
store t m = record m { objects = Dict.put t.transaction_id t m.objects }

abbrev pub new_transaction : ℕ → Bool → String → IsolationLevel → Transaction
new_transaction t implicit session isolation = record {
  transaction_id = t;
  implicit = implicit;
  session = session;
  isolation = isolation;
  snapshot = none;
  snapshots_taken = 0;
  undo = empty_log;
  state = active;
  statements = 0;
  pages_written = 0;
  pages_restored = 0;
}

-- `begin`, by the transaction that the session has open.
unfoldable pub begin_over :
    Bool
    → String
    → IsolationLevel
    → TransactionManager
    → Option Transaction
    → Result TransactionError (Transaction × TransactionManager)
begin_over implicit session isolation m (some existing) =
    let adopted = record existing { implicit = false } in
    if implicit
    then ok (existing, m)
    else if not existing.implicit
    then err already_open
    else ok (adopted, store adopted m)
begin_over implicit session isolation m none =
    let t = new_transaction m.next_id implicit session isolation in
    ok (
      t,
      record m {
        objects = Dict.put m.next_id t m.objects;
        next_id = m.next_id + 1;
        by_session = Dict.put session m.next_id m.by_session;
        running = m.running ++ m.next_id ∷ [];
      },
    )

unfoldable pub begin :
    Bool
    → String
    → IsolationLevel
    → TransactionManager
    → Result TransactionError (Transaction × TransactionManager)
unfolding begin_over
begin implicit session isolation m = begin_over implicit session isolation m (active_in session m)

-- The snapshot that a transaction keeps.
abbrev pub kept : Transaction → Option Snapshot
kept t = if per_statement t.isolation then none else t.snapshot

unfoldable pub snapshot_or_new :
    Transaction → TransactionManager → Option Snapshot → Snapshot × TransactionManager
snapshot_or_new t m (some s) = (s, m)
snapshot_or_new t m none =
    let s = take_snapshot m.next_id m.running m.frozen_xid t.transaction_id in
    (s, store (record t { snapshot = some s; snapshots_taken = t.snapshots_taken + 1 }) m)

unfoldable pub snapshot_for : Transaction → TransactionManager → Snapshot × TransactionManager
unfolding snapshot_or_new
snapshot_for t m = snapshot_or_new t m (kept t)

-- The xmins of the running transactions that have a snapshot.
abbrev pub xmins_of : Option Snapshot → List ℕ
xmins_of none = []
xmins_of (some s) = s.xmin ∷ []

abbrev pub xmins_at : Option Transaction → List ℕ
xmins_at none = []
xmins_at (some t) = xmins_of t.snapshot

unfoldable pub live_xmins : Dict ℕ Transaction → List ℕ → List ℕ
live_xmins objects [] = []
live_xmins objects (t ∷ ts) = xmins_at (Dict.get t objects) ++ live_xmins objects ts

unfoldable pub oldest_snapshot_xmin : TransactionManager → ℕ
unfolding live_xmins
oldest_snapshot_xmin m = min_or m.next_id (live_xmins m.objects m.running)

-- `_is_dead` of engine/database.py, the test of `vacuum`.
unfoldable pub is_dead : TupleHeader → ℕ → Bool
is_dead header horizon = not (header.xmax == 0) && ltb header.xmax horizon

-- `mark_failed`, by the transaction that the session has open.
unfoldable pub fail_over : TransactionManager → Option Transaction → TransactionManager
fail_over m none = m
fail_over m (some t) = if is_active t.state then store (record t { state = failed }) m else m

unfoldable pub mark_failed : String → TransactionManager → TransactionManager
unfolding fail_over
mark_failed session m = fail_over m (active_in session m)

-- `del history[: len(history) - limit]` where the history is too long.
abbrev trimmed : List ℕ → List ℕ
trimmed history = drop (length history - history_limit) history

unfoldable pub retire : Transaction → TransactionManager → TransactionManager
retire t m = record m {
  by_session = Dict.remove t.session m.by_session;
  running = discard t.transaction_id m.running;
  history = trimmed (m.history ++ t.transaction_id ∷ []);
}

-- `commit`, by the transaction that the session has open.
unfoldable pub commit_over :
    TransactionManager
    → Option Transaction
    → Result TransactionError (Transaction × TransactionManager)
unfolding retire
commit_over m none = err nothing_open
commit_over m (some t) =
    let done = record t { state = committed; undo = clear t.undo } in
    if is_failed t.state then err only_rollback else ok (done, retire done (store done m))

unfoldable pub commit :
    String → TransactionManager → Result TransactionError (Transaction × TransactionManager)
unfolding commit_over
commit session m = commit_over m (active_in session m)

-- `rollback`, by the transaction that the session has open. `apply` writes one page.
unfoldable pub rollback_over :
    PageMap
    → TransactionManager
    → Option Transaction
    → Result TransactionError (Transaction × (PageMap × TransactionManager))
unfolding retire
rollback_over pages m none = err nothing_open
rollback_over pages m (some t) =
    let done = record t {
      state = aborted;
      pages_restored = length t.undo.records;
      undo = clear t.undo;
    } in
    ok (done, (apply_records (rewind t.undo) pages, retire done (store done m)))

unfoldable pub rollback :
    String
    → PageMap
    → TransactionManager
    → Result TransactionError (Transaction × (PageMap × TransactionManager))
unfolding rollback_over
rollback session pages m = rollback_over pages m (active_in session m)

-- What the pager needs to log a change.
pub record WriteIntent : Type 0 where
  pub transaction_id : ℕ
  pub before_image : Option (List ℕ)

-- `before_write`, by the transaction that the session has open.
unfoldable pub write_over :
    ℕ → List ℕ → TransactionManager → Option Transaction → Option WriteIntent × TransactionManager
write_over page_id image m none = (none, m)
write_over page_id image m (some t) =
    let counted = record t { pages_written = t.pages_written + 1 } in
    if has page_id t.undo
    then (some (record { transaction_id = t.transaction_id; before_image = none }), store counted m)
    else (
      some (record { transaction_id = t.transaction_id; before_image = some image }),
      store (record counted { undo = (capture page_id image t.undo).1 }) m,
    )

unfoldable pub before_write :
    ℕ → List ℕ → String → TransactionManager → Option WriteIntent × TransactionManager
unfolding write_over
before_write page_id image session m = write_over page_id image m (active_in session m)

unfoldable pub note_statement_over : TransactionManager → Option Transaction → TransactionManager
note_statement_over m none = m
note_statement_over m (some t) = store (record t { statements = t.statements + 1 }) m

unfoldable pub note_statement : String → TransactionManager → TransactionManager
unfolding note_statement_over
note_statement session m = note_statement_over m (active_in session m)

-- `Database.checkpoint` and `_stamp_next_xid` of engine/database.py, as the manager meets them.
unfoldable pub stamp_over : TransactionManager → List ℕ → Result TransactionError TransactionManager
stamp_over m [] = ok (record m { frozen_xid = m.next_id })
stamp_over m (_ ∷ _) = err still_open

unfoldable pub stamp_next_xid : TransactionManager → Result TransactionError TransactionManager
unfolding stamp_over
stamp_next_xid m = stamp_over m m.running

-- ===== src/Transaction/Manager/Reads.antt =====
-- What a transaction reads through, and what vacuum may take away.
use Prim.Native.String.{String}
use chen_db.Prelude.{
  ℕ, ◌≡◌, refl, ap, ◌∙◌, inl, inr, Bool, true, not, ◌&&◌, ◌||◌, none, some, List, [], ◌∷◌, ◌++◌,
  arith, ◌==◌, if◌then◌else◌, nat_eq, Option-cases,
}
use chen_db.Prelude.Dict
use chen_db.Prelude.Dict.{Dict}
use chen_db.Prelude.Sets.{elem}
use chen_db.Prelude.Result.{Result, ok, err}
use chen_db.Concurrency.Snapshot.{
  IsolationLevel, Snapshot, sees, repeatable_read, min_or, per_statement,
}
use chen_db.Concurrency.Snapshot.Sees.{has_finished, Within, sees-take}
use chen_db.Transaction.Undo.Rollback.{PageMap}
use chen_db.Transaction.Manager.{
  Transaction, TransactionManager, TransactionError, new_manager, active_in, begin, commit,
  rollback, mark_failed, before_write, snapshot_for, snapshot_or_new, kept, xmins_of, xmins_at,
  live_xmins, stamp_over, stamp_next_xid, oldest_snapshot_xmin, is_dead,
}
use chen_db.Transaction.Manager.Sound.{IsSound}
use chen_db.Transaction.Manager.Steps.{
  begin-IsSound, commit-IsSound, rollback-IsSound, mark_failed-IsSound, before_write-IsSound,
  snapshot_for-IsSound,
}

-- What the sessions' operations lead to, in any order, from a database opened at a frozen id.
pub data IsReachable (frozen_xid : ℕ) : TransactionManager → Type 0 where
  opened : IsReachable frozen_xid (new_manager frozen_xid)
  begun :
      {m m' : TransactionManager} {t : Transaction} (implicit : Bool) (session : String)
      (isolation : IsolationLevel)
      → IsReachable frozen_xid m
      → begin implicit session isolation m ≡ ok (t, m')
      → IsReachable frozen_xid m'
  accepted :
      {m m' : TransactionManager} {t : Transaction} (session : String)
      → IsReachable frozen_xid m
      → commit session m ≡ ok (t, m')
      → IsReachable frozen_xid m'
  undone :
      {m m' : TransactionManager} {t : Transaction} {pages' : PageMap} (session : String)
      (pages : PageMap)
      → IsReachable frozen_xid m
      → rollback session pages m ≡ ok (t, (pages', m'))
      → IsReachable frozen_xid m'
  spoiled :
      {m : TransactionManager} (session : String)
      → IsReachable frozen_xid m
      → IsReachable frozen_xid (mark_failed session m)
  wrote :
      {m : TransactionManager} (page_id : ℕ) (image : List ℕ) (session : String)
      → IsReachable frozen_xid m
      → IsReachable frozen_xid (before_write page_id image session m).1
  looked :
      {m : TransactionManager} {t : Transaction} (session : String)
      → IsReachable frozen_xid m
      → active_in session m ≡ some t
      → IsReachable frozen_xid (snapshot_for t m).1
  stamped :
      {m m' : TransactionManager}
      → IsReachable frozen_xid m
      → stamp_next_xid m ≡ ok m'
      → IsReachable frozen_xid m'

abbrev LeavesSound : Result TransactionError TransactionManager → Type 0
LeavesSound (err e) = Unit
LeavesSound (ok m) = IsSound m

stamp_over-LeavesSound :
    (m : TransactionManager) (running : List ℕ)
    → m.running ≡ running
    → IsSound m
    → LeavesSound (stamp_over m running)
unfolding stamp_over elem
stamp_over-LeavesSound m [] none_open s = record {
  sessions = s.sessions;
  owners = s.owners;
  states = s.states;
  ids = (omega arith, (s.ids.1.0, λ t h. absurd (ground (arith, h, ap (elem t) none_open))));
}
stamp_over-LeavesSound m (x ∷ xs) some_open s = tt

stamp_next_xid-IsSound :
    (m m' : TransactionManager) → stamp_next_xid m ≡ ok m' → IsSound m → IsSound m'
unfolding stamp_next_xid
stamp_next_xid-IsSound m m' e s = rw e at (stamp_over-LeavesSound m m.running refl s)

new_manager-IsSound : (frozen_xid : ℕ) → IsSound (new_manager frozen_xid)
unfolding Dict.get elem
new_manager-IsSound frozen_xid = record {
  sessions = λ s t h. absurd (ground (arith, h));
  owners = λ t h. absurd (ground (arith, h));
  states = λ t tx h. absurd (ground (arith, h));
  ids = (omega arith, (omega arith, λ t h. absurd (ground (arith, h))));
}

-- In every state that the operations of any sessions lead to, in any order, each session refers to
-- an open transaction of its own, each running transaction is referred to by its session, a transaction runs
-- exactly while its state is open, and no running transaction has a frozen id.
pub IsReachable-IsSound :
    (frozen_xid : ℕ) (m : TransactionManager) → IsReachable frozen_xid m → IsSound m
IsReachable-IsSound f _ opened = new_manager-IsSound f
IsReachable-IsSound f m' (begun {m = m} {t = t} i s l before e) =
    begin-IsSound i s l m m' t e (IsReachable-IsSound f m before)
IsReachable-IsSound f m' (accepted {m = m} {t = t} s before e) =
    commit-IsSound s m m' t e (IsReachable-IsSound f m before)
IsReachable-IsSound f m' (undone {m = m} {t = t} {pages' = pages'} s pages before e) =
    rollback-IsSound s pages pages' m m' t e (IsReachable-IsSound f m before)
IsReachable-IsSound f _ (spoiled {m = m} s before) =
    mark_failed-IsSound s m (IsReachable-IsSound f m before)
IsReachable-IsSound f _ (wrote {m = m} p image s before) =
    before_write-IsSound p image s m (IsReachable-IsSound f m before)
IsReachable-IsSound f _ (looked {m = m} {t = t} s before e) =
    snapshot_for-IsSound s m t e (IsReachable-IsSound f m before)
IsReachable-IsSound f m' (stamped {m = m} before e) =
    stamp_next_xid-IsSound m m' e (IsReachable-IsSound f m before)

IsSound-Within : (m : TransactionManager) → IsSound m → Within m.frozen_xid m.next_id m.running
IsSound-Within m s u h =
    let (tx, (at, _)) = s.owners u h in ((s.ids.1.1 u h).0, (s.states u tx at).1.0)

-- A new snapshot of a transaction sees exactly the transaction itself and those that have finished.
pub snapshot_for-finished :
    (m : TransactionManager) (t : Transaction) (xid : ℕ)
    → IsSound m
    → kept t ≡ none
    → sees (snapshot_for t m).0 xid
      ≡ (not (xid == 0) && ((xid == t.transaction_id) || has_finished m.next_id m.running xid))
unfolding snapshot_for snapshot_or_new
snapshot_for-finished m t xid s new =
    ap (λ o. sees (snapshot_or_new t m o).0 xid) new
    ∙ sees-take m.next_id m.frozen_xid t.transaction_id xid m.running (IsSound-Within m s) s.ids.0

-- A transaction that runs at repeatable read is given the snapshot that it has, and nothing changes.
pub snapshot_for-repeatable :
    (m : TransactionManager) (t : Transaction) (first : Snapshot)
    → t.isolation ≡ repeatable_read
    → t.snapshot ≡ some first
    → snapshot_for t m ≡ (first, m)
unfolding snapshot_for snapshot_or_new
snapshot_for-repeatable m t first level has_one =
    ap (λ o. snapshot_or_new t m o)
      (ap (λ l. if per_statement l then none else t.snapshot) level ∙ has_one)

live_xmins-nil :
    (objects : Dict ℕ Transaction) (running : List ℕ)
    → ((u : ℕ) (tx : Transaction)
        → elem u running ≡ true
        → Dict.get u objects ≡ some tx
        → tx.snapshot ≡ none)
    → live_xmins objects running ≡ []
unfolding live_xmins elem
live_xmins-nil objects [] h = refl
live_xmins-nil objects (u ∷ us) h =
    let rest = live_xmins-nil objects us (λ v tx runs. h v tx (ground (arith, runs))) in
    ap (λ xs. xmins_at (Dict.get u objects) ++ xs) rest
    ∙ (elim (Option-cases (Dict.get u objects)) [
      | inl e ↦ ap (λ o. xmins_at o ++ []) e
      | inr (tx, e) ↦
          ap (λ o. xmins_at o ++ []) e ∙ ap (λ o. xmins_of o ++ []) (h u tx (ground arith) e)
    ])

-- Where no running transaction has taken a snapshot, the horizon of vacuum is above every running
-- transaction: a version that one of them has deleted, and may give back, counts as dead.
pub is_dead-running :
    (m : TransactionManager) (t xmin : ℕ)
    → IsSound m
    → elem t m.running ≡ true
    → ((u : ℕ) (tx : Transaction)
        → elem u m.running ≡ true
        → Dict.get u m.objects ≡ some tx
        → tx.snapshot ≡ none)
    → is_dead (record { xmin = xmin; xmax = t }) (oldest_snapshot_xmin m) ≡ true
unfolding is_dead oldest_snapshot_xmin min_or
is_dead-running m t xmin s runs none_looked =
    let (tx, (at, _)) = s.owners t runs in
    let given = (s.states t tx at).1.0 in
    let real = (s.ids.1.1 t runs).1 in
    simp (live_xmins-nil m.objects m.running none_looked) (ground (arith, given, real))

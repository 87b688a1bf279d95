-- ===== src/Transaction/Manager/Steps.antt =====
-- Every operation of the manager keeps its dictionaries in agreement.
use Prim.Native.String.{String}
use chen_db.Prelude.{
  ℕ, ◌≡◌, refl, sym, ap, ◌∙◌, inl, inr, Bool, true, false, not, Option, none, some, List, arith,
  ◌==◌, if-both, nat_eq, string_eq, Bool-cases, Option-cases, some-injective,
}
use chen_db.Prelude.Dict
use chen_db.Prelude.Dict.{Dict}
use chen_db.Prelude.Sets.{elem, elem-append_one}
use chen_db.Prelude.Result.{Result, ok, err}
use chen_db.Concurrency.Snapshot.{IsolationLevel, Snapshot}
use chen_db.Transaction.Undo.{has}
use chen_db.Transaction.Undo.Rollback.{PageMap}
use chen_db.Transaction.Manager.{
  Transaction, TransactionManager, TransactionError, WriteIntent, new_transaction, is_open,
  is_failed, is_active, failed, active_in, store, begin_over, begin, snapshot_for, snapshot_or_new,
  kept, fail_over, mark_failed, commit_over, commit, rollback_over, rollback, before_write,
  write_over,
}
use chen_db.Transaction.Manager.Sound.{
  IsSound, get-store_same, get-store_other, store-IsSound, retire-IsSound,
}

-- What is known of the transaction that a session has open.
abbrev IsActiveIn : String → TransactionManager → Transaction → Type 0
IsActiveIn session m t =
    (Dict.get t.transaction_id m.objects ≡ some t)
    × ((Dict.get session m.by_session ≡ some t.transaction_id)
        × ((t.session ≡ session) × (is_open t.state ≡ true)))

active_in-IsActiveIn :
    (session : String) (m : TransactionManager) (t : Transaction)
    → IsSound m
    → active_in session m ≡ some t
    → IsActiveIn session m t
active_in-IsActiveIn session m t s h = elim (Option-cases (Dict.get session m.by_session)) [
  | inl e ↦ absurd (ground (arith, e, h))
  | inr (u, e) ↦
      let (tx, (at, (mine, runs))) = s.sessions session u e in
      let here : Dict.get u m.objects ≡ some t = ground (arith, e, h) in
      let q : tx ≡ t = some-injective tx t (sym at ∙ here) in
      let (id, (given, state)) = s.states u t here in
      (
        ap (λ x. Dict.get x m.objects) id ∙ here,
        (e ∙ ap some (sym id), (sym (ap (λ x. x.session) q) ∙ mine, sym state ∙ runs)),
      )
]

active_in-none :
    (session : String) (m : TransactionManager)
    → IsSound m
    → active_in session m ≡ none
    → Dict.get session m.by_session ≡ none
active_in-none session m s h = elim (Option-cases (Dict.get session m.by_session)) [
  | inl e ↦ e
  | inr (u, e) ↦ let (tx, (at, _)) = s.sessions session u e in absurd (ground (arith, e, at, h))
]

-- Changing the open transaction of a session in place.
change-IsSound :
    (session : String) (m : TransactionManager) (t t' : Transaction)
    → IsSound m
    → active_in session m ≡ some t
    → t'.transaction_id ≡ t.transaction_id
    → t'.session ≡ t.session
    → is_open t'.state ≡ is_open t.state
    → IsSound (store t' m)
change-IsSound session m t t' s h id ses state =
    store-IsSound t t' m
      (ap (λ x. Dict.get x m.objects) id ∙ (active_in-IsActiveIn session m t s h).0) ses state s

fail_over-IsSound :
    (session : String) (m : TransactionManager) (o : Option Transaction)
    → active_in session m ≡ o
    → IsSound m
    → IsSound (fail_over m o)
unfolding fail_over
fail_over-IsSound session m none h s = s
fail_over-IsSound session m (some t) h s =
    if-both IsSound (is_active t.state) _ _
      (λ a.
        change-IsSound session m t (record t { state = failed }) s h refl refl
          (sym (active_in-IsActiveIn session m t s h).1.1.1))
      (λ _. s)

-- A statement that fails keeps the manager sound.
pub mark_failed-IsSound :
    (session : String) (m : TransactionManager) → IsSound m → IsSound (mark_failed session m)
unfolding mark_failed
mark_failed-IsSound session m s = fail_over-IsSound session m (active_in session m) refl s

-- What a method returns is sound, if it returns.
abbrev Leaves : Result TransactionError (Transaction × TransactionManager) → Type 0
Leaves (err e) = Unit
Leaves (ok (t, m)) = IsSound m

commit_over-Leaves :
    (session : String) (m : TransactionManager) (o : Option Transaction)
    → active_in session m ≡ o
    → IsSound m
    → Leaves (commit_over m o)
unfolding commit_over
commit_over-Leaves session m none h s = tt
commit_over-Leaves session m (some t) h s =
    let (at, (refers, (mine, runs))) = active_in-IsActiveIn session m t s h in
    if-both Leaves (is_failed t.state) _ _ (λ _. tt)
      (λ _. retire-IsSound t _ m at (ap (λ x. Dict.get x m.by_session) mine ∙ refers) refl refl s)

-- A commit that is accepted keeps the manager sound.
pub commit-IsSound :
    (session : String) (m m' : TransactionManager) (t : Transaction)
    → commit session m ≡ ok (t, m')
    → IsSound m
    → IsSound m'
unfolding commit
commit-IsSound session m m' t e s =
    rw e at (commit_over-Leaves session m (active_in session m) refl s)

-- The same of a rollback.
abbrev LeavesBack : Result TransactionError (Transaction × (PageMap × TransactionManager)) → Type 0
LeavesBack (err e) = Unit
LeavesBack (ok (t, (pages, m))) = IsSound m

rollback_over-LeavesBack :
    (session : String) (pages : PageMap) (m : TransactionManager) (o : Option Transaction)
    → active_in session m ≡ o
    → IsSound m
    → LeavesBack (rollback_over pages m o)
unfolding rollback_over
rollback_over-LeavesBack session pages m none h s = tt
rollback_over-LeavesBack session pages m (some t) h s =
    let (at, (refers, (mine, runs))) = active_in-IsActiveIn session m t s h in
    retire-IsSound t _ m at (ap (λ x. Dict.get x m.by_session) mine ∙ refers) refl refl s

-- A rollback keeps the manager sound.
pub rollback-IsSound :
    (session : String) (pages pages' : PageMap) (m m' : TransactionManager) (t : Transaction)
    → rollback session pages m ≡ ok (t, (pages', m'))
    → IsSound m
    → IsSound m'
unfolding rollback
rollback-IsSound session pages pages' m m' t e s =
    rw e at (rollback_over-LeavesBack session pages m (active_in session m) refl s)

begin_over-Leaves :
    (implicit : Bool) (session : String) (isolation : IsolationLevel) (m : TransactionManager)
    (o : Option Transaction)
    → active_in session m ≡ o
    → IsSound m
    → Leaves (begin_over implicit session isolation m o)
unfolding begin_over
begin_over-Leaves implicit session isolation m (some t) h s =
    if-both Leaves implicit _ _ (λ _. s)
      (λ _.
        if-both Leaves (not t.implicit) _ _ (λ _. tt)
          (λ _. change-IsSound session m t (record t { implicit = false }) s h refl refl refl))
begin_over-Leaves implicit session isolation m none h s =
    let none_open = active_in-none session m s h in
    let new = new_transaction m.next_id implicit session isolation in
    let unused : elem m.next_id m.running ≡ false = elim (Bool-cases (elem m.next_id m.running)) [
      | inr e ↦ e
      | inl e ↦
          let (tx, (at, _)) = s.owners m.next_id e in
          let (_, (given, _)) = s.states m.next_id tx at in absurd (omega (arith, given))
    ] in
    let old_id : (u : ℕ) → elem u m.running ≡ true → (m.next_id == u) ≡ false = λ u runs.
      elim (Bool-cases (m.next_id == u)) [
        | inr a ↦ a
        | inl a ↦
            let q : m.next_id ≡ u = ground (arith, a) in
            absurd (ground (arith, runs, unused, ap (λ x. elem x m.running) q))
      ] in
    record {
      sessions = λ ses u e.
          let written = sym (Dict.get-put session ses m.next_id m.by_session) ∙ e in
          elim (Bool-cases (string_eq.beq session ses)) [
            | inl same ↦
                let u_is : m.next_id ≡ u = ground (arith, written, same) in
                (
                  new,
                  (
                    get-store_same new u m.objects (ground (arith, u_is)),
                    (
                      (string_eq.beq_iff session ses).0 same,
                      ground (arith, u_is, elem-append_one u m.next_id m.running),
                    ),
                  ),
                )
            | inr other ↦
                let (tx, (at, (mine, runs))) = s.sessions ses u (ground (arith, written, other)) in
                let apart : (m.next_id == u) ≡ false = old_id u runs in
                (
                  tx,
                  (
                    get-store_other new u m.objects apart ∙ at,
                    (mine, ground (arith, runs, elem-append_one u m.next_id m.running)),
                  ),
                )
          ];
      owners = λ u e. elim (Bool-cases (m.next_id == u)) [
        | inl same ↦
            let seen : Dict.get session (Dict.put session m.next_id m.by_session) ≡ some m.next_id =
              Dict.get-put session session m.next_id m.by_session
              ∙ (simp ((string_eq.beq_iff session session).1 refl)) in
            (new, (get-store_same new u m.objects same, ground (arith, same, seen)))
        | inr other ↦
            let runs : elem u m.running ≡ true =
              ground (arith, e, other, elem-append_one u m.next_id m.running) in
            let (tx, (at, its)) = s.owners u runs in
            let apart : string_eq.beq session tx.session ≡ false =
              elim (Bool-cases (string_eq.beq session tx.session)) [
                | inr a ↦ a
                | inl a ↦
                    let q = (string_eq.beq_iff session tx.session).0 a in
                    absurd
                      (ground (arith, sym none_open ∙ ap (λ x. Dict.get x m.by_session) q ∙ its))
              ] in
            (
              tx,
              (
                get-store_other new u m.objects other ∙ at,
                Dict.get-put session tx.session m.next_id m.by_session ∙ (simp apart) ∙ its,
              ),
            )
      ];
      states = λ u tx e. elim (Bool-cases (m.next_id == u)) [
        | inl same ↦
            let q : new ≡ tx =
              some-injective new tx (sym (get-store_same new u m.objects same) ∙ e) in
            let u_is : m.next_id ≡ u = ground (arith, same) in
            (
              ap (λ x. x.transaction_id) (sym q) ∙ u_is,
              (
                omega (arith, u_is),
                ground (arith, same, elem-append_one u m.next_id m.running)
                    ∙ ap (λ x. is_open x.state) q,
              ),
            )
        | inr other ↦
            let (id, (given, runs)) =
              s.states u tx (sym (get-store_other new u m.objects other) ∙ e) in
            (
              id,
              (
                omega (arith, given),
                ground (arith, other, elem-append_one u m.next_id m.running) ∙ runs,
              ),
            )
      ];
      ids = (
        omega (arith, s.ids.0),
        (
          omega arith,
          λ u e. elim (Bool-cases (m.next_id == u)) [
            | inl same ↦ (ground (arith, same, s.ids.0), ground (arith, same, s.ids.1.0))
            | inr other ↦
                s.ids.1.1 u (ground (arith, e, other, elem-append_one u m.next_id m.running))
          ],
        ),
      );
    }

-- Opening a transaction keeps the manager sound, whether a new one is opened, the session's own is
-- handed back, or an implicit one is adopted.
pub begin-IsSound :
    (implicit : Bool) (session : String) (isolation : IsolationLevel) (m m' : TransactionManager)
    (t : Transaction)
    → begin implicit session isolation m ≡ ok (t, m')
    → IsSound m
    → IsSound m'
unfolding begin
begin-IsSound implicit session isolation m m' t e s =
    rw e at (begin_over-Leaves implicit session isolation m (active_in session m) refl s)

write_over-IsSound :
    (page_id : ℕ) (image : List ℕ) (session : String) (m : TransactionManager)
    (o : Option Transaction)
    → active_in session m ≡ o
    → IsSound m
    → IsSound (write_over page_id image m o).1
unfolding write_over
write_over-IsSound page_id image session m none h s = s
write_over-IsSound page_id image session m (some t) h s =
    if-both (λ (x : Option WriteIntent × TransactionManager). IsSound x.1) (has page_id t.undo) _ _
      (λ _. change-IsSound session m t _ s h refl refl refl)
      (λ _. change-IsSound session m t _ s h refl refl refl)

-- So does the hook before a page is written.
pub before_write-IsSound :
    (page_id : ℕ) (image : List ℕ) (session : String) (m : TransactionManager)
    → IsSound m
    → IsSound (before_write page_id image session m).1
unfolding before_write
before_write-IsSound page_id image session m s =
    write_over-IsSound page_id image session m (active_in session m) refl s

snapshot_or_new-IsSound :
    (session : String) (m : TransactionManager) (t : Transaction) (o : Option Snapshot)
    → active_in session m ≡ some t
    → IsSound m
    → IsSound (snapshot_or_new t m o).1
unfolding snapshot_or_new
snapshot_or_new-IsSound session m t none h s = change-IsSound session m t _ s h refl refl refl
snapshot_or_new-IsSound session m t (some x) h s = s

-- So does taking the snapshot of the transaction that a session has open.
pub snapshot_for-IsSound :
    (session : String) (m : TransactionManager) (t : Transaction)
    → active_in session m ≡ some t
    → IsSound m
    → IsSound (snapshot_for t m).1
unfolding snapshot_for
snapshot_for-IsSound session m t h s = snapshot_or_new-IsSound session m t (kept t) h s

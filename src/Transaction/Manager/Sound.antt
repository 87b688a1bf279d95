-- ===== src/Transaction/Manager/Sound.antt =====
-- The dictionaries of the manager agree with the transactions that they refer to.
use Prim.Native.String.{String}
use chen_db.Prelude.{
  ℕ, ◌≤◌, ◌<◌, ◌≡◌, sym, ap, ◌∙◌, inl, inr, true, false, some, List, arith, ◌==◌, nat_eq, string_eq,
  Bool-cases, some-injective,
}
use chen_db.Prelude.Dict
use chen_db.Prelude.Dict.{Dict}
use chen_db.Prelude.Sets.{elem, elem-discard}
use chen_db.Transaction.Manager.{Transaction, TransactionManager, is_open, store, retire}

module _ (objects : Dict ℕ Transaction) (by_session : Dict String ℕ) (running : List ℕ)
    (next_id frozen_xid : ℕ) where
  -- A session refers to a transaction of its own, which runs.
  abbrev pub SessionsRun : Type 0
  SessionsRun =
      (s : String) (t : ℕ)
      → Dict.get s by_session ≡ some t
      → (tx : Transaction) × ((Dict.get t objects ≡ some tx)
          × ((tx.session ≡ s) × (elem t running ≡ true)))

  -- A transaction that runs is the one of its session.
  abbrev pub RunningHaveSessions : Type 0
  RunningHaveSessions =
      (t : ℕ)
      → elem t running ≡ true
      → (tx : Transaction) × ((Dict.get t objects ≡ some tx)
          × (Dict.get tx.session by_session ≡ some t))

  -- A transaction is kept under its id, has been given out, and runs as long as its state is open.
  abbrev pub StatesAgree : Type 0
  StatesAgree =
      (t : ℕ) (tx : Transaction)
      → Dict.get t objects ≡ some tx
      → (tx.transaction_id ≡ t) × ((t < next_id) × (elem t running ≡ is_open tx.state))

  -- No running transaction is frozen.
  abbrev pub NoneFrozen : Type 0
  NoneFrozen =
      (frozen_xid ≤ next_id)
      × ((1 ≤ next_id) × ((t : ℕ) → elem t running ≡ true → (frozen_xid ≤ t) × (1 ≤ t)))

-- The manager's dictionaries agree.
pub record IsSound (m : TransactionManager) : Type 0 where
  pub sessions : SessionsRun m.objects m.by_session m.running m.next_id m.frozen_xid
  pub owners : RunningHaveSessions m.objects m.by_session m.running m.next_id m.frozen_xid
  pub states : StatesAgree m.objects m.by_session m.running m.next_id m.frozen_xid
  pub ids : NoneFrozen m.objects m.by_session m.running m.next_id m.frozen_xid

-- What an object is after one of them is written.
pub get-store_same :
    (t : Transaction) (u : ℕ) (objects : Dict ℕ Transaction)
    → (t.transaction_id == u) ≡ true
    → Dict.get u (Dict.put t.transaction_id t objects) ≡ some t
get-store_same t u objects same = Dict.get-put t.transaction_id u t objects ∙ (simp same)

pub get-store_other :
    (t : Transaction) (u : ℕ) (objects : Dict ℕ Transaction)
    → (t.transaction_id == u) ≡ false
    → Dict.get u (Dict.put t.transaction_id t objects) ≡ Dict.get u objects
get-store_other t u objects other = Dict.get-put t.transaction_id u t objects ∙ (simp other)

-- Changing a transaction in place keeps the manager sound, where its id, its session and whether it
-- is open stay as they are.
pub store-IsSound :
    (old t : Transaction) (m : TransactionManager)
    → Dict.get t.transaction_id m.objects ≡ some old
    → t.session ≡ old.session
    → is_open t.state ≡ is_open old.state
    → IsSound m
    → IsSound (store t m)
store-IsSound old t m here session state s =
    let id = t.transaction_id in
    let at : (u : ℕ) → (id == u) ≡ true → Dict.get u m.objects ≡ some old =
      λ u same. ap (λ x. Dict.get x m.objects) (sym ((nat_eq.beq_iff id u).0 same)) ∙ here in
    record {
      sessions = λ ses u h.
          let (tx, (e, (mine, runs))) = s.sessions ses u h in
          elim (Bool-cases (id == u)) [
            | inl same ↦
                let q : tx ≡ old = some-injective tx old (sym e ∙ at u same) in
                (
                  t,
                  (
                    get-store_same t u m.objects same,
                    (session ∙ ap (λ x. x.session) (sym q) ∙ mine, runs),
                  ),
                )
            | inr other ↦ (tx, (get-store_other t u m.objects other ∙ e, (mine, runs)))
          ];
      owners = λ u h.
          let (tx, (e, its)) = s.owners u h in
          elim (Bool-cases (id == u)) [
            | inl same ↦
                let q : tx ≡ old = some-injective tx old (sym e ∙ at u same) in
                (
                  t,
                  (
                    get-store_same t u m.objects same,
                    ap (λ x. Dict.get x m.by_session) (session ∙ ap (λ x. x.session) (sym q)) ∙ its,
                  ),
                )
            | inr other ↦ (tx, (get-store_other t u m.objects other ∙ e, its))
          ];
      states = λ u tx h. elim (Bool-cases (id == u)) [
        | inl same ↦
            let q : t ≡ tx = some-injective t tx (sym (get-store_same t u m.objects same) ∙ h) in
            let (_, (given, runs)) = s.states u old (at u same) in
            (
              ap (λ x. x.transaction_id) (sym q) ∙ (nat_eq.beq_iff id u).0 same,
              (given, runs ∙ sym state ∙ ap (λ x. is_open x.state) q),
            )
        | inr other ↦ s.states u tx (sym (get-store_other t u m.objects other) ∙ h)
      ];
      ids = s.ids;
    }

-- Taking a closed transaction out of the dictionaries keeps the manager sound.
pub retire-IsSound :
    (old done : Transaction) (m : TransactionManager)
    → Dict.get done.transaction_id m.objects ≡ some old
    → Dict.get done.session m.by_session ≡ some done.transaction_id
    → done.session ≡ old.session
    → is_open done.state ≡ false
    → IsSound m
    → IsSound (retire done (store done m))
unfolding retire
retire-IsSound old done m here refers session closed s =
    let id = done.transaction_id in
    let unlike : (tx : Transaction) (u : ℕ)
        → Dict.get u m.objects ≡ some tx
        → Dict.get tx.session m.by_session ≡ some u
        → (id == u) ≡ false
        → string_eq.beq done.session tx.session ≡ false =
      λ tx u e its other. elim (Bool-cases (string_eq.beq done.session tx.session)) [
        | inr apart ↦ apart
        | inl same ↦
            let q = (string_eq.beq_iff done.session tx.session).0 same in
            absurd (ground (arith, other, sym refers ∙ ap (λ x. Dict.get x m.by_session) q ∙ its))
      ] in
    record {
      sessions = λ ses u h.
          let removed = sym (Dict.get-remove done.session ses m.by_session) ∙ h in
          let apart : string_eq.beq done.session ses ≡ false = ground (arith, removed) in
          let (tx, (e, (mine, runs))) = s.sessions ses u (ground (arith, removed, apart)) in
          let other : (id == u) ≡ false = elim (Bool-cases (id == u)) [
            | inr h ↦ h
            | inl same ↦
                let u_is = (nat_eq.beq_iff id u).0 same in
                let q : tx ≡ old =
                  some-injective tx old
                    (sym e ∙ ap (λ x. Dict.get x m.objects) (sym u_is) ∙ here) in
                let mine_too : done.session ≡ ses = session ∙ ap (λ x. x.session) (sym q) ∙ mine in
                absurd (ground (arith, apart, (string_eq.beq_iff done.session ses).1 mine_too))
          ] in
          (
            tx,
            (
              get-store_other done u m.objects other ∙ e,
              (mine, elem-discard id u m.running ∙ (simp other) ∙ runs),
            ),
          );
      owners = λ u h.
          let runs : elem u m.running ≡ true = ground (arith, h, elem-discard id u m.running) in
          let other : (id == u) ≡ false = ground (arith, h, elem-discard id u m.running) in
          let (tx, (e, its)) = s.owners u runs in
          (
            tx,
            (
              get-store_other done u m.objects other ∙ e,
              Dict.get-remove done.session tx.session m.by_session
                  ∙ (simp (unlike tx u e its other))
                  ∙ its,
            ),
          );
      states = λ u tx h. elim (Bool-cases (id == u)) [
        | inl same ↦
            let q : done ≡ tx =
              some-injective done tx (sym (get-store_same done u m.objects same) ∙ h) in
            let u_is = (nat_eq.beq_iff id u).0 same in
            let (_, (given, runs)) = s.states id old here in
            (
              ap (λ x. x.transaction_id) (sym q) ∙ u_is,
              (
                ground (arith, given, u_is),
                elem-discard id u m.running
                    ∙ (simp same)
                    ∙ sym closed
                    ∙ ap (λ x. is_open x.state) q,
              ),
            )
        | inr other ↦
            let (kept, (given, runs)) =
              s.states u tx (sym (get-store_other done u m.objects other) ∙ h) in
            (kept, (given, elem-discard id u m.running ∙ (simp other) ∙ runs))
      ];
      ids = (
        s.ids.0,
        (s.ids.1.0, λ u h. s.ids.1.1 u (ground (arith, h, elem-discard id u m.running))),
      );
    }

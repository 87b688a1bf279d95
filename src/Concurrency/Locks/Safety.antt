-- ===== src/Concurrency/Locks/Safety.antt =====
-- Who holds what: the table agrees with the locks of each transaction, and no two
-- transactions hold locks that exclude each other.
use chen_db.Prelude.{
  ℕ, ◌+◌, ◌≡◌, ◌≢◌, refl, sym, ap, ◌∙◌, inl, inr, true, ◌&&◌, Option, some, [], ◌∷◌, arith, leb,
  ◌==◌, if◌then◌else◌, length, nat_eq, string_eq, Bool-cases,
}
use chen_db.Prelude.Dict
use chen_db.Prelude.Dict.{Dict}
use chen_db.Concurrency.Locks.Table.{
  LockMode, shared, exclusive, compatible, ResourceId, LockRequest, LockTableEntry, conflicting,
  conflicts_with, LockManager, max_locks_per_transaction, entry_or_empty, entry_at, held_of,
  locks_or_none, grant,
}

-- The mode in which the table says that a transaction holds a resource.
abbrev pub holder_in : ResourceId → ℕ → Dict ResourceId LockTableEntry → Option LockMode
holder_in r t table = Dict.get t (entry_or_empty (Dict.get r table)).holders

-- The mode in which the transaction's own dictionary says so.
abbrev pub holding_in : ResourceId → ℕ → Dict ℕ (Dict ResourceId LockMode) → Option LockMode
holding_in r t held_by = Dict.get r (locks_or_none (Dict.get t held_by))

-- The two agree.
abbrev pub IsMirrored : LockManager → Type 0
IsMirrored m = (r : ResourceId) (t : ℕ) → holder_in r t m.table ≡ holding_in r t m.held_by

-- Two transactions that hold one resource hold it in modes that go together.
abbrev pub IsExclusive : LockManager → Type 0
IsExclusive m =
    (r : ResourceId) (t u : ℕ) (a b : LockMode)
    → holder_in r t m.table ≡ some a
    → holder_in r u m.table ≡ some b
    → t ≢ u
    → compatible a b ≡ true

abbrev pub IsSound : LockManager → Type 0
IsSound m = IsMirrored m × IsExclusive m

-- Writing an entry is seen at its resource only.
pub holder_in-put :
    (r s : ResourceId) (t : ℕ) (entry : LockTableEntry) (table : Dict ResourceId LockTableEntry)
    → holder_in s t (Dict.put r entry table)
      ≡ (if string_eq.beq r s then Dict.get t entry.holders else holder_in s t table)
holder_in-put r s t entry table = elim (Bool-cases (string_eq.beq r s)) [
  | inl same ↦ simp (Dict.get-put r s entry table, same)
  | inr other ↦ simp (Dict.get-put r s entry table, other)
]

-- An entry with the holders of the one it replaces changes nobody's lock.
pub holder_in-keeps :
    (r s : ResourceId) (t : ℕ) (entry : LockTableEntry) (table : Dict ResourceId LockTableEntry)
    → entry.holders ≡ (entry_or_empty (Dict.get r table)).holders
    → holder_in s t (Dict.put r entry table) ≡ holder_in s t table
holder_in-keeps r s t entry table h = elim (Bool-cases (string_eq.beq r s)) [
  | inl same ↦
      let q : r ≡ s = (string_eq.beq_iff r s).0 same in
      holder_in-put r s t entry table
      ∙ (simp same)
      ∙ ap (Dict.get t) h
      ∙ ap (λ x. holder_in x t table) q
  | inr other ↦ holder_in-put r s t entry table ∙ (simp other)
]

-- The same locks are held.
abbrev pub SameLocks : LockManager → LockManager → Type 0
SameLocks m m' =
    ((r : ResourceId) (t : ℕ) → holder_in r t m'.table ≡ holder_in r t m.table)
    × ((r : ResourceId) (t : ℕ) → holding_in r t m'.held_by ≡ holding_in r t m.held_by)

pub SameLocks-IsSound : (m m' : LockManager) → SameLocks m m' → IsSound m → IsSound m'
SameLocks-IsSound m m' (table, held) (mirror, apart) = (
  λ r t. table r t ∙ mirror r t ∙ sym (held r t),
  λ r t u a b ha hb. apart r t u a b (sym (table r t) ∙ ha) (sym (table r u) ∙ hb),
)

-- Where nobody stands in the way, every other holder's mode goes with the wanted one.
pub conflicting-compatible :
    (t u : ℕ) (mode held : LockMode) (holders : Dict ℕ LockMode)
    → conflicting t mode holders ≡ []
    → Dict.get u holders ≡ some held
    → t ≢ u
    → compatible held mode ≡ true
unfolding conflicting Dict.get
conflicting-compatible t u mode held [] none_left h other = absurd (ground arith)
conflicting-compatible t u mode held ((v, a) ∷ rest) none_left h other =
    ground (arith, conflicting-compatible t u mode held rest)

-- Writing the locks of a transaction is seen at that transaction only.
pub holding_in-put :
    (t u : ℕ) (s : ResourceId) (held : Dict ResourceId LockMode)
    (held_by : Dict ℕ (Dict ResourceId LockMode))
    → holding_in s u (Dict.put t held held_by)
      ≡ (if t == u then Dict.get s held else holding_in s u held_by)
holding_in-put t u s held held_by = elim (Bool-cases (t == u)) [
  | inl same ↦ simp (Dict.get-put t u held held_by, same)
  | inr other ↦ simp (Dict.get-put t u held held_by, other)
]

-- Writing back what is there changes nothing.
holding_in-same :
    (t u : ℕ) (s : ResourceId) (held_by : Dict ℕ (Dict ResourceId LockMode))
    → holding_in s u (Dict.put t (locks_or_none (Dict.get t held_by)) held_by)
      ≡ holding_in s u held_by
holding_in-same t u s held_by = elim (Bool-cases (t == u)) [
  | inl same ↦
      let q : t ≡ u = (nat_eq.beq_iff t u).0 same in
      holding_in-put t u s _ held_by ∙ (simp same) ∙ ap (λ x. holding_in s x held_by) q
  | inr other ↦ holding_in-put t u s _ held_by ∙ (simp other)
]

-- The state that a grant leaves where the transaction is below its limit.
unfoldable pub granted : ResourceId → LockRequest → LockManager → LockManager
granted r request m =
    let t = request.transaction_id in
    let entry = entry_at r m in
    record m {
      table = Dict.put r (record entry { holders = Dict.put t request.mode entry.holders }) m.table;
      held_by = Dict.put t (Dict.put r request.mode (held_of t m)) m.held_by;
      stats = record (m.stats) { granted = m.stats.granted + 1 };
    }

-- A grant adds one lock to what is held, in the table.
granted-holder :
    (r s : ResourceId) (u : ℕ) (request : LockRequest) (m : LockManager)
    → holder_in s u (granted r request m).table ≡ (
        if string_eq.beq r s && request.transaction_id == u
        then some request.mode
        else holder_in s u m.table)
unfolding granted
granted-holder r s u request m = elim (Bool-cases (string_eq.beq r s)) [
  | inl same ↦
      let q : r ≡ s = (string_eq.beq_iff r s).0 same in
      holder_in-put r s u _ m.table
      ∙ (simp (same, Dict.get-put request.transaction_id u request.mode (entry_at r m).holders))
      ∙ ap (λ x. if request.transaction_id == u then some request.mode else holder_in x u m.table) q
      ∙ (simp same)
  | inr other ↦ holder_in-put r s u _ m.table ∙ (simp other)
]

-- And in the transaction's own dictionary.
granted-holding :
    (r s : ResourceId) (u : ℕ) (request : LockRequest) (m : LockManager)
    → holding_in s u (granted r request m).held_by ≡ (
        if string_eq.beq r s && request.transaction_id == u
        then some request.mode
        else holding_in s u m.held_by)
unfolding granted
granted-holding r s u request m = elim (Bool-cases (request.transaction_id == u)) [
  | inl same ↦
      let t = request.transaction_id in
      let q : t ≡ u = (nat_eq.beq_iff t u).0 same in
      holding_in-put t u s (Dict.put r request.mode (held_of t m)) m.held_by
      ∙ (simp (same, Dict.get-put r s request.mode (held_of t m)))
      ∙ ap (λ x. if string_eq.beq r s then some request.mode else holding_in s x m.held_by) q
      ∙ (elim (Bool-cases (string_eq.beq r s)) [ inl h ↦ simp (h, same) | inr h ↦ simp (h, same) ])
  | inr other ↦
      holding_in-put request.transaction_id u s _ m.held_by
      ∙ (elim (Bool-cases (string_eq.beq r s)) [
        | inl h ↦ simp (h, other)
        | inr h ↦ simp (h, other)
      ])
]

compatible_sym : (a b : LockMode) → compatible a b ≡ compatible b a
unfolding compatible
compatible_sym shared shared = refl
compatible_sym shared exclusive = refl
compatible_sym exclusive shared = refl
compatible_sym exclusive exclusive = refl

granted-IsMirrored :
    (r : ResourceId) (request : LockRequest) (m : LockManager)
    → IsMirrored m
    → IsMirrored (granted r request m)
granted-IsMirrored r request m mirror s u =
    granted-holder r s u request m
    ∙ ap (λ x. if string_eq.beq r s && request.transaction_id == u then some request.mode else x)
        (mirror s u)
    ∙ sym (granted-holding r s u request m)

granted-IsExclusive :
    (r : ResourceId) (request : LockRequest) (m : LockManager)
    → conflicts_with (entry_at r m) request.transaction_id request.mode ≡ []
    → IsExclusive m
    → IsExclusive (granted r request m)
granted-IsExclusive r request m free apart s u v a b ha hb other =
    let t = request.transaction_id in
    let mode = request.mode in
    let ga = sym (granted-holder r s u request m) ∙ ha in
    let gb = sym (granted-holder r s v request m) ∙ hb in
    elim (Bool-cases (string_eq.beq r s)) [
      | inr elsewhere ↦
          apart s u v a b (ground (arith, ga, elsewhere)) (ground (arith, gb, elsewhere)) other
      | inl same ↦
          let q : r ≡ s = (string_eq.beq_iff r s).0 same in
          let at : (w : ℕ) → holder_in r w m.table ≡ holder_in s w m.table =
            λ w. ap (λ x. holder_in x w m.table) q in
          elim (Bool-cases (t == u)) [
            | inl mine ↦ elim (Bool-cases (t == v)) [
              | inl both ↦ absurd (other (ground (arith, mine, both)))
              | inr theirs ↦
                  compatible_sym a b
                  ∙ ap (compatible b) (ground (arith, ga, same, mine))
                  ∙ conflicting-compatible t v mode b (entry_at r m).holders free
                      (at v ∙ ground (arith, gb, same, theirs)) (ground (arith, theirs))
            ]
            | inr yours ↦ elim (Bool-cases (t == v)) [
              | inl mine ↦
                  ap (compatible a) (ground (arith, gb, same, mine))
                  ∙ conflicting-compatible t u mode a (entry_at r m).holders free
                      (at u ∙ ground (arith, ga, same, yours)) (ground (arith, yours))
              | inr neither ↦
                  apart s u v a b (ground (arith, ga, same, yours))
                    (ground (arith, gb, same, neither)) other
            ]
          ]
    ]

pub grant-IsSound :
    (r : ResourceId) (request : LockRequest) (m : LockManager)
    → conflicts_with (entry_at r m) request.transaction_id request.mode ≡ []
    → IsSound m
    → IsSound (grant r request m).1
unfolding grant granted
grant-IsSound r request m free (mirror, apart) =
    elim (Bool-cases (leb max_locks_per_transaction (length (held_of request.transaction_id m)))) [
      | inl full ↦ simp full (
          SameLocks-IsSound m
            (record m {
              held_by =
                  Dict.put request.transaction_id (held_of request.transaction_id m) m.held_by;
            })
            ((λ s u. refl), (λ s u. holding_in-same request.transaction_id u s m.held_by))
            (mirror, apart))
      | inr room ↦
          simp room
            (granted-IsMirrored r request m mirror, granted-IsExclusive r request m free apart)
    ]

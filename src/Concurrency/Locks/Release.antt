-- ===== src/Concurrency/Locks/Release.antt =====
-- The end of a transaction frees all of its locks, and no other.
use chen_db.Prelude.{
  ℕ, ◌≡◌, ◌≢◌, refl, sym, ap, ◌∙◌, inl, inr, true, ◌&&◌, Option, none, some, [], ◌∷◌, arith, ◌==◌,
  if◌then◌else◌, nat_eq, string_eq, is_some, if_same, if-both, Bool-cases, Option-cases,
}
use chen_db.Prelude.Dict
use chen_db.Prelude.Dict.{Dict}
use chen_db.Concurrency.Locks.Table.{
  LockMode, ResourceId, LockTableEntry, LockManager, is_nil, entry_or_empty, held_of,
}
use chen_db.Concurrency.Locks.Acquire.{release_entry, release_one, release_each, release_all}
use chen_db.Concurrency.Locks.Safety.{holder_in, holding_in, IsSound, IsMirrored, holder_in-put}

holder_in-remove :
    (r s : ResourceId) (u : ℕ) (table : Dict ResourceId LockTableEntry)
    → holder_in s u (Dict.remove r table)
      ≡ (if string_eq.beq r s then none else holder_in s u table)
unfolding Dict.get
holder_in-remove r s u table = elim (Bool-cases (string_eq.beq r s)) [
  | inl same ↦ simp (Dict.get-remove r s table, same)
  | inr other ↦ simp (Dict.get-remove r s table, other)
]

-- A transaction that is the last one on an entry leaves no holder behind.
is_nil-get : (u : ℕ) (holders : Dict ℕ LockMode) → is_nil holders ≡ true → Dict.get u holders ≡ none
unfolding Dict.get
is_nil-get u [] h = refl
is_nil-get u (x ∷ xs) h = absurd (ground (arith, h))

release_entry-holder :
    (t u : ℕ) (r s : ResourceId) (table : Dict ResourceId LockTableEntry)
    (entry : Option LockTableEntry)
    → Dict.get r table ≡ entry
    → holder_in s u (release_entry t r table entry)
      ≡ (if string_eq.beq r s && t == u then none else holder_in s u table)
unfolding release_entry Dict.get
release_entry-holder t u r s table none e = elim (Bool-cases (string_eq.beq r s)) [
  | inr other ↦ simp other
  | inl same ↦
      let q : r ≡ s = (string_eq.beq_iff r s).0 same in
      let empty : Dict.get s table ≡ none = ap (λ x. Dict.get x table) (sym q) ∙ e in
      simp (empty, if_same {A = Option LockMode} (string_eq.beq r s && t == u) none none refl)
]
release_entry-holder t u r s table (some entry) e =
    let holders = Dict.remove t entry.holders in
    let left : Dict.get u holders ≡ (if t == u then none else Dict.get u entry.holders) =
      Dict.get-remove t u entry.holders in
    let old : string_eq.beq r s ≡ true → holder_in s u table ≡ Dict.get u entry.holders = λ same.
      ap (λ x. holder_in x u table) (sym ((string_eq.beq_iff r s).0 same))
      ∙ ap (λ o. Dict.get u (entry_or_empty o).holders) e in
    if-both
      (λ (d : Dict ResourceId LockTableEntry).
        holder_in s u d ≡ (if string_eq.beq r s && t == u then none else holder_in s u table))
      (is_nil holders && is_nil entry.waiters) _ _
      (λ none_left.
        holder_in-remove r s u table ∙ ground (arith, old, left, is_nil-get u holders, none_left))
      (λ _. holder_in-put r s u _ table ∙ ground (arith, old, left))

-- What is left of a resource after one transaction has let go of it.
release_one-holder :
    (t u : ℕ) (r s : ResourceId) (table : Dict ResourceId LockTableEntry)
    → holder_in s u (release_one t r table)
      ≡ (if string_eq.beq r s && t == u then none else holder_in s u table)
unfolding release_one
release_one-holder t u r s table = release_entry-holder t u r s table (Dict.get r table) refl

-- What is left after it has let go of each resource of a list.
release_each-holder :
    (t u : ℕ) (held : Dict ResourceId LockMode) (s : ResourceId)
    (table : Dict ResourceId LockTableEntry)
    → holder_in s u (release_each t held table)
      ≡ (if is_some (Dict.get s held) && t == u then none else holder_in s u table)
unfolding release_each Dict.get
release_each-holder t u [] s table = refl
release_each-holder t u ((r, a) ∷ rest) s table = ground (
  arith,
  release_each-holder t u rest s (release_one t r table),
  release_one-holder t u r s table,
)

release_all-table :
    (t u : ℕ) (s : ResourceId) (m : LockManager)
    → IsMirrored m
    → holder_in s u (release_all t m).1.table ≡ (if t == u then none else holder_in s u m.table)
unfolding release_all
release_all-table t u s m mirror =
    release_each-holder t u (held_of t m) s m.table ∙ (elim (Bool-cases (t == u)) [
      | inr other ↦ elim (Option-cases (Dict.get s (held_of t m))) [
        | inl e ↦ simp (e, other)
        | inr (a, e) ↦ simp (e, other)
      ]
      | inl same ↦
          let q : t ≡ u = (nat_eq.beq_iff t u).0 same in
          let mine : holder_in s u m.table ≡ Dict.get s (held_of t m) =
            ap (λ x. holder_in s x m.table) (sym q) ∙ mirror s t in
          elim (Option-cases (Dict.get s (held_of t m))) [
            | inl e ↦ simp (e, same) (mine ∙ e)
            | inr (a, e) ↦ simp (e, same)
          ]
    ])

release_all-held_by :
    (t u : ℕ) (s : ResourceId) (m : LockManager)
    → holding_in s u (release_all t m).1.held_by
      ≡ (if t == u then none else holding_in s u m.held_by)
unfolding release_all Dict.get
release_all-held_by t u s m = elim (Bool-cases (t == u)) [
  | inl same ↦ simp (Dict.get-remove t u m.held_by, same)
  | inr other ↦ simp (Dict.get-remove t u m.held_by, other)
]

-- The end of a transaction keeps the locks sound, and leaves the transaction holding no resource.
pub release_all-IsSound :
    (t : ℕ) (r : ResourceId) (m : LockManager)
    → IsSound m
    → IsSound (release_all t m).1 × (holder_in r t (release_all t m).1.table ≡ none)
release_all-IsSound t r m (mirror, apart) =
    let table : (s : ResourceId) (u : ℕ)
        → holder_in s u (release_all t m).1.table
          ≡ (if t == u then none else holder_in s u m.table) =
      λ s u. release_all-table t u s m mirror in
    (
      (
        (λ s u.
            table s u
            ∙ ap (λ x. if t == u then none else x) (mirror s u)
            ∙ sym (release_all-held_by t u s m)),
        (λ s u v a b ha hb other.
            let old = apart s u v a b in
            let ga = sym (table s u) ∙ ha in
            let gb = sym (table s v) ∙ hb in ground (arith, old, ga, gb, other)),
      ),
      table r t ∙ ground arith,
    )

-- The end of a transaction takes no lock from another one.
pub release_all-others :
    (t u : ℕ) (r : ResourceId) (m : LockManager)
    → IsSound m
    → t ≢ u
    → holder_in r u (release_all t m).1.table ≡ holder_in r u m.table
release_all-others t u r m s other = release_all-table t u r m s.0 ∙ ground (arith, other)

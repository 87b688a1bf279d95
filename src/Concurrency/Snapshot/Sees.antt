-- ===== src/Concurrency/Snapshot/Sees.antt =====
-- What a snapshot sees, against the transactions that have finished.
use chen_db.Prelude.{
  ℕ, ◌+◌, ◌≤◌, ◌<◌, ◌≡◌, ◌≢◌, refl, inl, inr, Bool, true, not, ◌&&◌, ◌||◌, List, [], ◌∷◌, arith,
  ltb, ◌==◌, Bool-cases,
}
use chen_db.Prelude.Sets.{elem}
use chen_db.Concurrency.Snapshot.{
  TupleHeader, Snapshot, take, sees, min_or, visible, VisibilityStats, note,
}

-- Every running transaction has an id in this range.
abbrev pub Within : ℕ → ℕ → List ℕ → Type 0
Within low high active = (x : ℕ) → elem x active ≡ true → (low ≤ x) × (x < high)

-- A transaction has been given the id and is not running any more.
abbrev pub has_finished : ℕ → List ℕ → ℕ → Bool
has_finished next_xid active xid = not (xid == 0) && (ltb xid next_xid && not (elem xid active))

-- Where no running transaction has an id below the frozen one, and none is frozen that has not been
-- given out, a snapshot sees exactly its owner and the transactions that had finished when it was taken:
-- the frozen id is a shortcut and no more.
pub sees-take :
    (next_xid frozen_xid owner xid : ℕ) (active : List ℕ)
    → Within frozen_xid next_xid active
    → frozen_xid ≤ next_xid
    → sees (take next_xid active frozen_xid owner) xid
      ≡ (not (xid == 0) && ((xid == owner) || has_finished next_xid active xid))
unfolding sees take
sees-take next_xid frozen_xid owner xid active within frozen = ground (arith, within xid)

-- The xmin of a snapshot is no greater than any running id.
min_or-le : (default x : ℕ) (active : List ℕ) → elem x active ≡ true → min_or default active ≤ x
unfolding min_or elem
min_or-le default x [] h = absurd (ground arith)
min_or-le default x (y ∷ []) h = ground (arith, h)
min_or-le default x (y ∷ z ∷ zs) h = ground (arith, h, min_or-le default x (z ∷ zs))

min_or-default :
    (default : ℕ) (active : List ℕ)
    → ((x : ℕ) → elem x active ≡ true → x < default)
    → min_or default active ≤ default
unfolding min_or elem
min_or-default default [] h = omega arith
min_or-default default (y ∷ []) h = let b = h y (ground arith) in omega (arith, b)
min_or-default default (y ∷ z ∷ zs) h = let b = h y (ground arith) in omega (arith, b)

-- Every transaction with an id below the xmin of a snapshot is seen by it: a version that it
-- deleted is wanted by no reader of that snapshot.
pub sees-xmin :
    (next_xid frozen_xid owner xid : ℕ) (active : List ℕ)
    → Within frozen_xid next_xid active
    → xid ≢ 0
    → xid < (take next_xid active frozen_xid owner).xmin
    → sees (take next_xid active frozen_xid owner) xid ≡ true
unfolding sees take
sees-xmin next_xid frozen_xid owner xid active within real below = ground (
  arith,
  below,
  real,
  min_or-le next_xid xid active,
  within xid,
  min_or-default next_xid active (λ x h. (within x h).1),
)

-- A later snapshot of the same owner sees all that an earlier one saw, where ids are only given out
-- upwards and a transaction that had finished does not run again.
pub sees_monotone :
    (next_xid next_xid' frozen_xid owner xid : ℕ) (active active' : List ℕ)
    → Within frozen_xid next_xid active
    → Within frozen_xid next_xid' active'
    → frozen_xid ≤ next_xid
    → next_xid ≤ next_xid'
    → ((x : ℕ) → x < next_xid → elem x active' ≡ true → elem x active ≡ true)
    → sees (take next_xid active frozen_xid owner) xid ≡ true
    → sees (take next_xid' active' frozen_xid owner) xid ≡ true
sees_monotone next_xid next_xid' frozen_xid owner xid active active' within within' frozen up ends
      h =
    ground (
      arith,
      h,
      up,
      ends xid,
      sees-take next_xid frozen_xid owner xid active within frozen,
      sees-take next_xid' frozen_xid owner xid active' within' (omega (arith, up, frozen)),
    )

-- The counting test of a scan gives the verdict of `visible`, counts each row once, and keeps the sum
-- of the three verdicts equal to the rows checked.
pub note-visible :
    (stats : VisibilityStats) (header : TupleHeader) (snapshot : Snapshot)
    → stats.checked ≡ stats.returned + stats.skipped_invisible + stats.skipped_deleted
    → ((note stats header snapshot).0 ≡ visible header snapshot)
      × (((note stats header snapshot).1.checked ≡ stats.checked + 1)
          × ((note stats header snapshot).1.checked
              ≡ (note stats header snapshot).1.returned
                + (note stats header snapshot).1.skipped_invisible
                + (note stats header snapshot).1.skipped_deleted))
unfolding note visible
note-visible stats header snapshot sum = elim (Bool-cases (sees snapshot header.xmin)) [
  | inr unseen ↦ simp unseen (refl, (refl, omega (arith, sum)))
  | inl created ↦ elim (Bool-cases (sees snapshot header.xmax)) [
    | inl deleted ↦ simp (created, deleted) (refl, (refl, omega (arith, sum)))
    | inr live ↦ simp (created, live) (refl, (refl, omega (arith, sum)))
  ]
]

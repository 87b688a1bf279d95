-- ===== src/Concurrency/Snapshot.antt =====
-- engine/concurrency/snapshot.py, and the version header of engine/serialization/record.py that it
-- reads: which versions of a row a snapshot sees. A set of transaction ids is a list, read through
-- its membership test. The text of a snapshot is left out.
pub mod Sees
use chen_db.Prelude.{
  ℕ, ◌+◌, Bool, true, false, not, ◌&&◌, List, [], ◌∷◌, ltb, leb, ◌==◌, if◌then◌else◌, min,
}
use chen_db.Prelude.Sets.{elem}

abbrev pub no_transaction_id : ℕ
no_transaction_id = 0

pub data IsolationLevel : Type 0 where
  read_committed repeatable_read : IsolationLevel

abbrev pub per_statement : IsolationLevel → Bool
per_statement read_committed = true
per_statement repeatable_read = false

pub record TupleHeader : Type 0 where
  pub xmin : ℕ
  pub xmax : ℕ

pub record Snapshot : Type 0 where
  pub xmin : ℕ
  pub xmax : ℕ
  pub active : List ℕ
  pub frozen_xid : ℕ
  pub owner : ℕ

-- `min(running) if running else next_xid`
unfoldable pub min_or : ℕ → List ℕ → ℕ
min_or default [] = default
min_or default (x ∷ []) = x
min_or default (x ∷ y ∷ ys) = min x (min_or default (y ∷ ys))

unfoldable pub take : ℕ → List ℕ → ℕ → ℕ → Snapshot
unfolding min_or
take next_xid active frozen_xid owner = record {
  xmin = min_or next_xid active;
  xmax = next_xid;
  active = active;
  frozen_xid = frozen_xid;
  owner = owner;
}

unfoldable pub sees : Snapshot → ℕ → Bool
sees snapshot xid =
    if xid == no_transaction_id
    then false
    else if xid == snapshot.owner
    then true
    else if ltb xid snapshot.frozen_xid
    then true
    else if leb snapshot.xmax xid
    then false
    else not (elem xid snapshot.active)

unfoldable pub visible : TupleHeader → Snapshot → Bool
visible header snapshot =
    if not (sees snapshot header.xmin) then false else not (sees snapshot header.xmax)

pub record VisibilityStats : Type 0 where
  pub checked : ℕ
  pub returned : ℕ
  pub skipped_invisible : ℕ
  pub skipped_deleted : ℕ

unfoldable pub note : VisibilityStats → TupleHeader → Snapshot → Bool × VisibilityStats
note stats header snapshot =
    let seen = record stats { checked = stats.checked + 1 } in
    if not (sees snapshot header.xmin)
    then (false, record seen { skipped_invisible = seen.skipped_invisible + 1 })
    else if sees snapshot header.xmax
    then (false, record seen { skipped_deleted = seen.skipped_deleted + 1 })
    else (true, record seen { returned = seen.returned + 1 })

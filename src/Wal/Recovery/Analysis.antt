-- ===== src/Wal/Recovery/Analysis.antt =====
-- Analysis finds the transactions that began and did not end.
use chen_db.Prelude.{
  Bool-cases, inl, inr, ℕ, ◌≤◌, ◌≡◌, refl, ◌∙◌, Bool, false, not, ◌&&◌, ◌||◌, List, [], ◌∷◌, arith,
  ◌==◌,
}
use chen_db.Prelude.Sets.{elem, elem-add}
use chen_db.Wal.Record.{LogRecord, no_transaction, end_lsn}
use chen_db.Wal.Recovery.{Findings, analyse, analyse_from, analyse_step, difference, is_end}

-- Some record of the log belongs to transaction `x`.
abbrev pub started : ℕ → List LogRecord → Bool
started x [] = false
started x (r ∷ rs) = (r.transaction_id == x) || started x rs

-- Some record commits or aborts transaction `x`.
abbrev pub ended : ℕ → List LogRecord → Bool
ended x [] = false
ended x (r ∷ rs) = (is_end r && r.transaction_id == x) || ended x rs

elem-nil : (x : ℕ) → elem x [] ≡ false
unfolding elem
elem-nil x = refl

elem-difference :
    (x : ℕ) (xs ys : List ℕ) → elem x (difference xs ys) ≡ (elem x xs && not (elem x ys))
unfolding elem difference
elem-difference x [] ys = refl
elem-difference x (y ∷ xs) ys = elim (Bool-cases (y == x)) [
  | inl same ↦
      let e : y ≡ x = ground (arith, same) in rw e (ground (arith, elem-difference x xs ys))
  | inr other ↦ ground (arith, other, elem-difference x xs ys)
]

seen-analyse :
    (x : ℕ) (a : Findings) (rs : List LogRecord)
    → elem x (analyse_from a rs).seen
      ≡ (elem x a.seen || (not (x == no_transaction) && started x rs))
unfolding analyse_from analyse_step
seen-analyse x a [] = ground arith
seen-analyse x a (r ∷ rs) =
    seen-analyse x (analyse_step r a) rs ∙ ground (arith, elem-add r.transaction_id x a.seen)

finished-analyse :
    (x : ℕ) (a : Findings) (rs : List LogRecord)
    → elem x (analyse_from a rs).finished ≡ (elem x a.finished || ended x rs)
unfolding analyse_from analyse_step
finished-analyse x a [] = ground arith
finished-analyse x a (r ∷ rs) =
    finished-analyse x (analyse_step r a) rs
    ∙ ground (arith, elem-add r.transaction_id x a.finished)

-- The losers of analysis are exactly the transactions, other than the engine's own 0, of which the
-- log has a record and no commit or abort.
pub analyse-losers :
    (x : ℕ) (records : List LogRecord)
    → elem x (difference (analyse records).seen (analyse records).finished)
      ≡ (not (x == no_transaction) && started x records && not (ended x records))
unfolding analyse
analyse-losers x records =
    let none_yet : Findings = record {
      seen = [];
      finished = [];
      highest_xid = 0;
      highest_lsn = 0;
    } in
    elem-difference x (analyse records).seen (analyse records).finished
    ∙ ground
        (arith, seen-analyse x none_yet records, finished-analyse x none_yet records, elem-nil x)

-- No record ends past `lsn`, and no transaction of the log is newer than `xid`.
abbrev pub Covers : ℕ → ℕ → List LogRecord → Type 0
Covers lsn xid [] = Unit
Covers lsn xid (r ∷ rs) = (end_lsn r ≤ lsn) × (r.transaction_id ≤ xid) × Covers lsn xid rs

analyse_from-rises :
    (a : Findings) (rs : List LogRecord)
    → (a.highest_lsn ≤ (analyse_from a rs).highest_lsn)
      × (a.highest_xid ≤ (analyse_from a rs).highest_xid)
unfolding analyse_from analyse_step
analyse_from-rises a [] = omega arith
analyse_from-rises a (r ∷ rs) = ground (arith, analyse_from-rises (analyse_step r a) rs)

analyse_from-Covers :
    (a : Findings) (rs : List LogRecord)
    → Covers (analyse_from a rs).highest_lsn (analyse_from a rs).highest_xid rs
unfolding analyse_from analyse_step
analyse_from-Covers a [] = tt
analyse_from-Covers a (r ∷ rs) = (
  ground (arith, analyse_from-rises (analyse_step r a) rs),
  ground (arith, analyse_from-rises (analyse_step r a) rs),
  analyse_from-Covers (analyse_step r a) rs,
)

-- The two highest values that analysis reports bound every record: the log restarts, and new
-- transaction ids start, above them.
pub analyse-Covers :
    (records : List LogRecord)
    → Covers (analyse records).highest_lsn (analyse records).highest_xid records
unfolding analyse
analyse-Covers records = analyse_from-Covers _ records

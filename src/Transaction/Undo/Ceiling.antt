-- ===== src/Transaction/Undo/Ceiling.antt =====
-- The memory bound of an undo log.
use chen_db.Prelude.{ℕ, ◌+◌, ◌≤◌, ◌≡◌, Bool, List, [], ◌∷◌, ◌++◌, arith, ltb, if-both, length}
use chen_db.Prelude.Sets.{elem}
use chen_db.Transaction.Undo.{UndoRecord, UndoLog, max_undo_bytes, capture}

-- What the records hold in memory.
unfoldable pub total_size : List UndoRecord → ℕ
total_size [] = 0
total_size (r ∷ rs) = length r.before_image + total_size rs

total_size-append_one :
    (rs : List UndoRecord) (r : UndoRecord)
    → total_size (rs ++ r ∷ []) ≡ total_size rs + length r.before_image
unfolding total_size
total_size-append_one [] r = omega arith
total_size-append_one (x ∷ xs) r = omega (arith, total_size-append_one xs r)

-- The counter is the size of the images held, and it never passes the ceiling.
abbrev pub IsWithinCeiling : UndoLog → Type 0
IsWithinCeiling log = (log.bytes ≡ total_size log.records) × (log.bytes ≤ max_undo_bytes)

-- Capturing a page keeps the byte counter equal to the size of the images held, and no greater
-- than the ceiling, whatever the size of the image.
pub capture-IsWithinCeiling :
    (p : ℕ) (image : List ℕ) (log : UndoLog)
    → IsWithinCeiling log
    → IsWithinCeiling (capture p image log).1
unfolding capture
capture-IsWithinCeiling p image log (exact, bounded) =
    let P : Bool × UndoLog → Type 0 = λ x. IsWithinCeiling x.1 in
    if-both P (elem p log.captured) _ _ (λ _. (exact, bounded))
      (λ _.
        if-both P (ltb max_undo_bytes (log.bytes + length image)) _ _ (λ _. (exact, bounded))
          (λ room. (
            omega (
              arith,
              exact,
              total_size-append_one log.records
                  (record { sequence = length log.records; page_id = p; before_image = image }),
            ),
            ground (arith, room),
          )))

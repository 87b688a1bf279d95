-- ===== src/Transaction/Undo.antt =====
-- engine/transaction/undo.py: the before-images of one transaction. The reason text of a record,
-- which nothing reads but the display, is left out; bytes are lists of numbers.
pub mod Rollback
pub mod Ceiling
use chen_db.Prelude.{
  ℕ, ◌+◌, ◌*◌, Bool, true, false, List, [], ◌∷◌, ◌++◌, reverse, ltb, if◌then◌else◌, length,
}
use chen_db.Prelude.Sets.{elem, add}

abbrev pub max_undo_bytes : ℕ
max_undo_bytes = 64 * 1024 * 1024

pub record UndoRecord : Type 0 where
  pub sequence : ℕ
  pub page_id : ℕ
  pub before_image : List ℕ

pub record UndoLog : Type 0 where
  pub records : List UndoRecord
  pub captured : List ℕ
  pub bytes : ℕ
  pub overflowed : Bool

abbrev pub empty_log : UndoLog
empty_log = record { records = []; captured = []; bytes = 0; overflowed = false }

abbrev pub has : ℕ → UndoLog → Bool
has page_id log = elem page_id log.captured

-- Whether a record was added, and the log that is left.
unfoldable pub capture : ℕ → List ℕ → UndoLog → Bool × UndoLog
capture page_id image log =
    let marked = record log { captured = add page_id log.captured } in
    if elem page_id log.captured
    then (false, log)
    else if ltb max_undo_bytes (log.bytes + length image)
    then (false, record marked { overflowed = true })
    else (
      true,
      record marked {
        records =
            log.records
            ++ record { sequence = length log.records; page_id = page_id; before_image = image }
              ∷ [];
        bytes = log.bytes + length image;
      },
    )

-- Newest first.
abbrev pub rewind : UndoLog → List UndoRecord
rewind log = reverse log.records

abbrev pub page_count : UndoLog → ℕ
page_count log = length log.records

abbrev pub clear : UndoLog → UndoLog
clear log = empty_log

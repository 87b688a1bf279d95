-- ===== src/Tests/Log.antt =====
-- engine/wal/log.py: one page change, its commit, a crash and a checkpoint, with a checksum that is 0.
use chen_db.Prelude.{
  ℕ, zero, suc, ◌+◌, ◌≤◌, ◌<◌, ◌^◌, ◌≡◌, refl, inl, inr, Bool, true, false, Option, none, some,
  List, [], ◌∷◌, ◌++◌, arith, length, take, nat_eq,
}
use chen_db.Prelude.Dict
use chen_db.Prelude.Bytes.{Bytes}
use chen_db.Prelude.Result.{Result, ok, err}
use chen_db.Wal.Record.{
  LogRecord, update, commit as commit_type, checkpoint as checkpoint_type, no_transaction,
  record_header_size, to_bytes, decode_record,
}
use chen_db.Wal.Record.RoundTrip.{Fits, IsBounded, decode_record-to_bytes}
use chen_db.Wal.Record.Torn.{decode_record-torn}
use chen_db.Wal.Log.{
  WriteAheadLog, LogError, open_log, next_lsn, new_record, joined, append, append_update, commit,
  read_all, flush_through, checkpoint,
}
use chen_db.Wal.Log.Refines.{Refines}
use chen_db.Wal.Log.Updates.{append_update-Refines}
use chen_db.Wal.Log.Durability.{Kept, read_all-crash}
use chen_db.Wal.Log.Checkpoints.{commit-Refines, checkpoint-Refines, flush_through-first_staged}

abbrev no_sum : Bytes → ℕ
no_sum b = 0

abbrev stamped : ℕ → Bytes
stamped lsn = lsn ∷ []

abbrev empty_log : WriteAheadLog
empty_log = record {
  file = [];
  buffer = [];
  buffer_bytes = 0;
  buffer_tail = none;
  base_lsn = 1;
  flushed_lsn = 1;
  last_lsn_of = [];
  sync_on_commit = true;
  closed = false;
  stats = record {
    records_appended = 0;
    bytes_appended = 0;
    flushes = 0;
    syncs = 0;
    records_coalesced = 0;
    checkpoints = 0;
    bytes_reclaimed = 0;
  };
}

-- Transaction 7 changes page 4.
abbrev change : LogRecord
change = record {
  lsn = 1;
  prev_lsn = 0;
  transaction_id = 7;
  record_type = update;
  page_id = 4;
  before_image = 9 ∷ [];
  after_image = 1 ∷ [];
}

abbrev zeros : ℕ → Bytes
zeros zero = []
zeros (suc n) = 0 ∷ zeros n

abbrev change_bytes : Bytes
change_bytes =
    zeros 4
    ++ (1 ∷ zeros 7)
    ++ zeros 8
    ++ (7 ∷ zeros 7)
    ++ (1 ∷ zeros 3)
    ++ (4 ∷ zeros 3)
    ++ (1 ∷ zeros 3)
    ++ (1 ∷ zeros 3)
    ++ (9 ∷ 1 ∷ [])

change-to_bytes : to_bytes no_sum change ≡ some change_bytes
unfolding to_bytes chen_db.Prelude.Bytes.le_bytes
change-to_bytes = refl

change-Fits : Fits change
change-Fits = record {
  lsn = omega arith;
  prev_lsn = omega arith;
  transaction_id = omega arith;
  page_id = omega arith;
  before_len = omega arith;
  after_len = omega arith;
}

change-IsBounded : IsBounded change
change-IsBounded = record { before = omega arith; after = omega arith }

decode_record-to_bytes_example :
    decode_record no_sum ([] ++ (change_bytes ++ (5 ∷ []))) 0 1 ≡ some change
decode_record-to_bytes_example =
    decode_record-to_bytes no_sum change change_bytes [] (5 ∷ []) 1 change-to_bytes change-IsBounded
      (omega arith)

decode_record-torn_example : decode_record no_sum ([] ++ take 45 change_bytes) 0 1 ≡ none
decode_record-torn_example =
    decode_record-torn no_sum change change_bytes [] 45 1 change-to_bytes (omega arith)

empty_log-Refines : Refines no_sum empty_log [] []
empty_log-Refines = record {
  durable = refl;
  pending = refl;
  counted = refl;
  flushed = refl;
  contiguous = tt;
  tail = refl;
  is_open = refl;
}

-- The log with the change staged.
abbrev staged_log : WriteAheadLog
staged_log = record empty_log {
  buffer = change_bytes ∷ [];
  buffer_bytes = 46;
  buffer_tail = some change;
  last_lsn_of = (7, 1) ∷ [];
  stats = record (empty_log.stats) { records_appended = 1; bytes_appended = 46 };
}

change_staged : append_update no_sum 7 4 (9 ∷ []) stamped empty_log ≡ ok (change, staged_log)
unfolding append_update append to_bytes Dict.get chen_db.Prelude.Bytes.le_bytes Dict.put
change_staged = refl

staged_log-Refines : Refines no_sum staged_log [] (change ∷ [])
staged_log-Refines =
    elim (append_update-Refines no_sum 7 4 (9 ∷ []) stamped empty_log staged_log change [] []
      change_staged (omega arith) (λ lsn. omega arith) empty_log-Refines) [
        | inl (t, last, update_of, e, left) ↦ cc
        | inr (other, e, left) ↦ left
      ]

-- The same transaction changes the page again.
abbrev stamped_again : ℕ → Bytes
stamped_again lsn = lsn ∷ 8 ∷ []

abbrev change_again : LogRecord
change_again = record change { after_image = stamped_again change.lsn }

abbrev log_or : WriteAheadLog → Result LogError (LogRecord × WriteAheadLog) → WriteAheadLog
log_or other (err e) = other
log_or other (ok (entry, log)) = log

abbrev coalesced_log : WriteAheadLog
coalesced_log = log_or staged_log (append_update no_sum 7 4 (5 ∷ []) stamped_again staged_log)

read_all-crash_example :
    (j : ℕ) × (torn : Bool) × (read_all no_sum
        (open_log (staged_log.file ++ take 20 (joined staged_log.buffer)) staged_log.base_lsn true)
      ≡ ok (some ([] ++ take j (change ∷ []), torn)))
    × Kept 20 j (change ∷ [])
read_all-crash_example =
    read_all-crash no_sum staged_log [] (change ∷ []) 20 true staged_log-Refines

commit_record-Fits : Fits (new_record commit_type 7 0 [] [] staged_log)
unfolding Dict.get
commit_record-Fits = record {
  lsn = omega arith;
  prev_lsn = omega arith;
  transaction_id = omega arith;
  page_id = omega arith;
  before_len = omega arith;
  after_len = omega arith;
}

commit-Refines_example :
    (log' : WriteAheadLog) × (commit no_sum 7 staged_log
      ≡ ok (new_record commit_type 7 0 [] [] staged_log, log'))
    × Refines no_sum log'
        ([] ++ (change ∷ [] ++ new_record commit_type 7 0 [] [] staged_log ∷ []))
        []
commit-Refines_example =
    commit-Refines no_sum 7 staged_log [] (change ∷ []) (λ b. omega arith) commit_record-Fits
      staged_log-Refines

abbrev no_pages : WriteAheadLog → Result LogError WriteAheadLog
no_pages log = ok log

checkpoint_record-Fits : Fits (new_record checkpoint_type no_transaction 0 [] [] staged_log)
unfolding Dict.get
checkpoint_record-Fits = record {
  lsn = omega arith;
  prev_lsn = omega arith;
  transaction_id = omega arith;
  page_id = omega arith;
  before_len = omega arith;
  after_len = omega arith;
}

checkpoint-Refines_example :
    (log' : WriteAheadLog) × (checkpoint no_sum no_pages staged_log
      ≡ ok (new_record checkpoint_type no_transaction 0 [] [] staged_log, log'))
    × Refines no_sum log' [] []
    × (log'.base_lsn ≡ next_lsn staged_log + record_header_size)
checkpoint-Refines_example =
    checkpoint-Refines no_sum no_pages staged_log staged_log [] (change ∷ []) (λ b. omega arith)
      refl refl staged_log-Refines checkpoint_record-Fits

flush_through-first_staged_example : flush_through 1 staged_log ≡ ok staged_log
flush_through-first_staged_example =
    flush_through-first_staged no_sum staged_log [] [] change staged_log-Refines

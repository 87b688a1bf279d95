-- ===== src/Tests/Recovery.antt =====
-- engine/wal/recovery.py: a committed and an unfinished change, with a checksum that is 0.
use chen_db.Prelude.{
  ℕ, zero, suc, ◌+◌, ◌≤◌, ◌<◌, ◌≡◌, refl, inl, Bool, true, false, not, ◌&&◌, Option, none, some,
  List, [], ◌∷◌, ◌++◌, arith, length, take, ◌==◌,
}
use chen_db.Prelude.Bytes.{Bytes}
use chen_db.Prelude.Sets.{elem}
use chen_db.Prelude.Result.{Result, ok, err}
use chen_db.Wal.Record.{LogRecord, update, commit as commit_type, no_transaction, to_bytes}
use chen_db.Wal.Record.RoundTrip.{IsBounded}
use chen_db.Wal.Log.{WriteAheadLog, LogError, read_all}
use chen_db.Wal.Log.Stream.{encode_all, Contiguous}
use chen_db.Wal.Log.Refines.{Refines}
use chen_db.Wal.Recovery.{
  Pages, Undone, extended, undo, analyse, difference, redo, recover, Recovered, RecoveryReport,
  empty_report,
}
use chen_db.Wal.Recovery.Redo.{Stamped}
use chen_db.Wal.Recovery.Undo.{first_before, or_else, reach, undo-pages}
use chen_db.Wal.Recovery.Analysis.{started, ended, Covers, analyse-losers, analyse-Covers}
use chen_db.Wal.Recovery.Whole.{PageAfter, recover-pages}

abbrev no_sum : Bytes → ℕ
no_sum b = 0

-- The first byte of an image is its LSN.
abbrev first_byte : ℕ → Bytes → ℕ
first_byte p [] = 0
first_byte p (b ∷ bs) = b

-- Transaction 7 changes page 4 and commits; transaction 8 changes page 5 and does not.
abbrev won : LogRecord
won = record {
  lsn = 1;
  prev_lsn = 0;
  transaction_id = 7;
  record_type = update;
  page_id = 4;
  before_image = 0 ∷ [];
  after_image = 1 ∷ [];
}

abbrev ended_well : LogRecord
ended_well = record {
  lsn = 47;
  prev_lsn = 1;
  transaction_id = 7;
  record_type = commit_type;
  page_id = 0;
  before_image = [];
  after_image = [];
}

abbrev lost : LogRecord
lost = record {
  lsn = 91;
  prev_lsn = 0;
  transaction_id = 8;
  record_type = update;
  page_id = 5;
  before_image = 0 ∷ [];
  after_image = 91 ∷ [];
}

abbrev history : List LogRecord
history = won ∷ ended_well ∷ lost ∷ []

abbrev absent : Pages
absent p = none

abbrev zeros : ℕ → Bytes
zeros zero = []
zeros (suc n) = 0 ∷ zeros n

abbrev won_bytes : Bytes
won_bytes =
    zeros 4
    ++ (1 ∷ zeros 7)
    ++ zeros 8
    ++ (7 ∷ zeros 7)
    ++ (1 ∷ zeros 3)
    ++ (4 ∷ zeros 3)
    ++ (1 ∷ zeros 3)
    ++ (1 ∷ zeros 3)
    ++ (0 ∷ 1 ∷ [])

abbrev ended_bytes : Bytes
ended_bytes =
    zeros 4
    ++ (47 ∷ zeros 7)
    ++ (1 ∷ zeros 7)
    ++ (7 ∷ zeros 7)
    ++ (2 ∷ zeros 3)
    ++ zeros 4
    ++ zeros 4
    ++ zeros 4

abbrev lost_bytes : Bytes
lost_bytes =
    zeros 4
    ++ (91 ∷ zeros 7)
    ++ zeros 8
    ++ (8 ∷ zeros 7)
    ++ (1 ∷ zeros 3)
    ++ (5 ∷ zeros 3)
    ++ (1 ∷ zeros 3)
    ++ (1 ∷ zeros 3)
    ++ (0 ∷ 91 ∷ [])

-- The log as a crash leaves it.
abbrev crashed_log : WriteAheadLog
crashed_log = record {
  file = won_bytes ++ (ended_bytes ++ (lost_bytes ++ []));
  buffer = [];
  buffer_bytes = 0;
  buffer_tail = none;
  base_lsn = 1;
  flushed_lsn = 137;
  last_lsn_of = [];
  sync_on_commit = true;
  closed = false;
  stats = record {
    records_appended = 0;
    bytes_appended = 0;
    flushes = 0;
    syncs = 0;
    records_coalesced = 0;
    checkpoints = 0;
    bytes_reclaimed = 0;
  };
}

crashed_log-durable : encode_all no_sum history ≡ some crashed_log.file
unfolding to_bytes chen_db.Prelude.Bytes.le_bytes
crashed_log-durable = refl

history-IsBounded :
    (r : LogRecord) → length r.before_image ≤ 1 → length r.after_image ≤ 1 → IsBounded r
history-IsBounded r h k = record { before = omega (arith, h); after = omega (arith, k) }

history-Contiguous : Contiguous 1 history
history-Contiguous = (
  refl,
  history-IsBounded won (omega arith) (omega arith),
  (
    refl,
    history-IsBounded ended_well (omega arith) (omega arith),
    (refl, history-IsBounded lost (omega arith) (omega arith), tt),
  ),
)

crashed_log-Refines : Refines no_sum crashed_log history []
crashed_log-Refines = record {
  durable = crashed_log-durable;
  pending = refl;
  counted = refl;
  flushed = refl;
  contiguous = history-Contiguous;
  tail = refl;
  is_open = refl;
}

history-Stamped : Stamped first_byte history
history-Stamped = ((λ h. refl), ((λ h. absurd (ground (arith, h))), ((λ h. refl), tt)))

abbrev undone_or : Undone → Result LogError Undone → Undone
undone_or other (err e) = other
undone_or other (ok undone) = undone

abbrev undone : Undone
undone =
    undone_or (record { log = crashed_log; pages = absent; pages_undone = 0 })
      (undo no_sum 1 history (8 ∷ []) crashed_log absent)

undone-undo : undo no_sum 1 history (8 ∷ []) crashed_log absent ≡ ok undone
unfolding undo chen_db.Wal.Recovery.undo_from chen_db.Wal.Recovery.undo_step
    chen_db.Wal.Recovery.undoes chen_db.Wal.Log.append to_bytes chen_db.Prelude.Dict.get
    chen_db.Wal.Recovery.abort_each chen_db.Prelude.Sets.sorted chen_db.Wal.Log.abort
    chen_db.Prelude.Bytes.le_bytes chen_db.Prelude.Dict.put chen_db.Wal.Log.flush
undone-undo = refl

undo-pages_example :
    undone.pages 5
    ≡ or_else (first_before (8 ∷ []) 5 history) (extended 1 (reach (8 ∷ []) history) 5 (absent 5))
undo-pages_example = undo-pages no_sum 1 history (8 ∷ []) crashed_log absent undone 5 undone-undo

abbrev recovered_or : Recovered → Result LogError (Option Recovered) → Recovered
recovered_or other (err e) = other
recovered_or other (ok none) = other
recovered_or other (ok (some recovered)) = recovered

abbrev recovered : Recovered
recovered =
    recovered_or (record { report = empty_report false; log = crashed_log; pages = absent })
      (recover no_sum first_byte 1 crashed_log absent)

recovered-recover : recover no_sum first_byte 1 crashed_log absent ≡ ok (some recovered)
unfolding recover chen_db.Wal.Log.read_all chen_db.Wal.Log.scan chen_db.Wal.Record.decode_record
    chen_db.Prelude.Bytes.le_value chen_db.Wal.Recovery.recover_records undo difference analyse
    chen_db.Prelude.Sets.add chen_db.Wal.Recovery.undo_from chen_db.Wal.Recovery.undo_step
    chen_db.Wal.Recovery.undoes chen_db.Wal.Log.append to_bytes chen_db.Prelude.Dict.get
    chen_db.Wal.Recovery.abort_each chen_db.Prelude.Sets.sorted chen_db.Prelude.Bytes.le_bytes
    chen_db.Prelude.Bytes.pack chen_db.Prelude.Dict.put chen_db.Prelude.Dict.remove elem
    chen_db.Prelude.Sets.insert_sorted chen_db.Wal.Log.abort chen_db.Wal.Log.flush
    chen_db.Wal.Log.push chen_db.Wal.Record.body chen_db.Wal.Recovery.analyse_from
    chen_db.Wal.Recovery.analyse_step redo chen_db.Wal.Recovery.redo_from
    chen_db.Wal.Recovery.redo_step
recovered-recover = refl

read_history : read_all no_sum crashed_log ≡ ok (some (history, false))
unfolding read_all chen_db.Wal.Log.scan chen_db.Wal.Record.decode_record
    chen_db.Prelude.Bytes.le_value
read_history = refl

recover-pages_example : PageAfter 1 5 history none (recovered.pages 5)
unfolding chen_db.Wal.Recovery.blank
recover-pages_example =
    recover-pages no_sum first_byte 1 crashed_log history false absent absent (λ p. 0) recovered 5
      read_history history-Contiguous history-Stamped
      ((λ h. omega arith), ((λ h. omega arith), ((λ h. omega arith), tt))) tt (inl refl)
      recovered-recover

analyse-losers_example :
    elem 8 (difference (analyse history).seen (analyse history).finished)
    ≡ (not (8 == no_transaction) && started 8 history && not (ended 8 history))
analyse-losers_example = analyse-losers 8 history

analyse-Covers_example : Covers (analyse history).highest_lsn (analyse history).highest_xid history
analyse-Covers_example = analyse-Covers history

-- ===== src/Wal/Log.antt =====
-- engine/wal/log.py: the class `WriteAheadLog`. A method returns the new log beside its result, or
-- the exception, before which no method changes anything. The file object is the bytes of the
-- file: every write is at its end. Clocks and trace events are left out.
pub mod Stream
pub mod Staged
pub mod Refines
pub mod Updates
pub mod Durability
pub mod Checkpoints
use chen_db.Prelude.{
  ℕ, zero, suc, ◌+◌, ◌-◌, Bool, true, false, ◌&&◌, Option, none, some, List, [], ◌∷◌, ◌++◌, ltb,
  ◌==◌, not, if◌then◌else◌, length, init, nat_eq,
}
use chen_db.Prelude.Bytes.{Bytes}
use chen_db.Prelude.Dict
use chen_db.Prelude.Dict.{Dict}
use chen_db.Prelude.Result.{Result, ok, err, ◌>>=◌, ◌>>◌}
use chen_db.Wal.Record.{
  LogRecord, RecordType, update, commit as commit_type, abort as abort_type,
  checkpoint as checkpoint_type, code, no_transaction, size, to_bytes, decode_record,
}

-- `ValueError` of a closed log, `struct.error` of a field that does not fit, and the
-- `CorruptDatabaseError` with which recovery refuses an image.
pub data LogError : Type 0 where
  closed_log struct_error corrupt_database : LogError

pub record WalStats : Type 0 where
  pub records_appended : ℕ
  pub bytes_appended : ℕ
  pub flushes : ℕ
  pub syncs : ℕ
  pub records_coalesced : ℕ
  pub checkpoints : ℕ
  pub bytes_reclaimed : ℕ

pub record WriteAheadLog : Type 0 where
  pub file : Bytes
  pub buffer : List Bytes
  pub buffer_bytes : ℕ
  pub buffer_tail : Option LogRecord
  pub base_lsn : ℕ
  pub flushed_lsn : ℕ
  pub last_lsn_of : Dict ℕ ℕ
  pub sync_on_commit : Bool
  pub closed : Bool
  pub stats : WalStats

-- `__init__` over the bytes that the file holds.
unfoldable pub open_log : Bytes → ℕ → Bool → WriteAheadLog
open_log file base_lsn sync_on_commit = record {
  file = file;
  buffer = [];
  buffer_bytes = 0;
  buffer_tail = none;
  base_lsn = base_lsn;
  flushed_lsn = base_lsn + length file;
  last_lsn_of = [];
  sync_on_commit = sync_on_commit;
  closed = false;
  stats = record {
    records_appended = 0;
    bytes_appended = 0;
    flushes = 0;
    syncs = 0;
    records_coalesced = 0;
    checkpoints = 0;
    bytes_reclaimed = 0;
  };
}

abbrev pub next_lsn : WriteAheadLog → ℕ
next_lsn log = log.flushed_lsn + log.buffer_bytes

-- `b"".join(buffer)`
abbrev pub joined : List Bytes → Bytes
joined [] = []
joined (b ∷ bs) = b ++ joined bs

-- `len(buffer[-1])`
abbrev pub last_length : List Bytes → ℕ
last_length [] = 0
last_length (b ∷ []) = length b
last_length (b ∷ c ∷ cs) = last_length (c ∷ cs)

abbrev pub ensure_open : WriteAheadLog → Result LogError (Unit {0})
ensure_open log = if log.closed then err closed_log else ok tt

abbrev packed : Option Bytes → Result LogError Bytes
packed none = err struct_error
packed (some b) = ok b

abbrev prev_lsn_of : Option ℕ → ℕ
prev_lsn_of none = 0
prev_lsn_of (some lsn) = lsn

-- The record that `append` stages: its LSN is the next one, and it points back at the last record
-- of its transaction.
abbrev pub new_record : RecordType → ℕ → ℕ → Bytes → Bytes → WriteAheadLog → LogRecord
new_record record_type transaction_id page_id before_image after_image log = record {
  lsn = next_lsn log;
  prev_lsn = prev_lsn_of (Dict.get transaction_id log.last_lsn_of);
  transaction_id = transaction_id;
  record_type = record_type;
  page_id = page_id;
  before_image = before_image;
  after_image = after_image;
}

-- The update that takes the place of the staged record `tail`: it keeps the position, the chain and
-- the before-image.
abbrev pub replacement : LogRecord → (ℕ → Bytes) → LogRecord
replacement tail after_image_for = record tail {
  record_type = update;
  after_image = after_image_for tail.lsn;
}

-- The flush itself, once the log is known to be open.
unfoldable pub push : Bool → WriteAheadLog → WriteAheadLog
push sync log =
    let payload = joined log.buffer in
    let pushed : WriteAheadLog = elim log.buffer [
      | [] ↦ log
      | _ ↦ record log {
        file = log.file ++ payload;
        buffer = [];
        buffer_bytes = 0;
        buffer_tail = none;
        flushed_lsn = log.flushed_lsn + length payload;
        stats = record (log.stats) { flushes = log.stats.flushes + 1 };
      }
    ] in
    if sync
    then record pushed { stats = record (pushed.stats) { syncs = pushed.stats.syncs + 1 } }
    else pushed

unfoldable pub flush : Bool → WriteAheadLog → Result LogError WriteAheadLog
flush sync log = do ensure_open log; ok (push sync log)

-- The write-ahead rule, as the buffer pool asks for it.
unfoldable pub flush_through : ℕ → WriteAheadLog → Result LogError WriteAheadLog
flush_through lsn log = if ltb log.flushed_lsn lsn then flush false log else ok log

-- Does an update of this page by this transaction replace the staged record?
abbrev pub supersedes : ℕ → ℕ → LogRecord → Bool
supersedes transaction_id page_id tail =
    code tail.record_type == code update
    && tail.page_id == page_id
    && tail.transaction_id == transaction_id

-- The last step of a checkpoint: the log starts again, empty, at the LSN that it has reached.
abbrev pub truncated : WriteAheadLog → WriteAheadLog
truncated log = record log {
  file = [];
  buffer_tail = none;
  base_lsn = log.flushed_lsn;
  last_lsn_of = [];
  stats = record (log.stats) {
    checkpoints = log.stats.checkpoints + 1;
    bytes_reclaimed = log.stats.bytes_reclaimed + (log.flushed_lsn - log.base_lsn);
  };
}

module _ (crc32 : Bytes → ℕ) where
  unfoldable pub append :
      RecordType
      → ℕ
      → ℕ
      → Bytes
      → Bytes
      → WriteAheadLog
      → Result LogError (LogRecord × WriteAheadLog)
  append record_type transaction_id page_id before_image after_image log = do
    ensure_open log
    let entry = new_record record_type transaction_id page_id before_image after_image log
    encoded ← packed (to_bytes crc32 entry)
    ok (
      entry,
      record log {
        buffer = log.buffer ++ encoded ∷ [];
        buffer_bytes = log.buffer_bytes + length encoded;
        buffer_tail = some entry;
        last_lsn_of =
            if transaction_id == no_transaction
            then log.last_lsn_of
            else Dict.put transaction_id entry.lsn log.last_lsn_of;
        stats = record (log.stats) {
          records_appended = log.stats.records_appended + 1;
          bytes_appended = log.stats.bytes_appended + size entry;
        };
      },
    )

  -- The staged record gives way to one with its position and its before-image.
  unfoldable pub coalesce :
      LogRecord → (ℕ → Bytes) → WriteAheadLog → Result LogError (LogRecord × WriteAheadLog)
  coalesce tail after_image_for log = do
    let entry = replacement tail after_image_for
    encoded ← packed (to_bytes crc32 entry)
    ok (
      entry,
      record log {
        buffer = init log.buffer ++ encoded ∷ [];
        buffer_bytes = log.buffer_bytes + length encoded - last_length log.buffer;
        buffer_tail = some entry;
        stats = record (log.stats) { records_coalesced = log.stats.records_coalesced + 1 };
      },
    )

  unfoldable pub append_update :
      ℕ → ℕ → Bytes → (ℕ → Bytes) → WriteAheadLog → Result LogError (LogRecord × WriteAheadLog)
  append_update transaction_id page_id before_image after_image_for log = do
    ensure_open log
    let fresh =
        append update transaction_id page_id before_image (after_image_for (next_lsn log)) log
    elim log.buffer_tail [
      | none ↦ fresh
      | some tail ↦
          if supersedes transaction_id page_id tail
          then coalesce tail after_image_for log
          else fresh
    ]

  unfoldable pub commit : ℕ → WriteAheadLog → Result LogError (LogRecord × WriteAheadLog)
  commit transaction_id log = do
    (entry, log') ← append commit_type transaction_id 0 [] [] log
    log'' ← flush log'.sync_on_commit log'
    ok (entry, record log'' { last_lsn_of = Dict.remove transaction_id log''.last_lsn_of })

  unfoldable pub abort : ℕ → WriteAheadLog → Result LogError (LogRecord × WriteAheadLog)
  abort transaction_id log = do
    (entry, log') ← append abort_type transaction_id 0 [] [] log
    ok (entry, record log' { last_lsn_of = Dict.remove transaction_id log'.last_lsn_of })

  -- `while offset < len(raw)` on fuel; `none` means that the fuel ran out.
  unfoldable pub scan : ℕ → Bytes → ℕ → ℕ → List LogRecord → Option (List LogRecord × Bool)
  scan zero raw offset base_lsn records = none
  scan (suc fuel) raw offset base_lsn records = elim (ltb offset (length raw)) [
    | false ↦ some (records, false)
    | true ↦ elim (decode_record crc32 raw offset base_lsn) [
      | none ↦ some (records, true)
      | some entry ↦ scan fuel raw (offset + size entry) base_lsn (records ++ entry ∷ [])
    ]
  ]

  -- Each round takes at least one byte, so the length of the file is fuel enough.
  unfoldable pub read_all : WriteAheadLog → Result LogError (Option (List LogRecord × Bool))
  read_all log = do ensure_open log; ok (scan (suc (length log.file)) log.file 0 log.base_lsn [])

  -- `flush_pages` is the pager's: it writes the dirty pages, and may flush this log as it does.
  unfoldable pub checkpoint :
      (WriteAheadLog → Result LogError WriteAheadLog)
      → WriteAheadLog
      → Result LogError (LogRecord × WriteAheadLog)
  checkpoint flush_pages log = do
    ensure_open log
    log₁ ← flush_pages log
    (entry, log₂) ← append checkpoint_type no_transaction 0 [] [] log₁
    log₃ ← flush true log₂
    ok (entry, truncated log₃)

unfoldable pub reset : ℕ → WriteAheadLog → Result LogError WriteAheadLog
reset base_lsn log = do
  ensure_open log
  ok (record log {
    file = [];
    buffer = [];
    buffer_bytes = 0;
    buffer_tail = none;
    base_lsn = base_lsn;
    flushed_lsn = base_lsn;
    last_lsn_of = [];
  })

-- Close as a crash does: what was staged is lost.
unfoldable pub abandon : WriteAheadLog → WriteAheadLog
abandon log =
    if log.closed
    then log
    else record log { buffer = []; buffer_bytes = 0; buffer_tail = none; closed = true }

unfoldable pub close : WriteAheadLog → WriteAheadLog
close log = if log.closed then log else (let log' = push true log in record log' { closed = true })

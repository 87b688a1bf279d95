-- ===== src/Wal/Recovery.antt =====
-- engine/wal/recovery.py: analysis, redo and undo over the records of the log. The two callbacks of
-- `recover` act on the pages of the file, here a function from page ids; `lsn_of` is what
-- `Pager._page_lsn_on_disk` reads of an image. `none` stands for a page that is not there, of which
-- the callback answers -1; a write past the end of the file makes the pages before it blank. Clocks and trace events are left out.
pub mod Redo
pub mod Undo
pub mod Analysis
pub mod Whole
use chen_db.Prelude.{
  ℕ, zero, suc, ◌+◌, max, Bool, true, false, not, ◌&&◌, ◌||◌, Option, none, some, List, [], ◌∷◌,
  ◌++◌, reverse, ltb, leb, ◌==◌, if◌then◌else◌, length,
}
use chen_db.Prelude.Bytes.{Bytes}
use chen_db.Prelude.Sets.{elem, add, sorted}
use chen_db.Prelude.Result.{Result, ok, err, ◌>>=◌}
use chen_db.Wal.Record.{
  LogRecord, update, commit as commit_type, abort as abort_type, code, no_transaction, end_lsn,
  has_undo,
}
use chen_db.Wal.Log.{WriteAheadLog, LogError, corrupt_database, append, abort, flush, read_all}

abbrev pub Pages : Type 0
Pages = ℕ → Option Bytes

-- What `ftruncate` fills a page with.
unfoldable pub blank : ℕ → Bytes
blank zero = []
blank (suc n) = 0 ∷ blank n

-- A page of a file that is made to hold `page_count` pages.
abbrev pub extended : ℕ → ℕ → ℕ → Option Bytes → Option Bytes
extended page_size page_count q none = if ltb q page_count then some (blank page_size) else none
extended page_size page_count q (some image) = some image

-- `_extend_file_to(page_id + 1)` and the write.
abbrev pub written : ℕ → ℕ → Bytes → Pages → Pages
written page_size page_id image pages q =
    if page_id == q then some image else extended page_size page_id q (pages q)

-- The callback `apply_page`.
unfoldable pub apply_page : ℕ → ℕ → Bytes → Pages → Result LogError Pages
apply_page page_size page_id image pages =
    if not (length image == page_size)
    then err corrupt_database
    else ok (written page_size page_id image pages)

abbrev pub is_update : LogRecord → Bool
is_update r = code r.record_type == code update

abbrev pub is_end : LogRecord → Bool
is_end r = code r.record_type == code commit_type || code r.record_type == code abort_type

pub record Findings : Type 0 where
  pub seen : List ℕ
  pub finished : List ℕ
  pub highest_xid : ℕ
  pub highest_lsn : ℕ

unfoldable pub analyse_step : LogRecord → Findings → Findings
analyse_step r a = record {
  seen = if r.transaction_id == no_transaction then a.seen else add r.transaction_id a.seen;
  finished = if is_end r then add r.transaction_id a.finished else a.finished;
  highest_xid =
      if r.transaction_id == no_transaction
      then a.highest_xid
      else max a.highest_xid r.transaction_id;
  highest_lsn = max a.highest_lsn (end_lsn r);
}

unfoldable pub analyse_from : Findings → List LogRecord → Findings
analyse_from a [] = a
analyse_from a (r ∷ rs) = analyse_from (analyse_step r a) rs

unfoldable pub analyse : List LogRecord → Findings
unfolding analyse_from analyse_step
analyse = analyse_from (record { seen = []; finished = []; highest_xid = 0; highest_lsn = 0 })

-- `seen - finished`
unfoldable pub difference : List ℕ → List ℕ → List ℕ
unfolding elem
difference [] ys = []
difference (x ∷ xs) ys = let rest = difference xs ys in if elem x ys then rest else x ∷ rest

pub record Redone : Type 0 where
  pub pages : Pages
  pub pages_redone : ℕ
  pub pages_skipped : ℕ

module _ (lsn_of : ℕ → Bytes → ℕ) where
  -- `read_page_lsn(page_id) >= lsn`, where a missing page answers -1.
  abbrev pub current : ℕ → ℕ → Option Bytes → Bool
  current page_id lsn none = false
  current page_id lsn (some image) = leb lsn (lsn_of page_id image)

module _ (lsn_of : ℕ → Bytes → ℕ) (page_size : ℕ) where
  unfoldable pub redo_step : LogRecord → Redone → Result LogError Redone
  unfolding apply_page
  redo_step r s =
      if not (is_update r)
      then ok s
      else if current lsn_of r.page_id r.lsn (s.pages r.page_id)
      then ok (record s { pages_skipped = s.pages_skipped + 1 })
      else (apply_page page_size r.page_id r.after_image s.pages >>= λ pages.
          ok (record s { pages = pages; pages_redone = s.pages_redone + 1 }))

  unfoldable pub redo_from : Redone → List LogRecord → Result LogError Redone
  redo_from s [] = ok s
  redo_from s (r ∷ rs) = redo_step r s >>= λ s'. redo_from s' rs

  unfoldable pub redo : List LogRecord → Pages → Result LogError Redone
  unfolding redo_from redo_step
  redo records pages =
      redo_from (record { pages = pages; pages_redone = 0; pages_skipped = 0 }) records

-- Is this record to be undone?
unfoldable pub undoes : List ℕ → LogRecord → Bool
unfolding elem
undoes losers r = is_update r && elem r.transaction_id losers && has_undo r

pub record Undone : Type 0 where
  pub log : WriteAheadLog
  pub pages : Pages
  pub pages_undone : ℕ

module _ (crc32 : Bytes → ℕ) where
  unfoldable pub abort_each : List ℕ → WriteAheadLog → Result LogError WriteAheadLog
  abort_each [] log = ok log
  abort_each (x ∷ xs) log = abort crc32 x log >>= λ (_, log'). abort_each xs log'

module _ (crc32 : Bytes → ℕ) (page_size : ℕ) where
  -- The compensation is logged before it is applied.
  unfoldable pub undo_step : List ℕ → LogRecord → Undone → Result LogError Undone
  unfolding apply_page
  undo_step losers r s =
      if undoes losers r
      then (do
        (_, log) ← append crc32 update r.transaction_id r.page_id [] r.before_image s.log
        pages ← apply_page page_size r.page_id r.before_image s.pages
        ok (record s { log = log; pages = pages; pages_undone = s.pages_undone + 1 }))
      else ok s

  unfoldable pub undo_from : List ℕ → Undone → List LogRecord → Result LogError Undone
  undo_from losers s [] = ok s
  undo_from losers s (r ∷ rs) = undo_step losers r s >>= λ s'. undo_from losers s' rs

  unfoldable pub undo : List LogRecord → List ℕ → WriteAheadLog → Pages → Result LogError Undone
  undo records [] log pages = ok (record { log = log; pages = pages; pages_undone = 0 })
  undo records (x ∷ xs) log pages = do
    undone ←
        undo_from (x ∷ xs) (record { log = log; pages = pages; pages_undone = 0 }) (reverse records)
    aborted ← abort_each crc32 (sorted (x ∷ xs)) undone.log
    flushed ← flush true aborted
    ok (record undone { log = flushed })

pub record RecoveryReport : Type 0 where
  pub ran : Bool
  pub records_scanned : ℕ
  pub truncated_tail : Bool
  pub winners : List ℕ
  pub losers : List ℕ
  pub pages_redone : ℕ
  pub pages_skipped : ℕ
  pub pages_undone : ℕ
  pub highest_lsn : ℕ
  pub highest_xid : ℕ

pub record Recovered : Type 0 where
  pub report : RecoveryReport
  pub log : WriteAheadLog
  pub pages : Pages

abbrev pub empty_report : Bool → RecoveryReport
empty_report truncated = record {
  ran = false;
  records_scanned = 0;
  truncated_tail = truncated;
  winners = [];
  losers = [];
  pages_redone = 0;
  pages_skipped = 0;
  pages_undone = 0;
  highest_lsn = 0;
  highest_xid = 0;
}

module _ (crc32 : Bytes → ℕ) (lsn_of : ℕ → Bytes → ℕ) (page_size : ℕ) where
  -- The three passes over the records that the log holds.
  unfoldable pub recover_records :
      List LogRecord → Bool → WriteAheadLog → Pages → Result LogError Recovered
  recover_records [] truncated log pages =
      ok (record { report = empty_report truncated; log = log; pages = pages })
  recover_records (r ∷ rs) truncated log pages = do
    let analysis = analyse (r ∷ rs)
    let losers = difference analysis.seen analysis.finished
    redone ← redo lsn_of page_size (r ∷ rs) pages
    undone ← undo crc32 page_size (r ∷ rs) losers log redone.pages
    ok (record {
      report = record {
        ran = true;
        records_scanned = length (r ∷ rs);
        truncated_tail = truncated;
        winners = sorted analysis.finished;
        losers = sorted losers;
        pages_redone = redone.pages_redone;
        pages_skipped = redone.pages_skipped;
        pages_undone = undone.pages_undone;
        highest_lsn = analysis.highest_lsn;
        highest_xid = analysis.highest_xid;
      };
      log = undone.log;
      pages = undone.pages;
    })

  -- `none` means that the scan of the log ran out of fuel, which it never does.
  unfoldable pub recover : WriteAheadLog → Pages → Result LogError (Option Recovered)
  recover log pages = do
    read ← read_all crc32 log
    elim read [
      | none ↦ ok none
      | some (records, truncated) ↦
          recover_records records truncated log pages >>= λ recovered. ok (some recovered)
    ]

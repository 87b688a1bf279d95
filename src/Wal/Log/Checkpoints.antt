-- ===== src/Wal/Log/Checkpoints.antt =====
-- Commit, abort, checkpoint and the write-ahead rule, against the records that the log stands for.
use chen_db.Prelude.{
  ℕ, ◌+◌, ◌<◌, ◌^◌, nat_eq, ◌≡◌, refl, true, false, List, [], ◌∷◌, ◌++◌, arith, lt→ltb,
}
use chen_db.Prelude.Bytes.{Bytes}
use chen_db.Prelude.Result.{Result, ok}
use chen_db.Wal.Record.{
  LogRecord, commit as commit_type, checkpoint as checkpoint_type, no_transaction,
  record_header_size,
}
use chen_db.Wal.Record.RoundTrip.{Fits}
use chen_db.Prelude.Dict
use chen_db.Wal.Log.{
  WriteAheadLog, LogError, next_lsn, new_record, push, flush, flush_through, commit, checkpoint,
  truncated,
}
use chen_db.Wal.Log.Stream.{sizes-append, Contiguous-right}
use chen_db.Wal.Log.Refines.{Refines, append-Staged}
use chen_db.Wal.Log.Updates.{append-Refines, append_total}
use chen_db.Wal.Log.Durability.{push-Refines, push_base}

module _ (crc32 : Bytes → ℕ) where
  -- The chain of `prev_lsn` is no part of what the log stands for.
  Refines-chain :
      {log log' : WriteAheadLog} {done staged : List LogRecord}
      → log'.file ≡ log.file
      → log'.buffer ≡ log.buffer
      → log'.buffer_bytes ≡ log.buffer_bytes
      → log'.buffer_tail ≡ log.buffer_tail
      → log'.base_lsn ≡ log.base_lsn
      → log'.flushed_lsn ≡ log.flushed_lsn
      → log'.closed ≡ log.closed
      → Refines crc32 log done staged
      → Refines crc32 log' done staged
  Refines-chain a b c d e g h f = record {
    durable = rw a f.durable;
    pending = rw b f.pending;
    counted = rw c f.counted;
    flushed = rw (g, e) f.flushed;
    contiguous = rw e f.contiguous;
    tail = rw d f.tail;
    is_open = rw h f.is_open;
  }

  -- A commit whose record fits its header succeeds. After it the file holds every record logged so
  -- far, with the transaction's commit record as the last, and nothing is staged.
  pub commit-Refines :
      (transaction_id : ℕ) (log : WriteAheadLog) (done staged : List LogRecord)
      → ((b : Bytes) → crc32 b < 2 ^ 32)
      → Fits (new_record commit_type transaction_id 0 [] [] log)
      → Refines crc32 log done staged
      → (log' : WriteAheadLog) × (commit crc32 transaction_id log
          ≡ ok (new_record commit_type transaction_id 0 [] [] log, log'))
        × Refines crc32 log'
            (done ++ (staged ++ new_record commit_type transaction_id 0 [] [] log ∷ []))
            []
  unfolding commit flush
  commit-Refines transaction_id log done staged bound fits f =
      let entry = new_record commit_type transaction_id 0 [] [] log in
      let (log₁, x) =
        append_total crc32 commit_type transaction_id 0 [] [] log bound f.is_open fits in
      let f₁ =
        append-Refines crc32 commit_type transaction_id 0 [] [] log log₁ entry done staged x
          (omega arith) (omega arith) f in
      let log₂ = push log₁.sync_on_commit log₁ in
      let g = push-Refines crc32 log₁.sync_on_commit log₁ done (staged ++ entry ∷ []) f₁ in
      (
        record log₂ { last_lsn_of = Dict.remove transaction_id log₂.last_lsn_of },
        rw (x, f₁.is_open) refl,
        Refines-chain refl refl refl refl refl refl refl g,
      )

  -- A checkpoint whose page flush leaves a well-formed log succeeds if its record fits. It leaves an
  -- empty log whose first LSN is the end of all that was logged, the checkpoint record included.
  pub checkpoint-Refines :
      (flush_pages : WriteAheadLog → Result LogError WriteAheadLog) (log log₁ : WriteAheadLog)
      (done staged : List LogRecord)
      → ((b : Bytes) → crc32 b < 2 ^ 32)
      → log.closed ≡ false
      → flush_pages log ≡ ok log₁
      → Refines crc32 log₁ done staged
      → Fits (new_record checkpoint_type no_transaction 0 [] [] log₁)
      → (log' : WriteAheadLog) × (checkpoint crc32 flush_pages log
          ≡ ok (new_record checkpoint_type no_transaction 0 [] [] log₁, log'))
        × Refines crc32 log' [] []
        × (log'.base_lsn ≡ next_lsn log₁ + record_header_size)
  unfolding checkpoint flush
  checkpoint-Refines flush_pages log log₁ done staged bound o e f fits =
      let entry = new_record checkpoint_type no_transaction 0 [] [] log₁ in
      let (log₂, x) =
        append_total crc32 checkpoint_type no_transaction 0 [] [] log₁ bound f.is_open fits in
      let f₂ =
        append-Refines crc32 checkpoint_type no_transaction 0 [] [] log₁ log₂ entry done staged x
          (omega arith) (omega arith) f in
      let g = push-Refines crc32 true log₂ done (staged ++ entry ∷ []) f₂ in
      let base =
        (append-Staged crc32 checkpoint_type no_transaction 0 [] [] log₁ log₂ entry x).0.base_lsn in
      (
        truncated (push true log₂),
        simp o (rw (e, x, f₂.is_open) refl),
        record {
          durable = refl;
          pending = g.pending;
          counted = g.counted;
          flushed = omega arith;
          contiguous = tt;
          tail = refl;
          is_open = g.is_open;
        },
        omega (
          arith,
          g.flushed,
          push_base true log₂,
          base,
          f.flushed,
          f.counted,
          sizes-append done (staged ++ entry ∷ []),
          sizes-append staged (entry ∷ []),
        ),
      )

  -- The write-ahead rule asks for the LSN of a page's last record. It leaves every record staged
  -- or none: none whenever the LSN lies past the flushed end.
  pub flush_through-Refines :
      (lsn : ℕ) (log : WriteAheadLog) (done staged : List LogRecord)
      → Refines crc32 log done staged
      → log.flushed_lsn < lsn
      → (log' : WriteAheadLog) × (flush_through lsn log ≡ ok log')
        × Refines crc32 log' (done ++ staged) []
  unfolding flush_through flush
  flush_through-Refines lsn log done staged f h = (
    push false log,
    rw (lt→ltb _ _ h, f.is_open) refl,
    push-Refines crc32 false log done staged f,
  )

  -- The first staged record is not written out by asking for its own LSN: the log stays as it is,
  -- and the record stays in memory.
  pub flush_through-first_staged :
      (log : WriteAheadLog) (done staged : List LogRecord) (r : LogRecord)
      → Refines crc32 log done (r ∷ staged)
      → flush_through r.lsn log ≡ ok log
  unfolding flush_through
  flush_through-first_staged log done staged r f =
      let here = Contiguous-right log.base_lsn done (r ∷ staged) f.contiguous in
      let e : r.lsn ≡ log.flushed_lsn = omega (arith, here.0, f.flushed) in rw e (ground arith)

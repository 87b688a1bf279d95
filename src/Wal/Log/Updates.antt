-- ===== src/Wal/Log/Updates.antt =====
-- Staging records: `append` and `append_update` against the records that the log stands for.
use chen_db.Prelude.{
  ℕ, ◌+◌, ◌≤◌, ◌<◌, ◌^◌, ◌≡◌, ◌⊎◌, Option, some, nat_eq, refl, ap, inl, inr, true, false, none,
  List, [], ◌∷◌, ◌++◌, arith, append_assoc, Bool-cases, length, init, Option-cases,
}
use chen_db.Prelude.Dict
use chen_db.Prelude.Bytes.{Bytes}
use chen_db.Prelude.Result.{ok}
use chen_db.Wal.Record.{
  LogRecord, RecordType, update, commit, abort, checkpoint, code, max_image_bytes,
}
use chen_db.Wal.Record.RoundTrip.{Fits, to_bytes_total}
use chen_db.Wal.Log.{
  WriteAheadLog, next_lsn, new_record, append, coalesce, append_update, supersedes,
}
use chen_db.Wal.Log.Staged.{last?, split_last}
use chen_db.Wal.Log.Stream.{Contiguous, Contiguous-right}
use chen_db.Wal.Log.Refines.{
  Refines, append-Staged, Staged-Refines, coalesce-Coalesced, Coalesced-Refines,
}

-- An update of the page by the transaction.
abbrev pub IsUpdateOf : ℕ → ℕ → LogRecord → Type 0
IsUpdateOf transaction_id page_id r =
    (r.record_type ≡ update) × (r.transaction_id ≡ transaction_id) × (r.page_id ≡ page_id)

abbrev pub LastIsOther : ℕ → ℕ → Option LogRecord → Type 0
LastIsOther transaction_id page_id none = Unit
LastIsOther transaction_id page_id (some r) = ¬ IsUpdateOf transaction_id page_id r

-- The update `t` with another image after it.
abbrev pub with_image : LogRecord → Bytes → LogRecord
with_image t image = record {
  lsn = t.lsn;
  prev_lsn = t.prev_lsn;
  transaction_id = t.transaction_id;
  record_type = update;
  page_id = t.page_id;
  before_image = t.before_image;
  after_image = image;
}

-- An update at the end of the log, that points back at the last record of its transaction.
abbrev pub fresh_update : WriteAheadLog → ℕ → ℕ → Bytes → (ℕ → Bytes) → LogRecord
fresh_update log transaction_id page_id before_image image = record {
  lsn = log.flushed_lsn + log.buffer_bytes;
  prev_lsn = elim (Dict.get transaction_id log.last_lsn_of) [ none ↦ 0 | some lsn ↦ lsn ];
  transaction_id = transaction_id;
  record_type = update;
  page_id = page_id;
  before_image = before_image;
  after_image = image (log.flushed_lsn + log.buffer_bytes);
}

update-code : (r : RecordType) → code r ≡ code update → r ≡ update
update-code update h = refl
update-code commit h = absurd (omega (arith, h))
update-code abort h = absurd (omega (arith, h))
update-code checkpoint h = absurd (omega (arith, h))

module _ (transaction_id page_id : ℕ) (t : LogRecord) where
  supersedes-IsUpdateOf :
      supersedes transaction_id page_id t ≡ true → IsUpdateOf transaction_id page_id t
  supersedes-IsUpdateOf h =
      (update-code t.record_type (ground (arith, h)), ground (arith, h), ground (arith, h))

  supersedes-other :
      supersedes transaction_id page_id t ≡ false → ¬ IsUpdateOf transaction_id page_id t
  supersedes-other h (e, f, g) =
      let c : code t.record_type ≡ 1 = ap code e in ground (arith, h, c, f, g)

module _ (crc32 : Bytes → ℕ) where
  pub append-Refines :
      (record_type : RecordType) (transaction_id page_id : ℕ) (before_image after_image : Bytes)
      (log log' : WriteAheadLog) (entry : LogRecord) (done staged : List LogRecord)
      → append crc32 record_type transaction_id page_id before_image after_image log
        ≡ ok (entry, log')
      → length before_image ≤ max_image_bytes
      → length after_image ≤ max_image_bytes
      → Refines crc32 log done staged
      → Refines crc32 log' done (staged ++ entry ∷ [])
  append-Refines record_type transaction_id page_id before_image after_image log log' entry done
        staged h hb ha f =
      let (s, a) =
        append-Staged crc32 record_type transaction_id page_id before_image after_image log log'
          entry h in
      Staged-Refines crc32 log log' entry done staged s
        (record { before = rw a hb; after = rw a ha }) f

  -- Staging succeeds if the record fits its header.
  pub append_total :
      (record_type : RecordType) (transaction_id page_id : ℕ) (before_image after_image : Bytes)
      (log : WriteAheadLog)
      → ((b : Bytes) → crc32 b < 2 ^ 32)
      → log.closed ≡ false
      → Fits (new_record record_type transaction_id page_id before_image after_image log)
      → (log' : WriteAheadLog) × (append crc32 record_type transaction_id page_id before_image
            after_image log
          ≡ ok (new_record record_type transaction_id page_id before_image after_image log, log'))
  unfolding append
  append_total record_type transaction_id page_id before_image after_image log bound o fits =
      let (enc, e) =
        to_bytes_total crc32
          (new_record record_type transaction_id page_id before_image after_image log) bound fits in
      rw (o, e) (_, refl)

  coalesce-Refines :
      (t : LogRecord) (image : ℕ → Bytes) (log log' : WriteAheadLog) (entry : LogRecord)
      (done staged : List LogRecord)
      → coalesce crc32 t image log ≡ ok (entry, log')
      → last? staged ≡ some t
      → length (image t.lsn) ≤ max_image_bytes
      → Refines crc32 log done staged
      → Refines crc32 log' done (init staged ++ entry ∷ []) × (entry ≡ with_image t (image t.lsn))
  coalesce-Refines t image log log' entry done staged h last small f =
      let (c, a) = coalesce-Coalesced crc32 t image log log' entry h in
      let whole = split_last staged t last in
      let f' : Refines crc32 log done (init staged ++ t ∷ []) = rw (← whole) f in
      let contiguous : Contiguous log.base_lsn ((done ++ init staged) ++ t ∷ []) =
        rw (append_assoc done (init staged) (t ∷ [])) f'.contiguous in
      let here = Contiguous-right log.base_lsn (done ++ init staged) (t ∷ []) contiguous in
      (
        Coalesced-Refines crc32 log log' t entry done (init staged) c
            (record { before = rw c.before_image (here.1.before); after = rw a small }) f',
        a,
      )

  -- What logging a page change leaves: the log stands for one more staged record, `entry`, which either
  -- took the place of the last one, or came after it.
  abbrev pub Logged :
      ℕ
      → ℕ
      → Bytes
      → (ℕ → Bytes)
      → WriteAheadLog
      → WriteAheadLog
      → LogRecord
      → List LogRecord
      → List LogRecord
      → Type 0
  Logged transaction_id page_id before_image image log log' entry done staged =
      ((t : LogRecord) × (last? staged ≡ some t)
        × IsUpdateOf transaction_id page_id t
        × (entry ≡ with_image t (image t.lsn))
        × Refines crc32 log' done (init staged ++ entry ∷ []))
      ⊎ (LastIsOther transaction_id page_id (last? staged)
          × (entry ≡ fresh_update log transaction_id page_id before_image image)
          × Refines crc32 log' done (staged ++ entry ∷ []))

  pub append_update-Refines :
      (transaction_id page_id : ℕ) (before_image : Bytes) (image : ℕ → Bytes)
      (log log' : WriteAheadLog) (entry : LogRecord) (done staged : List LogRecord)
      → append_update crc32 transaction_id page_id before_image image log ≡ ok (entry, log')
      → length before_image ≤ max_image_bytes
      → ((lsn : ℕ) → length (image lsn) ≤ max_image_bytes)
      → Refines crc32 log done staged
      → Logged transaction_id page_id before_image image log log' entry done staged
  unfolding append_update
  append_update-Refines transaction_id page_id before_image image log log' entry done staged h hb ha
        f =
      elim (Option-cases (last? staged)) [
        | inl nothing ↦ fresh (rw nothing tt) (ground (arith, f.is_open, f.tail, nothing))
        | inr (t, last) ↦ elim (Bool-cases (supersedes transaction_id page_id t)) [
          | inl same ↦
              let (left, e) =
                coalesce-Refines t image log log' entry done staged
                  (ground (arith, f.is_open, f.tail, last, same)) last (ha t.lsn) f in
              inl (t, last, supersedes-IsUpdateOf transaction_id page_id t same, e, left)
          | inr other ↦
              fresh (rw last (supersedes-other transaction_id page_id t other))
                (ground (arith, f.is_open, f.tail, last, other))
        ]
      ]
    where
      fresh :
          LastIsOther transaction_id page_id (last? staged)
          → append crc32 update transaction_id page_id before_image (image (next_lsn log)) log
            ≡ ok (entry, log')
          → Logged transaction_id page_id before_image image log log' entry done staged
      fresh other k = inr (
        other,
        (append-Staged crc32 update transaction_id page_id before_image (image (next_lsn log)) log
            log' entry k).1,
        append-Refines update transaction_id page_id before_image (image (next_lsn log)) log log'
            entry done staged k hb (ha (next_lsn log)) f,
      )

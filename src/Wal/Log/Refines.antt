-- ===== src/Wal/Log/Refines.antt =====
-- The log against two lists of records: those that have reached the file, and those that are
-- staged in memory.
use chen_db.Prelude.{
  ℕ, ◌+◌, ◌-◌, ◌≡◌, sym, ap, ◌∙◌, inl, inr, false, some, List, [], ◌∷◌, ◌++◌, append_assoc, arith,
  Bool-cases, length, init, init-append_one, Option-cases,
}
use chen_db.Prelude.Bytes.{Bytes}
use chen_db.Prelude.Result.{ok}
use chen_db.Wal.Record.{LogRecord, RecordType, to_bytes}
use chen_db.Wal.Record.RoundTrip.{IsBounded, length-to_bytes}
use chen_db.Wal.Log.{
  WriteAheadLog, next_lsn, new_record, replacement, last_length, append, coalesce,
}
use chen_db.Wal.Log.Staged.{
  last?, last?-append_one, last_length-append_one, encode_each, encode_each-append_one,
  encode_each-split,
}
use chen_db.Wal.Log.Stream.{
  sizes, sizes-append, Contiguous, Contiguous-append, Contiguous-left, Contiguous-right, encode_all,
}

module _ (crc32 : Bytes → ℕ) where
  pub record Refines (log : WriteAheadLog) (done staged : List LogRecord) : Type 0 where
    pub durable : encode_all crc32 done ≡ some log.file
    pub pending : encode_each crc32 staged ≡ some log.buffer
    pub counted : log.buffer_bytes ≡ sizes staged
    pub flushed : log.flushed_lsn ≡ log.base_lsn + sizes done
    pub contiguous : Contiguous log.base_lsn (done ++ staged)
    pub tail : log.buffer_tail ≡ last? staged
    pub is_open : log.closed ≡ false

  -- What staging one record changes.
  pub record Staged (log log' : WriteAheadLog) (entry : LogRecord) : Type 0 where
    pub bytes : Bytes
    pub encoded : to_bytes crc32 entry ≡ some bytes
    pub buffer : log'.buffer ≡ log.buffer ++ bytes ∷ []
    pub buffer_bytes : log'.buffer_bytes ≡ log.buffer_bytes + length bytes
    pub tail : log'.buffer_tail ≡ some entry
    pub lsn : entry.lsn ≡ next_lsn log
    pub file : log'.file ≡ log.file
    pub base_lsn : log'.base_lsn ≡ log.base_lsn
    pub flushed_lsn : log'.flushed_lsn ≡ log.flushed_lsn
    pub closed : log'.closed ≡ log.closed

  pub append-Staged :
      (record_type : RecordType) (transaction_id page_id : ℕ) (before_image after_image : Bytes)
      (log log' : WriteAheadLog) (entry : LogRecord)
      → append crc32 record_type transaction_id page_id before_image after_image log
        ≡ ok (entry, log')
      → Staged log log' entry
        × (entry ≡ new_record record_type transaction_id page_id before_image after_image log)
  unfolding append
  append-Staged record_type transaction_id page_id before_image after_image log log' entry h =
      elim (Bool-cases log.closed) [
        | inl shut ↦ absurd (ground (arith, shut))
        | inr is_open ↦
            elim (Option-cases (
              to_bytes crc32
                (new_record record_type transaction_id page_id before_image after_image log))) [
                  | inl x ↦ absurd (ground (arith, is_open, x))
                  | inr (b, x) ↦ (
                    record {
                      bytes = b;
                      encoded = ground (arith, is_open, x);
                      buffer = ground (arith, is_open, x);
                      buffer_bytes = ground (arith, is_open, x);
                      tail = ground (arith, is_open, x);
                      lsn = ground (arith, is_open, x);
                      file = ground (arith, is_open, x);
                      base_lsn = ground (arith, is_open, x);
                      flushed_lsn = ground (arith, is_open, x);
                      closed = ground (arith, is_open, x);
                    },
                    ground (arith, is_open, x),
                  )
                ]
      ]

  -- A staged record extends the records that the log stands for.
  pub Staged-Refines :
      (log log' : WriteAheadLog) (entry : LogRecord) (done staged : List LogRecord)
      → Staged log log' entry
      → IsBounded entry
      → Refines log done staged
      → Refines log' done (staged ++ entry ∷ [])
  Staged-Refines log log' entry done staged s small f = record {
    durable = rw s.file f.durable;
    pending =
        rw s.buffer
          (encode_each-append_one crc32 staged entry log.buffer s.bytes f.pending s.encoded);
    counted = omega (
      arith,
      s.buffer_bytes,
      f.counted,
      sizes-append staged (entry ∷ []),
      length-to_bytes crc32 entry s.bytes s.encoded,
    );
    flushed = rw (s.flushed_lsn, s.base_lsn) f.flushed;
    contiguous =
        rw (s.base_lsn, ← append_assoc done staged (entry ∷ []))
          (Contiguous-append log.base_lsn (done ++ staged) (entry ∷ []) f.contiguous
            (omega (arith, s.lsn, f.counted, f.flushed, sizes-append done staged), small, tt));
    tail = s.tail ∙ sym (last?-append_one staged entry);
    is_open = s.closed ∙ f.is_open;
  }

  -- What coalescing with the staged record `t` changes.
  pub record Coalesced (log log' : WriteAheadLog) (t entry : LogRecord) : Type 0 where
    pub bytes : Bytes
    pub encoded : to_bytes crc32 entry ≡ some bytes
    pub buffer : log'.buffer ≡ init log.buffer ++ bytes ∷ []
    pub buffer_bytes : log'.buffer_bytes ≡ log.buffer_bytes + length bytes - last_length log.buffer
    pub tail : log'.buffer_tail ≡ some entry
    pub lsn : entry.lsn ≡ t.lsn
    pub before_image : entry.before_image ≡ t.before_image
    pub file : log'.file ≡ log.file
    pub base_lsn : log'.base_lsn ≡ log.base_lsn
    pub flushed_lsn : log'.flushed_lsn ≡ log.flushed_lsn
    pub closed : log'.closed ≡ log.closed

  pub coalesce-Coalesced :
      (t : LogRecord) (image : ℕ → Bytes) (log log' : WriteAheadLog) (entry : LogRecord)
      → coalesce crc32 t image log ≡ ok (entry, log')
      → Coalesced log log' t entry × (entry ≡ replacement t image)
  unfolding coalesce
  coalesce-Coalesced t image log log' entry h =
      elim (Option-cases (to_bytes crc32 (replacement t image))) [
        | inl x ↦ absurd (ground (arith, x))
        | inr (b, x) ↦ (
          record {
            bytes = b;
            encoded = ground (arith, x);
            buffer = ground (arith, x);
            buffer_bytes = ground (arith, x);
            tail = ground (arith, x);
            lsn = ground (arith, x);
            before_image = ground (arith, x);
            file = ground (arith, x);
            base_lsn = ground (arith, x);
            flushed_lsn = ground (arith, x);
            closed = ground (arith, x);
          },
          ground (arith, x),
        )
      ]

  pub Coalesced-Refines :
      (log log' : WriteAheadLog) (t entry : LogRecord) (done staged : List LogRecord)
      → Coalesced log log' t entry
      → IsBounded entry
      → Refines log done (staged ++ t ∷ [])
      → Refines log' done (staged ++ entry ∷ [])
  Coalesced-Refines log log' t entry done staged c small f =
      let (ds, e, x, y, z) = encode_each-split crc32 staged t log.buffer f.pending in
      let old = length-to_bytes crc32 t e y in
      let new = length-to_bytes crc32 entry c.bytes c.encoded in
      let placed : Contiguous log.base_lsn ((done ++ staged) ++ t ∷ []) =
        rw (append_assoc done staged (t ∷ [])) f.contiguous in
      let here = Contiguous-right log.base_lsn (done ++ staged) (t ∷ []) placed in
      record {
        durable = rw c.file f.durable;
        pending =
            rw (c.buffer, z, init-append_one)
              (encode_each-append_one crc32 staged entry ds c.bytes x c.encoded);
        counted = omega (
          arith,
          c.buffer_bytes,
          f.counted,
          sizes-append staged (t ∷ []),
          sizes-append staged (entry ∷ []),
          old,
          new,
          ap last_length z ∙ last_length-append_one ds e,
        );
        flushed = rw (c.flushed_lsn, c.base_lsn) f.flushed;
        contiguous =
            rw (c.base_lsn, ← append_assoc done staged (entry ∷ []))
              (Contiguous-append log.base_lsn (done ++ staged) (entry ∷ [])
                (Contiguous-left log.base_lsn (done ++ staged) (t ∷ []) placed)
                (c.lsn ∙ here.0, small, tt));
        tail = c.tail ∙ sym (last?-append_one staged entry);
        is_open = c.closed ∙ f.is_open;
      }

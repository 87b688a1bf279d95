-- ===== src/Wal/Log/Durability.antt =====
-- What a log gives back after a flush, a commit, a crash and a checkpoint.
use chen_db.Prelude.{
  ℕ, suc, ◌+◌, ◌-◌, ◌≤◌, ◌<◌, ◌≡◌, refl, sym, ap, ◌∙◌, ◌⊎◌, inl, inr, Bool, false, none, some, List,
  [], ◌∷◌, ◌++◌, append-nil, append_assoc, arith, ltb, Bool-cases, length, take, take-append_le,
  take-append_add, take-nil,
}
use chen_db.Prelude.Bytes.{Bytes}
use chen_db.Prelude.Result.{ok}
use chen_db.Wal.Record.{LogRecord, size}
use chen_db.Wal.Record.RoundTrip.{length-to_bytes}
use chen_db.Wal.Record.Torn.{decode_record-torn}
use chen_db.Wal.Log.{WriteAheadLog, open_log, joined, push, read_all}
use chen_db.Wal.Log.Staged.{encode_each-all, encode_each-cons}
use chen_db.Wal.Log.Stream.{
  sizes, sizes-append, Contiguous-append, Contiguous-left, Contiguous-right, Contiguous-take,
  encode_all, encode_all-append, length-encode_all, encode_all-cons, Stops, Stops-nil, scan-stream,
}
use chen_db.Wal.Log.Refines.{Refines}

push_file :
    (sync : Bool) (log : WriteAheadLog) → (push sync log).file ≡ log.file ++ joined log.buffer
unfolding push
push_file sync log = ground (arith, append-nil log.file)

pub push_flushed :
    (sync : Bool) (log : WriteAheadLog)
    → (push sync log).flushed_lsn ≡ log.flushed_lsn + length (joined log.buffer)
unfolding push
push_flushed sync log = ground arith

pub push_base : (sync : Bool) (log : WriteAheadLog) → (push sync log).base_lsn ≡ log.base_lsn
unfolding push
push_base sync log = ground arith

push_closed : (sync : Bool) (log : WriteAheadLog) → (push sync log).closed ≡ log.closed
unfolding push
push_closed sync log = ground arith

pub push_buffer : (sync : Bool) (log : WriteAheadLog) → (push sync log).buffer ≡ []
unfolding push
push_buffer sync log = ground arith

-- Of an empty buffer nothing else may be left over.
push_tail :
    (sync : Bool) (log : WriteAheadLog)
    → (log.buffer ≡ [] → log.buffer_tail ≡ none)
    → (push sync log).buffer_tail ≡ none
unfolding push
push_tail sync log h = ground (arith, h)

push_bytes :
    (sync : Bool) (log : WriteAheadLog)
    → log.buffer_bytes ≡ length (joined log.buffer)
    → (push sync log).buffer_bytes ≡ 0
unfolding push
push_bytes sync log h = ground (arith, h)

-- `j` is the number of leading records that fit into `m` bytes.
pub record Kept (m j : ℕ) (rs : List LogRecord) : Type 0 where
  pub fits : sizes (take j rs) ≤ m
  pub most : (m < sizes (take (suc j) rs)) ⊎ (length rs ≤ j)

module _ (crc32 : Bytes → ℕ) where
  no_tail :
      (log : WriteAheadLog) (done staged : List LogRecord)
      → Refines crc32 log done staged
      → log.buffer ≡ []
      → log.buffer_tail ≡ none
  no_tail log done [] f e = f.tail
  no_tail log done (r ∷ rs) f e =
      let (x, xs, _, _, z) = encode_each-cons crc32 r rs log.buffer f.pending in
      absurd (ground (arith, e, z))

  -- After a flush every record is in the file and none is staged.
  pub push-Refines :
      (sync : Bool) (log : WriteAheadLog) (done staged : List LogRecord)
      → Refines crc32 log done staged
      → Refines crc32 (push sync log) (done ++ staged) []
  push-Refines sync log done staged f =
      let all = encode_each-all crc32 staged log.buffer f.pending in
      let n = length-encode_all crc32 staged (joined log.buffer) all in
      record {
        durable =
            rw push_file
              (encode_all-append crc32 done staged log.file (joined log.buffer) f.durable all);
        pending = rw push_buffer refl;
        counted = push_bytes sync log (f.counted ∙ sym n);
        flushed = omega (
          arith,
          push_flushed sync log,
          push_base sync log,
          f.flushed,
          n,
          sizes-append done staged,
        );
        contiguous = rw (push_base, append-nil) (f.contiguous);
        tail = push_tail sync log (no_tail log done staged f);
        is_open = push_closed sync log ∙ f.is_open;
      }

  -- Reading the log returns exactly the records that have reached the file, and no torn tail.
  pub read_all-Refines :
      (log : WriteAheadLog) (done staged : List LogRecord)
      → Refines crc32 log done staged
      → read_all crc32 log ≡ ok (some (done, false))
  unfolding read_all
  read_all-Refines log done staged f = rw f.is_open (
      ap ok (
        rw (← append-nil log.file) (
          scan-stream crc32 done (suc (length (log.file ++ []))) 0 log.base_lsn [] log.file [] []
            f.durable
            (let e : log.base_lsn + 0 ≡ log.base_lsn = omega arith in
              rw e (Contiguous-left log.base_lsn done staged f.contiguous))
            (Stops-nil crc32) refl (omega arith))))

  more : {m j n l : ℕ} (s : ℕ) → s ≤ m → (m - s < n) ⊎ (l ≤ j) → (m < s + n) ⊎ (suc l ≤ suc j)
  more s p q = omega arith

  -- Where a write of `m` bytes of records breaks off, as many records as fit are whole, and what
  -- is left of the next one stops the scan.
  cut_stream :
      (rs : List LogRecord) (bs : Bytes) (m : ℕ)
      → encode_all crc32 rs ≡ some bs
      → (j : ℕ) × (xs : Bytes) × (tail : Bytes) × (encode_all crc32 (take j rs) ≡ some xs)
        × (take m bs ≡ xs ++ tail)
        × Stops crc32 tail
        × Kept m j rs
  cut_stream [] bs m h =
      let e : bs ≡ [] = ground arith in
      (
        0,
        [],
        [],
        refl,
        rw e (take-nil m),
        Stops-nil crc32,
        record { fits = omega arith; most = inr (omega arith) },
      )
  cut_stream (r ∷ rs) bs m h =
      let (e, es, x, y, z) = encode_all-cons crc32 r rs bs h in
      let n = length-to_bytes crc32 r e x in
      elim (Bool-cases (ltb m (length e))) [
        | inl torn ↦ (
          0,
          [],
          take m e,
          refl,
          rw z (take-append_le e es m (ground arith)),
          λ before base_lsn. decode_record-torn crc32 r e before m base_lsn x (ground arith),
          record { fits = omega arith; most = inl (ground (arith, n)) },
        )
        | inr past ↦
            let (j, xs, tail, a, b, c, k) = cut_stream rs es (m - size r) y in
            let d : take m (e ++ es) ≡ e ++ take (m - size r) es =
              take-append_add e es m (m - size r) (ground (arith, n)) in
            (
              suc j,
              e ++ xs,
              tail,
              rw (x, a),
              ap (take m) z ∙ d ∙ ap (λ (t : Bytes). e ++ t) b ∙ sym (append_assoc e xs tail),
              c,
              record {
                fits = ground (arith, n, k.fits);
                most = more (size r) (ground (arith, n)) k.most;
              },
            )
      ]

  -- A crash may cut the flush of the staged records anywhere. Reopened, the log reads as all the
  -- records that had reached the file and as many of the staged ones as were written whole.
  pub read_all-crash :
      (log : WriteAheadLog) (done staged : List LogRecord) (m : ℕ) (sync : Bool)
      → Refines crc32 log done staged
      → (j : ℕ) × (torn : Bool) × (read_all crc32
            (open_log (log.file ++ take m (joined log.buffer)) log.base_lsn sync)
          ≡ ok (some (done ++ take j staged, torn)))
        × Kept m j staged
  unfolding read_all open_log
  read_all-crash log done staged m sync f =
      let all = encode_each-all crc32 staged log.buffer f.pending in
      let (j, xs, tail, a, b, c, k) = cut_stream staged (joined log.buffer) m all in
      let whole = encode_all-append crc32 done (take j staged) log.file xs f.durable a in
      let placed =
        Contiguous-append log.base_lsn done (take j staged)
          (Contiguous-left log.base_lsn done staged f.contiguous)
          (Contiguous-take (log.base_lsn + sizes done) j staged
            (Contiguous-right log.base_lsn done staged f.contiguous)) in
      (
        j,
        ltb 0 (length tail),
        ap ok (
            rw (b, ← append_assoc log.file xs tail)
              (scan-stream crc32 (done ++ take j staged) (suc (length (log.file ++ xs ++ tail))) 0
                log.base_lsn [] (log.file ++ xs) tail [] whole
                (let e : log.base_lsn + 0 ≡ log.base_lsn = omega arith in rw e placed) c refl
                (omega arith))),
        k,
      )

-- ===== src/Wal/Log/Stream.antt =====
-- A log file as a sequence of records, each at the position that its LSN names, and the scan that
-- reads it back, torn end included.
use chen_db.Prelude.{
  ℕ, zero, suc, ◌+◌, ◌<◌, ◌≡◌, ap, ◌∙◌, inl, inr, Option, none, some, List, [], ◌∷◌, ◌++◌,
  append-nil, append_assoc, arith, ltb, length, take, length-append, Option-cases,
}
use chen_db.Prelude.Bytes.{Bytes}
use chen_db.Wal.Record.{LogRecord, size, to_bytes, decode_record, ◌>>=◌}
use chen_db.Wal.Record.RoundTrip.{IsBounded, decode_record-to_bytes, length-to_bytes}
use chen_db.Wal.Record.Torn.{decode_short}
use chen_db.Wal.Log.{scan}

-- The bytes that the records take together.
abbrev pub sizes : List LogRecord → ℕ
sizes [] = 0
sizes (r ∷ rs) = size r + sizes rs

-- Every record stands at its LSN, and is no larger than the decoder accepts.
abbrev pub Contiguous : ℕ → List LogRecord → Type 0
Contiguous lsn [] = Unit
Contiguous lsn (r ∷ rs) = (r.lsn ≡ lsn) × IsBounded r × Contiguous (lsn + size r) rs

pub Contiguous-append :
    (lsn : ℕ) (rs qs : List LogRecord)
    → Contiguous lsn rs
    → Contiguous (lsn + sizes rs) qs
    → Contiguous lsn (rs ++ qs)
Contiguous-append lsn [] qs h k = let e : lsn + 0 ≡ lsn = omega arith in rw e at k
Contiguous-append lsn (r ∷ rs) qs h k =
    let e : lsn + (size r + sizes rs) ≡ lsn + size r + sizes rs = omega arith in
    (h.0, h.1, Contiguous-append (lsn + size r) rs qs h.2 (rw e at k))

pub Contiguous-left :
    (lsn : ℕ) (rs qs : List LogRecord) → Contiguous lsn (rs ++ qs) → Contiguous lsn rs
Contiguous-left lsn [] qs h = tt
Contiguous-left lsn (r ∷ rs) qs h = (h.0, h.1, Contiguous-left (lsn + size r) rs qs h.2)

pub Contiguous-right :
    (lsn : ℕ) (rs qs : List LogRecord) → Contiguous lsn (rs ++ qs) → Contiguous (lsn + sizes rs) qs
Contiguous-right lsn [] qs h = let e : lsn + 0 ≡ lsn = omega arith in rw e h
Contiguous-right lsn (r ∷ rs) qs h =
    let e : lsn + (size r + sizes rs) ≡ lsn + size r + sizes rs = omega arith in
    rw e (Contiguous-right (lsn + size r) rs qs h.2)

pub Contiguous-take :
    (lsn j : ℕ) (rs : List LogRecord) → Contiguous lsn rs → Contiguous lsn (take j rs)
Contiguous-take lsn zero rs h = tt
Contiguous-take lsn (suc j) [] h = tt
Contiguous-take lsn (suc j) (r ∷ rs) h = (h.0, h.1, Contiguous-take (lsn + size r) j rs h.2)

pub sizes-append : (rs qs : List LogRecord) → sizes (rs ++ qs) ≡ sizes rs + sizes qs
sizes-append [] qs = omega arith
sizes-append (r ∷ rs) qs = omega (arith, sizes-append rs qs)

module _ (crc32 : Bytes → ℕ) where
  -- The file that holds exactly these records.
  abbrev pub encode_all : List LogRecord → Option Bytes
  encode_all [] = some []
  encode_all (r ∷ rs) = do e ← to_bytes crc32 r; es ← encode_all rs; some (e ++ es)

  pub encode_all-cons :
      (r : LogRecord) (rs : List LogRecord) (bs : Bytes)
      → encode_all (r ∷ rs) ≡ some bs
      → (e : Bytes) × (es : Bytes) × (to_bytes crc32 r ≡ some e)
        × (encode_all rs ≡ some es)
        × (bs ≡ e ++ es)
  encode_all-cons r rs bs h = elim (Option-cases (to_bytes crc32 r)) [
    | inl x ↦ absurd (ground (arith, x))
    | inr (e, x) ↦ elim (Option-cases (encode_all rs)) [
      | inl y ↦ absurd (ground (arith, x, y))
      | inr (es, y) ↦ (e, es, x, y, ground (arith, x, y))
    ]
  ]

  pub encode_all-append :
      (rs qs : List LogRecord) (xs bs : Bytes)
      → encode_all rs ≡ some xs
      → encode_all qs ≡ some bs
      → encode_all (rs ++ qs) ≡ some (xs ++ bs)
  encode_all-append [] qs xs bs h k = ground arith
  encode_all-append (r ∷ rs) qs xs bs h k =
      let (e, es, x, y, z) = encode_all-cons r rs xs h in
      rw (x, encode_all-append rs qs es bs y k, z, append_assoc)

  pub length-encode_all :
      (rs : List LogRecord) (bs : Bytes) → encode_all rs ≡ some bs → length bs ≡ sizes rs
  length-encode_all [] bs h = ground arith
  length-encode_all (r ∷ rs) bs h =
      let (e, es, x, y, z) = encode_all-cons r rs bs h in
      rw z
        (omega (arith, length-append e es, length-to_bytes crc32 r e x, length-encode_all rs es y))

  -- Bytes at which the scan stops, wherever they stand.
  abbrev pub Stops : Bytes → Type 0
  Stops tail =
      (before : Bytes) (base_lsn : ℕ)
      → decode_record crc32 (before ++ tail) (length before) base_lsn ≡ none

  pub Stops-nil : Stops []
  Stops-nil before base_lsn =
      decode_short crc32 _ _ base_lsn (omega (arith, length-append before []))

  scan_end :
      (fuel offset base_lsn : ℕ) (before tail : Bytes) (acc : List LogRecord)
      → Stops tail
      → offset ≡ length before
      → scan crc32 (suc fuel) (before ++ tail) offset base_lsn acc ≡ some (acc, ltb 0 (length tail))
  unfolding scan
  scan_end fuel offset base_lsn before tail acc s o =
      rw o (ground (arith, s before base_lsn, length-append before tail))

  scan_step :
      (fuel offset base_lsn : ℕ) (raw : Bytes) (r : LogRecord) (acc : List LogRecord)
      → offset < length raw
      → decode_record crc32 raw offset base_lsn ≡ some r
      → scan crc32 (suc fuel) raw offset base_lsn acc
        ≡ scan crc32 fuel raw (offset + size r) base_lsn (acc ++ r ∷ [])
  unfolding scan
  scan_step fuel offset base_lsn raw r acc h d = ground (arith, d)

  -- The scan returns exactly the records, and reports a tail that is not one.
  pub scan-stream :
      (rs : List LogRecord) (fuel offset base_lsn : ℕ) (before bs tail : Bytes)
      (acc : List LogRecord)
      → encode_all rs ≡ some bs
      → Contiguous (base_lsn + offset) rs
      → Stops tail
      → offset ≡ length before
      → length (bs ++ tail) < fuel
      → scan crc32 fuel (before ++ (bs ++ tail)) offset base_lsn acc
        ≡ some (acc ++ rs, ltb 0 (length tail))
  scan-stream rs zero offset base_lsn before bs tail acc h c s o f = elim f [ ]
  scan-stream [] (suc fuel) offset base_lsn before bs tail acc h c s o f =
      let e : bs ≡ [] = ground arith in
      rw (e, append-nil) (scan_end fuel offset base_lsn before tail acc s o)
  scan-stream (r ∷ rs) (suc fuel) offset base_lsn before bs tail acc h c s o f =
      let (e, es, x, y, z) = encode_all-cons r rs bs h in
      let n = length-to_bytes crc32 r e x in
      let at : offset < length (before ++ (e ++ (es ++ tail))) =
        omega (arith, length-append before (e ++ (es ++ tail)), length-append e (es ++ tail), n) in
      rw (z, append_assoc e es tail)
        (scan_step fuel offset base_lsn _ r acc at (
            rw o
              (decode_record-to_bytes crc32 r e before (es ++ tail) base_lsn x c.1 (omega arith)))
          ∙ rw (← append_assoc before e (es ++ tail), ← append_assoc acc (r ∷ []) rs)
              (scan-stream rs fuel (offset + size r) base_lsn (before ++ e) es tail (acc ++ r ∷ [])
                y
                (let k : base_lsn + offset + size r ≡ base_lsn + (offset + size r) = omega arith in
                  rw k at c.2)
                s (omega (arith, length-append before e, n))
                (omega (
                  arith,
                  ap length z,
                  length-append e es,
                  length-append es tail,
                  length-append bs tail,
                  n,
                ))))

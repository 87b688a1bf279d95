-- ===== src/Wal/Record/RoundTrip.antt =====
-- A record read back from its bytes, and what a torn record reads as.
use chen_db.Prelude.{
  ℕ, ◌+◌, ◌-◌, ◌^◌, ◌≤◌, ◌<◌, ◌≡◌, refl, ap, ◌∙◌, some, ◌++◌, append_assoc, arith, length, take,
  drop, length-append, take-append_length, drop-append_length, drop-drop, Option-cases, inl, inr,
}
use chen_db.Prelude.Bytes.{Bytes, le_bytes, le_value, pack, le_value-le_bytes}
use chen_db.Wal.Record.{
  LogRecord, code, of_code, body, to_bytes, decode_record, size, max_image_bytes,
}

-- Every field fits the width that the header gives it.
pub record Fits (r : LogRecord) : Type 0 where
  pub lsn : r.lsn < 256 ^ 8
  pub prev_lsn : r.prev_lsn < 256 ^ 8
  pub transaction_id : r.transaction_id < 256 ^ 8
  pub page_id : r.page_id < 256 ^ 4
  pub before_len : length r.before_image < 256 ^ 4
  pub after_len : length r.after_image < 256 ^ 4

-- The 40 header bytes behind the checksum, with `rest` behind them.
pub header : LogRecord → Bytes → Bytes
unfolding le_bytes
header r rest =
    le_bytes 8 r.lsn
    ++ (le_bytes 8 r.prev_lsn
        ++ (le_bytes 8 r.transaction_id
            ++ (le_bytes 1 (code r.record_type)
                ++ (le_bytes 1 0
                    ++ (le_bytes 2 0
                        ++ (le_bytes 4 r.page_id
                            ++ (le_bytes 4 (length r.before_image)
                                ++ (le_bytes 4 (length r.after_image) ++ rest))))))))

pack-eq_some : (n v : ℕ) (b : Bytes) → pack n v ≡ some b → (v < 256 ^ n) × (b ≡ le_bytes n v)
unfolding pack
pack-eq_some n v b h = ground arith

pack-eq : (n v : ℕ) → v < 256 ^ n → pack n v ≡ some (le_bytes n v)
unfolding pack
pack-eq n v h = ground arith

pub body-eq : (r : LogRecord) → Fits r → body r ≡ some (header r (r.before_image ++ r.after_image))
unfolding body header pack
body-eq r f = ground arith

pub body-Fits : (r : LogRecord) (b : Bytes) → body r ≡ some b → Fits r
unfolding body pack
body-Fits r b h = ground arith

-- A record with checksum `c` and `rest` behind its header.
unfoldable pub whole : LogRecord → ℕ → Bytes → Bytes
unfolding header
whole r c rest = le_bytes 4 c ++ header r rest

length-header : (r : LogRecord) (rest : Bytes) → length (header r rest) ≡ 40 + length rest
unfolding header
length-header r rest = omega arith

-- What the decoder reads of a whole header with checksum `c`.
module _ (r : LogRecord) (f : Fits r) (c : ℕ) (hc : c < 256 ^ 4) (rest : Bytes) where
  read_checksum : le_value (take 4 (whole r c rest)) ≡ c
  unfolding whole
  read_checksum = le_value-le_bytes 4 c hc

  read_lsn : le_value (take 8 (drop 4 (whole r c rest))) ≡ r.lsn
  unfolding whole
  read_lsn = le_value-le_bytes 8 r.lsn f.lsn

  read_prev_lsn : le_value (take 8 (drop 12 (whole r c rest))) ≡ r.prev_lsn
  unfolding whole
  read_prev_lsn = le_value-le_bytes 8 r.prev_lsn f.prev_lsn

  read_transaction : le_value (take 8 (drop 20 (whole r c rest))) ≡ r.transaction_id
  unfolding whole
  read_transaction = le_value-le_bytes 8 r.transaction_id f.transaction_id

  read_type : of_code (le_value (take 1 (drop 28 (whole r c rest)))) ≡ some r.record_type
  unfolding whole le_value
  read_type = ground arith

  read_page_id : le_value (take 4 (drop 32 (whole r c rest))) ≡ r.page_id
  unfolding whole
  read_page_id = le_value-le_bytes 4 r.page_id f.page_id

  pub read_before_len : le_value (take 4 (drop 36 (whole r c rest))) ≡ length r.before_image
  unfolding whole
  read_before_len = le_value-le_bytes 4 (length r.before_image) f.before_len

  pub read_after_len : le_value (take 4 (drop 40 (whole r c rest))) ≡ length r.after_image
  unfolding whole
  read_after_len = le_value-le_bytes 4 (length r.after_image) f.after_len

  read_covered : drop 4 (whole r c rest) ≡ header r rest
  unfolding whole
  read_covered = refl

  read_rest : (n : ℕ) → drop (44 + n) (whole r c rest) ≡ drop n rest
  unfolding whole
  read_rest n = drop-drop 44 n (whole r c rest)

  pub length-whole : length (whole r c rest) ≡ 44 + length rest
  unfolding whole
  length-whole = omega arith

module _ (r : LogRecord) (f : Fits r) (c : ℕ) (hc : c < 256 ^ 4) where
  open r use {before_image, after_image}

  module _ (rest : Bytes) where
    abbrev bytes_of : Bytes
    bytes_of = whole r c (before_image ++ (after_image ++ rest))

    read_before : take (length before_image) (drop 44 bytes_of) ≡ before_image
    read_before =
        rw (read_rest r f c hc (before_image ++ (after_image ++ rest)) 0)
          (take-append_length before_image (after_image ++ rest) _ refl)

    read_after : take (length after_image) (drop (44 + length before_image) bytes_of) ≡ after_image
    read_after =
        rw
          (
            read_rest r f c hc (before_image ++ (after_image ++ rest)) (length before_image),
            drop-append_length before_image (after_image ++ rest) _ refl,
          )
          (take-append_length after_image rest _ refl)

    header-append :
        header r (before_image ++ (after_image ++ rest))
        ≡ header r (before_image ++ after_image) ++ rest
    unfolding header
    header-append = rw (← append_assoc before_image after_image rest)

    read_checked :
        (n : ℕ)
        → n ≡ 40 + length before_image + length after_image
        → take n (drop 4 bytes_of) ≡ header r (before_image ++ after_image)
    read_checked n e =
        rw (read_covered r f c hc (before_image ++ (after_image ++ rest)), header-append)
          (take-append_length (header r (before_image ++ after_image)) rest n (
            omega (
              arith,
              e,
              length-header r (before_image ++ after_image),
              length-append before_image after_image,
            )))

module _ (crc32 : Bytes → ℕ) (r : LogRecord) (f : Fits r) where
  open r use {before_image, after_image}

  pub checksum : ℕ
  checksum = crc32 (header r (before_image ++ after_image))

  decode_at :
      (raw : Bytes) (offset base_lsn : ℕ) (rest : Bytes)
      → checksum < 256 ^ 4
      → length before_image ≤ max_image_bytes
      → length after_image ≤ max_image_bytes
      → drop offset raw ≡ whole r checksum (before_image ++ (after_image ++ rest))
      → offset + 44 + length before_image + length after_image ≤ length raw
      → r.lsn ≡ base_lsn + offset
      → decode_record crc32 raw offset base_lsn ≡ some r
  unfolding decode_record checksum
  decode_at raw offset base_lsn rest hc hb ha e hl hlsn =
      rw
        (
          e,
          read_checksum r f checksum hc _,
          read_lsn r f checksum hc _,
          read_before_len r f checksum hc _,
          read_after_len r f checksum hc _,
          read_type r f checksum hc _,
          read_prev_lsn r f checksum hc _,
          read_transaction r f checksum hc _,
          read_page_id r f checksum hc _,
          read_before r f checksum hc rest,
          read_after r f checksum hc rest,
        )
        (rw
          (read_checked r f checksum hc rest
            (offset + 44 + length before_image + length after_image - (offset + 4)) (omega arith))
          (ground arith))

  whole-append :
      (c : ℕ) (rest : Bytes)
      → whole r c (before_image ++ after_image) ++ rest
        ≡ whole r c (before_image ++ (after_image ++ rest))
  unfolding whole
  whole-append c rest = rw (← append_assoc before_image after_image rest)

  pub to_bytes-whole :
      (enc : Bytes)
      → to_bytes crc32 r ≡ some enc
      → (enc ≡ whole r checksum (before_image ++ after_image)) × (checksum < 256 ^ 4)
  unfolding to_bytes checksum whole
  to_bytes-whole enc h =
      ground (arith, body-eq r f, pack-eq_some 4 (crc32 (header r (before_image ++ after_image))))

-- A record that fits has bytes.
pub to_bytes_total :
    (crc32 : Bytes → ℕ) (r : LogRecord)
    → ((b : Bytes) → crc32 b < 2 ^ 32)
    → Fits r
    → (enc : Bytes) × (to_bytes crc32 r ≡ some enc)
unfolding to_bytes
to_bytes_total crc32 r bound f =
    let covered = header r (r.before_image ++ r.after_image) in
    (
      le_bytes 4 (crc32 covered) ++ covered,
      rw (body-eq r f, pack-eq 4 (crc32 covered) (bound covered)),
    )

pub to_bytes-Fits :
    (crc32 : Bytes → ℕ) (r : LogRecord) (enc : Bytes) → to_bytes crc32 r ≡ some enc → Fits r
unfolding to_bytes
to_bytes-Fits crc32 r enc h = elim (Option-cases (body r)) [
  | inl e ↦ absurd (ground (arith, e))
  | inr (b, e) ↦ body-Fits r b e
]

-- The images are no longer than the decoder accepts.
pub record IsBounded (r : LogRecord) : Type 0 where
  pub before : length r.before_image ≤ max_image_bytes
  pub after : length r.after_image ≤ max_image_bytes

pub length-to_bytes :
    (crc32 : Bytes → ℕ) (r : LogRecord) (enc : Bytes)
    → to_bytes crc32 r ≡ some enc
    → length enc ≡ size r
length-to_bytes crc32 r enc h =
    let f = to_bytes-Fits crc32 r enc h in
    let (e, _) = to_bytes-whole crc32 r f enc h in
    rw e (
      omega (
        arith,
        length-whole r f (checksum crc32 r f) (to_bytes-whole crc32 r f enc h).1
            (r.before_image ++ r.after_image),
        length-append r.before_image r.after_image,
      ))

-- Encoding a record and decoding it at its own log position, between any other bytes, gives the
-- record back, if its images are no longer than the decoder accepts.
pub decode_record-to_bytes :
    (crc32 : Bytes → ℕ) (r : LogRecord) (enc before rest : Bytes) (base_lsn : ℕ)
    → to_bytes crc32 r ≡ some enc
    → IsBounded r
    → r.lsn ≡ base_lsn + length before
    → decode_record crc32 (before ++ (enc ++ rest)) (length before) base_lsn ≡ some r
decode_record-to_bytes crc32 r enc before rest base_lsn h small hlsn =
    let f = to_bytes-Fits crc32 r enc h in
    let (e, hc) = to_bytes-whole crc32 r f enc h in
    decode_at crc32 r f (before ++ (enc ++ rest)) (length before) base_lsn rest hc small.before
      small.after
      (drop-append_length before (enc ++ rest) _ refl
        ∙ ap (λ (x : Bytes). x ++ rest) e
        ∙ whole-append crc32 r f (checksum crc32 r f) rest)
      (omega (
        arith,
        length-append before (enc ++ rest),
        length-append enc rest,
        length-to_bytes crc32 r enc h,
      ))
      hlsn

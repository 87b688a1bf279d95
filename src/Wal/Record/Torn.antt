-- ===== src/Wal/Record/Torn.antt =====
-- What a record that a crash cut short reads as.
use chen_db.Prelude.{
  ℕ, ◌+◌, ◌-◌, ◌<◌, ◌≡◌, refl, ap, ◌∙◌, inl, inr, none, some, [], ◌++◌, arith, ltb, Bool-cases,
  lt→ltb, if_same, length, take, drop, length-append, length-take, drop-append_length,
  take-append_add,
}
use chen_db.Prelude.Bytes.{Bytes, le_value}
use chen_db.Wal.Record.{LogRecord, to_bytes, decode_record, record_header_size}
use chen_db.Wal.Record.RoundTrip.{
  whole, checksum, read_before_len, read_after_len, to_bytes-Fits, to_bytes-whole, length-to_bytes,
}

module _ (crc32 : Bytes → ℕ) where
  -- Too few bytes for a header.
  pub decode_short :
      (raw : Bytes) (offset base_lsn : ℕ)
      → length raw < offset + record_header_size
      → decode_record crc32 raw offset base_lsn ≡ none
  unfolding decode_record
  decode_short raw offset base_lsn h = ground arith

  -- A whole header whose two lengths reach past the end.
  decode_past_end :
      (raw : Bytes) (offset base_lsn b a : ℕ)
      → le_value (take 4 (drop 36 (drop offset raw))) ≡ b
      → le_value (take 4 (drop 40 (drop offset raw))) ≡ a
      → length raw < offset + record_header_size + b + a
      → decode_record crc32 raw offset base_lsn ≡ none
  unfolding decode_record
  decode_past_end raw offset base_lsn b a eb ea h =
      rw (eb, ea, lt→ltb _ _ h) (if_same _ none _ (if_same _ none _ refl))

take-whole :
    (r : LogRecord) (c j : ℕ) (rest : Bytes)
    → take (44 + j) (whole r c rest) ≡ whole r c (take j rest)
unfolding whole
take-whole r c j rest = take-append_add (whole r c []) rest (44 + j) j refl

-- A record of which only a proper part was written is not decoded, whatever the checksum.
pub decode_record-torn :
    (crc32 : Bytes → ℕ) (r : LogRecord) (enc before : Bytes) (m base_lsn : ℕ)
    → to_bytes crc32 r ≡ some enc
    → m < length enc
    → decode_record crc32 (before ++ take m enc) (length before) base_lsn ≡ none
decode_record-torn crc32 r enc before m base_lsn h lt =
    let f = to_bytes-Fits crc32 r enc h in
    let (e, hc) = to_bytes-whole crc32 r f enc h in
    let images = r.before_image ++ r.after_image in
    let c = checksum crc32 r f in
    let n : length (before ++ take m enc) ≡ length before + m =
      omega (arith, length-append before (take m enc), length-take m enc) in
    elim (Bool-cases (ltb m 44)) [
      | inl short ↦ decode_short crc32 _ _ base_lsn (ground (arith, n))
      | inr long ↦
          let cut : drop (length before) (before ++ take m enc) ≡ whole r c (take (m - 44) images) =
            drop-append_length before (take m enc) _ refl
            ∙ ap (take m) e
            ∙ ap (λ (k : ℕ). take k (whole r c images)) (ground arith)
            ∙ take-whole r c (m - 44) images in
          decode_past_end crc32 _ _ base_lsn (length r.before_image) (length r.after_image)
            (rw cut (read_before_len r f c hc _)) (rw cut (read_after_len r f c hc _))
            (omega (arith, n, length-to_bytes crc32 r enc h))
    ]

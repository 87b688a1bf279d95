-- ===== src/Wal/Record.antt =====
-- engine/wal/record.py: one entry of the log, its bytes, and its decoder. `zlib.crc32` is the
-- parameter `crc32`.
pub mod RoundTrip
pub mod Torn
use chen_db.Prelude.{
  ℕ, ◌+◌, ◌-◌, ◌^◌, Bool, true, false, ◌||◌, not, Option, none, some, List, [], ◌∷◌, ◌++◌, ltb, leb,
  ◌==◌, if◌then◌else◌, length, take, drop,
}
use chen_db.Prelude.Bytes.{Bytes, le_value, pack}

pub data RecordType : Type 0 where
  update commit abort checkpoint : RecordType

abbrev pub code : RecordType → ℕ
code update = 1
code commit = 2
code abort = 3
code checkpoint = 4

-- `RecordType(value)`; `none` is the `ValueError`.
abbrev pub of_code : ℕ → Option RecordType
of_code n =
    if n == 1
    then some update
    else if n == 2
    then some commit
    else if n == 3
    then some abort
    else if n == 4
    then some checkpoint
    else none

abbrev pub record_header_size : ℕ
record_header_size = 44

abbrev pub no_transaction : ℕ
no_transaction = 0

abbrev pub max_image_bytes : ℕ
max_image_bytes = 2 ^ 20

pub record LogRecord : Type 0 where
  pub lsn : ℕ
  pub prev_lsn : ℕ
  pub transaction_id : ℕ
  pub record_type : RecordType
  pub page_id : ℕ
  pub before_image : Bytes
  pub after_image : Bytes

abbrev pub size : LogRecord → ℕ
size r = record_header_size + length r.before_image + length r.after_image

abbrev pub end_lsn : LogRecord → ℕ
end_lsn r = r.lsn + size r

-- `bool(before_image)`
abbrev pub has_undo : LogRecord → Bool
has_undo r = not (length r.before_image == 0)

infixl 5 ◌>>=◌
abbrev pub ◌>>=◌ {ℓ κ} : {A : Type ℓ} {B : Type κ} → Option A → (A → Option B) → Option B
none >>= f = none
some a >>= f = f a

-- The fields behind the checksum, in the order of `RECORD_HEADER_FORMAT`; flags and the reserved
-- half-word are zero.
unfoldable pub body : LogRecord → Option Bytes
unfolding pack
body r = do
  lsn ← pack 8 r.lsn
  prev_lsn ← pack 8 r.prev_lsn
  transaction_id ← pack 8 r.transaction_id
  record_type ← pack 1 (code r.record_type)
  flags ← pack 1 0
  reserved ← pack 2 0
  page_id ← pack 4 r.page_id
  before_len ← pack 4 (length r.before_image)
  after_len ← pack 4 (length r.after_image)
  some (
      lsn
      ++ (prev_lsn
          ++ (transaction_id
              ++ (record_type
                  ++ (flags
                      ++ (reserved
                          ++ (page_id
                              ++ (before_len
                                  ++ (after_len ++ (r.before_image ++ r.after_image))))))))))

module _ (crc32 : Bytes → ℕ) where
  -- `none` is `struct.error`: a field that does not fit its width.
  unfoldable pub to_bytes : LogRecord → Option Bytes
  unfolding body
  to_bytes r = do covered ← body r; checksum ← pack 4 (crc32 covered); some (checksum ++ covered)

  -- One record at `offset`, or `none` if it is not whole.
  unfoldable pub decode_record : Bytes → ℕ → ℕ → Option LogRecord
  decode_record raw offset base_lsn =
      let rest = drop offset raw in
      let checksum = le_value (take 4 rest) in
      let lsn = le_value (take 8 (drop 4 rest)) in
      let before_len = le_value (take 4 (drop 36 rest)) in
      let after_len = le_value (take 4 (drop 40 rest)) in
      let end = offset + record_header_size + before_len + after_len in
      if ltb (length raw) (offset + record_header_size)
      then none
      else if ltb max_image_bytes before_len || ltb max_image_bytes after_len
      then none
      else if ltb (length raw) end
      then none
      else if not (crc32 (take (end - (offset + 4)) (drop 4 rest)) == checksum)
      then none
      else if not (lsn == base_lsn + offset)
      then none
      else do
        record_type ← of_code (le_value (take 1 (drop 28 rest)))
        some (record {
          lsn = lsn;
          prev_lsn = le_value (take 8 (drop 12 rest));
          transaction_id = le_value (take 8 (drop 20 rest));
          record_type = record_type;
          page_id = le_value (take 4 (drop 32 rest));
          before_image = take before_len (drop record_header_size rest);
          after_image = take after_len (drop (record_header_size + before_len) rest);
        })

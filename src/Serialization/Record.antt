-- ===== src/Serialization/Record.antt =====
-- engine/serialization/types.py and record.py: the codecs of the types, and rows as bytes. A float is its
-- 64 bits and a text its UTF-8 bytes: `float_of` is Python's conversion of an integer, `none` where it
-- raises `OverflowError`, and `is_utf8` says which bytes decode.
pub mod Bitmap
pub mod Codec
pub mod RoundTrip
use Prim.Native.Nat.{bit_or}
use chen_db.Prelude.{
  ℕ, zero, suc, ◌+◌, ◌-◌, ◌*◌, ◌/◌, ◌%◌, ◌^◌, ◌≡◌, Bool, true, false, Option, none, some, List, [],
  ◌∷◌, ◌++◌, ltb, leb, ◌==◌, not, if◌then◌else◌, length, get_elem?,
}
use chen_db.Prelude.Bytes.{Bytes, le_bytes, le_value}
use chen_db.Prelude.Result.{Result, ok, err, ◌>>=◌, ◌>>◌}
use chen_db.Prelude.Slices.{slice}
use chen_db.Index.Key.{
  ℤ, pos, negsuc, DataType, integer, float, boolean, text, Value, null, integer_value, float_value,
  boolean_value, text_value,
}

-- `SchemaMismatchError`, `NullConstraintViolation`, `TypeMismatchError`, `SerializationError`, and what
-- Python raises by itself.
pub data RecordError : Type 0 where
  schema_mismatch null_constraint type_mismatch serialization overflow struct_error : RecordError

pub record Column : Type 0 where
  pub name : Bytes
  pub data_type : DataType
  pub nullable : Bool
  pub primary_key : Bool

abbrev pub Schema : Type 0
Schema = List Column

abbrev pub null_bitmap_size : Schema → ℕ
null_bitmap_size columns = (length columns + 7) / 8

-- `struct.pack("<q", value)` of an integer of 64 bits, and `struct.unpack`.
unfoldable pub twos_complement : ℤ → ℕ
twos_complement (pos n) = n
twos_complement (negsuc n) = 2 ^ 64 - suc n

unfoldable pub signed : ℕ → ℤ
signed v = if ltb v (2 ^ 63) then pos v else negsuc (2 ^ 64 - suc v)

abbrev pub fits_int64 : ℤ → Bool
fits_int64 (pos n) = ltb n (2 ^ 63)
fits_int64 (negsuc n) = ltb n (2 ^ 63)

-- `math.isfinite`, by the exponent.
abbrev pub is_finite : ℕ → Bool
is_finite bits = not ((bits / 2 ^ 52) % 2048 == 2047)

abbrev pub raised_if : Bool → RecordError → Bytes → Result RecordError Bytes
raised_if true e bs = err e
raised_if false e bs = ok bs

abbrev pub packed_float : Option ℕ → Result RecordError Bytes
packed_float none = err overflow
packed_float (some bits) = raised_if (not (is_finite bits)) type_mismatch (le_bytes 8 bits)

module _ (float_of : ℤ → Option ℕ) where
  -- `codec.validate(value)` and `codec.encode(value)`
  unfoldable pub encode_value : DataType → Value → Result RecordError Bytes
  unfolding twos_complement
  encode_value integer (integer_value v) =
      raised_if (not (fits_int64 v)) type_mismatch (le_bytes 8 (twos_complement v))
  encode_value float (integer_value v) = packed_float (float_of v)
  encode_value float (float_value bits) = packed_float (some bits)
  encode_value boolean (boolean_value b) = ok ((if b then 1 else 0) ∷ [])
  encode_value text (text_value bs) =
      raised_if (not (ltb (length bs) (2 ^ 32))) struct_error (le_bytes 4 (length bs) ++ bs)
  encode_value _ _ = err type_mismatch

-- `bitmap[index // 8] |= 1 << (index % 8)`
unfoldable pub set_bit : ℕ → Bytes → Bytes
set_bit index [] = []
set_bit index (b ∷ bs) =
    if ltb index 8 then bit_or b (2 ^ index) ∷ bs else b ∷ set_bit (index - 8) bs

-- `raw[index // 8] >> (index % 8) & 1`
unfoldable pub is_null : Bytes → ℕ → Bool
is_null [] index = false
is_null (b ∷ bs) index = if ltb index 8 then (b / 2 ^ index) % 2 == 1 else is_null bs (index - 8)

unfoldable pub zero_bytes : ℕ → Bytes
zero_bytes zero = []
zero_bytes (suc n) = 0 ∷ zero_bytes n

module _ (float_of : ℤ → Option ℕ) where
  -- The loop of `encode_record`, from a column on: the bitmap and the bytes of the values.
  unfoldable pub encode_from : ℕ → Schema → List Value → Bytes → Result RecordError (Bytes × Bytes)
  unfolding encode_value set_bit
  encode_from index [] values bitmap = ok (bitmap, [])
  encode_from index (c ∷ columns) [] bitmap = ok (bitmap, [])
  encode_from index (c ∷ columns) (null ∷ values) bitmap =
      let rest = encode_from (suc index) columns values (set_bit index bitmap) in
      if not c.nullable then err null_constraint else rest
  encode_from index (c ∷ columns) (value ∷ values) bitmap =
      let rest = encode_from (suc index) columns values bitmap in
      encode_value float_of c.data_type value >>= λ part. rest >>= λ out. ok (out.0, part ++ out.1)

  unfoldable pub encode_record : Schema → List Value → Result RecordError Bytes
  unfolding encode_from zero_bytes
  encode_record columns values =
      if not (length values == length columns)
      then err schema_mismatch
      else (encode_from 0 columns values (zero_bytes (null_bitmap_size columns)) >>= λ out.
          ok (out.0 ++ out.1))

module _ (is_utf8 : Bytes → Bool) where
  -- `TextCodec.decode`, once the length prefix was read.
  unfoldable pub decode_text : ℕ → Bytes → ℕ → Result RecordError (Value × ℕ)
  decode_text size raw start =
      if ltb (length raw) (start + size)
      then err serialization
      else if is_utf8 (slice start size raw)
      then ok (text_value (slice start size raw), start + size)
      else err serialization

  -- `codec.decode(raw, offset)`
  unfoldable pub decode_value : DataType → Bytes → ℕ → Result RecordError (Value × ℕ)
  unfolding signed decode_text
  decode_value integer raw offset =
      if ltb (length raw) (offset + 8)
      then err serialization
      else ok (integer_value (signed (le_value (slice offset 8 raw))), offset + 8)
  decode_value float raw offset =
      if ltb (length raw) (offset + 8)
      then err serialization
      else ok (float_value (le_value (slice offset 8 raw)), offset + 8)
  decode_value boolean raw offset =
      if ltb (length raw) (offset + 1)
      then err serialization
      else ok (boolean_value (not (le_value (slice offset 1 raw) == 0)), offset + 1)
  decode_value text raw offset =
      if ltb (length raw) (offset + 4)
      then err serialization
      else decode_text (le_value (slice offset 4 raw)) raw (offset + 4)

  -- The loop of `decode_record`, from a column on.
  unfoldable pub decode_from : ℕ → Schema → Bytes → ℕ → Result RecordError (List Value × ℕ)
  unfolding decode_value is_null
  decode_from index [] raw offset = ok ([], offset)
  decode_from index (c ∷ columns) raw offset =
      if is_null raw index
      then (decode_from (suc index) columns raw offset >>= λ out. ok (null ∷ out.0, out.1))
      else (decode_value c.data_type raw offset >>= λ one.
          decode_from (suc index) columns raw one.1 >>= λ out. ok (one.0 ∷ out.0, out.1))

  unfoldable pub decode_record : Schema → Bytes → Result RecordError (List Value)
  unfolding decode_from
  decode_record columns raw =
      if ltb (length raw) (null_bitmap_size columns)
      then err serialization
      else (decode_from 0 columns raw (null_bitmap_size columns) >>= λ out.
          if not (out.1 == length raw) then err serialization else ok out.0)

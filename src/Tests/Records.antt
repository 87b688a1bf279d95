-- ===== src/Tests/Records.antt =====
-- engine/serialization/record.py: a row with a null and with an integer in a FLOAT column.
use chen_db.Prelude.{
  ℕ, ltb, ◌+◌, ◌*◌, ◌^◌, ◌≤◌, ◌<◌, ◌≡◌, refl, Bool, true, false, Option, none, some, List, [], ◌∷◌,
  arith, ◌==◌, if◌then◌else◌, Bool-cases, inl, inr,
}
use chen_db.Prelude.Bytes.{Bytes}
use chen_db.Prelude.Result.{ok, err}
use chen_db.Index.Key.{ℤ, pos, negsuc, integer, float, text, Value, null, integer_value}
use chen_db.Serialization.Record.{
  Schema, schema_mismatch, null_constraint, struct_error, encode_record, decode_record,
}
use chen_db.Serialization.Schema.{new_schema, index_of, new_column, schema_error}
use chen_db.Serialization.Version.{
  add_tuple_header, read_tuple_header, strip_tuple_header, set_xmax,
}
use chen_db.Serialization.Version.RoundTrip.{set_xmax-add_tuple_header}
use chen_db.Serialization.Record.RoundTrip.{stored_row, decode_record-encode_record}

-- Only 1 is converted.
abbrev only_one : ℤ → Option ℕ
only_one (pos n) = if n == 1 then some 4607182418800017408 else none
only_one (negsuc n) = none

only_one-double : (v : ℤ) (bits : ℕ) → only_one v ≡ some bits → bits < 256 ^ 8
only_one-double (pos n) bits h = elim (Bool-cases (n == 1)) [
  | inl one ↦
      let e : some 4607182418800017408 ≡ some bits = (simp one at h) in
      let b : 4607182418800017408 ≡ bits = cc in omega (arith, b)
  | inr other ↦ absurd (ground (arith, h, other))
]
only_one-double (negsuc n) bits h = cc

abbrev any_text : Bytes → Bool
any_text bs = true

abbrev three_columns : Schema
three_columns =
    record { name = 105 ∷ []; data_type = integer; nullable = false; primary_key = true }
    ∷ record { name = 110 ∷ []; data_type = text; nullable = true; primary_key = false }
    ∷ record { name = 115 ∷ []; data_type = float; nullable = true; primary_key = false }
    ∷ []

abbrev row_values : List Value
row_values = integer_value (negsuc 1) ∷ null ∷ integer_value (pos 1) ∷ []

abbrev row_bytes : Bytes
row_bytes =
    2 ∷ 254 ∷ 255 ∷ 255 ∷ 255 ∷ 255 ∷ 255 ∷ 255 ∷ 255 ∷ 0 ∷ 0 ∷ 0 ∷ 0 ∷ 0 ∷ 0 ∷ 240 ∷ 63 ∷ []

encode_row : encode_record only_one three_columns row_values ≡ ok row_bytes
unfolding encode_record chen_db.Prelude.Bytes.le_bytes
encode_row = refl

null_refused : encode_record only_one three_columns (null ∷ null ∷ null ∷ []) ≡ err null_constraint
unfolding encode_record
null_refused = refl

short_refused : encode_record only_one three_columns (null ∷ []) ≡ err schema_mismatch
unfolding encode_record
short_refused = refl

decode_record-encode_record_example :
    decode_record any_text three_columns row_bytes
    ≡ ok (stored_row only_one any_text only_one-double three_columns row_values)
decode_record-encode_record_example =
    decode_record-encode_record only_one any_text only_one-double three_columns row_values row_bytes
      (tt, (tt, (tt, tt))) encode_row

abbrev row_version : Bytes
row_version = 5 ∷ 0 ∷ 0 ∷ 0 ∷ 0 ∷ 0 ∷ 0 ∷ 0 ∷ row_bytes

add_header : add_tuple_header row_bytes 5 0 ≡ ok row_version
unfolding add_tuple_header chen_db.Prelude.Bytes.le_bytes
add_header = refl

wide_id : add_tuple_header row_bytes 4294967296 0 ≡ err struct_error
unfolding add_tuple_header
wide_id = refl

set_xmax-add_tuple_header_example :
    (read_tuple_header row_version ≡ ok (record { xmin = 5; xmax = 0 }))
    × (decode_record any_text three_columns (strip_tuple_header row_version)
        ≡ ok (stored_row only_one any_text only_one-double three_columns row_values))
    × (marked : Bytes) × (set_xmax row_version 300 ≡ ok marked)
    × (read_tuple_header marked ≡ ok (record { xmin = 5; xmax = 300 }))
    × (decode_record any_text three_columns (strip_tuple_header marked)
        ≡ ok (stored_row only_one any_text only_one-double three_columns row_values))
set_xmax-add_tuple_header_example =
    set_xmax-add_tuple_header only_one any_text only_one-double three_columns row_values row_bytes
      row_version 5 0 300 (tt, (tt, (tt, tt))) encode_row add_header (omega arith)

-- Lower case, of ASCII letters.
abbrev lower : List ℕ → List ℕ
lower [] = []
lower (x ∷ xs) = (if ltb 64 x then (if ltb x 91 then x + 32 else x) else x) ∷ lower xs

three_accepted : new_schema lower three_columns ≡ ok three_columns
unfolding new_schema
three_accepted = refl

found_upper : index_of lower (78 ∷ []) three_columns ≡ ok 1
unfolding index_of
found_upper = refl

key_not_null : new_column (107 ∷ []) integer true true ≡ err schema_error
unfolding new_column
key_not_null = refl

-- ===== src/Tests/Keys.antt =====
-- engine/index/key.py: keys of small and negative numbers.
use chen_db.Prelude.{ℕ, Option, none, ◌≡◌, refl, Bool, true, [], ◌∷◌, arith}
use chen_db.Prelude.Bytes.{Bytes}
use chen_db.Prelude.Result.{ok, err}
use chen_db.Index.Key.{
  ℤ, pos, negsuc, integer_value, float_value, integer, float, be_bytes, overflow, encode_key,
  decode_key,
}
use chen_db.Index.Key.Order.{
  lt_bytes, lt_int, signed, encode_key-integer_order, encode_key-float_order,
}
use chen_db.Index.Key.RoundTrip.{read_back, decode_key-encode_key}

abbrev no_float : ℤ → Option ℕ
no_float x = none

abbrev anything : Bytes → Bool
anything bs = true

-- 256 and -1, whose low bytes first would compare the other way.
abbrev key_256 : Bytes
key_256 = 2 ∷ 128 ∷ 0 ∷ 0 ∷ 0 ∷ 0 ∷ 0 ∷ 1 ∷ 0 ∷ []

abbrev key_minus_one : Bytes
key_minus_one = 2 ∷ 127 ∷ 255 ∷ 255 ∷ 255 ∷ 255 ∷ 255 ∷ 255 ∷ 255 ∷ []

encode_256 : encode_key no_float (integer_value (pos 256)) integer ≡ ok key_256
unfolding encode_key be_bytes
encode_256 = refl

encode_minus_one : encode_key no_float (integer_value (negsuc 0)) integer ≡ ok key_minus_one
unfolding encode_key be_bytes
encode_minus_one = refl

encode_key-integer_order_example : lt_bytes key_minus_one key_256 ≡ lt_int (negsuc 0) (pos 256)
encode_key-integer_order_example =
    encode_key-integer_order no_float (negsuc 0) (pos 256) key_minus_one key_256 encode_minus_one
      encode_256

-- The bits 7 and the bits of a small negative.
abbrev key_seven : Bytes
key_seven = 2 ∷ 128 ∷ 0 ∷ 0 ∷ 0 ∷ 0 ∷ 0 ∷ 0 ∷ 7 ∷ []

abbrev key_negative : Bytes
key_negative = 2 ∷ 127 ∷ 255 ∷ 255 ∷ 255 ∷ 255 ∷ 255 ∷ 255 ∷ 250 ∷ []

encode_seven : encode_key no_float (float_value 7) float ≡ ok key_seven
unfolding encode_key be_bytes
encode_seven = refl

encode_negative : encode_key no_float (float_value 9223372036854775813) float ≡ ok key_negative
unfolding encode_key be_bytes
encode_negative = refl

encode_key-float_order_example :
    lt_bytes key_negative key_seven ≡ lt_int (signed 9223372036854775813) (signed 7)
encode_key-float_order_example =
    encode_key-float_order no_float 9223372036854775813 7 key_negative key_seven (omega arith)
      (omega arith) encode_negative encode_seven

decode_key-encode_key_example :
    decode_key anything key_minus_one integer
    ≡ ok (read_back no_float (integer_value (negsuc 0)) integer)
decode_key-encode_key_example =
    decode_key-encode_key no_float anything (λ x bits h. cc) (integer_value (negsuc 0)) integer
      key_minus_one tt encode_minus_one

encode_too_large : encode_key no_float (integer_value (pos 3)) float ≡ err overflow
unfolding encode_key
encode_too_large = refl

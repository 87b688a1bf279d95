-- ===== src/Index/Key.antt =====
-- engine/index/key.py: keys whose order as bytes is the order of the values. A float is its 64 bits,
-- as `struct.pack` gives them, and a text is its UTF-8 bytes: `float_of` is Python's conversion of an
-- integer, `none` where it raises `OverflowError`, and `is_utf8` says which bytes decode. `describe_key`, a display, is left out.
pub mod Order
pub mod RoundTrip
use chen_db.Prelude.{
  ℕ, zero, suc, ◌+◌, ◌-◌, ◌*◌, ◌/◌, ◌%◌, ◌^◌, Bool, true, false, ◌&&◌, ◌||◌, Option, none, some,
  List, [], ◌∷◌, ◌++◌, ltb, leb, ◌==◌, not, if◌then◌else◌, length,
}
use chen_db.Prelude.Bytes.{Bytes}
use chen_db.Prelude.Result.{Result, ok, err}

pub data ℤ : Type 0 where
  pos negsuc : ℕ → ℤ

pub data DataType : Type 0 where
  integer float boolean text : DataType

pub data Value : Type 0 where
  null : Value
  integer_value : ℤ → Value
  float_value : ℕ → Value
  boolean_value : Bool → Value
  text_value : Bytes → Value

-- `IndexingError` and `SerializationError`, and Python's own `OverflowError`.
pub data KeyError : Type 0 where
  indexing serialization overflow : KeyError

abbrev pub tag_minus_infinity : ℕ
tag_minus_infinity = 0

abbrev pub tag_null : ℕ
tag_null = 1

abbrev pub tag_value : ℕ
tag_value = 2

abbrev pub int_bias : ℕ
int_bias = 2 ^ 63

-- `struct.pack(">Q", v)`: the highest byte first.
unfoldable pub be_bytes : ℕ → ℕ → Bytes
be_bytes zero v = []
be_bytes (suc n) v = be_bytes n (v / 256) ++ (v % 256) ∷ []

-- `struct.unpack(">Q", bs)`, with the bytes read before in `acc`.
unfoldable pub be_value : ℕ → Bytes → ℕ
be_value acc [] = acc
be_value acc (b ∷ bs) = be_value (256 * acc + b) bs

-- `value + _INT_BIAS`, or `none` where it does not fit in 64 bits.
unfoldable pub biased : ℤ → Option ℕ
biased (pos n) = if ltb n int_bias then some (n + int_bias) else none
biased (negsuc n) = if ltb n int_bias then some (int_bias - suc n) else none

unfoldable pub unbiased : ℕ → ℤ
unbiased v = if leb int_bias v then pos (v - int_bias) else negsuc (int_bias - suc v)

-- `_float_to_sortable`: -0.0 becomes 0.0; the bits of a negative are flipped, and of a positive the sign.
unfoldable pub float_to_sortable : ℕ → ℕ
float_to_sortable bits =
    if bits == int_bias
    then int_bias
    else if leb int_bias bits
    then 2 ^ 64 - 1 - bits
    else bits + int_bias

unfoldable pub sortable_to_float_bits : ℕ → ℕ
sortable_to_float_bits sortable =
    if leb int_bias sortable then sortable - int_bias else 2 ^ 64 - 1 - sortable

abbrev packed : Option ℕ → Result KeyError Bytes
packed none = err indexing
packed (some v) = ok (tag_value ∷ be_bytes 8 v)

abbrev pub float_body : Option ℕ → Result KeyError Bytes
float_body none = err overflow
float_body (some bits) = ok (tag_value ∷ be_bytes 8 (float_to_sortable bits))

module _ (float_of : ℤ → Option ℕ) where
  unfoldable pub encode_key : Value → DataType → Result KeyError Bytes
  unfolding biased float_to_sortable
  encode_key null data_type = ok (tag_null ∷ [])
  encode_key (integer_value v) integer = packed (biased v)
  encode_key (integer_value v) float = float_body (float_of v)
  encode_key (float_value bits) float = float_body (some bits)
  encode_key (boolean_value b) boolean = ok (tag_value ∷ (if b then 1 else 0) ∷ [])
  encode_key (text_value bs) text = ok (tag_value ∷ bs)
  encode_key _ _ = err indexing

module _ (is_utf8 : Bytes → Bool) where
  unfoldable pub decode_body : Bytes → DataType → Result KeyError Value
  unfolding be_value unbiased sortable_to_float_bits
  decode_body body integer =
      if length body == 8
      then ok (integer_value (unbiased (be_value 0 body)))
      else err serialization
  decode_body body float =
      if length body == 8
      then ok (float_value (sortable_to_float_bits (be_value 0 body)))
      else err serialization
  decode_body [] boolean = err serialization
  decode_body (b ∷ []) boolean = ok (boolean_value (not (b == 0)))
  decode_body (b ∷ c ∷ cs) boolean = err serialization
  decode_body body text = if is_utf8 body then ok (text_value body) else err serialization

  unfoldable pub decode_key : Bytes → DataType → Result KeyError Value
  unfolding decode_body
  decode_key [] data_type = err serialization
  decode_key (tag ∷ body) data_type =
      if tag == tag_minus_infinity
      then err serialization
      else if tag == tag_null
      then ok null
      else if not (tag == tag_value)
      then err serialization
      else decode_body body data_type

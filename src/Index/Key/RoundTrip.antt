-- ===== src/Index/Key/RoundTrip.antt =====
-- Decoding gives back the value of a key.
use chen_db.Prelude.{
  ℕ, zero, suc, ◌+◌, ◌*◌, ◌/◌, ◌%◌, ◌^◌, ◌<◌, ◌≡◌, refl, sym, ap, ◌∙◌, inl, inr, Bool, true, false,
  Option, none, some, [], ◌∷◌, ◌++◌, arith, ◌==◌, if◌then◌else◌, Option-cases,
}
use chen_db.Prelude.Bytes.{Bytes}
use chen_db.Prelude.Result.{ok}
use chen_db.Index.Key.{
  ℤ, pos, negsuc, Value, null, integer_value, float_value, boolean_value, text_value, DataType,
  integer, float, boolean, text, int_bias, be_bytes, be_value, biased, unbiased, float_to_sortable,
  sortable_to_float_bits, float_body, encode_key, decode_key,
}
use chen_db.Index.Key.Order.{length-be_bytes, div_bound, biased_bound, sortable_bound}

be_value-snoc :
    (acc : ℕ) (xs : Bytes) (x : ℕ) → be_value acc (xs ++ x ∷ []) ≡ 256 * be_value acc xs + x
unfolding be_value
be_value-snoc acc [] x = refl
be_value-snoc acc (y ∷ ys) x = be_value-snoc (256 * acc + y) ys x

pub be_value-be_bytes : (n v : ℕ) → v < 256 ^ n → be_value 0 (be_bytes n v) ≡ v
unfolding be_bytes be_value
be_value-be_bytes zero v h = omega (arith, h)
be_value-be_bytes (suc n) v h =
    be_value-snoc 0 (be_bytes n (v / 256)) (v % 256)
    ∙ omega (arith, be_value-be_bytes n (v / 256) (div_bound n v h))

unbiased-biased : (x : ℤ) (v : ℕ) → biased x ≡ some v → unbiased v ≡ x
unfolding biased unbiased
unbiased-biased (pos n) v h = ground (arith, h)
unbiased-biased (negsuc n) v h = ground (arith, h)

-- -0.0 is read back as 0.0.
abbrev pub one_zero : ℕ → ℕ
one_zero bits = if bits == int_bias then 0 else bits

bits-sortable :
    (bits : ℕ) → bits < 2 ^ 64 → sortable_to_float_bits (float_to_sortable bits) ≡ one_zero bits
unfolding float_to_sortable sortable_to_float_bits
bits-sortable bits h = ground (arith, h)

-- What a value is read back as from a key of the given type.
abbrev pub read_back : (ℤ → Option ℕ) → Value → DataType → Value
read_back float_of (float_value bits) float = float_value (one_zero bits)
read_back float_of (integer_value x) float = elim (float_of x) [
  | none ↦ integer_value x
  | some bits ↦ float_value (one_zero bits)
]
read_back float_of v data_type = v

-- A float has 64 bits, and a text is UTF-8.
abbrev pub IsValue : (Bytes → Bool) → Value → Type 0
IsValue is_utf8 (float_value bits) = bits < 2 ^ 64
IsValue is_utf8 (text_value bs) = is_utf8 bs ≡ true
IsValue is_utf8 v = Unit

module _ (float_of : ℤ → Option ℕ) (is_utf8 : Bytes → Bool)
    (bounded : (x : ℤ) (bits : ℕ) → float_of x ≡ some bits → bits < 2 ^ 64) where
  float_key :
      (bits : ℕ) (k : Bytes)
      → bits < 2 ^ 64
      → encode_key float_of (float_value bits) float ≡ ok k
      → decode_key is_utf8 k float ≡ ok (float_value (one_zero bits))
  unfolding encode_key decode_key
  float_key bits k h e = ground (
    arith,
    e,
    length-be_bytes 8 (float_to_sortable bits),
    bits-sortable bits h,
    be_value-be_bytes 8 (float_to_sortable bits) (sortable_bound bits h),
  )

  -- A value that has a key is read back from it, but for -0.0, which is read back as 0.0, and an
  -- integer in a FLOAT index, which is read back as a float.
  pub decode_key-encode_key :
      (v : Value) (data_type : DataType) (k : Bytes)
      → IsValue is_utf8 v
      → encode_key float_of v data_type ≡ ok k
      → decode_key is_utf8 k data_type ≡ ok (read_back float_of v data_type)
  unfolding encode_key decode_key
  decode_key-encode_key null integer k h e = ground (arith, e)
  decode_key-encode_key null float k h e = ground (arith, e)
  decode_key-encode_key null boolean k h e = ground (arith, e)
  decode_key-encode_key null text k h e = ground (arith, e)
  decode_key-encode_key (integer_value x) integer k h e = elim (Option-cases (biased x)) [
    | inl f ↦ absurd (ground (arith, e, f))
    | inr (v, f) ↦ ground (
      arith,
      e,
      f,
      length-be_bytes 8 v,
      unbiased-biased x v f,
      be_value-be_bytes 8 v (biased_bound x v f),
    )
  ]
  decode_key-encode_key (integer_value x) float k h e = elim (Option-cases (float_of x)) [
    | inl f ↦ absurd (ground (arith, e, f))
    | inr (bits, f) ↦
        let e' : float_body (some bits) ≡ ok k = ap float_body (sym f) ∙ e in
        float_key bits k (bounded x bits f) e'
        ∙ ap (λ o. ok (elim o [ none ↦ integer_value x | some b ↦ float_value (one_zero b) ]))
            (sym f)
  ]
  decode_key-encode_key (integer_value x) boolean k h e = absurd (ground (arith, e))
  decode_key-encode_key (integer_value x) text k h e = absurd (ground (arith, e))
  decode_key-encode_key (float_value bits) float k h e = float_key bits k h e
  decode_key-encode_key (float_value bits) integer k h e = absurd (ground (arith, e))
  decode_key-encode_key (float_value bits) boolean k h e = absurd (ground (arith, e))
  decode_key-encode_key (float_value bits) text k h e = absurd (ground (arith, e))
  decode_key-encode_key (boolean_value true) boolean k h e = ground (arith, e)
  decode_key-encode_key (boolean_value false) boolean k h e = ground (arith, e)
  decode_key-encode_key (boolean_value b) integer k h e = absurd (ground (arith, e))
  decode_key-encode_key (boolean_value b) float k h e = absurd (ground (arith, e))
  decode_key-encode_key (boolean_value b) text k h e = absurd (ground (arith, e))
  decode_key-encode_key (text_value bs) text k h e = ground (arith, e, h)
  decode_key-encode_key (text_value bs) integer k h e = absurd (ground (arith, e))
  decode_key-encode_key (text_value bs) float k h e = absurd (ground (arith, e))
  decode_key-encode_key (text_value bs) boolean k h e = absurd (ground (arith, e))

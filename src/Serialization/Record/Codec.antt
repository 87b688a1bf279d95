-- ===== src/Serialization/Record/Codec.antt =====
-- One value is read back where it was written, between any other bytes.
use chen_db.Prelude.{
  ℕ, suc, ◌+◌, ◌-◌, ◌^◌, ◌<◌, ◌≡◌, refl, ap, sym, ◌∙◌, Bool, true, false, Option, none, some, [],
  ◌∷◌, ◌++◌, inl, inr, ltb, ◌==◌, not, if◌then◌else◌, length, length-append, take,
  take-append_length, drop-append_length, append_assoc, arith, Option-cases,
}
use chen_db.Prelude.Bytes.{Bytes, le_bytes, le_value, length-le_bytes, le_value-le_bytes}
use chen_db.Prelude.Result.{ok}
use chen_db.Prelude.Slices.{slice}
use chen_db.Index.Key.{
  ℤ, pos, negsuc, DataType, integer, float, boolean, text, Value, integer_value, float_value,
  boolean_value, text_value,
}
use chen_db.Serialization.Record.{
  RecordError, encode_value, decode_value, decode_text, twos_complement, signed, fits_int64,
  packed_float, is_finite, raised_if,
}

pub slice-middle :
    (pre items post : Bytes) (o n : ℕ)
    → o ≡ length pre
    → n ≡ length items
    → slice o n (pre ++ (items ++ post)) ≡ items
unfolding slice
slice-middle pre items post o n eo en =
    ap (take n) (drop-append_length pre (items ++ post) o eo) ∙ take-append_length items post n en

signed-twos_complement : (v : ℤ) → fits_int64 v ≡ true → signed (twos_complement v) ≡ v
unfolding signed twos_complement
signed-twos_complement (pos n) h = simp h refl
signed-twos_complement (negsuc n) h =
    let below : n < 2 ^ 63 = ground (arith, h) in
    let high : ltb (2 ^ 64 - suc n) (2 ^ 63) ≡ false = ground arith in
    let back : 2 ^ 64 - suc (2 ^ 64 - suc n) ≡ n = omega arith in
    simp high (ap (λ z. negsuc z) back)

twos_complement-lt : (v : ℤ) → fits_int64 v ≡ true → twos_complement v < 256 ^ 8
unfolding twos_complement
twos_complement-lt (pos n) h = let below : n < 2 ^ 63 = ground (arith, h) in omega arith
twos_complement-lt (negsuc n) h = omega arith

-- What `raised_if` lets through.
raised_if-ok :
    (t : Bool) (e : RecordError) (bs out : Bytes)
    → raised_if t e bs ≡ ok out
    → (t ≡ false) × (bs ≡ out)
raised_if-ok true e bs out h = cc
raised_if-ok false e bs out h = (refl, cc)

module _ (float_of : ℤ → Option ℕ) (is_utf8 : Bytes → Bool)
    (double : (v : ℤ) (bits : ℕ) → float_of v ≡ some bits → bits < 256 ^ 8) where
  -- A value that Python can hold: a float has 64 bits, and a text encodes to what decodes.
  abbrev pub IsValue : Value → Type 0
  IsValue (float_value bits) = bits < 256 ^ 8
  IsValue (text_value bs) = is_utf8 bs ≡ true
  IsValue _ = Unit

  -- What is stored: an integer in a FLOAT column becomes a float.
  abbrev pub stored : DataType → Value → Value
  stored float (integer_value v) = elim (float_of v) [
    | none ↦ integer_value v
    | some bits ↦ float_value bits
  ]
  stored data_type value = value

  module _ (pre post enc : Bytes) where
    abbrev raw : Bytes
    raw = pre ++ (enc ++ post)

    long_enough : (n : ℕ) → n ≡ length enc → ltb (length raw) (length pre + n) ≡ false
    long_enough n e = ground (arith, length-append pre (enc ++ post), length-append enc post)

    float_lem :
        (bits : ℕ)
        → bits < 256 ^ 8
        → raised_if (not (is_finite bits)) RecordError.type_mismatch (le_bytes 8 bits) ≡ ok enc
        → decode_value is_utf8 float raw (length pre)
          ≡ ok (float_value bits, length pre + length enc)
    unfolding decode_value
    float_lem bits small h =
        let e = (raised_if-ok _ _ (le_bytes 8 bits) enc h).1 in
        let size : 8 ≡ length enc = sym (length-le_bytes 8 bits) ∙ ap (λ (z : Bytes). length z) e in
        let got : le_value (slice (length pre) 8 raw) ≡ bits =
          ap le_value (slice-middle pre enc post (length pre) 8 refl size ∙ sym e)
          ∙ le_value-le_bytes 8 bits small in
        simp (long_enough 8 size, got) (ap (λ z. ok (float_value bits, length pre + z)) size)

    integer_lem :
        (v : ℤ)
        → raised_if (not (fits_int64 v)) RecordError.type_mismatch (le_bytes 8 (twos_complement v))
          ≡ ok enc
        → decode_value is_utf8 integer raw (length pre)
          ≡ ok (integer_value v, length pre + length enc)
    unfolding decode_value
    integer_lem v h =
        let r = raised_if-ok _ _ (le_bytes 8 (twos_complement v)) enc h in
        let fits : fits_int64 v ≡ true = ground (arith, r.0) in
        let size : 8 ≡ length enc =
          sym (length-le_bytes 8 (twos_complement v)) ∙ ap (λ (z : Bytes). length z) r.1 in
        let got : signed (le_value (slice (length pre) 8 raw)) ≡ v =
          ap (λ z. signed (le_value z))
            (slice-middle pre enc post (length pre) 8 refl size ∙ sym r.1)
          ∙ ap signed (le_value-le_bytes 8 (twos_complement v) (twos_complement-lt v fits))
          ∙ signed-twos_complement v fits in
        simp (long_enough 8 size, got) (ap (λ z. ok (integer_value v, length pre + z)) size)

    boolean_lem :
        (b : Bool)
        → (if b then 1 else 0) ∷ [] ≡ enc
        → decode_value is_utf8 boolean raw (length pre)
          ≡ ok (boolean_value b, length pre + length enc)
    unfolding decode_value
    boolean_lem b h =
        let size : 1 ≡ length enc = ap (λ (z : Bytes). length z) h in
        let got : not (le_value (slice (length pre) 1 raw) == 0) ≡ b =
          ap (λ z. not (le_value z == 0))
            (slice-middle pre enc post (length pre) 1 refl size ∙ sym h)
          ∙ one_bit b in
        simp (long_enough 1 size, got) (ap (λ z. ok (boolean_value b, length pre + z)) size)
      where
        one_bit : (b : Bool) → not (le_value ((if b then 1 else 0) ∷ []) == 0) ≡ b
        one_bit true = unfold le_value in refl
        one_bit false = unfold le_value in refl

    module _ (bs : Bytes) (valid : is_utf8 bs ≡ true) (short : length bs < 256 ^ 4)
        (e : le_bytes 4 (length bs) ++ bs ≡ enc) where
      prefix : Bytes
      prefix = le_bytes 4 (length bs)

      prefix_size : length prefix ≡ 4
      unfolding prefix
      prefix_size = length-le_bytes 4 (length bs)

      raw_is : raw ≡ pre ++ (prefix ++ (bs ++ post))
      unfolding prefix
      raw_is =
          ap (λ (z : Bytes). pre ++ (z ++ post)) (sym e)
          ∙ ap (λ (z : Bytes). pre ++ z) (append_assoc (le_bytes 4 (length bs)) bs post)

      enc_size : length enc ≡ 4 + length bs
      unfolding prefix
      enc_size =
          sym (ap (λ (z : Bytes). length z) e)
          ∙ (omega (arith, length-append (le_bytes 4 (length bs)) bs, prefix_size))

      read_size : le_value (slice (length pre) 4 raw) ≡ length bs
      unfolding prefix
      read_size =
          ap (λ z. le_value (slice (length pre) 4 z)) raw_is
          ∙ ap le_value (slice-middle pre prefix (bs ++ post) (length pre) 4 refl (sym prefix_size))
          ∙ le_value-le_bytes 4 (length bs) short

      read_text : slice (length pre + 4) (length bs) raw ≡ bs
      read_text =
          ap (λ z. slice (length pre + 4) (length bs) z)
            (raw_is ∙ sym (append_assoc pre prefix (bs ++ post)))
          ∙ slice-middle (pre ++ prefix) bs post (length pre + 4) (length bs)
              (omega (arith, length-append pre prefix, prefix_size)) refl

      text_lem :
          decode_value is_utf8 text raw (length pre) ≡ ok (text_value bs, length pre + length enc)
      unfolding decode_value decode_text
      text_lem =
          let raw_size : length raw ≡ length pre + (length enc + length post) =
            length-append pre (enc ++ post) ∙ (omega (arith, length-append enc post)) in
          let first : ltb (length raw) (length pre + 4) ≡ false =
            ground (arith, raw_size, enc_size) in
          let second : ltb (length raw) (length pre + 4 + length bs) ≡ false =
            ground (arith, raw_size, enc_size) in
          let after : length pre + 4 + length bs ≡ length pre + length enc =
            omega (arith, enc_size) in
          simp (first, read_size, second, read_text, valid) (ap (λ z. ok (text_value bs, z)) after)

  -- A value that was encoded is decoded where it was put, whatever stands before and after it.
  pub decode_value-encode_value :
      (data_type : DataType) (value : Value) (pre post enc : Bytes)
      → IsValue value
      → encode_value float_of data_type value ≡ ok enc
      → decode_value is_utf8 data_type (pre ++ (enc ++ post)) (length pre)
        ≡ ok (stored data_type value, length pre + length enc)
  unfolding encode_value
  decode_value-encode_value integer (integer_value v) pre post enc w h =
      integer_lem pre post enc v h
  decode_value-encode_value float (integer_value v) pre post enc w h =
      elim (Option-cases (float_of v)) [
        | inl e ↦ absurd (ground (arith, h, e))
        | inr (bits, e) ↦
            let h' : packed_float (some bits) ≡ ok enc = ap packed_float (sym e) ∙ h in
            float_lem pre post enc bits (double v bits e) h'
            ∙ ap
                (λ o. ok (
                  elim o [ none ↦ integer_value v | some z ↦ float_value z ],
                  length pre + length enc,
                ))
                (sym e)
      ]
  decode_value-encode_value float (float_value bits) pre post enc w h =
      float_lem pre post enc bits w h
  decode_value-encode_value boolean (boolean_value b) pre post enc w h =
      boolean_lem pre post enc b (ground (arith, h))
  decode_value-encode_value text (text_value bs) pre post enc w h =
      let r = raised_if-ok _ _ (le_bytes 4 (length bs) ++ bs) enc h in
      text_lem pre post enc bs w (ground (arith, r.0)) r.1
  decode_value-encode_value _ _ pre post enc w h = cc

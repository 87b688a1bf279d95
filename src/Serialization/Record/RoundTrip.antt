-- ===== src/Serialization/Record/RoundTrip.antt =====
-- A row that was encoded is decoded.
use chen_db.Prelude.{
  ℕ, suc, ◌+◌, ◌*◌, ◌^◌, ◌≤◌, ◌<◌, ◌≡◌, ◌⊎◌, refl, ap, sym, subst, ◌∙◌, Bool, true, false, Option,
  some, List, [], ◌∷◌, ◌++◌, inl, inr, ltb, ◌==◌, length, length-append, append_assoc, arith,
  Bool-cases,
}
use chen_db.Prelude.Bytes.{Bytes}
use chen_db.Prelude.Result.{Result, ok, err, ◌>>=◌}
use chen_db.Index.Key.{
  ℤ, DataType, integer, float, boolean, text, Value, null, integer_value, float_value,
  boolean_value, text_value,
}
use chen_db.Serialization.Record.{
  RecordError, Column, Schema, null_bitmap_size, encode_value, encode_from, encode_record,
  decode_value, decode_from, decode_record, set_bit, is_null, zero_bytes,
}
use chen_db.Serialization.Record.Bitmap.{
  AllBytes, set_bit-AllBytes, length-set_bit, is_null-set_bit, is_null-zero_bytes,
  length-zero_bytes, zero_bytes-AllBytes, is_null-append,
}
use chen_db.Serialization.Record.Codec.{IsValue, stored, decode_value-encode_value}

module _ (float_of : ℤ → Option ℕ) (is_utf8 : Bytes → Bool)
    (double : (v : ℤ) (bits : ℕ) → float_of v ≡ some bits → bits < 256 ^ 8) where
  abbrev pub IsRow : List Value → Type 0
  IsRow [] = Unit
  IsRow (v ∷ vs) = IsValue float_of is_utf8 double v × IsRow vs

  -- What a row reads as.
  abbrev pub stored_row : Schema → List Value → List Value
  stored_row [] values = []
  stored_row (c ∷ columns) [] = []
  stored_row (c ∷ columns) (v ∷ vs) =
      stored float_of is_utf8 double c.data_type v ∷ stored_row columns vs

  stored-null : (t : DataType) → stored float_of is_utf8 double t null ≡ null
  stored-null integer = refl
  stored-null float = refl
  stored-null boolean = refl
  stored-null text = refl

  abbrev joined_step :
      Result RecordError Bytes
      → Result RecordError (Bytes × Bytes)
      → Result RecordError (Bytes × Bytes)
  joined_step first rest = first >>= λ part. rest >>= λ out. ok (out.0, part ++ out.1)

  abbrev value_step :
      ℕ → Column → Schema → Value → List Value → Bytes → Result RecordError (Bytes × Bytes)
  value_step index c columns value values bitmap =
      joined_step (encode_value float_of c.data_type value)
        (encode_from float_of (suc index) columns values bitmap)

  -- A value is null, or goes through its codec.
  encode_step :
      (index : ℕ) (c : Column) (columns : Schema) (value : Value) (values : List Value)
      (bitmap : Bytes)
      → (value ≡ null)
        ⊎ (encode_from float_of index (c ∷ columns) (value ∷ values) bitmap
            ≡ value_step index c columns value values bitmap)
  unfolding encode_from
  encode_step index c columns null values bitmap = inl refl
  encode_step index c columns (integer_value v) values bitmap = inr refl
  encode_step index c columns (float_value v) values bitmap = inr refl
  encode_step index c columns (boolean_value v) values bitmap = inr refl
  encode_step index c columns (text_value v) values bitmap = inr refl

  invert_step :
      (first : Result RecordError Bytes) (rest : Result RecordError (Bytes × Bytes))
      (bm parts : Bytes)
      → joined_step first rest ≡ ok (bm, parts)
      → (part : Bytes) × (parts' : Bytes) × (first ≡ ok part)
        × (rest ≡ ok (bm, parts'))
        × (part ++ parts' ≡ parts)
  invert_step (err e) rest bm parts h = cc
  invert_step (ok part) (err e) bm parts h = cc
  invert_step (ok part) (ok (bm', parts')) bm parts h = (part, parts', refl, cc, cc)

  -- A null of a column that allows it.
  invert_null :
      (index : ℕ) (c : Column) (columns : Schema) (values : List Value) (bitmap : Bytes)
      (out : Bytes × Bytes)
      → encode_from float_of index (c ∷ columns) (null ∷ values) bitmap ≡ ok out
      → encode_from float_of (suc index) columns values (set_bit index bitmap) ≡ ok out
  unfolding encode_from
  invert_null index c columns values bitmap out h = elim (Bool-cases c.nullable) [
    | inl yes_null ↦ sym (simp yes_null refl) ∙ h
    | inr not_null ↦ absurd (ground (arith, h, not_null))
  ]

  bitmap_size :
      (index : ℕ) (columns : Schema) (values : List Value) (bitmap bm parts : Bytes)
      → encode_from float_of index columns values bitmap ≡ ok (bm, parts)
      → length bm ≡ length bitmap
  bitmap_size index [] values bitmap bm parts h =
      let e : bitmap ≡ bm = unfold encode_from in cc in ap (λ (z : Bytes). length z) (sym e)
  bitmap_size index (c ∷ columns) [] bitmap bm parts h =
      let e : bitmap ≡ bm = unfold encode_from in cc in ap (λ (z : Bytes). length z) (sym e)
  bitmap_size index (c ∷ columns) (value ∷ values) bitmap bm parts h =
      elim (encode_step index c columns value values bitmap) [
        | inl e ↦
            let h' =
              ap (λ v. encode_from float_of index (c ∷ columns) (v ∷ values) bitmap) (sym e) ∙ h in
            bitmap_size (suc index) columns values (set_bit index bitmap) bm parts
              (invert_null index c columns values bitmap (bm, parts) h')
            ∙ length-set_bit index bitmap
        | inr e ↦
            let (part, parts', first, rest, joined) =
              invert_step (encode_value float_of c.data_type value)
                (encode_from float_of (suc index) columns values bitmap) bm parts (sym e ∙ h) in
            bitmap_size (suc index) columns values bitmap bm parts' rest
      ]

  -- The columns still to come change no bit of those before them.
  module _ (j : ℕ) where
    encode_from-kept :
        (index : ℕ) (columns : Schema) (values : List Value) (bitmap bm parts : Bytes)
        → AllBytes bitmap
        → index + length columns ≤ 8 * length bitmap
        → encode_from float_of index columns values bitmap ≡ ok (bm, parts)
        → j < index
        → is_null bm j ≡ is_null bitmap j
    encode_from-kept index [] values bitmap bm parts b room h k =
        let e : bitmap ≡ bm = unfold encode_from in cc in ap (λ z. is_null z j) (sym e)
    encode_from-kept index (c ∷ columns) [] bitmap bm parts b room h k =
        let e : bitmap ≡ bm = unfold encode_from in cc in ap (λ z. is_null z j) (sym e)
    encode_from-kept index (c ∷ columns) (value ∷ values) bitmap bm parts b room h k =
        elim (encode_step index c columns value values bitmap) [
          | inl e ↦
              let h' =
                ap (λ v. encode_from float_of index (c ∷ columns) (v ∷ values) bitmap) (sym e)
                ∙ h in
              let size = length-set_bit index bitmap in
              let ih =
                encode_from-kept (suc index) columns values (set_bit index bitmap) bm parts
                  (set_bit-AllBytes index bitmap b) (omega (arith, size, room))
                  (invert_null index c columns values bitmap (bm, parts) h') (omega (arith, k)) in
              let other : (index == j) ≡ false = ground (arith, k) in
              ih ∙ is_null-set_bit index j bitmap b (omega (arith, room)) ∙ (simp other)
          | inr e ↦
              let (part, parts', first, rest, joined) =
                invert_step (encode_value float_of c.data_type value)
                  (encode_from float_of (suc index) columns values bitmap) bm parts (sym e ∙ h) in
              encode_from-kept (suc index) columns values bitmap bm parts' b (omega (arith, room))
                rest (omega (arith, k))
        ]

  decode_from-encode_from :
      (index : ℕ) (columns : Schema) (values : List Value) (bitmap bm parts pre : Bytes)
      → length values ≡ length columns
      → AllBytes bitmap
      → index + length columns ≤ 8 * length bitmap
      → ((j : ℕ) → index ≤ j → is_null bitmap j ≡ false)
      → IsRow values
      → encode_from float_of index columns values bitmap ≡ ok (bm, parts)
      → ((j : ℕ) → j < index + length columns → is_null (pre ++ parts) j ≡ is_null bm j)
      → decode_from is_utf8 index columns (pre ++ parts) (length pre)
        ≡ ok (stored_row columns values, length (pre ++ parts))
  unfolding decode_from
  decode_from-encode_from index [] values bitmap bm parts pre same b room clear w h bits =
      let e : [] ≡ parts = unfold encode_from in cc in
      let size : length pre ≡ length (pre ++ parts) =
        omega (arith, length-append pre parts, ap (λ (z : Bytes). length z) e) in
      ap (λ n. ok ([], n)) size
  decode_from-encode_from index (c ∷ columns) [] bitmap bm parts pre same b room clear w h bits =
      absurd (omega arith)
  decode_from-encode_from index (c ∷ columns) (value ∷ values) bitmap bm parts pre same b room clear
        w h bits =
      elim (encode_step index c columns value values bitmap) [
        | inl e ↦
            let h' =
              ap (λ v. encode_from float_of index (c ∷ columns) (v ∷ values) bitmap) (sym e) ∙ h in
            let rest = invert_null index c columns values bitmap (bm, parts) h' in
            let size = length-set_bit index bitmap in
            let bytes = set_bit-AllBytes index bitmap b in
            let later : (j : ℕ) → suc index ≤ j → is_null (set_bit index bitmap) j ≡ false = λ j k.
              let other : (index == j) ≡ false = ground (arith, k) in
              is_null-set_bit index j bitmap b (omega (arith, room))
              ∙ (simp other (clear j (omega (arith, k)))) in
            let here : is_null (pre ++ parts) index ≡ true =
              bits index (omega arith)
              ∙ (encode_from-kept index (suc index) columns values (set_bit index bitmap) bm parts
                  bytes (omega (arith, size, room)) rest (omega arith))
              ∙ is_null-set_bit index index bitmap b (omega (arith, room))
              ∙ ground arith in
            let ih =
              decode_from-encode_from (suc index) columns values (set_bit index bitmap) bm parts pre
                (omega (arith, same)) bytes (omega (arith, size, room)) later w.1 rest
                (λ j k. bits j (omega (arith, k))) in
            let as_null : stored float_of is_utf8 double c.data_type value ≡ null =
              ap (stored float_of is_utf8 double c.data_type) e ∙ stored-null c.data_type in
            simp (here, ih)
              (ap (λ v. ok (v ∷ stored_row columns values, length (pre ++ parts))) (sym as_null))
        | inr e ↦
            let (part, parts', first, rest, joined) =
              invert_step (encode_value float_of c.data_type value)
                (encode_from float_of (suc index) columns values bitmap) bm parts (sym e ∙ h) in
            let all : (pre ++ part) ++ parts' ≡ pre ++ parts =
              append_assoc pre part parts' ∙ ap (λ (z : Bytes). pre ++ z) joined in
            let here : is_null (pre ++ parts) index ≡ false =
              bits index (omega arith)
              ∙ (encode_from-kept index (suc index) columns values bitmap bm parts' b
                  (omega (arith, room)) rest (omega arith))
              ∙ clear index (omega arith) in
            let one : decode_value is_utf8 c.data_type (pre ++ parts) (length pre)
                ≡ ok (stored float_of is_utf8 double c.data_type value, length pre + length part) =
              ap (λ (z : Bytes). decode_value is_utf8 c.data_type (pre ++ z) (length pre))
                (sym joined)
              ∙ decode_value-encode_value float_of is_utf8 double c.data_type value pre parts' part
                  w.0 first in
            let ih =
              decode_from-encode_from (suc index) columns values bitmap bm parts' (pre ++ part)
                (omega (arith, same)) b (omega (arith, room)) (λ j k. clear j (omega (arith, k)))
                w.1 rest (λ j k. ap (λ z. is_null z j) all ∙ bits j (omega (arith, k))) in
            let ih1 =
              subst
                (λ r.
                  decode_from is_utf8 (suc index) columns r (length (pre ++ part))
                  ≡ ok (stored_row columns values, length r))
                all ih in
            let ih2 =
              subst
                (λ n.
                  decode_from is_utf8 (suc index) columns (pre ++ parts) n
                  ≡ ok (stored_row columns values, length (pre ++ parts)))
                (length-append pre part) ih1 in
            simp (here, one, ih2) refl
      ]

  abbrev joined_record : Result RecordError (Bytes × Bytes) → Result RecordError Bytes
  joined_record rest = rest >>= λ out. ok (out.0 ++ out.1)

  invert_record :
      (rest : Result RecordError (Bytes × Bytes)) (raw : Bytes)
      → joined_record rest ≡ ok raw
      → (bm : Bytes) × (parts : Bytes) × (rest ≡ ok (bm, parts)) × (bm ++ parts ≡ raw)
  invert_record (err e) raw h = cc
  invert_record (ok (bm, parts)) raw h = (bm, parts, refl, cc)

  arity :
      (columns : Schema) (values : List Value) (raw : Bytes)
      → encode_record float_of columns values ≡ ok raw
      → (length values ≡ length columns)
        × (joined_record
              (encode_from float_of 0 columns values (zero_bytes (null_bitmap_size columns)))
            ≡ ok raw)
  unfolding encode_record
  arity columns values raw h = elim (Bool-cases (length values == length columns)) [
    | inr differ ↦ absurd (ground (arith, h, differ))
    | inl same ↦ (ground (arith, same), (simp same at h))
  ]

  -- A row that is encoded is decoded to the values as they are stored: the same values, but for an
  -- integer in a FLOAT column, which is read back as the float that it was converted to.
  pub decode_record-encode_record :
      (columns : Schema) (values : List Value) (raw : Bytes)
      → IsRow values
      → encode_record float_of columns values ≡ ok raw
      → decode_record is_utf8 columns raw ≡ ok (stored_row columns values)
  unfolding decode_record
  decode_record-encode_record columns values raw w h =
      let n = null_bitmap_size columns in
      let (same, joined) = arity columns values raw h in
      let (bm, parts, run, all) =
        invert_record (encode_from float_of 0 columns values (zero_bytes n)) raw joined in
      let zeros = length-zero_bytes n in
      let bytes = zero_bytes-AllBytes n in
      let room : 0 + length columns ≤ 8 * length (zero_bytes n) = omega (arith, zeros) in
      let bm_size : length bm ≡ n =
        bitmap_size 0 columns values (zero_bytes n) bm parts run ∙ zeros in
      let decoded =
        decode_from-encode_from 0 columns values (zero_bytes n) bm parts bm same bytes room
          (λ j k. is_null-zero_bytes n j) w run
          (λ j k. is_null-append j bm parts (omega (arith, bm_size, k))) in
      let at_n : decode_from is_utf8 0 columns raw n ≡ ok (stored_row columns values, length raw) =
        subst (λ r. decode_from is_utf8 0 columns r n ≡ ok (stored_row columns values, length r))
          all
          (subst
            (λ k.
              decode_from is_utf8 0 columns (bm ++ parts) k
              ≡ ok (stored_row columns values, length (bm ++ parts)))
            bm_size decoded) in
      let whole : ltb (length raw) n ≡ false =
        ground (arith, ap (λ (z : Bytes). length z) all, length-append bm parts, bm_size) in
      let ends : (length raw == length raw) ≡ true = ground arith in simp (whole, at_n, ends) refl

-- ===== src/Serialization/Version/RoundTrip.antt =====
-- A version keeps its row and its maker when it is marked as deleted.
use chen_db.Prelude.{
  ℕ, ◌+◌, ◌<◌, ◌^◌, ◌≡◌, refl, ap, sym, ◌∙◌, Bool, true, false, Option, some, List, [], ◌++◌, inl,
  inr, ltb, leb, length, length-append, drop, take-append_length, drop-append_length, append_assoc,
  arith, Bool-cases,
}
use chen_db.Prelude.Bytes.{Bytes, le_bytes, le_value, length-le_bytes, le_value-le_bytes}
use chen_db.Prelude.Result.{ok}
use chen_db.Prelude.Slices.{slice, splice, pack_into}
use chen_db.Index.Key.{ℤ, Value}
use chen_db.Serialization.Record.{Schema, encode_record, decode_record}
use chen_db.Serialization.Record.Codec.{slice-middle}
use chen_db.Serialization.Record.RoundTrip.{IsRow, stored_row, decode_record-encode_record}
use chen_db.Serialization.Version.{
  add_tuple_header, read_tuple_header, strip_tuple_header, set_xmax,
}

abbrev version : Bytes → ℕ → ℕ → Bytes
version payload xmin xmax = le_bytes 4 xmin ++ (le_bytes 4 xmax ++ payload)

module _ (payload : Bytes) (xmin xmax : ℕ) where
  version_size : length (version payload xmin xmax) ≡ 8 + length payload
  version_size = omega (
    arith,
    length-append (le_bytes 4 xmin) (le_bytes 4 xmax ++ payload),
    length-append (le_bytes 4 xmax) payload,
    length-le_bytes 4 xmin,
    length-le_bytes 4 xmax,
  )

  read-version :
      xmin < 256 ^ 4
      → xmax < 256 ^ 4
      → read_tuple_header (version payload xmin xmax) ≡ ok (record { xmin = xmin; xmax = xmax })
  unfolding read_tuple_header
  read-version h k =
      let long : ltb (length (version payload xmin xmax)) 8 ≡ false =
        ground (arith, version_size) in
      let first : le_value (slice 0 4 (version payload xmin xmax)) ≡ xmin =
        ap le_value (
          slice-middle [] (le_bytes 4 xmin) (le_bytes 4 xmax ++ payload) 0 4 refl
            (sym (length-le_bytes 4 xmin)))
        ∙ le_value-le_bytes 4 xmin h in
      let second : le_value (slice 4 4 (version payload xmin xmax)) ≡ xmax =
        ap le_value (
          slice-middle (le_bytes 4 xmin) (le_bytes 4 xmax) payload 4 4
            (sym (length-le_bytes 4 xmin)) (sym (length-le_bytes 4 xmax)))
        ∙ le_value-le_bytes 4 xmax k in
      simp (long, first, second) refl

  strip-version : strip_tuple_header (version payload xmin xmax) ≡ payload
  unfolding strip_tuple_header
  strip-version =
      let size : 8 ≡ length (le_bytes 4 xmin ++ le_bytes 4 xmax) = omega (
        arith,
        length-append (le_bytes 4 xmin) (le_bytes 4 xmax),
        length-le_bytes 4 xmin,
        length-le_bytes 4 xmax,
      ) in
      ap (drop 8) (sym (append_assoc (le_bytes 4 xmin) (le_bytes 4 xmax) payload))
      ∙ drop-append_length (le_bytes 4 xmin ++ le_bytes 4 xmax) payload 8 size

  set_xmax-version :
      (deleter : ℕ)
      → deleter < 256 ^ 4
      → set_xmax (version payload xmin xmax) deleter ≡ ok (version payload xmin deleter)
  unfolding set_xmax pack_into
  set_xmax-version deleter h =
      let room : leb 8 (length (version payload xmin xmax)) ≡ true = ground (arith, version_size) in
      let fits : ltb deleter (256 ^ 4) ≡ true = ground (arith, h) in
      let replaced : splice 4 (le_bytes 4 deleter) (version payload xmin xmax)
          ≡ version payload xmin deleter =
        unfold splice in
        (ap
            (λ (z : Bytes).
              z
              ++ (le_bytes 4 deleter
                  ++ drop (length (le_bytes 4 deleter)) (drop 4 (version payload xmin xmax))))
            (take-append_length (le_bytes 4 xmin) (le_bytes 4 xmax ++ payload) 4
              (sym (length-le_bytes 4 xmin)))
          ∙ ap
              (λ (z : Bytes).
                le_bytes 4 xmin ++ (le_bytes 4 deleter ++ drop (length (le_bytes 4 deleter)) z))
              (drop-append_length (le_bytes 4 xmin) (le_bytes 4 xmax ++ payload) 4
                (sym (length-le_bytes 4 xmin)))
          ∙ ap (λ (z : Bytes). le_bytes 4 xmin ++ (le_bytes 4 deleter ++ z))
              (drop-append_length (le_bytes 4 xmax) payload (length (le_bytes 4 deleter))
                (length-le_bytes 4 deleter ∙ sym (length-le_bytes 4 xmax)))) in
      simp (room, fits, replaced) refl

add-version :
    (payload : Bytes) (xmin xmax : ℕ) (raw : Bytes)
    → add_tuple_header payload xmin xmax ≡ ok raw
    → (xmin < 256 ^ 4) × (xmax < 256 ^ 4) × (version payload xmin xmax ≡ raw)
unfolding add_tuple_header
add-version payload xmin xmax raw h = elim (Bool-cases (ltb xmin (256 ^ 4))) [
  | inr wide ↦ absurd (ground (arith, h, wide))
  | inl low ↦ elim (Bool-cases (ltb xmax (256 ^ 4))) [
    | inr wide ↦ absurd (ground (arith, h, low, wide))
    | inl low' ↦
        let e : ok (version payload xmin xmax) ≡ ok raw = (simp (low, low') at h) in
        (ground (arith, low), ground (arith, low'), cc)
  ]
]

module _ (float_of : ℤ → Option ℕ) (is_utf8 : Bytes → Bool)
    (double : (v : ℤ) (bits : ℕ) → float_of v ≡ some bits → bits < 256 ^ 8) where
  -- A row that is encoded and given a header reads with both ids of the header and as its row; marked as
  -- deleted by a transaction whose id has 32 bits, which always works, it reads with that id in place of
  -- the second and as the same row.
  pub set_xmax-add_tuple_header :
      (columns : Schema) (values : List Value) (payload raw : Bytes) (xmin xmax deleter : ℕ)
      → IsRow float_of is_utf8 double values
      → encode_record float_of columns values ≡ ok payload
      → add_tuple_header payload xmin xmax ≡ ok raw
      → deleter < 256 ^ 4
      → (read_tuple_header raw ≡ ok (record { xmin = xmin; xmax = xmax }))
        × (decode_record is_utf8 columns (strip_tuple_header raw)
            ≡ ok (stored_row float_of is_utf8 double columns values))
        × (marked : Bytes) × (set_xmax raw deleter ≡ ok marked)
        × (read_tuple_header marked ≡ ok (record { xmin = xmin; xmax = deleter }))
        × (decode_record is_utf8 columns (strip_tuple_header marked)
            ≡ ok (stored_row float_of is_utf8 double columns values))
  set_xmax-add_tuple_header columns values payload raw xmin xmax deleter w row h k =
      let (low, low', e) = add-version payload xmin xmax raw h in
      let back = decode_record-encode_record float_of is_utf8 double columns values payload w row in
      (
        ap read_tuple_header (sym e) ∙ read-version payload xmin xmax low low',
        ap (λ z. decode_record is_utf8 columns (strip_tuple_header z)) (sym e)
            ∙ ap (decode_record is_utf8 columns) (strip-version payload xmin xmax)
            ∙ back,
        version payload xmin deleter,
        ap (λ z. set_xmax z deleter) (sym e) ∙ set_xmax-version payload xmin xmax deleter k,
        read-version payload xmin deleter low k,
        ap (decode_record is_utf8 columns) (strip-version payload xmin deleter) ∙ back,
      )

-- ===== src/Wal/Log/Staged.antt =====
-- The buffer of a log: the staged records, one piece of bytes each.
use chen_db.Prelude.{
  ℕ, ◌≡◌, refl, ap, ◌∙◌, inl, inr, Option, none, some, List, [], ◌∷◌, ◌++◌, append_assoc, arith,
  length, init, Option-cases,
}
use chen_db.Prelude.Bytes.{Bytes}
use chen_db.Wal.Record.{LogRecord, to_bytes, ◌>>=◌}
use chen_db.Wal.Log.{joined, last_length}
use chen_db.Wal.Log.Stream.{encode_all}

abbrev pub last? : List LogRecord → Option LogRecord
last? [] = none
last? (r ∷ []) = some r
last? (r ∷ q ∷ qs) = last? (q ∷ qs)

pub last?-append_one : (rs : List LogRecord) (r : LogRecord) → last? (rs ++ r ∷ []) ≡ some r
last?-append_one [] r = refl
last?-append_one (q ∷ []) r = refl
last?-append_one (q ∷ p ∷ ps) r = last?-append_one (p ∷ ps) r

pub split_last : (rs : List LogRecord) (t : LogRecord) → last? rs ≡ some t → rs ≡ init rs ++ t ∷ []
split_last [] t h = ground arith
split_last (r ∷ []) t h = ground arith
split_last (r ∷ q ∷ qs) t h = ap (◌∷◌ r) (split_last (q ∷ qs) t h)

pub joined-append : (xs ys : List Bytes) → joined (xs ++ ys) ≡ joined xs ++ joined ys
joined-append [] ys = refl
joined-append (x ∷ xs) ys = rw (joined-append xs ys, append_assoc)

pub last_length-append_one : (xs : List Bytes) (e : Bytes) → last_length (xs ++ e ∷ []) ≡ length e
last_length-append_one [] e = refl
last_length-append_one (x ∷ []) e = refl
last_length-append_one (x ∷ y ∷ ys) e = last_length-append_one (y ∷ ys) e

module _ (crc32 : Bytes → ℕ) where
  abbrev pub encode_each : List LogRecord → Option (List Bytes)
  encode_each [] = some []
  encode_each (r ∷ rs) = do e ← to_bytes crc32 r; es ← encode_each rs; some (e ∷ es)

  pub encode_each-cons :
      (r : LogRecord) (rs : List LogRecord) (bufs : List Bytes)
      → encode_each (r ∷ rs) ≡ some bufs
      → (e : Bytes) × (es : List Bytes) × (to_bytes crc32 r ≡ some e)
        × (encode_each rs ≡ some es)
        × (bufs ≡ e ∷ es)
  encode_each-cons r rs bufs h = elim (Option-cases (to_bytes crc32 r)) [
    | inl x ↦ absurd (ground (arith, x))
    | inr (e, x) ↦ elim (Option-cases (encode_each rs)) [
      | inl y ↦ absurd (ground (arith, x, y))
      | inr (es, y) ↦ (e, es, x, y, ground (arith, x, y))
    ]
  ]

  pub encode_each-all :
      (rs : List LogRecord) (bufs : List Bytes)
      → encode_each rs ≡ some bufs
      → encode_all crc32 rs ≡ some (joined bufs)
  encode_each-all [] bufs h = ground arith
  encode_each-all (r ∷ rs) bufs h =
      let (e, es, x, y, z) = encode_each-cons r rs bufs h in rw (x, encode_each-all rs es y, z)

  pub encode_each-append_one :
      (rs : List LogRecord) (r : LogRecord) (bufs : List Bytes) (e : Bytes)
      → encode_each rs ≡ some bufs
      → to_bytes crc32 r ≡ some e
      → encode_each (rs ++ r ∷ []) ≡ some (bufs ++ e ∷ [])
  encode_each-append_one [] r bufs e h k = let n : bufs ≡ [] = ground arith in rw (k, n)
  encode_each-append_one (q ∷ qs) r bufs e h k =
      let (d, ds, x, y, z) = encode_each-cons q qs bufs h in
      rw (x, encode_each-append_one qs r ds e y k, z)

  -- The buffer of staged records that end in `r` ends in the bytes of `r`.
  pub encode_each-split :
      (rs : List LogRecord) (r : LogRecord) (bufs : List Bytes)
      → encode_each (rs ++ r ∷ []) ≡ some bufs
      → (ds : List Bytes) × (e : Bytes) × (encode_each rs ≡ some ds)
        × (to_bytes crc32 r ≡ some e)
        × (bufs ≡ ds ++ e ∷ [])
  encode_each-split [] r bufs h =
      let (e, es, x, y, z) = encode_each-cons r [] bufs h in ([], e, refl, x, ground arith)
  encode_each-split (q ∷ qs) r bufs h =
      let (d, ds, x, y, z) = encode_each-cons q (qs ++ r ∷ []) bufs h in
      let (ds', e, x', y', z') = encode_each-split qs r ds y in
      (d ∷ ds', e, rw (x, x'), y', z ∙ ap (◌∷◌ d) z')

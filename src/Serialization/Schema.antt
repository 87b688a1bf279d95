-- ===== src/Serialization/Schema.antt =====
-- engine/serialization/schema.py: columns and schemas. A name is its characters, and `casefold` is that of
-- Python's strings.
use chen_db.Prelude.{
  ℕ, zero, suc, ◌+◌, ◌≡◌, refl, ap, sym, ◌∙◌, Bool, true, false, some, List, [], ◌∷◌, ltb, ◌==◌,
  if◌then◌else◌, length, get_elem?, arith, Bool-cases, inl, inr,
}
use chen_db.Prelude.Result.{Result, ok, err, ◌>>=◌, Result-cases}
use chen_db.Index.Key.{DataType}
use chen_db.Serialization.Record.{Column, Schema}

-- `SchemaError`, of which only the message differs.
pub data SchemaError : Type 0 where
  schema_error : SchemaError

-- `Column.__post_init__`
unfoldable pub new_column : List ℕ → DataType → Bool → Bool → Result SchemaError Column
new_column [] data_type nullable primary_key = err schema_error
new_column (x ∷ xs) data_type nullable primary_key =
    if ltb 64 (length (x ∷ xs))
    then err schema_error
    else if (if primary_key then nullable else false)
    then err schema_error
    else ok (record {
      name = x ∷ xs;
      data_type = data_type;
      nullable = nullable;
      primary_key = primary_key;
    })

same_name : List ℕ → List ℕ → Bool
same_name [] [] = true
same_name [] (y ∷ ys) = false
same_name (x ∷ xs) [] = false
same_name (x ∷ xs) (y ∷ ys) = let rest = same_name xs ys in if x == y then rest else false

-- `key in seen`
unfoldable seen_before : List ℕ → List (List ℕ) → Bool
unfolding same_name
seen_before key [] = false
seen_before key (other ∷ seen) =
    let rest = seen_before key seen in if same_name key other then true else rest

unfoldable primary_keys : Schema → ℕ
primary_keys [] = 0
primary_keys (c ∷ columns) =
    if c.primary_key then suc (primary_keys columns) else primary_keys columns

module _ (casefold : List ℕ → List ℕ) where
  -- The loop of `Schema.__post_init__`, with the names that it has seen.
  unfoldable note_names : Schema → List (List ℕ) → Result SchemaError (List (List ℕ))
  unfolding seen_before
  note_names [] seen = ok seen
  note_names (c ∷ columns) seen =
      let rest = note_names columns (casefold c.name ∷ seen) in
      if seen_before (casefold c.name) seen then err schema_error else rest

  -- `Schema.__post_init__`
  unfoldable pub new_schema : Schema → Result SchemaError Schema
  unfolding note_names primary_keys
  new_schema [] = err schema_error
  new_schema (c ∷ columns) = note_names (c ∷ columns) [] >>= λ done.
      if ltb 1 (primary_keys (c ∷ columns)) then err schema_error else ok (c ∷ columns)

  -- The loop of `Schema.index_of`, from a column on.
  unfoldable index_from : ℕ → List ℕ → Schema → Result SchemaError ℕ
  unfolding same_name
  index_from index key [] = err schema_error
  index_from index key (c ∷ columns) =
      let rest = index_from (suc index) key columns in
      if same_name (casefold c.name) key then ok index else rest

  unfoldable pub index_of : List ℕ → Schema → Result SchemaError ℕ
  unfolding index_from
  index_of name columns = index_from 0 (casefold name) columns

same_name-same : (xs ys : List ℕ) → same_name xs ys ≡ true → xs ≡ ys
unfolding same_name
same_name-same [] [] h = refl
same_name-same [] (y ∷ ys) h = cc
same_name-same (x ∷ xs) [] h = cc
same_name-same (x ∷ xs) (y ∷ ys) h = elim (Bool-cases (x == y)) [
  | inr differ ↦ absurd (ground (arith, h, differ))
  | inl same ↦
      let e : x ≡ y = ground (arith, same) in
      let rest = same_name-same xs ys (simp same at h) in
      ap (λ z. z ∷ xs) e ∙ ap (λ (zs : List ℕ). y ∷ zs) rest
]

same_name_refl : (xs : List ℕ) → same_name xs xs ≡ true
unfolding same_name
same_name_refl [] = refl
same_name_refl (x ∷ xs) = let e : (x == x) ≡ true = ground arith in simp e (same_name_refl xs)

module _ (casefold : List ℕ → List ℕ) where
  later_names :
      (d : Column) (columns : Schema) (seen out : List (List ℕ))
      → note_names casefold (d ∷ columns) seen ≡ ok out
      → (seen_before (casefold d.name) seen ≡ false)
        × (note_names casefold columns (casefold d.name ∷ seen) ≡ ok out)
  unfolding note_names
  later_names d columns seen out h = elim (Bool-cases (seen_before (casefold d.name) seen)) [
    | inl again ↦ absurd (ground (arith, h, again))
    | inr fresh ↦ (fresh, (simp fresh at h))
  ]

  -- A name that was not seen is none of those seen.
  other_name :
      (key first : List ℕ) (seen : List (List ℕ))
      → seen_before key (first ∷ seen) ≡ false
      → (same_name key first ≡ false) × (seen_before key seen ≡ false)
  unfolding seen_before
  other_name key first seen h = elim (Bool-cases (same_name key first)) [
    | inl same ↦ absurd (ground (arith, h, same))
    | inr differ ↦ (differ, (simp differ at h))
  ]

  -- No column still to come has a name that was seen.
  note_names-absent :
      (columns : Schema) (seen out : List (List ℕ)) (i : ℕ) (c : Column)
      → note_names casefold columns seen ≡ ok out
      → get_elem? columns i ≡ some c
      → seen_before (casefold c.name) seen ≡ false
  note_names-absent [] seen out i c h k = cc
  note_names-absent (d ∷ columns) seen out zero c h k =
      let e : d ≡ c = cc in
      ap (λ (z : Column). seen_before (casefold z.name) seen) (sym e)
      ∙ (later_names d columns seen out h).0
  note_names-absent (d ∷ columns) seen out (suc i) c h k =
      (other_name (casefold c.name) (casefold d.name) seen (
        note_names-absent columns (casefold d.name ∷ seen) out i c
          (later_names d columns seen out h).1 k)).1

  index_from-get_elem :
      (columns : Schema) (seen out : List (List ℕ)) (index i : ℕ) (c : Column)
      → note_names casefold columns seen ≡ ok out
      → get_elem? columns i ≡ some c
      → index_from casefold index (casefold c.name) columns ≡ ok (index + i)
  unfolding index_from
  index_from-get_elem [] seen out index i c h k = cc
  index_from-get_elem (d ∷ columns) seen out index zero c h k =
      let e : d ≡ c = cc in
      let found : same_name (casefold d.name) (casefold c.name) ≡ true =
        ap (λ (z : Column). same_name (casefold d.name) (casefold z.name)) (sym e)
        ∙ same_name_refl (casefold d.name) in
      let stays : index ≡ index + 0 = omega arith in simp found (ap (λ (z : ℕ). ok z) stays)
  index_from-get_elem (d ∷ columns) seen out index (suc i) c h k =
      let rest = (later_names d columns seen out h).1 in
      let apart =
        other_name (casefold c.name) (casefold d.name) seen
          (note_names-absent columns (casefold d.name ∷ seen) out i c rest k) in
      let ih = index_from-get_elem columns (casefold d.name ∷ seen) out (suc index) i c rest k in
      let moves : suc index + i ≡ index + suc i = omega arith in
      elim (Bool-cases (same_name (casefold d.name) (casefold c.name))) [
        | inr differ ↦ simp differ (ih ∙ ap (λ (z : ℕ). ok z) moves)
        | inl same ↦
            let e = same_name-same (casefold d.name) (casefold c.name) same in
            let both : same_name (casefold c.name) (casefold d.name) ≡ true =
              ap (same_name (casefold c.name)) e ∙ same_name_refl (casefold c.name) in
            absurd (ground (arith, both, apart.0))
      ]

  accepted :
      (columns checked : Schema)
      → new_schema casefold columns ≡ ok checked
      → (out : List (List ℕ)) × (note_names casefold columns [] ≡ ok out)
  unfolding new_schema
  accepted [] checked h = cc
  accepted (c ∷ columns) checked h = elim (Result-cases (note_names casefold (c ∷ columns) [])) [
    | inl (out, e) ↦ (out, e)
    | inr (e, raised) ↦ let z : err e ≡ ok checked = (simp raised at h) in cc
  ]

  -- In a schema that is accepted, every column is found at its own position, by any spelling of its name.
  index_of-get_elem :
      (columns checked : Schema) (i : ℕ) (c : Column) (name : List ℕ)
      → new_schema casefold columns ≡ ok checked
      → get_elem? columns i ≡ some c
      → casefold name ≡ casefold c.name
      → index_of casefold name columns ≡ ok i
  unfolding index_of
  index_of-get_elem columns checked i c name h k e =
      let (out, run) = accepted columns checked h in
      ap (λ z. index_from casefold 0 z columns) e
      ∙ index_from-get_elem columns [] out 0 i c run k
      ∙ (let same : 0 + i ≡ i = omega arith in ap (λ (z : ℕ). ok z) same)

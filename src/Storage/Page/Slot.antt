-- ===== src/Storage/Page/Slot.antt =====
-- Fields of a page under a list of writes: what reading gives, where a write hits it and where all of
-- them miss it.
use chen_db.Prelude.{
  ℕ, ◌+◌, ◌^◌, ◌≤◌, ◌<◌, ◌≡◌, refl, sym, ap, subst, ◌∙◌, Bool, true, false, List, [], ◌∷◌, ◌++◌,
  arith, ltb, leb, if◌then◌else◌, length, Bool-cases, inl, inr,
}
use chen_db.Prelude.Bytes.{Bytes, le_bytes, le_value, length-le_bytes, le_value-le_bytes}
use chen_db.Prelude.Result.{ok, err, ◌>>=◌}
use chen_db.Prelude.Slices.{
  slice, splice, unpack_from, pack_into, apart, length-splice, slice-splice_same,
  slice-splice_inside, slice-splice_apart,
}
use chen_db.Storage.Page.{Page, PageError, get_field, set_field, read_slot, write_slot, slot_offset}

-- Assignments of slices, the first made first.
abbrev pub Writes : Type 0
Writes = List (ℕ × Bytes)

abbrev pub patch : Writes → Bytes → Bytes
patch [] buf = buf
patch ((offset, items) ∷ ps) buf = patch ps (splice offset items buf)

-- No write touches the range.
abbrev pub misses : ℕ → ℕ → Writes → Bool
misses o n [] = true
misses o n ((offset, items) ∷ ps) = if apart o n offset (length items) then misses o n ps else false

-- Every write lies inside a buffer of that length.
abbrev pub Fits : ℕ → Writes → Type 0
Fits size [] = Unit
Fits size ((offset, items) ∷ ps) = (offset + length items ≤ size) × Fits size ps

pub length-patch :
    (ps : Writes) (buf : Bytes) → Fits (length buf) ps → length (patch ps buf) ≡ length buf
length-patch [] buf h = refl
length-patch ((offset, items) ∷ ps) buf h =
    let e = length-splice offset items buf h.0 in
    length-patch ps (splice offset items buf) (subst (λ n. Fits n ps) (sym e) h.1) ∙ e

pub slice-patch_miss :
    (o n : ℕ) (ps : Writes) (buf : Bytes)
    → Fits (length buf) ps
    → misses o n ps ≡ true
    → slice o n (patch ps buf) ≡ slice o n buf
slice-patch_miss o n [] buf h m = refl
slice-patch_miss o n ((offset, items) ∷ ps) buf h m =
    let e = length-splice offset items buf h.0 in
    let one : apart o n offset (length items) ≡ true =
      elim (Bool-cases (apart o n offset (length items))) [
        | inl k ↦ k
        | inr k ↦ absurd (ground (arith, m, k))
      ] in
    let rest : misses o n ps ≡ true = sym (simp one refl) ∙ m in
    slice-patch_miss o n ps (splice offset items buf) (subst (λ k. Fits k ps) (sym e) h.1) rest
    ∙ slice-splice_apart o n offset items buf one h.0

pub slice-patch_hit :
    (o n : ℕ) (items : Bytes) (ps : Writes) (buf : Bytes)
    → n ≡ length items
    → Fits (length buf) ((o, items) ∷ ps)
    → misses o n ps ≡ true
    → slice o n (patch ((o, items) ∷ ps) buf) ≡ items
slice-patch_hit o n items ps buf e h m =
    let k = length-splice o items buf h.0 in
    slice-patch_miss o n ps (splice o items buf) (subst (λ j. Fits j ps) (sym k) h.1) m
    ∙ slice-splice_same o n items buf e (omega (arith, h.0))

-- A 16-bit field of the page.
abbrev pub u16 : ℕ → Bytes → ℕ
u16 o buf = le_value (slice o 2 buf)

-- A write that the later ones miss is read, whatever was written before it.
pub slice-patch_hit_after :
    (before : Writes) (o n : ℕ) (items : Bytes) (ps : Writes) (buf : Bytes)
    → n ≡ length items
    → Fits (length buf) (before ++ (o, items) ∷ ps)
    → misses o n ps ≡ true
    → slice o n (patch (before ++ (o, items) ∷ ps) buf) ≡ items
slice-patch_hit_after [] o n items ps buf e h m = slice-patch_hit o n items ps buf e h m
slice-patch_hit_after ((off, bs) ∷ before) o n items ps buf e h m =
    let k = length-splice off bs buf h.0 in
    slice-patch_hit_after before o n items ps (splice off bs buf) e
      (subst (λ j. Fits j (before ++ (o, items) ∷ ps)) (sym k) h.1) m

-- A part of a write that the later ones miss.
pub slice-patch_inside :
    (before : Writes) (o j n : ℕ) (items : Bytes) (ps : Writes) (buf : Bytes)
    → j + n ≤ length items
    → Fits (length buf) (before ++ (o, items) ∷ ps)
    → misses (o + j) n ps ≡ true
    → slice (o + j) n (patch (before ++ (o, items) ∷ ps) buf) ≡ slice j n items
slice-patch_inside [] o j n items ps buf e h m =
    let k = length-splice o items buf h.0 in
    slice-patch_miss (o + j) n ps (splice o items buf) (subst (λ z. Fits z ps) (sym k) h.1) m
    ∙ slice-splice_inside o j n items buf e (omega (arith, h.0))
slice-patch_inside ((off, bs) ∷ before) o j n items ps buf e h m =
    let k = length-splice off bs buf h.0 in
    slice-patch_inside before o j n items ps (splice off bs buf) e
      (subst (λ z. Fits z (before ++ (o, items) ∷ ps)) (sym k) h.1) m

pub u16-hit :
    (before : Writes) (o v : ℕ) (ps : Writes) (buf : Bytes)
    → v < 65536
    → Fits (length buf) (before ++ (o, le_bytes 2 v) ∷ ps)
    → misses o 2 ps ≡ true
    → u16 o (patch (before ++ (o, le_bytes 2 v) ∷ ps) buf) ≡ v
u16-hit before o v ps buf small h m =
    ap le_value
      (slice-patch_hit_after before o 2 (le_bytes 2 v) ps buf (sym (length-le_bytes 2 v)) h m)
    ∙ le_value-le_bytes 2 v small

-- A field inside the page is read.
pub get_field_lem :
    (n o : ℕ) (page : Page)
    → o + n ≤ length page.buf
    → get_field n o page ≡ ok (le_value (slice o n page.buf))
unfolding get_field unpack_from
get_field_lem n o page h =
    let fits : leb (o + n) (length page.buf) ≡ true = ground arith in simp fits refl

-- A field inside the page is written, if the number fits into it.
pub set_field_lem :
    (n o v : ℕ) (page : Page)
    → o + n ≤ length page.buf
    → v < 256 ^ n
    → set_field n o v page ≡ ok (record page { buf = splice o (le_bytes n v) page.buf })
unfolding set_field pack_into
set_field_lem n o v page h k =
    let fits : leb (o + n) (length page.buf) ≡ true = ground arith in
    let small : ltb v (256 ^ n) ≡ true = ground arith in simp (fits, small) refl

-- A number that does not fit into the field raises.
pub set_field_too_large :
    (n o v : ℕ) (page : Page) → 256 ^ n ≤ v → set_field n o v page ≡ err PageError.struct_error
unfolding set_field pack_into
set_field_too_large n o v page h =
    let large : ltb v (256 ^ n) ≡ false = ground arith in
    elim (Bool-cases (leb (o + n) (length page.buf))) [
      | inl fits ↦ simp (fits, large) refl
      | inr past ↦ simp past refl
    ]

pub get_u16 :
    (o : ℕ) (page : Page) → o + 2 ≤ length page.buf → get_field 2 o page ≡ ok (u16 o page.buf)
get_u16 o page h = get_field_lem 2 o page h

pub set_u16 :
    (o v : ℕ) (page : Page)
    → o + 2 ≤ length page.buf
    → v < 65536
    → set_field 2 o v page ≡ ok (record page { buf = splice o (le_bytes 2 v) page.buf })
set_u16 o v page h k = set_field_lem 2 o v page h (omega arith)

pub read_slot_lem :
    (s : ℕ) (page : Page)
    → slot_offset s + 4 ≤ length page.buf
    → read_slot s page ≡ ok (u16 (slot_offset s) page.buf, u16 (slot_offset s + 2) page.buf)
unfolding read_slot
read_slot_lem s page h =
    simp
      (get_u16 (slot_offset s) page (omega arith), get_u16 (slot_offset s + 2) page (omega arith))
      refl

pub write_slot_lem :
    (s o n : ℕ) (page : Page)
    → slot_offset s + 4 ≤ length page.buf
    → o < 65536
    → n < 65536
    → write_slot s o n page
      ≡ ok (record page {
        buf =
            patch ((slot_offset s, le_bytes 2 o) ∷ (slot_offset s + 2, le_bytes 2 n) ∷ []) page.buf;
      })
unfolding write_slot
write_slot_lem s o n page h k l =
    let first = record page { buf = splice (slot_offset s) (le_bytes 2 o) page.buf } in
    let size : length first.buf ≡ length page.buf =
      length-splice (slot_offset s) (le_bytes 2 o) page.buf (omega (arith, length-le_bytes 2 o)) in
    ap (λ r. r >>= set_field 2 (slot_offset s + 2) n)
      (set_u16 (slot_offset s) o page (omega arith) k)
    ∙ set_u16 (slot_offset s + 2) n first (omega (arith, size)) l

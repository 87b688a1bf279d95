-- ===== src/Storage/Page/Sound.antt =====
-- What every page of the engine is: its pointers agree, and its live records lie apart from one another
-- in the record region.
use chen_db.Prelude.{
  ℕ, ◌+◌, ◌*◌, ◌≤◌, ◌<◌, ◌≡◌, ◌≢◌, refl, sym, ap, ◌∙◌, true, false, Option, none, some, arith, ltb,
  ◌==◌, if◌then◌else◌, length, Bool-cases, inl, inr,
}
use chen_db.Prelude.Bytes.{Bytes, le_value}
use chen_db.Prelude.Result.{ok}
use chen_db.Prelude.Slices.{slice, apart}
use chen_db.Storage.Page.{Page, get_field, read_slot, slot_offset, read}
use chen_db.Storage.Page.Slot.{u16, get_u16, read_slot_lem}

abbrev pub count : Page → ℕ
count page = u16 14 page.buf

abbrev pub free_start : Page → ℕ
free_start page = u16 16 page.buf

abbrev pub free_end : Page → ℕ
free_end page = u16 18 page.buf

abbrev pub offset_at : ℕ → Page → ℕ
offset_at s page = u16 (slot_offset s) page.buf

abbrev pub size_at : ℕ → Page → ℕ
size_at s page = u16 (slot_offset s + 2) page.buf

pub record IsPage (page : Page) : Type 0 where
  pub size : length page.buf ≡ page.page_size
  pub least : 28 ≤ page.page_size
  pub most : page.page_size < 65536
  pub start : free_start page ≡ 24 + count page * 4
  pub low : free_start page ≤ free_end page
  pub high : free_end page ≤ page.page_size
  pub live :
      (s : ℕ)
      → s < count page
      → offset_at s page ≢ 0
      → (free_end page ≤ offset_at s page) × (offset_at s page + size_at s page ≤ page.page_size)
  pub dead : (s : ℕ) → s < count page → offset_at s page ≡ 0 → size_at s page ≡ 0
  pub distinct :
      (s t : ℕ)
      → s < count page
      → t < count page
      → s ≢ t
      → offset_at s page ≢ 0
      → offset_at t page ≢ 0
      → apart (offset_at s page) (size_at s page) (offset_at t page) (size_at t page) ≡ true

-- The record in a slot, if it is live.
abbrev pub content : ℕ → Page → Option Bytes
content s page =
    if ltb s (count page)
    then (if offset_at s page == 0
        then none
        else some (slice (offset_at s page) (size_at s page) page.buf))
    else none

module _ (page : Page) (p : IsPage page) where
  pub get_count : get_field 2 14 page ≡ ok (count page)
  get_count = get_u16 14 page (omega (arith, p.size, p.least))

  pub get_free_start : get_field 2 16 page ≡ ok (free_start page)
  get_free_start = get_u16 16 page (omega (arith, p.size, p.least))

  pub get_free_end : get_field 2 18 page ≡ ok (free_end page)
  get_free_end = get_u16 18 page (omega (arith, p.size, p.least))

  pub get_slot : (s : ℕ) → s < count page → read_slot s page ≡ ok (offset_at s page, size_at s page)
  get_slot s h = read_slot_lem s page (omega (arith, p.size, p.start, p.low, p.high))

  -- Reading a slot never raises, and gives the record in it.
  pub read_lem : (s : ℕ) → read s page ≡ ok (content s page)
  unfolding read
  read_lem s = elim (Bool-cases (ltb s (count page))) [
    | inr out ↦ simp (get_count, out) refl
    | inl inside ↦ elim (Bool-cases (offset_at s page == 0)) [
      | inl gone ↦ simp (get_count, inside, get_slot s (ground arith), gone) refl
      | inr there ↦ simp (get_count, inside, get_slot s (ground arith), there) refl
    ]
  ]

-- A slot of one page and a slot of another one whose entries, and the bytes that they point to, are the
-- same.
pub both-content :
    (t s : ℕ) (page page' : Page)
    → ltb s (count page) ≡ true
    → ltb t (count page') ≡ true
    → offset_at t page' ≡ offset_at s page
    → size_at t page' ≡ size_at s page
    → (offset_at s page ≢ 0
        → slice (offset_at s page) (size_at s page) page'.buf
          ≡ slice (offset_at s page) (size_at s page) page.buf)
    → content t page' ≡ content s page
both-content t s page page' inside inside' eo es eb = elim (Bool-cases (offset_at s page == 0)) [
  | inl gone ↦
      let gone' : (offset_at t page' == 0) ≡ true = ground (arith, gone, eo) in
      simp (inside, inside', gone, gone') refl
  | inr there ↦
      let there' : (offset_at t page' == 0) ≡ false = ground (arith, there, eo) in
      simp (inside, inside', there, there')
        (ap (λ z. some (slice z (size_at t page') page'.buf)) eo
          ∙ ap (λ z. some (slice (offset_at s page) z page'.buf)) es
          ∙ ap some (eb (ground (arith, there))))
]

-- Two directories of the same length.
pub same-content :
    (t : ℕ) (page page' : Page)
    → count page' ≡ count page
    → offset_at t page' ≡ offset_at t page
    → size_at t page' ≡ size_at t page
    → (t < count page
        → offset_at t page ≢ 0
        → slice (offset_at t page) (size_at t page) page'.buf
          ≡ slice (offset_at t page) (size_at t page) page.buf)
    → content t page' ≡ content t page
same-content t page page' ec eo es eb = elim (Bool-cases (ltb t (count page))) [
  | inr out ↦
      let out' : ltb t (count page') ≡ false = ground (arith, out, ec) in simp (out, out') refl
  | inl inside ↦
      let inside' : ltb t (count page') ≡ true = ground (arith, inside, ec) in
      both-content t t page page' inside inside' eo es (eb (ground (arith, inside)))
]

-- A page that differs from a well-formed one in its checksum, its LSN, its type, its flags and its link
-- at most.
module _ (page page' : Page) (p : IsPage page) (length_same : length page'.buf ≡ length page.buf)
    (page_size_same : page'.page_size ≡ page.page_size) (count_same : count page' ≡ count page)
    (start_same : free_start page' ≡ free_start page) (end_same : free_end page' ≡ free_end page)
    (rest_same : (o n : ℕ) → 24 ≤ o → slice o n page'.buf ≡ slice o n page.buf) where
  pub relabelled_slot :
      (t : ℕ) → (offset_at t page' ≡ offset_at t page) × (size_at t page' ≡ size_at t page)
  relabelled_slot t = (
    ap le_value (rest_same (slot_offset t) 2 (omega arith)),
    ap le_value (rest_same (slot_offset t + 2) 2 (omega arith)),
  )

  pub relabelled-IsPage : IsPage page'
  relabelled-IsPage = record {
    size = omega (arith, length_same, page_size_same, p.size);
    least = omega (arith, page_size_same, p.least);
    most = omega (arith, page_size_same, p.most);
    start = omega (arith, start_same, count_same, p.start);
    low = omega (arith, start_same, end_same, p.low);
    high = omega (arith, end_same, page_size_same, p.high);
    live = λ t h k.
        let o = relabelled_slot t in
        omega (
          arith,
          o,
          end_same,
          page_size_same,
          p.live t (omega (arith, h, count_same)) (λ z. k (o.0 ∙ z)),
        );
    dead = λ t h k.
        let o = relabelled_slot t in o.1 ∙ p.dead t (omega (arith, h, count_same)) (sym o.0 ∙ k);
    distinct = λ t u ht hu ne kt ku.
        let o = relabelled_slot t in
        let o' = relabelled_slot u in
        simp (o.0, o.1, o'.0, o'.1)
          (p.distinct t u (omega (arith, ht, count_same)) (omega (arith, hu, count_same)) ne
            (λ z. kt (o.0 ∙ z)) (λ z. ku (o'.0 ∙ z)));
  }

  pub relabelled-content : (t : ℕ) → content t page' ≡ content t page
  relabelled-content t =
      let o = relabelled_slot t in
      same-content t page page' count_same o.0 o.1 (λ h k.
        rest_same (offset_at t page) (size_at t page) (omega (arith, p.start, p.low, p.live t h k)))

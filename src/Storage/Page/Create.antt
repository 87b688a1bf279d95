-- ===== src/Storage/Page/Create.antt =====
-- A new page, and the checks that every page passes.
use chen_db.Prelude.{
  ℕ, zero, suc, ◌+◌, ◌*◌, ◌≤◌, ◌<◌, ◌≡◌, ◌≢◌, ◌⊎◌, refl, ap, ◌∙◌, true, false, none, [], ◌∷◌, arith,
  ltb, leb, ◌==◌, length, Bool-cases, inl, inr,
}
use chen_db.Prelude.Bytes.{le_bytes}
use chen_db.Prelude.Result.{ok, err}
use chen_db.Storage.Page.{
  Page, PageType, PageError, code, create, zeros, valid_page_size, validate, validate_header,
  validate_slots, invalid_page_id,
}
use chen_db.Storage.Page.Slot.{
  Writes, patch, Fits, u16-hit, length-patch, set_field_lem, set_field_too_large,
}
use chen_db.Storage.Page.Sound.{
  IsPage, count, free_start, free_end, offset_at, size_at, content, get_count, get_free_start,
  get_free_end, get_slot,
}

pub length-zeros : (n : ℕ) → length (zeros n) ≡ n
unfolding zeros
length-zeros zero = refl
length-zeros (suc n) = ap suc (length-zeros n)

code-lt : (t : PageType) → code t < 256
unfolding code
code-lt PageType.unallocated = omega arith
code-lt PageType.meta = omega arith
code-lt PageType.heap = omega arith
code-lt PageType.schema = omega arith
code-lt PageType.btree_internal = omega arith
code-lt PageType.btree_leaf = omega arith
code-lt PageType.overflow = omega arith

module _ (page_id : ℕ) (t : PageType) (n : ℕ) (valid : valid_page_size n ≡ true) where
  valid_range : (256 ≤ n) × (n ≤ 65536)
  unfolding valid_page_size
  valid_range = ground arith

  abbrev new_writes : Writes
  new_writes =
      (12, le_bytes 1 (code t))
      ∷ (14, le_bytes 2 0)
      ∷ (16, le_bytes 2 24)
      ∷ (18, le_bytes 2 n)
      ∷ (20, le_bytes 4 invalid_page_id)
      ∷ []

  abbrev after_end : Writes
  after_end = (20, le_bytes 4 invalid_page_id) ∷ []

  abbrev after_start : Writes
  after_start = (18, le_bytes 2 n) ∷ (20, le_bytes 4 invalid_page_id) ∷ []

  abbrev after_count : Writes
  after_count = (16, le_bytes 2 24) ∷ (18, le_bytes 2 n) ∷ (20, le_bytes 4 invalid_page_id) ∷ []

  new_writes-Fits : Fits (length (zeros n)) new_writes
  unfolding le_bytes
  new_writes-Fits = omega (arith, length-zeros n, valid_range)

  new_page : Page
  new_page = record { page_id = page_id; buf = patch new_writes (zeros n); page_size = n }

  abbrev stage : Writes → Page
  stage ws = record { page_id = page_id; buf = patch ws (zeros n); page_size = n }

  -- The first three fields are written whatever the size.
  stage_size : (ws : Writes) → Fits (length (zeros n)) ws → 256 ≤ length (stage ws).buf
  stage_size ws h = omega (arith, length-patch ws (zeros n) h, length-zeros n, valid_range)

  abbrev w1 : Writes
  w1 = (12, le_bytes 1 (code t)) ∷ []

  abbrev w2 : Writes
  w2 = (12, le_bytes 1 (code t)) ∷ (14, le_bytes 2 0) ∷ []

  abbrev w3 : Writes
  w3 = (12, le_bytes 1 (code t)) ∷ (14, le_bytes 2 0) ∷ (16, le_bytes 2 24) ∷ []

  abbrev w4 : Writes
  w4 =
      (12, le_bytes 1 (code t)) ∷ (14, le_bytes 2 0) ∷ (16, le_bytes 2 24) ∷ (18, le_bytes 2 n) ∷ []

  size1 : 256 ≤ length (stage w1).buf
  size1 = stage_size w1 (new_writes-Fits.0, tt)

  size2 : 256 ≤ length (stage w2).buf
  size2 = stage_size w2 (new_writes-Fits.0, (new_writes-Fits.1.0, tt))

  size3 : 256 ≤ length (stage w3).buf
  size3 = stage_size w3 (new_writes-Fits.0, (new_writes-Fits.1.0, (new_writes-Fits.1.1.0, tt)))

  size4 : 256 ≤ length (stage w4).buf
  size4 = stage_size w4 (
    new_writes-Fits.0,
    (new_writes-Fits.1.0, (new_writes-Fits.1.1.0, (new_writes-Fits.1.1.1.0, tt))),
  )

  module _ (small : n < 65536) where
    created : create page_id t n ≡ ok new_page
    unfolding create new_page
    created =
        simp
          (
            valid,
            set_field_lem 1 12 (code t) (stage []) (omega (arith, length-zeros n, valid_range))
                (omega (arith, code-lt t)),
            set_field_lem 2 14 0 (stage w1) (omega (arith, size1)) (omega arith),
            set_field_lem 2 16 24 (stage w2) (omega (arith, size2)) (omega arith),
            set_field_lem 2 18 n (stage w3) (omega (arith, size3)) (omega (arith, small)),
            set_field_lem 4 20 invalid_page_id (stage w4) (omega (arith, size4)) (omega arith),
          )
          refl

    new-count : count new_page ≡ 0
    unfolding new_page le_bytes
    new-count = u16-hit w1 14 0 after_count (zeros n) (omega arith) new_writes-Fits refl

    new-start : free_start new_page ≡ 24
    unfolding new_page le_bytes
    new-start = u16-hit w2 16 24 after_start (zeros n) (omega arith) new_writes-Fits refl

    new-end : free_end new_page ≡ n
    unfolding new_page le_bytes
    new-end = u16-hit w3 18 n after_end (zeros n) small new_writes-Fits refl

    created-IsPage : IsPage new_page
    unfolding new_page le_bytes
    created-IsPage = record {
      size = length-patch new_writes (zeros n) new_writes-Fits ∙ length-zeros n;
      least = omega (arith, valid_range);
      most = small;
      start = omega (arith, new-count, new-start);
      low = omega (arith, new-start, new-end, valid_range);
      high = omega (arith, new-end);
      live = λ s h k. absurd (omega (arith, h, new-count));
      dead = λ s h k. absurd (omega (arith, h, new-count));
      distinct = λ s u h h' ne k k'. absurd (omega (arith, h, new-count));
    }

  too_large : n ≡ 65536 → create page_id t n ≡ err PageError.struct_error
  unfolding create
  too_large e =
      simp
        (
          valid,
          set_field_lem 1 12 (code t) (stage []) (omega (arith, length-zeros n, valid_range))
              (omega (arith, code-lt t)),
          set_field_lem 2 14 0 (stage w1) (omega (arith, size1)) (omega arith),
          set_field_lem 2 16 24 (stage w2) (omega (arith, size2)) (omega arith),
          set_field_too_large 2 18 n (stage w3) (omega (arith, e)),
        )
        refl

-- A new page of an allowed size is well formed and no slot of it reads as anything. The largest size that
-- is allowed, 65536, raises instead: the end of such a page does not fit into 16 bits.
pub create_lem :
    (page_id : ℕ) (t : PageType) (n : ℕ)
    → valid_page_size n ≡ true
    → ((n ≡ 65536) × (create page_id t n ≡ err PageError.struct_error))
      ⊎ ((page : Page) × (n ≢ 65536)
          × (create page_id t n ≡ ok page)
          × IsPage page
          × (page.page_size ≡ n)
          × ((s : ℕ) → content s page ≡ none))
unfolding new_page
create_lem page_id t n valid = elim (Bool-cases (n == 65536)) [
  | inl e ↦ let most : n ≡ 65536 = ground (arith, e) in inl (most, too_large page_id t n valid most)
  | inr ne ↦
      let small : n < 65536 = ground (arith, ne, valid_range page_id t n valid) in
      inr (
        new_page page_id t n valid,
        omega (arith, small),
        created page_id t n valid small,
        created-IsPage page_id t n valid small,
        refl,
        λ s.
            let out : ltb s (count (new_page page_id t n valid)) ≡ false =
              ground (arith, new-count page_id t n valid small) in
            simp out refl,
      )
]

-- `validate` accepts a page from a slot on.
validate_slots_lem :
    (left from : ℕ) (page : Page)
    → IsPage page
    → from + left ≡ count page
    → validate_slots left from page ≡ ok tt
unfolding validate_slots
validate_slots_lem zero from page p e = refl
validate_slots_lem (suc left) from page p e =
    let rest = validate_slots_lem left (suc from) page p (omega arith) in
    let inside : from < count page = omega arith in
    elim (Bool-cases (offset_at from page == 0)) [
      | inl gone ↦ simp (get_slot page p from inside, gone) rest
      | inr there ↦
          let bound = p.live from inside (ground (arith, there)) in
          let low : ltb (offset_at from page) (free_end page) ≡ false = ground (arith, bound) in
          let high : ltb page.page_size (offset_at from page + size_at from page) ≡ false =
            ground (arith, bound) in
          simp (get_slot page p from inside, there, get_free_end page p, low, high) rest
    ]

-- A well-formed page passes `validate`.
pub validate_lem : (page : Page) → IsPage page → validate page ≡ ok tt
unfolding validate validate_header
validate_lem page p =
    let agree : (free_start page == 24 + count page * 4) ≡ true = ground (arith, p.start) in
    let low : leb (24 + count page * 4) (free_end page) ≡ true = ground (arith, p.start, p.low) in
    let high : leb (free_end page) page.page_size ≡ true = ground (arith, p.high) in
    simp (get_count page p, get_free_start page p, get_free_end page p, agree, low, high)
      (validate_slots_lem (count page) 0 page p (omega arith))

-- ===== src/Storage/Page/Ordered/Delete.antt =====
-- Deleting the entry at an index: the entries after it move down by one.
use chen_db.Prelude.{
  ℕ, ◌+◌, ◌-◌, ◌*◌, ◌≤◌, ◌<◌, ◌≡◌, ◌⊎◌, refl, sym, ap, ◌∙◌, true, false, Option, some, [], ◌∷◌,
  arith, ltb, if◌then◌else◌, length, Bool-cases, inl, inr,
}
use chen_db.Prelude.Bytes.{Bytes, le_bytes, le_value, length-le_bytes}
use chen_db.Prelude.Result.{ok}
use chen_db.Prelude.Slices.{slice, length-slice, length-splice, slice-slice, slice-splice_apart}
use chen_db.Storage.Page.{Page, get_field, slot_offset, set_bytes, zeros}
use chen_db.Storage.Page.Slot.{
  Writes, patch, misses, Fits, u16, u16-hit, slice-patch_miss, slice-patch_inside, length-patch,
  get_u16, set_u16,
}
use chen_db.Storage.Page.Sound.{
  IsPage, count, free_start, free_end, offset_at, size_at, content, get_count,
}
use chen_db.Storage.Page.Ordered.{delete_at}
use chen_db.Storage.Page.Ordered.Renumber.{
  IsRenumbered, Entry, renumbered-IsPage, renumbered-content,
}
use chen_db.Storage.Page.Create.{length-zeros}

-- Where the entry of a slot was before a deletion at `index`.
abbrev pub before_delete : ℕ → ℕ → Option ℕ
before_delete index t = some (if ltb t index then t else t + 1)

module _ (page : Page) (p : IsPage page) (index : ℕ) (inside : index < count page) where
  abbrev start : ℕ
  start = slot_offset index

  abbrev rest_size : ℕ
  rest_size = slot_offset (count page) - (start + 4)

  abbrev block : Bytes
  block = slice (start + 4) rest_size page.buf

  close_writes : Writes
  close_writes =
      (start, block)
      ∷ (free_start page - 4, zeros 4)
      ∷ (14, le_bytes 2 (count page - 1))
      ∷ (16, le_bytes 2 (free_start page - 4))
      ∷ []

  block_size : length block ≡ rest_size
  block_size =
      length-slice (start + 4) rest_size page.buf
        (omega (arith, inside, p.size, p.start, p.low, p.high))

  closed : Page
  closed = record page { buf = patch close_writes page.buf }

  close-Fits : Fits (length page.buf) close_writes
  unfolding close_writes le_bytes
  close-Fits = omega (arith, inside, block_size, length-zeros 4, p.size, p.start, p.low, p.high)

  close_miss :
      (o n : ℕ) → misses o n close_writes ≡ true → slice o n closed.buf ≡ slice o n page.buf
  unfolding closed
  close_miss o n m = slice-patch_miss o n close_writes page.buf close-Fits m

  closed-count : count closed ≡ count page - 1
  unfolding closed close_writes le_bytes
  closed-count =
      u16-hit ((start, block) ∷ (free_start page - 4, zeros 4) ∷ []) 14 (count page - 1)
        ((16, le_bytes 2 (free_start page - 4)) ∷ []) page.buf
        (omega (arith, p.start, p.low, p.high, p.most)) close-Fits refl

  closed-start : free_start closed ≡ free_start page - 4
  unfolding closed close_writes le_bytes
  closed-start =
      u16-hit
        ((start, block) ∷ (free_start page - 4, zeros 4) ∷ (14, le_bytes 2 (count page - 1)) ∷ [])
        16 (free_start page - 4) [] page.buf (omega (arith, p.low, p.high, p.most)) close-Fits refl

  closed_above : (o n : ℕ) → free_end page ≤ o → slice o n closed.buf ≡ slice o n page.buf
  unfolding close_writes le_bytes
  closed_above o n h =
      close_miss o n (ground (arith, h, block_size, length-zeros 4, inside, p.start, p.low))

  closed-end : free_end closed ≡ free_end page
  unfolding close_writes le_bytes
  closed-end =
      ap le_value (close_miss 18 2 (ground (arith, block_size, length-zeros 4, inside, p.start)))

  closed_below :
      (t : ℕ)
      → t < index
      → (offset_at t closed ≡ offset_at t page) × (size_at t closed ≡ size_at t page)
  unfolding close_writes le_bytes
  closed_below t h = (
    ap le_value (
        close_miss (slot_offset t) 2 (ground (arith, block_size, length-zeros 4, inside, p.start))),
    ap le_value (
        close_miss (slot_offset t + 2) 2
          (ground (arith, block_size, length-zeros 4, inside, p.start))),
  )

  -- A field of an entry that moved, `j` bytes into the block.
  closed_field :
      (j : ℕ) → j + 2 ≤ rest_size → u16 (start + j) closed.buf ≡ u16 (start + 4 + j) page.buf
  unfolding closed close_writes le_bytes
  closed_field j h = ap le_value (
      slice-patch_inside [] start j 2 block
        ((free_start page - 4, zeros 4)
          ∷ (14, le_bytes 2 (count page - 1))
          ∷ (16, le_bytes 2 (free_start page - 4))
          ∷ [])
        page.buf (omega (arith, h, block_size)) close-Fits
        (ground (arith, h, length-zeros 4, inside, p.start))
      ∙ slice-slice j 2 (start + 4) rest_size page.buf h)

  closed_after :
      (t : ℕ)
      → index ≤ t
      → t + 1 < count page
      → (offset_at t closed ≡ offset_at (t + 1) page) × (size_at t closed ≡ size_at (t + 1) page)
  closed_after t h k =
      let j = (t - index) * 4 in
      let from : start + j ≡ slot_offset t = omega (arith, h) in
      let to : start + 4 + j ≡ slot_offset (t + 1) = omega (arith, h) in
      let from' : start + (j + 2) ≡ slot_offset t + 2 = omega (arith, h) in
      let to' : start + 4 + (j + 2) ≡ slot_offset (t + 1) + 2 = omega (arith, h) in
      (
        ap (λ z. u16 z closed.buf) (sym from)
            ∙ closed_field j (omega (arith, h, k))
            ∙ ap (λ z. u16 z page.buf) to,
        ap (λ z. u16 z closed.buf) (sym from')
            ∙ closed_field (j + 2) (omega (arith, h, k))
            ∙ ap (λ z. u16 z page.buf) to',
      )

  closed-Entry : (t : ℕ) → t < count closed → Entry page closed p [] (before_delete index) t
  closed-Entry t h = elim (Bool-cases (ltb t index)) [
    | inl below ↦
        let o = closed_below t (ground (arith, below)) in
        inr (t, (simp below refl, ground (arith, below, inside), o.0, o.1))
    | inr above ↦
        let o = closed_after t (ground (arith, above)) (omega (arith, h, closed-count)) in
        inr (t + 1, (simp above refl, omega (arith, h, closed-count), o.0, o.1))
  ]

  closed-IsRenumbered : IsRenumbered page closed p [] (before_delete index)
  unfolding closed slice
  closed-IsRenumbered = record {
    length_same = length-patch close_writes page.buf close-Fits;
    size_same = refl;
    start_is = omega (arith, closed-start, closed-count, p.start, inside);
    low_is = omega (arith, closed-start, closed-end, p.low);
    end_is = omega (arith, closed-end);
    entry = closed-Entry;
    injective = λ t u h h' ne same. ground arith;
    bytes_same = closed_above;
    payload_is = refl;
  }

  closed-content : (t : ℕ) → content t closed ≡ content (if ltb t index then t else t + 1) page
  closed-content t = elim (Bool-cases (ltb t (count closed))) [
    | inl here ↦
        renumbered-content page closed p [] (before_delete index) closed-IsRenumbered t
          (ground (arith, here))
    | inr out ↦
        let above : ltb t index ≡ false = ground (arith, out, closed-count, inside) in
        let out' : ltb (t + 1) (count page) ≡ false = ground (arith, out, closed-count) in
        simp (out, above, out') refl
  ]

  -- The same page, as the code writes it.
  closed_written : delete_at index page ≡ ok (true, closed)
  unfolding delete_at closed close_writes
  closed_written =
      let in_dir : ltb index (count page) ≡ true = ground arith in
      let pg1 = set_bytes start block page in
      let size1 : length pg1.buf ≡ length page.buf =
        length-splice start block page.buf close-Fits.0 in
      let kept : u16 16 pg1.buf ≡ free_start page =
        ap le_value (slice-splice_apart 16 2 start block page.buf (ground arith) close-Fits.0) in
      let got : get_field 2 16 pg1 ≡ ok (free_start page) =
        get_u16 16 pg1 (omega (arith, size1, p.size, p.least)) ∙ ap (λ z. ok z) kept in
      let pg2 = set_bytes (free_start page - 4) (zeros 4) pg1 in
      let size2 : length pg2.buf ≡ length pg1.buf =
        length-splice (free_start page - 4) (zeros 4) pg1.buf
          (omega (arith, size1, length-zeros 4, p.size, p.start, p.low, p.high, inside)) in
      let pg3 = set_bytes 14 (le_bytes 2 (count page - 1)) pg2 in
      let size3 : length pg3.buf ≡ length pg2.buf =
        length-splice 14 (le_bytes 2 (count page - 1)) pg2.buf
          (omega (arith, size1, size2, length-le_bytes 2 (count page - 1), p.size, p.least)) in
      simp
        (
          get_count page p,
          in_dir,
          got,
          set_u16 14 (count page - 1) pg2 (omega (arith, size1, size2, p.size, p.least))
              (omega (arith, p.start, p.low, p.high, p.most)),
          set_u16 16 (free_start page - 4) pg3 (omega (arith, size1, size2, size3, p.size, p.least))
              (omega (arith, p.low, p.high, p.most)),
        )
        refl

-- Deleting at an index moves the entries after it down by one, changes the bytes of no record and keeps
-- the page well formed; an index past the end says so and leaves the page as it was.
pub delete_at_lem :
    (page : Page) (index : ℕ)
    → IsPage page
    → ((count page ≤ index) × (delete_at index page ≡ ok (false, page)))
      ⊎ ((page' : Page) × (delete_at index page ≡ ok (true, page'))
          × IsPage page'
          × (count page' + 1 ≡ count page)
          × ((t : ℕ) → content t page' ≡ content (if ltb t index then t else t + 1) page))
delete_at_lem page index p = elim (Bool-cases (ltb index (count page))) [
  | inr past ↦ inl (ground (arith, past), unfold delete_at in simp (get_count page p, past) refl)
  | inl in_dir ↦
      let inside : index < count page = ground (arith, in_dir) in
      inr (
        closed page p index inside,
        closed_written page p index inside,
        renumbered-IsPage page _ p [] (before_delete index)
            (closed-IsRenumbered page p index inside),
        omega (arith, closed-count page p index inside, inside),
        closed-content page p index inside,
      )
]

-- ===== src/Storage/Page/Ordered.antt =====
-- engine/storage/page.py: the operations of index pages, which renumber the slots.
pub mod Renumber
pub mod Shift
pub mod Insert
pub mod Delete
use chen_db.Prelude.{
  ℕ, ◌+◌, ◌-◌, ◌*◌, ◌≡◌, Bool, true, false, Option, none, some, ltb, leb, not, if◌then◌else◌,
  length,
}
use chen_db.Prelude.Bytes.{Bytes}
use chen_db.Prelude.Result.{Result, ok, err, ◌>>=◌, ◌>>◌}
use chen_db.Prelude.Slices.{slice}
use chen_db.Storage.Page.{
  Page, PageError, get_field, set_field, write_slot, set_bytes, zeros, slot_size, slot_offset,
  page_header_size, max_payload_size, off_slot_count, off_free_start, off_free_end,
}

-- The part of `insert_at` that writes, once it is known that the payload fits.
unfoldable pub place_at : ℕ → Bytes → ℕ → ℕ → Page → Result PageError (Bool × Page)
unfolding get_field set_field write_slot
place_at index payload slot_count new_free_end page = do
  let page = set_bytes new_free_end payload page
  let start = slot_offset index
  let end = slot_offset slot_count
  page ←
      set_field 2 off_slot_count (slot_count + 1)
        (set_bytes (start + slot_size) (slice start (end - start) page.buf) page)
  free_start ← get_field 2 off_free_start page
  page ← set_field 2 off_free_start (free_start + slot_size) page
  page ← write_slot index new_free_end (length payload) page
  page ← set_field 2 off_free_end new_free_end page
  ok (true, page)

-- `insert_at`: the test `length + SLOT_SIZE > free_space` is written without the subtraction.
unfoldable pub insert_at : ℕ → Bytes → Page → Result PageError (Bool × Page)
unfolding get_field place_at
insert_at index payload page =
    if ltb (max_payload_size page) (length payload) then err PageError.record_too_large else do
      slot_count ← get_field 2 off_slot_count page
      if not (leb index slot_count) then err PageError.corrupt_page else do
        free_start ← get_field 2 off_free_start page
        free_end ← get_field 2 off_free_end page
        if ltb free_end (free_start + (length payload + slot_size))
            then ok (false, page)
            else place_at index payload slot_count (free_end - length payload) page

-- `delete_at`: its subtractions are those of a directory that has the slot.
unfoldable pub delete_at : ℕ → Page → Result PageError (Bool × Page)
unfolding get_field set_field zeros
delete_at index page = do
  slot_count ← get_field 2 off_slot_count page
  if not (ltb index slot_count) then ok (false, page) else do
    let start = slot_offset index
    let end = slot_offset slot_count
    let page = set_bytes start (slice (start + slot_size) (end - (start + slot_size)) page.buf) page
    free_start ← get_field 2 off_free_start page
    page ←
        set_field 2 off_slot_count (slot_count - 1)
          (set_bytes (free_start - slot_size) (zeros slot_size) page)
    page ← set_field 2 off_free_start (free_start - slot_size) page
    ok (true, page)

-- `clear_records`
unfoldable pub clear_records : Page → Result PageError Page
unfolding set_field zeros
clear_records page = do
  page ←
      set_field 2 off_slot_count 0
        (set_bytes page_header_size (zeros (page.page_size - page_header_size)) page)
  page ← set_field 2 off_free_start page_header_size page
  set_field 2 off_free_end page.page_size page

-- ===== src/Storage/Page/Compact.antt =====
-- engine/storage/page.py: compaction, and the space that it would give back.
pub mod Total
pub mod Slide
pub mod Move
pub mod Trim
pub mod Close
pub mod Whole
use chen_db.Prelude.{
  ℕ, zero, suc, ◌+◌, ◌-◌, ◌*◌, ◌≡◌, Bool, true, false, Option, none, some, List, [], ◌∷◌, ◌++◌, ltb,
  leb, ◌==◌, not, if◌then◌else◌, length,
}
use chen_db.Prelude.Bytes.{Bytes}
use chen_db.Prelude.Result.{Result, ok, err, ◌>>=◌, ◌>>◌}
use chen_db.Prelude.Slices.{slice}
use chen_db.Storage.Page.{
  Page, PageError, get_field, set_field, read_slot, write_slot, set_bytes, zeros, slot_size,
  page_header_size, off_slot_count, off_free_start, off_free_end,
}

-- The list of the live records, with `left` slots to look at from `slot_id`.
unfoldable pub live_from : ℕ → ℕ → Page → Result PageError (List (ℕ × Bytes))
unfolding read_slot
live_from zero slot_id page = ok []
live_from (suc left) slot_id page =
    let rest = live_from left (suc slot_id) page in
    read_slot slot_id page >>= λ entry. rest >>= λ records.
    ok (if entry.0 == 0 then records else (slot_id, slice entry.0 entry.1 page.buf) ∷ records)

-- The loop that moves the records to the end of the page, down from `cursor`. A cursor below 0 would
-- raise `struct.error` in the slot's entry.
unfoldable pub slide : List (ℕ × Bytes) → ℕ → Page → Result PageError (ℕ × Page)
unfolding write_slot
slide [] cursor page = ok (cursor, page)
slide ((slot_id, payload) ∷ rest) cursor page =
    if ltb cursor (length payload)
    then err PageError.struct_error
    else (write_slot slot_id (cursor - length payload) (length payload)
          (set_bytes (cursor - length payload) payload page)
        >>= slide rest (cursor - length payload))

-- The loop of `_trim_trailing_dead_slots`: the slots up to the last live one.
unfoldable pub trimmed_count : ℕ → Page → Result PageError ℕ
unfolding read_slot
trimmed_count zero page = ok 0
trimmed_count (suc n) page =
    let rest = trimmed_count n page in
    read_slot n page >>= λ entry. if entry.0 == 0 then rest else ok (suc n)

-- `_trim_trailing_dead_slots`
unfoldable pub trim_trailing_dead_slots : Page → Result PageError Page
unfolding trimmed_count get_field set_field zeros
trim_trailing_dead_slots page = do
  slot_count ← get_field 2 off_slot_count page
  new_count ← trimmed_count slot_count page
  if new_count == slot_count then ok page else do
    let new_free_start = page_header_size + new_count * slot_size
    free_start ← get_field 2 off_free_start page
    page ←
        set_field 2 off_slot_count new_count
          (set_bytes new_free_start (zeros (free_start - new_free_start)) page)
    set_field 2 off_free_start new_free_start page

-- `compact`: the number of bytes that were added to the free region. Its subtractions are those of
-- a page whose pointers are in order.
unfoldable pub compact : Page → Result PageError (ℕ × Page)
unfolding live_from slide trim_trailing_dead_slots get_field set_field zeros
compact page = do
  free_start ← get_field 2 off_free_start page
  free_end ← get_field 2 off_free_end page
  slot_count ← get_field 2 off_slot_count page
  live ← live_from slot_count 0 page
  (cursor, page) ←
      slide live page.page_size (set_bytes free_end (zeros (page.page_size - free_end)) page)
  page ← set_field 2 off_free_end cursor page
  page ← trim_trailing_dead_slots page
  new_start ← get_field 2 off_free_start page
  new_end ← get_field 2 off_free_end page
  ok ((new_end - new_start) - (free_end - free_start), page)

-- The loop of `reclaimable_space`, from the last slot: the live bytes, and the dead slots at the end.
unfoldable pub reclaimable_from : ℕ → ℕ → ℕ → Bool → Page → Result PageError (ℕ × ℕ)
unfolding read_slot
reclaimable_from zero live_bytes trailing_dead counting_trailing page =
    ok (live_bytes, trailing_dead)
reclaimable_from (suc slot_id) live_bytes trailing_dead counting_trailing page =
    read_slot slot_id page >>= λ entry.
    reclaimable_from slot_id (if entry.0 == 0 then live_bytes else live_bytes + entry.1)
      (if entry.0 == 0
        then (if counting_trailing then trailing_dead + 1 else trailing_dead)
        else trailing_dead)
      (if entry.0 == 0 then counting_trailing else false) page

-- `reclaimable_space`
unfoldable pub reclaimable_space : Page → Result PageError ℕ
unfolding reclaimable_from get_field
reclaimable_space page = do
  slot_count ← get_field 2 off_slot_count page
  (live_bytes, trailing_dead) ← reclaimable_from slot_count 0 0 true page
  free_end ← get_field 2 off_free_end page
  ok ((page.page_size - free_end - live_bytes) + trailing_dead * slot_size)

-- ===== src/Storage/Page.antt =====
-- engine/storage/page.py: the slotted page. A page is its bytes; each field is read and written in them
-- by `struct`, which raises `struct.error` past the end and for a number too large for its field. An
-- operation that raises has no page in its result. `zlib.crc32` is a parameter.
pub mod Slot
pub mod Sound
pub mod Placed
pub mod Writes
pub mod Insert
pub mod Delete
pub mod Overwrite
pub mod Create
pub mod Compact
pub mod Image
pub mod Stored
pub mod Ordered
use chen_db.Prelude.{
  ℕ, zero, suc, ◌+◌, ◌-◌, ◌*◌, ◌≡◌, Bool, true, false, Option, none, some, List, [], ◌∷◌, ◌++◌, ltb,
  leb, ◌==◌, not, ◌&&◌, ◌||◌, if◌then◌else◌, length,
}
use chen_db.Prelude.Bytes.{Bytes}
use chen_db.Prelude.Result.{Result, ok, err, ◌>>=◌, ◌>>◌}
use chen_db.Prelude.Slices.{slice, splice, unpack_from, pack_into}

-- `CorruptPageError`, `ChecksumMismatchError`, `RecordTooLargeError`, `ValueError` and `struct.error`.
pub data PageError : Type 0 where
  corrupt_page checksum_mismatch record_too_large value_error struct_error : PageError

pub data PageType : Type 0 where
  unallocated meta heap schema btree_internal btree_leaf overflow : PageType

unfoldable pub code : PageType → ℕ
code unallocated = 0
code meta = 1
code heap = 2
code schema = 3
code btree_internal = 4
code btree_leaf = 5
code overflow = 6

pub record Page : Type 0 where
  pub page_id : ℕ
  pub buf : Bytes
  pub page_size : ℕ

abbrev pub page_header_size : ℕ
page_header_size = 24

abbrev pub slot_size : ℕ
slot_size = 4

abbrev pub invalid_page_id : ℕ
invalid_page_id = 4294967295

abbrev pub min_page_size : ℕ
min_page_size = 256

abbrev pub max_page_size : ℕ
max_page_size = 65536

abbrev pub off_checksum : ℕ
off_checksum = 0

abbrev pub off_lsn : ℕ
off_lsn = 4

abbrev pub off_page_type : ℕ
off_page_type = 12

abbrev pub off_slot_count : ℕ
off_slot_count = 14

abbrev pub off_free_start : ℕ
off_free_start = 16

abbrev pub off_free_end : ℕ
off_free_end = 18

abbrev pub off_next_page : ℕ
off_next_page = 20

-- `bytes(n)`
unfoldable pub zeros : ℕ → Bytes
zeros zero = []
zeros (suc n) = 0 ∷ zeros n

-- What `struct` raises is an error of the page's operations.
abbrev pub or_raise {ℓ} : {A : Type ℓ} → Option A → Result PageError A
or_raise none = err struct_error
or_raise (some a) = ok a

-- `_get_u8`, `_get_u16`, `_get_u32`, by the number of bytes.
unfoldable pub get_field : ℕ → ℕ → Page → Result PageError ℕ
get_field n offset page = or_raise (unpack_from n offset page.buf)

-- `_set_u8`, `_set_u16`, `_set_u32`
unfoldable pub set_field : ℕ → ℕ → ℕ → Page → Result PageError Page
set_field n offset value page =
    or_raise (pack_into n offset value page.buf) >>= λ buf. ok (record page { buf = buf })

-- `self._buf[offset : offset + len(payload)] = payload`
abbrev pub set_bytes : ℕ → Bytes → Page → Page
set_bytes offset payload page = record page { buf = splice offset payload page.buf }

abbrev pub slot_offset : ℕ → ℕ
slot_offset slot_id = page_header_size + slot_id * slot_size

-- `_read_slot`
unfoldable pub read_slot : ℕ → Page → Result PageError (ℕ × ℕ)
unfolding get_field
read_slot slot_id page = do
  offset ← get_field 2 (slot_offset slot_id) page
  size ← get_field 2 (slot_offset slot_id + 2) page
  ok (offset, size)

-- `_write_slot`
unfoldable pub write_slot : ℕ → ℕ → ℕ → Page → Result PageError Page
unfolding set_field
write_slot slot_id offset size page = do
  page ← set_field 2 (slot_offset slot_id) offset page
  set_field 2 (slot_offset slot_id + 2) size page

-- `_find_dead_slot`, with `left` slots to look at from `slot_id`.
unfoldable pub find_dead_from : ℕ → ℕ → Page → Result PageError (Option ℕ)
unfolding read_slot
find_dead_from zero slot_id page = ok none
find_dead_from (suc left) slot_id page =
    let rest = find_dead_from left (suc slot_id) page in
    read_slot slot_id page >>= λ entry. if entry.0 == 0 then ok (some slot_id) else rest

unfoldable pub find_dead_slot : Page → Result PageError (Option ℕ)
unfolding find_dead_from get_field
find_dead_slot page = do
  slot_count ← get_field 2 off_slot_count page
  find_dead_from slot_count 0 page

-- `max_payload_size`, of a page that has room for a header and a slot.
abbrev pub max_payload_size : Page → ℕ
max_payload_size page = page.page_size - page_header_size - slot_size

-- The slot of an insertion: a dead one that is used again, or a new one.
unfoldable pub take_slot : Option ℕ → Page → Result PageError (ℕ × Page)
unfolding get_field set_field
take_slot (some slot_id) page = ok (slot_id, page)
take_slot none page = do
  slot_id ← get_field 2 off_slot_count page
  page ← set_field 2 off_slot_count (slot_id + 1) page
  free_start ← get_field 2 off_free_start page
  page ← set_field 2 off_free_start (free_start + slot_size) page
  ok (slot_id, page)

-- The part of `insert` that writes, once it is known that the payload fits.
unfoldable pub place : Bytes → Option ℕ → ℕ → Page → Result PageError (Option ℕ × Page)
unfolding take_slot write_slot set_field
place payload dead new_free_end page = do
  (slot_id, page) ← take_slot dead (set_bytes new_free_end payload page)
  page ← write_slot slot_id new_free_end (length payload) page
  page ← set_field 2 off_free_end new_free_end page
  ok (some slot_id, page)

abbrev pub space_needed : Option ℕ → ℕ → ℕ
space_needed none size = size + slot_size
space_needed (some slot_id) size = size

-- `insert`: the test `needed > free_space` is written without the subtraction.
unfoldable pub insert : Bytes → Page → Result PageError (Option ℕ × Page)
unfolding find_dead_slot place get_field
insert payload page =
    if ltb (max_payload_size page) (length payload) then err record_too_large else do
      dead ← find_dead_slot page
      free_start ← get_field 2 off_free_start page
      free_end ← get_field 2 off_free_end page
      if ltb free_end (free_start + space_needed dead (length payload))
          then ok (none, page)
          else place payload dead (free_end - length payload) page

-- `read`
unfoldable pub read : ℕ → Page → Result PageError (Option Bytes)
unfolding read_slot get_field
read slot_id page = do
  slot_count ← get_field 2 off_slot_count page
  if not (ltb slot_id slot_count) then ok none else do
    (offset, size) ← read_slot slot_id page
    if offset == 0 then ok none else ok (some (slice offset size page.buf))

-- `delete`
unfoldable pub delete : ℕ → Page → Result PageError (Bool × Page)
unfolding read_slot write_slot get_field
delete slot_id page = do
  slot_count ← get_field 2 off_slot_count page
  if not (ltb slot_id slot_count) then ok (false, page) else do
    (offset, size) ← read_slot slot_id page
    if offset == 0
        then ok (false, page)
        else (write_slot slot_id 0 0 page >>= λ page'. ok (true, page'))

-- `overwrite`
unfoldable pub overwrite : ℕ → Bytes → Page → Result PageError (Bool × Page)
unfolding read_slot get_field
overwrite slot_id payload page = do
  slot_count ← get_field 2 off_slot_count page
  if not (ltb slot_id slot_count) then ok (false, page) else do
    (offset, size) ← read_slot slot_id page
    if size == 0
        then ok (false, page)
        else if not (length payload == size)
        then err value_error
        else ok (true, set_bytes offset payload page)

-- `validate_header`
unfoldable pub validate_header : Page → Result PageError (Unit {0})
unfolding get_field
validate_header page = do
  slot_count ← get_field 2 off_slot_count page
  free_start ← get_field 2 off_free_start page
  free_end ← get_field 2 off_free_end page
  let expected = page_header_size + slot_count * slot_size
  if not (free_start == expected)
      then err corrupt_page
      else if leb expected free_end && leb free_end page.page_size
      then ok tt
      else err corrupt_page

-- The loop of `validate`, with `left` slots to look at from `slot_id`.
unfoldable pub validate_slots : ℕ → ℕ → Page → Result PageError (Unit {0})
unfolding read_slot get_field
validate_slots zero slot_id page = ok tt
validate_slots (suc left) slot_id page =
    let rest = validate_slots left (suc slot_id) page in
    read_slot slot_id page >>= λ entry.
    if entry.0 == 0
    then rest
    else (get_field 2 off_free_end page >>= λ free_end.
        if ltb entry.0 free_end || ltb page.page_size (entry.0 + entry.1)
        then err corrupt_page
        else rest)

-- `validate`
unfoldable pub validate : Page → Result PageError (Unit {0})
unfolding validate_header validate_slots get_field
validate page = do
  validate_header page
  slot_count ← get_field 2 off_slot_count page
  validate_slots slot_count 0 page

-- `page_size & (page_size - 1)` is zero for the powers of two alone, of which these are in range.
unfoldable pub valid_page_size : ℕ → Bool
valid_page_size n =
    n == 256
    || n == 512
    || n == 1024
    || n == 2048
    || n == 4096
    || n == 8192
    || n == 16384
    || n == 32768
    || n == 65536

-- `create`
unfoldable pub create : ℕ → PageType → ℕ → Result PageError Page
unfolding set_field code zeros valid_page_size
create page_id page_type page_size = if not (valid_page_size page_size) then err value_error else do
  page ←
      set_field 1 off_page_type (code page_type)
        (record { page_id = page_id; buf = zeros page_size; page_size = page_size })
  page ← set_field 2 off_slot_count 0 page
  page ← set_field 2 off_free_start page_header_size page
  page ← set_field 2 off_free_end page_size page
  set_field 4 off_next_page invalid_page_id page

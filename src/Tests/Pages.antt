-- ===== src/Tests/Pages.antt =====
-- Small runs of the slotted page and of the buffer pool, and the theorems about them at concrete inputs.
use chen_db.Prelude.{
  ℕ, ◌+◌, ◌-◌, ◌*◌, ◌^◌, ◌%◌, ◌≤◌, ◌<◌, ◌≡◌, ◌≢◌, ◌⊎◌, refl, sym, subst, ◌∙◌, Bool, true, false,
  none, some, [], ◌∷◌, arith, ltb, ◌==◌, if◌then◌else◌, length, drop,
}
use chen_db.Prelude.Bytes.{Bytes, le_value, le_bytes}
use chen_db.Prelude.Result.{Result, ok, err}
use chen_db.Prelude.Slices.{slice, splice, unpack_from, pack_into}
use chen_db.Storage.Page.{
  Page, PageType, PageError, create, valid_page_size, insert, delete, overwrite, read, validate,
  max_payload_size,
}
use chen_db.Storage.Page.Sound.{IsPage, count, free_start, free_end, offset_at, content}
use chen_db.Storage.Page.Insert.{Outcome, insert_lem}
use chen_db.Storage.Page.Delete.{delete_lem}
use chen_db.Storage.Page.Overwrite.{overwrite_lem}
use chen_db.Storage.Page.Create.{create_lem, validate_lem}
use chen_db.Storage.Page.Ordered.{insert_at, delete_at}
use chen_db.Storage.Page.Ordered.Insert.{insert_at_lem}
use chen_db.Storage.Page.Ordered.Delete.{delete_at_lem}
use chen_db.Storage.Page.Compact.{compact, reclaimable_space}
use chen_db.Storage.Page.Compact.Whole.{compact_lem}
use chen_db.Storage.Page.Image.{to_bytes, from_bytes, stamp_lsn, read_lsn, verify_checksum}
use chen_db.Storage.Page.Stored.{from_bytes-to_bytes, stamp_lsn_lem}

-- A page of 40 bytes with one record, of two bytes, in slot 0.
abbrev small_page : Page
small_page = record {
  page_id = 3;
  buf =
      0 ∷ 0 ∷ 0 ∷ 0 ∷ 0 ∷ 0 ∷ 0 ∷ 0 ∷ 0 ∷ 0 ∷ 0 ∷ 0 ∷ 2 ∷ 0 ∷ 1 ∷ 0 ∷ 28 ∷ 0 ∷ 38 ∷ 0 ∷ 255 ∷ 255
      ∷ 255 ∷ 255 ∷ 38 ∷ 0 ∷ 2 ∷ 0 ∷ 0 ∷ 0 ∷ 0 ∷ 0 ∷ 0 ∷ 0 ∷ 0 ∷ 0 ∷ 0 ∷ 0 ∷ 7 ∷ 9 ∷ [];
  page_size = 40;
}

only_slot : (s : ℕ) → s < count small_page → 0 ≡ s
unfolding slice le_value
only_slot s h = omega arith

small_page-IsPage : IsPage small_page
unfolding slice le_value
small_page-IsPage = record {
  size = refl;
  least = omega arith;
  most = omega arith;
  start = refl;
  low = omega arith;
  high = omega arith;
  live = λ s h k.
      subst
        (λ z.
          (38 ≤ offset_at z small_page)
          × (offset_at z small_page + le_value (slice (24 + z * 4 + 2) 2 small_page.buf) ≤ 40))
        (only_slot s h) (omega arith, omega arith);
  dead = λ s h.
      subst
        (λ z. offset_at z small_page ≡ 0 → le_value (slice (24 + z * 4 + 2) 2 small_page.buf) ≡ 0)
        (only_slot s h) (λ k. absurd (omega arith));
  distinct = λ s t h h' ne k k'. absurd (ne (sym (only_slot s h) ∙ only_slot t h'));
}

read_small : read 0 small_page ≡ ok (some (7 ∷ 9 ∷ []))
unfolding read slice le_value unpack_from
read_small = refl

abbrev after_run : Result PageError (Bool × Page) → Page
after_run (ok (done, page)) = page
after_run (err e) = small_page

-- The new record goes below the old one, into a new slot.
insert_small :
    (insert (5 ∷ []) small_page)
    ≡ ok (
      some 1,
      record small_page {
        buf =
            0 ∷ 0 ∷ 0 ∷ 0 ∷ 0 ∷ 0 ∷ 0 ∷ 0 ∷ 0 ∷ 0 ∷ 0 ∷ 0 ∷ 2 ∷ 0 ∷ 2 ∷ 0 ∷ 32 ∷ 0 ∷ 37 ∷ 0 ∷ 255
            ∷ 255 ∷ 255 ∷ 255 ∷ 38 ∷ 0 ∷ 2 ∷ 0 ∷ 37 ∷ 0 ∷ 1 ∷ 0 ∷ 0 ∷ 0 ∷ 0 ∷ 0 ∷ 0 ∷ 5 ∷ 7 ∷ 9
            ∷ [];
      },
    )
unfolding insert slice splice le_value le_bytes unpack_from pack_into
insert_small = refl

insert_lem_example :
    ((max_payload_size small_page < 1)
      × (insert (5 ∷ []) small_page ≡ err PageError.record_too_large))
    ⊎ ((1 ≤ max_payload_size small_page)
        × Outcome small_page small_page-IsPage (5 ∷ []) (insert (5 ∷ []) small_page))
insert_lem_example = insert_lem small_page small_page-IsPage (5 ∷ [])

delete_lem_example :
    ((content 0 small_page ≡ none) × (delete 0 small_page ≡ ok (false, small_page)))
    ⊎ ((old : Bytes) × (page' : Page) × (content 0 small_page ≡ some old)
        × (delete 0 small_page ≡ ok (true, page'))
        × IsPage page'
        × ((t : ℕ) → content t page' ≡ (if t == 0 then none else content t small_page)))
delete_lem_example = delete_lem small_page 0 small_page-IsPage

overwrite_lem_example :
    (((content 0 small_page ≡ none) ⊎ (content 0 small_page ≡ some []))
      × (overwrite 0 (1 ∷ 2 ∷ []) small_page ≡ ok (false, small_page)))
    ⊎ ((old : Bytes) × (content 0 small_page ≡ some old)
        × (0 < length old)
        × (((2 ≢ length old) × (overwrite 0 (1 ∷ 2 ∷ []) small_page ≡ err PageError.value_error))
            ⊎ ((page' : Page) × (2 ≡ length old)
                × (overwrite 0 (1 ∷ 2 ∷ []) small_page ≡ ok (true, page'))
                × IsPage page'
                × ((t : ℕ)
                    → content t page'
                      ≡ (if t == 0 then some (1 ∷ 2 ∷ []) else content t small_page)))))
overwrite_lem_example = overwrite_lem small_page 0 (1 ∷ 2 ∷ []) small_page-IsPage

create_lem_example :
    (◌≡◌ {A = ℕ} 256 65536 × (create 3 PageType.heap 256 ≡ err PageError.struct_error))
    ⊎ ((page : Page) × ◌≢◌ {A = ℕ} 256 65536
        × (create 3 PageType.heap 256 ≡ ok page)
        × IsPage page
        × (page.page_size ≡ 256)
        × ((s : ℕ) → content s page ≡ none))
unfolding valid_page_size
create_lem_example = create_lem 3 PageType.heap 256 refl

validate_lem_example : validate small_page ≡ ok tt
validate_lem_example = validate_lem small_page small_page-IsPage

-- A checksum that adds the bytes up, in place of CRC32.
total : Bytes → ℕ
total [] = 0
total (b ∷ bs) = b + total bs

check_word : Bytes → ℕ
check_word bs = total bs % 256

check_word-lt : (bs : Bytes) → check_word bs < 256 ^ 4
unfolding check_word
check_word-lt bs = omega arith

from_bytes-to_bytes_example :
    (page' : Page) × (to_bytes check_word small_page ≡ ok (page'.buf, page'))
    × (from_bytes check_word 3 page'.buf 40 true true ≡ ok page')
    × (page'.page_id ≡ 3)
    × (page'.page_size ≡ 40)
    × (drop 4 page'.buf ≡ drop 4 small_page.buf)
    × IsPage page'
    × ((t : ℕ) → content t page' ≡ content t small_page)
from_bytes-to_bytes_example =
    from_bytes-to_bytes check_word check_word-lt small_page small_page-IsPage

stamp_lsn_lem_example :
    (out : Bytes) × (stamp_lsn check_word small_page.buf 77 ≡ ok out)
    × (read_lsn out ≡ ok 77)
    × (length out ≡ 40)
    × ((page_id page_size : ℕ)
        → verify_checksum check_word
            (record { page_id = page_id; buf = out; page_size = page_size })
          ≡ ok tt)
    × ((o n : ℕ) → slice (12 + o) n out ≡ slice (12 + o) n small_page.buf)
stamp_lsn_lem_example =
    stamp_lsn_lem check_word check_word-lt small_page.buf 77 (omega arith) (omega arith)

-- Two entries of an index page, of which the first is put before the other.
insert_at_small : read 0 (after_run (insert_at 0 (5 ∷ 6 ∷ []) small_page)) ≡ ok (some (5 ∷ 6 ∷ []))
unfolding read unpack_from insert_at le_value slice pack_into splice le_bytes
insert_at_small = refl

insert_at_lem_example :
    ((max_payload_size small_page < 1)
      × (insert_at 0 (5 ∷ []) small_page ≡ err PageError.record_too_large))
    ⊎ (((count small_page < 0) × (insert_at 0 (5 ∷ []) small_page ≡ err PageError.corrupt_page))
        ⊎ (((free_end small_page < free_start small_page + (1 + 4))
              × (insert_at 0 (5 ∷ []) small_page ≡ ok (false, small_page)))
            ⊎ ((page' : Page) × (insert_at 0 (5 ∷ []) small_page ≡ ok (true, page'))
                × IsPage page'
                × (count page' ≡ count small_page + 1)
                × ((t : ℕ)
                    → content t page' ≡ (
                        if t == 0
                        then some (5 ∷ [])
                        else content (if ltb t 0 then t else t - 1) small_page)))))
insert_at_lem_example = insert_at_lem small_page 0 (5 ∷ []) small_page-IsPage

delete_at_lem_example :
    ((count small_page ≤ 0) × (delete_at 0 small_page ≡ ok (false, small_page)))
    ⊎ ((page' : Page) × (delete_at 0 small_page ≡ ok (true, page'))
        × IsPage page'
        × (count page' + 1 ≡ count small_page)
        × ((t : ℕ) → content t page' ≡ content (if ltb t 0 then t else t + 1) small_page))
delete_at_lem_example = delete_at_lem small_page 0 small_page-IsPage

compact_lem_example :
    (r : ℕ) × (page' : Page) × (compact small_page ≡ ok (r, page'))
    × (reclaimable_space small_page ≡ ok r)
    × IsPage page'
    × (page'.page_size ≡ 40)
    × (free_end page' - free_start page' ≡ (free_end small_page - free_start small_page) + r)
    × ((t : ℕ) → content t page' ≡ content t small_page)
compact_lem_example = compact_lem small_page small_page-IsPage

-- A page whose slot 0 is dead and whose slots 1 and 2 are live and dead: compaction gives 7 bytes back.
abbrev with_dead : Page
with_dead = record small_page {
  buf =
      0 ∷ 0 ∷ 0 ∷ 0 ∷ 0 ∷ 0 ∷ 0 ∷ 0 ∷ 0 ∷ 0 ∷ 0 ∷ 0 ∷ 2 ∷ 0 ∷ 3 ∷ 0 ∷ 36 ∷ 0 ∷ 36 ∷ 0 ∷ 255 ∷ 255
      ∷ 255 ∷ 255 ∷ 0 ∷ 0 ∷ 0 ∷ 0 ∷ 36 ∷ 0 ∷ 1 ∷ 0 ∷ 0 ∷ 0 ∷ 0 ∷ 0 ∷ 8 ∷ 0 ∷ 7 ∷ 9 ∷ [];
}

compact_dead :
    compact with_dead
    ≡ ok (
      7,
      record with_dead {
        buf =
            0 ∷ 0 ∷ 0 ∷ 0 ∷ 0 ∷ 0 ∷ 0 ∷ 0 ∷ 0 ∷ 0 ∷ 0 ∷ 0 ∷ 2 ∷ 0 ∷ 2 ∷ 0 ∷ 32 ∷ 0 ∷ 39 ∷ 0 ∷ 255
            ∷ 255 ∷ 255 ∷ 255 ∷ 0 ∷ 0 ∷ 0 ∷ 0 ∷ 39 ∷ 0 ∷ 1 ∷ 0 ∷ 0 ∷ 0 ∷ 0 ∷ 0 ∷ 0 ∷ 0 ∷ 0 ∷ 8 ∷ [];
      },
    )
unfolding compact unpack_from le_value slice pack_into splice le_bytes
compact_dead = refl

-- ===== src/Storage/Page/Ordered/Insert.antt =====
-- Inserting an entry at an index: the entries from there on move up by one.
use chen_db.Prelude.{
  ℕ, ◌+◌, ◌-◌, ◌≤◌, ◌<◌, ◌≡◌, ◌⊎◌, refl, ap, ◌∙◌, true, false, some, [], ◌∷◌, arith, ltb, leb, ◌==◌,
  if◌then◌else◌, length, Bool-cases, inl, inr,
}
use chen_db.Prelude.Bytes.{Bytes, le_bytes, le_value, length-le_bytes}
use chen_db.Prelude.Result.{ok, err}
use chen_db.Prelude.Slices.{slice, length-splice, slice-splice_apart}
use chen_db.Storage.Page.{Page, PageError, get_field, slot_offset, set_bytes, max_payload_size}
use chen_db.Storage.Page.Slot.{Writes, patch, u16, length-patch, get_u16, set_u16, write_slot_lem}
use chen_db.Storage.Page.Sound.{
  IsPage, count, free_start, free_end, content, get_count, get_free_start, get_free_end,
}
use chen_db.Storage.Page.Ordered.{place_at, insert_at}
use chen_db.Storage.Page.Ordered.Renumber.{renumbered-IsPage}
use chen_db.Storage.Page.Ordered.Shift.{
  before_insert, new_end, start, block, block_size, shift_writes, shifted, shifted-count,
  shifted-content, shifted-IsRenumbered,
}

module _ (page : Page) (p : IsPage page) (index : ℕ) (payload : Bytes) (inside : index ≤ count page)
    (room : free_start page + (length payload + 4) ≤ free_end page) where
  -- The same page, as the code writes it.
  shifted_written :
      place_at index payload (count page) (new_end page p index payload inside room) page
      ≡ ok (true, (shifted page p index payload inside room))
  unfolding place_at shifted shift_writes
  shifted_written =
      let pg1 = set_bytes (new_end page p index payload inside room) payload page in
      let size1 : length pg1.buf ≡ length page.buf =
        length-splice (new_end page p index payload inside room) payload page.buf
          (omega (arith, room, p.size, p.high)) in
      let moved : slice (start page p index payload inside room)
            (slot_offset (count page) - (start page p index payload inside room)) pg1.buf
          ≡ (block page p index payload inside room) =
        slice-splice_apart (start page p index payload inside room)
          (slot_offset (count page) - (start page p index payload inside room))
          (new_end page p index payload inside room) payload page.buf
          (ground (arith, inside, room, p.start)) (omega (arith, room, p.size, p.high)) in
      let pg2 =
        set_bytes ((start page p index payload inside room) + 4)
          (block page p index payload inside room) pg1 in
      let size2 : length pg2.buf ≡ length pg1.buf =
        length-splice ((start page p index payload inside room) + 4)
          (block page p index payload inside room) pg1.buf
          (omega (
            arith,
            size1,
            block_size page p index payload inside room,
            inside,
            room,
            p.size,
            p.start,
            p.high,
          )) in
      let pg3 = set_bytes 14 (le_bytes 2 (count page + 1)) pg2 in
      let size3 : length pg3.buf ≡ length pg2.buf =
        length-splice 14 (le_bytes 2 (count page + 1)) pg2.buf
          (omega (arith, size1, size2, length-le_bytes 2 (count page + 1), p.size, p.least)) in
      let kept : u16 16 pg3.buf ≡ free_start page = ap le_value (
        slice-splice_apart 16 2 14 (le_bytes 2 (count page + 1)) pg2.buf
          (ground (arith, length-le_bytes 2 (count page + 1)))
          (omega (arith, size1, size2, length-le_bytes 2 (count page + 1), p.size, p.least))
        ∙ slice-splice_apart 16 2 ((start page p index payload inside room) + 4)
            (block page p index payload inside room) pg1.buf (ground arith)
            (omega (
              arith,
              size1,
              block_size page p index payload inside room,
              inside,
              room,
              p.size,
              p.start,
              p.high,
            ))
        ∙ slice-splice_apart 16 2 (new_end page p index payload inside room) payload page.buf
            (ground (arith, room, p.start)) (omega (arith, room, p.size, p.high))) in
      let got : get_field 2 16 pg3 ≡ ok (free_start page) =
        get_u16 16 pg3 (omega (arith, size1, size2, size3, p.size, p.least))
        ∙ ap (λ z. ok z) kept in
      let pg4 = set_bytes 16 (le_bytes 2 (free_start page + 4)) pg3 in
      let size4 : length pg4.buf ≡ length pg3.buf =
        length-splice 16 (le_bytes 2 (free_start page + 4)) pg3.buf (
          omega (
            arith,
            size1,
            size2,
            size3,
            length-le_bytes 2 (free_start page + 4),
            p.size,
            p.least,
          )) in
      let vs : Writes =
        (
          (start page p index payload inside room),
          le_bytes 2 (new_end page p index payload inside room),
        )
        ∷ ((start page p index payload inside room) + 2, le_bytes 2 (length payload))
        ∷ [] in
      let pg5 = record page { buf = patch vs pg4.buf } in
      let size5 : length pg5.buf ≡ length pg4.buf = length-patch vs pg4.buf (
        omega (
          arith,
          size1,
          size2,
          size3,
          size4,
          inside,
          room,
          length-le_bytes 2 (new_end page p index payload inside room),
          length-le_bytes 2 (length payload),
          p.size,
          p.start,
          p.high,
        )) in
      simp
        (
          moved,
          set_u16 14 (count page + 1) pg2 (omega (arith, size1, size2, p.size, p.least))
              (omega (arith, p.start, p.low, p.high, p.most)),
          got,
          set_u16 16 (free_start page + 4) pg3 (omega (arith, size1, size2, size3, p.size, p.least))
              (omega (arith, room, p.high, p.most)),
          write_slot_lem index (new_end page p index payload inside room) (length payload) pg4
              (omega (arith, size1, size2, size3, size4, inside, room, p.size, p.start, p.high))
              (omega (arith, p.high, p.most)) (omega (arith, room, p.high, p.most)),
          set_u16 18 (new_end page p index payload inside room) pg5
              (omega (arith, size1, size2, size3, size4, size5, p.size, p.least))
              (omega (arith, p.high, p.most)),
        )
        refl

-- Inserting at an index refuses a payload that no page of the size could hold and an index past the end;
-- otherwise it leaves the page alone for want of room, or puts the payload at the index, moves the entries
-- from there on up by one, and keeps the page well formed.
pub insert_at_lem :
    (page : Page) (index : ℕ) (payload : Bytes)
    → IsPage page
    → ((max_payload_size page < length payload)
        × (insert_at index payload page ≡ err PageError.record_too_large))
      ⊎ (((count page < index) × (insert_at index payload page ≡ err PageError.corrupt_page))
          ⊎ (((free_end page < free_start page + (length payload + 4))
                × (insert_at index payload page ≡ ok (false, page)))
              ⊎ ((page' : Page) × (insert_at index payload page ≡ ok (true, page'))
                  × IsPage page'
                  × (count page' ≡ count page + 1)
                  × ((t : ℕ)
                      → content t page' ≡ (
                          if t == index
                          then some payload
                          else content (if ltb t index then t else t - 1) page)))))
unfolding insert_at
insert_at_lem page index payload p =
    elim (Bool-cases (ltb (max_payload_size page) (length payload))) [
      | inl long ↦ inl (ground (arith, long), simp long refl)
      | inr short ↦ elim (Bool-cases (leb index (count page))) [
        | inr past ↦ inr (inl (ground (arith, past), simp (short, get_count page p, past) refl))
        | inl inside ↦
            elim (Bool-cases (ltb (free_end page) (free_start page + (length payload + 4)))) [
              | inl full ↦ inr (
                  inr (
                    inl (
                      ground (arith, full),
                      simp
                          (
                            short,
                            get_count page p,
                            inside,
                            get_free_start page p,
                            get_free_end page p,
                            full,
                          )
                          refl,
                    )))
              | inr fits ↦
                  let i : index ≤ count page = ground (arith, inside) in
                  let room : free_start page + (length payload + 4) ≤ free_end page =
                    ground (arith, fits) in
                  inr (
                    inr (
                      inr (
                        shifted page p index payload i room,
                        simp
                            (
                              short,
                              get_count page p,
                              inside,
                              get_free_start page p,
                              get_free_end page p,
                              fits,
                            )
                            (shifted_written page p index payload i room),
                        renumbered-IsPage page _ p payload (before_insert index)
                            (shifted-IsRenumbered page p index payload i room),
                        shifted-count page p index payload i room,
                        shifted-content page p index payload i room,
                      )))
            ]
      ]
    ]

-- ===== src/Storage/Page/Stored.antt =====
-- A page that is written is read back, and its checksum holds.
use chen_db.Prelude.{
  ℕ, ◌+◌, ◌*◌, ◌^◌, ◌≤◌, ◌<◌, ◌≡◌, refl, sym, ap, ◌∙◌, true, false, arith, ltb, leb, ◌==◌, length,
  drop,
}
use chen_db.Prelude.Bytes.{Bytes, le_bytes, le_value, length-le_bytes, le_value-le_bytes}
use chen_db.Prelude.Result.{ok}
use chen_db.Prelude.Slices.{
  slice, splice, drop_after, length-splice, slice-splice_same, slice-splice_apart, unpack_from,
  pack_into,
}
use chen_db.Storage.Page.{Page, get_field, validate_header, set_bytes}
use chen_db.Storage.Page.Slot.{get_field_lem, set_field_lem}
use chen_db.Storage.Page.Sound.{
  IsPage, count, free_start, free_end, content, get_count, get_free_start, get_free_end,
  relabelled-IsPage, relabelled-content,
}
use chen_db.Storage.Page.Image.{
  compute_checksum, verify_checksum, to_bytes, from_bytes, stamp_lsn, read_lsn,
}

header_valid : (page : Page) → IsPage page → validate_header page ≡ ok tt
unfolding validate_header
header_valid page p =
    let agree : (free_start page == 24 + count page * 4) ≡ true = ground (arith, p.start) in
    let low : leb (24 + count page * 4) (free_end page) ≡ true = ground (arith, p.start, p.low) in
    let high : leb (free_end page) page.page_size ≡ true = ground (arith, p.high) in
    simp (get_count page p, get_free_start page p, get_free_end page p, agree, low, high) refl

module _ (crc32 : Bytes → ℕ) (word : (bs : Bytes) → crc32 bs < 256 ^ 4) where
  -- The checksum is brought into line with the rest.
  reseal : Bytes → Bytes
  reseal buf = splice 0 (le_bytes 4 (crc32 (drop 4 buf))) buf

  reseal-drop : (buf : Bytes) → drop 4 (reseal buf) ≡ drop 4 buf
  unfolding reseal splice
  reseal-drop buf =
      drop_after 4 (le_bytes 4 (crc32 (drop 4 buf))) buf
        (omega (arith, length-le_bytes 4 (crc32 (drop 4 buf))))

  reseal-length : (buf : Bytes) → 4 ≤ length buf → length (reseal buf) ≡ length buf
  unfolding reseal
  reseal-length buf h =
      length-splice 0 (le_bytes 4 (crc32 (drop 4 buf))) buf
        (omega (arith, length-le_bytes 4 (crc32 (drop 4 buf))))

  reseal-slice : (buf : Bytes) → le_value (slice 0 4 (reseal buf)) ≡ crc32 (drop 4 buf)
  unfolding reseal
  reseal-slice buf =
      let v = crc32 (drop 4 buf) in
      ap le_value
        (slice-splice_same 0 4 (le_bytes 4 v) buf (sym (length-le_bytes 4 v)) (omega arith))
      ∙ le_value-le_bytes 4 v (word (drop 4 buf))

  reseal_verified :
      (page_id page_size : ℕ) (buf : Bytes)
      → 4 ≤ length buf
      → verify_checksum crc32
          (record { page_id = page_id; buf = reseal buf; page_size = page_size })
        ≡ ok tt
  unfolding verify_checksum
  reseal_verified page_id page_size buf h =
      let page : Page = record { page_id = page_id; buf = reseal buf; page_size = page_size } in
      let v = crc32 (drop 4 buf) in
      let stored : get_field 4 0 page ≡ ok v =
        get_field_lem 4 0 page (omega (arith, reseal-length buf h))
        ∙ ap (λ n. ok n) (reseal-slice buf) in
      let same : (v == compute_checksum crc32 page) ≡ true =
        ground (arith, ap crc32 (reseal-drop buf)) in
      simp (stored, same) refl

  module _ (page : Page) (p : IsPage page) where
    check : Bytes
    check = le_bytes 4 (compute_checksum crc32 page)

    sealed : Page
    sealed = set_bytes 0 check page

    check_size : length check ≡ 4
    unfolding check
    check_size = length-le_bytes 4 (compute_checksum crc32 page)

    fits : 0 + length check ≤ length page.buf
    fits = omega (arith, check_size, p.size, p.least)

    sealed_after : (o n : ℕ) → 4 ≤ o → slice o n sealed.buf ≡ slice o n page.buf
    unfolding sealed
    sealed_after o n h = slice-splice_apart o n 0 check page.buf (ground (arith, check_size)) fits

    sealed-IsPage : IsPage sealed
    unfolding sealed
    sealed-IsPage =
        relabelled-IsPage page sealed p (length-splice 0 check page.buf fits) refl
          (ap le_value (sealed_after 14 2 (omega arith)))
          (ap le_value (sealed_after 16 2 (omega arith)))
          (ap le_value (sealed_after 18 2 (omega arith))) (λ o n h. sealed_after o n (omega arith))

    sealed_verified : verify_checksum crc32 sealed ≡ ok tt
    unfolding sealed check reseal
    sealed_verified =
        reseal_verified page.page_id page.page_size page.buf (omega (arith, p.size, p.least))

    -- Writing a page and reading it back, with every test of the read on, gives the page, as well formed
    -- as it was: every byte after the checksum is the same, so no slot reads differently.
    pub from_bytes-to_bytes :
        (page' : Page) × (to_bytes crc32 page ≡ ok (page'.buf, page'))
        × (from_bytes crc32 page.page_id page'.buf page.page_size true true ≡ ok page')
        × (page'.page_id ≡ page.page_id)
        × (page'.page_size ≡ page.page_size)
        × (drop 4 page'.buf ≡ drop 4 page.buf)
        × IsPage page'
        × ((t : ℕ) → content t page' ≡ content t page)
    unfolding to_bytes from_bytes sealed check
    from_bytes-to_bytes =
        let size : (length sealed.buf == page.page_size) ≡ true =
          ground (arith, length-splice 0 check page.buf fits, p.size) in
        (
          sealed,
          simp
              (set_field_lem 4 0 (compute_checksum crc32 page) page (omega (arith, p.size, p.least))
                (word (drop 4 page.buf)))
              refl,
          simp (size, sealed_verified, header_valid sealed sealed-IsPage) refl,
          refl,
          refl,
          unfold reseal in reseal-drop page.buf,
          sealed-IsPage,
          relabelled-content page sealed p (length-splice 0 check page.buf fits) refl
              (ap le_value (sealed_after 14 2 (omega arith)))
              (ap le_value (sealed_after 16 2 (omega arith)))
              (ap le_value (sealed_after 18 2 (omega arith)))
              (λ o n h. sealed_after o n (omega arith)),
        )

  module _ (raw : Bytes) (lsn : ℕ) (whole : 24 ≤ length raw) (long : lsn < 256 ^ 8) where
    with_lsn : Bytes
    with_lsn = splice 4 (le_bytes 8 lsn) raw

    stamped : Bytes
    stamped = splice 0 (le_bytes 4 (crc32 (drop 4 with_lsn))) with_lsn

    with_lsn_size : length with_lsn ≡ length raw
    unfolding with_lsn
    with_lsn_size = length-splice 4 (le_bytes 8 lsn) raw (omega (arith, length-le_bytes 8 lsn))

    -- Stamping a page's bytes makes its LSN the one given and leaves its checksum in line, so that a
    -- read accepts it; its length and every byte after the LSN are as they were.
    pub stamp_lsn_lem :
        (out : Bytes) × (stamp_lsn crc32 raw lsn ≡ ok out)
        × (read_lsn out ≡ ok lsn)
        × (length out ≡ length raw)
        × ((page_id page_size : ℕ)
            → verify_checksum crc32 (record { page_id = page_id; buf = out; page_size = page_size })
              ≡ ok tt)
        × ((o n : ℕ) → slice (12 + o) n out ≡ slice (12 + o) n raw)
    unfolding stamp_lsn stamped with_lsn reseal read_lsn pack_into unpack_from
    stamp_lsn_lem =
        let size : length stamped ≡ length raw =
          reseal-length with_lsn (omega (arith, with_lsn_size, whole)) ∙ with_lsn_size in
        let fits : leb 12 (length raw) ≡ true = ground arith in
        let small : ltb lsn (256 ^ 8) ≡ true = ground arith in
        let fits' : leb 4 (length with_lsn) ≡ true = ground (arith, with_lsn_size) in
        let small' : ltb (crc32 (drop 4 with_lsn)) (256 ^ 4) ≡ true =
          ground (arith, word (drop 4 with_lsn)) in
        let v = le_bytes 4 (crc32 (drop 4 with_lsn)) in
        let v_size : length v ≡ 4 = length-le_bytes 4 (crc32 (drop 4 with_lsn)) in
        let after : (o n : ℕ) → 4 ≤ o → slice o n stamped ≡ slice o n with_lsn = λ o n h.
          slice-splice_apart o n 0 v with_lsn (ground (arith, v_size))
            (omega (arith, v_size, with_lsn_size, whole)) in
        let wide : ltb (length stamped) 24 ≡ false = ground (arith, size) in
        let fits2 : leb 12 (length stamped) ≡ true = ground (arith, size) in
        let got : le_value (slice 4 8 stamped) ≡ lsn =
          ap le_value (after 4 8 (omega arith))
          ∙ ap le_value (
              slice-splice_same 4 8 (le_bytes 8 lsn) raw (sym (length-le_bytes 8 lsn))
                (omega (arith, whole)))
          ∙ le_value-le_bytes 8 lsn long in
        (
          stamped,
          simp (fits, small, fits', small') refl,
          simp (wide, fits2, got) refl,
          size,
          λ page_id page_size.
              reseal_verified page_id page_size with_lsn (omega (arith, with_lsn_size, whole)),
          λ o n.
              after (12 + o) n (omega arith)
              ∙ slice-splice_apart (12 + o) n 4 (le_bytes 8 lsn) raw
                  (ground (arith, length-le_bytes 8 lsn))
                  (omega (arith, length-le_bytes 8 lsn, whole)),
        )

-- ===== src/Storage/Page/Image.antt =====
-- engine/storage/page.py: the checksum, the bytes that are written to disk and read back, and the LSN
-- that is stamped into encoded bytes.
use chen_db.Prelude.{ℕ, Bool, ltb, ◌==◌, not, if◌then◌else◌, length, drop}
use chen_db.Prelude.Bytes.{Bytes}
use chen_db.Prelude.Result.{Result, ok, err, ◌>>=◌, ◌>>◌}
use chen_db.Prelude.Slices.{unpack_from, pack_into}
use chen_db.Storage.Page.{Page, PageError, get_field, set_field, or_raise, validate_header}

-- `zlib.crc32`
module _ (crc32 : Bytes → ℕ) where
  abbrev pub compute_checksum : Page → ℕ
  compute_checksum page = crc32 (drop 4 page.buf)

  unfoldable pub update_checksum : Page → Result PageError Page
  unfolding set_field
  update_checksum page = set_field 4 0 (compute_checksum page) page

  unfoldable pub verify_checksum : Page → Result PageError (Unit {0})
  unfolding get_field
  verify_checksum page = do
    stored ← get_field 4 0 page
    if stored == compute_checksum page then ok tt else err PageError.checksum_mismatch

  -- `to_bytes`: the bytes, and the page, whose checksum is refreshed.
  unfoldable pub to_bytes : Page → Result PageError (Bytes × Page)
  unfolding update_checksum
  to_bytes page = update_checksum page >>= λ page'. ok (page'.buf, page')

  -- `from_bytes`, with the tests of `__init__`.
  unfoldable pub from_bytes : ℕ → Bytes → ℕ → Bool → Bool → Result PageError Page
  unfolding verify_checksum validate_header
  from_bytes page_id raw page_size verify validate =
      let page : Page = record { page_id = page_id; buf = raw; page_size = page_size } in
      if not (length raw == page_size) then err PageError.corrupt_page else do
        (if verify then verify_checksum page else ok tt)
        (if validate then validate_header page else ok tt)
        ok page

  unfoldable pub stamp_lsn : Bytes → ℕ → Result PageError Bytes
  unfolding pack_into
  stamp_lsn raw lsn = do
    buf ← or_raise (pack_into 8 4 lsn raw)
    or_raise (pack_into 4 0 (crc32 (drop 4 buf)) buf)

unfoldable pub read_lsn : Bytes → Result PageError ℕ
unfolding unpack_from
read_lsn raw = if ltb (length raw) 24 then ok 0 else or_raise (unpack_from 8 4 raw)

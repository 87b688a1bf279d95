-- ===== src/Storage/Page/Writes.antt =====
-- The writes of an insertion, into a dead slot or a new one: they put the record where it belongs and
-- touch nothing else.
use chen_db.Prelude.{ℕ, ◌+◌, ◌-◌, ◌≤◌, ◌<◌, ◌≡◌, refl, ap, ◌∙◌, true, none, [], ◌∷◌, arith, length}
use chen_db.Prelude.Bytes.{Bytes, le_bytes, le_value}
use chen_db.Prelude.Result.{ok}
use chen_db.Prelude.Slices.{slice, splice, length-splice, slice-splice_apart}
use chen_db.Storage.Page.{Page, get_field, slot_offset, take_slot}
use chen_db.Storage.Page.Slot.{
  Writes, patch, misses, Fits, u16, get_u16, set_u16, u16-hit, slice-patch_miss,
  slice-patch_hit_after, length-patch,
}
use chen_db.Storage.Page.Sound.{IsPage, count, free_start, free_end}
use chen_db.Storage.Page.Placed.{IsPlaced}

pub take_slot_new :
    (page : Page) (c f : ℕ)
    → 28 ≤ length page.buf
    → u16 14 page.buf ≡ c
    → u16 16 page.buf ≡ f
    → c + 1 < 65536
    → f + 4 < 65536
    → take_slot none page
      ≡ ok (
        c,
        record page {
          buf = patch ((14, le_bytes 2 (c + 1)) ∷ (16, le_bytes 2 (f + 4)) ∷ []) page.buf;
        },
      )
unfolding take_slot le_bytes
take_slot_new page c f h ec ef hc hf =
    let first = record page { buf = splice 14 (le_bytes 2 (c + 1)) page.buf } in
    let size : length first.buf ≡ length page.buf =
      length-splice 14 (le_bytes 2 (c + 1)) page.buf (omega (arith, h)) in
    let kept : u16 16 first.buf ≡ f =
      ap le_value (slice-splice_apart 16 2 14 (le_bytes 2 (c + 1)) page.buf refl (omega (arith, h)))
      ∙ ef in
    let got : get_field 2 14 page ≡ ok c = get_u16 14 page (omega (arith, h)) ∙ ap (λ z. ok z) ec in
    let got' : get_field 2 16 first ≡ ok f =
      get_u16 16 first (omega (arith, h, size)) ∙ ap (λ z. ok z) kept in
    simp
      (
        got,
        set_u16 14 (c + 1) page (omega (arith, h)) hc,
        got',
        set_u16 16 (f + 4) first (omega (arith, h, size)) hf,
      )
      refl

module _ (page : Page) (p : IsPage page) (payload : Bytes) where
  abbrev pub new_end : ℕ
  new_end = free_end page - length payload

  -- The writes of an insertion into a slot that was dead.
  abbrev pub reuse_writes : ℕ → Writes
  reuse_writes s =
      (new_end, payload)
      ∷ (slot_offset s, le_bytes 2 new_end)
      ∷ (slot_offset s + 2, le_bytes 2 (length payload))
      ∷ (18, le_bytes 2 new_end)
      ∷ []

  -- The writes of an insertion into a new slot.
  abbrev pub grow_writes : Writes
  grow_writes =
      (new_end, payload)
      ∷ (14, le_bytes 2 (count page + 1))
      ∷ (16, le_bytes 2 (free_start page + 4))
      ∷ (slot_offset (count page), le_bytes 2 new_end)
      ∷ (slot_offset (count page) + 2, le_bytes 2 (length payload))
      ∷ (18, le_bytes 2 new_end)
      ∷ []

  module _ (s : ℕ) (inside : s < count page)
      (room : free_start page + length payload ≤ free_end page) where
    pub reuse-Fits : Fits (length page.buf) (reuse_writes s)
    unfolding le_bytes
    reuse-Fits = omega (arith, p.size, p.start, p.low, p.high)

    unfoldable pub reused : Page
    reused = record page { buf = patch (reuse_writes s) page.buf }

    -- What the writes miss.
    reuse_miss :
        (o n : ℕ) → misses o n (reuse_writes s) ≡ true → slice o n reused.buf ≡ slice o n page.buf
    unfolding reused
    reuse_miss o n m = slice-patch_miss o n (reuse_writes s) page.buf reuse-Fits m

    pub reuse-IsPlaced : IsPlaced page payload s (count page) reused
    unfolding reused le_bytes
    reuse-IsPlaced =
        let w1 : ℕ × Bytes = (new_end, payload) in
        let w2 : ℕ × Bytes = (slot_offset s, le_bytes 2 new_end) in
        let w3 : ℕ × Bytes = (slot_offset s + 2, le_bytes 2 (length payload)) in
        let w4 : ℕ × Bytes = (18, le_bytes 2 new_end) in
        record {
          length_same = length-patch (reuse_writes s) page.buf reuse-Fits;
          size_same = refl;
          count_is = ap le_value (reuse_miss 14 2 (ground arith));
          start_is = ap le_value (reuse_miss 16 2 (ground arith)) ∙ p.start;
          end_is = u16-hit (w1 ∷ w2 ∷ w3 ∷ []) 18 new_end [] page.buf (omega arith) reuse-Fits refl;
          offset_is =
              u16-hit (w1 ∷ []) (slot_offset s) new_end (w3 ∷ w4 ∷ []) page.buf (omega arith)
                reuse-Fits (ground arith);
          size_is =
              u16-hit (w1 ∷ w2 ∷ []) (slot_offset s + 2) (length payload) (w4 ∷ []) page.buf
                (omega arith) reuse-Fits (ground arith);
          payload_is =
              slice-patch_hit_after [] new_end (length payload) payload (w2 ∷ w3 ∷ w4 ∷ []) page.buf
                refl reuse-Fits (ground arith);
          offset_same = λ t h k. ap le_value (reuse_miss (slot_offset t) 2 (ground arith));
          size_same_at = λ t h k. ap le_value (reuse_miss (slot_offset t + 2) 2 (ground arith));
          bytes_same = λ o n h k. reuse_miss o n (ground arith);
        }

  module _ (room : free_start page + 4 + length payload ≤ free_end page) where
    pub grow-Fits : Fits (length page.buf) grow_writes
    unfolding le_bytes
    grow-Fits = omega (arith, p.size, p.start, p.low, p.high)

    unfoldable pub grown : Page
    grown = record page { buf = patch grow_writes page.buf }

    grow_miss : (o n : ℕ) → misses o n grow_writes ≡ true → slice o n grown.buf ≡ slice o n page.buf
    unfolding grown
    grow_miss o n m = slice-patch_miss o n grow_writes page.buf grow-Fits m

    pub grow-IsPlaced : IsPlaced page payload (count page) (count page + 1) grown
    unfolding grown le_bytes
    grow-IsPlaced =
        let so = slot_offset (count page) in
        let w1 : ℕ × Bytes = (new_end, payload) in
        let w2 : ℕ × Bytes = (14, le_bytes 2 (count page + 1)) in
        let w3 : ℕ × Bytes = (16, le_bytes 2 (free_start page + 4)) in
        let w4 : ℕ × Bytes = (so, le_bytes 2 new_end) in
        let w5 : ℕ × Bytes = (so + 2, le_bytes 2 (length payload)) in
        let w6 : ℕ × Bytes = (18, le_bytes 2 new_end) in
        record {
          length_same = length-patch grow_writes page.buf grow-Fits;
          size_same = refl;
          count_is =
              u16-hit (w1 ∷ []) 14 (count page + 1) (w3 ∷ w4 ∷ w5 ∷ w6 ∷ []) page.buf (omega arith)
                grow-Fits (ground arith);
          start_is =
              u16-hit (w1 ∷ w2 ∷ []) 16 (free_start page + 4) (w4 ∷ w5 ∷ w6 ∷ []) page.buf
                (omega arith) grow-Fits (ground arith)
              ∙ (omega (arith, p.start));
          end_is =
              u16-hit (w1 ∷ w2 ∷ w3 ∷ w4 ∷ w5 ∷ []) 18 new_end [] page.buf (omega arith) grow-Fits
                refl;
          offset_is =
              u16-hit (w1 ∷ w2 ∷ w3 ∷ []) so new_end (w5 ∷ w6 ∷ []) page.buf (omega arith) grow-Fits
                (ground arith);
          size_is =
              u16-hit (w1 ∷ w2 ∷ w3 ∷ w4 ∷ []) (so + 2) (length payload) (w6 ∷ []) page.buf
                (omega arith) grow-Fits (ground arith);
          payload_is =
              slice-patch_hit_after [] new_end (length payload) payload
                (w2 ∷ w3 ∷ w4 ∷ w5 ∷ w6 ∷ []) page.buf refl grow-Fits (ground arith);
          offset_same = λ t h k. ap le_value (grow_miss (slot_offset t) 2 (ground arith));
          size_same_at = λ t h k. ap le_value (grow_miss (slot_offset t + 2) 2 (ground arith));
          bytes_same = λ o n h k. grow_miss o n (ground arith);
        }

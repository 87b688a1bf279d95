-- ===== src/Storage/Page/Compact/Move.antt =====
-- One record of the loop of compaction: it is moved down from the cursor, and its slot follows it.
use chen_db.Prelude.{
  ℕ, suc, ◌+◌, ◌-◌, ◌≤◌, ◌<◌, ◌≡◌, ◌≢◌, refl, sym, ap, subst, ◌∙◌, true, false, [], ◌∷◌, arith,
  ◌==◌, length, Bool-cases, inl, inr,
}
use chen_db.Prelude.Bytes.{Bytes, le_bytes, le_value}
use chen_db.Prelude.Result.{ok}
use chen_db.Prelude.Slices.{slice, apart, length-slice, length-splice}
use chen_db.Storage.Page.{Page, write_slot, slot_offset, set_bytes}
use chen_db.Storage.Page.Slot.{
  Writes, patch, misses, Fits, u16, u16-hit, slice-patch_miss, slice-patch_hit_after, length-patch,
  write_slot_lem,
}
use chen_db.Storage.Page.Sound.{IsPage, count, free_end, offset_at, size_at}
use chen_db.Storage.Page.Compact.Slide.{live_size, live_total, sum_below-le, IsSlid}

module _ (page : Page) (p : IsPage page) where
  -- A live record is moved down from the cursor.
  module _ (k cursor : ℕ) (page' : Page) (inside : k < count page)
      (there : (offset_at k page == 0) ≡ false) (i : IsSlid page p k cursor page') where
    abbrev pub payload : Bytes
    payload = slice (offset_at k page) (size_at k page) page.buf

    abbrev pub new_cursor : ℕ
    new_cursor = cursor - length payload

    live_k : offset_at k page ≢ 0
    live_k = ground (arith, there)

    payload_size : length payload ≡ size_at k page
    payload_size =
        length-slice (offset_at k page) (size_at k page) page.buf
          (omega (arith, p.live k inside live_k, p.size))

    -- The records still to come fit between the cursor and the end of the old free region.
    pub stays : (free_end page ≤ new_cursor) × (length payload ≤ cursor) × (cursor ≤ page.page_size)
    stays =
        let weight_k : live_size page p k ≡ size_at k page = simp there refl in
        omega (
          arith,
          i.room,
          payload_size,
          weight_k,
          sum_below-le (live_size page p) (suc k) (count page) inside,
          live_total page p,
          p.high,
        )

    unfoldable pub slide_writes : Writes
    slide_writes =
        (new_cursor, payload)
        ∷ (slot_offset k, le_bytes 2 new_cursor)
        ∷ (slot_offset k + 2, le_bytes 2 (length payload))
        ∷ []

    unfoldable pub slid : Page
    slid = record page' { buf = patch slide_writes page'.buf }

    slide-Fits : Fits (length page'.buf) slide_writes
    unfolding slide_writes le_bytes
    slide-Fits = omega (arith, i.length_same, p.size, p.start, p.low, p.high, stays)

    slide_miss :
        (o n : ℕ) → misses o n slide_writes ≡ true → slice o n slid.buf ≡ slice o n page'.buf
    unfolding slid
    slide_miss o n m = slice-patch_miss o n slide_writes page'.buf slide-Fits m

    slid_here : (offset_at k slid ≡ new_cursor) × (size_at k slid ≡ length payload)
    unfolding slid slide_writes le_bytes
    slid_here =
        let w1 : ℕ × Bytes = (new_cursor, payload) in
        let w2 : ℕ × Bytes = (slot_offset k, le_bytes 2 new_cursor) in
        let w3 : ℕ × Bytes = (slot_offset k + 2, le_bytes 2 (length payload)) in
        (
          u16-hit (w1 ∷ []) (slot_offset k) new_cursor (w3 ∷ []) page'.buf
              (omega (arith, stays, p.most)) slide-Fits (ground arith),
          u16-hit (w1 ∷ w2 ∷ []) (slot_offset k + 2) (length payload) [] page'.buf
              (omega (arith, stays, p.most)) slide-Fits refl,
        )

    slid_bytes : slice new_cursor (length payload) slid.buf ≡ payload
    unfolding slid slide_writes le_bytes
    slid_bytes =
        let w2 : ℕ × Bytes = (slot_offset k, le_bytes 2 new_cursor) in
        let w3 : ℕ × Bytes = (slot_offset k + 2, le_bytes 2 (length payload)) in
        slice-patch_hit_after [] new_cursor (length payload) payload (w2 ∷ w3 ∷ []) page'.buf refl
          slide-Fits (ground (arith, stays, p.start, p.low))

    slid_header : (o : ℕ) → o + 2 ≤ 24 → u16 o slid.buf ≡ u16 o page'.buf
    unfolding slide_writes le_bytes
    slid_header o h = ap le_value (slide_miss o 2 (ground (arith, stays, p.start, p.low)))

    slid_other :
        (t : ℕ)
        → t < count page
        → (t == k) ≡ false
        → (offset_at t slid ≡ offset_at t page') × (size_at t slid ≡ size_at t page')
    unfolding slide_writes le_bytes
    slid_other t h ne = (
      ap le_value (slide_miss (slot_offset t) 2 (ground (arith, stays, p.start, p.low))),
      ap le_value (slide_miss (slot_offset t + 2) 2 (ground (arith, stays, p.start, p.low))),
    )

    slid_above : (o n : ℕ) → cursor ≤ o → slice o n slid.buf ≡ slice o n page'.buf
    unfolding slide_writes le_bytes
    slid_above o n h = slide_miss o n (ground (arith, stays, p.start, p.low))

    pub slid_written :
        write_slot k new_cursor (length payload) (set_bytes new_cursor payload page') ≡ ok slid
    unfolding slid slide_writes
    slid_written =
        let size = length-splice new_cursor payload page'.buf slide-Fits.0 in
        write_slot_lem k new_cursor (length payload) (set_bytes new_cursor payload page')
          (omega (arith, size, i.length_same, p.size, p.start, p.low, p.high))
          (omega (arith, stays, p.most)) (omega (arith, stays, p.most))

    -- A record that was moved before keeps its place.
    slid_before :
        (t : ℕ)
        → t < k
        → (offset_at t slid ≡ offset_at t page') × (size_at t slid ≡ size_at t page')
    slid_before t h = slid_other t (omega (arith, h, inside)) (ground (arith, h))

    slid_moved :
        (t : ℕ)
        → t < suc k
        → offset_at t page ≢ 0
        → (new_cursor ≤ offset_at t slid)
          × (offset_at t slid + size_at t slid ≤ page.page_size)
          × (size_at t slid ≡ size_at t page)
          × (slice (offset_at t slid) (size_at t slid) slid.buf
              ≡ slice (offset_at t page) (size_at t page) page.buf)
    slid_moved t h l = elim (Bool-cases (t == k)) [
      | inl e ↦
          let same : k ≡ t = ground (arith, e) in
          subst
            (λ z.
              (new_cursor ≤ offset_at z slid)
              × (offset_at z slid + size_at z slid ≤ page.page_size)
              × (size_at z slid ≡ size_at z page)
              × (slice (offset_at z slid) (size_at z slid) slid.buf
                  ≡ slice (offset_at z page) (size_at z page) page.buf))
            same
            (
              omega (arith, slid_here),
              omega (arith, slid_here, stays),
              slid_here.1 ∙ payload_size,
              ap (λ z. slice z (size_at k slid) slid.buf) slid_here.0
                  ∙ ap (λ z. slice new_cursor z slid.buf) slid_here.1
                  ∙ slid_bytes,
            )
      | inr ne ↦
          let b : t < k = ground (arith, h, ne) in
          let m = i.moved t b l in
          let o = slid_before t b in
          (
            omega (arith, o, m.0, stays),
            omega (arith, o, m.1),
            o.1 ∙ m.2,
            ap (λ z. slice z (size_at t slid) slid.buf) o.0
                ∙ ap (λ z. slice (offset_at t page') z slid.buf) o.1
                ∙ slid_above (offset_at t page') (size_at t page') m.0
                ∙ m.3,
          )
    ]

    slid_separate :
        (t u : ℕ)
        → t < suc k
        → u < suc k
        → t ≢ u
        → offset_at t page ≢ 0
        → offset_at u page ≢ 0
        → apart (offset_at t slid) (size_at t slid) (offset_at u slid) (size_at u slid) ≡ true
    slid_separate t u h h' ne l l' = elim (Bool-cases (t == k)) [
      | inl e ↦
          let same : t ≡ k = ground (arith, e) in
          let b : u < k = ground (arith, h', ne, same) in
          let at =
            subst (λ z. (offset_at z slid ≡ new_cursor) × (size_at z slid ≡ length payload))
              (sym same) slid_here in
          ground (arith, at, slid_before u b, i.moved u b l', stays)
      | inr other ↦
          let b : t < k = ground (arith, h, other) in
          elim (Bool-cases (u == k)) [
            | inl e ↦
                let same : u ≡ k = ground (arith, e) in
                let at =
                  subst (λ z. (offset_at z slid ≡ new_cursor) × (size_at z slid ≡ length payload))
                    (sym same) slid_here in
                ground (arith, at, slid_before t b, i.moved t b l, stays)
            | inr other' ↦
                let b' : u < k = ground (arith, h', other') in
                let o = slid_before t b in
                let o' = slid_before u b' in
                simp (o.0, o.1, o'.0, o'.1) (i.separate t u b b' ne l l')
          ]
    ]

    pub move-IsSlid : IsSlid page p (suc k) new_cursor slid
    unfolding slid
    move-IsSlid = record {
      length_same = length-patch slide_writes page'.buf slide-Fits ∙ i.length_same;
      size_same = i.size_same;
      count_same = slid_header 14 (omega arith) ∙ i.count_same;
      start_same = slid_header 16 (omega arith) ∙ i.start_same;
      room =
          let weight_k : live_size page p k ≡ size_at k page = simp there refl in
          omega (arith, i.room, weight_k, payload_size, stays);
      later = λ t h l.
          let o = slid_other t l (ground (arith, h)) in
          let same = i.later t (omega (arith, h)) l in (o.0 ∙ same.0, o.1 ∙ same.1);
      gone = λ t h z. elim (Bool-cases (t == k)) [
        | inl e ↦
            let same : t ≡ k = ground (arith, e) in
            absurd (live_k (subst (λ y. offset_at y page ≡ 0) same z))
        | inr ne ↦
            let b : t < k = ground (arith, h, ne) in
            let o = slid_before t b in let g = i.gone t b z in (o.0 ∙ g.0, o.1 ∙ g.1)
      ];
      moved = slid_moved;
      separate = slid_separate;
    }

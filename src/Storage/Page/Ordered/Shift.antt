-- ===== src/Storage/Page/Ordered/Shift.antt =====
-- The writes of an insertion at an index: the entries from there on move up by one.
use chen_db.Prelude.{
  ℕ, ◌+◌, ◌-◌, ◌*◌, ◌≤◌, ◌<◌, ◌≡◌, refl, sym, ap, subst, ◌∙◌, true, false, Option, none, some, [],
  ◌∷◌, arith, ltb, ◌==◌, if◌then◌else◌, length, Bool-cases, inl, inr,
}
use chen_db.Prelude.Bytes.{Bytes, le_bytes, le_value}
use chen_db.Prelude.Slices.{slice, length-slice, slice-slice}
use chen_db.Storage.Page.{Page, slot_offset}
use chen_db.Storage.Page.Slot.{
  Writes, patch, misses, Fits, u16, u16-hit, slice-patch_miss, slice-patch_hit_after,
  slice-patch_inside, length-patch,
}
use chen_db.Storage.Page.Sound.{IsPage, count, free_start, free_end, offset_at, size_at, content}
use chen_db.Storage.Page.Ordered.Renumber.{IsRenumbered, Entry, renumbered-content}

-- Where the entry of a slot was before an insertion at `index`.
abbrev pub before_insert : ℕ → ℕ → Option ℕ
before_insert index t = if t == index then none else some (if ltb t index then t else t - 1)

module _ (page : Page) (p : IsPage page) (index : ℕ) (payload : Bytes) (inside : index ≤ count page)
    (room : free_start page + (length payload + 4) ≤ free_end page) where
  abbrev pub new_end : ℕ
  new_end = free_end page - length payload

  abbrev pub start : ℕ
  start = slot_offset index

  abbrev pub block : Bytes
  block = slice start (slot_offset (count page) - start) page.buf

  unfoldable pub shift_writes : Writes
  shift_writes =
      (new_end, payload)
      ∷ (start + 4, block)
      ∷ (14, le_bytes 2 (count page + 1))
      ∷ (16, le_bytes 2 (free_start page + 4))
      ∷ (start, le_bytes 2 new_end)
      ∷ (start + 2, le_bytes 2 (length payload))
      ∷ (18, le_bytes 2 new_end)
      ∷ []

  pub block_size : length block ≡ slot_offset (count page) - start
  block_size =
      length-slice start (slot_offset (count page) - start) page.buf
        (omega (arith, inside, p.size, p.start, p.low, p.high))

  unfoldable pub shifted : Page
  shifted = record page { buf = patch shift_writes page.buf }

  shift-Fits : Fits (length page.buf) shift_writes
  unfolding shift_writes le_bytes
  shift-Fits = omega (arith, inside, room, block_size, p.size, p.start, p.high)

  shift_miss :
      (o n : ℕ) → misses o n shift_writes ≡ true → slice o n shifted.buf ≡ slice o n page.buf
  unfolding shifted
  shift_miss o n m = slice-patch_miss o n shift_writes page.buf shift-Fits m

  pub shifted-count : count shifted ≡ count page + 1
  unfolding shifted shift_writes le_bytes
  shifted-count =
      u16-hit ((new_end, payload) ∷ (start + 4, block) ∷ []) 14 (count page + 1)
        ((16, le_bytes 2 (free_start page + 4))
          ∷ (start, le_bytes 2 new_end)
          ∷ (start + 2, le_bytes 2 (length payload))
          ∷ (18, le_bytes 2 new_end)
          ∷ [])
        page.buf (omega (arith, p.start, p.low, p.high, p.most)) shift-Fits (ground arith)

  shifted-start : free_start shifted ≡ free_start page + 4
  unfolding shifted shift_writes le_bytes
  shifted-start =
      u16-hit ((new_end, payload) ∷ (start + 4, block) ∷ (14, le_bytes 2 (count page + 1)) ∷ []) 16
        (free_start page + 4)
        ((start, le_bytes 2 new_end)
          ∷ (start + 2, le_bytes 2 (length payload))
          ∷ (18, le_bytes 2 new_end)
          ∷ [])
        page.buf (omega (arith, room, p.high, p.most)) shift-Fits (ground arith)

  shifted-end : free_end shifted ≡ new_end
  unfolding shifted shift_writes le_bytes
  shifted-end =
      u16-hit
        ((new_end, payload)
          ∷ (start + 4, block)
          ∷ (14, le_bytes 2 (count page + 1))
          ∷ (16, le_bytes 2 (free_start page + 4))
          ∷ (start, le_bytes 2 new_end)
          ∷ (start + 2, le_bytes 2 (length payload))
          ∷ [])
        18 new_end [] page.buf (omega (arith, p.high, p.most)) shift-Fits refl

  shifted_here : (offset_at index shifted ≡ new_end) × (size_at index shifted ≡ length payload)
  unfolding shifted shift_writes le_bytes
  shifted_here = (
    u16-hit
        ((new_end, payload)
          ∷ (start + 4, block)
          ∷ (14, le_bytes 2 (count page + 1))
          ∷ (16, le_bytes 2 (free_start page + 4))
          ∷ [])
        start new_end ((start + 2, le_bytes 2 (length payload)) ∷ (18, le_bytes 2 new_end) ∷ [])
        page.buf (omega (arith, p.high, p.most)) shift-Fits (ground arith),
    u16-hit
        ((new_end, payload)
          ∷ (start + 4, block)
          ∷ (14, le_bytes 2 (count page + 1))
          ∷ (16, le_bytes 2 (free_start page + 4))
          ∷ (start, le_bytes 2 new_end)
          ∷ [])
        (start + 2) (length payload) ((18, le_bytes 2 new_end) ∷ []) page.buf
        (omega (arith, room, p.high, p.most)) shift-Fits (ground arith),
  )

  shifted_below :
      (t : ℕ)
      → t < index
      → (offset_at t shifted ≡ offset_at t page) × (size_at t shifted ≡ size_at t page)
  unfolding shift_writes le_bytes
  shifted_below t h = (
    ap le_value (shift_miss (slot_offset t) 2 (ground (arith, block_size, inside, room, p.start))),
    ap le_value
        (shift_miss (slot_offset t + 2) 2 (ground (arith, block_size, inside, room, p.start))),
  )

  -- A field of an entry that moved, `j` bytes into the block.
  shifted_field :
      (j : ℕ)
      → j + 2 ≤ slot_offset (count page) - start
      → u16 (start + 4 + j) shifted.buf ≡ u16 (start + j) page.buf
  unfolding shifted shift_writes le_bytes
  shifted_field j h = ap le_value (
      slice-patch_inside ((new_end, payload) ∷ []) (start + 4) j 2 block
        ((14, le_bytes 2 (count page + 1))
          ∷ (16, le_bytes 2 (free_start page + 4))
          ∷ (start, le_bytes 2 new_end)
          ∷ (start + 2, le_bytes 2 (length payload))
          ∷ (18, le_bytes 2 new_end)
          ∷ [])
        page.buf (omega (arith, h, block_size)) shift-Fits (ground arith)
      ∙ slice-slice j 2 start (slot_offset (count page) - start) page.buf h)

  shifted_above :
      (s : ℕ)
      → index ≤ s
      → s < count page
      → (offset_at (s + 1) shifted ≡ offset_at s page) × (size_at (s + 1) shifted ≡ size_at s page)
  shifted_above s h k =
      let j = (s - index) * 4 in
      let from : start + 4 + j ≡ slot_offset (s + 1) = omega (arith, h) in
      let to : start + j ≡ slot_offset s = omega (arith, h) in
      let from' : start + 4 + (j + 2) ≡ slot_offset (s + 1) + 2 = omega (arith, h) in
      let to' : start + (j + 2) ≡ slot_offset s + 2 = omega (arith, h) in
      (
        ap (λ z. u16 z shifted.buf) (sym from)
            ∙ shifted_field j (omega (arith, h, k))
            ∙ ap (λ z. u16 z page.buf) to,
        ap (λ z. u16 z shifted.buf) (sym from')
            ∙ shifted_field (j + 2) (omega (arith, h, k))
            ∙ ap (λ z. u16 z page.buf) to',
      )

  shifted-Entry : (t : ℕ) → t < count shifted → Entry page shifted p payload (before_insert index) t
  shifted-Entry t h = elim (Bool-cases (t == index)) [
    | inl e ↦
        let same : index ≡ t = ground (arith, e) in
        inl (
          simp e refl,
          subst (λ z. offset_at z shifted ≡ free_end shifted) same
              (shifted_here.0 ∙ sym shifted-end),
          subst (λ z. size_at z shifted ≡ length payload) same shifted_here.1,
        )
    | inr ne ↦ elim (Bool-cases (ltb t index)) [
      | inl below ↦
          let o = shifted_below t (ground (arith, below)) in
          inr (t, (simp (ne, below) refl, ground (arith, below, inside), o.0, o.1))
      | inr above ↦
          let back : (t - 1) + 1 ≡ t = ground (arith, ne, above) in
          let o =
            shifted_above (t - 1) (ground (arith, ne, above))
              (ground (arith, ne, above, h, shifted-count)) in
          inr (
            t - 1,
            (
              simp (ne, above) refl,
              ground (arith, ne, above, h, shifted-count),
              ap (λ z. offset_at z shifted) (sym back) ∙ o.0,
              ap (λ z. size_at z shifted) (sym back) ∙ o.1,
            ),
          )
    ]
  ]

  pub shifted-IsRenumbered : IsRenumbered page shifted p payload (before_insert index)
  unfolding shifted shift_writes le_bytes
  shifted-IsRenumbered = record {
    length_same = length-patch shift_writes page.buf shift-Fits;
    size_same = refl;
    start_is = omega (arith, shifted-start, shifted-count, p.start);
    low_is = omega (arith, shifted-start, shifted-end, room);
    end_is = omega (arith, shifted-end, room);
    entry = shifted-Entry;
    injective = λ t u h h' ne same. ground arith;
    bytes_same = λ o n h. shift_miss o n (ground (arith, block_size, inside, room, p.start));
    payload_is =
        ap (λ z. slice z (length payload) shifted.buf) shifted-end
        ∙ slice-patch_hit_after [] new_end (length payload) payload
            ((start + 4, block)
              ∷ (14, le_bytes 2 (count page + 1))
              ∷ (16, le_bytes 2 (free_start page + 4))
              ∷ (start, le_bytes 2 new_end)
              ∷ (start + 2, le_bytes 2 (length payload))
              ∷ (18, le_bytes 2 new_end)
              ∷ [])
            page.buf refl shift-Fits (ground (arith, block_size, inside, room, p.start));
  }

  pub shifted-content :
      (t : ℕ)
      → content t shifted
        ≡ (if t == index then some payload else content (if ltb t index then t else t - 1) page)
  shifted-content t = elim (Bool-cases (ltb t (count shifted))) [
    | inl here ↦
        renumbered-content page shifted p payload (before_insert index) shifted-IsRenumbered t
          (ground (arith, here))
        ∙ (elim (Bool-cases (t == index)) [ inl e ↦ simp e refl | inr ne ↦ simp ne refl ])
    | inr out ↦
        let ne : (t == index) ≡ false = ground (arith, out, shifted-count, inside) in
        let above : ltb t index ≡ false = ground (arith, out, shifted-count, inside) in
        let out' : ltb (t - 1) (count page) ≡ false = ground (arith, out, shifted-count) in
        simp (out, ne, above, out') refl
  ]

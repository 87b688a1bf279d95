-- ===== src/Storage/Page/Insert.antt =====
-- Inserting a record: where it goes, and what the other slots read afterwards.
use chen_db.Prelude.{
  ℕ, zero, suc, ◌+◌, ◌-◌, ◌*◌, ◌≤◌, ◌<◌, ◌≡◌, ◌≢◌, ◌⊎◌, refl, ap, subst, true, false, Option, none,
  some, [], ◌∷◌, arith, ltb, ◌==◌, if◌then◌else◌, length, Bool-cases, inl, inr,
}
use chen_db.Prelude.Bytes.{Bytes, le_bytes, le_value}
use chen_db.Prelude.Result.{Result, ok, err}
use chen_db.Prelude.Slices.{length-splice, slice-splice_apart}
use chen_db.Storage.Page.{
  Page, PageError, slot_offset, find_dead_from, find_dead_slot, take_slot, place, insert, set_bytes,
  max_payload_size,
}
use chen_db.Storage.Page.Slot.{Writes, patch, u16, set_u16, length-patch, write_slot_lem}
use chen_db.Storage.Page.Sound.{
  IsPage, count, free_start, free_end, offset_at, content, get_count, get_free_start, get_free_end,
  get_slot,
}
use chen_db.Storage.Page.Writes.{
  take_slot_new, reused, grown, reuse-IsPlaced, grow-IsPlaced, new_end,
}
use chen_db.Storage.Page.Placed.{placed-IsPage, placed-content}

-- What a search for a dead slot finds, from a slot on.
abbrev Found : ℕ → Page → Option ℕ → Type 0
Found from page none = (t : ℕ) → from ≤ t → t < count page → offset_at t page ≢ 0
Found from page (some s) = (from ≤ s) × (s < count page) × (offset_at s page ≡ 0)

find_dead_from_lem :
    (left from : ℕ) (page : Page)
    → IsPage page
    → from + left ≡ count page
    → (dead : Option ℕ) × (find_dead_from left from page ≡ ok dead) × Found from page dead
unfolding find_dead_from
find_dead_from_lem zero from page p e = (none, refl, λ t h k. absurd (omega arith))
find_dead_from_lem (suc left) from page p e =
    let (dead, found, is) = find_dead_from_lem left (suc from) page p (omega arith) in
    let slot = get_slot page p from (omega arith) in
    elim (Bool-cases (offset_at from page == 0)) [
      | inl gone ↦
          (some from, simp (slot, gone) refl, (omega arith, omega arith, ground (arith, gone)))
      | inr there ↦ (dead, simp (slot, there) found, widen left from page dead there is)
    ]
  where
    widen :
        (left from : ℕ) (page : Page) (dead : Option ℕ)
        → (offset_at from page == 0) ≡ false
        → Found (suc from) page dead
        → Found from page dead
    widen left from page none there is = λ t h k. elim (Bool-cases (from == t)) [
      | inl same ↦
          let e : from ≡ t = ground (arith, same) in
          subst (λ z. offset_at z page ≢ 0) e (ground (arith, there))
      | inr other ↦ is t (ground (arith, other)) k
    ]
    widen left from page (some s) there is = (omega (arith, is.0), is.1, is.2)

pub find_dead_slot_lem :
    (page : Page)
    → IsPage page
    → (dead : Option ℕ) × (find_dead_slot page ≡ ok dead) × Found 0 page dead
unfolding find_dead_slot
find_dead_slot_lem page p =
    let (dead, found, is) = find_dead_from_lem (count page) 0 page p (omega arith) in
    (dead, simp (get_count page p) found, is)

module _ (page : Page) (p : IsPage page) (payload : Bytes) where
  -- What an insertion into slot `s` makes of the page.
  abbrev pub Inserted : ℕ → Page → Type 0
  Inserted s page' =
      IsPage page'
      × (page'.page_size ≡ page.page_size)
      × (content s page ≡ none)
      × ((t : ℕ) → content t page' ≡ (if t == s then some payload else content t page))

  module _ (s : ℕ) (inside : s < count page) (gone : offset_at s page ≡ 0)
      (room : free_start page + length payload ≤ free_end page) where
    place_reuse :
        place payload (some s) (free_end page - length payload) page
        ≡ ok (some s, reused page p payload s inside room)
    unfolding place reused take_slot le_bytes
    place_reuse =
        let pg1 = set_bytes (new_end page p payload) payload page in
        let size : length pg1.buf ≡ length page.buf =
          length-splice (new_end page p payload) payload page.buf (omega (arith, p.size, p.high)) in
        let pg2 = record page {
          buf =
              patch
                ((slot_offset s, le_bytes 2 (new_end page p payload))
                  ∷ (slot_offset s + 2, le_bytes 2 (length payload))
                  ∷ [])
                pg1.buf;
        } in
        let size' : length pg2.buf ≡ length pg1.buf =
          length-patch
            ((slot_offset s, le_bytes 2 (new_end page p payload))
              ∷ (slot_offset s + 2, le_bytes 2 (length payload))
              ∷ [])
            pg1.buf (omega (arith, size, p.size, p.start, p.low, p.high)) in
        simp
          (
            write_slot_lem s (new_end page p payload) (length payload) pg1
                (omega (arith, size, p.size, p.start, p.low, p.high))
                (omega (arith, p.high, p.most)) (omega (arith, p.high, p.most)),
            set_u16 18 (new_end page p payload) pg2 (omega (arith, size, size', p.size, p.least))
                (omega (arith, p.high, p.most)),
          )
          refl

    reuse-Inserted : Inserted s (reused page p payload s inside room)
    unfolding reused
    reuse-Inserted =
        let w = reuse-IsPlaced page p payload s inside room in
        let room' : 24 + count page * 4 + length payload ≤ free_end page = omega (arith, p.start) in
        let empty : (offset_at s page == 0) ≡ true = ground (arith, gone) in
        let there : ltb s (count page) ≡ true = ground arith in
        (
          placed-IsPage page p payload s (count page) inside (λ t h k. h) (omega arith) room' _ w,
          refl,
          simp (there, empty) refl,
          placed-content page p payload s (count page) inside (λ t h k. h) (omega arith) room' _ w,
        )

  module _ (room : free_start page + 4 + length payload ≤ free_end page) where
    place_grow :
        place payload none (free_end page - length payload) page
        ≡ ok (some (count page), grown page p payload room)
    unfolding place grown le_bytes
    place_grow =
        let e = new_end page p payload in
        let c = count page in
        let pg1 = set_bytes e payload page in
        let size : length pg1.buf ≡ length page.buf =
          length-splice e payload page.buf (omega (arith, p.size, p.high)) in
        let kept : (o : ℕ) → o + 2 ≤ 24 → u16 o pg1.buf ≡ u16 o page.buf = λ o h. ap le_value (
          slice-splice_apart o 2 e payload page.buf (ground (arith, p.start))
            (omega (arith, p.size, p.high))) in
        let ws : Writes = (14, le_bytes 2 (c + 1)) ∷ (16, le_bytes 2 (free_start page + 4)) ∷ [] in
        let pg2 = record page { buf = patch ws pg1.buf } in
        let size2 : length pg2.buf ≡ length pg1.buf =
          length-patch ws pg1.buf (omega (arith, size, p.size, p.least)) in
        let vs : Writes =
          (slot_offset c, le_bytes 2 e) ∷ (slot_offset c + 2, le_bytes 2 (length payload)) ∷ [] in
        let pg3 = record page { buf = patch vs pg2.buf } in
        let size3 : length pg3.buf ≡ length pg2.buf =
          length-patch vs pg2.buf (omega (arith, size, size2, p.size, p.start, p.high)) in
        simp
          (
            take_slot_new pg1 c (free_start page) (omega (arith, size, p.size, p.least))
                (kept 14 (omega arith)) (kept 16 (omega arith))
                (omega (arith, p.start, p.high, p.most)) (omega (arith, p.high, p.most)),
            write_slot_lem c e (length payload) pg2
                (omega (arith, size, size2, p.size, p.start, p.high))
                (omega (arith, p.high, p.most)) (omega (arith, p.high, p.most)),
            set_u16 18 e pg3 (omega (arith, size, size2, size3, p.size, p.least))
                (omega (arith, p.high, p.most)),
          )
          refl

    grow-Inserted : Inserted (count page) (grown page p payload room)
    unfolding grown
    grow-Inserted =
        let w = grow-IsPlaced page p payload room in
        let room' : 24 + (count page + 1) * 4 + length payload ≤ free_end page =
          omega (arith, p.start) in
        let beyond : ltb (count page) (count page) ≡ false = ground arith in
        let inside : count page < count page + 1 = omega arith in
        let others : (t : ℕ) → t < count page + 1 → t ≢ count page → t < count page =
          λ t h k. omega (arith, h, k) in
        (
          placed-IsPage page p payload (count page) (count page + 1) inside others (omega arith)
              room' _ w,
          refl,
          simp beyond refl,
          placed-content page p payload (count page) (count page + 1) inside others (omega arith)
              room' _ w,
        )

  -- What an insertion that is not refused for its length does.
  abbrev pub Outcome : Result PageError (Option ℕ × Page) → Type 0
  Outcome r =
      ((r ≡ ok (none, page)) × (free_end page < free_start page + (length payload + 4)))
      ⊎ ((s : ℕ) × (page' : Page) × (r ≡ ok (some s, page')) × Inserted s page')

  insert_at_slot :
      (dead : Option ℕ)
      → find_dead_slot page ≡ ok dead
      → Found 0 page dead
      → length payload ≤ max_payload_size page
      → Outcome (insert payload page)
  unfolding insert
  insert_at_slot none found is short =
      let short' : ltb (max_payload_size page) (length payload) ≡ false = ground arith in
      let start = get_free_start page p in
      let end_is = get_free_end page p in
      elim (Bool-cases (ltb (free_end page) (free_start page + (length payload + 4)))) [
        | inl full ↦ inl (simp (short', found, start, end_is, full) refl, ground (arith, full))
        | inr fits ↦
            let room : free_start page + 4 + length payload ≤ free_end page =
              ground (arith, fits) in
            inr (
              count page,
              grown page p payload room,
              simp (short', found, start, end_is, fits) (place_grow room),
              grow-Inserted room,
            )
      ]
  insert_at_slot (some s) found is short =
      let short' : ltb (max_payload_size page) (length payload) ≡ false = ground arith in
      let start = get_free_start page p in
      let end_is = get_free_end page p in
      elim (Bool-cases (ltb (free_end page) (free_start page + length payload))) [
        | inl full ↦ inl (simp (short', found, start, end_is, full) refl, ground (arith, full))
        | inr fits ↦
            let room : free_start page + length payload ≤ free_end page = ground (arith, fits) in
            inr (
              s,
              reused page p payload s is.1 room,
              simp (short', found, start, end_is, fits) (place_reuse s is.1 is.2 room),
              reuse-Inserted s is.1 is.2 room,
            )
      ]

  -- On a page whose pointers agree and whose records lie apart, inserting raises exactly for a payload
  -- that no page of the size could hold. Otherwise it either leaves the page as it was, when there is
  -- no room for the payload and a slot entry, or puts the payload into a slot that read as nothing,
  -- changes what no other slot reads, and keeps the page well formed.
  pub insert_lem :
      ((max_payload_size page < length payload)
        × (insert payload page ≡ err PageError.record_too_large))
      ⊎ ((length payload ≤ max_payload_size page) × Outcome (insert payload page))
  unfolding insert
  insert_lem = elim (Bool-cases (ltb (max_payload_size page) (length payload))) [
    | inl long ↦ inl (ground (arith, long), simp long refl)
    | inr short ↦
        let (dead, found, is) = find_dead_slot_lem page p in
        let fits : length payload ≤ max_payload_size page = ground (arith, short) in
        inr (fits, insert_at_slot dead found is fits)
  ]

-- ===== src/Storage/Page/Compact/Close.antt =====
-- The loop of compaction from end to end, and the page once its free region is closed.
use chen_db.Prelude.{
  ℕ, zero, suc, ◌+◌, ◌-◌, ◌≤◌, ◌<◌, ◌≡◌, ◌≢◌, ◌⊎◌, refl, sym, ap, subst, ◌∙◌, true, false, some,
  arith, ltb, ◌==◌, length, Bool-cases, inl, inr,
}
use chen_db.Prelude.Bytes.{le_bytes, le_value, length-le_bytes, le_value-le_bytes}
use chen_db.Prelude.Result.{ok}
use chen_db.Prelude.Slices.{slice, splice, length-splice, slice-splice_same, slice-splice_apart}
use chen_db.Storage.Page.{Page, slot_offset, set_bytes, zeros}
use chen_db.Storage.Page.Slot.{u16}
use chen_db.Storage.Page.Sound.{IsPage, count, free_start, free_end, offset_at, size_at, content}
use chen_db.Storage.Page.Create.{length-zeros}
use chen_db.Storage.Page.Compact.{slide}
use chen_db.Storage.Page.Compact.Slide.{live_of, live_total, IsSlid, skip-IsSlid}
use chen_db.Storage.Page.Compact.Move.{payload, stays, slid, slid_written, move-IsSlid, new_cursor}
use chen_db.Storage.Page.Compact.Trim.{last_live}

module _ (page : Page) (p : IsPage page) where
  pub slide_lem :
      (left k cursor : ℕ) (page' : Page)
      → k + left ≡ count page
      → IsSlid page p k cursor page'
      → (cursor' : ℕ) × (page'' : Page) × (slide (live_of page p left k) cursor page'
          ≡ ok (cursor', page''))
        × IsSlid page p (count page) cursor' page''
  unfolding slide
  slide_lem zero k cursor page' e i =
      let same : k ≡ count page = omega (arith, e) in
      (cursor, page', refl, subst (λ z. IsSlid page p z cursor page') same i)
  slide_lem (suc left) k cursor page' e i = elim (Bool-cases (offset_at k page == 0)) [
    | inl gone ↦
        let inside : k < count page = omega (arith, e) in
        let (cursor', page'', run, done) =
          slide_lem left (suc k) cursor page' (omega (arith, e))
            (skip-IsSlid page p k cursor page' inside gone i) in
        (cursor', page'', simp gone run, done)
    | inr there ↦
        let inside : k < count page = omega (arith, e) in
        let (cursor', page'', run, done) =
          slide_lem left (suc k) (new_cursor page p k cursor page' inside there i)
            (slid page p k cursor page' inside there i) (omega (arith, e))
            (move-IsSlid page p k cursor page' inside there i) in
        let enough : ltb cursor (length (payload page p k cursor page' inside there i)) ≡ false =
          ground (arith, stays page p k cursor page' inside there i) in
        (
          cursor',
          page'',
          simp (there, enough, slid_written page p k cursor page' inside there i) run,
          done,
        )
  ]

  -- The old record region is zeroed first.
  unfoldable pub zeroed : Page
  zeroed = set_bytes (free_end page) (zeros (page.page_size - free_end page)) page

  region_size : free_end page + length (zeros (page.page_size - free_end page)) ≡ page.page_size
  region_size = omega (arith, length-zeros (page.page_size - free_end page), p.high)

  zeroed_below : (o : ℕ) → o + 2 ≤ free_start page → u16 o zeroed.buf ≡ u16 o page.buf
  unfolding zeroed
  zeroed_below o h = ap le_value (
      slice-splice_apart o 2 (free_end page) (zeros (page.page_size - free_end page)) page.buf
        (ground (arith, p.low)) (omega (arith, region_size, p.size)))

  pub zeroed-IsSlid : IsSlid page p 0 page.page_size zeroed
  unfolding zeroed
  zeroed-IsSlid = record {
    length_same =
        length-splice (free_end page) (zeros (page.page_size - free_end page)) page.buf
          (omega (arith, region_size, p.size));
    size_same = refl;
    count_same = zeroed_below 14 (omega (arith, p.start));
    start_same = zeroed_below 16 (omega (arith, p.start));
    room = omega arith;
    later = λ t h l. (
      zeroed_below (slot_offset t) (omega (arith, p.start, l)),
      zeroed_below (slot_offset t + 2) (omega (arith, p.start, l)),
    );
    gone = λ t h. absurd (omega (arith, h));
    moved = λ t h. absurd (omega (arith, h));
    separate = λ t u h. absurd (omega (arith, h));
  }

  module _ (cursor : ℕ) (page' : Page) (i : IsSlid page p (count page) cursor page') where
    unfoldable pub closed : Page
    closed = record page' { buf = splice 18 (le_bytes 2 cursor) page'.buf }

    pub cursor_bounds : (free_end page ≤ cursor) × (cursor ≤ page.page_size)
    cursor_bounds = omega (arith, i.room, live_total page p, p.high)

    closed_in : 18 + length (le_bytes 2 cursor) ≤ length page'.buf
    closed_in = omega (arith, length-le_bytes 2 cursor, i.length_same, p.size, p.least)

    closed_slice : (o n : ℕ) → (o + n ≤ 18) ⊎ (20 ≤ o) → slice o n closed.buf ≡ slice o n page'.buf
    unfolding closed
    closed_slice o n h =
        slice-splice_apart o n 18 (le_bytes 2 cursor) page'.buf
          (elim h [
            | inl below ↦ ground (arith, length-le_bytes 2 cursor, below)
            | inr above ↦ ground (arith, length-le_bytes 2 cursor, above)
          ])
          closed_in

    pub closed-count : count closed ≡ count page
    closed-count = ap le_value (closed_slice 14 2 (inl (omega arith))) ∙ i.count_same

    pub closed-start : free_start closed ≡ free_start page
    closed-start = ap le_value (closed_slice 16 2 (inl (omega arith))) ∙ i.start_same

    pub closed-end : free_end closed ≡ cursor
    unfolding closed
    closed-end =
        ap le_value (
          slice-splice_same 18 2 (le_bytes 2 cursor) page'.buf (sym (length-le_bytes 2 cursor))
            (omega (arith, closed_in)))
        ∙ le_value-le_bytes 2 cursor (omega (arith, cursor_bounds, p.most))

    closed_slot :
        (t : ℕ) → (offset_at t closed ≡ offset_at t page') × (size_at t closed ≡ size_at t page')
    closed_slot t = (
      ap le_value (closed_slice (slot_offset t) 2 (inr (omega arith))),
      ap le_value (closed_slice (slot_offset t + 2) 2 (inr (omega arith))),
    )

    -- A slot is live after the moves exactly if it was before.
    was_live : (t : ℕ) → t < count page → offset_at t closed ≢ 0 → offset_at t page ≢ 0
    was_live t h k z = k ((closed_slot t).0 ∙ (i.gone t h z).0)

    pub closed-IsPage : IsPage closed
    unfolding closed
    closed-IsPage = record {
      size =
          length-splice 18 (le_bytes 2 cursor) page'.buf closed_in
          ∙ (omega (arith, i.length_same, i.size_same, p.size));
      least = omega (arith, i.size_same, p.least);
      most = omega (arith, i.size_same, p.most);
      start = omega (arith, closed-start, closed-count, p.start);
      low = omega (arith, closed-start, closed-end, cursor_bounds, p.low);
      high = omega (arith, closed-end, cursor_bounds, i.size_same);
      live = λ t h k.
          let b : t < count page = omega (arith, h, closed-count) in
          omega (arith, closed_slot t, closed-end, i.size_same, i.moved t b (was_live t b k));
      dead = λ t h k.
          let b : t < count page = omega (arith, h, closed-count) in
          elim (Bool-cases (offset_at t page == 0)) [
            | inl gone ↦ (closed_slot t).1 ∙ (i.gone t b (ground (arith, gone))).1
            | inr there ↦ absurd (
                omega (
                  arith,
                  k,
                  closed_slot t,
                  cursor_bounds,
                  p.low,
                  p.start,
                  i.moved t b (ground (arith, there)),
                ))
          ];
      distinct = λ t u h h' ne k k'.
          let b : t < count page = omega (arith, h, closed-count) in
          let b' : u < count page = omega (arith, h', closed-count) in
          let o = closed_slot t in
          let o' = closed_slot u in
          simp (o.0, o.1, o'.0, o'.1) (i.separate t u b b' ne (was_live t b k) (was_live u b' k'));
    }

    pub closed-content : (t : ℕ) → content t closed ≡ content t page
    closed-content t = elim (Bool-cases (ltb t (count page))) [
      | inr out ↦
          let out' : ltb t (count closed) ≡ false = ground (arith, out, closed-count) in
          simp (out, out') refl
      | inl inside ↦
          let b : t < count page = ground (arith, inside) in
          let inside' : ltb t (count closed) ≡ true = ground (arith, inside, closed-count) in
          elim (Bool-cases (offset_at t page == 0)) [
            | inl gone ↦
                let gone' : (offset_at t closed == 0) ≡ true =
                  ground (arith, closed_slot t, i.gone t b (ground (arith, gone))) in
                simp (inside, inside', gone, gone') refl
            | inr there ↦
                let m = i.moved t b (ground (arith, there)) in
                let o = closed_slot t in
                let there' : (offset_at t closed == 0) ≡ false =
                  ground (arith, o, m.0, cursor_bounds, p.low, p.start) in
                simp (inside, inside', there, there')
                  (ap (λ z. some (slice z (size_at t closed) closed.buf)) o.0
                    ∙ ap (λ z. some (slice (offset_at t page') z closed.buf)) o.1
                    ∙ ap some (
                        closed_slice (offset_at t page') (size_at t page')
                          (inr (omega (arith, m.0, cursor_bounds, p.low, p.start, b))))
                    ∙ ap some m.3)
          ]
    ]

    pub closed-last_live : (n : ℕ) → n ≤ count page → last_live n closed ≡ last_live n page
    closed-last_live zero h = refl
    closed-last_live (suc n) h = elim (Bool-cases (offset_at n page == 0)) [
      | inl gone ↦
          let gone' : (offset_at n closed == 0) ≡ true =
            ground (arith, closed_slot n, i.gone n h (ground (arith, gone))) in
          simp (gone, gone') (closed-last_live n (omega (arith, h)))
      | inr there ↦
          let there' : (offset_at n closed == 0) ≡ false = ground (
            arith,
            closed_slot n,
            i.moved n h (ground (arith, there)),
            cursor_bounds,
            p.low,
            p.start,
          ) in
          simp (there, there') refl
    ]

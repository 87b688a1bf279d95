-- ===== src/Storage/Page/Compact/Whole.antt =====
-- Compaction as a whole: no slot reads differently, and the free region grows by what can be reclaimed.
use chen_db.Prelude.{
  ℕ, zero, suc, ◌+◌, ◌-◌, ◌*◌, ◌≤◌, ◌≡◌, refl, ap, ◌∙◌, Bool, true, false, arith, ◌==◌,
  if◌then◌else◌, Bool-cases, inl, inr,
}
use chen_db.Prelude.Result.{ok}
use chen_db.Storage.Page.{Page}
use chen_db.Storage.Page.Slot.{set_u16}
use chen_db.Storage.Page.Sound.{
  IsPage, count, free_start, free_end, offset_at, size_at, content, get_count, get_free_start,
  get_free_end, get_slot,
}
use chen_db.Storage.Page.Compact.{compact, reclaimable_from, reclaimable_space}
use chen_db.Storage.Page.Compact.Total.{sum_below}
use chen_db.Storage.Page.Compact.Slide.{live_size, live_from_lem}
use chen_db.Storage.Page.Compact.Trim.{last_live, last_live-le, trim_lem}
use chen_db.Storage.Page.Compact.Close.{
  slide_lem, zeroed, zeroed-IsSlid, cursor_bounds, closed, closed-IsPage, closed-content,
  closed-last_live, closed-count, closed-end,
}

module _ (page : Page) (p : IsPage page) where
  -- The dead slots at the end, if they are still being counted.
  abbrev trailing : Bool → ℕ → ℕ
  trailing counting n = if counting then n - last_live n page else 0

  reclaimable_from_lem :
      (n live dead : ℕ) (counting : Bool)
      → n ≤ count page
      → reclaimable_from n live dead counting page
        ≡ ok (live + sum_below (live_size page p) n, dead + trailing counting n)
  unfolding reclaimable_from
  reclaimable_from_lem zero live dead counting h = ground arith
  reclaimable_from_lem (suc n) live dead counting h = elim (Bool-cases (offset_at n page == 0)) [
    | inl gone ↦
        simp (get_slot page p n h, gone)
          (reclaimable_from_lem n live (if counting then dead + 1 else dead) counting
              (omega (arith, h))
            ∙ ground (arith, gone, last_live-le n page))
    | inr there ↦
        simp (get_slot page p n h, there)
          (reclaimable_from_lem n (live + size_at n page) dead false (omega (arith, h))
            ∙ ground (arith, there))
  ]

  abbrev reclaimed : ℕ
  reclaimed =
      (page.page_size - free_end page - sum_below (live_size page p) (count page))
      + (count page - last_live (count page) page) * 4

  reclaimable_space_lem : reclaimable_space page ≡ ok reclaimed
  unfolding reclaimable_space
  reclaimable_space_lem =
      simp
        (
          get_count page p,
          reclaimable_from_lem (count page) 0 0 true (omega arith),
          get_free_end page p,
        )
        (ground arith)

  -- Compacting never raises on a well-formed page. It changes what no slot reads, keeps the page well
  -- formed, and returns what `reclaimable_space` promises, which is what the free region grows by.
  pub compact_lem :
      (r : ℕ) × (page' : Page) × (compact page ≡ ok (r, page'))
      × (reclaimable_space page ≡ ok r)
      × IsPage page'
      × (page'.page_size ≡ page.page_size)
      × (free_end page' - free_start page' ≡ (free_end page - free_start page) + r)
      × ((t : ℕ) → content t page' ≡ content t page)
  unfolding compact zeroed closed
  compact_lem =
      let (cursor, page', run, i) =
        slide_lem page p (count page) 0 page.page_size (zeroed page p) (omega arith)
          (zeroed-IsSlid page p) in
      let bounds = cursor_bounds page p cursor page' i in
      let pc = closed page p cursor page' i in
      let pp = closed-IsPage page p cursor page' i in
      let (out, trimmed, q, size, end_is, start_is, same) = trim_lem pc pp in
      let room = i.room in
      let last : last_live (count pc) pc ≡ last_live (count page) page =
        ap (λ n. last_live n pc) (closed-count page p cursor page' i)
        ∙ closed-last_live page p cursor page' i (count page) (omega arith) in
      let grown : free_end out - free_start out ≡ (free_end page - free_start page) + reclaimed =
        omega (
          arith,
          end_is,
          start_is,
          last,
          closed-end page p cursor page' i,
          bounds,
          room,
          p.start,
          p.low,
          p.high,
          last_live-le (count page) page,
        ) in
      let difference : (free_end out - free_start out) - (free_end page - free_start page)
          ≡ reclaimed =
        omega (arith, grown) in
      (
        reclaimed,
        out,
        simp
            (
              get_free_start page p,
              get_free_end page p,
              get_count page p,
              live_from_lem page p (count page) 0 (omega arith),
              run,
              set_u16 18 cursor page' (omega (arith, i.length_same, p.size, p.least))
                  (omega (arith, bounds, p.most)),
              trimmed,
              get_free_start out q,
              get_free_end out q,
              difference,
            )
            refl,
        reclaimable_space_lem,
        q,
        size ∙ i.size_same,
        grown,
        λ t. same t ∙ closed-content page p cursor page' i t,
      )

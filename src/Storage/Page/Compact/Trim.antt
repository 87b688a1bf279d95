-- ===== src/Storage/Page/Compact/Trim.antt =====
-- Taking the dead slots off the end of the directory.
use chen_db.Prelude.{
  ℕ, zero, suc, ◌+◌, ◌-◌, ◌*◌, ◌≤◌, ◌<◌, ◌≡◌, refl, sym, ap, subst, ◌∙◌, true, false, [], ◌∷◌,
  arith, ltb, ◌==◌, if◌then◌else◌, length, Bool-cases, inl, inr,
}
use chen_db.Prelude.Bytes.{le_bytes, le_value, length-le_bytes}
use chen_db.Prelude.Result.{ok}
use chen_db.Prelude.Slices.{slice, length-splice}
use chen_db.Storage.Page.{Page, slot_offset, set_bytes, zeros}
use chen_db.Storage.Page.Slot.{
  Writes, patch, misses, Fits, u16-hit, slice-patch_miss, length-patch, set_u16,
}
use chen_db.Storage.Page.Sound.{
  IsPage, count, free_start, free_end, offset_at, size_at, content, get_count, get_free_start,
  get_slot, both-content,
}
use chen_db.Storage.Page.Create.{length-zeros}
use chen_db.Storage.Page.Compact.{trimmed_count, trim_trailing_dead_slots}

-- One more than the last live slot below `n`, and 0 if there is none.
abbrev pub last_live : ℕ → Page → ℕ
last_live zero page = 0
last_live (suc n) page = if offset_at n page == 0 then last_live n page else suc n

pub last_live-le : (n : ℕ) (page : Page) → last_live n page ≤ n
last_live-le zero page = omega arith
last_live-le (suc n) page = ground (arith, last_live-le n page)

beyond : (n : ℕ) (page : Page) (t : ℕ) → last_live n page ≤ t → t < n → offset_at t page ≡ 0
beyond zero page t h k = absurd (omega arith)
beyond (suc n) page t h k = elim (Bool-cases (offset_at n page == 0)) [
  | inr there ↦ absurd (ground (arith, there, h, k))
  | inl gone ↦
      let h' : last_live n page ≤ t = ground (arith, gone, h) in
      elim (Bool-cases (t == n)) [
        | inl e ↦
            let same : n ≡ t = ground (arith, e) in
            subst (λ z. offset_at z page ≡ 0) same (ground (arith, gone))
        | inr ne ↦ beyond n page t h' (ground (arith, ne, k))
      ]
]

module _ (page : Page) (p : IsPage page) where
  trimmed_count_lem : (n : ℕ) → n ≤ count page → trimmed_count n page ≡ ok (last_live n page)
  unfolding trimmed_count
  trimmed_count_lem zero h = refl
  trimmed_count_lem (suc n) h = elim (Bool-cases (offset_at n page == 0)) [
    | inl gone ↦ simp (get_slot page p n h, gone) (trimmed_count_lem n (omega (arith, h)))
    | inr there ↦ simp (get_slot page p n h, there) refl
  ]

  abbrev kept : ℕ
  kept = last_live (count page) page

  abbrev new_start : ℕ
  new_start = 24 + kept * 4

  kept-le : kept ≤ count page
  kept-le = last_live-le (count page) page

  trim_writes : Writes
  trim_writes =
      (new_start, zeros (free_start page - new_start))
      ∷ (14, le_bytes 2 kept)
      ∷ (16, le_bytes 2 new_start)
      ∷ []

  trimmed : Page
  trimmed = record page { buf = patch trim_writes page.buf }

  tail_size : length (zeros (free_start page - new_start)) ≡ free_start page - new_start
  tail_size = length-zeros (free_start page - new_start)

  trim-Fits : Fits (length page.buf) trim_writes
  unfolding trim_writes le_bytes
  trim-Fits = omega (arith, tail_size, p.size, p.start, p.low, p.high, p.least, kept-le)

  trim_miss : (o n : ℕ) → misses o n trim_writes ≡ true → slice o n trimmed.buf ≡ slice o n page.buf
  unfolding trimmed
  trim_miss o n m = slice-patch_miss o n trim_writes page.buf trim-Fits m

  trimmed-count : count trimmed ≡ kept
  unfolding trimmed trim_writes le_bytes
  trimmed-count =
      u16-hit ((new_start, zeros (free_start page - new_start)) ∷ []) 14 kept
        ((16, le_bytes 2 new_start) ∷ []) page.buf
        (omega (arith, kept-le, p.start, p.low, p.high, p.most)) trim-Fits refl

  trimmed-start : free_start trimmed ≡ new_start
  unfolding trimmed trim_writes le_bytes
  trimmed-start =
      u16-hit ((new_start, zeros (free_start page - new_start)) ∷ (14, le_bytes 2 kept) ∷ []) 16
        new_start [] page.buf (omega (arith, kept-le, p.start, p.low, p.high, p.most)) trim-Fits
        refl

  trimmed-end : free_end trimmed ≡ free_end page
  unfolding trim_writes le_bytes
  trimmed-end = ap le_value (trim_miss 18 2 (ground (arith, tail_size)))

  trimmed_slot :
      (t : ℕ)
      → t < kept
      → (offset_at t trimmed ≡ offset_at t page) × (size_at t trimmed ≡ size_at t page)
  unfolding trim_writes le_bytes
  trimmed_slot t h = (
    ap le_value (trim_miss (slot_offset t) 2 (ground (arith, tail_size))),
    ap le_value (trim_miss (slot_offset t + 2) 2 (ground (arith, tail_size))),
  )

  trimmed_bytes : (o n : ℕ) → free_end page ≤ o → slice o n trimmed.buf ≡ slice o n page.buf
  unfolding trim_writes le_bytes
  trimmed_bytes o n h = trim_miss o n (ground (arith, tail_size, p.start, p.low, kept-le))

  trimmed-IsPage : IsPage trimmed
  unfolding trimmed
  trimmed-IsPage = record {
    size = length-patch trim_writes page.buf trim-Fits ∙ p.size;
    least = p.least;
    most = p.most;
    start = omega (arith, trimmed-start, trimmed-count);
    low = omega (arith, trimmed-start, trimmed-end, kept-le, p.start, p.low);
    high = omega (arith, trimmed-end, p.high);
    live = λ t h k.
        let b : t < kept = omega (arith, h, trimmed-count) in
        let o = trimmed_slot t b in
        omega (arith, o, trimmed-end, p.live t (omega (arith, b, kept-le)) (λ z. k (o.0 ∙ z)));
    dead = λ t h k.
        let b : t < kept = omega (arith, h, trimmed-count) in
        let o = trimmed_slot t b in o.1 ∙ p.dead t (omega (arith, b, kept-le)) (sym o.0 ∙ k);
    distinct = λ t u h h' ne k k'.
        let b : t < kept = omega (arith, h, trimmed-count) in
        let b' : u < kept = omega (arith, h', trimmed-count) in
        let o = trimmed_slot t b in
        let o' = trimmed_slot u b' in
        simp (o.0, o.1, o'.0, o'.1)
          (p.distinct t u (omega (arith, b, kept-le)) (omega (arith, b', kept-le)) ne
            (λ z. k (o.0 ∙ z)) (λ z. k' (o'.0 ∙ z)));
  }

  trimmed-content : (t : ℕ) → content t trimmed ≡ content t page
  trimmed-content t = elim (Bool-cases (ltb t kept)) [
    | inl inside ↦
        let b : t < kept = ground (arith, inside) in
        let o = trimmed_slot t b in
        let in_page : ltb t (count page) ≡ true = ground (arith, b, kept-le) in
        let in_trimmed : ltb t (count trimmed) ≡ true = ground (arith, b, trimmed-count) in
        both-content t t page trimmed in_page in_trimmed o.0 o.1 (λ k.
          trimmed_bytes (offset_at t page) (size_at t page)
            (p.live t (omega (arith, b, kept-le)) k).0)
    | inr out ↦
        let out_trimmed : ltb t (count trimmed) ≡ false = ground (arith, out, trimmed-count) in
        elim (Bool-cases (ltb t (count page))) [
          | inr out_page ↦ simp (out_trimmed, out_page) refl
          | inl in_page ↦
              let gone : (offset_at t page == 0) ≡ true = ground (
                arith,
                beyond (count page) page t (ground (arith, out)) (ground (arith, in_page)),
              ) in
              simp (out_trimmed, in_page, gone) refl
        ]
  ]

  trimmed_written : (kept == count page) ≡ false → trim_trailing_dead_slots page ≡ ok trimmed
  unfolding trim_trailing_dead_slots trimmed trim_writes
  trimmed_written shorter =
      let first = set_bytes new_start (zeros (free_start page - new_start)) page in
      let size : length first.buf ≡ length page.buf =
        length-splice new_start (zeros (free_start page - new_start)) page.buf trim-Fits.0 in
      let second = set_bytes 14 (le_bytes 2 kept) first in
      let size2 : length second.buf ≡ length first.buf =
        length-splice 14 (le_bytes 2 kept) first.buf
          (omega (arith, size, length-le_bytes 2 kept, p.size, p.least)) in
      simp
        (
          get_count page p,
          trimmed_count_lem (count page) (omega arith),
          shorter,
          get_free_start page p,
          set_u16 14 kept first (omega (arith, size, p.size, p.least))
              (omega (arith, kept-le, p.start, p.low, p.high, p.most)),
          set_u16 16 new_start second (omega (arith, size, size2, p.size, p.least))
              (omega (arith, kept-le, p.start, p.low, p.high, p.most)),
        )
        refl

  -- The trimmed page, whether or not it had to be written.
  pub trim_lem :
      (page' : Page) × (trim_trailing_dead_slots page ≡ ok page')
      × IsPage page'
      × (page'.page_size ≡ page.page_size)
      × (free_end page' ≡ free_end page)
      × (free_start page' ≡ 24 + last_live (count page) page * 4)
      × ((t : ℕ) → content t page' ≡ content t page)
  unfolding trim_trailing_dead_slots trimmed
  trim_lem = elim (Bool-cases (kept == count page)) [
    | inl whole ↦
        let same : kept ≡ count page = ground (arith, whole) in
        (
          page,
          simp (get_count page p, trimmed_count_lem (count page) (omega arith), whole) refl,
          p,
          refl,
          refl,
          p.start ∙ (omega (arith, same)),
          λ t. refl,
        )
    | inr shorter ↦ (
      trimmed,
      trimmed_written shorter,
      trimmed-IsPage,
      refl,
      trimmed-end,
      trimmed-start,
      trimmed-content,
    )
  ]

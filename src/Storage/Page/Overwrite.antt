-- ===== src/Storage/Page/Overwrite.antt =====
-- Overwriting a record in place.
use chen_db.Prelude.{
  ℕ, ◌+◌, ◌≤◌, ◌<◌, ◌≡◌, ◌≢◌, ◌⊎◌, refl, sym, ap, subst, ◌∙◌, true, false, none, some, [], arith,
  ltb, ◌==◌, if◌then◌else◌, length, Bool-cases, inl, inr,
}
use chen_db.Prelude.Bytes.{Bytes, le_value}
use chen_db.Prelude.Result.{ok, err}
use chen_db.Prelude.Slices.{
  slice, apart, length-splice, length-slice, slice-splice_same, slice-splice_apart,
}
use chen_db.Storage.Page.{Page, PageError, slot_offset, overwrite, set_bytes}
use chen_db.Storage.Page.Slot.{u16}
use chen_db.Storage.Page.Sound.{
  IsPage, count, free_start, free_end, offset_at, size_at, content, get_count, get_slot,
  same-content,
}

module _ (page : Page) (p : IsPage page) (s : ℕ) (payload : Bytes) (inside : s < count page)
    (there : offset_at s page ≢ 0) (same_size : length payload ≡ size_at s page) where
  written : Page
  written = set_bytes (offset_at s page) payload page

  in_bounds : offset_at s page + length payload ≤ length page.buf
  in_bounds = omega (arith, p.live s inside there, same_size, p.size)

  written_below : (o : ℕ) → o + 2 ≤ free_start page → u16 o written.buf ≡ u16 o page.buf
  unfolding written
  written_below o h =
      let bound = p.live s inside there in
      ap le_value (
        slice-splice_apart o 2 (offset_at s page) payload page.buf (ground (arith, bound, p.low))
          in_bounds)

  written-count : count written ≡ count page
  written-count = written_below 14 (omega (arith, p.start))

  written-start : free_start written ≡ free_start page
  written-start = written_below 16 (omega (arith, p.start))

  written-end : free_end written ≡ free_end page
  written-end = written_below 18 (omega (arith, p.start))

  written_slot :
      (t : ℕ)
      → t < count page
      → (offset_at t written ≡ offset_at t page) × (size_at t written ≡ size_at t page)
  written_slot t h = (
    written_below (slot_offset t) (omega (arith, p.start, h)),
    written_below (slot_offset t + 2) (omega (arith, p.start, h)),
  )

  written-IsPage : IsPage written
  unfolding written
  written-IsPage = record {
    size = length-splice (offset_at s page) payload page.buf in_bounds ∙ p.size;
    least = p.least;
    most = p.most;
    start = omega (arith, written-start, written-count, p.start);
    low = omega (arith, written-start, written-end, p.low);
    high = omega (arith, written-end, p.high);
    live = λ t h k.
        let i : t < count page = omega (arith, h, written-count) in
        let o = written_slot t i in omega (arith, o, written-end, p.live t i (λ z. k (o.0 ∙ z)));
    dead = λ t h k.
        let i : t < count page = omega (arith, h, written-count) in
        let o = written_slot t i in o.1 ∙ p.dead t i (sym o.0 ∙ k);
    distinct = λ t u ht hu ne kt ku.
        let i : t < count page = omega (arith, ht, written-count) in
        let j : u < count page = omega (arith, hu, written-count) in
        let o = written_slot t i in
        let o' = written_slot u j in
        simp (o.0, o.1, o'.0, o'.1)
          (p.distinct t u i j ne (λ z. kt (o.0 ∙ z)) (λ z. ku (o'.0 ∙ z)));
  }

  written_here : slice (offset_at s page) (size_at s page) written.buf ≡ payload
  unfolding written
  written_here =
      slice-splice_same (offset_at s page) (size_at s page) payload page.buf (sym same_size)
        (omega (arith, in_bounds))

  written_other :
      (t : ℕ)
      → t < count page
      → t ≢ s
      → offset_at t page ≢ 0
      → slice (offset_at t page) (size_at t page) written.buf
        ≡ slice (offset_at t page) (size_at t page) page.buf
  unfolding written
  written_other t h ne k =
      slice-splice_apart (offset_at t page) (size_at t page) (offset_at s page) payload page.buf
        (subst (λ n. apart (offset_at t page) (size_at t page) (offset_at s page) n ≡ true)
          (sym same_size) (p.distinct t s h inside ne k there))
        in_bounds

  written-content : (t : ℕ) → content t written ≡ (if t == s then some payload else content t page)
  written-content t = elim (Bool-cases (t == s)) [
    | inl same ↦
        let e : s ≡ t = ground (arith, same) in
        let o = written_slot s inside in
        let in_dir : ltb s (count written) ≡ true = ground (arith, written-count) in
        let live : (offset_at s written == 0) ≡ false = ground (arith, o.0) in
        let here : content s written ≡ some payload =
          simp (in_dir, live)
            (ap (λ z. some (slice z (size_at s written) written.buf)) o.0
              ∙ ap (λ z. some (slice (offset_at s page) z written.buf)) o.1
              ∙ ap some written_here) in
        simp same (subst (λ z. content z written ≡ some payload) e here)
    | inr other ↦ elim (Bool-cases (ltb t (count page))) [
      | inl i ↦
          let o = written_slot t (ground (arith, i)) in
          simp other (
            same-content t page written written-count o.0 o.1
              (λ h k. written_other t h (ground (arith, other)) k))
      | inr out ↦
          let out' : ltb t (count written) ≡ false = ground (arith, out, written-count) in
          simp (other, out, out') refl
    ]
  ]

nothing :
    (page : Page) (s : ℕ)
    → s < count page
    → (size_at s page == 0) ≡ true
    → (content s page ≡ none) ⊎ (content s page ≡ some [])
unfolding slice
nothing page s inside none_there =
    let in_dir : ltb s (count page) ≡ true = ground arith in
    let is_zero : size_at s page ≡ 0 = ground (arith, none_there) in
    elim (Bool-cases (offset_at s page == 0)) [
      | inl gone ↦ inl (simp (in_dir, gone) refl)
      | inr there ↦
          inr (simp (in_dir, there) (ap (λ n. some (slice (offset_at s page) n page.buf)) is_zero))
    ]

-- Overwriting replaces a record that is not empty by one of the same length and changes what no other
-- slot reads; another length raises; an empty or missing record is left alone.
pub overwrite_lem :
    (page : Page) (s : ℕ) (payload : Bytes)
    → IsPage page
    → (((content s page ≡ none) ⊎ (content s page ≡ some []))
        × (overwrite s payload page ≡ ok (false, page)))
      ⊎ ((old : Bytes) × (content s page ≡ some old)
          × (0 < length old)
          × (((length payload ≢ length old)
                × (overwrite s payload page ≡ err PageError.value_error))
              ⊎ ((page' : Page) × (length payload ≡ length old)
                  × (overwrite s payload page ≡ ok (true, page'))
                  × IsPage page'
                  × ((t : ℕ)
                      → content t page' ≡ (if t == s then some payload else content t page)))))
unfolding overwrite written
overwrite_lem page s payload p = elim (Bool-cases (ltb s (count page))) [
  | inr out ↦ inl (inl (simp out refl), simp (get_count page p, out) refl)
  | inl in_dir ↦
      let inside : s < count page = ground (arith, in_dir) in
      let slot = get_slot page p s inside in
      elim (Bool-cases (size_at s page == 0)) [
        | inl none_there ↦ inl (
          nothing page s inside none_there,
          simp (get_count page p, in_dir, slot, none_there) refl,
        )
        | inr some_there ↦
            let there : offset_at s page ≢ 0 =
              λ z. absurd (ground (arith, some_there, p.dead s inside z)) in
            let there' : (offset_at s page == 0) ≡ false = ground (arith, there) in
            let old = slice (offset_at s page) (size_at s page) page.buf in
            let old_size : length old ≡ size_at s page =
              length-slice (offset_at s page) (size_at s page) page.buf
                (omega (arith, p.live s inside there, p.size)) in
            inr (
              old,
              simp (in_dir, there') refl,
              ground (arith, old_size, some_there),
              elim (Bool-cases (length payload == size_at s page)) [
                | inr wrong ↦ inl (
                  ground (arith, wrong, old_size),
                  simp (get_count page p, in_dir, slot, some_there, wrong) refl,
                )
                | inl right ↦
                    let fits : length payload ≡ size_at s page = ground (arith, right) in
                    inr (
                      written page p s payload inside there fits,
                      fits ∙ sym old_size,
                      simp (get_count page p, in_dir, slot, some_there, right) refl,
                      written-IsPage page p s payload inside there fits,
                      written-content page p s payload inside there fits,
                    )
              ],
            )
      ]
]

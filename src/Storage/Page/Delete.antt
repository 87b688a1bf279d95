-- ===== src/Storage/Page/Delete.antt =====
-- Deleting a record: its slot becomes a tombstone.
use chen_db.Prelude.{
  ℕ, ◌+◌, ◌≤◌, ◌<◌, ◌≡◌, ◌⊎◌, refl, sym, ap, subst, ◌∙◌, true, false, none, some, [], ◌∷◌, arith,
  ltb, ◌==◌, if◌then◌else◌, if_same, length, Bool-cases, inl, inr,
}
use chen_db.Prelude.Bytes.{Bytes, le_bytes, le_value}
use chen_db.Prelude.Result.{ok}
use chen_db.Prelude.Slices.{slice}
use chen_db.Storage.Page.{Page, write_slot, slot_offset, delete}
use chen_db.Storage.Page.Slot.{
  Writes, patch, misses, Fits, u16-hit, slice-patch_miss, length-patch, write_slot_lem,
}
use chen_db.Storage.Page.Sound.{
  IsPage, count, free_start, free_end, offset_at, size_at, content, get_count, get_slot,
  same-content,
}

module _ (page : Page) (p : IsPage page) (s : ℕ) (inside : s < count page) where
  tombstone_writes : Writes
  tombstone_writes = (slot_offset s, le_bytes 2 0) ∷ (slot_offset s + 2, le_bytes 2 0) ∷ []

  tombstone : Page
  tombstone = record page { buf = patch tombstone_writes page.buf }

  tombstone-Fits : Fits (length page.buf) tombstone_writes
  unfolding tombstone_writes le_bytes
  tombstone-Fits = omega (arith, p.size, p.start, p.low, p.high)

  tombstone_miss :
      (o n : ℕ) → misses o n tombstone_writes ≡ true → slice o n tombstone.buf ≡ slice o n page.buf
  unfolding tombstone
  tombstone_miss o n m = slice-patch_miss o n tombstone_writes page.buf tombstone-Fits m

  tombstone-count : count tombstone ≡ count page
  unfolding tombstone tombstone_writes le_bytes
  tombstone-count = ap le_value (tombstone_miss 14 2 (ground arith))

  tombstone-start : free_start tombstone ≡ free_start page
  unfolding tombstone tombstone_writes le_bytes
  tombstone-start = ap le_value (tombstone_miss 16 2 (ground arith))

  tombstone-end : free_end tombstone ≡ free_end page
  unfolding tombstone tombstone_writes le_bytes
  tombstone-end = ap le_value (tombstone_miss 18 2 (ground arith))

  tombstone_here : (offset_at s tombstone ≡ 0) × (size_at s tombstone ≡ 0)
  unfolding tombstone tombstone_writes le_bytes
  tombstone_here =
      let w1 : ℕ × Bytes = (slot_offset s, le_bytes 2 0) in
      let w2 : ℕ × Bytes = (slot_offset s + 2, le_bytes 2 0) in
      (
        u16-hit [] (slot_offset s) 0 (w2 ∷ []) page.buf (omega arith) tombstone-Fits (ground arith),
        u16-hit (w1 ∷ []) (slot_offset s + 2) 0 [] page.buf (omega arith) tombstone-Fits refl,
      )

  tombstone_other :
      (t : ℕ)
      → (t == s) ≡ false
      → (offset_at t tombstone ≡ offset_at t page) × (size_at t tombstone ≡ size_at t page)
  unfolding tombstone tombstone_writes le_bytes
  tombstone_other t h = (
    ap le_value (tombstone_miss (slot_offset t) 2 (ground (arith, h))),
    ap le_value (tombstone_miss (slot_offset t + 2) 2 (ground (arith, h))),
  )

  tombstone_bytes : (o n : ℕ) → free_end page ≤ o → slice o n tombstone.buf ≡ slice o n page.buf
  unfolding tombstone tombstone_writes le_bytes
  tombstone_bytes o n h = tombstone_miss o n (ground arith)

  tombstone_at : (t : ℕ) → (t == s) ≡ true → (offset_at t tombstone ≡ 0) × (size_at t tombstone ≡ 0)
  tombstone_at t same =
      let e : s ≡ t = ground (arith, same) in
      subst (λ z. (offset_at z tombstone ≡ 0) × (size_at z tombstone ≡ 0)) e tombstone_here

  tombstone-IsPage : IsPage tombstone
  unfolding tombstone
  tombstone-IsPage = record {
    size = length-patch tombstone_writes page.buf tombstone-Fits ∙ p.size;
    least = p.least;
    most = p.most;
    start = omega (arith, tombstone-start, tombstone-count, p.start);
    low = omega (arith, tombstone-start, tombstone-end, p.low);
    high = omega (arith, tombstone-end, p.high);
    live = λ t h k. elim (Bool-cases (t == s)) [
      | inl same ↦ absurd (k (tombstone_at t same).0)
      | inr other ↦
          let o = tombstone_other t other in
          omega (
            arith,
            o,
            tombstone-end,
            p.live t (omega (arith, h, tombstone-count)) (λ z. k (o.0 ∙ z)),
          )
    ];
    dead = λ t h k. elim (Bool-cases (t == s)) [
      | inl same ↦ (tombstone_at t same).1
      | inr other ↦
          let o = tombstone_other t other in
          o.1 ∙ p.dead t (omega (arith, h, tombstone-count)) (sym o.0 ∙ k)
    ];
    distinct = λ t u ht hu ne kt ku. elim (Bool-cases (t == s)) [
      | inl same ↦ absurd (kt (tombstone_at t same).0)
      | inr other ↦ elim (Bool-cases (u == s)) [
        | inl same ↦ absurd (ku (tombstone_at u same).0)
        | inr other' ↦
            let o = tombstone_other t other in
            let o' = tombstone_other u other' in
            simp (o.0, o.1, o'.0, o'.1)
              (p.distinct t u (omega (arith, ht, tombstone-count))
                (omega (arith, hu, tombstone-count)) ne (λ z. kt (o.0 ∙ z)) (λ z. ku (o'.0 ∙ z)))
      ]
    ];
  }

  tombstone-content : (t : ℕ) → content t tombstone ≡ (if t == s then none else content t page)
  tombstone-content t = elim (Bool-cases (t == s)) [
    | inl same ↦
        let gone : (offset_at t tombstone == 0) ≡ true = ground (arith, tombstone_at t same) in
        simp (gone, same) (if_same (ltb t (count tombstone)) none none refl)
    | inr other ↦
        let o = tombstone_other t other in
        simp other (
          same-content t page tombstone tombstone-count o.0 o.1
            (λ h k. tombstone_bytes (offset_at t page) (size_at t page) (p.live t h k).0))
  ]

  tombstone_written : write_slot s 0 0 page ≡ ok tombstone
  unfolding tombstone tombstone_writes
  tombstone_written =
      write_slot_lem s 0 0 page (omega (arith, p.size, p.start, p.low, p.high)) (omega arith)
        (omega arith)

-- Deleting a live record makes its slot read as nothing, changes what no other slot reads, and keeps
-- the page well formed; deleting what is not there says so and leaves the page as it was.
pub delete_lem :
    (page : Page) (s : ℕ)
    → IsPage page
    → ((content s page ≡ none) × (delete s page ≡ ok (false, page)))
      ⊎ ((old : Bytes) × (page' : Page) × (content s page ≡ some old)
          × (delete s page ≡ ok (true, page'))
          × IsPage page'
          × ((t : ℕ) → content t page' ≡ (if t == s then none else content t page)))
unfolding delete
delete_lem page s p = elim (Bool-cases (ltb s (count page))) [
  | inr out ↦ inl (simp out refl, simp (get_count page p, out) refl)
  | inl in_dir ↦
      let inside : s < count page = ground (arith, in_dir) in
      let slot = get_slot page p s inside in
      elim (Bool-cases (offset_at s page == 0)) [
        | inl gone ↦
            inl (simp (in_dir, gone) refl, simp (get_count page p, in_dir, slot, gone) refl)
        | inr there ↦ inr (
          slice (offset_at s page) (size_at s page) page.buf,
          tombstone page p s inside,
          simp (in_dir, there) refl,
          simp (get_count page p, in_dir, slot, there, tombstone_written page p s inside) refl,
          tombstone-IsPage page p s inside,
          tombstone-content page p s inside,
        )
      ]
]

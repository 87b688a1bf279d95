-- ===== src/Storage/Page/Ordered/Renumber.antt =====
-- A page whose slots are those of another one under other numbers, and perhaps a new one.
use chen_db.Prelude.{
  ℕ, ◌+◌, ◌*◌, ◌≤◌, ◌<◌, ◌≡◌, ◌≢◌, ◌⊎◌, refl, sym, ap, ◌∙◌, true, false, Option, none, some, arith,
  ltb, ◌==◌, length, inl, inr,
}
use chen_db.Prelude.Bytes.{Bytes}
use chen_db.Prelude.Slices.{slice, apart}
use chen_db.Storage.Page.{Page}
use chen_db.Storage.Page.Sound.{
  IsPage, count, free_start, free_end, offset_at, size_at, content, both-content,
}

module _ (page page' : Page) (p : IsPage page) (payload : Bytes) (kind : ℕ → Option ℕ) where
  -- A slot of the new page is the new record, `none`, or a slot of the old page.
  abbrev pub Entry : ℕ → Type 0
  Entry t =
      ((kind t ≡ none) × (offset_at t page' ≡ free_end page') × (size_at t page' ≡ length payload))
      ⊎ ((s : ℕ) × ((kind t ≡ some s)
            × (s < count page)
            × (offset_at t page' ≡ offset_at s page)
            × (size_at t page' ≡ size_at s page)))

  pub record IsRenumbered : Type 0 where
    pub length_same : length page'.buf ≡ length page.buf
    pub size_same : page'.page_size ≡ page.page_size
    pub start_is : free_start page' ≡ 24 + count page' * 4
    pub low_is : free_start page' ≤ free_end page'
    pub end_is : free_end page' + length payload ≡ free_end page
    pub entry : (t : ℕ) → t < count page' → Entry t
    pub injective : (t u : ℕ) → t < count page' → u < count page' → t ≢ u → kind t ≢ kind u
    pub bytes_same : (o n : ℕ) → free_end page ≤ o → slice o n page'.buf ≡ slice o n page.buf
    pub payload_is : slice (free_end page') (length payload) page'.buf ≡ payload

  module _ (r : IsRenumbered) where
    abbrev IsSeparate : ℕ → ℕ → Type 0
    IsSeparate t u =
        apart (offset_at t page') (size_at t page') (offset_at u page') (size_at u page') ≡ true

    entries-IsSeparate :
        (t u : ℕ)
        → kind t ≢ kind u
        → offset_at t page' ≢ 0
        → offset_at u page' ≢ 0
        → Entry t
        → Entry u
        → IsSeparate t u
    entries-IsSeparate t u ne k k' (inl a) (inl b) = absurd (ne (a.0 ∙ sym b.0))
    entries-IsSeparate t u ne k k' (inl a) (inr (s, b)) =
        ground (arith, a, b, r.end_is, p.live s b.1 (λ z. k' (b.2 ∙ z)))
    entries-IsSeparate t u ne k k' (inr (s, a)) (inl b) =
        ground (arith, a, b, r.end_is, p.live s a.1 (λ z. k (a.2 ∙ z)))
    entries-IsSeparate t u ne k k' (inr (s, a)) (inr (s', b)) =
        let other : s ≢ s' = λ e. ne (a.0 ∙ ap some e ∙ sym b.0) in
        simp (a.2, a.3, b.2, b.3)
          (p.distinct s s' a.1 b.1 other (λ z. k (a.2 ∙ z)) (λ z. k' (b.2 ∙ z)))

    pub renumbered-IsPage : IsPage page'
    renumbered-IsPage = record {
      size = omega (arith, r.length_same, r.size_same, p.size);
      least = omega (arith, r.size_same, p.least);
      most = omega (arith, r.size_same, p.most);
      start = r.start_is;
      low = r.low_is;
      high = omega (arith, r.end_is, r.size_same, p.high);
      live = λ t h k. elim (r.entry t h) [
        | inl a ↦ omega (arith, a, r.end_is, r.size_same, p.high)
        | inr (s, a) ↦ omega (arith, a, r.end_is, r.size_same, p.live s a.1 (λ z. k (a.2 ∙ z)))
      ];
      dead = λ t h k. elim (r.entry t h) [
        | inl a ↦ absurd (omega (arith, a, k, r.low_is, r.start_is))
        | inr (s, a) ↦ a.3 ∙ p.dead s a.1 (sym a.2 ∙ k)
      ];
      distinct = λ t u h h' ne k k'.
          entries-IsSeparate t u (r.injective t u h h' ne) k k' (r.entry t h) (r.entry u h');
    }

    pub renumbered-content :
        (t : ℕ)
        → t < count page'
        → content t page' ≡ elim (kind t) [ none ↦ some payload | some s ↦ content s page ]
    renumbered-content t h =
        let inside' : ltb t (count page') ≡ true = ground (arith, h) in
        elim (r.entry t h) [
          | inl a ↦
              let there : (offset_at t page' == 0) ≡ false =
                ground (arith, a, r.low_is, r.start_is) in
              simp (a.0, inside', there)
                (ap (λ z. some (slice z (size_at t page') page'.buf)) a.1
                  ∙ ap (λ z. some (slice (free_end page') z page'.buf)) a.2
                  ∙ ap some r.payload_is)
          | inr (s, a) ↦
              let inside : ltb s (count page) ≡ true = ground (arith, a.1) in
              both-content t s page page' inside inside' a.2 a.3
                (λ k. r.bytes_same (offset_at s page) (size_at s page) (p.live s a.1 k).0)
              ∙ sym (simp a.0 refl)
        ]

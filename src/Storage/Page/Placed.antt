-- ===== src/Storage/Page/Placed.antt =====
-- A record below all the others: the page it makes, and what its slots read.
use chen_db.Prelude.{
  ℕ, ◌+◌, ◌-◌, ◌*◌, ◌≤◌, ◌<◌, ◌≡◌, ◌≢◌, refl, sym, ap, ◌∙◌, true, false, some, arith, ltb, ◌==◌,
  if◌then◌else◌, length, Bool-cases, inl, inr,
}
use chen_db.Prelude.Bytes.{Bytes}
use chen_db.Prelude.Slices.{slice}
use chen_db.Storage.Page.{Page}
use chen_db.Storage.Page.Sound.{IsPage, count, free_start, free_end, offset_at, size_at, content}

-- A record was put into slot `s` of a page, and nothing else was touched.
pub record IsPlaced (page : Page) (payload : Bytes) (s new_count : ℕ) (page' : Page) : Type 0 where
  pub length_same : length page'.buf ≡ length page.buf
  pub size_same : page'.page_size ≡ page.page_size
  pub count_is : count page' ≡ new_count
  pub start_is : free_start page' ≡ 24 + new_count * 4
  pub end_is : free_end page' ≡ free_end page - length payload
  pub offset_is : offset_at s page' ≡ free_end page - length payload
  pub size_is : size_at s page' ≡ length payload
  pub payload_is : slice (free_end page - length payload) (length payload) page'.buf ≡ payload
  pub offset_same : (t : ℕ) → t < count page → t ≢ s → offset_at t page' ≡ offset_at t page
  pub size_same_at : (t : ℕ) → t < count page → t ≢ s → size_at t page' ≡ size_at t page
  pub bytes_same :
      (o n : ℕ)
      → free_end page ≤ o
      → o + n ≤ page.page_size
      → slice o n page'.buf ≡ slice o n page.buf

module _ (page : Page) (p : IsPage page) (payload : Bytes) (s new_count : ℕ)
    (slot_in : s < new_count) (others : (t : ℕ) → t < new_count → t ≢ s → t < count page)
    (grows : count page ≤ new_count) (room : 24 + new_count * 4 + length payload ≤ free_end page)
    (page' : Page) (w : IsPlaced page payload s new_count page') where
  new_at :
      (t : ℕ)
      → (t == s) ≡ true
      → (offset_at t page' ≡ free_end page - length payload) × (size_at t page' ≡ length payload)
  new_at t same =
      let e : s ≡ t = ground (arith, same) in
      (
        ap (λ z. offset_at z page') (sym e) ∙ w.offset_is,
        ap (λ z. size_at z page') (sym e) ∙ w.size_is,
      )

  old_at :
      (t : ℕ)
      → (t == s) ≡ false
      → t < count page'
      → (t < count page)
        × (offset_at t page' ≡ offset_at t page)
        × (size_at t page' ≡ size_at t page)
  old_at t other h =
      let n : t ≢ s = ground (arith, other) in
      let inside : t < count page = others t (omega (arith, w.count_is)) n in
      (inside, w.offset_same t inside n, w.size_same_at t inside n)

  -- The new record lies below every other one.
  pub placed-IsPage : IsPage page'
  placed-IsPage = record {
    size = omega (arith, w.length_same, w.size_same, p.size);
    least = omega (arith, w.size_same, p.least);
    most = omega (arith, w.size_same, p.most);
    start = omega (arith, w.start_is, w.count_is);
    low = omega (arith, w.start_is, w.end_is);
    high = omega (arith, w.end_is, w.size_same, p.high);
    live = λ t h k. elim (Bool-cases (t == s)) [
      | inl same ↦ omega (arith, new_at t same, w.end_is, w.size_same, p.high)
      | inr other ↦
          let o = old_at t other h in
          omega (arith, w.end_is, w.size_same, o.1, o.2, p.live t o.0 (λ z. k (o.1 ∙ z)))
    ];
    dead = λ t h k. elim (Bool-cases (t == s)) [
      | inl same ↦ absurd (omega (arith, k, new_at t same))
      | inr other ↦ let o = old_at t other h in o.2 ∙ p.dead t o.0 (sym o.1 ∙ k)
    ];
    distinct = λ t u ht hu ne kt ku. elim (Bool-cases (t == s)) [
      | inl same ↦ elim (Bool-cases (u == s)) [
        | inl same' ↦ absurd (ground (arith, same, same'))
        | inr other' ↦
            let o = old_at u other' hu in
            let bound = p.live u o.0 (λ z. ku (o.1 ∙ z)) in
            ground (arith, new_at t same, o.1, bound)
      ]
      | inr other ↦
          let o = old_at t other ht in
          let bound = p.live t o.0 (λ z. kt (o.1 ∙ z)) in
          elim (Bool-cases (u == s)) [
            | inl same' ↦ ground (arith, new_at u same', o.1, bound)
            | inr other' ↦
                let o' = old_at u other' hu in
                simp (o.1, o.2, o'.1, o'.2)
                  (p.distinct t u o.0 o'.0 ne (λ z. kt (o.1 ∙ z)) (λ z. ku (o'.1 ∙ z)))
          ]
    ];
  }

  pub placed-content : (t : ℕ) → content t page' ≡ (if t == s then some payload else content t page)
  placed-content t = elim (Bool-cases (t == s)) [
    | inl same ↦
        let inside : ltb t (count page') ≡ true = ground (arith, same, w.count_is, slot_in) in
        let there : (offset_at t page' == 0) ≡ false = ground (arith, new_at t same) in
        let n = new_at t same in
        simp (inside, there, same)
          (ap (λ o. some (slice o (size_at t page') page'.buf)) n.0
            ∙ ap (λ o. some (slice (free_end page - length payload) o page'.buf)) n.1
            ∙ ap some w.payload_is)
    | inr other ↦ elim (Bool-cases (ltb t (count page))) [
      | inr out ↦
          let out' : ltb t (count page') ≡ false =
            ground (arith, out, other, w.count_is, others t) in
          simp (out, out', other) refl
      | inl inside ↦
          let inside' : ltb t (count page') ≡ true = ground (arith, inside, w.count_is) in
          let o = old_at t other (ground (arith, inside')) in
          elim (Bool-cases (offset_at t page == 0)) [
            | inl gone ↦
                let gone' : (offset_at t page' == 0) ≡ true = ground (arith, o.1, gone) in
                simp (inside, inside', other, gone, gone') refl
            | inr there ↦
                let there' : (offset_at t page' == 0) ≡ false = ground (arith, o.1, there) in
                let bound = p.live t o.0 (ground (arith, there)) in
                simp (inside, inside', other, there, there')
                  (ap (λ z. some (slice z (size_at t page') page'.buf)) o.1
                    ∙ ap (λ z. some (slice (offset_at t page) z page'.buf)) o.2
                    ∙ ap some (w.bytes_same (offset_at t page) (size_at t page) bound.0 bound.1))
          ]
    ]
  ]

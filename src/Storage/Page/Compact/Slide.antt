-- ===== src/Storage/Page/Compact/Slide.antt =====
-- The loop of compaction: after the slots below `k`, their records lie above the cursor as they were, and
-- the other slots still say where their records came from.
use chen_db.Prelude.{
  ℕ, zero, suc, ◌+◌, ◌-◌, ◌≤◌, ◌<◌, ◌≡◌, ◌≢◌, refl, subst, ◌∙◌, true, List, [], ◌∷◌, arith, ◌==◌,
  if◌then◌else◌, length, Bool-cases, inl, inr,
}
use chen_db.Prelude.Bytes.{Bytes}
use chen_db.Prelude.Result.{ok}
use chen_db.Prelude.Slices.{slice, apart}
use chen_db.Storage.Page.{Page}
use chen_db.Storage.Page.Sound.{IsPage, count, free_start, free_end, offset_at, size_at, get_slot}
use chen_db.Storage.Page.Compact.{live_from}
use chen_db.Storage.Page.Compact.Total.{sum_below, weight, total_fits}

pub sum_below-le : (f : ℕ → ℕ) (m n : ℕ) → m ≤ n → sum_below f m ≤ sum_below f n
sum_below-le f m zero h = elim (Bool-cases (m == 0)) [
  | inl e ↦
      let none_left : 0 ≡ m = ground (arith, e) in
      subst (λ z. sum_below f z ≤ 0) none_left (omega arith)
  | inr ne ↦ absurd (ground (arith, ne))
]
sum_below-le f m (suc n) h = elim (Bool-cases (m == suc n)) [
  | inl e ↦
      let same : suc n ≡ m = ground (arith, e) in
      subst (λ z. sum_below f z ≤ sum_below f (suc n)) same (omega arith)
  | inr ne ↦ omega (arith, sum_below-le f m n (ground (arith, ne)))
]

module _ (page : Page) (p : IsPage page) where
  abbrev pub live_size : ℕ → ℕ
  live_size = weight (λ s. offset_at s page) (λ s. size_at s page)

  -- The list of the live records, which reading the slots gives.
  abbrev pub live_of : ℕ → ℕ → List (ℕ × Bytes)
  live_of zero s = []
  live_of (suc left) s =
      if offset_at s page == 0
      then live_of left (suc s)
      else (s, slice (offset_at s page) (size_at s page) page.buf) ∷ live_of left (suc s)

  pub live_from_lem :
      (left s : ℕ) → s + left ≡ count page → live_from left s page ≡ ok (live_of left s)
  unfolding live_from
  live_from_lem zero s e = refl
  live_from_lem (suc left) s e =
      simp (get_slot page p s (omega arith), live_from_lem left (suc s) (omega arith)) refl

  pub live_total : sum_below live_size (count page) ≤ page.page_size - free_end page
  live_total =
      total_fits (λ s. offset_at s page) (λ s. size_at s page) (count page) (free_end page)
        page.page_size p.live p.distinct p.high

  pub record IsSlid (k cursor : ℕ) (page' : Page) : Type 0 where
    pub length_same : length page'.buf ≡ length page.buf
    pub size_same : page'.page_size ≡ page.page_size
    pub count_same : count page' ≡ count page
    pub start_same : free_start page' ≡ free_start page
    pub room : cursor + sum_below live_size k ≡ page.page_size
    pub later :
        (t : ℕ)
        → k ≤ t
        → t < count page
        → (offset_at t page' ≡ offset_at t page) × (size_at t page' ≡ size_at t page)
    pub gone :
        (t : ℕ) → t < k → offset_at t page ≡ 0 → (offset_at t page' ≡ 0) × (size_at t page' ≡ 0)
    pub moved :
        (t : ℕ)
        → t < k
        → offset_at t page ≢ 0
        → (cursor ≤ offset_at t page')
          × (offset_at t page' + size_at t page' ≤ page.page_size)
          × (size_at t page' ≡ size_at t page)
          × (slice (offset_at t page') (size_at t page') page'.buf
              ≡ slice (offset_at t page) (size_at t page) page.buf)
    pub separate :
        (t u : ℕ)
        → t < k
        → u < k
        → t ≢ u
        → offset_at t page ≢ 0
        → offset_at u page ≢ 0
        → apart (offset_at t page') (size_at t page') (offset_at u page') (size_at u page') ≡ true

  -- A dead slot is passed over.
  pub skip-IsSlid :
      (k cursor : ℕ) (page' : Page)
      → k < count page
      → (offset_at k page == 0) ≡ true
      → IsSlid k cursor page'
      → IsSlid (suc k) cursor page'
  skip-IsSlid k cursor page' inside dead i =
      let none_here : offset_at k page ≡ 0 = ground (arith, dead) in
      let below : (t : ℕ) → t < suc k → offset_at t page ≢ 0 → t < k = λ t h l.
        elim (Bool-cases (t == k)) [
          | inl e ↦
              let same : k ≡ t = ground (arith, e) in
              absurd (l (subst (λ z. offset_at z page ≡ 0) same none_here))
          | inr ne ↦ ground (arith, ne)
        ] in
      record {
        length_same = i.length_same;
        size_same = i.size_same;
        count_same = i.count_same;
        start_same = i.start_same;
        room = ground (arith, i.room, dead);
        later = λ t h l. i.later t (omega (arith, h)) l;
        gone = λ t h z. elim (Bool-cases (t == k)) [
          | inl e ↦
              let same : k ≡ t = ground (arith, e) in
              let kept = i.later k (omega arith) inside in
              subst (λ y. (offset_at y page' ≡ 0) × (size_at y page' ≡ 0)) same
                (kept.0 ∙ none_here, kept.1 ∙ p.dead k inside none_here)
          | inr ne ↦ i.gone t (ground (arith, ne)) z
        ];
        moved = λ t h l. i.moved t (below t h l) l;
        separate = λ t u h h' ne l l'. i.separate t u (below t h l) (below u h' l') ne l l';
      }

-- ===== src/Wal/Recovery/Redo.antt =====
-- Redo brings every page to the state that the log gives it, from whatever part of that state had
-- reached the disk.
use chen_db.Prelude.{
  ℕ, zero, suc, ◌+◌, ◌≤◌, ◌<◌, ◌≡◌, ◌⊎◌, refl, sym, subst, ap, ◌∙◌, ltb, inl, inr, Bool, true,
  false, ◌&&◌, Option, none, some, List, [], ◌∷◌, arith, ◌==◌, if◌then◌else◌, take, Bool-cases,
}
use chen_db.Prelude.Bytes.{Bytes}
use chen_db.Prelude.Result.{ok, Result-cases}
use chen_db.Wal.Record.{LogRecord, size}
use chen_db.Wal.Log.Stream.{Contiguous}
use chen_db.Wal.Recovery.{
  Pages, blank, extended, apply_page, is_update, current, redo, redo_from, redo_step, Redone,
}

abbrev pub touches : ℕ → LogRecord → Bool
touches p r = is_update r && r.page_id == p

-- A page after the records, each of which writes its after-image.
abbrev pub replay : ℕ → List LogRecord → Option Bytes → Option Bytes
replay p [] page = page
replay p (r ∷ rs) page = replay p rs (if touches p r then some r.after_image else page)

replay_hit :
    (p : ℕ) (r : LogRecord) (rs : List LogRecord) (page : Option Bytes)
    → touches p r ≡ true
    → replay p (r ∷ rs) page ≡ replay p rs (some r.after_image)
replay_hit p r rs page hit = rw (hit, replay)

replay_miss :
    (p : ℕ) (r : LogRecord) (rs : List LogRecord) (page : Option Bytes)
    → touches p r ≡ false
    → replay p (r ∷ rs) page ≡ replay p rs page
replay_miss p r rs page miss = rw (miss, replay)

-- LSNs rise along the log.
abbrev pub Increasing : ℕ → List LogRecord → Type 0
Increasing lsn [] = Unit
Increasing lsn (r ∷ rs) = (lsn ≤ r.lsn) × Increasing (r.lsn + 1) rs

pub Contiguous-Increasing : (lsn : ℕ) (rs : List LogRecord) → Contiguous lsn rs → Increasing lsn rs
Contiguous-Increasing lsn [] h = tt
Contiguous-Increasing lsn (r ∷ rs) h = (
  omega (arith, h.0),
  Increasing-le (r.lsn + 1) (lsn + size r) rs (omega (arith, h.0))
      (Contiguous-Increasing (lsn + size r) rs h.2),
)
  where
    Increasing-le : (l m : ℕ) (qs : List LogRecord) → l ≤ m → Increasing m qs → Increasing l qs
    Increasing-le l m [] le k = tt
    Increasing-le l m (q ∷ qs) le k = (omega (arith, k.0), k.1)

-- The page, or a blank one where the page is not there.
abbrev pub PageOrBlank : ℕ → Option Bytes → Option Bytes → Type 0
PageOrBlank page_size page found =
    (found ≡ page) ⊎ ((page ≡ none) × (found ≡ some (blank page_size)))

module _ (page_size : ℕ) where
  pub PageOrBlank-trans :
      (a b c : Option Bytes)
      → PageOrBlank page_size a b
      → PageOrBlank page_size b c
      → PageOrBlank page_size a c
  PageOrBlank-trans a b c (inl e) (inl f) = inl (f ∙ e)
  PageOrBlank-trans a b c (inl e) (inr f) = inr (sym e ∙ f.0, f.1)
  PageOrBlank-trans a b c (inr e) (inl f) = inr (e.0, f ∙ e.1)
  PageOrBlank-trans a b c (inr e) (inr f) = cc

  pub extended-PageOrBlank :
      (n p : ℕ) (page : Option Bytes) → PageOrBlank page_size page (extended page_size n p page)
  extended-PageOrBlank n p (some image) = inl refl
  extended-PageOrBlank n p none = elim (Bool-cases (ltb p n)) [
    | inl low ↦ simp low (inr (refl, refl))
    | inr high ↦ simp high (inl refl)
  ]

module _ (lsn_of : ℕ → Bytes → ℕ) (page_size : ℕ) where
  -- Every update of the page is newer than a blank page.
  abbrev pub NewerThanBlank : ℕ → List LogRecord → Type 0
  NewerThanBlank p [] = Unit
  NewerThanBlank p (r ∷ rs) =
      (touches p r ≡ true → lsn_of p (blank page_size) < r.lsn) × NewerThanBlank p rs

module _ (lsn_of : ℕ → Bytes → ℕ) where
  -- Every after-image carries the LSN of its record, as `append_update` stamps it.
  abbrev pub Stamped : List LogRecord → Type 0
  Stamped [] = Unit
  Stamped (r ∷ rs) = (is_update r ≡ true → lsn_of r.page_id r.after_image ≡ r.lsn) × Stamped rs

  -- The page is not there, or older than `lsn`.
  abbrev pub Below : ℕ → ℕ → Option Bytes → Type 0
  Below p lsn none = Unit
  Below p lsn (some image) = lsn_of p image < lsn

  abbrev AtLeast : ℕ → ℕ → Option Bytes → Type 0
  AtLeast p lsn none = ⊥
  AtLeast p lsn (some image) = lsn ≤ lsn_of p image

  Below-le : (p l m : ℕ) (page : Option Bytes) → l ≤ m → Below p l page → Below p m page
  Below-le p l m none h b = tt
  Below-le p l m (some image) h b = omega arith

  Below-stale :
      (p l m : ℕ) (page : Option Bytes) → l ≤ m → Below p l page → current lsn_of p m page ≡ false
  Below-stale p l m none h b = refl
  Below-stale p l m (some image) h b = ground arith

  AtLeast-current :
      (p l : ℕ) (page : Option Bytes) → AtLeast p l page → current lsn_of p l page ≡ true
  AtLeast-current p l none h = elim h [ ]
  AtLeast-current p l (some image) h = ground arith

  stamp_at :
      (p : ℕ) (r : LogRecord) (rs : List LogRecord)
      → Stamped (r ∷ rs)
      → touches p r ≡ true
      → lsn_of p r.after_image ≡ r.lsn
  stamp_at p r rs s hit =
      let e : p ≡ r.page_id = ground (arith, hit) in rw e (s.0 (ground (arith, hit)))

  -- A page that has reached an LSN does not fall behind it again.
  AtLeast-replay :
      (p l lsn k : ℕ) (rs : List LogRecord) (page : Option Bytes)
      → l ≤ lsn
      → Increasing lsn rs
      → Stamped rs
      → AtLeast p l page
      → AtLeast p l (replay p (take k rs) page)
  AtLeast-replay p l lsn zero rs page h i s a = a
  AtLeast-replay p l lsn (suc k) [] page h i s a = a
  AtLeast-replay p l lsn (suc k) (r ∷ rs) page h i s a = elim (Bool-cases (touches p r)) [
    | inl hit ↦ rw (replay_hit p r (take k rs) page hit) (
        AtLeast-replay p l (r.lsn + 1) k rs (some r.after_image) (omega (arith, i.0)) i.1 s.1
          (omega (arith, i.0, stamp_at p r rs s hit)))
    | inr miss ↦
        rw (replay_miss p r (take k rs) page miss)
          (AtLeast-replay p l (r.lsn + 1) k rs page (omega (arith, i.0)) i.1 s.1 a)
  ]

  module _ (page_size p : ℕ) where
    -- A step on another page leaves this one, or makes it blank.
    step-miss :
        (r : LogRecord) (s s' : Redone)
        → redo_step lsn_of page_size r s ≡ ok s'
        → touches p r ≡ false
        → PageOrBlank page_size (s.pages p) (s'.pages p)
    unfolding redo_step apply_page
    step-miss r s s' h miss = elim (Bool-cases (is_update r)) [
      | inr other ↦ inl (ground (arith, other))
      | inl change ↦ elim (Bool-cases (current lsn_of r.page_id r.lsn (s.pages r.page_id))) [
        | inl seen ↦ inl (ground (arith, change, seen))
        | inr stale ↦
            let there : (r.page_id == p) ≡ false = ground (arith, change, miss) in
            let e : s'.pages p ≡ extended page_size r.page_id p (s.pages p) =
              ground (arith, change, stale, there) in
            rw e (extended-PageOrBlank page_size r.page_id p (s.pages p))
      ]
    ]

    -- A step on this page writes it, if it is older than the record.
    step-hit :
        (r : LogRecord) (s s' : Redone)
        → redo_step lsn_of page_size r s ≡ ok s'
        → touches p r ≡ true
        → s'.pages p
          ≡ (if current lsn_of p r.lsn (s.pages p) then s.pages p else some r.after_image)
    unfolding redo_step apply_page
    step-hit r s s' h hit =
        let here : r.page_id ≡ p = ground (arith, hit) in
        let same : (r.page_id == p) ≡ true = ground (arith, hit) in
        let change : is_update r ≡ true = ground (arith, hit) in
        let now : current lsn_of r.page_id r.lsn (s.pages r.page_id)
            ≡ current lsn_of p r.lsn (s.pages p) =
          ap (λ q. current lsn_of q r.lsn (s.pages q)) here in
        elim (Bool-cases (current lsn_of p r.lsn (s.pages p))) [
          | inl seen ↦ ground (arith, change, now, seen)
          | inr stale ↦ ground (arith, change, now, stale, same)
        ]

    PageOrBlank-stale :
        (l m : ℕ) (start page : Option Bytes)
        → l ≤ m
        → Below p l start
        → lsn_of p (blank page_size) < m
        → PageOrBlank page_size start page
        → current lsn_of p m page ≡ false
    PageOrBlank-stale l m start page h b newer (inl e) = rw e (Below-stale p l m start h b)
    PageOrBlank-stale l m start page h b newer (inr e) = let f = e.1 in rw f (ground (arith, newer))

    PageOrBlank-AtLeast :
        (l : ℕ) (start page : Option Bytes)
        → AtLeast p l start
        → PageOrBlank page_size start page
        → page ≡ start
    PageOrBlank-AtLeast l start page a (inl e) = e
    PageOrBlank-AtLeast l none page a (inr e) = elim a [ ]
    PageOrBlank-AtLeast l (some image) page a (inr e) = cc

    redo_from-page :
        (lsn k : ℕ) (rs : List LogRecord) (start : Option Bytes) (s out : Redone)
        → Increasing lsn rs
        → Stamped rs
        → NewerThanBlank lsn_of page_size p rs
        → Below p lsn start
        → PageOrBlank page_size (replay p (take k rs) start) (s.pages p)
        → redo_from lsn_of page_size s rs ≡ ok out
        → PageOrBlank page_size (replay p rs start) (out.pages p)
    unfolding redo_from
    redo_from-page lsn zero [] start s out i st n b d h =
        let e : s ≡ out = cc in subst (λ (z : Redone). PageOrBlank page_size start (z.pages p)) e d
    redo_from-page lsn (suc k) [] start s out i st n b d h =
        let e : s ≡ out = cc in subst (λ (z : Redone). PageOrBlank page_size start (z.pages p)) e d
    redo_from-page lsn zero (r ∷ rs) start s out i st n b d h =
        elim (Result-cases (redo_step lsn_of page_size r s)) [
          | inr (e, q) ↦ absurd (ground (arith, q))
          | inl (s', q) ↦
              let rest : redo_from lsn_of page_size s' rs ≡ ok out = ground (arith, q) in
              elim (Bool-cases (touches p r)) [
                | inl hit ↦
                    let stale = PageOrBlank-stale lsn r.lsn start (s.pages p) i.0 b (n.0 hit) d in
                    let wrote : s'.pages p ≡ some r.after_image =
                      step-hit r s s' q hit ∙ (simp stale refl) in
                    rw (replay_hit p r rs start hit) (
                      redo_from-page (r.lsn + 1) zero rs (some r.after_image) s' out i.1 st.1 n.1
                        (omega (arith, stamp_at p r rs st hit)) (inl wrote) rest)
                | inr miss ↦ rw (replay_miss p r rs start miss) (
                    redo_from-page (r.lsn + 1) zero rs start s' out i.1 st.1 n.1
                      (Below-le p lsn (r.lsn + 1) start (omega (arith, i.0)) b)
                      (PageOrBlank-trans page_size start (s.pages p) (s'.pages p) d
                        (step-miss r s s' q miss))
                      rest)
              ]
        ]
    redo_from-page lsn (suc k) (r ∷ rs) start s out i st n b d h =
        elim (Result-cases (redo_step lsn_of page_size r s)) [
          | inr (e, q) ↦ absurd (ground (arith, q))
          | inl (s', q) ↦
              let rest : redo_from lsn_of page_size s' rs ≡ ok out = ground (arith, q) in
              elim (Bool-cases (touches p r)) [
                | inl hit ↦
                    let new : lsn_of p r.after_image ≡ r.lsn = stamp_at p r rs st hit in
                    let seen =
                      AtLeast-replay p r.lsn (r.lsn + 1) k rs (some r.after_image) (omega arith) i.1
                        st.1 (omega (arith, new)) in
                    let d' : PageOrBlank page_size (replay p (take k rs) (some r.after_image))
                        (s.pages p) =
                      rw (← replay_hit p r (take k rs) start hit) d in
                    let at_disk =
                      PageOrBlank-AtLeast r.lsn (replay p (take k rs) (some r.after_image))
                        (s.pages p) seen d' in
                    let now : current lsn_of p r.lsn (s.pages p) ≡ true =
                      rw at_disk (AtLeast-current p r.lsn _ seen) in
                    let kept : s'.pages p ≡ s.pages p = step-hit r s s' q hit ∙ (simp now refl) in
                    rw (replay_hit p r rs start hit) (
                      redo_from-page (r.lsn + 1) k rs (some r.after_image) s' out i.1 st.1 n.1
                        (omega (arith, new)) (inl (kept ∙ at_disk)) rest)
                | inr miss ↦
                    let d' : PageOrBlank page_size (replay p (take k rs) start) (s.pages p) =
                      rw (← replay_miss p r (take k rs) start miss) d in
                    rw (replay_miss p r rs start miss) (
                      redo_from-page (r.lsn + 1) k rs start s' out i.1 st.1 n.1
                        (Below-le p lsn (r.lsn + 1) start (omega (arith, i.0)) b)
                        (PageOrBlank-trans page_size (replay p (take k rs) start) (s.pages p)
                          (s'.pages p) d' (step-miss r s s' q miss))
                        rest)
              ]
        ]

  -- If each page on disk is what some part of the log made of a page older than the log, or blank if that
  -- is no page, then redo, where it does not raise, leaves each page as the whole log makes it, or blank.
  -- How much of the log had reached the disk may differ from page to page.
  pub redo-replay :
      (page_size : ℕ) (rs : List LogRecord) (start pages : Pages) (reached : ℕ → ℕ) (lsn : ℕ)
      (out : Redone) (p : ℕ)
      → Increasing lsn rs
      → Stamped rs
      → NewerThanBlank lsn_of page_size p rs
      → Below p lsn (start p)
      → PageOrBlank page_size (replay p (take (reached p) rs) (start p)) (pages p)
      → redo lsn_of page_size rs pages ≡ ok out
      → PageOrBlank page_size (replay p rs (start p)) (out.pages p)
  unfolding redo
  redo-replay page_size rs start pages reached lsn out p i s n below disk h =
      redo_from-page page_size p lsn (reached p) rs (start p)
        (record { pages = pages; pages_redone = 0; pages_skipped = 0 }) out i s n below disk h

-- ===== src/Wal/Recovery/Undo.antt =====
-- Undo restores, of each page, the before-image of the first update by a loser.
use chen_db.Prelude.{
  ℕ, max, ◌≡◌, refl, sym, false, ltb, Bool-cases, ap, ◌∙◌, inl, inr, Bool, true, ◌&&◌, Option, none,
  some, List, [], ◌∷◌, ◌++◌, reverse, arith, ◌==◌, if◌then◌else◌,
}
use mathlib.Core.List.{reverse-cons}
use chen_db.Prelude.Bytes.{Bytes}
use chen_db.Prelude.Sets.{sorted}
use chen_db.Prelude.Result.{ok, Result-cases}
use chen_db.Wal.Record.{LogRecord, update}
use chen_db.Wal.Log.{WriteAheadLog, append, flush}
use chen_db.Wal.Recovery.{
  Pages, Undone, blank, extended, apply_page, undoes, undo, undo_from, undo_step, abort_each,
}

-- Is this an update of the page that is to be undone?
abbrev pub undoes_page : List ℕ → ℕ → LogRecord → Bool
undoes_page losers p r = undoes losers r && r.page_id == p

-- The before-image that the first such record carries.
unfoldable pub first_before : List ℕ → ℕ → List LogRecord → Option Bytes
first_before losers p [] = none
first_before losers p (r ∷ rs) =
    if undoes_page losers p r then some r.before_image else first_before losers p rs

abbrev pub or_else : Option Bytes → Option Bytes → Option Bytes
or_else none page = page
or_else (some image) page = some image

-- The number of pages before the last one that undo writes: the file has them all in the end.
unfoldable pub reach : List ℕ → List LogRecord → ℕ
reach losers [] = 0
reach losers (r ∷ rs) =
    let rest = reach losers rs in if undoes losers r then max r.page_id rest else rest

module _ (page_size : ℕ) where
  extended-extended :
      (a b p : ℕ) (page : Option Bytes)
      → extended page_size a p (extended page_size b p page) ≡ extended page_size (max a b) p page
  extended-extended a b p (some image) = refl
  extended-extended a b p none = elim (Bool-cases (ltb p b)) [
    | inl low ↦ let e : ltb p (max a b) ≡ true = ground (arith, low) in simp (low, e) refl
    | inr high ↦
        let e : ltb p a ≡ ltb p (max a b) = ground (arith, high) in
        simp high (ap (λ t. if t then some (blank page_size) else none) e)
  ]

  or_else-extended :
      (a p : ℕ) (first page : Option Bytes)
      → extended page_size a p (or_else first page) ≡ or_else first (extended page_size a p page)
  or_else-extended a p none page = refl
  or_else-extended a p (some image) page = refl

module _ (page_size : ℕ) (losers : List ℕ) (p : ℕ) where
  -- What one record does to the page.
  unwritten : LogRecord → Option Bytes → Option Bytes
  unwritten r page =
      if undoes losers r
      then (if r.page_id == p then some r.before_image else extended page_size r.page_id p page)
      else page

  -- Undo as one page meets it, in the order of the list.
  undo_page : List LogRecord → Option Bytes → Option Bytes
  undo_page [] page = page
  undo_page (r ∷ rs) page = undo_page rs (unwritten r page)

  undo_page-append :
      (rs qs : List LogRecord) (page : Option Bytes)
      → undo_page (rs ++ qs) page ≡ undo_page qs (undo_page rs page)
  unfolding undo_page
  undo_page-append [] qs page = refl
  undo_page-append (r ∷ rs) qs page = undo_page-append rs qs _

  unwritten-first :
      (r : LogRecord) (rs : List LogRecord) (page : Option Bytes)
      → unwritten r
          (or_else (first_before losers p rs) (extended page_size (reach losers rs) p page))
        ≡ or_else
            (first_before losers p (r ∷ rs))
            (extended page_size (reach losers (r ∷ rs)) p page)
  unfolding unwritten first_before reach
  unwritten-first r rs page = elim (Bool-cases (undoes losers r)) [
    | inr not_undone ↦ simp not_undone refl
    | inl undone ↦ elim (Bool-cases (r.page_id == p)) [
      | inl here ↦ simp (undone, here) refl
      | inr there ↦
          simp (undone, there)
            (or_else-extended page_size r.page_id p (first_before losers p rs)
                (extended page_size (reach losers rs) p page)
              ∙ ap (or_else (first_before losers p rs))
                  (extended-extended page_size r.page_id (reach losers rs) p page))
    ]
  ]

  pub extended_none : (page : Option Bytes) → extended page_size 0 p page ≡ page
  extended_none none = let e : ltb p 0 ≡ false = ground arith in simp e refl
  extended_none (some image) = refl

  undo_page-reverse :
      (rs : List LogRecord) (page : Option Bytes)
      → undo_page (reverse rs) page
        ≡ or_else (first_before losers p rs) (extended page_size (reach losers rs) p page)
  unfolding undo_page first_before reach
  undo_page-reverse [] page = sym (extended_none page)
  undo_page-reverse (r ∷ rs) page =
      ap (λ (l : List LogRecord). undo_page l page) (reverse-cons r rs)
      ∙ undo_page-append (reverse rs) (r ∷ []) page
      ∙ ap (unwritten r) (undo_page-reverse rs page)
      ∙ unwritten-first r rs page

  module _ (crc32 : Bytes → ℕ) where
    step-page :
        (r : LogRecord) (s s' : Undone)
        → undo_step crc32 page_size losers r s ≡ ok s'
        → s'.pages p ≡ unwritten r (s.pages p)
    unfolding undo_step unwritten apply_page
    step-page r s s' h =
        elim (Result-cases
          (append crc32 update r.transaction_id r.page_id [] r.before_image s.log)) [
            | inl ((entry, log), e) ↦ ground (arith, e)
            | inr (x, e) ↦ ground (arith, e)
          ]

    undo_from-page :
        (rs : List LogRecord) (s s' : Undone)
        → undo_from crc32 page_size losers s rs ≡ ok s'
        → s'.pages p ≡ undo_page rs (s.pages p)
    unfolding undo_from undo_page
    undo_from-page [] s s' h = ground arith
    undo_from-page (r ∷ rs) s s' h = elim (Result-cases (undo_step crc32 page_size losers r s)) [
      | inl (t, e) ↦
          undo_from-page rs t s' (ground (arith, e)) ∙ ap (undo_page rs) (step-page r s t e)
      | inr (x, e) ↦ absurd (ground (arith, e))
    ]

-- Where undo does not raise, it leaves each page with the before-image of the first record that is to be
-- undone on it, and without such a record as it was, whatever other transactions logged of the page in
-- between; a page that was not there is blank in the end if undo writes a later one.
pub undo-pages :
    (crc32 : Bytes → ℕ) (page_size : ℕ) (records : List LogRecord) (losers : List ℕ)
    (log : WriteAheadLog) (pages : Pages) (undone : Undone) (p : ℕ)
    → undo crc32 page_size records losers log pages ≡ ok undone
    → undone.pages p
      ≡ or_else
          (first_before losers p records)
          (extended page_size (reach losers records) p (pages p))
unfolding undo first_before undoes reach
undo-pages crc32 page_size records [] log pages undone p h =
    let same : undone.pages p ≡ pages p = ground arith in
    rw (no_losers records, no_reach records) (same ∙ sym (extended_none page_size [] p (pages p)))
  where
    no_losers : (rs : List LogRecord) → first_before [] p rs ≡ none
    no_losers [] = refl
    no_losers (r ∷ rs) = ground (arith, no_losers rs)

    no_reach : (rs : List LogRecord) → reach [] rs ≡ 0
    no_reach [] = refl
    no_reach (r ∷ rs) = ground (arith, no_reach rs)
undo-pages crc32 page_size records (x ∷ xs) log pages undone p h =
    elim (Result-cases (undo_from crc32 page_size (x ∷ xs) start (reverse records))) [
      | inr (e, q) ↦ absurd (ground (arith, q))
      | inl (s, q) ↦ elim (Result-cases (abort_each crc32 (sorted (x ∷ xs)) s.log)) [
        | inr (e, a) ↦ absurd (ground (arith, q, a))
        | inl (log', a) ↦ elim (Result-cases (flush true log')) [
          | inr (e, b) ↦ absurd (ground (arith, q, a, b))
          | inl (log'', b) ↦
              let same : undone.pages p ≡ s.pages p = ground (arith, q, a, b) in
              same
              ∙ undo_from-page page_size (x ∷ xs) p crc32 (reverse records) start s q
              ∙ undo_page-reverse page_size (x ∷ xs) p records (pages p)
        ]
      ]
    ]
  where
    start : Undone
    start = record { log = log; pages = pages; pages_undone = 0 }

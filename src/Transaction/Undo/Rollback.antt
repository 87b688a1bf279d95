-- ===== src/Transaction/Undo/Rollback.antt =====
-- A rollback gives back every page as it was when the transaction began.
use chen_db.Prelude.{
  ℕ, ◌+◌, ◌≡◌, refl, ap, ◌∙◌, ◌⊎◌, inl, inr, Bool, true, false, Option, none, some, List, [], ◌∷◌,
  ◌++◌, reverse, arith, ltb, ◌==◌, if◌then◌else◌, if-both, is_some, length, Bool-cases,
  Option-cases,
}
use mathlib.Core.List.{reverse-cons}
use chen_db.Prelude.Sets.{elem, elem-add}
use chen_db.Transaction.Undo.{UndoRecord, UndoLog, empty_log, max_undo_bytes, capture, rewind, has}

-- What is on each page.
abbrev pub PageMap : Type 0
PageMap = ℕ → List ℕ

abbrev pub with_page : ℕ → List ℕ → PageMap → PageMap
with_page p image pages q = if p == q then image else pages q

-- A rollback: each record's image is written, in the order of the list.
unfoldable pub apply_records : List UndoRecord → PageMap → PageMap
apply_records [] pages = pages
apply_records (r ∷ rs) pages = apply_records rs (with_page r.page_id r.before_image pages)

-- One write of the transaction: the page is captured as it is, and then replaced.
unfoldable pub write_page : ℕ × List ℕ → PageMap × UndoLog → PageMap × UndoLog
write_page (p, image) (pages, log) =
    (with_page p image pages, if has p log then log else (capture p (pages p) log).1)

unfoldable pub write_pages : List (ℕ × List ℕ) → PageMap × UndoLog → PageMap × UndoLog
unfolding write_page
write_pages [] s = s
write_pages (w ∷ ws) s = write_pages ws (write_page w s)

-- The oldest image of a page.
unfoldable image_of : ℕ → List UndoRecord → Option (List ℕ)
image_of q [] = none
image_of q (r ∷ rs) = if r.page_id == q then some r.before_image else image_of q rs

abbrev or_else : Option (List ℕ) → List ℕ → List ℕ
or_else none page = page
or_else (some image) page = image

image_of-append_one :
    (q : ℕ) (rs : List UndoRecord) (r : UndoRecord)
    → image_of q (rs ++ r ∷ []) ≡ (
        if is_some (image_of q rs)
        then image_of q rs
        else if r.page_id == q
        then some r.before_image
        else none)
unfolding image_of
image_of-append_one q [] r = refl
image_of-append_one q (x ∷ xs) r = ground (arith, image_of-append_one q xs r)

apply_records-append :
    (rs qs : List UndoRecord) (pages : PageMap)
    → apply_records (rs ++ qs) pages ≡ apply_records qs (apply_records rs pages)
unfolding apply_records
apply_records-append [] qs pages = refl
apply_records-append (r ∷ rs) qs pages = apply_records-append rs qs _

-- Newest first: the oldest image of a page is the one that stays.
apply_records-reverse :
    (q : ℕ) (rs : List UndoRecord) (pages : PageMap)
    → apply_records (reverse rs) pages q ≡ or_else (image_of q rs) (pages q)
unfolding apply_records image_of
apply_records-reverse q [] pages = refl
apply_records-reverse q (r ∷ rs) pages =
    ap (λ l. apply_records l pages q) (reverse-cons r rs)
    ∙ ap (λ (d : PageMap). d q) (apply_records-append (reverse rs) (r ∷ []) pages)
    ∙ ground (arith, apply_records-reverse q rs pages)

-- The log covers what the transaction has done to a page since `start`.
abbrev CoversPage : PageMap → ℕ → PageMap → UndoLog → Type 0
CoversPage start q pages log =
    (elem q log.captured ≡ false → (pages q ≡ start q) × (image_of q log.records ≡ none))
    × ((log.overflowed ≡ false
          → elem q log.captured ≡ true
          → image_of q log.records ≡ some (start q))
        × ((image : List ℕ) → image_of q log.records ≡ some image → image ≡ start q))

Covers : PageMap → PageMap × UndoLog → Type 0
Covers start (pages, log) = (q : ℕ) → CoversPage start q pages log

capture-Covers :
    (start : PageMap) (p : ℕ) (image : List ℕ) (pages : PageMap) (log : UndoLog)
    → elem p log.captured ≡ false
    → Covers start (pages, log)
    → Covers start (with_page p image pages, (capture p (pages p) log).1)
unfolding Covers capture
capture-Covers start p image pages log new c q =
    let (fresh, (kept, right)) = c q in
    let (before, no_image) = (c p).0 new in
    let same : p ≡ q → image_of p log.records ≡ image_of q log.records =
      ap (λ x. image_of x log.records) in
    let P : Bool × UndoLog → Type 0 = λ x. CoversPage start q (with_page p image pages) x.1 in
    if-both P (elem p log.captured) _ _ (λ old. absurd (ground (arith, old, new)))
      (λ _.
        if-both P (ltb max_undo_bytes (log.bytes + length (pages p))) _ _
          (λ full. (
            (λ h. ground (arith, h, elem-add p q log.captured, fresh)),
            ((λ o h. absurd (ground (arith, o))), right),
          ))
          (λ room.
            let added =
              image_of-append_one q log.records
                (record { sequence = length log.records; page_id = p; before_image = pages p }) in
            elim (Bool-cases (p == q)) [
              | inl here ↦
                  let start_here : start p ≡ start q = ap start (ground (arith, here)) in
                  let saved : image_of q (
                        log.records
                        ++ record {
                          sequence = length log.records;
                          page_id = p;
                          before_image = pages p;
                        }
                          ∷ [])
                      ≡ some (start q) =
                    ground (arith, added, here, no_image, same, before, start_here) in
                  (
                    (λ h. absurd (ground (arith, h, here, elem-add p q log.captured))),
                    ((λ o h. saved), (λ i h. ground (arith, h, saved))),
                  )
              | inr there ↦ (
                (λ h. ground (arith, h, there, added, elem-add p q log.captured, fresh)),
                (
                  (λ o h. ground (arith, o, h, there, added, elem-add p q log.captured, kept)),
                  (λ i h. ground (arith, h, there, added, right i)),
                ),
              )
            ]))

write_page-Covers :
    (start : PageMap) (w : ℕ × List ℕ) (s : PageMap × UndoLog)
    → Covers start s
    → Covers start (write_page w s)
unfolding Covers write_page
write_page-Covers start (p, image) (pages, log) c q =
    if-both (λ (l : UndoLog). CoversPage start q (with_page p image pages) l) (elem p log.captured)
      _ _ (λ old. let (fresh, rest) = c q in ((λ h. ground (arith, h, old, fresh)), rest))
      (λ new. capture-Covers start p image pages log new c q)

write_pages-Covers :
    (start : PageMap) (ws : List (ℕ × List ℕ)) (s : PageMap × UndoLog)
    → Covers start s
    → Covers start (write_pages ws s)
unfolding write_pages
write_pages-Covers start [] s c = c
write_pages-Covers start (w ∷ ws) s c =
    write_pages-Covers start ws (write_page w s) (write_page-Covers start w s c)

-- Whatever pages a transaction writes, in whatever order and however often, rewinding its log gives
-- each page back as it was when the transaction began, where the log did not overflow.
pub rewind-start :
    (start : PageMap) (ws : List (ℕ × List ℕ)) (q : ℕ)
    → (write_pages ws (start, empty_log)).1.overflowed ≡ false
    → apply_records
        (rewind (write_pages ws (start, empty_log)).1)
        (write_pages ws (start, empty_log)).0
        q
      ≡ start q
unfolding Covers image_of elem
rewind-start start ws q o =
    let s = write_pages ws (start, empty_log) in
    let (fresh, (kept, right)) =
      write_pages-Covers start ws (start, empty_log)
        (λ p. (
          (λ h. (refl, refl)),
          ((λ a b. absurd (ground (arith, b))), (λ i b. absurd (ground (arith, b)))),
        ))
        q in
    apply_records-reverse q s.1.records s.0 ∙ (elim (Bool-cases (elem q s.1.captured)) [
      | inl changed ↦ ap (λ i. or_else i (s.0 q)) (kept o changed)
      | inr unchanged ↦
          let (page, image) = fresh unchanged in ap (λ i. or_else i (s.0 q)) image ∙ page
    ])

-- Whether or not the log overflowed, rewinding gives each page back as it was when the transaction
-- began, or leaves it alone.
pub rewind-partial :
    (start : PageMap) (ws : List (ℕ × List ℕ)) (q : ℕ)
    → (apply_records
          (rewind (write_pages ws (start, empty_log)).1)
          (write_pages ws (start, empty_log)).0
          q
        ≡ start q)
      ⊎ (apply_records
            (rewind (write_pages ws (start, empty_log)).1)
            (write_pages ws (start, empty_log)).0
            q
          ≡ (write_pages ws (start, empty_log)).0 q)
unfolding Covers image_of elem
rewind-partial start ws q =
    let s = write_pages ws (start, empty_log) in
    let (fresh, (kept, right)) =
      write_pages-Covers start ws (start, empty_log)
        (λ p. (
          (λ h. (refl, refl)),
          ((λ a b. absurd (ground (arith, b))), (λ i b. absurd (ground (arith, b)))),
        ))
        q in
    let rewound = apply_records-reverse q s.1.records s.0 in
    elim (Option-cases (image_of q s.1.records)) [
      | inl empty ↦ inr (rewound ∙ ap (λ i. or_else i (s.0 q)) empty)
      | inr (image, e) ↦ inl (rewound ∙ ap (λ i. or_else i (s.0 q)) e ∙ right image e)
    ]

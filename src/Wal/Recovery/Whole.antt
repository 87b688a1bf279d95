-- ===== src/Wal/Recovery/Whole.antt =====
-- The three passes together, over the records that are read from a log, torn or not.
use chen_db.Prelude.{
  ℕ, ◌≡◌, refl, sym, ap, ◌∙◌, inl, inr, Bool, none, some, List, [], ◌∷◌, arith, take, Option,
}
use chen_db.Prelude.Bytes.{Bytes}
use chen_db.Prelude.Result.{ok, Result-cases}
use chen_db.Wal.Record.{LogRecord}
use chen_db.Wal.Log.{WriteAheadLog, read_all}
use chen_db.Wal.Log.Stream.{Contiguous}
use chen_db.Wal.Recovery.{
  Pages, Recovered, Redone, extended, recover, recover_records, redo, undo, analyse, difference,
}
use chen_db.Wal.Recovery.Redo.{
  replay, Stamped, Below, NewerThanBlank, PageOrBlank, PageOrBlank-trans, extended-PageOrBlank,
  Contiguous-Increasing, redo-replay,
}
use chen_db.Wal.Recovery.Undo.{first_before, or_else, reach, extended_none, undo-pages}

-- The transactions that a crash left unfinished.
abbrev pub losers_of : List LogRecord → List ℕ
losers_of records = difference (analyse records).seen (analyse records).finished

-- What a page is after recovery: the image that undo restored, or without one what the whole log makes
-- of it.
abbrev pub AfterUndo : ℕ → Option Bytes → Option Bytes → Option Bytes → Type 0
AfterUndo page_size none page found = PageOrBlank page_size page found
AfterUndo page_size (some image) page found = found ≡ some image

-- Undo restores the first before-image that an unfinished transaction logged of the page.
abbrev pub PageAfter : ℕ → ℕ → List LogRecord → Option Bytes → Option Bytes → Type 0
PageAfter page_size p records start found =
    AfterUndo page_size (first_before (losers_of records) p records) (replay p records start) found

module _ (crc32 : Bytes → ℕ) (lsn_of : ℕ → Bytes → ℕ) (page_size : ℕ) where
  extended-AfterUndo :
      (n p : ℕ) (first page found redone : Option Bytes)
      → found ≡ or_else first (extended page_size n p redone)
      → PageOrBlank page_size page redone
      → AfterUndo page_size first page found
  extended-AfterUndo n p (some image) page found redone e d = e
  extended-AfterUndo n p none page found redone e d =
      PageOrBlank-trans page_size page redone found d
        (rw e (extended-PageOrBlank page_size n p redone))

  recover_records-pages :
      (records : List LogRecord) (truncated : Bool) (log : WriteAheadLog) (pages : Pages)
      (out : Recovered)
      → recover_records crc32 lsn_of page_size records truncated log pages ≡ ok out
      → (redone : Redone) × (redo lsn_of page_size records pages ≡ ok redone)
        × ((p : ℕ)
            → out.pages p
              ≡ or_else
                  (first_before (losers_of records) p records)
                  (extended page_size (reach (losers_of records) records) p (redone.pages p)))
  unfolding recover_records redo first_before reach
  recover_records-pages [] truncated log pages out h =
      let same : out.pages ≡ pages = ground (arith, h) in
      (
        record { pages = pages; pages_redone = 0; pages_skipped = 0 },
        refl,
        λ p. ap (λ (z : Pages). z p) same ∙ sym (extended_none page_size [] p (pages p)),
      )
  recover_records-pages (r ∷ rs) truncated log pages out h =
      elim (Result-cases (redo lsn_of page_size (r ∷ rs) pages)) [
        | inr (e, q) ↦ absurd (ground (arith, h, q))
        | inl (redone, q) ↦
            elim (Result-cases
              (undo crc32 page_size (r ∷ rs) (losers_of (r ∷ rs)) log redone.pages)) [
                | inr (e, u) ↦ absurd (ground (arith, h, q, u))
                | inl (undone, u) ↦ (
                  redone,
                  q,
                  λ p.
                      let same : out.pages p ≡ undone.pages p = ground (arith, h, q, u) in
                      same
                      ∙ undo-pages crc32 page_size (r ∷ rs) (losers_of (r ∷ rs)) log redone.pages
                          undone p u,
                )
              ]
      ]

  -- Recovery over a log that is read as `done`, torn at its end or not, on pages of which each is what
  -- some part of `done`, its own for each page, made of a page older than the log, or blank if that is no
  -- page. Every logged after-image carries its record's LSN, which the
  -- compensations of an earlier recovery that was cut short do not, and every update of the page in question is
  -- newer than a blank page, so a record with LSN 0, which a new database logs first, is left out. Where
  -- recovery does not raise, the page holds the before-image of the first change to it for which an
  -- unfinished transaction logged one; without such a change, what the whole log makes of it, the changes
  -- that an unfinished transaction logged without a before-image included, or a blank page where that is
  -- no page.
  pub recover-pages :
      (log : WriteAheadLog) (done : List LogRecord) (truncated : Bool) (start pages : Pages)
      (reached : ℕ → ℕ) (out : Recovered) (p : ℕ)
      → read_all crc32 log ≡ ok (some (done, truncated))
      → Contiguous log.base_lsn done
      → Stamped lsn_of done
      → NewerThanBlank lsn_of page_size p done
      → Below lsn_of p log.base_lsn (start p)
      → PageOrBlank page_size (replay p (take (reached p) done) (start p)) (pages p)
      → recover crc32 lsn_of page_size log pages ≡ ok (some out)
      → PageAfter page_size p done (start p) (out.pages p)
  unfolding recover
  recover-pages log done truncated start pages reached out p r c stamped newer below disk h =
      let rising = Contiguous-Increasing log.base_lsn done c in
      let run : recover_records crc32 lsn_of page_size done truncated log pages ≡ ok out =
        ground (arith, r, h) in
      let (redone, q, after) = recover_records-pages done truncated log pages out run in
      extended-AfterUndo (reach (losers_of done) done) p (first_before (losers_of done) p done)
        (replay p done (start p)) (out.pages p) (redone.pages p) (after p)
        (redo-replay lsn_of page_size done start pages reached log.base_lsn redone p rising stamped
          newer below disk q)

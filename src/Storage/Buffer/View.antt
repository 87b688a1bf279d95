-- ===== src/Storage/Buffer/View.antt =====
-- The pool and what backs it are together a map of pages: what each operation does to that map.
use chen_db.Prelude.{
  ℕ, ◌+◌, ◌≡◌, ◌≢◌, refl, sym, ap, ◌∙◌, ◌⊎◌, inl, inr, true, false, Option, none, some, arith, ◌==◌,
  ==_iff, if◌then◌else◌, length, nat_eq, Bool-cases, Option-cases,
}
use chen_db.Prelude.Dict
use chen_db.Prelude.Dict.{Dict, get-remove}
use chen_db.Prelude.Bytes.{Bytes}
use chen_db.Prelude.Result.{ok, err}
use chen_db.Storage.Buffer.{
  Backing, BufferPool, PoolError, touch, count_read, count_write, fetch, fetch_at, fetch_miss,
  store, store_at,
}
use chen_db.Storage.Buffer.Sound.{view_at}
use chen_db.Storage.Buffer.Resident.{same-IsBooked}
use chen_db.Storage.Buffer.Change.{changed, changed-Holds}
use chen_db.Storage.Buffer.Admit.{Holds, admit-Holds}

module _ {D : Type 0} (backing : Backing D) where
  -- What changes no page keeps `Holds`.
  same_pages :
      (pages pages' : ℕ → Option Bytes) (pool : BufferPool) (d : D)
      → ((q : ℕ) → pages q ≡ pages' q)
      → Holds backing pages pool d
      → Holds backing pages' pool d
  same_pages pages pages' pool d same h = record {
    booked = h.booked;
    clean = h.clean;
    shows = λ q. h.shows q ∙ same q;
  }

  put_back :
      (pages : ℕ → Option Bytes) (p : ℕ) (raw : Bytes)
      → pages p ≡ some raw
      → (q : ℕ) → (if p == q then some raw else pages q) ≡ pages q
  put_back pages p raw e q = elim (Bool-cases (p == q)) [
    | inl here ↦ simp here (sym e ∙ ap pages ((==_iff p q).0 here))
    | inr there ↦ simp there refl
  ]

  fresh :
      (p index : ℕ) (pages : ℕ → Option Bytes) (pool : BufferPool) (d : D)
      → Holds backing pages pool d
      → Dict.get p pool.resident ≡ some index
      → ((pool.frames index).dirty ≡ true) ⊎ (backing.read p d ≡ some (pool.frames index).image)
  fresh p index pages pool d h e = elim (Bool-cases (pool.frames index).dirty) [
    | inl dirty ↦ inl dirty
    | inr kept ↦ inr (h.clean p index e kept)
  ]

  abbrev missed_pool : BufferPool → BufferPool
  missed_pool pool = record pool { stats = record (pool.stats) { misses = pool.stats.misses + 1 } }

  missed-Holds :
      (pages : ℕ → Option Bytes) (pool : BufferPool) (d : D)
      → Holds backing pages pool d
      → Holds backing pages (missed_pool pool) d
  missed-Holds pages pool d h = record {
    booked =
        same-IsBooked 0 pool pool.resident pool.frames _ (λ q. refl) h.booked.keys refl h.booked;
    clean = h.clean;
    shows = h.shows;
  }

  fetch_miss-Holds :
      (p : ℕ) (got : Option Bytes) (pages : ℕ → Option Bytes) (pool : BufferPool) (d : D)
      → Holds backing pages pool d
      → Dict.get p pool.resident ≡ none
      → pages p ≡ got
      → (out : BufferPool) × (d' : D) × (fetch_miss backing p got pool d ≡ some (got, (out, d')))
        × Holds backing pages out d'
        × (out.page_size ≡ pool.page_size)
  unfolding fetch_miss
  fetch_miss-Holds p none pages pool d h gone e = (pool, d, refl, h, refl)
  fetch_miss-Holds p (some raw) pages pool d h gone e =
      let (out, d', took, holds, size) =
        admit-Holds backing p raw false count_read (λ f. refl) (λ f. refl) pages pool d h gone
          (inr e) in
      (
        out,
        d',
        ap (λ (o : Option (BufferPool × D)). elim o [ none ↦ none | some x ↦ some (some raw, x) ])
            took,
        same_pages _ pages out d' (put_back pages p raw e) holds,
        size,
      )

  -- A fetch always comes back: it returns the page as the map has it, or raises where the page can not
  -- be read. It changes no page, whatever it had to evict, and keeps the bookkeeping.
  pub fetch-Holds :
      (p : ℕ) (pages : ℕ → Option Bytes) (pool : BufferPool) (d : D)
      → Holds backing pages pool d
      → (out : BufferPool) × (d' : D) × (fetch backing p pool d ≡ some (pages p, (out, d')))
        × Holds backing pages out d'
        × (out.page_size ≡ pool.page_size)
  unfolding fetch touch changed
  fetch-Holds p pages pool d h = elim (Option-cases (Dict.get p pool.resident)) [
    | inr (index, e) ↦
        let shown : some (pool.frames index).image ≡ pages p =
          sym (ap (λ o. view_at backing p o pool.frames d) e) ∙ h.shows p in
        let f = count_read (pool.frames index) in
        let stats = record (pool.stats) { hits = pool.stats.hits + 1 } in
        (
          changed backing p index f stats pages pool d h e (fresh p index pages pool d h e),
          d,
          ap (λ o. fetch_at backing p o pool d) e
              ∙ ap
                  (λ o. some (
                    o,
                    (
                      changed backing p index f stats pages pool d h e
                          (fresh p index pages pool d h e),
                      d,
                    ),
                  ))
                  shown,
          same_pages _ pages _ d (put_back pages p f.image (sym shown)) (
              changed-Holds backing p index f stats pages pool d h e
                (fresh p index pages pool d h e)),
          refl,
        )
    | inl gone ↦
        let is_read : backing.read p d ≡ pages p =
          sym (ap (λ o. view_at backing p o pool.frames d) gone) ∙ h.shows p in
        let missed = missed_pool pool in
        let (out, d', e, holds, size) =
          fetch_miss-Holds p (pages p) pages missed d (missed-Holds pages pool d h) gone refl in
        (
          out,
          d',
          ap (λ o. fetch_at backing p o pool d) gone
              ∙ ap (λ r. fetch_miss backing p r missed d) is_read
              ∙ e,
          holds,
          size,
        )
  ]

  pub store_at-Holds :
      (p : ℕ) (raw : Bytes) (pages : ℕ → Option Bytes) (pool : BufferPool) (d : D)
      → Holds backing pages pool d
      → (out : BufferPool) × (d' : D) × (store_at backing p raw (Dict.get p pool.resident) pool d
          ≡ some (out, d'))
        × Holds backing (λ q. if p == q then some raw else pages q) out d'
        × (out.page_size ≡ pool.page_size)
  unfolding store_at changed
  store_at-Holds p raw pages pool d h = elim (Option-cases (Dict.get p pool.resident)) [
    | inl gone ↦
        let (out, d', took, holds, size) =
          admit-Holds backing p raw true count_write (λ f. refl) (λ f. refl) pages pool d h gone
            (inl refl) in
        (out, d', ap (λ o. store_at backing p raw o pool d) gone ∙ took, holds, size)
    | inr (index, e) ↦
        let frame = pool.frames index in
        let f = record frame { image = raw; dirty = true; writes = frame.writes + 1 } in
        let stats = record (pool.stats) {
          writes_absorbed = pool.stats.writes_absorbed + (if frame.dirty then 1 else 0);
        } in
        (
          changed backing p index f stats pages pool d h e (inl refl),
          d,
          ap (λ o. store_at backing p raw o pool d) e,
          changed-Holds backing p index f stats pages pool d h e (inl refl),
          refl,
        )
  ]

  -- A store of a whole page always comes back, replaces that page in the map and no other, and keeps
  -- the bookkeeping; bytes of another length are refused.
  pub store-Holds :
      (p : ℕ) (raw : Bytes) (pages : ℕ → Option Bytes) (pool : BufferPool) (d : D)
      → Holds backing pages pool d
      → ((length raw ≢ pool.page_size) × (store backing p raw pool d ≡ err PoolError.wrong_size))
        ⊎ ((out : BufferPool) × (d' : D) × (length raw ≡ pool.page_size)
            × (store backing p raw pool d ≡ ok (some (out, d')))
            × Holds backing (λ q. if p == q then some raw else pages q) out d'
            × (out.page_size ≡ pool.page_size))
  unfolding store
  store-Holds p raw pages pool d h = elim (Bool-cases (length raw == pool.page_size)) [
    | inr wrong ↦ inl (ground (arith, wrong), simp wrong refl)
    | inl fits ↦
        let (out, d', e, holds, size) = store_at-Holds p raw pages pool d h in
        inr (out, d', ground (arith, fits), simp fits (ap (λ o. ok o) e), holds, size)
  ]

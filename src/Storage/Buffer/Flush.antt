-- ===== src/Storage/Buffer/Flush.antt =====
-- Flushing: what it does to the map of pages, and to what backs the pool.
use chen_db.Prelude.{
  ℕ, ◌≡◌, refl, sym, ap, ◌∙◌, inl, inr, true, false, Option, none, some, [], ◌∷◌, arith, ◌==◌,
  ==_iff, if◌then◌else◌, nat_eq, Bool-cases, Option-cases,
}
use chen_db.Prelude.Dict
use chen_db.Prelude.Dict.{Dict, get-remove}
use chen_db.Prelude.Bytes.{Bytes}
use chen_db.Storage.Buffer.{Backing, Frame, BufferPool, with_frame, flush, flush_each}
use chen_db.Storage.Buffer.Sound.{NoDupKeys, view_at}
use chen_db.Storage.Buffer.Resident.{same-IsBooked}
use chen_db.Storage.Buffer.Admit.{Holds}

abbrev Apart : Dict ℕ ℕ → Type 0
Apart d = (p q i : ℕ) → Dict.get p d ≡ some i → Dict.get q d ≡ some i → p ≡ q

module _ {D : Type 0} (backing : Backing D) where
  module _ (i : ℕ) (frames : ℕ → Frame) where
    abbrev cleaned : ℕ → Frame
    cleaned = with_frame i (record (frames i) { dirty = false }) frames

    cleaned_image : (j : ℕ) → (cleaned j).image ≡ (frames j).image
    cleaned_image j = elim (Bool-cases (i == j)) [
      | inl h ↦ simp h (ap (λ z. (frames z).image) ((==_iff i j).0 h))
      | inr h ↦ simp h refl
    ]

    cleaned_other : (j : ℕ) → (i == j) ≡ false → cleaned j ≡ frames j
    cleaned_other j h = simp h refl

  -- Flushing changes no frame's bytes.
  flush_each-image :
      (r : Dict ℕ ℕ) (frames : ℕ → Frame) (d : D) (j : ℕ)
      → ((flush_each backing r frames d).1.0 j).image ≡ (frames j).image
  unfolding flush_each
  flush_each-image [] frames d j = refl
  flush_each-image ((p, i) ∷ r) frames d j = elim (Bool-cases (frames i).dirty) [
    | inl h ↦ simp h (
        flush_each-image r (cleaned i frames) (backing.write p (frames i).image d) j
        ∙ cleaned_image i frames j)
    | inr h ↦ simp h (flush_each-image r frames d j)
  ]

  -- What a page of a table reads, once it is flushed.
  abbrev flushed : (q : ℕ) → Option ℕ → (ℕ → Frame) → D → Option Bytes
  flushed q none frames d = backing.read q d
  flushed q (some i) frames d = if (frames i).dirty then some (frames i).image else backing.read q d

  module _ (p i : ℕ) (r : Dict ℕ ℕ) (once : NoDupKeys ((p, i) ∷ r)) where
    later : (q j : ℕ) → Dict.get q r ≡ some j → Dict.get q ((p, i) ∷ r) ≡ some j
    unfolding Dict.get
    later q j h = ground (arith, h, once.0, ap (λ z. Dict.get z r) {x = p} {y = q})

    later_other :
        Apart ((p, i) ∷ r) → (q j : ℕ) → (p == q) ≡ false → Dict.get q r ≡ some j → (i == j) ≡ false
    unfolding Dict.get
    later_other apart q j there h = elim (Bool-cases (i == j)) [
      | inr o ↦ o
      | inl same ↦
          let here : Dict.get p ((p, i) ∷ r) ≡ some j = ground arith in
          absurd (ground (arith, there, apart p q j here (later q j h)))
    ]

  -- One page of the table: what it reads, whichever page is asked for.
  flush_one :
      (p i : ℕ) (r : Dict ℕ ℕ) (frames : ℕ → Frame) (d : D)
      → NoDupKeys ((p, i) ∷ r)
      → Apart ((p, i) ∷ r)
      → (q : ℕ) → (frames i).dirty ≡ true
      → flushed q (Dict.get q r) (cleaned i frames) (backing.write p (frames i).image d)
        ≡ flushed q (Dict.get q ((p, i) ∷ r)) frames d
  unfolding Dict.get
  flush_one p i r frames d once apart q dirty =
      let written = backing.read-write p q (frames i).image d in
      let d' = backing.write p (frames i).image d in
      elim (Bool-cases (p == q)) [
        | inl here ↦
            let gone : Dict.get q r ≡ none =
              ap (λ z. Dict.get z r) (sym ((==_iff p q).0 here)) ∙ once.0 in
            ap (λ o. flushed q o (cleaned i frames) d') gone ∙ written ∙ (simp (here, dirty) refl)
        | inr there ↦ elim (Option-cases (Dict.get q r)) [
          | inl gone ↦
              ap (λ o. flushed q o (cleaned i frames) d') gone ∙ written ∙ (simp (there, gone) refl)
          | inr (j, h) ↦
              let f = cleaned_other i frames j (later_other p i r once apart q j there h) in
              let untouched : backing.read q d' ≡ backing.read q d = written ∙ (simp there refl) in
              ap (λ o. flushed q o (cleaned i frames) d') h
              ∙ ap (λ (x : Frame). if x.dirty then some x.image else backing.read q d') f
              ∙ ap (λ o. if (frames j).dirty then some (frames j).image else o) untouched
              ∙ sym (simp (there, h) refl)
        ]
      ]

  flush_none :
      (p i : ℕ) (r : Dict ℕ ℕ) (frames : ℕ → Frame) (d : D)
      → NoDupKeys ((p, i) ∷ r)
      → (q : ℕ) → (frames i).dirty ≡ false
      → flushed q (Dict.get q r) frames d ≡ flushed q (Dict.get q ((p, i) ∷ r)) frames d
  unfolding Dict.get
  flush_none p i r frames d once q kept = elim (Bool-cases (p == q)) [
    | inl here ↦
        let gone : Dict.get q r ≡ none =
          ap (λ z. Dict.get z r) (sym ((==_iff p q).0 here)) ∙ once.0 in
        ap (λ o. flushed q o frames d) gone ∙ (simp (here, kept) refl)
    | inr there ↦ simp there refl
  ]

  flush_each-read :
      (r : Dict ℕ ℕ) (frames : ℕ → Frame) (d : D)
      → NoDupKeys r
      → Apart r
      → (q : ℕ)
      → backing.read q (flush_each backing r frames d).1.1 ≡ flushed q (Dict.get q r) frames d
  unfolding flush_each Dict.get
  flush_each-read [] frames d once apart q = refl
  flush_each-read ((p, i) ∷ r) frames d once apart q =
      let apart' : Apart r =
        λ x y j h h'. apart x y j (later p i r once x j h) (later p i r once y j h') in
      elim (Bool-cases (frames i).dirty) [
        | inl dirty ↦ simp dirty (
            flush_each-read r (cleaned i frames) (backing.write p (frames i).image d) once.1 apart'
              q
            ∙ flush_one p i r frames d once apart q dirty)
        | inr kept ↦
            simp kept
              (flush_each-read r frames d once.1 apart' q ∙ flush_none p i r frames d once q kept)
      ]

  flushed_is :
      (q : ℕ) (pages : ℕ → Option Bytes) (pool : BufferPool) (d : D)
      → Holds backing pages pool d
      → flushed q (Dict.get q pool.resident) pool.frames d ≡ pages q
  flushed_is q pages pool d h = elim (Option-cases (Dict.get q pool.resident)) [
    | inl gone ↦
        ap (λ o. flushed q o pool.frames d) gone
        ∙ sym (ap (λ o. view_at backing q o pool.frames d) gone)
        ∙ h.shows q
    | inr (i, e) ↦
        let shown : some (pool.frames i).image ≡ pages q =
          sym (ap (λ o. view_at backing q o pool.frames d) e) ∙ h.shows q in
        ap (λ o. flushed q o pool.frames d) e ∙ (elim (Bool-cases (pool.frames i).dirty) [
          | inl dirty ↦ simp dirty shown
          | inr kept ↦ simp kept (h.clean q i e kept ∙ shown)
        ])
  ]

  -- After a flush what backs the pool holds every page of the map by itself, and the pool still does.
  pub flush-Holds :
      (pages : ℕ → Option Bytes) (pool : BufferPool) (d : D)
      → Holds backing pages pool d
      → Holds backing pages (flush backing pool d).1.0 (flush backing pool d).1.1
        × ((q : ℕ) → backing.read q (flush backing pool d).1.1 ≡ pages q)
  unfolding flush
  flush-Holds pages pool d h =
      let read_is : (q : ℕ) → backing.read q (flush backing pool d).1.1 ≡ pages q = λ q.
        flush_each-read pool.resident pool.frames d h.booked.keys h.booked.apart q
        ∙ flushed_is q pages pool d h in
      (
        record {
          booked = same-IsBooked 0 pool pool.resident _ _ (λ q. refl) h.booked.keys refl h.booked;
          clean = λ p i e kept.
              read_is p
              ∙ sym (h.shows p)
              ∙ ap (λ o. view_at backing p o pool.frames d) e
              ∙ sym (ap (λ o. some o) (flush_each-image pool.resident pool.frames d i));
          shows = λ q. elim (Option-cases (Dict.get q pool.resident)) [
            | inl gone ↦
                ap
                  (λ o.
                    view_at backing q o (flush backing pool d).1.0.frames
                      (flush backing pool d).1.1)
                  gone
                ∙ read_is q
            | inr (i, e) ↦
                ap
                  (λ o.
                    view_at backing q o (flush backing pool d).1.0.frames
                      (flush backing pool d).1.1)
                  e
                ∙ ap (λ o. some o) (flush_each-image pool.resident pool.frames d i)
                ∙ sym (ap (λ o. view_at backing q o pool.frames d) e)
                ∙ h.shows q
          ];
        },
        read_is,
      )

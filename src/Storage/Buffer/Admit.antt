-- ===== src/Storage/Buffer/Admit.antt =====
-- Admitting a page into a frame that was taken, and what the pool stands for afterwards.
use chen_db.Prelude.{
  ℕ, ◌≡◌, refl, sym, ap, ◌∙◌, ◌⊎◌, inl, inr, Bool, true, false, Option, none, some, arith, ◌==◌,
  ==_iff, if◌then◌else◌, nat_eq, Bool-cases, Option-cases,
}
use chen_db.Prelude.Dict
use chen_db.Prelude.Dict.{Dict, get-put}
use chen_db.Prelude.Bytes.{Bytes}
use chen_db.Storage.Buffer.{Backing, Frame, BufferPool, fill, touch, admit_into, admit}
use chen_db.Storage.Buffer.Sound.{IsBooked, IsTaken, IsClean, view, view_at, take_frame-IsReady}
use chen_db.Storage.Buffer.Resident.{put-NoDupKeys, length-put}

-- The pool and what backs it hold the pages that `pages` says, and the bookkeeping is right.
pub record Holds {D : Type 0} (backing : Backing D) (pages : ℕ → Option Bytes) (pool : BufferPool)
    (d : D) : Type 0 where
  pub booked : IsBooked 0 pool
  pub clean : IsClean backing pool d
  pub shows : (q : ℕ) → view backing q pool d ≡ pages q

module _ {D : Type 0} (backing : Backing D) (p : ℕ) (raw : Bytes) (dirty : Bool)
    (change : Frame → Frame) (keeps : (f : Frame) → (change f).image ≡ f.image)
    (keeps_dirty : (f : Frame) → (change f).dirty ≡ f.dirty) (index : ℕ) (pool : BufferPool)
    (d : D) where
  abbrev filled : BufferPool
  unfolding touch fill
  filled = touch index change (fill p raw dirty index pool)

  abbrev new_frame : Frame
  new_frame = record { page_id = some p; image = raw; dirty = dirty; reads = 0; writes = 0 }

  filled_here : filled.frames index ≡ change new_frame
  unfolding filled
  filled_here = let same : (index == index) ≡ true = ground arith in simp same refl

  filled_other : (j : ℕ) → (index == j) ≡ false → filled.frames j ≡ pool.frames j
  unfolding filled
  filled_other j h = simp h refl

  filled-get :
      (q : ℕ)
      → Dict.get q filled.resident ≡ (if p == q then some index else Dict.get q pool.resident)
  unfolding filled
  filled-get q = get-put p q index pool.resident

  filled-view :
      IsTaken index pool
      → (q : ℕ) → view backing q filled d ≡ (if p == q then some raw else view backing q pool d)
  filled-view t q = elim (Bool-cases (p == q)) [
    | inl here ↦
        let at_index : Dict.get q filled.resident ≡ some index = filled-get q ∙ (simp here) in
        ap (λ o. view_at backing q o filled.frames d) at_index
        ∙ ap (λ (f : Frame). some f.image) filled_here
        ∙ ap some (keeps new_frame)
        ∙ sym (simp here refl)
    | inr there ↦
        let as_before : Dict.get q filled.resident ≡ Dict.get q pool.resident =
          filled-get q ∙ (simp there) in
        elim (Option-cases (Dict.get q pool.resident)) [
          | inl gone ↦
              ap (λ o. view_at backing q o filled.frames d) (as_before ∙ gone)
              ∙ sym (simp (there, gone) refl)
          | inr (i, h) ↦
              let other : (index == i) ≡ false = ground (arith, h, t.not_used q) in
              ap (λ o. view_at backing q o filled.frames d) (as_before ∙ h)
              ∙ ap (λ (f : Frame). some f.image) (filled_other i other)
              ∙ sym (simp (there, h) refl)
        ]
  ]

  filled-IsBooked :
      Dict.get p pool.resident ≡ none → IsTaken index pool → IsBooked 1 pool → IsBooked 0 filled
  unfolding filled
  filled-IsBooked new t b = record {
    keys = put-NoDupKeys p index pool.resident b.keys;
    frees = b.frees;
    apart = λ x y i h h'.
        ground
          (arith, filled-get x, filled-get y, h, h', t.not_used x, t.not_used y, b.apart x y i);
    used = λ x i h. ground (arith, filled-get x, h, t.not_free, b.used x i);
    total = omega (arith, b.total, length-put p index pool.resident new);
    in_range = λ x i h. ground (arith, filled-get x, h, t.in_range, b.in_range x i);
    free_in_range = b.free_in_range;
    enough = b.enough;
  }

  filled-IsClean :
      IsTaken index pool
      → (dirty ≡ true) ⊎ (backing.read p d ≡ some raw)
      → IsClean backing pool d
      → IsClean backing filled d
  filled-IsClean t backed c q i h kept = elim (Bool-cases (p == q)) [
    | inl here ↦
        let is_q : p ≡ q = (==_iff p q).0 here in
        let is_i : index ≡ i = ground (arith, filled-get q, h, here) in
        let f : filled.frames i ≡ change new_frame = ap filled.frames (sym is_i) ∙ filled_here in
        let not_dirty : dirty ≡ false =
          sym (ap (λ (x : Frame). x.dirty) f ∙ keeps_dirty new_frame) ∙ kept in
        elim backed [
          | inl yes_dirty ↦ cc
          | inr same ↦
              ap (λ z. backing.read z d) (sym is_q)
              ∙ same
              ∙ sym (ap (λ (x : Frame). some x.image) f ∙ ap some (keeps new_frame))
        ]
    | inr there ↦
        let was : Dict.get q pool.resident ≡ some i = ground (arith, filled-get q, h, there) in
        let other : (index == i) ≡ false = ground (arith, was, t.not_used q) in
        let f : filled.frames i ≡ pool.frames i = filled_other i other in
        c q i was (sym (ap (λ (x : Frame). x.dirty) f) ∙ kept)
        ∙ sym (ap (λ (x : Frame). some x.image) f)
  ]

-- A page that is not resident is admitted, whatever has to be evicted for it.
pub admit-Holds :
    {D : Type 0} (backing : Backing D) (p : ℕ) (raw : Bytes) (dirty : Bool) (change : Frame → Frame)
    → ((f : Frame) → (change f).image ≡ f.image)
    → ((f : Frame) → (change f).dirty ≡ f.dirty)
    → (pages : ℕ → Option Bytes) (pool : BufferPool) (d : D) → Holds backing pages pool d
    → Dict.get p pool.resident ≡ none
    → (dirty ≡ true) ⊎ (pages p ≡ some raw)
    → (out : BufferPool) × (d' : D) × (admit backing p raw dirty change pool d ≡ some (out, d'))
      × Holds backing (λ q. if p == q then some raw else pages q) out d'
      × (out.page_size ≡ pool.page_size)
unfolding admit filled
admit-Holds backing p raw dirty change keeps keeps_dirty pages pool d h new backed =
    let (index, pool', d', e, r) = take_frame-IsReady backing pool d h.booked h.clean in
    let new' : Dict.get p pool'.resident ≡ none = r.smaller p new in
    let same : view backing p pool' d' ≡ pages p = r.same p ∙ h.shows p in
    let reads : backing.read p d' ≡ pages p =
      sym (ap (λ o. view_at backing p o pool'.frames d') new') ∙ same in
    let backed' : (dirty ≡ true) ⊎ (backing.read p d' ≡ some raw) = elim backed [
      | inl x ↦ inl x
      | inr x ↦ inr (reads ∙ x)
    ] in
    (
      filled backing p raw dirty change keeps keeps_dirty index pool' d',
      d',
      ap (admit_into backing p raw dirty change) e,
      record {
        booked =
            filled-IsBooked backing p raw dirty change keeps keeps_dirty index pool' d' new' r.taken
              r.booked;
        clean =
            filled-IsClean backing p raw dirty change keeps keeps_dirty index pool' d' r.taken
              backed' r.clean;
        shows = λ q.
            filled-view backing p raw dirty change keeps keeps_dirty index pool' d' r.taken q
            ∙ ap (λ o. if p == q then some raw else o) (r.same q ∙ h.shows q);
      },
      r.page_size,
    )

-- ===== src/Storage/Buffer/Sound.antt =====
-- The bookkeeping of the pool, and the frame that an admission takes.
use chen_db.Prelude.{
  ℕ, ◌+◌, ◌≤◌, ◌<◌, ◌≡◌, ◌≢◌, refl, sym, ap, ◌∙◌, inl, inr, true, false, Option, none, some, List,
  [], ◌∷◌, arith, ◌==◌, if◌then◌else◌, length, nat_eq, Bool-cases, Option-cases, List-cases,
}
use chen_db.Prelude.Dict
use chen_db.Prelude.Dict.{Dict}
use chen_db.Prelude.Bytes.{Bytes}
use chen_db.Prelude.Sets.{elem}
use chen_db.Storage.Buffer.{Backing, Frame, BufferPool, with_frame, evict, take_frame}

-- No key stands twice.
abbrev pub NoDupKeys : Dict ℕ ℕ → Type 0
NoDupKeys [] = Unit
NoDupKeys ((k, v) ∷ d) = (Dict.get k d ≡ none) × NoDupKeys d

abbrev pub NoDup : List ℕ → Type 0
NoDup [] = Unit
NoDup (x ∷ xs) = (elem x xs ≡ false) × NoDup xs

-- Different pages are in different frames, none of which is free, and no frame is lost. `taken` counts
-- the frames that are neither free nor in use: one, while a page is being admitted.
pub record IsBooked (taken : ℕ) (pool : BufferPool) : Type 0 where
  pub keys : NoDupKeys pool.resident
  pub frees : NoDup pool.free
  pub apart :
      (p q i : ℕ) → Dict.get p pool.resident ≡ some i → Dict.get q pool.resident ≡ some i → p ≡ q
  pub used : (p i : ℕ) → Dict.get p pool.resident ≡ some i → elem i pool.free ≡ false
  pub total : taken + length pool.free + length pool.resident ≡ pool.capacity
  pub in_range : (p i : ℕ) → Dict.get p pool.resident ≡ some i → i < pool.capacity
  pub free_in_range : (i : ℕ) → elem i pool.free ≡ true → i < pool.capacity
  pub enough : 2 ≤ pool.capacity

-- The frame is neither free nor in use.
pub record IsTaken (index : ℕ) (pool : BufferPool) : Type 0 where
  pub not_free : elem index pool.free ≡ false
  pub not_used : (p : ℕ) → Dict.get p pool.resident ≢ some index
  pub in_range : index < pool.capacity

module _ {D : Type 0} (backing : Backing D) where
  -- A frame that is not dirty holds what backs it.
  abbrev pub IsClean : BufferPool → D → Type 0
  IsClean pool d =
      (p i : ℕ)
      → Dict.get p pool.resident ≡ some i
      → (pool.frames i).dirty ≡ false
      → backing.read p d ≡ some (pool.frames i).image

  -- What the pool and what backs it stand for: a page's frame, or else the page itself.
  abbrev pub view_at : ℕ → Option ℕ → (ℕ → Frame) → D → Option Bytes
  view_at p none frames d = backing.read p d
  view_at p (some i) frames d = some (frames i).image

  abbrev pub view : ℕ → BufferPool → D → Option Bytes
  view p pool d = view_at p (Dict.get p pool.resident) pool.frames d

  -- The state that an admission fills in: one frame is taken, and no page has changed.
  pub record IsReady (pool : BufferPool) (d : D) (index : ℕ) (pool' : BufferPool) (d' : D)
      : Type 0 where
    pub booked : IsBooked 1 pool'
    pub taken : IsTaken index pool'
    pub clean : IsClean pool' d'
    pub same : (q : ℕ) → view q pool' d' ≡ view q pool d
    pub smaller : (q : ℕ) → Dict.get q pool.resident ≡ none → Dict.get q pool'.resident ≡ none
    pub page_size : pool'.page_size ≡ pool.page_size

  free-IsReady :
      (index : ℕ) (free : List ℕ) (pool : BufferPool) (d : D)
      → pool.free ≡ index ∷ free
      → IsBooked 0 pool
      → IsClean pool d
      → IsReady pool d index (record pool { free = free }) d
  unfolding elem
  free-IsReady index free pool d e b c =
      let once : NoDup (index ∷ free) = rw e at b.frees in
      record {
        booked = record {
          keys = b.keys;
          frees = once.1;
          apart = b.apart;
          used = λ p i h. ground (arith, b.used p i h, e);
          total = ground (arith, b.total, e);
          in_range = b.in_range;
          free_in_range = λ i h. b.free_in_range i (ground (arith, e, h));
          enough = b.enough;
        };
        taken = record {
          not_free = once.0;
          not_used = λ p h. ground (arith, b.used p index h, e);
          in_range = b.free_in_range index (ground (arith, e));
        };
        clean = c;
        same = λ q. refl;
        smaller = λ q h. h;
        page_size = refl;
      }

  module _ (victim index : ℕ) (rest : Dict ℕ ℕ) (pool : BufferPool) (d : D)
      (e : pool.resident ≡ (victim, index) ∷ rest) (none_free : pool.free ≡ [])
      (b : IsBooked 0 pool) (c : IsClean pool d) where
    -- What the victim leaves behind.
    abbrev left_frames : ℕ → Frame
    left_frames =
        with_frame index (record (pool.frames index) { page_id = none; dirty = false }) pool.frames

    abbrev left_backing : D
    left_backing =
        if (pool.frames index).dirty then backing.write victim (pool.frames index).image d else d

    rest_without : Dict.get victim rest ≡ none
    rest_without = let k : NoDupKeys ((victim, index) ∷ rest) = rw e at b.keys in k.0

    get_resident :
        (q : ℕ) → Dict.get q pool.resident ≡ (if victim == q then some index else Dict.get q rest)
    unfolding Dict.get
    get_resident q = ap (Dict.get q) e

    get_rest : (q i : ℕ) → Dict.get q rest ≡ some i → (victim == q) ≡ false
    get_rest q i h = ground (arith, h, rest_without, ap (λ z. Dict.get z rest) {x = victim} {y = q})

    still : (q i : ℕ) → Dict.get q rest ≡ some i → Dict.get q pool.resident ≡ some i
    still q i h = get_resident q ∙ (simp (get_rest q i h)) ∙ h

    other_frame : (q i : ℕ) → Dict.get q rest ≡ some i → (index == i) ≡ false
    other_frame q i h = elim (Bool-cases (index == i)) [
      | inr o ↦ o
      | inl s ↦
          let gone : victim ≡ q =
            b.apart victim q i (get_resident victim ∙ ground (arith, s)) (still q i h) in
          absurd (ground (arith, gone, get_rest q i h))
    ]

    other_left : (i : ℕ) → (index == i) ≡ false → left_frames i ≡ pool.frames i
    other_left i o =
        ap
          (λ t.
            if t
            then record (pool.frames index) { page_id = none; dirty = false }
            else pool.frames i)
          o

    read_left : (q : ℕ) → (victim == q) ≡ false → backing.read q left_backing ≡ backing.read q d
    read_left q o = elim (Bool-cases (pool.frames index).dirty) [
      | inl dirty ↦ simp dirty (backing.read-write victim q (pool.frames index).image d ∙ (simp o))
      | inr clean ↦ simp clean refl
    ]

    read_victim : backing.read victim left_backing ≡ some (pool.frames index).image
    read_victim = elim (Bool-cases (pool.frames index).dirty) [
      | inl dirty ↦
          simp dirty (backing.read-write victim victim (pool.frames index).image d ∙ ground arith)
      | inr clean ↦ simp clean (c victim index (get_resident victim ∙ ground arith) clean)
    ]

    -- Evicting changes no page.
    left_view : (q : ℕ) → view_at q (Dict.get q rest) left_frames left_backing ≡ view q pool d
    left_view q = elim (Bool-cases (victim == q)) [
      | inl here ↦
          let q_is : victim ≡ q = ground (arith, here) in
          let at_index : Dict.get q pool.resident ≡ some index = get_resident q ∙ (simp here) in
          ap (λ z. view_at z (Dict.get z rest) left_frames left_backing) (sym q_is)
          ∙ ap (λ o. view_at victim o left_frames left_backing) rest_without
          ∙ read_victim
          ∙ sym (ap (λ o. view_at q o pool.frames d) at_index)
      | inr there ↦ elim (Option-cases (Dict.get q rest)) [
        | inl gone ↦
            let no_frame : Dict.get q pool.resident ≡ none = get_resident q ∙ (simp there) ∙ gone in
            ap (λ o. view_at q o left_frames left_backing) gone
            ∙ read_left q there
            ∙ sym (ap (λ o. view_at q o pool.frames d) no_frame)
        | inr (i, h) ↦
            ap (λ o. view_at q o left_frames left_backing) h
            ∙ ap (λ (f : Frame). some f.image) (other_left i (other_frame q i h))
            ∙ sym (ap (λ o. view_at q o pool.frames d) (still q i h))
      ]
    ]

    evict-IsReady :
        IsReady pool d index
          (record pool {
            resident = rest;
            frames = left_frames;
            stats = record (pool.stats) {
              evictions = pool.stats.evictions + 1;
              dirty_evictions =
                  pool.stats.dirty_evictions + (if (pool.frames index).dirty then 1 else 0);
            };
          })
          left_backing
    unfolding elem
    evict-IsReady =
        let k : NoDupKeys ((victim, index) ∷ rest) = rw e at b.keys in
        record {
          booked = record {
            keys = k.1;
            frees = b.frees;
            apart = λ p q i h h'. b.apart p q i (still p i h) (still q i h');
            used = λ p i h. b.used p i (still p i h);
            total = ground (arith, b.total, e);
            in_range = λ p i h. b.in_range p i (still p i h);
            free_in_range = b.free_in_range;
            enough = b.enough;
          };
          taken = record {
            not_free = b.used victim index (get_resident victim ∙ ground arith);
            not_used = λ p h. absurd (ground (arith, other_frame p index h));
            in_range = b.in_range victim index (get_resident victim ∙ ground arith);
          };
          clean = λ p i h dirty.
              let f = other_left i (other_frame p i h) in
              read_left p (get_rest p i h)
              ∙ c p i (still p i h) (sym (ap (λ (x : Frame). x.dirty) f) ∙ dirty)
              ∙ sym (ap (λ (x : Frame). some x.image) f);
          same = left_view;
          smaller = λ q h. elim (Option-cases (Dict.get q rest)) [
            | inl g ↦ g
            | inr (i, g) ↦ absurd (ground (arith, h, still q i g))
          ];
          page_size = refl;
        }

  -- There is always a frame to admit a page into: a free one, or that of the least recently used page.
  pub take_frame-IsReady :
      (pool : BufferPool) (d : D)
      → IsBooked 0 pool
      → IsClean pool d
      → (index : ℕ) × (pool' : BufferPool) × (d' : D) × (take_frame backing pool.free pool d
          ≡ some (index, (pool', d')))
        × IsReady pool d index pool' d'
  unfolding take_frame
  take_frame-IsReady pool d b c = elim (List-cases pool.free) [
    | inr (index, free, e) ↦ (
      index,
      record pool { free = free },
      d,
      ap (λ f. take_frame backing f pool d) e,
      free-IsReady index free pool d e b c,
    )
    | inl none_free ↦ elim (List-cases pool.resident) [
      | inl none_used ↦ absurd (ground (arith, b.total, b.enough, none_free, none_used))
      | inr ((victim, index), rest, e) ↦ (
        index,
        _,
        left_backing victim index rest pool d e none_free b c,
        ap (λ f. take_frame backing f pool d) none_free ∙ ap (λ r. evict backing r pool d) e,
        evict-IsReady victim index rest pool d e none_free b c,
      )
    ]
  ]

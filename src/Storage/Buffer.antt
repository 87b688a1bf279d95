-- ===== src/Storage/Buffer.antt =====
-- engine/storage/buffer.py: the buffer pool. The two callables that it is given are the operations of
-- `Backing`, over a state of their own: a read may raise, which is `none`, and a write is taken not to.
-- The list `_free`, whose end is its top, is kept with the top first. `_resident` is an OrderedDict: a
-- list of pairs, the least recently used first. Clocks, trace events and the display are left out.
pub mod Sound
pub mod Resident
pub mod Admit
pub mod Change
pub mod Flush
pub mod Empty
pub mod Invalidate
pub mod View
use chen_db.Prelude.{
  ℕ, zero, suc, ◌+◌, ◌-◌, ◌≡◌, Bool, true, false, Option, none, some, List, [], ◌∷◌, ◌++◌, ltb,
  ◌==◌, not, if◌then◌else◌, length, nat_eq,
}
use chen_db.Prelude.Dict
use chen_db.Prelude.Dict.{Dict}
use chen_db.Prelude.Bytes.{Bytes}
use chen_db.Prelude.Result.{Result, ok, err}

-- `read_through` and `write_through`: what is written is what is read.
pub record Backing (D : Type 0) : Type 0 where
  pub read : ℕ → D → Option Bytes
  pub write : ℕ → Bytes → D → D
  pub read-write :
      (p q : ℕ) (raw : Bytes) (d : D)
      → read q (write p raw d) ≡ (if p == q then some raw else read q d)

pub record BufferPoolStats : Type 0 where
  pub hits : ℕ
  pub misses : ℕ
  pub evictions : ℕ
  pub dirty_evictions : ℕ
  pub writes_absorbed : ℕ
  pub flushes : ℕ
  pub pages_flushed : ℕ

pub record Frame : Type 0 where
  pub page_id : Option ℕ
  pub image : Bytes
  pub dirty : Bool
  pub reads : ℕ
  pub writes : ℕ

abbrev pub blank_frame : Frame
blank_frame = record { page_id = none; image = []; dirty = false; reads = 0; writes = 0 }

pub record BufferPool : Type 0 where
  pub capacity : ℕ
  pub page_size : ℕ
  pub frames : ℕ → Frame
  pub free : List ℕ
  pub resident : Dict ℕ ℕ
  pub stats : BufferPoolStats

-- `ValueError`
pub data PoolError : Type 0 where
  too_few_frames wrong_size : PoolError

-- `list(range(capacity - 1, -1, -1))`, from its end.
unfoldable pub count_from : ℕ → ℕ → List ℕ
count_from start zero = []
count_from start (suc n) = start ∷ count_from (suc start) n

abbrev pub all_free : ℕ → List ℕ
all_free capacity = count_from 0 capacity

unfoldable pub new_pool : ℕ → ℕ → Result PoolError BufferPool
new_pool page_size capacity =
    if ltb capacity 2
    then err too_few_frames
    else ok (record {
      capacity = capacity;
      page_size = page_size;
      frames = λ i. blank_frame;
      free = all_free capacity;
      resident = [];
      stats = record {
        hits = 0;
        misses = 0;
        evictions = 0;
        dirty_evictions = 0;
        writes_absorbed = 0;
        flushes = 0;
        pages_flushed = 0;
      };
    })

-- A change of one frame of the list.
abbrev pub with_frame : ℕ → Frame → (ℕ → Frame) → ℕ → Frame
with_frame i f frames j = if i == j then f else frames j

-- `_resident.move_to_end(page_id)`
abbrev pub move_to_end : ℕ → ℕ → Dict ℕ ℕ → Dict ℕ ℕ
move_to_end page_id index resident = Dict.remove page_id resident ++ (page_id, index) ∷ []

abbrev pub emptied : Frame → Frame
emptied f = record f { page_id = none; dirty = false; reads = 0; writes = 0 }

-- `invalidate`, by the frame of the page.
unfoldable pub invalidate_at : ℕ → Option ℕ → BufferPool → BufferPool
invalidate_at page_id none pool = pool
invalidate_at page_id (some index) pool = record pool {
  resident = Dict.remove page_id pool.resident;
  frames = with_frame index (emptied (pool.frames index)) pool.frames;
  free = index ∷ pool.free;
}

unfoldable pub invalidate : ℕ → BufferPool → BufferPool
unfolding invalidate_at
invalidate page_id pool = invalidate_at page_id (Dict.get page_id pool.resident) pool

-- The frame that `_admit` takes is filled.
unfoldable pub fill : ℕ → Bytes → Bool → ℕ → BufferPool → BufferPool
fill page_id raw dirty index pool = record pool {
  frames =
      with_frame index
        (record { page_id = some page_id; image = raw; dirty = dirty; reads = 0; writes = 0 })
        pool.frames;
  resident = Dict.put page_id index pool.resident;
}

-- A change of the frame of a page that was just admitted or found.
unfoldable pub touch : ℕ → (Frame → Frame) → BufferPool → BufferPool
touch index change pool = record pool {
  frames = with_frame index (change (pool.frames index)) pool.frames;
}

abbrev pub count_read : Frame → Frame
count_read f = record f { reads = f.reads + 1 }

abbrev pub count_write : Frame → Frame
count_write f = record f { writes = f.writes + 1 }

-- What `clear` does after it has flushed, or has been told not to.
unfoldable pub emptied_pool : BufferPool → BufferPool
emptied_pool pool = record pool {
  frames = λ i. emptied (pool.frames i);
  resident = [];
  free = all_free pool.capacity;
}

module _ {D : Type 0} (backing : Backing D) where
  -- `_evict` takes out the least recently used page, and writes it back if it is dirty: the frame,
  -- and what is left. An empty pool would raise `KeyError`, here `none`.
  unfoldable pub evict : Dict ℕ ℕ → BufferPool → D → Option (ℕ × (BufferPool × D))
  evict [] pool d = none
  evict ((victim, index) ∷ rest) pool d =
      let frame = pool.frames index in
      let written = if frame.dirty then 1 else 0 in
      some (
        index,
        (
          record pool {
            resident = rest;
            frames = with_frame index (record frame { page_id = none; dirty = false }) pool.frames;
            stats = record (pool.stats) {
              evictions = pool.stats.evictions + 1;
              dirty_evictions = pool.stats.dirty_evictions + written;
            };
          },
          if frame.dirty then backing.write victim frame.image d else d,
        ),
      )

  -- A free frame, or an evicted one.
  unfoldable pub take_frame : List ℕ → BufferPool → D → Option (ℕ × (BufferPool × D))
  unfolding evict
  take_frame (index ∷ free) pool d = some (index, (record pool { free = free }, d))
  take_frame [] pool d = evict pool.resident pool d

  -- `_admit` into the frame that was taken, and a change of the frame.
  unfoldable pub admit_into :
      ℕ → Bytes → Bool → (Frame → Frame) → Option (ℕ × (BufferPool × D)) → Option (BufferPool × D)
  unfolding fill touch
  admit_into page_id raw dirty change none = none
  admit_into page_id raw dirty change (some (index, (pool, d))) =
      some (touch index change (fill page_id raw dirty index pool), d)

  unfoldable pub admit :
      ℕ → Bytes → Bool → (Frame → Frame) → BufferPool → D → Option (BufferPool × D)
  unfolding admit_into take_frame
  admit page_id raw dirty change pool d =
      admit_into page_id raw dirty change (take_frame pool.free pool d)

  -- A miss: the page is read, and admitted. `none` in the place of the bytes is a read that raised.
  unfoldable pub fetch_miss :
      ℕ → Option Bytes → BufferPool → D → Option (Option Bytes × (BufferPool × D))
  unfolding admit
  fetch_miss page_id none pool d = some (none, (pool, d))
  fetch_miss page_id (some raw) pool d = elim (admit page_id raw false count_read pool d) [
    | none ↦ none
    | some out ↦ some (some raw, out)
  ]

  -- `fetch`, by the frame of the page.
  unfoldable pub fetch_at : ℕ → Option ℕ → BufferPool → D → Option (Option Bytes × (BufferPool × D))
  unfolding fetch_miss touch
  fetch_at page_id (some index) pool d = some (
    some (pool.frames index).image,
    (
      touch index count_read (record pool {
        resident = move_to_end page_id index pool.resident;
        stats = record (pool.stats) { hits = pool.stats.hits + 1 };
      }),
      d,
    ),
  )
  fetch_at page_id none pool d =
      fetch_miss page_id (backing.read page_id d)
        (record pool { stats = record (pool.stats) { misses = pool.stats.misses + 1 } }) d

  unfoldable pub fetch : ℕ → BufferPool → D → Option (Option Bytes × (BufferPool × D))
  unfolding fetch_at
  fetch page_id pool d = fetch_at page_id (Dict.get page_id pool.resident) pool d

  -- `store`, by the frame of the page.
  unfoldable pub store_at : ℕ → Bytes → Option ℕ → BufferPool → D → Option (BufferPool × D)
  unfolding admit
  store_at page_id raw (some index) pool d =
      let frame = pool.frames index in
      let absorbed = if frame.dirty then 1 else 0 in
      some (
        record pool {
          frames =
              with_frame index
                (record frame { image = raw; dirty = true; writes = frame.writes + 1 }) pool.frames;
          resident = move_to_end page_id index pool.resident;
          stats = record (pool.stats) { writes_absorbed = pool.stats.writes_absorbed + absorbed };
        },
        d,
      )
  store_at page_id raw none pool d = admit page_id raw true count_write pool d

  unfoldable pub store : ℕ → Bytes → BufferPool → D → Result PoolError (Option (BufferPool × D))
  unfolding store_at
  store page_id raw pool d =
      if not (length raw == pool.page_size)
      then err wrong_size
      else ok (store_at page_id raw (Dict.get page_id pool.resident) pool d)

  -- The loop of `flush` over the resident pages: the number written, the frames, and what backs them.
  unfoldable pub flush_each : Dict ℕ ℕ → (ℕ → Frame) → D → ℕ × ((ℕ → Frame) × D)
  flush_each [] frames d = (0, (frames, d))
  flush_each ((page_id, index) ∷ rest) frames d =
      let frame = frames index in
      let (frames', d') =
        if frame.dirty
        then (
          with_frame index (record frame { dirty = false }) frames,
          backing.write page_id frame.image d,
        )
        else (frames, d) in
      let (n, out) = flush_each rest frames' d' in ((if frame.dirty then 1 else 0) + n, out)

  unfoldable pub flush : BufferPool → D → ℕ × (BufferPool × D)
  unfolding flush_each
  flush pool d =
      let (n, (frames, d')) = flush_each pool.resident pool.frames d in
      (
        n,
        (
          record pool {
            frames = frames;
            stats = record (pool.stats) {
              flushes = pool.stats.flushes + 1;
              pages_flushed = pool.stats.pages_flushed + n;
            };
          },
          d',
        ),
      )

  unfoldable pub clear : Bool → BufferPool → D → BufferPool × D
  unfolding emptied_pool flush
  clear true pool d = let (_, (pool', d')) = flush pool d in (emptied_pool pool', d')
  clear false pool d = (emptied_pool pool, d)

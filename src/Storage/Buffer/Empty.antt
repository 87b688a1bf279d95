-- ===== src/Storage/Buffer/Empty.antt =====
-- The pool with nothing in it: a new one, or one that was cleared, flushed or not.
use chen_db.Prelude.{
  ℕ, ◌≤◌, ◌<◌, ◌≡◌, refl, sym, ap, ◌⊎◌, inl, inr, Bool-cases, ◌∙◌, true, false, Option, none, [],
  arith, ltb, length, nat_eq,
}
use chen_db.Prelude.Dict
use chen_db.Prelude.Dict.{Dict, get-remove}
use chen_db.Prelude.Bytes.{Bytes}
use chen_db.Prelude.Result.{ok, err}
use chen_db.Prelude.Sets.{elem}
use chen_db.Storage.Buffer.{
  Backing, BufferPool, PoolError, flush, clear, emptied_pool, new_pool, all_free, blank_frame,
}
use chen_db.Storage.Buffer.Sound.{IsBooked}
use chen_db.Storage.Buffer.Resident.{elem-count_from, count_from-NoDup, length-count_from}
use chen_db.Storage.Buffer.Admit.{Holds}
use chen_db.Storage.Buffer.Flush.{flush-Holds}

-- An empty table with all frames free is booked.
empty-IsBooked :
    (pool : BufferPool)
    → pool.resident ≡ []
    → pool.free ≡ all_free pool.capacity
    → 2 ≤ pool.capacity
    → IsBooked 0 pool
unfolding Dict.get
empty-IsBooked pool e f enough =
    let nothing : (q : ℕ) → Dict.get q pool.resident ≡ none = λ q. ap (Dict.get q) e in
    record {
      keys = rw e tt;
      frees = rw f (count_from-NoDup 0 pool.capacity);
      apart = λ p q i h h'. ground (arith, h, nothing p);
      used = λ p i h. ground (arith, h, nothing p);
      total = omega (arith, ap length e, ap length f, length-count_from 0 pool.capacity);
      in_range = λ p i h. ground (arith, h, nothing p);
      free_in_range = λ i h.
          let there : elem i (all_free pool.capacity) ≡ true = sym (ap (elem i) f) ∙ h in
          omega (arith, elem-count_from i 0 pool.capacity there);
      enough = enough;
    }

abbrev pub empty_pool : ℕ → ℕ → BufferPool
empty_pool page_size capacity = record {
  capacity = capacity;
  page_size = page_size;
  frames = λ i. blank_frame;
  free = all_free capacity;
  resident = [];
  stats = record {
    hits = 0;
    misses = 0;
    evictions = 0;
    dirty_evictions = 0;
    writes_absorbed = 0;
    flushes = 0;
    pages_flushed = 0;
  };
}

pub empty_pool-Holds :
    {D : Type 0} (backing : Backing D) (page_size capacity : ℕ) (d : D)
    → 2 ≤ capacity
    → Holds backing (λ q. backing.read q d) (empty_pool page_size capacity) d
unfolding Dict.get
empty_pool-Holds backing page_size capacity d enough = record {
  booked = empty-IsBooked (empty_pool page_size capacity) refl refl enough;
  clean = λ p i h kept. cc;
  shows = λ q. refl;
}

-- A new pool holds what backs it; fewer than two frames are refused.
pub new_pool-Holds :
    {D : Type 0} (backing : Backing D) (page_size capacity : ℕ) (d : D)
    → ((capacity < 2) × (new_pool page_size capacity ≡ err PoolError.too_few_frames))
      ⊎ ((pool : BufferPool) × (2 ≤ capacity)
          × (new_pool page_size capacity ≡ ok pool)
          × Holds backing (λ q. backing.read q d) pool d)
unfolding new_pool Dict.get
new_pool-Holds backing page_size capacity d = elim (Bool-cases (ltb capacity 2)) [
  | inl few ↦ inl (ground (arith, few), simp few refl)
  | inr fits ↦
      let enough : 2 ≤ capacity = ground (arith, fits) in
      inr (
        empty_pool page_size capacity,
        enough,
        simp fits refl,
        empty_pool-Holds backing page_size capacity d enough,
      )
]

module _ {D : Type 0} (backing : Backing D) where
  emptied-Holds :
      (pages : ℕ → Option Bytes) (pool : BufferPool) (d : D)
      → 2 ≤ pool.capacity
      → ((q : ℕ) → backing.read q d ≡ pages q)
      → Holds backing pages (emptied_pool pool) d
  unfolding emptied_pool Dict.get
  emptied-Holds pages pool d enough reads = record {
    booked = empty-IsBooked (emptied_pool pool) refl refl enough;
    clean = λ p i e kept. cc;
    shows = reads;
  }

  -- Clearing after a flush keeps every page of the map; clearing without one, as in a crash, leaves
  -- what backs the pool as it was, and the map is that alone.
  pub clear-Holds :
      (pages : ℕ → Option Bytes) (pool : BufferPool) (d : D)
      → Holds backing pages pool d
      → Holds backing pages (clear backing true pool d).0 (clear backing true pool d).1
        × Holds backing (λ q. backing.read q d) (clear backing false pool d).0 d
        × ((clear backing false pool d).1 ≡ d)
  unfolding clear flush
  clear-Holds pages pool d h = (
    emptied-Holds pages (flush backing pool d).1.0 (flush backing pool d).1.1 h.booked.enough
        (flush-Holds backing pages pool d h).1,
    emptied-Holds _ pool d h.booked.enough (λ q. refl),
    refl,
  )

-- ===== src/Tests/Pool.antt =====
-- engine/storage/buffer.py: a pool of two frames over a disk that is a function.
use chen_db.Prelude.{
  ℕ, ◌≤◌, ◌<◌, ◌≡◌, ◌≢◌, ◌⊎◌, refl, true, false, Option, none, some, [], ◌∷◌, arith, ◌==◌,
  if◌then◌else◌, nat_eq,
}
use chen_db.Prelude.Bytes.{Bytes}
use chen_db.Prelude.Dict
use chen_db.Prelude.Result.{ok, err}
use chen_db.Storage.Buffer.{
  Backing, BufferPool, Frame, PoolError, new_pool, fetch, store, store_at, flush, clear, invalidate,
  blank_frame,
}
use chen_db.Storage.Buffer.Admit.{Holds}
use chen_db.Storage.Buffer.View.{fetch-Holds, store-Holds, store_at-Holds}
use chen_db.Storage.Buffer.Flush.{flush-Holds}
use chen_db.Storage.Buffer.Empty.{empty_pool, empty_pool-Holds, new_pool-Holds, clear-Holds}
use chen_db.Storage.Buffer.Invalidate.{invalidate-Holds}

abbrev Disk : Type 0
Disk = ℕ → Option Bytes

abbrev disk : Backing Disk
disk = record {
  read = λ p d. d p;
  write = λ p raw d q. if p == q then some raw else d q;
  read-write = λ p q raw d. refl;
}

-- Page 1 holds a byte, and no other page can be read.
abbrev one_page : Disk
one_page p = if p == 1 then some (7 ∷ []) else none

abbrev two_frames : BufferPool
two_frames = empty_pool 1 2

two_frames-Holds : Holds disk one_page two_frames one_page
two_frames-Holds = empty_pool-Holds disk 1 2 one_page (omega arith)

new_pool-Holds_example :
    ((1 < 2) × (new_pool 1 1 ≡ err PoolError.too_few_frames))
    ⊎ ((pool : BufferPool) × (2 ≤ 1) × (new_pool 1 1 ≡ ok pool) × Holds disk one_page pool one_page)
new_pool-Holds_example = new_pool-Holds disk 1 1 one_page

fetch-Holds_example :
    (out : BufferPool) × (d' : Disk) × (fetch disk 1 two_frames one_page
      ≡ some (some (7 ∷ []), (out, d')))
    × Holds disk one_page out d'
    × (out.page_size ≡ 1)
fetch-Holds_example = fetch-Holds disk 1 one_page two_frames one_page two_frames-Holds

store-Holds_example :
    ((1 ≢ two_frames.page_size)
      × (store disk 4 (9 ∷ []) two_frames one_page ≡ err PoolError.wrong_size))
    ⊎ ((out : BufferPool) × (d' : Disk) × (1 ≡ two_frames.page_size)
        × (store disk 4 (9 ∷ []) two_frames one_page ≡ ok (some (out, d')))
        × Holds disk (λ q. if 4 == q then some (9 ∷ []) else one_page q) out d'
        × (out.page_size ≡ two_frames.page_size))
store-Holds_example = store-Holds disk 4 (9 ∷ []) one_page two_frames one_page two_frames-Holds

-- The pool once page 4 was stored: a dirty frame.
stored :
    (out : BufferPool) × (d' : Disk) × (store_at disk 4
        (9 ∷ [])
        (Dict.get 4 two_frames.resident)
        two_frames
        one_page
      ≡ some (out, d'))
    × Holds disk (λ q. if 4 == q then some (9 ∷ []) else one_page q) out d'
    × (out.page_size ≡ two_frames.page_size)
stored = store_at-Holds disk 4 (9 ∷ []) one_page two_frames one_page two_frames-Holds

abbrev both_pages : Disk
both_pages q = if 4 == q then some (9 ∷ []) else one_page q

flush-Holds_example :
    Holds disk both_pages (flush disk stored.0 stored.1).1.0 (flush disk stored.0 stored.1).1.1
    × ((q : ℕ) → (flush disk stored.0 stored.1).1.1 q ≡ both_pages q)
flush-Holds_example = flush-Holds disk both_pages stored.0 stored.1 stored.3

clear-Holds_example :
    Holds disk both_pages
      (clear disk true stored.0 stored.1).0
      (clear disk true stored.0 stored.1).1
    × Holds disk (λ q. stored.1 q) (clear disk false stored.0 stored.1).0 stored.1
    × ((clear disk false stored.0 stored.1).1 ≡ stored.1)
clear-Holds_example = clear-Holds disk both_pages stored.0 stored.1 stored.3

invalidate-Holds_example :
    Holds disk (λ q. if 4 == q then stored.1 q else both_pages q) (invalidate 4 stored.0) stored.1
invalidate-Holds_example = invalidate-Holds disk 4 both_pages stored.0 stored.1 stored.3

-- Pages 4 and 5 are stored, page 1 evicts page 4, and page 4 is read back.
abbrev then_store : ℕ → Bytes → Option (BufferPool × Disk) → Option (BufferPool × Disk)
then_store p raw none = none
then_store p raw (some (pool, d)) = store_at disk p raw (Dict.get p pool.resident) pool d

abbrev then_fetch : ℕ → Option (BufferPool × Disk) → Option (Option Bytes × (BufferPool × Disk))
then_fetch p none = none
then_fetch p (some (pool, d)) = fetch disk p pool d

abbrev what :
    Option (Option Bytes × (BufferPool × Disk)) → Option (Option Bytes × (ℕ × Option Bytes))
what none = none
what (some (got, (pool, d))) = some (got, (pool.stats.evictions, d 4))

abbrev after : Option (Option Bytes × (BufferPool × Disk)) → Option (BufferPool × Disk)
after none = none
after (some (got, out)) = some out

evicted_and_read :
    what (
      then_fetch 4 (
        after (
          then_fetch 1
            (then_store 5 (8 ∷ []) (then_store 4 (9 ∷ []) (some (two_frames, one_page)))))))
    ≡ some (some (9 ∷ []), (2, some (9 ∷ [])))
unfolding store_at Dict.get chen_db.Storage.Buffer.count_from Dict.put fetch
evicted_and_read = refl

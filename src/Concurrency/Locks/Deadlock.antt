-- ===== src/Concurrency/Locks/Deadlock.antt =====
-- Deadlocks of the lock table, and what the search for a cycle says of them.
use chen_db.Prelude.{
  ℕ, ◌≡◌, refl, ap, ◌∙◌, inl, inr, true, false, some, List, [], ◌∷◌, ◌++◌, arith, ◌==◌, Bool-cases,
}
use chen_db.Prelude.Sets.{elem, elem-append_one}
use chen_db.Concurrency.Locks.Table.{LockManager}
use chen_db.Concurrency.Locks.Graph.{build_graph, find_cycle}
use chen_db.Concurrency.Locks.Cycle.{
  Chain, EmptyOrCycle, Fresh, find_cycle-EmptyOrCycle, find_cycle-Fresh,
}
use chen_db.Concurrency.Locks.Waits.{WaitsFor, build_graph-WaitsFor}

-- Each transaction of the list waits for the next one.
abbrev pub WaitChain : LockManager → List ℕ → Type 0
WaitChain m [] = Unit
WaitChain m (x ∷ []) = Unit
WaitChain m (x ∷ y ∷ ys) = WaitsFor m.table x y × WaitChain m (y ∷ ys)

-- No transactions, or some of which each waits for the next one and the last for the first.
abbrev pub EmptyOrDeadlock : LockManager → List ℕ → Type 0
EmptyOrDeadlock m [] = Unit
EmptyOrDeadlock m (x ∷ xs) = WaitChain m (x ∷ (xs ++ x ∷ []))

-- No transaction stands on the list twice.
abbrev pub Unrepeated : List ℕ → Type 0
Unrepeated [] = Unit
Unrepeated (x ∷ xs) = (elem x xs ≡ false) × Unrepeated xs

module _ (m : LockManager) where
  Chain-WaitChain : (xs : List ℕ) → Chain (build_graph m) xs → WaitChain m xs
  Chain-WaitChain [] h = tt
  Chain-WaitChain (x ∷ []) h = tt
  Chain-WaitChain (x ∷ y ∷ ys) h =
      ((build_graph-WaitsFor m x y).0 h.0, Chain-WaitChain (y ∷ ys) h.1)

  WaitChain-Chain : (xs : List ℕ) → WaitChain m xs → Chain (build_graph m) xs
  WaitChain-Chain [] h = tt
  WaitChain-Chain (x ∷ []) h = tt
  WaitChain-Chain (x ∷ y ∷ ys) h =
      ((build_graph-WaitsFor m x y).1 h.0, WaitChain-Chain (y ∷ ys) h.1)

  EmptyOrCycle-EmptyOrDeadlock :
      (xs : List ℕ) → EmptyOrCycle (build_graph m) xs → EmptyOrDeadlock m xs
  EmptyOrCycle-EmptyOrDeadlock [] h = tt
  EmptyOrCycle-EmptyOrDeadlock (x ∷ xs) h = Chain-WaitChain (x ∷ (xs ++ x ∷ [])) h

  Fresh-elem :
      (z : ℕ) (path xs : List ℕ)
      → Fresh (build_graph m) path xs
      → elem z path ≡ true
      → elem z xs ≡ false
  unfolding elem
  Fresh-elem z path [] f h = refl
  Fresh-elem z path (x ∷ xs) f h = elim (Bool-cases (x == z)) [
    | inl same ↦
        let e : x ≡ z = ground (arith, same) in
        absurd (ground (arith, f.0, ap (λ w. elem w path) e, h))
    | inr other ↦
        let later =
          Fresh-elem z (path ++ x ∷ []) xs f.1 (elem-append_one z x path ∙ (ground (arith, h))) in
        ground (arith, other, later)
  ]

  Fresh-Unrepeated : (path xs : List ℕ) → Fresh (build_graph m) path xs → Unrepeated xs
  unfolding elem
  Fresh-Unrepeated path [] f = tt
  Fresh-Unrepeated path (x ∷ xs) f = (
    Fresh-elem x (path ++ x ∷ []) xs f.1 (elem-append_one x x path ∙ (ground arith)),
    Fresh-Unrepeated (path ++ x ∷ []) xs f.1,
  )

  -- What the search from a transaction returns is empty, or transactions that wait for each other in a
  -- circle, each with a request in the table that the next one's locks stand in the way of.
  pub find_cycle-EmptyOrDeadlock :
      (start : ℕ) (found : List ℕ) → find_cycle start m ≡ some found → EmptyOrDeadlock m found
  find_cycle-EmptyOrDeadlock start found h =
      EmptyOrCycle-EmptyOrDeadlock found (find_cycle-EmptyOrCycle start m found h)

  -- Where the search from a transaction returns no cycle, every list that starts at the transaction and
  -- on which each waits for the next one in the lock table names no transaction twice: no deadlock is
  -- reachable from it.
  pub find_cycle-Unrepeated :
      (start : ℕ) (xs : List ℕ)
      → find_cycle start m ≡ some []
      → WaitChain m (start ∷ xs)
      → Unrepeated (start ∷ xs)
  find_cycle-Unrepeated start xs h c =
      Fresh-Unrepeated [] (start ∷ xs)
        (find_cycle-Fresh start m xs h (WaitChain-Chain (start ∷ xs) c))

-- ===== src/Concurrency/Locks/Cycle.antt =====
-- The depth-first search returns cycles only, and returns one whenever there is one to reach.
use chen_db.Prelude.{
  ℕ, zero, suc, ◌≤◌, ◌≡◌, ◌≢◌, sym, ap, ◌∙◌, inl, inr, true, false, Option, some, List, [], ◌∷◌,
  ◌++◌, arith, ◌==◌, length, Bool-cases, Option-cases, List-cases,
}
use chen_db.Prelude.Sets.{elem, sorted, elem-sorted}
use chen_db.Concurrency.Locks.Table.{LockManager}
use chen_db.Concurrency.Locks.Graph.{
  Graph, successors, build_graph, from_index, walk_each, walk, find_cycle, choose_victim,
}

module _ (graph : Graph) where
  -- `x` waits for `y`.
  abbrev pub Edge : ℕ → ℕ → Type 0
  Edge x y = elem y (successors graph x) ≡ true

  -- Each node of the list waits for the next one.
  abbrev pub Chain : List ℕ → Type 0
  Chain [] = Unit
  Chain (x ∷ []) = Unit
  Chain (x ∷ y ∷ ys) = Edge x y × Chain (y ∷ ys)

  -- Each waits for the next one, and the last for the first.
  abbrev pub IsCycle : List ℕ → Type 0
  IsCycle [] = ⊥
  IsCycle (x ∷ xs) = Chain (x ∷ (xs ++ x ∷ []))

  -- No cycle, or one.
  abbrev pub EmptyOrCycle : List ℕ → Type 0
  EmptyOrCycle [] = Unit
  EmptyOrCycle (x ∷ xs) = IsCycle (x ∷ xs)

  Chain-tail : (x : ℕ) (xs : List ℕ) → Chain (x ∷ xs) → Chain xs
  Chain-tail x [] h = tt
  Chain-tail x (y ∷ ys) h = h.1

  -- The part of a chain to `node` that starts where `node` first stands on it is a cycle.
  from_index-IsCycle :
      (node : ℕ) (path : List ℕ)
      → Chain (path ++ node ∷ [])
      → elem node path ≡ true
      → IsCycle (from_index node path)
  unfolding from_index elem
  from_index-IsCycle node [] c e = cc
  from_index-IsCycle node (x ∷ xs) c e = elim (Bool-cases (x == node)) [
    | inl here ↦ let q : node ≡ x = ground (arith, here) in rw here (rw q at c)
    | inr there ↦
        rw there
          (from_index-IsCycle node xs (Chain-tail x (xs ++ node ∷ []) c) (ground (arith, e, there)))
  ]

  Chain-append_one :
      (path : List ℕ) (x y : ℕ)
      → Chain (path ++ x ∷ [])
      → Edge x y
      → Chain ((path ++ x ∷ []) ++ y ∷ [])
  Chain-append_one [] x y c e = (e, tt)
  Chain-append_one (p ∷ []) x y c e = (c.0, (e, tt))
  Chain-append_one (p ∷ q ∷ qs) x y c e = (c.0, Chain-append_one (q ∷ qs) x y c.1 e)

  IsCycle-EmptyOrCycle : (c : List ℕ) → IsCycle c → EmptyOrCycle c
  IsCycle-EmptyOrCycle [] h = tt
  IsCycle-EmptyOrCycle (x ∷ xs) h = h

  -- A property of what is found at each successor holds of what the loop returns.
  walk_each-EmptyOrCycle :
      (go : ℕ → Option (List ℕ)) (ns found : List ℕ)
      → ((n : ℕ) (c : List ℕ) → elem n ns ≡ true → go n ≡ some c → EmptyOrCycle c)
      → walk_each go ns ≡ some found
      → EmptyOrCycle found
  unfolding walk_each elem
  walk_each-EmptyOrCycle go [] found each h = let e : found ≡ [] = ground arith in rw e tt
  walk_each-EmptyOrCycle go (n ∷ ns) found each h = elim (Option-cases (go n)) [
    | inl e ↦ absurd (ground (arith, e))
    | inr (c, e) ↦ elim (List-cases c) [
      | inl empty ↦
          walk_each-EmptyOrCycle go ns found (λ m d k. each m d (ground (arith, k)))
            (ground (arith, e, empty))
      | inr (x, xs, full) ↦
          let same : found ≡ c = ground (arith, e, full) in rw same (each n c (ground arith) e)
    ]
  ]

  walk-EmptyOrCycle :
      (fuel : ℕ) (path : List ℕ) (node : ℕ) (found : List ℕ)
      → Chain (path ++ node ∷ [])
      → walk fuel graph path node ≡ some found
      → EmptyOrCycle found
  unfolding walk
  walk-EmptyOrCycle zero path node found c h = absurd (ground arith)
  walk-EmptyOrCycle (suc fuel) path node found c h = elim (Bool-cases (elem node path)) [
    | inl seen ↦
        let same : found ≡ from_index node path = ground (arith, seen) in
        rw same (IsCycle-EmptyOrCycle (from_index node path) (from_index-IsCycle node path c seen))
    | inr new ↦
        walk_each-EmptyOrCycle (walk fuel graph (path ++ node ∷ []))
          (sorted (successors graph node)) found
          (λ n d k e.
            walk-EmptyOrCycle fuel (path ++ node ∷ []) n d
              (Chain-append_one path node n c (sym (elem-sorted n (successors graph node)) ∙ k)) e)
          (ground (arith, new))
  ]

  walk_each-nil :
      (go : ℕ → Option (List ℕ)) (ns : List ℕ) (n : ℕ)
      → walk_each go ns ≡ some []
      → elem n ns ≡ true
      → go n ≡ some []
  unfolding walk_each elem
  walk_each-nil go [] n h e = cc
  walk_each-nil go (m ∷ ns) n h e = elim (Option-cases (go m)) [
    | inl q ↦ absurd (ground (arith, q))
    | inr (c, q) ↦ elim (List-cases c) [
      | inr (x, xs, full) ↦ absurd (ground (arith, q, full))
      | inl empty ↦ elim (Bool-cases (m == n)) [
        | inl here ↦ let same : m ≡ n = ground (arith, here) in rw (← same) (q ∙ ap some empty)
        | inr there ↦ walk_each-nil go ns n (ground (arith, q, empty)) (ground (arith, there))
      ]
    ]
  ]

  from_index-ne-nil : (node : ℕ) (path : List ℕ) → elem node path ≡ true → from_index node path ≢ []
  unfolding from_index elem
  from_index-ne-nil node [] e = cc
  from_index-ne-nil node (x ∷ xs) e = ground (arith, from_index-ne-nil node xs)

  -- No node of the list stands on the path, or before it on the list.
  abbrev pub Fresh : List ℕ → List ℕ → Type 0
  Fresh path [] = Unit
  Fresh path (x ∷ xs) = (elem x path ≡ false) × Fresh (path ++ x ∷ []) xs

  -- Where the search of a node returns no cycle, no chain from the node comes back to itself.
  walk-Fresh :
      (fuel : ℕ) (path : List ℕ) (node : ℕ) (xs : List ℕ)
      → walk fuel graph path node ≡ some []
      → Chain (node ∷ xs)
      → Fresh path (node ∷ xs)
  unfolding walk
  walk-Fresh zero path node xs h c = absurd (ground arith)
  walk-Fresh (suc fuel) path node [] h c = elim (Bool-cases (elem node path)) [
    | inl seen ↦ absurd (from_index-ne-nil node path seen (ground (arith, seen)))
    | inr new ↦ (new, tt)
  ]
  walk-Fresh (suc fuel) path node (y ∷ ys) h c = elim (Bool-cases (elem node path)) [
    | inl seen ↦ absurd (from_index-ne-nil node path seen (ground (arith, seen)))
    | inr new ↦ (
      new,
      walk-Fresh fuel (path ++ node ∷ []) y ys
          (walk_each-nil (walk fuel graph (path ++ node ∷ [])) (sorted (successors graph node)) y
            (ground (arith, new)) (elem-sorted y (successors graph node) ∙ c.0))
          c.1,
    )
  ]

-- What the search from a transaction returns is empty, or transactions that
-- wait for each other in a circle.
pub find_cycle-EmptyOrCycle :
    (start : ℕ) (m : LockManager) (found : List ℕ)
    → find_cycle start m ≡ some found
    → EmptyOrCycle (build_graph m) found
unfolding find_cycle
find_cycle-EmptyOrCycle start m found h =
    walk-EmptyOrCycle (build_graph m) (suc (length (build_graph m))) [] start found tt h

-- Where the search from a transaction returns no cycle, every chain of waits that starts
-- at the transaction visits each transaction at most once: no deadlock is reachable from it.
pub find_cycle-Fresh :
    (start : ℕ) (m : LockManager) (xs : List ℕ)
    → find_cycle start m ≡ some []
    → Chain (build_graph m) (start ∷ xs)
    → Fresh (build_graph m) [] (start ∷ xs)
unfolding find_cycle
find_cycle-Fresh start m xs h c =
    walk-Fresh (build_graph m) (suc (length (build_graph m))) [] start xs h c

-- The chosen victim is a member of the cycle.
pub choose_victim-elem : (x : ℕ) (xs : List ℕ) → elem (choose_victim x xs) (x ∷ xs) ≡ true
unfolding choose_victim elem
choose_victim-elem x [] = ground arith
choose_victim-elem x (y ∷ ys) = grind (arith, choose_victim-elem y ys)

-- No member of the cycle is greater than the chosen victim: it is the youngest.
pub choose_victim-youngest :
    (x : ℕ) (xs : List ℕ) (y : ℕ) → elem y (x ∷ xs) ≡ true → y ≤ choose_victim x xs
unfolding choose_victim elem
choose_victim-youngest x [] z h = ground arith
choose_victim-youngest x (y ∷ ys) z h = ground (arith, choose_victim-youngest y ys z)

-- ===== src/Concurrency/Locks/Fuel.antt =====
-- The depth-first search ends: the waiting transactions that are not on the path become fewer.
use chen_db.Prelude.{
  ℕ, zero, suc, ◌≤◌, ◌<◌, ◌≡◌, refl, ap, inl, inr, false, Option, none, some, List, [], ◌∷◌, ◌++◌,
  arith, ◌==◌, if◌then◌else◌, length, nat_eq, Bool-cases, Option-cases, List-cases,
}
use chen_db.Prelude.Dict
use chen_db.Prelude.Sets.{elem, elem-append_one, sorted}
use chen_db.Concurrency.Locks.Table.{LockManager}
use chen_db.Concurrency.Locks.Graph.{
  Graph, successors, build_graph, from_index, walk_each, walk, find_cycle,
}

-- The waiting transactions that are not on the path.
unfoldable unvisited : List ℕ → Graph → ℕ
unvisited path [] = 0
unvisited path ((k, _) ∷ rest) = let n = unvisited path rest in if elem k path then n else suc n

unvisited-nil : (graph : Graph) → unvisited [] graph ≡ length graph
unfolding unvisited elem
unvisited-nil [] = refl
unvisited-nil ((k, ns) ∷ rest) = ap suc (unvisited-nil rest)

unvisited-append_le :
    (path : List ℕ) (x : ℕ) (graph : Graph)
    → unvisited (path ++ x ∷ []) graph ≤ unvisited path graph
unfolding unvisited
unvisited-append_le path x [] = omega arith
unvisited-append_le path x ((k, ns) ∷ rest) =
    ground (arith, elem-append_one k x path, unvisited-append_le path x rest)

-- A step to a waiting transaction that is not on the path leaves fewer of them.
unvisited-append :
    (path : List ℕ) (x : ℕ) (graph : Graph) (ns : List ℕ)
    → elem x path ≡ false
    → Dict.get x graph ≡ some ns
    → unvisited (path ++ x ∷ []) graph < unvisited path graph
unfolding unvisited Dict.get
unvisited-append path x [] ns new h = absurd (ground arith)
unvisited-append path x ((k, ms) ∷ rest) ns new h = elim (Bool-cases (k == x)) [
  | inl here ↦
      let same : k ≡ x = ground (arith, here) in
      ground (
        arith,
        here,
        ap (λ z. elem z path) same,
        elem-append_one k x path,
        unvisited-append_le path x rest,
      )
  | inr there ↦
      let fewer = unvisited-append path x rest ns new (ground (arith, there)) in
      ground (arith, there, elem-append_one k x path, fewer)
]

module _ (graph : Graph) where
  walk_each-total :
      (go : ℕ → Option (List ℕ)) (ns : List ℕ)
      → ((n : ℕ) → (found : List ℕ) × (go n ≡ some found))
      → (found : List ℕ) × (walk_each go ns ≡ some found)
  unfolding walk_each
  walk_each-total go [] each = ([], refl)
  walk_each-total go (n ∷ ns) each =
      let (c, e) = each n in
      let (rest, r) = walk_each-total go ns each in
      elim (List-cases c) [
        | inl empty ↦ (rest, ground (arith, e, r, empty))
        | inr (x, xs, full) ↦ (x ∷ xs, ground (arith, e, r, full))
      ]

  -- A transaction that waits for nothing ends the search.
  walk-dead_end :
      (fuel : ℕ) (path : List ℕ) (node : ℕ)
      → Dict.get node graph ≡ none
      → elem node path ≡ false
      → walk (suc fuel) graph path node ≡ some []
  unfolding walk sorted walk_each
  walk-dead_end fuel path node leaf new = simp (leaf, new)

  walk-total :
      (fuel : ℕ) (path : List ℕ) (node : ℕ)
      → unvisited path graph < fuel
      → (found : List ℕ) × (walk fuel graph path node ≡ some found)
  unfolding walk
  walk-total zero path node h = absurd (omega arith)
  walk-total (suc fuel) path node h = elim (Bool-cases (elem node path)) [
    | inl seen ↦ (from_index node path, ground (arith, seen))
    | inr new ↦ elim (Option-cases (Dict.get node graph)) [
      | inl leaf ↦ ([], walk-dead_end fuel path node leaf new)
      | inr (ns, e) ↦
          let fewer = unvisited-append path node graph ns new e in
          let (found, r) =
            walk_each-total (walk fuel graph (path ++ node ∷ [])) (sorted (successors graph node))
              (λ n. walk-total fuel (path ++ node ∷ []) n (omega (arith, fewer))) in
          (found, ground (arith, new, r))
    ]
  ]

-- The search always returns: its fuel, one more than the number of waiting
-- transactions, is enough.
pub find_cycle_total :
    (start : ℕ) (m : LockManager) → (found : List ℕ) × (find_cycle start m ≡ some found)
unfolding find_cycle
find_cycle_total start m =
    let graph = build_graph m in
    walk-total graph (suc (length graph)) [] start (omega (arith, unvisited-nil graph))

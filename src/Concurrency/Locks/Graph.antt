-- ===== src/Concurrency/Locks/Graph.antt =====
-- engine/concurrency/locks.py: the wait-for graph, and the search for a cycle in it.
use chen_db.Prelude.{
  ℕ, zero, suc, max, Option, none, some, List, [], ◌∷◌, ◌++◌, ◌==◌, if◌then◌else◌, length, nat_eq,
  string_eq,
}
use chen_db.Prelude.Dict
use chen_db.Prelude.Dict.{Dict}
use chen_db.Prelude.Sets.{elem, union, sorted}
use chen_db.Concurrency.Locks.Table.{
  ResourceId, LockRequest, is_nil, LockTableEntry, conflicts_with, LockManager,
}

-- The wait-for graph: an edge from each waiter to each holder that blocks it.
abbrev pub Graph : Type 0
Graph = Dict ℕ (List ℕ)

abbrev pub nodes_or_none : Option (List ℕ) → List ℕ
nodes_or_none none = []
nodes_or_none (some xs) = xs

abbrev pub successors : Graph → ℕ → List ℕ
successors graph node = nodes_or_none (Dict.get node graph)

unfoldable pub add_waiters : LockTableEntry → List LockRequest → Graph → Graph
add_waiters entry [] graph = graph
add_waiters entry (w ∷ ws) graph =
    let blockers = conflicts_with entry w.transaction_id w.mode in
    add_waiters entry ws (
      if is_nil blockers
      then graph
      else Dict.put w.transaction_id (union (successors graph w.transaction_id) blockers) graph)

unfoldable pub build_graph_from : Dict ResourceId LockTableEntry → Graph → Graph
unfolding add_waiters
build_graph_from [] graph = graph
build_graph_from ((_, entry) ∷ rest) graph =
    build_graph_from rest (add_waiters entry entry.waiters graph)

unfoldable pub build_graph : LockManager → Graph
unfolding build_graph_from
build_graph m = build_graph_from m.table []

-- `path[path.index(node):]`
unfoldable pub from_index : ℕ → List ℕ → List ℕ
from_index node [] = []
from_index node (x ∷ xs) = if x == node then x ∷ xs else from_index node xs

-- The loop over the successors: the first cycle found is returned.
unfoldable pub walk_each : (ℕ → Option (List ℕ)) → List ℕ → Option (List ℕ)
walk_each walk [] = some []
walk_each walk (x ∷ xs) =
    let rest = walk_each walk xs in
    elim (walk x) [ none ↦ none | some [] ↦ rest | some (c ∷ cs) ↦ some (c ∷ cs) ]

-- The depth-first search, on fuel: `none` means that the fuel ran out.
unfoldable pub walk : ℕ → Graph → List ℕ → ℕ → Option (List ℕ)
unfolding walk_each from_index
walk zero graph path node = none
walk (suc fuel) graph path node =
    let deeper = walk_each (walk fuel graph (path ++ node ∷ [])) (sorted (successors graph node)) in
    if elem node path then some (from_index node path) else deeper

-- The nodes on a path are distinct and wait for something, so one more than the
-- number of waiting transactions is fuel enough.
unfoldable pub find_cycle : ℕ → LockManager → Option (List ℕ)
unfolding walk
find_cycle start m = let graph = build_graph m in walk (suc (length graph)) graph [] start

-- `max(cycle)` of a cycle that is not empty.
unfoldable pub choose_victim : ℕ → List ℕ → ℕ
choose_victim x [] = x
choose_victim x (y ∷ ys) = max x (choose_victim y ys)

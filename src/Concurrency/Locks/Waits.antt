-- ===== src/Concurrency/Locks/Waits.antt =====
-- Who waits for whom, read off the lock table, and that the wait-for graph says the same.
use chen_db.Prelude.{
  ℕ, ◌≡◌, ◌≢◌, ◌⊎◌, refl, sym, ap, ◌∙◌, inl, inr, true, false, not, ◌&&◌, ◌||◌, Option, List, [],
  ◌∷◌, arith, ◌==◌, if◌then◌else◌, Bool-cases, List-cases, nat_eq, string_eq,
}
use chen_db.Prelude.Dict
use chen_db.Prelude.Dict.{Dict}
use chen_db.Prelude.Sets.{elem, union, elem-union}
use chen_db.Concurrency.Locks.Table.{
  ResourceId, LockMode, shared, exclusive, compatible, conflicting, LockRequest, LockTableEntry,
  LockManager, is_nil, conflicts_with,
}
use chen_db.Concurrency.Locks.Graph.{
  Graph, nodes_or_none, successors, add_waiters, build_graph_from, build_graph,
}
use chen_db.Concurrency.Locks.Cycle.{Edge}

-- Two modes exclude each other, unless both are shared.
abbrev pub Excludes : LockMode → LockMode → Type 0
Excludes shared shared = ⊥
Excludes shared exclusive = Unit
Excludes exclusive mode = Unit

-- `y` holds the resource in a mode that excludes the one wanted.
abbrev pub HeldBy : ℕ → LockMode → Dict ℕ LockMode → Type 0
HeldBy y mode [] = ⊥
HeldBy y mode ((holder, held) ∷ rest) = ((holder ≡ y) × Excludes held mode) ⊎ HeldBy y mode rest

-- `x` has a request among those that wait, which `y`, another transaction, stands in the way of.
abbrev pub WaitsIn : ℕ → ℕ → Dict ℕ LockMode → List LockRequest → Type 0
WaitsIn x y holders [] = ⊥
WaitsIn x y holders (w ∷ ws) =
    ((w.transaction_id ≡ x) × (x ≢ y) × HeldBy y w.mode holders) ⊎ WaitsIn x y holders ws

-- `x` waits for `y` at some resource.
abbrev pub WaitsFor : Dict ResourceId LockTableEntry → ℕ → ℕ → Type 0
WaitsFor [] x y = ⊥
WaitsFor ((_, entry) ∷ rest) x y = WaitsIn x y entry.holders entry.waiters ⊎ WaitsFor rest x y

compatible-Excludes : (held mode : LockMode) → compatible held mode ≡ false → Excludes held mode
unfolding compatible
compatible-Excludes shared shared h = cc
compatible-Excludes shared exclusive h = tt
compatible-Excludes exclusive mode h = tt

Excludes-compatible : (held mode : LockMode) → Excludes held mode → compatible held mode ≡ false
unfolding compatible
Excludes-compatible shared shared h = elim h [ ]
Excludes-compatible shared exclusive h = refl
Excludes-compatible exclusive mode h = refl

module _ (t y : ℕ) (mode : LockMode) where
  conflicting-HeldBy :
      (holders : Dict ℕ LockMode)
      → elem y (conflicting t mode holders) ≡ true
      → (t ≢ y) × HeldBy y mode holders
  unfolding conflicting elem
  conflicting-HeldBy [] h = cc
  conflicting-HeldBy ((holder, held) ∷ rest) h =
      elim (Bool-cases (not (holder == t) && not (compatible held mode))) [
        | inr free ↦ let (ne, found) = conflicting-HeldBy rest (simp free at h) in (ne, inr found)
        | inl blocks ↦ elim (Bool-cases (holder == y)) [
          | inl here ↦ (
            ground (arith, blocks, here),
            inl (ground (arith, here), compatible-Excludes held mode (ground (arith, blocks))),
          )
          | inr there ↦
              let (ne, found) = conflicting-HeldBy rest (ground (arith, h, blocks, there)) in
              (ne, inr found)
        ]
      ]

  HeldBy-conflicting :
      (holders : Dict ℕ LockMode)
      → t ≢ y
      → HeldBy y mode holders
      → elem y (conflicting t mode holders) ≡ true
  unfolding conflicting elem
  HeldBy-conflicting [] ne h = elim h [ ]
  HeldBy-conflicting ((holder, held) ∷ rest) ne (inl (same, ex)) =
      let blocked = Excludes-compatible held mode ex in ground (arith, same, ne, blocked)
  HeldBy-conflicting ((holder, held) ∷ rest) ne (inr later) =
      ground (arith, HeldBy-conflicting rest ne later)

module _ (x y : ℕ) where
  -- What one waiter adds to the graph.
  one_waiter :
      (t : ℕ) (blockers : List ℕ) (graph : Graph)
      → elem y (
          successors
            (if is_nil blockers
              then graph
              else Dict.put t (union (successors graph t) blockers) graph)
            x)
        ≡ (elem y (successors graph x) || ((t == x) && elem y blockers))
  one_waiter t blockers graph = elim (List-cases blockers) [
    | inl empty ↦ rw empty (unfold elem in ground arith)
    | inr (b, bs, full) ↦ rw full (
        ap (λ (z : Option (List ℕ)). elem y (nodes_or_none z))
          (Dict.get-put t x (union (successors graph t) (b ∷ bs)) graph)
        ∙ (elim (Bool-cases (t == x)) [
          | inl here ↦
              let e : t ≡ x = ground (arith, here) in
              simp here (
                elem-union y (successors graph t) (b ∷ bs)
                ∙ ap (λ z. elem y (successors graph z) || elem y (b ∷ bs)) e)
          | inr there ↦ simp there (ground arith)
        ]))
  ]

  add_waiters-WaitsIn :
      (entry : LockTableEntry) (ws : List LockRequest) (graph : Graph)
      → Edge (add_waiters entry ws graph) x y
      → Edge graph x y ⊎ WaitsIn x y entry.holders ws
  unfolding add_waiters
  add_waiters-WaitsIn entry [] graph h = inl h
  add_waiters-WaitsIn entry (w ∷ ws) graph h =
      let blockers = conflicts_with entry w.transaction_id w.mode in
      let graph' : Graph =
        if is_nil blockers
        then graph
        else Dict.put w.transaction_id (union (successors graph w.transaction_id) blockers) graph in
      elim (add_waiters-WaitsIn entry ws graph' h) [
        | inr later ↦ inr (inr later)
        | inl now ↦
            let step = sym (one_waiter w.transaction_id blockers graph) ∙ now in
            elim (Bool-cases (elem y (successors graph x))) [
              | inl before ↦ inl before
              | inr new ↦
                  let e : w.transaction_id ≡ x = ground (arith, step, new) in
                  let found : elem y blockers ≡ true = ground (arith, step, new) in
                  let (ne, held) =
                    conflicting-HeldBy w.transaction_id y w.mode entry.holders found in
                  inr (inl (e, (λ q. ne (e ∙ q)), held))
            ]
      ]

  WaitsIn-add_waiters :
      (entry : LockTableEntry) (ws : List LockRequest) (graph : Graph)
      → Edge graph x y ⊎ WaitsIn x y entry.holders ws
      → Edge (add_waiters entry ws graph) x y
  unfolding add_waiters
  WaitsIn-add_waiters entry [] graph (inl h) = h
  WaitsIn-add_waiters entry [] graph (inr h) = elim h [ ]
  WaitsIn-add_waiters entry (w ∷ ws) graph h =
      let blockers = conflicts_with entry w.transaction_id w.mode in
      let graph' : Graph =
        if is_nil blockers
        then graph
        else Dict.put w.transaction_id (union (successors graph w.transaction_id) blockers) graph in
      let step = one_waiter w.transaction_id blockers graph in
      WaitsIn-add_waiters entry ws graph' (elim h [
        | inl before ↦ inl (step ∙ (ground (arith, before)))
        | inr (inr later) ↦ inr later
        | inr (inl (e, ne, held)) ↦
            let found : elem y blockers ≡ true =
              HeldBy-conflicting w.transaction_id y w.mode entry.holders (λ q. ne (sym e ∙ q))
                held in
            inl (step ∙ (ground (arith, e, found)))
      ])

  build_graph_from-WaitsFor :
      (table : Dict ResourceId LockTableEntry) (graph : Graph)
      → Edge (build_graph_from table graph) x y
      → Edge graph x y ⊎ WaitsFor table x y
  unfolding build_graph_from
  build_graph_from-WaitsFor [] graph h = inl h
  build_graph_from-WaitsFor ((r, entry) ∷ rest) graph h =
      elim (build_graph_from-WaitsFor rest (add_waiters entry entry.waiters graph) h) [
        | inr later ↦ inr (inr later)
        | inl now ↦ elim (add_waiters-WaitsIn entry entry.waiters graph now) [
          | inl before ↦ inl before
          | inr here ↦ inr (inl here)
        ]
      ]

  WaitsFor-build_graph_from :
      (table : Dict ResourceId LockTableEntry) (graph : Graph)
      → Edge graph x y ⊎ WaitsFor table x y
      → Edge (build_graph_from table graph) x y
  unfolding build_graph_from
  WaitsFor-build_graph_from [] graph (inl h) = h
  WaitsFor-build_graph_from [] graph (inr h) = elim h [ ]
  WaitsFor-build_graph_from ((r, entry) ∷ rest) graph h =
      WaitsFor-build_graph_from rest (add_waiters entry entry.waiters graph) (elim h [
        | inl before ↦ inl (WaitsIn-add_waiters entry entry.waiters graph (inl before))
        | inr (inl here) ↦ inl (WaitsIn-add_waiters entry entry.waiters graph (inr here))
        | inr (inr later) ↦ inr later
      ])

-- The edges of the graph are the waits of the lock table.
pub build_graph-WaitsFor :
    (m : LockManager) (x y : ℕ)
    → (Edge (build_graph m) x y → WaitsFor m.table x y)
      × (WaitsFor m.table x y → Edge (build_graph m) x y)
unfolding build_graph elem Dict.get
build_graph-WaitsFor m x y = (
  (λ h. elim (build_graph_from-WaitsFor x y m.table [] h) [
    | inl none_yet ↦ absurd (ground (arith, none_yet))
    | inr waits ↦ waits
  ]),
  (λ h. WaitsFor-build_graph_from x y m.table [] (inr h)),
)

-- ===== src/AnnMst.antt =====
-- mqo/ann/build_mst_from_ann.hpp: Prim's algorithm on the neighbour lists of an HNSW index, with a
-- priority queue. The index is a parameter: its neighbour lists and its distances.
pub mod Bounds
pub mod Visit
pub mod Drain
pub mod Correct
pub mod Undirected
use mqo_public.Prelude.{
  ℕ, zero, suc, ◌+◌, ◌-◌, Bool, true, false, Option, none, some, List, [], ◌∷◌, ◌++◌, map, length,
  set, replicate, Run, ok, err, index, out_of_fuel, ◌>>=◌, ltb, if◌then◌else◌,
}
use mqo_public.Floats.{Floats}
use mqo_public.Trajectory.{Edge}
use mqo_public.Queue.{PriorityQueue}

module _ (fl : Floats) where
  open fl use {Float, Double, lt, root, d_add, d_div, d_of_int, to_double, zero as float_zero}

  -- What the code reads of a `HierarchicalNSW<float>`: the ids in the level-0 list of a node, and
  -- `fstdistfunc_` of the vectors of two nodes.
  pub record Hnsw : Type 0 where
    pub links : ℕ → List ℕ
    pub fst_dist : ℕ → ℕ → Float

  pub get_neighbors : Hnsw → ℕ → List (ℕ × Float)
  get_neighbors index v = map (λ nb. (nb, root (index.fst_dist v nb))) (index.links v)

  -- `tuple<float, int, int>` and `PQItem`.
  pub record PqItem : Type 0 where
    pub weight : Float
    pub node : ℕ
    pub parent : Option ℕ

  -- The comparison puts the least weight on top.
  abbrev pub heavier : PqItem → PqItem → Bool
  heavier a b = lt b.weight a.weight

  module _ (pq : PriorityQueue PqItem heavier) where
    open pq use {Queue, empty, push, pop}

    -- The variables of the functions.
    pub record State : Type 0 where
      pub visited : List Bool
      pub edges : List Edge
      pub total : Double
      pub components : ℕ
      pub queue : Queue

    -- `for (auto& [nbId, dist] : neighbors) if (!visited[nbId]) pq.push({dist, nbId, node});`
    pub push_unvisited : List Bool → ℕ → List (ℕ × Float) → Queue → Run Queue
    push_unvisited visited node [] q = ok q
    push_unvisited visited node ((nb, d) ∷ nbs) q = do
      seen ← index visited nb
      push_unvisited visited node nbs
          (if seen then q else push (record { weight = d; node = nb; parent = some node }) q)

    -- A vertex is marked and written, and its neighbours are pushed.
    pub visit : (ℕ → Run (List (ℕ × Float))) → ℕ → Option ℕ → State → Run State
    unfolding push_unvisited
    visit adj v p s = do
      let visited = set s.visited v true
      nbs ← adj v
      q ← push_unvisited visited v nbs s.queue
      ok (record s { visited = visited; edges = s.edges ++ (v, p) ∷ []; queue = q })

    -- `while (!pq.empty())`
    pub drain : (ℕ → Run (List (ℕ × Float))) → ℕ → State → Run State
    unfolding visit
    drain adj zero s = err out_of_fuel
    drain adj (suc fuel) s = elim (pop s.queue) [
      | none ↦ ok s
      | some (it, q) ↦ do
        seen ← index s.visited it.node
        elim seen [
          | true ↦ drain adj fuel (record s { queue = q })
          | false ↦ do
            s' ←
                visit adj it.node it.parent
                  (record s { queue = q; total = d_add s.total (to_double it.weight) })
            drain adj fuel s'
        ]
    ]

    -- The body of `for (start = 0; …)` of `approximateMSTUsingHNSW`.
    pub start_directed : (ℕ → Run (List (ℕ × Float))) → ℕ → ℕ → State → Run State
    unfolding drain
    start_directed adj fuel start s = do
      seen ← index s.visited start
      elim seen [
        | true ↦ ok s
        | false ↦ do
          s' ← visit adj start none (record s { components = suc s.components })
          drain adj fuel s'
      ]

    -- The body of `for (start = 0; …)` of `approximateMSTUsingHNSW_undirected`.
    pub start_undirected : (ℕ → Run (List (ℕ × Float))) → ℕ → ℕ → State → Run State
    unfolding drain
    start_undirected adj fuel start s = do
      seen ← index s.visited start
      elim seen [
        | true ↦ ok s
        | false ↦ drain adj fuel (record s {
          components = suc s.components;
          queue = push (record { weight = float_zero; node = start; parent = none }) s.queue;
        })
      ]

    -- `for (start = 0; start < n_query; start++)`, from `i` on with `k` rounds left.
    pub for_starts : (ℕ → State → Run State) → ℕ → ℕ → State → Run State
    for_starts body zero i s = ok s
    for_starts body (suc k) i s = do s' ← body i s; for_starts body k (suc i) s'

    abbrev pub initial : ℕ → State
    initial n = record {
      visited = replicate n false;
      edges = [];
      total = d_of_int 0;
      components = 0;
      queue = empty;
    }

    pub average : ℕ → State → Double
    average n s =
        if ltb 0 (n - s.components) then d_div s.total (d_of_int (n - s.components)) else d_of_int 0

    unfoldable pub approximate_mst : ℕ → Hnsw → ℕ → Run (List Edge × Double)
    unfolding for_starts start_directed get_neighbors average
    approximate_mst fuel hnsw n = do
      s ← for_starts (start_directed (λ v. ok (get_neighbors hnsw v)) fuel) n 0 (initial n)
      ok (s.edges, average n s)

  -- `adj[v].emplace_back(u, d)`
  pub add_neighbor : ℕ → ℕ → Float → List (List (ℕ × Float)) → Run (List (List (ℕ × Float)))
  add_neighbor v u d adj = do nbs ← index adj v; ok (set adj v (nbs ++ (u, d) ∷ []))

  -- The loop over the neighbours of `v`: an edge is kept at its smaller end, for both ends.
  pub add_neighbors : ℕ → List (ℕ × Float) → List (List (ℕ × Float)) → Run (List (List (ℕ × Float)))
  unfolding add_neighbor
  add_neighbors v [] adj = ok adj
  add_neighbors v ((u, d) ∷ nbs) adj = elim (ltb v u) [
    | true ↦ do
      adj₁ ← add_neighbor v u d adj
      adj₂ ← add_neighbor u v d adj₁
      add_neighbors v nbs adj₂
    | false ↦ add_neighbors v nbs adj
  ]

  -- `for (v = 0; v < n_query; ++v)`, from `v` on with `k` rounds left.
  pub undirected : Hnsw → ℕ → ℕ → List (List (ℕ × Float)) → Run (List (List (ℕ × Float)))
  unfolding add_neighbors get_neighbors
  undirected hnsw zero v adj = ok adj
  undirected hnsw (suc k) v adj = do
    adj' ← add_neighbors v (get_neighbors hnsw v) adj
    undirected hnsw k (suc v) adj'

  module _ (pq : PriorityQueue PqItem heavier) where
    unfoldable pub approximate_mst_undirected : ℕ → Hnsw → ℕ → Run (List Edge × Double)
    unfolding undirected for_starts start_undirected average
    approximate_mst_undirected fuel hnsw n = do
      adj ← undirected hnsw n 0 (replicate n [])
      s ← for_starts pq (start_undirected pq (index adj) fuel) n 0 (initial pq n)
      ok (s.edges, average pq n s)

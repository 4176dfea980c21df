-- ===== src/AnnMst/Undirected.antt =====
-- The undirected neighbour lists, and Prim's algorithm on them.
use mqo_public.Prelude.{
  ℕ, zero, suc, ◌+◌, ◌*◌, ◌<◌, ◌≤◌, ◌≡◌, refl, ap, ◌∙◌, subst, false, Option, none, some, List, [],
  ◌∷◌, ◌++◌, length, length-map, length-append, length-set, length-replicate, set, replicate,
  get_elem?, get_elem?-lt, get_elem?-set_self, get_elem?-set_ne, All, Run, ok, ltb, ◌==◌, ==_iff,
  if◌then◌else◌, arith, Bool-cases, inl, inr, index,
}
use mqo_public.Floats.{Floats}
use mqo_public.Trajectory.{Edge, IsTrajectory}
use mqo_public.Queue.{PriorityQueue}
use mqo_public.AnnMst.{
  PqItem, heavier, start_undirected, Hnsw, get_neighbors, average, add_neighbor, add_neighbors,
  undirected, approximate_mst_undirected,
}
use mqo_public.AnnMst.Bounds.{sum_below, sum_below-change}
use mqo_public.AnnMst.Visit.{IsGraph}
use mqo_public.AnnMst.Correct.{search_lem, start_undirected_lem, IsIndex, degrees, neighbors-inside}

module _ (fl : Floats) (n : ℕ) where
  abbrev Row : Type 0
  Row = List (ℕ × fl.Float)

  abbrev Inside : Row → Type 0
  Inside r = All (λ e. e.0 < n) r

  abbrev row_of : Option Row → Row
  row_of none = []
  row_of (some r) = r

  abbrev pub row : List Row → ℕ → Row
  row adj v = row_of (get_elem? adj v)

  -- A row for each query, ids of queries in them, and at most `k` entries.
  pub record Table (k : ℕ) (adj : List Row) : Type 0 where
    pub size : length adj ≡ n
    pub inside : (v : ℕ) → Inside (row adj v)
    pub entries : sum_below (λ v. length (row adj v)) n ≤ k

  Inside-snoc : (r : Row) (u : ℕ) (d : fl.Float) → u < n → Inside r → Inside (r ++ (u, d) ∷ [])
  Inside-snoc [] u d below h = (below, tt)
  Inside-snoc (e ∷ r) u d below h = (h.0, Inside-snoc r u d below h.1)

  add_neighbor_lem :
      (v u : ℕ) (d : fl.Float) (k : ℕ) (adj : List Row)
      → v < n
      → u < n
      → Table k adj
      → (adj' : List Row) × (add_neighbor fl v u d adj ≡ ok adj') × Table (suc k) adj'
  unfolding add_neighbor
  add_neighbor_lem v u d k adj below near t =
      let (r, found) = get_elem?-lt adj v (omega (arith, t.size)) in
      let adj' = set adj v (r ++ (u, d) ∷ []) in
      let here : row adj' v ≡ r ++ (u, d) ∷ [] =
        ap row_of (get_elem?-set_self adj v (r ++ (u, d) ∷ []) (omega (arith, t.size))) in
      let there : (w : ℕ) → (w == v) ≡ false → row adj' w ≡ row adj w =
        λ w e. ap row_of (get_elem?-set_ne adj v w (r ++ (u, d) ∷ []) (ground arith)) in
      let grown : (w : ℕ) → length (row adj' w) ≡ length (row adj w) + (if w == v then 1 else 0) =
        λ w. elim (Bool-cases (w == v)) [
          | inl e ↦
              let same : w ≡ v = (==_iff w v).0 e in
              rw (same, here, found) (ground (arith, length-append r ((u, d) ∷ [])))
          | inr e ↦ ground (arith, ap length (there w e))
        ] in
      let inside : (w : ℕ) → Inside (row adj' w) = λ w. elim (Bool-cases (w == v)) [
        | inl e ↦
            let same : w ≡ v = (==_iff w v).0 e in
            rw (same, here) (Inside-snoc r u d near (subst Inside (ap row_of found) (t.inside v)))
        | inr e ↦ rw (there w e) (t.inside w)
      ] in
      (
        adj',
        rw found refl,
        record {
          size = length-set adj v (r ++ (u, d) ∷ []) ∙ t.size;
          inside = inside;
          entries = ground (
            arith,
            t.entries,
            sum_below-change (λ w. length (row adj' w)) (λ w. length (row adj w)) v 1 n grown,
          );
        },
      )

  add_neighbors_lem :
      (v : ℕ) (nbs : Row) (k : ℕ) (adj : List Row)
      → v < n
      → Inside nbs
      → Table k adj
      → (adj' : List Row) × (add_neighbors fl v nbs adj ≡ ok adj') × Table (k + 2 * length nbs) adj'
  unfolding add_neighbors
  add_neighbors_lem v [] k adj below near t =
      (adj, refl, record { size = t.size; inside = t.inside; entries = omega (arith, t.entries) })
  add_neighbors_lem v ((u, d) ∷ nbs) k adj below near t = elim (Bool-cases (ltb v u)) [
    | inl e ↦
        let (adj₁, e₁, t₁) = add_neighbor_lem v u d k adj below near.0 t in
        let (adj₂, e₂, t₂) = add_neighbor_lem u v d (suc k) adj₁ near.0 below t₁ in
        let (adj', ends, t') = add_neighbors_lem v nbs (suc (suc k)) adj₂ below near.1 t₂ in
        (
          adj',
          rw (add_neighbors, e, e₁, e₂) ends,
          record { size = t'.size; inside = t'.inside; entries = omega (arith, t'.entries) },
        )
    | inr e ↦
        let (adj', ends, t') = add_neighbors_lem v nbs k adj below near.1 t in
        (
          adj',
          rw (add_neighbors, e) ends,
          record { size = t'.size; inside = t'.inside; entries = omega (arith, t'.entries) },
        )
  ]

  undirected_lem :
      (hnsw : Hnsw fl)
      → ((v : ℕ) → v < n → Inside (get_neighbors fl hnsw v))
      → (k v : ℕ) (adj : List Row) → v + k ≡ n
      → Table (2 * sum_below (λ u. length (hnsw.links u)) v) adj
      → (adj' : List Row) × (undirected fl hnsw k v adj ≡ ok adj')
        × Table (2 * sum_below (λ u. length (hnsw.links u)) n) adj'
  unfolding undirected get_neighbors
  undirected_lem hnsw near zero v adj e t =
      let same : v ≡ n = omega (arith, e) in
      (adj, refl, subst (λ m. Table (2 * sum_below (λ u. length (hnsw.links u)) m) adj) same t)
  undirected_lem hnsw near (suc k) v adj e t =
      let (adj₁, e₁, t₁) =
        add_neighbors_lem v (get_neighbors fl hnsw v) _ adj (omega (arith, e))
          (near v (omega (arith, e))) t in
      let (adj', ends, t') = undirected_lem hnsw near k (suc v) adj₁ (omega (arith, e)) (record {
        size = t₁.size;
        inside = t₁.inside;
        entries = omega (
          arith,
          t₁.entries,
          length-map {B = ℕ × fl.Float} (λ nb. (nb, fl.root (hnsw.fst_dist v nb))) (hnsw.links v),
        );
      }) in
      (adj', rw e₁ ends, t')

  Table-replicate : Table 0 (replicate n [])
  Table-replicate = record {
    size = length-replicate n [];
    inside = λ v. empty-Inside n v;
    entries = empty_entries n n;
  }
    where
      empty_row : (m v : ℕ) → row (replicate m []) v ≡ []
      empty_row zero v = refl
      empty_row (suc m) zero = refl
      empty_row (suc m) (suc v) = empty_row m v

      empty-Inside : (m v : ℕ) → Inside (row (replicate m []) v)
      empty-Inside m v = rw (empty_row m v) tt

      empty_entries : (m k : ℕ) → sum_below (λ v. length (row (replicate m []) v)) k ≤ 0
      empty_entries m zero = omega arith
      empty_entries m (suc k) = omega (arith, ap length (empty_row m k), empty_entries m k)

module _ (fl : Floats) (pq : PriorityQueue (PqItem fl) (heavier fl)) where
  -- `approximateMSTUsingHNSW_undirected` returns a trajectory of the n queries for every index whose
  -- neighbour lists hold ids of queries. The fuel is more than one plus twice the entries of the
  -- lists, since an entry is kept for both of its ends.
  pub approximate_mst_undirected-IsTrajectory :
      (fuel : ℕ) (hnsw : Hnsw fl) (n : ℕ)
      → IsIndex fl pq n hnsw
      → 1 + 2 * degrees fl pq n hnsw < fuel
      → (t : List Edge) × (w : fl.Double) × (approximate_mst_undirected fl pq fuel hnsw n
          ≡ ok (t, w))
        × IsTrajectory n t
  unfolding approximate_mst_undirected get_neighbors
  approximate_mst_undirected-IsTrajectory fuel hnsw n inside enough =
      let (adj, made, table) =
        undirected_lem fl n hnsw
          (λ v k. neighbors-inside fl pq n hnsw v (hnsw.links v) (inside v k)) n 0 (replicate n [])
          (omega arith) (Table-replicate fl n) in
      let bound = 2 * degrees fl pq n hnsw in
      let find : ℕ → Run (List (ℕ × fl.Float)) = index adj in
      let graph : IsGraph fl pq n find (row fl n adj) = record {
        found = λ v k. let (r, e) = get_elem?-lt adj v (omega (arith, table.size)) in rw e refl;
        inside = λ v k. table.inside v;
      } in
      let (s, ends, trajectory) =
        search_lem fl pq n find (row fl n adj) graph bound (start_undirected fl pq find fuel)
          (λ start s.
            start_undirected_lem fl pq n find (row fl n adj) graph bound fuel start s
              (omega (arith, enough)))
          table.entries in
      (s.edges, average fl pq n s, rw (made, ends) refl, trajectory)

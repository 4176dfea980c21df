-- ===== src/AnnMst/Visit.antt =====
-- The invariant of the search, and that a visit keeps it.
use mqo_public.Prelude.{
  ℕ, ◌+◌, ◌<◌, ◌≤◌, ◌≡◌, refl, Bool, true, ◌&&◌, Option, none, some, List, [], ◌∷◌, ◌++◌, length,
  set, get_elem?, get_elem?-set_self, get_elem?-set_ne, lt-length_of_get, count, count-append, All,
  Run, ok, ltb, ◌==◌, if◌then◌else◌, arith, Bool-cases, inl, inr, ==_iff,
}
use mqo_public.Floats.{Floats}
use mqo_public.Trajectory.{Edge, nodes, ParentsFirst}
use mqo_public.Trajectory.Forest.{ParentsFirst-snoc, nodes-append, ParentIn}
use mqo_public.Queue.{PriorityQueue}
use mqo_public.AnnMst.{PqItem, heavier, State, visit}
use mqo_public.AnnMst.Bounds.{sum_below, sum_below-change, total_mono, weigh, push_unvisited_lem}

-- Whether the parent of an item is written.
abbrev pub written : Option ℕ → List Edge → Bool
written none edges = true
written (some p) edges = ltb 0 (count p (nodes edges))

module _ (fl : Floats) (pq : PriorityQueue (PqItem fl) (heavier fl)) (n : ℕ)
    (adj : ℕ → Run (List (ℕ × fl.Float))) (nbs : ℕ → List (ℕ × fl.Float)) where
  -- The neighbour lists are found, and their ids are those of queries.
  pub record IsGraph : Type 0 where
    pub found : (v : ℕ) → v < n → adj v ≡ ok (nbs v)
    pub inside : (v : ℕ) → v < n → All (λ e. e.0 < n) (nbs v)

  -- 1 for an item that the loop must not meet.
  abbrev pub stray : List Edge → PqItem fl → ℕ
  stray edges it = if ltb it.node n && written it.parent edges then 0 else 1

  -- The neighbours of the vertices that are not written.
  abbrev pub unseen : List Edge → ℕ → ℕ
  unseen edges v = if ltb 0 (count v (nodes edges)) then 0 else length (nbs v)

  abbrev pub ahead : List Edge → ℕ
  ahead edges = sum_below (unseen edges) n

  pub record Inv (s : State fl pq) : Type 0 where
    pub flags : (v : ℕ) → v < n → get_elem? s.visited v ≡ some (ltb 0 (count v (nodes s.edges)))
    pub once : (v : ℕ) → count v (nodes s.edges) ≤ (if ltb v n then 1 else 0)
    pub ordered : ParentsFirst [] s.edges
    pub sound : weigh fl pq (stray s.edges) s.queue ≡ 0

  -- The steps that are left at most.
  abbrev pub measure : State fl pq → ℕ
  measure s = weigh fl pq (λ _. 1) s.queue + ahead s.edges

  pub count-snoc :
      (edges : List Edge) (v u : ℕ) (p : Option ℕ)
      → count u (nodes (edges ++ (v, p) ∷ [])) ≡ count u (nodes edges) + (if v == u then 1 else 0)
  count-snoc edges v u p =
      rw (nodes-append edges ((v, p) ∷ [])) (omega (arith, count-append u (nodes edges) (v ∷ [])))

  ahead-snoc :
      (edges : List Edge) (v : ℕ) (p : Option ℕ)
      → v < n
      → count v (nodes edges) ≡ 0
      → ahead edges ≡ ahead (edges ++ (v, p) ∷ []) + length (nbs v)
  ahead-snoc edges v p below new = ground (
    arith,
    sum_below-change (unseen edges) (unseen (edges ++ (v, p) ∷ [])) v (length (nbs v)) n change,
  )
    where
      change :
          (u : ℕ)
          → unseen edges u
            ≡ unseen (edges ++ (v, p) ∷ []) u + (if u == v then length (nbs v) else 0)
      change u = elim (Bool-cases (u == v)) [
        | inl e ↦
            let same : u ≡ v = (==_iff u v).0 e in
            rw (same, new) (ground (arith, count-snoc edges v v p))
        | inr e ↦ ground (arith, count-snoc edges v u p)
      ]

  written-snoc :
      (edges : List Edge) (v : ℕ) (p o : Option ℕ)
      → written o edges ≡ true
      → written o (edges ++ (v, p) ∷ []) ≡ true
  written-snoc edges v p none h = refl
  written-snoc edges v p (some q) h = ground (arith, count-snoc edges v q p)

  stray-snoc :
      (edges : List Edge) (v : ℕ) (p : Option ℕ) (it : PqItem fl)
      → stray (edges ++ (v, p) ∷ []) it ≤ stray edges it
  stray-snoc edges v p it = ground (arith, written-snoc edges v p it.parent)

  -- A vertex that is not written yet, below a written parent, is written; the measure does not grow.
  pub visit_lem :
      (s : State fl pq) (v : ℕ) (p : Option ℕ)
      → IsGraph
      → Inv s
      → v < n
      → count v (nodes s.edges) ≡ 0
      → ParentIn s.edges p
      → (s' : State fl pq) × (visit fl pq adj v p s ≡ ok s')
        × Inv s'
        × (s'.edges ≡ s.edges ++ (v, p) ∷ [])
        × (measure s' ≤ measure s)
        × (ahead s'.edges ≤ ahead s.edges)
        × ((f : PqItem fl → ℕ) → weigh fl pq f s.queue ≤ weigh fl pq f s'.queue)
  unfolding visit
  visit_lem s v p g inv below new parent =
      let visited = set s.visited v true in
      let edges = s.edges ++ (v, p) ∷ [] in
      let flags : (u : ℕ) → u < n → get_elem? visited u ≡ some (ltb 0 (count u (nodes edges))) =
        λ u k. elim (Bool-cases (u == v)) [
          | inl e ↦
              let same : u ≡ v = (==_iff u v).0 e in
              let one : count v (nodes edges) ≡ 1 = ground (arith, count-snoc s.edges v v p) in
              rw (same, one)
                (get_elem?-set_self s.visited v true
                  (lt-length_of_get s.visited v _ (inv.flags v below)))
          | inr e ↦
              let same : count u (nodes edges) ≡ count u (nodes s.edges) =
                ground (arith, count-snoc s.edges v u p) in
              rw (same, get_elem?-set_ne s.visited v u true (ground arith)) (inv.flags u k)
        ] in
      let (q, pushed, few, same, more) =
        push_unvisited_lem fl pq n visited v (nbs v) s.queue (λ u k. (_, flags u k))
          (g.inside v below) in
      (
        record s { visited = visited; edges = edges; queue = q },
        rw (g.found v below, pushed),
        record {
          flags = flags;
          once = λ u. ground (arith, count-snoc s.edges v u p, inv.once u);
          ordered = ParentsFirst-snoc s.edges v p inv.ordered parent;
          sound = omega (
            arith,
            inv.sound,
            same (stray edges) (λ d u k. ground (arith, count-snoc s.edges v v p)),
            total_mono (stray edges) (stray s.edges) (pq.items s.queue) (stray-snoc s.edges v p),
          );
        },
        refl,
        omega (arith, few, ahead-snoc s.edges v p below new),
        omega (arith, ahead-snoc s.edges v p below new),
        more,
      )

-- ===== src/AnnMst/Correct.antt =====
-- Prim's algorithm on the neighbour lists of an index returns a trajectory.
use mqo_public.Prelude.{
  ℕ, zero, suc, ◌+◌, ◌<◌, ◌≤◌, ◌≡◌, refl, ap, ◌∙◌, false, none, List, [], ◌∷◌, length, length-map,
  get_elem?-replicate, count, All, Run, ok, ltb, ◌==◌, if◌then◌else◌, arith, Bool-cases, ==_iff,
  subst, sym, map, inl, inr,
}
use mqo_public.Floats.{Floats}
use mqo_public.Trajectory.{Edge, nodes, IsTrajectory, VisitsOnce}
use mqo_public.Trajectory.Forest.{length-nodes}
use mqo_public.Checker.Pigeonhole.{VisitsOnce-length}
use mqo_public.Queue.{PriorityQueue}
use mqo_public.AnnMst.{
  PqItem, heavier, State, start_directed, start_undirected, for_starts, initial, Hnsw,
  get_neighbors, average, approximate_mst,
}
use mqo_public.AnnMst.Bounds.{sum_below, sum_below_mono}
use mqo_public.AnnMst.Visit.{IsGraph, stray, Inv, visit_lem, count-snoc}
use mqo_public.AnnMst.Drain.{Rest, at, drain_lem}

module _ (fl : Floats) (pq : PriorityQueue (PqItem fl) (heavier fl)) (n : ℕ)
    (adj : ℕ → Run (List (ℕ × fl.Float))) (nbs : ℕ → List (ℕ × fl.Float))
    (graph : IsGraph fl pq n adj nbs) (bound : ℕ) where
  open pq use {items-push, items-empty}

  -- What one round from `start` does: it ends at rest, and `start` is written.
  abbrev pub Covers : ℕ → State fl pq → Run (State fl pq) → Type 0
  Covers start s r =
      (s' : State fl pq) × (r ≡ ok s')
      × Rest fl pq n adj nbs bound s'
      × ((v : ℕ) → 0 < count v (nodes s.edges) → 0 < count v (nodes s'.edges))
      × (0 < count start (nodes s'.edges))

  pub start_directed_lem :
      (fuel start : ℕ) (s : State fl pq)
      → bound < fuel
      → start < n
      → Rest fl pq n adj nbs bound s
      → Covers start s (start_directed fl pq adj fuel start s)
  unfolding start_directed
  start_directed_lem fuel start s enough below rest =
      elim (Bool-cases (ltb 0 (count start (nodes s.edges)))) [
        | inl seen ↦ (
          s,
          rw (rest.inv.flags start below, seen, start_directed) refl,
          rest,
          λ v h. h,
          ground (arith, seen),
        )
        | inr new ↦
            let s₀ : State fl pq = record s { components = suc s.components } in
            let inv₀ : Inv fl pq n adj nbs s₀ = record {
              flags = rest.inv.flags;
              once = rest.inv.once;
              ordered = rest.inv.ordered;
              sound = rest.inv.sound;
            } in
            let (s₁, visited, inv₁, edges, less, fewer, kept) =
              visit_lem fl pq n adj nbs s₀ start none graph inv₀ below (ground (arith, new)) tt in
            let (s', ends, rest', more) =
              drain_lem fl pq n adj nbs fuel bound s₁ graph inv₁
                (omega (arith, less, rest.idle, rest.short, enough))
                (omega (arith, rest.short, fewer)) in
            let grown : (v : ℕ)
                → count v (nodes s₁.edges)
                  ≡ count v (nodes s.edges) + (if start == v then 1 else 0) =
              λ v.
                ap (λ t. count v (nodes t)) edges
                ∙ ground (arith, count-snoc fl pq n adj nbs s.edges start v none) in
            (
              s',
              rw (rest.inv.flags start below, new, start_directed, visited) ends,
              rest',
              λ v h. more v (ground (arith, h, grown v)),
              more start (ground (arith, grown start)),
            )
      ]

  pub start_undirected_lem :
      (fuel start : ℕ) (s : State fl pq)
      → suc bound < fuel
      → start < n
      → Rest fl pq n adj nbs bound s
      → Covers start s (start_undirected fl pq adj fuel start s)
  unfolding start_undirected
  start_undirected_lem fuel start s enough below rest =
      elim (Bool-cases (ltb 0 (count start (nodes s.edges)))) [
        | inl seen ↦ (
          s,
          rw (rest.inv.flags start below, seen, start_undirected) refl,
          rest,
          λ v h. h,
          ground (arith, seen),
        )
        | inr new ↦
            let it : PqItem fl = record { weight = fl.zero; node = start; parent = none } in
            let s₀ : State fl pq = record s {
              components = suc s.components;
              queue = pq.push it s.queue;
            } in
            let inv₀ : Inv fl pq n adj nbs s₀ = record {
              flags = rest.inv.flags;
              once = rest.inv.once;
              ordered = rest.inv.ordered;
              sound = ground (
                arith,
                below,
                rest.inv.sound,
                items-push it s.queue (stray fl pq n adj nbs s.edges),
              );
            } in
            let (s', ends, rest', more) =
              drain_lem fl pq n adj nbs fuel bound s₀ graph inv₀
                (omega (arith, items-push it s.queue (λ _. 1), rest.idle, rest.short, enough))
                rest.short in
            (
              s',
              rw (rest.inv.flags start below, new, start_undirected) ends,
              rest',
              λ v h. more v (omega (arith, h)),
              more start (ground (arith, items-push it s.queue (at fl pq n adj nbs start))),
            )
      ]

  -- The loop over the starts, from `i` on.
  pub for_starts_lem :
      (body : ℕ → State fl pq → Run (State fl pq))
      → ((start : ℕ) (s : State fl pq)
          → start < n
          → Rest fl pq n adj nbs bound s
          → Covers start s (body start s))
      → (k i : ℕ) (s : State fl pq) → i + k ≡ n
      → Rest fl pq n adj nbs bound s
      → ((v : ℕ) → v < i → 0 < count v (nodes s.edges))
      → (s' : State fl pq) × (for_starts fl pq body k i s ≡ ok s')
        × Rest fl pq n adj nbs bound s'
        × ((v : ℕ) → v < n → 0 < count v (nodes s'.edges))
  unfolding for_starts
  for_starts_lem body one zero i s e rest done =
      (s, refl, rest, λ v h. done v (omega (arith, h, e)))
  for_starts_lem body one (suc k) i s e rest done =
      let (s₁, ends, rest₁, more, new) = one i s (omega (arith, e)) rest in
      let (s', ends', rest', all) =
        for_starts_lem body one k (suc i) s₁ (omega (arith, e)) rest₁ (λ v h.
          elim (Bool-cases (v == i)) [
            | inl same ↦ subst (λ u. 0 < count u (nodes s₁.edges)) (sym ((==_iff v i).0 same)) new
            | inr other ↦ more v (done v (ground (arith, h)))
          ]) in
      (s', rw ends ends', rest', all)

  initial-Rest :
      sum_below (λ v. length (nbs v)) n ≤ bound → Rest fl pq n adj nbs bound (initial fl pq n)
  initial-Rest h = record {
    inv = record {
      flags = λ v k. get_elem?-replicate n false v k;
      once = λ v. omega arith;
      ordered = tt;
      sound = rw items-empty refl;
    };
    idle = rw items-empty refl;
    short = h;
  }

  Rest-IsTrajectory :
      (s : State fl pq)
      → Rest fl pq n adj nbs bound s
      → ((v : ℕ) → v < n → 0 < count v (nodes s.edges))
      → IsTrajectory n s.edges
  Rest-IsTrajectory s rest all =
      let once : VisitsOnce n (nodes s.edges) = λ v. ground (arith, all v, rest.inv.once v) in
      record {
        size = omega (arith, length-nodes s.edges, VisitsOnce-length n (nodes s.edges) once);
        visits = once;
        ordered = rest.inv.ordered;
      }

  -- A search whose rounds cover their starts ends with a trajectory.
  pub search_lem :
      (body : ℕ → State fl pq → Run (State fl pq))
      → ((start : ℕ) (s : State fl pq)
          → start < n
          → Rest fl pq n adj nbs bound s
          → Covers start s (body start s))
      → sum_below (λ v. length (nbs v)) n ≤ bound
      → (s : State fl pq) × (for_starts fl pq body n 0 (initial fl pq n) ≡ ok s)
        × IsTrajectory n s.edges
  search_lem body one h =
      let (s, ends, rest, all) =
        for_starts_lem body one n 0 (initial fl pq n) (omega arith) (initial-Rest h)
          (λ v k. absurd (omega (arith, k))) in
      (s, ends, Rest-IsTrajectory s rest all)

module _ (fl : Floats) (pq : PriorityQueue (PqItem fl) (heavier fl)) where
  -- The neighbour lists of an index hold ids of queries.
  abbrev pub IsIndex : ℕ → Hnsw fl → Type 0
  IsIndex n hnsw = (v : ℕ) → v < n → All (λ u. u < n) (hnsw.links v)

  abbrev pub degrees : ℕ → Hnsw fl → ℕ
  degrees n hnsw = sum_below (λ v. length (hnsw.links v)) n

  pub neighbors-inside :
      (n : ℕ) (hnsw : Hnsw fl) (v : ℕ) (us : List ℕ)
      → All (λ u. u < n) us
      → All (λ (e : ℕ × fl.Float). e.0 < n) (map (λ nb. (nb, fl.root (hnsw.fst_dist v nb))) us)
  neighbors-inside n hnsw v [] h = tt
  neighbors-inside n hnsw v (u ∷ us) h = (h.0, neighbors-inside n hnsw v us h.1)

  -- `approximateMSTUsingHNSW` returns a trajectory of the n queries for every index whose neighbour
  -- lists hold ids of queries, whatever its distances are, with more fuel than the lists have entries.
  pub approximate_mst-IsTrajectory :
      (fuel : ℕ) (hnsw : Hnsw fl) (n : ℕ)
      → IsIndex n hnsw
      → degrees n hnsw < fuel
      → (t : List Edge) × (w : fl.Double) × (approximate_mst fl pq fuel hnsw n ≡ ok (t, w))
        × IsTrajectory n t
  unfolding approximate_mst get_neighbors
  approximate_mst-IsTrajectory fuel hnsw n inside enough =
      let nbs = get_neighbors fl hnsw in
      let graph : IsGraph fl pq n (λ v. ok (nbs v)) nbs = record {
        found = λ v k. refl;
        inside = λ v k. neighbors-inside n hnsw v (hnsw.links v) (inside v k);
      } in
      let (s, ends, trajectory) =
        search_lem fl pq n (λ v. ok (nbs v)) nbs graph (degrees n hnsw)
          (start_directed fl pq (λ v. ok (nbs v)) fuel)
          (λ start s.
            start_directed_lem fl pq n (λ v. ok (nbs v)) nbs graph (degrees n hnsw) fuel start s
              enough)
          (sum_below_mono _ _ n (λ v k. omega (
            arith,
            length-map {B = ℕ × fl.Float} (λ nb. (nb, fl.root (hnsw.fst_dist v nb))) (hnsw.links v),
          ))) in
      (s.edges, average fl pq n s, rw ends refl, trajectory)

-- ===== src/Mixed/Correct.antt =====
-- The optimisers of mqo/mixed_mst_opt.hpp return a trajectory of the queries.
use mqo_public.Prelude.{
  some, ℕ, ◌+◌, ◌-◌, ◌*◌, ◌<◌, ◌≡◌, refl, ◌∙◌, Bool, true, false, not, List, length, ok, leb, ◌==◌,
  arith, Bool-cases, inl, inr,
}
use mqo_public.Floats.{Floats}
use mqo_public.Trajectory.{Edge, IsTrajectory}
use mqo_public.Queue.{PriorityQueue}
use mqo_public.Distance.{int_limit}
use mqo_public.Distance.Bounds.{HasRows}
use mqo_public.Distance.Sampling.{IsVaried}
use mqo_public.GroupMst.Rounds.{IsInfinity}
use mqo_public.AnnMst.{PqItem, heavier}
use mqo_public.AnnBuild.{HnswLib}
use mqo_public.AnnBuild.Laws.{HnswLaws}
use mqo_public.Lsh.{GroupInfo, smaller, Params, distance}
use mqo_public.Lsh.Correct.{IsFinite, distance-Reaches}
use mqo_public.Mixed.{
  ef_or_m, small_tree, directed_tree, undirected_tree, modified_tree, optimize_trajectory_mixed_mst,
  optimize_trajectory_mixed_undirected_mst, optimize_trajectory_mixed_modified_mst,
}
use mqo_public.Mixed.Indexes.{EnoughFuel, directed_tree_lem, undirected_tree_lem}
use mqo_public.Mixed.Trees.{small_tree_lem}
use mqo_public.Mixed.Loop.{FindsTrees, mixed_lem}

module _ (fl : Floats) (lib : HnswLib fl) (laws : HnswLaws fl lib)
    (pq : PriorityQueue (PqItem fl) (heavier fl)) (query : List fl.Float) (n dim m : ℕ)
    (rows : HasRows query n dim) (fits : n * dim < int_limit) (some_links : 1 < m) where
  modified_small :
      (fuel ef : ℕ) (base_only use_l2 : Bool) (group : List ℕ)
      → leb (length group) 500 ≡ true
      → modified_tree fl lib pq fuel base_only use_l2 query dim m ef group
        ≡ small_tree fl (distance fl use_l2 query dim) group
  unfolding modified_tree
  modified_small fuel ef base_only use_l2 group e = rw (modified_tree, e) refl

  modified_large :
      (fuel ef : ℕ) (base_only use_l2 : Bool) (group : List ℕ)
      → leb (length group) 500 ≡ false
      → modified_tree fl lib pq fuel base_only use_l2 query dim m ef group
        ≡ undirected_tree fl lib pq fuel base_only use_l2 query dim m ef group
  unfolding modified_tree
  modified_large fuel ef base_only use_l2 group e = rw (modified_tree, e) refl

  modified_finds :
      (fuel ef : ℕ) (base_only use_l2 : Bool)
      → IsInfinity fl
      → IsFinite fl query n dim use_l2
      → EnoughFuel fl lib laws pq query n dim m rows fits some_links fuel
      → FindsTrees fl n (modified_tree fl lib pq fuel base_only use_l2 query dim m ef)
  modified_finds fuel ef base_only use_l2 infinity finite enough group two once =
      elim (Bool-cases (leb (length group) 500)) [
        | inl small ↦
            let (t, w, ends, trajectory) =
              small_tree_lem fl infinity (distance fl use_l2 query dim) n
                (distance-Reaches fl query n dim use_l2 rows finite) group two
                (λ v h. ground (arith, once v, h)) in
            (t, w, modified_small fuel ef base_only use_l2 group small ∙ ends, trajectory)
        | inr large ↦
            let (t, w, ends, trajectory) =
              undirected_tree_lem fl lib laws pq query n dim m rows fits some_links fuel ef
                base_only use_l2 enough group two once in
            (t, w, modified_large fuel ef base_only use_l2 group large ∙ ends, trajectory)
      ]

module _ (fl : Floats) (lib : HnswLib fl) (laws : HnswLaws fl lib)
    (pq : PriorityQueue (PqItem fl) (heavier fl)) (groups : PriorityQueue GroupInfo smaller) where
  -- `optimize_trajectory_mixed_modified_mst` with B > 0 groups of n > 0 queries returns a trajectory
  -- of them, whether its groups are small or large, for every choice of hyperplanes, both distances
  -- and every index that hnswlib builds. The queries and the hyperplanes must be indexable by an
  -- `int`, M more than 1, the distances finite, the random draws varied within the fuel, and the fuel
  -- more than B and than the work of the search on an index of all queries.
  pub optimize_trajectory_mixed_modified_mst-IsTrajectory :
      (normal : ℕ → fl.Float) (rand : ℕ → ℕ → ℕ) (fuel : ℕ) (query : List fl.Float) (n dim : ℕ)
      (use_l2 : Bool) (params : Params)
      → HasRows query n dim
      → n * dim < int_limit
      → 1 < params.m
      → IsInfinity fl
      → 0 < n
      → 0 < params.b
      → (params.b - 1) * 1 * dim < int_limit
      → IsFinite fl query n dim use_l2
      → IsVaried rand n fuel
      → params.b < fuel
      → 1 + 2 * (n * (2 * params.m)) < fuel
      → (t : List Edge) × (w : fl.Double) × (optimize_trajectory_mixed_modified_mst fl groups lib pq
            normal rand fuel query n dim use_l2 params
          ≡ ok (t, w))
        × IsTrajectory n t
  unfolding optimize_trajectory_mixed_modified_mst
  optimize_trajectory_mixed_modified_mst-IsTrajectory normal rand fuel query n dim use_l2 params
        rows fits two infinity pos some_groups plane_fits finite varied more enough =
      mixed_lem fl groups n
        (modified_tree fl lib pq fuel (not (params.base_only == 0)) use_l2 query dim params.m
          (ef_or_m params))
        normal rand fuel query dim params.b
        (modified_finds fl lib laws pq query n dim params.m rows fits two fuel (ef_or_m params)
          (not (params.base_only == 0)) use_l2 infinity finite enough)
        pos some_groups plane_fits rows varied more

  -- `optimize_trajectory_mixed_mst`, which always takes the squared distance, returns a trajectory under
  -- the same conditions but that on distances, when "ef" is given.
  pub optimize_trajectory_mixed_mst-IsTrajectory :
      (normal : ℕ → fl.Float) (rand : ℕ → ℕ → ℕ) (fuel : ℕ) (query : List fl.Float) (n dim ef : ℕ)
      (params : Params)
      → HasRows query n dim
      → n * dim < int_limit
      → 1 < params.m
      → 0 < n
      → 0 < params.b
      → (params.b - 1) * 1 * dim < int_limit
      → params.ef ≡ some ef
      → IsVaried rand n fuel
      → params.b < fuel
      → 1 + 2 * (n * (2 * params.m)) < fuel
      → (t : List Edge) × (w : fl.Double) × (optimize_trajectory_mixed_mst fl groups lib pq normal
            rand fuel query n dim params
          ≡ ok (t, w))
        × IsTrajectory n t
  unfolding optimize_trajectory_mixed_mst
  optimize_trajectory_mixed_mst-IsTrajectory normal rand fuel query n dim ef params rows fits two
        pos some_groups plane_fits given varied more enough =
      let base_only = not (params.base_only == 0) in
      let (t, w, ends, trajectory) =
        mixed_lem fl groups n (directed_tree fl lib pq fuel base_only true query dim params.m ef)
          normal rand fuel query dim params.b
          (directed_tree_lem fl lib laws pq query n dim params.m rows fits two fuel ef base_only
            true enough)
          pos some_groups plane_fits rows varied more in
      (t, w, rw given ends, trajectory)

  -- `_optimize_trajectory_mixed_modified_mst`, which takes the undirected search for every group, returns
  -- a trajectory under the same conditions, for every distance.
  pub optimize_trajectory_mixed_undirected_mst-IsTrajectory :
      (normal : ℕ → fl.Float) (rand : ℕ → ℕ → ℕ) (fuel : ℕ) (query : List fl.Float) (n dim : ℕ)
      (use_l2 : Bool) (params : Params)
      → HasRows query n dim
      → n * dim < int_limit
      → 1 < params.m
      → 0 < n
      → 0 < params.b
      → (params.b - 1) * 1 * dim < int_limit
      → IsVaried rand n fuel
      → params.b < fuel
      → 1 + 2 * (n * (2 * params.m)) < fuel
      → (t : List Edge) × (w : fl.Double) × (optimize_trajectory_mixed_undirected_mst fl groups lib
            pq normal rand fuel query n dim use_l2 params
          ≡ ok (t, w))
        × IsTrajectory n t
  unfolding optimize_trajectory_mixed_undirected_mst
  optimize_trajectory_mixed_undirected_mst-IsTrajectory normal rand fuel query n dim use_l2 params
        rows fits two pos some_groups plane_fits varied more enough =
      let base_only = not (params.base_only == 0) in
      mixed_lem fl groups n
        (undirected_tree fl lib pq fuel base_only use_l2 query dim params.m (ef_or_m params)) normal
        rand fuel query dim params.b
        (undirected_tree_lem fl lib laws pq query n dim params.m rows fits two fuel (ef_or_m params)
          base_only use_l2 enough)
        pos some_groups plane_fits rows varied more

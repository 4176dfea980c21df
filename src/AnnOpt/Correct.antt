-- ===== src/AnnOpt/Correct.antt =====
-- The optimiser with one index of all queries returns a trajectory.
use mqo_public.Prelude.{ℕ, ◌*◌, ◌<◌, ◌≡◌, true, not, List, ok, ◌==◌, arith}
use mqo_public.Floats.{Floats}
use mqo_public.Trajectory.{Edge, IsTrajectory}
use mqo_public.Queue.{PriorityQueue}
use mqo_public.Distance.{int_limit}
use mqo_public.Distance.Bounds.{HasRows}
use mqo_public.AnnMst.{PqItem, heavier}
use mqo_public.AnnMst.Correct.{approximate_mst-IsTrajectory}
use mqo_public.AnnBuild.{HnswLib}
use mqo_public.AnnBuild.Laws.{HnswLaws, build_ann_lem}
use mqo_public.Lsh.{Params}
use mqo_public.Mixed.Indexes.{links_lem}
use mqo_public.AnnOpt.{or_zero, optimize_trajectory_ann_mst}

module _ (fl : Floats) (lib : HnswLib fl) (laws : HnswLaws fl lib)
    (pq : PriorityQueue (PqItem fl) (heavier fl)) where
  -- `optimize_trajectory_ann_mst` returns a trajectory of the n queries for every index that hnswlib
  -- builds, if the queries are indexable by an `int`, M is more than 1 and the fuel is more than the
  -- lists may hold.
  pub optimize_trajectory_ann_mst-IsTrajectory :
      (fuel : ℕ) (query : List fl.Float) (n dim : ℕ) (params : Params)
      → HasRows query n dim
      → n * dim < int_limit
      → 1 < params.m
      → n * (2 * params.m) < fuel
      → (t : List Edge) × (w : fl.Double) × (optimize_trajectory_ann_mst fl lib pq fuel query n dim
            params
          ≡ ok (t, w))
        × IsTrajectory n t
  unfolding optimize_trajectory_ann_mst
  optimize_trajectory_ann_mst-IsTrajectory fuel query n dim params rows fits two enough =
      let (hnsw, built, full, lists) =
        build_ann_lem fl lib laws query dim n (not (params.base_only == 0)) true params.m
          (or_zero params.ef) two rows.positive rows.rows (omega (arith, fits)) in
      let (inside, work) = links_lem fl lib laws pq hnsw n params.m full lists in
      let (t, w, ends, trajectory) =
        approximate_mst-IsTrajectory fl pq fuel (lib.view hnsw) n inside
          (omega (arith, enough, work)) in
      (t, w, rw built ends, trajectory)

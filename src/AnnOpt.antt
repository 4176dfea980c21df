-- ===== src/AnnOpt.antt =====
-- mqo/ann_mst_opt.hpp: the trajectory of Prim's algorithm on an index of all queries.
pub mod Correct
use mqo_public.Prelude.{ℕ, true, not, Option, none, some, List, Run, ◌>>=◌, ◌==◌}
use mqo_public.Floats.{Floats}
use mqo_public.Trajectory.{Edge}
use mqo_public.Queue.{PriorityQueue}
use mqo_public.AnnMst.{PqItem, heavier, approximate_mst}
use mqo_public.AnnBuild.{HnswLib, build_ann}
use mqo_public.Lsh.{Params}

-- `params["ef"]` is 0 when the key is missing.
abbrev pub or_zero : Option ℕ → ℕ
or_zero none = 0
or_zero (some x) = x

module _ (fl : Floats) (lib : HnswLib fl) (pq : PriorityQueue (PqItem fl) (heavier fl)) where
  unfoldable pub optimize_trajectory_ann_mst :
      ℕ → List fl.Float → ℕ → ℕ → Params → Run (List Edge × fl.Double)
  unfolding build_ann approximate_mst
  optimize_trajectory_ann_mst fuel query n dim params = do
    qann ←
        build_ann fl lib (not (params.base_only == 0)) true query n dim params.m (or_zero params.ef)
    approximate_mst fl pq fuel (lib.view qann) n

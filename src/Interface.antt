-- ===== src/Interface.antt =====
-- mqo/interface.hpp: from the queries to a trajectory that passes the checks. The parameter `option`
-- selects an optimiser by its name; any other name is that of a file of edges.
pub mod Pipeline
pub mod FullTree
pub mod Safety
pub mod Methods
use mqo_public.Prelude.{
  ℕ, zero, suc, Bool, Option, none, some, List, [], ◌∷◌, ◌++◌, Run, ok, ◌>>=◌, ◌>>◌, Error,
}
use mqo_public.Floats.{Floats}
use mqo_public.Trajectory.{Edge}
use mqo_public.Queue.{PriorityQueue}
use mqo_public.Checker.{check_trajectory}
use mqo_public.Reorder.{reorder_multiple_dfs}
use mqo_public.AnnMst.{PqItem, heavier}
use mqo_public.AnnBuild.{HnswLib}
use mqo_public.AnnOpt.{optimize_trajectory_ann_mst}
use mqo_public.Lsh.{GroupInfo, smaller, Params, optimize_trajectory_lsh_mst}
use mqo_public.Mixed.{optimize_trajectory_mixed_mst, optimize_trajectory_mixed_modified_mst}
use mqo_public.FullMst.{read_mst}

-- What the string `option` stands for; a file has contents if it can be opened.
pub data Method : Type 0 where
  lsh ann mixed mixed_modified : Method
  custom : Option (List ℕ) → Method

module _ (fl : Floats) (lib : HnswLib fl) (groups : PriorityQueue GroupInfo smaller)
    (items : PriorityQueue (PqItem fl) (heavier fl)) (normal : ℕ → fl.Float)
    (rand : ℕ → ℕ → ℕ) where
  -- The pairs and the average weight. The edges of a file get the root 0.
  unfoldable pub optimize :
      Method → ℕ → List fl.Float → ℕ → ℕ → Bool → Params → Run (List Edge × fl.Double)
  unfolding optimize_trajectory_lsh_mst optimize_trajectory_ann_mst optimize_trajectory_mixed_mst
      optimize_trajectory_mixed_modified_mst read_mst
  optimize lsh fuel query n dim use_l2 params =
      optimize_trajectory_lsh_mst fl groups normal rand fuel query n dim use_l2 params
  optimize ann fuel query n dim use_l2 params =
      optimize_trajectory_ann_mst fl lib items fuel query n dim params
  optimize mixed fuel query n dim use_l2 params =
      optimize_trajectory_mixed_mst fl groups lib items normal rand fuel query n dim params
  optimize mixed_modified fuel query n dim use_l2 params =
      optimize_trajectory_mixed_modified_mst fl groups lib items normal rand fuel query n dim use_l2
        params
  optimize (custom file) fuel query n dim use_l2 params = do
    edges ← read_mst file
    ok (edges ++ (0, none) ∷ [], fl.d_of_int 0)

  -- The code of `mqo_no_reorder` and of `mqo_with_info` repeats this.
  unfoldable pub optimize_no_reorder :
      Method → ℕ → List fl.Float → ℕ → ℕ → Bool → Params → Run (List Edge × fl.Double)
  unfolding optimize_trajectory_lsh_mst optimize_trajectory_ann_mst optimize_trajectory_mixed_mst
      optimize_trajectory_mixed_modified_mst read_mst
  optimize_no_reorder lsh fuel query n dim use_l2 params =
      optimize_trajectory_lsh_mst fl groups normal rand fuel query n dim use_l2 params
  optimize_no_reorder ann fuel query n dim use_l2 params =
      optimize_trajectory_ann_mst fl lib items fuel query n dim params
  optimize_no_reorder mixed fuel query n dim use_l2 params =
      optimize_trajectory_mixed_mst fl groups lib items normal rand fuel query n dim params
  optimize_no_reorder mixed_modified fuel query n dim use_l2 params =
      optimize_trajectory_mixed_modified_mst fl groups lib items normal rand fuel query n dim use_l2
        params
  optimize_no_reorder (custom file) fuel query n dim use_l2 params = do
    edges ← read_mst file
    ok (edges ++ (0, none) ∷ [], fl.d_of_int 0)

  unfoldable pub optimize_with_info :
      Method → ℕ → List fl.Float → ℕ → ℕ → Bool → Params → Run (List Edge × fl.Double)
  unfolding optimize_trajectory_lsh_mst optimize_trajectory_ann_mst optimize_trajectory_mixed_mst
      optimize_trajectory_mixed_modified_mst read_mst
  optimize_with_info lsh fuel query n dim use_l2 params =
      optimize_trajectory_lsh_mst fl groups normal rand fuel query n dim use_l2 params
  optimize_with_info ann fuel query n dim use_l2 params =
      optimize_trajectory_ann_mst fl lib items fuel query n dim params
  optimize_with_info mixed fuel query n dim use_l2 params =
      optimize_trajectory_mixed_mst fl groups lib items normal rand fuel query n dim params
  optimize_with_info mixed_modified fuel query n dim use_l2 params =
      optimize_trajectory_mixed_modified_mst fl groups lib items normal rand fuel query n dim use_l2
        params
  optimize_with_info (custom file) fuel query n dim use_l2 params = do
    edges ← read_mst file
    ok (edges ++ (0, none) ∷ [], fl.d_of_int 0)

  unfoldable pub mqo_no_reorder :
      Method → ℕ → List fl.Float → ℕ → ℕ → Bool → Params → Run (List Edge)
  unfolding optimize_no_reorder
  mqo_no_reorder option fuel query n dim use_l2 params = do
    (trajectory, weight) ← optimize_no_reorder option fuel query n dim use_l2 params
    ok trajectory

  unfoldable pub mqo : Method → ℕ → List fl.Float → ℕ → ℕ → Bool → Params → Run (List Edge)
  unfolding optimize reorder_multiple_dfs check_trajectory
  mqo option fuel query n dim use_l2 params = do
    (trajectory, weight) ← optimize option fuel query n dim use_l2 params
    reordered ← reorder_multiple_dfs fuel trajectory
    check_trajectory reordered n
    ok reordered

  -- The same with the average weight.
  unfoldable pub mqo_with_info :
      Method → ℕ → List fl.Float → ℕ → ℕ → Bool → Params → Run (List Edge × fl.Double)
  unfolding optimize_with_info reorder_multiple_dfs check_trajectory
  mqo_with_info option fuel query n dim use_l2 params = do
    (trajectory, weight) ← optimize_with_info option fuel query n dim use_l2 params
    reordered ← reorder_multiple_dfs fuel trajectory
    check_trajectory reordered n
    ok (reordered, weight)

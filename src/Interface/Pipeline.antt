-- ===== src/Interface/Pipeline.antt =====
-- From an optimiser's trajectory to the result of `mqo`.
use mqo_public.Prelude.{
  ℕ, ◌-◌, ◌*◌, ◌<◌, ◌≡◌, refl, Bool, none, some, List, [], ◌∷◌, ◌++◌, ok, SameItems, arith,
}
use mqo_public.Floats.{Floats}
use mqo_public.Trajectory.{Edge, IsTrajectory, IsForest}
use mqo_public.Trajectory.Forest.{IsTrajectory-IsForest}
use mqo_public.Queue.{PriorityQueue}
use mqo_public.Checker.{check_trajectory}
use mqo_public.Checker.Sound.{check_trajectory_iff}
use mqo_public.Reorder.Correct.{reorder_multiple_dfs-IsTrajectory}
use mqo_public.Distance.{int_limit}
use mqo_public.Distance.Bounds.{HasRows}
use mqo_public.Distance.Sampling.{IsVaried}
use mqo_public.GroupMst.Rounds.{IsInfinity}
use mqo_public.AnnMst.{PqItem, heavier}
use mqo_public.AnnBuild.{HnswLib}
use mqo_public.Lsh.{GroupInfo, smaller, Params}
use mqo_public.Lsh.Correct.{IsFinite, optimize_trajectory_lsh_mst-IsTrajectory}
use mqo_public.FullMst.{save_mst}
use mqo_public.FullMst.Files.{read_mst-save_mst}
use mqo_public.Interface.{Method, lsh, custom, optimize, mqo, mqo_with_info}

module _ (fl : Floats) (lib : HnswLib fl) (groups : PriorityQueue GroupInfo smaller)
    (items : PriorityQueue (PqItem fl) (heavier fl)) (normal : ℕ → fl.Float)
    (rand : ℕ → ℕ → ℕ) where
  -- Whatever the method, if it gives the pairs of a forest of the n queries, `mqo_with_info` and `mqo`
  -- both return the same pairs as a trajectory, and the checks pass. The fuel is more than n.
  pub mqo_lem :
      (option : Method) (fuel : ℕ) (query : List fl.Float) (n dim : ℕ) (use_l2 : Bool)
      (params : Params) (t : List Edge) (w : fl.Double)
      → n < fuel
      → optimize fl lib groups items normal rand option fuel query n dim use_l2 params ≡ ok (t, w)
      → IsForest n t
      → (t' : List Edge) × (mqo fl lib groups items normal rand option fuel query n dim use_l2
            params
          ≡ ok t')
        × (mqo_with_info fl lib groups items normal rand option fuel query n dim use_l2 params
            ≡ ok (t', w))
        × IsTrajectory n t'
        × SameItems t t'
  unfolding mqo mqo_with_info
  mqo_lem option fuel query n dim use_l2 params t w enough made forest =
      let (t', reordered, trajectory, same) =
        reorder_multiple_dfs-IsTrajectory n fuel t forest (omega (arith, enough, forest.size)) in
      let passes : check_trajectory t' n ≡ ok tt = (check_trajectory_iff t' n).1 trajectory in
      (t', rw (made, reordered, passes) refl, rw (made, reordered, passes) refl, trajectory, same)

  -- `mqo` with the method "lsh" returns a trajectory of the n queries, and its checks pass: for every
  -- choice of hyperplanes and whatever order the priority queue gives to groups of one size. The
  -- conditions are those of `optimize_trajectory_lsh_mst`, and the fuel is more than B and n.
  pub mqo_lsh :
      (fuel : ℕ) (query : List fl.Float) (n dim : ℕ) (use_l2 : Bool) (params : Params)
      → IsInfinity fl
      → 0 < n
      → n < fuel
      → 0 < params.b
      → (params.b - 1) * 1 * dim < int_limit
      → HasRows query n dim
      → IsFinite fl query n dim use_l2
      → IsVaried rand n fuel
      → params.b < fuel
      → (t : List Edge) × (mqo fl lib groups items normal rand lsh fuel query n dim use_l2 params
          ≡ ok t)
        × IsTrajectory n t
  unfolding optimize
  mqo_lsh fuel query n dim use_l2 params laws pos enough some_groups fits rows finite varied few =
      let (t, w, made, trajectory) =
        optimize_trajectory_lsh_mst-IsTrajectory fl laws groups normal rand fuel query n dim use_l2
          params pos some_groups fits rows finite varied few in
      let (t', ends, _, trajectory', _) =
        mqo_lem lsh fuel query n dim use_l2 params t w enough made
          (IsTrajectory-IsForest n t trajectory) in
      (t', ends, trajectory')

  -- `mqo` with a file that `save_mst` has written returns a trajectory with the edges of the file and
  -- the root 0, if these are a forest of the n queries.
  pub mqo_custom :
      (fuel : ℕ) (query : List fl.Float) (n dim : ℕ) (use_l2 : Bool) (params : Params)
      (edges : List Edge)
      → n < fuel
      → IsForest n (edges ++ (0, none) ∷ [])
      → (t : List Edge) × (mqo fl lib groups items normal rand
            (custom (some (save_mst edges)))
            fuel
            query
            n
            dim
            use_l2
            params
          ≡ ok t)
        × IsTrajectory n t
        × SameItems (edges ++ (0, none) ∷ []) t
  unfolding optimize
  mqo_custom fuel query n dim use_l2 params edges enough forest =
      let (t, ends, _, trajectory, same) =
        mqo_lem (custom (some (save_mst edges))) fuel query n dim use_l2 params
          (edges ++ (0, none) ∷ []) (fl.d_of_int 0) enough (rw (read_mst-save_mst edges) refl)
          forest in
      (t, ends, trajectory, same)

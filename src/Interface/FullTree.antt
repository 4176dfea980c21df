-- ===== src/Interface/FullTree.antt =====
-- From the spanning tree that `get_mst` finds, through its file, to the result of `mqo`.
use mqo_public.Prelude.{
  ℕ, ◌*◌, ◌<◌, ◌≤◌, ◌≡◌, Bool, none, some, List, [], ◌∷◌, ◌++◌, length, ok, SameItems,
}
use mqo_public.Floats.{Floats}
use mqo_public.Trajectory.{Edge, IsTrajectory}
use mqo_public.Trajectory.Forest.{IsTrajectory-IsForest, IsForest-rotate}
use mqo_public.Queue.{PriorityQueue}
use mqo_public.GroupMst.Rounds.{IsInfinity}
use mqo_public.AnnMst.{PqItem, heavier}
use mqo_public.AnnBuild.{HnswLib}
use mqo_public.Lsh.{GroupInfo, smaller, Params}
use mqo_public.FullMst.{get_mst, save_mst}
use mqo_public.FullMst.Closest.{doubles}
use mqo_public.FullMst.Correct.{IsFinite, get_mst-IsTrajectory}
use mqo_public.Interface.{custom, mqo}
use mqo_public.Interface.Pipeline.{mqo_custom}

module _ (fl : Floats) (lib : HnswLib fl) (groups : PriorityQueue GroupInfo smaller)
    (items : PriorityQueue (PqItem fl) (heavier fl)) (normal : ℕ → fl.Float)
    (rand : ℕ → ℕ → ℕ) where
  -- The edges that `get_mst` finds for n queries, written by `save_mst` and named as the method, make
  -- `mqo` return a trajectory of the n queries with these edges and the root 0. The costs of the
  -- queries are below infinity, n > 0 and the fuel is more than n.
  pub mqo-get_mst :
      (fuel : ℕ) (query : List fl.Float) (n dim : ℕ) (l2 use_l2 : Bool) (params : Params)
      → IsInfinity (doubles fl)
      → 0 < n
      → n < fuel
      → n * dim ≤ length query
      → IsFinite fl query n dim l2
      → (edges : List Edge) × (average : fl.Double) × (t : List Edge) × (get_mst fl n dim query l2
          ≡ ok (edges, average))
        × (mqo fl lib groups items normal rand
              (custom (some (save_mst edges)))
              fuel
              query
              n
              dim
              use_l2
              params
            ≡ ok t)
        × IsTrajectory n t
        × SameItems (edges ++ (0, none) ∷ []) t
  mqo-get_mst fuel query n dim l2 use_l2 params laws pos enough fits finite =
      let (edges, average, found, trajectory) =
        get_mst-IsTrajectory fl query n dim l2 laws pos fits finite in
      let (t, ends, result, same) =
        mqo_custom fl lib groups items normal rand fuel query n dim use_l2 params edges enough (
          IsForest-rotate n (0, none) edges
            (IsTrajectory-IsForest n ((0, none) ∷ edges) trajectory)) in
      (edges, average, t, found, ends, result, same)

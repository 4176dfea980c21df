-- ===== src/Interface/Methods.antt =====
-- `mqo` with each of the methods that compute a trajectory.
use mqo_public.Prelude.{ℕ, ◌+◌, ◌-◌, ◌*◌, ◌<◌, ◌≡◌, refl, Bool, some, List, ok, SameItems, arith}
use mqo_public.Floats.{Floats}
use mqo_public.Trajectory.{Edge, IsTrajectory}
use mqo_public.Trajectory.Forest.{IsTrajectory-IsForest}
use mqo_public.Queue.{PriorityQueue}
use mqo_public.Distance.{int_limit}
use mqo_public.Distance.Bounds.{HasRows}
use mqo_public.Distance.Sampling.{IsVaried}
use mqo_public.GroupMst.Rounds.{IsInfinity}
use mqo_public.AnnMst.{PqItem, heavier}
use mqo_public.AnnBuild.{HnswLib}
use mqo_public.AnnBuild.Laws.{HnswLaws}
use mqo_public.AnnOpt.Correct.{optimize_trajectory_ann_mst-IsTrajectory}
use mqo_public.Lsh.{GroupInfo, smaller, Params}
use mqo_public.Lsh.Correct.{IsFinite, optimize_trajectory_lsh_mst-IsTrajectory}
use mqo_public.Mixed.Correct.{
  optimize_trajectory_mixed_mst-IsTrajectory, optimize_trajectory_mixed_modified_mst-IsTrajectory,
}
use mqo_public.Interface.{
  Method, lsh, ann, mixed, mixed_modified, custom, optimize, mqo, mqo_no_reorder,
}
use mqo_public.Interface.Pipeline.{mqo_lem}
use mqo_public.Interface.Safety.{no_reorder_same}

-- The methods that do not read a file.
abbrev pub Computes : Method → Type 0
Computes (custom file) = ⊥
Computes _ = Unit

module _ (fl : Floats) (lib : HnswLib fl) (laws : HnswLaws fl lib)
    (groups : PriorityQueue GroupInfo smaller) (items : PriorityQueue (PqItem fl) (heavier fl))
    (normal : ℕ → fl.Float) (rand : ℕ → ℕ → ℕ) where
  optimize_lem :
      (option : Method) (fuel : ℕ) (query : List fl.Float) (n dim ef : ℕ) (use_l2 : Bool)
      (params : Params)
      → Computes option
      → HasRows query n dim
      → n * dim < int_limit
      → 1 < params.m
      → IsInfinity fl
      → 0 < n
      → 0 < params.b
      → (params.b - 1) * 1 * dim < int_limit
      → params.ef ≡ some ef
      → IsFinite fl query n dim use_l2
      → IsVaried rand n fuel
      → params.b < fuel
      → 1 + 2 * (n * (2 * params.m)) < fuel
      → (t : List Edge) × (w : fl.Double) × (optimize fl lib groups items normal rand option fuel
            query n dim use_l2 params
          ≡ ok (t, w))
        × IsTrajectory n t
  unfolding optimize
  optimize_lem lsh fuel query n dim ef use_l2 params c rows fits two infinity pos some_groups
        plane_fits given finite varied more enough =
      optimize_trajectory_lsh_mst-IsTrajectory fl infinity groups normal rand fuel query n dim
        use_l2 params pos some_groups plane_fits rows finite varied more
  optimize_lem ann fuel query n dim ef use_l2 params c rows fits two infinity pos some_groups
        plane_fits given finite varied more enough =
      optimize_trajectory_ann_mst-IsTrajectory fl lib laws items fuel query n dim params rows fits
        two (omega (arith, enough))
  optimize_lem mixed fuel query n dim ef use_l2 params c rows fits two infinity pos some_groups
        plane_fits given finite varied more enough =
      optimize_trajectory_mixed_mst-IsTrajectory fl lib laws items groups normal rand fuel query n
        dim ef params rows fits two pos some_groups plane_fits given varied more enough
  optimize_lem mixed_modified fuel query n dim ef use_l2 params c rows fits two infinity pos
        some_groups plane_fits given finite varied more enough =
      optimize_trajectory_mixed_modified_mst-IsTrajectory fl lib laws items groups normal rand fuel
        query n dim use_l2 params rows fits two infinity pos some_groups plane_fits finite varied
        more enough
  optimize_lem (custom file) fuel query n dim ef use_l2 params c rows fits two infinity pos
        some_groups plane_fits given finite varied more enough =
      absurd c

  -- Every method but a file makes `mqo` return a trajectory of the n queries, the pairs of which are
  -- those that `mqo_no_reorder` returns: for every index that hnswlib builds, every choice of
  -- hyperplanes and whatever order the queues give to equals. The queries and the hyperplanes must be
  -- indexable by an `int`, n and B be positive, M more than 1, "ef" be given, the distances be finite, the random draws
  -- be varied within the fuel, and the fuel be more than n, B and the work of the search on an index of
  -- all queries.
  pub mqo-Computes :
      (option : Method) (fuel : ℕ) (query : List fl.Float) (n dim ef : ℕ) (use_l2 : Bool)
      (params : Params)
      → Computes option
      → HasRows query n dim
      → n * dim < int_limit
      → 1 < params.m
      → IsInfinity fl
      → 0 < n
      → n < fuel
      → 0 < params.b
      → (params.b - 1) * 1 * dim < int_limit
      → params.ef ≡ some ef
      → IsFinite fl query n dim use_l2
      → IsVaried rand n fuel
      → params.b < fuel
      → 1 + 2 * (n * (2 * params.m)) < fuel
      → (t s : List Edge) × (mqo fl lib groups items normal rand option fuel query n dim use_l2
            params
          ≡ ok t)
        × (mqo_no_reorder fl lib groups items normal rand option fuel query n dim use_l2 params
            ≡ ok s)
        × IsTrajectory n t
        × SameItems s t
  unfolding mqo_no_reorder
  mqo-Computes option fuel query n dim ef use_l2 params c rows fits two infinity pos big some_groups
        plane_fits given finite varied more enough =
      let (s, w, made, trajectory) =
        optimize_lem option fuel query n dim ef use_l2 params c rows fits two infinity pos
          some_groups plane_fits given finite varied more enough in
      let (t, ends, _, result, same) =
        mqo_lem fl lib groups items normal rand option fuel query n dim use_l2 params s w big made
          (IsTrajectory-IsForest n s trajectory) in
      (
        t,
        s,
        ends,
        rw
            (
              no_reorder_same fl lib groups items normal rand option fuel query n dim use_l2 params,
              made,
            )
            refl,
        result,
        same,
      )

-- ===== src/Examples/Trees.antt =====
-- The full spanning tree of five points, and `mqo` with every kind of method.
use mqo_public.Prelude.{
  false, ◌≡◌, refl, true, none, some, List, [], ◌∷◌, ◌++◌, Run, ok, ◌>>=◌, SameItems, arith,
}
use mqo_public.Trajectory.{Edge, IsTrajectory}
use mqo_public.Examples.Queues.{group_queue, item_queue}
use mqo_public.AnnOpt.{optimize_trajectory_ann_mst}
use mqo_public.AnnOpt.Correct.{optimize_trajectory_ann_mst-IsTrajectory}
use mqo_public.Lsh.{Params}
use mqo_public.Mixed.{optimize_trajectory_mixed_mst, optimize_trajectory_mixed_undirected_mst}
use mqo_public.Mixed.Correct.{
  optimize_trajectory_mixed_mst-IsTrajectory, optimize_trajectory_mixed_undirected_mst-IsTrajectory,
}
use mqo_public.FullMst.{cost, get_mst, save_mst}
use mqo_public.FullMst.Correct.{IsFinite, get_mst-IsTrajectory}
use mqo_public.Interface.{Method, mixed, custom, mqo, mqo_no_reorder, mqo_with_info}
use mqo_public.Interface.FullTree.{mqo-get_mst}
use mqo_public.Interface.Methods.{mqo-Computes}
use mqo_public.Interface.Safety.{mqo-IsTrajectory, mqo-mqo_with_info}
use mqo_public.Examples.Numbers.{Number, pos, numbers, numbers-IsInfinity}
use mqo_public.Examples.Groups.{
  points, points-HasRows, points-IsFinite, counter, counter-IsVaried, passes, passes-lt, is_finite,
  is_finite_lem,
}
use mqo_public.Examples.Indexes.{chains, chains-laws, few_groups}

get_mst_runs :
    get_mst numbers 5 2 points true
    ≡ ok ((2, some 0) ∷ (4, some 0) ∷ (1, some 2) ∷ (3, some 1) ∷ [], pos 78)
unfolding get_mst
get_mst_runs = refl

costs-table : passes (λ i. passes (λ j. is_finite (cost numbers true points 2 i j)) 5) 5 ≡ true
unfolding passes is_finite cost
costs-table = refl

costs-IsFinite : IsFinite numbers points 5 2 true
costs-IsFinite i j d p q e =
    is_finite_lem (cost numbers true points 2 i j) d
      (passes-lt _ 5 j q (passes-lt _ 5 i p costs-table)) e

get_mst_example :
    (edges : List Edge) × (average : Number) × (get_mst numbers 5 2 points true
      ≡ ok (edges, average))
    × IsTrajectory 5 ((0, none) ∷ edges)
get_mst_example =
    get_mst-IsTrajectory numbers points 5 2 true numbers-IsInfinity (omega arith) (omega arith)
      costs-IsFinite

abbrev with_option : Method → Run (List Edge)
with_option option =
    mqo numbers chains group_queue item_queue pos counter option 100 points 5 2 true few_groups

mqo-get_mst_example :
    (edges : List Edge) × (average : Number) × (t : List Edge) × (get_mst numbers 5 2 points true
      ≡ ok (edges, average))
    × (with_option (custom (some (save_mst edges))) ≡ ok t)
    × IsTrajectory 5 t
    × SameItems (edges ++ (0, none) ∷ []) t
mqo-get_mst_example =
    mqo-get_mst numbers chains group_queue item_queue pos counter 100 points 5 2 true true
      few_groups numbers-IsInfinity (omega arith) (omega arith) (omega arith) costs-IsFinite

abbrev with_ef : Params
with_ef = record few_groups { ef = some 20 }

mqo-Computes_example :
    (t s : List Edge) × (mqo numbers chains group_queue item_queue pos counter mixed 100 points 5 2
        true with_ef
      ≡ ok t)
    × (mqo_no_reorder numbers chains group_queue item_queue pos counter mixed 100 points 5 2 true
          with_ef
        ≡ ok s)
    × IsTrajectory 5 t
    × SameItems s t
mqo-Computes_example =
    mqo-Computes numbers chains chains-laws group_queue item_queue pos counter mixed 100 points 5 2
      20 true with_ef tt points-HasRows (omega arith) (omega arith) numbers-IsInfinity (omega arith)
      (omega arith) (omega arith) (omega arith) refl points-IsFinite
      (counter-IsVaried 100 (omega arith)) (omega arith) (omega arith)

optimize_ann_example :
    (t : List Edge) × (w : Number) × (optimize_trajectory_ann_mst numbers chains item_queue 100
        points 5 2 few_groups
      ≡ ok (t, w))
    × IsTrajectory 5 t
optimize_ann_example =
    optimize_trajectory_ann_mst-IsTrajectory numbers chains chains-laws item_queue 100 points 5 2
      few_groups points-HasRows (omega arith) (omega arith) (omega arith)

optimize_mixed_example :
    (t : List Edge) × (w : Number) × (optimize_trajectory_mixed_mst numbers group_queue chains
        item_queue pos counter 100 points 5 2 with_ef
      ≡ ok (t, w))
    × IsTrajectory 5 t
optimize_mixed_example =
    optimize_trajectory_mixed_mst-IsTrajectory numbers chains chains-laws item_queue group_queue pos
      counter 100 points 5 2 20 with_ef points-HasRows (omega arith) (omega arith) (omega arith)
      (omega arith) (omega arith) refl (counter-IsVaried 100 (omega arith)) (omega arith)
      (omega arith)

optimize_mixed_undirected_example :
    (t : List Edge) × (w : Number) × (optimize_trajectory_mixed_undirected_mst numbers group_queue
        chains item_queue pos counter 100 points 5 2 false few_groups
      ≡ ok (t, w))
    × IsTrajectory 5 t
optimize_mixed_undirected_example =
    optimize_trajectory_mixed_undirected_mst-IsTrajectory numbers chains chains-laws item_queue
      group_queue pos counter 100 points 5 2 false few_groups points-HasRows (omega arith)
      (omega arith) (omega arith) (omega arith) (omega arith) (counter-IsVaried 100 (omega arith))
      (omega arith) (omega arith)

abbrev from_file : Method
from_file = custom (some (save_mst ((2, some 1) ∷ (1, some 0) ∷ [])))

mqo_runs :
    mqo numbers chains group_queue item_queue pos counter from_file 4 points 3 2 true few_groups
    ≡ ok ((0, none) ∷ (1, some 0) ∷ (2, some 1) ∷ [])
unfolding mqo save_mst
mqo_runs = refl

mqo-IsTrajectory_example : IsTrajectory 3 ((0, none) ∷ (1, some 0) ∷ (2, some 1) ∷ [])
mqo-IsTrajectory_example =
    mqo-IsTrajectory numbers chains group_queue item_queue pos counter from_file 4 points 3 2 true
      few_groups ((0, none) ∷ (1, some 0) ∷ (2, some 1) ∷ []) mqo_runs

mqo-mqo_with_info_example :
    mqo numbers chains group_queue item_queue pos counter from_file 4 points 3 2 true few_groups ≡ (
      mqo_with_info numbers chains group_queue item_queue pos counter from_file 4 points 3 2 true
        few_groups
      >>= λ r. ok r.0)
mqo-mqo_with_info_example =
    mqo-mqo_with_info numbers chains group_queue item_queue pos counter from_file 4 points 3 2 true
      few_groups

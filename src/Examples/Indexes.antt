-- ===== src/Examples/Indexes.antt =====
-- An index in which each point is linked to those before it, and the optimisers on five points.
use mqo_public.Prelude.{
  ℕ, zero, suc, ◌+◌, ◌-◌, ◌*◌, ◌<◌, ◌≤◌, ◌≡◌, refl, sym, ap, Bool-cases, inl, inr, ◌++◌, true,
  false, none, some, List, [], ◌∷◌, length, take, All, Run, ok, err, runtime_error, ltb,
  if◌then◌else◌, SameItems, arith,
}
use mqo_public.Trajectory.{Edge, IsTrajectory, IsForest, Rooted, root, child}
use mqo_public.Examples.Queues.{group_queue, item_queue}
use mqo_public.AnnMst.{Hnsw, approximate_mst, approximate_mst_undirected}
use mqo_public.AnnMst.Correct.{IsIndex, approximate_mst-IsTrajectory}
use mqo_public.AnnMst.Undirected.{approximate_mst_undirected-IsTrajectory}
use mqo_public.DataFiles.{Format, fbin, get_data}
use mqo_public.HnswGraph.{build_graphs}
use mqo_public.HnswGraph.Correct.{HoldsRows, build_graphs-holds}
use mqo_public.AnnBuild.{Space, ip, HnswLib}
use mqo_public.AnnBuild.Laws.{HnswLaws, HnswContents}
use mqo_public.Lsh.{iota, Params}
use mqo_public.Mixed.{optimize_trajectory_mixed_modified_mst}
use mqo_public.Mixed.Correct.{optimize_trajectory_mixed_modified_mst-IsTrajectory}
use mqo_public.FullMst.{save_mst}
use mqo_public.Interface.{lsh, custom, mqo}
use mqo_public.Interface.Pipeline.{mqo_lsh, mqo_custom}
use mqo_public.Examples.Numbers.{Number, pos, numbers, numbers-IsInfinity}
use mqo_public.Examples.Groups.{points, points-HasRows, points-IsFinite, counter, counter-IsVaried}

-- The links of a point, `m` at most.
abbrev pub linked : ℕ → Hnsw numbers
linked m = record { links = λ v. take m (iota v 0); fst_dist = λ u v. pos (u - v + (v - u)) }

below-iota : (m k i s : ℕ) → i + k ≤ s → All (λ u. u < s) (take m (iota k i))
unfolding iota
below-iota zero k i s h = tt
below-iota (suc m) zero i s h = tt
below-iota (suc m) (suc k) i s h = (omega (arith, h), below-iota m k (suc i) s (omega (arith, h)))

length-take_le : (m : ℕ) (xs : List ℕ) → length (take m xs) ≤ m
length-take_le zero xs = omega arith
length-take_le (suc m) [] = omega arith
length-take_le (suc m) (x ∷ xs) = omega (arith, length-take_le m xs)

linked-IsIndex : (m n : ℕ) → IsIndex numbers item_queue n (linked m)
linked-IsIndex m n v h = below-iota m v 0 n (omega (arith, h))

approximate_mst_example :
    (t : List Edge) × (w : Number) × (approximate_mst numbers item_queue 11 (linked 2) 5
      ≡ ok (t, w))
    × IsTrajectory 5 t
unfolding iota
approximate_mst_example =
    approximate_mst-IsTrajectory numbers item_queue 11 (linked 2) 5 (linked-IsIndex 2 5)
      (omega arith)

approximate_mst_undirected_example :
    (t : List Edge) × (w : Number) × (approximate_mst_undirected numbers item_queue 20 (linked 2) 5
      ≡ ok (t, w))
    × IsTrajectory 5 t
unfolding iota
approximate_mst_undirected_example =
    approximate_mst_undirected-IsTrajectory numbers item_queue 20 (linked 2) 5 (linked-IsIndex 2 5)
      (omega arith)

-- The points that were added, the room, M, the distance, and the vectors under their labels.
pub record Chain : Type 0 where
  pub added : ℕ
  pub max_elements : ℕ
  pub m : ℕ
  pub space : Space
  pub vectors : List (ℕ × List Number)

abbrev pub append_point : List Number → ℕ → Chain → Run Chain
append_point vec label i =
    if ltb i.added i.max_elements
    then ok (record i { added = suc i.added; vectors = i.vectors ++ (label, vec) ∷ [] })
    else err runtime_error

-- Its entry point is the first point, and its points are linked without being connected.
abbrev pub chains : HnswLib numbers
chains = record {
  Index = Chain;
  create = λ s n m ef. record { added = 0; max_elements = n; m = m; space = s; vectors = [] };
  add_point = append_point;
  Candidates = ℕ;
  cur_element_count = λ i. i.added;
  enterpoint_node = λ i. if ltb 1 i.added then some 0 else none;
  links_and_ef = λ i. (i.m, 20);
  open_slot = append_point;
  set_enterpoint = λ c i. i;
  search_base_layer = λ entry vec ef i. entry;
  connect = λ vec c found i. ok i;
  view = λ i. linked (2 * i.m);
}

append_point_ok :
    (vec : List Number) (label : ℕ) (i : Chain)
    → i.added < i.max_elements
    → (j : Chain) × (append_point vec label i ≡ ok j)
      × (j.added ≡ suc i.added)
      × (j.max_elements ≡ i.max_elements)
      × (2 * j.m ≡ 2 * i.m)
append_point_ok vec label i h =
    let yes : ltb i.added i.max_elements ≡ true = ground (arith, h) in
    (
      record i { added = suc i.added; vectors = i.vectors ++ (label, vec) ∷ [] },
      rw yes refl,
      refl,
      refl,
      refl,
    )

pub chains-laws : HnswLaws numbers chains
chains-laws = record {
  size = λ i. i.added;
  room = λ i. i.max_elements;
  degree = λ i. 2 * i.m;
  size-create = λ s n m ef h. refl;
  room-create = λ s n m ef h. refl;
  degree-create = λ s n m ef h. refl;
  add_point-size = λ vec i h. append_point_ok vec i.added i h;
  count-size = λ i. refl;
  open_slot-size = append_point_ok;
  set_enterpoint-size = λ c i h. (refl, refl, refl);
  connect-size = λ vec c entry ef i h e. (i, refl, refl, refl, refl);
  links-size = λ i v h.
      (below-iota (2 * i.m) v 0 i.added (omega (arith, h)), length-take_le (2 * i.m) (iota v 0));
}

append_point_held :
    (vec : List Number) (label : ℕ) (i j : Chain)
    → append_point vec label i ≡ ok j
    → (j.space ≡ i.space) × (j.vectors ≡ i.vectors ++ (label, vec) ∷ [])
append_point_held vec label i j h = elim (Bool-cases (ltb i.added i.max_elements)) [
  | inl e ↦
      let made : ok (record i { added = suc i.added; vectors = i.vectors ++ (label, vec) ∷ [] })
          ≡ ok j =
        rw e at h in
      held j made
  | inr e ↦ let failed : err runtime_error ≡ ok j = rw e at h in absurd (cc)
]
  where
    held :
        (j : Chain)
        → ok (record i { added = suc i.added; vectors = i.vectors ++ (label, vec) ∷ [] }) ≡ ok j
        → (j.space ≡ i.space) × (j.vectors ≡ i.vectors ++ (label, vec) ∷ [])
    held j made =
        let same : record i { added = suc i.added; vectors = i.vectors ++ (label, vec) ∷ [] } ≡ j =
          cc in
        (ap (λ (c : Chain). c.space) (sym same), ap (λ (c : Chain). c.vectors) (sym same))

chains-contents : HnswContents numbers chains
chains-contents = record {
  space = λ i. i.space;
  vectors = λ i. i.vectors;
  space-create = λ s n m ef h. refl;
  vectors-create = λ s n m ef h. refl;
  space-add_point = λ vec label i j h. (append_point_held vec label i j h).0;
  vectors-add_point = λ vec label i j h below. (append_point_held vec label i j h).1;
}

abbrev pub few_groups : Params
few_groups = record { b = 2; m = 4; ef = none; base_only = 0 }

optimize_mixed_modified_example :
    (t : List Edge) × (w : Number) × (optimize_trajectory_mixed_modified_mst numbers group_queue
        chains item_queue pos counter 100 points 5 2 true few_groups
      ≡ ok (t, w))
    × IsTrajectory 5 t
optimize_mixed_modified_example =
    optimize_trajectory_mixed_modified_mst-IsTrajectory numbers chains chains-laws item_queue
      group_queue pos counter 100 points 5 2 true few_groups points-HasRows (omega arith)
      (omega arith) numbers-IsInfinity (omega arith) (omega arith) (omega arith) points-IsFinite
      (counter-IsVaried 100 (omega arith)) (omega arith) (omega arith)

mqo_lsh_example :
    (t : List Edge) × (mqo numbers chains group_queue item_queue pos counter lsh 100 points 5 2 true
        few_groups
      ≡ ok t)
    × IsTrajectory 5 t
mqo_lsh_example =
    mqo_lsh numbers chains group_queue item_queue pos counter 100 points 5 2 true few_groups
      numbers-IsInfinity (omega arith) (omega arith) (omega arith) (omega arith) points-HasRows
      points-IsFinite (counter-IsVaried 100 (omega arith)) (omega arith)

-- A tree of three queries as a file.
abbrev pub tree_edges : List Edge
tree_edges = (2, some 1) ∷ (1, some 0) ∷ []

abbrev rooted_edges : List Edge
rooted_edges = (2, some 1) ∷ (1, some 0) ∷ (0, none) ∷ []

rooted_edges-Rooted : (v : ℕ) → v < 3 → Rooted rooted_edges v
rooted_edges-Rooted zero h = root (omega arith)
rooted_edges-Rooted (suc zero) h = child {p = 0} (omega arith) (root (omega arith))
rooted_edges-Rooted (suc (suc zero)) h =
    child {p = 1} (omega arith) (child {p = 0} (omega arith) (root (omega arith)))
rooted_edges-Rooted (suc (suc (suc v))) h = absurd (omega (arith, h))

rooted_edges-IsForest : IsForest 3 rooted_edges
rooted_edges-IsForest = record {
  size = refl;
  visits = λ v. ground arith;
  parents = omega arith;
  rooted = rooted_edges-Rooted;
}

mqo_custom_example :
    (t : List Edge) × (mqo numbers chains group_queue item_queue pos counter
        (custom (some (save_mst tree_edges)))
        4
        points
        3
        2
        true
        few_groups
      ≡ ok t)
    × IsTrajectory 3 t
    × SameItems rooted_edges t
mqo_custom_example =
    mqo_custom numbers chains group_queue item_queue pos counter 4 points 3 2 true few_groups
      tree_edges (omega arith) rooted_edges-IsForest

abbrev points_file : Format Number ℕ
points_file = fbin (some record { n = 5; d = 2; values = points })

build_graphs_example :
    (saved : chains.Index) × (build_graphs numbers chains pos points_file false 4 100 ≡ ok saved)
    × HoldsRows numbers chains chains-laws chains-contents pos points_file 5 2 points ip 4 saved
unfolding get_data
build_graphs_example =
    build_graphs-holds numbers chains chains-laws chains-contents pos points_file 5 2 points false 4
      100 (omega arith) refl

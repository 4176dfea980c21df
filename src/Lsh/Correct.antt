-- ===== src/Lsh/Correct.antt =====
-- `optimize_trajectory_lsh_mst` returns a trajectory of the queries.
use mqo_public.Prelude.{ℕ, ◌-◌, ◌*◌, ◌<◌, ◌≡◌, refl, Bool, true, false, List, [], length, ok, arith}
use mqo_public.Floats.{Floats}
use mqo_public.Trajectory.{Edge, nodes, IsTrajectory}
use mqo_public.Trajectory.Forest.{length-nodes}
use mqo_public.Queue.{PriorityQueue}
use mqo_public.Checker.Pigeonhole.{VisitsOnce-length}
use mqo_public.Distance.{int_limit}
use mqo_public.Distance.Bounds.{HasRows, get_distance-row, get_distance_ip-row}
use mqo_public.Distance.Sampling.{IsVaried, get_weight_for_root_ends}
use mqo_public.GroupMst.Relax.{Reaches}
use mqo_public.GroupMst.Rounds.{IsInfinity}
use mqo_public.Lsh.{GroupInfo, smaller, Params, distance, compute_msts, optimize_trajectory_lsh_mst}
use mqo_public.Lsh.Bounds.{hyperplane_rows, get_innerproduct-row}
use mqo_public.Lsh.Split.{Partition, split-Partition}
use mqo_public.Lsh.Sofar.{Sofar}
use mqo_public.Lsh.Forest.{mst_loop_lem}

module _ (fl : Floats) (query : List fl.Float) (n dim : ℕ) (use_l2 : Bool) where
  -- What the distances of a data set must satisfy: every one that is computed is below infinity.
  abbrev pub IsFinite : Type 0
  IsFinite =
      (i j : ℕ) (d : fl.Float)
      → i < n
      → j < n
      → distance fl use_l2 query dim i j ≡ ok d
      → fl.lt d fl.infinity ≡ true

  distance-found :
      HasRows query n dim
      → (l2 : Bool) (i j : ℕ) → i < n
      → j < n
      → (d : fl.Float) × (distance fl l2 query dim i j ≡ ok d)
  distance-found rows true i j p q = (_, get_distance-row fl query n dim rows i j p q)
  distance-found rows false i j p q = (_, get_distance_ip-row fl query n dim rows i j p q)

  pub distance-Reaches :
      HasRows query n dim
      → IsFinite
      → (i j : ℕ) → i < n
      → j < n
      → Reaches fl (distance fl use_l2 query dim) i j
  distance-Reaches rows finite i j p q =
      let (d, e) = distance-found rows use_l2 i j p q in (d, e, finite i j d p q e)

module _ (fl : Floats) (laws : IsInfinity fl) (pq : PriorityQueue GroupInfo smaller) where
  -- `computeMSTs` of groups that hold each of the n queries once, none of them empty, returns a
  -- trajectory, if the distances are finite and the fuel is more than the groups and bounds the draws
  -- of a random pair.
  pub compute_msts-IsTrajectory :
      (rand : ℕ → ℕ → ℕ) (fuel : ℕ) (query : List fl.Float) (n dim : ℕ) (use_l2 : Bool)
      (q : pq.Queue)
      → HasRows query n dim
      → IsFinite fl query n dim use_l2
      → IsVaried rand n fuel
      → Partition pq n q
      → length (pq.items q) < fuel
      → (t : List Edge) × (w : fl.Double) × (compute_msts fl pq rand fuel query n dim use_l2 q
          ≡ ok (t, w))
        × IsTrajectory n t
  unfolding compute_msts
  compute_msts-IsTrajectory rand fuel query n dim use_l2 q rows finite varied part few =
      let start : Sofar pq n q 0 [] = record {
        once = λ v. omega (arith, part.once v);
        nonempty = part.nonempty;
        ordered = tt;
        counted = refl;
      } in
      let (sum, edges, t, e, once, ordered, counted) =
        mst_loop_lem fl laws pq (distance fl use_l2 query dim) n
          (distance-Reaches fl query n dim use_l2 rows finite) fuel q (fl.d_of_int 0) 0 [] few
          start in
      let (w, e') = get_weight_for_root_ends fl rand fuel query n dim varied rows 3000 in
      (
        t,
        fl.d_div (fl.d_add sum (fl.d_mul (fl.d_of_int (n - edges)) w)) (fl.d_of_int n),
        rw (e, e'),
        record {
          size = omega (arith, length-nodes t, VisitsOnce-length n (nodes t) once);
          visits = once;
          ordered = ordered;
        },
      )

  -- `optimize_trajectory_lsh_mst` with B > 0 groups of n > 0 queries returns a trajectory of them, for
  -- every choice of hyperplanes and whatever order the priority queue gives to groups of one size.
  -- The queries and the hyperplanes must be indexable by an `int`, the distances finite, the random
  -- draws varied within the fuel, and the fuel more than B.
  pub optimize_trajectory_lsh_mst-IsTrajectory :
      (normal : ℕ → fl.Float) (rand : ℕ → ℕ → ℕ) (fuel : ℕ) (query : List fl.Float) (n dim : ℕ)
      (use_l2 : Bool) (params : Params)
      → 0 < n
      → 0 < params.b
      → (params.b - 1) * 1 * dim < int_limit
      → HasRows query n dim
      → IsFinite fl query n dim use_l2
      → IsVaried rand n fuel
      → params.b < fuel
      → (t : List Edge) × (w : fl.Double) × (optimize_trajectory_lsh_mst fl pq normal rand fuel
            query n dim use_l2 params
          ≡ ok (t, w))
        × IsTrajectory n t
  unfolding optimize_trajectory_lsh_mst
  optimize_trajectory_lsh_mst-IsTrajectory normal rand fuel query n dim use_l2 params pos
        some_groups fits rows finite varied enough =
      let (plane, e₁, long, short) = hyperplane_rows fl normal params.b dim some_groups fits in
      let (q, e₂, part, few) = split-Partition fl query plane dim pq n params.b pos (λ v h k j.
        (_, get_innerproduct-row fl query plane n (params.b - 1) dim v h rows long short k j)) in
      let (t, w, e₃, trajectory) =
        compute_msts-IsTrajectory rand fuel query n dim use_l2 q rows finite varied part
          (omega (arith, few)) in
      (t, w, rw (e₁, e₂) e₃, trajectory)

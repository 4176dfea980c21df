-- ===== src/Mixed.antt =====
-- mqo/mixed_mst_opt.hpp: groups by hyperplanes as in mqo/lsh_mst_opt.hpp, each with the tree of an
-- index of its own queries, or, when the group is small, of Prim's algorithm on all of its pairs.
pub mod Append
pub mod Loop
pub mod Trees
pub mod Indexes
pub mod Correct
use mqo_public.Prelude.{
  ℕ, zero, suc, ◌+◌, ◌-◌, ◌*◌, Bool, true, false, not, Option, none, some, List, [], ◌∷◌, ◌++◌,
  length, Run, ok, err, index, expect, runtime_error, out_of_fuel, ◌>>=◌, leb, ◌==◌, if◌then◌else◌,
}
use mqo_public.Floats.{Floats}
use mqo_public.Trajectory.{Edge, is_root}
use mqo_public.Queue.{PriorityQueue}
use mqo_public.Distance.{int_of, get_weight_for_root}
use mqo_public.GroupMst.{parent_of, prim_from}
use mqo_public.AnnMst.{PqItem, heavier, approximate_mst, approximate_mst_undirected}
use mqo_public.AnnBuild.{read_row, HnswLib, build_ann}
use mqo_public.Lsh.{GroupInfo, smaller, iota, Params, generate_random_hyperplane, distance, split}

-- `subQ`: the rows of the queries of a group, one behind the other.
pub copy_rows : {A : Type 0} → List A → ℕ → List ℕ → Run (List A)
unfolding read_row
copy_rows query dim [] = ok []
copy_rows query dim (g ∷ group) = do
  start ← int_of (g * dim)
  row ← read_row query start dim
  rest ← copy_rows query dim group
  ok (row ++ rest)

-- `params.find("ef") != params.end() ? params.at("ef") : M`
abbrev pub ef_or_m : Params → ℕ
ef_or_m params = elim params.ef [ none ↦ params.m | some ef ↦ ef ]

module _ (fl : Floats) where
  open fl use {Float, Double, d_add, d_mul, d_div, d_of_int, to_double}

  -- The pairs of a group's own tree are written with the numbers of its queries; the count is that
  -- of the pairs that are no roots.
  pub append_local : List ℕ → List Edge → List Edge → ℕ → Run (List Edge × ℕ)
  unfolding parent_of
  append_local group [] out c = ok (out, c)
  append_local group ((v, p) ∷ t) out c = do
    gv ← index group v
    gp ← parent_of fl group p
    append_local group t (out ++ (gv, gp) ∷ []) (if is_root p then c else suc c)

  -- The tree of a small group, on the positions 0, 1, … of its queries: weights are added up as
  -- doubles, and the average is over `szg - 1`.
  unfoldable pub small_tree : (ℕ → ℕ → Run Float) → List ℕ → Run (List Edge × Double)
  unfolding prim_from iota
  small_tree dist group = do
    (weight, loc) ←
        prim_from fl (λ w key. d_add w (to_double key)) (d_of_int 0)
          (λ curr v. index group curr >>= λ a. index group v >>= λ b. dist a b)
          (iota (length group) 0) []
    ok (loc, d_div weight (d_of_int (length group - 1)))

  -- What follows the loop: the average weight, where a root weighs as much as a random pair.
  pub with_average :
      (ℕ → ℕ → ℕ) → ℕ → List Float → ℕ → ℕ → Run (Double × ℕ × List Edge) → Run (List Edge × Double)
  unfolding get_weight_for_root
  with_average rand fuel query n dim run = do
    (sum, edges, out) ← run
    weight ← get_weight_for_root fl rand fuel query n dim 3000
    ok (out, d_div (d_add sum (d_mul (d_of_int (n - edges)) weight)) (d_of_int n))

  module _ (lib : HnswLib fl) (pq' : PriorityQueue (PqItem fl) (heavier fl)) where
    -- The tree of a group by the directed search on an index of its rows.
    pub directed_tree : ℕ → Bool → Bool → List Float → ℕ → ℕ → ℕ → List ℕ → Run (List Edge × Double)
    unfolding copy_rows build_ann approximate_mst
    directed_tree fuel base_only use_l2 query dim m ef group = do
      size ← int_of (length group * dim)
      sub ← copy_rows query dim group
      hnsw ← build_ann fl lib base_only use_l2 sub (length group) dim m ef
      approximate_mst fl pq' fuel (lib.view hnsw) (length group)

    -- The tree of a group by the undirected search.
    pub undirected_tree :
        ℕ → Bool → Bool → List Float → ℕ → ℕ → ℕ → List ℕ → Run (List Edge × Double)
    unfolding copy_rows build_ann approximate_mst_undirected
    undirected_tree fuel base_only use_l2 query dim m ef group = do
      size ← int_of (length group * dim)
      sub ← copy_rows query dim group
      hnsw ← build_ann fl lib base_only use_l2 sub (length group) dim m ef
      approximate_mst_undirected fl pq' fuel (lib.view hnsw) (length group)

    -- `if (szg <= 500)`
    pub modified_tree : ℕ → Bool → Bool → List Float → ℕ → ℕ → ℕ → List ℕ → Run (List Edge × Double)
    unfolding small_tree undirected_tree
    modified_tree fuel base_only use_l2 query dim m ef group = elim (leb (length group) 500) [
      | true ↦ small_tree (distance fl use_l2 query dim) group
      | false ↦ undirected_tree fuel base_only use_l2 query dim m ef group
    ]

  module _ (pq : PriorityQueue GroupInfo smaller) where
    open pq use {Queue, pop}

    -- `while (!pq.empty())`, for each way to find the tree of a group: the sum of the weights, the
    -- number of edges and the pairs.
    pub mixed_loop :
        (List ℕ → Run (List Edge × Double))
        → ℕ
        → Queue
        → Double
        → ℕ
        → List Edge
        → Run (Double × ℕ × List Edge)
    unfolding append_local
    mixed_loop tree zero q sum edges out = err out_of_fuel
    mixed_loop tree (suc fuel) q sum edges out = elim (pop q) [
      | none ↦ ok (sum, edges, out)
      | some (info, q') ↦ elim (leb (length info.group) 1) [
        | true ↦ do
          g ← index info.group 0
          mixed_loop tree fuel q' sum edges (out ++ (g, none) ∷ [])
        | false ↦ do
          (loc, avg) ← tree info.group
          (out', c) ← append_local info.group loc out 0
          mixed_loop tree fuel q' (d_add sum (d_mul avg (d_of_int c))) (edges + c) out'
      ]
    ]

    -- What the three functions share: the groups, the loop and the average weight.
    pub mixed :
        (List ℕ → Run (List Edge × Double))
        → (ℕ → Float)
        → (ℕ → ℕ → ℕ)
        → ℕ
        → List Float
        → ℕ
        → ℕ
        → ℕ
        → Run (List Edge × Double)
    unfolding generate_random_hyperplane split mixed_loop with_average
    mixed tree normal rand fuel query n dim b = do
      plane ← generate_random_hyperplane fl normal b 1 dim
      q ← split fl pq query plane n dim b
      with_average rand fuel query n dim (mixed_loop tree fuel q (d_of_int 0) 0 [])

    module _ (lib : HnswLib fl) (pq' : PriorityQueue (PqItem fl) (heavier fl)) where
      unfoldable pub optimize_trajectory_mixed_mst :
          (ℕ → Float) → (ℕ → ℕ → ℕ) → ℕ → List Float → ℕ → ℕ → Params → Run (List Edge × Double)
      unfolding mixed directed_tree
      optimize_trajectory_mixed_mst normal rand fuel query n dim params = do
        ef ← expect params.ef runtime_error
        mixed (directed_tree lib pq' fuel (not (params.base_only == 0)) true query dim params.m ef)
            normal rand fuel query n dim params.b

      -- `_optimize_trajectory_mixed_modified_mst`, which nothing calls.
      unfoldable pub optimize_trajectory_mixed_undirected_mst :
          (ℕ → Float)
          → (ℕ → ℕ → ℕ)
          → ℕ
          → List Float
          → ℕ
          → ℕ
          → Bool
          → Params
          → Run (List Edge × Double)
      unfolding mixed undirected_tree
      optimize_trajectory_mixed_undirected_mst normal rand fuel query n dim use_l2 params =
          mixed
            (undirected_tree lib pq' fuel (not (params.base_only == 0)) use_l2 query dim params.m
              (ef_or_m params))
            normal rand fuel query n dim params.b

      unfoldable pub optimize_trajectory_mixed_modified_mst :
          (ℕ → Float)
          → (ℕ → ℕ → ℕ)
          → ℕ
          → List Float
          → ℕ
          → ℕ
          → Bool
          → Params
          → Run (List Edge × Double)
      unfolding mixed modified_tree
      optimize_trajectory_mixed_modified_mst normal rand fuel query n dim use_l2 params =
          mixed
            (modified_tree lib pq' fuel (not (params.base_only == 0)) use_l2 query dim params.m
              (ef_or_m params))
            normal rand fuel query n dim params.b

-- ===== src/Lsh.antt =====
-- mqo/lsh_mst_opt.hpp: the queries are split into groups by random hyperplanes, and each group gets a
-- spanning tree.
pub mod Bounds
pub mod Split
pub mod Sofar
pub mod Forest
pub mod Correct
pub mod Scores
use mqo_public.Prelude.{
  ℕ, zero, suc, ◌+◌, ◌-◌, ◌*◌, Bool, true, false, Option, none, some, List, [], ◌∷◌, ◌++◌, length,
  Run, ok, err, index, guard, expect, runtime_error, out_of_bounds, out_of_fuel, ◌>>=◌, ◌>>◌, ltb,
  leb, ◌==◌, if◌then◌else◌,
}
use mqo_public.Floats.{Floats}
use mqo_public.Trajectory.{Edge}
use mqo_public.Queue.{PriorityQueue}
use mqo_public.Distance.{int_of, get_distance, get_distance_ip, get_weight_for_root}
use mqo_public.GroupMst.{prim_group}

pub record GroupInfo : Type 0 where
  pub group : List ℕ
  pub size : ℕ

-- `GroupCompare`
abbrev pub smaller : GroupInfo → GroupInfo → Bool
smaller a b = ltb a.size b.size

-- `initial`: the numbers from `i` on, `k` of them.
unfoldable pub iota : ℕ → ℕ → List ℕ
iota zero i = []
iota (suc k) i = i ∷ iota k (suc i)

-- The parameters that the callers pass in a `map<string, int>`.
pub record Params : Type 0 where
  pub b : ℕ
  pub m : ℕ
  pub ef : Option ℕ
  pub base_only : ℕ

module _ (fl : Floats) where
  open fl use {
    Float, Double, lt, add, mul, d_add, d_mul, d_div, d_of_int, to_double, zero as float_zero,
  }

  -- Draws `normDist(gen)` of the generator, from the k-th on.
  pub draws : (ℕ → Float) → ℕ → ℕ → List Float
  draws normal zero k = []
  draws normal (suc n) k = normal k ∷ draws normal n (suc k)

  -- `new float[(B-1) * rep * dim]` throws when B is 0.
  unfoldable pub generate_random_hyperplane : (ℕ → Float) → ℕ → ℕ → ℕ → Run (List Float)
  unfolding draws
  generate_random_hyperplane normal b rep dim = do
    guard (leb 1 b) runtime_error
    count ← int_of ((b - 1) * rep * dim)
    ok (draws normal count 0)

  pub inner_loop : List Float → List Float → ℕ → ℕ → ℕ → ℕ → Float → Run Float
  inner_loop query plane qstart hstart zero i sum = ok sum
  inner_loop query plane qstart hstart (suc k) i sum = do
    qi ← int_of (qstart + i)
    a ← index query qi
    hi ← int_of (hstart + i)
    b ← index plane hi
    inner_loop query plane qstart hstart k (suc i) (add sum (mul a b))

  unfoldable pub get_innerproduct : List Float → List Float → ℕ → ℕ → ℕ → Run Float
  unfolding inner_loop
  get_innerproduct query plane dim qindex hindex = do
    qstart ← int_of (dim * qindex)
    hstart ← int_of (dim * hindex)
    inner_loop query plane qstart hstart dim 0 float_zero

  -- The loop of `splitgroup`.
  pub split_loop :
      List Float → List Float → ℕ → ℕ → List ℕ → (left right : List ℕ) → Run (List ℕ × List ℕ)
  unfolding get_innerproduct
  split_loop query plane dim hindex [] left right = ok (left, right)
  split_loop query plane dim hindex (q ∷ group) left right = do
    sum ← get_innerproduct query plane dim q hindex
    let goes_left = lt sum float_zero
    split_loop query plane dim hindex group (if goes_left then left ++ q ∷ [] else left)
        (if goes_left then right else right ++ q ∷ [])

  unfoldable pub splitgroup : List ℕ → List Float → List Float → ℕ → ℕ → Run (List ℕ × List ℕ)
  unfolding split_loop
  splitgroup group query plane dim split_num = split_loop query plane dim split_num group [] []

  -- The distance that `use_l2` selects.
  abbrev pub distance : Bool → List Float → ℕ → ℕ → ℕ → Run Float
  distance true query dim i j = get_distance fl query dim i j
  distance false query dim i j = get_distance_ip fl query dim i j

  module _ (pq : PriorityQueue GroupInfo smaller) where
    open pq use {Queue, empty, push, pop}

    -- `if (lsize > 0) pq.push({…, lsize})`
    pub push_group : List ℕ → Queue → Queue
    push_group g q = if ltb 0 (length g) then push (record { group = g; size = length g }) q else q

    -- The loop of `split`, with `k` rounds left.
    pub split_rounds : List Float → List Float → ℕ → ℕ → ℕ → Queue → Run Queue
    unfolding splitgroup push_group
    split_rounds query plane dim zero split_num q = ok q
    split_rounds query plane dim (suc k) split_num q = do
      (info, q') ← expect (pop q) out_of_bounds
      (left, right) ← splitgroup info.group query plane dim split_num
      split_rounds query plane dim k (suc split_num) (push_group right (push_group left q'))

    unfoldable pub split : List Float → List Float → ℕ → ℕ → ℕ → Run Queue
    unfolding split_rounds iota
    split query plane n dim b =
        split_rounds query plane dim (b - 1) 0 (push (record { group = iota n 0; size = n }) empty)

    -- `while (!pq.empty())` of `computeMSTs`: the total weight, the number of edges and the pairs.
    pub mst_loop :
        (ℕ → ℕ → Run Float) → ℕ → Queue → Double → ℕ → List Edge → Run (Double × ℕ × List Edge)
    unfolding prim_group
    mst_loop dist zero q total edges out = err out_of_fuel
    mst_loop dist (suc fuel) q total edges out = elim (pop q) [
      | none ↦ ok (total, edges, out)
      | some (info, q') ↦
          let n = length info.group in
          elim (n == 1) [
            | true ↦ do
              g ← index info.group 0
              mst_loop dist fuel q' total edges (out ++ (g, none) ∷ [])
            | false ↦ do
              (weight, out') ← prim_group fl dist info.group out
              mst_loop dist fuel q' (d_add total (to_double weight)) (edges + (n - 1)) out'
          ]
    ]

    unfoldable pub compute_msts :
        (ℕ → ℕ → ℕ) → ℕ → List Float → ℕ → ℕ → Bool → Queue → Run (List Edge × Double)
    unfolding mst_loop get_weight_for_root
    compute_msts rand fuel query n dim use_l2 q = do
      (total, edges, out) ← mst_loop (distance use_l2 query dim) fuel q (d_of_int 0) 0 []
      weight ← get_weight_for_root fl rand fuel query n dim 3000
      ok (out, d_div (d_add total (d_mul (d_of_int (n - edges)) weight)) (d_of_int n))

    -- The timing of the function is not modelled: the result is the pairs and the average weight.
    unfoldable pub optimize_trajectory_lsh_mst :
        (ℕ → Float)
        → (ℕ → ℕ → ℕ)
        → ℕ
        → List Float
        → ℕ
        → ℕ
        → Bool
        → Params
        → Run (List Edge × Double)
    unfolding generate_random_hyperplane split compute_msts
    optimize_trajectory_lsh_mst normal rand fuel query n dim use_l2 params = do
      plane ← generate_random_hyperplane normal params.b 1 dim
      q ← split query plane n dim params.b
      compute_msts rand fuel query n dim use_l2 q

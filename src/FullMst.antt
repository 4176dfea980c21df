-- ===== src/FullMst.antt =====
-- mqo/fullmst/full_mst.hpp: Prim's algorithm on all pairs of queries, and the text file that holds
-- its edges. The parent -1 is `none`; a vertex fits an `int`.
pub mod Files
pub mod Closest
pub mod Steps
pub mod Correct
use mqo_public.Prelude.{
  ℕ, zero, suc, ◌+◌, ◌-◌, ◌*◌, Bool, true, false, not, ◌&&◌, Option, none, some, List, [], ◌∷◌,
  ◌++◌, length, set, replicate, Run, ok, err, index, guard, out_of_bounds, runtime_error, ◌>>=◌,
  ◌>>◌, ltb, leb, if◌then◌else◌,
}
use mqo_public.Floats.{Floats}
use mqo_public.Trajectory.{Edge}
use mqo_public.Text.{put_digits, put_number, put_int, get_int}

module _ (fl : Floats) where
  open fl use {
    Float, Double, sub, to_double, d_lt, d_add, d_sub, d_mul, d_div, d_root, d_infinity, d_of_int,
  }

  -- The search for `u` and `best_d`, from index `i` on.
  pub closest : ℕ → List Bool → List Double → Option ℕ → Double → Option ℕ × Double
  closest i [] dist u best = (u, best)
  closest i (v ∷ visited) [] u best = (u, best)
  closest i (v ∷ visited) (d ∷ dist) u best =
      let nearer = not v && d_lt d best in
      closest (suc i) visited dist (if nearer then some i else u) (if nearer then d else best)

  -- `for (d = 0; d < dim; ++d)`: the squared distance, from offset `x` and `y` on.
  pub cost_l2 : List Float → ℕ → ℕ → ℕ → Double → Run Double
  cost_l2 query x y zero cost = ok cost
  cost_l2 query x y (suc k) cost = do
    a ← index query x
    b ← index query y
    let diff = to_double (sub a b)
    cost_l2 query (suc x) (suc y) k (d_add cost (d_mul diff diff))

  pub cost_ip : List Float → ℕ → ℕ → ℕ → Double → Run Double
  cost_ip query x y zero dot = ok (d_sub (d_of_int 1) dot)
  cost_ip query x y (suc k) dot = do
    a ← index query x
    b ← index query y
    cost_ip query (suc x) (suc y) k (d_add dot (d_mul (to_double a) (to_double b)))

  unfoldable pub cost : Bool → List Float → ℕ → ℕ → ℕ → Run Double
  unfolding cost_l2 cost_ip
  cost true query dim u j = cost_l2 query (u * dim) (j * dim) dim (d_of_int 0)
  cost false query dim u j = cost_ip query (u * dim) (j * dim) dim (d_of_int 0)

  -- The distance update over the vertices `j` on; its iterations are independent of one another.
  pub update :
      (ℕ → Run Double)
      → ℕ
      → ℕ
      → List Bool
      → List Double
      → List (Option ℕ)
      → Run (List Double × List (Option ℕ))
  update cost_to u j (true ∷ visited) (d ∷ dist) (p ∷ parent) = do
    (dist', parent') ← update cost_to u (suc j) visited dist parent
    ok (d ∷ dist', p ∷ parent')
  update cost_to u j (false ∷ visited) (d ∷ dist) (p ∷ parent) = do
    c ← cost_to j
    (dist', parent') ← update cost_to u (suc j) visited dist parent
    ok ((if d_lt c d then c else d) ∷ dist', (if d_lt c d then some u else p) ∷ parent')
  update cost_to u j _ _ _ = ok ([], [])

  -- The edge of `u`, if it is no root, and its weight.
  pub record_edge : Bool → ℕ → Option ℕ → Double → Double → List Edge → Double × List Edge
  record_edge use_l2 u none best total edges = (total, edges)
  record_edge use_l2 u (some p) best total edges =
      (d_add total (if use_l2 then d_root best else best), edges ++ (u, some p) ∷ [])

  -- `for (it = 0; it < n_query; ++it)` with `k` rounds left, and its break.
  pub full_rounds :
      Bool
      → (ℕ → ℕ → Run Double)
      → ℕ
      → List Bool
      → List Double
      → List (Option ℕ)
      → Double
      → List Edge
      → Run (Double × List Edge)
  unfolding closest update record_edge
  full_rounds use_l2 cost_of zero visited dist parent total edges = ok (total, edges)
  full_rounds use_l2 cost_of (suc k) visited dist parent total edges =
      let (found, best) = closest 0 visited dist none d_infinity in
      elim found [
        | none ↦ ok (total, edges)
        | some u ↦ do
          p ← index parent u
          let (total', edges') = record_edge use_l2 u p best total edges
          (dist', parent') ← update (cost_of u) u 0 (set visited u true) dist parent
          full_rounds use_l2 cost_of k (set visited u true) dist' parent' total' edges'
      ]

  unfoldable pub get_mst : ℕ → ℕ → List Float → Bool → Run (List Edge × Double)
  unfolding full_rounds cost
  get_mst n dim query use_l2 = do
    guard (ltb 0 n) out_of_bounds
    (total, edges) ←
        full_rounds use_l2 (cost use_l2 query dim) n (replicate n false)
          (set (replicate n d_infinity) 0 (d_of_int 0)) (replicate n none) (d_of_int 0) []
    ok (edges, if ltb 1 n then d_div total (d_of_int (n - 1)) else d_of_int 0)

-- The lines `child parent`.
pub save_edges : List Edge → List ℕ
unfolding put_digits
save_edges [] = []
save_edges ((v, p) ∷ edges) = put_number v (32 ∷ put_int p (10 ∷ save_edges edges))

-- The text of the file, of which the first line is the number of edges.
unfoldable pub save_mst : List Edge → List ℕ
unfolding save_edges put_digits
save_mst edges = put_number (length edges) (10 ∷ save_edges edges)

-- A child that is negative is no vertex.
pub vertex : Option ℕ → Run ℕ
vertex none = err out_of_bounds
vertex (some v) = ok v

-- `in >> child >> parent`, `m` times. A number that is not there is an error of the model.
pub read_edges : ℕ → List ℕ → Run (List Edge)
unfolding get_int vertex
read_edges zero file = ok []
read_edges (suc m) file = do
  (child, after_child) ← get_int file
  v ← vertex child
  (parent, after_parent) ← get_int after_child
  edges ← read_edges m after_parent
  ok ((v, parent) ∷ edges)

-- A file that cannot be opened is an exception.
unfoldable pub read_mst : Option (List ℕ) → Run (List Edge)
unfolding read_edges get_int vertex
read_mst none = err runtime_error
read_mst (some file) = do (count, lines) ← get_int file; m ← vertex count; read_edges m lines

-- ===== src/Reorder.antt =====
-- mqo/reorder.hpp: a forest of (child, parent) pairs is put into depth-first order. A stack is a list
-- with its top first. `fuel` bounds the pops of one `while (!s.empty())` loop.
pub mod Children
pub mod Dfs
pub mod Correct
use mqo_public.Prelude.{
  ℕ, zero, suc, Option, none, some, List, [], ◌∷◌, ◌++◌, length, set, replicate, Run, ok, err,
  index, out_of_bounds, out_of_fuel, ◌>>=◌,
}
use mqo_public.Trajectory.{Edge}

-- `children[parent].push_back(node)`
pub push_child : ℕ → ℕ → List (List ℕ) → Run (List (List ℕ))
push_child p v children = do cs ← index children p; ok (set children p (cs ++ v ∷ []))

-- The first loop of `reorder_multiple_DFS`: the children of each node, and the roots.
unfoldable pub link : List Edge → List (List ℕ) → List ℕ → Run (List (List ℕ) × List ℕ)
unfolding push_child
link [] children roots = ok (children, roots)
link ((v, none) ∷ t) children roots = link t children (roots ++ v ∷ [])
link ((v, some p) ∷ t) children roots = do
  children' ← push_child p v children
  link t children' roots

-- `for (i = childList.size() - 1; i >= 0; --i) s.push({childList[i], node})`: the last child is
-- pushed first.
unfoldable pub push_children : ℕ → List ℕ → List Edge → List Edge
push_children v [] s = s
push_children v (c ∷ cs) s = (c, some v) ∷ push_children v cs s

-- The `while` loop over the stack `s`, with `out` as `reordered`.
unfoldable pub dfs : ℕ → List (List ℕ) → (s out : List Edge) → Run (List Edge)
unfolding push_children
dfs fuel children [] out = ok out
dfs zero children (e ∷ s) out = err out_of_fuel
dfs (suc fuel) children ((v, p) ∷ s) out = do
  cs ← index children v
  dfs fuel children (push_children v cs s) (out ++ (v, p) ∷ [])

-- `for (int root : roots)`
unfoldable pub dfs_roots : ℕ → List (List ℕ) → List ℕ → List Edge → Run (List Edge)
unfolding dfs
dfs_roots fuel children [] out = ok out
dfs_roots fuel children (r ∷ roots) out = do
  out' ← dfs fuel children ((r, none) ∷ []) out
  dfs_roots fuel children roots out'

unfoldable pub reorder_multiple_dfs : ℕ → List Edge → Run (List Edge)
unfolding link dfs_roots
reorder_multiple_dfs fuel edges = do
  (children, roots) ← link edges (replicate (length edges) []) []
  dfs_roots fuel children roots []

-- The first loop of the functions for a single tree keeps the last root that it meets.
unfoldable pub link_single : List Edge → List (List ℕ) → Option ℕ → Run (List (List ℕ) × Option ℕ)
unfolding push_child
link_single [] children root = ok (children, root)
link_single ((v, none) ∷ t) children root = link_single t children (some v)
link_single ((v, some p) ∷ t) children root = do
  children' ← push_child p v children
  link_single t children' root

-- With no root the loop starts at the node -1 and reads `children[-1]`.
pub dfs_single : ℕ → List (List ℕ) → Option ℕ → Run (List Edge)
unfolding dfs
dfs_single fuel children none = err out_of_bounds
dfs_single fuel children (some r) = dfs fuel children ((r, none) ∷ []) []

unfoldable pub reorder_single_dfs : ℕ → List Edge → Run (List Edge)
unfolding link_single dfs_single
reorder_single_dfs fuel edges = do
  (children, root) ← link_single edges (replicate (length edges) []) none
  dfs_single fuel children root

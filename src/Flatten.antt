-- ===== src/Flatten.antt =====
-- mqo/reorder.hpp, the functions that flatten: a depth-first order in which a pair takes the query
-- before it for its parent, when that is not much farther than its own. `dist` is `get_distance`.
pub mod Order
pub mod Correct
use mqo_public.Prelude.{
  ℕ, zero, suc, Option, none, some, List, [], ◌∷◌, ◌++◌, length, replicate, Run, ok, err, expect,
  index, out_of_bounds, out_of_fuel, ◌>>=◌, if◌then◌else◌,
}
use mqo_public.Floats.{Floats}
use mqo_public.Trajectory.{Edge}
use mqo_public.Reorder.{link, link_single, push_children}

module _ (fl : Floats) (dist : ℕ → ℕ → Run fl.Float) (alpha : fl.Float) where
  open fl use {lt, mul}

  -- The pair that is written. A `prev` of -1 is read as a row before the array.
  pub flatten_pair : ℕ → Option ℕ → Option ℕ → Run Edge
  flatten_pair v none prev = ok (v, none)
  flatten_pair v (some p) prev = do
    own ← dist v p
    q ← expect prev out_of_bounds
    other ← dist v q
    ok (v, some (if lt other (mul own alpha) then q else p))

  -- The `while` loop over the stack `s`, with `out` as `result`.
  pub flatten_dfs : ℕ → List (List ℕ) → List Edge → Option ℕ → List Edge → Run (List Edge)
  unfolding flatten_pair push_children
  flatten_dfs fuel children [] prev out = ok out
  flatten_dfs zero children (e ∷ s) prev out = err out_of_fuel
  flatten_dfs (suc fuel) children ((v, p) ∷ s) prev out = do
    e ← flatten_pair v p prev
    cs ← index children v
    flatten_dfs fuel children (push_children v cs s) (some v) (out ++ e ∷ [])

  -- `for (int root : roots)`
  pub flatten_roots : ℕ → List (List ℕ) → List ℕ → List Edge → Run (List Edge)
  unfolding flatten_dfs
  flatten_roots fuel children [] out = ok out
  flatten_roots fuel children (r ∷ roots) out = do
    out' ← flatten_dfs fuel children ((r, none) ∷ []) none out
    flatten_roots fuel children roots out'

  unfoldable pub reorder_multiple_optimized : ℕ → List Edge → Run (List Edge)
  unfolding link flatten_roots
  reorder_multiple_optimized fuel edges = do
    (children, roots) ← link edges (replicate (length edges) []) []
    flatten_roots fuel children roots []

  -- With no root the loop starts at the node -1 and reads `children[-1]`.
  unfoldable pub reorder_single_optimized : ℕ → List Edge → Run (List Edge)
  unfolding link_single flatten_dfs
  reorder_single_optimized fuel edges = do
    (children, root) ← link_single edges (replicate (length edges) []) none
    r ← expect root out_of_bounds
    flatten_dfs fuel children ((r, none) ∷ []) none []

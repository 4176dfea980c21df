-- ===== src/Flatten/Correct.antt =====
-- The flattened order of a forest is a trajectory.
use mqo_public.Prelude.{
  bind_ok, ℕ, ◌<◌, ◌≡◌, refl, ap, ◌∙◌, List, [], length, replicate, count, Run, ok, arith,
}
use mqo_public.Floats.{Floats}
use mqo_public.Trajectory.{Edge, nodes, IsTrajectory, IsForest}
use mqo_public.Trajectory.Forest.{length-nodes}
use mqo_public.Reorder.{link, dfs_roots, reorder_multiple_dfs}
use mqo_public.Reorder.Correct.{reorder_multiple_dfs-IsTrajectory}
use mqo_public.Flatten.{reorder_multiple_optimized}
use mqo_public.Flatten.Order.{flatten_roots_lem}

module _ (fl : Floats) (dist : ℕ → ℕ → Run fl.Float) (alpha : fl.Float) where
  -- `reorder_multiple_optimized` of a forest of n queries, whose distances are found, returns a
  -- trajectory that visits the queries in the order of `reorder_multiple_DFS`, whatever the distances
  -- and alpha are: a parent that is replaced is replaced by a query that comes before.
  pub reorder_multiple_optimized-IsTrajectory :
      (n fuel : ℕ) (edges : List Edge)
      → ((i j : ℕ) → i < n → j < n → (d : fl.Float) × (dist i j ≡ ok d))
      → IsForest n edges
      → length edges < fuel
      → (t t' : List Edge) × (reorder_multiple_dfs fuel edges ≡ ok t)
        × (reorder_multiple_optimized fl dist alpha fuel edges ≡ ok t')
        × (nodes t' ≡ nodes t)
        × IsTrajectory n t'
  unfolding reorder_multiple_dfs reorder_multiple_optimized
  reorder_multiple_optimized-IsTrajectory n fuel edges found forest enough =
      let (t, ends, trajectory, _) = reorder_multiple_dfs-IsTrajectory n fuel edges forest enough in
      let ((children, roots), linked, rest) =
        bind_ok (link edges (replicate (length edges) []) []) (λ r. dfs_roots fuel r.0 r.1 []) t
          ends in
      let (t', ends', same, ordered) =
        flatten_roots_lem children fl dist alpha n found fuel roots [] [] t rest trajectory.ordered
          (λ v h. ground (arith, trajectory.visits v, h)) refl tt in
      (
        t,
        t',
        ends,
        rw linked ends',
        same,
        record {
          size = omega (arith, length-nodes t', length-nodes t, ap length same, trajectory.size);
          visits = λ v. ap (count v) same ∙ trajectory.visits v;
          ordered = ordered;
        },
      )

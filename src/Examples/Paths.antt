-- ===== src/Examples/Paths.antt =====
-- The checker and the reordering on four queries.
use mqo_public.Prelude.{
  ℕ, ◌+◌, zero, suc, ◌≡◌, refl, ◌<◌, ◌↔◌, none, some, List, [], ◌∷◌, SameItems, ok, err,
  assertion_failed, arith,
}
use mqo_public.Flatten.{reorder_multiple_optimized}
use mqo_public.Flatten.Correct.{reorder_multiple_optimized-IsTrajectory}
use mqo_public.Examples.Numbers.{pos, numbers}
use mqo_public.Trajectory.{nodes, Edge, IsTrajectory, IsForest, Rooted, root, child}
use mqo_public.Checker.{check_trajectory}
use mqo_public.Checker.Sound.{check_trajectory_iff}
use mqo_public.Reorder.{reorder_multiple_dfs}
use mqo_public.Reorder.Correct.{reorder_multiple_dfs-IsTrajectory}

-- Query 3 is the parent of 0, and stands behind it.
abbrev backwards : List Edge
backwards = (0, some 3) ∷ (1, none) ∷ (2, some 3) ∷ (3, none) ∷ []

abbrev forwards : List Edge
forwards = (1, none) ∷ (3, none) ∷ (0, some 3) ∷ (2, some 3) ∷ []

check_backwards : check_trajectory backwards 4 ≡ err assertion_failed
unfolding check_trajectory
check_backwards = refl

check_forwards : check_trajectory forwards 4 ≡ ok tt
unfolding check_trajectory
check_forwards = refl

check_trajectory_iff_example : (check_trajectory forwards 4 ≡ ok tt) ↔ IsTrajectory 4 forwards
check_trajectory_iff_example = check_trajectory_iff forwards 4

reorder_backwards : reorder_multiple_dfs 5 backwards ≡ ok forwards
unfolding reorder_multiple_dfs
reorder_backwards = refl

-- Every parent link of `backwards` leads to a root.
backwards-Rooted : (v : ℕ) → v < 4 → Rooted backwards v
backwards-Rooted zero h = child {p = 3} (omega arith) (root (omega arith))
backwards-Rooted (suc zero) h = root (omega arith)
backwards-Rooted (suc (suc zero)) h = child {p = 3} (omega arith) (root (omega arith))
backwards-Rooted (suc (suc (suc zero))) h = root (omega arith)
backwards-Rooted (suc (suc (suc (suc v)))) h = absurd (omega arith)

backwards-IsForest : IsForest 4 backwards
backwards-IsForest = record {
  size = refl;
  visits = λ v. ground arith;
  parents = omega arith;
  rooted = backwards-Rooted;
}

reorder_example :
    (t : List Edge) × (reorder_multiple_dfs 5 backwards ≡ ok t)
    × IsTrajectory 4 t
    × SameItems backwards t
reorder_example = reorder_multiple_dfs-IsTrajectory 4 5 backwards backwards-IsForest (omega arith)

-- Queries on a line; the distance is the sum of their places.
flatten_example :
    (t t' : List Edge) × (reorder_multiple_dfs 5 backwards ≡ ok t)
    × (reorder_multiple_optimized numbers (λ i j. ok (pos (i + j))) (pos 2) 5 backwards ≡ ok t')
    × (nodes t' ≡ nodes t)
    × IsTrajectory 4 t'
flatten_example =
    reorder_multiple_optimized-IsTrajectory numbers (λ i j. ok (pos (i + j))) (pos 2) 4 5 backwards
      (λ i j p q. (pos (i + j), refl)) backwards-IsForest (omega arith)

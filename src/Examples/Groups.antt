-- ===== src/Examples/Groups.antt =====
-- Distances, groups and their trees on five points of a plane.
use mqo_public.Prelude.{
  ℕ, zero, suc, ◌%◌, ◌≡◌, ◌≢◌, refl, ◌<◌, ap, subst, Bool, true, false, none, some, List, [], ◌∷◌,
  Run, ok, err, out_of_fuel, arith, if◌then◌else◌,
}
use mqo_public.Trajectory.{Edge, IsTrajectory}
use mqo_public.Examples.Queues.{group_queue}
use mqo_public.Distance.{get_distance_squared, get_distance, sample_two}
use mqo_public.Distance.Bounds.{HasRows, get_distance_squared-row, fold_rows, add_square, row}
use mqo_public.Distance.Sampling.{IsVaried, sample_two-differ, sample_two_single}
use mqo_public.GroupMst.{prim_group}
use mqo_public.Lsh.{distance, optimize_trajectory_lsh_mst}
use mqo_public.Lsh.Correct.{IsFinite, optimize_trajectory_lsh_mst-IsTrajectory}
use mqo_public.Examples.Numbers.{Number, pos, negsuc, infinite, numbers, numbers-IsInfinity}

-- (0, 0), (9, 0), (1, 0), (9, 2), (0, 3)
abbrev pub points : List Number
points = pos 0 ∷ pos 0 ∷ pos 9 ∷ pos 0 ∷ pos 1 ∷ pos 0 ∷ pos 9 ∷ pos 2 ∷ pos 0 ∷ pos 3 ∷ []

squared_runs : get_distance_squared numbers points 2 1 4 ≡ ok (pos 90)
unfolding get_distance_squared
squared_runs = refl

pub points-HasRows : HasRows points 5 2
points-HasRows = omega arith

get_distance_squared-row_example :
    get_distance_squared numbers points 2 1 4
    ≡ ok (fold_rows (add_square numbers) (pos 0) (row points 2 1) (row points 2 4))
get_distance_squared-row_example =
    get_distance_squared-row numbers points 5 2 points-HasRows 1 4 (omega arith) (omega arith)

-- Draws that run through the numbers below n.
abbrev pub counter : ℕ → ℕ → ℕ
counter n k = k % n

pub counter-IsVaried : (bound : ℕ) → 1 < bound → IsVaried counter 5 bound
counter-IsVaried bound h = record {
  in_range = λ k. omega arith;
  varies = λ k. (0, omega (arith, h), omega arith);
}

sample_two-differ_example :
    (a b k' : ℕ) × (sample_two counter 8 5 3 ≡ ok (a, b, k')) × (a < 5) × (b < 5) × (a ≢ b)
sample_two-differ_example = sample_two-differ counter 5 8 3 (counter-IsVaried 8 (omega arith))

sample_two_single_example : sample_two counter 1000 1 7 ≡ err out_of_fuel
sample_two_single_example = sample_two_single counter 1000 7 (λ i. omega arith)

prim_runs :
    prim_group numbers (distance numbers true points 2) (0 ∷ 2 ∷ 4 ∷ []) []
    ≡ ok (pos 10, (0, none) ∷ (2, some 0) ∷ (4, some 0) ∷ [])
unfolding prim_group get_distance
prim_runs = refl

-- A test that passes at each number below `k`.
unfoldable pub passes : (ℕ → Bool) → ℕ → Bool
passes test zero = true
passes test (suc k) = if passes test k then test k else false

pub passes-lt : (test : ℕ → Bool) (k i : ℕ) → i < k → passes test k ≡ true → test i ≡ true
unfolding passes
passes-lt test zero i below all = absurd (omega arith)
passes-lt test (suc k) i below all = ground (arith, ap test, passes-lt test k i)

unfoldable pub is_finite : Run Number → Bool
is_finite (ok infinite) = false
is_finite r = true

pub is_finite_lem :
    (r : Run Number) (d : Number) → is_finite r ≡ true → r ≡ ok d → numbers.lt d infinite ≡ true
unfolding is_finite
is_finite_lem r infinite h e =
    let wrong : is_finite (ok infinite) ≡ true = subst (λ x. is_finite x ≡ true) e h in cc
is_finite_lem r (pos n) h e = refl
is_finite_lem r (negsuc n) h e = refl

points-table : passes (λ i. passes (λ j. is_finite (distance numbers true points 2 i j)) 5) 5 ≡ true
unfolding passes is_finite get_distance
points-table = refl

pub points-IsFinite : IsFinite numbers points 5 2 true
points-IsFinite i j d p q e =
    is_finite_lem (distance numbers true points 2 i j) d
      (passes-lt _ 5 j q (passes-lt _ 5 i p points-table)) e

optimize_lsh_example :
    (t : List Edge) × (w : Number) × (optimize_trajectory_lsh_mst numbers group_queue pos counter 8
        points 5 2 true
        (record { b = 3; m = 4; ef = none; base_only = 0 })
      ≡ ok (t, w))
    × IsTrajectory 5 t
optimize_lsh_example =
    optimize_trajectory_lsh_mst-IsTrajectory numbers numbers-IsInfinity group_queue pos counter 8
      points 5 2 true (record { b = 3; m = 4; ef = none; base_only = 0 }) (omega arith)
      (omega arith) (omega arith) points-HasRows points-IsFinite (counter-IsVaried 8 (omega arith))
      (omega arith)

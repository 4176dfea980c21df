-- ===== src/Examples/Searches.antt =====
-- Files of edges and of answers, and a search along a trajectory of three queries.
use mqo_public.Prelude.{
  length, count, ltb, leb, ◌≤◌, if◌then◌else◌, ℕ, ◌+◌, ◌*◌, ◌<◌, ◌≡◌, refl, true, none, some, List,
  [], ◌∷◌, get_elem?, zero, suc, replicate, All, ok, index, arith,
}
use mqo_public.Trajectory.{Edge, IsTrajectory}
use mqo_public.FullMst.{save_mst, read_mst}
use mqo_public.FullMst.Files.{read_mst-save_mst}
use mqo_public.Answers.{save_2d_vec_to_binary, load_2d_vec_from_binary}
use mqo_public.Answers.Files.{load_2d_vec_from_binary-save_2d_vec_to_binary}
use mqo_public.DataFiles.{VectorFile, load, copy_indices, sample_and_save_subset}
use mqo_public.DataFiles.Subsets.{load-sample_and_save_subset}
use mqo_public.Recall.{Search, trajectory_loop, get_recall_optimized}
use mqo_public.Recall.Order.{IsReady, Follows, trajectory_loop-Follows}
use mqo_public.Examples.Numbers.{Number, numbers}

abbrev branches : List Edge
branches = (0, none) ∷ (2, some 0) ∷ (1, some 2) ∷ []

read_mst_example : read_mst (some (save_mst branches)) ≡ ok branches
read_mst_example = read_mst-save_mst branches

abbrev answers : List (List ℕ)
answers = (7 ∷ 300 ∷ []) ∷ [] ∷ (70000 ∷ []) ∷ []

load_example : load_2d_vec_from_binary [] (some (save_2d_vec_to_binary answers)) ≡ (true, answers)
load_example = load_2d_vec_from_binary-save_2d_vec_to_binary [] answers (omega arith) (omega arith)

-- A search that goes on from its entry point.
abbrev onward : Search
onward topk v [] = v ∷ []
onward topk v (a ∷ entries) = (a + v) ∷ []

abbrev truth : List (List ℕ)
truth = (0 ∷ []) ∷ (3 ∷ []) ∷ (5 ∷ []) ∷ []

onward-IsReady : IsReady numbers onward truth 2 1 3
onward-IsReady = record { finds = λ v entries h. found v entries; answers = λ v h. known v h }
  where
    found : (v : ℕ) (entries : List ℕ) → (l : ℕ) × (index (onward 1 (v * 2) entries) 0 ≡ ok l)
    found v [] = (v * 2, refl)
    found v (a ∷ entries) = (a + v * 2, refl)

    known :
        (v : ℕ)
        → v < 3
        → (a : List ℕ) × (f : ℕ) × (get_elem? truth v ≡ some a) × (get_elem? a 0 ≡ some f)
    known zero h = (0 ∷ [], 0, refl, refl)
    known (suc zero) h = (3 ∷ [], 3, refl, refl)
    known (suc (suc zero)) h = (5 ∷ [], 5, refl, refl)
    known (suc (suc (suc v))) h = absurd (omega (arith, h))

branches-IsTrajectory : IsTrajectory 3 branches
branches-IsTrajectory = record { size = refl; visits = λ v. ground arith; ordered = omega arith }

trajectory_loop_example :
    (ann : List ℕ) × (c : Number) × (trajectory_loop numbers onward truth 2 1 branches
        (replicate 3 0)
        numbers.zero
      ≡ ok (ann, c))
    × (get_recall_optimized numbers onward truth branches 3 2 1
        ≡ ok (numbers.div c (numbers.of_int 3)))
    × All (λ e. Follows numbers onward truth 2 1 3 ann e.0 e.1) branches
trajectory_loop_example =
    trajectory_loop-Follows numbers onward truth 2 1 3 branches onward-IsReady (omega arith)
      (omega arith) branches-IsTrajectory

-- Three rows of two values.
abbrev table : VectorFile ℕ
table = record { n = 3; d = 2; values = 1 ∷ 2 ∷ 3 ∷ 4 ∷ 5 ∷ 6 ∷ [] }

subset_example :
    (indices : List ℕ) × (subset : List ℕ) × (out : VectorFile ℕ) × (sample_and_save_subset
        (λ xs. xs)
        (some table)
        1
        2
        1
      ≡ ok out)
    × (load (some out) ≡ ok (1, 2, subset))
    × (copy_indices (1 ∷ 2 ∷ 3 ∷ 4 ∷ 5 ∷ 6 ∷ []) 2 indices ≡ ok subset)
    × (length indices ≡ 1)
    × ((v : ℕ) → count v indices ≤ (if ltb v 1 then 0 else if leb v 2 then 1 else 0))
subset_example =
    load-sample_and_save_subset (λ xs. xs) table 1 2 1 (λ xs. refl) (λ v xs. refl) refl
      (omega arith) (omega arith) (omega arith) (omega arith) (omega arith)

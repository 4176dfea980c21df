-- ===== src/VamanaRecall.antt =====
-- vamana_exp/process.hpp: the recall of the DiskANN index, query by query and along a trajectory. The
-- count is an `int`, and a query is the offset of its row, a `size_t`.
pub mod Bounds
use mqo_public.Prelude.{
  ℕ, zero, suc, ◌*◌, Option, none, some, List, [], ◌∷◌, replicate, Run, ok, index, ◌>>=◌, ◌==◌,
  if◌then◌else◌,
}
use mqo_public.Floats.{Floats}
use mqo_public.Trajectory.{Edge}
use mqo_public.Follow.{follow_loop}

-- `index.search` for a number of results, a beam size, a query and an entry point, if there is one: the
-- row of ids.
abbrev pub Search : Type 0
Search = ℕ → ℕ → ℕ → Option ℕ → List ℕ

-- `if (!answers[i].empty() && (int)ids[0] == answers[i][0])`, for an answer and the ids found.
pub count_top : List ℕ → List ℕ → ℕ → Run ℕ
count_top [] ids correct_count = ok correct_count
count_top (first ∷ answer) ids correct_count = do
  id ← index ids 0
  ok (if id == first then suc correct_count else correct_count)

-- `for (i = 0; i < n_query; i++)`, from `i` on with `k` rounds left.
pub count_loop : (ℕ → List ℕ) → List (List ℕ) → ℕ → ℕ → ℕ → Run ℕ
unfolding count_top
count_loop search answers zero i correct_count = ok correct_count
count_loop search answers (suc k) i correct_count = do
  answer ← index answers i
  correct_count' ← count_top answer (search i) correct_count
  count_loop search answers k (suc i) correct_count'

module _ (fl : Floats) (search : Search) where
  open fl use {Double, d_div, d_of_int}

  -- The timing is not modelled: the result is the recall.
  unfoldable pub get_recall : List (List ℕ) → ℕ → ℕ → ℕ → ℕ → Run Double
  unfolding count_loop
  get_recall answers n_query dim topk l_search = do
    correct_count ← count_loop (λ i. search topk l_search (i * dim) none) answers n_query 0 0
    ok (d_div (d_of_int correct_count) (d_of_int n_query))

  unfoldable pub get_recall_optimized : List (List ℕ) → List Edge → ℕ → ℕ → ℕ → ℕ → Run Double
  unfolding follow_loop
  get_recall_optimized answers trajectory n_query dim topk l_search = do
    (res, correct_count) ←
        follow_loop suc (λ curr. ok (curr * dim)) (search topk l_search) answers trajectory
          (replicate n_query (replicate topk 0)) 0
    ok (d_div (d_of_int correct_count) (d_of_int n_query))

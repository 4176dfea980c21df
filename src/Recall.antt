-- ===== src/Recall.antt =====
-- hnsw_exp/process.hpp: the recall of a search for each query on its own, and for the queries in the
-- order of a trajectory, each from the answer of its parent. The search of hnswlib is a parameter.
pub mod Order
use mqo_public.Prelude.{
  ℕ, zero, suc, ◌*◌, Bool, true, false, Option, none, some, List, [], ◌∷◌, ◌++◌, set, replicate,
  Run, ok, index, expect, out_of_bounds, guard, assertion_failed, ◌>>=◌, ◌>>◌, leb, ◌==◌,
  if◌then◌else◌,
}
use mqo_public.Floats.{Floats}
use mqo_public.Trajectory.{Edge}
use mqo_public.Distance.{int_of}

-- `searchKnn_mine(query, topk, entry_points)`: the labels in the order in which the result queue
-- gives them. `topk` comes first, then the query as the offset of its row in the array, and the entry
-- points.
abbrev pub Search : Type 0
Search = ℕ → ℕ → List ℕ → List ℕ

module _ (fl : Floats) where
  open fl use {Float, one, add, div, of_int, zero as float_zero}

  -- `if (label == ans[i][0]) correct++;`
  pub tally : List (List ℕ) → ℕ → ℕ → Float → Run Float
  tally ans i label correct = do
    answer ← index ans i
    first ← index answer 0
    ok (if label == first then add correct one else correct)

  -- `for (long long i = 0; i < n_elements; i++)`, from `i` on with `k` rounds left.
  pub recall_loop : Search → List (List ℕ) → ℕ → ℕ → ℕ → ℕ → Float → Run Float
  unfolding tally
  recall_loop search ans dim topk zero i correct = ok correct
  recall_loop search ans dim topk (suc k) i correct = do
    label ← index (search topk (i * dim) []) 0
    correct' ← tally ans i label correct
    recall_loop search ans dim topk k (suc i) correct'

  -- The timing is not modelled: the result is the recall.
  unfoldable pub get_recall : Search → List (List ℕ) → ℕ → ℕ → ℕ → Run Float
  unfolding recall_loop
  get_recall search ans n dim topk = do
    correct ← recall_loop search ans dim topk n 0 float_zero
    ok (div correct (of_int n))

  -- `get_self_recall`: whether each point finds itself.
  pub self_loop : (ℕ → List ℕ) → ℕ → ℕ → ℕ → Float → Run Float
  self_loop search dim zero i correct = ok correct
  self_loop search dim (suc k) i correct = do
    label ← index (search (i * dim)) 0
    self_loop search dim k (suc i) (if label == i then add correct one else correct)

  pub get_self_recall : (ℕ → List ℕ) → ℕ → ℕ → Run Float
  unfolding self_loop
  get_self_recall search n dim = do
    correct ← self_loop search dim n 0 float_zero
    ok (div correct (of_int n))

  -- `{ ann[parent] }`, or none for a root.
  pub entry_points : List ℕ → Option ℕ → Run (List ℕ)
  entry_points ann none = ok []
  entry_points ann (some p) = do a ← index ann p; ok (a ∷ [])

  -- `ann[curr] = label` writes inside the vector.
  pub write {ℓ} : {A : Type ℓ} → List A → ℕ → A → Run (List A)
  write xs i a = do old ← index xs i; ok (set xs i a)

  -- `for (auto x : trajectory)`: the answers and the count. `curr * dim` is an `int`.
  pub trajectory_loop :
      Search → List (List ℕ) → ℕ → ℕ → List Edge → List ℕ → Float → Run (List ℕ × Float)
  unfolding tally entry_points write
  trajectory_loop search ans dim topk [] ann correct = ok (ann, correct)
  trajectory_loop search ans dim topk ((curr, parent) ∷ t) ann correct = do
    entries ← entry_points ann parent
    start ← int_of (curr * dim)
    label ← index (search topk start entries) 0
    ann' ← write ann curr label
    correct' ← tally ans curr label correct
    trajectory_loop search ans dim topk t ann' correct'

  unfoldable pub get_recall_optimized : Search → List (List ℕ) → List Edge → ℕ → ℕ → ℕ → Run Float
  unfolding trajectory_loop
  get_recall_optimized search ans trajectory n dim topk = do
    (ann, correct) ← trajectory_loop search ans dim topk trajectory (replicate n 0) float_zero
    ok (div correct (of_int n))

  -- The first `k` labels in the order of the result queue, and the last of them, if there is one.
  pub pop_labels : ℕ → List ℕ → List ℕ → Option ℕ → Run (List ℕ × Option ℕ)
  pop_labels zero result partial label = ok (partial, label)
  pop_labels (suc k) result partial label = do
    top ← index result 0
    pop_labels k (rest result) (partial ++ top ∷ []) (some top)
    where
      rest : List ℕ → List ℕ
      rest [] = []
      rest (x ∷ xs) = xs

  -- `partial_res[parent]`, or none for a root.
  pub partial_entries : List (List ℕ) → Option ℕ → Run (List ℕ)
  partial_entries partial_res none = ok []
  partial_entries partial_res (some p) = index partial_res p

  -- The loop of `get_recall_optimized2`: `k` entry points, and the answers of each query are added to
  -- those it has.
  pub multiple_loop : Search → List (List ℕ) → ℕ → ℕ → List Edge → List (List ℕ) → Float → Run Float
  unfolding tally partial_entries pop_labels write
  multiple_loop search ans dim k [] partial_res correct = ok correct
  multiple_loop search ans dim k ((curr, parent) ∷ t) partial_res correct = do
    entries ← partial_entries partial_res parent
    old ← index partial_res curr
    start ← int_of (curr * dim)
    (labels, last) ← pop_labels k (search k start entries) old none
    label ← expect last out_of_bounds
    partial_res' ← write partial_res curr labels
    correct' ← tally ans curr label correct
    multiple_loop search ans dim k t partial_res' correct'

  pub get_recall_optimized2 : Search → List (List ℕ) → List Edge → ℕ → ℕ → ℕ → ℕ → Run Float
  unfolding multiple_loop
  get_recall_optimized2 search ans trajectory n dim beamsize n_entry_points = do
    guard (leb n_entry_points beamsize) assertion_failed
    correct ← multiple_loop search ans dim n_entry_points trajectory (replicate n []) float_zero
    ok (div correct (of_int n))

-- ===== src/Examples/Recalls.antt =====
-- The recall of NSG and of DiskANN along a trajectory of three queries.
use mqo_public.Prelude.{
  ℕ, zero, suc, ◌+◌, ◌*◌, ◌≤◌, ◌≡◌, refl, Option, none, some, List, [], ◌∷◌, All, ok, arith,
}
use mqo_public.Trajectory.{Edge, IsTrajectory}
use mqo_public.Follow.Order.{HasAnswers, right_from, Follows, right_answers}
use mqo_public.NsgRecall.{
  NsgLib, bump, unsigned_offset, get_recall, get_recall_optimized, get_recall_ip,
  get_recall_optimized_ip,
}
use mqo_public.NsgRecall.Correct.{
  FindsSome, share, Recalled, right, get_recall-share, get_recall_optimized-Recalled,
}
use mqo_public.VamanaRecall.{Search}
use mqo_public.VamanaRecall as vamana
use mqo_public.VamanaRecall.Bounds.{get_recall-le, get_recall_optimized-le}
use mqo_public.Examples.Numbers.{pos, numbers}

-- A search that goes on from its entry point.
abbrev goes_on : ℕ → Option ℕ → List ℕ
goes_on x none = x ∷ []
goes_on x (some entry) = (entry + x) ∷ []

abbrev graph : NsgLib
graph = record {
  search_with_opt_graph = λ b k x. x ∷ [];
  search_with_opt_graph_mine = λ b k x entry. goes_on x entry;
  search = λ b k x. x ∷ [];
  search_mine = λ b k x entry. goes_on x entry;
}

goes_on_some : (x : ℕ) (entry : Option ℕ) → (l : ℕ) × (ls : List ℕ) × (goes_on x entry ≡ l ∷ ls)
goes_on_some x none = (x, [], refl)
goes_on_some x (some entry) = (entry + x, [], refl)

graph-FindsSome : FindsSome graph 8 1
graph-FindsSome = record {
  opt_graph = λ x. (x, [], refl);
  opt_graph_mine = goes_on_some;
  ip = λ x. (x, [], refl);
  ip_mine = goes_on_some;
}

abbrev right_rows : List (List ℕ)
right_rows = (0 ∷ []) ∷ (6 ∷ []) ∷ (5 ∷ []) ∷ []

right_rows-HasAnswers : HasAnswers 3 right_rows
right_rows-HasAnswers zero h = (0, [], refl)
right_rows-HasAnswers (suc zero) h = (6, [], refl)
right_rows-HasAnswers (suc (suc zero)) h = (5, [], refl)
right_rows-HasAnswers (suc (suc (suc v))) h = absurd (omega (arith, h))

abbrev forked : List Edge
forked = (0, none) ∷ (2, some 0) ∷ (1, some 2) ∷ []

forked-IsTrajectory : IsTrajectory 3 forked
forked-IsTrajectory = record { size = refl; visits = λ v. ground arith; ordered = omega arith }

get_recall_optimized_runs :
    get_recall_optimized numbers graph right_rows forked 3 2 1 8 ≡ ok (pos 2)
unfolding get_recall_optimized
get_recall_optimized_runs = refl

get_recall-share_example :
    (get_recall numbers graph right_rows 3 2 1 8
      ≡ ok (
          share numbers graph right_rows 3 2 1 8 right_rows-HasAnswers graph-FindsSome (
            right_from
              (bump numbers graph)
              right_rows
              3
              right_rows-HasAnswers
              (λ i. graph.search_with_opt_graph 8 1 (unsigned_offset numbers graph 2 i))
              3
              0)))
    × (get_recall_ip numbers graph right_rows 3 2 1 8
        ≡ ok (
            share numbers graph right_rows 3 2 1 8 right_rows-HasAnswers graph-FindsSome (
              right_from
                (bump numbers graph)
                right_rows
                3
                right_rows-HasAnswers
                (λ i. graph.search 8 1 (unsigned_offset numbers graph 2 i))
                3
                0)))
get_recall-share_example =
    get_recall-share numbers graph right_rows 3 2 1 8 right_rows-HasAnswers graph-FindsSome

get_recall_optimized-Recalled_example :
    (res res' : List (List ℕ)) × (get_recall_optimized numbers graph right_rows forked 3 2 1 8
      ≡ ok (
          share numbers graph right_rows 3 2 1 8 right_rows-HasAnswers graph-FindsSome (
            right numbers graph right_rows 3 2 1 8 right_rows-HasAnswers graph-FindsSome
              (graph.search_with_opt_graph_mine 8 1)
              forked
              res)))
    × Recalled numbers graph right_rows 3 2 1 8 right_rows-HasAnswers graph-FindsSome
        (graph.search_with_opt_graph_mine 8 1)
        forked
        res
    × (get_recall_optimized_ip numbers graph right_rows forked 3 2 1 8
        ≡ ok (
            share numbers graph right_rows 3 2 1 8 right_rows-HasAnswers graph-FindsSome (
              right numbers graph right_rows 3 2 1 8 right_rows-HasAnswers graph-FindsSome
                (graph.search_mine 8 1)
                forked
                res')))
    × Recalled numbers graph right_rows 3 2 1 8 right_rows-HasAnswers graph-FindsSome
        (graph.search_mine 8 1)
        forked
        res'
get_recall_optimized-Recalled_example =
    get_recall_optimized-Recalled numbers graph right_rows 3 2 1 8 right_rows-HasAnswers
      graph-FindsSome forked (omega arith) (omega arith) forked-IsTrajectory

abbrev index_search : Search
index_search topk l x entry = goes_on x entry

-- The second query has no true answer.
abbrev some_rows : List (List ℕ)
some_rows = (0 ∷ []) ∷ [] ∷ (5 ∷ []) ∷ []

get_recall-le_example :
    (c : ℕ) × (vamana.get_recall numbers index_search some_rows 3 2 1 8
      ≡ ok (numbers.d_div (numbers.d_of_int c) (numbers.d_of_int 3)))
    × (c ≡ vamana.Bounds.right_from (λ i. index_search 1 8 (i * 2) none) some_rows 3 0)
    × (c ≤ 3)
get_recall-le_example =
    get_recall-le numbers index_search some_rows 3 2 1 8 goes_on_some (omega arith)

get_recall_optimized-le_example :
    (res : List (List ℕ)) × (c : ℕ) × (vamana.get_recall_optimized numbers index_search right_rows
        forked 3 2 1 8
      ≡ ok (numbers.d_div (numbers.d_of_int c) (numbers.d_of_int 3)))
    × (c
        ≡ right_answers suc right_rows 3 right_rows-HasAnswers
            (λ v. ok (v * 2))
            (index_search 1 8)
            res
            forked)
    × (c ≤ 3)
    × All
        (λ e.
          Follows suc right_rows 3 right_rows-HasAnswers
            (λ v. ok (v * 2))
            (index_search 1 8)
            res
            e.0
            e.1)
        forked
get_recall_optimized-le_example =
    get_recall_optimized-le numbers index_search right_rows 3 2 1 8 goes_on_some forked
      right_rows-HasAnswers forked-IsTrajectory

-- ===== src/NsgRecall.antt =====
-- nsg_exp/process.hpp: the recall of the NSG index, query by query and along a trajectory. A query is
-- the offset of its row in the array.
pub mod Correct
use mqo_public.Prelude.{ℕ, ◌*◌, ◌%◌, Option, none, some, List, replicate, Run, ok, ◌>>=◌}
use mqo_public.Floats.{Floats}
use mqo_public.Trajectory.{Edge}
use mqo_public.Distance.{int_of}
use mqo_public.Follow.{scan_loop, follow_loop}

-- The searches of the NSG library that the program calls, on an index and its data: for a beam size, the
-- number of results and a query, the row of results. Those of its own take an entry point, if there is
-- one.
pub record NsgLib : Type 0 where
  pub search_with_opt_graph : ℕ → ℕ → ℕ → List ℕ
  pub search_with_opt_graph_mine : ℕ → ℕ → ℕ → Option ℕ → List ℕ
  pub search : ℕ → ℕ → ℕ → List ℕ
  pub search_mine : ℕ → ℕ → ℕ → Option ℕ → List ℕ

module _ (fl : Floats) (nsg : NsgLib) where
  open fl use {Float, one, add, div, of_int, zero as float_zero}

  abbrev pub bump : Float → Float
  bump correct = add correct one

  -- `query + i * dim` with an `unsigned` i.
  abbrev pub unsigned_offset : ℕ → ℕ → ℕ
  unsigned_offset dim i = i * dim % 4294967296

  -- `query + curr * dim` with an `int` curr.
  abbrev pub int_offset : ℕ → ℕ → Run ℕ
  int_offset dim curr = int_of (curr * dim)

  -- The timing is not modelled: the result is the recall.
  unfoldable pub get_recall : List (List ℕ) → ℕ → ℕ → ℕ → ℕ → Run Float
  unfolding scan_loop
  get_recall ans n_query dim topk beamsize = do
    correct ←
        scan_loop bump (λ i. nsg.search_with_opt_graph beamsize topk (unsigned_offset dim i)) ans
          n_query 0 float_zero
    ok (div correct (of_int n_query))

  unfoldable pub get_recall_optimized : List (List ℕ) → List Edge → ℕ → ℕ → ℕ → ℕ → Run Float
  unfolding follow_loop
  get_recall_optimized ans trajectory n_query dim topk beamsize = do
    (res, correct) ←
        follow_loop bump (int_offset dim) (nsg.search_with_opt_graph_mine beamsize topk) ans
          trajectory (replicate n_query (replicate topk 0)) float_zero
    ok (div correct (of_int n_query))

  unfoldable pub get_recall_ip : List (List ℕ) → ℕ → ℕ → ℕ → ℕ → Run Float
  unfolding scan_loop
  get_recall_ip ans n_query dim topk beamsize = do
    correct ←
        scan_loop bump (λ i. nsg.search beamsize topk (unsigned_offset dim i)) ans n_query 0
          float_zero
    ok (div correct (of_int n_query))

  unfoldable pub get_recall_optimized_ip : List (List ℕ) → List Edge → ℕ → ℕ → ℕ → ℕ → Run Float
  unfolding follow_loop
  get_recall_optimized_ip ans trajectory n_query dim topk beamsize = do
    (res, correct) ←
        follow_loop bump (int_offset dim) (nsg.search_mine beamsize topk) ans trajectory
          (replicate n_query (replicate topk 0)) float_zero
    ok (div correct (of_int n_query))

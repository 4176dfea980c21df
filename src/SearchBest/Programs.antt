-- ===== src/SearchBest/Programs.antt =====
-- The three programs that look for the best parameters, after their command lines are parsed. The
-- candidates come from a header that the repository does not have, and the times from a clock: both
-- are parameters.
use mqo_public.Prelude.{
  ℕ, ◌-◌, Bool, Option, List, [], Run, ok, err, int_overflow, ◌>>=◌, leb, if◌then◌else◌,
}
use mqo_public.Floats.{Floats}
use mqo_public.Trajectory.{Edge}
use mqo_public.Queue.{PriorityQueue}
use mqo_public.AnnMst.{PqItem, heavier}
use mqo_public.AnnBuild.{HnswLib}
use mqo_public.Lsh.{GroupInfo, smaller}
use mqo_public.Interface.{mqo_with_info}
use mqo_public.Answers.{get_answers}
use mqo_public.DataFiles.{Format, get_data}
use mqo_public.Recall as hnsw
use mqo_public.NsgRecall as nsg
use mqo_public.VamanaRecall as vamana
use mqo_public.SearchBest.{Candidate, params_of, method_of, Measured, Best, search_best}

-- `beamsize - t2i`, where a beam size below 0 is a fault of the model.
pub lessen : ℕ → ℕ → Run ℕ
lessen beamsize t2i = if leb t2i beamsize then ok (beamsize - t2i) else err int_overflow

module _ (fl : Floats) {U : Type 0} (to_float : U → fl.Float) (lib : HnswLib fl)
    (groups : PriorityQueue GroupInfo smaller) (items : PriorityQueue (PqItem fl) (heavier fl))
    (normal : ℕ → fl.Float) (rand : ℕ → ℕ → ℕ) (fuel : ℕ)
    (get_candidate_params : ℕ → List Candidate) (times : Candidate → fl.Double × fl.Double)
    (plain_time : fl.Double) where
  open fl use {Float, Double, d_add, d_div, to_double}

  -- The run of one candidate, for each way to compute the recall along a trajectory.
  pub measure_candidate :
      (List Edge → Run Double) → List Float → ℕ → ℕ → Bool → Candidate → Run (Measured fl)
  unfolding mqo_with_info
  measure_candidate recall query n_query dim use_l2 params = do
    (trajectory, weight) ←
        mqo_with_info fl lib groups items normal rand (method_of params) fuel query n_query dim
          use_l2 (params_of params)
    r ← recall trajectory
    ok (record { mst_time = (times params).0; query_time = (times params).1; recall = r })

  -- The recall and the time of the plain search, the best candidate, and the speedup.
  abbrev pub Report : Type 0
  Report = Double × Double × Best fl × Double

  pub report : Double → Best fl → Report
  report recall best =
      (recall, plain_time, best, d_div plain_time (d_add best.best_mst_time best.best_query_time))

  unfoldable pub search_best_hnsw :
      (Bool → List Float → ℕ → hnsw.Search)
      → Format Float U
      → Option (List ℕ)
      → ℕ
      → Bool
      → Run Report
  unfolding get_data get_answers hnsw.get_recall hnsw.get_recall_optimized lessen measure_candidate
      search_best report
  search_best_hnsw search querypath answerpath beamsize use_l2 = do
    (n_query, dim, query) ← get_data to_float querypath
    answers ← get_answers [] answerpath
    plain ← hnsw.get_recall fl (search use_l2 query beamsize) answers n_query dim 1
    best ←
        search_best fl
          (measure_candidate
            (λ trajectory. do
              b ← lessen beamsize (if use_l2 then 0 else 3)
              r ←
                  hnsw.get_recall_optimized fl (search use_l2 query b) answers trajectory n_query
                    dim 1
              ok (to_double r))
            query n_query dim use_l2)
          (get_candidate_params n_query)
    ok (report (to_double plain) best)

  -- With the squared distance the beam size stays as it is.
  unfoldable pub search_best_nsg :
      (List Float → List Float → nsg.NsgLib)
      → Format Float U
      → Format Float U
      → Option (List ℕ)
      → ℕ
      → Bool
      → Run Report
  unfolding get_data get_answers nsg.get_recall nsg.get_recall_optimized nsg.get_recall_ip
      nsg.get_recall_optimized_ip lessen measure_candidate search_best report
  search_best_nsg index querypath datapath answerpath beamsize use_l2 = do
    (n_query, d, query) ← get_data to_float querypath
    (n_data, dim, points) ← get_data to_float datapath
    answers ← get_answers [] answerpath
    let g = index points query
    plain ←
        if use_l2
        then nsg.get_recall fl g answers n_query dim 1 beamsize
        else nsg.get_recall_ip fl g answers n_query dim 1 beamsize
    best ←
        search_best fl
          (measure_candidate
            (λ trajectory. do
              b ← lessen beamsize (if use_l2 then 0 else 3)
              r ←
                  if use_l2
                  then nsg.get_recall_optimized fl g answers trajectory n_query dim 1 beamsize
                  else nsg.get_recall_optimized_ip fl g answers trajectory n_query dim 1 b
              ok (to_double r))
            query n_query dim use_l2)
          (get_candidate_params n_query)
    ok (report (to_double plain) best)

  unfoldable pub search_best_vamana :
      (Bool → List Float → vamana.Search) → Format Float U → Option (List ℕ) → ℕ → Bool → Run Report
  unfolding get_data get_answers vamana.get_recall vamana.get_recall_optimized lessen
      measure_candidate search_best report
  search_best_vamana search querypath answerpath beamsize use_l2 = do
    (n_query, dim, query) ← get_data to_float querypath
    answers ← get_answers [] answerpath
    plain ← vamana.get_recall fl (search use_l2 query) answers n_query dim 1 beamsize
    best ←
        search_best fl
          (measure_candidate
            (λ trajectory. do
              b ← lessen beamsize (if use_l2 then 0 else 4)
              vamana.get_recall_optimized fl (search use_l2 query) answers trajectory n_query dim 1
                  b)
            query n_query dim use_l2)
          (get_candidate_params n_query)
    ok (report plain best)

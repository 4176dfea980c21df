-- ===== src/Drivers.antt =====
-- The programs hnsw_exp/run_hnsw.cpp, nsg_exp/run_nsg.cpp, vamana_exp/run_vamana.cpp and
-- mqo/fullmst/build_full_mst.cpp, after their command lines are parsed: what they read, the
-- trajectory, and the results that they save. The times that are measured are not modelled: a row holds
-- the recall of the plain search and that of the search along the trajectory. `write` is what is
-- written of a recall and its time, and `write_key` what is written of a beam size.
pub mod Vamana
use mqo_public.Prelude.{
  ℕ, zero, suc, Bool, true, false, not, Option, none, some, List, [], ◌∷◌, Run, ok, ◌>>=◌, leb,
  if◌then◌else◌,
}
use mqo_public.Floats.{Floats}
use mqo_public.Trajectory.{Edge}
use mqo_public.Queue.{PriorityQueue}
use mqo_public.AnnMst.{PqItem, heavier}
use mqo_public.AnnBuild.{HnswLib}
use mqo_public.Lsh.{GroupInfo, smaller, Params}
use mqo_public.FullMst.{get_mst}
use mqo_public.Interface.{Method, mqo}
use mqo_public.Answers.{get_answers}
use mqo_public.DataFiles.{Format, get_data}
use mqo_public.Recall as hnsw
use mqo_public.NsgRecall as nsg
use mqo_public.VamanaRecall as vamana
use mqo_public.Saver.{save}
use mqo_public.Sweep.{int_step, sweep}

-- What the command line says of a run.
pub record Options (F B : Type 0) : Type 0 where
  pub approx_method : Method
  pub params : Params
  pub min_beamsize : B
  pub max_beamsize : B
  pub increment_ratio : F
  pub use_l2 : Bool

-- The text of the file of results, and the rows that the saver holds.
abbrev pub Results : Type 0 → Type 0
Results A = List ℕ × List (ℕ × List A)

module _ (fl : Floats) {U : Type 0} (to_float : U → fl.Float) (lib : HnswLib fl)
    (groups : PriorityQueue GroupInfo smaller) (items : PriorityQueue (PqItem fl) (heavier fl))
    (normal : ℕ → fl.Float) (rand : ℕ → ℕ → ℕ) (write_key : ℕ → List ℕ) (write : fl.Double → List ℕ)
    (fuel : ℕ) where
  open fl use {Float, Double}

  -- The trajectory of `mqo` with the parameters of a run.
  abbrev pub trajectory_of : {B : Type 0} → Options Float B → List Float → ℕ → ℕ → Run (List Edge)
  trajectory_of o query n_query dim =
      mqo fl lib groups items normal rand o.approx_method fuel query n_query dim o.use_l2 o.params

  -- run_hnsw.cpp: `beamsize` is a `float`, `at_most` the `<=` of floats and `truncate` the value as an
  -- `int`.
  unfoldable pub run_hnsw :
      (Bool → List Float → ℕ → hnsw.Search)
      → (Float → Float → Bool)
      → (Float → ℕ)
      → Format Float U
      → Option (List ℕ)
      → Options Float Float
      → Run (Results Float)
  unfolding get_data get_answers mqo hnsw.get_recall hnsw.get_recall_optimized sweep save
  run_hnsw search at_most truncate querypath answerpath o = do
    (n_query, dim, query) ← get_data to_float querypath
    answers ← get_answers [] answerpath
    trajectory ← trajectory_of o query n_query dim
    results ←
        sweep at_most truncate (λ b. ok (fl.mul b o.increment_ratio))
          (λ b. do
            plain ← hnsw.get_recall fl (search o.use_l2 query (truncate b)) answers n_query dim 1
            optimized ←
                hnsw.get_recall_optimized fl (search o.use_l2 query (truncate b)) answers trajectory
                  n_query dim 1
            ok (plain ∷ optimized ∷ []))
          fuel o.min_beamsize o.max_beamsize []
    ok (save write_key (λ x. write (fl.to_double x)) results, results)

  -- run_nsg.cpp: the dimension is that of the data, which are read last.
  unfoldable pub run_nsg :
      (List Float → List Float → nsg.NsgLib)
      → (Float → ℕ)
      → Format Float U
      → Format Float U
      → Option (List ℕ)
      → Options Float ℕ
      → Run (Results Float)
  unfolding get_data get_answers mqo nsg.get_recall nsg.get_recall_optimized nsg.get_recall_ip
      nsg.get_recall_optimized_ip int_step sweep save
  run_nsg index truncate querypath datapath answerpath o = do
    (n_query, d, query) ← get_data to_float querypath
    (n_data, dim, points) ← get_data to_float datapath
    answers ← get_answers [] answerpath
    trajectory ← trajectory_of o query n_query dim
    let g = index points query
    results ←
        sweep leb (λ b. b) (int_step fl truncate o.increment_ratio)
          (λ b. do
            plain ←
                if o.use_l2
                then nsg.get_recall fl g answers n_query dim 1 b
                else nsg.get_recall_ip fl g answers n_query dim 1 b
            optimized ←
                if o.use_l2
                then nsg.get_recall_optimized fl g answers trajectory n_query dim 1 b
                else nsg.get_recall_optimized_ip fl g answers trajectory n_query dim 1 b
            ok (plain ∷ optimized ∷ []))
          fuel o.min_beamsize o.max_beamsize []
    ok (save write_key (λ x. write (fl.to_double x)) results, results)

  -- run_vamana.cpp
  unfoldable pub run_vamana :
      (Bool → List Float → vamana.Search)
      → (Float → ℕ)
      → Format Float U
      → Option (List ℕ)
      → Options Float ℕ
      → Run (Results Double)
  unfolding get_data get_answers mqo vamana.get_recall vamana.get_recall_optimized int_step sweep
      save
  run_vamana search truncate querypath answerpath o = do
    (n_query, dim, query) ← get_data to_float querypath
    answers ← get_answers [] answerpath
    trajectory ← trajectory_of o query n_query dim
    results ←
        sweep leb (λ b. b) (int_step fl truncate o.increment_ratio)
          (λ b. do
            plain ← vamana.get_recall fl (search o.use_l2 query) answers n_query dim 1 b
            optimized ←
                vamana.get_recall_optimized fl (search o.use_l2 query) answers trajectory n_query
                  dim 1 b
            ok (plain ∷ optimized ∷ []))
          fuel o.min_beamsize o.max_beamsize []
    ok (save write_key write results, results)

-- build_full_mst.cpp: the number of queries and the average weight, which are printed. The edges are
-- not saved.
unfoldable pub build_full_mst :
    (fl : Floats) {U : Type 0} → (U → fl.Float) → Format fl.Float U → Bool → Run (ℕ × fl.Double)
unfolding get_data get_mst
build_full_mst fl to_float querypath use_l2 = do
  (n_query, dim, query) ← get_data to_float querypath
  (edges, avg_weight) ← get_mst fl n_query dim query use_l2
  ok (n_query, avg_weight)

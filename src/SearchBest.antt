-- ===== src/SearchBest.antt =====
-- hnsw_exp/search_best_hnsw.cpp, nsg_exp/search_best_nsg.cpp and vamana_exp/search_best_vamana.cpp: the
-- loop that looks for the fastest of the candidate parameters.
pub mod Least
pub mod Programs
use mqo_public.Prelude.{
  ℕ, Bool, true, false, Option, none, some, List, [], ◌∷◌, Run, ok, index, ◌>>=◌, if◌then◌else◌,
}
use mqo_public.Floats.{Floats}
use mqo_public.Lsh.{Params}
use mqo_public.Interface.{Method, lsh, mixed_modified}

-- A candidate {B, M}; the M -1 is `none`.
abbrev pub Candidate : Type 0
Candidate = ℕ × Option ℕ

-- `params_input`: "ef" is not given, and "base_only" is 0 as it is missing.
abbrev pub params_of : Candidate → Params
params_of (b, none) = record { b = b; m = 0; ef = none; base_only = 0 }
params_of (b, some m) = record { b = b; m = m; ef = none; base_only = 0 }

-- `(params_input["M"] != -1) ? "mixed_modified" : "lsh"`
abbrev pub method_of : Candidate → Method
method_of (b, none) = lsh
method_of (b, some m) = mixed_modified

module _ (fl : Floats) where
  open fl use {Double, d_lt, d_add, d_sub, d_of_int}

  -- What the run of a candidate takes, and its recall.
  pub record Measured : Type 0 where
    pub mst_time : Double
    pub query_time : Double
    pub recall : Double

  -- The variables of the loop.
  pub record Best : Type 0 where
    pub best_time : Double
    pub best_params : Candidate
    pub best_mst_time : Double
    pub best_query_time : Double
    pub recall_value : Double

  abbrev pub total_time : Measured → Double
  total_time m = d_add m.mst_time m.query_time

  -- `if (total_time < best_time)`
  pub consider : Candidate → Measured → Best → Best
  consider params m best =
      if d_lt (total_time m) best.best_time
      then (record {
        best_time = total_time m;
        best_params = params;
        best_mst_time = m.mst_time;
        best_query_time = m.query_time;
        recall_value = m.recall;
      })
      else best

  -- `for (auto params : candidate_params)`
  pub best_loop : (Candidate → Run Measured) → List Candidate → Best → Run Best
  unfolding consider
  best_loop measure [] best = ok best
  best_loop measure (params ∷ candidates) best = do
    m ← measure params
    best_loop measure candidates (consider params m best)

  abbrev pub minus_one : Double
  minus_one = d_sub (d_of_int 0) (d_of_int 1)

  -- `measure` is what a candidate's trajectory and its search take; `candidate_params[0]` must exist.
  unfoldable pub search_best : (Candidate → Run Measured) → List Candidate → Run Best
  unfolding best_loop
  search_best measure candidate_params = do
    first ← index candidate_params 0
    best_loop measure candidate_params (record {
      best_time = d_of_int 1000000;
      best_params = first;
      best_mst_time = minus_one;
      best_query_time = minus_one;
      recall_value = minus_one;
    })

-- ===== src/HnswGraph.antt =====
-- hnsw_exp/graph_handler.hpp and hnsw_exp/build_graphs.cpp: an index of all the data is built and
-- saved. The file is the index that `saveIndex` is given; hnswlib is a parameter, as in AnnBuild.
pub mod Correct
use mqo_public.Prelude.{ℕ, Bool, List, Run, ◌>>=◌, if◌then◌else◌}
use mqo_public.Floats.{Floats}
use mqo_public.DataFiles.{Format, get_data}
use mqo_public.AnnBuild.{HnswLib, l2, ip, add_rows}

module _ (fl : Floats) (lib : HnswLib fl) where
  open fl use {Float}
  open lib use {Index, create, add_point}

  pub build : List Float → (max_elements dim m ef_construction : ℕ) → Run Index
  build data_array max_elements dim m ef_construction =
      add_rows fl lib add_point data_array dim max_elements 0
        (create l2 max_elements m ef_construction)

  pub build_ip : List Float → (max_elements dim m ef_construction : ℕ) → Run Index
  build_ip data_array max_elements dim m ef_construction =
      add_rows fl lib add_point data_array dim max_elements 0
        (create ip max_elements m ef_construction)

  -- `main` of build_graphs.cpp, after its command line is parsed.
  unfoldable pub build_graphs :
      {U : Type 0} → (U → Float) → Format Float U → Bool → (m ef_construction : ℕ) → Run Index
  unfolding build build_ip get_data
  build_graphs to_float dpath use_l2 m ef_construction = do
    (n_data, dim, data_array) ← get_data to_float dpath
    if use_l2
        then build data_array n_data dim m ef_construction
        else build_ip data_array n_data dim m ef_construction

-- ===== src/Sweep.antt =====
-- hnsw_exp/run_hnsw.cpp, nsg_exp/run_nsg.cpp and vamana_exp/run_vamana.cpp: the loop over the beam
-- sizes. `B` is the type of `beamsize`, `key` its value as a key of the results, and `step` is
-- `beamsize *= increment_ratio`.
pub mod Ends
use mqo_public.Prelude.{ℕ, zero, suc, Bool, true, false, List, Run, ok, err, out_of_fuel, ◌>>=◌}
use mqo_public.Floats.{Floats}
use mqo_public.Distance.{int_of}
use mqo_public.Saver.{add}

-- `beamsize *= increment_ratio` with an `int` beamsize: the product is a `float`, which `truncate` turns
-- into an integer; one that no `int` holds is undefined.
unfoldable pub int_step : (fl : Floats) → (fl.Float → ℕ) → fl.Float → ℕ → Run ℕ
int_step fl truncate increment_ratio beamsize =
    int_of (truncate (fl.mul (fl.of_int beamsize) increment_ratio))

module _ {A B : Type 0} (within : B → B → Bool) (key : B → ℕ) (step : B → Run B)
    (measure : B → Run (List A)) where
  -- `for (beamsize = min_beamsize; beamsize <= max_beamsize; beamsize *= increment_ratio)`
  unfoldable pub sweep : ℕ → B → B → List (ℕ × List A) → Run (List (ℕ × List A))
  unfolding add
  sweep zero beamsize max_beamsize results = err out_of_fuel
  sweep (suc fuel) beamsize max_beamsize results = elim (within beamsize max_beamsize) [
    | true ↦ do
      values ← measure beamsize
      next ← step beamsize
      sweep fuel next max_beamsize (add (key beamsize) values results)
    | false ↦ ok results
  ]

-- ===== src/DataFiles.antt =====
-- data_handler/fbin_handler.hpp, u8bin_handler.hpp and data_handler.hpp: files of vectors. After the
-- header, the numbers n and d, they hold n * d values; a file is its header and its values.
pub mod Subsets
use mqo_public.Prelude.{
  ℕ, zero, suc, ◌+◌, ◌-◌, ◌*◌, Bool, true, false, Option, none, some, List, [], ◌∷◌, ◌++◌, map,
  length, take, Run, ok, err, expect, index, guard, out_of_bounds, runtime_error, ◌>>=◌, ◌>>◌, ltb,
  leb,
}
use mqo_public.AnnBuild.{read_row}

-- A file whose header is complete. An `int` of it that is not positive is `zero`.
pub record VectorFile (A : Type 0) : Type 0 where
  pub n : ℕ
  pub d : ℕ
  pub values : List A

-- `for (i = l; i <= r; i++) indices.push_back(i)`
pub range : ℕ → ℕ → List ℕ
range l zero = []
range l (suc k) = l ∷ range (suc l) k

module _ {A : Type 0} where
  -- `load_fbin` and `load_u8bin`: n, d and the array. `none` is a file that cannot be opened or whose
  -- header cannot be read.
  unfoldable pub load : Option (VectorFile A) → Run (ℕ × ℕ × List A)
  load file = do
    f ← expect file runtime_error
    guard (ltb 0 f.n) runtime_error
    guard (ltb 0 f.d) runtime_error
    guard (leb (f.n * f.d) (length f.values)) runtime_error
    ok (f.n, f.d, take (f.n * f.d) f.values)

  -- `std::copy` of the rows at the sampled indices.
  pub copy_indices : List A → ℕ → List ℕ → Run (List A)
  unfolding read_row
  copy_indices values d [] = ok []
  copy_indices values d (i ∷ indices) = do
    r ← read_row values (i * d) d
    rest ← copy_indices values d indices
    ok (r ++ rest)

  -- `sample_and_save_subset_fbin` and `sample_and_save_subset_u8bin`: the file that is written.
  -- `shuffle` is the order that `std::shuffle` leaves.
  unfoldable pub sample_and_save_subset :
      (List ℕ → List ℕ) → Option (VectorFile A) → (l r sample_size : ℕ) → Run (VectorFile A)
  unfolding load range copy_indices
  sample_and_save_subset shuffle file l r sample_size = do
    (n, d, values) ← load file
    guard (ltb r n) runtime_error
    guard (leb l r) runtime_error
    guard (ltb 0 sample_size) runtime_error
    guard (leb sample_size (r - l + 1)) runtime_error
    subset ← copy_indices values d (take sample_size (shuffle (range l (r - l + 1))))
    ok (record { n = sample_size; d = d; values = subset })

-- The suffixes of a path: `.u8bin`, `.fbin` and any other.
pub data Format (F U : Type 0) : Type 0 where
  u8bin : Option (VectorFile U) → Format F U
  fbin : Option (VectorFile F) → Format F U
  other : Format F U

module _ {F U : Type 0} (to_float : U → F) where
  -- `get_data`: bytes are turned into floats.
  unfoldable pub get_data : Format F U → Run (ℕ × ℕ × List F)
  unfolding load
  get_data (u8bin file) = do (n, d, bytes) ← load file; ok (n, d, map to_float bytes)
  get_data (fbin file) = load file
  get_data other = err runtime_error

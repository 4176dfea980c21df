-- ===== src/DataScripts.antt =====
-- data_handler/scripts/convert_type.cpp, subsample.cpp and subsample_random.cpp: whole files of vectors
-- from others. The files that are written can be opened.
pub mod Correct
use mqo_public.Prelude.{
  ℕ, zero, suc, ◌+◌, ◌*◌, ◌||◌, ◌==◌, Bool, true, false, Option, none, some, List, [], ◌++◌, map,
  length, take, drop, replicate, Run, ok, err, expect, guard, runtime_error, ◌>>=◌, ◌>>◌, ltb, leb,
  if◌then◌else◌, ◌⊎◌, inl, inr,
}
use mqo_public.DataFiles.{VectorFile, Format, u8bin, fbin, other, sample_and_save_subset}

module _ {F U : Type 0} (to_float : U → F) where
  -- `for (i = 0; i < n; ++i)` with `k` rows left, and its break at the end of the file.
  pub convert_rows : ℕ → ℕ → List U → List F
  convert_rows zero d bytes = []
  convert_rows (suc k) d bytes =
      let rest = convert_rows k d (drop d bytes) in
      if ltb (length bytes) d then [] else map to_float (take d bytes) ++ rest

  -- The file that is written, if there is one. The header says n rows, however many there are.
  unfoldable pub convert_u8bin_to_fbin : Option (VectorFile U) → Option (VectorFile F)
  unfolding convert_rows
  convert_u8bin_to_fbin none = none
  convert_u8bin_to_fbin (some f) =
      if f.n == 0 || f.d == 0
      then none
      else some (record { n = f.n; d = f.d; values = convert_rows f.n f.d f.values })

-- `fin.read` into a buffer of `size` zeros.
abbrev pub read_buffer : {A : Type 0} → A → ℕ → List A → List A
read_buffer default size values = take size (values ++ replicate size default)

-- `sample_and_save_norandom`, for both types of values: the first `samplesize` rows.
unfoldable pub sample_and_save_norandom :
    {A : Type 0} → A → Option (VectorFile A) → ℕ → Run (VectorFile A)
sample_and_save_norandom default file samplesize = do
  f ← expect file runtime_error
  guard (leb samplesize f.n) runtime_error
  ok (record { n = samplesize; d = f.d; values = read_buffer default (samplesize * f.d) f.values })

-- `sample_and_save_subset` of data_handler.hpp: the handler of the path's suffix.
unfoldable pub sample_and_save :
    {F U : Type 0}
    → (List ℕ → List ℕ)
    → Format F U
    → (l r sample_size : ℕ) → Run (VectorFile F ⊎ VectorFile U)
unfolding sample_and_save_subset
sample_and_save shuffle (u8bin file) l r sample_size = do
  out ← sample_and_save_subset shuffle file l r sample_size
  ok (inr out)
sample_and_save shuffle (fbin file) l r sample_size = do
  out ← sample_and_save_subset shuffle file l r sample_size
  ok (inl out)
sample_and_save shuffle other l r sample_size = err runtime_error

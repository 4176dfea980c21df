-- ===== src/Saver.antt =====
-- result_handler/saver.hpp: the results of an experiment, a `map<int, vector<…>>` from a beam size to
-- what was measured for each way to search. The map is a list with ascending keys.
pub mod Table
pub mod Lines
use mqo_public.Prelude.{
  ℕ, zero, suc, Option, none, some, List, [], ◌∷◌, ◌++◌, length, ltb, ◌==◌, if◌then◌else◌,
}
use mqo_public.Text.{put_digits, put_number}

module _ {A : Type 0} where
  -- `data[beamsize] = values`
  unfoldable pub add : ℕ → List A → List (ℕ × List A) → List (ℕ × List A)
  add beamsize values [] = (beamsize, values) ∷ []
  add beamsize values ((b, old) ∷ m) =
      let rest = add beamsize values m in
      if ltb beamsize b
      then (beamsize, values) ∷ (b, old) ∷ m
      else if beamsize == b
      then (beamsize, values) ∷ m
      else (b, old) ∷ rest

  -- The number of ways to search, that of the first row.
  unfoldable pub getlen : List (ℕ × List A) → ℕ
  getlen [] = 0
  getlen ((b, values) ∷ m) = length values

-- `for (i = 1; i <= n; i++)`: the columns `,R1,T1`, `,R2,T2`, … of the header, in front of a text.
pub columns : ℕ → ℕ → List ℕ → List ℕ
unfolding put_digits
columns zero i text = text
columns (suc k) i text = 44 ∷ 82 ∷ put_number i (44 ∷ 84 ∷ put_number i (columns k (suc i) text))

-- `BeamSize`
abbrev pub beam_size : List ℕ
beam_size = 66 ∷ 101 ∷ 97 ∷ 109 ∷ 83 ∷ 105 ∷ 122 ∷ 101 ∷ []

module _ {A : Type 0} (write_key : ℕ → List ℕ) (write : A → List ℕ) where
  -- `,` and what is written of a value, which is its recall, a comma and its time.
  pub save_values : List A → List ℕ → List ℕ
  save_values [] text = text
  save_values (value ∷ values) text = 44 ∷ (write value ++ save_values values text)

  pub save_rows : List (ℕ × List A) → List ℕ
  unfolding save_values
  save_rows [] = []
  save_rows ((b, values) ∷ m) = write_key b ++ save_values values (10 ∷ save_rows m)

  -- The text that `save` writes, in character codes: the header and the rows, in the order of the keys.
  -- How a `double` is written is a parameter.
  unfoldable pub save : List (ℕ × List A) → List ℕ
  unfolding getlen columns save_rows put_digits
  save m = beam_size ++ columns (getlen m) 1 (10 ∷ save_rows m)

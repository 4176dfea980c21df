-- ===== src/Follow.antt =====
-- What nsg_exp/process.hpp and vamana_exp/process.hpp share: the rows of results `res`, and the loops
-- over the queries and over a trajectory. `C` is the type of the count, and `bump` its increment.
pub mod Order
use mqo_public.Prelude.{
  ℕ, zero, suc, Option, none, some, List, [], ◌∷◌, set, Run, ok, index, ◌>>=◌, ◌==◌, if◌then◌else◌,
}
use mqo_public.Trajectory.{Edge}

module _ {C : Type 0} (bump : C → C) where
  -- `if (res[curr][0] == ans[curr][0]) correct++;`
  pub hit : List (List ℕ) → ℕ → ℕ → C → Run C
  hit ans curr label correct = do
    answer ← index ans curr
    first ← index answer 0
    ok (if label == first then bump correct else correct)

  -- `for (i = 0; i < n_query; i++)`, from `i` on with `k` rounds left. The rows that it writes are not
  -- read again.
  unfoldable pub scan_loop : (ℕ → List ℕ) → List (List ℕ) → ℕ → ℕ → C → Run C
  unfolding hit
  scan_loop search ans zero i correct = ok correct
  scan_loop search ans (suc k) i correct = do
    label ← index (search i) 0
    correct' ← hit ans i label correct
    scan_loop search ans k (suc i) correct'

  -- `res[parent][0]`, or no entry point for a root.
  pub entry_point : List (List ℕ) → Option ℕ → Run (Option ℕ)
  entry_point res none = ok none
  entry_point res (some parent) = do row ← index res parent; first ← index row 0; ok (some first)

  -- `res[curr].data()` is inside the vector, and holds the row that was found afterwards.
  pub put_row : List (List ℕ) → ℕ → List ℕ → Run (List (List ℕ))
  put_row res curr row = do old ← index res curr; ok (set res curr row)

  -- `for (auto x : trajectory)`: the rows and the count. `offset` is where the row of a query starts.
  unfoldable pub follow_loop :
      (ℕ → Run ℕ)
      → (ℕ → Option ℕ → List ℕ)
      → List (List ℕ)
      → List Edge
      → List (List ℕ)
      → C
      → Run (List (List ℕ) × C)
  unfolding hit entry_point put_row
  follow_loop offset search ans [] res correct = ok (res, correct)
  follow_loop offset search ans ((curr, parent) ∷ t) res correct = do
    entry ← entry_point res parent
    start ← offset curr
    res' ← put_row res curr (search start entry)
    label ← index (search start entry) 0
    correct' ← hit ans curr label correct
    follow_loop offset search ans t res' correct'

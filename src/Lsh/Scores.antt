-- ===== src/Lsh/Scores.antt =====
-- mqo/lsh_mst_opt.hpp: the scores of a split and of the sizes of groups, which the program does not
-- call.
use mqo_public.Prelude.{
  ℕ, zero, suc, ◌+◌, ◌-◌, ◌*◌, some, none, List, [], ◌∷◌, ◌++◌, length, Run, ok, err, index,
  out_of_fuel, ◌>>=◌, if◌then◌else◌,
}
use mqo_public.Floats.{Floats}
use mqo_public.Queue.{PriorityQueue}
use mqo_public.Distance.{int_of, get_distance}
use mqo_public.Lsh.{GroupInfo, smaller}

module _ (fl : Floats) where
  open fl use {Float, lt, add, sub, mul, div, of_int, zero as float_zero}

  -- The loop of `get_quality`, with `samples` rounds left and `k` draws used up. `rand n k` is the
  -- k-th draw of the generator as a place among n.
  pub quality_loop :
      (ℕ → ℕ → ℕ) → List ℕ → List ℕ → List Float → ℕ → ℕ → ℕ → Float → Run (Float × ℕ)
  unfolding get_distance
  quality_loop rand left right query dim zero k mindist = ok (mindist, k)
  quality_loop rand left right query dim (suc samples) k mindist = do
    a ← index left (rand (length left) k)
    b ← index right (rand (length right) (suc k))
    d ← get_distance fl query dim a b
    let nearest = if lt d mindist then d else mindist
    quality_loop rand left right query dim samples (suc (suc k)) nearest

  -- The score, and the draws that are used up: the generator is static, so that the next call goes on
  -- with it.
  unfoldable pub get_quality :
      (ℕ → ℕ → ℕ) → ℕ → List ℕ → List ℕ → List Float → ℕ → Float → ℕ → Run (Float × ℕ)
  unfolding quality_loop
  get_quality rand k left right query dim alpha n_quality_calc = do
    (mindist, k') ← quality_loop rand left right query dim n_quality_calc k (of_int 2147483647)
    all ← int_of (length left + length right)
    let apart = (length left - length right) + (length right - length left)
    let imbalance = div (of_int apart) (of_int all)
    ok (sub mindist (mul alpha imbalance), k')

  -- The loop over the sizes: their sum and the sum of their squares.
  pub sums_loop : List ℕ → Float → Float → Run (Float × Float)
  sums_loop [] sum_x sum_x2 = ok (sum_x, sum_x2)
  sums_loop (x ∷ res) sum_x sum_x2 = do
    square ← int_of (x * x)
    sums_loop res (add sum_x (of_int x)) (add sum_x2 (of_int square))

  module _ (pq : PriorityQueue GroupInfo smaller) where
    open pq use {Queue, pop}

    -- `while (!pq.empty())`: the sizes, and the queue that is left.
    pub pop_sizes : ℕ → Queue → List ℕ → Run (List ℕ × Queue)
    pop_sizes zero q res = err out_of_fuel
    pop_sizes (suc fuel) q res = elim (pop q) [
      | none ↦ ok (res, q)
      | some (top, q') ↦ pop_sizes fuel q' (res ++ top.size ∷ [])
    ]

    -- The variance, and the queue, which is a reference and empty then.
    unfoldable pub get_variance : ℕ → Queue → Run (Float × Queue)
    unfolding pop_sizes sums_loop
    get_variance fuel q = do
      (res, q') ← pop_sizes fuel q []
      (sum_x, sum_x2) ← sums_loop res float_zero float_zero
      let n = of_int (length res)
      ok (sub (div sum_x2 n) (mul (div sum_x n) (div sum_x n)), q')

-- ===== src/Distance.antt =====
-- mqo/basic.hpp: distances between rows of a flat array of `dim` floats a row. Sums and products of
-- `int` are checked against 2^31, since a signed overflow is undefined.
pub mod Bounds
pub mod Sampling
pub mod Slices
pub mod Avx512
use mqo_public.Prelude.{
  take, drop, replicate, leb, length, out_of_bounds, [], ◌∷◌, ◌/◌, ◌%◌, ℕ, zero, suc, ◌+◌, ◌*◌,
  List, Run, ok, guard, index, int_overflow, out_of_fuel, err, ◌>>=◌, ◌>>◌, ltb, ◌==◌,
  if◌then◌else◌,
}
use mqo_public.Floats.{Floats}

abbrev pub int_limit : ℕ
int_limit = 2147483648

-- The value of an `int` expression that is not negative.
abbrev pub int_of : ℕ → Run ℕ
int_of x = guard (ltb x int_limit) int_overflow >> ok x

-- Two independent draws of `uniform_int_distribution<>(0, n - 1)` that differ. `rand n k` is the
-- k-th draw of the generator; the result holds the number of draws that are used up.
pub redraw : (ℕ → ℕ → ℕ) → ℕ → ℕ → ℕ → ℕ → Run (ℕ × ℕ)
redraw rand n a zero k = err out_of_fuel
redraw rand n a (suc fuel) k =
    let again = redraw rand n a fuel (suc k) in
    if rand n k == a then again else ok (rand n k, suc k)

unfoldable pub sample_two : (ℕ → ℕ → ℕ) → ℕ → ℕ → ℕ → Run (ℕ × ℕ × ℕ)
unfolding redraw
sample_two rand fuel n k = do
  let a = rand n k
  (b, k') ← redraw rand n a fuel (suc k)
  ok (a, b, k')

module _ (fl : Floats) where
  open fl use {
    Float, Double, one, add, sub, mul, root, d_add, d_div, d_of_int, to_double, zero as float_zero,
  }

  -- The loop of `get_distance_ip`, from `pos` on with `k` rounds left.
  pub ip_loop : List Float → ℕ → ℕ → ℕ → ℕ → Float → Run Float
  ip_loop query istart jstart zero pos sum = ok sum
  ip_loop query istart jstart (suc k) pos sum = do
    i ← int_of (istart + pos)
    a ← index query i
    j ← int_of (jstart + pos)
    b ← index query j
    ip_loop query istart jstart k (suc pos) (add sum (mul a b))

  unfoldable pub get_distance_ip : List Float → ℕ → ℕ → ℕ → Run Float
  unfolding ip_loop
  get_distance_ip query dim i j = do
    istart ← int_of (dim * i)
    jstart ← int_of (dim * j)
    sum ← ip_loop query istart jstart dim 0 float_zero
    ok (sub one sum)

  -- The loop of `get_distance_squared`.
  pub squared_loop : List Float → ℕ → ℕ → ℕ → ℕ → Float → Run Float
  squared_loop query istart jstart zero pos sum = ok sum
  squared_loop query istart jstart (suc k) pos sum = do
    i ← int_of (istart + pos)
    a ← index query i
    j ← int_of (jstart + pos)
    b ← index query j
    let diff = sub a b
    squared_loop query istart jstart k (suc pos) (add sum (mul diff diff))

  unfoldable pub get_distance_squared : List Float → ℕ → ℕ → ℕ → Run Float
  unfolding squared_loop
  get_distance_squared query dim i j = do
    istart ← int_of (dim * i)
    jstart ← int_of (dim * j)
    squared_loop query istart jstart dim 0 float_zero

  -- A vector register as the list of its lanes, and the instructions on two of them, lane by lane.
  pub zip_with : (Float → Float → Float) → List Float → List Float → List Float
  zip_with f (a ∷ xs) (b ∷ ys) = f a b ∷ zip_with f xs ys
  zip_with f _ _ = []

  -- `_mm512_loadu_ps(&query[start])`
  pub load_lanes : List Float → ℕ → Run (List Float)
  load_lanes query start =
      guard (leb (start + 16) (length query)) out_of_bounds >> ok (take 16 (drop start query))

  -- `for (; pos < end; pos += 16)`, from `pos` on with `k` rounds left.
  pub block_loop : List Float → ℕ → ℕ → ℕ → ℕ → List Float → Run (List Float)
  unfolding zip_with load_lanes
  block_loop query istart jstart zero pos vsum = ok vsum
  block_loop query istart jstart (suc k) pos vsum = do
    i ← int_of (istart + pos)
    va ← load_lanes query i
    j ← int_of (jstart + pos)
    vb ← load_lanes query j
    let vdiff = zip_with sub va vb
    block_loop query istart jstart k (pos + 16) (zip_with add vsum (zip_with mul vdiff vdiff))

  -- `get_distance_squared_avx512`; `reduce_add` is `_mm512_reduce_add_ps`.
  unfoldable pub get_distance_squared_avx512 :
      (List Float → Float) → List Float → ℕ → ℕ → ℕ → Run Float
  unfolding block_loop squared_loop
  get_distance_squared_avx512 reduce_add query dim i j = do
    istart ← int_of (dim * i)
    jstart ← int_of (dim * j)
    vsum ← block_loop query istart jstart (dim / 16) 0 (replicate 16 float_zero)
    squared_loop query istart jstart (dim % 16) (16 * (dim / 16)) (reduce_add vsum)

  unfoldable pub get_distance_avx512 : (List Float → Float) → List Float → ℕ → ℕ → ℕ → Run Float
  unfolding get_distance_squared_avx512
  get_distance_avx512 reduce_add query dim i j = do
    d ← get_distance_squared_avx512 reduce_add query dim i j
    ok (root d)

  unfoldable pub get_distance : List Float → ℕ → ℕ → ℕ → Run Float
  unfolding get_distance_squared
  get_distance query dim i j = do d ← get_distance_squared query dim i j; ok (root d)

  -- The loop of `get_weight_for_root`, with `rep` rounds left and `k` draws used up.
  pub weight_loop : (ℕ → ℕ → ℕ) → ℕ → List Float → ℕ → ℕ → ℕ → ℕ → Double → Run Double
  unfolding sample_two get_distance
  weight_loop rand fuel query n dim zero k weight = ok weight
  weight_loop rand fuel query n dim (suc rep) k weight = do
    (a, b, k') ← sample_two rand fuel n k
    d ← get_distance query dim a b
    weight_loop rand fuel query n dim rep k' (d_add weight (to_double d))

  unfoldable pub get_weight_for_root : (ℕ → ℕ → ℕ) → ℕ → List Float → ℕ → ℕ → ℕ → Run Double
  unfolding weight_loop
  get_weight_for_root rand fuel query n dim n_sample = do
    weight ← weight_loop rand fuel query n dim n_sample 0 (d_of_int 0)
    ok (d_div weight (d_of_int n_sample))

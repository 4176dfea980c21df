-- ===== src/Lsh/Bounds.antt =====
-- The array of hyperplanes, and that inner products read inside it.
use native.Mathlib.Nat.{add-zero}
use mqo_public.Prelude.{
  ℕ, zero, suc, ◌+◌, ◌-◌, ◌*◌, ◌<◌, ◌≤◌, ◌≡◌, refl, ap, true, List, length, take, drop, ok, leb,
  arith,
}
use mqo_public.Floats.{Floats}
use mqo_public.Distance.{int_limit}
use mqo_public.Distance.Bounds.{int_of_ok, drop-get, row, fold_rows, add_product, row-le, HasRows}
use mqo_public.Lsh.{draws, generate_random_hyperplane, inner_loop, get_innerproduct}

module _ (fl : Floats) where
  open fl use {Float, add, mul, zero as float_zero}

  length-draws : (normal : ℕ → Float) (n k : ℕ) → length (draws fl normal n k) ≡ n
  unfolding draws
  length-draws normal zero k = refl
  length-draws normal (suc n) k = ap suc (length-draws normal n (suc k))

  -- For b > 0 groups the array has b - 1 rows, as long as an `int` holds its size.
  pub hyperplane_rows :
      (normal : ℕ → Float) (b dim : ℕ)
      → 0 < b
      → (b - 1) * 1 * dim < int_limit
      → (plane : List Float) × (generate_random_hyperplane fl normal b 1 dim ≡ ok plane)
        × ((b - 1) * dim ≤ length plane)
        × (length plane ≤ int_limit)
  unfolding generate_random_hyperplane
  hyperplane_rows normal b dim pos fits =
      let size = (b - 1) * 1 * dim in
      let checked : leb 1 b ≡ true = ground arith in
      (
        draws fl normal size 0,
        rw (checked, int_of_ok size fits),
        omega (arith, length-draws normal size 0),
        omega (arith, length-draws normal size 0),
      )

  inner_loop_lem :
      (query plane : List Float) (qstart hstart k pos : ℕ) (sum : Float)
      → qstart + pos + k ≤ length query
      → hstart + pos + k ≤ length plane
      → length query ≤ int_limit
      → length plane ≤ int_limit
      → inner_loop fl query plane qstart hstart k pos sum
        ≡ ok (
            fold_rows
              (add_product fl)
              sum
              (take k (drop (qstart + pos) query))
              (take k (drop (hstart + pos) plane)))
  unfolding inner_loop
  inner_loop_lem query plane qstart hstart zero pos sum p q r t = refl
  inner_loop_lem query plane qstart hstart (suc k) pos sum p q r t =
      let (a, ga, da) = drop-get query (qstart + pos) (omega arith) in
      let (b, gb, db) = drop-get plane (hstart + pos) (omega arith) in
      let next_i : qstart + suc pos ≡ suc (qstart + pos) = omega arith in
      let next_j : hstart + suc pos ≡ suc (hstart + pos) = omega arith in
      rw
        (
          int_of_ok (qstart + pos) (omega arith),
          ga,
          int_of_ok (hstart + pos) (omega arith),
          gb,
          da,
          db,
          ← next_i,
          ← next_j,
        )
        (inner_loop_lem query plane qstart hstart k (suc pos) (add_product fl sum a b) (omega arith)
          (omega arith) r t)

  -- Inside both arrays the sum of the products of the two rows is returned.
  pub get_innerproduct-row :
      (query plane : List Float) (n m dim q h : ℕ)
      → HasRows query n dim
      → m * dim ≤ length plane
      → length plane ≤ int_limit
      → q < n
      → h < m
      → get_innerproduct fl query plane dim q h
        ≡ ok (fold_rows (add_product fl) float_zero (row query dim q) (row plane dim h))
  unfolding get_innerproduct
  get_innerproduct-row query plane n m dim q h rows fits small p r = rw (
    int_of_ok (dim * q) (omega (arith, row-le dim q n p, rows.positive, rows.rows, rows.indexable)),
    int_of_ok (dim * h) (omega (arith, row-le dim h m r, rows.positive)),
    inner_loop_lem query plane (dim * q) (dim * h) dim 0 float_zero
        (omega (arith, row-le dim q n p, rows.rows)) (omega (arith, row-le dim h m r))
        rows.indexable small,
    add-zero (dim * q),
    add-zero (dim * h),
  )

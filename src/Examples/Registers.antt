-- ===== src/Examples/Registers.antt =====
-- The distance by vector registers on two points with 18 coordinates: one block and two more.
use mqo_public.Prelude.{
  ℕ, ◌+◌, ◌*◌, ◌-◌, ◌≡◌, ◌<◌, refl, some, List, [], ◌∷◌, ◌++◌, length, get_elem?, take, drop,
  replicate, ok, ltb, arith,
}
use mqo_public.Floats.{Floats}
use mqo_public.Distance.{get_distance_squared_avx512}
use mqo_public.Distance.Bounds.{HasRows, fold_rows, add_square}
use mqo_public.Distance.Avx512.{lane, get_distance_squared_avx512-lanes}

-- Numbers that are not negative, with their distance as the difference.
abbrev naturals : Floats
naturals = record {
  Float = ℕ;
  Double = ℕ;
  zero = 0;
  one = 1;
  infinity = 1000;
  lt = ltb;
  add = λ a b. a + b;
  sub = λ a b. (a - b) + (b - a);
  mul = λ a b. a * b;
  div = λ a b. a;
  root = λ a. a;
  of_int = λ a. a;
  d_lt = ltb;
  d_add = λ a b. a + b;
  d_sub = λ a b. (a - b) + (b - a);
  d_mul = λ a b. a * b;
  d_div = λ a b. a;
  d_root = λ a. a;
  d_infinity = 1000;
  d_of_int = λ a. a;
  to_double = λ a. a;
}

abbrev sum_lanes : List ℕ → ℕ
sum_lanes [] = 0
sum_lanes (a ∷ lanes) = a + sum_lanes lanes

abbrev two_points : List ℕ
two_points = replicate 18 1 ++ replicate 18 3

two_points-HasRows : HasRows two_points 2 18
two_points-HasRows = record { positive = omega arith; rows = omega arith; indexable = omega arith }

registers_run : get_distance_squared_avx512 naturals sum_lanes two_points 18 0 1 ≡ ok 72
unfolding get_distance_squared_avx512
registers_run = refl

get_distance_squared_avx512-lanes_example :
    (v : List ℕ) × (length v ≡ 16)
    × ((l : ℕ) → l < 16 → get_elem? v l ≡ some (lane naturals two_points 0 18 1 l 0))
    × (get_distance_squared_avx512 naturals sum_lanes two_points 18 0 1
        ≡ ok (
            fold_rows
              (add_square naturals)
              (sum_lanes v)
              (take 2 (drop 16 two_points))
              (take 2 (drop 34 two_points))))
get_distance_squared_avx512-lanes_example =
    get_distance_squared_avx512-lanes naturals sum_lanes two_points 2 18 two_points-HasRows 0 1
      (omega arith) (omega arith)

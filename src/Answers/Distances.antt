-- ===== src/Answers/Distances.antt =====
-- The distances of points and queries read two rows, and nothing else.
use mqo_public.Prelude.{
  ℕ, zero, suc, ◌+◌, ◌*◌, ◌<◌, ◌≤◌, ◌≡◌, refl, Bool, true, false, List, length, take, drop, ok,
  arith,
}
use native.Mathlib.Nat.{add-zero}
use mqo_public.Floats.{Floats}
use mqo_public.Queue.{PriorityQueue}
use mqo_public.Distance.{int_limit}
use mqo_public.Distance.Bounds.{
  HasRows, start-ok, row-le, int_of_ok, drop-get, row, fold_rows, add_square, add_product,
}
use mqo_public.Answers.{
  Near, nearer, data_loop, get_distance_data_query, data_ip_loop, get_distance_data_query_ip,
  data_distance,
}

module _ (fl : Floats) (points query : List fl.Float) where
  data_loop_lem :
      (dstart qstart k i : ℕ) (sum : fl.Float)
      → dstart + i + k ≤ length points
      → qstart + i + k ≤ length query
      → length points ≤ int_limit
      → length query ≤ int_limit
      → data_loop fl points query dstart qstart k i sum
        ≡ ok (
            fold_rows
              (add_square fl)
              sum
              (take k (drop (dstart + i) points))
              (take k (drop (qstart + i) query)))
  unfolding data_loop
  data_loop_lem dstart qstart zero i sum p q r s = refl
  data_loop_lem dstart qstart (suc k) i sum p q r s =
      let (a, ga, da) = drop-get points (dstart + i) (omega arith) in
      let (b, gb, db) = drop-get query (qstart + i) (omega arith) in
      let next_d : dstart + suc i ≡ suc (dstart + i) = omega arith in
      let next_q : qstart + suc i ≡ suc (qstart + i) = omega arith in
      rw
        (
          int_of_ok (dstart + i) (omega arith),
          ga,
          int_of_ok (qstart + i) (omega arith),
          gb,
          da,
          db,
          ← next_d,
          ← next_q,
        )
        (data_loop_lem dstart qstart k (suc i) (add_square fl sum a b) (omega arith) (omega arith) r
          s)

  data_ip_loop_lem :
      (dstart qstart k i : ℕ) (sum : fl.Float)
      → dstart + i + k ≤ length points
      → qstart + i + k ≤ length query
      → length points ≤ int_limit
      → length query ≤ int_limit
      → data_ip_loop fl points query dstart qstart k i sum
        ≡ ok (
            fold_rows
              (add_product fl)
              sum
              (take k (drop (dstart + i) points))
              (take k (drop (qstart + i) query)))
  unfolding data_ip_loop
  data_ip_loop_lem dstart qstart zero i sum p q r s = refl
  data_ip_loop_lem dstart qstart (suc k) i sum p q r s =
      let (a, ga, da) = drop-get points (dstart + i) (omega arith) in
      let (b, gb, db) = drop-get query (qstart + i) (omega arith) in
      let next_d : dstart + suc i ≡ suc (dstart + i) = omega arith in
      let next_q : qstart + suc i ≡ suc (qstart + i) = omega arith in
      rw
        (
          int_of_ok (dstart + i) (omega arith),
          ga,
          int_of_ok (qstart + i) (omega arith),
          gb,
          da,
          db,
          ← next_d,
          ← next_q,
        )
        (data_ip_loop_lem dstart qstart k (suc i) (add_product fl sum a b) (omega arith)
          (omega arith) r s)

  -- The distance of point `j` and query `i`, from their rows.
  abbrev pub row_distance : Bool → ℕ → ℕ → ℕ → fl.Float
  row_distance true dim i j =
      fl.root (fold_rows (add_square fl) fl.zero (row points dim j) (row query dim i))
  row_distance false dim i j =
      fl.sub fl.one (fold_rows (add_product fl) fl.zero (row points dim j) (row query dim i))

  module _ (n_data n_query dim : ℕ) (data_rows : HasRows points n_data dim)
      (query_rows : HasRows query n_query dim) (pq : PriorityQueue (Near fl) (nearer fl)) where
    pub data_distance-row :
        (l2 : Bool) (i j : ℕ)
        → i < n_query
        → j < n_data
        → data_distance fl pq l2 points query dim j i ≡ ok (row_distance l2 dim i j)
    unfolding get_distance_data_query get_distance_data_query_ip
    data_distance-row true i j p q =
        rw
          (
            start-ok fl points n_data dim data_rows j q,
            start-ok fl query n_query dim query_rows i p,
            data_loop_lem (dim * j) (dim * i) dim 0 fl.zero
                (omega (arith, row-le dim j n_data q, data_rows.rows))
                (omega (arith, row-le dim i n_query p, query_rows.rows)) data_rows.indexable
                query_rows.indexable,
          )
          (rw (add-zero (dim * j), add-zero (dim * i)) refl)
    data_distance-row false i j p q =
        rw
          (
            start-ok fl points n_data dim data_rows j q,
            start-ok fl query n_query dim query_rows i p,
            data_ip_loop_lem (dim * j) (dim * i) dim 0 fl.zero
                (omega (arith, row-le dim j n_data q, data_rows.rows))
                (omega (arith, row-le dim i n_query p, query_rows.rows)) data_rows.indexable
                query_rows.indexable,
          )
          (rw (add-zero (dim * j), add-zero (dim * i)) refl)

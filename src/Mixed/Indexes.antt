-- ===== src/Mixed/Indexes.antt =====
-- The trees of a group from an index of its rows.
use mqo_public.Prelude.{
  mul_mono, ℕ, zero, suc, ◌+◌, ◌*◌, ◌<◌, ◌≤◌, ◌≡◌, refl, subst, Bool, List, [], ◌∷◌, ◌++◌, length,
  length-append, count, All, ok, ltb, if◌then◌else◌, arith,
}
use mqo_public.Floats.{Floats}
use mqo_public.Queue.{PriorityQueue}
use mqo_public.Checker.Pigeonhole.{length_bounded}
use mqo_public.Distance.{int_limit, int_of}
use mqo_public.Distance.Bounds.{HasRows, int_of_ok}
use mqo_public.AnnMst.{PqItem, heavier}
use mqo_public.AnnMst.Bounds.{sum_below}
use mqo_public.AnnMst.Correct.{IsIndex, degrees, approximate_mst-IsTrajectory}
use mqo_public.AnnMst.Undirected.{approximate_mst_undirected-IsTrajectory}
use mqo_public.AnnBuild.Laws.{read_row_ok, row_end, HnswLaws, build_ann_lem}
use mqo_public.AnnBuild.{HnswLib, build_ann}
use mqo_public.Mixed.{copy_rows, directed_tree, undirected_tree}
use mqo_public.Mixed.Loop.{FindsTrees}

copy_rows_ok :
    {A : Type 0} (query : List A) (n dim : ℕ) (group : List ℕ)
    → 0 < dim
    → n * dim ≤ length query
    → n * dim < int_limit
    → ((v : ℕ) → 0 < count v group → v < n)
    → (r : List A) × (copy_rows query dim group ≡ ok r) × (length r ≡ length group * dim)
unfolding copy_rows
copy_rows_ok query n dim [] pos long fits inside = ([], refl, omega arith)
copy_rows_ok query n dim (g ∷ group) pos long fits inside =
    let below : g < n = inside g (ground arith) in
    let (row, e, l) =
      read_row_ok query (g * dim) dim (omega (arith, row_end g n dim below, long)) in
    let (rest, e', l') =
      copy_rows_ok query n dim group pos long fits (λ v k. inside v (omega (arith, k))) in
    (
      row ++ rest,
      rw (int_of_ok (g * dim) (omega (arith, row_end g n dim below, fits, pos)), e, e') refl,
      omega (arith, length-append row rest, l, l'),
    )

sum_below-le : (f : ℕ → ℕ) (c n : ℕ) → ((v : ℕ) → v < n → f v ≤ c) → sum_below f n ≤ n * c
sum_below-le f c zero h = omega arith
sum_below-le f c (suc n) h =
    omega (arith, h n (omega arith), sum_below-le f c n (λ v k. h v (omega (arith, k))))

module _ (fl : Floats) (lib : HnswLib fl) (laws : HnswLaws fl lib)
    (pq : PriorityQueue (PqItem fl) (heavier fl)) where
  -- The lists of an index of `k` points hold ids below `k`, and 2 m of them at most.
  pub links_lem :
      (hnsw : lib.Index) (k m : ℕ)
      → laws.size hnsw ≡ k
      → laws.degree hnsw ≡ 2 * m
      → IsIndex fl pq k (lib.view hnsw) × (degrees fl pq k (lib.view hnsw) ≤ k * (2 * m))
  links_lem hnsw k m full lists = (
    λ v h.
        subst (λ j. All (λ u. u < j) ((lib.view hnsw).links v)) full
          (laws.links-size hnsw v (omega (arith, full, h))).0,
    sum_below-le (λ v. length ((lib.view hnsw).links v)) (2 * m) k
        (λ v h. omega (arith, lists, (laws.links-size hnsw v (omega (arith, full, h))).1)),
  )

module _ (fl : Floats) (lib : HnswLib fl) (laws : HnswLaws fl lib)
    (pq : PriorityQueue (PqItem fl) (heavier fl)) (query : List fl.Float) (n dim m : ℕ)
    (rows : HasRows query n dim) (fits : n * dim < int_limit) (two : 1 < m) where
  -- More fuel than a group of any size needs for its search.
  abbrev pub EnoughFuel : ℕ → Type 0
  EnoughFuel fuel = 1 + 2 * (n * (2 * m)) < fuel

  -- An index of the rows of a group is built, and its lists hold positions of the group.
  rows_lem :
      (ef : ℕ) (base_only use_l2 : Bool) (group : List ℕ)
      → ((v : ℕ) → count v group ≤ (if ltb v n then 1 else 0))
      → (sub : List fl.Float) × (hnsw : lib.Index) × (int_of (length group * dim)
          ≡ ok (length group * dim))
        × (copy_rows query dim group ≡ ok sub)
        × (build_ann fl lib base_only use_l2 sub (length group) dim m ef ≡ ok hnsw)
        × IsIndex fl pq (length group) (lib.view hnsw)
        × (degrees fl pq (length group) (lib.view hnsw) ≤ n * (2 * m))
  rows_lem ef base_only use_l2 group once =
      let k = length group in
      let few : k ≤ n = length_bounded n group once in
      let small : k * dim ≤ n * dim = mul_mono k n dim few in
      let (sub, copied, long) =
        copy_rows_ok query n dim group rows.positive rows.rows fits
          (λ v h. ground (arith, once v, h)) in
      let (hnsw, built, full, lists) =
        build_ann_lem fl lib laws sub dim k base_only use_l2 m ef two rows.positive
          (omega (arith, long)) (omega (arith, small, fits)) in
      let (inside, work) = links_lem fl lib laws pq hnsw k m full lists in
      (
        sub,
        hnsw,
        int_of_ok (k * dim) (omega (arith, small, fits)),
        copied,
        built,
        inside,
        omega (arith, work, mul_mono k n (2 * m) few),
      )

  pub directed_tree_lem :
      (fuel ef : ℕ) (base_only use_l2 : Bool)
      → EnoughFuel fuel
      → FindsTrees fl n (directed_tree fl lib pq fuel base_only use_l2 query dim m ef)
  unfolding directed_tree
  directed_tree_lem fuel ef base_only use_l2 enough group two once =
      let (sub, hnsw, sized, copied, built, inside, work) =
        rows_lem ef base_only use_l2 group once in
      let (t, w, ends, trajectory) =
        approximate_mst-IsTrajectory fl pq fuel (lib.view hnsw) (length group) inside
          (omega (arith, enough, work)) in
      (t, w, rw (sized, copied, built) ends, trajectory)

  pub undirected_tree_lem :
      (fuel ef : ℕ) (base_only use_l2 : Bool)
      → EnoughFuel fuel
      → FindsTrees fl n (undirected_tree fl lib pq fuel base_only use_l2 query dim m ef)
  unfolding undirected_tree
  undirected_tree_lem fuel ef base_only use_l2 enough group two once =
      let (sub, hnsw, sized, copied, built, inside, work) =
        rows_lem ef base_only use_l2 group once in
      let (t, w, ends, trajectory) =
        approximate_mst_undirected-IsTrajectory fl pq fuel (lib.view hnsw) (length group) inside
          (omega (arith, enough, work)) in
      (t, w, rw (sized, copied, built) ends, trajectory)

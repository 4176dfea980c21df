-- ===== src/FullMst/Correct.antt =====
-- `get_mst` finds a spanning tree of all queries.
use mqo_public.Prelude.{
  ℕ, zero, suc, ◌+◌, ◌-◌, ◌*◌, ◌<◌, ◌≤◌, ◌≡◌, refl, sym, ap, ◌∙◌, subst, Bool, true, false, Option,
  none, some, List, [], ◌∷◌, length, length-replicate, replicate, get_elem?-lt, Run, ok, ltb,
  if◌then◌else◌, arith,
}
use mqo_public.Floats.{Floats}
use mqo_public.Trajectory.{Edge, nodes, VisitsOnce, IsTrajectory}
use mqo_public.Trajectory.Forest.{length-nodes}
use mqo_public.Checker.Pigeonhole.{VisitsOnce-length}
use mqo_public.GroupMst.{Key, Pick, prim_from, prim_rounds}
use mqo_public.GroupMst.Taken.{roots}
use mqo_public.GroupMst.Rounds.{IsInfinity}
use mqo_public.GroupMst.Tree.{select-first, prim_from_lem}
use mqo_public.Lsh.{iota}
use mqo_public.Lsh.Split.{count-iota, length-iota}
use mqo_public.Lsh.Forest.{Reaches-all}
use mqo_public.AnnBuild.Laws.{row_end}
use mqo_public.FullMst.{cost_l2, cost_ip, cost, full_rounds, get_mst}
use mqo_public.FullMst.Closest.{doubles, links, dists, parents}
use mqo_public.FullMst.Steps.{full_rounds_lem, prim_rounds-first}

links-all : (t : List Edge) → roots t ≡ 0 → links t ≡ t
links-all [] h = refl
links-all ((v, none) ∷ t) h = absurd (omega (arith, h))
links-all ((v, some p) ∷ t) h = ap (λ r. (v, some p) ∷ r) (links-all t (omega (arith, h)))

module _ (fl : Floats) (query : List fl.Float) where
  cost_l2_ok :
      (x y k : ℕ) (c : fl.Double)
      → x + k ≤ length query
      → y + k ≤ length query
      → (d : fl.Double) × (cost_l2 fl query x y k c ≡ ok d)
  unfolding cost_l2
  cost_l2_ok x y zero c p q = (c, refl)
  cost_l2_ok x y (suc k) c p q =
      let (a, ea) = get_elem?-lt query x (omega (arith, p)) in
      let (b, eb) = get_elem?-lt query y (omega (arith, q)) in
      let diff = fl.to_double (fl.sub a b) in
      let (d, e) =
        cost_l2_ok (suc x) (suc y) k (fl.d_add c (fl.d_mul diff diff)) (omega (arith, p))
          (omega (arith, q)) in
      (d, rw (ea, eb) e)

  cost_ip_ok :
      (x y k : ℕ) (c : fl.Double)
      → x + k ≤ length query
      → y + k ≤ length query
      → (d : fl.Double) × (cost_ip fl query x y k c ≡ ok d)
  unfolding cost_ip
  cost_ip_ok x y zero c p q = (_, refl)
  cost_ip_ok x y (suc k) c p q =
      let (a, ea) = get_elem?-lt query x (omega (arith, p)) in
      let (b, eb) = get_elem?-lt query y (omega (arith, q)) in
      let (d, e) =
        cost_ip_ok (suc x) (suc y) k (fl.d_add c (fl.d_mul (fl.to_double a) (fl.to_double b)))
          (omega (arith, p)) (omega (arith, q)) in
      (d, rw (ea, eb) e)

  row_fits : (n dim i : ℕ) → i < n → n * dim ≤ length query → i * dim + dim ≤ length query
  row_fits n dim i h fits = omega (arith, row_end i n dim h, fits)

  cost_ok :
      (use_l2 : Bool) (n dim i j : ℕ)
      → n * dim ≤ length query
      → i < n
      → j < n
      → (d : fl.Double) × (cost fl use_l2 query dim i j ≡ ok d)
  unfolding cost
  cost_ok true n dim i j fits p q =
      cost_l2_ok (i * dim) (j * dim) dim _ (row_fits n dim i p fits) (row_fits n dim j q fits)
  cost_ok false n dim i j fits p q =
      cost_ip_ok (i * dim) (j * dim) dim _ (row_fits n dim i p fits) (row_fits n dim j q fits)

  -- Every cost that is computed is below infinity.
  abbrev pub IsFinite : ℕ → ℕ → Bool → Type 0
  IsFinite n dim use_l2 =
      (i j : ℕ) (d : fl.Double)
      → i < n
      → j < n
      → cost fl use_l2 query dim i j ≡ ok d
      → fl.d_lt d fl.d_infinity ≡ true

  abbrev keys_at_start : ℕ → List (Key (doubles fl))
  keys_at_start m = (fl.d_of_int 0, none) ∷ replicate m (fl.d_infinity, none)

  dists-start : (m : ℕ) → dists fl (replicate m (fl.d_infinity, none)) ≡ replicate m fl.d_infinity
  dists-start zero = refl
  dists-start (suc m) = ap (λ ds. fl.d_infinity ∷ ds) (dists-start m)

  parents-start : (m : ℕ) → parents fl (replicate m (fl.d_infinity, none)) ≡ replicate m none
  parents-start zero = refl
  parents-start (suc m) = ap (λ ps. none ∷ ps) (parents-start m)

  module _ (dim : ℕ) (use_l2 : Bool) (laws : IsInfinity (doubles fl)) (m : ℕ) where
    abbrev cost_of : ℕ → ℕ → Run fl.Double
    cost_of = cost fl use_l2 query dim

    abbrev no_weight : ℕ → fl.Double → ℕ
    no_weight w d = w

    -- Prim's algorithm on the group of all queries starts with the root 0, the only one.
    group_lem :
        suc m * dim ≤ length query
        → IsFinite (suc m) dim use_l2
        → (t : List Edge) × (w : ℕ) × (prim_rounds
              (doubles fl)
              no_weight
              cost_of
              (iota (suc m) 0)
              (suc m)
              (replicate (suc m) false)
              (keys_at_start m)
              0
              []
            ≡ ok (w, (0, none) ∷ t))
          × IsTrajectory (suc m) ((0, none) ∷ t)
          × (roots t ≡ 0)
    unfolding prim_from iota
    group_lem fits finite =
        let reach =
          Reaches-all (doubles fl) cost_of (suc m) (iota (suc m) 0)
            (λ i j p q.
              let (d, e) = cost_ok use_l2 (suc m) dim i j fits p q in (d, e, finite i j d p q e))
            (λ v h. ground (arith, h, count-iota v (suc m) 0)) in
        let (w, t, ends, (ordered, counts, rooted, sized)) =
          prim_from_lem (doubles fl) laws cost_of 0 (iota m 1) no_weight 0 [] reach tt in
        let begun : prim_rounds (doubles fl) no_weight cost_of (iota (suc m) 0) (suc m)
              (replicate (suc m) false) (keys_at_start m) 0 []
            ≡ ok (w, t) =
          subst
            (λ l.
              prim_rounds (doubles fl) no_weight cost_of (iota (suc m) 0) (suc l)
                (replicate (suc l) false) (keys_at_start l) 0 []
              ≡ ok (w, t))
            (length-iota m 1) ends in
        let (more, e) =
          prim_rounds-first fl use_l2 cost_of no_weight (suc m) m 0 none (replicate (suc m) false)
            (keys_at_start m) 0 w t
            (ap (λ (r : Pick (doubles fl)). r.curr) (select-first (doubles fl) laws m))
            (ap (λ (r : Pick (doubles fl)). r.parent) (select-first (doubles fl) laws m)) begun in
        let once : VisitsOnce (suc m) (nodes t) =
          λ v. ground (arith, counts v, count-iota v (suc m) 0) in
        let one_root : roots ((0, none) ∷ more) ≡ 1 = subst (λ es. roots es ≡ 1) e rooted in
        (
          more,
          w,
          begun ∙ ap (λ es. ok (w, es)) e,
          subst (λ es. IsTrajectory (suc m) es) e
              (record {
                size = omega (arith, length-nodes t, VisitsOnce-length (suc m) (nodes t) once);
                visits = once;
                ordered = ordered;
              }),
          omega (arith, one_root),
        )

    rounds_from : List fl.Double → List (Option ℕ) → Run (fl.Double × List Edge)
    rounds_from ds ps =
        full_rounds fl use_l2 cost_of (suc m) (replicate (suc m) false) (fl.d_of_int 0 ∷ ds)
          (none ∷ ps) (fl.d_of_int 0) []

    rounds_lem :
        suc m * dim ≤ length query
        → IsFinite (suc m) dim use_l2
        → (edges : List Edge) × (total : fl.Double) × (rounds_from
              (replicate m fl.d_infinity)
              (replicate m none)
            ≡ ok (total, edges))
          × IsTrajectory (suc m) ((0, none) ∷ edges)
    unfolding rounds_from
    rounds_lem fits finite =
        let (t, w, ends, trajectory, others) = group_lem fits finite in
        let (more, e, (total, ends')) =
          full_rounds_lem fl use_l2 cost_of no_weight (suc m) (suc m) (replicate (suc m) false)
            (keys_at_start m) 0 [] ((0, none) ∷ t) w (fl.d_of_int 0) []
            (ap suc (length-replicate m false)) (ap suc (length-replicate m (fl.d_infinity, none)))
            ends in
        let same : links more ≡ t = ap links (sym e) ∙ links-all t others in
        (
          t,
          total,
          sym (ap (λ ds. rounds_from ds (replicate m none)) (dists-start m))
              ∙ sym (
                  ap (rounds_from (dists fl (replicate m (fl.d_infinity, none)))) (parents-start m))
              ∙ ends'
              ∙ ap (λ es. ok (total, es)) same,
          trajectory,
        )

  -- `get_mst` of n queries of dimension dim, n > 0, whose costs are finite, ends without a fault: with
  -- the root 0 in front, its edges are a trajectory of the n queries.
  pub get_mst-IsTrajectory :
      (n dim : ℕ) (use_l2 : Bool)
      → IsInfinity (doubles fl)
      → 0 < n
      → n * dim ≤ length query
      → IsFinite n dim use_l2
      → (edges : List Edge) × (average : fl.Double) × (get_mst fl n dim query use_l2
          ≡ ok (edges, average))
        × IsTrajectory n ((0, none) ∷ edges)
  unfolding get_mst rounds_from
  get_mst-IsTrajectory zero dim use_l2 laws pos fits finite = absurd (omega (arith, pos))
  get_mst-IsTrajectory (suc m) dim use_l2 laws pos fits finite =
      let (edges, total, ends, trajectory) = rounds_lem dim use_l2 laws m fits finite in
      let positive : ltb 0 (suc m) ≡ true = ground arith in
      let average =
        if ltb 1 (suc m) then fl.d_div total (fl.d_of_int (suc m - 1)) else fl.d_of_int 0 in
      (edges, average, rw (positive, ends) refl, trajectory)

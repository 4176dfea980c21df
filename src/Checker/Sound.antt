-- ===== src/Checker/Sound.antt =====
-- The assertions hold exactly of the trajectories.
use mqo_public.Prelude.{
  ℕ, ◌<◌, ◌≡◌, refl, ap, ◌∙◌, true, false, ◌↔◌, none, some, List, [], ◌∷◌, length, count, ==_iff,
  ok, arith,
}
use mqo_public.Trajectory.{Edge, nodes, ParentsFirst, VisitsOnce, IsTrajectory}
use mqo_public.Trajectory.Forest.{length-nodes}
use mqo_public.Checker.{insert, contains, fill, collect, scan_parents, check_trajectory}
use mqo_public.Checker.Set.{
  contains_iff, contains-insert, Ascends-ext, set_eq_iff, fill-Ascends, collect-Ascends,
  contains-fill, contains-collect,
}
use mqo_public.Checker.Pigeonhole.{pigeonhole}

scan_parents-false : (t : List Edge) (prev : List ℕ) → scan_parents t prev false ≡ false
unfolding scan_parents
scan_parents-false [] prev = refl
scan_parents-false ((v, p) ∷ t) prev = ground (arith, scan_parents-false t (insert v prev))

scan_parents_iff :
    (t : List Edge) (prev seen : List ℕ)
    → ((q : ℕ) → (contains q prev ≡ true) ↔ (0 < count q seen))
    → (scan_parents t prev true ≡ true) ↔ ParentsFirst seen t
unfolding scan_parents
scan_parents_iff [] prev seen h = (λ _. tt, λ _. refl)
scan_parents_iff ((v, none) ∷ t) prev seen h =
    scan_parents_iff t (insert v prev) (v ∷ seen) λ q. ground (arith, h q, contains-insert q v prev)
scan_parents_iff ((v, some p) ∷ t) prev seen h = ground (
  arith,
  h p,
  scan_parents-false t (insert v prev),
  scan_parents_iff t (insert v prev) (v ∷ seen) λ q. ground (arith, h q, contains-insert q v prev),
)

-- The two sets have the same members when each query stands in the trajectory once.
sets_equal : (n : ℕ) (t : List Edge) → VisitsOnce n (nodes t) → fill n 0 [] ≡ collect t []
unfolding contains
sets_equal n t h =
    Ascends-ext 0 (fill n 0 []) (collect t []) (fill-Ascends n 0 [] tt) (collect-Ascends t [] tt)
      λ v. ground (arith, h v, contains-fill v n 0 [], contains-collect v t [])

-- Equal sets make every query stand in the trajectory.
sets_cover :
    (n : ℕ) (t : List Edge) → fill n 0 [] ≡ collect t [] → (v : ℕ) → v < n → 0 < count v (nodes t)
unfolding contains
sets_cover n t e v k =
    let same : contains v (fill n 0 []) ≡ contains v (collect t []) = ap (contains v) e in
    ground (arith, same, contains-fill v n 0 [], contains-collect v t [])

-- The assertions of `checkTrajectory` all hold if and only if the pairs are a trajectory of the n
-- queries: each query stands in them once, and each parent before its children.
pub check_trajectory_iff :
    (t : List Edge) (n : ℕ) → (check_trajectory t n ≡ ok tt) ↔ IsTrajectory n t
unfolding check_trajectory
check_trajectory_iff t n = (
  λ h.
      let size : length t ≡ n = ground (arith, h) in
      let sets : fill n 0 [] ≡ collect t [] =
        ground (arith, h, set_eq_iff (fill n 0 []) (collect t [])) in
      record {
        size = size;
        visits = pigeonhole n (nodes t) (length-nodes t ∙ size) (sets_cover n t sets);
        ordered =
            (scan_parents_iff t [] [] (λ q. ground (arith, contains_iff q []))).0
              (ground (arith, h));
      },
  λ k. rw (
    (==_iff (length t) n).1 k.size,
    (set_eq_iff _ _).1 (sets_equal n t k.visits),
    (scan_parents_iff t [] [] (λ q. ground (arith, contains_iff q []))).1 k.ordered,
  ),
)

-- ===== src/Drivers/Vamana.antt =====
-- run_vamana.cpp from its files to the rows of the results.
use mqo_public.Prelude.{
  arith, ℕ, suc, ◌*◌, ◌≤◌, ◌≡◌, refl, Bool, Option, none, List, [], ◌∷◌, length, All, Run, ok, err,
  out_of_fuel, ◌>>=◌,
}
use mqo_public.Floats.{Floats}
use mqo_public.Trajectory.{Edge, IsTrajectory}
use mqo_public.Queue.{PriorityQueue}
use mqo_public.AnnMst.{PqItem, heavier}
use mqo_public.AnnBuild.{HnswLib}
use mqo_public.Lsh.{GroupInfo, smaller}
use mqo_public.Interface.{mqo}
use mqo_public.Interface.Safety.{mqo-IsTrajectory}
use mqo_public.Answers.{get_answers}
use mqo_public.DataFiles.{Format, get_data}
use mqo_public.Follow.Order.{HasAnswers, Follows, right_answers}
use mqo_public.VamanaRecall.{Search, get_recall, get_recall_optimized}
use mqo_public.VamanaRecall.Bounds.{right_from, get_recall-le, get_recall_optimized-le}
use mqo_public.Sweep.{int_step}
use mqo_public.Sweep.Ends.{sweep_stuck}
use mqo_public.Drivers.{Options, run_vamana}

-- The recalls of `plain` and of `optimized` right answers among n.
abbrev pub two_recalls : (fl : Floats) → ℕ → ℕ → ℕ → List fl.Double
two_recalls fl n plain optimized =
    fl.d_div (fl.d_of_int plain) (fl.d_of_int n)
    ∷ fl.d_div (fl.d_of_int optimized) (fl.d_of_int n)
    ∷ []

-- The right answers of the plain search.
abbrev pub plain_right : Search → List (List ℕ) → ℕ → ℕ → ℕ → ℕ
plain_right search answers n dim b = right_from (λ i. search 1 b (i * dim) none) answers n 0

-- The right answers among the rows `res` that the search along the trajectory found.
abbrev pub followed_right :
    Search
    → (answers : List (List ℕ)) (n dim : ℕ) → HasAnswers n answers
    → List Edge
    → ℕ
    → List (List ℕ)
    → ℕ
followed_right search answers n dim known t b res =
    right_answers suc answers n known (λ v. ok (v * dim)) (search 1 b) res t

-- Each row is what the search finds from the first id of the row of the parent.
abbrev pub FollowsTree :
    Search
    → (answers : List (List ℕ)) (n dim : ℕ) → HasAnswers n answers
    → List Edge
    → ℕ
    → List (List ℕ)
    → Type 0
FollowsTree search answers n dim known t b res =
    All (λ e. Follows suc answers n known (λ v. ok (v * dim)) (search 1 b) res e.0 e.1) t

module _ (fl : Floats) {U : Type 0} (to_float : U → fl.Float) (lib : HnswLib fl)
    (groups : PriorityQueue GroupInfo smaller) (items : PriorityQueue (PqItem fl) (heavier fl))
    (normal : ℕ → fl.Float) (rand : ℕ → ℕ → ℕ) (write_key : ℕ → List ℕ)
    (write : fl.Double → List ℕ) where
  -- What is measured at one beam size.
  measure : Search → List (List ℕ) → List Edge → ℕ → ℕ → ℕ → Run (List fl.Double)
  unfolding get_recall get_recall_optimized
  measure search answers t n dim b = do
    plain ← get_recall fl search answers n dim 1 b
    optimized ← get_recall_optimized fl search answers t n dim 1 b
    ok (plain ∷ optimized ∷ [])

  abbrev Measured :
      Search → (answers : List (List ℕ)) (n dim : ℕ) → HasAnswers n answers → List Edge → ℕ → Type 0
  Measured search answers n dim known t b =
      (res : List (List ℕ)) × (measure search answers t n dim b
        ≡ ok (
            two_recalls fl n (plain_right search answers n dim b)
              (followed_right search answers n dim known t b res)))
      × FollowsTree search answers n dim known t b res
      × (plain_right search answers n dim b ≤ n)
      × (followed_right search answers n dim known t b res ≤ n)

  measure_lem :
      (search : Search) (answers : List (List ℕ)) (t : List Edge) (n dim b : ℕ)
      (known : HasAnswers n answers)
      → ((x : ℕ) (entry : Option ℕ) → (l : ℕ) × (ls : List ℕ) × (search 1 b x entry ≡ l ∷ ls))
      → n ≤ length answers
      → IsTrajectory n t
      → Measured search answers n dim known t b
  unfolding measure
  measure_lem search answers t n dim b known finds enough trajectory =
      let (plain, e, is, few) = get_recall-le fl search answers n dim 1 b finds enough in
      let (res, optimized, e', is', few', follows) =
        get_recall_optimized-le fl search answers n dim 1 b finds t known trajectory in
      (res, rw (e, e', is, is') refl, follows, omega (arith, is, few), omega (arith, is', few'))

  module _ (fuel n dim : ℕ) (search : Bool → List fl.Float → Search) (truncate : fl.Float → ℕ)
      (querypath : Format fl.Float U) (answerpath : Option (List ℕ)) (o : Options fl.Float ℕ)
      (query : List fl.Float) (answers : List (List ℕ)) (t : List Edge) where
    -- The files can be read, `mqo` returns `t`, every query has a true answer, and each search finds
    -- something.
    pub record IsRunnable : Type 0 where
      pub read_query : get_data to_float querypath ≡ ok (n, dim, query)
      pub read_answers : get_answers [] answerpath ≡ ok answers
      pub made :
          mqo fl lib groups items normal rand o.approx_method fuel query n dim o.use_l2 o.params
          ≡ ok t
      pub finds :
          (b x : ℕ) (entry : Option ℕ)
          → (l : ℕ) × (ls : List ℕ) × (search o.use_l2 query 1 b x entry ≡ l ∷ ls)
      pub enough : n ≤ length answers
      pub known : HasAnswers n answers

    abbrev index : Search
    index = search o.use_l2 query

    found : (ready : IsRunnable) (b : ℕ) → Measured index answers n dim ready.known t b
    found ready b = measure_lem index answers t n dim b ready.known (ready.finds b) ready.enough (
        mqo-IsTrajectory fl lib groups items normal rand o.approx_method fuel query n dim o.use_l2
          o.params t ready.made)

  -- With a least beam size of 1 and a ratio that is truncated to 1, such as 1.414, run_vamana never
  -- saves its results, however much fuel it has: 1 times the ratio is the ratio, which becomes 1 again.
  pub run_vamana-stuck :
      (fuel n dim : ℕ) (search : Bool → List fl.Float → Search) (truncate : fl.Float → ℕ)
      (querypath : Format fl.Float U) (answerpath : Option (List ℕ)) (o : Options fl.Float ℕ)
      (query : List fl.Float) (answers : List (List ℕ)) (t : List Edge)
      → IsRunnable fuel n dim search truncate querypath answerpath o query answers t
      → o.min_beamsize ≡ 1
      → 1 ≤ o.max_beamsize
      → ((x : fl.Float) → fl.mul (fl.of_int 1) x ≡ x)
      → truncate o.increment_ratio ≡ 1
      → run_vamana fl to_float lib groups items normal rand write_key write fuel search truncate
          querypath answerpath o
        ≡ err out_of_fuel
  unfolding run_vamana measure int_step
  run_vamana-stuck fuel n dim search truncate querypath answerpath o query answers t ready least
        some_size times_one truncated =
      let index = search o.use_l2 query in
      let at = found fuel n dim search truncate querypath answerpath o query answers t ready in
      let stays : int_step fl truncate o.increment_ratio 1 ≡ ok 1 =
        rw (times_one o.increment_ratio, truncated) refl in
      let endless =
        sweep_stuck (int_step fl truncate o.increment_ratio) (measure index answers t n dim) fuel 1
          o.max_beamsize _ [] some_size stays (at 1).1 in
      rw (ready.read_query, ready.read_answers, ready.made, least, endless) refl

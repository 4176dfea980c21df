-- ===== src/VamanaRecall/Bounds.antt =====
-- The counts of the recall of the DiskANN index stay within an `int` that holds the number of queries.
use mqo_public.Prelude.{
  ℕ, zero, suc, ◌+◌, ◌*◌, ◌<◌, ◌≤◌, ◌≡◌, refl, ap, ◌∙◌, true, false, Option, none, some, List, [],
  ◌∷◌, length, length-replicate, replicate, get_elem?, get_elem?-lt, count_if-le-length, All, Run,
  ok, ◌==◌, if◌then◌else◌, arith,
}
use mqo_public.Floats.{Floats}
use mqo_public.Trajectory.{Edge, IsTrajectory}
use mqo_public.Follow.Order.{
  times, same_first, HasAnswers, Follows, right_answers, follow_loop-Follows,
}
use mqo_public.VamanaRecall.{Search, count_top, count_loop, get_recall, get_recall_optimized}

times-suc : (k c : ℕ) → times k suc c ≡ k + c
times-suc zero c = omega arith
times-suc (suc k) c = omega (arith, times-suc k (suc c))

-- One query adds one at most, and nothing when its answers are empty.
abbrev pub right_at : (ℕ → List ℕ) → List (List ℕ) → ℕ → ℕ
right_at search answers i = if same_first (some (search i)) (get_elem? answers i) then 1 else 0

abbrev pub right_from : (ℕ → List ℕ) → List (List ℕ) → ℕ → ℕ → ℕ
right_from search answers zero i = 0
right_from search answers (suc k) i =
    right_at search answers i + right_from search answers k (suc i)

right_from-le :
    (search : ℕ → List ℕ) (answers : List (List ℕ)) (k i : ℕ) → right_from search answers k i ≤ k
right_from-le search answers zero i = omega arith
right_from-le search answers (suc k) i =
    elim (same_first (some (search i)) (get_elem? answers i))
      as (λ b. (if b then 1 else 0) + right_from search answers k (suc i) ≤ suc k) [
        | true ↦ omega (arith, right_from-le search answers k (suc i))
        | false ↦ omega (arith, right_from-le search answers k (suc i))
      ]

count_top_lem :
    (answer : List ℕ) (l c : ℕ) (ls : List ℕ)
    → count_top answer (l ∷ ls) c
      ≡ ok ((if same_first (some (l ∷ ls)) (some answer) then 1 else 0) + c)
unfolding count_top
count_top_lem [] l c ls = ap ok (omega arith)
count_top_lem (first ∷ answer) l c ls =
    elim (l == first)
      as (λ b. ◌≡◌ {A = Run ℕ} (ok (if b then suc c else c)) (ok ((if b then 1 else 0) + c))) [
        | true ↦ ap ok (omega arith)
        | false ↦ ap ok (omega arith)
      ]

count_step :
    (search : ℕ → List ℕ) (answers : List (List ℕ)) (k i l c : ℕ) (ls : List ℕ)
    → i < length answers
    → search i ≡ l ∷ ls
    → count_loop search answers (suc k) i c
      ≡ count_loop search answers k (suc i) (right_at search answers i + c)
unfolding count_loop
count_step search answers k i l c ls inside e =
    let (answer, at) = get_elem?-lt answers i inside in rw (at, e, count_top_lem answer l c ls) refl

count_loop_lem :
    (search : ℕ → List ℕ) (answers : List (List ℕ)) (k i c : ℕ)
    → i + k ≤ length answers
    → ((v : ℕ) → (l : ℕ) × (ls : List ℕ) × (search v ≡ l ∷ ls))
    → count_loop search answers k i c ≡ ok (right_from search answers k i + c)
unfolding count_loop
count_loop_lem search answers zero i c inside finds = ap ok (omega arith)
count_loop_lem search answers (suc k) i c inside finds =
    let (l, ls, e) = finds i in
    let here = right_at search answers i in
    let sum : right_from search answers k (suc i) + (here + c)
        ≡ here + right_from search answers k (suc i) + c =
      omega arith in
    count_step search answers k i l c ls (omega (arith, inside)) e
    ∙ count_loop_lem search answers k (suc i) (here + c) (omega (arith, inside)) finds
    ∙ ap ok sum

module _ (fl : Floats) (search : Search) (answers : List (List ℕ)) (n dim topk l_search : ℕ)
    (finds : (x : ℕ) (entry : Option ℕ)
      → (l : ℕ) × (ls : List ℕ) × (search topk l_search x entry ≡ l ∷ ls)) where
  -- `get_recall` returns the share of the queries for which the first id is the first true answer, and
  -- counts n of them at most, so the count fits an `int` that holds n. A query whose answers are empty
  -- counts as wrong. Each search must find something, and n rows of answers be there.
  pub get_recall-le :
      n ≤ length answers
      → (c : ℕ) × (get_recall fl search answers n dim topk l_search
          ≡ ok (fl.d_div (fl.d_of_int c) (fl.d_of_int n)))
        × (c ≡ right_from (λ i. search topk l_search (i * dim) none) answers n 0)
        × (c ≤ n)
  unfolding get_recall
  get_recall-le enough =
      let row : ℕ → List ℕ = λ i. search topk l_search (i * dim) none in
      let c = right_from row answers n 0 in
      let ends : count_loop row answers n 0 0 ≡ ok c =
        count_loop_lem row answers n 0 0 (omega (arith, enough)) (λ v. finds (v * dim) none)
        ∙ ap ok (omega arith) in
      (c, rw ends refl, refl, right_from-le row answers n 0)

  -- Along a trajectory of the n queries `get_recall_optimized` starts the search of each query from the
  -- first id of its parent, and returns the share of the queries for which the first id is the first true
  -- answer; it counts n of them at most. Here every query must have an answer.
  pub get_recall_optimized-le :
      (t : List Edge) (known : HasAnswers n answers)
      → IsTrajectory n t
      → (res : List (List ℕ)) × (c : ℕ) × (get_recall_optimized fl search answers t n dim topk
            l_search
          ≡ ok (fl.d_div (fl.d_of_int c) (fl.d_of_int n)))
        × (c ≡ right_answers suc answers n known (λ v. ok (v * dim)) (search topk l_search) res t)
        × (c ≤ n)
        × All
            (λ e.
              Follows suc answers n known (λ v. ok (v * dim)) (search topk l_search) res e.0 e.1)
            t
  unfolding get_recall_optimized
  get_recall_optimized-le t known trajectory =
      let (res, ends, follows) =
        follow_loop-Follows suc answers n known (λ v. ok (v * dim)) (search topk l_search) t
          (replicate n (replicate topk 0)) 0 (λ v h. (v * dim, refl, finds (v * dim)))
          (length-replicate n (replicate topk 0)) trajectory in
      let c = right_answers suc answers n known (λ v. ok (v * dim)) (search topk l_search) res t in
      let sum : times c suc 0 ≡ c = omega (arith, times-suc c 0) in
      (
        res,
        c,
        rw (ends, sum) refl,
        refl,
        omega (
          arith,
          trajectory.size,
          count_if-le-length (λ e. same_first (get_elem? res e.0) (get_elem? answers e.0)) t,
        ),
        follows,
      )

-- ===== src/Answers/Correct.antt =====
-- `calculate_answers` returns the nearest points of each query in ascending order.
use mqo_public.Prelude.{
  ℕ, zero, suc, ◌+◌, ◌<◌, ◌≤◌, ◌≡◌, refl, ap, ◌∙◌, subst, Bool, false, some, List, [], ◌∷◌, ◌++◌,
  length, total_one, get_elem?, append-nil, SameTotals, All, Run, ok, err, out_of_bounds, arith,
}
use mqo_public.Floats.{Floats}
use mqo_public.Queue.{IsStrictWeak, PriorityQueue}
use mqo_public.Distance.Bounds.{HasRows}
use mqo_public.Answers.{
  Near, nearer, data_distance, answer_for_query, answer_queries, calculate_answers,
}
use mqo_public.Answers.Order.{
  nearer-IsStrictWeak, hits, All_of_hits, total-append, All-map, Ascending,
}
use mqo_public.Answers.Order.{measured, places, length-measured, total_of_empty}
use mqo_public.Answers.Nearest.{Kept, nearest_lem, take_out_lem, take_out_short}
use mqo_public.Answers.Distances.{row_distance, data_distance-row}

module _ (fl : Floats) (weak : IsStrictWeak fl.lt) (pq : PriorityQueue (Near fl) (nearer fl)) where
  -- `near` are `topk` of the points below n with the distances `d`, the nearest first, and no point that
  -- is left out is nearer than one of them.
  pub record AreNearest (d : ℕ → fl.Float) (n topk : ℕ) (near : List (Near fl)) : Type 0 where
    pub size : length near ≡ topk
    pub out : List (Near fl)
    pub split : SameTotals (near ++ out) (measured fl d n 0)
    pub ascending : Ascending (nearer fl) near
    pub nearest : All (λ o. All (λ a. nearer fl o a ≡ false) near) out

  Kept-empty : (topk : ℕ) → Kept fl pq (nearer-IsStrictWeak fl weak) topk [] pq.empty []
  Kept-empty topk =
      let nothing : length (pq.items pq.empty) ≡ 0 = ap length pq.items-empty in
      record {
        split = λ f. omega (arith, total_of_empty f (pq.items pq.empty) nothing);
        few = omega (arith, nothing);
        full = λ h. absurd (omega (arith, h));
        nearest = tt;
      }

  answer_for_query_lem :
      (dist : ℕ → Run fl.Float) (d : ℕ → fl.Float) (n topk : ℕ)
      → topk ≤ n
      → ((j : ℕ) → j < n → dist j ≡ ok (d j))
      → (near : List (Near fl)) × (answer_for_query fl pq dist n topk ≡ ok (places fl near))
        × AreNearest d n topk near
  unfolding answer_for_query
  answer_for_query_lem dist d n topk enough found =
      let order = nearer-IsStrictWeak fl weak in
      let (seen, q, out, ends, kept, all) =
        nearest_lem fl pq order dist d topk n 0 [] pq.empty []
          (λ j h h'. found j (omega (arith, h'))) (Kept-empty topk) in
      let full : length (pq.items q) ≡ topk = ground (
        arith,
        kept.few,
        kept.full,
        kept.split (λ _. 1),
        all (λ _. 1),
        total_one (pq.items q),
        total_one out,
        total_one (measured fl d n 0),
        length-measured fl d n 0,
        enough,
      ) in
      let (near, ends', same, ascending) = take_out_lem fl pq order topk q [] full in
      (
        near,
        rw ends (ends' ∙ ap ok (append-nil (places fl near))),
        record {
          size = omega (arith, same (λ _. 1), total_one near, total_one (pq.items q), full);
          out = out;
          split = λ f. omega (arith, total-append f near out, same f, kept.split f, all f);
          ascending = ascending;
          nearest =
              All-map _ _
                (λ o h.
                  All_of_hits (nearer fl o) near (omega (arith, h, same (hits (nearer fl o)))))
                out kept.nearest;
        },
      )

  -- With fewer points than `topk` the queue runs empty before the answer is full.
  answer_for_query_short :
      (dist : ℕ → Run fl.Float) (d : ℕ → fl.Float) (n topk : ℕ)
      → n < topk
      → ((j : ℕ) → j < n → dist j ≡ ok (d j))
      → answer_for_query fl pq dist n topk ≡ err out_of_bounds
  unfolding answer_for_query
  answer_for_query_short dist d n topk short found =
      let order = nearer-IsStrictWeak fl weak in
      let (seen, q, out, ends, kept, all) =
        nearest_lem fl pq order dist d topk n 0 [] pq.empty []
          (λ j h h'. found j (omega (arith, h'))) (Kept-empty topk) in
      rw ends (
        take_out_short fl pq order topk q [] (
          omega (
            arith,
            short,
            kept.split (λ _. 1),
            all (λ _. 1),
            total_one (pq.items q),
            total_one (measured fl d n 0),
            length-measured fl d n 0,
          )))

  module _ (points query : List fl.Float) (n_data n_query dim topk : ℕ) (l2 : Bool)
      (data_rows : HasRows points n_data dim) (query_rows : HasRows query n_query dim) where
    -- The answer of the query `i` has its place.
    abbrev pub Answered : List (List ℕ) → ℕ → ℕ → Type 0
    Answered answers j i =
        (near : List (Near fl)) × (get_elem? answers j ≡ some (places fl near))
        × AreNearest (row_distance fl points query l2 dim i) n_data topk near

    answer_queries_step :
        (dist : ℕ → ℕ → Run fl.Float) (k i : ℕ) (answer : List ℕ) (answers : List (List ℕ))
        → answer_for_query fl pq (λ j. dist j i) n_data topk ≡ ok answer
        → answer_queries fl pq dist n_data topk k (suc i) ≡ ok answers
        → answer_queries fl pq dist n_data topk (suc k) i ≡ ok (answer ∷ answers)
    unfolding answer_queries
    answer_queries_step dist k i answer answers e e' = rw (e, e') refl

    answer_queries_lem :
        (k i : ℕ)
        → topk ≤ n_data
        → i + k ≡ n_query
        → (answers : List (List ℕ)) × (answer_queries fl pq
              (data_distance fl pq l2 points query dim)
              n_data
              topk
              k
              i
            ≡ ok answers)
          × (length answers ≡ k)
          × ((j : ℕ) → j < k → Answered answers j (i + j))
    unfolding answer_queries
    answer_queries_lem zero i enough e = ([], refl, refl, λ j h. absurd (omega (arith, h)))
    answer_queries_lem (suc k) i enough e =
        let (near, made, best) =
          answer_for_query_lem (λ j. data_distance fl pq l2 points query dim j i)
            (row_distance fl points query l2 dim i) n_data topk enough
            (λ j h.
              data_distance-row fl points query n_data n_query dim data_rows query_rows pq l2 i j
                (omega (arith, e)) h) in
        let (answers, ends, size, rest) = answer_queries_lem k (suc i) enough (omega (arith, e)) in
        (
          places fl near ∷ answers,
          answer_queries_step (data_distance fl pq l2 points query dim) k i (places fl near) answers
              made ends,
          ap suc size,
          each near answers i k best rest,
        )
      where
        each :
            (near : List (Near fl)) (answers : List (List ℕ)) (i k : ℕ)
            → AreNearest (row_distance fl points query l2 dim i) n_data topk near
            → ((j : ℕ) → j < k → Answered answers j (suc i + j))
            → (j : ℕ) → j < suc k
            → Answered (places fl near ∷ answers) j (i + j)
        each near answers i k best rest zero h = (
          near,
          refl,
          subst (λ x. AreNearest (row_distance fl points query l2 dim x) n_data topk near)
              (omega arith) best,
        )
        each near answers i k best rest (suc j) h =
            let (far, e, best') = rest j (omega (arith, h)) in
            (
              far,
              e,
              subst (λ x. AreNearest (row_distance fl points query l2 dim x) n_data topk far)
                  (omega arith) best',
            )

    -- `calculate_answers` with topk at most n_data returns an answer for each query: the indices of topk
    -- of the points, the nearest first, ties by the index, and no point that is left out is nearer. The
    -- distance is that of the rows, the arrays hold these rows and are indexable by an `int`, and `<` on
    -- the distances is a strict weak order.
    pub calculate_answers-AreNearest :
        topk ≤ n_data
        → (answers : List (List ℕ)) × (calculate_answers fl pq points query dim n_query n_data topk
              l2
            ≡ ok answers)
          × (length answers ≡ n_query)
          × ((i : ℕ) → i < n_query → Answered answers i i)
    unfolding calculate_answers
    calculate_answers-AreNearest enough =
        let (answers, ends, size, each) = answer_queries_lem n_query 0 enough (omega arith) in
        (answers, ends, size, λ i h. subst (Answered answers i) (omega arith) (each i h))

    queries_short :
        (k i : ℕ)
        → 0 < k
        → i + k ≤ n_query
        → n_data < topk
        → answer_queries fl pq (data_distance fl pq l2 points query dim) n_data topk k i
          ≡ err out_of_bounds
    unfolding answer_queries
    queries_short zero i some_query inside short = absurd (omega (arith, some_query))
    queries_short (suc k) i some_query inside short =
        rw
          (answer_for_query_short (λ j. data_distance fl pq l2 points query dim j i)
            (row_distance fl points query l2 dim i) n_data topk short
            (λ j h.
              data_distance-row fl points query n_data n_query dim data_rows query_rows pq l2 i j
                (omega (arith, inside)) h))
          refl

    -- With fewer points than topk, and any query at all, `calculate_answers` pops an empty queue.
    pub calculate_answers_short :
        0 < n_query
        → n_data < topk
        → calculate_answers fl pq points query dim n_query n_data topk l2 ≡ err out_of_bounds
    unfolding calculate_answers
    calculate_answers_short some_query short =
        queries_short n_query 0 some_query (omega arith) short

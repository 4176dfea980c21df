-- ===== src/Answers/Saved.antt =====
-- The file that `save_answers` writes holds the nearest points, and `get_answers` reads them back.
use mqo_public.Prelude.{
  ℕ, zero, suc, ◌+◌, ◌<◌, ◌≤◌, ◌≡◌, refl, ap, subst, Bool, true, not, some, List, [], ◌∷◌, length,
  get_elem?, total, All, ok, ltb, arith, mul_mono,
}
use mqo_public.Floats.{Floats}
use mqo_public.Queue.{IsStrictWeak, PriorityQueue}
use mqo_public.Distance.{int_limit}
use mqo_public.Distance.Bounds.{HasRows}
use mqo_public.DataFiles.{Format, get_data}
use mqo_public.Answers.{
  Near, nearer, save_2d_vec_to_binary, load_2d_vec_from_binary, get_answers, save_answers,
}
use mqo_public.Answers.Order.{hits, All_of_hits, total-append, All-map, measured, places}
use mqo_public.Answers.Correct.{AreNearest, Answered, calculate_answers-AreNearest}
use mqo_public.Answers.Files.{limit, AreInts, load_2d_vec_from_binary-save_2d_vec_to_binary}

All_of_get {ℓ} :
    {A : Type ℓ} (P : A → Type 0) (xs : List A)
    → ((j : ℕ) → j < length xs → (x : A) × (get_elem? xs j ≡ some x) × P x)
    → All P xs
All_of_get P [] each = tt
All_of_get {A = A} P (x ∷ xs) each = (first (each 0 (omega arith)), All_of_get P xs rest)
  where
    first : (y : A) × (get_elem? (x ∷ xs) 0 ≡ some y) × P y → P x
    first (y, e, p) = let same : y ≡ x = cc in subst P same p

    rest : (j : ℕ) → j < length xs → (y : A) × (get_elem? xs j ≡ some y) × P y
    rest j h = each (suc j) (omega (arith, h))

All-places :
    (fl : Floats) (P : ℕ → Type 0) (near : List (Near fl))
    → All (λ a. P a.1) near
    → All P (places fl near)
All-places fl P [] h = tt
All-places fl P (a ∷ near) h = (h.0, All-places fl P near h.1)

length-places : (fl : Floats) (near : List (Near fl)) → length (places fl near) ≡ length near
length-places fl [] = refl
length-places fl (a ∷ near) = ap suc (length-places fl near)

get_answers_of_load :
    (before answers : List (List ℕ)) (bytes : List ℕ)
    → load_2d_vec_from_binary before (some bytes) ≡ (true, answers)
    → 0 < length answers
    → get_answers before (some bytes) ≡ ok answers
unfolding get_answers
get_answers_of_load before [] bytes e h = absurd (omega (arith, h))
get_answers_of_load before (r ∷ answers) bytes e h = rw e refl

module _ (fl : Floats) where
  -- Whether the index of a point is not below n.
  abbrev outside : ℕ → Near fl → Bool
  outside n a = not (ltb a.1 n)

  measured-inside :
      (d : ℕ → fl.Float) (n k i : ℕ) → i + k ≤ n → total (hits (outside n)) (measured fl d k i) ≡ 0
  measured-inside d n zero i h = refl
  measured-inside d n (suc k) i h =
      ground (arith, h, measured-inside d n k (suc i) (omega (arith, h)))

  module _ (weak : IsStrictWeak fl.lt) (pq : PriorityQueue (Near fl) (nearer fl)) where
    -- The nearest points are points.
    places-inside :
        (d : ℕ → fl.Float) (n topk : ℕ) (near : List (Near fl))
        → AreNearest fl weak pq d n topk near
        → All (λ x. x < n) (places fl near)
    places-inside d n topk near are =
        let none_outside : total (hits (outside n)) near ≡ 0 = omega (
          arith,
          are.split (hits (outside n)),
          total-append (hits (outside n)) near are.out,
          measured-inside d n n 0 (omega arith),
        ) in
        All-places fl (λ x. x < n) near
          (All-map _ _ (λ a h. ground (arith, h)) near (All_of_hits (outside n) near none_outside))

    module _ {U : Type 0} (to_float : U → fl.Float) (dpath qpath : Format fl.Float U)
        (points query : List fl.Float) (n_data n_query d dim topk : ℕ) (l2 : Bool)
        (data_rows : HasRows points n_data dim) (query_rows : HasRows query n_query dim) where
      answers-AreInts :
          (answers : List (List ℕ))
          → topk ≤ n_data
          → length answers ≡ n_query
          → ((i : ℕ)
              → i < n_query
              → Answered fl weak pq points query n_data n_query dim topk l2 data_rows query_rows
                  answers i i)
          → AreInts answers
      answers-AreInts answers enough size each =
          All_of_get (λ r. (length r < limit 8) × All (λ x. x < limit 4) r) answers ints
        where
          few : n_data ≤ int_limit
          few = omega (
            arith,
            data_rows.rows,
            data_rows.indexable,
            mul_mono 1 dim n_data (omega (arith, data_rows.positive)),
          )

          ints :
              (i : ℕ)
              → i < length answers
              → (r : List ℕ) × (get_elem? answers i ≡ some r)
                × ((length r < limit 8) × All (λ x. x < limit 4) r)
          ints i h =
              let (near, found, are) = each i (omega (arith, h, size)) in
              (
                places fl near,
                found,
                (
                  omega (arith, length-places fl near, are.size, enough, few),
                  All-map _ _ (λ x below. omega (arith, below, few)) (places fl near)
                      (places-inside _ n_data topk near are),
                ),
              )

      -- When both files can be read and hold rows of the dimension of the queries, which an `int` can
      -- index, there is a query, topk is at most the number of points, and `<` on the distances is a
      -- strict weak order, `save_answers` writes a file from which `get_answers` reads an answer for each
      -- query: the indices of its topk nearest points, the nearest first.
      pub get_answers-save_answers :
          (before : List (List ℕ))
          → get_data to_float dpath ≡ ok (n_data, d, points)
          → get_data to_float qpath ≡ ok (n_query, dim, query)
          → 0 < n_query
          → topk ≤ n_data
          → (bytes : List ℕ) × (answers : List (List ℕ)) × (save_answers fl pq to_float dpath qpath
                topk l2
              ≡ ok bytes)
            × (get_answers before (some bytes) ≡ ok answers)
            × (length answers ≡ n_query)
            × ((i : ℕ)
                → i < n_query
                → Answered fl weak pq points query n_data n_query dim topk l2 data_rows query_rows
                    answers i i)
      unfolding save_answers
      get_answers-save_answers before loads_data loads_query some_query enough =
          let (answers, ends, size, each) =
            calculate_answers-AreNearest fl weak pq points query n_data n_query dim topk l2
              data_rows query_rows enough in
          let ints = answers-AreInts answers enough size each in
          (
            save_2d_vec_to_binary answers,
            answers,
            rw (loads_data, loads_query, ends) refl,
            get_answers_of_load before answers (save_2d_vec_to_binary answers)
                (load_2d_vec_from_binary-save_2d_vec_to_binary before answers
                  (omega (
                    arith,
                    size,
                    mul_mono 1 dim n_query (omega (arith, query_rows.positive)),
                    query_rows.rows,
                    query_rows.indexable,
                  ))
                  ints)
                (omega (arith, size, some_query)),
            size,
            each,
          )

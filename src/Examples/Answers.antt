-- ===== src/Examples/Answers.antt =====
-- The nearest of five points.
use mqo_public.Prelude.{
  ℕ, ◌<◌, ◌≡◌, refl, true, some, List, [], ◌∷◌, length, ok, err, out_of_bounds, arith,
}
use mqo_public.Queue.Sorted.{list_queue}
use mqo_public.Examples.Queues.{near_queue}
use mqo_public.Distance.Bounds.{HasRows}
use mqo_public.DataFiles.{Format, fbin, get_data}
use mqo_public.Answers.{calculate_answers, save_answers, get_answers}
use mqo_public.Answers.Saved.{get_answers-save_answers}
use mqo_public.Answers.Correct.{Answered, calculate_answers-AreNearest, calculate_answers_short}
use mqo_public.Examples.Numbers.{Number, pos, numbers, numbers-IsStrictWeak}
use mqo_public.Examples.Groups.{points, points-HasRows}

-- (8, 1) and (0, 1)
abbrev two_queries : List Number
two_queries = pos 8 ∷ pos 1 ∷ pos 0 ∷ pos 1 ∷ []

two_queries-HasRows : HasRows two_queries 2 2
two_queries-HasRows = omega arith

answers_run :
    calculate_answers numbers near_queue points two_queries 2 2 5 3 true
    ≡ ok ((1 ∷ 3 ∷ 2 ∷ []) ∷ (0 ∷ 2 ∷ 4 ∷ []) ∷ [])
unfolding calculate_answers list_queue
answers_run = refl

calculate_answers_example :
    (answers : List (List ℕ)) × (calculate_answers numbers near_queue points two_queries 2 2 5 3
        true
      ≡ ok answers)
    × (length answers ≡ 2)
    × ((i : ℕ)
        → i < 2
        → Answered numbers numbers-IsStrictWeak near_queue points two_queries 5 2 2 3 true
            points-HasRows two_queries-HasRows answers i i)
calculate_answers_example =
    calculate_answers-AreNearest numbers numbers-IsStrictWeak near_queue points two_queries 5 2 2 3
      true points-HasRows two_queries-HasRows (omega arith)

calculate_answers_short_example :
    calculate_answers numbers near_queue points two_queries 2 2 5 6 true ≡ err out_of_bounds
calculate_answers_short_example =
    calculate_answers_short numbers numbers-IsStrictWeak near_queue points two_queries 5 2 2 6 true
      points-HasRows two_queries-HasRows (omega arith) (omega arith)

abbrev points_file : Format Number ℕ
points_file = fbin (some record { n = 5; d = 2; values = points })

abbrev queries_file : Format Number ℕ
queries_file = fbin (some record { n = 2; d = 2; values = two_queries })

get_answers-save_answers_example :
    (bytes : List ℕ) × (answers : List (List ℕ)) × (save_answers numbers near_queue pos points_file
        queries_file 3 true
      ≡ ok bytes)
    × (get_answers [] (some bytes) ≡ ok answers)
    × (length answers ≡ 2)
    × ((i : ℕ)
        → i < 2
        → Answered numbers numbers-IsStrictWeak near_queue points two_queries 5 2 2 3 true
            points-HasRows two_queries-HasRows answers i i)
unfolding get_data
get_answers-save_answers_example =
    get_answers-save_answers numbers numbers-IsStrictWeak near_queue pos points_file queries_file
      points two_queries 5 2 2 2 3 true points-HasRows two_queries-HasRows [] refl refl
      (omega arith) (omega arith)

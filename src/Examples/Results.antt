-- ===== src/Examples/Results.antt =====
-- Two beam sizes whose results are saved.
use mqo_public.Prelude.{none, ok, ◌⊎◌, false, All, ℕ, ◌≡◌, refl, some, List, [], ◌∷◌}
use mqo_public.Text.{put_digits, put_number}
use mqo_public.Saver.{add, save}
use mqo_public.SearchBest.{Candidate, Measured, Best, total_time, minus_one, search_best}
use mqo_public.SearchBest.Least.{Chosen, search_best-Chosen}
use mqo_public.Examples.Numbers.{pos, numbers, numbers-IsStrictWeak}

abbrev measured : List (ℕ × List ℕ)
measured = (10, 3 ∷ 4 ∷ []) ∷ (20, 5 ∷ 6 ∷ []) ∷ []

-- The recall, and a time of 0.
abbrev shown : ℕ → List ℕ
shown x = put_number x (44 ∷ 48 ∷ [])

-- "BeamSize,R1,T1,R2,T2", and the rows of 10, 15 and 20.
abbrev table : List ℕ
table =
    66 ∷ 101 ∷ 97 ∷ 109 ∷ 83 ∷ 105 ∷ 122 ∷ 101 ∷ 44 ∷ 82 ∷ 49 ∷ 44 ∷ 84 ∷ 49 ∷ 44 ∷ 82 ∷ 50 ∷ 44
    ∷ 84 ∷ 50 ∷ 10 ∷ 49 ∷ 48 ∷ 44 ∷ 51 ∷ 44 ∷ 48 ∷ 44 ∷ 52 ∷ 44 ∷ 48 ∷ 10 ∷ 49 ∷ 53 ∷ 44 ∷ 56 ∷ 44
    ∷ 48 ∷ 44 ∷ 57 ∷ 44 ∷ 48 ∷ 10 ∷ 50 ∷ 48 ∷ 44 ∷ 53 ∷ 44 ∷ 48 ∷ 44 ∷ 54 ∷ 44 ∷ 48 ∷ 10 ∷ []

save_runs : save (λ b. put_number b []) shown (add 15 (8 ∷ 9 ∷ []) measured) ≡ table
unfolding add save put_digits
save_runs = refl

-- Three candidates; the second is the fastest.
abbrev tried : Candidate → Measured numbers
tried (b, none) = record { mst_time = pos b; query_time = pos 9; recall = pos 0 }
tried (b, some m) = record { mst_time = pos b; query_time = pos m; recall = pos 1 }

abbrev tried_params : List Candidate
tried_params = (8, none) ∷ (4, some 3) ∷ (4, some 6) ∷ []

search_best_runs :
    search_best numbers (λ c. ok (tried c)) tried_params
    ≡ ok (record {
      best_time = pos 7;
      best_params = (4, some 3);
      best_mst_time = pos 4;
      best_query_time = pos 3;
      recall_value = pos 1;
    })
unfolding search_best
search_best_runs = refl

search_best_example :
    (r : Best numbers) × (search_best numbers (λ c. ok (tried c)) tried_params ≡ ok r)
    × All (λ c. numbers.d_lt (total_time numbers (tried c)) r.best_time ≡ false) tried_params
    × (Chosen numbers numbers-IsStrictWeak (λ c. ok (tried c)) tried tried_params r
        ⊎ (r.best_time ≡ pos 1000000)
          × (r.best_params ≡ (8, none))
          × (r.best_mst_time ≡ minus_one numbers))
search_best_example =
    search_best-Chosen numbers numbers-IsStrictWeak (λ c. ok (tried c)) tried (8, none)
      ((4, some 3) ∷ (4, some 6) ∷ []) (refl, (refl, (refl, tt)))

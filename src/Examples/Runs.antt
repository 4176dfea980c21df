-- ===== src/Examples/Runs.antt =====
-- Files of data, the loop over beam sizes and a run of the program for DiskANN.
use mqo_public.Prelude.{
  ℕ, zero, suc, ◌+◌, ◌*◌, ◌<◌, ◌≤◌, ◌≡◌, refl, true, Option, none, some, List, [], ◌∷◌, take, Run,
  ok, err, out_of_fuel, runtime_error, if◌then◌else◌, arith,
}
use mqo_public.Text.{put_number}
use mqo_public.Trajectory.{Edge}
use mqo_public.Examples.Queues.{group_queue, item_queue}
use mqo_public.FullMst.{save_mst}
use mqo_public.Interface.{custom, mqo}
use mqo_public.Answers.{save_2d_vec_to_binary, get_answers}
use mqo_public.DataFiles.{VectorFile, u8bin, fbin, load, get_data}
use mqo_public.DataScripts.{convert_u8bin_to_fbin, sample_and_save_norandom}
use mqo_public.DataScripts.Correct.{get_data-convert_u8bin_to_fbin, load-sample_and_save_norandom}
use mqo_public.Follow.Order.{HasAnswers}
use mqo_public.VamanaRecall.{Search}
use mqo_public.Saver.Table.{row_of}
use mqo_public.Sweep.Ends.{int_sweep, visits, sweep-visits}
use mqo_public.Drivers.{Options, Results, run_vamana}
use mqo_public.Drivers.Vamana.{IsRunnable, run_vamana-stuck}
use mqo_public.Examples.Numbers.{
  Number, pos, negsuc, infinite, plus_part, difference, times, numbers,
}
use mqo_public.Examples.Groups.{counter}
use mqo_public.Examples.Indexes.{chains, few_groups}

-- Two rows of two bytes.
abbrev bytes : VectorFile ℕ
bytes = record { n = 2; d = 2; values = 7 ∷ 0 ∷ 255 ∷ 1 ∷ [] }

-- The last row is incomplete.
abbrev truncated : VectorFile ℕ
truncated = record bytes { values = 7 ∷ 0 ∷ 255 ∷ [] }

truncated_run : get_data pos (fbin (convert_u8bin_to_fbin pos (some truncated))) ≡ err runtime_error
unfolding get_data convert_u8bin_to_fbin
truncated_run = refl

convert_example :
    get_data pos (fbin (convert_u8bin_to_fbin pos (some bytes))) ≡ get_data pos (u8bin (some bytes))
convert_example = get_data-convert_u8bin_to_fbin pos (some bytes)

norandom_example :
    (1 ≤ 2
      → (out : VectorFile ℕ) × (sample_and_save_norandom 0 (some bytes) 1 ≡ ok out)
        × (load (some out) ≡ ok (1, 2, take 2 (7 ∷ 0 ∷ 255 ∷ 1 ∷ []))))
    × (2 < 1 → sample_and_save_norandom 0 (some bytes) 1 ≡ err runtime_error)
norandom_example = load-sample_and_save_norandom 0 bytes 1 (omega arith) (omega arith) (omega arith)

abbrev double : ℕ → ℕ
double b = b + b

abbrev measured_at : ℕ → Run (List ℕ)
measured_at b = ok (b ∷ [])

sweep-visits_example :
    (results : List (ℕ × List ℕ)) × (int_sweep (λ b. ok (double b)) measured_at 41 5 40 []
      ≡ ok results)
    × ((j : ℕ)
        → row_of j results ≡ (if visits double 40 41 5 j then some (j ∷ []) else row_of j []))
sweep-visits_example =
    sweep-visits (λ b. ok (double b)) measured_at double (λ j. j ∷ []) 5 40 (λ b h k. refl)
      (λ b h k. omega (arith, h)) (λ b h. refl) 40 5 [] (omega arith) (omega arith)

-- Two queries, which the search finds.
abbrev two_rows : VectorFile Number
two_rows = record { n = 2; d = 1; values = pos 4 ∷ pos 6 ∷ [] }

abbrev true_answers : List (List ℕ)
true_answers = (0 ∷ []) ∷ (2 ∷ []) ∷ []

abbrev found_at : Search
found_at topk l x none = x ∷ []
found_at topk l x (some entry) = suc x ∷ []

abbrev one_tree : Options Number ℕ
one_tree = record {
  approx_method = custom (some (save_mst ((1, some 0) ∷ [])));
  params = few_groups;
  min_beamsize = 5;
  max_beamsize = 40;
  increment_ratio = pos 2;
  use_l2 = true;
}

found_at_some :
    (b x : ℕ) (entry : Option ℕ) → (l : ℕ) × (ls : List ℕ) × (found_at 1 b x entry ≡ l ∷ ls)
found_at_some b x none = (x, [], refl)
found_at_some b x (some entry) = (suc x, [], refl)

true_answers-HasAnswers : HasAnswers 2 true_answers
true_answers-HasAnswers zero h = (0, [], refl)
true_answers-HasAnswers (suc zero) h = (2, [], refl)
true_answers-HasAnswers (suc (suc v)) h = absurd (omega (arith, h))

queries_load : get_data pos (fbin (some two_rows)) ≡ ok (2, 1, pos 4 ∷ pos 6 ∷ [])
unfolding get_data
queries_load = refl

answers_load : get_answers [] (some (save_2d_vec_to_binary true_answers)) ≡ ok true_answers
unfolding get_answers save_2d_vec_to_binary
answers_load = refl

one_tree_run :
    mqo numbers chains group_queue item_queue pos counter one_tree.approx_method 50
      (pos 4 ∷ pos 6 ∷ [])
      2
      1
      true
      few_groups
    ≡ ok ((0, none) ∷ (1, some 0) ∷ [])
unfolding mqo save_mst
one_tree_run = refl

-- `truncate` of these numbers.
abbrev whole : Number → ℕ
whole = plus_part

-- A recall and a time of 0.
abbrev digits : ℕ → List ℕ
digits n = put_number n []

abbrev shown : Number → List ℕ
shown x = put_number (plus_part x) (44 ∷ 48 ∷ [])

difference_pos : (a b n : ℕ) → a ≡ n → b ≡ 0 → difference a b ≡ pos n
difference_pos a b n h k = ground (arith, h, k)

difference_negsuc : (a b n : ℕ) → a ≡ 0 → b ≡ suc n → difference a b ≡ negsuc n
difference_negsuc a b n h k = ground (arith, h, k)

times_one : (x : Number) → times (pos 1) x ≡ x
times_one infinite = refl
times_one (pos n) = difference_pos (1 * n + 0) (0 + 0 * n) n (omega arith) (omega arith)
times_one (negsuc n) =
    difference_negsuc (0 + 0 * suc n) (1 * suc n + 0) n (omega arith) (omega arith)

abbrev vamana_run : ℕ → Options Number ℕ → Run (Results Number)
vamana_run fuel o =
    run_vamana numbers pos chains group_queue item_queue pos counter digits shown fuel
      (λ l2 query. found_at) whole (fbin (some two_rows))
      (some (save_2d_vec_to_binary true_answers)) o

abbrev two_edges : List Edge
two_edges = (0, none) ∷ (1, some 0) ∷ []

-- The same tree with beam sizes from 1 on and a ratio of 1.
abbrev one_more : Options Number ℕ
one_more = record one_tree { min_beamsize = 1; increment_ratio = pos 1 }

one_more_ready :
    IsRunnable numbers pos chains group_queue item_queue pos counter digits shown 50 2 1
      (λ l2 query. found_at)
      whole
      (fbin (some two_rows))
      (some (save_2d_vec_to_binary true_answers))
      one_more
      (pos 4 ∷ pos 6 ∷ [])
      true_answers
      ((0, none) ∷ (1, some 0) ∷ [])
one_more_ready = record {
  read_query = queries_load;
  read_answers = answers_load;
  made = one_tree_run;
  finds = found_at_some;
  enough = omega arith;
  known = true_answers-HasAnswers;
}

run_vamana-stuck_example : vamana_run 50 one_more ≡ err out_of_fuel
run_vamana-stuck_example =
    run_vamana-stuck numbers pos chains group_queue item_queue pos counter digits shown 50 2 1
      (λ l2 query. found_at) whole (fbin (some two_rows))
      (some (save_2d_vec_to_binary true_answers)) one_more (pos 4 ∷ pos 6 ∷ []) true_answers
      two_edges one_more_ready refl (omega arith) times_one refl
